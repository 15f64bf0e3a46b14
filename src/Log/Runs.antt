-- ===== src/Log/Runs.antt =====
-- Runs of the writer and a client on a log that starts empty.
use microblx.Base.{
  ℕ, ◌+◌, ◌-◌, ◌*◌, ◌^◌, ◌<◌, ◌≡◌, refl, ap, arith, none, some, List, [], ◌∷◌, ◌++◌, length,
  length-append, All,
}
use microblx.Log.{WrapOff, LogBuf, LogInf, log_shm}
use microblx.Log.Ring.{Sized, At}
use microblx.Log.Refine.{
  Stream, LogOp, log, read, Shown, stream_read, stream_step, ring_step, Stands, log-Stands,
  read-Stands,
}

-- What is shown by a sequence of operations, on the stream and on the shared memory.
abbrev pub stream_run : ℕ → List LogOp → Stream → List Shown
stream_run cap [] s = []
stream_run cap (op ∷ ops) s = let (out, s') = stream_step cap op s in out ∷ stream_run cap ops s'

abbrev pub ring_run : ℕ → LogInf → List LogOp → LogBuf × WrapOff → List Shown
ring_run hdr inf [] m = []
ring_run hdr inf (op ∷ ops) m =
    let (out, buf, r) = ring_step hdr inf op m in out ∷ ring_run hdr inf ops (buf, r)

-- Every message that is logged fills a frame.
abbrev pub IsFrame : LogInf → LogOp → Type 0
IsFrame inf (log msg) = length msg ≡ inf.frame_size
IsFrame inf read = Unit {0}

abbrev pub start : WrapOff
start = record { wrap = 0; off = 0 }

abbrev pub nothing_written : Stream
nothing_written = record { written = []; next = 0 }

read_written : (cap : ℕ) (s : Stream) → (stream_read cap s).2.written ≡ s.written
read_written cap s = ground arith

module _ (hdr : ℕ) (inf : LogInf) (cap : ℕ) (sized : Sized hdr inf cap) where
  run_same :
      (ops : List LogOp) (buf : LogBuf) (r : WrapOff) (s : Stream)
      → length s.written + length ops < cap * (2 ^ 32 - 1)
      → All (IsFrame inf) ops
      → Stands hdr inf cap buf r s
      → ring_run hdr inf ops (buf, r) ≡ stream_run cap ops s
  run_same [] buf r s few ok st = refl
  run_same (log msg ∷ ops) buf r s few ok st = ap (◌∷◌ none) (
      run_same ops (log_shm hdr inf msg buf) r (record s { written = s.written ++ msg ∷ [] })
        (omega (arith, few, length-append s.written (msg ∷ []))) ok.1
        (log-Stands hdr inf cap sized buf r s msg ok.0 st))
  run_same (read ∷ ops) buf r s few ok st =
      let (r', now, st') = read-Stands hdr inf cap sized buf r s (omega (arith, few)) st in
      let same = read_written cap s in
      rw now (
        ap (◌∷◌ (some ((stream_read cap s).0, (stream_read cap s).1)))
          (run_same ops buf r' (stream_read cap s).2 (omega (arith, few, ap length same)) ok.1 st'))

  empty-Stands :
      (bytes : ℕ → ℕ)
      → Stands hdr inf cap (record { w = start; bytes = bytes }) start nothing_written
  empty-Stands bytes =
      let here : At inf cap start 0 = record {
        laps = 0;
        slot = 0;
        count = omega arith;
        within = sized.some_fit;
        at_off = omega arith;
        at_wrap = refl;
      } in
      record {
        writer = here;
        reader = here;
        behind = omega arith;
        kept = λ laps slot msg below near found. cc;
      }

  -- From an empty log on, whatever sequence of writes and reads follows, the client is shown what
  -- it would be shown of the sequence of all messages: the next message while it is less than `cap`
  -- messages behind, OVERRUN while it is further behind, and NO_DATA while it is not behind. The
  -- ring holds `cap` frames, every message fills one, and the wrap counter has not come round.
  pub ring_run-stream_run :
      (ops : List LogOp) (bytes : ℕ → ℕ)
      → length ops < cap * (2 ^ 32 - 1)
      → All (IsFrame inf) ops
      → ring_run hdr inf ops (record { w = start; bytes = bytes }, start)
        ≡ stream_run cap ops nothing_written
  ring_run-stream_run ops bytes few ok =
      run_same ops (record { w = start; bytes = bytes }) start nothing_written (omega (arith, few))
        ok (empty-Stands bytes)
