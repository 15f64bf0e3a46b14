-- ===== src/SimpleFifo/Runs.antt =====
-- What simple_fifo does in any run.
use microblx.Base.{
  or_default, ℕ, ◌*◌, ◌^◌, ◌≤◌, ◌<◌, ◌≡◌, refl, true, false, Option, none, some, List, [], ◌∷◌,
  arith, inl, length, take, ◌==◌,
}
use microblx.Base.Int.{pos}
use microblx.Data.Resize.{bytes_of}
use microblx.Cyclic.Queue.{QueueOp, write, read, Shown, written, got}
use microblx.Cyclic.Held.{msg_data}
use microblx.SimpleFifo.{FifoInfo, fifo_init, fifo_write, fifo_read}
use microblx.SimpleFifo.Stored.{Intake, take_in, nothing_read, Keeps}
use microblx.SimpleFifo.Steps.{fifo_write-Keeps, fifo_read-Keeps}

-- A run of the block: what is shown, and the private data.
abbrev pub fifo_step : (ℕ → ℕ) → QueueOp → FifoInfo → Option (Shown × FifoInfo)
fifo_step size (write m) inf = elim (fifo_write (pos 0) (λ t. some (size t)) (msg_data m) inf) [
  | none ↦ none
  | some inf1 ↦ some (written, inf1)
]
fifo_step size (read room) inf = elim (fifo_read (pos 0) (λ t. some (size t)) (msg_data room) inf) [
  | none ↦ none
  | some (ret, msg, inf1) ↦ some (got ret (bytes_of msg.buf), inf1)
]

abbrev pub fifo_run : (ℕ → ℕ) → List QueueOp → FifoInfo → Option (List Shown × FifoInfo)
fifo_run size [] inf = some ([], inf)
fifo_run size (op ∷ ops) inf = elim (fifo_step size op inf) [
  | none ↦ none
  | some (shown, inf1) ↦ elim (fifo_run size ops inf1) [
    | none ↦ none
    | some (rest, inf2) ↦ some (shown ∷ rest, inf2)
  ]
]

-- The same run where a full buffer counts as empty and nothing is read.
abbrev pub intake_run : ℕ → (ℕ → ℕ) → List QueueOp → Intake → List Shown × Intake
intake_run n size [] s = ([], s)
intake_run n size (write m ∷ ops) s =
    let (rest, s1) = intake_run n size ops (take_in n size m s) in (written ∷ rest, s1)
intake_run n size (read room ∷ ops) s =
    let (rest, s1) = intake_run n size ops s in (got (nothing_read s room) room.bytes ∷ rest, s1)

-- Messages have the bytes of their values.
abbrev pub HasBytes : (ℕ → ℕ) → List QueueOp → Type 0
HasBytes size [] = Unit
HasBytes size (write m ∷ ops) = (m.len * size m.type ≤ length m.bytes) × HasBytes size ops
HasBytes size (read room ∷ ops) = HasBytes size ops

abbrev pub nothing_stored : Intake
nothing_stored = record { type = none; stored = [] }

fifo_run-Keeps :
    (n : ℕ) (size : ℕ → ℕ) (ops : List QueueOp) (s : Intake) (inf : FifoInfo)
    → n < 2 ^ 64
    → ((t : ℕ) → 0 < size t)
    → HasBytes size ops
    → Keeps n s inf
    → (inf1 : FifoInfo) × (fifo_run size ops inf ≡ some ((intake_run n size ops s).0, inf1))
      × Keeps n (intake_run n size ops s).1 inf1
fifo_run-Keeps n size [] s inf small some_size has k = (inf, refl, k)
fifo_run-Keeps n size (write m ∷ ops) s inf small some_size (bytes, has) k =
    let (inf1, out, k1) = fifo_write-Keeps n size m s inf k small bytes in
    let (inf2, rest, k2) =
      fifo_run-Keeps n size ops (take_in n size m s) inf1 small some_size has k1 in
    (inf2, rw (fifo_run, fifo_step, out, rest) refl, k2)
fifo_run-Keeps n size (read room ∷ ops) s inf small some_size has k =
    let (inf2, rest, k2) = fifo_run-Keeps n size ops s inf small some_size has k in
    (inf2, rw (fifo_run, fifo_step, fifo_read-Keeps n size room s inf k some_size, rest) refl, k2)

-- A simple_fifo that is initialised with a size of less than 2^64 bytes, and memory at hand, runs
-- without a fault for as long as its mutex can be locked, types have a size, and messages have
-- the bytes of their values; but its reads copy nothing: they return 0, or ETYPE_MISMATCH for
-- another type than that of the first message that the buffer can hold, while something is
-- stored. The buffer begins with the bytes of the messages that were stored since it was last
-- filled completely, whereupon it counts as empty.
pub fifo_run-intake_run :
    (malloc : ℕ → Option (List ℕ)) (fifo_size : Option ℕ) (buff : List ℕ) (size : ℕ → ℕ)
    (ops : List QueueOp)
    → malloc (or_default 16 fifo_size) ≡ some buff
    → length buff ≡ or_default 16 fifo_size
    → 0 < or_default 16 fifo_size
    → or_default 16 fifo_size < 2 ^ 64
    → ((t : ℕ) → 0 < size t)
    → HasBytes size ops
    → let (shown, s) = intake_run (or_default 16 fifo_size) size ops nothing_stored in
      (inf : FifoInfo) × (inf1 : FifoInfo) × (fifo_init true malloc fifo_size ≡ (pos 0, some inf))
      × (fifo_run size ops inf ≡ some (shown, inf1))
      × (take (length s.stored) inf1.buff ≡ s.stored)
unfolding fifo_init
fifo_run-intake_run malloc fifo_size buff size ops memory whole some_room small some_size has =
    let n = or_default 16 fifo_size in
    let inf : FifoInfo = record {
      size = n;
      buff = buff;
      rdptr = 0;
      wrptr = 0;
      type = none;
      overrun_policy = 0;
      overruns = 0;
    } in
    let k : Keeps n nothing_stored inf = record {
      sized = refl;
      buffer = whole;
      start = refl;
      end = refl;
      below = some_room;
      bytes = refl;
      typed = refl;
      no_policy = refl;
      known = inl refl;
    } in
    let not_zero : (n == 0) ≡ false = ground (arith, some_room) in
    let (inf1, runs, k1) = fifo_run-Keeps n size ops nothing_stored inf small some_size has k in
    (inf, inf1, rw (fifo_init, not_zero, memory) refl, runs, k1.bytes)
