-- ===== src/Log/Refine.antt =====
-- The log as the sequence of its messages: what the writer and a client do to it.
use microblx.Base.{
  get_elem?-found, ℕ, zero, suc, ◌+◌, ◌-◌, ◌*◌, ◌^◌, ◌≤◌, ◌<◌, ◌≡◌, ◌≢◌, refl, sym, ap, ◌∙◌, arith,
  ◌⊎◌, inl, inr, if◌then◌else◌, ◌==◌, ltb, Bool-cases, Option, none, some, List, [], ◌∷◌, ◌++◌,
  length, get_elem?, length-append,
}
use native.Mathlib.Nat.{mul-le-mul_right, suc-mul}
use microblx.Log.{
  WrapOff, LogBuf, LogInf, ReadStatus, no_data, new_data, overrun, get_bytes, log_inc_woff, log_shm,
  logc_read_frame, calc_next_roff, advance,
}
use microblx.Log.Bytes.{get_bytes-put_bytes, get_bytes-put_bytes_apart}
use microblx.Log.Ring.{eqb_ne, lt_of_ltb, ltb_le, Sized, At, advance-At, logc_has_data_lem, laps_le}

-- A log with one client: all messages that were ever written, and how many the client has read.
pub record Stream : Type 0 where
  pub written : List (List ℕ)
  pub next : ℕ

pub data LogOp : Type 0 where
  log : List ℕ → LogOp
  read : LogOp

-- What an operation shows: nothing, or the status and the frame of a read.
abbrev pub Shown : Type 0
Shown = Option (ReadStatus × Option (List ℕ))

-- A client that is less than `cap` messages behind gets the next one; one that is further behind
-- is told so.
abbrev pub stream_read : ℕ → Stream → ReadStatus × Option (List ℕ) × Stream
stream_read cap s =
    if s.next == length s.written
    then (no_data, none, s)
    else if ltb (length s.written) (s.next + cap)
    then (new_data, get_elem? s.written s.next, record s { next = suc s.next })
    else (overrun, none, s)

abbrev pub stream_step : ℕ → LogOp → Stream → Shown × Stream
stream_step cap (log msg) s = (none, record s { written = s.written ++ msg ∷ [] })
stream_step cap read s = let (st, frame, s') = stream_read cap s in (some (st, frame), s')

-- The same operations on the shared memory.
abbrev pub ring_step : ℕ → LogInf → LogOp → LogBuf × WrapOff → Shown × LogBuf × WrapOff
ring_step hdr inf (log msg) (buf, r) = (none, log_shm hdr inf msg buf, r)
ring_step hdr inf read (buf, r) =
    let (st, frame, r') = logc_read_frame hdr inf buf r in (some (st, frame), buf, r')

-- The shared memory and the client's position stand for a stream: both positions, and each of the
-- last `cap` messages in its slot.
pub record Stands (hdr : ℕ) (inf : LogInf) (cap : ℕ) (buf : LogBuf) (r : WrapOff) (s : Stream)
    : Type 0 where
  pub writer : At inf cap buf.w (length s.written)
  pub reader : At inf cap r s.next
  pub behind : s.next ≤ length s.written
  pub kept :
      (laps slot : ℕ) (msg : List ℕ)
      → slot < cap
      → length s.written ≤ laps * cap + slot + cap
      → get_elem? s.written (laps * cap + slot) ≡ some msg
      → get_bytes (slot * inf.frame_size) inf.frame_size buf.bytes ≡ msg

get_elem?-snoc :
    (xs : List (List ℕ)) (y : List ℕ) (i : ℕ) (m : List ℕ)
    → get_elem? (xs ++ y ∷ []) i ≡ some m
    → ((i ≡ length xs) × (m ≡ y)) ⊎ ((i < length xs) × (get_elem? xs i ≡ some m))
get_elem?-snoc [] y zero m e = ground arith
get_elem?-snoc [] y (suc i) m e = cc
get_elem?-snoc (x ∷ xs) y zero m e = ground arith
get_elem?-snoc (x ∷ xs) y (suc i) m e = elim (get_elem?-snoc xs y i m e) [
  | inl (a, b) ↦ inl (omega arith, b)
  | inr (a, b) ↦ inr (omega arith, b)
]

-- Counts with the same laps and slot agree, and conversely.
same_laps :
    {cap : ℕ} (n laps slot laps' slot' : ℕ)
    → n ≡ laps * cap + slot
    → n ≡ laps' * cap + slot'
    → slot < cap
    → slot' < cap
    → (laps ≡ laps') × (slot ≡ slot')
same_laps {cap} n laps slot laps' slot' e e' below below' =
    let le = laps_le n n laps slot laps' slot' e e' below' below (omega arith) in
    let ge = laps_le n n laps' slot' laps slot e' e below below' (omega arith) in
    let eq : laps ≡ laps' = omega (arith, le, ge) in (eq, omega (arith, ap (λ (t : ℕ). t * cap) eq))

-- What stays in front of or behind a frame that is written.
slots_le : (b a f : ℕ) → b < a → suc b * f ≤ a * f
slots_le b a f h = mul-le-mul_right f h

slots_apart : (f a b : ℕ) → a ≢ b → (a * f + f ≤ b * f) ⊎ (b * f + f ≤ a * f)
slots_apart f a b ne = elim (Bool-cases (ltb a b)) [
  | inl less ↦ inl (omega (arith, suc-mul a f, mul-le-mul_right f (lt_of_ltb a b less)))
  | inr more ↦ inr (omega (arith, suc-mul b f, slots_le b a f (omega (arith, ltb_le a b more, ne))))
]

module _ (hdr : ℕ) (inf : LogInf) (cap : ℕ) (sized : Sized hdr inf cap) where
  -- The slot of a message that is kept is not the one that is written next.
  kept_apart :
      (n laps slot laps' slot' : ℕ)
      → n ≡ laps * cap + slot
      → slot < cap
      → laps' * cap + slot' < n
      → suc n ≤ laps' * cap + slot' + cap
      → slot' ≢ slot
  kept_apart n laps slot laps' slot' e below lt near same = elim (Bool-cases (ltb laps' laps)) [
    | inl less ↦ absurd (
        omega (
          arith,
          slots_le laps' laps cap (lt_of_ltb laps' laps less),
          suc-mul laps' cap,
          same,
          lt,
          near,
          e,
        ))
    | inr more ↦
        let turn : laps * cap ≤ laps' * cap = mul-le-mul_right cap (ltb_le laps' laps more) in
        absurd (omega (arith, turn, same, lt, e))
  ]

  pub log-Stands :
      (buf : LogBuf) (r : WrapOff) (s : Stream) (msg : List ℕ)
      → length msg ≡ inf.frame_size
      → Stands hdr inf cap buf r s
      → Stands hdr inf cap
          (log_shm hdr inf msg buf)
          r
          (record s { written = s.written ++ msg ∷ [] })
  unfolding log_shm log_inc_woff
  log-Stands buf r s msg len st =
      let more : length (s.written ++ msg ∷ []) ≡ suc (length s.written) =
        omega (arith, length-append s.written (msg ∷ [])) in
      record {
        writer = rw more (advance-At hdr inf cap sized buf.w (length s.written) st.writer);
        reader = st.reader;
        behind = omega (arith, more, st.behind);
        kept = λ laps slot m below near found.
            elim (get_elem?-snoc s.written msg (laps * cap + slot) m found) [
              | inl (last, same) ↦
                  let (turns, slots) =
                    same_laps (length s.written) laps slot st.writer.laps st.writer.slot (sym last)
                      st.writer.count below st.writer.within in
                  let here : buf.w.off ≡ slot * inf.frame_size =
                    st.writer.at_off ∙ ap (λ (t : ℕ). t * inf.frame_size) (sym slots) in
                  rw (here, ← len)
                    (get_bytes-put_bytes (slot * length msg) msg buf.bytes ∙ sym same)
              | inr (old, was) ↦
                  let apart =
                    kept_apart (length s.written) st.writer.laps st.writer.slot laps slot
                      st.writer.count st.writer.within old (omega (arith, near, more)) in
                  get_bytes-put_bytes_apart (slot * inf.frame_size) inf.frame_size buf.w.off msg
                    buf.bytes
                    (rw (st.writer.at_off, len)
                      (slots_apart inf.frame_size slot st.writer.slot apart))
                  ∙ st.kept laps slot m below (omega (arith, near, more)) was
            ];
      }

  -- A read shows what the stream shows, and the client goes on with it.
  pub read-Stands :
      (buf : LogBuf) (r : WrapOff) (s : Stream)
      → length s.written < cap * (2 ^ 32 - 1)
      → Stands hdr inf cap buf r s
      → (r' : WrapOff) × (logc_read_frame hdr inf buf r
          ≡ ((stream_read cap s).0, (stream_read cap s).1, r'))
        × Stands hdr inf cap buf r' (stream_read cap s).2
  unfolding logc_read_frame calc_next_roff
  read-Stands buf r s few st =
      let status =
        logc_has_data_lem hdr inf cap sized buf r (length s.written) s.next st.writer st.reader
          st.behind (omega (arith, few)) in
      elim (Bool-cases (s.next == length s.written)) [
        | inl none_left ↦ (r, rw (status, logc_read_frame, none_left) refl, rw none_left st)
        | inr some_left ↦ elim (Bool-cases (ltb (length s.written) (s.next + cap))) [
          | inr lost ↦
              (r, rw (status, logc_read_frame, some_left, lost) refl, rw (some_left, lost) st)
          | inl near ↦
              let old : s.next < length s.written =
                omega (arith, st.behind, eqb_ne s.next (length s.written) some_left) in
              let (msg, found) = get_elem?-found s.written s.next old in
              let at = st.reader in
              let near' = lt_of_ltb (length s.written) (s.next + cap) near in
              let frame : get_bytes r.off inf.frame_size buf.bytes ≡ msg = rw at.at_off (
                st.kept at.laps at.slot msg at.within (omega (arith, near', at.count))
                  (rw (← at.count) found)) in
              (
                advance hdr inf inf.frame_size r,
                rw (status, logc_read_frame, some_left, near, frame, found) refl,
                rw (some_left, near)
                    (record {
                      writer = st.writer;
                      reader = advance-At hdr inf cap sized r s.next at;
                      behind = old;
                      kept = st.kept;
                    }),
              )
        ]
      ]
