-- ===== src/Log/Delivery.antt =====
-- Every message reaches a client that keeps up, once and in order.
use microblx.Base.{
  get_elem?-found, subst, ℕ, zero, suc, ◌+◌, ◌-◌, ◌*◌, ◌^◌, ◌≤◌, ◌<◌, ◌≡◌, refl, sym, ap, ap₂, ◌∙◌,
  true, false, arith, inl, inr, ◌==◌, ltb, Bool-cases, Option, none, some, List, [], ◌∷◌, ◌++◌,
  length, get_elem?, take, replicate, length-append, append-empty, append-snoc, some_eq, All,
  All-append,
}
use microblx.Log.{LogInf, ReadStatus, no_data, new_data, overrun}
use microblx.Log.Ring.{Sized, eqb_ne}
use microblx.Log.Refine.{Stream, LogOp, log, read, Shown, stream_read, stream_step}
use microblx.Log.Runs.{stream_run, ring_run, IsFrame, start, nothing_written, ring_run-stream_run}

-- The messages that are logged, and the frames that the client is shown.
abbrev pub messages : List LogOp → List (List ℕ)
messages [] = []
messages (log msg ∷ ops) = msg ∷ messages ops
messages (read ∷ ops) = messages ops

abbrev pub frames : List Shown → List (List ℕ)
frames [] = []
frames (some (new_data, some m) ∷ out) = m ∷ frames out
frames (_ ∷ out) = frames out

-- The stream that a sequence of operations leaves.
abbrev pub stream_after : ℕ → List LogOp → Stream → Stream
stream_after cap [] s = s
stream_after cap (op ∷ ops) s = stream_after cap ops (stream_step cap op s).1

take-snoc :
    (xs : List (List ℕ)) (i : ℕ) (m : List ℕ)
    → get_elem? xs i ≡ some m
    → take (suc i) xs ≡ take i xs ++ m ∷ []
take-snoc [] i m e = cc
take-snoc (x ∷ xs) zero m e = ap (λ y. y ∷ []) (some_eq e)
take-snoc (x ∷ xs) (suc i) m e = ap (◌∷◌ x) (take-snoc xs i m e)

take-append : (i : ℕ) (xs ys : List (List ℕ)) → i ≤ length xs → take i (xs ++ ys) ≡ take i xs
take-append zero xs ys h = refl
take-append (suc i) [] ys h = absurd (omega arith)
take-append (suc i) (x ∷ xs) ys h = ap (◌∷◌ x) (take-append i xs ys (omega arith))

take_all : (xs : List (List ℕ)) → take (length xs) xs ≡ xs
take_all [] = refl
take_all (x ∷ xs) = ap (◌∷◌ x) (take_all xs)

-- What a run on from the outcome of a read adds.
abbrev Shows : ℕ → List LogOp → Stream → ReadStatus × Option (List ℕ) × Stream → Type 0
Shows cap ops s (st, frame, s1) =
    let s' = stream_after cap ops s1 in
    (s'.written ≡ s.written ++ messages ops)
    × (s'.next ≤ length s'.written)
    × (take s'.next s'.written
        ≡ take s.next s.written ++ frames (some (st, frame) ∷ stream_run cap ops s1))

read_none :
    (cap : ℕ) (s : Stream)
    → (s.next == length s.written) ≡ true
    → stream_read cap s ≡ (no_data, none, s)
read_none cap s e = rw e refl

read_lost :
    (cap : ℕ) (s : Stream)
    → (s.next == length s.written) ≡ false
    → ltb (length s.written) (s.next + cap) ≡ false
    → stream_read cap s ≡ (overrun, none, s)
read_lost cap s e h = rw (e, h) refl

read_new :
    (cap : ℕ) (s : Stream) (m : List ℕ)
    → (s.next == length s.written) ≡ false
    → ltb (length s.written) (s.next + cap) ≡ true
    → get_elem? s.written s.next ≡ some m
    → stream_read cap s ≡ (new_data, some m, record s { next = suc s.next })
read_new cap s m e h found = rw (e, h, found) refl

-- What the client has read are the first messages, and a run adds the frames that it shows.
frames_run :
    (cap : ℕ) (ops : List LogOp) (s : Stream)
    → s.next ≤ length s.written
    → let s' = stream_after cap ops s in
      (s'.written ≡ s.written ++ messages ops)
      × (s'.next ≤ length s'.written)
      × (take s'.next s'.written ≡ take s.next s.written ++ frames (stream_run cap ops s))
frames_run cap [] s le =
    (sym (append-empty s.written), le, sym (append-empty (take s.next s.written)))
frames_run cap (log msg ∷ ops) s le =
    let more = length-append s.written (msg ∷ []) in
    let (all, in_front, shown) =
      frames_run cap ops (record s { written = s.written ++ msg ∷ [] }) (omega (arith, le, more)) in
    (
      all ∙ append-snoc s.written msg (messages ops),
      in_front,
      shown
          ∙ ap
              (λ l. l ++ frames (stream_run cap ops (record s { written = s.written ++ msg ∷ [] })))
              (take-append s.next s.written (msg ∷ []) le),
    )
frames_run cap (read ∷ ops) s le = elim (Bool-cases (s.next == length s.written)) [
  | inl none_left ↦
      subst (Shows cap ops s) (sym (read_none cap s none_left)) (frames_run cap ops s le)
  | inr some_left ↦ elim (Bool-cases (ltb (length s.written) (s.next + cap))) [
    | inr lost ↦
        subst (Shows cap ops s) (sym (read_lost cap s some_left lost)) (frames_run cap ops s le)
    | inl near ↦
        let old : s.next < length s.written =
          omega (arith, le, eqb_ne s.next (length s.written) some_left) in
        let (m, found) = get_elem?-found s.written s.next old in
        let (all, in_front, shown) = frames_run cap ops (record s { next = suc s.next }) old in
        let rest = frames (stream_run cap ops (record s { next = suc s.next })) in
        subst (Shows cap ops s) (sym (read_new cap s m some_left near found)) (
          all,
          in_front,
          shown
              ∙ ap (λ l. l ++ rest) (take-snoc s.written s.next m found)
              ∙ append-snoc (take s.next s.written) m rest,
        )
  ]
]

-- A client that is less than `cap` messages behind and reads as often as it is behind has read all.
catches_up :
    (cap n : ℕ) (s : Stream)
    → s.next + n ≡ length s.written
    → n < cap
    → (stream_after cap (replicate n read) s).next ≡ length s.written
catches_up cap zero s e h = omega (arith, e)
catches_up cap (suc n) s e h =
    let left : (s.next == length s.written) ≡ false = ground (arith, e) in
    let near : ltb (length s.written) (s.next + cap) ≡ true = ground (arith, e) in
    let (m, found) = get_elem?-found s.written s.next (omega (arith, e)) in
    subst (λ o. (stream_after cap (replicate n read) o.2).next ≡ length s.written)
      (sym (read_new cap s m left near found))
      (catches_up cap n (record s { next = suc s.next }) (omega (arith, e)) (omega (arith, h)))

stream_after-append :
    (cap : ℕ) (xs ys : List LogOp) (s : Stream)
    → stream_after cap (xs ++ ys) s ≡ stream_after cap ys (stream_after cap xs s)
stream_after-append cap [] ys s = refl
stream_after-append cap (op ∷ xs) ys s = stream_after-append cap xs ys (stream_step cap op s).1

messages_reads : (ops : List LogOp) (n : ℕ) → messages (ops ++ replicate n read) ≡ messages ops
messages_reads [] zero = refl
messages_reads [] (suc n) = messages_reads [] n
messages_reads (log msg ∷ ops) n = ap (◌∷◌ msg) (messages_reads ops n)
messages_reads (read ∷ ops) n = messages_reads ops n

reads-IsFrame : (inf : LogInf) (n : ℕ) → All (IsFrame inf) (replicate n read)
reads-IsFrame inf zero = tt
reads-IsFrame inf (suc n) = (tt, reads-IsFrame inf n)

length-reads : (n : ℕ) → length (replicate n read) ≡ n
length-reads zero = refl
length-reads (suc n) = omega (arith, length-reads n)

module _ (hdr : ℕ) (inf : LogInf) (cap : ℕ) (sized : Sized hdr inf cap) where
  -- After any writes and reads on a log that starts empty, if the client is `n` messages behind
  -- and that is less than the ring holds, then `n` reads more bring it all that is left: over the
  -- whole run it is shown every message that was logged, once and in order.
  pub frames-ring_run :
      (ops : List LogOp) (n : ℕ) (bytes : ℕ → ℕ)
      → length ops + n < cap * (2 ^ 32 - 1)
      → All (IsFrame inf) ops
      → (stream_after cap ops nothing_written).next + n ≡ length (messages ops)
      → n < cap
      → frames
          (ring_run hdr inf (ops ++ replicate n read) (record { w = start; bytes = bytes }, start))
        ≡ messages ops
  frames-ring_run ops n bytes few ok behind near =
      let s = stream_after cap ops nothing_written in
      let (all, in_front, shown) = frames_run cap ops nothing_written (omega arith) in
      let whole = ops ++ replicate n read in
      let (all', in_front', shown') = frames_run cap whole nothing_written (omega arith) in
      let end : (stream_after cap whole nothing_written).next ≡ length (messages ops) =
        ap (λ s. s.next) (stream_after-append cap ops (replicate n read) nothing_written)
        ∙ catches_up cap n s (behind ∙ ap length (sym all)) near
        ∙ ap length all in
      let got : (stream_after cap whole nothing_written).written ≡ messages ops =
        all' ∙ messages_reads ops n in
      ap frames (
        ring_run-stream_run hdr inf cap sized whole bytes
          (omega (arith, few, length-append ops (replicate n read), length-reads n))
          (All-append (IsFrame inf) ops (replicate n read) ok (reads-IsFrame inf n)))
      ∙ sym shown'
      ∙ ap₂ (take) end got
      ∙ take_all (messages ops)
