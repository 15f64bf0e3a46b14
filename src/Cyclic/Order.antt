-- ===== src/Cyclic/Order.antt =====
-- Which messages are read from ubx/lfds_cyclic, and in which order.
use microblx.Base.{
  ℕ, zero, suc, ◌-◌, ◌*◌, ◌^◌, ◌≤◌, ◌<◌, ◌≡◌, refl, sym, ap, ap₂, subst, ◌∙◌, true, Option, some,
  List, [], ◌∷◌, ◌++◌, map, arith, length, take, drop, replicate, All, ltb, ◌==◌, Bool-cases, inl,
  inr, append-snoc, append-empty, length-append,
}
use microblx.Base.Int.{ℤ, pos}
use microblx.Cyclic.{RingBuffer, CyclicInfo, CyclicConfig, cyclic_init}
use microblx.Cyclic.Queue.{
  Message, Limits, Queue, accepts, tail, enqueue, min_ℕ, dequeue, QueueOp, write, read, Shown,
  written, got, queue_run, reports,
}
use microblx.Cyclic.Refine.{
  AllComplete, limits, no_messages, Configured, ring_run, cyclic_run-queue_run,
}

module _ {ℓ} {A : Type ℓ} where
  drop-snoc :
      (n : ℕ) (xs : List A) (x : A) → n ≤ length xs → drop n xs ++ x ∷ [] ≡ drop n (xs ++ x ∷ [])
  drop-snoc zero xs x h = refl
  drop-snoc (suc n) [] x h = absurd (omega arith)
  drop-snoc (suc n) (y ∷ xs) x h = drop-snoc n xs x (omega arith)

  length-drop : (n : ℕ) (xs : List A) → length (drop n xs) ≡ length xs - n
  length-drop zero xs = omega arith
  length-drop (suc n) [] = omega arith
  length-drop (suc n) (x ∷ xs) = omega (arith, length-drop n xs)

  take_all : (n : ℕ) (xs : List A) → length xs ≡ n → take n xs ≡ xs
  take_all zero [] h = refl
  take_all zero (x ∷ xs) h = absurd (omega arith)
  take_all (suc n) [] h = refl
  take_all (suc n) (x ∷ xs) h = ap (◌∷◌ x) (take_all n xs (omega arith))

  drop_all : (n : ℕ) (xs : List A) → length xs ≡ n → drop n xs ≡ []
  drop_all zero [] h = refl
  drop_all zero (x ∷ xs) h = absurd (omega arith)
  drop_all (suc n) [] h = refl
  drop_all (suc n) (x ∷ xs) h = drop_all n xs (omega arith)

  drop-empty : (n : ℕ) → drop {A = A} n [] ≡ []
  drop-empty zero = refl
  drop-empty (suc n) = refl

  All-drop {κ} : (P : A → Type κ) (n : ℕ) (xs : List A) → All P xs → All P (drop n xs)
  All-drop P zero xs h = h
  All-drop P (suc n) [] h = tt
  All-drop P (suc n) (x ∷ xs) h = All-drop P n xs h.1

tail-drop : (n : ℕ) (xs : List Message) → tail (drop n xs) ≡ drop (suc n) xs
tail-drop zero [] = refl
tail-drop (suc n) [] = refl
tail-drop zero (x ∷ xs) = refl
tail-drop (suc n) (x ∷ xs) = tail-drop n xs

-- The last `n` of some messages.
abbrev pub latest : ℕ → List Message → List Message
latest n ms = drop (length ms - n) ms

-- A message of full length, with its bytes.
abbrev pub Full : Limits → Message → Type 0
Full l m = (m.type ≡ l.type) × (m.len ≡ l.data_len) × (length m.bytes ≡ l.data_len * l.size)

Full-accepts : (l : Limits) (m : Message) → Full l m → accepts l m ≡ true
Full-accepts l m (typed, len, _) = ground arith

-- The queue has the latest of the messages that were put into it.
abbrev Latest : Limits → List Message → Queue → Type 0
Latest l ms q = (q.messages ≡ latest l.capacity ms) × (q.dropped ≡ length ms - l.capacity)

enqueue-Latest :
    (l : Limits) (ms : List Message) (m : Message) (q : Queue)
    → 0 < l.capacity
    → Full l m
    → Latest l ms q
    → Latest l (ms ++ m ∷ []) (enqueue l m q)
enqueue-Latest l ms m q some_room full (same, count) =
    let d = length ms - l.capacity in
    let ok = Full-accepts l m full in
    let here : length q.messages ≡ length ms - d = ap length same ∙ length-drop d ms in
    let longer = length-append ms (m ∷ []) in
    elim (Bool-cases (ltb (length q.messages) l.capacity)) [
      | inl room ↦
          rw (ok, room)
            (
              ap (λ xs. xs ++ m ∷ []) same
                  ∙ drop-snoc d ms m (omega arith)
                  ∙ ap (λ n. drop n (ms ++ m ∷ [])) (ground (arith, here, longer)),
              ground (arith, here, longer, count),
            )
      | inr full_now ↦
          rw (ok, full_now)
            (
              ap (λ xs. tail xs ++ m ∷ []) same
                  ∙ ap (λ xs. xs ++ m ∷ []) (tail-drop d ms)
                  ∙ drop-snoc (suc d) ms m (ground (arith, here))
                  ∙ ap (λ n. drop n (ms ++ m ∷ [])) {x = suc d} (ground (arith, here, longer)),
              ground (arith, here, longer, count),
            )
    ]

-- Writing messages, and then reading as often.
abbrev pub writes : List Message → List QueueOp
writes ms = map write ms

abbrev pub reads : ℕ → Message → List QueueOp
reads n room = replicate n (read room)

abbrev pub shown_as : Message → Shown
shown_as m = got (pos m.len) m.bytes

writes-Latest :
    (l : Limits) (ms : List Message) (past : List Message) (q : Queue) (ops : List QueueOp)
    → 0 < l.capacity
    → All (Full l) ms
    → Latest l past q
    → (q' : Queue) × (queue_run l (writes ms ++ ops) q
        ≡ (replicate (length ms) written ++ (queue_run l ops q').0, (queue_run l ops q').1))
      × Latest l (past ++ ms) q'
writes-Latest l [] past q ops some_room full is =
    (q, refl, subst (λ ms. Latest l ms q) (sym (append-empty past)) is)
writes-Latest l (m ∷ ms) past q ops some_room full is =
    let (q', runs, is') =
      writes-Latest l ms (past ++ m ∷ []) (enqueue l m q) ops some_room full.1
        (enqueue-Latest l past m q some_room full.0 is) in
    (
      q',
      ap (λ (out : List Shown × Queue). (written ∷ out.0, out.1)) runs,
      subst (λ xs. Latest l xs q') (append-snoc past m ms) is',
    )

-- Reading a message with room for it.
dequeue_first :
    (l : Limits) (room m : Message) (ms : List Message) (k : ℕ)
    → Full l room
    → Full l m
    → dequeue l room (record { messages = m ∷ ms; dropped = k })
      ≡ (pos m.len, m.bytes, record { messages = ms; dropped = k })
dequeue_first l room m ms k (typed, len, size) (_, len', size') =
    let n = min_ℕ room.len m.len in
    let same : n ≡ m.len = ground (arith, len, len') in
    let exact : n * l.size ≡ l.data_len * l.size = ap (λ x. x * l.size) (same ∙ len') in
    let bytes : take (n * l.size) m.bytes ++ drop (n * l.size) room.bytes ≡ m.bytes =
      rw
        (
          take_all (n * l.size) m.bytes (omega (arith, size', exact)),
          drop_all (n * l.size) room.bytes (omega (arith, size, exact)),
        )
        (append-empty m.bytes) in
    let is_type : (l.type == room.type) ≡ true = ground (arith, typed) in
    rw is_type (
      ap₂ (λ (r : ℤ) (b : List ℕ). (r, b, record { messages = ms; dropped = k })) (ap pos same)
        bytes)

reads_lem :
    (l : Limits) (room : Message) (ms : List Message) (k : ℕ)
    → Full l room
    → All (Full l) ms
    → queue_run l (reads (length ms) room) (record { messages = ms; dropped = k })
      ≡ (map shown_as ms, record { messages = []; dropped = k })
reads_lem l room [] k full all = refl
reads_lem l room (m ∷ ms) k full all =
    let step = dequeue_first l room m ms k full all.0 in
    let rest = reads_lem l room ms k full all.1 in
    ap
      (λ (out : ℤ × List ℕ × Queue).
        let (shown, q) = queue_run l (reads (length ms) room) out.2 in (got out.0 out.1 ∷ shown, q))
      step
    ∙ ap (λ (out : List Shown × Queue). (shown_as m ∷ out.0, out.1)) rest

writes-Complete :
    (l : Limits) (ms : List Message) (ops : List QueueOp)
    → All (Full l) ms
    → AllComplete l ops
    → AllComplete l (writes ms ++ ops)
writes-Complete l [] ops all rest = rest
writes-Complete l (m ∷ ms) ops ((_, len, size), all) rest =
    let exact : m.len * l.size ≡ l.data_len * l.size = ap (λ x. x * l.size) len in
    (omega (arith, exact, size), writes-Complete l ms ops all rest)

reads-Complete : (l : Limits) (n : ℕ) (room : Message) → Full l room → AllComplete l (reads n room)
reads-Complete l zero room full = tt
reads-Complete l (suc n) room (typed, len, size) =
    let exact : room.len * l.size ≡ l.data_len * l.size = ap (λ x. x * l.size) len in
    (omega (arith, exact, size), reads-Complete l n room (typed, len, size))

-- After any messages of the block's type and full length were written to a block with valid
-- configs, as many reads as there are messages left, with room for a message, get the latest
-- `buffer_len` of the messages, all of them if they are not more, in the order in which they were
-- written and with all their bytes; the number of the others is what the port `overruns` told, each
-- time that it changed.
pub latest_messages_read :
    {S : Type 0} ⦃r : RingBuffer S⦄ (cfg : CyclicConfig) (data_len t size : ℕ)
    (sizes : ℕ → Option ℕ) (ms : List Message) (room : Message)
    → Configured S cfg data_len t size
    → sizes t ≡ some size
    → data_len * size < 2 ^ 63
    → All (Full (limits cfg data_len t size)) ms
    → Full (limits cfg data_len t size) room
    → let n = (limits cfg data_len t size).capacity in
      let left = latest n ms in
      (inf : CyclicInfo S) × (inf' : CyclicInfo S) × (cyclic_init true cfg ≡ (pos 0, some inf))
      × (ring_run sizes (writes ms ++ reads (length left) room) (inf, [])
          ≡ some
              (replicate (length ms) written ++ map shown_as left, inf', reports (length ms - n)))
latest_messages_read cfg data_len t size sizes ms room c sized small full full_room =
    let l = limits cfg data_len t size in
    let left = latest l.capacity ms in
    let ops = reads (length left) room in
    let (inf, inf', out, runs) =
      cyclic_run-queue_run cfg data_len t size sizes (writes ms ++ ops) c sized small
        (writes-Complete l ms ops full (reads-Complete l (length left) room full_room)) in
    let (q, wrote, (has, count)) =
      writes-Latest l ms [] no_messages ops c.some_room full
        (sym (drop-empty (0 - l.capacity)), omega arith) in
    let queue : q ≡ record { messages = left; dropped = length ms - l.capacity } =
      ap₂ (λ (xs : List Message) (k : ℕ). record { messages = xs; dropped = k }) has count in
    let all : queue_run l (writes ms ++ ops) no_messages ≡ (
      replicate (length ms) written ++ map shown_as left,
      record { messages = []; dropped = length ms - l.capacity },
    ) =
      wrote
      ∙ ap
          (λ (p : Queue).
            let (shown, q1) = queue_run l ops p in (replicate (length ms) written ++ shown, q1))
          queue
      ∙ ap (λ (out : List Shown × Queue). (replicate (length ms) written ++ out.0, out.1))
          (reads_lem l room left (length ms - l.capacity) full_room
            (All-drop (Full l) (length ms - l.capacity) ms full)) in
    (
      inf,
      inf',
      out,
      runs ∙ ap (λ (o : List Shown × Queue). some (o.0, inf', reports o.1.dropped)) all,
    )
