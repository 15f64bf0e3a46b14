-- ===== src/Cyclic/Queue.antt =====
-- What ubx/lfds_cyclic promises: a bounded queue of messages, which drops the oldest message to
-- make room for a new one.
use microblx.Base.{
  ℕ, zero, suc, ◌+◌, ◌*◌, ◌%◌, ◌^◌, Bool, false, not, List, [], ◌∷◌, ◌++◌, length, take, drop, ltb,
  ◌==◌, if◌then◌else◌,
}
use microblx.Base.Int.{ℤ, pos}
use microblx.Store.Errors.{einvalid_type}

-- A message: its type, the number of its values, and their bytes.
pub record Message : Type 0 where
  pub type : ℕ
  pub len : ℕ
  pub bytes : List ℕ

-- What is fixed for a queue.
pub record Limits : Type 0 where
  pub type : ℕ
  pub size : ℕ
  pub data_len : ℕ
  pub capacity : ℕ
  pub partial : Bool

-- The messages, the oldest first, and the number of those that were dropped.
pub record Queue : Type 0 where
  pub messages : List Message
  pub dropped : ℕ

-- A message has the queue's type, and its full length, or at most this where shorter messages are
-- allowed.
abbrev pub accepts : Limits → Message → Bool
accepts l m =
    if not (l.type == m.type)
    then false
    else if l.partial
    then not (ltb l.data_len m.len)
    else m.len == l.data_len

abbrev pub tail : List Message → List Message
tail [] = []
tail (m ∷ ms) = ms

abbrev pub is_full : Limits → Queue → Bool
is_full l q = not (ltb (length q.messages) l.capacity)

abbrev pub enqueue : Limits → Message → Queue → Queue
enqueue l m q =
    if not (accepts l m)
    then q
    else if is_full l q
    then record { messages = tail q.messages ++ m ∷ []; dropped = suc q.dropped }
    else record q { messages = q.messages ++ m ∷ [] }

abbrev pub min_ℕ : ℕ → ℕ → ℕ
min_ℕ a b = if ltb a b then a else b

-- Reading into room for `m.len` values: the result, and the bytes of the room.
abbrev pub dequeue : Limits → Message → Queue → ℤ × List ℕ × Queue
dequeue l room q =
    if not (l.type == room.type) then (einvalid_type, room.bytes, q) else first q.messages
  where
    first : List Message → ℤ × List ℕ × Queue
    first [] = (pos 0, room.bytes, q)
    first (m ∷ ms) =
        let n = min_ℕ room.len m.len in
        (
          pos n,
          take (n * l.size) m.bytes ++ drop (n * l.size) room.bytes,
          record q { messages = ms },
        )

-- A client writes a message, or reads into its room.
pub data QueueOp : Type 0 where
  write read : Message → QueueOp

-- What an operation shows.
pub data Shown : Type 0 where
  written : Shown
  got : ℤ → List ℕ → Shown

abbrev pub queue_step : Limits → QueueOp → Queue → Shown × Queue
queue_step l (write m) q = (written, enqueue l m q)
queue_step l (read room) q = let (ret, bytes, q1) = dequeue l room q in (got ret bytes, q1)

abbrev pub queue_run : Limits → List QueueOp → Queue → List Shown × Queue
queue_run l [] q = ([], q)
queue_run l (op ∷ ops) q =
    let (shown, q1) = queue_step l op q in let (rest, q2) = queue_run l ops q1 in (shown ∷ rest, q2)

-- What is reported of `n` messages that were dropped: the count after each, the latest first.
abbrev pub reports : ℕ → List ℕ
reports zero = []
reports (suc n) = (n + 1) % 2 ^ 64 ∷ reports n
