-- ===== src/Cyclic/Held.antt =====
-- What the private data of ubx/lfds_cyclic holds.
use microblx.Base.{
  ℕ, ◌+◌, ◌*◌, ◌%◌, ◌^◌, ◌≤◌, ◌<◌, ◌≡◌, refl, ◌∙◌, not, Option, some, List, [], ◌∷◌, ◌++◌, arith,
  length, take, drop, All,
}
use native.Mathlib.Nat.{mul-le-mul_right}
use microblx.Base.Int.{pos, eqb_ℤ}
use microblx.Store.{UbxData}
use microblx.Store.Bytes.{memcpy, memcpy_fits, length-memcpy, take-take-append}
use microblx.Cyclic.{Elem, RingBuffer, CyclicInfo}
use microblx.Cyclic.Queue.{Message, Limits, Queue, tail, reports}

-- An element has room for a message of full length.
abbrev pub Roomy : Limits → Elem → Type 0
Roomy l e = length e.bytes ≡ l.data_len * l.size

abbrev pub Holds : Limits → Message → Elem → Type 0
Holds l m e =
    (e.data_len ≡ pos m.len)
    × (m.len ≤ l.data_len)
    × (m.len * l.size ≤ length m.bytes)
    × (take (m.len * l.size) e.bytes ≡ take (m.len * l.size) m.bytes)
    × Roomy l e

abbrev pub Held : Limits → List Message → List Elem → Type 0
Held l [] [] = Unit
Held l (m ∷ ms) (e ∷ es) = Holds l m e × Held l ms es
Held l _ _ = ⊥

-- The private data of the block stands for a queue.
pub record Stands {S : Type 0} ⦃r : RingBuffer S⦄ (l : Limits) (inf : CyclicInfo S) (sent : List ℕ)
    (q : Queue) : Type 0 where
  pub same_type : inf.type ≡ l.type
  pub same_len : inf.data_len ≡ pos l.data_len
  pub same_partial : not (eqb_ℤ inf.allow_partial (pos 0)) ≡ l.partial
  pub held : Held l q.messages (r.queued inf.rbs)
  pub roomy : All (Roomy l) (r.spare inf.rbs)
  pub all_there : length (r.queued inf.rbs) + length (r.spare inf.rbs) ≡ l.capacity
  pub counted : inf.overruns ≡ q.dropped % 2 ^ 64
  pub reported : sent ≡ reports q.dropped

pub Held-length :
    (l : Limits) (ms : List Message) (es : List Elem) → Held l ms es → length ms ≡ length es
Held-length l [] [] h = refl
Held-length l (m ∷ ms) (e ∷ es) h = omega (arith, Held-length l ms es h.1)
Held-length l [] (e ∷ es) h = absurd h
Held-length l (m ∷ ms) [] h = absurd h

pub Held-snoc :
    (l : Limits) (ms : List Message) (es : List Elem) (m : Message) (e : Elem)
    → Held l ms es
    → Holds l m e
    → Held l (ms ++ m ∷ []) (es ++ e ∷ [])
Held-snoc l [] [] m e h k = (k, tt)
Held-snoc l (n ∷ ms) (d ∷ es) m e h k = (h.0, Held-snoc l ms es m e h.1 k)
Held-snoc l [] (d ∷ es) m e h k = absurd h
Held-snoc l (n ∷ ms) [] m e h k = absurd h

-- The message as the block is given it.
abbrev pub msg_data : Message → UbxData
msg_data m = record { refcnt = pos 0; type = m.type; len = pos m.len; buf = some m.bytes }

-- A message has the bytes of its values.
abbrev pub Complete : Limits → Message → Type 0
Complete l m = m.len * l.size ≤ length m.bytes

abbrev pub Proper : Limits → (ℕ → Option ℕ) → Type 0
Proper l sizes = (sizes l.type ≡ some l.size) × (0 < l.capacity) × (l.data_len * l.size < 2 ^ 63)

-- An element after a copy to it.
pub Holds-copied :
    (l : Limits) (m : Message) (e : Elem)
    → Roomy l e
    → Complete l m
    → m.len ≤ l.data_len
    → let bytes = take (m.len * l.size) m.bytes ++ drop (m.len * l.size) e.bytes in
      (memcpy (m.len * l.size) m.bytes e.bytes ≡ some bytes)
      × Holds l m (record { data_len = pos m.len; bytes = bytes })
Holds-copied l m e roomy complete fits =
    let n = m.len * l.size in
    let less : n ≤ length e.bytes = omega (arith, roomy, mul-le-mul_right l.size fits) in
    (
      memcpy_fits n m.bytes e.bytes complete less,
      (
        refl,
        fits,
        complete,
        take-take-append n n m.bytes (drop n e.bytes) (omega arith) complete,
        length-memcpy n m.bytes e.bytes complete less ∙ roomy,
      ),
    )

-- The oldest element.
pub Held-first :
    (l : Limits) (ms : List Message) (e : Elem) (es : List Elem)
    → Held l ms (e ∷ es)
    → Roomy l e × Held l (tail ms) es
Held-first l [] e es h = absurd h
Held-first l (m ∷ ms) e es h = (h.0.4, h.1)
