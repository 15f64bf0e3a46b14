-- ===== src/Cyclic/Read.antt =====
-- cyclic_read takes the oldest message from the queue.
use microblx.Base.{
  ℕ, zero, suc, ◌+◌, ◌*◌, ◌%◌, ◌^◌, ◌≤◌, ◌<◌, ◌≡◌, refl, sym, ap, subst, ◌∙◌, true, false, Option,
  some, List, [], ◌∷◌, ◌++◌, arith, inl, inr, length, take, drop, All, ◌==◌, if◌then◌else◌,
  Bool-cases,
}
use native.Mathlib.Nat.{mul-le-mul_right}
use microblx.Base.Int.{ℤ, pos, ltb_ℤ, to_u64}
use microblx.Store.{UbxData}
use microblx.Store.Bytes.{memcpy, memcpy_fits, take-fewer}
use microblx.Cyclic.{Elem, RingBuffer, CyclicInfo, cyclic_read}
use microblx.Cyclic.Queue.{Message, Limits, Queue, min_ℕ, dequeue}
use microblx.Cyclic.Held.{Roomy, Held, Stands, msg_data, Complete, Proper}

min_lem : (a b : ℕ) → (if ltb_ℤ (pos a) (pos b) then pos a else pos b) ≡ pos (min_ℕ a b)
min_lem a b = ground arith

min_le : (a b : ℕ) → (min_ℕ a b ≤ a) × (min_ℕ a b ≤ b)
min_le a b = (ground arith, ground arith)

u64_lem : (size n : ℕ) → n * size < 2 ^ 64 → size * to_u64 (pos n) % 2 ^ 64 ≡ n * size
u64_lem zero n small = omega arith
u64_lem (suc k) n small =
    let product : n * suc k ≡ n + n * k = omega arith in
    let exact : n % 2 ^ 64 ≡ n = omega (arith, product, small) in
    ap (λ x. suc k * x % 2 ^ 64) exact ∙ omega (arith, small)

module _ {S : Type 0} ⦃r : RingBuffer S⦄ where
  -- The oldest element is copied to the room of the reader.
  cyclic_read_copies :
      (sizes : ℕ → Option ℕ) (room : Message) (inf : CyclicInfo S) (elem : Elem) (rest : S)
      (size : ℕ) (n : ℕ) (bytes : List ℕ)
      → (inf.type == room.type) ≡ true
      → r.get_read_element inf.rbs ≡ some (elem, rest)
      → elem.data_len ≡ pos n
      → sizes inf.type ≡ some size
      → min_ℕ room.len n * size < 2 ^ 64
      → memcpy (min_ℕ room.len n * size) elem.bytes room.bytes ≡ some bytes
      → cyclic_read sizes (msg_data room) inf
        ≡ some (
          pos (min_ℕ room.len n),
          record (msg_data room) { buf = some bytes },
          record inf { rbs = r.put_read_element elem rest },
        )
  unfolding cyclic_read
  cyclic_read_copies sizes room inf elem rest size n bytes typed out len sized small copied =
      let took : (if ltb_ℤ (pos room.len) elem.data_len then pos room.len else elem.data_len)
          ≡ pos (min_ℕ room.len n) =
        rw len (min_lem room.len n) in
      rw (cyclic_read, typed, out, sized, took, u64_lem size (min_ℕ room.len n) small, copied)
        (ap
          (λ k. some (
            k,
            record (msg_data room) { buf = some bytes },
            record inf { rbs = r.put_read_element elem rest },
          ))
          took)

  -- What is left of a read that returns.
  abbrev pub Taken :
      Limits → Message → ℤ × List ℕ × Queue → List ℕ → Option (ℤ × UbxData × CyclicInfo S) → Type 0
  Taken l room (ret, bytes, q) sent out =
      (inf : CyclicInfo S) × (out ≡ some (ret, record (msg_data room) { buf = some bytes }, inf))
      × Stands l inf sent q

  cyclic_read_first :
      (l : Limits) (sizes : ℕ → Option ℕ) (room : Message) (inf : CyclicInfo S) (sent : List ℕ)
      (dropped : ℕ) (ms : List Message) (es : List Elem)
      → Proper l sizes
      → Complete l room
      → (l.type == room.type) ≡ true
      → Stands l inf sent (record { messages = ms; dropped = dropped })
      → r.queued inf.rbs ≡ es
      → Taken l room
          (dequeue l room (record { messages = ms; dropped = dropped }))
          sent
          (cyclic_read sizes (msg_data room) inf)
  unfolding cyclic_read
  cyclic_read_first l sizes room inf sent dropped [] [] proper complete typed s queue =
      let typed1 : (inf.type == room.type) ≡ true = rw s.same_type typed in
      let none_there = r.get_read_empty inf.rbs queue in
      rw typed (inf, rw (cyclic_read, typed1, none_there) refl, s)
  cyclic_read_first l sizes room inf sent dropped [] (e ∷ es) proper complete typed s queue =
      absurd (subst (Held l []) queue s.held)
  cyclic_read_first l sizes room inf sent dropped (m ∷ ms) [] proper complete typed s queue =
      absurd (subst (Held l (m ∷ ms)) queue s.held)
  cyclic_read_first l sizes room inf sent dropped (m ∷ ms) (e ∷ es) (sized, _, small) complete typed
        s queue =
      let ((len, fits, has, same, roomy), held) = subst (Held l (m ∷ ms)) queue s.held in
      let n = min_ℕ room.len m.len in
      let (le_room, le_m) = min_le room.len m.len in
      let le_bytes : n * l.size ≤ length room.bytes =
        omega (arith, complete, mul-le-mul_right l.size le_room) in
      let le_sent : n * l.size ≤ m.len * l.size = mul-le-mul_right l.size le_m in
      let le_elem : m.len * l.size ≤ l.data_len * l.size = mul-le-mul_right l.size fits in
      let copied : memcpy (n * l.size) e.bytes room.bytes
          ≡ some (take (n * l.size) m.bytes ++ drop (n * l.size) room.bytes) =
        memcpy_fits (n * l.size) e.bytes room.bytes (omega (arith, le_sent, le_elem, roomy))
          le_bytes
        ∙ ap (λ xs. some (xs ++ drop (n * l.size) room.bytes))
            (take-fewer (n * l.size) (m.len * l.size) e.bytes m.bytes le_sent same) in
      let (rest, out, queue1, spare1) = r.get_read_oldest inf.rbs e es queue in
      let (queue2, spare2) = r.put_read_lem e rest in
      let typed1 : (inf.type == room.type) ≡ true = rw s.same_type typed in
      let done =
        cyclic_read_copies sizes room inf e rest l.size m.len
          (take (n * l.size) m.bytes ++ drop (n * l.size) room.bytes) typed1 out len
          (rw s.same_type sized) (omega (arith, le_sent, le_elem, small)) copied in
      let inf1 = record inf { rbs = r.put_read_element e rest } in
      rw typed (
        inf1,
        done,
        record {
          same_type = s.same_type;
          same_len = s.same_len;
          same_partial = s.same_partial;
          held = subst (Held l ms) (sym (queue2 ∙ queue1)) held;
          roomy = subst (All (Roomy l)) (sym (spare2 ∙ ap (◌∷◌ e) spare1)) (roomy, s.roomy);
          all_there = omega (
            arith,
            s.all_there,
            ap length queue,
            ap length queue1,
            ap length queue2,
            ap length spare1,
            ap length spare2,
          );
          counted = s.counted;
          reported = s.reported;
        },
      )

  pub cyclic_read-Taken :
      (l : Limits) (sizes : ℕ → Option ℕ) (room : Message) (inf : CyclicInfo S) (sent : List ℕ)
      (q : Queue)
      → Proper l sizes
      → Complete l room
      → Stands l inf sent q
      → Taken l room (dequeue l room q) sent (cyclic_read sizes (msg_data room) inf)
  unfolding cyclic_read
  cyclic_read-Taken l sizes room inf sent q proper complete s =
      elim (Bool-cases (l.type == room.type)) [
        | inl typed ↦
            cyclic_read_first l sizes room inf sent q.dropped q.messages (r.queued inf.rbs) proper
              complete typed s refl
        | inr other ↦
            let other1 : (inf.type == room.type) ≡ false = rw s.same_type other in
            rw other (inf, rw (cyclic_read, other1) refl, s)
      ]
