-- ===== src/Cyclic/Write.antt =====
-- cyclic_write puts a message into the queue.
use microblx.Base.{
  ℕ, suc, ◌+◌, ◌*◌, ◌%◌, ◌^◌, ◌≤◌, ◌<◌, ◌≡◌, refl, sym, ap, ap₂, subst, ◌∙◌, Bool, true, false, not,
  Option, some, List, [], ◌∷◌, ◌++◌, arith, inl, inr, length, length-append, take, drop, All, ◌==◌,
  if◌then◌else◌, Bool-cases,
}
use native.Mathlib.Nat.{mul-le-mul_right}
use microblx.Base.Int.{ℤ, pos, eqb_ℤ, to_u64, ◌*ℤ◌, pos-*ℤ, to_u64_small}
use microblx.Store.Bytes.{memcpy}
use microblx.Data.{data_size}
use microblx.Cyclic.{Elem, RingBuffer, CyclicInfo, len_refused, count_overrun, cyclic_write}
use microblx.Cyclic.Queue.{Message, Limits, Queue, accepts, tail, is_full, enqueue, reports}
use microblx.Cyclic.Held.{
  Roomy, Held, Stands, Held-length, Held-snoc, msg_data, Complete, Proper, Holds-copied, Held-first,
}

accepts_lem :
    (l : Limits) (m : Message)
    → accepts l m ≡ true
    → (l.type ≡ m.type) × (m.len ≤ l.data_len) × ((l.partial ≡ false) → m.len ≡ l.data_len)
accepts_lem l m ok = (ground arith, ground arith, λ whole. ground arith)

len_refused_lem :
    (l : Limits) (m : Message) (partial : ℤ)
    → not (eqb_ℤ partial (pos 0)) ≡ l.partial
    → (l.type == m.type) ≡ true
    → len_refused partial (pos l.data_len) (pos m.len) ≡ not (accepts l m)
len_refused_lem l m partial same typed = ground arith

reports_lem :
    (over : Bool) (n k : ℕ) (sent : List ℕ)
    → n ≡ k % 2 ^ 64
    → sent ≡ reports k
    → let k1 = if over then suc k else k in
      ((count_overrun over n sent).0 ≡ k1 % 2 ^ 64) × ((count_overrun over n sent).1 ≡ reports k1)
reports_lem false n k sent same told = (same, told)
reports_lem true n k sent same told =
    let next : (n + 1) % 2 ^ 64 ≡ (k + 1) % 2 ^ 64 = omega (arith, same) in
    (omega (arith, next), ap₂ ◌∷◌ next told)

size_lem : (n size : ℕ) → n * size < 2 ^ 64 → to_u64 (pos n *ℤ pos size) ≡ n * size
size_lem n size small = ap to_u64 (pos-*ℤ n size) ∙ to_u64_small (n * size) small

module _ {S : Type 0} ⦃r : RingBuffer S⦄ where
  -- The element that a writer gets.
  record Fetched (l : Limits) (rbs : S) (q : Queue) : Type 0 where
    pub elem : Elem
    pub rest : S
    pub over : Bool
    pub fetched : r.get_write_element rbs ≡ (elem, over, rest)
    pub over_full : over ≡ is_full l q
    pub elem_roomy : Roomy l elem
    pub still_held : Held l (if over then tail q.messages else q.messages) (r.queued rest)
    pub still_roomy : All (Roomy l) (r.spare rest)
    pub one_out : length (r.queued rest) + length (r.spare rest) + 1 ≡ l.capacity

  fetch :
      (l : Limits) (inf : CyclicInfo S) (sent : List ℕ) (q : Queue)
      → 0 < l.capacity
      → Stands l inf sent q
      → (free waiting : List Elem) → r.spare inf.rbs ≡ free
      → r.queued inf.rbs ≡ waiting
      → Fetched l inf.rbs q
  fetch l inf sent q some_room s (e ∷ es) waiting spares queue =
      let (rest, out, queue1, spare1) = r.get_write_spare inf.rbs e es spares in
      let roomy : All (Roomy l) (e ∷ es) = subst (All (Roomy l)) spares s.roomy in
      let held = Held-length l q.messages (r.queued inf.rbs) s.held in
      let some_free : length (r.spare inf.rbs) ≡ suc (length es) = ap length spares in
      record {
        elem = e;
        rest = rest;
        over = false;
        fetched = out;
        over_full = ground (arith, held, some_free, s.all_there);
        elem_roomy = roomy.0;
        still_held = subst (Held l q.messages) (sym queue1) s.held;
        still_roomy = subst (All (Roomy l)) (sym spare1) roomy.1;
        one_out = omega (arith, ap length queue1, ap length spare1, some_free, s.all_there);
      }
  fetch l inf sent q some_room s [] [] spares queue =
      absurd (omega (arith, ap length spares, ap length queue, s.all_there))
  fetch l inf sent q some_room s [] (e ∷ es) spares queue =
      let (rest, out, queue1, spare1) = r.get_write_full inf.rbs e es spares queue in
      let held = Held-length l q.messages (r.queued inf.rbs) s.held in
      let first = Held-first l q.messages e es (subst (Held l q.messages) queue s.held) in
      record {
        elem = e;
        rest = rest;
        over = true;
        fetched = out;
        over_full = ground (arith, held, ap length spares, s.all_there);
        elem_roomy = first.0;
        still_held = subst (Held l (tail q.messages)) (sym queue1) first.1;
        still_roomy = subst (All (Roomy l)) (sym spare1) tt;
        one_out = omega (
          arith,
          ap length queue1,
          ap length spare1,
          ap length queue,
          ap length spares,
          s.all_there,
        );
      }

  -- What is left of an operation that succeeds.
  abbrev pub After : Limits → Queue → Option (CyclicInfo S × List ℕ) → Type 0
  After l q out =
      (inf : CyclicInfo S) × (sent : List ℕ) × (out ≡ some (inf, sent)) × Stands l inf sent q

  -- A message of the right type and length is copied to the element that the writer gets.
  cyclic_write_stores :
      (sizes : ℕ → Option ℕ) (m : Message) (inf : CyclicInfo S) (sent : List ℕ)
      → (elem : Elem) (over : Bool) (rest : S) (size : ℕ) (bytes : List ℕ)
      → (inf.type == m.type) ≡ true
      → len_refused inf.allow_partial inf.data_len (pos m.len) ≡ false
      → r.get_write_element inf.rbs ≡ (elem, over, rest)
      → sizes m.type ≡ some size
      → m.len * size < 2 ^ 64
      → memcpy (m.len * size) m.bytes elem.bytes ≡ some bytes
      → cyclic_write sizes (msg_data m) inf sent
        ≡ some (
          record inf {
            overruns = (count_overrun over inf.overruns sent).0;
            rbs = r.put_write_element (record { data_len = pos m.len; bytes = bytes }) rest;
          },
          (count_overrun over inf.overruns sent).1,
        )
  unfolding cyclic_write data_size
  cyclic_write_stores sizes m inf sent elem over rest size bytes typed fits out sized small copied =
      let stored : Elem × Bool × S → Option (CyclicInfo S × List ℕ) = λ g. some (
        record inf {
          overruns = (count_overrun g.1 inf.overruns sent).0;
          rbs = r.put_write_element (record { data_len = pos m.len; bytes = bytes }) g.2;
        },
        (count_overrun g.1 inf.overruns sent).1,
      ) in
      let same : (r.get_write_element inf.rbs).0.bytes ≡ elem.bytes = ap (λ g. g.0.bytes) out in
      let copies : memcpy (to_u64 (pos m.len *ℤ pos size)) m.bytes
            (r.get_write_element inf.rbs).0.bytes
          ≡ some bytes =
        rw same (ap (λ n. memcpy n m.bytes elem.bytes) (size_lem m.len size small) ∙ copied) in
      rw (cyclic_write, typed, fits, data_size, sized, copies) (ap stored out)

  put-Stands :
      (l : Limits) (sizes : ℕ → Option ℕ) (m : Message) (inf : CyclicInfo S) (sent : List ℕ)
      (q : Queue)
      → Proper l sizes
      → Complete l m
      → accepts l m ≡ true
      → Stands l inf sent q
      → Fetched l inf.rbs q
      → After l (enqueue l m q) (cyclic_write sizes (msg_data m) inf sent)
  put-Stands l sizes m inf sent q (sized, room, small) complete ok s f =
      let (typed, fits, _) = accepts_lem l m ok in
      let (copied, holds) = Holds-copied l m f.elem f.elem_roomy complete fits in
      let bytes = take (m.len * l.size) m.bytes ++ drop (m.len * l.size) f.elem.bytes in
      let e : Elem = record { data_len = pos m.len; bytes = bytes } in
      let (queue1, spare1) = r.put_write_lem e f.rest in
      let (counted, told) = reports_lem f.over inf.overruns q.dropped sent s.counted s.reported in
      let counts = count_overrun f.over inf.overruns sent in
      let inf1 = record inf { overruns = counts.0; rbs = r.put_write_element e f.rest } in
      let done : cyclic_write sizes (msg_data m) inf sent ≡ some (inf1, counts.1) =
        cyclic_write_stores sizes m inf sent f.elem f.over f.rest l.size bytes
          (ground (arith, typed, s.same_type))
          (subst (λ n. len_refused inf.allow_partial n (pos m.len) ≡ false) (sym s.same_len)
            (len_refused_lem l m inf.allow_partial s.same_partial (ground (arith, typed))
              ∙ ap not ok))
          f.fetched (rw typed at sized) (omega (arith, small, mul-le-mul_right l.size fits))
          copied in
      let q1 : Queue = record {
        messages = (if f.over then tail q.messages else q.messages) ++ m ∷ [];
        dropped = if f.over then suc q.dropped else q.dropped;
      } in
      let same : q1 ≡ enqueue l m q = ground (arith, ok, f.over_full) in
      (
        inf1,
        counts.1,
        done,
        subst (Stands l inf1 counts.1) same (record {
          same_type = s.same_type;
          same_len = s.same_len;
          same_partial = s.same_partial;
          held = subst (Held l q1.messages) (sym queue1) (
              Held-snoc l (if f.over then tail q.messages else q.messages) (r.queued f.rest) m e
                f.still_held holds);
          roomy = subst (All (Roomy l)) (sym spare1) f.still_roomy;
          all_there = omega (
            arith,
            f.one_out,
            ap length queue1,
            ap length spare1,
            length-append (r.queued f.rest) (e ∷ []),
          );
          counted = counted;
          reported = told;
        }),
      )

  refused-Stands :
      (l : Limits) (sizes : ℕ → Option ℕ) (m : Message) (inf : CyclicInfo S) (sent : List ℕ)
      (q : Queue)
      → accepts l m ≡ false
      → Stands l inf sent q
      → After l (enqueue l m q) (cyclic_write sizes (msg_data m) inf sent)
  unfolding cyclic_write
  refused-Stands l sizes m inf sent q refused s = rw refused (elim (Bool-cases (l.type == m.type)) [
    | inr other ↦
        let other1 : (inf.type == m.type) ≡ false = rw s.same_type other in
        (inf, sent, rw (cyclic_write, other1) refl, s)
    | inl typed ↦
        let typed1 : (inf.type == m.type) ≡ true = rw s.same_type typed in
        let long : len_refused inf.allow_partial inf.data_len (pos m.len) ≡ true =
          subst (λ n. len_refused inf.allow_partial n (pos m.len) ≡ true) (sym s.same_len)
            (len_refused_lem l m inf.allow_partial s.same_partial typed ∙ ap not refused) in
        (inf, sent, rw (cyclic_write, typed1, long) refl, s)
  ])

  pub cyclic_write-Stands :
      (l : Limits) (sizes : ℕ → Option ℕ) (m : Message) (inf : CyclicInfo S) (sent : List ℕ)
      (q : Queue)
      → Proper l sizes
      → Complete l m
      → Stands l inf sent q
      → After l (enqueue l m q) (cyclic_write sizes (msg_data m) inf sent)
  cyclic_write-Stands l sizes m inf sent q proper complete s = elim (Bool-cases (accepts l m)) [
    | inl ok ↦
        put-Stands l sizes m inf sent q proper complete ok s
          (fetch l inf sent q proper.1 s (r.spare inf.rbs) (r.queued inf.rbs) refl refl)
    | inr refused ↦ refused-Stands l sizes m inf sent q refused s
  ]
