-- ===== src/Data/Refs.antt =====
-- The reference counts as an invariant of the heap: no value has more holders than are counted.
use microblx.Base.{
  ℕ, suc, ◌≤◌, ◌≡◌, subst, Option, none, some, List, [], ◌∷◌, ◌++◌, ◌+◌, refl, arith, occurs-append,
  inl, inr, Bool-cases, Option-cases, occurs,
}
use microblx.Base.Int.{pos, ltb_ℤ, ◌+ℤ◌, +ℤ_parts, ◌-ℤ◌, pos_part, neg_part, -ℤ_parts}
use microblx.Store.{UbxData, Config, Heap}
use microblx.Data.{data_free, data_ref, drop_value, config_assign, with_data}
use microblx.Data.Assign.{data_free_lem, released}

-- A value with `n` holders: it is allocated, unless there are none, and counts at least n - 1.
abbrev pub Counted : Option UbxData → ℕ → Type 0
Counted none n = n ≡ 0
Counted (some d) n = n + neg_part d.refcnt ≤ pos_part d.refcnt + 1

-- The pointers that are held, each as often as it is held.
abbrev pub Refs : (ℕ → Option UbxData) → List ℕ → Type 0
Refs datas held = (p : ℕ) → Counted (datas p) (occurs p held)

-- Only the number of holders matters.
pub Refs-occurs :
    (datas : ℕ → Option UbxData) (xs ys : List ℕ)
    → ((p : ℕ) → occurs p xs ≡ occurs p ys)
    → Refs datas xs
    → Refs datas ys
Refs-occurs datas xs ys same refs = λ p. subst (Counted (datas p)) (same p) (refs p)

released-Counted : (e : UbxData) (n : ℕ) → Counted (some e) (suc n) → Counted (released e) n
released-Counted e n held = elim (Bool-cases (ltb_ℤ (e.refcnt -ℤ pos 1) (pos 0))) [
  | inl last ↦ ground (arith, -ℤ_parts e.refcnt (pos 1))
  | inr more ↦ ground (arith, -ℤ_parts e.refcnt (pos 1))
]

-- Releasing one holder's pointer meets no fault, and keeps the counts right for the others.
pub data_free-Refs :
    (q : ℕ) (held : List ℕ) (h : Heap)
    → Refs h.datas (q ∷ held)
    → (k : Heap) × (data_free q h ≡ some k) × Refs k.datas held
data_free-Refs q held h refs = elim (Option-cases (h.datas q)) [
  | inl gone ↦ absurd (ground (arith, refs q))
  | inr (e, found) ↦
      let (k, freed, datas) = data_free_lem q h e found in
      (k, freed, λ p. ground (arith, datas p, refs p, released-Counted e (occurs p held), found))
]

-- What a config holds.
abbrev pub held_value : Option ℕ → List ℕ
held_value none = []
held_value (some p) = p ∷ []

drop_value-Refs :
    (v : Option ℕ) (held : List ℕ) (h : Heap)
    → Refs h.datas (held_value v ++ held)
    → (k : Heap) × (drop_value v h ≡ some k) × Refs k.datas held
unfolding drop_value
drop_value-Refs none held h refs = (h, refl, refs)
drop_value-Refs (some p) held h refs = data_free-Refs p held h refs

-- A pointer that is held is allocated.
held_found :
    (p : ℕ) (held : List ℕ) (h : Heap)
    → Refs h.datas (p ∷ held)
    → (d : UbxData) × (h.datas p ≡ some d)
held_found p held h refs = elim (Option-cases (h.datas p)) [
  | inl gone ↦ absurd (ground (arith, refs p))
  | inr found ↦ found
]

-- One more reference makes room for one more holder.
data_ref-Refs :
    (p : ℕ) (held : List ℕ) (h : Heap)
    → Refs h.datas (p ∷ held)
    → (k : Heap) × (data_ref p h ≡ some k) × Refs k.datas (p ∷ (p ∷ held))
unfolding data_ref
data_ref-Refs p held h refs =
    let (d, found) = held_found p held h refs in
    (
      with_data h p (some (record d { refcnt = d.refcnt +ℤ pos 1 })),
      ground arith,
      λ q. ground (arith, refs q, +ℤ_parts d.refcnt (pos 1), found),
    )

-- Assigning a value of the config's type that the caller holds, where no value has more holders
-- than are counted, succeeds, also if the config holds that value already; the config then holds
-- it too, no longer what it held before, and no value has more holders than are counted.
pub config_assign-Refs :
    (c : Config) (p : ℕ) (d : UbxData) (held : List ℕ) (h : Heap)
    → h.datas p ≡ some d
    → c.type ≡ d.type
    → Refs h.datas (p ∷ (held_value c.value ++ held))
    → (k : Heap) × (config_assign c p h ≡ some (pos 0, record c { value = some p }, k))
      × Refs k.datas (p ∷ (p ∷ held))
unfolding config_assign
config_assign-Refs c p d held h found typed refs =
    let apart =
      Refs-occurs h.datas (p ∷ (held_value c.value ++ held)) (held_value c.value ++ (p ∷ held))
        (λ q. ground (
          arith,
          occurs-append q (held_value c.value) held,
          occurs-append q (held_value c.value) (p ∷ held),
        ))
        refs in
    let (h1, dropped, left) = drop_value-Refs c.value (p ∷ held) h apart in
    let (k, counted, more) = data_ref-Refs p held h1 left in (k, ground arith, more)
