-- ===== src/Store/Named.antt =====
-- The lists of ports and configs: elements looked up by the first bytes of their names.
use microblx.Base.{
  ℕ, ◌≡◌, refl, sym, ◌∙◌, true, false, Option, none, some, List, [], ◌∷◌, ◌++◌, arith, Bool-cases,
  inl, inr, if◌then◌else◌, All,
}
use microblx.Store.{CStr}
use microblx.Store.Strings.{strn_eq, strn_eq_comm, strn_eq_trans}

module _ {A : Type 0} (name_of : A → CStr) (maxlen : ℕ) where
  -- DL_FOREACH with strncmp: the first element whose name agrees.
  unfoldable pub find_named : CStr → List A → Option A
  find_named name [] = none
  find_named name (x ∷ xs) = if strn_eq maxlen (name_of x) name then some x else find_named name xs

  -- DL_DELETE of the element that `find_named` gives.
  unfoldable pub delete_named : CStr → List A → List A
  delete_named name [] = []
  delete_named name (x ∷ xs) =
      if strn_eq maxlen (name_of x) name then xs else x ∷ delete_named name xs

  -- No two elements agree in the first bytes of their names.
  abbrev pub Distinct : List A → Type 0
  Distinct [] = Unit {0}
  Distinct (x ∷ xs) = (find_named (name_of x) xs ≡ none) × Distinct xs

  pub find-append_new :
      (name : CStr) (xs : List A) (y : A)
      → find_named name xs ≡ none
      → strn_eq maxlen (name_of y) name ≡ true
      → find_named name (xs ++ y ∷ []) ≡ some y
  unfolding find_named
  find-append_new name [] y h e = ground arith
  find-append_new name (x ∷ xs) y h e = ground (arith, find-append_new name xs y)

  pub find-append_other :
      (name : CStr) (xs : List A) (y : A)
      → strn_eq maxlen (name_of y) name ≡ false
      → find_named name (xs ++ y ∷ []) ≡ find_named name xs
  unfolding find_named
  find-append_other name [] y e = ground arith
  find-append_other name (x ∷ xs) y e = ground (arith, find-append_other name xs y e)

  pub delete-append :
      (name : CStr) (xs : List A) (y : A)
      → find_named name xs ≡ none
      → strn_eq maxlen (name_of y) name ≡ true
      → delete_named name (xs ++ y ∷ []) ≡ xs
  unfolding find_named delete_named
  delete-append name [] y h e = ground arith
  delete-append name (x ∷ xs) y h e = ground (arith, delete-append name xs y)

  pub append-Distinct :
      (xs : List A) (y : A)
      → Distinct xs
      → find_named (name_of y) xs ≡ none
      → Distinct (xs ++ y ∷ [])
  unfolding find_named
  append-Distinct [] y d h = (refl, tt)
  append-Distinct (x ∷ xs) y d h = ground (
    arith,
    append-Distinct xs y d.1,
    find-append_other (name_of x) xs y,
    strn_eq_comm maxlen (name_of x) (name_of y),
  )

  -- An element whose name agrees with one that is found has its place in the list.
  find_agrees :
      (a b : CStr) (xs : List A) → strn_eq maxlen a b ≡ true → find_named a xs ≡ find_named b xs
  unfolding find_named
  find_agrees a b [] e = refl
  find_agrees a b (x ∷ xs) e = ground (
    arith,
    find_agrees a b xs e,
    strn_eq_trans maxlen (name_of x) a b,
    strn_eq_trans maxlen (name_of x) b a,
    strn_eq_comm maxlen a b,
  )

  find-delete_none :
      (a b : CStr) (xs : List A) → find_named a xs ≡ none → find_named a (delete_named b xs) ≡ none
  unfolding find_named delete_named
  find-delete_none a b [] h = refl
  find-delete_none a b (x ∷ xs) h = ground (arith, find-delete_none a b xs)

  pub delete-Distinct : (name : CStr) (xs : List A) → Distinct xs → Distinct (delete_named name xs)
  unfolding delete_named
  delete-Distinct name [] d = tt
  delete-Distinct name (x ∷ xs) d =
      ground (arith, delete-Distinct name xs d.1, find-delete_none (name_of x) name xs d.0)

  -- Names are distinct, so nothing of that name is left.
  pub find-delete :
      (name : CStr) (xs : List A) → Distinct xs → find_named name (delete_named name xs) ≡ none
  unfolding find_named delete_named
  find-delete name [] d = refl
  find-delete name (x ∷ xs) d =
      ground (arith, find-delete name xs d.1, find_agrees (name_of x) name xs)

  -- Removing one element leaves those of other names where they are.
  pub find-delete_other :
      (a b : CStr) (xs : List A)
      → strn_eq maxlen a b ≡ false
      → find_named a (delete_named b xs) ≡ find_named a xs
  unfolding find_named delete_named
  find-delete_other a b [] e = refl
  find-delete_other a b (x ∷ xs) e = ground (
    arith,
    find-delete_other a b xs e,
    strn_eq_trans maxlen a (name_of x) b,
    strn_eq_comm maxlen a (name_of x),
  )

  pub All-delete {κ} :
      (P : A → Type κ) (name : CStr) (xs : List A) → All P xs → All P (delete_named name xs)
  unfolding delete_named
  All-delete P name [] h = tt
  All-delete P name (x ∷ xs) h = elim (Bool-cases (strn_eq maxlen (name_of x) name)) [
    | inl e ↦ rw e h.1
    | inr e ↦ rw e (h.0, All-delete P name xs h.1)
  ]

  -- The lookups after an element was added at the end.
  pub find-append :
      (name other : CStr) (xs : List A) (y : A)
      → find_named name xs ≡ none
      → name_of y ≡ name
      → find_named other (xs ++ y ∷ [])
        ≡ (if strn_eq maxlen name other then some y else find_named other xs)
  find-append name other xs y h named = elim (Bool-cases (strn_eq maxlen name other)) [
    | inl e ↦ rw e (find-append_new other xs y (sym (find_agrees name other xs e) ∙ h) (rw named e))
    | inr e ↦ rw e (find-append_other other xs y (rw named e))
  ]

  -- The lookups after a removal.
  pub find-delete_any :
      (name other : CStr) (xs : List A)
      → Distinct xs
      → find_named other (delete_named name xs)
        ≡ (if strn_eq maxlen other name then none else find_named other xs)
  find-delete_any name other xs d = elim (Bool-cases (strn_eq maxlen other name)) [
    | inl e ↦ rw e (find_agrees other name (delete_named name xs) e ∙ find-delete name xs d)
    | inr e ↦ rw e (find-delete_other other name xs e)
  ]

  -- Names that are new to a list, and agree with no name of `zs`, stay new when one of them is
  -- added.
  pub fresh-append :
      (zs xs : List A) (y : A)
      → All (λ z. find_named (name_of z) xs ≡ none) zs
      → find_named (name_of y) xs ≡ none
      → find_named (name_of y) zs ≡ none
      → All (λ z. find_named (name_of z) (xs ++ y ∷ []) ≡ none) zs
  unfolding find_named
  fresh-append [] xs y new h apart = tt
  fresh-append (z ∷ zs) xs y new h apart = (
    ground (
      arith,
      new.0,
      find-append (name_of y) (name_of z) xs y h refl,
      strn_eq_comm maxlen (name_of z) (name_of y),
    ),
    fresh-append zs xs y new.1 h (ground arith),
  )
