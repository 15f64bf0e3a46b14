-- ===== src/Store/Tables.antt =====
-- Tables whose names and pointers are all distinct, through the laws of the hash table.
use microblx.Base.{
  ℕ, ◌≡◌, refl, sym, ◌∙◌, Bool, true, false, ◌||◌, none, some, List, [], ◌∷◌, ◌++◌, arith,
  if◌then◌else◌, ◌==◌,
}
use microblx.Store.{CStr}
use microblx.Store.Strings.{str_eq, str_eq_refl, eq_of_str_eq}
use microblx.Store.Hash.{Uthash, Item, lookup, without}

unfoldable pub has_ptr : ℕ → List Item → Bool
has_ptr p [] = false
has_ptr p ((k, q) ∷ xs) = q == p || has_ptr p xs

-- No name and no pointer stands in the table twice.
abbrev pub IsTable : List Item → Type 0
IsTable [] = Unit {0}
IsTable ((k, p) ∷ xs) = (lookup k xs ≡ none) × (has_ptr p xs ≡ false) × IsTable xs

pub lookup-append :
    (k j : CStr) (p : ℕ) (xs : List Item)
    → lookup j xs ≡ none
    → lookup k (xs ++ (j, p) ∷ []) ≡ (if str_eq j k then some p else lookup k xs)
unfolding lookup
lookup-append k j p [] h = refl
lookup-append k j p ((i, q) ∷ xs) h = ground (
  arith,
  lookup-append k j p xs,
  eq_of_str_eq i k,
  eq_of_str_eq j k,
  eq_of_str_eq i j,
  str_eq_refl k,
)

has_ptr-append :
    (p q : ℕ) (k : CStr) (xs : List Item) → has_ptr p (xs ++ (k, q) ∷ []) ≡ (has_ptr p xs || q == p)
unfolding has_ptr
has_ptr-append p q k [] = ground arith
has_ptr-append p q k ((j, r) ∷ xs) = ground (arith, has_ptr-append p q k xs)

-- A new name and a new pointer keep the table distinct.
pub append-IsTable :
    (k : CStr) (p : ℕ) (xs : List Item)
    → IsTable xs
    → lookup k xs ≡ none
    → has_ptr p xs ≡ false
    → IsTable (xs ++ (k, p) ∷ [])
unfolding lookup has_ptr
append-IsTable k p [] t f n = (refl, refl, tt)
append-IsTable k p ((j, q) ∷ xs) t f n = ground (
  arith,
  append-IsTable k p xs t.2,
  lookup-append j k p xs,
  has_ptr-append q p k xs,
  eq_of_str_eq k j,
  str_eq_refl k,
)

has_ptr_of_lookup : (k : CStr) (p : ℕ) (xs : List Item) → lookup k xs ≡ some p → has_ptr p xs ≡ true
unfolding lookup has_ptr
has_ptr_of_lookup k p [] h = cc
has_ptr_of_lookup k p ((j, q) ∷ xs) h = ground (arith, has_ptr_of_lookup k p xs)

without_missing : (p : ℕ) (xs : List Item) → has_ptr p xs ≡ false → without p xs ≡ xs
unfolding without has_ptr
without_missing p [] h = refl
without_missing p ((j, q) ∷ xs) h = ground (arith, without_missing p xs)

-- Deleting the element of a name leaves nothing under that name, and all others.
pub lookup-without :
    (k j : CStr) (p : ℕ) (xs : List Item)
    → IsTable xs
    → lookup k xs ≡ some p
    → lookup j (without p xs) ≡ (if str_eq k j then none else lookup j xs)
unfolding lookup without has_ptr
lookup-without k j p [] t h = cc
lookup-without k j p ((i, q) ∷ xs) t h = ground (
  arith,
  lookup-without k j p xs t.2,
  eq_of_str_eq i k,
  eq_of_str_eq k j,
  eq_of_str_eq i j,
  str_eq_refl j,
  has_ptr_of_lookup k p xs,
)

lookup-without-none :
    (k : CStr) (p : ℕ) (xs : List Item) → lookup k xs ≡ none → lookup k (without p xs) ≡ none
unfolding lookup without
lookup-without-none k p [] h = refl
lookup-without-none k p ((j, q) ∷ xs) h = ground (arith, lookup-without-none k p xs)

has_ptr-without :
    (q p : ℕ) (xs : List Item) → has_ptr q xs ≡ false → has_ptr q (without p xs) ≡ false
unfolding has_ptr without
has_ptr-without q p [] h = refl
has_ptr-without q p ((j, r) ∷ xs) h = ground (arith, has_ptr-without q p xs)

pub without-IsTable : (p : ℕ) (xs : List Item) → IsTable xs → IsTable (without p xs)
unfolding without
without-IsTable p [] t = tt
without-IsTable p ((j, q) ∷ xs) t =
    ground (arith, without-IsTable p xs t.2, lookup-without-none j p xs, has_ptr-without q p xs)

module _ {T : Type 0} ⦃u : Uthash T⦄ where
  pub find-add :
      (j k : CStr) (p : ℕ) (t : T)
      → u.find j t ≡ none
      → u.find k (u.add j p t) ≡ (if str_eq j k then some p else u.find k t)
  find-add j k p t h =
      rw (u.find_items k (u.add j p t), u.items_add j p t, u.find_items k t)
        (lookup-append k j p (u.items t) (sym (u.find_items j t) ∙ h))

  pub add-IsTable :
      (k : CStr) (p : ℕ) (t : T)
      → IsTable (u.items t)
      → u.find k t ≡ none
      → has_ptr p (u.items t) ≡ false
      → IsTable (u.items (u.add k p t))
  add-IsTable k p t h f n =
      rw (u.items_add k p t) (append-IsTable k p (u.items t) h (sym (u.find_items k t) ∙ f) n)

  pub find-del :
      (k j : CStr) (p : ℕ) (t : T)
      → IsTable (u.items t)
      → u.find k t ≡ some p
      → u.find j (u.del p t) ≡ (if str_eq k j then none else u.find j t)
  find-del k j p t h f =
      rw (u.find_items j (u.del p t), u.items_del p t, u.find_items j t)
        (lookup-without k j p (u.items t) h (sym (u.find_items k t) ∙ f))

  pub del-IsTable : (p : ℕ) (t : T) → IsTable (u.items t) → IsTable (u.items (u.del p t))
  del-IsTable p t h = rw (u.items_del p t) (without-IsTable p (u.items t) h)
