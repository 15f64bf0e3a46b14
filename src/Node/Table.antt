-- ===== src/Node/Table.antt =====
-- The table of the blocks as it is gone through: what is done, the element at hand, and the rest.
use microblx.Base.{ℕ, ◌≡◌, refl, true, some, List, [], ◌∷◌, ◌++◌, arith}
use microblx.Store.{CStr}
use microblx.Store.Strings.{str_eq_refl, eq_of_str_eq}
use microblx.Store.Hash.{Item, lookup, without}
use microblx.Store.Tables.{has_ptr, IsTable}

pub IsTable-tail : (xs ys : List Item) → IsTable (xs ++ ys) → IsTable ys
IsTable-tail [] ys t = t
IsTable-tail (x ∷ xs) ys t = IsTable-tail xs ys t.2

has_ptr-middle : (k : CStr) (p : ℕ) (xs ys : List Item) → has_ptr p (xs ++ (k, p) ∷ ys) ≡ true
unfolding has_ptr
has_ptr-middle k p [] ys = ground arith
has_ptr-middle k p ((j, q) ∷ xs) ys = ground (arith, has_ptr-middle k p xs ys)

pub lookup-middle :
    (k : CStr) (p : ℕ) (xs ys : List Item)
    → IsTable (xs ++ (k, p) ∷ ys)
    → lookup k (xs ++ (k, p) ∷ ys) ≡ some p
unfolding lookup
lookup-middle k p [] ys t = rw (str_eq_refl k) refl
lookup-middle k p ((j, q) ∷ xs) ys t = ground (arith, lookup-middle k p xs ys t.2, eq_of_str_eq j k)

pub without-middle :
    (k : CStr) (p : ℕ) (xs ys : List Item)
    → IsTable (xs ++ (k, p) ∷ ys)
    → without p (xs ++ (k, p) ∷ ys) ≡ xs ++ ys
unfolding without
without-middle k p [] ys t = ground arith
without-middle k p ((j, q) ∷ xs) ys t =
    ground (arith, without-middle k p xs ys t.2, has_ptr-middle k p xs ys)
