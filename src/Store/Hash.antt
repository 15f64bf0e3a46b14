-- ===== src/Store/Hash.antt =====
-- The hash tables of uthash, as far as the node uses them: a table from names to pointers. The
-- laws are what uthash documents; `items` are its elements in the order of HASH_ITER, which is the
-- order of insertion.
use microblx.Base.{
  ℕ, ◌≡◌, refl, Option, none, some, List, [], ◌∷◌, ◌++◌, length, ◌==◌, if◌then◌else◌,
}
use microblx.Store.Strings.{str_eq}

abbrev pub Item : Type 0
Item = List ℕ × ℕ

unfoldable pub lookup : List ℕ → List Item → Option ℕ
lookup k [] = none
lookup k ((j, p) ∷ xs) = if str_eq j k then some p else lookup k xs

unfoldable pub without : ℕ → List Item → List Item
without p [] = []
without p ((j, q) ∷ xs) = if q == p then xs else (j, q) ∷ without p xs

pub record Uthash (T : Type 0) : Type 0 where
  pub empty : T
  pub items : T → List Item
  pub find : List ℕ → T → Option ℕ
  pub add : List ℕ → ℕ → T → T
  pub del : ℕ → T → T
  pub count : T → ℕ
  pub items_empty : items empty ≡ []
  pub find_items : (k : List ℕ) (t : T) → find k t ≡ lookup k (items t)
  pub items_add : (k : List ℕ) (p : ℕ) (t : T) → items (add k p t) ≡ items t ++ (k, p) ∷ []
  pub items_del : (p : ℕ) (t : T) → items (del p t) ≡ without p (items t)
  pub count_items : (t : T) → count t ≡ length (items t)

-- The laws can be met: a list in order of insertion.
instance abbrev pub list_table : Uthash (List Item)
list_table = record {
  empty = [];
  items = λ t. t;
  find = lookup;
  add = λ k p t. t ++ (k, p) ∷ [];
  del = without;
  count = length;
  items_empty = refl;
  find_items = λ k t. refl;
  items_add = λ k p t. refl;
  items_del = λ p t. refl;
  count_items = λ t. refl;
}
