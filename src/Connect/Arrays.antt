-- ===== src/Connect/Arrays.antt =====
-- The arrays as lists of blocks: an array holds its cells up to the NULL.
use microblx.Base.{
  ℕ, suc, ◌+◌, ◌-◌, ◌≡◌, refl, ap, true, false, Option, none, some, List, [], ◌∷◌, ◌++◌, length,
  set, arith, ◌∙◌,
}
use microblx.Base.Int.{pos}
use microblx.Store.Errors.{eoutofmem}
use microblx.Connect.{Cells, cells_count, resize_cells, array_block_add}

-- The array that holds these blocks: they, NULL, and what room is left.
abbrev pub array : List ℕ → Cells → Cells
array [] room = none ∷ room
array (b ∷ bs) room = some b ∷ array bs room

-- What an interaction pointer of a port stands for.
abbrev pub Holds : Option Cells → List ℕ → Type 0
Holds none bs = bs ≡ []
Holds (some cs) bs = (room : Cells) × (cs ≡ array bs room)

pub count-array :
    (bs : List ℕ) (room : Cells) (n : ℕ) → cells_count (array bs room) n ≡ some (n + length bs)
unfolding cells_count
count-array [] room n = ap some (omega arith)
count-array (b ∷ bs) room n = count-array bs room (suc n) ∙ ap some (omega arith)

append-array :
    (bs : List ℕ) (b : ℕ) (room : Cells)
    → set
        (set (resize_cells (suc (suc (length bs))) (array bs room)) (length bs) (some b))
        (suc (length bs))
        none
      ≡ array (bs ++ b ∷ []) []
unfolding resize_cells
append-array [] b [] = refl
append-array [] b (c ∷ room) = refl
append-array (x ∷ bs) b room = ap (◌∷◌ (some x)) (append-array bs b room)

add_connected :
    (bs : List ℕ) (b : ℕ) (room : Cells)
    → array_block_add (some (array bs room)) b true ≡ some (pos 0, some (array (bs ++ b ∷ []) []))
unfolding array_block_add
add_connected bs b room =
    rw (count-array bs room 2 ∙ ap {B = Option ℕ} some two, array_block_add)
      (ap (λ c. some (pos 0, some c)) (rw (back, last) (append-array bs b room)))
  where
    two : 2 + length bs ≡ suc (suc (length bs))
    two = omega arith

    back : suc (suc (length bs)) - 2 ≡ length bs
    back = omega arith

    last : suc (suc (length bs)) - 1 ≡ suc (length bs)
    last = omega arith

-- With memory, an array that is NULL or terminated gains the block at its end, and is terminated.
pub array_block_add_lem :
    (arr : Option Cells) (bs : List ℕ) (b : ℕ)
    → Holds arr bs
    → array_block_add arr b true ≡ some (pos 0, some (array (bs ++ b ∷ []) []))
unfolding array_block_add resize_cells
array_block_add_lem none bs b e = rw e refl
array_block_add_lem (some cs) bs b (room, e) = rw e (add_connected bs b room)

-- Without memory, a terminated array is replaced by NULL.
pub array_block_add_oom :
    (arr : Option Cells) (bs : List ℕ) (b : ℕ)
    → Holds arr bs
    → array_block_add arr b false ≡ some (eoutofmem, none)
unfolding array_block_add
array_block_add_oom none bs b e = refl
array_block_add_oom (some cs) bs b (room, e) = rw (e, count-array bs room 2, array_block_add) refl
