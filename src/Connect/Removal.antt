-- ===== src/Connect/Removal.antt =====
-- array_block_rm of libubx/ubx.c: a block taken out of an array.
use microblx.Base.{
  ℕ, zero, suc, ◌+◌, ◌-◌, ◌<◌, ◌≡◌, ◌≢◌, refl, ap, ap₂, Option, none, some, List, [], ◌∷◌, ◌++◌,
  length, set, get_elem?, length-append, All, arith, ◌⊎◌, inl, inr, if◌then◌else◌, ◌==◌, Bool-cases,
  ==_iff, ==_refl, ne_of_false, Option-cases, subst, some_eq, sym, ◌∙◌,
}
use mathlib.Core.List.{Perm, perm_append_singleton}
use mathlib.Core.List.Perm
use microblx.Base.Int.{pos, negsuc}
use microblx.Connect.{Cells, last_match, array_block_rm}
use microblx.Connect.Arrays.{array}

-- The last index of a block, counted from `n`, or what was found before.
last_index : List ℕ → ℕ → ℕ → Option ℕ → Option ℕ
last_index [] b n found = found
last_index (x ∷ bs) b n found = last_index bs b (suc n) (if x == b then some n else found)

last_match-array :
    (bs : List ℕ) (room : Cells) (b n : ℕ) (found : Option ℕ)
    → last_match (array bs room) b n found ≡ some (n + length bs, last_index bs b n found)
unfolding last_match last_index
last_match-array [] room b n found = ap (λ k. some (k, found)) (omega arith)
last_match-array (x ∷ bs) room b n found =
    last_match-array bs room b (suc n) (if x == b then some n else found)
    ∙ ap (λ k. some (k, last_index bs b (suc n) (if x == b then some n else found))) (omega arith)

last_index-some :
    (bs : List ℕ) (b n i : ℕ) (found : Option ℕ)
    → last_index bs b n found ≡ some i
    → (found ≡ some i) ⊎ ((k : ℕ) × (i ≡ n + k) × (get_elem? bs k ≡ some b))
unfolding last_index
last_index-some [] b n i found e = inl e
last_index-some (x ∷ bs) b n i found e =
    elim (last_index-some bs b (suc n) i (if x == b then some n else found) e) [
      | inr (k, p, q) ↦ inr (suc k, omega arith, q)
      | inl f ↦ elim (Bool-cases (x == b)) [
        | inl hit ↦ inr (0, ground arith, ground arith)
        | inr miss ↦ inl (ground arith)
      ]
    ]

last_index-none :
    (bs : List ℕ) (b n : ℕ) (found : Option ℕ)
    → last_index bs b n found ≡ none
    → (found ≡ none) × All (λ x. x ≢ b) bs
unfolding last_index
last_index-none [] b n found e = (e, tt)
last_index-none (x ∷ bs) b n found e =
    let (f, rest) = last_index-none bs b (suc n) (if x == b then some n else found) e in
    (ground arith, (λ hit. ground arith, rest))

set-array :
    (bs : List ℕ) (room : Cells) (i z : ℕ)
    → i < length bs
    → set (array bs room) i (some z) ≡ array (set bs i z) room
set-array [] room i z h = absurd (omega arith)
set-array (x ∷ bs) room zero z h = refl
set-array (x ∷ bs) room (suc i) z h = ap (◌∷◌ (some x)) (set-array bs room i z (omega arith))

cut-array :
    (xs : List ℕ) (z : ℕ) (room : Cells)
    → set (array (xs ++ z ∷ []) room) (length xs) none ≡ array xs (none ∷ room)
cut-array [] z room = refl
cut-array (x ∷ xs) z room = ap (◌∷◌ (some x)) (cut-array xs z room)

get-array :
    (xs : List ℕ) (z : ℕ) (room : Cells)
    → get_elem? (array (xs ++ z ∷ []) room) (length xs) ≡ some (some z)
get-array [] z room = refl
get-array (x ∷ xs) z room = get-array xs z room

set-append :
    (xs : List ℕ) (z w i : ℕ) → i < length xs → set (xs ++ w ∷ []) i z ≡ set xs i z ++ w ∷ []
set-append [] z w i h = absurd (omega arith)
set-append (x ∷ xs) z w zero h = refl
set-append (x ∷ xs) z w (suc i) h = ap (◌∷◌ x) (set-append xs z w i (omega arith))

length-set : (xs : List ℕ) (i z : ℕ) → length (set xs i z) ≡ length xs
length-set [] i z = refl
length-set (x ∷ xs) zero z = refl
length-set (x ∷ xs) (suc i) z = ap suc (length-set xs i z)

-- The two writes of a removal inside the array.
move-array :
    (xs : List ℕ) (z i : ℕ) (room : Cells)
    → i < length xs
    → set (set (array (xs ++ z ∷ []) room) i (some z)) (length xs) none
      ≡ array (set xs i z) (none ∷ room)
move-array xs z i room h =
    rw
      (
        set-array (xs ++ z ∷ []) room i z (omega (arith, length-append xs (z ∷ []))),
        set-append xs z z i h,
      )
      (rw (← length-set xs i z) (cut-array (set xs i z) z room))

snoc_view : (x : ℕ) (xs : List ℕ) → (ys : List ℕ) × (z : ℕ) × (x ∷ xs ≡ ys ++ z ∷ [])
snoc_view x [] = ([], x, refl)
snoc_view x (y ∷ xs) = let (ys, z, e) = snoc_view y xs in (x ∷ ys, z, ap (◌∷◌ x) e)

get-append_last : (xs : List ℕ) (z : ℕ) → get_elem? (xs ++ z ∷ []) (length xs) ≡ some z
get-append_last [] z = refl
get-append_last (x ∷ xs) z = get-append_last xs z

get-append_lt :
    (xs : List ℕ) (z i : ℕ) → i < length xs → get_elem? (xs ++ z ∷ []) i ≡ get_elem? xs i
get-append_lt [] z i h = absurd (omega arith)
get-append_lt (x ∷ xs) z zero h = refl
get-append_lt (x ∷ xs) z (suc i) h = get-append_lt xs z i (omega arith)

lt_of_get : (xs : List ℕ) (i b : ℕ) → get_elem? xs i ≡ some b → i < length xs
lt_of_get [] i b e = cc
lt_of_get (x ∷ xs) zero b e = omega arith
lt_of_get (x ∷ xs) (suc i) b e = omega (arith, lt_of_get xs i b e)

set_perm :
    (xs : List ℕ) (z i b : ℕ) → get_elem? xs i ≡ some b → Perm (xs ++ z ∷ []) (b ∷ set xs i z)
set_perm [] z i b e = cc
set_perm (x ∷ xs) z zero b e =
    subst (λ y. Perm (x ∷ (xs ++ z ∷ [])) (y ∷ z ∷ xs)) (some_eq e)
      (Perm.cons x (perm_append_singleton z xs))
set_perm (x ∷ xs) z (suc i) b e =
    Perm.trans (Perm.cons x (set_perm xs z i b e)) (Perm.swap b x (set xs i z))

-- The block is taken out once, and nothing else is lost.
abbrev pub TakenOut : Cells → ℕ → List ℕ → Type 0
TakenOut cs b bs =
    (bs' : List ℕ) × (room : Cells) × (array_block_rm (some cs) b
      ≡ some (pos 0, some (array bs' room)))
    × Perm bs (b ∷ bs')

counted :
    (xs : List ℕ) (z b : ℕ) (room : Cells) (i : ℕ)
    → last_index (xs ++ z ∷ []) b 0 none ≡ some i
    → last_match (array (xs ++ z ∷ []) room) b 0 none ≡ some (suc (length xs), some i)
counted xs z b room i e =
    last_match-array (xs ++ z ∷ []) room b 0 none
    ∙ ap₂ {C = Option (ℕ × Option ℕ)} (λ n o. some (n, o))
        (omega (arith, length-append xs (z ∷ []))) e

-- A removal at index `i` of an array that ends in `z`.
rm_at :
    (xs : List ℕ) (z b : ℕ) (room : Cells) (i : ℕ)
    → last_match (array (xs ++ z ∷ []) room) b 0 none ≡ some (suc (length xs), some i)
    → array_block_rm (some (array (xs ++ z ∷ []) room)) b ≡ (
        if i == length xs
        then some (pos 0, some (set (array (xs ++ z ∷ []) room) i none))
        else some (pos 0, some (set (set (array (xs ++ z ∷ []) room) i (some z)) (length xs) none)))
unfolding array_block_rm
rm_at xs z b room i m = rw (m, array_block_rm, back, get-array xs z room, back) refl
  where
    back : suc (length xs) - 1 ≡ length xs
    back = omega arith

TakenOut-snoc :
    (xs : List ℕ) (z b : ℕ) (room : Cells) (i : ℕ)
    → last_index (xs ++ z ∷ []) b 0 none ≡ some i
    → get_elem? (xs ++ z ∷ []) i ≡ some b
    → TakenOut (array (xs ++ z ∷ []) room) b (xs ++ z ∷ [])
TakenOut-snoc xs z b room i e g = elim (Bool-cases (i == length xs)) [
  | inl end ↦
      let at_end : i ≡ length xs = (==_iff i (length xs)).0 end in
      let zb : z ≡ b = some_eq (sym (get-append_last xs z) ∙ (rw at_end at g)) in
      (
        xs,
        none ∷ room,
        rm_at xs z b room i (counted xs z b room i e)
            ∙ rw end (ap (λ c. some (pos 0, some c)) (rw at_end (cut-array xs z room))),
        subst (λ y. Perm (xs ++ z ∷ []) (y ∷ xs)) zb (perm_append_singleton z xs),
      )
  | inr inside ↦
      let within : i < length xs = omega (
        arith,
        lt_of_get (xs ++ z ∷ []) i b g,
        length-append xs (z ∷ []),
        ne_of_false i (length xs) inside,
      ) in
      (
        set xs i z,
        none ∷ room,
        rm_at xs z b room i (counted xs z b room i e)
            ∙ rw inside (ap (λ c. some (pos 0, some c)) (move-array xs z i room within)),
        set_perm xs z i b (sym (get-append_lt xs z i within) ∙ g),
      )
]

rm_missing :
    (bs : List ℕ) (room : Cells) (b : ℕ)
    → last_index bs b 0 none ≡ none
    → array_block_rm (some (array bs room)) b ≡ some (negsuc 0, some (array bs room))
unfolding array_block_rm
rm_missing bs room b e = rw (last_match-array bs room b 0 none, array_block_rm, e) refl

TakenOut-split :
    (bs : List ℕ) (room : Cells) (b i : ℕ)
    → last_index bs b 0 none ≡ some i
    → get_elem? bs i ≡ some b
    → TakenOut (array bs room) b bs
TakenOut-split [] room b i e g = cc
TakenOut-split (x ∷ bs) room b i e g =
    let (xs, z, v) = snoc_view x bs in
    subst (λ l. TakenOut (array l room) b l) (sym v)
      (TakenOut-snoc xs z b room i (rw v at e) (rw v at g))

-- On a terminated array, `array_block_rm` either fails with -1 and changes nothing, as the block is
-- not there, or takes out one entry of the block: what is left is, but for its order, what was
-- there without that entry, terminated as before.
pub array_block_rm_lem :
    (bs : List ℕ) (room : Cells) (b : ℕ)
    → (All (λ x. x ≢ b) bs
        × (array_block_rm (some (array bs room)) b ≡ some (negsuc 0, some (array bs room))))
      ⊎ TakenOut (array bs room) b bs
array_block_rm_lem bs room b = elim (Option-cases (last_index bs b 0 none)) [
  | inl e ↦ inl ((last_index-none bs b 0 none e).1, rm_missing bs room b e)
  | inr (i, e) ↦ elim (last_index-some bs b 0 i none e) [
    | inl bad ↦ absurd (cc)
    | inr (k, p, q) ↦
        inr (TakenOut-split bs room b i e (subst (λ j. get_elem? bs j ≡ some b) (omega arith) q))
  ]
]

last_index-append :
    (bs : List ℕ) (b n : ℕ) (found : Option ℕ)
    → last_index (bs ++ b ∷ []) b n found ≡ some (n + length bs)
unfolding last_index
last_index-append [] b n found = rw (==_refl b) (ap some (omega arith))
last_index-append (x ∷ bs) b n found =
    last_index-append bs b (suc n) (if x == b then some n else found) ∙ ap some (omega arith)

-- Taking out the block that was added last gives back the array of the other blocks.
pub array_block_rm_added :
    (bs : List ℕ) (b : ℕ) (room : Cells)
    → array_block_rm (some (array (bs ++ b ∷ []) room)) b
      ≡ some (pos 0, some (array bs (none ∷ room)))
array_block_rm_added bs b room =
    rm_at bs b b room (length bs)
      (counted bs b b room (length bs) (last_index-append bs b 0 none ∙ ap some (omega arith)))
    ∙ rw (==_refl (length bs)) (ap (λ c. some (pos 0, some c)) (cut-array bs b room))
