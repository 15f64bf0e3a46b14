-- ===== src/Store/Strings.antt =====
-- strcmp, strncmp and strncpy on strings as lists of their bytes, without the final NUL.
use microblx.Base.{
  ℕ, zero, suc, ◌≤◌, ◌≡◌, refl, ap, Bool, true, false, ◌&&◌, List, [], ◌∷◌, ◌==◌, arith, length,
  take,
}

-- Whether `strcmp(a, b) == 0`.
unfoldable pub str_eq : List ℕ → List ℕ → Bool
str_eq [] [] = true
str_eq (x ∷ a) (y ∷ b) = x == y && str_eq a b
str_eq _ _ = false

-- Whether `strncmp(a, b, n) == 0`.
unfoldable pub strn_eq : ℕ → List ℕ → List ℕ → Bool
strn_eq zero a b = true
strn_eq (suc n) [] [] = true
strn_eq (suc n) (x ∷ a) (y ∷ b) = x == y && strn_eq n a b
strn_eq (suc n) [] (y ∷ b) = false
strn_eq (suc n) (x ∷ a) [] = false

pub str_eq_refl : (a : List ℕ) → str_eq a a ≡ true
unfolding str_eq
str_eq_refl [] = refl
str_eq_refl (x ∷ a) = ground (arith, str_eq_refl a)

pub eq_of_str_eq : (a b : List ℕ) → str_eq a b ≡ true → a ≡ b
unfolding str_eq
eq_of_str_eq [] [] h = refl
eq_of_str_eq [] (y ∷ b) h = cc
eq_of_str_eq (x ∷ a) [] h = cc
eq_of_str_eq (x ∷ a) (y ∷ b) h = ground (arith, eq_of_str_eq a b)

pub strn_eq_refl : (n : ℕ) (a : List ℕ) → strn_eq n a a ≡ true
unfolding strn_eq
strn_eq_refl zero a = refl
strn_eq_refl (suc n) [] = refl
strn_eq_refl (suc n) (x ∷ a) = ground (arith, strn_eq_refl n a)

pub strn_eq_comm : (n : ℕ) (a b : List ℕ) → strn_eq n a b ≡ strn_eq n b a
unfolding strn_eq
strn_eq_comm zero a b = refl
strn_eq_comm (suc n) [] [] = refl
strn_eq_comm (suc n) [] (y ∷ b) = refl
strn_eq_comm (suc n) (x ∷ a) [] = refl
strn_eq_comm (suc n) (x ∷ a) (y ∷ b) = ground (arith, strn_eq_comm n a b)

-- A string that fits is copied whole.
pub take_short : (n : ℕ) (a : List ℕ) → length a ≤ n → take n a ≡ a
take_short zero [] h = refl
take_short zero (x ∷ a) h = absurd (omega arith)
take_short (suc n) [] h = refl
take_short (suc n) (x ∷ a) h = ap (◌∷◌ x) (take_short n a (omega arith))

pub strn_eq_trans :
    (n : ℕ) (a b c : List ℕ) → strn_eq n a b ≡ true → strn_eq n b c ≡ true → strn_eq n a c ≡ true
unfolding strn_eq
strn_eq_trans zero a b c h k = refl
strn_eq_trans (suc n) [] [] c h k = k
strn_eq_trans (suc n) [] (y ∷ b) c h k = cc
strn_eq_trans (suc n) (x ∷ a) [] c h k = cc
strn_eq_trans (suc n) (x ∷ a) (y ∷ b) [] h k = cc
strn_eq_trans (suc n) (x ∷ a) (y ∷ b) (z ∷ c) h k = ground (arith, strn_eq_trans n a b c)

pub str_eq_comm : (a b : List ℕ) → str_eq a b ≡ str_eq b a
unfolding str_eq
str_eq_comm [] [] = refl
str_eq_comm [] (y ∷ b) = refl
str_eq_comm (x ∷ a) [] = refl
str_eq_comm (x ∷ a) (y ∷ b) = ground (arith, str_eq_comm a b)
