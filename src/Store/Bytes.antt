-- ===== src/Store/Bytes.antt =====
-- memcpy between buffers, which are lists of their bytes.
use microblx.Base.{
  ℕ, zero, suc, ◌≤◌, ◌≡◌, refl, ap, ap₂, Option, none, some, List, [], ◌∷◌, ◌++◌, arith, length,
  take, drop, ltb, if◌then◌else◌,
}

-- The first `n` bytes of `src` are copied to the start of `dst`; `none` is a fault, where a buffer
-- is too short.
unfoldable pub memcpy : ℕ → List ℕ → List ℕ → Option (List ℕ)
memcpy n src dst =
    if ltb (length src) n
    then none
    else if ltb (length dst) n
    then none
    else some (take n src ++ drop n dst)

-- The buffer after a copy into it: NULL stays NULL.
abbrev pub into_buf : Option (List ℕ) → List ℕ → Option (List ℕ)
into_buf none bytes = none
into_buf (some b) bytes = some bytes

pub memcpy_fits :
    (n : ℕ) (src dst : List ℕ)
    → n ≤ length src
    → n ≤ length dst
    → memcpy n src dst ≡ some (take n src ++ drop n dst)
unfolding memcpy
memcpy_fits n src dst h k = ground arith

pub length-memcpy :
    (n : ℕ) (src dst : List ℕ)
    → n ≤ length src
    → n ≤ length dst
    → length (take n src ++ drop n dst) ≡ length dst
length-memcpy zero src dst h k = refl
length-memcpy (suc n) [] dst h k = absurd (omega arith)
length-memcpy (suc n) (x ∷ src) [] h k = absurd (omega arith)
length-memcpy (suc n) (x ∷ src) (y ∷ dst) h k =
    omega (arith, length-memcpy n src dst (omega arith) (omega arith))

-- What begins with the first `n` elements of a list begins with any fewer of them.
pub take-take-append :
    (m n : ℕ) (src rest : List ℕ)
    → m ≤ n
    → n ≤ length src
    → take m (take n src ++ rest) ≡ take m src
take-take-append zero n src rest le h = refl
take-take-append (suc m) zero src rest le h = absurd (omega arith)
take-take-append (suc m) (suc n) [] rest le h = absurd (omega arith)
take-take-append (suc m) (suc n) (x ∷ src) rest le h =
    ap (◌∷◌ x) (take-take-append m n src rest (omega arith) (omega arith))

-- Lists that begin alike.
pub take-fewer : (m n : ℕ) (xs ys : List ℕ) → m ≤ n → take n xs ≡ take n ys → take m xs ≡ take m ys
take-fewer zero n xs ys le same = refl
take-fewer (suc m) zero xs ys le same = absurd (omega arith)
take-fewer (suc m) (suc n) [] [] le same = refl
take-fewer (suc m) (suc n) [] (y ∷ ys) le same = absurd (cc)
take-fewer (suc m) (suc n) (x ∷ xs) [] le same = absurd (cc)
take-fewer (suc m) (suc n) (x ∷ xs) (y ∷ ys) le same =
    let heads : x ≡ y = cc in
    let tails : take n xs ≡ take n ys = cc in
    ap₂ ◌∷◌ heads (take-fewer m n xs ys (omega arith) tails)
