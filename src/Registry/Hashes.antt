-- ===== src/Registry/Hashes.antt =====
-- Hashes as hexadecimal strings, and the lookup by hash.
use microblx.Base.{
  ℕ, zero, suc, ◌*◌, ◌/◌, ◌%◌, ◌<◌, ◌≡◌, ◌≢◌, refl, ap, ap₂, Bool, true, Option, some, List, [],
  ◌∷◌, ◌++◌, length, All, test_range, test_range_lem, ◌==◌, ==_iff, arith, sym, ◌∙◌, subst, inl,
  inr, Option-cases, Bool-cases, some_eq, none_ne_some,
}
use microblx.Store.{UbxType, World, CStr}
use microblx.Store.Hash.{Uthash, Item}
use microblx.Registry.{
  raw_eq, hex_digit, hashstr, strtoul16, parse_hash, find_hash, type_get_by_hash,
  type_get_by_hashstr, type_hash_len,
}

length-hashstr : (xs : List ℕ) → length (hashstr xs) ≡ 2 * length xs
unfolding hashstr
length-hashstr [] = refl
length-hashstr (x ∷ xs) = omega (arith, length-hashstr xs)

abbrev reads_back : ℕ → Bool
reads_back x = strtoul16 (hex_digit (x / 16) ∷ hex_digit (x % 16) ∷ []) % 256 == x

byte_table : test_range reads_back 256 ≡ true
unfolding test_range strtoul16 hex_digit
byte_table = refl

byte_round : (x : ℕ) → x < 256 → strtoul16 (hex_digit (x / 16) ∷ hex_digit (x % 16) ∷ []) % 256 ≡ x
byte_round x h = (==_iff _ x).0 (test_range_lem reads_back 256 x h byte_table)

abbrev pub IsBytes : List ℕ → Type 0
IsBytes = All (λ x. x < 256)

-- What `ubx_type_hashstr` prints for a list of bytes, `ubx_type_get_by_hashstr` reads back, byte
-- by byte.
pub parse_hash-hashstr : (xs : List ℕ) → IsBytes xs → parse_hash (hashstr xs) ≡ xs
unfolding parse_hash hashstr
parse_hash-hashstr [] h = refl
parse_hash-hashstr (x ∷ xs) h = ap₂ ◌∷◌ (byte_round x h.0) (parse_hash-hashstr xs h.1)

-- The lookup by the printed form of a hash of 16 bytes is the lookup by the hash.
pub type_get_by_hashstr-hashstr :
    {T : Type 0} ⦃u : Uthash T⦄ (w : World T) (hash : List ℕ)
    → IsBytes hash
    → length hash ≡ 16
    → type_get_by_hashstr w (hashstr hash) ≡ type_get_by_hash w hash
unfolding type_get_by_hashstr
type_get_by_hashstr-hashstr w hash h n = rw (length-hashstr hash, n, parse_hash-hashstr hash h)

-- A binary hash without zero bytes is compared in full.
raw_eq_sound :
    (n : ℕ) (a b : List ℕ)
    → length a ≡ n
    → length b ≡ n
    → All (λ x. x ≢ 0) b
    → raw_eq n a b ≡ true
    → a ≡ b
unfolding raw_eq
raw_eq_sound zero [] [] la lb z e = refl
raw_eq_sound zero [] (y ∷ b) la lb z e = absurd (omega arith)
raw_eq_sound zero (x ∷ a) b la lb z e = absurd (omega arith)
raw_eq_sound (suc n) [] b la lb z e = absurd (omega arith)
raw_eq_sound (suc n) (x ∷ a) [] la lb z e = absurd (omega arith)
raw_eq_sound (suc n) (x ∷ a) (y ∷ b) la lb z e =
    ground (arith, z.0, raw_eq_sound n a b (omega arith) (omega arith) z.1)

-- Where the hash that is looked for has 16 bytes and none of them is zero, a type that is found,
-- with a hash of 16 bytes, has that hash.
pub find_hash_sound :
    (types : ℕ → Option UbxType) (hash : List ℕ) (xs : List Item) (t : ℕ) (type : UbxType)
    → length hash ≡ 16
    → All (λ x. x ≢ 0) hash
    → find_hash types hash xs ≡ some (some t)
    → types t ≡ some type
    → length type.hash ≡ 16
    → type.hash ≡ hash
unfolding find_hash
find_hash_sound types hash [] t type lh z e ht lt = absurd (cc)
find_hash_sound types hash ((k, p) ∷ xs) t type lh z e ht lt = elim (Option-cases (types p)) [
  | inl n ↦ absurd (none_ne_some (rw (n, find_hash) at e))
  | inr (q, n) ↦ elim (Bool-cases (raw_eq type_hash_len q.hash hash)) [
    | inl hit ↦
        let same : p ≡ t = some_eq (some_eq (rw (n, find_hash, hit) at e)) in
        let struct : q ≡ type = some_eq (sym n ∙ ap types same ∙ ht) in
        raw_eq_sound 16 type.hash hash lt lh z
          (subst (λ s. raw_eq 16 s.hash hash ≡ true) struct hit)
    | inr miss ↦ find_hash_sound types hash xs t type lh z (rw (n, find_hash, miss) at e) ht lt
  ]
]

raw_eq_zero : (n : ℕ) (p q r : List ℕ) → length p < n → raw_eq n (p ++ 0 ∷ q) (p ++ 0 ∷ r) ≡ true
unfolding raw_eq
raw_eq_zero zero p q r h = absurd (omega arith)
raw_eq_zero (suc n) [] q r h = refl
raw_eq_zero (suc n) (x ∷ p) q r h = ground (arith, raw_eq_zero n p q r)

-- A lookup by a hash that agrees with the first registered type's hash up to a zero byte, within
-- the first 16 bytes, gives that type, whatever stands behind the zero.
pub find_hash_conflates :
    (types : ℕ → Option UbxType) (p q r : List ℕ) (first : ℕ) (type : UbxType) (k : CStr)
    (xs : List Item)
    → length p < 16
    → types first ≡ some type
    → type.hash ≡ p ++ 0 ∷ q
    → find_hash types (p ++ 0 ∷ r) ((k, first) ∷ xs) ≡ some (some first)
unfolding find_hash
find_hash_conflates types p q r first type k xs h e eh =
    rw (e, find_hash, eh, raw_eq_zero 16 p q r h)
