-- ===== src/Registry.antt =====
-- The types of a node: ubx_type_register and the lookups by name and by hash (libubx/ubx.c).
pub mod Names
pub mod Hashes
mod Examples
use microblx.Base.{
  ℕ, zero, suc, ◌+◌, ◌-◌, ◌*◌, ◌/◌, ◌%◌, ◌^◌, Bool, true, false, not, ◌&&◌, ◌||◌, Option, none,
  some, List, [], ◌∷◌, ◌++◌, length, ◌==◌, ltb, leb, if◌then◌else◌, is_some,
}
use microblx.Base.Int.{ℤ, pos}
use microblx.Store.{CStr, UbxType, Node, World, update}
use microblx.Store.Hash.{Uthash, Item}
use microblx.Store.Errors.{einvalid_type, ealready_registered}

abbrev pub type_name_maxlen : ℕ
type_name_maxlen = 63

abbrev pub type_hash_len : ℕ
type_hash_len = 16

abbrev pub type_hashstr_len : ℕ
type_hashstr_len = 32

-- strncmp on binary data: it stops at a common zero byte.
unfoldable pub raw_eq : ℕ → List ℕ → List ℕ → Bool
raw_eq zero a b = true
raw_eq (suc n) [] [] = true
raw_eq (suc n) (x ∷ a) (y ∷ b) = x == y && (x == 0 || raw_eq n a b)
raw_eq (suc n) [] (y ∷ b) = false
raw_eq (suc n) (x ∷ a) [] = false

-- The lowercase digit that `%x` prints.
unfoldable pub hex_digit : ℕ → ℕ
hex_digit d = if ltb d 10 then 48 + d else 87 + d

-- sprintf of each byte by "%02x".
unfoldable pub hashstr : List ℕ → CStr
unfolding hex_digit
hashstr [] = []
hashstr (x ∷ xs) = hex_digit (x / 16) ∷ hex_digit (x % 16) ∷ hashstr xs

abbrev is_space : ℕ → Bool
is_space c = c == 32 || (leb 9 c && leb c 13)

-- What a character is worth as a hexadecimal digit, in either case.
unfoldable pub hex_value : ℕ → Option ℕ
hex_value c =
    if leb 48 c && leb c 57
    then some (c - 48)
    else if leb 97 c && leb c 102
    then some (c - 87)
    else if leb 65 c && leb c 70
    then some (c - 55)
    else none

-- The digits that strtoul reads, from a string of at most two characters: no "0x" with a digit
-- behind it fits there.
hex_digits : CStr → ℕ → ℕ
unfolding hex_value
hex_digits [] n = n
hex_digits (c ∷ cs) n =
    let rest = hex_digits cs in elim (hex_value c) [ none ↦ n | some v ↦ rest (n * 16 + v) ]

-- A sign, and the digits; a negative value wraps.
strtoul_signed : CStr → ℕ
unfolding hex_digits
strtoul_signed [] = 0
strtoul_signed (c ∷ cs) =
    if c == 45
    then (2 ^ 64 - hex_digits cs 0) % 2 ^ 64
    else if c == 43
    then hex_digits cs 0
    else hex_digits (c ∷ cs) 0

-- strtoul(tmp, NULL, 16), behind leading white space.
unfoldable pub strtoul16 : CStr → ℕ
unfolding strtoul_signed
strtoul16 [] = 0
strtoul16 (c ∷ cs) = let rest = strtoul16 cs in if is_space c then rest else strtoul_signed (c ∷ cs)

-- The loop of `ubx_type_get_by_hashstr` that reads two characters for each byte.
unfoldable pub parse_hash : CStr → List ℕ
unfolding strtoul16
parse_hash [] = []
parse_hash (a ∷ []) = []
parse_hash (a ∷ b ∷ cs) = strtoul16 (a ∷ b ∷ []) % 256 ∷ parse_hash cs

-- HASH_ITER over the types: the first whose hash agrees. The outer `none` is a fault.
unfoldable pub find_hash : (ℕ → Option UbxType) → List ℕ → List Item → Option (Option ℕ)
find_hash types hash [] = some none
find_hash types hash ((k, t) ∷ xs) =
    let rest = find_hash types hash xs in
    elim (types t) [
      | none ↦ none
      | some type ↦ if raw_eq type_hash_len type.hash hash then some (some t) else rest
    ]

module _ {T : Type 0} ⦃u : Uthash T⦄ where
  -- `ubx_type_get`; `none` for NULL.
  unfoldable pub type_get : World T → Option CStr → Option ℕ
  type_get w none = none
  type_get w (some name) = u.find name w.node.types

  -- `ubx_type_register` with the md5 function. The outer `none` is a fault.
  unfoldable pub type_register : (CStr → List ℕ) → Option ℕ → World T → Option (ℤ × World T)
  type_register md5 none w = some (einvalid_type, w)
  type_register md5 (some t) w = elim (w.types t) [
    | none ↦ none
    | some type ↦ elim type.name [
      | none ↦ some (einvalid_type, w)
      | some name ↦
          if ltb type_name_maxlen (length name)
          then some (einvalid_type, w)
          else if is_some (u.find name w.node.types)
          then some (ealready_registered, w)
          else some (
            pos 0,
            record w {
              node = record (w.node) {
                types = u.add name t w.node.types;
                cur_seqid = (w.node.cur_seqid + 1) % 2 ^ 64;
              };
              types =
                  update w.types t
                    (some (record type { seqid = w.node.cur_seqid; hash = md5 name }));
            },
          )
    ]
  ]

  -- `ubx_type_unregister`
  unfoldable pub type_unregister : CStr → World T → Option ℕ × World T
  type_unregister name w = elim (u.find name w.node.types) [
    | none ↦ (none, w)
    | some t ↦ (some t, record w { node = record (w.node) { types = u.del t w.node.types } })
  ]

  unfoldable pub num_types : World T → ℕ
  num_types w = u.count w.node.types

  unfoldable pub type_get_by_hash : World T → List ℕ → Option (Option ℕ)
  type_get_by_hash w hash = find_hash w.types hash (u.items w.node.types)

  unfoldable pub type_get_by_hashstr : World T → CStr → Option (Option ℕ)
  type_get_by_hashstr w str =
      if length str == type_hashstr_len then type_get_by_hash w (parse_hash str) else some none
