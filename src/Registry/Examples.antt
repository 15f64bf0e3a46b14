-- ===== src/Registry/Examples.antt =====
-- The registry at a concrete node.
use microblx.Base.{ℕ, ◌≡◌, refl, none, some, List, [], ◌∷◌, ◌++◌, arith, if◌then◌else◌}
use microblx.Base.Int.{pos}
use microblx.Store.{CStr, UbxType, World, Node, update}
use microblx.Store.Strings.{str_eq}
use microblx.Store.Hash.{Item, list_table, lookup}
use microblx.Store.Tables.{IsTable, has_ptr}
use microblx.Registry.{type_get, type_register, type_get_by_hash, type_get_by_hashstr, hashstr}
use microblx.Registry.Names.{type_register_ok}
use microblx.Registry.Hashes.{type_get_by_hashstr-hashstr}

abbrev int_name : CStr
int_name = 105 ∷ 110 ∷ 116 ∷ []

abbrev hash : List ℕ
hash = 1 ∷ 2 ∷ 3 ∷ 4 ∷ 5 ∷ 6 ∷ 7 ∷ 8 ∷ 9 ∷ 10 ∷ 11 ∷ 12 ∷ 13 ∷ 14 ∷ 15 ∷ 255 ∷ []

abbrev int_type : UbxType
int_type = record { name = some int_name; type_class = 1; size = 4; seqid = 0; hash = hash }

abbrev node : Node (List Item)
node = record {
  name = 110 ∷ [];
  blocks = [];
  types = [];
  modules = [];
  cur_seqid = 0;
  attrs = 0;
  loglevel = 5;
}

abbrev world : World (List Item)
world = record {
  node = node;
  heap = record { outcomes = []; live = 0; next = 0; datas = λ _. none };
  blocks = λ _. none;
  types = update (λ _. none) 7 (some int_type);
  static_types = λ _. none;
}

abbrev with_int : World (List Item)
with_int = record world { node = record node { types = (int_name, 7) ∷ [] } }

abbrev md5 : CStr → List ℕ
md5 name = hash

type_register_ok_example :
    (w' : World (List Item)) × (type_register md5 (some 7) world ≡ some (pos 0, w'))
    × ((other : CStr)
        → type_get w' (some other)
          ≡ (if str_eq int_name other then some 7 else type_get world (some other)))
    × (w'.types 7 ≡ some int_type)
    × (w'.node.cur_seqid ≡ 1)
    × IsTable w'.node.types
unfolding type_get lookup has_ptr
type_register_ok_example =
    type_register_ok md5 7 int_type int_name world refl refl (omega arith) refl tt refl

type_get_by_hashstr-hashstr_example :
    type_get_by_hashstr with_int (hashstr hash) ≡ type_get_by_hash with_int hash
type_get_by_hashstr-hashstr_example = type_get_by_hashstr-hashstr with_int hash (omega arith) refl

abbrev zero_type : UbxType
zero_type = record int_type { hash = 1 ∷ 2 ∷ [] ++ 0 ∷ 4 ∷ 5 ∷ [] }
