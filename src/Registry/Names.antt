-- ===== src/Registry/Names.antt =====
-- Registering types and finding them by name.
use microblx.Base.{
  ℕ, ◌+◌, ◌≤◌, ◌%◌, ◌^◌, ◌≡◌, ◌≢◌, refl, false, Option, none, some, List, length, arith, ◌⊎◌,
  if◌then◌else◌,
}
use microblx.Base.Int.{ℤ, pos}
use microblx.Store.{CStr, UbxType, World, update}
use microblx.Store.Strings.{str_eq}
use microblx.Store.Hash.{Uthash}
use microblx.Store.Tables.{find-add, find-del, add-IsTable, del-IsTable, IsTable, has_ptr}
use microblx.Store.Errors.{einvalid_type, ealready_registered}
use microblx.Registry.{type_name_maxlen, type_get, type_register, type_unregister}

module _ {T : Type 0} ⦃u : Uthash T⦄ where
  -- Registering an allocated struct that is not in the table yet, under a new name of at most 63
  -- bytes, succeeds: the name is found from then on, every other name as before, the struct gets
  -- the node's next sequence number and its own hash, the node's number goes up by 1 modulo 2^64,
  -- and the table keeps its names and pointers distinct.
  pub type_register_ok :
      (md5 : CStr → List ℕ) (t : ℕ) (type : UbxType) (name : CStr) (w : World T)
      → w.types t ≡ some type
      → type.name ≡ some name
      → length name ≤ type_name_maxlen
      → type_get w (some name) ≡ none
      → IsTable (u.items w.node.types)
      → has_ptr t (u.items w.node.types) ≡ false
      → (w' : World T) × (type_register md5 (some t) w ≡ some (pos 0, w'))
        × ((other : CStr)
            → type_get w' (some other)
              ≡ (if str_eq name other then some t else type_get w (some other)))
        × (w'.types t ≡ some (record type { seqid = w.node.cur_seqid; hash = md5 name }))
        × (w'.node.cur_seqid ≡ (w.node.cur_seqid + 1) % 2 ^ 64)
        × IsTable (u.items w'.node.types)
  unfolding type_register type_get
  type_register_ok md5 t type name w ht hn short fresh table new = (
    registered,
    ground (arith, ht, hn, fresh),
    λ other. find-add name other t w.node.types fresh,
    ground arith,
    refl,
    add-IsTable name t w.node.types table fresh new,
  )
    where
      registered : World T
      registered = record w {
        node = record (w.node) {
          types = u.add name t w.node.types;
          cur_seqid = (w.node.cur_seqid + 1) % 2 ^ 64;
        };
        types = update w.types t (some (record type { seqid = w.node.cur_seqid; hash = md5 name }));
      }

  -- A call that returns a code other than 0 leaves the node as it was, and the code is
  -- EINVALID_TYPE or EALREADY_REGISTERED.
  pub type_register_refused :
      (md5 : CStr → List ℕ) (t : Option ℕ) (w w' : World T) (ret : ℤ)
      → type_register md5 t w ≡ some (ret, w')
      → ret ≢ pos 0
      → (w' ≡ w) × ((ret ≡ einvalid_type) ⊎ (ret ≡ ealready_registered))
  unfolding type_register
  type_register_refused md5 none w w' ret e bad = ground arith
  type_register_refused md5 (some t) w w' ret e bad = ground arith

  -- In a table of distinct names and pointers, `ubx_type_unregister` of a name that is found
  -- returns its struct; the name is not found any more, every other name is found as before, and
  -- the table stays distinct.
  pub type_unregister_lem :
      (name : CStr) (t : ℕ) (w : World T)
      → IsTable (u.items w.node.types)
      → type_get w (some name) ≡ some t
      → ((type_unregister name w).0 ≡ some t)
        × ((other : CStr)
            → type_get (type_unregister name w).1 (some other)
              ≡ (if str_eq name other then none else type_get w (some other)))
        × IsTable (u.items (type_unregister name w).1.node.types)
  unfolding type_unregister type_get
  type_unregister_lem name t w table found = (
    rw (found, type_unregister),
    λ other. rw (found, type_unregister) (find-del name other t w.node.types table found),
    rw (found, type_unregister) (del-IsTable t w.node.types table),
  )
