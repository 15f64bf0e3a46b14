-- ===== src/Port.antt =====
-- The ports of a block: adding, removing, finding and resizing them (libubx/ubx.c).
pub mod Add
use microblx.Base.{
  ℕ, ◌+◌, ◌-◌, Bool, true, false, not, ◌&&◌, Option, none, some, List, [], ◌∷◌, ◌++◌, length, take,
  ltb, if◌then◌else◌, is_some,
}
use microblx.Base.Int.{ℤ, pos, negsuc, eqb_ℤ}
use microblx.Store.{CStr, Port, Block, BlockState, preinit, inactive, active, Heap, alloc, free}
use microblx.Store.Named.{find_named, delete_named}
use microblx.Store.Errors.{
  eentexists, eoutofmem, einvalid_port, enosuchent, einvalid_arg, einvalid_block, einvalid_type,
}
use microblx.Config.{Added, dup_doc, free_doc}

abbrev pub port_name_maxlen : ℕ
port_name_maxlen = 39

-- The predicates on ports.
unfoldable pub port_is_out : Port → Bool
port_is_out p = is_some p.out_type

unfoldable pub port_is_in : Port → Bool
port_is_in p = is_some p.in_type

unfoldable pub port_is_inout : Port → Bool
port_is_inout p = port_is_out p && port_is_in p

abbrev pub port_name : Port → CStr
port_name p = p.name

-- The loop of `ubx_port_get`.
abbrev pub port_find : CStr → List Port → Option Port
port_find = find_named port_name port_name_maxlen

unfoldable pub port_get : Option Block → Option CStr → Option Port
port_get none name = none
port_get (some b) none = none
port_get (some b) (some name) = port_find name b.ports

-- `(len == 0) ? 1 : len`
abbrev pub default_len : ℤ → ℤ
default_len len = if eqb_ℤ len (pos 0) then pos 1 else len

-- The zeroed struct, filled in; strncpy cuts the name.
abbrev pub port_new : CStr → Option CStr → ℕ → Option ℕ → ℤ → Option ℕ → ℤ → Port
port_new name doc attrs in_type in_data_len out_type out_data_len = record {
  name = take port_name_maxlen name;
  doc = doc;
  attrs = attrs;
  in_type = in_type;
  out_type = out_type;
  in_data_len = default_len in_data_len;
  out_data_len = default_len out_data_len;
  in_interaction = none;
  out_interaction = none;
}

-- `__ubx_port_add`
unfoldable pub port_add_typed :
    Block → CStr → Option CStr → ℕ → Option ℕ → ℤ → Option ℕ → ℤ → Heap → Added
port_add_typed b name doc attrs in_type in_data_len out_type out_data_len h =
    let (got, h1) = alloc h in
    let (duped, h2) = dup_doc doc h1 in
    let pnew = port_new name doc attrs in_type in_data_len out_type out_data_len in
    if is_some (port_find name b.ports)
    then (eentexists, b, h)
    else if not got
    then (eoutofmem, b, h1)
    else if ltb port_name_maxlen (length name)
    then (einvalid_port, b, free h1)
    else if not duped
    then (eoutofmem, b, free h2)
    else (pos 0, record b { ports = b.ports ++ pnew ∷ [] }, h2)

-- A type name, if there is one, and the type that it names; `none` if there is no such type.
unfoldable pub resolve : (CStr → Option ℕ) → Option CStr → Option (Option ℕ)
resolve type_get none = some none
resolve type_get (some name) = elim (type_get name) [ none ↦ none | some t ↦ some (some t) ]

-- `ubx_port_add`; `type_get` is ubx_type_get on the block's node.
unfoldable pub port_add :
    (CStr → Option ℕ)
    → Option Block
    → CStr
    → Option CStr
    → ℕ
    → Option CStr
    → ℤ
    → Option CStr
    → ℤ
    → Heap
    → ℤ × Option Block × Heap
port_add type_get none name doc attrs in_name in_len out_name out_len h = (einvalid_block, none, h)
port_add type_get (some b) name doc attrs in_name in_len out_name out_len h =
    elim (resolve type_get in_name) [
      | none ↦ (einvalid_type, some b, h)
      | some in_type ↦ elim (resolve type_get out_name) [
        | none ↦ (einvalid_type, some b, h)
        | some out_type ↦
            let (ret, b', h') = port_add_typed b name doc attrs in_type in_len out_type out_len h in
            (ret, some b', h')
      ]
    ]

unfoldable pub outport_add :
    (CStr → Option ℕ)
    → Option Block
    → CStr
    → Option CStr
    → ℕ
    → Option CStr
    → ℤ
    → Heap
    → ℤ × Option Block × Heap
outport_add type_get b name doc attrs out_name out_len h =
    port_add type_get b name doc attrs none (pos 0) out_name out_len h

unfoldable pub inport_add :
    (CStr → Option ℕ)
    → Option Block
    → CStr
    → Option CStr
    → ℕ
    → Option CStr
    → ℤ
    → Heap
    → ℤ × Option Block × Heap
inport_add type_get b name doc attrs in_name in_len h =
    port_add type_get b name doc attrs in_name in_len none (pos 0) h

abbrev is_preinit : BlockState → Bool
is_preinit preinit = true
is_preinit _ = false

-- The state is that of the port's block.
unfoldable pub inport_resize : BlockState → Port → ℤ → ℤ × Port
inport_resize state p len =
    if not (is_preinit state) then (negsuc 0, p) else (pos 0, record p { in_data_len = len })

unfoldable pub outport_resize : BlockState → Port → ℤ → ℤ × Port
outport_resize state p len =
    if not (is_preinit state) then (negsuc 0, p) else (pos 0, record p { out_data_len = len })

-- `if (array) free(array)`
abbrev pub free_array : Option (List (Option ℕ)) → Heap → Heap
free_array none h = h
free_array (some cells) h = free h

unfoldable pub port_free : Port → Heap → Heap
port_free p h = free (free_doc p.doc (free_array p.out_interaction (free_array p.in_interaction h)))

abbrev pub port_delete : CStr → List Port → List Port
port_delete = delete_named port_name port_name_maxlen

unfoldable pub port_rm : Option Block → Option CStr → Heap → ℤ × Option Block × Heap
port_rm none name h = (einvalid_arg, none, h)
port_rm (some b) none h = (einvalid_arg, some b, h)
port_rm (some b) (some name) h = elim (port_find name b.ports) [
  | none ↦ (enosuchent, some b, h)
  | some p ↦ (pos 0, some (record b { ports = port_delete name b.ports }), port_free p h)
]
