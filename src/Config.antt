-- ===== src/Config.antt =====
-- The configs of a block: ubx_config_get, ubx_config_add and ubx_config_rm of libubx/ubx.c, and the
-- length check of check_minmax. The doubly linked list is read in its order.
pub mod Add
pub mod Minmax
mod Examples
use microblx.Base.{
  ℕ, suc, ◌+◌, ◌/◌, ◌%◌, Bool, true, false, not, ◌&&◌, ◌||◌, Option, none, some, List, [], ◌∷◌,
  ◌++◌, length, take, ◌==◌, ltb, if◌then◌else◌, is_some,
}
use microblx.Base.Int.{ℤ, pos, ltb_ℤ, eqb_ℤ}
use microblx.Store.{CStr, UbxData, Config, Block, Heap, alloc, free}
use microblx.Store.Named.{find_named, delete_named}
use microblx.Store.Errors.{
  einvalid_block, einvalid_type, eentexists, eoutofmem, einvalid_config, enosuchent, einvalid_arg,
  einvalid_config_len,
}
use microblx.Data.{data_alloc_typed, data_free}

abbrev pub config_name_maxlen : ℕ
config_name_maxlen = 39

abbrev pub config_len_max : ℕ
config_len_max = 65535

abbrev pub config_name : Config → CStr
config_name c = c.name

-- The loop of `ubx_config_get`.
abbrev pub config_find : CStr → List Config → Option Config
config_find = find_named config_name config_name_maxlen

-- `none` stands for a NULL argument.
unfoldable pub config_get : Option Block → Option CStr → Option Config
config_get none name = none
config_get (some b) none = none
config_get (some b) (some name) = config_find name b.configs

unfoldable pub config_get_data : Option Block → Option CStr → Option ℕ
config_get_data b name = elim (config_get b name) [ none ↦ none | some c ↦ c.value ]

-- What a call that may add to a block returns: the code, the block and the heap.
abbrev pub Added : Type 0
Added = ℤ × Block × Heap

-- `(max == 0 && min > 0) ? CONFIG_LEN_MAX : max`
abbrev pub effective_max : ℕ → ℕ → ℕ
effective_max min max = if max == 0 && ltb 0 min then config_len_max else max

-- `if (doc) strdup(doc)`: whether it went through.
abbrev pub dup_doc : Option CStr → Heap → Bool × Heap
dup_doc none h = (true, h)
dup_doc (some d) h = alloc h

-- The end of `__ubx_config_add`: the value is allocated, and the config is appended.
unfoldable pub config_append : Config → Block → Heap → Added
config_append c b h =
    let (value, h') = data_alloc_typed (some c.type) 0 (pos 0) h in
    (pos 0, record b { configs = b.configs ++ record c { value = value } ∷ [] }, h')

-- The zeroed struct, filled in; strncpy cuts the name.
abbrev pub config_new : CStr → Option CStr → ℕ → ℕ → ℕ → ℕ → Config
config_new name doc type min max attrs = record {
  name = take config_name_maxlen name;
  doc = doc;
  attrs = attrs;
  type = type;
  value = none;
  min = min;
  max = max;
}

-- `__ubx_config_add`. The early return on an invalid range does not free the new config.
unfoldable pub config_add_typed : Block → CStr → Option CStr → ℕ → ℕ → ℕ → ℕ → Heap → Added
unfolding config_append
config_add_typed b name doc type min max attrs h =
    let found = config_find name b.configs in
    let (got, h1) = alloc h in
    let upper = effective_max min max in
    let (duped, h2) = dup_doc doc h1 in
    let cnew = config_new name doc type min upper attrs in
    if is_some found
    then (eentexists, b, h)
    else if not got
    then (eoutofmem, b, h1)
    else if ltb config_name_maxlen (length name)
    then (einvalid_config, b, free h1)
    else if ltb upper min
    then (einvalid_config, b, h1)
    else if not duped
    then (eoutofmem, b, free h2)
    else config_append cnew b h2

-- DL_DELETE of the config that `ubx_config_get` found.
abbrev pub config_delete : CStr → List Config → List Config
config_delete = delete_named config_name config_name_maxlen

abbrev pub free_doc : Option CStr → Heap → Heap
free_doc none h = h
free_doc (some d) h = free h

abbrev pub free_value : Option ℕ → Heap → Option Heap
free_value none h = some h
free_value (some p) h = data_free p h

-- `ubx_config_free`; `none` is a fault.
unfoldable pub config_free : Config → Heap → Option Heap
config_free c h = elim (free_value c.value (free_doc c.doc h)) [
  | none ↦ none
  | some k ↦ some (free k)
]

unfoldable pub config_rm : Block → Option CStr → Heap → Option Added
config_rm b none h = some (einvalid_arg, b, h)
config_rm b (some name) h = elim (config_find name b.configs) [
  | none ↦ some (enosuchent, b, h)
  | some c ↦ elim (config_free c h) [
    | none ↦ none
    | some k ↦ some (pos 0, record b { configs = config_delete name b.configs }, k)
  ]
]

abbrev pub attr_checklate : ℕ → Bool
attr_checklate attrs = attrs / 2 % 2 == 1

-- `c->value->len`; `none` is the fault of a NULL or freed value.
abbrev pub value_len : (ℕ → Option UbxData) → Config → Option ℤ
value_len datas c = elim c.value [
  | none ↦ none
  | some p ↦ elim (datas p) [ none ↦ none | some d ↦ some d.len ]
]

-- The two tests that report an invalid length.
unfoldable pub bad_len : Config → ℤ → Bool
bad_len c n =
    if eqb_ℤ n (pos 0) && ltb 0 c.min then true else ltb_ℤ n (pos c.min) || ltb_ℤ (pos c.max) n

-- The two `continue`s: no limits, or not the time to check.
unfoldable pub is_skipped : Bool → Config → Bool
is_skipped late c =
    (c.min == 0 && c.max == 0)
    || (attr_checklate c.attrs && not late)
    || (not (attr_checklate c.attrs) && late)

-- One round of the loop of check_minmax: whether it reports an invalid length.
unfoldable pub minmax_round : (ℕ → Option UbxData) → Bool → Config → Option Bool
minmax_round datas late c =
    if is_skipped late c
    then some false
    else elim (value_len datas c) [ none ↦ none | some n ↦ some (bad_len c n) ]

-- The loop, with the return code so far.
unfoldable pub minmax_loop : (ℕ → Option UbxData) → Bool → List Config → ℤ → Option ℤ
minmax_loop datas late [] ret = some ret
minmax_loop datas late (c ∷ cs) ret = elim (minmax_round datas late c) [
  | none ↦ none
  | some bad ↦ minmax_loop datas late cs (if bad then einvalid_config_len else ret)
]

unfoldable pub check_minmax : (ℕ → Option UbxData) → Bool → List Config → Option ℤ
check_minmax datas late cs = minmax_loop datas late cs (pos 0)

-- `ubx_config_add2` on the block (`none` for NULL); `type_get` is ubx_type_get on its node.
pub config_add2 :
    (CStr → Option ℕ)
    → Option Block
    → Option CStr
    → Option CStr
    → CStr
    → ℕ
    → ℕ
    → ℕ
    → Heap
    → ℤ × Option Block × Heap
config_add2 type_get none name doc type_name min max attrs h = (einvalid_block, none, h)
config_add2 type_get (some b) none doc type_name min max attrs h = (einvalid_arg, some b, h)
config_add2 type_get (some b) (some name) doc type_name min max attrs h =
    elim (type_get type_name) [
      | none ↦ (einvalid_type, some b, h)
      | some t ↦
          let (ret, b', h') = config_add_typed b name doc t min max attrs h in (ret, some b', h')
    ]

unfoldable pub config_add :
    (CStr → Option ℕ)
    → Option Block
    → Option CStr
    → Option CStr
    → CStr
    → Heap
    → ℤ × Option Block × Heap
config_add type_get b name doc type_name h = config_add2 type_get b name doc type_name 0 0 0 h
