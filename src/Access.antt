-- ===== src/Access.antt =====
-- The accessors that the macros of libubx/typemacros.h generate for a type, and of libubx/ubx.c
-- ubx_config_get_data_ptr, ubx_config_data_len and ubx_data_alloc. Each function has its own
-- static type. A port that is not NULL belongs to a block. `none` is a fault.
pub mod Configs
pub mod Ports
mod Examples
use microblx.Base.{
  ℕ, zero, suc, Bool, true, false, not, Option, none, some, List, [], ◌∷◌, ◌++◌, length, drop, ltb,
  is_some, ◌&&◌, if◌then◌else◌,
}
use microblx.Base.Int.{ℤ, pos, negsuc, ltb_ℤ, eqb_ℤ}
use microblx.Store.{CStr, UbxData, Config, Block, Port, Heap, World}
use microblx.Store.Hash.{Uthash}
use microblx.Store.Errors.{einvalid_port, einvalid_port_dir, einvalid_data_len, einvalid_config}
use microblx.Data.{with_data, data_alloc_typed}
use microblx.Registry.{type_get}
use microblx.Data.Resize.{data_resize, bytes_of}
use microblx.Config.{config_get, config_get_data}
use microblx.Lifecycle.{Hooks, check_static}
use microblx.PortIo.{port_read, port_write}

-- The length, and what the pointer is set to, if it is set.
unfoldable pub config_get_data_ptr :
    (ℕ → Option UbxData) → Option Block → Option CStr → Option (ℤ × Option (Option (List ℕ)))
config_get_data_ptr datas b name = elim (config_get_data b name) [
  | none ↦ some (einvalid_config, none)
  | some p ↦ elim (datas p) [
    | none ↦ none
    | some d ↦ some (d.len, if ltb_ℤ (pos 0) d.len then some d.buf else none)
  ]
]

unfoldable pub config_data_len : (ℕ → Option UbxData) → Option Block → Option CStr → Option ℤ
config_data_len datas b name = elim (config_get_data b name) [
  | none ↦ some (negsuc 0)
  | some p ↦ elim (datas p) [ none ↦ none | some d ↦ some d.len ]
]

-- memcpy to the start of a buffer, which faults where the buffer is too short.
abbrev pub copy_into : List ℕ → Option (List ℕ) → Option (List ℕ)
copy_into val buf =
    if ltb (length (bytes_of buf)) (length val)
    then none
    else some (val ++ drop (length val) (bytes_of buf))

abbrev size_or_zero : Option ℕ → ℕ
size_or_zero none = 0
size_or_zero (some size) = size

-- The local `ubx_data_t data` of a port accessor, which points to the caller's bytes; its reference
-- count is not set and not read.
abbrev pub local_data : ℕ → ℤ → List ℕ → UbxData
local_data type len val = record { refcnt = pos 0; type = type; len = len; buf = some val }

module _ {T : Type 0} where
  abbrev pub put_data : ℕ → Option UbxData → World T → World T
  put_data dat d w = record w { heap = with_data w.heap dat d }

  -- The bytes of a local variable, and the world without it.
  abbrev pub take_data : ℕ → World T → List ℕ × World T
  take_data dat w = elim (w.heap.datas dat) [
    | none ↦ ([], w)
    | some d ↦ (bytes_of d.buf, put_data dat none w)
  ]

module _ {T : Type 0} ⦃u : Uthash T⦄ where
  -- `ubx_data_alloc`, for a node that is not NULL; the size is read through the type for a positive
  -- length.
  unfoldable pub data_alloc :
      (ℕ → Option ℕ) → Option CStr → ℤ → World T → Option (Option ℕ × World T)
  data_alloc sizes name len w = elim (type_get w name) [
    | none ↦ some (none, w)
    | some t ↦
        let (d, h) = data_alloc_typed (some t) (size_or_zero (sizes t)) len w.heap in
        if ltb_ℤ (pos 0) len && not (is_some (sizes t))
        then none
        else some (d, record w { heap = h })
  ]

  -- The last lines of `cfg_set_*`, for the value of the config; `val` has the bytes of `len`
  -- values.
  unfoldable pub set_value :
      (ℕ → ℕ) → (ℕ → Option ℕ) → ℕ → List ℕ → ℤ → World T → Option (ℤ × World T)
  set_value fresh sizes p val len w = elim (data_resize fresh sizes p len w.heap) [
    | none ↦ none
    | some (ret, h) ↦
        if not (eqb_ℤ ret (pos 0)) then some (ret, record w { heap = h }) else elim (h.datas p) [
          | none ↦ none
          | some d ↦ elim (copy_into val d.buf) [
            | none ↦ none
            | some buf ↦
                some (pos 0, record w { heap = with_data h p (some (record d { buf = some buf })) })
          ]
        ]
  ]

  -- `cfg_set_*`; the message that there is no config reads through a NULL block.
  unfoldable pub cfg_set :
      ℕ
      → CStr
      → (ℕ → ℕ)
      → (ℕ → Option ℕ)
      → Option Block
      → Option CStr
      → List ℕ
      → ℤ
      → World T
      → Option (ℤ × World T)
  cfg_set slot type_name fresh sizes b name val len w = elim (config_get b name) [
    | none ↦ if is_some b then some (einvalid_config, w) else none
    | some c ↦
        let (ret, w1) = check_static slot type_name c.type w in
        if not (eqb_ℤ ret (pos 0))
        then some (ret, w1)
        else elim c.value [ none ↦ none | some p ↦ set_value fresh sizes p val len w1 ]
  ]

  -- `write_*_array`; `dat` is the address of the local variable.
  unfoldable pub write_array :
      Hooks T → ℕ → CStr → ℕ → Option Port → List ℕ → ℤ → World T → Option (ℤ × World T)
  write_array hooks slot type_name dat none val len w = some (einvalid_port, w)
  write_array hooks slot type_name dat (some p) val len w = elim p.out_type [
    | none ↦ some (einvalid_port_dir, w)
    | some t ↦
        let (ret, w1) = check_static slot type_name t w in
        if not (eqb_ℤ ret (pos 0))
        then some (ret, w1)
        else if ltb_ℤ p.out_data_len len
        then some (einvalid_data_len, w1)
        else elim (port_write hooks dat (some p) (put_data dat (some (local_data t len val)) w1)) [
          | none ↦ none
          | some w2 ↦ some (pos 0, put_data dat none w2)
        ]
  ]

  -- `read_*_array`: the code, the caller's bytes and the world.
  unfoldable pub read_array :
      Hooks T → ℕ → CStr → ℕ → Option Port → List ℕ → ℤ → World T → Option (ℤ × List ℕ × World T)
  read_array hooks slot type_name dat none val len w = some (einvalid_port, val, w)
  read_array hooks slot type_name dat (some p) val len w = elim p.in_type [
    | none ↦ some (einvalid_port_dir, val, w)
    | some t ↦
        let (ret, w1) = check_static slot type_name t w in
        if not (eqb_ℤ ret (pos 0))
        then some (ret, val, w1)
        else if ltb_ℤ p.in_data_len len
        then some (einvalid_data_len, val, w1)
        else elim (port_read hooks (some p) (some dat)
            (put_data dat (some (local_data t len val)) w1)) [
              | none ↦ none
              | some (r, w2) ↦ let (bytes, w3) = take_data dat w2 in some (r, bytes, w3)
            ]
  ]

  -- `write_*` and `read_*`
  unfoldable pub write_one :
      Hooks T → ℕ → CStr → ℕ → Option Port → List ℕ → World T → Option (ℤ × World T)
  write_one hooks slot type_name dat p val w = write_array hooks slot type_name dat p val (pos 1) w

  unfoldable pub read_one :
      Hooks T → ℕ → CStr → ℕ → Option Port → List ℕ → World T → Option (ℤ × List ℕ × World T)
  read_one hooks slot type_name dat p val w = read_array hooks slot type_name dat p val (pos 1) w
