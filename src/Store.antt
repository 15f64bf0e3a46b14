-- ===== src/Store.antt =====
-- The data model of libubx/ubx_types.h: the structs, the error codes and the memory they live in.
-- A pointer is a number, a pointer that may be NULL an option. Strings are lists of their bytes.
pub mod Errors
pub mod Strings
pub mod Hash
pub mod Memory
pub mod Bytes
pub mod Named
pub mod Tables
use microblx.Base.{
  ℕ, suc, ◌+◌, ◌-◌, Bool, true, false, Option, none, some, List, [], ◌∷◌, ◌==◌, if◌then◌else◌,
}
use microblx.Base.Int.{ℤ}

abbrev pub CStr : Type 0
CStr = List ℕ

-- `struct ubx_type`; doc and private data are never read here.
pub record UbxType : Type 0 where
  pub name : Option CStr
  pub type_class : ℕ
  pub size : ℕ
  pub seqid : ℕ
  pub hash : List ℕ

-- `struct ubx_data`; `buf` is the buffer as its bytes, `none` for NULL.
pub record UbxData : Type 0 where
  pub refcnt : ℤ
  pub type : ℕ
  pub len : ℤ
  pub buf : Option (List ℕ)

-- `struct ubx_port`. The cells of an interaction array end in NULL (`none`).
pub record Port : Type 0 where
  pub name : CStr
  pub doc : Option CStr
  pub attrs : ℕ
  pub in_type : Option ℕ
  pub out_type : Option ℕ
  pub in_data_len : ℤ
  pub out_data_len : ℤ
  pub in_interaction : Option (List (Option ℕ))
  pub out_interaction : Option (List (Option ℕ))

-- `struct ubx_config`; `value` points to a `UbxData` and may be shared.
pub record Config : Type 0 where
  pub name : CStr
  pub doc : Option CStr
  pub attrs : ℕ
  pub type : ℕ
  pub value : Option ℕ
  pub min : ℕ
  pub max : ℕ

pub data BlockState : Type 0 where
  preinit inactive active : BlockState

-- `uint16_t type`: anything but the two values of the enum is invalid.
pub data BlockType : Type 0 where
  computation interaction : BlockType
  invalid_type : ℕ → BlockType

-- `struct ubx_block`. The lists of ports and configs are owned by the block, in list order; hooks
-- are function pointers.
pub record Block : Type 0 where
  pub name : CStr
  pub meta_data : Option CStr
  pub attrs : ℕ
  pub type : BlockType
  pub block_state : BlockState
  pub ports : List Port
  pub configs : List Config
  pub prototype : Option ℕ
  pub loglevel : Option ℕ
  pub init : Option ℕ
  pub start : Option ℕ
  pub stop : Option ℕ
  pub cleanup : Option ℕ
  pub step : Option ℕ
  pub read : Option ℕ
  pub write : Option ℕ
  pub stat_num_steps : ℕ
  pub stat_num_reads : ℕ
  pub stat_num_writes : ℕ

-- `struct ubx_node`, over the type of its hash tables.
pub record Node (T : Type 0) : Type 0 where
  pub name : CStr
  pub blocks : T
  pub types : T
  pub modules : T
  pub cur_seqid : ℕ
  pub attrs : ℕ
  pub loglevel : ℕ

-- What malloc and its kin see: the outcomes of the coming allocations (all succeed once the list
-- is used up), the number of live allocations, the next address and the `UbxData` structs.
pub record Heap : Type 0 where
  pub outcomes : List Bool
  pub live : ℕ
  pub next : ℕ
  pub datas : ℕ → Option UbxData

-- All that the functions of ubx.c can reach. `static_types` are the `static ubx_type_t *type` of
-- the generated accessors.
pub record World (T : Type 0) : Type 0 where
  pub node : Node T
  pub heap : Heap
  pub blocks : ℕ → Option Block
  pub types : ℕ → Option UbxType
  pub static_types : ℕ → Option ℕ

abbrev pub update {ℓ} : {A : Type ℓ} → (ℕ → A) → ℕ → A → ℕ → A
update f p v q = if p == q then v else f q

abbrev pub next_outcome : List Bool → Bool
next_outcome [] = true
next_outcome (ok ∷ later) = ok

abbrev pub later_outcomes : List Bool → List Bool
later_outcomes [] = []
later_outcomes (ok ∷ later) = later

-- malloc, calloc and strdup: whether there was memory.
unfoldable pub alloc : Heap → Bool × Heap
alloc h =
    if next_outcome h.outcomes
    then (true, record h { outcomes = later_outcomes h.outcomes; live = h.live + 1 })
    else (false, record h { outcomes = later_outcomes h.outcomes })

unfoldable pub free : Heap → Heap
free h = record h { live = h.live - 1 }
