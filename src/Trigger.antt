-- ===== src/Trigger.antt =====
-- Triggering chains of blocks and measuring them: libubx/trig_utils.c, with struct ubx_tstat and
-- struct ubx_triggee of std_types/stdtypes. `none` is a fault: freed or foreign memory is used, or
-- a remainder by zero is computed.
pub mod Chains
pub mod Stats
pub mod Ready
pub mod Timed
pub mod Modes
pub mod Init
pub mod Common
pub mod Files
pub mod Steps
mod Examples
use microblx.Base.{
  ℕ, suc, ◌+◌, ◌-◌, ◌%◌, ◌^◌, Bool, true, false, not, Option, none, some, List, [], ◌∷◌, ◌++◌, take,
  ◌==◌, ltb, leb, if◌then◌else◌, map,
}
use microblx.Base.Int.{ℤ, pos, negsuc, ltb_ℤ, eqb_ℤ}
use microblx.Time.{Timespec, ts_cmp, ts_sub, ts_add, ts_div}
use microblx.Store.{CStr, Block}
use microblx.Store.Errors.{eoutofmem}

abbrev pub tstat_id_maxlen : ℕ
tstat_id_maxlen = 63

abbrev pub long_max : ℤ
long_max = pos (2 ^ 63 - 1)

-- `struct ubx_tstat`
pub record Tstat : Type 0 where
  pub id : CStr
  pub min : Timespec
  pub max : Timespec
  pub total : Timespec
  pub cnt : ℕ

-- "#total#"
abbrev pub tstat_totals : CStr
tstat_totals = 35 ∷ 116 ∷ 111 ∷ 116 ∷ 97 ∷ 108 ∷ 35 ∷ []

-- The chain id and a comma, if there is a chain id.
abbrev pub chain_prefix : Option CStr → CStr
chain_prefix none = []
chain_prefix (some chain_id) = chain_id ++ 44 ∷ []

-- snprintf writes one character less than the size that it is given.
unfoldable pub tstat_init2 : CStr → Option CStr → Tstat
tstat_init2 block_name chain_id = record {
  id = take (tstat_id_maxlen - 1) (chain_prefix chain_id ++ block_name);
  min = record { sec = long_max; nsec = long_max };
  max = record { sec = pos 0; nsec = pos 0 };
  total = record { sec = pos 0; nsec = pos 0 };
  cnt = 0;
}

unfoldable pub tstat_update : Tstat → Timespec → Timespec → Tstat
tstat_update stats start end =
    let dur = ts_sub end start in
    record stats {
      min = if eqb_ℤ (ts_cmp dur stats.min) (negsuc 0) then dur else stats.min;
      max = if eqb_ℤ (ts_cmp dur stats.max) (pos 1) then dur else stats.max;
      total = ts_add stats.total dur;
      cnt = (stats.cnt + 1) % 2 ^ 64;
    }

-- `struct ubx_triggee`
pub record Triggee : Type 0 where
  pub block : Option ℕ
  pub every : ℕ
  pub num_steps : ℤ

-- The memory that `blk_tstats` points to: none, freed, or an array.
pub data TstatsBuf : Type 0 where
  no_stats freed_stats : TstatsBuf
  stats : List Tstat → TstatsBuf

-- `struct ubx_chain`; `triggees_len` is the length of the list.
pub record Chain : Type 0 where
  pub triggees : List Triggee
  pub tstats_mode : ℤ
  pub tstats_skip_first : ℕ
  pub p_tstats : Option ℕ
  pub every_cnt : ℕ
  pub global_tstats : Tstat
  pub blk_tstats : TstatsBuf
  pub tstats_output_rate : ℕ
  pub tstats_output_last_msg : ℕ
  pub tstats_output_idx : ℕ

abbrev pub is_freed : TstatsBuf → Bool
is_freed freed_stats = true
is_freed _ = false

-- `num_steps` and `every` default to 1.
abbrev pub default_triggee : Triggee → Triggee
default_triggee t = record t {
  num_steps = if eqb_ℤ t.num_steps (pos 0) then pos 1 else t.num_steps;
  every = if t.every == 0 then 1 else t.every;
}

-- The statistics of the blocks, whose names are read.
unfoldable pub init_blk_tstats :
    (ℕ → Option Block) → Option CStr → List Triggee → Option (List Tstat)
init_blk_tstats blocks chain_id [] = some []
init_blk_tstats blocks chain_id (t ∷ ts) = elim t.block [
  | none ↦ none
  | some b ↦ elim (blocks b) [
    | none ↦ none
    | some blk ↦ elim (init_blk_tstats blocks chain_id ts) [
      | none ↦ none
      | some rest ↦ some (tstat_init2 blk.name chain_id ∷ rest)
    ]
  ]
]

abbrev pub start_counting : Chain → Chain
start_counting chain = record chain { every_cnt = 0; triggees = map default_triggee chain.triggees }

-- `ubx_chain_init`; `got` says whether realloc returns memory, and `rate` is the output rate times
-- NSEC_PER_SEC as it is converted from double.
unfoldable pub chain_init : (ℕ → Option Block) → Bool → Option CStr → ℕ → Chain → Option (ℤ × Chain)
chain_init blocks got chain_id rate chain =
    let chain1 = record chain {
      tstats_output_rate = rate;
      tstats_output_last_msg = 0;
      tstats_output_idx = 0;
      global_tstats = tstat_init2 tstat_totals chain_id;
    } in
    if ltb_ℤ chain.tstats_mode (pos 2)
    then some (pos 0, start_counting chain1)
    else if is_freed chain.blk_tstats
    then none
    else if not got
    then some (eoutofmem, record chain1 { blk_tstats = no_stats })
    else elim (init_blk_tstats blocks chain_id chain.triggees) [
      | none ↦ none
      | some sts ↦ some (pos 0, start_counting (record chain1 { blk_tstats = stats sts }))
    ]

-- `free(chain->blk_tstats)`; the pointer is left as it was.
unfoldable pub chain_cleanup : Chain → Option Chain
chain_cleanup chain = elim chain.blk_tstats [
  | no_stats ↦ some chain
  | freed_stats ↦ none
  | stats sts ↦ some (record chain { blk_tstats = freed_stats })
]

-- `common_read_actchain` of std_blocks/trig/common.c, on what `read_int` returns and reads.
unfoldable pub common_read_actchain : ℤ → ℤ → ℤ → ℤ → ℤ
common_read_actchain ret tmp num_chains actchain =
    if eqb_ℤ ret (pos 0)
    then actchain
    else if ltb_ℤ ret (pos 0)
    then actchain
    else if ltb_ℤ tmp (pos 0)
    then actchain
    else if not (ltb_ℤ tmp num_chains)
    then actchain
    else tmp
