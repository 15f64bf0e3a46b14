-- ===== src/Lifecycle.antt =====
-- The life cycle of a block: ubx_block_init, start, stop, cleanup and ubx_cblock_step of
-- libubx/ubx.c, and the accessor cfg_getptr_int that ubx_block_init calls (libubx/typemacros.h).
-- Results are `none` for a fault, or the return code and the world that is left.
pub mod Machine
pub mod Steps
pub mod Counting
mod Examples
use microblx.Base.{
  ℕ, suc, ◌+◌, ◌%◌, ◌^◌, Bool, true, false, not, Option, none, some, List, [], ◌∷◌, ◌==◌,
  if◌then◌else◌,
}
use microblx.Base.Int.{ℤ, pos, negsuc, ltb_ℤ, eqb_ℤ}
use microblx.Store.{
  CStr, Block, BlockState, preinit, inactive, active, BlockType, computation, World, Config, update,
}
use microblx.Store.Hash.{Uthash}
use microblx.Store.Errors.{
  einvalid_block, ewrong_state, einvalid_block_type, einvalid_config, einvalid_type, etype_mismatch,
}
use microblx.Config.{config_find, check_minmax}
use microblx.Registry.{type_get}

-- What the hooks of the blocks do: a hook is called by its address with the block's address, and
-- may change all of the world.
pub record Hooks (T : Type 0) : Type 0 where
  pub init : ℕ → ℕ → World T → ℤ × World T
  pub start : ℕ → ℕ → World T → ℤ × World T
  pub stop : ℕ → ℕ → World T → World T
  pub cleanup : ℕ → ℕ → World T → World T
  pub step : ℕ → ℕ → World T → World T
  pub read : ℕ → ℕ → ℕ → World T → ℤ × World T
  pub write : ℕ → ℕ → ℕ → World T → World T

abbrev pub same_state : BlockState → BlockState → Bool
same_state preinit preinit = true
same_state inactive inactive = true
same_state active active = true
same_state _ _ = false

abbrev pub is_computation : BlockType → Bool
is_computation computation = true
is_computation _ = false

-- "loglevel" and "int"
abbrev pub loglevel_name : CStr
loglevel_name = 108 ∷ 111 ∷ 103 ∷ 108 ∷ 101 ∷ 118 ∷ 101 ∷ 108 ∷ []

abbrev pub int_name : CStr
int_name = 105 ∷ 110 ∷ 116 ∷ []

-- The slot of `static_types` that belongs to cfg_getptr_int.
abbrev pub cfg_getptr_int_static : ℕ
cfg_getptr_int_static = 0

abbrev pub Outcome : Type 0 → Type 0
Outcome T = Option (ℤ × World T)

module _ {T : Type 0} where
  abbrev pub put_block : ℕ → Block → World T → World T
  put_block b blk w = record w { blocks = update w.blocks b (some blk) }

  -- `b->block_state = s`
  abbrev pub set_state : ℕ → BlockState → World T → Option (World T)
  set_state b s w = elim (w.blocks b) [
    | none ↦ none
    | some blk ↦ some (put_block b (record blk { block_state = s }) w)
  ]

  -- A store to the block, and then a return code.
  abbrev pub then_return : Option (World T) → ℤ → Outcome T
  then_return none ret = none
  then_return (some w) ret = some (ret, w)

abbrev pub is_static : ℕ → Option ℕ → Bool
is_static type none = false
is_static type (some t) = t == type

module _ {T : Type 0} ⦃u : Uthash T⦄ where
  -- The type lookup of an accessor: the world with the new static, or an error code.
  unfoldable pub check_static : ℕ → CStr → ℕ → World T → ℤ × World T
  check_static slot type_name type w =
      if is_static type (w.static_types slot)
      then (pos 0, w)
      else elim (type_get w (some type_name)) [
        | none ↦ (einvalid_type, record w { static_types = update w.static_types slot none })
        | some t ↦ (
          if t == type then pos 0 else etype_mismatch,
          record w { static_types = update w.static_types slot (some t) },
        )
      ]

  -- A config accessor `cfg_getptr_*`: the code or length, and the value that the pointer is set to.
  unfoldable pub cfg_getptr : ℕ → CStr → Block → CStr → World T → Option (ℤ × Option ℕ × World T)
  cfg_getptr slot type_name blk name w = elim (config_find name blk.configs) [
    | none ↦ some (einvalid_config, none, w)
    | some c ↦
        let (ret, w') = check_static slot type_name c.type w in
        if not (eqb_ℤ ret (pos 0)) then some (ret, none, w') else elim c.value [
          | none ↦ some (einvalid_config, none, w')
          | some p ↦ elim (w'.heap.datas p) [
            | none ↦ none
            | some d ↦ some (d.len, if ltb_ℤ (pos 0) d.len then some p else none, w')
          ]
        ]
  ]

  -- "check and use loglevel config"; a fault is `none`.
  unfoldable pub use_loglevel : ℕ → Block → World T → Option (World T)
  use_loglevel b blk w = elim (config_find loglevel_name blk.configs) [
    | none ↦ some (put_block b (record blk { loglevel = none }) w)
    | some c ↦ elim (cfg_getptr cfg_getptr_int_static int_name blk loglevel_name w) [
      | none ↦ none
      | some (len, ptr, w') ↦ some (put_block b (record blk { loglevel = ptr }) w')
    ]
  ]

module _ {T : Type 0} (hooks : Hooks T) where
  -- The call of the init hook, if there is one, and the change of state if it returns 0.
  unfoldable pub run_init : ℕ → Block → World T → Outcome T
  run_init b blk w = elim blk.init [
    | none ↦ then_return (set_state b inactive w) (pos 0)
    | some f ↦
        let (ret, w') = hooks.init f b w in
        if eqb_ℤ ret (pos 0) then then_return (set_state b inactive w') (pos 0) else some (ret, w')
  ]

  -- The block is active while its start hook runs.
  unfoldable pub run_start : ℕ → Block → World T → Outcome T
  run_start b blk w = elim (set_state b active w) [
    | none ↦ none
    | some w1 ↦ elim blk.start [
      | none ↦ some (pos 0, w1)
      | some f ↦
          let (ret, w2) = hooks.start f b w1 in
          if eqb_ℤ ret (pos 0) then some (pos 0, w2) else then_return (set_state b inactive w2) ret
    ]
  ]

  unfoldable pub run_stop : ℕ → Block → World T → Outcome T
  run_stop b blk w = elim blk.stop [
    | none ↦ then_return (set_state b inactive w) (pos 0)
    | some f ↦ then_return (set_state b inactive (hooks.stop f b w)) (pos 0)
  ]

  unfoldable pub run_cleanup : ℕ → Block → World T → Outcome T
  run_cleanup b blk w = elim blk.cleanup [
    | none ↦ then_return (set_state b preinit w) (pos 0)
    | some f ↦ then_return (set_state b preinit (hooks.cleanup f b w)) (pos 0)
  ]

  -- The step hook, and then the count, which wraps.
  unfoldable pub run_step : ℕ → Block → World T → Outcome T
  run_step b blk w = elim blk.step [
    | none ↦ some (pos 0, w)
    | some f ↦
        let w' = hooks.step f b w in
        elim (w'.blocks b) [
          | none ↦ none
          | some k ↦ some (
            pos 0,
            put_block b (record k { stat_num_steps = (k.stat_num_steps + 1) % 2 ^ 64 }) w',
          )
        ]
  ]

  -- `ret = check_minmax(b, late); if (ret < 0) goto out;`
  unfoldable pub if_minmax : Bool → List Config → World T → Outcome T → Outcome T
  if_minmax late cs w next = elim (check_minmax w.heap.datas late cs) [
    | none ↦ none
    | some ret ↦ if ltb_ℤ ret (pos 0) then some (ret, w) else next
  ]

  unfoldable pub block_start : Option ℕ → World T → Outcome T
  block_start none w = some (einvalid_block, w)
  block_start (some b) w = elim (w.blocks b) [
    | none ↦ none
    | some blk ↦
        if not (same_state blk.block_state inactive)
        then some (ewrong_state, w)
        else if_minmax true blk.configs w (run_start b blk w)
  ]

  unfoldable pub block_stop : Option ℕ → World T → Outcome T
  block_stop none w = some (einvalid_block, w)
  block_stop (some b) w = elim (w.blocks b) [
    | none ↦ none
    | some blk ↦
        if not (same_state blk.block_state active) then some (ewrong_state, w) else run_stop b blk w
  ]

  unfoldable pub block_cleanup : Option ℕ → World T → Outcome T
  block_cleanup none w = some (einvalid_block, w)
  block_cleanup (some b) w = elim (w.blocks b) [
    | none ↦ none
    | some blk ↦
        if not (same_state blk.block_state inactive)
        then some (ewrong_state, w)
        else run_cleanup b blk w
  ]

  unfoldable pub cblock_step : Option ℕ → World T → Outcome T
  cblock_step none w = some (einvalid_block, w)
  cblock_step (some b) w = elim (w.blocks b) [
    | none ↦ none
    | some blk ↦
        if not (is_computation blk.type)
        then some (einvalid_block_type, w)
        else if not (same_state blk.block_state active)
        then some (ewrong_state, w)
        else run_step b blk w
  ]

module _ {T : Type 0} ⦃u : Uthash T⦄ (hooks : Hooks T) where
  unfoldable pub block_init : Option ℕ → World T → Outcome T
  block_init none w = some (einvalid_block, w)
  block_init (some b) w = elim (w.blocks b) [
    | none ↦ none
    | some blk ↦ elim (use_loglevel b blk w) [
      | none ↦ none
      | some w1 ↦
          if not (same_state blk.block_state preinit)
          then some (ewrong_state, w1)
          else if_minmax hooks false blk.configs w1 (run_init hooks b blk w1)
    ]
  ]
