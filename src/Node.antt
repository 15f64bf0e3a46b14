-- ===== src/Node.antt =====
-- A node's end: ubx_node_clear of libubx/ubx.c. HASH_ITER fetches the next element before the body
-- runs; its loops go over the elements that are there when they start, so hooks that remove
-- blocks from the table while a loop runs are not described by these definitions.
pub mod Table
pub mod Sweep
pub mod Instances
pub mod Clear
mod Examples
use microblx.Base.{
  ℕ, Bool, true, false, ◌&&◌, Option, none, some, List, [], ◌∷◌, if◌then◌else◌, is_some,
}
use microblx.Base.Int.{ℤ}
use microblx.Store.{BlockState, preinit, inactive, active, World}
use microblx.Store.Hash.{Uthash, Item}
use microblx.Lifecycle.{Hooks, Outcome, same_state, block_stop, block_cleanup}
use microblx.Blocks.{block_rm}

module _ {T : Type 0} where
  -- The loops that stop and clean up: the operation is called for the blocks in one state, and its
  -- return code is only logged.
  unfoldable pub each_in_state :
      BlockState → (Option ℕ → World T → Outcome T) → List Item → World T → Option (World T)
  each_in_state state op [] w = some w
  each_in_state state op ((key, b) ∷ rest) w = elim (w.blocks b) [
    | none ↦ none
    | some blk ↦
        if same_state blk.block_state state
        then elim (op (some b) w) [ none ↦ none | some (ret, w') ↦ each_in_state state op rest w' ]
        else each_in_state state op rest w
  ]

module _ {T : Type 0} ⦃u : Uthash T⦄ where
  -- The loop that removes the instances.
  unfoldable pub rm_instances : List Item → World T → Option (World T)
  rm_instances [] w = some w
  rm_instances ((key, b) ∷ rest) w = elim (w.blocks b) [
    | none ↦ none
    | some blk ↦
        if same_state blk.block_state preinit && is_some blk.prototype
        then elim (block_rm (some blk.name) w) [
          | none ↦ none
          | some (ret, w') ↦ rm_instances rest w'
        ]
        else rm_instances rest w
  ]

  unfoldable pub node_clear : Hooks T → World T → Option (World T)
  node_clear hooks w = elim (each_in_state active (block_stop hooks) (u.items w.node.blocks) w) [
    | none ↦ none
    | some w1 ↦ elim (each_in_state inactive (block_cleanup hooks) (u.items w1.node.blocks) w1) [
      | none ↦ none
      | some w2 ↦ rm_instances (u.items w2.node.blocks) w2
    ]
  ]
