-- ===== src/Lifecycle/Counting.antt =====
-- The steps of an active block, counted.
use microblx.Base.{ℕ, zero, suc, ◌+◌, ◌%◌, ◌^◌, ◌<◌, ◌≡◌, refl, sym, Option, none, some, arith}
use microblx.Base.Int.{pos}
use microblx.Store.{Block, active, computation, World}
use microblx.Lifecycle.{Hooks, cblock_step, run_step, put_block}

module _ {T : Type 0} (hooks : Hooks T) (b : ℕ) where
  -- `n` calls of ubx_cblock_step; a call that fails ends the run.
  abbrev pub step_times : ℕ → World T → Option (World T)
  step_times zero w = some w
  step_times (suc n) w = elim (cblock_step hooks (some b) w) [
    | none ↦ none
    | some (pos zero, w') ↦ step_times n w'
    | some _ ↦ none
  ]

-- `n` steps of an active computation block, whose step hook leaves the block structs alone, all
-- succeed, and the block differs in its count of steps alone, which is higher by `n` modulo 2^64.
pub step_times_lem :
    {T : Type 0} (hooks : Hooks T) (b f n : ℕ) (blk : Block) (w : World T)
    → ((w : World T) → (hooks.step f b w).blocks ≡ w.blocks)
    → w.blocks b ≡ some blk
    → blk.type ≡ computation
    → blk.block_state ≡ active
    → blk.step ≡ some f
    → blk.stat_num_steps < 2 ^ 64
    → (w' : World T) × (step_times hooks b n w ≡ some w')
      × (w'.blocks b ≡ some (record blk { stat_num_steps = (blk.stat_num_steps + n) % 2 ^ 64 }))
unfolding cblock_step run_step
step_times_lem hooks b f zero blk w apart at kind on hook lt =
    let same : (blk.stat_num_steps + 0) % 2 ^ 64 ≡ blk.stat_num_steps = omega arith in
    (w, refl, rw same at)
step_times_lem hooks b f (suc n) blk w apart at kind on hook lt =
    let blk1 = record blk { stat_num_steps = (blk.stat_num_steps + 1) % 2 ^ 64 } in
    let w1 = put_block b blk1 (hooks.step f b w) in
    let same : (hooks.step f b w).blocks b ≡ some blk = rw (apart w) at in
    let one : cblock_step hooks (some b) w ≡ some (pos 0, w1) = ground arith in
    let (w', runs, count) =
      step_times_lem hooks b f n blk1 w1 apart (ground arith) kind on hook (omega arith) in
    let sum : ((blk.stat_num_steps + 1) % 2 ^ 64 + n) % 2 ^ 64
        ≡ (blk.stat_num_steps + suc n) % 2 ^ 64 =
      omega arith in
    (w', rw (one, step_times) runs, rw (sym sum) count)
