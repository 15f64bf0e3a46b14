-- ===== src/Trigger/Chains.antt =====
-- ubx_chain_trigger and what it calls. The clock gives the times that ubx_gettime reads, in order.
-- Statistics are written through write_tstat, which def_port_accessors generates for the type.
use microblx.Base.{
  ℕ, zero, suc, ◌+◌, ◌-◌, ◌%◌, ◌^◌, not, Option, none, some, List, [], ◌∷◌, ◌==◌, ltb, leb,
  if◌then◌else◌, length, get_elem?,
}
use microblx.Base.Int.{ℤ, pos, negsuc, eqb_ℤ, pos_part}
use microblx.Time.{Timespec, ts_to_ns}
use microblx.Store.{World, Port, CStr}
use microblx.Store.Hash.{Uthash}
use microblx.Access.{write_one}
use microblx.Lifecycle.{Hooks, Outcome, cblock_step}
use microblx.Trigger.{Tstat, tstat_update, Triggee, TstatsBuf, stats, Chain}

-- The world, and the number of times that the clock was read.
pub record Run (T : Type 0) : Type 0 where
  pub world : World T
  pub readings : ℕ

-- What the accessors of a trigger block's ports depend on: the port that a pointer leads to,
-- `none` if it leads to none; the `static` type and the address of the local variable of an
-- accessor; how a `struct ubx_tstat` and an int lie in memory; and the bytes that an int has that
-- is not set yet.
pub record PortIo (T : Type 0) : Type 0 where
  pub port_at : World T → ℕ → Option Port
  pub tstat_static : ℕ
  pub tstat_local : ℕ
  pub tstat_bytes : Tstat → List ℕ
  pub int_static : ℕ
  pub int_local : ℕ
  pub int_of : List ℕ → ℤ
  pub int_unset : List ℕ

-- "struct ubx_tstat"
abbrev pub tstat_type : CStr
tstat_type =
    115 ∷ 116 ∷ 114 ∷ 117 ∷ 99 ∷ 116 ∷ 32 ∷ 117 ∷ 98 ∷ 120 ∷ 95 ∷ 116 ∷ 115 ∷ 116 ∷ 97 ∷ 116 ∷ []

abbrev pub stats_of : TstatsBuf → List Tstat
stats_of (stats sts) = sts
stats_of _ = []

abbrev pub put_stats : TstatsBuf → List Tstat → TstatsBuf
put_stats (stats old) sts = stats sts
put_stats buf sts = buf

module _ {T : Type 0} (hooks : Hooks T) where
  -- `trig_single_block`, with the number of steps that are left.
  unfoldable pub step_times : ℕ → Option ℕ → World T → Outcome T
  step_times zero b w = some (pos 0, w)
  step_times (suc n) b w = elim (cblock_step hooks b w) [
    | none ↦ none
    | some (ret, w') ↦ if eqb_ℤ ret (pos 0) then step_times n b w' else some (ret, w')
  ]

  abbrev pub trig_single_block : Triggee → World T → Outcome T
  trig_single_block t w = step_times (pos_part t.num_steps) t.block w

  -- The loop of `trig_stats_disabled` and of `trig_stats_global`; a failed block does not end it.
  unfoldable pub trig_blocks : ℕ → List Triggee → ℤ → World T → Outcome T
  trig_blocks cnt [] ret w = some (ret, w)
  trig_blocks cnt (t ∷ ts) ret w =
      if t.every == 0
      then none
      else if not (cnt % t.every == 0)
      then trig_blocks cnt ts ret w
      else elim (trig_single_block t w) [
        | none ↦ none
        | some (r, w') ↦ trig_blocks cnt ts (if eqb_ℤ r (pos 0) then ret else negsuc 0) w'
      ]

  -- The loop of `trig_stats_perblock`: the block is measured by two readings of the clock, and its
  -- own statistics are updated.
  unfoldable pub trig_timed :
      (ℕ → Timespec)
      → ℕ
      → List Triggee
      → List Tstat
      → ℤ
      → ℕ
      → World T
      → Option (ℤ × List Tstat × ℕ × World T)
  trig_timed clock cnt [] sts ret n w = some (ret, sts, n, w)
  trig_timed clock cnt (t ∷ ts) [] ret n w =
      if t.every == 0
      then none
      else if not (cnt % t.every == 0)
      then trig_timed clock cnt ts [] ret n w
      else none
  trig_timed clock cnt (t ∷ ts) (s ∷ sts) ret n w =
      if t.every == 0
      then none
      else if not (cnt % t.every == 0)
      then elim (trig_timed clock cnt ts sts ret n w) [
        | none ↦ none
        | some (ret', sts', n', w') ↦ some (ret', s ∷ sts', n', w')
      ]
      else elim (trig_single_block t w) [
        | none ↦ none
        | some (r, w1) ↦
            elim (trig_timed clock cnt ts sts (if eqb_ℤ r (pos 0) then ret else negsuc 0) (n + 2)
              w1) [
                | none ↦ none
                | some (ret', sts', n', w') ↦
                    some (ret', tstat_update s (clock n) (clock (n + 1)) ∷ sts', n', w')
              ]
      ]

module _ {T : Type 0} ⦃u : Uthash T⦄ (hooks : Hooks T) (io : PortIo T) where
  -- `write_tstat`, whose result is not used.
  unfoldable pub write_tstat : ℕ → Tstat → World T → Option (World T)
  write_tstat port s w = elim (io.port_at w port) [
    | none ↦ none
    | some p ↦
        elim (write_one hooks io.tstat_static tstat_type io.tstat_local (some p) (io.tstat_bytes s)
          w) [ none ↦ none | some (ret, w') ↦ some w' ]
  ]

  -- A chain with what is left after one of its statistics was written.
  abbrev pub after_write : Chain → Option (World T) → Option (Chain × World T)
  after_write chain none = none
  after_write chain (some w) = some (chain, w)

  unfoldable pub tstats_output_throttled : Chain → ℕ → World T → Option (Chain × World T)
  tstats_output_throttled chain now w = elim chain.p_tstats [
    | none ↦ some (chain, w)
    | some port ↦
        let len = length chain.triggees in
        let idx = chain.tstats_output_idx in
        let later = record chain {
          tstats_output_idx = (idx + 1) % (len + 1);
          tstats_output_last_msg = now;
        } in
        if leb now ((chain.tstats_output_last_msg + chain.tstats_output_rate) % 2 ^ 64)
        then some (chain, w)
        else if eqb_ℤ chain.tstats_mode (pos 1)
        then after_write (record chain { tstats_output_last_msg = now })
            (write_tstat port chain.global_tstats w)
        else if not (ltb idx len)
        then after_write later (write_tstat port chain.global_tstats w)
        else elim (get_elem? (stats_of chain.blk_tstats) idx) [
          | none ↦ none
          | some s ↦ after_write later (write_tstat port s w)
        ]
  ]

abbrev pub Triggered : Type 0 → Type 0
Triggered T = Option (ℤ × Chain × Run T)

module _ {T : Type 0} ⦃u : Uthash T⦄ (hooks : Hooks T) (io : PortIo T) (clock : ℕ → Timespec) where
  unfoldable pub trig_stats_disabled : Chain → Run T → Triggered T
  trig_stats_disabled chain run =
      elim (trig_blocks hooks chain.every_cnt chain.triggees (pos 0) run.world) [
        | none ↦ none
        | some (ret, w) ↦ some (ret, chain, record run { world = w })
      ]

  -- "finalize global measurement, output stats": the clock is read once more.
  unfoldable pub finalize : ℤ → Timespec → Chain → Run T → Triggered T
  finalize ret ts_start chain run =
      let ts_end = clock run.readings in
      let chain1 = record chain {
        global_tstats = tstat_update chain.global_tstats ts_start ts_end;
      } in
      let run1 = record run { readings = run.readings + 1 } in
      if chain.tstats_output_rate == 0
      then some (ret, chain1, run1)
      else elim (tstats_output_throttled hooks io chain1 (ts_to_ns ts_end) run.world) [
        | none ↦ none
        | some (chain2, w) ↦ some (ret, chain2, record run1 { world = w })
      ]

  unfoldable pub trig_stats_global : Chain → Run T → Triggered T
  trig_stats_global chain run =
      elim (trig_blocks hooks chain.every_cnt chain.triggees (pos 0) run.world) [
        | none ↦ none
        | some (ret, w) ↦
            finalize ret (clock run.readings) chain
              (record run { world = w; readings = run.readings + 1 })
      ]

  unfoldable pub trig_stats_perblock : Chain → Run T → Triggered T
  trig_stats_perblock chain run =
      elim (trig_timed hooks clock chain.every_cnt chain.triggees (stats_of chain.blk_tstats)
        (pos 0) (run.readings + 1) run.world) [
          | none ↦ none
          | some (ret, sts, n, w) ↦
              finalize ret (clock run.readings)
                (record chain { blk_tstats = put_stats chain.blk_tstats sts })
                (record run { world = w; readings = n })
        ]

  -- The choice of `ubx_chain_trigger`.
  unfoldable pub trigger_mode : Chain → Run T → Triggered T
  trigger_mode chain run =
      if ltb 0 chain.tstats_skip_first
      then trig_stats_disabled (record chain { tstats_skip_first = chain.tstats_skip_first - 1 })
          run
      else if eqb_ℤ chain.tstats_mode (pos 0)
      then trig_stats_disabled chain run
      else if eqb_ℤ chain.tstats_mode (pos 1)
      then trig_stats_global chain run
      else if eqb_ℤ chain.tstats_mode (pos 2)
      then trig_stats_perblock chain run
      else some (negsuc 0, chain, run)

  unfoldable pub chain_trigger : Chain → Run T → Triggered T
  chain_trigger chain run = elim (trigger_mode chain run) [
    | none ↦ none
    | some (ret, chain', run') ↦
        some (ret, record chain' { every_cnt = (chain'.every_cnt + 1) % 2 ^ 32 }, run')
  ]
