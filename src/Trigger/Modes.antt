-- ===== src/Trigger/Modes.antt =====
-- Measuring does not change what is triggered: every mode steps the same blocks.
use microblx.Base.{
  ℕ, ◌+◌, ◌-◌, ◌%◌, ◌^◌, ◌≡◌, refl, sym, ap, subst, ◌∙◌, false, some, List, arith, inl, inr, ◌⊎◌,
  Bool-cases, ltb,
}
use microblx.Base.Int.{ℤ, pos}
use microblx.Time.{Timespec}
use microblx.Store.{World}
use microblx.Store.Hash.{Uthash}
use microblx.Lifecycle.{Hooks}
use microblx.Trigger.{Tstat, stats, Chain}
use microblx.Trigger.Chains.{
  Run, PortIo, trig_blocks, trig_timed, trig_stats_disabled, trig_stats_global, trig_stats_perblock,
  finalize, trigger_mode, chain_trigger,
}
use microblx.Trigger.Ready.{
  Ready, Goes, Sent, Sendable, finalize-Goes, stats_of_ready, put_stats_ready,
}
use microblx.Trigger.Timed.{trig_timed_lem}

module _ {T : Type 0} ⦃u : Uthash T⦄ (hooks : Hooks T) (io : PortIo T) (clock : ℕ → Timespec)
    (P : World T → Type 0) where
  -- One of the modes that there are, or the first triggers, which are not measured.
  abbrev pub IsMode : Chain → Type 0
  IsMode chain =
      (chain.tstats_mode ≡ pos 0) ⊎ (chain.tstats_mode ≡ pos 1) ⊎ (chain.tstats_mode ≡ pos 2)

  disabled-Goes :
      (chain : Chain) (run : Run T) (ret : ℤ) (w : World T)
      → Ready chain
      → P w
      → trig_blocks hooks chain.every_cnt chain.triggees (pos 0) run.world ≡ some (ret, w)
      → Goes hooks io clock P chain w ret (trig_stats_disabled hooks io clock chain run)
  unfolding trig_stats_disabled
  disabled-Goes chain run ret w r kind out = (
    chain,
    record run { world = w },
    rw (trig_stats_disabled, out) refl,
    inl refl,
    kind,
    record {
      same_triggees = refl;
      same_count = refl;
      same_mode = refl;
      same_port = refl;
      ready = r;
    },
  )

  global-Goes :
      (chain : Chain) (run : Run T) (ret : ℤ) (w : World T)
      → Ready chain
      → chain.tstats_mode ≡ pos 1
      → Sendable hooks io P chain
      → P w
      → trig_blocks hooks chain.every_cnt chain.triggees (pos 0) run.world ≡ some (ret, w)
      → Goes hooks io clock P chain w ret (trig_stats_global hooks io clock chain run)
  unfolding trig_stats_global
  global-Goes chain run ret w r mode sends kind out =
      rw (trig_stats_global, out)
        (finalize-Goes hooks io clock P ret (clock run.readings) chain
          (record run { world = w; readings = run.readings + 1 }) r (inl (rw mode refl)) sends kind)

  perblock_run :
      (chain : Chain) (run : Run T) (sts sts' : List Tstat) (n : ℕ) (ret : ℤ) (w : World T)
      → chain.blk_tstats ≡ stats sts
      → trig_timed hooks clock chain.every_cnt chain.triggees sts
          (pos 0)
          (run.readings + 1)
          run.world
        ≡ some (ret, sts', n, w)
      → trig_stats_perblock hooks io clock chain run
        ≡ finalize hooks io clock ret
            (clock run.readings)
            (record chain { blk_tstats = stats sts' })
            (record run { world = w; readings = n })
  unfolding trig_stats_perblock
  perblock_run chain run sts sts' n ret w at timed =
      let there = stats_of_ready chain sts at in
      let old = put_stats_ready chain sts sts' at in
      rw (trig_stats_perblock, there, timed, old) refl

  perblock-Goes :
      (chain : Chain) (run : Run T) (ret : ℤ) (w : World T)
      → Ready chain
      → chain.tstats_mode ≡ pos 2
      → Sendable hooks io P chain
      → P w
      → trig_blocks hooks chain.every_cnt chain.triggees (pos 0) run.world ≡ some (ret, w)
      → Goes hooks io clock P chain w ret (trig_stats_perblock hooks io clock chain run)
  unfolding trig_stats_perblock
  perblock-Goes chain run ret w r mode sends kind out =
      let (sts, at, fit) = r.fits (rw mode refl) in
      let (sts', n, timed, same) =
        trig_timed_lem hooks clock chain.every_cnt chain.triggees sts (pos 0) (run.readings + 1)
          run.world ret w r.divides fit out in
      let chain1 = record chain { blk_tstats = stats sts' } in
      let ready1 : Ready chain1 = record {
        divides = r.divides;
        fits = λ _. (sts', refl, same ∙ fit);
        index = r.index;
      } in
      let (chain2, run2, done, at_w, kind2, kept) =
        finalize-Goes hooks io clock P ret (clock run.readings) chain1
          (record run { world = w; readings = n }) ready1 (inr (rw mode refl)) sends kind in
      (
        chain2,
        run2,
        perblock_run chain run sts sts' n ret w at timed ∙ done,
        at_w,
        kind2,
        record {
          same_triggees = kept.same_triggees;
          same_count = kept.same_count;
          same_mode = kept.same_mode;
          same_port = kept.same_port;
          ready = kept.ready;
        },
      )

  choose_disabled :
      (chain : Chain) (run : Run T)
      → ltb 0 chain.tstats_skip_first ≡ false
      → chain.tstats_mode ≡ pos 0
      → trigger_mode hooks io clock chain run ≡ trig_stats_disabled hooks io clock chain run
  unfolding trigger_mode
  choose_disabled chain run no_skip mode = ground arith

  choose_global :
      (chain : Chain) (run : Run T)
      → ltb 0 chain.tstats_skip_first ≡ false
      → chain.tstats_mode ≡ pos 1
      → trigger_mode hooks io clock chain run ≡ trig_stats_global hooks io clock chain run
  unfolding trigger_mode
  choose_global chain run no_skip mode = ground arith

  choose_perblock :
      (chain : Chain) (run : Run T)
      → ltb 0 chain.tstats_skip_first ≡ false
      → chain.tstats_mode ≡ pos 2
      → trigger_mode hooks io clock chain run ≡ trig_stats_perblock hooks io clock chain run
  unfolding trigger_mode
  choose_perblock chain run no_skip mode = ground arith

  trigger_mode-Goes :
      (chain : Chain) (run : Run T) (ret : ℤ) (w : World T)
      → Ready chain
      → IsMode chain
      → Sendable hooks io P chain
      → P w
      → trig_blocks hooks chain.every_cnt chain.triggees (pos 0) run.world ≡ some (ret, w)
      → Goes hooks io clock P chain w ret (trigger_mode hooks io clock chain run)
  unfolding trigger_mode
  trigger_mode-Goes chain run ret w r mode sends kind out =
      elim (Bool-cases (ltb 0 chain.tstats_skip_first)) [
        | inl skip ↦
            let chain1 = record chain { tstats_skip_first = chain.tstats_skip_first - 1 } in
            let ready1 : Ready chain1 = record {
              divides = r.divides;
              fits = r.fits;
              index = r.index;
            } in
            let (chain2, run2, done, at_w, kind2, kept) =
              disabled-Goes chain1 run ret w ready1 kind out in
            (
              chain2,
              run2,
              rw (trigger_mode, skip) done,
              at_w,
              kind2,
              record {
                same_triggees = kept.same_triggees;
                same_count = kept.same_count;
                same_mode = kept.same_mode;
                same_port = kept.same_port;
                ready = kept.ready;
              },
            )
        | inr no_skip ↦ elim mode [
          | inl e ↦
              subst (Goes hooks io clock P chain w ret) (sym (choose_disabled chain run no_skip e))
                (disabled-Goes chain run ret w r kind out)
          | inr (inl e) ↦
              subst (Goes hooks io clock P chain w ret) (sym (choose_global chain run no_skip e))
                (global-Goes chain run ret w r e sends kind out)
          | inr (inr e) ↦
              subst (Goes hooks io clock P chain w ret) (sym (choose_perblock chain run no_skip e))
                (perblock-Goes chain run ret w r e sends kind out)
        ]
      ]

  -- Triggering a chain that is ready, in one of the three modes, goes through with the code of
  -- the plain loop over its blocks, if that does and if, in the worlds of a kind that it leaves,
  -- statistics can be written to the chain's port: it does to the world what that loop does,
  -- measuring changes nothing, and at most one write follows, of one of the chain's own
  -- statistics, to its port. The world is of that kind again, the triggees, the mode and the port
  -- stay, the counter goes up by 1 modulo 2^32, and the chain is ready again.
  pub chain_trigger-Goes :
      (chain : Chain) (run : Run T) (ret : ℤ) (w : World T)
      → Ready chain
      → IsMode chain
      → Sendable hooks io P chain
      → P w
      → trig_blocks hooks chain.every_cnt chain.triggees (pos 0) run.world ≡ some (ret, w)
      → (chain' : Chain) × (run' : Run T) × (chain_trigger hooks io clock chain run
          ≡ some (ret, chain', run'))
        × Sent hooks io P chain' w run'.world
        × P run'.world
        × (chain'.triggees ≡ chain.triggees)
        × (chain'.every_cnt ≡ (chain.every_cnt + 1) % 2 ^ 32)
        × (chain'.tstats_mode ≡ chain.tstats_mode)
        × (chain'.p_tstats ≡ chain.p_tstats)
        × Ready chain'
  unfolding chain_trigger
  chain_trigger-Goes chain run ret w r mode sends kind out =
      let (chain1, run1, done, at_w, kind1, kept) =
        trigger_mode-Goes chain run ret w r mode sends kind out in
      (
        record chain1 { every_cnt = (chain1.every_cnt + 1) % 2 ^ 32 },
        run1,
        rw (chain_trigger, done) refl,
        at_w,
        kind1,
        kept.same_triggees,
        ap (λ n. (n + 1) % 2 ^ 32) kept.same_count,
        kept.same_mode,
        kept.same_port,
        record { divides = kept.ready.divides; fits = kept.ready.fits; index = kept.ready.index },
      )
