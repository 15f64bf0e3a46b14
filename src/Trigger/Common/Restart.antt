-- ===== src/Trigger/Common/Restart.antt =====
-- A trigger block that is started, stopped and started again.
use microblx.Base.{
  ℕ, suc, ◌<◌, ◌≡◌, refl, Bool, true, false, Option, none, some, List, [], ◌∷◌, arith, length, All,
}
use microblx.Base.Int.{ℤ, pos, ltb_ℤ}
use microblx.Store.{Block}
use microblx.Trigger.{Chain, is_freed, freed_stats, chain_init, chain_cleanup}
use microblx.Trigger.Ready.{Ready}
use microblx.Trigger.Init.{Targets, chain_init-Ready}
use microblx.Trigger.Common.{Settings, set_up, common_config_chains, common_unconfig}

-- The statistics of no chain are freed memory.
abbrev pub NotFreed : List Chain → Type 0
NotFreed chains = All (λ (c : Chain). is_freed c.blk_tstats ≡ false) chains

-- Chains that are ready, in the given mode.
abbrev pub Started : ℤ → List Chain → Type 0
Started mode chains = All (λ (c : Chain). Ready c × (c.tstats_mode ≡ mode)) chains

-- Starting succeeds where there is memory and every chain's triggees name allocated blocks.
pub config_chains-Started :
    (blocks : ℕ → Option Block) (s : Settings) (i : ℕ) (chains : List Chain)
    → ((j : ℕ) → Targets blocks (s.triggees j))
    → NotFreed chains
    → (chains1 : List Chain) × (common_config_chains blocks (λ _. true) s i chains
        ≡ some (pos 0, chains1))
      × (length chains1 ≡ length chains)
      × Started s.tstats_mode chains1
unfolding common_config_chains
config_chains-Started blocks s i [] targets live = ([], refl, refl, tt)
config_chains-Started blocks s i (c ∷ cs) targets live =
    let (c1, out, _, _, mode, ready) =
      chain_init-Ready blocks (some (s.chain_name i)) s.output_rate (set_up s i c) (targets i)
        live.0 in
    let (cs1, outs, same, started) = config_chains-Started blocks s (suc i) cs targets live.1 in
    (
      c1 ∷ cs1,
      rw (common_config_chains, out, outs) refl,
      omega (arith, same),
      ((ready, mode), started),
    )

freed-Ready :
    (chain : Chain)
    → Ready chain
    → ltb_ℤ chain.tstats_mode (pos 2) ≡ false
    → (chain1 : Chain) × (chain_cleanup chain ≡ some chain1) × (is_freed chain1.blk_tstats ≡ true)
unfolding chain_cleanup
freed-Ready chain ready many =
    let (sts, live, fit) = ready.fits many in
    (record chain { blk_tstats = freed_stats }, rw (chain_cleanup, live) refl, refl)

-- Stopping frees the statistics of all chains.
unconfig_lem :
    (mode : ℤ) (chains : List Chain)
    → ltb_ℤ mode (pos 2) ≡ false
    → Started mode chains
    → (chains1 : List Chain) × (common_unconfig chains ≡ some chains1)
      × (length chains1 ≡ length chains)
      × All (λ (c : Chain). is_freed c.blk_tstats ≡ true) chains1
unfolding common_unconfig
unconfig_lem mode [] many started = ([], refl, refl, tt)
unconfig_lem mode (c ∷ cs) many ((ready, same), started) =
    let (c1, out, freed) = freed-Ready c ready (rw same many) in
    let (cs1, outs, size, all) = unconfig_lem mode cs many started in
    (c1 ∷ cs1, rw (common_unconfig, out, outs) refl, omega (arith, size), (freed, all))

-- Chains whose statistics are freed cannot be started in such a mode.
config_chains_fault :
    (blocks : ℕ → Option Block) (got : ℕ → Bool) (s : Settings) (chains : List Chain)
    → ltb_ℤ s.tstats_mode (pos 2) ≡ false
    → 0 < length chains
    → All (λ (c : Chain). is_freed c.blk_tstats ≡ true) chains
    → common_config_chains blocks got s 0 chains ≡ none
unfolding common_config_chains chain_init
config_chains_fault blocks got s [] many one freed = absurd (omega arith)
config_chains_fault blocks got s (c ∷ cs) many one freed = ground (arith, freed.0)

-- With per-block statistics, so in a mode of at least 2, at least one chain, triggees that name
-- allocated blocks, and memory at hand, the chains of a trigger block can be started and stopped,
-- but starting them once more uses the statistics that were freed, whether there is memory or
-- not.
pub common_config_chains_restart :
    (blocks : ℕ → Option Block) (got : ℕ → Bool) (s : Settings) (chains : List Chain)
    → ltb_ℤ s.tstats_mode (pos 2) ≡ false
    → 0 < length chains
    → ((j : ℕ) → Targets blocks (s.triggees j))
    → NotFreed chains
    → (chains1 : List Chain) × (chains2 : List Chain) × (common_config_chains blocks
          (λ _. true)
          s
          0
          chains
        ≡ some (pos 0, chains1))
      × (common_unconfig chains1 ≡ some chains2)
      × (common_config_chains blocks got s 0 chains2 ≡ none)
common_config_chains_restart blocks got s chains many one targets live =
    let (chains1, out, size1, started) = config_chains-Started blocks s 0 chains targets live in
    let (chains2, stopped, size2, freed) = unconfig_lem s.tstats_mode chains1 many started in
    (
      chains1,
      chains2,
      out,
      stopped,
      config_chains_fault blocks got s chains2 many (omega (arith, size1, size2)) freed,
    )
