-- ===== src/Trigger/Init.antt =====
-- The start and the end of a chain's statistics.
use microblx.Base.{
  ℕ, ◌≡◌, refl, sym, ap, ◌∙◌, Bool, true, false, Option, none, some, List, [], ◌∷◌, arith, length,
  map, Bool-cases, inl, inr, suc,
}
use microblx.Base.Int.{pos, ltb_ℤ}
use microblx.Store.{CStr, Block}
use microblx.Trigger.{
  Tstat, tstat_init2, tstat_totals, Triggee, stats, freed_stats, Chain, is_freed, default_triggee,
  init_blk_tstats, start_counting, chain_init, chain_cleanup,
}
use microblx.Trigger.Ready.{Ready, Divides}

-- Every triggee names an allocated block.
abbrev pub Targets : (ℕ → Option Block) → List Triggee → Type 0
Targets blocks [] = Unit
Targets blocks (t ∷ ts) =
    ((b : ℕ) × (blk : Block) × (t.block ≡ some b) × (blocks b ≡ some blk)) × Targets blocks ts

init_blk_tstats_lem :
    (blocks : ℕ → Option Block) (chain_id : Option CStr) (ts : List Triggee)
    → Targets blocks ts
    → (sts : List Tstat) × (init_blk_tstats blocks chain_id ts ≡ some sts)
      × (length sts ≡ length ts)
unfolding init_blk_tstats
init_blk_tstats_lem blocks chain_id [] targets = ([], refl, refl)
init_blk_tstats_lem blocks chain_id (t ∷ ts) ((b, blk, at, found), targets) =
    let (sts, out, fit) = init_blk_tstats_lem blocks chain_id ts targets in
    (
      tstat_init2 blk.name chain_id ∷ sts,
      rw (init_blk_tstats, at, found, out) refl,
      omega (arith, fit),
    )

length-map : (ts : List Triggee) → length (map default_triggee ts) ≡ length ts
length-map [] = refl
length-map (t ∷ ts) = ap suc (length-map ts)

default_triggee-Divides : (ts : List Triggee) → Divides (map default_triggee ts)
default_triggee-Divides [] = tt
default_triggee-Divides (t ∷ ts) = (ground arith, default_triggee-Divides ts)

-- Initialising a chain whose triggees name allocated blocks and whose statistics are not freed
-- memory succeeds where there is memory, and makes it ready, with as many triggees, the counter
-- at 0 and the mode as it was.
pub chain_init-Ready :
    (blocks : ℕ → Option Block) (chain_id : Option CStr) (rate : ℕ) (chain : Chain)
    → Targets blocks chain.triggees
    → is_freed chain.blk_tstats ≡ false
    → (chain' : Chain) × (chain_init blocks true chain_id rate chain ≡ some (pos 0, chain'))
      × (length chain'.triggees ≡ length chain.triggees)
      × (chain'.every_cnt ≡ 0)
      × (chain'.tstats_mode ≡ chain.tstats_mode)
      × Ready chain'
unfolding chain_init
chain_init-Ready blocks chain_id rate chain targets live =
    let (sts, out, fit) = init_blk_tstats_lem blocks chain_id chain.triggees targets in
    let same = length-map chain.triggees in
    let divides = default_triggee-Divides chain.triggees in
    let chain1 = record chain {
      tstats_output_rate = rate;
      tstats_output_last_msg = 0;
      tstats_output_idx = 0;
      global_tstats = tstat_init2 tstat_totals chain_id;
    } in
    elim (Bool-cases (ltb_ℤ chain.tstats_mode (pos 2))) [
      | inl few ↦ (
        start_counting chain1,
        ground arith,
        same,
        refl,
        refl,
        record { divides = divides; fits = λ many. absurd (ground arith); index = omega arith },
      )
      | inr many ↦ (
        start_counting (record chain1 { blk_tstats = stats sts }),
        ground arith,
        same,
        refl,
        refl,
        record { divides = divides; fits = λ _. (sts, refl, fit ∙ sym same); index = omega arith },
      )
    ]

-- A chain with per-block statistics, in a mode of at least 2, that is cleaned up and then
-- initialised again, as happens when its trigger block is stopped and started, uses the freed
-- statistics.
pub chain_init-chain_cleanup_use_after_free :
    (blocks : ℕ → Option Block) (got : Bool) (chain_id : Option CStr) (rate : ℕ) (chain : Chain)
    → (sts : List Tstat) → ltb_ℤ chain.tstats_mode (pos 2) ≡ false
    → chain.blk_tstats ≡ stats sts
    → (chain' : Chain) × (chain_cleanup chain ≡ some chain')
      × (chain_init blocks got chain_id rate chain' ≡ none)
unfolding chain_init chain_cleanup
chain_init-chain_cleanup_use_after_free blocks got chain_id rate chain sts mode live =
    (record chain { blk_tstats = freed_stats }, ground arith, ground arith)
