-- ===== src/Trigger/Ready.antt =====
-- The invariant of a chain that is initialised, and that the output of statistics keeps it.
use microblx.Base.{
  ℕ, ◌+◌, ◌%◌, ◌^◌, ◌≤◌, ◌≡◌, refl, ap, get_elem?, ◌∙◌, true, false, Option, some, List, arith, inl,
  inr, ◌⊎◌, length, All, get_elem?-found, Bool-cases, Option-cases, ◌==◌, ltb, leb,
}
use microblx.Base.Int.{ℤ, pos, ltb_ℤ, eqb_ℤ}
use microblx.Time.{Timespec, ts_to_ns}
use microblx.Store.{World}
use microblx.Lifecycle.{Hooks}
use microblx.Trigger.{Tstat, tstat_update, Triggee, stats, Chain}
use microblx.Store.Hash.{Uthash}
use microblx.Trigger.Chains.{
  Run, PortIo, after_write, write_tstat, stats_of, put_stats, tstats_output_throttled, finalize,
}

abbrev pub Divides : List Triggee → Type 0
Divides ts = All (λ (t : Triggee). (t.every == 0) ≡ false) ts

-- No `every` is 0, the array of statistics fits if there is to be one, and the output index is in
-- its range.
pub record Ready (chain : Chain) : Type 0 where
  pub divides : Divides chain.triggees
  pub fits :
      ltb_ℤ chain.tstats_mode (pos 2) ≡ false
      → (sts : List Tstat) × (chain.blk_tstats ≡ stats sts) × (length sts ≡ length chain.triggees)
  pub index : chain.tstats_output_idx ≤ length chain.triggees

-- What stays the same while a chain is triggered.
pub record Keeps (chain chain' : Chain) : Type 0 where
  pub same_triggees : chain'.triggees ≡ chain.triggees
  pub same_count : chain'.every_cnt ≡ chain.every_cnt
  pub same_mode : chain'.tstats_mode ≡ chain.tstats_mode
  pub same_port : chain'.p_tstats ≡ chain.p_tstats
  pub ready : Ready chain'

-- Only the time and the index change.
output_later :
    (chain : Chain) (idx now : ℕ)
    → Ready chain
    → idx ≤ length chain.triggees
    → Keeps chain (record chain { tstats_output_idx = idx; tstats_output_last_msg = now })
output_later chain idx now r le = record {
  same_triggees = refl;
  same_count = refl;
  same_mode = refl;
  same_port = refl;
  ready = record { divides = r.divides; fits = r.fits; index = le };
}

-- The two modes in which statistics are written.
abbrev pub Measures : ℤ → Type 0
Measures mode = (eqb_ℤ mode (pos 1) ≡ true) ⊎ (ltb_ℤ mode (pos 2) ≡ false)

next_index : (len idx : ℕ) → (idx + 1) % (len + 1) ≤ len
next_index len idx = omega arith

pub stats_of_ready :
    (chain : Chain) (sts : List Tstat)
    → chain.blk_tstats ≡ stats sts
    → stats_of chain.blk_tstats ≡ sts
stats_of_ready chain sts e = ground arith

pub put_stats_ready :
    (chain : Chain) (sts new : List Tstat)
    → chain.blk_tstats ≡ stats sts
    → put_stats chain.blk_tstats new ≡ stats new
put_stats_ready chain sts new e = ground arith

-- One of the statistics that a chain has.
abbrev pub IsOwn : Chain → Tstat → Type 0
IsOwn chain s =
    (s ≡ chain.global_tstats) ⊎ ((i : ℕ) × (get_elem? (stats_of chain.blk_tstats) i ≡ some s))

module _ {T : Type 0} ⦃u : Uthash T⦄ (hooks : Hooks T) (io : PortIo T) (P : World T → Type 0) where
  -- In the worlds of a kind, statistics can be written to the chain's port, if it has one, which
  -- leaves such a world.
  abbrev pub Sendable : Chain → Type 0
  Sendable chain =
      (p : ℕ)
      → chain.p_tstats ≡ some p
      → (s : Tstat) (w : World T) → P w
      → (w' : World T) × (write_tstat hooks io p s w ≡ some w') × P w'

  -- Nothing was written, or one of the chain's statistics was, to its port.
  abbrev pub Sent : Chain → World T → World T → Type 0
  Sent chain w w' =
      (w' ≡ w)
      ⊎ ((p : ℕ) × (s : Tstat) × (chain.p_tstats ≡ some p)
          × IsOwn chain s
          × (write_tstat hooks io p s w ≡ some w'))

  abbrev Output : Chain → World T → Option (Chain × World T) → Type 0
  Output chain w out =
      (chain' : Chain) × (w' : World T) × (out ≡ some (chain', w'))
      × Keeps chain chain'
      × Sent chain' w w'
      × P w'

  wrote_lem :
      (chain chain' : Chain) (p : ℕ) (s : Tstat) (w : World T) (out : Option (Chain × World T))
      → chain.p_tstats ≡ some p
      → Sendable chain
      → Keeps chain chain'
      → IsOwn chain' s
      → P w
      → out ≡ after_write hooks io chain' (write_tstat hooks io p s w)
      → Output chain w out
  wrote_lem chain chain' p s w out e sends kept own kind same =
      let (w', wrote, kind') = sends p e s w kind in
      (chain', w', same ∙ rw wrote refl, kept, inr (p, s, kept.same_port ∙ e, own, wrote), kind')

  -- The output goes through, and keeps the invariant.
  pub throttled-Keeps :
      (chain : Chain) (now : ℕ) (w : World T)
      → Ready chain
      → Measures chain.tstats_mode
      → Sendable chain
      → P w
      → Output chain w (tstats_output_throttled hooks io chain now w)
  unfolding tstats_output_throttled
  throttled-Keeps chain now w r mode sends kind =
      let len = length chain.triggees in
      let idx = chain.tstats_output_idx in
      let next = (idx + 1) % (len + 1) in
      let early = leb now ((chain.tstats_output_last_msg + chain.tstats_output_rate) % 2 ^ 64) in
      let same : Keeps chain chain = record {
        same_triggees = refl;
        same_count = refl;
        same_mode = refl;
        same_port = refl;
        ready = r;
      } in
      let later = output_later chain next now r (next_index len idx) in
      elim (Option-cases chain.p_tstats) [
        | inl e ↦ (chain, w, ground arith, same, inl refl, kind)
        | inr (p, e) ↦ elim (Bool-cases early) [
          | inl wait ↦ (chain, w, ground arith, same, inl refl, kind)
          | inr due ↦ elim (Bool-cases (eqb_ℤ chain.tstats_mode (pos 1))) [
            | inl one ↦
                wrote_lem chain (record chain { tstats_output_last_msg = now }) p
                  chain.global_tstats w (tstats_output_throttled hooks io chain now w) e sends
                  (output_later chain idx now r r.index) (inl refl) kind (ground arith)
            | inr many ↦ elim (Bool-cases (ltb idx len)) [
              | inr last ↦
                  wrote_lem chain
                    (record chain { tstats_output_idx = next; tstats_output_last_msg = now }) p
                    chain.global_tstats w (tstats_output_throttled hooks io chain now w) e sends
                    later (inl refl) kind (ground arith)
              | inl block ↦
                  let (sts, at, fit) = r.fits (ground (arith, mode)) in
                  let (s, found) = get_elem?-found sts idx (ground (arith, fit)) in
                  let there : get_elem? (stats_of chain.blk_tstats) idx ≡ some s =
                    ap (λ l. get_elem? l idx) (stats_of_ready chain sts at) ∙ found in
                  wrote_lem chain
                    (record chain { tstats_output_idx = next; tstats_output_last_msg = now }) p s w
                    (tstats_output_throttled hooks io chain now w) e sends later (inr (idx, there))
                    kind (ground (arith, there))
            ]
          ]
        ]
      ]

-- A chain is ready after new statistics are put into it.
pub with_stats :
    (chain : Chain) (global : Tstat)
    → Ready chain
    → Keeps chain (record chain { global_tstats = global })
with_stats chain global r = record {
  same_triggees = refl;
  same_count = refl;
  same_mode = refl;
  same_port = refl;
  ready = record { divides = r.divides; fits = r.fits; index = r.index };
}

-- Chains with the same lists, sizes and counts.
pub Keeps-trans : (a b c : Chain) → Keeps a b → Keeps b c → Keeps a c
Keeps-trans a b c h k = record {
  same_triggees = k.same_triggees ∙ h.same_triggees;
  same_count = k.same_count ∙ h.same_count;
  same_mode = k.same_mode ∙ h.same_mode;
  same_port = k.same_port ∙ h.same_port;
  ready = k.ready;
}

module _ {T : Type 0} ⦃u : Uthash T⦄ (hooks : Hooks T) (io : PortIo T) (clock : ℕ → Timespec)
    (P : World T → Type 0) where
  -- A trigger that leaves the world `w` or, after a write of statistics, what that write makes of
  -- it.
  abbrev pub Goes : Chain → World T → ℤ → Option (ℤ × Chain × Run T) → Type 0
  Goes chain w ret out =
      (chain' : Chain) × (run' : Run T) × (out ≡ some (ret, chain', run'))
      × Sent hooks io P chain' w run'.world
      × P run'.world
      × Keeps chain chain'

  pub finalize-Goes :
      (ret : ℤ) (start : Timespec) (chain : Chain) (run : Run T)
      → Ready chain
      → Measures chain.tstats_mode
      → Sendable hooks io P chain
      → P run.world
      → Goes chain run.world ret (finalize hooks io clock ret start chain run)
  unfolding finalize
  finalize-Goes ret start chain run r mode sends kind =
      let end = clock run.readings in
      let chain1 = record chain { global_tstats = tstat_update chain.global_tstats start end } in
      let kept = with_stats chain (tstat_update chain.global_tstats start end) r in
      let (chain2, w, out, kept2, sent, kind2) =
        throttled-Keeps hooks io P chain1 (ts_to_ns end) run.world kept.ready mode sends kind in
      elim (Bool-cases (chain.tstats_output_rate == 0)) [
        | inl silent ↦
            (chain1, record run { readings = run.readings + 1 }, ground arith, inl refl, kind, kept)
        | inr rated ↦ (
          chain2,
          record run { readings = run.readings + 1; world = w },
          rw (finalize, rated, out) refl,
          sent,
          kind2,
          Keeps-trans chain chain1 chain2 kept kept2,
        )
      ]
