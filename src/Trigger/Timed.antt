-- ===== src/Trigger/Timed.antt =====
-- The loop that measures each block steps what the plain loop steps.
use microblx.Base.{
  ℕ, ◌+◌, ◌%◌, ◌≡◌, refl, true, false, some, none_ne_some, List, [], ◌∷◌, arith, inl, inr, length,
  Bool-cases, Option-cases, if◌then◌else◌, ◌==◌,
}
use microblx.Base.Int.{ℤ, pos, negsuc, eqb_ℤ}
use microblx.Time.{Timespec}
use microblx.Store.{World}
use microblx.Lifecycle.{Hooks}
use microblx.Trigger.{Tstat, tstat_update, Triggee}
use microblx.Trigger.Chains.{trig_single_block, trig_blocks, trig_timed}
use microblx.Trigger.Ready.{Divides}

module _ {T : Type 0} (hooks : Hooks T) (clock : ℕ → Timespec) where
  -- What the measuring loop returns, with statistics that still fit.
  abbrev pub Timed : ℕ → List Triggee → List Tstat → ℤ → ℕ → World T → ℤ → World T → Type 0
  Timed cnt ts sts ret n w ret' w' =
      (sts' : List Tstat) × (n' : ℕ) × (trig_timed hooks clock cnt ts sts ret n w
        ≡ some (ret', sts', n', w'))
      × (length sts' ≡ length sts)

  skipped-Timed :
      (cnt : ℕ) (t : Triggee) (ts : List Triggee) (s : Tstat) (sts : List Tstat) (ret : ℤ) (n : ℕ)
      (w : World T)
      → (ret' : ℤ) (w' : World T) → (t.every == 0) ≡ false
      → (cnt % t.every == 0) ≡ false
      → Timed cnt ts sts ret n w ret' w'
      → Timed cnt (t ∷ ts) (s ∷ sts) ret n w ret' w'
  unfolding trig_timed
  skipped-Timed cnt t ts s sts ret n w ret' w' some_every skip (sts', n', out, same) =
      (s ∷ sts', n', rw (trig_timed, some_every, skip, out) refl, omega arith)

  stepped-Timed :
      (cnt : ℕ) (t : Triggee) (ts : List Triggee) (s : Tstat) (sts : List Tstat) (ret : ℤ) (n : ℕ)
      (w : World T)
      → (r : ℤ) (w1 : World T) (ret' : ℤ) (w' : World T) → (t.every == 0) ≡ false
      → (cnt % t.every == 0) ≡ true
      → trig_single_block hooks t w ≡ some (r, w1)
      → Timed cnt ts sts (if eqb_ℤ r (pos 0) then ret else negsuc 0) (n + 2) w1 ret' w'
      → Timed cnt (t ∷ ts) (s ∷ sts) ret n w ret' w'
  unfolding trig_timed
  stepped-Timed cnt t ts s sts ret n w r w1 ret' w' some_every due step (sts', n', out, same) = (
    tstat_update s (clock n) (clock (n + 1)) ∷ sts',
    n',
    rw (trig_timed, some_every, due, step, out) refl,
    omega arith,
  )

  -- The measuring loop steps the blocks that the plain one steps, where the statistics fit.
  pub trig_timed_lem :
      (cnt : ℕ) (ts : List Triggee) (sts : List Tstat) (ret : ℤ) (n : ℕ) (w : World T) (ret' : ℤ)
      (w' : World T)
      → Divides ts
      → length sts ≡ length ts
      → trig_blocks hooks cnt ts ret w ≡ some (ret', w')
      → Timed cnt ts sts ret n w ret' w'
  unfolding trig_timed trig_blocks
  trig_timed_lem cnt [] sts ret n w ret' w' d fit out = (sts, n, ground arith, refl)
  trig_timed_lem cnt (t ∷ ts) [] ret n w ret' w' d fit out = absurd (omega arith)
  trig_timed_lem cnt (t ∷ ts) (s ∷ sts) ret n w ret' w' d fit out =
      elim (Bool-cases (cnt % t.every == 0)) [
        | inr skip ↦ skipped-Timed cnt t ts s sts ret n w ret' w' d.0 skip (
            trig_timed_lem cnt ts sts ret n w ret' w' d.1 (omega arith)
              (rw (trig_blocks, d.0, skip) at out))
        | inl due ↦ elim (Option-cases (trig_single_block hooks t w)) [
          | inl fault ↦ absurd (none_ne_some (rw (trig_blocks, d.0, due, fault) at out))
          | inr ((r, w1), step) ↦ stepped-Timed cnt t ts s sts ret n w r w1 ret' w' d.0 due step (
              trig_timed_lem cnt ts sts (if eqb_ℤ r (pos 0) then ret else negsuc 0) (n + 2) w1 ret'
                w' d.1 (omega arith) (rw (trig_blocks, d.0, due, step) at out))
        ]
      ]
