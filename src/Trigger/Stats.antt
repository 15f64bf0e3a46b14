-- ===== src/Trigger/Stats.antt =====
-- What tstat_update keeps of a series of measurements.
use microblx.Base.{
  ◌%◌, ◌^◌, ◌≡◌, ◌≢◌, refl, ap₂, ◌∙◌, Option, List, [], ◌∷◌, arith, length, All, if◌then◌else◌,
  Bool, true, false, ◌⊎◌, inl, inr,
}
use microblx.Base.Int.{ℤ, pos, negsuc, ◌+ℤ◌, ◌*ℤ◌, ◌-ℤ◌, eqb_ℤ}
use microblx.Time.{Timespec, ts_cmp, ts_sub}
use microblx.Time.Norm.{total}
use microblx.Time.Order.{total-ts_add, total-ts_sub}
use microblx.Store.{CStr}
use microblx.Trigger.{Tstat, long_max, tstat_init2, tstat_update}

-- The start and the end of a measurement.
abbrev pub Measurement : Type 0
Measurement = Timespec × Timespec

abbrev pub duration : Measurement → Timespec
duration m = ts_sub m.1 m.0

-- The statistics after some measurements, the latest of which stands first.
unfoldable pub measured : CStr → Option CStr → List Measurement → Tstat
measured block_name chain_id [] = tstat_init2 block_name chain_id
measured block_name chain_id (m ∷ ms) = tstat_update (measured block_name chain_id ms) m.0 m.1

-- The sum of all durations, in nanoseconds.
abbrev pub sum_durations : List Measurement → ℤ
sum_durations [] = pos 0
sum_durations (m ∷ ms) = sum_durations ms +ℤ (total m.1 -ℤ total m.0)

abbrev pub NotAfter : Timespec → Timespec → Type 0
NotAfter a b = ts_cmp a b ≢ pos 1

NotAfter-trans : (a b c : Timespec) → NotAfter a b → NotAfter b c → NotAfter a c
unfolding ts_cmp
NotAfter-trans a b c h k = λ e. ground arith

lesser_lem :
    (a b : Timespec)
    → let least = if eqb_ℤ (ts_cmp a b) (negsuc 0) then a else b in
      NotAfter least a × NotAfter least b
unfolding ts_cmp
lesser_lem a b = (λ e. ground arith, λ e. ground arith)

greater_lem :
    (a b : Timespec)
    → let most = if eqb_ℤ (ts_cmp a b) (pos 1) then a else b in NotAfter a most × NotAfter b most
unfolding ts_cmp
greater_lem a b = (λ e. ground arith, λ e. ground arith)

abbrev start_min : Timespec
start_min = record { sec = long_max; nsec = long_max }

abbrev start_max : Timespec
start_max = record { sec = pos 0; nsec = pos 0 }

-- A time that a measurement took.
abbrev pub Attained : List Measurement → Timespec → Type 0
Attained [] t = ⊥
Attained (m ∷ ms) t = (t ≡ duration m) ⊎ Attained ms t

-- What the statistics say of the measurements.
pub record Summary (ms : List Measurement) (stats : Tstat) : Type 0 where
  pub counted : stats.cnt ≡ length ms % 2 ^ 64
  pub summed : total stats.total ≡ sum_durations ms
  pub bounded :
      All
        (λ (m : Measurement). NotAfter stats.min (duration m) × NotAfter (duration m) stats.max)
        ms
  pub least : (stats.min ≡ start_min) ⊎ Attained ms stats.min
  pub most : (stats.max ≡ start_max) ⊎ Attained ms stats.max

still-bounded :
    (ms : List Measurement) (lo hi lo' hi' : Timespec)
    → NotAfter lo' lo
    → NotAfter hi hi'
    → All (λ (m : Measurement). NotAfter lo (duration m) × NotAfter (duration m) hi) ms
    → All (λ (m : Measurement). NotAfter lo' (duration m) × NotAfter (duration m) hi') ms
still-bounded [] lo hi lo' hi' low high all = tt
still-bounded (m ∷ ms) lo hi lo' hi' low high ((l, h), all) = (
  (NotAfter-trans lo' lo (duration m) low l, NotAfter-trans (duration m) hi hi' h high),
  still-bounded ms lo hi lo' hi' low high all,
)

chosen_lem :
    (start old new : Timespec) (b : Bool) (m : Measurement) (ms : List Measurement)
    → new ≡ duration m
    → (old ≡ start) ⊎ Attained ms old
    → ((if b then new else old) ≡ start) ⊎ Attained (m ∷ ms) (if b then new else old)
chosen_lem start old new true m ms is before = inr (inl is)
chosen_lem start old new false m ms is (inl e) = inl e
chosen_lem start old new false m ms is (inr there) = inr (inr there)

total_zero : total (record { sec = pos 0; nsec = pos 0 }) ≡ pos 0
unfolding ◌+ℤ◌ ◌*ℤ◌
total_zero = refl

-- After any measurements, the count is their number, modulo 2^64, the total is the sum of their
-- durations, no duration is below the minimum or above the maximum, and each of these is one of the
-- durations or still what it was at first: LONG_MAX seconds and nanoseconds, and 0.
pub measured-Summary :
    (block_name : CStr) (chain_id : Option CStr) (ms : List Measurement)
    → Summary ms (measured block_name chain_id ms)
unfolding measured tstat_init2 tstat_update
measured-Summary block_name chain_id [] = record {
  counted = omega arith;
  summed = total_zero;
  bounded = tt;
  least = inl refl;
  most = inl refl;
}
measured-Summary block_name chain_id (m ∷ ms) =
    let before = measured block_name chain_id ms in
    let earlier = measured-Summary block_name chain_id ms in
    let least = lesser_lem (duration m) before.min in
    let most = greater_lem (duration m) before.max in
    record {
      counted = omega (arith, earlier.counted);
      summed =
          total-ts_add before.total (duration m) ∙ ap₂ ◌+ℤ◌ earlier.summed (total-ts_sub m.1 m.0);
      bounded = (
        (least.0, most.0),
        still-bounded ms before.min before.max (measured block_name chain_id (m ∷ ms)).min
            (measured block_name chain_id (m ∷ ms)).max least.1 most.1 earlier.bounded,
      );
      least =
          chosen_lem start_min before.min (duration m)
            (eqb_ℤ (ts_cmp (duration m) before.min) (negsuc 0)) m ms refl earlier.least;
      most =
          chosen_lem start_max before.max (duration m)
            (eqb_ℤ (ts_cmp (duration m) before.max) (pos 1)) m ms refl earlier.most;
    }
