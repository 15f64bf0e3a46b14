-- ===== src/Time/Examples.antt =====
-- Runs of ubx_time.c, and its theorems at concrete timespecs.
use microblx.Base.{◌≡◌, refl, arith, inl}
use microblx.Base.Int.{pos, ◌+ℤ◌, ◌-ℤ◌, quot, rem}
use microblx.Time.{
  carry_over, carry_under, borrow_sec, return_sec, Timespec, ts_norm, ts_sub, ts_add, ts_to_us,
}
use microblx.Time.Norm.{total, IsNormal}
use microblx.Time.Order.{ts_add-ts_sub_instants}
use microblx.Time.Bounds.{NormFits, ts_add-ts_sub_fit}

abbrev late : Timespec
late = record { sec = pos 5; nsec = pos 300 }

abbrev early : Timespec
early = record { sec = pos 3; nsec = pos 900000000 }

late-early : ts_sub late early ≡ record { sec = pos 1; nsec = pos 100000300 }
unfolding ts_sub ts_norm carry_over carry_under borrow_sec return_sec ◌+ℤ◌ ◌-ℤ◌ quot rem
late-early = refl

us_late : ts_to_us late ≡ 5000000
unfolding ts_to_us quot
us_late = refl

late-IsNormal : IsNormal late
late-IsNormal = record { small = omega arith; signs = inl (omega arith, omega arith) }

early-IsNormal : IsNormal early
early-IsNormal = record { small = omega arith; signs = inl (omega arith, omega arith) }

ts_add-ts_sub_instants_example :
    (total (ts_add late early) ≡ total late +ℤ total early)
    × (total (ts_sub late early) ≡ total late -ℤ total early)
    × IsNormal (ts_add late early)
    × IsNormal (ts_sub late early)
ts_add-ts_sub_instants_example = ts_add-ts_sub_instants late early

ts_add-ts_sub_fit_example :
    NormFits (record { sec = pos 5 +ℤ pos 3; nsec = pos 300 +ℤ pos 900000000 })
    × NormFits (record { sec = pos 5 -ℤ pos 3; nsec = pos 300 -ℤ pos 900000000 })
ts_add-ts_sub_fit_example = ts_add-ts_sub_fit late early (omega arith) (omega arith)
