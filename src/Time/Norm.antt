-- ===== src/Time/Norm.antt =====
-- `ubx_ts_norm` keeps the instant and brings it into the one normal form.
use microblx.Base.{◌≡◌, ◌-◌, ◌+◌, ◌*◌, ◌<◌, arith, ◌⊎◌}
use microblx.Base.Int.{
  ℤ, pos, negsuc, pos_part, neg_part, ◌+ℤ◌, ◌-ℤ◌, ◌*ℤ◌, quot_parts, rem_parts, *ℤ_parts,
  eq_of_parts, +ℤ_parts, abs,
}
use microblx.Time.{Timespec, nsec_per_sec, carry_over, carry_under, borrow_sec, return_sec, ts_norm}

-- The instant in nanoseconds.
abbrev pub total : Timespec → ℤ
total ts = ts.sec *ℤ pos nsec_per_sec +ℤ ts.nsec

-- Seconds and nanoseconds do not differ in sign, and the nanoseconds are below one second.
pub record IsNormal (ts : Timespec) : Type 0 where
  pub small : abs ts.nsec < nsec_per_sec
  pub signs :
      ((neg_part ts.sec ≡ 0) × (neg_part ts.nsec ≡ 0))
      ⊎ ((pos_part ts.sec ≡ 0) × (pos_part ts.nsec ≡ 0))

-- The instant as an equation between natural numbers.
abbrev Same : Timespec → Timespec → Type 0
Same a b =
    pos_part a.sec * nsec_per_sec
      + pos_part a.nsec
      + neg_part b.sec * nsec_per_sec
      + neg_part b.nsec
    ≡ pos_part b.sec * nsec_per_sec
      + pos_part b.nsec
      + neg_part a.sec * nsec_per_sec
      + neg_part a.nsec

carry_over-Same : (ts : Timespec) → Same (carry_over ts) ts
unfolding carry_over ◌+ℤ◌
carry_over-Same ts =
    ground (arith, quot_parts ts.nsec nsec_per_sec, rem_parts ts.nsec (pos nsec_per_sec))

carry_under-Same : (ts : Timespec) → Same (carry_under ts) ts
unfolding carry_under ◌+ℤ◌
carry_under-Same ts =
    ground (arith, quot_parts ts.nsec nsec_per_sec, rem_parts ts.nsec (negsuc (nsec_per_sec - 1)))

borrow_sec-Same : (ts : Timespec) → Same (borrow_sec ts) ts
unfolding borrow_sec ◌+ℤ◌ ◌-ℤ◌
borrow_sec-Same ts = ground arith

return_sec-Same : (ts : Timespec) → Same (return_sec ts) ts
unfolding return_sec ◌+ℤ◌ ◌-ℤ◌
return_sec-Same ts = ground arith

ts_norm-Same : (ts : Timespec) → Same (ts_norm ts) ts
unfolding ts_norm
ts_norm-Same ts =
    let a = carry_over ts in
    let b = carry_under a in
    let c = borrow_sec b in
    omega (arith, carry_over-Same ts, carry_under-Same a, borrow_sec-Same b, return_sec-Same c)

-- `ubx_ts_norm` keeps the instant that a timespec stands for, whatever its members.
pub total-ts_norm : (ts : Timespec) → total (ts_norm ts) ≡ total ts
total-ts_norm ts = omega (arith, +ℤ_parts, *ℤ_parts, eq_of_parts, ts_norm-Same ts)

carried : (ts : Timespec) → abs (carry_under (carry_over ts)).nsec < nsec_per_sec
unfolding carry_over carry_under ◌+ℤ◌
carried ts = ground (
  arith,
  rem_parts ts.nsec (pos nsec_per_sec),
  rem_parts ts.nsec (negsuc (nsec_per_sec - 1)),
  rem_parts (carry_over ts).nsec (negsuc (nsec_per_sec - 1)),
)

settled : (ts : Timespec) → abs ts.nsec < nsec_per_sec → IsNormal (return_sec (borrow_sec ts))
unfolding borrow_sec return_sec ◌+ℤ◌ ◌-ℤ◌
settled ts h = ground arith

-- Whatever its members, `ubx_ts_norm` leaves a timespec in normal form.
pub ts_norm-IsNormal : (ts : Timespec) → IsNormal (ts_norm ts)
unfolding ts_norm
ts_norm-IsNormal ts = settled (carry_under (carry_over ts)) (carried ts)
