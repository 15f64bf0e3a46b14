-- ===== src/Time/Bounds.antt =====
-- No intermediate value of ubx_time.c leaves the range of `long` where members are below 2 ^ 58.
use microblx.Base.{◌-◌, ◌*◌, ◌^◌, ◌≤◌, ◌<◌, ℕ, arith}
use microblx.Base.Int.{ℤ, pos, negsuc, pos_part, neg_part, ◌+ℤ◌, ◌-ℤ◌, quot_parts, rem_parts, abs}
use microblx.Time.{Timespec, nsec_per_sec, carry_over, carry_under, borrow_sec, return_sec, ts_norm}

-- A value of the 64-bit `long`.
abbrev pub IsLong : ℤ → Type 0
IsLong a = (pos_part a < 2 ^ 63) × (neg_part a ≤ 2 ^ 63)

abbrev pub IsLongs : Timespec → Type 0
IsLongs ts = IsLong ts.sec × IsLong ts.nsec

abbrev pub Within : ℕ → Timespec → Type 0
Within n ts = (abs ts.sec < n) × (abs ts.nsec < n)

carry_over-Within : (n : ℕ) (ts : Timespec) → Within n ts → Within (2 * n) (carry_over ts)
unfolding carry_over ◌+ℤ◌
carry_over-Within n ts h =
    ground (arith, quot_parts ts.nsec nsec_per_sec, rem_parts ts.nsec (pos nsec_per_sec))

carry_under-Within : (n : ℕ) (ts : Timespec) → Within n ts → Within (2 * n) (carry_under ts)
unfolding carry_under ◌+ℤ◌
carry_under-Within n ts h =
    ground (arith, quot_parts ts.nsec nsec_per_sec, rem_parts ts.nsec (negsuc (nsec_per_sec - 1)))

borrow_sec-Within :
    (n : ℕ) (ts : Timespec) → 2 ^ 30 ≤ n → Within n ts → Within (2 * n) (borrow_sec ts)
unfolding borrow_sec ◌+ℤ◌ ◌-ℤ◌
borrow_sec-Within n ts h w = ground arith

return_sec-Within :
    (n : ℕ) (ts : Timespec) → 2 ^ 30 ≤ n → Within n ts → Within (2 * n) (return_sec ts)
unfolding return_sec ◌+ℤ◌ ◌-ℤ◌
return_sec-Within n ts h w = ground arith

-- What each statement of `ubx_ts_norm` leaves behind is in the range of `long`.
pub record NormFits (ts : Timespec) : Type 0 where
  pub given : IsLongs ts
  pub over : IsLongs (carry_over ts)
  pub under : IsLongs (carry_under (carry_over ts))
  pub borrowed : IsLongs (borrow_sec (carry_under (carry_over ts)))
  pub done : IsLongs (ts_norm ts)

Within-IsLongs : (n : ℕ) (ts : Timespec) → n ≤ 2 ^ 63 → Within n ts → IsLongs ts
Within-IsLongs n ts h w = omega arith

norm_fits : (ts : Timespec) → Within (2 ^ 59) ts → NormFits ts
unfolding ts_norm
norm_fits ts w = record {
  given = Within-IsLongs (2 ^ 59) ts (omega arith) w;
  over = Within-IsLongs (2 ^ 60) a (omega arith) wa;
  under = Within-IsLongs (2 ^ 61) b (omega arith) wb;
  borrowed = Within-IsLongs (2 ^ 62) c (omega arith) wc;
  done =
      Within-IsLongs (2 ^ 63) (return_sec c) (omega arith)
        (return_sec-Within (2 ^ 62) c (omega arith) wc);
}
  where
    a : Timespec
    a = carry_over ts

    b : Timespec
    b = carry_under a

    c : Timespec
    c = borrow_sec b

    wa : Within (2 ^ 60) a
    wa = carry_over-Within (2 ^ 59) ts w

    wb : Within (2 ^ 61) b
    wb = carry_under-Within (2 ^ 60) a wa

    wc : Within (2 ^ 62) c
    wc = borrow_sec-Within (2 ^ 61) b (omega arith) wb

sum-Within :
    (a b : Timespec)
    → Within (2 ^ 58) a
    → Within (2 ^ 58) b
    → Within (2 ^ 59) (record { sec = a.sec +ℤ b.sec; nsec = a.nsec +ℤ b.nsec })
unfolding ◌+ℤ◌
sum-Within a b wa wb = ground arith

difference-Within :
    (a b : Timespec)
    → Within (2 ^ 58) a
    → Within (2 ^ 58) b
    → Within (2 ^ 59) (record { sec = a.sec -ℤ b.sec; nsec = a.nsec -ℤ b.nsec })
unfolding ◌-ℤ◌
difference-Within a b wa wb = ground arith

-- Where all members are below 2 ^ 58 in size, no statement of `ubx_ts_add` or `ubx_ts_sub` leaves
-- the range of `long`, so reading the members as integers is sound.
pub ts_add-ts_sub_fit :
    (a b : Timespec)
    → Within (2 ^ 58) a
    → Within (2 ^ 58) b
    → NormFits (record { sec = a.sec +ℤ b.sec; nsec = a.nsec +ℤ b.nsec })
      × NormFits (record { sec = a.sec -ℤ b.sec; nsec = a.nsec -ℤ b.nsec })
ts_add-ts_sub_fit a b wa wb =
    (norm_fits _ (sum-Within a b wa wb), norm_fits _ (difference-Within a b wa wb))
