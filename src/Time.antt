-- ===== src/Time.antt =====
-- Time arithmetic of libubx/ubx_time.c on `struct ubx_timespec`.
-- The two `long` members are read as integers; Time/Bounds shows where that is sound.
pub mod Norm
pub mod Order
pub mod Bounds
mod Examples
use microblx.Base.{Bool, Option, none, some, ◌≡◌, if◌then◌else◌, ◌&&◌, ℕ, ◌+◌, ◌*◌, ◌%◌, ◌^◌, ◌-◌}
use microblx.Base.Int.{ℤ, pos, negsuc, ltb_ℤ, eqb_ℤ, ◌+ℤ◌, ◌-ℤ◌, ◌*ℤ◌, quot, rem, to_u64}

pub record Timespec : Type 0 where
  pub sec : ℤ
  pub nsec : ℤ

abbrev pub nsec_per_sec : ℕ
nsec_per_sec = 1000000000

abbrev pub usec_per_sec : ℕ
usec_per_sec = 1000000

abbrev pub nsec_per_usec : ℕ
nsec_per_usec = 1000

-- The result is 1, -1 or 0.
unfoldable pub ts_cmp : Timespec → Timespec → ℤ
ts_cmp ts1 ts2 =
    if ltb_ℤ ts2.sec ts1.sec
    then pos 1
    else if ltb_ℤ ts1.sec ts2.sec
    then negsuc 0
    else if ltb_ℤ ts2.nsec ts1.nsec
    then pos 1
    else if ltb_ℤ ts1.nsec ts2.nsec
    then negsuc 0
    else pos 0

-- The four `if` statements of `ubx_ts_norm`, in order.
unfoldable pub carry_over : Timespec → Timespec
carry_over ts = if ltb_ℤ ts.nsec (pos nsec_per_sec) then ts else record {
  sec = ts.sec +ℤ quot ts.nsec (pos nsec_per_sec);
  nsec = rem ts.nsec (pos nsec_per_sec);
}

unfoldable pub carry_under : Timespec → Timespec
carry_under ts = if ltb_ℤ (negsuc (nsec_per_sec - 1)) ts.nsec then ts else record {
  sec = ts.sec +ℤ quot ts.nsec (pos nsec_per_sec);
  nsec = rem ts.nsec (negsuc (nsec_per_sec - 1));
}

unfoldable pub borrow_sec : Timespec → Timespec
borrow_sec ts =
    if ltb_ℤ (pos 0) ts.sec && ltb_ℤ ts.nsec (pos 0)
    then record { sec = ts.sec -ℤ pos 1; nsec = ts.nsec +ℤ pos nsec_per_sec }
    else ts

unfoldable pub return_sec : Timespec → Timespec
return_sec ts =
    if ltb_ℤ ts.sec (pos 0) && ltb_ℤ (pos 0) ts.nsec
    then record { sec = ts.sec +ℤ pos 1; nsec = ts.nsec -ℤ pos nsec_per_sec }
    else ts

unfoldable pub ts_norm : Timespec → Timespec
ts_norm ts = return_sec (borrow_sec (carry_under (carry_over ts)))

unfoldable pub ts_sub : Timespec → Timespec → Timespec
ts_sub ts1 ts2 = ts_norm (record { sec = ts1.sec -ℤ ts2.sec; nsec = ts1.nsec -ℤ ts2.nsec })

unfoldable pub ts_add : Timespec → Timespec → Timespec
ts_add ts1 ts2 = ts_norm (record { sec = ts1.sec +ℤ ts2.sec; nsec = ts1.nsec +ℤ ts2.nsec })

-- The instant in nanoseconds, read back as seconds and nanoseconds.
unfoldable pub of_nsec : ℤ → Timespec
of_nsec tmp_nsec = record {
  sec = quot tmp_nsec (pos nsec_per_sec);
  nsec = rem tmp_nsec (pos nsec_per_sec);
}

-- `none` is the trap of a division by zero.
unfoldable pub ts_div : Timespec → ℤ → Option Timespec
unfolding of_nsec
ts_div ts divisor =
    if eqb_ℤ divisor (pos 0)
    then none
    else some (of_nsec (quot (ts.sec *ℤ pos nsec_per_sec +ℤ ts.nsec) divisor))

unfoldable pub ts_to_ns : Timespec → ℕ
ts_to_ns ts = (to_u64 ts.sec * nsec_per_sec + to_u64 ts.nsec) % 2 ^ 64

unfoldable pub ts_to_us : Timespec → ℕ
ts_to_us ts = (to_u64 ts.sec * usec_per_sec + to_u64 (quot ts.nsec (pos nsec_per_usec))) % 2 ^ 64
