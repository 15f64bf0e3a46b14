-- ===== src/Log/Seek.antt =====
-- Seeking to the oldest message.
use microblx.Base.{
  ℕ, suc, ◌+◌, ◌-◌, ◌*◌, ◌%◌, ◌^◌, ◌≤◌, ◌<◌, ◌≡◌, ap, ◌∙◌, true, false, arith, inl, inr,
  if◌then◌else◌, ◌==◌, ltb, Bool-cases,
}
use native.Mathlib.Nat.{add-mul, mul-le-mul_right, suc-mul}
use microblx.Log.{
  LogBuf, LogInf, last_off, add_u32, sub_u32, crush_zone, logc_seek_to_oldest, log_shm_size,
}
use microblx.Log.Ring.{Sized, At, last_off_lem, ltb_ge, ltb_lt, eqb_ne, eqb_eq, lt_of_ltb, ltb_le}

module _ (hdr : ℕ) (inf : LogInf) (cap : ℕ) (sized : Sized hdr inf cap) where
  -- While the writer is more than 100 frames from the end of a lap and fewer than 2^32 laps have
  -- passed, `logc_seek_to_oldest` sets the client to a message that is in the ring: to the first
  -- one in the first lap, and later to the one of the lap before that lies 100 slots ahead of the
  -- writer's.
  pub logc_seek_to_oldest-At :
      (buf : LogBuf) (laps slot : ℕ)
      → buf.w ≡ record { wrap = laps; off = slot * inf.frame_size }
      → laps < 2 ^ 32
      → slot + crush_zone < cap
      → At inf cap
          (logc_seek_to_oldest hdr inf buf)
          (if laps == 0 then 0 else (laps - 1) * cap + slot + crush_zone)
  unfolding logc_seek_to_oldest
  logc_seek_to_oldest-At buf laps slot at few room =
      let f = inf.frame_size in
      let lim = last_off_lem hdr inf cap sized in
      let split : (slot + 100) * f ≡ slot * f + 100 * f = add-mul slot 100 f in
      let next : suc (slot + 100) * f ≡ (slot + 100) * f + f = suc-mul (slot + 100) f in
      let space : suc (slot + 100) * f ≤ cap * f = mul-le-mul_right f room in
      let sum : add_u32 buf.w.off (crush_zone * f % 2 ^ 32) ≡ (slot + 100) * f =
        omega (arith, ap (λ p. p.off) at, split, next, space, sized.fits, sized.small) in
      let stays : ltb (last_off hdr inf) (add_u32 buf.w.off (crush_zone * f % 2 ^ 32)) ≡ false =
        rw sum (
          ltb_ge (last_off hdr inf) ((slot + 100) * f)
            (omega (arith, lim, next, space, sized.fits))) in
      let lap : buf.w.wrap ≡ laps = ap (λ p. p.wrap) at in
      elim (Bool-cases (laps == 0)) [
        | inl first ↦
            rw (stays, logc_seek_to_oldest, lap, first)
              (record {
                laps = 0;
                slot = 0;
                count = omega arith;
                within = sized.some_fit;
                at_off = omega arith;
                at_wrap = omega (arith, eqb_eq laps 0 first);
              })
        | inr later ↦
            rw (stays, logc_seek_to_oldest, lap, later)
              (record {
                laps = laps - 1;
                slot = slot + 100;
                count = omega arith;
                within = room;
                at_off = sum;
                at_wrap = omega (arith, few);
              })
      ]

-- The ring that `ubx_log_init` makes on a machine where the header has 16 bytes.
abbrev pub log_ring : ℕ → LogInf
log_ring frame_size = record { shm_size = log_shm_size frame_size; frame_size = frame_size }

-- It holds one frame less than LOG_BUFFER_DEPTH.
pub log_ring-Sized :
    (frame_size : ℕ) → 8 < frame_size → frame_size < 2 ^ 17 → Sized 16 (log_ring frame_size) 9999
log_ring-Sized frame_size some few = record {
  frames = omega (arith, some);
  some_fit = omega arith;
  fits = omega (arith, some, few);
  full = omega (arith, some, few);
  small = omega (arith, some, few);
}

-- In the ring of 9999 frames that `ubx_log_init` sizes, for frames of more than 8 and fewer than
-- 2^17 bytes, while the writer is in the last 100 frames of a lap, `logc_seek_to_oldest` sets the
-- client to none of the positions that a message can have.
pub logc_seek_to_oldest_misaligned :
    (frame_size slot n : ℕ) (buf : LogBuf)
    → 8 < frame_size
    → frame_size < 2 ^ 17
    → 9899 ≤ slot
    → slot < 9999
    → buf.w.off ≡ slot * frame_size
    → ¬ At (log_ring frame_size) 9999 (logc_seek_to_oldest 16 (log_ring frame_size) buf) n
unfolding logc_seek_to_oldest last_off
logc_seek_to_oldest_misaligned f slot n buf some few from below at pos =
    let inf = log_ring f in
    let lim = last_off_lem 16 inf 9999 (log_ring-Sized f some few) in
    let j = slot - 9899 in
    let split : slot * f ≡ 9899 * f + j * f =
      ap (λ (t : ℕ). t * f) (omega arith) ∙ add-mul 9899 j f in
    let bound : j * f ≤ 99 * f = mul-le-mul_right f (omega arith) in
    let sum : add_u32 buf.w.off (crush_zone * f % 2 ^ 32) ≡ 9999 * f + j * f =
      omega (arith, at, split, bound, few) in
    let wraps : ltb (last_off 16 inf) (add_u32 buf.w.off (crush_zone * f % 2 ^ 32)) ≡ true =
      ltb_lt (last_off 16 inf) (add_u32 buf.w.off (crush_zone * f % 2 ^ 32))
        (omega (arith, lim, sum, some, few)) in
    let off : (sub_u32 (9999 * f + j * f) inf.shm_size + 16) % 2 ^ 32 ≡ pos.slot * f =
      rw (← sum) (rw (wraps, logc_seek_to_oldest) at pos.at_off) in
    elim (Bool-cases (j == 0)) [
      | inl at_end ↦
          let none : j * f ≡ 0 = ap (λ (t : ℕ). t * f) (eqb_eq j 0 at_end) ∙ omega arith in
          let low : pos.slot * f ≤ 9998 * f = mul-le-mul_right f (omega (arith, pos.within)) in
          absurd (omega (arith, off, none, low, some, few))
      | inr further ↦
          let i = j - 1 in
          let one : j * f ≡ i * f + f =
            ap (λ (t : ℕ). t * f) (omega (arith, eqb_ne j 0 further)) ∙ suc-mul i f in
          let place : pos.slot * f ≡ i * f + 8 = omega (arith, off, one, bound, some, few) in
          elim (Bool-cases (ltb i pos.slot)) [
            | inl more ↦
                let high : suc i * f ≤ pos.slot * f =
                  mul-le-mul_right f (lt_of_ltb i pos.slot more) in
                absurd (omega (arith, place, high, suc-mul i f, some))
            | inr less ↦
                let low : pos.slot * f ≤ i * f = mul-le-mul_right f (ltb_le i pos.slot less) in
                absurd (omega (arith, place, low))
          ]
    ]
