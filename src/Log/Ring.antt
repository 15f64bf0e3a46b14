-- ===== src/Log/Ring.antt =====
-- Positions in the ring: how many frames a position has passed, by laps and frames of a lap.
use microblx.Base.{
  ℕ, suc, ◌+◌, ◌-◌, ◌*◌, ◌%◌, ◌^◌, ◌≤◌, ◌<◌, ◌≡◌, ◌≢◌, ap, ◌∙◌, true, false, arith, inl, inr,
  if◌then◌else◌, ◌==◌, ltb, Bool-cases,
}
use native.Mathlib.Nat.{add-mul, mul-le-mul_right, suc-mul, mul-lt-mul_of_pos_right}
use microblx.Log.{
  WrapOff, LogBuf, LogInf, no_data, new_data, overrun, last_off, advance, add_u32, sub_u32,
  logc_has_data,
}

-- A ring of `cap` frames: as many as fit behind the header.
pub record Sized (hdr : ℕ) (inf : LogInf) (cap : ℕ) : Type 0 where
  pub frames : 0 < inf.frame_size
  pub some_fit : 0 < cap
  pub fits : cap * inf.frame_size + hdr ≤ inf.shm_size
  pub full : inf.shm_size < suc cap * inf.frame_size + hdr
  pub small : inf.shm_size < 2 ^ 31

-- A position after `n` frames.
pub record At (inf : LogInf) (cap : ℕ) (p : WrapOff) (n : ℕ) : Type 0 where
  pub laps : ℕ
  pub slot : ℕ
  pub count : n ≡ laps * cap + slot
  pub within : slot < cap
  pub at_off : p.off ≡ slot * inf.frame_size
  pub at_wrap : p.wrap ≡ laps % 2 ^ 32

pub ltb_ge : (a b : ℕ) → b ≤ a → ltb a b ≡ false
ltb_ge a b h = ground arith

pub ltb_lt : (a b : ℕ) → a < b → ltb a b ≡ true
ltb_lt a b h = ground arith

pub ltb_le : (a b : ℕ) → ltb a b ≡ false → b ≤ a
ltb_le a b h = ground arith

pub eqb_eq : (a b : ℕ) → (a == b) ≡ true → a ≡ b
eqb_eq a b h = ground arith

-- The later of two counts has at least as many laps.
pub laps_le :
    {cap : ℕ} (n m laps slot laps' slot' : ℕ)
    → n ≡ laps * cap + slot
    → m ≡ laps' * cap + slot'
    → slot' < cap
    → slot < cap
    → m ≤ n
    → laps' ≤ laps
laps_le {cap} n m laps slot laps' slot' e e' below below' le = elim (Bool-cases (ltb laps laps')) [
  | inl less ↦
      let turn : suc laps * cap ≤ laps' * cap = mul-le-mul_right cap (ground arith) in
      absurd (omega (arith, turn, suc-mul laps cap))
  | inr ge ↦ ground arith
]

pub lt_of_ltb : (a b : ℕ) → ltb a b ≡ true → a < b
lt_of_ltb a b h = ground arith

pub eqb_ne : (a b : ℕ) → (a == b) ≡ false → a ≢ b
eqb_ne a b h = ground arith

module _ (hdr : ℕ) (inf : LogInf) (cap : ℕ) (sized : Sized hdr inf cap) where
  pub last_off_lem : last_off hdr inf + inf.frame_size + hdr ≡ inf.shm_size
  unfolding last_off
  last_off_lem =
      let one : 1 * inf.frame_size ≤ cap * inf.frame_size =
        mul-le-mul_right inf.frame_size sized.some_fit in
      omega (arith, one, sized.fits, sized.small)

  -- One frame further is the position after one frame more.
  pub advance-At :
      (p : WrapOff) (n : ℕ) → At inf cap p n → At inf cap (advance hdr inf inf.frame_size p) (suc n)
  unfolding advance
  advance-At p n at =
      let f = inf.frame_size in
      let lim = last_off_lem in
      let one : suc at.slot * f ≡ at.slot * f + f = suc-mul at.slot f in
      elim (Bool-cases (ltb (suc at.slot) cap)) [
        | inl inside ↦
            let two : suc (suc at.slot) * f ≡ suc at.slot * f + f = suc-mul (suc at.slot) f in
            let room : suc (suc at.slot) * f ≤ cap * f = mul-le-mul_right f (ground arith) in
            let sum : add_u32 p.off f ≡ suc at.slot * f =
              omega (arith, at.at_off, one, two, room, sized.fits, sized.small) in
            let stays : ltb (last_off hdr inf) (add_u32 p.off f) ≡ false = rw sum (
              ltb_ge (last_off hdr inf) (suc at.slot * f)
                (omega (arith, lim, two, room, sized.fits))) in
            rw stays (record {
              laps = at.laps;
              slot = suc at.slot;
              count = omega (arith, at.count);
              within = ground arith;
              at_off = sum;
              at_wrap = at.at_wrap;
            })
        | inr last ↦
            let end : suc at.slot ≡ cap = omega (arith, at.within, ltb_le (suc at.slot) cap last) in
            let whole : suc at.slot * f ≡ cap * f = ap (λ (t : ℕ). t * f) end in
            let over : suc cap * f ≡ cap * f + f = suc-mul cap f in
            let sum : add_u32 p.off f ≡ cap * f =
              omega (arith, at.at_off, one, whole, sized.fits, sized.small) in
            let wraps : ltb (last_off hdr inf) (add_u32 p.off f) ≡ true =
              rw sum (ltb_lt (last_off hdr inf) (cap * f) (omega (arith, lim, over, sized.full))) in
            rw wraps (record {
              laps = suc at.laps;
              slot = 0;
              count = omega (arith, at.count, suc-mul at.laps cap, end);
              within = sized.some_fit;
              at_off = omega arith;
              at_wrap = omega (arith, at.at_wrap);
            })
      ]

  -- How the offsets of two positions compare.
  slots_lt : (a b : ℕ) → a < b → a * inf.frame_size < b * inf.frame_size
  slots_lt a b h = mul-lt-mul_of_pos_right h sized.frames

  -- In a ring of `cap` frames, for a writer at message `n` and a client at message `m`, which is
  -- behind by less than `cap` times 2^32 - 1 messages, `logc_has_data` tells how far the client
  -- is behind: NO_DATA if it is not behind, NEW_DATA if by less than `cap` messages, OVERRUN
  -- otherwise.
  pub logc_has_data_lem :
      (buf : LogBuf) (r : WrapOff) (n m : ℕ)
      → At inf cap buf.w n
      → At inf cap r m
      → m ≤ n
      → n < m + cap * (2 ^ 32 - 1)
      → logc_has_data hdr inf buf r
        ≡ (if m == n then no_data else if ltb n (m + cap) then new_data else overrun)
  unfolding logc_has_data
  logc_has_data_lem buf r n m w at le near =
      let laps = laps_le n m w.laps w.slot at.laps at.slot w.count at.count at.within w.within le in
      elim (Bool-cases (w.laps == at.laps)) [
        | inl same ↦
            let turn : w.laps * cap ≡ at.laps * cap = ap (λ (t : ℕ). t * cap) (ground arith) in
            let wraps : buf.w.wrap ≡ r.wrap =
              omega (arith, w.at_wrap, at.at_wrap, eqb_eq w.laps at.laps same) in
            elim (Bool-cases (ltb at.slot w.slot)) [
              | inl ahead ↦
                  let offs : r.off < buf.w.off =
                    omega (arith, w.at_off, at.at_off, slots_lt at.slot w.slot (ground arith)) in
                  let gt : m < n =
                    omega (arith, w.count, at.count, turn, lt_of_ltb at.slot w.slot ahead) in
                  let near' : n < m + cap = omega (arith, w.count, at.count, turn, w.within) in
                  ground (arith, wraps)
              | inr level ↦
                  let slots : w.slot ≡ at.slot =
                    omega (arith, w.count, at.count, turn, ltb_le at.slot w.slot level, le) in
                  let offs : buf.w.off ≡ r.off =
                    omega (arith, w.at_off, at.at_off, ap (λ (t : ℕ). t * inf.frame_size) slots) in
                  let eq : m ≡ n = omega (arith, w.count, at.count, turn, slots) in
                  ground (arith, wraps)
            ]
        | inr later ↦ elim (Bool-cases (w.laps == suc at.laps)) [
          | inl once ↦
              let next : w.laps ≡ suc at.laps = eqb_eq w.laps (suc at.laps) once in
              let turn : w.laps * cap ≡ at.laps * cap + cap =
                ap (λ (t : ℕ). t * cap) next ∙ suc-mul at.laps cap in
              let wraps : sub_u32 buf.w.wrap r.wrap ≡ 1 =
                omega (arith, w.at_wrap, at.at_wrap, next) in
              elim (Bool-cases (ltb w.slot at.slot)) [
                | inl behind ↦
                    let offs : buf.w.off < r.off = omega (
                      arith,
                      w.at_off,
                      at.at_off,
                      slots_lt w.slot at.slot (lt_of_ltb w.slot at.slot behind),
                    ) in
                    let gt : m < n = omega (arith, w.count, at.count, turn, at.within) in
                    let near' : n < m + cap =
                      omega (arith, w.count, at.count, turn, lt_of_ltb w.slot at.slot behind) in
                    ground (arith, wraps)
                | inr passed ↦
                    let le' : at.slot ≤ w.slot = ltb_le w.slot at.slot passed in
                    let offs : r.off ≤ buf.w.off =
                      omega (arith, w.at_off, at.at_off, mul-le-mul_right inf.frame_size le') in
                    let far : m + cap ≤ n = omega (arith, w.count, at.count, turn, le') in
                    let gt : m < n = omega (arith, far, sized.some_fit) in ground (arith, wraps)
              ]
          | inr twice ↦
              let two : suc (suc at.laps) ≤ w.laps =
                omega
                  (arith, laps, eqb_ne w.laps at.laps later, eqb_ne w.laps (suc at.laps) twice) in
              let turn : suc (suc at.laps) * cap ≤ w.laps * cap = mul-le-mul_right cap two in
              let one_more = suc-mul (suc at.laps) cap in
              let one = suc-mul at.laps cap in
              let far : m + cap ≤ n =
                omega (arith, w.count, at.count, turn, one_more, one, at.within) in
              let bound : w.laps < at.laps + 2 ^ 32 =
                elim (Bool-cases (ltb w.laps (at.laps + 2 ^ 32))) [
                  | inl below ↦ lt_of_ltb w.laps (at.laps + 2 ^ 32) below
                  | inr beyond ↦
                      let turns : (at.laps + 2 ^ 32) * cap ≤ w.laps * cap =
                        mul-le-mul_right cap (ltb_le w.laps (at.laps + 2 ^ 32) beyond) in
                      absurd (
                        omega (
                          arith,
                          turns,
                          add-mul at.laps (2 ^ 32) cap,
                          w.count,
                          at.count,
                          near,
                          at.within,
                        ))
                ] in
              let wraps : 2 ≤ sub_u32 buf.w.wrap r.wrap =
                omega (arith, w.at_wrap, at.at_wrap, two, bound) in
              let gt : m < n = omega (arith, far, sized.some_fit) in ground (arith, wraps)
        ]
      ]
