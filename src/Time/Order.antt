-- ===== src/Time/Order.antt =====
-- Comparison, sum, difference and quotient of timespecs, against the instants they stand for.
use microblx.Base.{◌≡◌, ◌+◌, ◌*◌, ◌<◌, arith, ap₂, ◌↔◌, ◌≢◌, Bool-cases, ◌∙◌, inl, inr, some}
use microblx.Base.Int.{
  ℤ, pos, negsuc, pos_part, neg_part, ◌+ℤ◌, ◌-ℤ◌, ◌*ℤ◌, ltb_ℤ, +ℤ_cancel, to_u64, to_u64_parts,
  eqb_ne, quot, quot_parts, rem_parts, *ℤ_parts, eq_of_parts, +ℤ_parts, -ℤ_parts,
}
use microblx.Time.{Timespec, nsec_per_sec, ts_cmp, ts_sub, ts_add, ts_div, of_nsec, ts_to_ns}
use microblx.Time.Norm.{total, IsNormal, total-ts_norm, ts_norm-IsNormal}

-- A strictly smaller instant.
abbrev pub ◌<ℤ◌ : ℤ → ℤ → Type 0
◌<ℤ◌ a b = pos_part a + neg_part b < pos_part b + neg_part a

total_parts :
    (ts : Timespec)
    → pos_part (total ts) + neg_part ts.sec * nsec_per_sec + neg_part ts.nsec
      ≡ neg_part (total ts) + pos_part ts.sec * nsec_per_sec + pos_part ts.nsec
total_parts ts = omega (arith, +ℤ_parts, *ℤ_parts)

-- The three ways in which a comparison may end.
data Compared (a b : Timespec) (c : ℤ) : Type 0 where
  later : c ≡ pos 1 → ◌<ℤ◌ (total b) (total a) → Compared a b c
  earlier : c ≡ negsuc 0 → ◌<ℤ◌ (total a) (total b) → Compared a b c
  same : c ≡ pos 0 → a.sec ≡ b.sec → a.nsec ≡ b.nsec → Compared a b c

ts_cmp-Compared : (a b : Timespec) → IsNormal a → IsNormal b → Compared a b (ts_cmp a b)
unfolding ts_cmp
ts_cmp-Compared a b na nb = elim (Bool-cases (ltb_ℤ b.sec a.sec)) [
  | inl p ↦ later (ground arith) (ground (arith, total_parts a, total_parts b))
  | inr p ↦ elim (Bool-cases (ltb_ℤ a.sec b.sec)) [
    | inl q ↦ earlier (ground arith) (ground (arith, total_parts a, total_parts b))
    | inr q ↦ elim (Bool-cases (ltb_ℤ b.nsec a.nsec)) [
      | inl r ↦
          later (ground arith)
            (ground (arith, total_parts a, total_parts b, eq_of_parts a.sec b.sec))
      | inr r ↦ elim (Bool-cases (ltb_ℤ a.nsec b.nsec)) [
        | inl t ↦ earlier (ground arith) (ground (arith, total_parts a, total_parts b))
        | inr t ↦
            same (ground arith) (ground (arith, eq_of_parts a.sec b.sec))
              (ground (arith, eq_of_parts a.nsec b.nsec))
      ]
    ]
  ]
]

-- On timespecs in normal form `ubx_ts_cmp` orders the instants: 1 exactly for a later one, -1
-- exactly for an earlier one and 0 exactly for the same.
pub ts_cmp-total :
    (a b : Timespec)
    → IsNormal a
    → IsNormal b
    → ((ts_cmp a b ≡ pos 1) ↔ (◌<ℤ◌ (total b) (total a)))
      × ((ts_cmp a b ≡ negsuc 0) ↔ (◌<ℤ◌ (total a) (total b)))
      × ((ts_cmp a b ≡ pos 0) ↔ (total a ≡ total b))
ts_cmp-total a b na nb = elim (ts_cmp-Compared a b na nb) [
  | later c l ↦ (
    (λ _. l, λ _. c),
    (λ e. cc, λ h. absurd (omega arith)),
    (λ e. cc, λ e. absurd (ground arith)),
  )
  | earlier c l ↦ (
    (λ e. cc, λ h. absurd (omega arith)),
    (λ _. l, λ _. c),
    (λ e. cc, λ e. absurd (ground arith)),
  )
  | same c e f ↦
      let t : total a ≡ total b = ap₂ (λ s n. s *ℤ pos nsec_per_sec +ℤ n) e f in
      (
        (λ h. cc, λ h. absurd (ground arith)),
        (λ h. cc, λ h. absurd (ground arith)),
        (λ _. t, λ _. c),
      )
]

sec_unique : (a b : Timespec) → IsNormal a → IsNormal b → total a ≡ total b → a.sec ≡ b.sec
sec_unique a b na nb e = ground (arith, total_parts a, total_parts b, eq_of_parts a.sec b.sec)

nsec_unique : (a b : Timespec) → IsNormal a → IsNormal b → total a ≡ total b → a.nsec ≡ b.nsec
nsec_unique a b na nb e =
    ground (arith, total_parts a, total_parts b, sec_unique a b na nb e, eq_of_parts a.nsec b.nsec)

-- A timespec in normal form is determined by its instant.
pub normal_unique : (a b : Timespec) → IsNormal a → IsNormal b → total a ≡ total b → a ≡ b
normal_unique a b na nb e =
    λ i. record { sec = sec_unique a b na nb e i; nsec = nsec_unique a b na nb e i }

pub total-ts_add : (a b : Timespec) → total (ts_add a b) ≡ total a +ℤ total b
unfolding ts_add
total-ts_add a b = total-ts_norm _ ∙ omega (arith, +ℤ_parts, *ℤ_parts, eq_of_parts)

pub total-ts_sub : (a b : Timespec) → total (ts_sub a b) ≡ total a -ℤ total b
unfolding ts_sub
total-ts_sub a b = total-ts_norm _ ∙ omega (arith, +ℤ_parts, -ℤ_parts, *ℤ_parts, eq_of_parts)

ts_add-IsNormal : (a b : Timespec) → IsNormal (ts_add a b)
unfolding ts_add
ts_add-IsNormal a b = ts_norm-IsNormal _

ts_sub-IsNormal : (a b : Timespec) → IsNormal (ts_sub a b)
unfolding ts_sub
ts_sub-IsNormal a b = ts_norm-IsNormal _

-- `ubx_ts_add` adds instants and `ubx_ts_sub` subtracts them, and both give normal forms.
pub ts_add-ts_sub_instants :
    (a b : Timespec)
    → (total (ts_add a b) ≡ total a +ℤ total b)
      × (total (ts_sub a b) ≡ total a -ℤ total b)
      × IsNormal (ts_add a b)
      × IsNormal (ts_sub a b)
ts_add-ts_sub_instants a b =
    (total-ts_add a b, total-ts_sub a b, ts_add-IsNormal a b, ts_sub-IsNormal a b)

-- Subtracting what was added to a timespec in normal form gives it back, member by member.
pub ts_sub-ts_add : (a b : Timespec) → IsNormal a → ts_sub (ts_add a b) b ≡ a
ts_sub-ts_add a b na =
    normal_unique (ts_sub (ts_add a b) b) a (ts_sub-IsNormal (ts_add a b) b) na
      (total-ts_sub (ts_add a b) b ∙ rw (total-ts_add a b) (+ℤ_cancel (total a) (total b)))

of_nsec-total : (x : ℤ) → total (of_nsec x) ≡ x
unfolding of_nsec
of_nsec-total x = omega (
  arith,
  +ℤ_parts,
  *ℤ_parts,
  eq_of_parts,
  quot_parts x nsec_per_sec,
  rem_parts x (pos nsec_per_sec),
)

of_nsec-IsNormal : (x : ℤ) → IsNormal (of_nsec x)
unfolding of_nsec
of_nsec-IsNormal (pos n) =
    let q = quot_parts (pos n) nsec_per_sec (omega arith) in
    let r = rem_parts (pos n) (pos nsec_per_sec) (omega arith) in
    record { small = omega arith; signs = inl (omega arith, omega arith) }
of_nsec-IsNormal (negsuc n) =
    let q = quot_parts (negsuc n) nsec_per_sec (omega arith) in
    let r = rem_parts (negsuc n) (pos nsec_per_sec) (omega arith) in
    record { small = omega arith; signs = inr (omega arith, omega arith) }

-- `ubx_ts_div` by a number other than 0 gives the normal form of the instant, divided and
-- truncated towards zero to a nanosecond.
pub ts_div_instant :
    (a : Timespec) (d : ℤ)
    → d ≢ pos 0
    → (q : Timespec) × (ts_div a d ≡ some q) × (total q ≡ quot (total a) d) × IsNormal q
unfolding ts_div
ts_div_instant a d h = (of_nsec x, rw (eqb_ne d (pos 0) h), of_nsec-total x, of_nsec-IsNormal x)
  where
    x : ℤ
    x = quot (total a) d

-- `ubx_ts_to_ns` is the instant, taken modulo 2 ^ 64.
pub ts_to_ns_instant : (a : Timespec) → ts_to_ns a ≡ to_u64 (total a)
unfolding ts_to_ns
ts_to_ns_instant a =
    omega (arith, to_u64_parts a.sec, to_u64_parts a.nsec, to_u64_parts (total a), total_parts a)
