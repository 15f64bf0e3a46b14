-- ===== src/Config/Minmax.antt =====
-- The length check before init and start, against the range that a config asks for.
use microblx.Base.{
  sym, ◌∙◌, some_eq, false-true, ℕ, ◌≡◌, ◌≢◌, ◌↔◌, refl, Bool, true, false, Option, some, List, [],
  ◌∷◌, All, arith, ◌⊎◌, inl, inr, Bool-cases, if◌then◌else◌,
}
use microblx.Base.Int.{ℤ, pos, ◌≤ℤ◌}
use microblx.Store.{UbxData, Config}
use microblx.Store.Errors.{einvalid_config_len}
use microblx.Config.{
  attr_checklate, value_len, bad_len, is_skipped, minmax_round, minmax_loop, check_minmax,
}

-- A config is checked late, in start, or early, in init; one with no limits is never checked.
abbrev pub IsDue : Bool → Config → Type 0
IsDue late c = (attr_checklate c.attrs ≡ late) × ((c.min ≢ 0) ⊎ (c.max ≢ 0))

abbrev pub InRange : Config → ℤ → Type 0
InRange c n = (pos c.min ≤ℤ n) × (n ≤ℤ pos c.max)

-- What the check asks of one config.
pub record Meets (datas : ℕ → Option UbxData) (late : Bool) (c : Config) : Type 0 where
  pub met : (n : ℤ) → value_len datas c ≡ some n → IsDue late c → InRange c n

bad_len_lem : (c : Config) (n : ℤ) → (bad_len c n ≡ false) ↔ InRange c n
unfolding bad_len
bad_len_lem c n = (λ h. ground arith, λ h. ground arith)

due_lem : (late : Bool) (c : Config) → (is_skipped late c ≡ false) ↔ IsDue late c
unfolding is_skipped
due_lem true c = (λ h. ground arith, λ h. ground arith)
due_lem false c = (λ h. ground arith, λ h. ground arith)

abbrev verdict : Bool → ℤ → ℤ
verdict bad ret = if bad then einvalid_config_len else ret

-- One round, for a config whose value is there.
round_lem :
    (datas : ℕ → Option UbxData) (late : Bool) (c : Config) (n : ℤ)
    → value_len datas c ≡ some n
    → ((minmax_round datas late c ≡ some false) × Meets datas late c)
      ⊎ ((minmax_round datas late c ≡ some true) × ¬ Meets datas late c)
unfolding minmax_round
round_lem datas late c n h = elim (Bool-cases (is_skipped late c)) [
  | inl s ↦
      inl (rw s refl, record { met = λ m e due. absurd (false-true ((due_lem late c).1 due) s) })
  | inr s ↦ elim (Bool-cases (bad_len c n)) [
    | inl b ↦ inr (
      rw (s, h, b) refl,
      λ meets. false-true ((bad_len_lem c n).1 (meets.met n h ((due_lem late c).0 s))) b,
    )
    | inr b ↦ inl (
      rw (s, h, b) refl,
      record { met = λ m e due. rw (some_eq (sym e ∙ h)) ((bad_len_lem c n).0 b) },
    )
  ]
]

-- Every config's value is there.
abbrev pub HasValues : (ℕ → Option UbxData) → List Config → Type 0
HasValues datas cs = All (λ c. (n : ℤ) × (value_len datas c ≡ some n)) cs

loop_bad :
    (datas : ℕ → Option UbxData) (late : Bool) (cs : List Config)
    → HasValues datas cs
    → minmax_loop datas late cs einvalid_config_len ≡ some einvalid_config_len
unfolding minmax_loop
loop_bad datas late [] h = refl
loop_bad datas late (c ∷ cs) h = elim (round_lem datas late c h.0.0 h.0.1) [
  | inl (e, meets) ↦ rw (e, minmax_loop) (loop_bad datas late cs h.1)
  | inr (e, fails) ↦ rw (e, minmax_loop) (loop_bad datas late cs h.1)
]

loop_lem :
    (datas : ℕ → Option UbxData) (late : Bool) (cs : List Config)
    → HasValues datas cs
    → ((minmax_loop datas late cs (pos 0) ≡ some (pos 0)) × All (Meets datas late) cs)
      ⊎ ((minmax_loop datas late cs (pos 0) ≡ some einvalid_config_len)
          × ¬ All (Meets datas late) cs)
unfolding minmax_loop
loop_lem datas late [] h = inl (refl, tt)
loop_lem datas late (c ∷ cs) h = elim (round_lem datas late c h.0.0 h.0.1) [
  | inl (e, meets) ↦ elim (loop_lem datas late cs h.1) [
    | inl (p, all) ↦ inl (rw (e, minmax_loop) p, (meets, all))
    | inr (p, some_fails) ↦ inr (rw (e, minmax_loop) p, λ all. some_fails all.1)
  ]
  | inr (e, fails) ↦ inr (rw (e, minmax_loop) (loop_bad datas late cs h.1), λ all. fails all.0)
]

pub check_minmax_lem :
    (datas : ℕ → Option UbxData) (late : Bool) (cs : List Config)
    → HasValues datas cs
    → ((check_minmax datas late cs ≡ some (pos 0)) × All (Meets datas late) cs)
      ⊎ ((check_minmax datas late cs ≡ some einvalid_config_len) × ¬ All (Meets datas late) cs)
unfolding check_minmax
check_minmax_lem = loop_lem
