-- ===== src/Config/Add.antt =====
-- What adding and removing a config does, on every branch.
use microblx.Base.{
  ℕ, ◌≤◌, ◌<◌, ◌≡◌, refl, false, Option, none, some, List, [], ◌∷◌, ◌++◌, length, All, All-append,
  arith, ◌⊎◌, inl, inr, if◌then◌else◌, ltb, Option-cases, Bool-cases,
}
use microblx.Base.Int.{ℤ, pos}
use microblx.Store.{CStr, Config, Block, Heap, alloc}
use microblx.Store.Strings.{strn_eq, strn_eq_refl, take_short}
use microblx.Store.Named.{Distinct, append-Distinct, find-append, delete-append}
use microblx.Store.Errors.{eentexists, eoutofmem, einvalid_config, enosuchent}
use microblx.Data.{data_alloc_typed}
use microblx.Config.{
  config_name, config_name_maxlen, config_find, config_add_typed, config_append, config_new,
  config_delete, effective_max, Added, dup_doc,
}

-- A config that the block may hold.
pub record IsConfig (c : Config) : Type 0 where
  pub short : length c.name ≤ config_name_maxlen
  pub range : c.min ≤ c.max

-- The configs of a block have distinct names of at most 39 bytes, and valid ranges.
pub record ConfigsValid (cs : List Config) : Type 0 where
  pub distinct : Distinct config_name config_name_maxlen cs
  pub each : All IsConfig cs

-- The config that a successful call appends.
pub record Appended (name : CStr) (min max : ℕ) (b : Block) (r : Added) (c : Config) : Type 0 where
  pub code : r.0 ≡ pos 0
  pub block : r.1 ≡ record b { configs = b.configs ++ c ∷ [] }
  pub named : c.name ≡ name
  pub low : c.min ≡ min
  pub high : c.max ≡ effective_max min max
  pub valid : IsConfig c
  pub was_free : config_find name b.configs ≡ none

-- Why `__ubx_config_add` refuses, with the code that it returns.
pub data Refusal (name : CStr) (doc : Option CStr) (min max : ℕ) (cs : List Config) (h : Heap)
    (code : ℤ) : Type 0 where
  exists :
      code ≡ eentexists
      → (c : Config) → config_find name cs ≡ some c
      → Refusal name doc min max cs h code
  too_long :
      code ≡ einvalid_config → config_name_maxlen < length name → Refusal name doc min max cs h code
  bad_range :
      code ≡ einvalid_config → effective_max min max < min → Refusal name doc min max cs h code
  no_struct : code ≡ eoutofmem → (alloc h).0 ≡ false → Refusal name doc min max cs h code
  no_doc :
      code ≡ eoutofmem → (dup_doc doc (alloc h).1).0 ≡ false → Refusal name doc min max cs h code

refused_code :
    {name : CStr} {doc : Option CStr} {min max : ℕ} {cs : List Config} {h : Heap} {code : ℤ}
    → Refusal name doc min max cs h code
    → code ≡ pos 0
    → ⊥
refused_code (exists e c f) ok = cc
refused_code (too_long e l) ok = cc
refused_code (bad_range e l) ok = cc
refused_code (no_struct e l) ok = cc
refused_code (no_doc e l) ok = cc

module _ (b : Block) (name : CStr) (doc : Option CStr) (type min max attrs : ℕ) (h : Heap) where
  abbrev added : Added
  added = config_add_typed b name doc type min max attrs h

  abbrev stored : Heap → Config
  stored k = record (config_new name doc type min (effective_max min max) attrs) {
    value = (data_alloc_typed (some type) 0 (pos 0) k).0;
  }

  appended :
      length name ≤ config_name_maxlen
      → min ≤ effective_max min max
      → config_find name b.configs ≡ none
      → (k : Heap)
      → Appended name min max b
          (config_append (config_new name doc type min (effective_max min max) attrs) b k)
          (stored k)
  unfolding config_append
  appended short range fresh k = record {
    code = refl;
    block = refl;
    named = take_short 39 name short;
    low = refl;
    high = refl;
    valid = record { short = rw (take_short 39 name short) short; range = range };
    was_free = fresh;
  }

  -- Either the config is appended, under its whole name and with a valid range, to a block that had
  -- none of that name, or the block is as it was and the code tells why.
  pub config_add_cases :
      ((c : Config) × Appended name min max b added c)
      ⊎ (Refusal name doc min max b.configs h added.0 × (added.1 ≡ b))
  unfolding config_add_typed
  config_add_cases = elim (Option-cases (config_find name b.configs)) [
    | inr (c, e) ↦ inr (exists (rw e refl) c e, rw e refl)
    | inl fresh ↦ elim (Bool-cases (alloc h).0) [
      | inr e ↦ inr (no_struct (rw (fresh, e) refl) e, rw (fresh, e) refl)
      | inl got ↦ elim (Bool-cases (ltb config_name_maxlen (length name))) [
        | inl e ↦ inr (too_long (rw (fresh, got, e) refl) (ground arith), rw (fresh, got, e) refl)
        | inr short ↦ elim (Bool-cases (ltb (effective_max min max) min)) [
          | inl e ↦ inr (
            bad_range (rw (fresh, got, short, e) refl) (ground arith),
            rw (fresh, got, short, e) refl,
          )
          | inr range ↦ elim (Bool-cases (dup_doc doc (alloc h).1).0) [
            | inr e ↦ inr (
              no_doc (rw (fresh, got, short, range, e) refl) e,
              rw (fresh, got, short, range, e) refl,
            )
            | inl duped ↦ inl (
              stored (dup_doc doc (alloc h).1).1,
              rw (fresh, got, short, range, duped)
                  (appended (ground arith) (ground arith) fresh (dup_doc doc (alloc h).1).1),
            )
          ]
        ]
      ]
    ]
  ]

  Appended-ConfigsValid :
      (c : Config)
      → Appended name min max b added c
      → ConfigsValid b.configs
      → ConfigsValid added.1.configs
  Appended-ConfigsValid c a v = rw a.block (record {
    distinct =
        append-Distinct config_name config_name_maxlen b.configs c v.distinct
          (rw a.named a.was_free);
    each = All-append IsConfig b.configs (c ∷ []) v.each (a.valid, tt);
  })

  -- Whatever its result, adding a config keeps the configs of the block valid.
  pub config_add-ConfigsValid : ConfigsValid b.configs → ConfigsValid added.1.configs
  config_add-ConfigsValid v = elim config_add_cases [
    | inl (c, a) ↦ Appended-ConfigsValid c a v
    | inr (why, same) ↦ rw same v
  ]

  -- After a successful call a lookup by any name that agrees with the new one in its first 39 bytes
  -- finds the new config, with its minimum and effective maximum, and one by any other name finds
  -- what it found before.
  pub config_find-config_add :
      added.0 ≡ pos 0
      → (c : Config) × (c.name ≡ name)
        × (c.min ≡ min)
        × (c.max ≡ effective_max min max)
        × ((other : CStr)
            → config_find other added.1.configs ≡ (
                if strn_eq config_name_maxlen name other
                then some c
                else config_find other b.configs))
  config_find-config_add ok = elim config_add_cases [
    | inl (c, a) ↦ (
      c,
      a.named,
      a.low,
      a.high,
      λ other.
          rw a.block
            (find-append config_name config_name_maxlen name other b.configs c a.was_free a.named),
    )
    | inr (why, same) ↦ absurd (refused_code why ok)
  ]

  -- Removing what was just added with success gives back the configs that the block had.
  pub delete-config_add : added.0 ≡ pos 0 → config_delete name added.1.configs ≡ b.configs
  delete-config_add ok = elim config_add_cases [
    | inl (c, a) ↦ rw a.block (
        delete-append config_name config_name_maxlen name b.configs c a.was_free
          (rw a.named (strn_eq_refl 39 name)))
    | inr (why, same) ↦ absurd (refused_code why ok)
  ]

-- What a call of `ubx_config_rm` that meets no fault has done.
pub data Removed (name : CStr) (b : Block) (r : Added) : Type 0 where
  missing : r.0 ≡ enosuchent → config_find name b.configs ≡ none → r.1 ≡ b → Removed name b r
  deleted :
      r.0 ≡ pos 0
      → ((other : CStr)
          → config_find other r.1.configs
            ≡ (if strn_eq config_name_maxlen other name then none else config_find other b.configs))
      → ConfigsValid r.1.configs
      → Removed name b r
