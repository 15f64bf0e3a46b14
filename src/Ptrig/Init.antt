-- ===== src/Ptrig/Init.antt =====
-- Setting up ubx/ptrig: ptrig_handle_config and ptrig_init of std_blocks/trig/ptrig.c. What the
-- configs hold, what the functions of pthread return and what common_init_chains returns is
-- given.
use microblx.Base.{
  ℕ, zero, suc, ◌≡◌, ◌≢◌, ◌⊎◌, Bool, true, false, not, ◌&&◌, Option, none, some, List, [], ◌∷◌,
  length, ltb, ◌==◌, if◌then◌else◌,
}
use microblx.Base.Int.{ℤ, pos, negsuc, eqb_ℤ}
use microblx.Store.{CStr}
use microblx.Store.Strings.{strn_eq}
use microblx.Store.Errors.{einvalid_config, eoutofmem}

pub data SchedPolicy : Type 0 where
  sched_other sched_fifo sched_rr : SchedPolicy

-- The values of the configs, or `none` for a length of 0; the period is only tested for being
-- there.
pub record PtrigConfig : Type 0 where
  pub autostop_steps : Option ℤ
  pub has_period : Bool
  pub stacksize : Option ℕ
  pub sched_policy : Option CStr
  pub sched_priority : Option ℤ
  pub affinity : List ℤ

-- PTHREAD_STACK_MIN, and the results of the functions.
pub record Pthread : Type 0 where
  pub stack_min : ℕ
  pub attr_setstacksize : ℕ → ℤ
  pub attr_setschedparam : SchedPolicy → ℤ → ℤ
  pub create : ℤ
  pub setaffinity : List ℤ → ℤ

-- `-EINVALID_CONFIG`: the error codes are negative, so this is not.
abbrev pub minus_einvalid_config : ℤ
minus_einvalid_config = pos 32765

-- "SCHED_OTHER", "SCHED_FIFO" and "SCHED_RR"
abbrev sched_other_name : CStr
sched_other_name = 83 ∷ 67 ∷ 72 ∷ 69 ∷ 68 ∷ 95 ∷ 79 ∷ 84 ∷ 72 ∷ 69 ∷ 82 ∷ []

abbrev sched_fifo_name : CStr
sched_fifo_name = 83 ∷ 67 ∷ 72 ∷ 69 ∷ 68 ∷ 95 ∷ 70 ∷ 73 ∷ 70 ∷ 79 ∷ []

abbrev sched_rr_name : CStr
sched_rr_name = 83 ∷ 67 ∷ 72 ∷ 69 ∷ 68 ∷ 95 ∷ 82 ∷ 82 ∷ []

-- strncmp reads no further than a NUL.
abbrev until_nul : CStr → CStr
until_nul [] = []
until_nul (zero ∷ cs) = []
until_nul (suc c ∷ cs) = suc c ∷ until_nul cs

-- `strncmp(str, name, len) == 0` for a config of length `len`: the string without its final NUL is
-- the name, or, if there is no NUL, its first letters.
abbrev pub names_policy : CStr → CStr → Bool
names_policy str name = strn_eq (length str) (until_nul str) name

-- The policy of a string, whose bytes are those that the config holds, with a NUL where it has one.
unfoldable pub policy_of : Option CStr → Option SchedPolicy
policy_of none = some sched_other
policy_of (some str) =
    if names_policy str sched_other_name
    then some sched_other
    else if names_policy str sched_fifo_name
    then some sched_fifo
    else if names_policy str sched_rr_name
    then some sched_rr
    else none

abbrev pub or_zero : Option ℤ → ℤ
or_zero none = pos 0
or_zero (some n) = n

-- The two tests of the stack size.
abbrev pub bad_stacksize : Pthread → Option ℕ → Bool
bad_stacksize p none = false
bad_stacksize p (some n) =
    if ltb n p.stack_min then true else not (eqb_ℤ (p.attr_setstacksize n) (pos 0))

-- `ptrig_handle_config`. A priority that does not go with the policy is only reported here.
unfoldable pub handle_config : Pthread → PtrigConfig → ℤ
handle_config p cfg =
    if not cfg.has_period
    then minus_einvalid_config
    else if bad_stacksize p cfg.stacksize
    then minus_einvalid_config
    else elim (policy_of cfg.sched_policy) [
      | none ↦ minus_einvalid_config
      | some policy ↦
          if eqb_ℤ (p.attr_setschedparam policy (or_zero cfg.sched_priority)) (pos 0)
          then pos 0
          else einvalid_config
    ]

-- What `ptrig_init` leaves: whether the private data and the array of chains are allocated, how
-- many configs were added for the chains, and whether the thread runs.
pub record Held : Type 0 where
  pub private_data : Bool
  pub chains : Bool
  pub chain_configs : ℕ
  pub thread : Bool

abbrev pub nothing_held : Held
nothing_held = record { private_data = false; chains = false; chain_configs = 0; thread = false }

-- calloc, common_init_chains and pthread_create, when they succeed.
abbrev pub alloc_private : Held → Held
alloc_private h = record h { private_data = true }

abbrev pub add_chains : ℕ → Held → Held
add_chains n h = record h { chains = true; chain_configs = n }

abbrev pub create_thread : Held → Held
create_thread h = record h { thread = true }

-- `out_err`
abbrev pub free_private : Held → Held
free_private h = record h { private_data = false }

-- `ptrig_init`; `got` says whether calloc returns memory, and `n` is what common_init_chains
-- returns.
unfoldable pub ptrig_init : Pthread → PtrigConfig → Bool → ℤ → ℤ × Held
ptrig_init p cfg got (negsuc n) = (eoutofmem, nothing_held)
ptrig_init p cfg got (pos n) =
    let set_up = add_chains n (alloc_private nothing_held) in
    let runs = create_thread set_up in
    if not got
    then (eoutofmem, nothing_held)
    else if n == 0
    then (eoutofmem, free_private (alloc_private nothing_held))
    else if not (eqb_ℤ (handle_config p cfg) (pos 0))
    then (einvalid_config, free_private set_up)
    else if not (eqb_ℤ p.create (pos 0))
    then (p.create, free_private set_up)
    else if ltb 0 (length cfg.affinity) && not (eqb_ℤ (p.setaffinity cfg.affinity) (pos 0))
    then (negsuc 0, free_private runs)
    else (pos 0, runs)

-- The configs are accepted.
abbrev pub ConfigAccepted : Pthread → PtrigConfig → Type 0
ConfigAccepted p cfg =
    (policy : SchedPolicy) × (cfg.has_period ≡ true)
    × (bad_stacksize p cfg.stacksize ≡ false)
    × (policy_of cfg.sched_policy ≡ some policy)
    × (p.attr_setschedparam policy (or_zero cfg.sched_priority) ≡ pos 0)

-- How `ptrig_init` may end once there are chains.
pub data InitOutcome (p : Pthread) (cfg : PtrigConfig) (n : ℕ) (out : ℤ × Held) : Type 0 where
  ready :
      out ≡ (pos 0, record { private_data = true; chains = true; chain_configs = n; thread = true })
      → ConfigAccepted p cfg
      → p.create ≡ pos 0
      → (cfg.affinity ≡ []) ⊎ (p.setaffinity cfg.affinity ≡ pos 0)
      → InitOutcome p cfg n out
  refused :
      ((out.0 ≡ einvalid_config) × (¬ ConfigAccepted p cfg))
        ⊎ ((out.0 ≡ p.create) × (p.create ≢ pos 0) × ConfigAccepted p cfg)
      → out.1 ≡ record { private_data = false; chains = true; chain_configs = n; thread = false }
      → InitOutcome p cfg n out
  no_affinity :
      out.0 ≡ negsuc 0
      → out.1 ≡ record { private_data = false; chains = true; chain_configs = n; thread = true }
      → p.setaffinity cfg.affinity ≢ pos 0
      → ConfigAccepted p cfg
      → InitOutcome p cfg n out
