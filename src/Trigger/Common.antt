-- ===== src/Trigger/Common.antt =====
-- The chains of a trigger block: common_config_chains and common_unconfig of
-- std_blocks/trig/common.c, which its start and stop hooks call. What the configs of the block
-- hold is given.
pub mod Restart
use microblx.Base.{ℕ, suc, Bool, not, Option, none, some, List, [], ◌∷◌, if◌then◌else◌}
use microblx.Base.Int.{ℤ, pos, negsuc, eqb_ℤ}
use microblx.Store.{CStr, Block}
use microblx.Trigger.{Triggee, Chain, chain_init, chain_cleanup}

-- The values of the configs, the port `tstats`, and what snprintf makes of CHAIN_NAME_FMT. The rate
-- is times NSEC_PER_SEC, and the mode and the number of triggers to skip are the int that was read.
pub record Settings : Type 0 where
  pub tstats_mode : ℤ
  pub tstats_skip_first : ℕ
  pub output_rate : ℕ
  pub p_tstats : ℕ
  pub chain_name : ℕ → CStr
  pub triggees : ℕ → List Triggee

-- The assignments to chain number i.
abbrev pub set_up : Settings → ℕ → Chain → Chain
set_up s i chain = record chain {
  tstats_mode = s.tstats_mode;
  tstats_skip_first = s.tstats_skip_first;
  p_tstats = some s.p_tstats;
  triggees = s.triggees i;
}

-- The loop from chain number i on. When a chain fails, those before it are cleaned up, the last
-- first; `got` tells which reallocations return memory.
unfoldable pub common_config_chains :
    (ℕ → Option Block) → (ℕ → Bool) → Settings → ℕ → List Chain → Option (ℤ × List Chain)
common_config_chains blocks got s i [] = some (pos 0, [])
common_config_chains blocks got s i (chain ∷ chains) =
    elim (chain_init blocks (got i) (some (s.chain_name i)) s.output_rate (set_up s i chain)) [
      | none ↦ none
      | some (ret, chain1) ↦
          if not (eqb_ℤ ret (pos 0))
          then some (negsuc 0, chain1 ∷ chains)
          else elim (common_config_chains blocks got s (suc i) chains) [
            | none ↦ none
            | some (ret', chains1) ↦
                if eqb_ℤ ret' (pos 0)
                then some (pos 0, chain1 ∷ chains1)
                else elim (chain_cleanup chain1) [
                  | none ↦ none
                  | some chain2 ↦ some (ret', chain2 ∷ chains1)
                ]
          ]
    ]

unfoldable pub common_unconfig : List Chain → Option (List Chain)
common_unconfig [] = some []
common_unconfig (chain ∷ chains) = elim (chain_cleanup chain) [
  | none ↦ none
  | some chain1 ↦ elim (common_unconfig chains) [
    | none ↦ none
    | some chains1 ↦ some (chain1 ∷ chains1)
  ]
]
