-- ===== src/Trigger/Steps.antt =====
-- The block ubx/trig: trig_start, trig_step and trig_stop of std_blocks/trig/trig.c. Writing and
-- logging statistics when it is stopped is output.
use microblx.Base.{
  ℕ, zero, suc, ◌<◌, ◌≡◌, refl, sym, ap, ◌∙◌, Bool, not, Option, none, some, List, [], ◌∷◌, length,
  get_elem?, get_elem?-found, none_ne_some, some_eq, subst, Bool-cases, inl, inr, ◌⊎◌, ◌||◌, set,
  All, arith, ltb,
}
use microblx.Base.Int.{ℤ, pos, negsuc, ltb_ℤ, eqb_ℤ}
use microblx.Time.{Timespec}
use microblx.Store.{CStr, World, Block}
use microblx.Store.Hash.{Uthash}
use microblx.Access.{read_one}
use microblx.Lifecycle.{Hooks}
use microblx.Trigger.{Tstat, Triggee, Chain, common_read_actchain}
use microblx.Trigger.Chains.{Run, PortIo, write_tstat, chain_trigger, trig_blocks}
use microblx.Trigger.Ready.{Ready, Sendable}
use microblx.Trigger.Modes.{IsMode, chain_trigger-Goes}
use microblx.Trigger.Common.{Settings, common_config_chains, common_unconfig}

-- `struct block_info`; `num_chains` is the length of the list.
pub record TrigInfo : Type 0 where
  pub chains : List Chain
  pub actchain : ℤ
  pub p_actchain : ℕ

unfoldable pub trig_start :
    (ℕ → Option Block) → (ℕ → Bool) → Settings → TrigInfo → Option (ℤ × TrigInfo)
trig_start blocks got s inf = elim (common_config_chains blocks got s 0 inf.chains) [
  | none ↦ none
  | some (ret, chains) ↦ some (ret, record inf { chains = chains })
]

unfoldable pub trig_stop : TrigInfo → Option TrigInfo
trig_stop inf = elim (common_unconfig inf.chains) [
  | none ↦ none
  | some chains ↦ some (record inf { chains = chains })
]

-- The chain with an int as its index: no chain is there below 0.
abbrev pub chain_at : List Chain → ℤ → Option Chain
chain_at chains (pos i) = get_elem? chains i
chain_at chains (negsuc i) = none

abbrev pub put_chain : List Chain → ℤ → Chain → List Chain
put_chain chains (pos i) chain = set chains i chain
put_chain chains (negsuc i) chain = chains

-- "int"
abbrev pub int_type : CStr
int_type = 105 ∷ 110 ∷ 116 ∷ []

module _ {T : Type 0} ⦃u : Uthash T⦄ (hooks : Hooks T) (io : PortIo T) where
  -- `read_int`: the result, and what the int is then.
  unfoldable pub read_int : ℕ → World T → Option (ℤ × ℤ × World T)
  read_int port w = elim (io.port_at w port) [
    | none ↦ none
    | some p ↦ elim (read_one hooks io.int_static int_type io.int_local (some p) io.int_unset w) [
      | none ↦ none
      | some (ret, bytes, w') ↦ some (ret, io.int_of bytes, w')
    ]
  ]

  module _ (clock : ℕ → Timespec) where
    -- `trig_step`; the code of the chain is only reported.
    unfoldable pub trig_step : TrigInfo → Run T → Option (TrigInfo × Run T)
    trig_step inf run = elim (read_int inf.p_actchain run.world) [
      | none ↦ none
      | some (ret, tmp, w) ↦
          let act = common_read_actchain ret tmp (pos (length inf.chains)) inf.actchain in
          elim (chain_at inf.chains act) [
            | none ↦ none
            | some chain ↦ elim (chain_trigger hooks io clock chain (record run { world = w })) [
              | none ↦ none
              | some (code, chain1, run1) ↦
                  some
                    (record inf { chains = put_chain inf.chains act chain1; actchain = act }, run1)
            ]
          ]
    ]

    -- A number of steps.
    abbrev pub trig_run : ℕ → TrigInfo → Run T → Option (TrigInfo × Run T)
    trig_run zero inf run = some (inf, run)
    trig_run (suc n) inf run = elim (trig_step inf run) [
      | none ↦ none
      | some (inf1, run1) ↦ trig_run n inf1 run1
    ]

-- What is read from the port does not lead out of the array.
common_read_actchain_lem :
    (ret tmp : ℤ) (n i : ℕ)
    → i < n
    → (j : ℕ) × (common_read_actchain ret tmp (pos n) (pos i) ≡ pos j) × (j < n)
unfolding common_read_actchain
common_read_actchain_lem ret (negsuc t) n i below = (i, ground arith, below)
common_read_actchain_lem ret (pos t) n i below =
    elim (Bool-cases (eqb_ℤ ret (pos 0) || ltb_ℤ ret (pos 0) || not (ltb t n))) [
      | inl e ↦ (i, ground (arith, e), below)
      | inr e ↦ (t, ground (arith, e), ground (arith, e))
    ]

module _ {ℓ κ} {A : Type ℓ} (P : A → Type κ) where
  All-get : (xs : List A) (i : ℕ) (x : A) → get_elem? xs i ≡ some x → All P xs → P x
  All-get [] i x e h = absurd (none_ne_some e)
  All-get (y ∷ xs) zero x e h = subst P (some_eq e) h.0
  All-get (y ∷ xs) (suc i) x e h = All-get xs i x e h.1

  All-set : (xs : List A) (i : ℕ) (x : A) → P x → All P xs → All P (set xs i x)
  All-set [] i x p h = tt
  All-set (y ∷ xs) zero x p h = (p, h.1)
  All-set (y ∷ xs) (suc i) x p h = (h.0, All-set xs i x p h.1)

length-set {ℓ} : {A : Type ℓ} (xs : List A) (i : ℕ) (x : A) → length (set xs i x) ≡ length xs
length-set [] i x = refl
length-set (y ∷ xs) zero x = refl
length-set (y ∷ xs) (suc i) x = omega (arith, length-set xs i x)

module _ {T : Type 0} ⦃u : Uthash T⦄ (hooks : Hooks T) (io : PortIo T) (clock : ℕ → Timespec)
    (P : World T → Type 0) where
  abbrev StepsAll : List Triggee → Type 0
  StepsAll ts =
      (cnt : ℕ) (w : World T)
      → P w
      → (ret : ℤ) × (w' : World T) × (trig_blocks hooks cnt ts (pos 0) w ≡ some (ret, w')) × P w'

  -- Every block of a chain can be stepped in the worlds of a kind, and leaves such a world.
  abbrev pub Steppable : Chain → Type 0
  Steppable c = StepsAll c.triggees

  -- The port can be read in such worlds, with whatever result, and reading it leaves such a world.
  abbrev pub Readable : ℕ → Type 0
  Readable port =
      (w : World T)
      → P w
      → (ret : ℤ) × (tmp : ℤ) × (w' : World T) × (read_int hooks io port w ≡ some (ret, tmp, w'))
        × P w'

  abbrev SendsTo : Option ℕ → Type 0
  SendsTo port =
      (p : ℕ)
      → port ≡ some p
      → (s : Tstat) (w : World T) → P w
      → (w' : World T) × (write_tstat hooks io p s w ≡ some w') × P w'

  abbrev pub Sound : Chain → Type 0
  Sound c = Ready c × IsMode hooks io clock P c × Steppable c × Sendable hooks io P c

  -- The active chain is one that there is, all can be triggered, and the port can be read.
  pub record Triggers (inf : TrigInfo) : Type 0 where
    pub which : ℕ
    pub active : inf.actchain ≡ pos which
    pub there : which < length inf.chains
    pub each : All Sound inf.chains
    pub reads : Readable inf.p_actchain

  -- What is left of a trigger.
  abbrev GoesOn : Option (TrigInfo × Run T) → Type 0
  GoesOn out =
      (inf' : TrigInfo) × (run' : Run T) × (out ≡ some (inf', run')) × Triggers inf' × P run'.world

  trig_step_at :
      (ret tmp : ℤ) (inf : TrigInfo) (run : Run T) (w : World T) (j : ℕ) (chain : Chain) (code : ℤ)
      (chain1 : Chain) (run1 : Run T)
      → read_int hooks io inf.p_actchain run.world ≡ some (ret, tmp, w)
      → common_read_actchain ret tmp (pos (length inf.chains)) inf.actchain ≡ pos j
      → get_elem? inf.chains j ≡ some chain
      → chain_trigger hooks io clock chain (record run { world = w }) ≡ some (code, chain1, run1)
      → trig_step hooks io clock inf run
        ≡ some (record inf { chains = set inf.chains j chain1; actchain = pos j }, run1)
  unfolding trig_step
  trig_step_at ret tmp inf run w j chain code chain1 run1 read act at done =
      let there : chain_at inf.chains
            (common_read_actchain ret tmp (pos (length inf.chains)) inf.actchain)
          ≡ some chain =
        ap (chain_at inf.chains) act ∙ at in
      rw (trig_step, read, there, done)
        (ap
          (λ (a : ℤ).
            some (record inf { chains = put_chain inf.chains a chain1; actchain = a }, run1))
          act)

  trig_step-Triggers :
      (inf : TrigInfo) (run : Run T)
      → Triggers inf
      → P run.world
      → GoesOn (trig_step hooks io clock inf run)
  trig_step-Triggers inf run s kind =
      let (ret, tmp, w0, read, kind0) = s.reads run.world kind in
      let (j, act, below) = common_read_actchain_lem ret tmp (length inf.chains) s.which s.there in
      let act1 : common_read_actchain ret tmp (pos (length inf.chains)) inf.actchain ≡ pos j =
        rw s.active act in
      let (chain, at) = get_elem?-found inf.chains j below in
      let (ready, mode, steps, sends) = All-get Sound inf.chains j chain at s.each in
      let (code, w, out, kind1) = steps chain.every_cnt w0 kind0 in
      let (chain1, run1, done, sent, kind2, same, _, same_mode, same_port, ready1) =
        chain_trigger-Goes hooks io clock P chain (record run { world = w0 }) code w ready mode
          sends kind1 out in
      let mode1 : IsMode hooks io clock P chain1 =
        subst (λ (m : ℤ). (m ≡ pos 0) ⊎ (m ≡ pos 1) ⊎ (m ≡ pos 2)) (sym same_mode) mode in
      let steps1 : Steppable chain1 = subst StepsAll (sym same) steps in
      let sends1 : Sendable hooks io P chain1 = subst SendsTo (sym same_port) sends in
      (
        record inf { chains = set inf.chains j chain1; actchain = pos j },
        run1,
        trig_step_at ret tmp inf run w0 j chain code chain1 run1 read act1 at done,
        record {
          which = j;
          active = refl;
          there = omega (arith, below, length-set inf.chains j chain1);
          each = All-set Sound inf.chains j chain1 (ready1, mode1, steps1, sends1) s.each;
          reads = s.reads;
        },
        kind2,
      )

  -- When all chains are ready, in one of the modes, and the active chain is one of them, and when
  -- in the worlds of a kind their blocks can be stepped, statistics can be written to their ports
  -- and the port `active_chain` can be read, each of which leaves such a world, then the block
  -- can be stepped any number of times, whatever is read from that port, also numbers of chains
  -- that there are not: no step meets a fault or reads outside of the array of chains, and all of
  -- this holds again after them.
  pub trig_run-Triggers :
      (n : ℕ) (inf : TrigInfo) (run : Run T)
      → Triggers inf
      → P run.world
      → (inf' : TrigInfo) × (run' : Run T) × (trig_run hooks io clock n inf run ≡ some (inf', run'))
        × Triggers inf'
        × P run'.world
  trig_run-Triggers zero inf run s kind = (inf, run, refl, s, kind)
  trig_run-Triggers (suc n) inf run s kind =
      let (inf1, run1, out, s1, kind1) = trig_step-Triggers inf run s kind in
      let (inf2, run2, rest, s2, kind2) = trig_run-Triggers n inf1 run1 s1 kind1 in
      (inf2, run2, rw (trig_run, out) rest, s2, kind2)
