-- ===== src/Lifecycle/Machine.antt =====
-- The life cycle as a state machine.
use microblx.Base.{
  ℕ, ◌≡◌, ◌≢◌, refl, ap, Option, none, some, arith, ◌⊎◌, inl, inr, ◌∙◌, Option-cases, Bool-cases,
}
use microblx.Base.Int.{ℤ, pos, eqb_ℤ}
use microblx.Store.{Block, BlockState, preinit, inactive, active, World}
use microblx.Store.Hash.{Uthash}
use microblx.Lifecycle.{
  Hooks, Outcome, put_block, set_state, then_return, run_init, run_start, run_stop, run_cleanup,
  block_init, block_start, block_stop, block_cleanup,
}

-- The state of a block, if it is allocated.
abbrev pub state_of : {T : Type 0} → World T → ℕ → Option BlockState
state_of w b = elim (w.blocks b) [ none ↦ none | some blk ↦ some blk.block_state ]

-- The four transitions.
pub data LifeOp : Type 0 where
  op_init op_start op_stop op_cleanup : LifeOp

pub data Move : BlockState → LifeOp → BlockState → Type 0 where
  initialised : Move preinit op_init inactive
  started : Move inactive op_start active
  stopped : Move active op_stop inactive
  cleaned : Move inactive op_cleanup preinit

module _ {T : Type 0} where
  -- Hooks that leave the block allocated and in its state.
  pub record Polite (hooks : Hooks T) (b : ℕ) : Type 0 where
    pub polite_init :
        (f : ℕ) (w : World T) (s : BlockState)
        → state_of w b ≡ some s
        → state_of (hooks.init f b w).1 b ≡ some s
    pub polite_start :
        (f : ℕ) (w : World T) (s : BlockState)
        → state_of w b ≡ some s
        → state_of (hooks.start f b w).1 b ≡ some s
    pub polite_stop :
        (f : ℕ) (w : World T) (s : BlockState)
        → state_of w b ≡ some s
        → state_of (hooks.stop f b w) b ≡ some s
    pub polite_cleanup :
        (f : ℕ) (w : World T) (s : BlockState)
        → state_of w b ≡ some s
        → state_of (hooks.cleanup f b w) b ≡ some s

  -- The outcome of an operation: the code 0 with the new state, or another code with the old one.
  abbrev pub Settles : Outcome T → ℕ → BlockState → BlockState → Type 0
  Settles out b s s' =
      (ret : ℤ) × (w' : World T) × (out ≡ some (ret, w'))
      × (((ret ≡ pos 0) × (state_of w' b ≡ some s')) ⊎ ((ret ≢ pos 0) × (state_of w' b ≡ some s)))

  set_state-Settles :
      (b : ℕ) (w : World T) (s t s' : BlockState)
      → state_of w b ≡ some t
      → Settles (then_return (set_state b s' w) (pos 0)) b s s'
  set_state-Settles b w s t s' h = elim (Option-cases (w.blocks b)) [
    | inl e ↦ absurd (ground arith)
    | inr (blk, e) ↦
        (pos 0, put_block b (record blk { block_state = s' }) w, ground arith, ground arith)
  ]

  set_state-back :
      (b : ℕ) (w : World T) (s t s' : BlockState) (ret : ℤ)
      → state_of w b ≡ some t
      → ret ≢ pos 0
      → Settles (then_return (set_state b s w) ret) b s s'
  set_state-back b w s t s' ret h ne = elim (Option-cases (w.blocks b)) [
    | inl e ↦ absurd (ground arith)
    | inr (blk, e) ↦
        (ret, put_block b (record blk { block_state = s }) w, ground arith, inr (ne, ground arith))
  ]

  module _ (hooks : Hooks T) (b : ℕ) (polite : Polite hooks b) where
    pub run_init-Settles :
        (blk : Block) (w : World T)
        → state_of w b ≡ some preinit
        → Settles (run_init hooks b blk w) b preinit inactive
    unfolding run_init
    run_init-Settles blk w h = elim (Option-cases blk.init) [
      | inl e ↦ rw (e, run_init) (set_state-Settles b w preinit preinit inactive h)
      | inr (f, e) ↦
          let after = polite.polite_init f w preinit h in
          elim (Bool-cases (eqb_ℤ (hooks.init f b w).0 (pos 0))) [
            | inl z ↦
                rw (e, run_init, z)
                  (set_state-Settles b (hooks.init f b w).1 preinit preinit inactive after)
            | inr z ↦ (
              (hooks.init f b w).0,
              (hooks.init f b w).1,
              rw (e, run_init, z) refl,
              inr (λ q. ground arith, after),
            )
          ]
    ]

    pub run_start-Settles :
        (blk : Block) (w : World T)
        → state_of w b ≡ some inactive
        → Settles (run_start hooks b blk w) b inactive active
    unfolding run_start
    run_start-Settles blk w h = elim (Option-cases (w.blocks b)) [
      | inl n ↦ absurd (ground arith)
      | inr (k, n) ↦
          let w1 = put_block b (record k { block_state = active }) w in
          let here : state_of w1 b ≡ some active = ground arith in
          elim (Option-cases blk.start) [
            | inl e ↦ (pos 0, w1, rw (n, run_start, e) refl, inl (refl, here))
            | inr (f, e) ↦
                let after = polite.polite_start f w1 active here in
                elim (Bool-cases (eqb_ℤ (hooks.start f b w1).0 (pos 0))) [
                  | inl z ↦ (
                    pos 0,
                    (hooks.start f b w1).1,
                    rw (n, run_start, e, z) refl,
                    inl (refl, after),
                  )
                  | inr z ↦
                      rw (n, run_start, e, z)
                        (set_state-back b (hooks.start f b w1).1 inactive active active
                          (hooks.start f b w1).0 after (λ q. ground arith))
                ]
          ]
    ]

    pub run_stop-Settles :
        (blk : Block) (w : World T)
        → state_of w b ≡ some active
        → Settles (run_stop hooks b blk w) b active inactive
    unfolding run_stop
    run_stop-Settles blk w h = elim (Option-cases blk.stop) [
      | inl e ↦ rw (e, run_stop) (set_state-Settles b w active active inactive h)
      | inr (f, e) ↦
          rw (e, run_stop)
            (set_state-Settles b (hooks.stop f b w) active active inactive
              (polite.polite_stop f w active h))
    ]

    pub run_cleanup-Settles :
        (blk : Block) (w : World T)
        → state_of w b ≡ some inactive
        → Settles (run_cleanup hooks b blk w) b inactive preinit
    unfolding run_cleanup
    run_cleanup-Settles blk w h = elim (Option-cases blk.cleanup) [
      | inl e ↦ rw (e, run_cleanup) (set_state-Settles b w inactive inactive preinit h)
      | inr (f, e) ↦
          rw (e, run_cleanup)
            (set_state-Settles b (hooks.cleanup f b w) inactive inactive preinit
              (polite.polite_cleanup f w inactive h))
    ]

-- The operation of the library for each transition.
abbrev pub perform : {T : Type 0} ⦃u : Uthash T⦄ → Hooks T → LifeOp → ℕ → World T → Outcome T
perform hooks op_init b w = block_init hooks (some b) w
perform hooks op_start b w = block_start hooks (some b) w
perform hooks op_stop b w = block_stop hooks (some b) w
perform hooks op_cleanup b w = block_cleanup hooks (some b) w

-- One operation in a state machine: code 0 is a transition of the life cycle, any other code
-- leaves the block in its state.
pub data Steps {T : Type 0} (w : World T) (b : ℕ) (s : BlockState) (op : LifeOp) (out : Outcome T)
    : Type 0 where
  moves :
      (w' : World T) (s' : BlockState)
      → out ≡ some (pos 0, w')
      → Move s op s'
      → state_of w' b ≡ some s'
      → Steps w b s op out
  stays :
      (ret : ℤ) (w' : World T)
      → out ≡ some (ret, w')
      → ret ≢ pos 0
      → state_of w' b ≡ some s
      → Steps w b s op out

pub Settles-Steps :
    {T : Type 0} (w : World T) (b : ℕ) (s s' : BlockState) (op : LifeOp) (out : Outcome T)
    → Move s op s'
    → Settles out b s s'
    → Steps w b s op out
Settles-Steps w b s s' op out m (ret, w', e, inl (z, h)) =
    moves w' s' (e ∙ ap (λ r. some (r, w')) z) m h
Settles-Steps w b s s' op out m (ret, w', e, inr (z, h)) = stays ret w' e z h
