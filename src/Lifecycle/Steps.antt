-- ===== src/Lifecycle/Steps.antt =====
-- Every life cycle operation takes one step of the state machine, or none.
use microblx.Base.{
  ℕ, ◌≡◌, refl, ap, Bool, true, false, Option, none, some, List, [], ◌∷◌, arith, ◌⊎◌, inl, inr, sym,
  ◌∙◌, Option-cases, Bool-cases, some_eq, none_ne_some, subst, if◌then◌else◌,
}
use microblx.Base.Int.{ℤ, pos, eqb_ℤ, ltb_ℤ}
use microblx.Store.{Block, BlockState, preinit, inactive, active, World, Config, UbxData, CStr}
use microblx.Store.Hash.{Uthash}
use microblx.Store.Strings.{strn_eq}
use microblx.Store.Named.{find_named}
use microblx.Store.Errors.{ewrong_state, einvalid_config_len}
use microblx.Config.{value_len, config_find}
use microblx.Config.Minmax.{HasValues, check_minmax_lem}
use microblx.Lifecycle.{
  Hooks, Outcome, put_block, use_loglevel, run_init, run_start, run_stop, run_cleanup, if_minmax,
  block_init, block_start, block_stop, block_cleanup, cfg_getptr, check_static, loglevel_name,
  int_name,
}
use microblx.Lifecycle.Machine.{
  state_of, LifeOp, op_init, op_start, op_stop, op_cleanup, Move, initialised, started, stopped,
  cleaned, Polite, Settles, perform, Steps, stays, Settles-Steps, run_init-Settles,
  run_start-Settles, run_stop-Settles, run_cleanup-Settles,
}

value_of_len :
    (datas : ℕ → Option UbxData) (c : Config) (n : ℤ)
    → value_len datas c ≡ some n
    → (p : ℕ) × (d : UbxData) × (c.value ≡ some p) × (datas p ≡ some d)
value_of_len datas c n e = elim (Option-cases c.value) [
  | inl q ↦ absurd (ground arith)
  | inr (p, q) ↦ elim (Option-cases (datas p)) [
    | inl r ↦ absurd (ground arith)
    | inr (d, r) ↦ (p, d, q, r)
  ]
]

value_of_found :
    (datas : ℕ → Option UbxData) (name : CStr) (cs : List Config) (c : Config)
    → HasValues datas cs
    → config_find name cs ≡ some c
    → (p : ℕ) × (d : UbxData) × (c.value ≡ some p) × (datas p ≡ some d)
unfolding find_named
value_of_found datas name [] c h e = absurd (none_ne_some e)
value_of_found datas name (x ∷ cs) c h e = elim (Bool-cases (strn_eq 39 x.name name)) [
  | inl hit ↦
      let same : x ≡ c = some_eq (rw hit at e) in
      value_of_len datas c h.0.0 (subst (λ y. value_len datas y ≡ some h.0.0) same h.0.1)
  | inr miss ↦ value_of_found datas name cs c h.1 (rw miss at e)
]

module _ {T : Type 0} ⦃u : Uthash T⦄ where
  check_static_heap :
      (slot type : ℕ) (name : CStr) (w : World T)
      → ((check_static slot name type w).1.heap ≡ w.heap)
        × ((check_static slot name type w).1.blocks ≡ w.blocks)
  unfolding check_static
  check_static_heap slot type name w = ground arith

  put_back :
      (b : ℕ) (blk : Block) (l : Option ℕ) (w w1 : World T)
      → w1.heap ≡ w.heap
      → let w' = put_block b (record blk { loglevel = l }) w1 in
        (w'.heap ≡ w.heap) × (state_of w' b ≡ some blk.block_state)
  put_back b blk l w w1 h = (h, ground arith)

  -- Reading the loglevel config meets no fault where the values are there, and changes neither
  -- the heap nor the state.
  use_loglevel_lem :
      (b : ℕ) (blk : Block) (w : World T)
      → HasValues w.heap.datas blk.configs
      → (w' : World T) × (use_loglevel b blk w ≡ some w')
        × (w'.heap ≡ w.heap)
        × (state_of w' b ≡ some blk.block_state)
  unfolding use_loglevel cfg_getptr
  use_loglevel_lem b blk w h = elim (Option-cases (config_find loglevel_name blk.configs)) [
    | inl e ↦
        let w' = put_block b (record blk { loglevel = none }) w in
        let (hh, hs) = put_back b blk none w w refl in (w', rw (e, use_loglevel) refl, hh, hs)
    | inr (c, e) ↦
        let (p, d, v, r) = value_of_found w.heap.datas loglevel_name blk.configs c h e in
        let w1 = (check_static 0 int_name c.type w).1 in
        let heap1 = (check_static_heap 0 c.type int_name w).0 in
        let r1 : w1.heap.datas p ≡ some d = rw heap1 r in
        elim (Bool-cases (eqb_ℤ (check_static 0 int_name c.type w).0 (pos 0))) [
          | inl z ↦
              let l : Option ℕ = if ltb_ℤ (pos 0) d.len then some p else none in
              let (hh, hs) = put_back b blk l w w1 heap1 in
              (
                put_block b (record blk { loglevel = l }) w1,
                rw (e, use_loglevel, e, cfg_getptr, z, v, r1) refl,
                hh,
                hs,
              )
          | inr z ↦
              let (hh, hs) = put_back b blk none w w1 heap1 in
              (
                put_block b (record blk { loglevel = none }) w1,
                rw (e, use_loglevel, e, cfg_getptr, z) refl,
                hh,
                hs,
              )
        ]
  ]

module _ {T : Type 0} (hooks : Hooks T) where
  -- The check either lets the operation go on, or refuses with its own code.
  if_minmax_cases :
      (late : Bool) (cs : List Config) (w : World T) (next : Outcome T)
      → HasValues w.heap.datas cs
      → (if_minmax hooks late cs w next ≡ next)
        ⊎ (if_minmax hooks late cs w next ≡ some (einvalid_config_len, w))
  unfolding if_minmax
  if_minmax_cases late cs w next h = elim (check_minmax_lem w.heap.datas late cs h) [
    | inl (e, all) ↦ inl (rw (e, if_minmax) refl)
    | inr (e, fails) ↦ inr (rw (e, if_minmax) refl)
  ]

module _ {T : Type 0} ⦃u : Uthash T⦄ (hooks : Hooks T) (b : ℕ) (polite : Polite hooks b) where
  checked-Steps :
      (w w1 : World T) (s s' : BlockState) (op : LifeOp) (late : Bool) (cs : List Config)
      (next : Outcome T)
      → HasValues w1.heap.datas cs
      → state_of w1 b ≡ some s
      → Move s op s'
      → Settles next b s s'
      → Steps w b s op (if_minmax hooks late cs w1 next)
  checked-Steps w w1 s s' op late cs next h hs m settles =
      elim (if_minmax_cases hooks late cs w1 next h) [
        | inl e ↦ rw e (Settles-Steps w b s s' op next m settles)
        | inr e ↦ stays einvalid_config_len w1 e (λ q. cc) hs
      ]

  module _ (blk : Block) (w : World T) (here : w.blocks b ≡ some blk) where
    state_here : (s : BlockState) → blk.block_state ≡ s → state_of w b ≡ some s
    state_here s e = ground arith

    wrong_state :
        (s : BlockState) (op : LifeOp) (w1 : World T) (out : Outcome T)
        → out ≡ some (ewrong_state, w1)
        → state_of w1 b ≡ some s
        → Steps w b s op out
    wrong_state s op w1 out e h = stays ewrong_state w1 e (λ q. cc) h

    block_init-Steps :
        (s : BlockState)
        → blk.block_state ≡ s
        → HasValues w.heap.datas blk.configs
        → Steps w b s op_init (block_init hooks (some b) w)
    unfolding block_init run_init
    block_init-Steps s e h =
        let (w1, used, heap1, hs) = use_loglevel_lem b blk w h in
        go s e w1 used (subst (λ k. HasValues k.datas blk.configs) (sym heap1) h) (hs ∙ ap some e)
      where
        go :
            (s : BlockState)
            → blk.block_state ≡ s
            → (w1 : World T) → use_loglevel b blk w ≡ some w1
            → HasValues w1.heap.datas blk.configs
            → state_of w1 b ≡ some s
            → Steps w b s op_init (block_init hooks (some b) w)
        go preinit e w1 used h1 hs =
            rw (here, block_init, used, e)
              (checked-Steps w w1 preinit inactive op_init false blk.configs
                (run_init hooks b blk w1) h1 hs initialised
                (run_init-Settles hooks b polite blk w1 hs))
        go inactive e w1 used h1 hs =
            wrong_state inactive op_init w1 _ (rw (here, block_init, used, e) refl) hs
        go active e w1 used h1 hs =
            wrong_state active op_init w1 _ (rw (here, block_init, used, e) refl) hs

    block_start-Steps :
        (s : BlockState)
        → blk.block_state ≡ s
        → HasValues w.heap.datas blk.configs
        → Steps w b s op_start (block_start hooks (some b) w)
    unfolding block_start run_start
    block_start-Steps inactive e h =
        rw (here, block_start, e)
          (checked-Steps w w inactive active op_start true blk.configs (run_start hooks b blk w) h
            (state_here inactive e) started
            (run_start-Settles hooks b polite blk w (state_here inactive e)))
    block_start-Steps preinit e h =
        wrong_state preinit op_start w _ (rw (here, block_start, e) refl) (state_here preinit e)
    block_start-Steps active e h =
        wrong_state active op_start w _ (rw (here, block_start, e) refl) (state_here active e)

    block_stop-Steps :
        (s : BlockState) → blk.block_state ≡ s → Steps w b s op_stop (block_stop hooks (some b) w)
    unfolding block_stop run_stop
    block_stop-Steps active e =
        rw (here, block_stop, e)
          (Settles-Steps w b active inactive op_stop _ stopped
            (run_stop-Settles hooks b polite blk w (state_here active e)))
    block_stop-Steps preinit e =
        wrong_state preinit op_stop w _ (rw (here, block_stop, e) refl) (state_here preinit e)
    block_stop-Steps inactive e =
        wrong_state inactive op_stop w _ (rw (here, block_stop, e) refl) (state_here inactive e)

    block_cleanup-Steps :
        (s : BlockState)
        → blk.block_state ≡ s
        → Steps w b s op_cleanup (block_cleanup hooks (some b) w)
    unfolding block_cleanup run_cleanup
    block_cleanup-Steps inactive e =
        rw (here, block_cleanup, e)
          (Settles-Steps w b inactive preinit op_cleanup _ cleaned
            (run_cleanup-Settles hooks b polite blk w (state_here inactive e)))
    block_cleanup-Steps preinit e =
        wrong_state preinit op_cleanup w _ (rw (here, block_cleanup, e) refl) (state_here preinit e)
    block_cleanup-Steps active e =
        wrong_state active op_cleanup w _ (rw (here, block_cleanup, e) refl) (state_here active e)

    -- With hooks that leave the block's state alone and config values that are there, every life
    -- cycle operation on an allocated block returns without a fault, and either takes the
    -- transition of the life cycle from the block's state and returns 0, or returns another code
    -- and leaves the state.
    pub perform-Steps :
        (op : LifeOp)
        → HasValues w.heap.datas blk.configs
        → Steps w b blk.block_state op (perform hooks op b w)
    perform-Steps op_init h = block_init-Steps blk.block_state refl h
    perform-Steps op_start h = block_start-Steps blk.block_state refl h
    perform-Steps op_stop h = block_stop-Steps blk.block_state refl
    perform-Steps op_cleanup h = block_cleanup-Steps blk.block_state refl
