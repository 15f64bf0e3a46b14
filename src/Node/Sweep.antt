-- ===== src/Node/Sweep.antt =====
-- The loops of ubx_node_clear that stop and clean up the blocks.
use microblx.Base.{
  ℕ, ◌≡◌, refl, ap, ◌∙◌, Bool, true, false, ◌||◌, Option, none, some, List, [], ◌∷◌, arith,
  if◌then◌else◌, ◌==◌, All, is_some, inl, inr, Option-cases, Bool-cases,
}
use microblx.Base.Int.{pos}
use microblx.Store.{Block, BlockState, preinit, inactive, active, World}
use microblx.Store.Hash.{Item}
use microblx.Store.Tables.{has_ptr}
use microblx.Lifecycle.{
  Hooks, Outcome, same_state, block_stop, block_cleanup, run_stop, run_cleanup, put_block,
}
use microblx.Node.{each_in_state}

-- The block after a move from one state to another, if it is in the first.
abbrev pub moved : BlockState → BlockState → Option Block → Option Block
moved from to none = none
moved from to (some blk) =
    if same_state blk.block_state from then some (record blk { block_state = to }) else some blk

twice :
    (from to : BlockState) (b x : ℕ) (r : Bool) (blk : Block) (f : ℕ → Option Block)
    → (o1 o2 : Option Block) → same_state to from ≡ false
    → f b ≡ some blk
    → same_state blk.block_state from ≡ true
    → o1 ≡ (if b == x then some (record blk { block_state = to }) else f x)
    → o2 ≡ (if r then moved from to o1 else o1)
    → o2 ≡ (if b == x || r then moved from to (f x) else f x)
twice from to b x r blk f o1 o2 differ at hit e1 e2 = ground arith

passed :
    (from to : BlockState) (b x : ℕ) (r : Bool) (blk : Block) (f : ℕ → Option Block)
    → (o2 : Option Block) → f b ≡ some blk
    → same_state blk.block_state from ≡ false
    → o2 ≡ (if r then moved from to (f x) else f x)
    → o2 ≡ (if b == x || r then moved from to (f x) else f x)
passed from to b x r blk f o2 at miss e2 = ground arith

kept :
    (b x : ℕ) (blk : Block) (to : BlockState) (o o1 : Option Block)
    → is_some o ≡ true
    → o1 ≡ (if b == x then some (record blk { block_state = to }) else o)
    → is_some o1 ≡ true
kept b x blk to o o1 is e = ground arith

module _ {T : Type 0} where
  -- What two worlds share: the table of blocks, and the values.
  abbrev pub Shares : World T → World T → Type 0
  Shares w' w = (w'.node.blocks ≡ w.node.blocks) × (w'.heap.datas ≡ w.heap.datas)

  -- Hooks that leave the block structs, the table of blocks and the values alone.
  pub record Quiet (hooks : Hooks T) : Type 0 where
    pub stop_blocks : (f b : ℕ) (w : World T) → (hooks.stop f b w).blocks ≡ w.blocks
    pub stop_shares : (f b : ℕ) (w : World T) → Shares (hooks.stop f b w) w
    pub cleanup_blocks : (f b : ℕ) (w : World T) → (hooks.cleanup f b w).blocks ≡ w.blocks
    pub cleanup_shares : (f b : ℕ) (w : World T) → Shares (hooks.cleanup f b w) w

  -- An operation that moves a block from one state to the other, and does nothing else.
  abbrev pub MovesBlocks : BlockState → BlockState → (Option ℕ → World T → Outcome T) → Type 0
  MovesBlocks from to op =
      (b : ℕ) (blk : Block) (w : World T)
      → w.blocks b ≡ some blk
      → same_state blk.block_state from ≡ true
      → (w' : World T) × (op (some b) w ≡ some (pos 0, w'))
        × Shares w' w
        × ((x : ℕ)
            → w'.blocks x ≡ (if b == x then some (record blk { block_state = to }) else w.blocks x))

  pub block_stop-MovesBlocks :
      (hooks : Hooks T) → Quiet hooks → MovesBlocks active inactive (block_stop hooks)
  unfolding block_stop run_stop
  block_stop-MovesBlocks hooks quiet b blk w at state = elim (Option-cases blk.stop) [
    | inl e ↦ (
      put_block b (record blk { block_state = inactive }) w,
      ground arith,
      (refl, refl),
      λ x. refl,
    )
    | inr (f, e) ↦
        let same = quiet.stop_blocks f b w in
        let here : (hooks.stop f b w).blocks b ≡ some blk = ap (λ g. g b) same ∙ at in
        (
          put_block b (record blk { block_state = inactive }) (hooks.stop f b w),
          ground arith,
          quiet.stop_shares f b w,
          λ x. ground (arith, ap (λ g. g x) same),
        )
  ]

  pub block_cleanup-MovesBlocks :
      (hooks : Hooks T) → Quiet hooks → MovesBlocks inactive preinit (block_cleanup hooks)
  unfolding block_cleanup run_cleanup
  block_cleanup-MovesBlocks hooks quiet b blk w at state = elim (Option-cases blk.cleanup) [
    | inl e ↦ (
      put_block b (record blk { block_state = preinit }) w,
      ground arith,
      (refl, refl),
      λ x. refl,
    )
    | inr (f, e) ↦
        let same = quiet.cleanup_blocks f b w in
        let here : (hooks.cleanup f b w).blocks b ≡ some blk = ap (λ g. g b) same ∙ at in
        (
          put_block b (record blk { block_state = preinit }) (hooks.cleanup f b w),
          ground arith,
          quiet.cleanup_shares f b w,
          λ x. ground (arith, ap (λ g. g x) same),
        )
  ]

  abbrev pub Allocated : World T → List Item → Type 0
  Allocated w items = All (λ (i : Item). is_some (w.blocks i.1) ≡ true) items

  pub still-Allocated :
      (w w' : World T) (items : List Item)
      → ((x : ℕ) → is_some (w.blocks x) ≡ true → is_some (w'.blocks x) ≡ true)
      → Allocated w items
      → Allocated w' items
  still-Allocated w w' [] keep all = tt
  still-Allocated w w' (i ∷ items) keep all =
      (keep i.1 all.0, still-Allocated w w' items keep all.1)

  -- The loop goes through, and moves every block of the table that is in the state.
  abbrev pub Swept :
      BlockState → BlockState → (Option ℕ → World T → Outcome T) → List Item → World T → Type 0
  Swept from to op items w =
      (w' : World T) × (each_in_state from op items w ≡ some w')
      × Shares w' w
      × ((x : ℕ)
          → w'.blocks x ≡ (if has_ptr x items then moved from to (w.blocks x) else w.blocks x))

  hit-Swept :
      (from to : BlockState) (op : Option ℕ → World T → Outcome T) (key : List ℕ) (b : ℕ)
      → (rest : List Item) (blk : Block) (w w1 : World T) → same_state to from ≡ false
      → w.blocks b ≡ some blk
      → same_state blk.block_state from ≡ true
      → op (some b) w ≡ some (pos 0, w1)
      → Shares w1 w
      → ((x : ℕ)
          → w1.blocks x ≡ (if b == x then some (record blk { block_state = to }) else w.blocks x))
      → Swept from to op rest w1
      → Swept from to op ((key, b) ∷ rest) w
  unfolding each_in_state has_ptr
  hit-Swept from to op key b rest blk w w1 differ at hit done (nodes, datas) there
        (w', run, (nodes', datas'), after) =
      (
        w',
        rw (each_in_state, at, hit, done) run,
        (nodes' ∙ nodes, datas' ∙ datas),
        λ x.
            twice from to b x (has_ptr x rest) blk w.blocks (w1.blocks x) (w'.blocks x) differ at
              hit (there x) (after x),
      )

  pub each_in_state_lem :
      (from to : BlockState) (op : Option ℕ → World T → Outcome T)
      → same_state to from ≡ false
      → MovesBlocks from to op
      → (items : List Item) (w : World T) → Allocated w items
      → Swept from to op items w
  unfolding each_in_state has_ptr
  each_in_state_lem from to op differ moves [] w all = (w, refl, (refl, refl), λ x. refl)
  each_in_state_lem from to op differ moves ((key, b) ∷ rest) w all =
      elim (Option-cases (w.blocks b)) [
        | inl gone ↦ absurd (ground (arith, all.0))
        | inr (blk, at) ↦ elim (Bool-cases (same_state blk.block_state from)) [
          | inl hit ↦
              let (w1, done, shares, there) = moves b blk w at hit in
              let keep =
                still-Allocated w w1 rest
                  (λ x is. kept b x blk to (w.blocks x) (w1.blocks x) is (there x)) all.1 in
              hit-Swept from to op key b rest blk w w1 differ at hit done shares there
                (each_in_state_lem from to op differ moves rest w1 keep)
          | inr miss ↦
              let (w', run, shares, after) =
                each_in_state_lem from to op differ moves rest w all.1 in
              (
                w',
                rw (each_in_state, at, miss) run,
                shares,
                λ x.
                    passed from to b x (has_ptr x rest) blk w.blocks (w'.blocks x) at miss
                      (after x),
              )
        ]
      ]
