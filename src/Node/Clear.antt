-- ===== src/Node/Clear.antt =====
-- What ubx_node_clear leaves of a node.
use microblx.Base.{
  ℕ, ◌≡◌, refl, sym, ap, ◌∙◌, subst, Bool, true, false, Option, none, some, List, [], ◌∷◌, ◌++◌,
  arith, if◌then◌else◌, is_some,
}
use microblx.Store.{Block, BlockState, preinit, inactive, active, World}
use microblx.Store.Hash.{Uthash}
use microblx.Store.Tables.{has_ptr, IsTable}
use microblx.Lifecycle.{Hooks, block_stop, block_cleanup}
use microblx.Data.Refs.{Refs}
use microblx.Node.{rm_instances, node_clear}
use microblx.Node.Sweep.{
  Quiet, Allocated, each_in_state_lem, block_stop-MovesBlocks, block_cleanup-MovesBlocks, moved,
  still-Allocated,
}
use microblx.Node.Instances.{
  Entry, items_of, prototypes, instances, values_of, Idle, rm_instances-Removed, instances_away,
}

-- The blocks in state preinit.
abbrev pub settled : List Entry → List Entry
settled [] = []
settled ((b, blk) ∷ es) = (b, record blk { block_state = preinit }) ∷ settled es

-- The entries are the blocks' structs.
abbrev pub Stored : (ℕ → Option Block) → List Entry → Type 0
Stored blocks [] = Unit
Stored blocks ((b, blk) ∷ es) = (blocks b ≡ some blk) × Stored blocks es

items_of-settled : (es : List Entry) → items_of (settled es) ≡ items_of es
items_of-settled [] = refl
items_of-settled ((b, blk) ∷ es) = ap (◌∷◌ (blk.name, b)) (items_of-settled es)

values_of-settled : (es : List Entry) → values_of (settled es) ≡ values_of es
values_of-settled [] = refl
values_of-settled ((b, blk) ∷ es) = rw (values_of-settled es) refl

instances-settled : (es : List Entry) → items_of (instances (settled es)) ≡ items_of (instances es)
instances-settled [] = refl
instances-settled ((b, blk) ∷ es) = ground (arith, instances-settled es)

-- Stopped if it was active, and then cleaned up.
swept : Option Block → Option Block
swept o = moved inactive preinit (moved active inactive o)

swept-some : (blk : Block) → swept (some blk) ≡ some (record blk { block_state = preinit })
unfolding swept
swept-some blk = ground arith

swept-Idle :
    (f g : ℕ → Option Block) (es : List Entry)
    → Stored f es
    → ((x : ℕ) → has_ptr x (items_of es) ≡ true → g x ≡ swept (f x))
    → Idle g (settled es)
unfolding has_ptr swept
swept-Idle f g [] stored h = tt
swept-Idle f g ((b, blk) ∷ es) stored h = (
  h b (ground arith) ∙ ap swept stored.0 ∙ swept-some blk,
  refl,
  swept-Idle f g es stored.1 (λ x on. h x (ground arith)),
)

moved_some :
    (from to : BlockState) (on : Bool) (o o' : Option Block)
    → o' ≡ (if on then moved from to o else o)
    → is_some o ≡ true
    → is_some o' ≡ true
moved_some from to on o o' e is = ground arith

twice_moved :
    (on : Bool) (o o1 o2 : Option Block)
    → o1 ≡ (if on then moved active inactive o else o)
    → o2 ≡ (if on then moved inactive preinit o1 else o1)
    → o2 ≡ (if on then swept o else o)
unfolding swept
twice_moved on o o1 o2 e1 e2 = ground arith

Stored-Allocated :
    {T : Type 0} (w : World T) (es : List Entry) → Stored w.blocks es → Allocated w (items_of es)
Stored-Allocated w [] stored = tt
Stored-Allocated w ((b, blk) ∷ es) stored = (ground arith, Stored-Allocated w es stored.1)

module _ {T : Type 0} ⦃u : Uthash T⦄ where
  -- What is left of a node with the given blocks after it is cleared.
  pub record Cleared (es : List Entry) (held : List ℕ) (w w' : World T) : Type 0 where
    pub table : u.items w'.node.blocks ≡ items_of (prototypes (settled es))
    pub kept : Idle w'.blocks (prototypes (settled es))
    pub removed : (b : ℕ) → has_ptr b (items_of (instances es)) ≡ true → w'.blocks b ≡ none
    pub others : (b : ℕ) → has_ptr b (items_of es) ≡ false → w'.blocks b ≡ w.blocks b
    pub counted : Refs w'.heap.datas (values_of (prototypes (settled es)) ++ held)

  -- What the two loops leave: every block of the table in state preinit.
  abbrev BothSwept : Hooks T → List Entry → List ℕ → World T → Type 0
  BothSwept hooks es held w =
      (w2 : World T) × (node_clear hooks w ≡ rm_instances (items_of (settled es)) w2)
      × (u.items w2.node.blocks ≡ items_of (settled es))
      × ((x : ℕ)
          → w2.blocks x ≡ (if has_ptr x (items_of es) then swept (w.blocks x) else w.blocks x))
      × Refs w2.heap.datas (values_of (settled es) ++ held)

  node_clear-BothSwept :
      (hooks : Hooks T) (es : List Entry) (held : List ℕ) (w : World T)
      → Quiet hooks
      → u.items w.node.blocks ≡ items_of es
      → Stored w.blocks es
      → Refs w.heap.datas (values_of es ++ held)
      → BothSwept hooks es held w
  unfolding node_clear
  node_clear-BothSwept hooks es held w quiet items stored refs =
      let allocated = Stored-Allocated w es stored in
      let (w1, run1, (nodes1, datas1), blocks1) =
        each_in_state_lem active inactive (block_stop hooks) refl
          (block_stop-MovesBlocks hooks quiet) (items_of es) w allocated in
      let still =
        still-Allocated w w1 (items_of es)
          (λ x.
            moved_some active inactive (has_ptr x (items_of es)) (w.blocks x) (w1.blocks x)
              (blocks1 x))
          allocated in
      let (w2, run2, (nodes2, datas2), blocks2) =
        each_in_state_lem inactive preinit (block_cleanup hooks) refl
          (block_cleanup-MovesBlocks hooks quiet) (items_of es) w1 still in
      let items1 = ap u.items nodes1 ∙ items in
      let items2 = ap u.items nodes2 ∙ items1 ∙ sym (items_of-settled es) in
      (
        w2,
        rw (node_clear, items, run1, items1, run2, items2) refl,
        items2,
        λ x.
            twice_moved (has_ptr x (items_of es)) (w.blocks x) (w1.blocks x) (w2.blocks x)
              (blocks1 x) (blocks2 x),
        rw (datas2, datas1, values_of-settled es) refs,
      )

  -- On a node whose table of blocks has distinct names and addresses, all of them of allocated
  -- blocks, and whose config values are counted, `ubx_node_clear` returns, if the stop and cleanup
  -- hooks leave the block structs, the table and the values alone. What is left in the table are
  -- the prototypes, in order and in state preinit; every other block of the table is freed, and no
  -- block outside it changes. The values that the prototypes hold, and all that is held elsewhere,
  -- are still counted.
  pub node_clear-Cleared :
      (hooks : Hooks T) (es : List Entry) (held : List ℕ) (w : World T)
      → Quiet hooks
      → u.items w.node.blocks ≡ items_of es
      → IsTable (items_of es)
      → Stored w.blocks es
      → Refs w.heap.datas (values_of es ++ held)
      → (w' : World T) × (node_clear hooks w ≡ some w') × Cleared es held w w'
  node_clear-Cleared hooks es held w quiet items table stored refs =
      let (w2, run, items2, blocks2, refs2) =
        node_clear-BothSwept hooks es held w quiet items stored refs in
      let table2 = subst IsTable (sym (items_of-settled es)) table in
      let idle = swept-Idle w.blocks w2.blocks es stored (λ x on. rw on at (blocks2 x)) in
      let (w', out, left, blocks3, kept, counted) =
        rm_instances-Removed (settled es) [] held w2 items2 table2 idle refs2 in
      let there : (x : ℕ)
          → w'.blocks x ≡ (if has_ptr x (items_of (instances es)) then none else w2.blocks x) =
        λ x.
          subst (λ l. w'.blocks x ≡ (if has_ptr x l then none else w2.blocks x))
            (instances-settled es) (blocks3 x) in
      (
        w',
        run ∙ out,
        record {
          table = left;
          kept = kept;
          removed = λ x on. rw on at (there x);
          others = λ x off. rw (instances_away x es off) at (there x) ∙ rw off at (blocks2 x);
          counted = counted;
        },
      )
