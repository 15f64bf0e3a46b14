-- ===== src/Blocks/Removal.antt =====
-- Removing blocks from a node.
use microblx.Base.{
  ℕ, ◌≡◌, ◌≢◌, Option, none, some, arith, inl, inr, Option-cases, Bool-cases, if◌then◌else◌, ◌==◌,
}
use microblx.Base.Int.{ℤ, pos}
use microblx.Store.{CStr, Block, preinit, World, update}
use microblx.Store.Strings.{str_eq}
use microblx.Store.Hash.{Uthash}
use microblx.Store.Tables.{find-del, del-IsTable, IsTable}
use microblx.Store.Errors.{einvalid_block_type, ewrong_state}
use microblx.Config.{free_doc}
use microblx.Lifecycle.{same_state}
use microblx.Store.{Heap, free}
use microblx.Blocks.{free_configs, free_ports, block_free, block_get, block_unregister, block_rm}

module _ {T : Type 0} ⦃u : Uthash T⦄ where
  -- A block's removal from the table and from memory.
  pub record Gone (name : CStr) (b : ℕ) (w w' : World T) : Type 0 where
    pub unnamed :
        (other : CStr)
        → block_get w' (some other) ≡ (if str_eq name other then none else block_get w (some other))
    pub freed : (x : ℕ) → w'.blocks x ≡ (if b == x then none else w.blocks x)
    pub table : IsTable (u.items w'.node.blocks)

  -- What `ubx_block_rm` does with a block that is allocated.
  pub data RmOutcome (name : CStr) (b : ℕ) (blk : Block) (w : World T) (out : Option (ℤ × World T))
      : Type 0 where
    is_prototype :
        blk.prototype ≡ none → out ≡ some (einvalid_block_type, w) → RmOutcome name b blk w out
    is_running :
        blk.block_state ≢ preinit → out ≡ some (ewrong_state, w) → RmOutcome name b blk w out
    removed :
        (w' : World T)
        → blk.prototype ≢ none
        → blk.block_state ≡ preinit
        → out ≡ some (pos 0, w')
        → Gone name b w w'
        → RmOutcome name b blk w out

  -- What `ubx_block_free` leaves, where the configs can be released.
  abbrev pub freed_world : ℕ → Block → Heap → World T → World T
  freed_world b blk k w = record w {
    heap = free (free_ports blk.ports k);
    blocks = update w.blocks b none;
  }

  block_free_lem :
      (b : ℕ) (blk : Block) (k : Heap) (w : World T)
      → w.blocks b ≡ some blk
      → free_configs blk.configs (free_doc blk.meta_data w.heap) ≡ some k
      → block_free b w ≡ some (freed_world b blk k w)
  unfolding block_free
  block_free_lem b blk k w at released = ground arith

  abbrev pub unnamed_world : ℕ → World T → World T
  unnamed_world b w = record w { node = record (w.node) { blocks = u.del b w.node.blocks } }

  pub unregister_lem :
      (name : CStr) (b : ℕ) (blk : Block) (k : Heap) (w : World T)
      → u.find name w.node.blocks ≡ some b
      → w.blocks b ≡ some blk
      → free_configs blk.configs (free_doc blk.meta_data w.heap) ≡ some k
      → block_unregister name w ≡ some (pos 0, freed_world b blk k (unnamed_world b w))
  unfolding block_unregister
  unregister_lem name b blk k w found at released =
      let freed = block_free_lem b blk k (unnamed_world b w) at released in ground arith

  gone :
      (name : CStr) (b : ℕ) (blk : Block) (k : Heap) (w : World T)
      → u.find name w.node.blocks ≡ some b
      → IsTable (u.items w.node.blocks)
      → Gone name b w (freed_world b blk k (unnamed_world b w))
  unfolding block_get
  gone name b blk k w found table = record {
    unnamed = λ other. find-del name other b w.node.blocks table found;
    freed = λ x. ground arith;
    table = del-IsTable b w.node.blocks table;
  }

  -- `ubx_block_rm` of a registered and allocated block, whose configs can be released: a prototype
  -- and a block that is not in state preinit are refused with their codes, and nothing changes;
  -- any other block is freed, its name is not found any more, and every other name and block is
  -- left as it was.
  pub block_rm-RmOutcome :
      (name : CStr) (b : ℕ) (blk : Block) (k : Heap) (w : World T)
      → IsTable (u.items w.node.blocks)
      → block_get w (some name) ≡ some b
      → w.blocks b ≡ some blk
      → free_configs blk.configs (free_doc blk.meta_data w.heap) ≡ some k
      → RmOutcome name b blk w (block_rm (some name) w)
  unfolding block_rm block_get
  block_rm-RmOutcome name b blk k w table found at released = elim (Option-cases blk.prototype) [
    | inl e ↦ is_prototype e (ground arith)
    | inr (p, e) ↦ elim (Bool-cases (same_state blk.block_state preinit)) [
      | inr running ↦ is_running (λ z. ground arith) (ground arith)
      | inl idle ↦
          let out = unregister_lem name b blk k w found at released in
          removed (freed_world b blk k (unnamed_world b w)) (λ z. cc) (ground arith) (ground arith)
            (gone name b blk k w found table)
    ]
  ]
