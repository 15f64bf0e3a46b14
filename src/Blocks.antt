-- ===== src/Blocks.antt =====
-- The blocks of a node: registering prototypes, cloning them, finding and removing blocks
-- (libubx/ubx.c). The outer `none` is a fault.
pub mod Prototype
pub mod Copies
pub mod Create
pub mod Release
pub mod Removal
mod Examples
use microblx.Base.{
  ℕ, suc, ◌+◌, ◌-◌, ◌%◌, Bool, true, false, not, ◌||◌, Option, none, some, List, [], ◌∷◌, length,
  take, ltb, if◌then◌else◌, is_some,
}
use microblx.Base.Int.{ℤ, pos, negsuc, eqb_ℤ}
use microblx.Store.{
  CStr, Block, BlockType, BlockState, computation, interaction, preinit, Config, Port, Heap, World,
  update, alloc, free,
}
use microblx.Store.Hash.{Uthash}
use microblx.Store.Errors.{eoutofmem, einvalid_block, enosuchent, einvalid_block_type, ewrong_state}
use microblx.Config.{Added, dup_doc, free_doc, config_free, config_add_typed, config_add2}
use microblx.Port.{port_free, port_add_typed, port_add}
use microblx.Connect.{is_interaction}
use microblx.Lifecycle.{is_computation, same_state}

abbrev pub block_name_maxlen : ℕ
block_name_maxlen = 63

-- `attrs | PORT_ATTR_CLONED`, which is the lowest bit, as is CONFIG_ATTR_CLONED.
abbrev pub or_cloned : ℕ → ℕ
or_cloned attrs = attrs + (1 - attrs % 2)

unfoldable pub free_configs : List Config → Heap → Option Heap
free_configs [] h = some h
free_configs (c ∷ cs) h = elim (config_free c h) [ none ↦ none | some k ↦ free_configs cs k ]

unfoldable pub free_ports : List Port → Heap → Heap
free_ports [] h = h
free_ports (p ∷ ps) h = free_ports ps (port_free p h)

-- The loop of `ubx_block_clone` over the configs of the prototype.
unfoldable pub clone_configs : List Config → Block → Heap → Added
clone_configs [] b h = (pos 0, b, h)
clone_configs (c ∷ cs) b h =
    let (ret, b', h') = config_add_typed b c.name none c.type c.min c.max (or_cloned c.attrs) h in
    let rest = clone_configs cs b' h' in if eqb_ℤ ret (pos 0) then rest else (ret, b', h')

-- Its loop over the ports.
unfoldable pub clone_ports : List Port → Block → Heap → Added
clone_ports [] b h = (pos 0, b, h)
clone_ports (p ∷ ps) b h =
    let (ret, b', h') =
      port_add_typed b p.name none (or_cloned p.attrs) p.in_type p.in_data_len p.out_type
        p.out_data_len h in
    let rest = clone_ports ps b' h' in if eqb_ℤ ret (pos 0) then rest else (ret, b', h')

-- The zeroed struct with what is copied from the prototype; strncpy cuts the name.
abbrev pub block_new : ℕ → Block → CStr → Block
block_new prot p name = record {
  name = take block_name_maxlen name;
  meta_data = none;
  attrs = p.attrs;
  type = p.type;
  block_state = preinit;
  ports = [];
  configs = [];
  prototype = some prot;
  loglevel = none;
  init = p.init;
  start = p.start;
  stop = p.stop;
  cleanup = p.cleanup;
  step = if is_computation p.type then p.step else none;
  read = if is_interaction p.type then p.read else none;
  write = if is_interaction p.type then p.write else none;
  stat_num_steps = 0;
  stat_num_reads = 0;
  stat_num_writes = 0;
}

-- The configs and then the ports of a prototype, copied to a block.
unfoldable pub clone_parts : Block → Block → Heap → Added
clone_parts p b h =
    let (ret, b', h') = clone_configs p.configs b h in
    if eqb_ℤ ret (pos 0) then clone_ports p.ports b' h' else (ret, b', h')

-- `ubx_block_check`, for a block that is not NULL.
unfoldable pub block_check : Block → ℤ
block_check blk =
    if is_computation blk.type || is_interaction blk.type then pos 0 else einvalid_block

module _ {T : Type 0} where
  unfoldable pub block_free : ℕ → World T → Option (World T)
  block_free b w = elim (w.blocks b) [
    | none ↦ none
    | some blk ↦ elim (free_configs blk.configs (free_doc blk.meta_data w.heap)) [
      | none ↦ none
      | some h ↦
          some (record w { heap = free (free_ports blk.ports h); blocks = update w.blocks b none })
    ]
  ]

  -- A block struct at the next address.
  abbrev pub place : Block → Heap → World T → World T
  place blk h w = record w { heap = h; blocks = update w.blocks w.heap.next (some blk) }

  -- The block is freed, and a result is returned.
  abbrev pub free_and : {A : Type 0} → ℕ → World T → A → Option (A × World T)
  free_and b w result = elim (block_free b w) [ none ↦ none | some w' ↦ some (result, w') ]

  -- `ubx_block_clone`: the new block, or `none` for NULL. A config or port that cannot be added
  -- is reported by ubx_err, which reads through the new block's pointer to its node; that is
  -- still NULL, so this is a fault.
  unfoldable pub block_clone : ℕ → CStr → World T → Option (Option ℕ × World T)
  block_clone prot name w = elim (w.blocks prot) [
    | none ↦ none
    | some p ↦
        let (got, h) = alloc w.heap in
        let (ret, blk, h') =
          clone_parts p (block_new prot p name) (record h { next = suc h.next }) in
        if not got
        then some (none, record w { heap = h })
        else if eqb_ℤ ret (pos 0)
        then some (some w.heap.next, place blk h' w)
        else none
  ]

module _ {T : Type 0} ⦃u : Uthash T⦄ where
  -- `__block_register`
  unfoldable pub enter_block : ℕ → World T → Option (ℤ × World T)
  enter_block b w = elim (w.blocks b) [
    | none ↦ none
    | some blk ↦
        if not (eqb_ℤ (block_check blk) (pos 0))
        then some (negsuc 0, w)
        else if is_some (u.find blk.name w.node.blocks)
        then some (negsuc 0, w)
        else some
            (pos 0, record w { node = record (w.node) { blocks = u.add blk.name b w.node.blocks } })
  ]

  unfoldable pub block_get : World T → Option CStr → Option ℕ
  block_get w none = none
  block_get w (some name) = u.find name w.node.blocks

  unfoldable pub num_blocks : World T → ℕ
  num_blocks w = u.count w.node.blocks

  unfoldable pub block_unregister : CStr → World T → Option (ℤ × World T)
  block_unregister name w = elim (u.find name w.node.blocks) [
    | none ↦ some (negsuc 0, w)
    | some b ↦
        free_and b (record w { node = record (w.node) { blocks = u.del b w.node.blocks } }) (pos 0)
  ]

  -- The last step of `ubx_block_create`: a clone that cannot be registered is freed, but its
  -- address is still returned.
  unfoldable pub enter_clone : ℕ → World T → Option (Option ℕ × World T)
  enter_clone b w = elim (enter_block b w) [
    | none ↦ none
    | some (ret, w') ↦ if eqb_ℤ ret (pos 0) then some (some b, w') else free_and b w' (some b)
  ]

  -- `ubx_block_create`: the new block, or `none` for NULL.
  unfoldable pub block_create : CStr → Option CStr → World T → Option (Option ℕ × World T)
  block_create type none w = some (none, w)
  block_create type (some name) w = elim (u.find type w.node.blocks) [
    | none ↦ some (none, w)
    | some prot ↦
        if is_some (u.find name w.node.blocks)
        then some (none, w)
        else elim (block_clone prot name w) [
          | none ↦ none
          | some (none, w') ↦ some (none, w')
          | some (some b, w') ↦ enter_clone b w'
        ]
  ]

  -- `ubx_block_rm`; the result of the call of `ubx_block_unregister` is not used.
  unfoldable pub block_rm : Option CStr → World T → Option (ℤ × World T)
  block_rm none w = some (enosuchent, w)
  block_rm (some name) w = elim (u.find name w.node.blocks) [
    | none ↦ some (enosuchent, w)
    | some b ↦ elim (w.blocks b) [
      | none ↦ none
      | some blk ↦
          if not (is_some blk.prototype)
          then some (einvalid_block_type, w)
          else if not (same_state blk.block_state preinit)
          then some (ewrong_state, w)
          else elim (block_unregister name w) [ none ↦ none | some (ret, w') ↦ some (pos 0, w') ]
    ]
  ]
