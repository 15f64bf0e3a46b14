-- ===== src/Blocks/Prototype.antt =====
-- ubx_block_register: a prototype block from its static description (libubx/ubx.h).
use microblx.Base.{ℕ, suc, not, Option, none, some, List, [], ◌∷◌, length, take, ltb, if◌then◌else◌}
use microblx.Base.Int.{ℤ, pos, eqb_ℤ}
use microblx.Store.{CStr, Block, BlockType, preinit, Heap, World, alloc, free}
use microblx.Store.Hash.{Uthash}
use microblx.Store.Errors.{eoutofmem, einvalid_block}
use microblx.Config.{config_add2}
use microblx.Port.{port_add}
use microblx.Connect.{is_interaction}
use microblx.Lifecycle.{is_computation}
use microblx.Blocks.{block_name_maxlen, or_cloned, place, free_and, enter_block}

-- `struct ubx_proto_port`, `struct ubx_proto_config` and `struct ubx_proto_block`: arrays that end
-- in a zeroed struct are lists, or `none` for NULL.
pub record ProtoPort : Type 0 where
  pub name : CStr
  pub doc : Option CStr
  pub attrs : ℕ
  pub in_type_name : Option CStr
  pub in_data_len : ℤ
  pub out_type_name : Option CStr
  pub out_data_len : ℤ

pub record ProtoConfig : Type 0 where
  pub name : CStr
  pub doc : Option CStr
  pub type_name : CStr
  pub min : ℕ
  pub max : ℕ
  pub attrs : ℕ

pub record ProtoBlock : Type 0 where
  pub name : CStr
  pub meta_data : Option CStr
  pub attrs : ℕ
  pub type : BlockType
  pub ports : Option (List ProtoPort)
  pub configs : Option (List ProtoConfig)
  pub init : Option ℕ
  pub start : Option ℕ
  pub stop : Option ℕ
  pub cleanup : Option ℕ
  pub step : Option ℕ
  pub read : Option ℕ
  pub write : Option ℕ

abbrev pub Registered : Type 0
Registered = ℤ × Option Block × Heap

unfoldable pub register_ports :
    (CStr → Option ℕ) → List ProtoPort → Option Block → Heap → Registered
register_ports type_get [] b h = (pos 0, b, h)
register_ports type_get (p ∷ ps) b h =
    let (ret, b', h') =
      port_add type_get b p.name p.doc (or_cloned p.attrs) p.in_type_name p.in_data_len
        p.out_type_name p.out_data_len h in
    let rest = register_ports type_get ps b' h' in if eqb_ℤ ret (pos 0) then rest else (ret, b', h')

unfoldable pub register_configs :
    (CStr → Option ℕ) → List ProtoConfig → Option Block → Heap → Registered
register_configs type_get [] b h = (pos 0, b, h)
register_configs type_get (c ∷ cs) b h =
    let (ret, b', h') =
      config_add2 type_get b (some c.name) c.doc c.type_name c.min c.max (or_cloned c.attrs) h in
    let rest = register_configs type_get cs b' h' in
    if eqb_ℤ ret (pos 0) then rest else (ret, b', h')

abbrev list_of : {A : Type 0} → Option (List A) → List A
list_of none = []
list_of (some xs) = xs

-- `if (meta_data) strdup(meta_data)`, whose result may be NULL.
abbrev dup_meta : Option CStr → Heap → Option CStr × Heap
dup_meta none h = (none, h)
dup_meta (some m) h = let (got, h') = alloc h in (if got then some m else none, h')

-- The zeroed struct with what is copied from the static description.
abbrev pub prototype_new : ProtoBlock → Option CStr → Block
prototype_new p meta = record {
  name = take block_name_maxlen p.name;
  meta_data = meta;
  attrs = p.attrs;
  type = p.type;
  block_state = preinit;
  ports = [];
  configs = [];
  prototype = none;
  loglevel = none;
  init = p.init;
  start = p.start;
  stop = p.stop;
  cleanup = p.cleanup;
  step = if is_computation p.type then p.step else none;
  read = if is_interaction p.type then p.read else none;
  write = if is_interaction p.type then p.write else none;
  stat_num_steps = 0;
  stat_num_reads = 0;
  stat_num_writes = 0;
}

-- The ports and then the configs of a description, added to a block.
unfoldable pub register_parts : (CStr → Option ℕ) → ProtoBlock → Block → Heap → Registered
register_parts type_get p b h =
    let (ret, b', h') = register_ports type_get (list_of p.ports) (some b) h in
    if eqb_ℤ ret (pos 0) then register_configs type_get (list_of p.configs) b' h' else (ret, b', h')

module _ {T : Type 0} ⦃u : Uthash T⦄ where
  -- The block with its parts, entered in the node or freed again.
  abbrev finish_register : Registered → World T → Option (ℤ × World T)
  finish_register (ret, none, h) w = none
  finish_register (ret, some blk, h) w =
      if eqb_ℤ ret (pos 0)
      then enter_block w.heap.next (place blk h w)
      else free_and w.heap.next (place blk h w) ret

  -- `ubx_block_register`
  unfoldable pub block_register : ProtoBlock → World T → Option (ℤ × World T)
  block_register p w =
      let (got, h) = alloc w.heap in
      let h1 = record h { next = suc h.next } in
      let (meta, h2) = dup_meta p.meta_data h1 in
      let parts = register_parts (λ n. u.find n w.node.types) p (prototype_new p meta) h2 in
      if not got
      then some (eoutofmem, record w { heap = h })
      else if ltb block_name_maxlen (length p.name)
      then some (einvalid_block, record w { heap = free h1 })
      else finish_register parts w
