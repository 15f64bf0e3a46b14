-- ===== src/Blocks/Create.antt =====
-- Cloning a prototype, and entering the clone in the node.
use microblx.Base.{
  subst, ℕ, suc, ◌+◌, ◌≤◌, ◌≡◌, refl, ◌∙◌, ap, none, some, List, [], ◌∷◌, ◌++◌, arith,
  if◌then◌else◌, ◌==◌, All, length, take,
}
use microblx.Base.Int.{pos, negsuc}
use microblx.Store.{free, CStr, Block, Config, Port, Heap, World, update, alloc}
use microblx.Store.Strings.{str_eq, take_short}
use microblx.Store.Named.{find_named}
use microblx.Store.Hash.{Uthash}
use microblx.Store.Tables.{find-add}
use microblx.Config.{free_doc, config_find}
use microblx.Config.Add.{ConfigsValid}
use microblx.Lifecycle.{is_computation}
use microblx.Connect.{is_interaction}
use microblx.Port.{port_find}
use microblx.Port.Add.{PortsValid}
use microblx.Store.{preinit}
use microblx.Blocks.{
  free_and, free_ports, free_configs, block_name_maxlen, clone_configs, clone_parts, block_clone,
  block_create, block_get, block_free, enter_block, enter_clone, block_new, place, block_check,
}
use microblx.Blocks.Copies.{CopiesOf, PortCopies, clone_configs-CopiesOf, clone_ports-PortCopies}

no_configs : (cs : List Config) → All (λ c. config_find c.name [] ≡ none) cs
unfolding find_named
no_configs [] = tt
no_configs (c ∷ cs) = (refl, no_configs cs)

no_ports : (ps : List Port) → All (λ p. port_find p.name [] ≡ none) ps
unfolding find_named
no_ports [] = tt
no_ports (p ∷ ps) = (refl, no_ports ps)

-- The struct that `ubx_block_clone` fills, with the copies of the configs and ports.
record Parts (prot : ℕ) (p : Block) (name : CStr) (blk : Block) : Type 0 where
  pub xs : List Config
  pub ys : List Port
  pub configs : CopiesOf p.configs xs
  pub ports : PortCopies p.ports ys
  pub rest : blk ≡ record (block_new prot p name) { configs = xs; ports = ys }

-- A block made from prototype `p` at address `prot`.
pub record Cloned (prot : ℕ) (p : Block) (name : CStr) (blk : Block) : Type 0 where
  pub named : blk.name ≡ name
  pub idle : blk.block_state ≡ preinit
  pub made_from : blk.prototype ≡ some prot
  pub same_type : (blk.type ≡ p.type) × (blk.attrs ≡ p.attrs)
  pub same_life :
      (blk.init ≡ p.init) × (blk.start ≡ p.start) × (blk.stop ≡ p.stop) × (blk.cleanup ≡ p.cleanup)
  pub same_step : blk.step ≡ (if is_computation p.type then p.step else none)
  pub same_io :
      (blk.read ≡ (if is_interaction p.type then p.read else none))
      × (blk.write ≡ (if is_interaction p.type then p.write else none))
  pub uncounted : (blk.stat_num_steps ≡ 0) × (blk.stat_num_reads ≡ 0) × (blk.stat_num_writes ≡ 0)
  pub configs : CopiesOf p.configs blk.configs
  pub ports : PortCopies p.ports blk.ports

Cloned-Parts :
    (prot : ℕ) (p : Block) (name : CStr) (blk : Block)
    → Parts prot p name blk
    → take block_name_maxlen name ≡ name
    → Cloned prot p name blk
Cloned-Parts prot p name blk parts whole = rw parts.rest (record {
  named = whole;
  idle = refl;
  made_from = refl;
  same_type = (refl, refl);
  same_life = (refl, refl, refl, refl);
  same_step = refl;
  same_io = (refl, refl);
  uncounted = (refl, refl, refl);
  configs = parts.configs;
  ports = parts.ports;
})

clone_parts-Parts :
    (prot : ℕ) (p : Block) (name : CStr) (h : Heap)
    → h.outcomes ≡ []
    → ConfigsValid p.configs
    → PortsValid p.ports
    → ((clone_parts p (block_new prot p name) h).0 ≡ pos 0)
      × Parts prot p name (clone_parts p (block_new prot p name) h).1
unfolding clone_parts
clone_parts-Parts prot p name h plenty configs ports =
    let b = block_new prot p name in
    let (xs, copies, ok, block, left) =
      clone_configs-CopiesOf p.configs b h plenty configs.each configs.distinct
        (no_configs p.configs) in
    let r = clone_configs p.configs b h in
    let none_yet : All (λ q. port_find q.name r.1.ports ≡ none) p.ports =
      rw block (no_ports p.ports) in
    let (ys, port_copies, ok', block', left') =
      clone_ports-PortCopies p.ports r.1 r.2 left ports.each ports.distinct none_yet in
    (
      rw ok ok',
      record {
        xs = xs;
        ys = ys;
        configs = copies;
        ports = port_copies;
        rest = rw ok block' ∙ ap {A = Block} (λ k. record k { ports = k.ports ++ ys }) block;
      },
    )

no_copies : (xs : List Config) → CopiesOf [] xs → xs ≡ []
no_copies [] h = refl
no_copies (x ∷ xs) h = absurd h

module _ {T : Type 0} ⦃u : Uthash T⦄ where
  -- A valid prototype: allocated, of a block type, with valid configs and ports.
  pub record IsPrototype (w : World T) (prot : ℕ) (p : Block) : Type 0 where
    pub found : w.blocks prot ≡ some p
    pub typed : block_check p ≡ pos 0
    pub configs : ConfigsValid p.configs
    pub ports : PortsValid p.ports

  -- With memory, a valid prototype is cloned at the next address.
  block_clone-Parts :
      (prot : ℕ) (p : Block) (name : CStr) (w : World T)
      → w.heap.outcomes ≡ []
      → IsPrototype w prot p
      → (blk : Block) × (h : Heap) × (block_clone prot name w
          ≡ some (some w.heap.next, place blk h w))
        × Parts prot p name blk
  unfolding block_clone alloc
  block_clone-Parts prot p name w plenty valid =
      let h1 = record (w.heap) { outcomes = []; live = w.heap.live + 1; next = suc w.heap.next } in
      let (ok, cloned) = clone_parts-Parts prot p name h1 refl valid.configs valid.ports in
      let r = clone_parts p (block_new prot p name) h1 in
      (r.1, r.2, rw (valid.found, block_clone, plenty, ok) refl, cloned)

  -- What a call that creates block `b` leaves.
  pub record Created (prot : ℕ) (p : Block) (name : CStr) (b : ℕ) (w w' : World T) : Type 0 where
    pub blk : Block
    pub cloned : Cloned prot p name blk
    pub blocks : (x : ℕ) → w'.blocks x ≡ (if b == x then some blk else w.blocks x)
    pub names :
        (other : CStr)
        → block_get w' (some other)
          ≡ (if str_eq name other then some b else block_get w (some other))

  -- With memory, a block of a valid prototype that is created under a new name of at most 63
  -- bytes is a copy of the prototype under that name: in state preinit, with its hooks, and with
  -- copies of its configs and ports, and with no steps, reads or writes counted. It is found
  -- under its name, and every other name and block is left as it was.
  pub block_create-Created :
      (type name : CStr) (prot : ℕ) (p : Block) (w : World T)
      → w.heap.outcomes ≡ []
      → block_get w (some type) ≡ some prot
      → IsPrototype w prot p
      → block_get w (some name) ≡ none
      → length name ≤ block_name_maxlen
      → (w' : World T) × (block_create type (some name) w ≡ some (some w.heap.next, w'))
        × Created prot p name w.heap.next w w'
  unfolding block_create block_get enter_clone enter_block block_check
  block_create-Created type name prot p w plenty found valid fresh short =
      let (blk, h, cloned_ok, cloned) = block_clone-Parts prot p name w plenty valid in
      let whole : take block_name_maxlen name ≡ name = take_short 63 name short in
      let named : blk.name ≡ name = rw cloned.rest whole in
      let typed : block_check blk ≡ pos 0 = rw cloned.rest valid.typed in
      let w1 = place blk h w in
      let here : w1.blocks w.heap.next ≡ some blk = ground arith in
      let w2 = record w1 {
        node = record (w.node) { blocks = u.add name w.heap.next w.node.blocks };
      } in
      let entered : enter_block w.heap.next w1 ≡ some (pos 0, w2) =
        rw (here, enter_block, typed, named, fresh) refl in
      (
        w2,
        rw (found, block_create, fresh, cloned_ok, enter_clone, entered) refl,
        record {
          blk = blk;
          cloned = Cloned-Parts prot p name blk cloned whole;
          blocks = λ x. ground arith;
          names = λ other. find-add name other w.heap.next w.node.blocks fresh;
        },
      )

  -- With memory, a block of a valid prototype without configs that is created under a new name,
  -- where the first 63 bytes of that name are taken, is freed again, as it cannot be registered;
  -- the call nevertheless returns its address, at which no block is allocated any more.
  pub block_create_dangling :
      (type name : CStr) (prot other : ℕ) (p : Block) (w : World T)
      → w.heap.outcomes ≡ []
      → block_get w (some type) ≡ some prot
      → IsPrototype w prot p
      → p.configs ≡ []
      → block_get w (some name) ≡ none
      → block_get w (some (take block_name_maxlen name)) ≡ some other
      → (w' : World T) × (block_create type (some name) w ≡ some (some w.heap.next, w'))
        × (w'.blocks w.heap.next ≡ none)
  unfolding block_create block_get enter_clone enter_block block_check block_free free_configs
  block_create_dangling type name prot other p w plenty found valid bare fresh taken =
      let (blk, h, cloned_ok, cloned) = block_clone-Parts prot p name w plenty valid in
      let typed : block_check blk ≡ pos 0 = rw cloned.rest valid.typed in
      let named : blk.name ≡ take block_name_maxlen name = rw cloned.rest refl in
      let w1 = place blk h w in
      let here : w1.blocks w.heap.next ≡ some blk = ground arith in
      let none_to_free : blk.configs ≡ [] =
        rw cloned.rest
          (no_copies cloned.xs (subst (λ cs. CopiesOf cs cloned.xs) bare cloned.configs)) in
      let refused : enter_block w.heap.next w1 ≡ some (negsuc 0, w1) =
        rw (here, enter_block, typed, named, taken) refl in
      let w2 = record w1 {
        heap = free (free_ports blk.ports (free_doc blk.meta_data h));
        blocks = update w1.blocks w.heap.next none;
      } in
      let freed : block_free w.heap.next w1 ≡ some w2 = rw (here, block_free, none_to_free) refl in
      (
        w2,
        rw (found, block_create, fresh, cloned_ok, enter_clone, refused, free_and, freed) refl,
        ground arith,
      )
