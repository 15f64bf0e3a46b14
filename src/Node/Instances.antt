-- ===== src/Node/Instances.antt =====
-- The loop of ubx_node_clear that removes the instances.
use microblx.Base.{
  ℕ, ◌≡◌, refl, sym, ap, ◌∙◌, subst, true, false, Option, none, some, List, [], ◌∷◌, ◌++◌, arith,
  if◌then◌else◌, is_some, inl, inr, Option-cases, append_assoc, append-snoc, occurs-append,
}
use microblx.Base.Int.{pos}
use microblx.Store.{Block, UbxData, preinit, World, update, free}
use microblx.Store.Hash.{Uthash, Item}
use microblx.Store.Tables.{has_ptr, IsTable, without-IsTable}
use microblx.Config.{free_doc}
use microblx.Lifecycle.{same_state}
use microblx.Data.Refs.{Refs, Refs-occurs}
use microblx.Blocks.{block_rm}
use microblx.Blocks.Release.{config_values, free_configs-Refs, datas-free_doc, datas-free_ports}
use microblx.Blocks.Removal.{unregister_lem, freed_world, unnamed_world}
use microblx.Node.{rm_instances}
use microblx.Node.Table.{IsTable-tail, lookup-middle, without-middle}

-- A block with its address.
abbrev pub Entry : Type 0
Entry = ℕ × Block

abbrev pub items_of : List Entry → List Item
items_of [] = []
items_of ((b, blk) ∷ es) = (blk.name, b) ∷ items_of es

-- The blocks that are prototypes.
abbrev pub prototypes : List Entry → List Entry
prototypes [] = []
prototypes ((b, blk) ∷ es) =
    if is_some blk.prototype then prototypes es else (b, blk) ∷ prototypes es

-- The blocks that are not.
abbrev pub instances : List Entry → List Entry
instances [] = []
instances ((b, blk) ∷ es) = if is_some blk.prototype then (b, blk) ∷ instances es else instances es

-- The values that the configs of the blocks hold.
abbrev pub values_of : List Entry → List ℕ
values_of [] = []
values_of ((b, blk) ∷ es) = config_values blk.configs ++ values_of es

-- The entries are the blocks' structs, all of them in state preinit.
abbrev pub Idle : (ℕ → Option Block) → List Entry → Type 0
Idle blocks [] = Unit
Idle blocks ((b, blk) ∷ es) =
    (blocks b ≡ some blk) × (same_state blk.block_state preinit ≡ true) × Idle blocks es

Idle-update :
    (b : ℕ) (blocks : ℕ → Option Block) (es : List Entry)
    → has_ptr b (items_of es) ≡ false
    → Idle blocks es
    → Idle (update blocks b none) es
unfolding has_ptr
Idle-update b blocks [] away idle = tt
Idle-update b blocks ((c, blk) ∷ es) away idle =
    (ground (arith, idle.0), idle.1, Idle-update b blocks es (ground arith) idle.2)

-- The values of one block change places with those of the rest.
values-swap :
    (datas : ℕ → Option UbxData) (xs ys zs : List ℕ)
    → Refs datas ((xs ++ ys) ++ zs)
    → Refs datas (ys ++ (xs ++ zs))
values-swap datas xs ys zs = Refs-occurs datas ((xs ++ ys) ++ zs) (ys ++ (xs ++ zs)) (λ p. omega (
  arith,
  occurs-append p (xs ++ ys) zs,
  occurs-append p xs ys,
  occurs-append p ys (xs ++ zs),
  occurs-append p xs zs,
))

values-unswap :
    (datas : ℕ → Option UbxData) (xs ys zs : List ℕ)
    → Refs datas (ys ++ (xs ++ zs))
    → Refs datas ((xs ++ ys) ++ zs)
values-unswap datas xs ys zs = Refs-occurs datas (ys ++ (xs ++ zs)) ((xs ++ ys) ++ zs) (λ p. omega (
  arith,
  occurs-append p (xs ++ ys) zs,
  occurs-append p xs ys,
  occurs-append p ys (xs ++ zs),
  occurs-append p xs zs,
))

pub instances_away :
    (b : ℕ) (es : List Entry)
    → has_ptr b (items_of es) ≡ false
    → has_ptr b (items_of (instances es)) ≡ false
unfolding has_ptr
instances_away b [] away = refl
instances_away b ((c, blk) ∷ es) away = ground (arith, instances_away b es)

module _ {T : Type 0} ⦃u : Uthash T⦄ where
  -- What the loop that removes the instances leaves: the prototypes, after the elements that were
  -- gone through before.
  abbrev pub Removed : List Item → List Entry → List ℕ → World T → Type 0
  Removed done es held w =
      (w' : World T) × (rm_instances (items_of es) w ≡ some w')
      × (u.items w'.node.blocks ≡ done ++ items_of (prototypes es))
      × ((x : ℕ) → w'.blocks x ≡ (if has_ptr x (items_of (instances es)) then none else w.blocks x))
      × Idle w'.blocks (prototypes es)
      × Refs w'.heap.datas (values_of (prototypes es) ++ held)

  -- A prototype is passed over.
  prototype-Removed :
      (done : List Item) (b : ℕ) (blk : Block) (es : List Entry) (held : List ℕ) (w : World T)
      → w.blocks b ≡ some blk
      → blk.prototype ≡ none
      → same_state blk.block_state preinit ≡ true
      → has_ptr b (items_of es) ≡ false
      → Removed (done ++ (blk.name, b) ∷ []) es (config_values blk.configs ++ held) w
      → Removed done ((b, blk) ∷ es) held w
  unfolding rm_instances
  prototype-Removed done b blk es held w at e idle away (w', run, table, blocks, kept, refs) = (
    w',
    ground arith,
    rw e (table ∙ append-snoc done (blk.name, b) (items_of (prototypes es))),
    rw e blocks,
    rw e (ground (arith, blocks b, instances_away b es away, at), idle, kept),
    rw e (
        values-unswap w'.heap.datas (config_values blk.configs) (values_of (prototypes es)) held
          refs),
  )

  -- An instance is removed.
  instance-Removed :
      (done : List Item) (b : ℕ) (blk : Block) (es : List Entry) (held : List ℕ) (w w1 : World T)
      (p : ℕ)
      → w.blocks b ≡ some blk
      → blk.prototype ≡ some p
      → same_state blk.block_state preinit ≡ true
      → block_rm (some blk.name) w ≡ some (pos 0, w1)
      → w1.blocks ≡ update w.blocks b none
      → Removed done es held w1
      → Removed done ((b, blk) ∷ es) held w
  unfolding rm_instances has_ptr
  instance-Removed done b blk es held w w1 p at e idle out gone
        (w', run, table, blocks, kept, refs) =
      (
        w',
        rw (rm_instances, at, idle, e, out) run,
        rw e table,
        rw e (λ x. ground (arith, blocks x, ap (λ g. g x) gone)),
        rw e kept,
        rw e refs,
      )

  -- An instance in state preinit can be removed.
  block_rm-idle :
      (done : List Item) (b : ℕ) (blk : Block) (es : List Entry) (held : List ℕ) (w : World T)
      (p : ℕ)
      → u.items w.node.blocks ≡ done ++ (blk.name, b) ∷ items_of es
      → IsTable (done ++ (blk.name, b) ∷ items_of es)
      → w.blocks b ≡ some blk
      → blk.prototype ≡ some p
      → same_state blk.block_state preinit ≡ true
      → Refs w.heap.datas (config_values blk.configs ++ held)
      → (w1 : World T) × (block_rm (some blk.name) w ≡ some (pos 0, w1))
        × (w1.blocks ≡ update w.blocks b none)
        × (u.items w1.node.blocks ≡ done ++ items_of es)
        × Refs w1.heap.datas held
  unfolding block_rm free
  block_rm-idle done b blk es held w p items table at e idle refs =
      let found : u.find blk.name w.node.blocks ≡ some b =
        u.find_items blk.name w.node.blocks
        ∙ rw items (lookup-middle blk.name b done (items_of es) table) in
      let undocumented =
        subst (λ d. Refs d (config_values blk.configs ++ held))
          (sym (datas-free_doc blk.meta_data w.heap)) refs in
      let (k, freed, left) =
        free_configs-Refs blk.configs held (free_doc blk.meta_data w.heap) undocumented in
      let w1 = freed_world b blk k (unnamed_world b w) in
      let out = unregister_lem blk.name b blk k w found at freed in
      (
        w1,
        ground arith,
        refl,
        u.items_del b w.node.blocks ∙ rw items (without-middle blk.name b done (items_of es) table),
        subst (λ d. Refs d held) (sym (datas-free_ports blk.ports k)) left,
      )

  pub rm_instances-Removed :
      (es : List Entry) (done : List Item) (held : List ℕ) (w : World T)
      → u.items w.node.blocks ≡ done ++ items_of es
      → IsTable (done ++ items_of es)
      → Idle w.blocks es
      → Refs w.heap.datas (values_of es ++ held)
      → Removed done es held w
  unfolding rm_instances has_ptr
  rm_instances-Removed [] done held w items table idle refs = (w, refl, items, λ x. refl, tt, refs)
  rm_instances-Removed ((b, blk) ∷ es) done held w items table idle refs =
      let values = config_values blk.configs in
      let snoc = append-snoc done (blk.name, b) (items_of es) in
      let away = (IsTable-tail done ((blk.name, b) ∷ items_of es) table).1 in
      elim (Option-cases blk.prototype) [
        | inl e ↦
            let rest =
              rm_instances-Removed es (done ++ (blk.name, b) ∷ []) (values ++ held) w
                (items ∙ sym snoc) (subst IsTable (sym snoc) table) idle.2
                (values-swap w.heap.datas values (values_of es) held refs) in
            prototype-Removed done b blk es held w idle.0 e idle.1 away rest
        | inr (p, e) ↦
            let split = subst (Refs w.heap.datas) (append_assoc values (values_of es) held) refs in
            let (w1, out, gone, items1, left) =
              block_rm-idle done b blk es (values_of es ++ held) w p items table idle.0 e idle.1
                split in
            let table1 =
              subst IsTable (without-middle blk.name b done (items_of es) table)
                (without-IsTable b (done ++ (blk.name, b) ∷ items_of es) table) in
            let idle1 = subst (λ g. Idle g es) (sym gone) (Idle-update b w.blocks es away idle.2) in
            instance-Removed done b blk es held w w1 p idle.0 e idle.1 out gone
              (rm_instances-Removed es done held w1 items1 table1 idle1 left)
      ]
