-- ===== src/Modules/Empty.antt =====
-- ubx_node_cleanup leaves no module.
use microblx.Base.{
  ℕ, ◌-◌, ◌≡◌, refl, sym, ap, ◌∙◌, subst, false, Option, none, some, List, [], ◌∷◌, ◌++◌, arith,
  if◌then◌else◌, length, append-snoc,
}
use microblx.Store.{World, update}
use microblx.Store.Hash.{Uthash, Item}
use microblx.Store.Tables.{has_ptr, IsTable}
use microblx.Lifecycle.{Hooks}
use microblx.Node.{node_clear}
use microblx.Node.Table.{lookup-middle, without-middle}
use microblx.Modules.{
  Module, ModuleHooks, Loaded, cleanup_modules, close_modules, node_cleanup, num_modules,
  reset_seqid,
}
use microblx.Modules.Unload.{KeepsTable, closed, module_cleanup_lem, module_close_lem}

-- A module with its address.
abbrev pub ModuleEntry : Type 0
ModuleEntry = ℕ × Module

abbrev pub module_items : List ModuleEntry → List Item
module_items [] = []
module_items ((p, m) ∷ ms) = (m.id, p) ∷ module_items ms

abbrev pub StoredModules : (ℕ → Option Module) → List ModuleEntry → Type 0
StoredModules modules [] = Unit
StoredModules modules ((p, m) ∷ ms) = (modules p ≡ some m) × StoredModules modules ms

StoredModules-update :
    (p : ℕ) (modules : ℕ → Option Module) (ms : List ModuleEntry)
    → has_ptr p (module_items ms) ≡ false
    → StoredModules modules ms
    → StoredModules (update modules p none) ms
unfolding has_ptr
StoredModules-update p modules [] away stored = tt
StoredModules-update p modules ((q, m) ∷ ms) away stored =
    (ground (arith, stored.0), StoredModules-update p modules ms (ground arith) stored.1)

module _ {T : Type 0} ⦃u : Uthash T⦄ (hooks : ModuleHooks T) where
  found_middle :
      (done : List Item) (p : ℕ) (m : Module) (ms : List ModuleEntry) (t : T)
      → u.items t ≡ done ++ (m.id, p) ∷ module_items ms
      → IsTable (done ++ (m.id, p) ∷ module_items ms)
      → u.find m.id t ≡ some p
  found_middle done p m ms t items table =
      u.find_items m.id t ∙ rw items (lookup-middle m.id p done (module_items ms) table)

  cleanup_modules_lem :
      (done : List Item) (ms : List ModuleEntry) (l : Loaded T)
      → KeepsTable hooks
      → u.items l.world.node.modules ≡ done ++ module_items ms
      → IsTable (done ++ module_items ms)
      → StoredModules l.modules ms
      → (k : Loaded T) × (cleanup_modules hooks (module_items ms) l ≡ some k)
        × (k.world.node.modules ≡ l.world.node.modules)
        × (k.modules ≡ l.modules)
        × (k.opened ≡ l.opened)
  unfolding cleanup_modules
  cleanup_modules_lem done [] l keeps items table stored = (l, refl, refl, refl, refl)
  cleanup_modules_lem done ((p, m) ∷ ms) l keeps items table stored =
      let found = found_middle done p m ms l.world.node.modules items table in
      let snoc = append-snoc done (m.id, p) (module_items ms) in
      let same = keeps m.cleanup l.world in
      let l1 = record l { world = hooks.cleanup m.cleanup l.world } in
      let (k, run, t, s, o) =
        cleanup_modules_lem (done ++ (m.id, p) ∷ []) ms l1 keeps
          (ap u.items same ∙ items ∙ sym snoc) (subst IsTable (sym snoc) table) stored.1 in
      (
        k,
        rw (cleanup_modules, stored.0, module_cleanup_lem hooks m.id p m l found stored.0) run,
        t ∙ same,
        s,
        o,
      )

  close_modules_lem :
      (ms : List ModuleEntry) (l : Loaded T)
      → u.items l.world.node.modules ≡ module_items ms
      → IsTable (module_items ms)
      → StoredModules l.modules ms
      → (k : Loaded T) × (close_modules hooks (module_items ms) l ≡ some k)
        × (u.items k.world.node.modules ≡ [])
        × ((x : ℕ) → k.modules x ≡ (if has_ptr x (module_items ms) then none else l.modules x))
        × (k.opened ≡ l.opened - length ms)
  unfolding close_modules has_ptr
  close_modules_lem [] l items table stored = (l, refl, items, λ x. refl, omega arith)
  close_modules_lem ((p, m) ∷ ms) l items table stored =
      let found = found_middle [] p m ms l.world.node.modules items table in
      let items1 =
        u.items_del p l.world.node.modules
        ∙ rw items (without-middle m.id p [] (module_items ms) table) in
      let stored1 = StoredModules-update p l.modules ms table.1 stored.1 in
      let (k, run, empty, gone, o) = close_modules_lem ms (closed p l) items1 table.2 stored1 in
      (
        k,
        rw (close_modules, stored.0, module_close_lem hooks m.id p m l found stored.0) run,
        empty,
        λ x. ground (arith, gone x),
        omega (arith, o),
      )

  -- Where `ubx_node_clear` returns, on a node whose table of modules has distinct names and
  -- addresses, all of them of allocated modules, and whose modules' cleanup functions leave that
  -- table alone, `ubx_node_cleanup` returns: no module is left, their structs are freed and no
  -- others, as many handles are closed as there were modules, and sequence numbers start at 0
  -- again.
  pub node_cleanup_lem :
      (blocks : Hooks T) (ms : List ModuleEntry) (l : Loaded T) (w : World T)
      → KeepsTable hooks
      → node_clear blocks l.world ≡ some w
      → u.items w.node.modules ≡ module_items ms
      → IsTable (module_items ms)
      → StoredModules l.modules ms
      → (k : Loaded T) × (node_cleanup hooks blocks l ≡ some k)
        × (num_modules k.world ≡ 0)
        × ((x : ℕ) → k.modules x ≡ (if has_ptr x (module_items ms) then none else l.modules x))
        × (k.opened ≡ l.opened - length ms)
        × (k.world.node.cur_seqid ≡ 0)
  unfolding node_cleanup num_modules
  node_cleanup_lem blocks ms l w keeps clear items table stored =
      let (l1, run1, t1, s1, o1) =
        cleanup_modules_lem [] ms (record l { world = w }) keeps items table stored in
      let items1 : u.items l1.world.node.modules ≡ module_items ms = ap u.items t1 ∙ items in
      let stored1 = subst (λ f. StoredModules f ms) (sym s1) stored in
      let (l2, run2, empty, gone, o2) = close_modules_lem ms l1 items1 table stored1 in
      (
        reset_seqid l2,
        rw (node_cleanup, clear, items, run1, items1, run2) refl,
        u.count_items l2.world.node.modules ∙ ap length empty,
        λ x. gone x ∙ ap (λ f. if has_ptr x (module_items ms) then none else f x) s1,
        omega (arith, o1, o2),
        refl,
      )
