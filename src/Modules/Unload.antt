-- ===== src/Modules/Unload.antt =====
-- Unloading a module.
use microblx.Base.{ℕ, ◌-◌, ◌≡◌, refl, none, some, if◌then◌else◌, ◌==◌}
use microblx.Store.{CStr, World, update}
use microblx.Store.Strings.{str_eq}
use microblx.Store.Hash.{Uthash}
use microblx.Store.Tables.{IsTable, find-del}
use microblx.Modules.{
  Module, ModuleHooks, Loaded, close_module, put_modules, module_get, module_cleanup, module_close,
  module_unload,
}

module _ {T : Type 0} where
  -- Cleanup functions that leave the table of modules alone.
  abbrev pub KeepsTable : ModuleHooks T → Type 0
  KeepsTable hooks = (f : ℕ) (w : World T) → (hooks.cleanup f w).node.modules ≡ w.node.modules

module _ {T : Type 0} ⦃u : Uthash T⦄ where
  -- What is left when a module is closed.
  abbrev pub closed : ℕ → Loaded T → Loaded T
  closed p l = close_module (record l {
    world = put_modules (u.del p l.world.node.modules) l.world;
    modules = update l.modules p none;
  })

  module _ (hooks : ModuleHooks T) where
    pub module_cleanup_lem :
        (lib : CStr) (p : ℕ) (m : Module) (l : Loaded T)
        → u.find lib l.world.node.modules ≡ some p
        → l.modules p ≡ some m
        → module_cleanup hooks lib l ≡ some (record l { world = hooks.cleanup m.cleanup l.world })
    unfolding module_cleanup
    module_cleanup_lem lib p m l found at = rw (module_cleanup, found, at) refl

    pub module_close_lem :
        (lib : CStr) (p : ℕ) (m : Module) (l : Loaded T)
        → u.find lib l.world.node.modules ≡ some p
        → l.modules p ≡ some m
        → module_close hooks lib l ≡ some (closed p l)
    unfolding module_close
    module_close_lem lib p m l found at = rw (module_close, found, at) refl

    -- Unloading a module that stands in the table and is allocated, with a cleanup function that
    -- leaves the table of modules alone, returns: one handle fewer is open, the struct is freed
    -- and no other one is, the name is not found any more and every other name as before.
    pub module_unload_lem :
        (lib : CStr) (p : ℕ) (m : Module) (l : Loaded T)
        → KeepsTable hooks
        → IsTable (u.items l.world.node.modules)
        → module_get l.world lib ≡ some p
        → l.modules p ≡ some m
        → (k : Loaded T) × (module_unload hooks lib l ≡ some k)
          × (k.opened ≡ l.opened - 1)
          × ((x : ℕ) → k.modules x ≡ (if p == x then none else l.modules x))
          × ((other : CStr)
              → module_get k.world other
                ≡ (if str_eq lib other then none else module_get l.world other))
    unfolding module_unload module_get
    module_unload_lem lib p m l keeps table found at =
        let w = hooks.cleanup m.cleanup l.world in
        let l1 = record l { world = w } in
        let same = keeps m.cleanup l.world in
        let found1 : u.find lib w.node.modules ≡ some p = rw same found in
        (
          closed p l1,
          rw (module_unload, module_cleanup_lem lib p m l found at)
              (module_close_lem lib p m l1 found1 at),
          refl,
          λ x. refl,
          λ other. rw same (find-del lib other p l.world.node.modules table found),
        )
