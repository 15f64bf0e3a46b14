-- ===== src/Modules/Load.antt =====
-- Loading a module: what every branch of ubx_module_load leaves.
use microblx.Base.{
  ℕ, suc, ◌+◌, ◌≡◌, refl, ◌∙◌, false, none, some, arith, inl, inr, ◌⊎◌, Bool-cases, Option-cases,
  if◌then◌else◌,
}
use microblx.Base.Int.{ℤ, pos, negsuc, eqb_ℤ}
use microblx.Store.{CStr, World, alloc, free}
use microblx.Store.Strings.{str_eq}
use microblx.Store.Hash.{Uthash}
use microblx.Store.Tables.{find-add}
use microblx.Store.Memory.{alloc-live}
use microblx.Modules.{
  Module, Linker, Symbols, ModuleHooks, Loaded, put_heap, free_module, close_module, module_get,
  enter_module, open_module, module_load,
}

module _ {T : Type 0} where
  -- Init functions that leave the table of modules alone, and give back what they have allocated if
  -- they fail.
  pub record Tidy (hooks : ModuleHooks T) : Type 0 where
    pub same_table : (f : ℕ) (w : World T) → (hooks.init f w).1.node.modules ≡ w.node.modules
    pub given_back :
        (f : ℕ) (w : World T)
        → eqb_ℤ (hooks.init f w).0 (pos 0) ≡ false
        → (hooks.init f w).1.heap.live ≡ w.heap.live

  -- Nothing is left of the call.
  pub record Refused (l : Loaded T) (out : ℤ × Loaded T) : Type 0 where
    pub code : out.0 ≡ negsuc 0
    pub table : out.1.world.node.modules ≡ l.world.node.modules
    pub structs : out.1.modules ≡ l.modules
    pub handles : out.1.opened ≡ l.opened
    pub memory : out.1.world.heap.live ≡ l.world.heap.live

  -- While a module is loaded: its struct and its name are allocated, and `n` handles are open.
  record Underway (l k : Loaded T) (n : ℕ) : Type 0 where
    table : k.world.node.modules ≡ l.world.node.modules
    structs : k.modules ≡ l.modules
    handles : k.opened ≡ l.opened + n
    memory : k.world.heap.live ≡ l.world.heap.live + 2

  free_module-Refused : (l k : Loaded T) → Underway l k 0 → Refused l (negsuc 0, free_module k)
  unfolding free
  free_module-Refused l k u = record {
    code = refl;
    table = u.table;
    structs = u.structs;
    handles = omega (arith, u.handles);
    memory = omega (arith, u.memory);
  }

  close_module-Refused : (l k : Loaded T) → Underway l k 1 → Refused l (negsuc 0, close_module k)
  unfolding free
  close_module-Refused l k u = record {
    code = refl;
    table = u.table;
    structs = u.structs;
    handles = omega (arith, u.handles);
    memory = omega (arith, u.memory);
  }

module _ {T : Type 0} ⦃u : Uthash T⦄ where
  -- The module stands in the table under its name, and one more handle is open.
  pub record Entered (lib : CStr) (l : Loaded T) (out : ℤ × Loaded T) : Type 0 where
    pub code : out.0 ≡ pos 0
    pub address : ℕ
    pub struct : Module
    pub named : struct.id ≡ lib
    pub stored : out.1.modules address ≡ some struct
    pub handles : out.1.opened ≡ l.opened + 1
    pub found :
        (other : CStr)
        → module_get out.1.world other
          ≡ (if str_eq lib other then some address else module_get l.world other)

  module _ (linker : Linker) (symbols : Symbols) (hooks : ModuleHooks T) (tidy : Tidy hooks) where
    abbrev Outcome : CStr → Loaded T → ℤ × Loaded T → Type 0
    Outcome lib l out = Refused l out ⊎ Entered lib l out

    unnamed :
        (m : Module) (k l : Loaded T) (w : World T)
        → w.node.modules ≡ k.world.node.modules
        → Underway l k 1
        → module_get l.world m.id ≡ none
        → u.find m.id w.node.modules ≡ none
    unfolding module_get
    unnamed m k l w same way new = rw (same, way.table) new

    elsewhere :
        (id other : CStr) (p : ℕ) (w : World T) (k l : Loaded T)
        → w.node.modules ≡ k.world.node.modules
        → Underway l k 1
        → (if str_eq id other then some p else u.find other w.node.modules)
          ≡ (if str_eq id other then some p else module_get l.world other)
    unfolding module_get
    elsewhere id other p w k l same way = rw (same, way.table) refl

    enter_lem :
        (p : ℕ) (m : Module) (l k : Loaded T)
        → Underway l k 1
        → module_get l.world m.id ≡ none
        → Outcome m.id l (enter_module linker symbols hooks p m k)
    unfolding enter_module module_get
    enter_lem p m l k way new =
        let w = (hooks.init m.init k.world).1 in
        let same = tidy.same_table m.init k.world in
        elim (Bool-cases (eqb_ℤ (hooks.init m.init k.world).0 (pos 0))) [
          | inr failed ↦
              rw (enter_module, failed)
                (inl (
                  close_module-Refused l (record k { world = w })
                    (record {
                      table = same ∙ way.table;
                      structs = way.structs;
                      handles = way.handles;
                      memory = tidy.given_back m.init k.world failed ∙ way.memory;
                    })))
          | inl ok ↦
              rw (enter_module, ok)
                (inr (record {
                  code = refl;
                  address = p;
                  struct = m;
                  named = refl;
                  stored = ground arith;
                  handles = way.handles;
                  found = λ other.
                      find-add m.id other p w.node.modules (unnamed m k l w same way new)
                      ∙ elsewhere m.id other p w k l same way;
                }))
        ]

    open_lem :
        (p : ℕ) (lib : CStr) (l k : Loaded T)
        → Underway l k 0
        → module_get l.world lib ≡ none
        → Outcome lib l (open_module linker symbols hooks p lib k)
    unfolding open_module
    open_lem p lib l k way new =
        let more : Underway l (record k { opened = k.opened + 1 }) 1 = record {
          table = way.table;
          structs = way.structs;
          handles = omega (arith, way.handles);
          memory = way.memory;
        } in
        let closed = inl (close_module-Refused l (record k { opened = k.opened + 1 }) more) in
        elim (Option-cases (linker.dlopen lib)) [
          | inl e ↦ rw (open_module, e) (inl (free_module-Refused l k way))
          | inr (handle, e) ↦ elim (Option-cases (linker.dlsym handle symbols.initialize)) [
            | inl f ↦ rw (open_module, e, f) closed
            | inr (init, f) ↦ elim (Option-cases (linker.dlsym handle symbols.cleanup)) [
              | inl g ↦ rw (open_module, e, f, g) closed
              | inr (cleanup, g) ↦
                  rw (open_module, e, f, g)
                    (enter_lem p
                      (record { id = lib; handle = handle; init = init; cleanup = cleanup }) l
                      (record k { opened = k.opened + 1 }) more new)
            ]
          ]
        ]

    -- With init functions that leave the table of modules alone and give back what they allocated
    -- when they fail, every call of `ubx_module_load` either fails with -1 and leaves the table,
    -- the structs, the open handles and the number of allocations as they were, or returns 0 with
    -- one more open handle: the module then stands under its name, and every other name as
    -- before.
    pub module_load-Outcome :
        (lib : CStr) (l : Loaded T) → Outcome lib l (module_load linker symbols hooks lib l)
    unfolding module_load free
    module_load-Outcome lib l =
        let one = alloc-live l.world.heap in
        let h1 = (alloc l.world.heap).1 in
        let two = alloc-live (record h1 { next = suc h1.next }) in
        elim (Option-cases (module_get l.world lib)) [
          | inr (p, e) ↦
              rw (module_load, e)
                (inl (record {
                  code = refl;
                  table = refl;
                  structs = refl;
                  handles = refl;
                  memory = refl;
                }))
          | inl e ↦ elim (Bool-cases (alloc l.world.heap).0) [
            | inr f ↦
                rw (module_load, e, f)
                  (inl (record {
                    code = refl;
                    table = refl;
                    structs = refl;
                    handles = refl;
                    memory = ground (arith, one);
                  }))
            | inl f ↦ elim (Bool-cases (alloc (record h1 { next = suc h1.next })).0) [
              | inr g ↦
                  rw (module_load, e, f, g)
                    (inl (record {
                      code = refl;
                      table = refl;
                      structs = refl;
                      handles = refl;
                      memory = ground (arith, one, two);
                    }))
              | inl g ↦
                  rw (module_load, e, f, g)
                    (open_lem h1.next lib l
                      (record l {
                        world = put_heap (alloc (record h1 { next = suc h1.next })).1 l.world;
                      })
                      (record {
                        table = refl;
                        structs = refl;
                        handles = omega arith;
                        memory = ground (arith, one, two);
                      })
                      e)
            ]
          ]
        ]
