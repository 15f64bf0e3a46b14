-- ===== src/Modules.antt =====
-- The modules of a node and the node as a whole: ubx_module_load, get, unload, ubx_node_init,
-- cleanup and rm of libubx/ubx.c. The dynamic linker is a parameter, and so are the functions of
-- a module, which are called by their addresses.
pub mod Load
pub mod Unload
pub mod Empty
mod Examples
use microblx.Base.{
  ℕ, suc, ◌+◌, ◌-◌, ◌/◌, ◌%◌, Bool, true, false, not, ◌&&◌, Option, none, some, List, [], ◌∷◌, take,
  ◌==◌, if◌then◌else◌,
}
use microblx.Base.Int.{ℤ, pos, negsuc, eqb_ℤ}
use microblx.Store.{CStr, World, Heap, alloc, free, update}
use microblx.Store.Hash.{Uthash, Item}
use microblx.Lifecycle.{Hooks}
use microblx.Node.{node_clear}

-- `struct ubx_module`, without its license string.
pub record Module : Type 0 where
  pub id : CStr
  pub handle : ℕ
  pub init : ℕ
  pub cleanup : ℕ

-- dlopen, and dlsym with what dlerror reports: `none` is an error.
pub record Linker : Type 0 where
  pub dlopen : CStr → Option ℕ
  pub dlsym : ℕ → CStr → Option ℕ

-- What the functions of the modules do to the world.
pub record ModuleHooks (T : Type 0) : Type 0 where
  pub init : ℕ → World T → ℤ × World T
  pub cleanup : ℕ → World T → World T

-- The world with the structs of the modules and the number of open handles.
pub record Loaded (T : Type 0) : Type 0 where
  pub world : World T
  pub modules : ℕ → Option Module
  pub opened : ℕ

-- "__ubx_initialize_module" and "__ubx_cleanup_module" are known by these names.
pub record Symbols : Type 0 where
  pub initialize : CStr
  pub cleanup : CStr

module _ {T : Type 0} where
  abbrev pub put_heap : Heap → World T → World T
  put_heap h w = record w { heap = h }

  -- `nd->cur_seqid = 0`
  abbrev pub reset_seqid : Loaded T → Loaded T
  reset_seqid l = record l {
    world = record (l.world) { node = record (l.world.node) { cur_seqid = 0 } };
  }

  -- The ends of the error paths of `ubx_module_load`: dlclose, and the two calls of free.
  abbrev pub free_module : Loaded T → Loaded T
  free_module l = record l { world = put_heap (free (free l.world.heap)) l.world }

  abbrev pub close_module : Loaded T → Loaded T
  close_module l = free_module (record l { opened = l.opened - 1 })

module _ {T : Type 0} ⦃u : Uthash T⦄ where
  abbrev pub put_modules : T → World T → World T
  put_modules t w = record w { node = record (w.node) { modules = t } }

  unfoldable pub module_get : World T → CStr → Option ℕ
  module_get w lib = u.find lib w.node.modules

  unfoldable pub num_modules : World T → ℕ
  num_modules w = u.count w.node.modules

module _ {T : Type 0} ⦃u : Uthash T⦄ (linker : Linker) (symbols : Symbols)
    (hooks : ModuleHooks T) where
  -- From the module's init function on: the module is entered, or closed again.
  unfoldable pub enter_module : ℕ → Module → Loaded T → ℤ × Loaded T
  enter_module p m l =
      let (ret, w) = hooks.init m.init l.world in
      let l1 = record l { world = w } in
      if not (eqb_ℤ ret (pos 0)) then (negsuc 0, close_module l1) else (
        pos 0,
        record l1 {
          world = put_modules (u.add m.id p w.node.modules) w;
          modules = update l.modules p (some m);
        },
      )

  -- From dlopen on.
  unfoldable pub open_module : ℕ → CStr → Loaded T → ℤ × Loaded T
  open_module p lib l = elim (linker.dlopen lib) [
    | none ↦ (negsuc 0, free_module l)
    | some handle ↦
        let l1 = record l { opened = l.opened + 1 } in
        elim (linker.dlsym handle symbols.initialize) [
          | none ↦ (negsuc 0, close_module l1)
          | some init ↦ elim (linker.dlsym handle symbols.cleanup) [
            | none ↦ (negsuc 0, close_module l1)
            | some cleanup ↦
                enter_module p
                  (record { id = lib; handle = handle; init = init; cleanup = cleanup }) l1
          ]
        ]
  ]

  unfoldable pub module_load : CStr → Loaded T → ℤ × Loaded T
  module_load lib l = elim (module_get l.world lib) [
    | some p ↦ (negsuc 0, l)
    | none ↦
        let (got, h1) = alloc l.world.heap in
        let p = h1.next in
        let (duped, h2) = alloc (record h1 { next = suc p }) in
        if not got
        then (negsuc 0, record l { world = put_heap h1 l.world })
        else if not duped
        then (negsuc 0, record l { world = put_heap (free h2) l.world })
        else open_module p lib (record l { world = put_heap h2 l.world })
  ]

module _ {T : Type 0} ⦃u : Uthash T⦄ (hooks : ModuleHooks T) where
  -- `none` is a fault: the table leads to a struct that is not allocated.
  unfoldable pub module_cleanup : CStr → Loaded T → Option (Loaded T)
  module_cleanup lib l = elim (u.find lib l.world.node.modules) [
    | none ↦ some l
    | some p ↦ elim (l.modules p) [
      | none ↦ none
      | some m ↦ some (record l { world = hooks.cleanup m.cleanup l.world })
    ]
  ]

  unfoldable pub module_close : CStr → Loaded T → Option (Loaded T)
  module_close lib l = elim (u.find lib l.world.node.modules) [
    | none ↦ some l
    | some p ↦ elim (l.modules p) [
      | none ↦ none
      | some m ↦
          let unnamed = put_modules (u.del p l.world.node.modules) l.world in
          some (close_module (record l { world = unnamed; modules = update l.modules p none }))
    ]
  ]

  unfoldable pub module_unload : CStr → Loaded T → Option (Loaded T)
  module_unload lib l = elim (module_cleanup lib l) [ none ↦ none | some l1 ↦ module_close lib l1 ]

  -- The two loops of `ubx_node_cleanup` over the modules.
  unfoldable pub cleanup_modules : List Item → Loaded T → Option (Loaded T)
  cleanup_modules [] l = some l
  cleanup_modules ((key, p) ∷ rest) l = elim (l.modules p) [
    | none ↦ none
    | some m ↦ elim (module_cleanup m.id l) [ none ↦ none | some l1 ↦ cleanup_modules rest l1 ]
  ]

  unfoldable pub close_modules : List Item → Loaded T → Option (Loaded T)
  close_modules [] l = some l
  close_modules ((key, p) ∷ rest) l = elim (l.modules p) [
    | none ↦ none
    | some m ↦ elim (module_close m.id l) [ none ↦ none | some l1 ↦ close_modules rest l1 ]
  ]

  unfoldable pub node_cleanup : Hooks T → Loaded T → Option (Loaded T)
  node_cleanup blocks l = elim (node_clear blocks l.world) [
    | none ↦ none
    | some w ↦ elim (cleanup_modules (u.items w.node.modules) (record l { world = w })) [
      | none ↦ none
      | some l1 ↦ elim (close_modules (u.items l1.world.node.modules) l1) [
        | none ↦ none
        | some l2 ↦ some (reset_seqid l2)
      ]
    ]
  ]

  -- The cleanup of the log is left out; the name is cleared.
  unfoldable pub node_rm : Hooks T → Loaded T → Option (Loaded T)
  node_rm blocks l = elim (node_cleanup blocks l) [
    | none ↦ none
    | some l1 ↦
        some
          (record l1 { world = record (l1.world) { node = record (l1.world.node) { name = [] } } })
  ]

abbrev pub node_name_maxlen : ℕ
node_name_maxlen = 63

abbrev pub loglevel_default : ℕ
loglevel_default = 6

-- The attributes are bits 0 and 1: ND_MLOCK_ALL and ND_DUMPABLE.
abbrev pub is_mlock_all : ℕ → Bool
is_mlock_all attrs = attrs % 2 == 1

abbrev pub is_dumpable : ℕ → Bool
is_dumpable attrs = attrs / 2 % 2 == 1

module _ {T : Type 0} ⦃u : Uthash T⦄ where
  -- `ubx_node_init`, on the return codes of ubx_log_init, prctl and mlockall.
  unfoldable pub node_init : ℤ → ℤ → ℤ → Option CStr → ℕ → World T → ℤ × World T
  node_init logged dumpable locked name attrs w =
      let level = if w.node.loglevel == 0 then loglevel_default else w.node.loglevel in
      let w1 = record w { node = record (w.node) { loglevel = level } } in
      if not (eqb_ℤ logged (pos 0)) then (negsuc 0, w1) else elim name [
        | none ↦ (negsuc 0, w1)
        | some n ↦
            let w2 = record w1 { node = record (w1.node) { name = take node_name_maxlen n } } in
            if is_dumpable attrs && not (eqb_ℤ dumpable (pos 0))
            then (negsuc 0, w2)
            else if is_mlock_all attrs && not (eqb_ℤ locked (pos 0))
            then (negsuc 0, w2)
            else (
              pos 0,
              record w2 {
                node = record (w2.node) {
                  attrs = attrs;
                  blocks = u.empty;
                  types = u.empty;
                  modules = u.empty;
                  cur_seqid = 0;
                };
              },
            )
      ]
