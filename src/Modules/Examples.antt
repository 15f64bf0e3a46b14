-- ===== src/Modules/Examples.antt =====
-- A node on which one module is loaded.
use microblx.Base.{ℕ, ◌≡◌, ◌-◌, ◌⊎◌, refl, some, none, [], ◌∷◌, List, ◌==◌, if◌then◌else◌}
use microblx.Base.Int.{pos}
use microblx.Store.{World, Heap}
use microblx.Store.Hash.{Item, list_table, lookup}
use microblx.Store.Tables.{has_ptr}
use microblx.Lifecycle.{Hooks}
use microblx.Node.{node_clear, each_in_state, rm_instances}
use microblx.Modules.{
  Module, Linker, Symbols, ModuleHooks, Loaded, module_load, node_cleanup, num_modules,
}
use microblx.Modules.Load.{Tidy, Refused, Entered, module_load-Outcome}
use microblx.Modules.Empty.{node_cleanup_lem}

-- Every library opens, and has the two functions.
abbrev linker : Linker
linker = record { dlopen = λ lib. some 40; dlsym = λ handle name. some 41 }

abbrev symbols : Symbols
symbols = record { initialize = 105 ∷ []; cleanup = 99 ∷ [] }

abbrev empty_heap : Heap
empty_heap = record { outcomes = []; live = 3; next = 10; datas = λ _. none }

abbrev world_with : List Item → World (List Item)
world_with table = record {
  node = record {
    name = 110 ∷ [];
    blocks = [];
    types = [];
    modules = table;
    cur_seqid = 4;
    attrs = 0;
    loglevel = 5;
  };
  heap = empty_heap;
  blocks = λ _. none;
  types = λ _. none;
  static_types = λ _. none;
}

abbrev fifo : Module
fifo = record { id = 102 ∷ []; handle = 40; init = 41; cleanup = 42 }

abbrev loaded : Loaded (List Item)
loaded = record {
  world = world_with ((102 ∷ [], 7) ∷ []);
  modules = λ p. if p == 7 then some fifo else none;
  opened = 1;
}

abbrev module_hooks : ModuleHooks (List Item)
module_hooks = record { init = λ f w. (pos 0, w); cleanup = λ f w. w }

module_hooks-Tidy : Tidy module_hooks
module_hooks-Tidy = record { same_table = λ f w. refl; given_back = λ f w e. refl }

module_load-Outcome_example :
    Refused loaded (module_load linker symbols module_hooks (103 ∷ []) loaded)
    ⊎ Entered (103 ∷ []) loaded (module_load linker symbols module_hooks (103 ∷ []) loaded)
module_load-Outcome_example =
    module_load-Outcome linker symbols module_hooks module_hooks-Tidy (103 ∷ []) loaded

abbrev hooks : Hooks (List Item)
hooks = record {
  init = λ f b w. (pos 0, w);
  start = λ f b w. (pos 0, w);
  stop = λ f b w. w;
  cleanup = λ f b w. w;
  step = λ f b w. w;
  read = λ f b p w. (pos 0, w);
  write = λ f b p w. w;
}

node_cleanup_lem_example :
    (k : Loaded (List Item)) × (node_cleanup module_hooks hooks loaded ≡ some k)
    × (num_modules k.world ≡ 0)
    × ((x : ℕ) → k.modules x ≡ (if has_ptr x ((102 ∷ [], 7) ∷ []) then none else loaded.modules x))
    × (k.opened ≡ 1 - 1)
    × (k.world.node.cur_seqid ≡ 0)
unfolding node_clear each_in_state rm_instances lookup has_ptr
node_cleanup_lem_example =
    node_cleanup_lem module_hooks hooks ((7, fifo) ∷ []) loaded loaded.world (λ f w. refl) refl refl
      (refl, refl, tt) (refl, tt)
