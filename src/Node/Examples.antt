-- ===== src/Node/Examples.antt =====
-- A node with a prototype and a running block that holds a value.
use microblx.Base.{ℕ, ◌≡◌, refl, some, none, [], ◌∷◌, List, arith, Option}
use microblx.Base.Int.{pos}
use microblx.Store.{Block, Config, World, UbxData, preinit, active, computation, update}
use microblx.Store.Hash.{Item, lookup, list_table}
use microblx.Store.Tables.{has_ptr}
use microblx.Store.Strings.{str_eq}
use microblx.Lifecycle.{Hooks}
use microblx.Data.Refs.{Refs}
use microblx.Node.{node_clear}
use microblx.Node.Sweep.{Quiet}
use microblx.Node.Instances.{Entry}
use microblx.Node.Clear.{Cleared, node_clear-Cleared}

abbrev gain : Config
gain = record { name = 103 ∷ []; doc = none; attrs = 0; type = 3; value = some 5; min = 0; max = 0 }

abbrev proto : Block
proto = record {
  name = 112 ∷ [];
  meta_data = none;
  attrs = 0;
  type = computation;
  block_state = preinit;
  ports = [];
  configs = [];
  prototype = none;
  loglevel = none;
  init = none;
  start = none;
  stop = some 30;
  cleanup = some 31;
  step = none;
  read = none;
  write = none;
  stat_num_steps = 0;
  stat_num_reads = 0;
  stat_num_writes = 0;
}

abbrev running : Block
running = record proto {
  name = 98 ∷ [];
  block_state = active;
  configs = gain ∷ [];
  prototype = some 1;
}

abbrev entries : List Entry
entries = (1, proto) ∷ (2, running) ∷ []

abbrev value_at : ℕ → Option UbxData
value_at =
    update (λ _. none) 5 (some (record { refcnt = pos 0; type = 3; len = pos 0; buf = none }))

abbrev node_world : World (List Item)
node_world = record {
  node = record {
    name = 110 ∷ [];
    blocks = (112 ∷ [], 1) ∷ (98 ∷ [], 2) ∷ [];
    types = [];
    modules = [];
    cur_seqid = 0;
    attrs = 0;
    loglevel = 5;
  };
  heap = record { outcomes = []; live = 9; next = 6; datas = value_at };
  blocks = update (update (λ _. none) 1 (some proto)) 2 (some running);
  types = λ _. none;
  static_types = λ _. none;
}

-- Stopping and cleaning up free one private allocation each.
abbrev free_one : World (List Item) → World (List Item)
free_one w = record w { heap = record (w.heap) { live = 8 } }

abbrev hooks : Hooks (List Item)
hooks = record {
  init = λ f b w. (pos 0, w);
  start = λ f b w. (pos 0, w);
  stop = λ f b w. free_one w;
  cleanup = λ f b w. free_one w;
  step = λ f b w. w;
  read = λ f b p w. (pos 0, w);
  write = λ f b p w. w;
}

hooks-Quiet : Quiet hooks
hooks-Quiet = record {
  stop_blocks = λ f b w. refl;
  stop_shares = λ f b w. (refl, refl);
  cleanup_blocks = λ f b w. refl;
  cleanup_shares = λ f b w. (refl, refl);
}

values-Refs : Refs value_at (5 ∷ [])
values-Refs p = ground arith

node_clear-Cleared_example :
    (w' : World (List Item)) × (node_clear hooks node_world ≡ some w')
    × Cleared entries [] node_world w'
unfolding lookup str_eq has_ptr
node_clear-Cleared_example =
    node_clear-Cleared hooks entries [] node_world hooks-Quiet refl (refl, refl, (refl, refl, tt))
      (refl, (refl, tt)) values-Refs
