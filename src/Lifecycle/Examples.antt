-- ===== src/Lifecycle/Examples.antt =====
-- A block that goes through its life cycle.
use microblx.Base.{refl, none, some, List, [], ◌∷◌}
use microblx.Base.Int.{pos, negsuc}
use microblx.Store.{Block, preinit, active, computation, World, Node, update}
use microblx.Store.Hash.{Item, list_table}
use microblx.Lifecycle.{Hooks}
use microblx.Lifecycle.Machine.{Polite, Steps, op_init, perform}
use microblx.Lifecycle.Steps.{perform-Steps}

-- The start hook refuses; the others succeed. None touches the world.
abbrev idle_hooks : Hooks (List Item)
idle_hooks = record {
  init = λ f b w. (pos 0, w);
  start = λ f b w. (negsuc 0, w);
  stop = λ f b w. w;
  cleanup = λ f b w. w;
  step = λ f b w. w;
  read = λ f b d w. (pos 0, w);
  write = λ f b d w. w;
}

abbrev block : Block
block = record {
  name = 98 ∷ [];
  meta_data = none;
  attrs = 0;
  type = computation;
  block_state = preinit;
  ports = [];
  configs = [];
  prototype = some 1;
  loglevel = none;
  init = some 20;
  start = some 21;
  stop = none;
  cleanup = none;
  step = none;
  read = none;
  write = none;
  stat_num_steps = 0;
  stat_num_reads = 0;
  stat_num_writes = 0;
}

abbrev node : Node (List Item)
node = record {
  name = 110 ∷ [];
  blocks = [];
  types = [];
  modules = [];
  cur_seqid = 0;
  attrs = 0;
  loglevel = 5;
}

abbrev world : World (List Item)
world = record {
  node = node;
  heap = record { outcomes = []; live = 0; next = 0; datas = λ _. none };
  blocks = update (λ _. none) 2 (some block);
  types = λ _. none;
  static_types = λ _. none;
}

idle-Polite : Polite idle_hooks 2
idle-Polite = record {
  polite_init = λ f w s h. h;
  polite_start = λ f w s h. h;
  polite_stop = λ f w s h. h;
  polite_cleanup = λ f w s h. h;
}

perform-Steps_example : Steps world 2 preinit op_init (perform idle_hooks op_init 2 world)
perform-Steps_example = perform-Steps idle_hooks 2 idle-Polite block world refl op_init tt

-- The count wraps.
abbrev running : Block
running = record block {
  block_state = active;
  step = some 22;
  stat_num_steps = 18446744073709551615;
}

abbrev stepped : World (List Item)
stepped = record world { blocks = update (λ _. none) 2 (some running) }
