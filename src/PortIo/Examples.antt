-- ===== src/PortIo/Examples.antt =====
-- Writes to and reads from a port with two connections.
use microblx.Base.{
  ◌≡◌, refl, none, some, List, [], ◌∷◌, ◌++◌, ℕ, Option, arith, if◌then◌else◌, ◌==◌,
}
use microblx.Base.Int.{ℤ, pos, pos_part}
use microblx.Store.{Port, Block, active, interaction, Node, World, UbxData, update}
use microblx.Store.Hash.{Item, list_table}
use microblx.Connect.Arrays.{array}
use microblx.Lifecycle.{Hooks}
use microblx.PortIo.{port_write, port_read}
use microblx.PortIo.Write.{Receives, port_write-written}
use microblx.PortIo.Read.{ReadsFirst, port_read-ReadsFirst}

-- The hooks keep the length of what they are handed, and the block, with the modules.
abbrev received : ℕ → ℕ → Option UbxData → Item
received f b none = ([], b)
received f b (some d) = (pos_part d.len ∷ [], b)

abbrev seen : Node (List Item) → List Item
seen node = node.modules

-- Block 8 has no sample, all others one of 4.
abbrev hooks : Hooks (List Item)
hooks = record {
  init = λ f b w. (pos 0, w);
  start = λ f b w. (pos 0, w);
  stop = λ f b w. w;
  cleanup = λ f b w. w;
  step = λ f b w. w;
  read = λ f b d w. (if b == 8 then pos 0 else pos 4, w);
  write = λ f b d w. record w {
    node = record (w.node) { modules = w.node.modules ++ received f b (w.heap.datas d) ∷ [] };
  };
}

abbrev block : Block
block = record {
  name = 98 ∷ [];
  meta_data = none;
  attrs = 0;
  type = interaction;
  block_state = active;
  ports = [];
  configs = [];
  prototype = some 1;
  loglevel = none;
  init = none;
  start = none;
  stop = none;
  cleanup = none;
  step = none;
  read = some 24;
  write = some 25;
  stat_num_steps = 0;
  stat_num_reads = 0;
  stat_num_writes = 0;
}

abbrev value : UbxData
value = record { refcnt = pos 0; type = 4; len = pos 1; buf = none }

abbrev world : World (List Item)
world = record {
  node = record {
    name = 110 ∷ [];
    blocks = [];
    types = [];
    modules = [];
    cur_seqid = 0;
    attrs = 0;
    loglevel = 5;
  };
  heap = record { outcomes = []; live = 3; next = 9; datas = update (λ _. none) 5 (some value) };
  blocks = update (update (λ _. none) 8 (some block)) 9 (some block);
  types = λ _. none;
  static_types = λ _. none;
}

abbrev port : Port
port = record {
  name = 111 ∷ [];
  doc = none;
  attrs = 0;
  in_type = some 4;
  out_type = some 4;
  in_data_len = pos 1;
  out_data_len = pos 1;
  in_interaction = some (array (8 ∷ 9 ∷ []) []);
  out_interaction = some (array (8 ∷ 9 ∷ 8 ∷ []) []);
}

hooks_lem : Receives seen received hooks 5
hooks_lem = record { blocks = λ f b w. refl; sample = λ f b w. refl; received = λ f b w. refl }

port_write-written_example :
    (w' : World (List Item)) × (port_write hooks 5 (some port) world ≡ some w')
    × (w'.blocks 8 ≡ some (record block { stat_num_writes = 2 }))
    × (w'.node.modules ≡ (1 ∷ [], 8) ∷ (1 ∷ [], 9) ∷ (1 ∷ [], 8) ∷ [])
port_write-written_example =
    port_write-written seen received hooks 5 4 value port (8 ∷ 9 ∷ 8 ∷ []) world hooks_lem refl refl
      refl ([], refl)
      ((block, 25, refl, refl), ((block, 25, refl, refl), ((block, 25, refl, refl), tt))) 8 block
      refl (omega arith)

port_read-ReadsFirst_example :
    (ret : ℤ) × (w' : World (List Item)) × (port_read hooks (some port) (some 5) world
      ≡ some (ret, w'))
    × ReadsFirst hooks 5 (8 ∷ 9 ∷ []) (pos 0) world ret w'
port_read-ReadsFirst_example =
    port_read-ReadsFirst hooks 5 4 value port (array (8 ∷ 9 ∷ []) []) (8 ∷ 9 ∷ []) world
      (λ f b d w. refl) refl refl refl refl refl ([], refl)
      ((block, 24, refl, refl), ((block, 24, refl, refl), tt))
