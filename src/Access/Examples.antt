-- ===== src/Access/Examples.antt =====
-- A block with a config of a registered type, and a port that is connected to two blocks.
use microblx.Base.{ℕ, ◌≡◌, refl, none, some, List, [], ◌∷◌, ◌++◌, arith, Option}
use microblx.Base.Int.{pos}
use microblx.Store.{Port, Block, Config, active, interaction, Node, World, UbxData, update, alloc}
use microblx.Store.Strings.{str_eq, strn_eq}
use microblx.Store.Named.{find_named}
use microblx.Store.Hash.{Item, list_table, lookup}
use microblx.Connect.Arrays.{array}
use microblx.Config.{config_get}
use microblx.Registry.{type_get}
use microblx.Lifecycle.{Hooks}
use microblx.Access.{cfg_set, config_get_data_ptr, write_array}
use microblx.Access.Configs.{SetTo, config_get_data_ptr-cfg_set}
use microblx.Data.Resize.{bytes_of}
use microblx.PortIo.Write.{Receives}
use microblx.Access.Ports.{write_array-written}

-- The hooks keep the bytes that they are handed, and the block, with the modules.
abbrev received : ℕ → ℕ → Option UbxData → Item
received f b none = ([], b)
received f b (some d) = (bytes_of d.buf, b)

abbrev seen : Node (List Item) → List Item
seen node = node.modules

abbrev hooks : Hooks (List Item)
hooks = record {
  init = λ f b w. (pos 0, w);
  start = λ f b w. (pos 0, w);
  stop = λ f b w. w;
  cleanup = λ f b w. w;
  step = λ f b w. w;
  read = λ f b d w. (pos 0, w);
  write = λ f b d w. record w {
    node = record (w.node) { modules = w.node.modules ++ received f b (w.heap.datas d) ∷ [] };
  };
}

abbrev gain : Config
gain = record { name = 103 ∷ []; doc = none; attrs = 0; type = 4; value = some 5; min = 0; max = 0 }

abbrev block : Block
block = record {
  name = 98 ∷ [];
  meta_data = none;
  attrs = 0;
  type = interaction;
  block_state = active;
  ports = [];
  configs = gain ∷ [];
  prototype = some 1;
  loglevel = none;
  init = none;
  start = none;
  stop = none;
  cleanup = none;
  step = none;
  read = some 24;
  write = some 25;
  stat_num_steps = 0;
  stat_num_reads = 0;
  stat_num_writes = 0;
}

abbrev value : UbxData
value = record { refcnt = pos 0; type = 4; len = pos 1; buf = some (7 ∷ 7 ∷ []) }

-- "i"
abbrev type_name : List ℕ
type_name = 105 ∷ []

abbrev sizes : ℕ → Option ℕ
sizes t = some 2

abbrev fresh : ℕ → ℕ
fresh n = 0

abbrev world : World (List Item)
world = record {
  node = record {
    name = 110 ∷ [];
    blocks = [];
    types = (type_name, 4) ∷ [];
    modules = [];
    cur_seqid = 0;
    attrs = 0;
    loglevel = 5;
  };
  heap = record { outcomes = []; live = 3; next = 9; datas = update (λ _. none) 5 (some value) };
  blocks = update (update (λ _. none) 8 (some block)) 9 (some block);
  types = λ _. none;
  static_types = λ _. none;
}

abbrev port : Port
port = record {
  name = 111 ∷ [];
  doc = none;
  attrs = 0;
  in_type = none;
  out_type = some 4;
  in_data_len = pos 1;
  out_data_len = pos 1;
  in_interaction = none;
  out_interaction = some (array (8 ∷ 9 ∷ 8 ∷ []) []);
}

config_get_data_ptr-cfg_set_example :
    (w' : World (List Item)) × (cfg_set 6 type_name fresh sizes
        (some block)
        (some (103 ∷ []))
        (1 ∷ 2 ∷ 3 ∷ 4 ∷ [])
        (pos 2)
        world
      ≡ some (pos 0, w'))
    × (config_get_data_ptr w'.heap.datas (some block) (some (103 ∷ []))
        ≡ some (pos 2, some (some (1 ∷ 2 ∷ 3 ∷ 4 ∷ []))))
    × SetTo 5 value (1 ∷ 2 ∷ 3 ∷ 4 ∷ []) 2 world w'
unfolding config_get find_named type_get lookup str_eq strn_eq alloc
config_get_data_ptr-cfg_set_example =
    config_get_data_ptr-cfg_set 6 type_name fresh sizes (some block) (some (103 ∷ [])) gain 5 value
      2 (1 ∷ 2 ∷ 3 ∷ 4 ∷ []) 2 world refl refl refl refl refl refl refl (omega arith) (omega arith)

hooks_lem : Receives seen received hooks 20
hooks_lem = record { blocks = λ f b w. refl; sample = λ f b w. refl; received = λ f b w. refl }

write_array-written_example :
    (w' : World (List Item)) × (write_array hooks 6 type_name 20
        (some port)
        (1 ∷ 2 ∷ [])
        (pos 1)
        world
      ≡ some (pos 0, w'))
    × (w'.blocks 8 ≡ some (record block { stat_num_writes = 2 }))
    × (w'.node.modules ≡ (1 ∷ 2 ∷ [], 8) ∷ (1 ∷ 2 ∷ [], 9) ∷ (1 ∷ 2 ∷ [], 8) ∷ [])
unfolding type_get lookup str_eq
write_array-written_example =
    write_array-written seen received hooks 6 type_name 20 4 port (8 ∷ 9 ∷ 8 ∷ []) (1 ∷ 2 ∷ [])
      (pos 1) world hooks_lem refl refl refl ([], refl)
      ((block, 25, refl, refl), ((block, 25, refl, refl), ((block, 25, refl, refl), tt))) 8 block
      refl (omega arith)
