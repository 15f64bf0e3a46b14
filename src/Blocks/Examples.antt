-- ===== src/Blocks/Examples.antt =====
-- A prototype, blocks made from it, and their removal.
use microblx.Base.{◌≡◌, refl, none, some, List, [], ◌∷◌, replicate, arith}
use microblx.Base.Int.{pos}
use microblx.Store.{CStr, Block, Config, Port, World, preinit, computation, update}
use microblx.Store.Hash.{Item, list_table, lookup}
use microblx.Store.Tables.{has_ptr}
use microblx.Store.Strings.{str_eq}
use microblx.Store.Named.{find_named}
use microblx.Port.Add.{PortsValid}
use microblx.Blocks.{block_check, block_create, block_rm, free_configs, block_get}
use microblx.Blocks.Create.{IsPrototype, Created, block_create-Created, block_create_dangling}
use microblx.Blocks.Removal.{RmOutcome, block_rm-RmOutcome}

abbrev gain : Config
gain = record {
  name = 103 ∷ 97 ∷ 105 ∷ 110 ∷ [];
  doc = none;
  attrs = 0;
  type = 3;
  value = none;
  min = 1;
  max = 2;
}

abbrev out : Port
out = record {
  name = 111 ∷ [];
  doc = none;
  attrs = 0;
  in_type = none;
  out_type = some 4;
  in_data_len = pos 1;
  out_data_len = pos 1;
  in_interaction = none;
  out_interaction = none;
}

abbrev bare : Block
bare = record {
  name = 112 ∷ [];
  meta_data = none;
  attrs = 0;
  type = computation;
  block_state = preinit;
  ports = out ∷ [];
  configs = [];
  prototype = none;
  loglevel = none;
  init = some 20;
  start = none;
  stop = none;
  cleanup = none;
  step = some 21;
  read = none;
  write = none;
  stat_num_steps = 0;
  stat_num_reads = 0;
  stat_num_writes = 0;
}

abbrev proto : Block
proto = record bare { configs = gain ∷ [] }

-- The 63 bytes that are left of a longer name.
abbrev taken_name : CStr
taken_name = replicate 63 120

abbrev long_name : CStr
long_name = replicate 64 120

abbrev instance_block : Block
instance_block = record bare { name = taken_name; prototype = some 1 }

abbrev world_of : Block → World (List Item)
world_of p = record {
  node = record {
    name = 110 ∷ [];
    blocks = (112 ∷ [], 1) ∷ (taken_name, 2) ∷ [];
    types = [];
    modules = [];
    cur_seqid = 0;
    attrs = 0;
    loglevel = 5;
  };
  heap = record { outcomes = []; live = 2; next = 3; datas = λ _. none };
  blocks = update (update (λ _. none) 1 (some p)) 2 (some instance_block);
  types = λ _. none;
  static_types = λ _. none;
}

ports-valid : PortsValid (out ∷ [])
unfolding find_named
ports-valid = record { distinct = (refl, tt); each = (omega arith, tt) }

proto-IsPrototype : IsPrototype (world_of proto) 1 proto
unfolding find_named block_check
proto-IsPrototype = record {
  found = refl;
  typed = refl;
  configs = record {
    distinct = (refl, tt);
    each = (record { short = omega arith; range = omega arith }, tt);
  };
  ports = ports-valid;
}

bare-IsPrototype : IsPrototype (world_of bare) 1 bare
unfolding block_check
bare-IsPrototype = record {
  found = refl;
  typed = refl;
  configs = record { distinct = tt; each = tt };
  ports = ports-valid;
}

block_create-Created_example :
    (w' : World (List Item)) × (block_create (112 ∷ []) (some (99 ∷ [])) (world_of proto)
      ≡ some (some 3, w'))
    × Created 1 proto (99 ∷ []) 3 (world_of proto) w'
unfolding block_get lookup str_eq
block_create-Created_example =
    block_create-Created (112 ∷ []) (99 ∷ []) 1 proto (world_of proto) refl refl proto-IsPrototype
      refl (omega arith)

block_create_dangling_example :
    (w' : World (List Item)) × (block_create (112 ∷ []) (some long_name) (world_of bare)
      ≡ some (some 3, w'))
    × (w'.blocks 3 ≡ none)
unfolding block_get lookup str_eq
block_create_dangling_example =
    block_create_dangling (112 ∷ []) long_name 1 2 bare (world_of bare) refl refl bare-IsPrototype
      refl refl refl

block_rm-RmOutcome_example :
    RmOutcome taken_name 2 instance_block
      (world_of bare)
      (block_rm (some taken_name) (world_of bare))
unfolding block_get free_configs lookup str_eq has_ptr
block_rm-RmOutcome_example =
    block_rm-RmOutcome taken_name 2 instance_block (world_of bare).heap (world_of bare)
      (refl, refl, (refl, refl, tt)) refl refl refl
