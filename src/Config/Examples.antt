-- ===== src/Config/Examples.antt =====
-- Configs at concrete values.
use microblx.Base.{◌≡◌, refl, none, some, [], ◌∷◌, if◌then◌else◌}
use microblx.Base.Int.{pos}
use microblx.Store.{CStr, Block, Config, Heap, UbxData, preinit, computation, alloc, update}
use microblx.Store.Strings.{strn_eq}
use microblx.Store.Named.{find_named}
use microblx.Config.{config_find, config_add_typed, config_append, Added}
use microblx.Config.Add.{ConfigsValid, config_find-config_add}

abbrev gain : CStr
gain = 103 ∷ 97 ∷ 105 ∷ 110 ∷ []

abbrev held : Config
held = record { name = gain; doc = none; attrs = 0; type = 3; value = some 5; min = 1; max = 2 }

abbrev empty_block : Block
empty_block = record {
  name = 98 ∷ [];
  meta_data = none;
  attrs = 0;
  type = computation;
  block_state = preinit;
  ports = [];
  configs = [];
  prototype = some 1;
  loglevel = none;
  init = none;
  start = none;
  stop = none;
  cleanup = none;
  step = none;
  read = none;
  write = none;
  stat_num_steps = 0;
  stat_num_reads = 0;
  stat_num_writes = 0;
}

abbrev with_gain : Block
with_gain = record empty_block { configs = held ∷ [] }

abbrev value : UbxData
value = record { refcnt = pos 0; type = 3; len = pos 1; buf = none }

abbrev heap : Heap
heap = record { outcomes = []; live = 4; next = 9; datas = update (λ _. none) 5 (some value) }

nothing-valid : ConfigsValid []
nothing-valid = record { distinct = tt; each = tt }

-- Config "gain", of type 3, with at least one element.
abbrev adds : Added
adds = config_add_typed empty_block gain none 3 1 0 0 heap

adds_ok : adds.0 ≡ pos 0
unfolding config_add_typed config_append find_named alloc
adds_ok = refl

config_find-config_add_example :
    (c : Config) × (c.name ≡ gain)
    × (c.min ≡ 1)
    × (c.max ≡ 65535)
    × ((other : CStr)
        → config_find other adds.1.configs
          ≡ (if strn_eq 39 gain other then some c else config_find other []))
config_find-config_add_example = config_find-config_add empty_block gain none 3 1 0 0 heap adds_ok

-- The last reference of the value is the config's own: it is freed with the config.
abbrev freed : Heap
freed = record {
  outcomes = [];
  live = 2;
  next = 9;
  datas = update (update (λ _. none) 5 (some value)) 5 none;
}
