-- ===== src/Data/Assign/Examples.antt =====
-- Reference counts at concrete values.
use microblx.Base.{◌≡◌, refl, none, some, arith, [], ◌∷◌}
use microblx.Base.Int.{pos}
use microblx.Store.{UbxData, Config, Heap, update}
use microblx.Data.{config_assign}
use microblx.Data.Refs.{Refs, config_assign-Refs}

abbrev shared : UbxData
shared = record { refcnt = pos 1; type = 4; len = pos 0; buf = none }

abbrev lone : UbxData
lone = record { refcnt = pos 0; type = 4; len = pos 0; buf = none }

abbrev heap : Heap
heap = record {
  outcomes = [];
  live = 2;
  next = 9;
  datas = update (update (λ _. none) 7 (some shared)) 8 (some lone);
}

abbrev holds_lone : Config
holds_lone = record {
  name = 99 ∷ [];
  doc = none;
  attrs = 0;
  type = 4;
  value = some 8;
  min = 0;
  max = 0;
}

values-Refs : Refs heap.datas (7 ∷ 8 ∷ [])
values-Refs p = ground arith

config_assign-Refs_example :
    (k : Heap) × (config_assign holds_lone 7 heap
      ≡ some (pos 0, record holds_lone { value = some 7 }, k))
    × Refs k.datas (7 ∷ 7 ∷ [])
config_assign-Refs_example = config_assign-Refs holds_lone 7 shared [] heap refl refl values-Refs
