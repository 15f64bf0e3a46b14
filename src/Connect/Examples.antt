-- ===== src/Connect/Examples.antt =====
-- Connections between two ports.
use microblx.Base.{
  ℕ, ◌≡◌, ◌≢◌, refl, true, none, some, [], ◌∷◌, ◌⊎◌, All, arith, if◌then◌else◌, ◌==◌,
}
use microblx.Base.Int.{pos, negsuc}
use microblx.Store.{Port, interaction, update}
use microblx.Connect.{PortMem, array_block_rm, ports_connect, ports_disconnect}
use microblx.Connect.Arrays.{array}
use microblx.Connect.Removal.{array_block_rm_lem, TakenOut}
use microblx.Connect.Ports.{ports_disconnect-ports_connect}

abbrev out_port : Port
out_port = record {
  name = 111 ∷ [];
  doc = none;
  attrs = 0;
  in_type = none;
  out_type = some 4;
  in_data_len = pos 1;
  out_data_len = pos 1;
  in_interaction = none;
  out_interaction = some (some 8 ∷ none ∷ []);
}

abbrev in_port : Port
in_port = record out_port {
  in_type = some 4;
  out_type = none;
  in_interaction = none;
  out_interaction = none;
}

abbrev ports : PortMem
ports = update (update (λ _. none) 1 (some out_port)) 2 (some in_port)

array_block_rm_lem_example :
    (All {A = ℕ} (λ x. x ≢ 9) (8 ∷ 9 ∷ 7 ∷ [])
      × (array_block_rm (some (array (8 ∷ 9 ∷ 7 ∷ []) [])) 9
          ≡ some (negsuc 0, some (array (8 ∷ 9 ∷ 7 ∷ []) []))))
    ⊎ TakenOut (array (8 ∷ 9 ∷ 7 ∷ []) []) 9 (8 ∷ 9 ∷ 7 ∷ [])
array_block_rm_lem_example = array_block_rm_lem (8 ∷ 9 ∷ 7 ∷ []) [] 9

ports_disconnect-ports_connect_example :
    (connected disconnected : PortMem) × (ports_connect 5
        (some 1)
        (some 2)
        (some (7, interaction))
        true
        true
        ports
      ≡ some (pos 0, connected))
    × (ports_disconnect (some 1) (some 2) (some (7, interaction)) connected
        ≡ some (pos 0, disconnected))
    × ((c : ℕ)
        → disconnected c ≡ (
            if 1 == c
            then some (record out_port { out_interaction = some (array (8 ∷ []) (none ∷ [])) })
            else if 2 == c
            then some (record in_port { in_interaction = some (array [] (none ∷ [])) })
            else ports c))
ports_disconnect-ports_connect_example =
    ports_disconnect-ports_connect 5 1 2 7 4 out_port in_port (8 ∷ []) [] ports refl refl
      (λ e. absurd (omega arith)) refl refl ([], refl) refl
