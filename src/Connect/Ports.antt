-- ===== src/Connect/Ports.antt =====
-- Connecting and disconnecting two ports by an interaction block.
use microblx.Base.{
  ℕ, ◌≤◌, ◌<◌, ◌≡◌, ◌≢◌, Bool, true, false, none, some, List, [], ◌∷◌, ◌++◌, arith, ◌⊎◌, inl, inr,
  if◌then◌else◌, ◌==◌, Bool-cases, Option-cases, ltb,
}
use microblx.Base.Int.{pos}
use microblx.Store.{Port, BlockType, interaction, update}
use microblx.Store.Errors.{etype_mismatch}
use microblx.Port.{port_is_out, port_is_in, port_is_inout}
use microblx.Connect.{
  PortMem, port_connect_out, port_connect_in, port_disconnect_out, port_disconnect_in,
  ports_connect, ports_disconnect, same_type, array_block_rm,
}
use microblx.Connect.Arrays.{array, Holds, array_block_add_lem}
use microblx.Connect.Removal.{array_block_rm_added}

-- With memory, two distinct ports of one type, whose arrays are NULL or terminated, are connected
-- by an interaction block: the output port writes to the block, the input port reads from it, both
-- behind the blocks that they had, and no other port changes.
pub ports_connect_lem :
    (loglevel a b iblock t : ℕ) (o i : Port) (outs ins : List ℕ) (ports : PortMem)
    → ports a ≡ some o
    → ports b ≡ some i
    → a ≢ b
    → o.out_type ≡ some t
    → i.in_type ≡ some t
    → Holds o.out_interaction outs
    → Holds i.in_interaction ins
    → (ports' : PortMem) × (ports_connect loglevel
          (some a)
          (some b)
          (some (iblock, interaction))
          true
          true
          ports
        ≡ some (pos 0, ports'))
      × ((c : ℕ)
          → ports' c ≡ (
              if a == c
              then some (record o { out_interaction = some (array (outs ++ iblock ∷ []) []) })
              else if b == c
              then some (record i { in_interaction = some (array (ins ++ iblock ∷ []) []) })
              else ports c))
unfolding ports_connect port_connect_out port_connect_in port_is_out port_is_in
ports_connect_lem loglevel a b iblock t o i outs ins ports pa pb ne to ti ho hi = (
  update (update ports a (some o')) b (some i'),
  ground (
    arith,
    array_block_add_lem o.out_interaction outs iblock ho,
    array_block_add_lem i.in_interaction ins iblock hi,
  ),
  λ c. ground arith,
)
  where
    o' : Port
    o' = record o { out_interaction = some (array (outs ++ iblock ∷ []) []) }

    i' : Port
    i' = record i { in_interaction = some (array (ins ++ iblock ∷ []) []) }

-- Two ports of different types, to be connected by a block of any type: if errors are logged and
-- the input port has only one direction, then the message reads through a NULL type; otherwise the
-- call returns ETYPE_MISMATCH and changes nothing.
pub ports_connect_mismatch :
    (loglevel a b iblock : ℕ) (o i : Port) (type : BlockType) (m n : Bool) (ports : PortMem)
    → ports a ≡ some o
    → ports b ≡ some i
    → same_type i.in_type o.out_type ≡ false
    → ((ports_connect loglevel (some a) (some b) (some (iblock, type)) m n ports ≡ none)
        × (3 ≤ loglevel)
        × ((i.in_type ≡ none) ⊎ (i.out_type ≡ none)))
      ⊎ ((ports_connect loglevel (some a) (some b) (some (iblock, type)) m n ports
            ≡ some (etype_mismatch, ports))
          × ((loglevel < 3) ⊎ ((i.in_type ≢ none) × (i.out_type ≢ none))))
unfolding ports_connect port_is_out port_is_in port_is_inout
ports_connect_mismatch loglevel a b iblock o i type m n ports pa pb e =
    elim (Bool-cases (ltb loglevel 3)) [
      | inl quiet ↦ inr (ground arith, inl (ground arith))
      | inr logged ↦ elim (Option-cases i.in_type) [
        | inl q ↦ inl (ground arith, ground arith, inl q)
        | inr (s, q) ↦ elim (Option-cases i.out_type) [
          | inl r ↦ inl (ground arith, ground arith, inr r)
          | inr (t, r) ↦ inr (ground arith, inr (λ z. cc, λ z. cc))
        ]
      ]
    ]

-- Disconnecting an output port that has never been connected from an interaction block reads
-- through NULL.
pub ports_disconnect_fault :
    (a b iblock t : ℕ) (o : Port) (ports : PortMem)
    → ports a ≡ some o
    → o.out_type ≡ some t
    → o.out_interaction ≡ none
    → ports_disconnect (some a) (some b) (some (iblock, interaction)) ports ≡ none
unfolding ports_disconnect port_disconnect_out port_is_out array_block_rm
ports_disconnect_fault a b iblock t o ports pa to un = ground arith

-- Two distinct ports of one type, whose arrays are NULL or terminated, are connected by an
-- interaction block with memory at hand, and disconnected straight after. Both calls return 0,
-- each port is left with the blocks that it had before, and no other port changes.
pub ports_disconnect-ports_connect :
    (loglevel a b iblock t : ℕ) (o i : Port) (outs ins : List ℕ) (ports : PortMem)
    → ports a ≡ some o
    → ports b ≡ some i
    → a ≢ b
    → o.out_type ≡ some t
    → i.in_type ≡ some t
    → Holds o.out_interaction outs
    → Holds i.in_interaction ins
    → (connected disconnected : PortMem) × (ports_connect loglevel
          (some a)
          (some b)
          (some (iblock, interaction))
          true
          true
          ports
        ≡ some (pos 0, connected))
      × (ports_disconnect (some a) (some b) (some (iblock, interaction)) connected
          ≡ some (pos 0, disconnected))
      × ((c : ℕ)
          → disconnected c ≡ (
              if a == c
              then some (record o { out_interaction = some (array outs (none ∷ [])) })
              else if b == c
              then some (record i { in_interaction = some (array ins (none ∷ [])) })
              else ports c))
unfolding ports_disconnect port_disconnect_out port_disconnect_in port_is_out port_is_in
ports_disconnect-ports_connect loglevel a b iblock t o i outs ins ports pa pb ne to ti ho hi =
    let (connected, ok, now) =
      ports_connect_lem loglevel a b iblock t o i outs ins ports pa pb ne to ti ho hi in
    (
      connected,
      update (update connected a (some o')) b (some i'),
      ok,
      ground (
        arith,
        now a,
        now b,
        array_block_rm_added outs iblock [],
        array_block_rm_added ins iblock [],
      ),
      λ c. ground (arith, now c),
    )
  where
    o' : Port
    o' = record o { out_interaction = some (array outs (none ∷ [])) }

    i' : Port
    i' = record i { in_interaction = some (array ins (none ∷ [])) }
