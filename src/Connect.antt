-- ===== src/Connect.antt =====
-- Connections: the NULL-terminated arrays of interaction blocks that a port reads from and writes
-- to, and connecting and disconnecting ports (libubx/ubx.c). `none` is a fault: a read through
-- NULL or past the end of an array.
pub mod Arrays
pub mod Removal
pub mod Ports
mod Examples
use microblx.Base.{
  ℕ, zero, suc, ◌+◌, ◌-◌, Bool, true, false, not, Option, none, some, List, [], ◌∷◌, ◌==◌, ltb,
  ◌||◌, set, get_elem?, if◌then◌else◌,
}
use microblx.Base.Int.{ℤ, pos, negsuc, eqb_ℤ}
use microblx.Store.{Port, BlockType, computation, interaction, invalid_type, update}
use microblx.Store.Errors.{
  eoutofmem, einvalid_port_dir, einvalid_port_type, einvalid_block_type, einvalid_port,
  etype_mismatch, einvalid_block,
}
use microblx.Port.{port_is_out, port_is_in, port_is_inout}

abbrev pub Cells : Type 0
Cells = List (Option ℕ)

-- The loop that counts to the NULL: `none` if there is none in the array.
unfoldable pub cells_count : Cells → ℕ → Option ℕ
cells_count [] n = none
cells_count (none ∷ cs) n = some n
cells_count (some b ∷ cs) n = cells_count cs (suc n)

-- realloc to `n` cells keeps what fits; the new cells are not specified (here NULL).
unfoldable pub resize_cells : ℕ → Cells → Cells
resize_cells zero cs = []
resize_cells (suc n) [] = none ∷ resize_cells n []
resize_cells (suc n) (c ∷ cs) = c ∷ resize_cells n cs

abbrev pub cells_of : Option Cells → Cells
cells_of none = []
cells_of (some cs) = cs

-- The length that `array_block_add` asks for, NULL included.
abbrev pub wanted_len : Option Cells → Option ℕ
wanted_len none = some 2
wanted_len (some cs) = cells_count cs 2

-- `array_block_add`; `mem` is whether realloc succeeds. If not, the port is left with NULL, and the
-- old array is lost.
unfoldable pub array_block_add : Option Cells → ℕ → Bool → Option (ℤ × Option Cells)
array_block_add arr newblock mem = elim (wanted_len arr) [
  | none ↦ none
  | some newlen ↦
      if not mem
      then some (eoutofmem, none)
      else some (
        pos 0,
        some (
            set (set (resize_cells newlen (cells_of arr)) (newlen - 2) (some newblock)) (newlen - 1)
              none),
      )
]

-- The loop of `array_block_rm`: the cell count, and the last index that holds the block.
unfoldable pub last_match : Cells → ℕ → ℕ → Option ℕ → Option (ℕ × Option ℕ)
last_match [] rmblock cnt found = none
last_match (none ∷ cs) rmblock cnt found = some (cnt, found)
last_match (some b ∷ cs) rmblock cnt found =
    last_match cs rmblock (suc cnt) (if b == rmblock then some cnt else found)

-- The last entry takes the place of the removed one. A NULL array is read through: a fault.
unfoldable pub array_block_rm : Option Cells → ℕ → Option (ℤ × Option Cells)
array_block_rm none rmblock = none
array_block_rm (some cs) rmblock = elim (last_match cs rmblock 0 none) [
  | none ↦ none
  | some (cnt, none) ↦ some (negsuc 0, some cs)
  | some (cnt, some i) ↦
      if i == cnt - 1 then some (pos 0, some (set cs i none)) else elim (get_elem? cs (cnt - 1)) [
        | none ↦ none
        | some moved ↦ some (pos 0, some (set (set cs i moved) (cnt - 1) none))
      ]
]

-- `ubx_port_connect_out`; a fault or the code and the port.
unfoldable pub port_connect_out : Port → ℕ → Bool → Option (ℤ × Port)
port_connect_out p iblock mem =
    if not (port_is_out p)
    then some (einvalid_port_dir, p)
    else elim (array_block_add p.out_interaction iblock mem) [
      | none ↦ none
      | some (ret, arr) ↦ some (ret, record p { out_interaction = arr })
    ]

unfoldable pub port_connect_in : Port → ℕ → Bool → Option (ℤ × Port)
port_connect_in p iblock mem =
    if not (port_is_in p)
    then some (einvalid_port_dir, p)
    else elim (array_block_add p.in_interaction iblock mem) [
      | none ↦ none
      | some (ret, arr) ↦ some (ret, record p { in_interaction = arr })
    ]

unfoldable pub port_disconnect_out : Port → ℕ → Option (ℤ × Port)
port_disconnect_out p iblock =
    if not (port_is_out p)
    then some (einvalid_port_type, p)
    else elim (array_block_rm p.out_interaction iblock) [
      | none ↦ none
      | some (ret, arr) ↦ some (ret, record p { out_interaction = arr })
    ]

unfoldable pub port_disconnect_in : Port → ℕ → Option (ℤ × Port)
port_disconnect_in p iblock =
    if not (port_is_in p)
    then some (einvalid_port_type, p)
    else elim (array_block_rm p.in_interaction iblock) [
      | none ↦ none
      | some (ret, arr) ↦ some (ret, record p { in_interaction = arr })
    ]

-- The port structs by address; two addresses of a call may be one.
abbrev pub PortMem : Type 0
PortMem = ℕ → Option Port

-- Runs a function on the port at an address and stores what it leaves.
abbrev pub at_port : (Port → Option (ℤ × Port)) → ℕ → PortMem → Option (ℤ × PortMem)
at_port f a mem = elim (mem a) [
  | none ↦ none
  | some p ↦ elim (f p) [ none ↦ none | some (ret, p') ↦ some (ret, update mem a (some p')) ]
]

-- `if (ret != 0) goto out`, and the second step.
abbrev pub then_at : Option (ℤ × PortMem) → (PortMem → Option (ℤ × PortMem)) → Option (ℤ × PortMem)
then_at none next = none
then_at (some (ret, mem)) next = if not (eqb_ℤ ret (pos 0)) then some (ret, mem) else next mem

abbrev pub is_interaction : BlockType → Bool
is_interaction interaction = true
is_interaction _ = false

-- Whether two type pointers, which may be NULL, are the same.
abbrev pub same_type : Option ℕ → Option ℕ → Bool
same_type none none = true
same_type (some a) (some b) = a == b
same_type none (some b) = false
same_type (some a) none = false

abbrev loglevel_err : ℕ
loglevel_err = 3

-- The part of `ubx_ports_connect` behind its NULL checks. The interaction block is its address
-- and its type; `mem1` and `mem2` are the outcomes of the two reallocs. A length mismatch is only
-- logged. The message for a type mismatch, which the node's log level may suppress, reads the name
-- of `in_port->in_type` and of `in_port->out_type`: a fault if one is NULL.
connect_checked :
    ℕ → ℕ → ℕ → ℕ → BlockType → Port → Port → Bool → Bool → PortMem → Option (ℤ × PortMem)
connect_checked loglevel out_port in_port iblock type o i mem1 mem2 ports =
    if not (same_type i.in_type o.out_type)
    then (if ltb loglevel loglevel_err || port_is_inout i
        then some (etype_mismatch, ports)
        else none)
    else if not (is_interaction type)
    then some (einvalid_block_type, ports)
    else then_at (at_port (λ p. port_connect_out p iblock mem1) out_port ports)
        (λ ports'. at_port (λ p. port_connect_in p iblock mem2) in_port ports')

-- `ubx_ports_connect`; NULL arguments are `none`.
unfoldable pub ports_connect :
    ℕ → Option ℕ → Option ℕ → Option (ℕ × BlockType) → Bool → Bool → PortMem → Option (ℤ × PortMem)
unfolding connect_checked
ports_connect loglevel out_port in_port none mem1 mem2 ports = some (einvalid_block_type, ports)
ports_connect loglevel none in_port (some iblock) mem1 mem2 ports = some (einvalid_port, ports)
ports_connect loglevel (some a) none (some iblock) mem1 mem2 ports = some (einvalid_port, ports)
ports_connect loglevel (some a) (some b) (some (iblock, type)) mem1 mem2 ports = elim (ports b) [
  | none ↦ none
  | some i ↦ elim (ports a) [
    | none ↦ none
    | some o ↦ connect_checked loglevel a b iblock type o i mem1 mem2 ports
  ]
]

unfoldable pub ports_disconnect :
    Option ℕ → Option ℕ → Option (ℕ × BlockType) → PortMem → Option (ℤ × PortMem)
ports_disconnect out_port in_port none ports = some (einvalid_block, ports)
ports_disconnect none in_port (some iblock) ports = some (einvalid_port, ports)
ports_disconnect (some a) none (some iblock) ports = some (einvalid_port, ports)
ports_disconnect (some a) (some b) (some (iblock, type)) ports =
    if not (is_interaction type)
    then some (einvalid_block_type, ports)
    else then_at (at_port (λ p. port_disconnect_out p iblock) a ports)
        (λ ports'. at_port (λ p. port_disconnect_in p iblock) b ports')
