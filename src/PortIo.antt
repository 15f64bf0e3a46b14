-- ===== src/PortIo.antt =====
-- Reading from and writing to ports: __port_read and __port_write of libubx/ubx.c, which pass data
-- to and from the interaction blocks in a port's arrays. `none` is a fault.
pub mod Write
pub mod Read
mod Examples
use microblx.Base.{
  ℕ, suc, ◌+◌, ◌-◌, ◌%◌, ◌^◌, ◌<◌, Bool, true, false, not, Option, none, some, List, [], ◌∷◌, ◌==◌,
  ltb, if◌then◌else◌,
}
use microblx.Base.Int.{ℤ, pos, negsuc, ltb_ℤ, ◌≤ℤ◌}
use microblx.Store.{Port, Block, BlockState, active, World, UbxData, update}
use microblx.Store.Errors.{einvalid_port, einvalid_arg, einvalid_port_dir, etype_mismatch}
use microblx.Port.{port_is_in, port_is_out}
use microblx.Connect.{Cells}
use microblx.Lifecycle.{Hooks, Outcome, same_state, put_block}

-- `ret = iblock->read(..)` stores a `long` in an `int`.
abbrev pub to_int : ℤ → ℤ
to_int (pos n) = let m = n % 2 ^ 32 in if ltb m (2 ^ 31) then pos m else negsuc (2 ^ 32 - m - 1)
to_int (negsuc n) = let m = n % 2 ^ 32 in if ltb m (2 ^ 31) then negsuc m else pos (2 ^ 32 - m - 1)

abbrev pub is_type : Option ℕ → ℕ → Bool
is_type none t = false
is_type (some s) t = s == t

module _ {T : Type 0} (hooks : Hooks T) (dat : ℕ) where
  -- The write to one active block and its count.
  unfoldable pub write_block : ℕ → Block → World T → Option (World T)
  write_block b blk w = elim blk.write [
    | none ↦ none
    | some f ↦
        let w' = hooks.write f b dat w in
        elim (w'.blocks b) [
          | none ↦ none
          | some k ↦
              some
                (put_block b (record k { stat_num_writes = (k.stat_num_writes + 1) % 2 ^ 64 }) w')
        ]
  ]

  -- "pump it out": every block up to the NULL.
  unfoldable pub write_loop : Cells → World T → Option (World T)
  write_loop [] w = none
  write_loop (none ∷ cs) w = some w
  write_loop (some b ∷ cs) w =
      let rest = write_loop cs in
      elim (w.blocks b) [
        | none ↦ none
        | some blk ↦
            if same_state blk.block_state active
            then elim (write_block b blk w) [ none ↦ none | some w' ↦ rest w' ]
            else rest w
      ]

  unfoldable pub port_write : Option Port → World T → Option (World T)
  port_write none w = some w
  port_write (some p) w = if not (port_is_out p) then some w else elim (w.heap.datas dat) [
    | none ↦ none
    | some d ↦
        if not (is_type p.out_type d.type)
        then some w
        else elim p.out_interaction [ none ↦ some w | some cs ↦ write_loop cs w ]
  ]

  -- The loop over the blocks to read from; `ret` is the last result.
  unfoldable pub read_loop : Cells → ℤ → World T → Outcome T
  read_loop [] ret w = none
  read_loop (none ∷ cs) ret w = some (ret, w)
  read_loop (some b ∷ cs) ret w =
      let rest = read_loop cs in
      elim (w.blocks b) [
        | none ↦ none
        | some blk ↦ if not (same_state blk.block_state active) then rest ret w else elim blk.read [
          | none ↦ none
          | some f ↦
              let (long_ret, w') = hooks.read f b dat w in
              if ltb_ℤ (pos 0) (to_int long_ret)
              then elim (w'.blocks b) [
                | none ↦ none
                | some k ↦ some (
                  to_int long_ret,
                  put_block b (record k { stat_num_reads = (k.stat_num_reads + 1) % 2 ^ 64 }) w',
                )
              ]
              else rest (to_int long_ret) w'
        ]
      ]

module _ {T : Type 0} (hooks : Hooks T) where
  -- `__port_read`; a NULL port or data is `none`.
  unfoldable pub port_read : Option Port → Option ℕ → World T → Outcome T
  port_read none dat w = some (einvalid_port, w)
  port_read (some p) none w = some (einvalid_arg, w)
  port_read (some p) (some dat) w = elim (w.heap.datas dat) [
    | none ↦ none
    | some d ↦
        if not (ltb_ℤ (pos 0) d.len)
        then some (einvalid_arg, w)
        else if not (port_is_in p)
        then some (einvalid_port_dir, w)
        else if not (is_type p.in_type d.type)
        then some (etype_mismatch, w)
        else elim p.in_interaction [
          | none ↦ some (pos 0, w)
          | some cs ↦ read_loop hooks dat cs (pos 0) w
        ]
  ]
