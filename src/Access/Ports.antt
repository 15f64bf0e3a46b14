-- ===== src/Access/Ports.antt =====
-- Writing to a port through its accessor.
use microblx.Base.{
  ℕ, ◌<◌, ◌^◌, ◌≡◌, refl, sym, ap, ap₂, ◌∙◌, ◌++◌, Option, subst, false, none, some, List, arith,
  All, occurs, ==_refl,
}
use microblx.Base.Int.{ℤ, pos, ltb_ℤ}
use microblx.Store.{CStr, Block, Port, Node, UbxData, World}
use microblx.Store.Hash.{Uthash}
use microblx.Connect.Arrays.{Holds}
use microblx.Registry.{type_get}
use microblx.Lifecycle.{Hooks, check_static}
use microblx.PortIo.{port_write}
use microblx.PortIo.Write.{Writable, Receives, deliveries, written, port_write-written}
use microblx.Access.{local_data, put_data, write_array}
use microblx.Access.Configs.{check_static_lem}

module _ {T : Type 0} ⦃u : Uthash T⦄ where
  checked_write :
      (hooks : Hooks T) (slot : ℕ) (name : CStr) (dat t : ℕ) (p : Port) (val : List ℕ) (len : ℤ)
      → (w w1 w2 : World T) → p.out_type ≡ some t
      → check_static slot name t w ≡ (pos 0, w1)
      → ltb_ℤ p.out_data_len len ≡ false
      → port_write hooks dat (some p) (put_data dat (some (local_data t len val)) w1) ≡ some w2
      → write_array hooks slot name dat (some p) val len w ≡ some (pos 0, put_data dat none w2)
  unfolding write_array
  checked_write hooks slot name dat t p val len w w1 w2 to checked fits out = ground arith

  -- Values of a registered type that are written through the type's accessor to an output port of
  -- that type, and are not more than the port takes, are written without an error, and are handed
  -- to each active block of the port's array once for every time that the block stands there, in
  -- the order of the array: if the blocks are allocated and have write hooks, and the hooks leave
  -- the block structs and the sample alone and keep what they are handed, then what they keep has
  -- grown by one entry, with the type, the length and the bytes that were written, for each such
  -- place, and by nothing else; and of every allocated block the write count is higher by the
  -- number of its places, modulo 2^64, if it is active, and nothing else of it changes.
  pub write_array-written :
      {A : Type 0} (seen : Node T → List A) (entry : ℕ → ℕ → Option UbxData → A) (hooks : Hooks T)
      (slot : ℕ) (name : CStr) (dat t : ℕ) (p : Port) (bs val : List ℕ) (len : ℤ)
      → (w : World T) → Receives seen entry hooks dat
      → p.out_type ≡ some t
      → type_get w (some name) ≡ some t
      → ltb_ℤ p.out_data_len len ≡ false
      → Holds p.out_interaction bs
      → All (Writable w.blocks) bs
      → (x : ℕ) (blk : Block) → w.blocks x ≡ some blk
      → blk.stat_num_writes < 2 ^ 64
      → (w' : World T) × (write_array hooks slot name dat (some p) val len w ≡ some (pos 0, w'))
        × (w'.blocks x ≡ some (written (occurs x bs) blk))
        × (seen w'.node
            ≡ seen w.node ++ deliveries seen entry w.blocks (some (local_data t len val)) bs)
  write_array-written seen entry hooks slot name dat t p bs val len w apart to known fits holds ok x
        blk at lt =
      let (w1, checked, heap1, blocks1, node1) = check_static_lem slot name t w known in
      let d = local_data t len val in
      let ready = put_data dat (some d) w1 in
      let found : ready.heap.datas dat ≡ some d = rw (==_refl dat) refl in
      let (w2, out, counts, handed) =
        port_write-written seen entry hooks dat t d p bs ready apart to found refl holds
          (subst (λ f. All (Writable f) bs) (sym blocks1) ok) x blk (ap (λ f. f x) blocks1 ∙ at)
          lt in
      (
        put_data dat none w2,
        checked_write hooks slot name dat t p val len w w1 w2 to checked fits out,
        counts,
        handed ∙ ap₂ (λ n f. seen n ++ deliveries seen entry f (some d) bs) node1 blocks1,
      )
