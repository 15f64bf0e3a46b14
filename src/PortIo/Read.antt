-- ===== src/PortIo/Read.antt =====
-- Which block a read takes its sample from.
use microblx.Base.{
  ℕ, ◌+◌, ◌%◌, ◌^◌, ◌≡◌, refl, ap, true, false, Option, some, List, [], ◌∷◌, ◌++◌, All, arith,
  Bool-cases, inl, inr,
}
use microblx.Base.Int.{ℤ, pos, ltb_ℤ}
use microblx.Store.{Port, Block, BlockState, active, World, UbxData}
use microblx.Port.{port_is_in}
use microblx.Connect.{Cells}
use microblx.Connect.Arrays.{array, Holds}
use microblx.Lifecycle.{Hooks, same_state, put_block}
use microblx.PortIo.{read_loop, port_read, to_int}

-- A block that may stand in an array: allocated and with a read hook.
abbrev pub Readable : (ℕ → Option Block) → ℕ → Type 0
Readable blocks b = (blk : Block) × (f : ℕ) × (blocks b ≡ some blk) × (blk.read ≡ some f)

module _ {T : Type 0} (hooks : Hooks T) (dat : ℕ) where
  -- Read hooks that leave the block structs alone.
  abbrev pub ReadsApart : Type 0
  ReadsApart = (f b d : ℕ) (w : World T) → (hooks.read f b d w).1.blocks ≡ w.blocks

  -- Blocks that give no sample: inactive ones, and active ones whose hook returns 0 or less, which
  -- is then the result.
  pub data NoSample : List ℕ → ℤ → World T → ℤ → World T → Type 0 where
    over : (ret : ℤ) (w : World T) → NoSample [] ret w ret w
    idle :
        (b : ℕ) (bs : List ℕ) (ret ret' : ℤ) (w w' : World T) (blk : Block)
        → w.blocks b ≡ some blk
        → same_state blk.block_state active ≡ false
        → NoSample bs ret w ret' w'
        → NoSample (b ∷ bs) ret w ret' w'
    empty :
        (b : ℕ) (bs : List ℕ) (ret ret' : ℤ) (w w' : World T) (blk : Block) (f : ℕ)
        → w.blocks b ≡ some blk
        → same_state blk.block_state active ≡ true
        → blk.read ≡ some f
        → ltb_ℤ (pos 0) (to_int (hooks.read f b dat w).0) ≡ false
        → NoSample bs (to_int (hooks.read f b dat w).0) (hooks.read f b dat w).1 ret' w'
        → NoSample (b ∷ bs) ret w ret' w'

  -- A block's sample, of the size that its hook returns: the block is active, and only its count
  -- of reads changes beside what the hook does.
  pub record Sample (b : ℕ) (w : World T) (ret : ℤ) (w' : World T) : Type 0 where
    pub blk : Block
    pub f : ℕ
    pub found : w.blocks b ≡ some blk
    pub is_active : blk.block_state ≡ active
    pub hook : blk.read ≡ some f
    pub size : ret ≡ to_int (hooks.read f b dat w).0
    pub positive : ltb_ℤ (pos 0) ret ≡ true
    pub counted :
        w'
        ≡ put_block b
            (record blk { stat_num_reads = (blk.stat_num_reads + 1) % 2 ^ 64 })
            (hooks.read f b dat w).1

  -- A read takes the sample of the first block that has one, and asks none after it.
  pub data ReadsFirst (bs : List ℕ) (ret : ℤ) (w : World T) (ret' : ℤ) (w' : World T) : Type 0 where
    nothing : NoSample bs ret w ret' w' → ReadsFirst bs ret w ret' w'
    sample :
        (before after : List ℕ) (b : ℕ) (ret1 : ℤ) (w1 : World T)
        → bs ≡ before ++ b ∷ after
        → NoSample before ret w ret1 w1
        → Sample b w1 ret' w'
        → ReadsFirst bs ret w ret' w'

  active_state : (s : BlockState) → same_state s active ≡ true → s ≡ active
  active_state s h = ground arith

  read_loop-ReadsFirst :
      ReadsApart
      → (bs : List ℕ) (room : Cells) (ret : ℤ) (w : World T) → All (Readable w.blocks) bs
      → (ret' : ℤ) × (w' : World T) × (read_loop hooks dat (array bs room) ret w ≡ some (ret', w'))
        × ReadsFirst bs ret w ret' w'
  unfolding read_loop
  read_loop-ReadsFirst apart [] room ret w ok = (ret, w, refl, nothing (over ret w))
  read_loop-ReadsFirst apart (b ∷ bs) room ret w ((blk, f, found, hook), oks) =
      elim (Bool-cases (same_state blk.block_state active)) [
        | inr off ↦
            let (ret', w', runs, first) = read_loop-ReadsFirst apart bs room ret w oks in
            (
              ret',
              w',
              ground arith,
              elim first [
                | nothing skipped ↦ nothing (idle b bs ret ret' w w' blk found off skipped)
                | sample before after c ret2 w2 eq skipped taken ↦
                    sample (b ∷ before) after c ret2 w2 (ap (b ∷◌) eq)
                      (idle b before ret ret2 w w2 blk found off skipped) taken
              ],
            )
        | inl on ↦ elim (Bool-cases (ltb_ℤ (pos 0) (to_int (hooks.read f b dat w).0))) [
          | inl got ↦
              let same : (hooks.read f b dat w).1.blocks b ≡ some blk =
                rw (apart f b dat w) found in
              (
                to_int (hooks.read f b dat w).0,
                put_block b (record blk { stat_num_reads = (blk.stat_num_reads + 1) % 2 ^ 64 })
                    (hooks.read f b dat w).1,
                ground arith,
                sample [] bs b ret w refl (over ret w) (record {
                  blk = blk;
                  f = f;
                  found = found;
                  is_active = active_state blk.block_state on;
                  hook = hook;
                  size = refl;
                  positive = got;
                  counted = refl;
                }),
              )
          | inr zero_or_less ↦
              let (ret', w', runs, first) =
                read_loop-ReadsFirst apart bs room (to_int (hooks.read f b dat w).0)
                  (hooks.read f b dat w).1 (rw (apart f b dat w) oks) in
              (
                ret',
                w',
                ground arith,
                elim first [
                  | nothing skipped ↦
                      nothing (empty b bs ret ret' w w' blk f found on hook zero_or_less skipped)
                  | sample before after c ret2 w2 eq skipped taken ↦
                      sample (b ∷ before) after c ret2 w2 (ap (b ∷◌) eq)
                        (empty b before ret ret2 w w2 blk f found on hook zero_or_less skipped)
                        taken
                ],
              )
        ]
      ]

-- A read from a connected input port, into data of the port's type and of positive length, returns,
-- if the blocks of the port's array are allocated and have read hooks, and the hooks leave the
-- block structs alone. The sample is the one of the first active block whose hook returns more
-- than 0, as an int: its count of reads goes up by 1 modulo 2^64, and no block behind it is asked.
-- Without such a block the result is the int that the last active block's hook returned, or 0.
pub port_read-ReadsFirst :
    {T : Type 0} (hooks : Hooks T) (dat t : ℕ) (d : UbxData) (p : Port) (cs : Cells) (bs : List ℕ)
    (w : World T)
    → ReadsApart hooks dat
    → p.in_type ≡ some t
    → w.heap.datas dat ≡ some d
    → d.type ≡ t
    → ltb_ℤ (pos 0) d.len ≡ true
    → p.in_interaction ≡ some cs
    → Holds (some cs) bs
    → All (Readable w.blocks) bs
    → (ret : ℤ) × (w' : World T) × (port_read hooks (some p) (some dat) w ≡ some (ret, w'))
      × ReadsFirst hooks dat bs (pos 0) w ret w'
unfolding port_read port_is_in
port_read-ReadsFirst hooks dat t d p cs bs w apart to found same long at (room, eq) ok =
    let (ret, w', runs, first) = read_loop-ReadsFirst hooks dat apart bs room (pos 0) w ok in
    let runs' : read_loop hooks dat cs (pos 0) w ≡ some (ret, w') = rw eq runs in
    (ret, w', ground arith, first)
