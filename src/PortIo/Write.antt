-- ===== src/PortIo/Write.antt =====
-- What a write hands to the blocks, and how often it reaches each.
use microblx.Base.{
  occurs, ℕ, suc, ◌+◌, ◌%◌, ◌^◌, ◌<◌, ◌≡◌, refl, sym, ap, ap₂, ◌∙◌, subst, Bool, true, false,
  Option, none, some, List, [], ◌∷◌, ◌++◌, append-empty, append_assoc, All, arith, if◌then◌else◌,
  ◌==◌, Bool-cases, Option-cases, inl, inr, ==_iff, some_eq,
}
use microblx.Store.{Port, Block, active, Node, World, UbxData}
use microblx.Port.{port_is_out}
use microblx.Connect.{Cells}
use microblx.Connect.Arrays.{array, Holds}
use microblx.Lifecycle.{Hooks, same_state, put_block}
use microblx.PortIo.{write_block, write_loop, port_write}

-- A block that may stand in an array: allocated and with a write hook.
abbrev pub Writable : (ℕ → Option Block) → ℕ → Type 0
Writable blocks b = (blk : Block) × (f : ℕ) × (blocks b ≡ some blk) × (blk.write ≡ some f)

-- A block after `n` writes to it.
abbrev pub written : ℕ → Block → Block
written n blk =
    if same_state blk.block_state active
    then record blk { stat_num_writes = (blk.stat_num_writes + n) % 2 ^ 64 }
    else blk

written_none : (blk : Block) → blk.stat_num_writes < 2 ^ 64 → written 0 blk ≡ blk
written_none blk lt =
    let same : (blk.stat_num_writes + 0) % 2 ^ 64 ≡ blk.stat_num_writes = omega arith in
    ground (arith, same)

written_again : (m : ℕ) (k : Block) → written m (written 1 k) ≡ written (suc m) k
written_again m k =
    let n = k.stat_num_writes in
    let sum : ((n + 1) % 2 ^ 64 + m) % 2 ^ 64 ≡ (n + suc m) % 2 ^ 64 = omega arith in ground arith

write-written : (once : Bool) (k : Block) → (if once then written 1 k else k).write ≡ k.write
write-written once k = ground arith

written_bound : (k : Block) → k.stat_num_writes < 2 ^ 64 → (written 1 k).stat_num_writes < 2 ^ 64
written_bound k lt = ground arith

-- What the hooks were handed in a run: `entry f b d` when the hook `f` of block `b` is called with
-- sample `d`. Where they keep it is left open, as their private data is: `seen` reads it.
module _ {T A : Type 0} (seen : Node T → List A) (entry : ℕ → ℕ → Option UbxData → A) where
  abbrev pub delivery : (ℕ → Option Block) → Option UbxData → ℕ → List A
  delivery blocks d b = elim (blocks b) [
    | none ↦ []
    | some blk ↦
        if same_state blk.block_state active
        then elim blk.write [ none ↦ [] | some f ↦ entry f b d ∷ [] ]
        else []
  ]

  -- One entry for each place in an array where an active block stands, in the order of the array.
  abbrev pub deliveries : (ℕ → Option Block) → Option UbxData → List ℕ → List A
  deliveries blocks d [] = []
  deliveries blocks d (b ∷ bs) = delivery blocks d b ++ deliveries blocks d bs

  delivery_same :
      (blocks blocks' : ℕ → Option Block) (d : Option UbxData) (x : ℕ) (k : Block) (once : Bool)
      → blocks x ≡ some k
      → blocks' x ≡ some (if once then written 1 k else k)
      → delivery blocks' d x ≡ delivery blocks d x
  delivery_same blocks blocks' d x k true e e' =
      rw (delivery, e, e')
        (elim (Bool-cases (same_state k.block_state active)) [
          | inl is ↦ rw (is, is) refl
          | inr idle ↦ rw (idle, idle) refl
        ])
  delivery_same blocks blocks' d x k false e e' = rw (delivery, e, e') refl

  deliveries_same :
      (blocks blocks' : ℕ → Option Block) (d : Option UbxData) (b : ℕ)
      → ((x : ℕ) (k : Block)
          → blocks x ≡ some k
          → blocks' x ≡ some (if b == x then written 1 k else k))
      → (bs : List ℕ) → All (Writable blocks) bs
      → deliveries blocks' d bs ≡ deliveries blocks d bs
  deliveries_same blocks blocks' d b first [] oks = refl
  deliveries_same blocks blocks' d b first (x ∷ bs) ((k, f, found, hook), oks) =
      ap₂ ◌++◌ (delivery_same blocks blocks' d x k (b == x) found (first x k found))
        (deliveries_same blocks blocks' d b first bs oks)

  -- Write hooks that leave the block structs and the sample alone, and keep what they are handed.
  pub record Receives (hooks : Hooks T) (dat : ℕ) : Type 0 where
    pub blocks : (f b : ℕ) (w : World T) → (hooks.write f b dat w).blocks ≡ w.blocks
    pub sample : (f b : ℕ) (w : World T) → (hooks.write f b dat w).heap.datas dat ≡ w.heap.datas dat
    pub received :
        (f b : ℕ) (w : World T)
        → seen (hooks.write f b dat w).node ≡ seen w.node ++ entry f b (w.heap.datas dat) ∷ []

  module _ (hooks : Hooks T) (dat : ℕ) where
    -- The world after the first block of an array.
    abbrev pub FirstWritten : ℕ → Cells → World T → Type 0
    FirstWritten b cs w =
        (w' : World T) × (write_loop hooks dat (some b ∷ cs) w ≡ write_loop hooks dat cs w')
        × ((x : ℕ) (k : Block)
            → w.blocks x ≡ some k
            → w'.blocks x ≡ some (if b == x then written 1 k else k))
        × (w'.heap.datas dat ≡ w.heap.datas dat)
        × (seen w'.node ≡ seen w.node ++ delivery w.blocks (w.heap.datas dat) b)

    write_first :
        Receives hooks dat
        → (b : ℕ) (cs : Cells) (w : World T) → Writable w.blocks b
        → FirstWritten b cs w
    unfolding write_loop write_block
    write_first apart b cs w (blk, f, found, hook) =
        elim (Bool-cases (same_state blk.block_state active)) [
          | inl is ↦
              let same : (hooks.write f b dat w).blocks b ≡ some blk =
                rw (apart.blocks f b w) found in
              (
                put_block b (written 1 blk) (hooks.write f b dat w),
                ground arith,
                λ x k e. elim (Bool-cases (b == x)) [
                  | inl eq ↦
                      let same_block : blk ≡ k =
                        some_eq (sym found ∙ ap w.blocks ((==_iff b x).0 eq) ∙ e) in
                      rw (eq, same_block) refl
                  | inr ne ↦ rw (ne, apart.blocks f b w) e
                ],
                apart.sample f b w,
                apart.received f b w
                    ∙ ap (λ l. seen w.node ++ l) (sym (rw (delivery, found, is, hook) refl)),
              )
          | inr idle ↦ (
            w,
            ground arith,
            λ x k e. elim (Bool-cases (b == x)) [
              | inl eq ↦
                  let same_block : blk ≡ k =
                    some_eq (sym found ∙ ap w.blocks ((==_iff b x).0 eq) ∙ e) in
                  ground arith
              | inr ne ↦ rw ne e
            ],
            refl,
            sym (append-empty (seen w.node))
                ∙ ap (λ l. seen w.node ++ l) (sym (rw (delivery, found, idle) refl)),
          )
        ]

    still :
        (b : ℕ) (w w' : World T)
        → ((x : ℕ) (k : Block)
            → w.blocks x ≡ some k
            → w'.blocks x ≡ some (if b == x then written 1 k else k))
        → (bs : List ℕ) → All (Writable w.blocks) bs
        → All (Writable w'.blocks) bs
    still b w w' first [] oks = tt
    still b w w' first (c ∷ bs) ((k, f, found, hook), oks) =
        ((_, f, first c k found, write-written (b == c) k ∙ hook), still b w w' first bs oks)

    -- What is left after a write to the blocks of a list.
    abbrev pub Written : List ℕ → Option (World T) → World T → Type 0
    Written bs result w =
        (w' : World T) × (result ≡ some w')
        × ((x : ℕ) (blk : Block)
            → w.blocks x ≡ some blk
            → blk.stat_num_writes < 2 ^ 64
            → w'.blocks x ≡ some (written (occurs x bs) blk))
        × (seen w'.node ≡ seen w.node ++ deliveries w.blocks (w.heap.datas dat) bs)

    write_loop-Written :
        Receives hooks dat
        → (bs : List ℕ) (room : Cells) (w : World T) → All (Writable w.blocks) bs
        → Written bs (write_loop hooks dat (array bs room) w) w
    unfolding write_loop write_block
    write_loop-Written apart [] room w ok = (
      w,
      refl,
      λ x blk e lt. e ∙ ap some (sym (written_none blk lt)),
      sym (append-empty (seen w.node)),
    )
    write_loop-Written apart (b ∷ bs) room w ((blk, f, found, hook), oks) =
        let (w1, runs, first, kept, told) =
          write_first apart b (array bs room) w (blk, f, found, hook) in
        let (w', more, counts, all) =
          write_loop-Written apart bs room w1 (still b w w1 first bs oks) in
        let d = w.heap.datas dat in
        let same : deliveries w1.blocks (w1.heap.datas dat) bs ≡ deliveries w.blocks d bs =
          ap (λ e. deliveries w1.blocks e bs) kept
          ∙ deliveries_same w.blocks w1.blocks d b first bs oks in
        (
          w',
          runs ∙ more,
          λ x k e lt. elim (Bool-cases (b == x)) [
            | inl eq ↦
                (counts x (written 1 k) (rw (first x k e, eq) refl) (written_bound k lt)
                  ∙ ap some (rw eq (written_again (occurs x bs) k)))
            | inr ne ↦ rw ne (counts x k (rw (first x k e, ne) refl) lt)
          ],
          all
              ∙ ap₂ ◌++◌ told same
              ∙ append_assoc (seen w.node) (delivery w.blocks d b) (deliveries w.blocks d bs),
        )

-- A sample written to an output port of its type is handed to each active block of the port's
-- array once for every time that the block stands there, in the order of the array: if the blocks
-- are allocated and have write hooks, and the hooks leave the block structs and the sample alone
-- and keep what they are handed, then the call returns; what the hooks keep has grown by one
-- entry, with the sample, for each such place, and by nothing else; and of every allocated block
-- the write count is higher by the number of its places, modulo 2^64, if it is active, while its
-- other fields, and an inactive block, have not changed.
pub port_write-written :
    {T A : Type 0} (seen : Node T → List A) (entry : ℕ → ℕ → Option UbxData → A) (hooks : Hooks T)
    (dat t : ℕ) (d : UbxData) (p : Port) (bs : List ℕ) (w : World T)
    → Receives seen entry hooks dat
    → p.out_type ≡ some t
    → w.heap.datas dat ≡ some d
    → d.type ≡ t
    → Holds p.out_interaction bs
    → All (Writable w.blocks) bs
    → (x : ℕ) (blk : Block) → w.blocks x ≡ some blk
    → blk.stat_num_writes < 2 ^ 64
    → (w' : World T) × (port_write hooks dat (some p) w ≡ some w')
      × (w'.blocks x ≡ some (written (occurs x bs) blk))
      × (seen w'.node ≡ seen w.node ++ deliveries seen entry w.blocks (some d) bs)
unfolding port_write port_is_out
port_write-written seen entry hooks dat t d p bs w apart to found same holds ok x blk at lt =
    elim (Option-cases p.out_interaction) [
      | inl e ↦
          let none_left : bs ≡ [] = subst (λ o. Holds o bs) e holds in
          (
            w,
            ground arith,
            at ∙ ap some (sym (ap (λ l. written (occurs x l) blk) none_left ∙ written_none blk lt)),
            sym (append-empty (seen w.node))
                ∙ ap (λ l. seen w.node ++ deliveries seen entry w.blocks (some d) l)
                    (sym none_left),
          )
      | inr (cs, e) ↦
          let (room, eq) : Holds (some cs) bs = subst (λ o. Holds o bs) e holds in
          let (w', runs, counts, all) =
            write_loop-Written seen entry hooks dat apart bs room w ok in
          let runs' : write_loop hooks dat cs w ≡ some w' = rw eq runs in
          (
            w',
            ground arith,
            counts x blk at lt,
            all ∙ ap (λ e. seen w.node ++ deliveries seen entry w.blocks e bs) found,
          )
    ]
