-- ===== src/SimpleFifo/Stored.antt =====
-- What simple_fifo keeps of the messages that are written to it, and what is read.
use microblx.Base.{
  ℕ, zero, suc, ◌+◌, ◌-◌, ◌*◌, ◌%◌, ◌^◌, ◌≤◌, ◌<◌, ◌≡◌, refl, ap, ◌∙◌, Bool, true, false, not,
  Option, none, some, List, [], ◌∷◌, ◌++◌, arith, inl, inr, ◌⊎◌, length, length-append, take, drop,
  ltb, leb, ◌==◌, if◌then◌else◌, Bool-cases,
}
use microblx.Base.Int.{ℤ, pos, ltb_ℤ, to_u64, to_u64_small, ◌-ℤ◌, -ℤ_parts}
use microblx.Store.Errors.{etype_mismatch}
use microblx.Store.Bytes.{memcpy_fits, length-memcpy, take-take-append}
use microblx.Cyclic.Queue.{Message}
use microblx.SimpleFifo.{FifoInfo, empty_space, copy_at, make_space, chunks, store, set_type}

-- The bytes that are stored, and their type.
pub record Intake : Type 0 where
  pub type : Option ℕ
  pub stored : List ℕ

-- Bytes are stored behind those that there are, if they fit; when the buffer is full, it counts as
-- empty.
abbrev pub take_in : ℕ → (ℕ → ℕ) → Message → Intake → Intake
take_in n size m s =
    let len = m.len * size m.type in
    let total = length s.stored + len in
    if ltb n len
    then s
    else if ltb n total
    then record s { type = set_type m.type s.type }
    else record {
      type = set_type m.type s.type;
      stored = if total == n then [] else s.stored ++ take len m.bytes;
    }

abbrev pub is_other : Option ℕ → ℕ → Bool
is_other none t = false
is_other (some s) t = not (t == s)

-- A read copies nothing.
abbrev pub nothing_read : Intake → Message → ℤ
nothing_read s room =
    if length s.stored == 0
    then pos 0
    else if is_other s.type room.type
    then etype_mismatch
    else pos 0

-- The private data keeps what is stored.
pub record Keeps (n : ℕ) (s : Intake) (inf : FifoInfo) : Type 0 where
  pub sized : inf.size ≡ n
  pub buffer : length inf.buff ≡ n
  pub start : inf.rdptr ≡ 0
  pub end : inf.wrptr ≡ length s.stored
  pub below : length s.stored < n
  pub bytes : take (length s.stored) inf.buff ≡ s.stored
  pub typed : inf.type ≡ s.type
  pub no_policy : inf.overrun_policy ≡ 0
  pub known : (length s.stored ≡ 0) ⊎ ((t : ℕ) × (s.type ≡ some t))

take-append : (xs ys : List ℕ) (k : ℕ) → take (length xs + k) (xs ++ ys) ≡ xs ++ take k ys
take-append [] ys k = ap (λ n. take n ys) {x = 0 + k} (omega arith)
take-append (x ∷ xs) ys k =
    ap (λ n. take n (x ∷ xs ++ ys)) {x = suc (length xs) + k} {y = suc (length xs + k)}
      (omega arith)
    ∙ ap (◌∷◌ x) (take-append xs ys k)

length-drop_at : (n : ℕ) (xs : List ℕ) → length (drop n xs) ≡ length xs - n
length-drop_at zero xs = omega arith
length-drop_at (suc n) [] = omega arith
length-drop_at (suc n) (x ∷ xs) = omega (arith, length-drop_at n xs)

length-take_at : (n : ℕ) (xs : List ℕ) → n ≤ length xs → length (take n xs) ≡ n
length-take_at zero xs h = refl
length-take_at (suc n) [] h = absurd (omega arith)
length-take_at (suc n) (x ∷ xs) h = omega (arith, length-take_at n xs (omega arith))

-- A copy behind what is stored.
copy_at_lem :
    (n len : ℕ) (old src buff : List ℕ)
    → length buff ≡ n
    → take (length old) buff ≡ old
    → length old + len ≤ n
    → len ≤ length src
    → (buff1 : List ℕ) × (copy_at (length old) len src buff ≡ some buff1)
      × (length buff1 ≡ n)
      × (take (length old + len) buff1 ≡ old ++ take len src)
copy_at_lem n len old src buff size same fits has =
    let there = drop (length old) buff in
    let room : len ≤ length there = omega (arith, length-drop_at (length old) buff, size, fits) in
    let copied = take len src ++ drop len there in
    (
      old ++ copied,
      rw (copy_at, memcpy_fits len src there has room, same) refl,
      omega (
        arith,
        length-append old copied,
        length-memcpy len src there has room,
        length-drop_at (length old) buff,
        size,
        fits,
      ),
      take-append old copied len
          ∙ ap (λ xs. old ++ xs) (take-take-append len len src (drop len there) (omega arith) has),
    )

-- With nothing read, a message that fits is stored in one chunk.
pub chunks_lem :
    (n len : ℕ) (inf : FifoInfo)
    → inf.size ≡ n
    → inf.wrptr + len ≤ n
    → chunks (pos len) inf ≡ (pos len, pos 0)
unfolding chunks
chunks_lem n len inf size fits =
    let over = pos len -ℤ pos (inf.size - inf.wrptr) in
    let whole : ltb_ℤ (pos 0) over ≡ false =
      ground (arith, -ℤ_parts (pos len) (pos (inf.size - inf.wrptr)), size, fits) in
    elim (Bool-cases (ltb inf.rdptr inf.wrptr)) [
      | inl e ↦ rw (chunks, e, whole) refl
      | inr e ↦ rw (chunks, e) refl
    ]

pub make_space_lem :
    (len : ℕ) (inf : FifoInfo)
    → inf.rdptr ≡ 0
    → inf.overrun_policy ≡ 0
    → make_space (pos len) inf ≡ (
        if ltb (inf.size - inf.wrptr) len
        then (false, record inf { overruns = (inf.overruns + 1) % 2 ^ 64 })
        else (true, inf))
unfolding make_space empty_space
make_space_lem len inf start policy =
    let from_start : leb inf.rdptr inf.wrptr ≡ true = ground (arith, start) in
    let all : inf.size - (inf.wrptr - inf.rdptr) ≡ inf.size - inf.wrptr = omega (arith, start) in
    elim (Bool-cases (ltb (inf.size - inf.wrptr) len)) [
      | inl e ↦ ground (arith, from_start, all, e, policy)
      | inr e ↦ ground (arith, from_start, all, e)
    ]

pub set_type_known : (t : ℕ) (type : Option ℕ) → (u : ℕ) × (set_type t type ≡ some u)
set_type_known t none = (t, refl)
set_type_known t (some u) = (u, refl)

-- The copies, where the message fits.
pub store_lem :
    (n len : ℕ) (s : Intake) (t : ℕ) (src : List ℕ) (inf : FifoInfo)
    → Keeps n s inf
    → n < 2 ^ 64
    → length s.stored + len ≤ n
    → len ≤ length src
    → (inf1 : FifoInfo) × (store src (pos len) (pos 0) (record inf { type = set_type t inf.type })
        ≡ some inf1)
      × Keeps n
          (record {
            type = set_type t s.type;
            stored = if length s.stored + len == n then [] else s.stored ++ take len src;
          })
          inf1
unfolding store
store_lem n len s t src inf k small fits has =
    let (buff1, out, size1, taken) =
      copy_at_lem n len s.stored src inf.buff k.buffer k.bytes fits has in
    let copies : copy_at inf.wrptr (to_u64 (pos len)) src inf.buff ≡ some buff1 =
      rw (k.end, to_u64_small len (omega (arith, small, fits))) out in
    let longer : length (s.stored ++ take len src) ≡ length s.stored + len =
      length-append s.stored (take len src) ∙ omega (arith, length-take_at len src has) in
    let inf1 = record inf {
      buff = buff1;
      wrptr = if leb inf.size (inf.wrptr + len) then 0 else inf.wrptr + len;
      type = set_type t inf.type;
    } in
    let known = set_type_known t s.type in
    (
      inf1,
      rw (store, copies) refl,
      elim (Bool-cases (length s.stored + len == n)) [
        | inl e ↦ rw e (record {
          sized = k.sized;
          buffer = size1;
          start = k.start;
          end = ground (arith, e, k.end, k.sized);
          below = omega (arith, k.below);
          bytes = refl;
          typed = ap (set_type t) k.typed;
          no_policy = k.no_policy;
          known = inr known;
        })
        | inr e ↦ rw e (record {
          sized = k.sized;
          buffer = size1;
          start = k.start;
          end = ground (arith, e, k.end, k.sized, longer, fits);
          below = ground (arith, longer, fits, e);
          bytes = rw longer taken;
          typed = ap (set_type t) k.typed;
          no_policy = k.no_policy;
          known = inr known;
        })
      ],
    )
