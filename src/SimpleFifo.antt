-- ===== src/SimpleFifo.antt =====
-- The interaction block ubx/simple_fifo: std_blocks/examples/simple_fifo.c. Its pointers are
-- offsets into the buffer, and what pthread_mutex_lock returns is given. `none` is a fault: memory
-- is used that is not there, or a division is by zero.
pub mod Stored
pub mod Steps
pub mod Runs
mod Examples
use microblx.Base.{
  or_default, ℕ, ◌+◌, ◌-◌, ◌*◌, ◌/◌, ◌%◌, ◌^◌, Bool, true, false, not, Option, none, some, List, [],
  ◌∷◌, ◌++◌, take, drop, ◌==◌, ltb, leb, if◌then◌else◌,
}
use microblx.Base.Int.{ℤ, pos, negsuc, pos_part, eqb_ℤ, ltb_ℤ, to_u64, ◌-ℤ◌}
use microblx.Store.{UbxData}
use microblx.Store.Errors.{etype_mismatch}
use microblx.Store.Bytes.{memcpy, into_buf}
use microblx.Data.{data_size}
use microblx.Data.Resize.{bytes_of}

-- `struct fifo_block_info`, without the mutex; `buff` has `size` bytes.
pub record FifoInfo : Type 0 where
  pub size : ℕ
  pub buff : List ℕ
  pub rdptr : ℕ
  pub wrptr : ℕ
  pub type : Option ℕ
  pub overrun_policy : ℕ
  pub overruns : ℕ

-- `fifo_init`: whether calloc returns memory, what malloc returns for a size, and the config
-- `fifo_size` if it is set.
unfoldable pub fifo_init : Bool → (ℕ → Option (List ℕ)) → Option ℕ → ℤ × Option FifoInfo
fifo_init got malloc fifo_size =
    let size = or_default 16 fifo_size in
    if not got
    then (negsuc 0, none)
    else if size == 0
    then (negsuc 0, none)
    else elim (malloc size) [
      | none ↦ (negsuc 0, none)
      | some buff ↦ (
        pos 0,
        some (record {
          size = size;
          buff = buff;
          rdptr = 0;
          wrptr = 0;
          type = none;
          overrun_policy = 0;
          overruns = 0;
        }),
      )
    ]

abbrev drop_new : ℕ
drop_new = 1

abbrev drop_old : ℕ
drop_old = 2

unfoldable pub empty_space : FifoInfo → ℕ
empty_space inf =
    if leb inf.rdptr inf.wrptr then inf.size - (inf.wrptr - inf.rdptr) else inf.rdptr - inf.wrptr

unfoldable pub used_space : FifoInfo → ℕ
used_space inf =
    if ltb inf.wrptr inf.rdptr then inf.size - (inf.rdptr - inf.wrptr) else inf.wrptr - inf.rdptr

-- memcpy to an offset of the buffer.
abbrev pub copy_at : ℕ → ℕ → List ℕ → List ℕ → Option (List ℕ)
copy_at at n src buff = elim (memcpy n src (drop at buff)) [
  | none ↦ none
  | some bytes ↦ some (take at buff ++ bytes)
]

-- "enough space?": whether the message can be stored, and the private data then.
unfoldable pub make_space : ℤ → FifoInfo → Bool × FifoInfo
make_space len inf =
    if not (ltb_ℤ (pos (empty_space inf)) len)
    then (true, inf)
    else let inf1 = record inf { overruns = (inf.overruns + 1) % 2 ^ 64 } in
      let rd = inf.rdptr + pos_part len in
      if inf.overrun_policy == drop_new
      then (false, inf1)
      else if inf.overrun_policy == drop_old
      then (true, record inf1 { rdptr = if ltb inf.size rd then rd - inf.size else rd })
      else (false, inf1)

-- "compute length of chunk 2 write": the lengths of both chunks.
unfoldable pub chunks : ℤ → FifoInfo → ℤ × ℤ
chunks len inf =
    if not (ltb inf.rdptr inf.wrptr)
    then (len, pos 0)
    else let over = len -ℤ pos (inf.size - inf.wrptr) in
      let len2 = if ltb_ℤ (pos 0) over then over else pos 0 in
      (if ltb_ℤ (pos 0) len2 then len -ℤ len2 else len, len2)

-- The copies of `fifo_write`.
unfoldable pub store : List ℕ → ℤ → ℤ → FifoInfo → Option FifoInfo
store bytes len len2 inf = elim (copy_at inf.wrptr (to_u64 len) bytes inf.buff) [
  | none ↦ none
  | some buff1 ↦
      let next = inf.wrptr + pos_part len in
      let inf1 = record inf { buff = buff1; wrptr = if leb inf.size next then 0 else next } in
      if not (ltb_ℤ (pos 0) len2)
      then some inf1
      else elim (copy_at 0 (to_u64 len2) (drop (pos_part len) bytes) buff1) [
        | none ↦ none
        | some buff2 ↦ some (record inf1 { buff = buff2; wrptr = pos_part len2 })
      ]
]

abbrev pub set_type : ℕ → Option ℕ → Option ℕ
set_type t none = some t
set_type t (some s) = some s

unfoldable pub fifo_write : ℤ → (ℕ → Option ℕ) → UbxData → FifoInfo → Option FifoInfo
fifo_write lock sizes msg inf =
    if not (eqb_ℤ lock (pos 0)) then some inf else elim (data_size (some msg) sizes) [
      | none ↦ none
      | some len ↦
          if ltb_ℤ (pos inf.size) len
          then some inf
          else let (enough, inf1) =
              make_space len (record inf { type = set_type msg.type inf.type }) in
            let (len1, len2) = chunks len inf1 in
            if not enough then some inf1 else store (bytes_of msg.buf) len1 len2 inf1
    ]

-- What `fifo_read` copies: `readsz` is zero before it is compared.
unfoldable pub read_sizes : FifoInfo → ℕ × ℕ
read_sizes inf =
    let used = used_space inf in
    let readsz = if ltb used 0 then used else 0 in
    let readsz2 = (readsz + (2 ^ 64 - (inf.size - inf.wrptr) % 2 ^ 64)) % 2 ^ 64 in
    (readsz, if ltb inf.wrptr inf.rdptr then (readsz + (2 ^ 64 - readsz2)) % 2 ^ 64 else 0)

-- The end of `fifo_read`, with the type of what is stored.
unfoldable pub fifo_copy : (ℕ → Option ℕ) → ℕ → UbxData → FifoInfo → Option (ℤ × UbxData × FifoInfo)
fifo_copy sizes t msg inf =
    let (readsz, readsz1) = read_sizes inf in
    elim (memcpy readsz1 (drop inf.rdptr inf.buff) (bytes_of msg.buf)) [
      | none ↦ none
      | some bytes ↦ elim (sizes t) [
        | none ↦ none
        | some size ↦
            if size == 0
            then none
            else some (
              pos (readsz / size),
              record msg { buf = into_buf msg.buf bytes },
              record inf { rdptr = readsz1 },
            )
      ]
    ]

-- What is returned, the message, and the private data.
unfoldable pub fifo_read : ℤ → (ℕ → Option ℕ) → UbxData → FifoInfo → Option (ℤ × UbxData × FifoInfo)
fifo_read lock sizes msg inf =
    if not (eqb_ℤ lock (pos 0))
    then some (lock, msg, inf)
    else if inf.rdptr == inf.wrptr
    then some (pos 0, msg, inf)
    else elim inf.type [
      | none ↦ none
      | some t ↦
          if not (msg.type == t) then some (etype_mismatch, msg, inf) else fifo_copy sizes t msg inf
    ]
