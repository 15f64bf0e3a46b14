-- ===== src/Cyclic.antt =====
-- The interaction block ubx/lfds_cyclic: std_blocks/lfds_buffers/lfds_cyclic.c. The ring buffer of
-- liblfds 6.1.1 is an interface, with the laws that its documentation states. What is written to
-- the port `overruns` is kept in a list, the latest first. `none` is a fault: memory is used that
-- is not there.
pub mod Queue
pub mod Held
pub mod Write
pub mod Read
pub mod Refine
pub mod Order
mod Examples
use microblx.Base.{
  ℕ, ◌+◌, ◌*◌, ◌%◌, ◌^◌, ◌≡◌, Bool, true, false, not, Option, none, some, List, [], ◌∷◌, ◌++◌,
  replicate, or_default, ◌==◌, ltb, ◌||◌, if◌then◌else◌,
}
use microblx.Base.Int.{ℤ, pos, negsuc, pos_part, eqb_ℤ, ltb_ℤ, to_u64}
use microblx.Store.{UbxData}
use microblx.Store.Errors.{einvalid_config, einvalid_type, eoutofmem}
use microblx.Store.Bytes.{memcpy, into_buf}
use microblx.Data.{data_size}
use microblx.Data.Resize.{bytes_of}

-- `struct cyclic_elem_header`, with the bytes behind it.
pub record Elem : Type 0 where
  pub data_len : ℤ
  pub bytes : List ℕ

-- The ring buffer holds elements in two places: `queued` has those that were written, the oldest
-- first, and `spare` those that are free. A writer gets a spare one, or else the oldest that is
-- queued, with the overwrite flag; a reader gets the oldest that is queued, and then gives it back.
pub record RingBuffer (S : Type 0) : Type 0 where
  pub ringbuffer_new : ℕ → Elem → Option S
  pub get_write_element : S → Elem × Bool × S
  pub put_write_element : Elem → S → S
  pub get_read_element : S → Option (Elem × S)
  pub put_read_element : Elem → S → S
  pub queued : S → List Elem
  pub spare : S → List Elem
  pub new_lem :
      (n : ℕ) (e : Elem) (s : S)
      → ringbuffer_new n e ≡ some s
      → (queued s ≡ []) × (spare s ≡ replicate n e)
  pub get_write_spare :
      (s : S) (e : Elem) (es : List Elem)
      → spare s ≡ e ∷ es
      → (t : S) × (get_write_element s ≡ (e, false, t)) × (queued t ≡ queued s) × (spare t ≡ es)
  pub get_write_full :
      (s : S) (e : Elem) (es : List Elem)
      → spare s ≡ []
      → queued s ≡ e ∷ es
      → (t : S) × (get_write_element s ≡ (e, true, t)) × (queued t ≡ es) × (spare t ≡ [])
  pub put_write_lem :
      (e : Elem) (s : S)
      → (queued (put_write_element e s) ≡ queued s ++ e ∷ [])
        × (spare (put_write_element e s) ≡ spare s)
  pub get_read_empty : (s : S) → queued s ≡ [] → get_read_element s ≡ none
  pub get_read_oldest :
      (s : S) (e : Elem) (es : List Elem)
      → queued s ≡ e ∷ es
      → (t : S) × (get_read_element s ≡ some (e, t)) × (queued t ≡ es) × (spare t ≡ spare s)
  pub put_read_lem :
      (e : Elem) (s : S)
      → (queued (put_read_element e s) ≡ queued s) × (spare (put_read_element e s) ≡ e ∷ spare s)

-- `struct cyclic_block_info`
pub record CyclicInfo (S : Type 0) : Type 0 where
  pub type : ℕ
  pub data_len : ℤ
  pub buffer_len : ℤ
  pub rbs : S
  pub allow_partial : ℤ
  pub overruns : ℕ
  pub loglevel_overruns : ℤ

-- What the configs hold: the values, or `none` for a length of 0. `data_len` is `none` where
-- reading it fails, and `type` is what `ubx_type_get` finds, with its size.
pub record CyclicConfig : Type 0 where
  pub loglevel_overruns : Option ℤ
  pub buffer_len : Option ℕ
  pub data_len : Option (Option ℕ)
  pub type : Option (ℕ × ℕ)
  pub allow_partial : Option ℤ

abbrev pub ubx_loglevel_notice : ℤ
ubx_loglevel_notice = pos 5

abbrev pub ubx_loglevel_debug : ℤ
ubx_loglevel_debug = pos 7

-- The levels that may be configured, where -1 is none.
abbrev pub is_loglevel : ℤ → Bool
is_loglevel level = not (ltb_ℤ level (negsuc 0) || ltb_ℤ ubx_loglevel_debug level)

-- `cyclic_data_elem_init`, where calloc returns memory.
abbrev pub cyclic_data_elem_init : ℕ → ℕ → Elem
cyclic_data_elem_init data_len size = record {
  data_len = pos 0;
  bytes = replicate (data_len * size) 0;
}

module _ {S : Type 0} ⦃r : RingBuffer S⦄ where
  -- `cyclic_init`; `got` tells whether the private data could be allocated.
  unfoldable pub cyclic_init : Bool → CyclicConfig → ℤ × Option (CyclicInfo S)
  cyclic_init got cfg =
      let level = or_default ubx_loglevel_notice cfg.loglevel_overruns in
      let n = or_default 1 cfg.buffer_len in
      if not got
      then (eoutofmem, none)
      else if not (is_loglevel level)
      then (einvalid_config, none)
      else if n == 0
      then (einvalid_config, none)
      else elim cfg.data_len [
        | none ↦ (negsuc 0, none)
        | some len ↦ elim cfg.type [
          | none ↦ (einvalid_config, none)
          | some (t, size) ↦
              elim (r.ringbuffer_new n (cyclic_data_elem_init (or_default 1 len) size)) [
                | none ↦ (eoutofmem, none)
                | some rbs ↦ (
                  pos 0,
                  some (record {
                    type = t;
                    data_len = pos (or_default 1 len);
                    buffer_len = pos n;
                    rbs = rbs;
                    allow_partial = or_default (pos 0) cfg.allow_partial;
                    overruns = 0;
                    loglevel_overruns = level;
                  }),
                )
              ]
        ]
      ]

-- The checks of the length of a message.
abbrev pub len_refused : ℤ → ℤ → ℤ → Bool
len_refused allow_partial data_len len =
    if not (eqb_ℤ allow_partial (pos 0)) then ltb_ℤ data_len len else not (eqb_ℤ len data_len)

-- A count of overruns, and what is written to the port then.
abbrev pub count_overrun : Bool → ℕ → List ℕ → ℕ × List ℕ
count_overrun false n sent = (n, sent)
count_overrun true n sent = ((n + 1) % 2 ^ 64, (n + 1) % 2 ^ 64 ∷ sent)

module _ {S : Type 0} ⦃r : RingBuffer S⦄ (sizes : ℕ → Option ℕ) where
  unfoldable pub cyclic_write : UbxData → CyclicInfo S → List ℕ → Option (CyclicInfo S × List ℕ)
  cyclic_write msg inf sent =
      if not (inf.type == msg.type)
      then some (inf, sent)
      else if len_refused inf.allow_partial inf.data_len msg.len
      then some (inf, sent)
      else let (elem, overwrote, rbs) = r.get_write_element inf.rbs in
        let (overruns, sent1) = count_overrun overwrote inf.overruns sent in
        elim (data_size (some msg) sizes) [
          | none ↦ none
          | some len ↦ elim (memcpy (to_u64 len) (bytes_of msg.buf) elem.bytes) [
            | none ↦ none
            | some bytes ↦ some (
              record inf {
                overruns = overruns;
                rbs = r.put_write_element (record { data_len = msg.len; bytes = bytes }) rbs;
              },
              sent1,
            )
          ]
        ]

  -- What is returned, the message, and the private data.
  unfoldable pub cyclic_read : UbxData → CyclicInfo S → Option (ℤ × UbxData × CyclicInfo S)
  cyclic_read msg inf =
      if not (inf.type == msg.type)
      then some (einvalid_type, msg, inf)
      else elim (r.get_read_element inf.rbs) [
        | none ↦ some (pos 0, msg, inf)
        | some (elem, rbs) ↦
            let readlen = if ltb_ℤ msg.len elem.data_len then msg.len else elem.data_len in
            elim (sizes inf.type) [
              | none ↦ none
              | some size ↦
                  elim (memcpy (size * to_u64 readlen % 2 ^ 64) elem.bytes (bytes_of msg.buf)) [
                    | none ↦ none
                    | some bytes ↦ some (
                      readlen,
                      record msg { buf = into_buf msg.buf bytes },
                      record inf { rbs = r.put_read_element elem rbs },
                    )
                  ]
            ]
      ]
