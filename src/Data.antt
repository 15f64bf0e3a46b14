-- ===== src/Data.antt =====
-- `ubx_data_t` buffers and their reference counts: the data functions and ubx_config_assign of
-- libubx/ubx.c. `none` is a fault: a struct is used that is not allocated.
pub mod Assign
pub mod Refs
pub mod Resize
use microblx.Base.{
  ℕ, suc, ◌+◌, ◌-◌, ◌*◌, ◌%◌, ◌^◌, Bool, true, false, not, Option, none, some, List, [], ◌++◌,
  length, take, replicate, ◌==◌, ltb, if◌then◌else◌,
}
use microblx.Base.Int.{ℤ, pos, negsuc, pos_part, ltb_ℤ, ◌+ℤ◌, ◌-ℤ◌, ◌*ℤ◌}
use microblx.Store.{UbxData, Config, Heap, update, alloc, free}
use microblx.Store.Errors.{etype_mismatch, einvalid_type, eoutofmem}

abbrev pub with_data : Heap → ℕ → Option UbxData → Heap
with_data h p d = record h { datas = update h.datas p d }

-- `__ubx_data_alloc`; `size` is `typ->size`, which is read only for a positive length.
unfoldable pub data_alloc_typed : Option ℕ → ℕ → ℤ → Heap → Option ℕ × Heap
data_alloc_typed none size len h = (none, h)
data_alloc_typed (some typ) size len h =
    let (got_struct, h1) = alloc h in
    let (got_buf, h2) = alloc h1 in
    let zeroed = some (replicate (pos_part len * size) 0) in
    if not got_struct
    then (none, h1)
    else if not (ltb_ℤ (pos 0) len)
    then (some h1.next, fresh typ len none h1)
    else if not got_buf
    then (none, free h2)
    else (some h2.next, fresh typ len zeroed h2)
  where
    fresh : ℕ → ℤ → Option (List ℕ) → Heap → Heap
    fresh t n b k = record k {
      next = suc k.next;
      datas = update k.datas k.next (some (record { refcnt = pos 0; type = t; len = n; buf = b }));
    }

-- `free(d->data)`, which does nothing for NULL.
abbrev pub free_buf : Option (List ℕ) → Heap → Heap
free_buf none h = h
free_buf (some b) h = free h

unfoldable pub data_free : ℕ → Heap → Option Heap
data_free p h = elim (h.datas p) [
  | none ↦ none
  | some d ↦
      let count = d.refcnt -ℤ pos 1 in
      if ltb_ℤ count (pos 0)
      then some (free (free_buf d.buf (with_data h p none)))
      else some (with_data h p (some (record d { refcnt = count })))
]

-- `d->refcnt++`
unfoldable pub data_ref : ℕ → Heap → Option Heap
data_ref p h = elim (h.datas p) [
  | none ↦ none
  | some d ↦ some (with_data h p (some (record d { refcnt = d.refcnt +ℤ pos 1 })))
]

-- `if (c->value) ubx_data_free(c->value)`
unfoldable pub drop_value : Option ℕ → Heap → Option Heap
drop_value none h = some h
drop_value (some p) h = data_free p h

unfoldable pub config_assign : Config → ℕ → Heap → Option (ℤ × Config × Heap)
config_assign c p h = elim (h.datas p) [
  | none ↦ none
  | some d ↦
      if not (c.type == d.type) then some (etype_mismatch, c, h) else elim (drop_value c.value h) [
        | none ↦ none
        | some h1 ↦ elim (data_ref p h1) [
          | none ↦ none
          | some h2 ↦ some (pos 0, record c { value = some p }, h2)
        ]
      ]
]

-- `data_size`; the type's size is read through the pointer.
unfoldable pub data_size : Option UbxData → (ℕ → Option ℕ) → Option ℤ
data_size none sizes = some einvalid_type
data_size (some d) sizes = elim (sizes d.type) [
  | none ↦ none
  | some size ↦ some (d.len *ℤ pos size)
]
