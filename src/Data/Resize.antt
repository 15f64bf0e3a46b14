-- ===== src/Data/Resize.antt =====
-- Resizing a value: ubx_data_resize of libubx/ubx.c.
use microblx.Base.{
  ℕ, zero, suc, ◌-◌, ◌*◌, ◌%◌, ◌^◌, ◌≡◌, refl, Bool, false, not, ◌==◌, Option, none, some, List, [],
  ◌∷◌, arith, length, if◌then◌else◌,
}
use microblx.Base.Int.{ℤ, pos, negsuc}
use microblx.Store.{Heap, alloc}
use microblx.Store.Errors.{eoutofmem}
use microblx.Data.{with_data, free_buf}

-- The first bytes of a buffer that realloc returns: those that were there, and then any.
abbrev pub resized : (ℕ → ℕ) → ℕ → List ℕ → List ℕ
resized fresh zero bytes = []
resized fresh (suc n) [] = fresh n ∷ resized fresh n []
resized fresh (suc n) (b ∷ bytes) = b ∷ resized fresh n bytes

abbrev pub bytes_of : Option (List ℕ) → List ℕ
bytes_of none = []
bytes_of (some bytes) = bytes

-- `unsigned int newsz = newlen * d->type->size`
abbrev pub new_size : ℤ → ℕ → ℕ
new_size (pos n) size = n * size % 2 ^ 32
new_size (negsuc n) size = (2 ^ 32 - suc n * size % 2 ^ 32) % 2 ^ 32

-- Whether `realloc(d->data, newsz)` is `free(d->data)`: as in glibc, it is for a buffer and size 0.
abbrev pub only_frees : ℤ → ℕ → Option (List ℕ) → Bool
only_frees newlen size none = false
only_frees newlen size (some bytes) = new_size newlen size == 0

-- realloc is an allocation like the others, and releases the buffer that there was. Where it only
-- frees, it returns NULL, and `d->data` is left to point to freed memory: whatever is done with
-- the value then, also its release, uses that memory, and the model has the fault here.
unfoldable pub data_resize : (ℕ → ℕ) → (ℕ → Option ℕ) → ℕ → ℤ → Heap → Option (ℤ × Heap)
data_resize fresh sizes p newlen h = elim (h.datas p) [
  | none ↦ none
  | some d ↦ elim (sizes d.type) [
    | none ↦ none
    | some size ↦
        let (got, h1) = alloc h in
        let buf = resized fresh (new_size newlen size) (bytes_of d.buf) in
        let kept = record d { buf = some buf; len = newlen } in
        if only_frees newlen size d.buf
        then none
        else if not got
        then some (eoutofmem, h1)
        else some (pos 0, with_data (free_buf d.buf h1) p (some kept))
  ]
]

pub length-resized : (fresh : ℕ → ℕ) (n : ℕ) (bytes : List ℕ) → length (resized fresh n bytes) ≡ n
length-resized fresh zero bytes = refl
length-resized fresh (suc n) [] = omega (arith, length-resized fresh n [])
length-resized fresh (suc n) (b ∷ bytes) = omega (arith, length-resized fresh n bytes)
