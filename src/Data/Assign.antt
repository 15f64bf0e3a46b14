-- ===== src/Data/Assign.antt =====
-- What ubx_config_assign does to the reference counts.
mod Examples
use microblx.Base.{
  ℕ, ◌≡◌, ◌≢◌, Bool, true, false, Option, none, some, ◌==◌, arith, refl, Bool-cases, inl, inr, List,
  if◌then◌else◌,
}
use microblx.Base.Int.{ℤ, pos, negsuc, ◌+ℤ◌, ◌-ℤ◌, ◌≤ℤ◌, ltb_ℤ, -ℤ_parts, -ℤ_cancel}
use microblx.Store.{UbxData, Config, Heap, free}
use microblx.Store.Errors.{etype_mismatch}
use microblx.Data.{data_free, data_ref, drop_value, config_assign, with_data, free_buf}

-- What is left of a struct after one `ubx_data_free`.
abbrev pub released : UbxData → Option UbxData
released e =
    if ltb_ℤ (e.refcnt -ℤ pos 1) (pos 0)
    then none
    else some (record e { refcnt = e.refcnt -ℤ pos 1 })

abbrev pub referenced : UbxData → UbxData
referenced d = record d { refcnt = d.refcnt +ℤ pos 1 }

pub datas-free_buf : (b : Option (List ℕ)) (h : Heap) → (free (free_buf b h)).datas ≡ h.datas
unfolding free
datas-free_buf none h = refl
datas-free_buf (some b) h = refl

-- A free goes through for an allocated struct, and changes no other one.
pub data_free_lem :
    (q : ℕ) (h : Heap) (e : UbxData)
    → h.datas q ≡ some e
    → (k : Heap) × (data_free q h ≡ some k)
      × ((r : ℕ) → k.datas r ≡ (if r == q then released e else h.datas r))
unfolding data_free
data_free_lem q h e he = elim (Bool-cases (ltb_ℤ (e.refcnt -ℤ pos 1) (pos 0))) [
  | inl last ↦ (
    free (free_buf e.buf (with_data h q none)),
    ground arith,
    λ r. rw (datas-free_buf e.buf (with_data h q none)) (ground arith),
  )
  | inr more ↦ (
    with_data h q (some (record e { refcnt = e.refcnt -ℤ pos 1 })),
    ground arith,
    λ r. ground arith,
  )
]

-- Assigning an allocated value of the config's type to a config that holds another allocated one
-- succeeds: the new value gains a reference, the old one loses its own, or is freed if that was
-- the last, and no other value changes.
pub config_assign_counts :
    (c : Config) (p q : ℕ) (h : Heap) (d e : UbxData)
    → h.datas p ≡ some d
    → h.datas q ≡ some e
    → c.value ≡ some q
    → c.type ≡ d.type
    → q ≢ p
    → (k : Heap) × (config_assign c p h ≡ some (pos 0, record c { value = some p }, k))
      × ((r : ℕ)
          → k.datas r
            ≡ (if r == p then some (referenced d) else if r == q then released e else h.datas r))
unfolding config_assign drop_value data_ref
config_assign_counts c p q h d e hp hq hv ht ne =
    let (k, freed, datas) = data_free_lem q h e hq in
    (with_data k p (some (referenced d)), ground (arith, datas p), λ r. ground (arith, datas r))

-- Assigning the value that a config holds already, of its type, is a use after free where its
-- reference count is at most 0.
pub config_assign_use_after_free :
    (c : Config) (p : ℕ) (h : Heap) (d : UbxData)
    → h.datas p ≡ some d
    → c.value ≡ some p
    → c.type ≡ d.type
    → d.refcnt ≤ℤ pos 0
    → config_assign c p h ≡ none
unfolding config_assign drop_value data_ref
config_assign_use_after_free c p h d hp hv ht last =
    let (k, freed, datas) = data_free_lem p h d hp in
    ground (arith, datas p, -ℤ_parts d.refcnt (pos 1))

-- Assigning the value that a config holds already, of its type, succeeds and changes no value
-- where its reference count is at least 1.
pub config_assign_again :
    (c : Config) (p : ℕ) (h : Heap) (d : UbxData)
    → h.datas p ≡ some d
    → c.value ≡ some p
    → c.type ≡ d.type
    → pos 1 ≤ℤ d.refcnt
    → (k : Heap) × (config_assign c p h ≡ some (pos 0, record c { value = some p }, k))
      × ((r : ℕ) → k.datas r ≡ h.datas r)
unfolding config_assign drop_value data_ref
config_assign_again c p h d hp hv ht more =
    let (k, freed, datas) = data_free_lem p h d hp in
    let one = -ℤ_parts d.refcnt (pos 1) in
    (
      with_data k p (some (referenced (record d { refcnt = d.refcnt -ℤ pos 1 }))),
      ground (arith, datas p, one),
      λ r. ground (arith, datas r, one, -ℤ_cancel d.refcnt (pos 1)),
    )

-- A value of another type is refused, and nothing changes.
config_assign_mismatch :
    (c : Config) (p : ℕ) (h : Heap) (d : UbxData)
    → h.datas p ≡ some d
    → c.type ≢ d.type
    → config_assign c p h ≡ some (etype_mismatch, c, h)
unfolding config_assign
config_assign_mismatch c p h d hp ne = ground arith
