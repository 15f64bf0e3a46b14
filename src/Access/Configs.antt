-- ===== src/Access/Configs.antt =====
-- Setting a config through its accessor, and reading it back.
use microblx.Base.{
  ℕ, zero, suc, ◌*◌, ◌%◌, ◌^◌, ◌<◌, ◌≤◌, ◌≡◌, refl, ap, ◌∙◌, true, false, Option, none, some, List,
  [], ◌∷◌, arith, length, drop, if◌then◌else◌, ◌==◌, append-empty, Bool-cases, inl, inr, ==_refl,
}
use microblx.Base.Int.{ℤ, pos}
use microblx.Store.{CStr, UbxData, Config, Block, Heap, World, alloc, free, update}
use microblx.Store.Hash.{Uthash}
use microblx.Data.{with_data, free_buf}
use microblx.Data.Resize.{resized, bytes_of, new_size, only_frees, data_resize, length-resized}
use microblx.Config.{config_get, config_get_data}
use microblx.Registry.{type_get}
use microblx.Lifecycle.{check_static, is_static}
use microblx.Access.{config_get_data_ptr, copy_into, set_value, cfg_set}

drop-all : (n : ℕ) (xs : List ℕ) → length xs ≤ n → drop n xs ≡ []
drop-all zero [] h = refl
drop-all zero (x ∷ xs) h = absurd (omega arith)
drop-all (suc n) [] h = refl
drop-all (suc n) (x ∷ xs) h = drop-all n xs (omega arith)

copy_into_lem : (val buf : List ℕ) → length buf ≡ length val → copy_into val (some buf) ≡ some val
copy_into_lem val buf same = ground (arith, drop-all (length val) buf, append-empty val)

copy_into_overflow : (val buf : List ℕ) → length buf < length val → copy_into val (some buf) ≡ none
copy_into_overflow val buf short = ground arith

-- The struct at `p` after a resize, and all others.
abbrev Resized : (ℕ → ℕ) → (ℕ → Option ℕ) → ℕ → ℤ → UbxData → ℕ → Heap → Type 0
Resized fresh sizes p len d size h =
    (k : Heap) × (data_resize fresh sizes p len h ≡ some (pos 0, k))
    × ((x : ℕ)
        → k.datas x ≡ (
            if p == x
            then some (record d {
              len = len;
              buf = some (resized fresh (new_size len size) (bytes_of d.buf));
            })
            else h.datas x))

datas-freed : (b : Option (List ℕ)) (h : Heap) → (free_buf b h).datas ≡ h.datas
unfolding free
datas-freed none h = refl
datas-freed (some b) h = refl

alloc-datas : (h : Heap) → (alloc h).1.datas ≡ h.datas
unfolding alloc
alloc-datas h = ground arith

data_resize-Resized :
    (fresh : ℕ → ℕ) (sizes : ℕ → Option ℕ) (p : ℕ) (len : ℤ) (d : UbxData) (size : ℕ) (h : Heap)
    → h.datas p ≡ some d
    → sizes d.type ≡ some size
    → (alloc h).0 ≡ true
    → only_frees len size d.buf ≡ false
    → Resized fresh sizes p len d size h
unfolding data_resize
data_resize-Resized fresh sizes p len d size h at sized got stays =
    let h1 = (alloc h).1 in
    let kept = record d {
      len = len;
      buf = some (resized fresh (new_size len size) (bytes_of d.buf));
    } in
    let same : (free_buf d.buf h1).datas ≡ h.datas = datas-freed d.buf h1 ∙ alloc-datas h in
    (
      with_data (free_buf d.buf h1) p (some kept),
      rw (data_resize, at, sized, stays, got) refl,
      λ x. ap (λ f. if p == x then some kept else f x) same,
    )

some_bytes :
    (n size : ℕ) (buf : Option (List ℕ))
    → 0 < n * size
    → n * size < 2 ^ 32
    → only_frees (pos n) size buf ≡ false
some_bytes n size none more small = refl
some_bytes n size (some bytes) more small =
    let whole : n * size % 2 ^ 32 ≡ n * size = omega arith in ground (arith, whole)

module _ {T : Type 0} ⦃u : Uthash T⦄ where
  -- The check of a registered type passes, and changes no more than the static.
  pub check_static_lem :
      (slot : ℕ) (name : CStr) (t : ℕ) (w : World T)
      → type_get w (some name) ≡ some t
      → (w1 : World T) × (check_static slot name t w ≡ (pos 0, w1))
        × (w1.heap ≡ w.heap)
        × (w1.blocks ≡ w.blocks)
        × (w1.node ≡ w.node)
  unfolding check_static
  check_static_lem slot name t w known = elim (Bool-cases (is_static t (w.static_types slot))) [
    | inl e ↦ (w, rw (check_static, e) refl, refl, refl, refl)
    | inr e ↦ (
      record w { static_types = update w.static_types slot (some t) },
      rw (check_static, e, known, ==_refl t) refl,
      refl,
      refl,
      refl,
    )
  ]

  -- The value after `cfg_set_*`, and all others.
  abbrev pub SetTo : ℕ → UbxData → List ℕ → ℕ → World T → World T → Type 0
  SetTo p d val n w w' =
      (x : ℕ)
      → w'.heap.datas x
        ≡ (if p == x then some (record d { len = pos n; buf = some val }) else w.heap.datas x)

  set_value-SetTo :
      (fresh : ℕ → ℕ) (sizes : ℕ → Option ℕ) (p : ℕ) (d : UbxData) (size : ℕ) (val : List ℕ) (n : ℕ)
      → (w : World T) → w.heap.datas p ≡ some d
      → sizes d.type ≡ some size
      → (alloc w.heap).0 ≡ true
      → length val ≡ n * size
      → 0 < n * size
      → n * size < 2 ^ 32
      → (w' : World T) × (set_value fresh sizes p val (pos n) w ≡ some (pos 0, w'))
        × SetTo p d val n w w'
  unfolding set_value
  set_value-SetTo fresh sizes p d size val n w at sized got fit more small =
      let (k, out, after) =
        data_resize-Resized fresh sizes p (pos n) d size w.heap at sized got
          (some_bytes n size d.buf more small) in
      let buf = resized fresh (new_size (pos n) size) (bytes_of d.buf) in
      let resized_d = record d { len = pos n; buf = some buf } in
      let same : length buf ≡ length val =
        length-resized fresh (new_size (pos n) size) (bytes_of d.buf) ∙ omega arith in
      let there : k.datas p ≡ some resized_d = after p ∙ rw (==_refl p) refl in
      (
        record w { heap = with_data k p (some (record d { len = pos n; buf = some val })) },
        rw (set_value, out, there, copy_into_lem val buf same) refl,
        λ x. ground (arith, after x),
      )

  checked_set :
      (slot : ℕ) (type_name : CStr) (fresh : ℕ → ℕ) (sizes : ℕ → Option ℕ) (b : Option Block)
      → (name : Option CStr) (c : Config) (p : ℕ) (val : List ℕ) (len : ℤ) (w w1 : World T)
      → config_get b name ≡ some c
      → c.value ≡ some p
      → check_static slot type_name c.type w ≡ (pos 0, w1)
      → cfg_set slot type_name fresh sizes b name val len w ≡ set_value fresh sizes p val len w1
  unfolding cfg_set
  checked_set slot type_name fresh sizes b name c p val len w w1 found held checked = ground arith

  -- Setting a config that is there, of the accessor's registered type, to `n` values of that
  -- type, with memory at hand and more than 0 and fewer than 2^32 bytes in all, returns 0.
  -- Reading the config's data then gives `n` and the bytes that were set; no other value changes.
  pub config_get_data_ptr-cfg_set :
      (slot : ℕ) (type_name : CStr) (fresh : ℕ → ℕ) (sizes : ℕ → Option ℕ) (b : Option Block)
      → (name : Option CStr) (c : Config) (p : ℕ) (d : UbxData) (size : ℕ) (val : List ℕ) (n : ℕ)
      → (w : World T) → config_get b name ≡ some c
      → c.value ≡ some p
      → type_get w (some type_name) ≡ some c.type
      → w.heap.datas p ≡ some d
      → sizes d.type ≡ some size
      → (alloc w.heap).0 ≡ true
      → length val ≡ n * size
      → 0 < n * size
      → n * size < 2 ^ 32
      → (w' : World T) × (cfg_set slot type_name fresh sizes b name val (pos n) w
          ≡ some (pos 0, w'))
        × (config_get_data_ptr w'.heap.datas b name ≡ some (pos n, some (some val)))
        × SetTo p d val n w w'
  unfolding cfg_set config_get_data_ptr config_get_data
  config_get_data_ptr-cfg_set slot type_name fresh sizes b name c p d size val n w found held known
        at sized got fit more small =
      let (w1, checked, heap1, _, _) = check_static_lem slot type_name c.type w known in
      let at1 : w1.heap.datas p ≡ some d = rw heap1 at in
      let got1 : (alloc w1.heap).0 ≡ true = rw heap1 got in
      let (w', out, after) =
        set_value-SetTo fresh sizes p d size val n w1 at1 sized got1 fit more small in
      let there : w'.heap.datas p ≡ some (record d { len = pos n; buf = some val }) =
        after p ∙ rw (==_refl p) refl in
      (
        w',
        checked_set slot type_name fresh sizes b name c p val (pos n) w w1 found held checked ∙ out,
        ground arith,
        λ x.
            after x
            ∙ ap
                (λ h. if p == x then some (record d { len = pos n; buf = some val }) else h.datas x)
                heap1,
      )

  -- Setting it to values of 2^32 bytes or more in all frees the buffer or writes behind its end:
  -- its size is computed in 32 bits.
  pub cfg_set_overflow :
      (slot : ℕ) (type_name : CStr) (fresh : ℕ → ℕ) (sizes : ℕ → Option ℕ) (b : Option Block)
      → (name : Option CStr) (c : Config) (p : ℕ) (d : UbxData) (size : ℕ) (val : List ℕ) (n : ℕ)
      → (w : World T) → config_get b name ≡ some c
      → c.value ≡ some p
      → type_get w (some type_name) ≡ some c.type
      → w.heap.datas p ≡ some d
      → sizes d.type ≡ some size
      → (alloc w.heap).0 ≡ true
      → length val ≡ n * size
      → 2 ^ 32 ≤ n * size
      → cfg_set slot type_name fresh sizes b name val (pos n) w ≡ none
  unfolding cfg_set set_value data_resize
  cfg_set_overflow slot type_name fresh sizes b name c p d size val n w found held known at sized
        got fit large =
      let (w1, checked, heap1, _, _) = check_static_lem slot type_name c.type w known in
      let at1 : w1.heap.datas p ≡ some d = rw heap1 at in
      let got1 : (alloc w1.heap).0 ≡ true = rw heap1 got in
      let checks =
        checked_set slot type_name fresh sizes b name c p val (pos n) w w1 found held checked in
      elim (Bool-cases (only_frees (pos n) size d.buf)) [
        | inl frees ↦ checks ∙ rw (set_value, data_resize, at1, sized, frees) refl
        | inr stays ↦
            let (k, out, after) =
              data_resize-Resized fresh sizes p (pos n) d size w1.heap at1 sized got1 stays in
            let buf = resized fresh (new_size (pos n) size) (bytes_of d.buf) in
            let short : length buf < length val =
              omega (arith, length-resized fresh (new_size (pos n) size) (bytes_of d.buf)) in
            let there : k.datas p ≡ some (record d { len = pos n; buf = some buf }) =
              after p ∙ rw (==_refl p) refl in
            checks ∙ rw (set_value, out, there, copy_into_overflow val buf short) refl
      ]
