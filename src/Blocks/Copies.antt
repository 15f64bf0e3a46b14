-- ===== src/Blocks/Copies.antt =====
-- The copies of a prototype's configs and ports that ubx_block_clone makes.
use microblx.Base.{
  ◌≤◌, ◌≡◌, ◌≢◌, refl, sym, ◌∙◌, ap, false, none, some, List, [], ◌∷◌, ◌++◌, arith, All,
  append-snoc, append-empty, length, take, ltb,
}
use microblx.Base.Int.{pos}
use microblx.Store.{Block, Config, Port, Heap, alloc}
use microblx.Store.Strings.{take_short}
use microblx.Store.Named.{fresh-append, Distinct}
use microblx.Data.{data_alloc_typed}
use microblx.Config.{
  Added, config_find, config_add_typed, config_append, config_name, config_name_maxlen,
  effective_max,
}
use microblx.Config.Add.{IsConfig}
use microblx.Port.{port_find, port_add_typed, port_name, port_name_maxlen, default_len, port_new}
use microblx.Blocks.{clone_configs, clone_ports, or_cloned}

-- A config made from another one: the same but for the attribute, with a value of its own.
pub record CopyOf (c x : Config) : Type 0 where
  pub same_name : x.name ≡ c.name
  pub same_type : x.type ≡ c.type
  pub same_min : x.min ≡ c.min
  pub same_max : x.max ≡ c.max
  pub is_cloned : x.attrs ≡ or_cloned c.attrs
  pub has_value : x.value ≢ none

abbrev pub CopiesOf : List Config → List Config → Type 0
CopiesOf [] [] = Unit {0}
CopiesOf (c ∷ cs) (x ∷ xs) = CopyOf c x × CopiesOf cs xs
CopiesOf _ _ = ⊥

config_add-CopyOf :
    (c : Config) (b : Block) (h : Heap)
    → h.outcomes ≡ []
    → IsConfig c
    → config_find c.name b.configs ≡ none
    → (x : Config) × CopyOf c x
      × ((config_add_typed b c.name none c.type c.min c.max (or_cloned c.attrs) h).0 ≡ pos 0)
      × ((config_add_typed b c.name none c.type c.min c.max (or_cloned c.attrs) h).1
          ≡ record b { configs = b.configs ++ x ∷ [] })
      × ((config_add_typed b c.name none c.type c.min c.max (or_cloned c.attrs) h).2.outcomes ≡ [])
unfolding config_add_typed config_append alloc data_alloc_typed
config_add-CopyOf c b h plenty valid fresh =
    let upper : effective_max c.min c.max ≡ c.max = ground (arith, valid.range) in
    let short : ltb config_name_maxlen (length c.name) ≡ false = ground (arith, valid.short) in
    let range : ltb c.max c.min ≡ false = ground (arith, valid.range) in
    let whole : take config_name_maxlen c.name ≡ c.name = take_short 39 c.name valid.short in
    (
      record c { doc = none; attrs = or_cloned c.attrs; value = some h.next },
      record {
        same_name = refl;
        same_type = refl;
        same_min = refl;
        same_max = refl;
        is_cloned = refl;
        has_value = λ e. cc;
      },
      rw (fresh, plenty, upper, short, range) refl,
      rw (fresh, plenty, upper, short, range, whole) refl,
      rw (fresh, plenty, upper, short, range) refl,
    )

-- With memory, the loop over valid configs, whose names are new to the block, appends their copies.
pub clone_configs-CopiesOf :
    (cs : List Config) (b : Block) (h : Heap)
    → h.outcomes ≡ []
    → All IsConfig cs
    → Distinct config_name config_name_maxlen cs
    → All (λ c. config_find c.name b.configs ≡ none) cs
    → (xs : List Config) × CopiesOf cs xs
      × ((clone_configs cs b h).0 ≡ pos 0)
      × ((clone_configs cs b h).1 ≡ record b { configs = b.configs ++ xs })
      × ((clone_configs cs b h).2.outcomes ≡ [])
unfolding clone_configs
clone_configs-CopiesOf [] b h plenty each distinct fresh =
    ([], tt, refl, ap (λ l. record b { configs = l }) (sym (append-empty b.configs)), plenty)
clone_configs-CopiesOf (c ∷ cs) b h plenty each distinct fresh =
    let (x, copy, ok, block, left) = config_add-CopyOf c b h plenty each.0 fresh.0 in
    let r = config_add_typed b c.name none c.type c.min c.max (or_cloned c.attrs) h in
    let new : All (λ z. config_find z.name r.1.configs ≡ none) cs = rw block (
      fresh-append config_name config_name_maxlen cs b.configs x fresh.1 (rw copy.same_name fresh.0)
        (rw copy.same_name distinct.0)) in
    let (xs, copies, ok', block', left') =
      clone_configs-CopiesOf cs r.1 r.2 left each.1 distinct.1 new in
    (
      x ∷ xs,
      (copy, copies),
      rw ok ok',
      rw ok block'
          ∙ ap {A = Block} (λ k. record k { configs = k.configs ++ xs }) block
          ∙ ap (λ l. record b { configs = l }) (append-snoc b.configs x xs),
      rw ok left',
    )

-- A port made from another one: the same, unconnected, but for the attribute, and with length 1
-- for length 0.
pub record PortCopy (p x : Port) : Type 0 where
  pub same_name : x.name ≡ p.name
  pub same_in : (x.in_type ≡ p.in_type) × (x.in_data_len ≡ default_len p.in_data_len)
  pub same_out : (x.out_type ≡ p.out_type) × (x.out_data_len ≡ default_len p.out_data_len)
  pub is_cloned : x.attrs ≡ or_cloned p.attrs
  pub unconnected : (x.in_interaction ≡ none) × (x.out_interaction ≡ none)

abbrev pub PortCopies : List Port → List Port → Type 0
PortCopies [] [] = Unit {0}
PortCopies (p ∷ ps) (x ∷ xs) = PortCopy p x × PortCopies ps xs
PortCopies _ _ = ⊥

abbrev cloned_port : Port → Block → Heap → Added
cloned_port p b h =
    port_add_typed b p.name none (or_cloned p.attrs) p.in_type p.in_data_len p.out_type
      p.out_data_len h

port_add-PortCopy :
    (p : Port) (b : Block) (h : Heap)
    → h.outcomes ≡ []
    → length p.name ≤ port_name_maxlen
    → port_find p.name b.ports ≡ none
    → (x : Port) × PortCopy p x
      × ((cloned_port p b h).0 ≡ pos 0)
      × ((cloned_port p b h).1 ≡ record b { ports = b.ports ++ x ∷ [] })
      × ((cloned_port p b h).2.outcomes ≡ [])
unfolding port_add_typed alloc
port_add-PortCopy p b h plenty valid fresh =
    let short : ltb port_name_maxlen (length p.name) ≡ false = ground (arith, valid) in
    let whole : take port_name_maxlen p.name ≡ p.name = take_short 39 p.name valid in
    (
      record (port_new p.name none (or_cloned p.attrs) p.in_type p.in_data_len p.out_type
          p.out_data_len) { name = p.name },
      record {
        same_name = refl;
        same_in = (refl, refl);
        same_out = (refl, refl);
        is_cloned = refl;
        unconnected = (refl, refl);
      },
      rw (fresh, plenty, short) refl,
      rw (fresh, plenty, short, whole) refl,
      rw (fresh, plenty, short) refl,
    )

-- With memory, the loop over valid ports, whose names are new to the block, appends their copies.
pub clone_ports-PortCopies :
    (ps : List Port) (b : Block) (h : Heap)
    → h.outcomes ≡ []
    → All (λ p. length p.name ≤ port_name_maxlen) ps
    → Distinct port_name port_name_maxlen ps
    → All (λ p. port_find p.name b.ports ≡ none) ps
    → (xs : List Port) × PortCopies ps xs
      × ((clone_ports ps b h).0 ≡ pos 0)
      × ((clone_ports ps b h).1 ≡ record b { ports = b.ports ++ xs })
      × ((clone_ports ps b h).2.outcomes ≡ [])
unfolding clone_ports
clone_ports-PortCopies [] b h plenty each distinct fresh =
    ([], tt, refl, ap (λ l. record b { ports = l }) (sym (append-empty b.ports)), plenty)
clone_ports-PortCopies (p ∷ ps) b h plenty each distinct fresh =
    let (x, copy, ok, block, left) = port_add-PortCopy p b h plenty each.0 fresh.0 in
    let r = cloned_port p b h in
    let new : All (λ z. port_find z.name r.1.ports ≡ none) ps = rw block (
      fresh-append port_name port_name_maxlen ps b.ports x fresh.1 (rw copy.same_name fresh.0)
        (rw copy.same_name distinct.0)) in
    let (xs, copies, ok', block', left') =
      clone_ports-PortCopies ps r.1 r.2 left each.1 distinct.1 new in
    (
      x ∷ xs,
      (copy, copies),
      rw ok ok',
      rw ok block'
          ∙ ap {A = Block} (λ k. record k { ports = k.ports ++ xs }) block
          ∙ ap (λ l. record b { ports = l }) (append-snoc b.ports x xs),
      rw ok left',
    )
