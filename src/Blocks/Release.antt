-- ===== src/Blocks/Release.antt =====
-- Releasing the configs and the ports of a block.
use microblx.Base.{
  ℕ, ◌≡◌, refl, sym, ◌∙◌, subst, none, some, List, [], ◌∷◌, ◌++◌, append_assoc, Option,
}
use microblx.Store.{Config, Port, Heap, free}
use microblx.Data.Refs.{held_value, Refs, data_free-Refs}
use microblx.Config.{free_doc, free_value, config_free}
use microblx.Port.{free_array, port_free}
use microblx.Blocks.{free_configs, free_ports}

-- The values that a list of configs holds.
abbrev pub config_values : List Config → List ℕ
config_values [] = []
config_values (c ∷ cs) = held_value c.value ++ config_values cs

pub datas-free_doc : (doc : Option (List ℕ)) (h : Heap) → (free_doc doc h).datas ≡ h.datas
unfolding free
datas-free_doc none h = refl
datas-free_doc (some d) h = refl

datas-free_array : (a : Option (List (Option ℕ))) (h : Heap) → (free_array a h).datas ≡ h.datas
unfolding free
datas-free_array none h = refl
datas-free_array (some d) h = refl

datas-port_free : (p : Port) (h : Heap) → (port_free p h).datas ≡ h.datas
unfolding port_free free
datas-port_free p h =
    datas-free_doc p.doc (free_array p.out_interaction (free_array p.in_interaction h))
    ∙ datas-free_array p.out_interaction (free_array p.in_interaction h)
    ∙ datas-free_array p.in_interaction h

pub datas-free_ports : (ps : List Port) (h : Heap) → (free_ports ps h).datas ≡ h.datas
unfolding free_ports
datas-free_ports [] h = refl
datas-free_ports (p ∷ ps) h = datas-free_ports ps (port_free p h) ∙ datas-port_free p h

free_value-Refs :
    (v : Option ℕ) (held : List ℕ) (h : Heap)
    → Refs h.datas (held_value v ++ held)
    → (k : Heap) × (free_value v h ≡ some k) × Refs k.datas held
free_value-Refs none held h refs = (h, refl, refs)
free_value-Refs (some p) held h refs = data_free-Refs p held h refs

-- Releasing a config meets no fault where its value is counted, and keeps the other counts right.
pub config_free-Refs :
    (c : Config) (held : List ℕ) (h : Heap)
    → Refs h.datas (held_value c.value ++ held)
    → (k : Heap) × (config_free c h ≡ some k) × Refs k.datas held
unfolding config_free free
config_free-Refs c held h refs =
    let undocumented =
      subst (λ d. Refs d (held_value c.value ++ held)) (sym (datas-free_doc c.doc h)) refs in
    let (k, freed, left) = free_value-Refs c.value held (free_doc c.doc h) undocumented in
    (free k, rw (freed, config_free) refl, left)

pub free_configs-Refs :
    (cs : List Config) (held : List ℕ) (h : Heap)
    → Refs h.datas (config_values cs ++ held)
    → (k : Heap) × (free_configs cs h ≡ some k) × Refs k.datas held
unfolding free_configs
free_configs-Refs [] held h refs = (h, refl, refs)
free_configs-Refs (c ∷ cs) held h refs =
    let split =
      subst (Refs h.datas) (append_assoc (held_value c.value) (config_values cs) held) refs in
    let (k, freed, left) = config_free-Refs c (config_values cs ++ held) h split in
    let (k', all, none_left) = free_configs-Refs cs held k left in
    (k', rw (freed, free_configs) all, none_left)
