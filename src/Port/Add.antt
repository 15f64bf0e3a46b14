-- ===== src/Port/Add.antt =====
-- What adding and removing a port does, on every branch.
use microblx.Base.{
  ℕ, ◌≤◌, ◌<◌, ◌≡◌, refl, false, Option, none, some, List, [], ◌∷◌, ◌++◌, length, All, All-append,
  arith, ◌⊎◌, inl, inr, if◌then◌else◌, ltb, Option-cases, Bool-cases,
}
use microblx.Base.Int.{ℤ, pos}
use microblx.Store.{CStr, Port, Block, Heap, alloc}
use microblx.Store.Strings.{strn_eq, take_short}
use microblx.Store.Named.{Distinct, append-Distinct, delete-Distinct, find-delete_any, All-delete}
use microblx.Store.Errors.{eentexists, eoutofmem, einvalid_port, enosuchent}
use microblx.Config.{Added, dup_doc}
use microblx.Port.{
  port_name, port_name_maxlen, port_find, port_delete, port_new, port_add_typed, port_rm,
}

-- The ports of a block have distinct names of at most 39 bytes.
pub record PortsValid (ps : List Port) : Type 0 where
  pub distinct : Distinct port_name port_name_maxlen ps
  pub each : All (λ p. length p.name ≤ port_name_maxlen) ps

-- Why `__ubx_port_add` refuses.
pub data Refusal (name : CStr) (doc : Option CStr) (ps : List Port) (h : Heap) (code : ℤ)
    : Type 0 where
  exists : code ≡ eentexists → (p : Port) → port_find name ps ≡ some p → Refusal name doc ps h code
  too_long : code ≡ einvalid_port → port_name_maxlen < length name → Refusal name doc ps h code
  no_struct : code ≡ eoutofmem → (alloc h).0 ≡ false → Refusal name doc ps h code
  no_doc : code ≡ eoutofmem → (dup_doc doc (alloc h).1).0 ≡ false → Refusal name doc ps h code

module _ (b : Block) (name : CStr) (doc : Option CStr) (attrs : ℕ) (it : Option ℕ) (il : ℤ)
    (ot : Option ℕ) (ol : ℤ) (h : Heap) where
  abbrev added : Added
  added = port_add_typed b name doc attrs it il ot ol h

  -- Either the port is appended, unconnected and under its whole name, to a block that had none of
  -- that name, and length 0 stands for length 1; or the block is as it was and the code tells why.
  pub port_add_cases :
      ((added.0 ≡ pos 0)
        × (added.1 ≡ record b {
          ports = b.ports ++ record (port_new name doc attrs it il ot ol) { name = name } ∷ [];
        })
        × (length name ≤ port_name_maxlen)
        × (port_find name b.ports ≡ none))
      ⊎ (Refusal name doc b.ports h added.0 × (added.1 ≡ b))
  unfolding port_add_typed
  port_add_cases = elim (Option-cases (port_find name b.ports)) [
    | inr (c, e) ↦ inr (exists (rw e refl) c e, rw e refl)
    | inl fresh ↦ elim (Bool-cases (alloc h).0) [
      | inr e ↦ inr (no_struct (rw (fresh, e) refl) e, rw (fresh, e) refl)
      | inl got ↦ elim (Bool-cases (ltb port_name_maxlen (length name))) [
        | inl e ↦ inr (too_long (rw (fresh, got, e) refl) (ground arith), rw (fresh, got, e) refl)
        | inr short ↦ elim (Bool-cases (dup_doc doc (alloc h).1).0) [
          | inr e ↦ inr (no_doc (rw (fresh, got, short, e) refl) e, rw (fresh, got, short, e) refl)
          | inl duped ↦
              let fits : length name ≤ port_name_maxlen = ground arith in
              inl (
                rw (fresh, got, short, duped) refl,
                rw (fresh, got, short, duped, take_short 39 name fits) refl,
                fits,
                fresh,
              )
        ]
      ]
    ]
  ]

  -- Whatever its result, adding a port keeps the ports of the block valid.
  pub port_add-PortsValid : PortsValid b.ports → PortsValid added.1.ports
  port_add-PortsValid v = elim port_add_cases [
    | inl (ok, block, short, fresh) ↦ rw block (record {
      distinct = append-Distinct port_name port_name_maxlen b.ports _ v.distinct fresh;
      each = All-append (λ p. length p.name ≤ port_name_maxlen) b.ports _ v.each (short, tt);
    })
    | inr (why, same) ↦ rw same v
  ]

-- What is left after `ubx_port_rm`: the code, and the ports found under each name.
pub data Removed (name : CStr) (b b' : Block) (ret : ℤ) : Type 0 where
  missing : ret ≡ enosuchent → port_find name b.ports ≡ none → b' ≡ b → Removed name b b' ret
  deleted :
      ret ≡ pos 0
      → ((other : CStr)
          → port_find other b'.ports
            ≡ (if strn_eq port_name_maxlen other name then none else port_find other b.ports))
      → PortsValid b'.ports
      → Removed name b b' ret

-- On a block with valid ports, `ubx_port_rm` either finds no such port and changes nothing, or
-- leaves none of that name, every other one as it was found before, and the ports valid.
pub port_rm-Removed :
    (b : Block) (name : CStr) (h : Heap)
    → PortsValid b.ports
    → (b' : Block) × ((port_rm (some b) (some name) h).1 ≡ some b')
      × Removed name b b' (port_rm (some b) (some name) h).0
unfolding port_rm
port_rm-Removed b name h v = elim (Option-cases (port_find name b.ports)) [
  | inl e ↦ (b, rw (e, port_rm) refl, missing (rw (e, port_rm) refl) e refl)
  | inr (p, e) ↦ (
    record b { ports = port_delete name b.ports },
    rw (e, port_rm) refl,
    deleted (rw (e, port_rm) refl)
        (λ other. find-delete_any port_name port_name_maxlen name other b.ports v.distinct)
        (record {
          distinct = delete-Distinct port_name port_name_maxlen name b.ports v.distinct;
          each =
              All-delete port_name port_name_maxlen (λ q. length q.name ≤ port_name_maxlen) name
                b.ports v.each;
        }),
  )
]
