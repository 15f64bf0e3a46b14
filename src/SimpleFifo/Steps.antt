-- ===== src/SimpleFifo/Steps.antt =====
-- A write to simple_fifo, and a read from it.
use microblx.Base.{
  ℕ, ◌+◌, ◌-◌, ◌*◌, ◌/◌, ◌%◌, ◌^◌, ◌≤◌, ◌<◌, ◌≡◌, refl, sym, ap, ap₂, ◌∙◌, true, false, not, Option,
  some, arith, inl, inr, length, drop, ltb, ◌==◌, if◌then◌else◌, Bool-cases,
}
use microblx.Base.Int.{ℤ, pos, ltb_ℤ, pos-*ℤ}
use microblx.Store.Errors.{etype_mismatch}
use microblx.Store.Bytes.{memcpy, memcpy_fits}
use microblx.Data.{data_size}
use microblx.Cyclic.Queue.{Message}
use microblx.Cyclic.Held.{msg_data}
use microblx.SimpleFifo.{
  FifoInfo, used_space, make_space, chunks, store, set_type, fifo_write, read_sizes, fifo_copy,
  fifo_read,
}
use microblx.SimpleFifo.Stored.{
  Intake, take_in, nothing_read, Keeps, chunks_lem, make_space_lem, store_lem, set_type_known,
}

-- `fifo_write` after the lock, with the size of the message.
abbrev write_len : ℤ → Message → FifoInfo → Option FifoInfo
write_len len m inf =
    if ltb_ℤ (pos inf.size) len
    then some inf
    else let made = make_space len (record inf { type = set_type m.type inf.type }) in
      let parts = chunks len made.1 in
      if not made.0 then some made.1 else store m.bytes parts.0 parts.1 made.1

fifo_write_len :
    (size : ℕ → ℕ) (m : Message) (inf : FifoInfo)
    → fifo_write (pos 0) (λ t. some (size t)) (msg_data m) inf
      ≡ write_len (pos (m.len * size m.type)) m inf
unfolding fifo_write data_size
fifo_write_len size m inf = ap (λ (l : ℤ). write_len l m inf) (pos-*ℤ m.len (size m.type))

write_len_dropped :
    (len : ℕ) (m : Message) (inf : FifoInfo)
    → ltb inf.size len ≡ false
    → ltb (inf.size - inf.wrptr) len ≡ true
    → inf.rdptr ≡ 0
    → inf.overrun_policy ≡ 0
    → write_len (pos len) m inf
      ≡ some
          (record inf { type = set_type m.type inf.type; overruns = (inf.overruns + 1) % 2 ^ 64 })
write_len_dropped len m inf whole short start policy =
    let inf0 = record inf { type = set_type m.type inf.type } in
    let whole1 : ltb_ℤ (pos inf.size) (pos len) ≡ false = ground (arith, whole) in
    let made : make_space (pos len) inf0
        ≡ (false, record inf0 { overruns = (inf.overruns + 1) % 2 ^ 64 }) =
      make_space_lem len inf0 start policy ∙ rw short refl in
    rw (whole1, made) refl

write_len_stored :
    (n len : ℕ) (m : Message) (inf : FifoInfo)
    → inf.size ≡ n
    → inf.wrptr + len ≤ n
    → inf.rdptr ≡ 0
    → inf.overrun_policy ≡ 0
    → write_len (pos len) m inf
      ≡ store m.bytes (pos len) (pos 0) (record inf { type = set_type m.type inf.type })
write_len_stored n len m inf size fits start policy =
    let inf0 = record inf { type = set_type m.type inf.type } in
    let whole1 : ltb_ℤ (pos inf.size) (pos len) ≡ false = ground (arith, size, fits) in
    let long : ltb (inf.size - inf.wrptr) len ≡ false = ground (arith, size, fits) in
    let made : make_space (pos len) inf0 ≡ (true, inf0) =
      make_space_lem len inf0 start policy ∙ rw long refl in
    rw (whole1, made, chunks_lem n len inf0 size fits) refl

-- A message that fits is stored; another is not.
pub fifo_write-Keeps :
    (n : ℕ) (size : ℕ → ℕ) (m : Message) (s : Intake) (inf : FifoInfo)
    → Keeps n s inf
    → n < 2 ^ 64
    → m.len * size m.type ≤ length m.bytes
    → (inf1 : FifoInfo) × (fifo_write (pos 0) (λ t. some (size t)) (msg_data m) inf ≡ some inf1)
      × Keeps n (take_in n size m s) inf1
fifo_write-Keeps n size m s inf k small has =
    let len = m.len * size m.type in
    let starts = fifo_write_len size m inf in
    elim (Bool-cases (ltb n len)) [
      | inl e ↦
          let large : ltb_ℤ (pos inf.size) (pos len) ≡ true = ground (arith, e, k.sized) in
          (inf, starts ∙ rw large refl, rw e k)
      | inr e ↦ elim (Bool-cases (ltb n (length s.stored + len))) [
        | inl f ↦
            let whole : ltb inf.size len ≡ false = ground (arith, e, k.sized) in
            let short : ltb (inf.size - inf.wrptr) len ≡ true =
              ground (arith, f, k.sized, k.end, k.below) in
            (
              record inf {
                type = set_type m.type inf.type;
                overruns = (inf.overruns + 1) % 2 ^ 64;
              },
              starts ∙ write_len_dropped len m inf whole short k.start k.no_policy,
              rw (e, f)
                  (record {
                    sized = k.sized;
                    buffer = k.buffer;
                    start = k.start;
                    end = k.end;
                    below = k.below;
                    bytes = k.bytes;
                    typed = ap (set_type m.type) k.typed;
                    no_policy = k.no_policy;
                    known = inr (set_type_known m.type s.type);
                  }),
            )
        | inr f ↦
            let fits : length s.stored + len ≤ n = ground (arith, f) in
            let (inf1, out, k1) = store_lem n len s m.type m.bytes inf k small fits has in
            (
              inf1,
              starts
                  ∙ write_len_stored n len m inf k.sized (omega (arith, fits, k.end)) k.start
                      k.no_policy
                  ∙ out,
              rw (e, f) k1,
            )
      ]
    ]

read_sizes_lem : (inf : FifoInfo) → inf.rdptr ≡ 0 → read_sizes inf ≡ (0, 0)
unfolding read_sizes
read_sizes_lem inf start =
    let sizes : ltb (used_space inf) 0 ≡ false = ground arith in
    let ahead : ltb inf.wrptr inf.rdptr ≡ false = ground (arith, start) in
    rw (read_sizes, sizes, ahead) refl

fifo_copy_lem :
    (size : ℕ → ℕ) (t : ℕ) (room : Message) (inf : FifoInfo)
    → inf.rdptr ≡ 0
    → 0 < size t
    → fifo_copy (λ u. some (size u)) t (msg_data room) inf ≡ some (pos 0, msg_data room, inf)
unfolding fifo_copy
fifo_copy_lem size t room inf start some_size =
    let none_copied : memcpy 0 (drop inf.rdptr inf.buff) room.bytes ≡ some room.bytes =
      memcpy_fits 0 (drop inf.rdptr inf.buff) room.bytes (omega arith) (omega arith) in
    let divides : (size t == 0) ≡ false = ground (arith, some_size) in
    let same : record inf { rdptr = 0 } ≡ inf = ap (λ n. record inf { rdptr = n }) (sym start) in
    let values : 0 / size t ≡ 0 = omega (arith, some_size) in
    rw (fifo_copy, read_sizes_lem inf start, none_copied, divides)
      (ap (λ (p : ℕ × ℕ). some (pos (p.0 / size t), msg_data room, record inf { rdptr = p.1 }))
          (read_sizes_lem inf start)
        ∙ ap₂ (λ n (i : FifoInfo). some (pos n, msg_data room, i)) values same)

-- Nothing is read, however much is stored.
pub fifo_read-Keeps :
    (n : ℕ) (size : ℕ → ℕ) (room : Message) (s : Intake) (inf : FifoInfo)
    → Keeps n s inf
    → ((t : ℕ) → 0 < size t)
    → fifo_read (pos 0) (λ t. some (size t)) (msg_data room) inf
      ≡ some (nothing_read s room, msg_data room, inf)
unfolding fifo_read
fifo_read-Keeps n size room s inf k some_size = elim (Bool-cases (length s.stored == 0)) [
  | inl e ↦
      let empty : (inf.rdptr == inf.wrptr) ≡ true = ground (arith, e, k.start, k.end) in
      rw (fifo_read, empty, e) refl
  | inr e ↦ elim k.known [
    | inl none_stored ↦ absurd (ground (arith, e, none_stored))
    | inr (t, type) ↦
        let some_stored : (inf.rdptr == inf.wrptr) ≡ false = ground (arith, e, k.start, k.end) in
        let type1 : inf.type ≡ some t = k.typed ∙ type in
        elim (Bool-cases (room.type == t)) [
          | inr other ↦
              rw (fifo_read, some_stored, type1, type, other, e)
                (ap
                  (λ (o : Option ℕ). some (etype_mismatch, msg_data room, record inf { type = o }))
                  type1)
          | inl same ↦
              rw (fifo_read, some_stored, type1, type, same, e)
                (fifo_copy_lem size t room inf k.start (some_size t)
                  ∙ ap (λ (o : Option ℕ). some (pos 0, msg_data room, record inf { type = o }))
                      type1)
        ]
  ]
]
