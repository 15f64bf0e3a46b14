-- ===== src/Cyclic/Examples.antt =====
-- A ring buffer of lists, on which a block of two bytes and room for two messages runs.
use microblx.Base.{
  ℕ, ◌≡◌, refl, sym, ap, ap₂, Bool, true, false, Option, some, none, List, [], ◌∷◌, ◌++◌, arith,
  replicate, some_eq,
}
use microblx.Base.Int.{pos, negsuc}
use microblx.Cyclic.{Elem, RingBuffer, CyclicInfo, CyclicConfig, cyclic_init, cyclic_data_elem_init}
use microblx.Cyclic.Queue.{Message, Limits, write, read, QueueOp, queue_run, written, got}
use microblx.Cyclic.Refine.{limits, no_messages, Configured, ring_run, cyclic_run-queue_run}
use microblx.Cyclic.Order.{writes, reads, latest_messages_read}

record ListRing : Type 0 where
  pub waiting : List Elem
  pub free : List Elem

abbrev no_elem : Elem
no_elem = record { data_len = pos 0; bytes = [] }

abbrev write_elem : List Elem → List Elem → Elem × Bool × ListRing
write_elem ws (e ∷ es) = (e, false, record { waiting = ws; free = es })
write_elem (e ∷ es) [] = (e, true, record { waiting = es; free = [] })
write_elem [] [] = (no_elem, false, record { waiting = []; free = [] })

abbrev read_elem : List Elem → List Elem → Option (Elem × ListRing)
read_elem [] es = none
read_elem (w ∷ ws) es = some (w, record { waiting = ws; free = es })

abbrev with_free : List Elem → ListRing
with_free es = record { waiting = []; free = es }

instance abbrev list_ring : RingBuffer ListRing
list_ring = record {
  ringbuffer_new = λ n e. some (with_free (replicate n e));
  get_write_element = λ s. write_elem s.waiting s.free;
  put_write_element = λ e s. record s { waiting = s.waiting ++ e ∷ [] };
  get_read_element = λ s. read_elem s.waiting s.free;
  put_read_element = λ e s. record s { free = e ∷ s.free };
  queued = λ s. s.waiting;
  spare = λ s. s.free;
  new_lem = λ n e s h. (
    ap (λ (x : ListRing). x.waiting) (sym (some_eq h)),
    ap (λ (x : ListRing). x.free) (sym (some_eq h)),
  );
  get_write_spare = λ s e es h.
      (record { waiting = s.waiting; free = es }, ap (write_elem s.waiting) h, refl, refl);
  get_write_full =
      λ s e es h k. (record { waiting = es; free = [] }, ap₂ write_elem k h, refl, refl);
  put_write_lem = λ e s. (refl, refl);
  get_read_empty = λ s h. ap (λ ws. read_elem ws s.free) h;
  get_read_oldest = λ s e es h.
      (record { waiting = es; free = s.free }, ap (λ ws. read_elem ws s.free) h, refl, refl);
  put_read_lem = λ e s. (refl, refl);
}

abbrev two_bytes : CyclicConfig
two_bytes = record {
  loglevel_overruns = some (negsuc 0);
  buffer_len = some 2;
  data_len = some (some 2);
  type = some (7, 1);
  allow_partial = none;
}

two_bytes-Configured : Configured ListRing two_bytes 2 7 1
two_bytes-Configured = record {
  log_level = refl;
  some_room = omega arith;
  len = (some 2, refl, refl);
  typed = refl;
  memory = (with_free (replicate 2 (cyclic_data_elem_init 2 1)), refl);
}

abbrev sizes : ℕ → Option ℕ
sizes t = some 1

abbrev msg : ℕ → ℕ → Message
msg a b = record { type = 7; len = 2; bytes = a ∷ b ∷ [] }

abbrev two_limits : Limits
two_limits = limits two_bytes 2 7 1

-- Two messages, of which one is read, and three more.
abbrev mixed : List QueueOp
mixed =
    write (msg 1 2)
    ∷ write (msg 3 4)
    ∷ read (msg 0 0)
    ∷ write (msg 5 6)
    ∷ write (msg 7 8)
    ∷ read (msg 9 9)
    ∷ []

mixed_run : queue_run two_limits mixed no_messages ≡ (
  written ∷ written ∷ got (pos 2) (1 ∷ 2 ∷ []) ∷ written ∷ written ∷ got (pos 2) (5 ∷ 6 ∷ []) ∷ [],
  record { messages = msg 7 8 ∷ []; dropped = 1 },
)
mixed_run = refl

cyclic_run-queue_run_example :
    (inf : CyclicInfo ListRing) × (inf' : CyclicInfo ListRing) × (cyclic_init true two_bytes
      ≡ (pos 0, some inf))
    × (ring_run sizes mixed (inf, [])
        ≡ some (
          written
              ∷ written
              ∷ got (pos 2) (1 ∷ 2 ∷ [])
              ∷ written
              ∷ written
              ∷ got (pos 2) (5 ∷ 6 ∷ [])
              ∷ [],
          inf',
          1 ∷ [],
        ))
cyclic_run-queue_run_example =
    cyclic_run-queue_run two_bytes 2 7 1 sizes mixed two_bytes-Configured refl (omega arith)
      (omega arith, (omega arith, (omega arith, (omega arith, (omega arith, (omega arith, tt))))))

latest_messages_read_example :
    (inf : CyclicInfo ListRing) × (inf' : CyclicInfo ListRing) × (cyclic_init true two_bytes
      ≡ (pos 0, some inf))
    × (ring_run sizes (writes (msg 1 2 ∷ msg 3 4 ∷ msg 5 6 ∷ []) ++ reads 2 (msg 0 0)) (inf, [])
        ≡ some (
          written ∷ written ∷ written ∷ got (pos 2) (3 ∷ 4 ∷ []) ∷ got (pos 2) (5 ∷ 6 ∷ []) ∷ [],
          inf',
          1 ∷ [],
        ))
latest_messages_read_example =
    latest_messages_read two_bytes 2 7 1 sizes (msg 1 2 ∷ msg 3 4 ∷ msg 5 6 ∷ []) (msg 0 0)
      two_bytes-Configured refl (omega arith)
      ((refl, refl, refl), ((refl, refl, refl), ((refl, refl, refl), tt))) (refl, refl, refl)
