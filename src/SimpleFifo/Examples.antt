-- ===== src/SimpleFifo/Examples.antt =====
-- A simple_fifo of four bytes.
use microblx.Base.{ℕ, ◌≡◌, refl, true, Option, some, List, [], ◌∷◌, take, length, replicate, arith}
use microblx.Base.Int.{pos}
use microblx.Store.Errors.{etype_mismatch}
use microblx.Cyclic.Queue.{Message, QueueOp, write, read, written, got}
use microblx.SimpleFifo.{FifoInfo, fifo_init}
use microblx.SimpleFifo.Runs.{fifo_run, fifo_run-intake_run}

abbrev one_byte : ℕ → ℕ
one_byte t = 1

abbrev byte_msg : ℕ → List ℕ → Message
byte_msg t bytes = record { type = t; len = length bytes; bytes = bytes }

abbrev memory : ℕ → Option (List ℕ)
memory n = some (replicate n 9)

-- Three bytes are stored, nothing is read, one more byte fills the buffer, and another is stored.
abbrev some_ops : List QueueOp
some_ops =
    write (byte_msg 7 (1 ∷ 2 ∷ 3 ∷ []))
    ∷ read (byte_msg 7 (0 ∷ 0 ∷ []))
    ∷ read (byte_msg 8 (0 ∷ []))
    ∷ write (byte_msg 7 (4 ∷ []))
    ∷ read (byte_msg 7 (0 ∷ []))
    ∷ write (byte_msg 7 (5 ∷ []))
    ∷ []

fifo_run-intake_run_example :
    (inf : FifoInfo) × (inf1 : FifoInfo) × (fifo_init true memory (some 4) ≡ (pos 0, some inf))
    × (fifo_run one_byte some_ops inf
        ≡ some (
          written
              ∷ got (pos 0) (0 ∷ 0 ∷ [])
              ∷ got etype_mismatch (0 ∷ [])
              ∷ written
              ∷ got (pos 0) (0 ∷ [])
              ∷ written
              ∷ [],
          inf1,
        ))
    × (take 1 inf1.buff ≡ 5 ∷ [])
fifo_run-intake_run_example =
    fifo_run-intake_run memory (some 4) (9 ∷ 9 ∷ 9 ∷ 9 ∷ []) one_byte some_ops refl refl
      (omega arith) (omega arith) (λ t. omega arith) (omega arith, (omega arith, (omega arith, tt)))
