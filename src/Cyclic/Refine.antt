-- ===== src/Cyclic/Refine.antt =====
-- The block ubx/lfds_cyclic implements a bounded queue that drops its oldest messages.
use microblx.Base.{
  or_default, ℕ, zero, suc, ◌*◌, ◌^◌, ◌<◌, ◌≡◌, refl, sym, ap, subst, ◌∙◌, true, false, not, Option,
  none, some, List, [], ◌∷◌, arith, length, replicate, All, ◌==◌,
}
use microblx.Base.Int.{pos, eqb_ℤ}
use microblx.Data.Resize.{bytes_of}
use microblx.Cyclic.{Elem, RingBuffer, CyclicInfo, cyclic_write, cyclic_read}
use microblx.Cyclic.Queue.{
  Limits, Queue, enqueue, dequeue, QueueOp, write, read, Shown, written, got, queue_run, reports,
}
use microblx.Cyclic.{
  CyclicConfig, cyclic_init, is_loglevel, ubx_loglevel_notice, cyclic_data_elem_init,
}
use microblx.Cyclic.Held.{Roomy, Held, Stands, msg_data, Complete, Proper}
use microblx.Cyclic.Write.{cyclic_write-Stands}
use microblx.Cyclic.Read.{cyclic_read-Taken}

module _ {S : Type 0} ⦃r : RingBuffer S⦄ (sizes : ℕ → Option ℕ) where
  -- The same operations on the block: what is shown, and the private data with what was reported.
  abbrev pub ring_step : QueueOp → CyclicInfo S × List ℕ → Option (Shown × CyclicInfo S × List ℕ)
  ring_step (write m) (inf, sent) = elim (cyclic_write sizes (msg_data m) inf sent) [
    | none ↦ none
    | some (inf1, sent1) ↦ some (written, inf1, sent1)
  ]
  ring_step (read room) (inf, sent) = elim (cyclic_read sizes (msg_data room) inf) [
    | none ↦ none
    | some (ret, msg, inf1) ↦ some (got ret (bytes_of msg.buf), inf1, sent)
  ]

  abbrev pub ring_run :
      List QueueOp → CyclicInfo S × List ℕ → Option (List Shown × CyclicInfo S × List ℕ)
  ring_run [] (inf, sent) = some ([], inf, sent)
  ring_run (op ∷ ops) s = elim (ring_step op s) [
    | none ↦ none
    | some (shown, inf1, sent1) ↦ elim (ring_run ops (inf1, sent1)) [
      | none ↦ none
      | some (rest, inf2, sent2) ↦ some (shown ∷ rest, inf2, sent2)
    ]
  ]

-- The messages and the rooms of operations have the bytes of their values.
abbrev pub AllComplete : Limits → List QueueOp → Type 0
AllComplete l [] = Unit
AllComplete l (write m ∷ ops) = Complete l m × AllComplete l ops
AllComplete l (read m ∷ ops) = Complete l m × AllComplete l ops

-- The limits that the configs set.
abbrev pub limits : CyclicConfig → ℕ → ℕ → ℕ → Limits
limits cfg data_len t size = record {
  type = t;
  size = size;
  data_len = data_len;
  capacity = or_default 1 cfg.buffer_len;
  partial = not (eqb_ℤ (or_default (pos 0) cfg.allow_partial) (pos 0));
}

abbrev pub no_messages : Queue
no_messages = record { messages = []; dropped = 0 }

All-replicate : (l : Limits) (n : ℕ) (e : Elem) → Roomy l e → All (Roomy l) (replicate n e)
All-replicate l zero e h = tt
All-replicate l (suc n) e h = (h, All-replicate l n e h)

length-replicate {ℓ} : {A : Type ℓ} (n : ℕ) (a : A) → length (replicate n a) ≡ n
length-replicate zero a = refl
length-replicate (suc n) a = omega (arith, length-replicate n a)

-- Valid configs, with memory at hand: the block is initialised.
pub record Configured (S : Type 0) ⦃r : RingBuffer S⦄ (cfg : CyclicConfig) (data_len t size : ℕ)
    : Type 0 where
  pub log_level : is_loglevel (or_default ubx_loglevel_notice cfg.loglevel_overruns) ≡ true
  pub some_room : 0 < or_default 1 cfg.buffer_len
  pub len : (n : Option ℕ) × (cfg.data_len ≡ some n) × (or_default 1 n ≡ data_len)
  pub typed : cfg.type ≡ some (t, size)
  pub memory :
      (rbs : S) × (r.ringbuffer_new
          (or_default 1 cfg.buffer_len)
          (cyclic_data_elem_init data_len size)
        ≡ some rbs)

module _ {S : Type 0} ⦃r : RingBuffer S⦄ where
  ring_run-Stands :
      (l : Limits) (sizes : ℕ → Option ℕ) (ops : List QueueOp) (inf : CyclicInfo S) (sent : List ℕ)
      (q : Queue)
      → Proper l sizes
      → AllComplete l ops
      → Stands l inf sent q
      → let (shown, q') = queue_run l ops q in
        (inf' : CyclicInfo S) × (sent' : List ℕ) × (ring_run sizes ops (inf, sent)
          ≡ some (shown, inf', sent'))
        × Stands l inf' sent' q'
  ring_run-Stands l sizes [] inf sent q proper complete s = (inf, sent, refl, s)
  ring_run-Stands l sizes (write m ∷ ops) inf sent q proper (has, complete) s =
      let (inf1, sent1, out, s1) = cyclic_write-Stands l sizes m inf sent q proper has s in
      let (inf2, sent2, rest, s2) =
        ring_run-Stands l sizes ops inf1 sent1 (enqueue l m q) proper complete s1 in
      (inf2, sent2, rw (ring_run, ring_step, out, rest) refl, s2)
  ring_run-Stands l sizes (read m ∷ ops) inf sent q proper (has, complete) s =
      let (inf1, out, s1) = cyclic_read-Taken l sizes m inf sent q proper has s in
      let (inf2, sent2, rest, s2) =
        ring_run-Stands l sizes ops inf1 sent (dequeue l m q).2 proper complete s1 in
      (inf2, sent2, rw (ring_run, ring_step, out, rest) refl, s2)

  init-Stands :
      (cfg : CyclicConfig) (data_len t size : ℕ)
      → Configured S cfg data_len t size
      → (inf : CyclicInfo S) × (cyclic_init true cfg ≡ (pos 0, some inf))
        × Stands (limits cfg data_len t size) inf [] no_messages
  unfolding cyclic_init
  init-Stands cfg data_len t size c =
      let (opt, len, same) = c.len in
      let (rbs, new) = c.memory in
      let n = or_default 1 cfg.buffer_len in
      let some_room : (n == 0) ≡ false = ground (arith, c.some_room) in
      let e = cyclic_data_elem_init data_len size in
      let (queue, free) = r.new_lem n e rbs new in
      let new1 : r.ringbuffer_new n (cyclic_data_elem_init (or_default 1 opt) size) ≡ some rbs =
        rw same new in
      let inf : CyclicInfo S = record {
        type = t;
        data_len = pos (or_default 1 opt);
        buffer_len = pos n;
        rbs = rbs;
        allow_partial = or_default (pos 0) cfg.allow_partial;
        overruns = 0;
        loglevel_overruns = or_default ubx_loglevel_notice cfg.loglevel_overruns;
      } in
      (
        inf,
        rw (cyclic_init, c.log_level, some_room, len, c.typed, new1) refl,
        record {
          same_type = refl;
          same_len = ap pos same;
          same_partial = refl;
          held = subst (Held (limits cfg data_len t size) []) (sym queue) tt;
          roomy = subst (All (Roomy (limits cfg data_len t size))) (sym free) (
              All-replicate (limits cfg data_len t size) n e
                (length-replicate (data_len * size) 0));
          all_there = omega (arith, ap length queue, ap length free, length-replicate n e);
          counted = omega arith;
          reported = refl;
        },
      )

  -- A block with valid configs, and memory at hand, is initialised, and is from then on a queue of
  -- at most `buffer_len` messages: whatever messages are written to it and read from it, with the
  -- bytes that their lengths say, no memory is used that is not there, and every read gets what it
  -- would get from the queue that drops its oldest message for a new one when it is full. The
  -- port tells the number of messages that were dropped, modulo 2^64, after each.
  pub cyclic_run-queue_run :
      (cfg : CyclicConfig) (data_len t size : ℕ) (sizes : ℕ → Option ℕ) (ops : List QueueOp)
      → Configured S cfg data_len t size
      → sizes t ≡ some size
      → data_len * size < 2 ^ 63
      → AllComplete (limits cfg data_len t size) ops
      → let (shown, q) = queue_run (limits cfg data_len t size) ops no_messages in
        (inf : CyclicInfo S) × (inf' : CyclicInfo S) × (cyclic_init true cfg ≡ (pos 0, some inf))
        × (ring_run sizes ops (inf, []) ≡ some (shown, inf', reports q.dropped))
  cyclic_run-queue_run cfg data_len t size sizes ops c sized small complete =
      let l = limits cfg data_len t size in
      let (inf, out, s) = init-Stands cfg data_len t size c in
      let (inf', sent, runs, s') =
        ring_run-Stands l sizes ops inf [] no_messages (sized, c.some_room, small) complete s in
      (
        inf,
        inf',
        out,
        runs
            ∙ ap (λ (told : List ℕ). some ((queue_run l ops no_messages).0, inf', told))
                s'.reported,
      )
