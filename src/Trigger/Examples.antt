-- ===== src/Trigger/Examples.antt =====
-- A chain of one block, triggered in each round, with its measurements.
use microblx.Base.{
  ℕ, ◌+◌, ◌%◌, ◌^◌, ◌≡◌, refl, inl, inr, Bool-cases, Option, ==_refl, true, none, some, List, [],
  ◌∷◌, arith, ◌==◌,
}
use microblx.Base.Int.{ℤ, pos}
use microblx.Time.{Timespec}
use microblx.Store.{CStr, Port, Block, World, Heap, active, computation, interaction, update}
use microblx.Store.Hash.{Item, list_table}
use microblx.Lifecycle.{Hooks, cblock_step, run_step, put_block, check_static}
use microblx.Trigger.{Tstat, Triggee, stats, Chain, no_stats}
use microblx.Trigger.Chains.{
  Run, PortIo, tstat_type, write_tstat, chain_trigger, step_times, trig_blocks,
}
use microblx.Port.{port_is_in, port_is_out}
use microblx.PortIo.{port_read, port_write, read_loop, write_loop, write_block}
use microblx.Access.{put_data, local_data, write_one, write_array, read_one, read_array}
use microblx.Trigger.Stats.{Measurement, measured, Summary, measured-Summary}
use microblx.Trigger.Ready.{Ready, Sendable, Sent}
use microblx.Trigger.Steps.{
  int_type, read_int, TrigInfo, Readable, Triggers, Sound, trig_run, trig_run-Triggers,
}
use microblx.Trigger.Modes.{chain_trigger-Goes}
use microblx.Trigger.Common.{Settings, common_config_chains, common_unconfig}
use microblx.Trigger.Common.Restart.{common_config_chains_restart}

abbrev at : ℕ → ℕ → Timespec
at s n = record { sec = pos s; nsec = pos n }

abbrev measurements : List Measurement
measurements = (at 5 0, at 7 1) ∷ (at 1 999999999, at 2 3) ∷ []

measured-Summary_example : Summary measurements (measured (98 ∷ []) none measurements)
measured-Summary_example = measured-Summary (98 ∷ []) none measurements

abbrev stepped : Block
stepped = record {
  name = 98 ∷ [];
  meta_data = none;
  attrs = 0;
  type = computation;
  block_state = active;
  ports = [];
  configs = [];
  prototype = some 1;
  loglevel = none;
  init = none;
  start = none;
  stop = none;
  cleanup = none;
  step = some 30;
  read = none;
  write = none;
  stat_num_steps = 0;
  stat_num_reads = 0;
  stat_num_writes = 0;
}

-- An interaction that both ports of the trigger block lead to.
abbrev buffer : Block
buffer = record stepped { type = interaction; step = none; read = some 24; write = some 25 }

abbrev cells : List (Option ℕ)
cells = some 3 ∷ none ∷ []

abbrev port : Port
port = record {
  name = 112 ∷ [];
  doc = none;
  attrs = 0;
  in_type = some 6;
  out_type = some 5;
  in_data_len = pos 1;
  out_data_len = pos 1;
  in_interaction = some cells;
  out_interaction = some cells;
}

-- Every int that is read is 1.
abbrev io : PortIo (List Item)
io = record {
  port_at = λ w p. some port;
  tstat_static = 50;
  tstat_local = 40;
  tstat_bytes = λ s. [];
  int_static = 51;
  int_local = 41;
  int_of = λ bytes. pos 1;
  int_unset = 0 ∷ [];
}

abbrev heap : Heap
heap = record { outcomes = []; live = 2; next = 6; datas = λ _. none }

abbrev world_of : Block → World (List Item)
world_of blk = record {
  node = record {
    name = 110 ∷ [];
    blocks = [];
    types = (tstat_type, 5) ∷ (int_type, 6) ∷ [];
    modules = [];
    cur_seqid = 0;
    attrs = 0;
    loglevel = 5;
  };
  heap = heap;
  blocks = update (update (λ _. none) 3 (some buffer)) 2 (some blk);
  types = λ _. none;
  static_types = update (update (λ _. none) 50 (some 5)) 51 (some 6);
}

abbrev hooks : Hooks (List Item)
hooks = record {
  init = λ f b w. (pos 0, w);
  start = λ f b w. (pos 0, w);
  stop = λ f b w. w;
  cleanup = λ f b w. w;
  step = λ f b w. w;
  read = λ f b p w. (pos 4, w);
  write = λ f b p w. w;
}

abbrev due : Triggee
due = record { block = some 2; every = 3; num_steps = pos 1 }

abbrev one_tstat : Tstat
one_tstat = record { id = 98 ∷ []; min = at 9 0; max = at 0 0; total = at 0 0; cnt = 0 }

-- Per-block statistics, which are written to a port.
abbrev chain : Chain
chain = record {
  triggees = due ∷ [];
  tstats_mode = pos 2;
  tstats_skip_first = 0;
  p_tstats = some 7;
  every_cnt = 6;
  global_tstats = one_tstat;
  blk_tstats = stats (one_tstat ∷ []);
  tstats_output_rate = 1000;
  tstats_output_last_msg = 0;
  tstats_output_idx = 0;
}

abbrev run : Run (List Item)
run = record { world = world_of stepped; readings = 0 }

chain-Ready : Ready chain
chain-Ready = record {
  divides = (refl, tt);
  fits = λ _. (one_tstat ∷ [], refl, refl);
  index = omega arith;
}

abbrev clock : ℕ → Timespec
clock n = at n 0

abbrev settings : Settings
settings = record {
  tstats_mode = pos 2;
  tstats_skip_first = 0;
  output_rate = 5;
  p_tstats = 7;
  chain_name = λ i. 99 ∷ [];
  triggees = λ i. due ∷ [];
}

abbrev unused : Chain
unused = record chain { blk_tstats = no_stats }

common_config_chains_restart_example :
    (chains1 : List Chain) × (chains2 : List Chain) × (common_config_chains
        (world_of stepped).blocks
        (λ _. true)
        settings
        0
        (unused ∷ [])
      ≡ some (pos 0, chains1))
    × (common_unconfig chains1 ≡ some chains2)
    × (common_config_chains (world_of stepped).blocks (λ _. true) settings 0 chains2 ≡ none)
common_config_chains_restart_example =
    common_config_chains_restart (world_of stepped).blocks (λ _. true) settings (unused ∷ []) refl
      (omega arith) (λ j. ((2, stepped, refl, refl), tt)) (refl, tt)

-- Worlds in which block 2 is active and has a step hook, block 3 is an active interaction, and
-- the statics of the accessors are set.
abbrev CanStep : World (List Item) → Type 0
CanStep w =
    ((k : Block) × (w.blocks 2 ≡ some k)
      × (k.type ≡ computation)
      × (k.block_state ≡ active)
      × (k.step ≡ some 30))
    × ((k : Block) × (w.blocks 3 ≡ some k)
        × (k.block_state ≡ active)
        × (k.read ≡ some 24)
        × (k.write ≡ some 25))
    × (w.static_types 50 ≡ some 5)
    × (w.static_types 51 ≡ some 6)

step_due :
    (w : World (List Item))
    → CanStep w
    → (w' : World (List Item)) × (step_times hooks 1 (some 2) w ≡ some (pos 0, w')) × CanStep w'
unfolding step_times cblock_step run_step
step_due w ((k, found, type, is, hook), other, at50, at51) =
    let k' = record k { stat_num_steps = (k.stat_num_steps + 1) % 2 ^ 64 } in
    let w' = record w { blocks = update w.blocks 2 (some k') } in
    let runs : run_step hooks 2 k w ≡ some (pos 0, w') = ground (arith, found, hook) in
    let steps : cblock_step hooks (some 2) w ≡ some (pos 0, w') =
      ground (arith, found, type, is, runs) in
    (w', ground (arith, steps), ((k', refl, type, is, hook), other, at50, at51))

due-Steppable :
    (cnt : ℕ) (w : World (List Item))
    → CanStep w
    → (ret : ℤ) × (w' : World (List Item)) × (trig_blocks hooks cnt (due ∷ []) (pos 0) w
        ≡ some (ret, w'))
      × CanStep w'
unfolding trig_blocks
due-Steppable cnt w can = elim (Bool-cases (cnt % 3 == 0)) [
  | inr skip ↦ (pos 0, w, rw skip refl, can)
  | inl now ↦ let (w', out, can') = step_due w can in (pos 0, w', rw (now, out) refl, can')
]

static_lem :
    (slot t : ℕ) (name : CStr) (w : World (List Item))
    → w.static_types slot ≡ some t
    → check_static slot name t w ≡ (pos 0, w)
unfolding check_static
static_lem slot t name w set = rw (check_static, set, ==_refl t) refl

abbrev counted_write : Block → Block
counted_write k = record k { stat_num_writes = (k.stat_num_writes + 1) % 2 ^ 64 }

abbrev counted_read : Block → Block
counted_read k = record k { stat_num_reads = (k.stat_num_reads + 1) % 2 ^ 64 }

-- The world while an accessor runs, with its local variable.
abbrev with_tstat : World (List Item) → World (List Item)
with_tstat w = put_data 40 (some (local_data 5 (pos 1) [])) w

abbrev with_int : World (List Item) → World (List Item)
with_int w = put_data 41 (some (local_data 6 (pos 1) (0 ∷ []))) w

port_write_lem :
    (w : World (List Item)) (k : Block)
    → w.blocks 3 ≡ some k
    → k.block_state ≡ active
    → k.write ≡ some 25
    → port_write hooks 40 (some port) (with_tstat w)
      ≡ some (put_block 3 (counted_write k) (with_tstat w))
unfolding port_write port_is_out write_loop write_block
port_write_lem w k found is hook = ground (arith, found, is, hook)

port_read_lem :
    (w : World (List Item)) (k : Block)
    → w.blocks 3 ≡ some k
    → k.block_state ≡ active
    → k.read ≡ some 24
    → port_read hooks (some port) (some 41) (with_int w)
      ≡ some (pos 4, put_block 3 (counted_read k) (with_int w))
unfolding port_read port_is_in read_loop
port_read_lem w k found is hook = ground (arith, found, is, hook)

sends : Sendable hooks io CanStep chain
unfolding write_tstat write_one write_array
sends p e s w (first, (k, found, is, reads, writes), at50, at51) = (
  put_data 40 none (put_block 3 (counted_write k) (with_tstat w)),
  rw
      (
        write_tstat,
        write_one,
        write_array,
        static_lem 50 5 tstat_type w at50,
        port_write_lem w k found is writes,
      )
      refl,
  (first, (counted_write k, refl, is, reads, writes), at50, at51),
)

reads-CanStep : Readable hooks io clock CanStep 8
unfolding read_int read_one read_array
reads-CanStep w (first, (k, found, is, reads, writes), at50, at51) = (
  pos 4,
  pos 1,
  put_data 41 none (put_block 3 (counted_read k) (with_int w)),
  rw
      (
        read_int,
        read_one,
        read_array,
        static_lem 51 6 int_type w at51,
        port_read_lem w k found is reads,
      )
      refl,
  (first, (counted_read k, refl, is, reads, writes), at50, at51),
)

abbrev world_after : World (List Item)
world_after = record (world_of stepped) {
  blocks = update (world_of stepped).blocks 2 (some (record stepped { stat_num_steps = 1 }));
}

after-CanStep : CanStep world_after
after-CanStep = ((_, refl, refl, refl, refl), (buffer, refl, refl, refl, refl), refl, refl)

chain_trigger-Goes_example :
    (chain' : Chain) × (run' : Run (List Item)) × (chain_trigger hooks io clock chain run
      ≡ some (pos 0, chain', run'))
    × Sent hooks io CanStep chain' world_after run'.world
    × CanStep run'.world
    × (chain'.triggees ≡ due ∷ [])
    × (chain'.every_cnt ≡ (6 + 1) % 2 ^ 32)
    × (chain'.tstats_mode ≡ pos 2)
    × (chain'.p_tstats ≡ some 7)
    × Ready chain'
unfolding trig_blocks step_times cblock_step run_step
chain_trigger-Goes_example =
    chain_trigger-Goes hooks io clock CanStep chain run (pos 0) world_after chain-Ready
      (inr (inr refl)) sends after-CanStep refl

abbrev trig_info : TrigInfo
trig_info = record { chains = chain ∷ chain ∷ []; actchain = pos 0; p_actchain = 8 }

chain-Sound : Sound hooks io clock CanStep chain
chain-Sound = (chain-Ready, inr (inr refl), due-Steppable, sends)

trig_info-Triggers : Triggers hooks io clock CanStep trig_info
trig_info-Triggers = record {
  which = 0;
  active = refl;
  there = omega arith;
  each = (chain-Sound, (chain-Sound, tt));
  reads = reads-CanStep;
}

-- The block switches to chain 1.
trig_run-Triggers_example :
    (inf' : TrigInfo) × (run' : Run (List Item)) × (trig_run hooks io clock 2 trig_info run
      ≡ some (inf', run'))
    × Triggers hooks io clock CanStep inf'
    × CanStep run'.world
trig_run-Triggers_example =
    trig_run-Triggers hooks io clock CanStep 2 trig_info run trig_info-Triggers
      ((stepped, refl, refl, refl, refl), (buffer, refl, refl, refl, refl), refl, refl)
