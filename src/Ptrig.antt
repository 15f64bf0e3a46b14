-- ===== src/Ptrig.antt =====
-- The trigger thread of ubx/ptrig and the hooks that start and stop it: std_blocks/trig/ptrig.c.
-- The thread and the caller of the hooks run interleaved; each access to what they share is a
-- step. pthread_cond_wait may return at any time, as POSIX allows. A cancelled thread ends where
-- POSIX has a cancellation point: where it writes the statistics' file, waits, runs the blocks of
-- a chain or sleeps.
pub mod Mutex
pub mod Quiet
pub mod Stop
pub mod Autostop
pub mod Cleanup
pub mod Init
mod Examples
use microblx.Base.{ℕ, suc, ◌≡◌, Bool, true, false, List, [], ◌∷◌}
use microblx.Base.Int.{ℤ, pos, ltb_ℤ, eqb_ℤ, ◌-ℤ◌}
use microblx.Store.{BlockState, preinit, inactive, active}
use microblx.Lifecycle.{same_state}
use microblx.Trigger.{common_read_actchain}

pub data ThreadState : Type 0 where
  thread_inactive thread_active : ThreadState

pub data Owner : Type 0 where
  unlocked by_thread by_main : Owner

-- Where the thread is in `thread_startup`: before the lock, at the test of `state`, in the body
-- of that loop before and after `thread_state` is set, in pthread_cond_wait, and so on; the last
-- part is its call of `__ptrig_stop`. A thread that is cancelled while it owns the mutex ends as
-- `exited_locked`: no cleanup handler is installed that would unlock it.
pub data ThreadPc : Type 0 where
  entering checking reporting reported waiting woken : ThreadPc
  activating activated running triggered sleeping exited exited_locked : ThreadPc
  self_stopping self_locked self_stopped : ThreadPc

-- Where the caller is in `ptrig_start`, `ptrig_stop` and `ptrig_cleanup`; `polling n` has n tests
-- of `thread_state` left.
pub data MainPc : Type 0 where
  idle start_locking start_locked started : MainPc
  stop_locking stop_locked stopped : MainPc
  polling : ℕ → MainPc
  cancelling joining cleaned : MainPc

-- `struct ptrig_inf`, as far as it is read again, with the block's state, whether the chains are
-- set up and the struct is freed, and the numbers of the chains that were triggered, the latest
-- first.
pub record Ptrig : Type 0 where
  pub state : BlockState
  pub thread_state : ThreadState
  pub mutex : Owner
  pub autostop_steps : ℤ
  pub actchain : ℤ
  pub block_state : BlockState
  pub configured : Bool
  pub freed : Bool
  pub chains_triggered : List ℤ
  pub thread : ThreadPc
  pub main : MainPc

-- THREAD_STOP_RETRIES
abbrev pub thread_stop_retries : ℕ
thread_stop_retries = 20

abbrev pub has_ended : ThreadPc → Bool
has_ended exited = true
has_ended exited_locked = true
has_ended _ = false

-- The steps of `thread_startup`. pthread_cond_wait locks the mutex again before a cancelled
-- thread ends.
pub data ThreadStep (num_chains : ℤ) (s : Ptrig) : Ptrig → Type 0 where
  lock :
      s.thread ≡ entering
      → s.mutex ≡ unlocked
      → ThreadStep num_chains s (record s { thread = checking; mutex = by_thread })
  see_inactive :
      s.thread ≡ checking
      → same_state s.state active ≡ false
      → ThreadStep num_chains s (record s { thread = reporting })
  see_active :
      s.thread ≡ checking
      → same_state s.state active ≡ true
      → ThreadStep num_chains s (record s { thread = activating })
  report :
      s.thread ≡ reporting
      → ThreadStep num_chains s (record s { thread = reported; thread_state = thread_inactive })
  wait :
      s.thread ≡ reported
      → ThreadStep num_chains s (record s { thread = waiting; mutex = unlocked })
  wake : s.thread ≡ waiting → ThreadStep num_chains s (record s { thread = woken })
  relock :
      s.thread ≡ woken
      → s.mutex ≡ unlocked
      → ThreadStep num_chains s (record s { thread = checking; mutex = by_thread })
  activate :
      s.thread ≡ activating
      → ThreadStep num_chains s (record s { thread = activated; thread_state = thread_active })
  unlock :
      s.thread ≡ activated
      → ThreadStep num_chains s (record s { thread = running; mutex = unlocked })
  gettime_fails : s.thread ≡ running → ThreadStep num_chains s (record s { thread = exited })
  trigger :
      (ret tmp : ℤ)
      → s.thread ≡ running
      → ThreadStep num_chains s (record s {
        thread = triggered;
        actchain = common_read_actchain ret tmp num_chains s.actchain;
        chains_triggered = common_read_actchain ret tmp num_chains s.actchain ∷ s.chains_triggered;
      })
  no_autostop :
      s.thread ≡ triggered
      → ltb_ℤ (pos 0) s.autostop_steps ≡ false
      → ThreadStep num_chains s (record s { thread = sleeping })
  count_step :
      s.thread ≡ triggered
      → ltb_ℤ (pos 0) s.autostop_steps ≡ true
      → eqb_ℤ (s.autostop_steps -ℤ pos 1) (pos 0) ≡ false
      → ThreadStep num_chains s
          (record s { thread = sleeping; autostop_steps = s.autostop_steps -ℤ pos 1 })
  autostop :
      s.thread ≡ triggered
      → ltb_ℤ (pos 0) s.autostop_steps ≡ true
      → eqb_ℤ (s.autostop_steps -ℤ pos 1) (pos 0) ≡ true
      → ThreadStep num_chains s
          (record s { thread = self_stopping; autostop_steps = s.autostop_steps -ℤ pos 1 })
  self_lock :
      s.thread ≡ self_stopping
      → s.mutex ≡ unlocked
      → ThreadStep num_chains s (record s { thread = self_locked; mutex = by_thread })
  self_stop :
      s.thread ≡ self_locked
      → ThreadStep num_chains s (record s { thread = self_stopped; state = inactive })
  self_unlock :
      s.thread ≡ self_stopped
      → ThreadStep num_chains s
          (record s { thread = entering; mutex = unlocked; block_state = inactive })
  sleep : s.thread ≡ sleeping → ThreadStep num_chains s (record s { thread = entering })
  nanosleep_fails : s.thread ≡ sleeping → ThreadStep num_chains s (record s { thread = exited })
  cancel_report :
      s.thread ≡ reporting
      → s.main ≡ joining
      → ThreadStep num_chains s (record s { thread = exited_locked })
  cancel_wait :
      s.thread ≡ waiting
      → s.mutex ≡ unlocked
      → s.main ≡ joining
      → ThreadStep num_chains s (record s { thread = exited_locked; mutex = by_thread })
  cancel_trigger :
      s.thread ≡ running → s.main ≡ joining → ThreadStep num_chains s (record s { thread = exited })
  cancel_sleep :
      s.thread ≡ sleeping
      → s.main ≡ joining
      → ThreadStep num_chains s (record s { thread = exited })

-- The steps of the hooks `ptrig_start`, `ptrig_stop` and `ptrig_cleanup`, which sets the state
-- without the mutex, cancels the thread, joins it, and frees the private data, also when
-- pthread_join fails.
pub data MainStep (s : Ptrig) : Ptrig → Type 0 where
  config_fails : s.main ≡ idle → MainStep s s
  start_config : s.main ≡ idle → MainStep s (record s { main = start_locking; configured = true })
  start_lock :
      s.main ≡ start_locking
      → s.mutex ≡ unlocked
      → MainStep s (record s { main = start_locked; mutex = by_main })
  start_set : s.main ≡ start_locked → MainStep s (record s { main = started; state = active })
  start_unlock : s.main ≡ started → MainStep s (record s { main = idle; mutex = unlocked })
  stop_call : s.main ≡ idle → MainStep s (record s { main = stop_locking })
  stop_lock :
      s.main ≡ stop_locking
      → s.mutex ≡ unlocked
      → MainStep s (record s { main = stop_locked; mutex = by_main })
  stop_set : s.main ≡ stop_locked → MainStep s (record s { main = stopped; state = inactive })
  stop_unlock :
      s.main ≡ stopped
      → MainStep s (record s { main = polling (suc thread_stop_retries); mutex = unlocked })
  stop_returns :
      (n : ℕ)
      → s.main ≡ polling (suc n)
      → s.thread_state ≡ thread_inactive
      → MainStep s (record s { main = idle })
  poll_again :
      (n : ℕ)
      → s.main ≡ polling (suc n)
      → s.thread_state ≡ thread_active
      → MainStep s (record s { main = polling n })
  stop_times_out : s.main ≡ polling 0 → MainStep s (record s { main = idle; configured = false })
  cleanup_call : s.main ≡ idle → MainStep s (record s { main = cancelling; state = preinit })
  cancel : s.main ≡ cancelling → MainStep s (record s { main = joining })
  join :
      s.main ≡ joining
      → has_ended s.thread ≡ true
      → MainStep s (record s { main = cleaned; configured = false; freed = true })
  join_fails :
      s.main ≡ joining → MainStep s (record s { main = cleaned; configured = false; freed = true })

pub data Step (num_chains : ℤ) (s t : Ptrig) : Type 0 where
  by_the_thread : ThreadStep num_chains s t → Step num_chains s t
  by_the_caller : MainStep s t → Step num_chains s t

-- After `ptrig_init` has returned 0.
abbrev pub created : ℤ → Ptrig
created steps = record {
  state = inactive;
  thread_state = thread_inactive;
  mutex = unlocked;
  autostop_steps = steps;
  actchain = pos 0;
  block_state = inactive;
  configured = false;
  freed = false;
  chains_triggered = [];
  thread = entering;
  main = idle;
}

pub data Reach (num_chains steps : ℤ) : Ptrig → Type 0 where
  begin : Reach num_chains steps (created steps)
  later : {s t : Ptrig} → Reach num_chains steps s → Step num_chains s t → Reach num_chains steps t
