-- ===== src/Ptrig/Quiet.antt =====
-- After ptrig_stop has returned, the thread triggers no chain until the block is started again.
use microblx.Base.{ℕ, suc, ◌≡◌, Bool, true, false, List, arith}
use microblx.Base.Int.{ℤ}
use microblx.Store.{active}
use microblx.Lifecycle.{same_state}
use microblx.Ptrig.{
  thread_inactive, ThreadPc, entering, checking, reporting, reported, waiting, woken, exited,
  exited_locked, MainPc, idle, start_locked, polling, Ptrig, ThreadStep, MainStep, Reach,
}
use microblx.Ptrig.Mutex.{Orderly, Reach-Orderly}

-- The thread is not going to trigger a chain before it has seen an active state.
abbrev pub is_parked : ThreadPc → Bool
is_parked entering = true
is_parked checking = true
is_parked reporting = true
is_parked reported = true
is_parked waiting = true
is_parked woken = true
is_parked exited = true
is_parked exited_locked = true
is_parked _ = false

abbrev pub starts_now : MainPc → Bool
starts_now start_locked = true
starts_now _ = false

-- Steps in which no start sets the state.
pub data Quietly (num_chains : ℤ) (s : Ptrig) : Ptrig → Type 0 where
  here : Quietly num_chains s s
  thread_on :
      {t u : Ptrig} → Quietly num_chains s t → ThreadStep num_chains t u → Quietly num_chains s u
  caller_on :
      {t u : Ptrig}
      → Quietly num_chains s t
      → starts_now t.main ≡ false
      → MainStep t u
      → Quietly num_chains s u

abbrev Parked : Ptrig → List ℤ → Type 0
Parked s done =
    (is_parked s.thread ≡ true) × (same_state s.state active ≡ false) × (s.chains_triggered ≡ done)

ThreadStep-Parked :
    {num_chains : ℤ} {s t : Ptrig} {done : List ℤ}
    → Parked s done
    → ThreadStep num_chains s t
    → Parked t done
ThreadStep-Parked k (ThreadStep.lock at open_now) = ground arith
ThreadStep-Parked k (ThreadStep.see_inactive at seen) = ground arith
ThreadStep-Parked k (ThreadStep.see_active at seen) = ground arith
ThreadStep-Parked k (ThreadStep.report at) = ground arith
ThreadStep-Parked k (ThreadStep.wait at) = ground arith
ThreadStep-Parked k (ThreadStep.wake at) = ground arith
ThreadStep-Parked k (ThreadStep.relock at open_now) = ground arith
ThreadStep-Parked k (ThreadStep.activate at) = ground arith
ThreadStep-Parked k (ThreadStep.unlock at) = ground arith
ThreadStep-Parked k (ThreadStep.gettime_fails at) = ground arith
ThreadStep-Parked k (ThreadStep.trigger ret tmp at) = ground arith
ThreadStep-Parked k (ThreadStep.no_autostop at none_set) = ground arith
ThreadStep-Parked k (ThreadStep.count_step at set left) = ground arith
ThreadStep-Parked k (ThreadStep.autostop at set last) = ground arith
ThreadStep-Parked k (ThreadStep.self_lock at open_now) = ground arith
ThreadStep-Parked k (ThreadStep.self_stop at) = ground arith
ThreadStep-Parked k (ThreadStep.self_unlock at) = ground arith
ThreadStep-Parked k (ThreadStep.sleep at) = ground arith
ThreadStep-Parked k (ThreadStep.nanosleep_fails at) = ground arith
ThreadStep-Parked k (ThreadStep.cancel_report at asked) = ground arith
ThreadStep-Parked k (ThreadStep.cancel_wait at open_now asked) = ground arith
ThreadStep-Parked k (ThreadStep.cancel_trigger at asked) = ground arith
ThreadStep-Parked k (ThreadStep.cancel_sleep at asked) = ground arith

MainStep-Parked :
    {s t : Ptrig} {done : List ℤ}
    → Parked s done
    → starts_now s.main ≡ false
    → MainStep s t
    → Parked t done
MainStep-Parked k quiet (MainStep.config_fails at) = ground arith
MainStep-Parked k quiet (MainStep.start_config at) = ground arith
MainStep-Parked k quiet (MainStep.start_lock at open_now) = ground arith
MainStep-Parked k quiet (MainStep.start_set at) = ground arith
MainStep-Parked k quiet (MainStep.start_unlock at) = ground arith
MainStep-Parked k quiet (MainStep.stop_call at) = ground arith
MainStep-Parked k quiet (MainStep.stop_lock at open_now) = ground arith
MainStep-Parked k quiet (MainStep.stop_set at) = ground arith
MainStep-Parked k quiet (MainStep.stop_unlock at) = ground arith
MainStep-Parked k quiet (MainStep.stop_returns n at told) = ground arith
MainStep-Parked k quiet (MainStep.poll_again n at told) = ground arith
MainStep-Parked k quiet (MainStep.stop_times_out at) = ground arith
MainStep-Parked k quiet (MainStep.cleanup_call at) = ground arith
MainStep-Parked k quiet (MainStep.cancel at) = ground arith
MainStep-Parked k quiet (MainStep.join at ended) = ground arith
MainStep-Parked k quiet (MainStep.join_fails at) = ground arith

Quietly-Parked :
    {num_chains : ℤ} {s t : Ptrig} {done : List ℤ}
    → Quietly num_chains s t
    → Parked s done
    → Parked t done
Quietly-Parked here k = k
Quietly-Parked (thread_on q st) k = ThreadStep-Parked (Quietly-Parked q k) st
Quietly-Parked (caller_on q quiet st) k = MainStep-Parked (Quietly-Parked q k) quiet st

parked_lem :
    (s : Ptrig) (n : ℕ)
    → s.thread_state ≡ thread_inactive
    → s.main ≡ polling (suc n)
    → Orderly s
    → Parked (record s { main = idle }) s.chains_triggered
parked_lem s n told at o = ground arith

-- When `ptrig_stop` has set the state and is about to return, because the thread announces
-- THREAD_INACTIVE, then from its return on, in whatever way the thread and the callers of the
-- hooks go on, no chain is triggered before a start has set the state again.
pub stop_returns-Quietly :
    (num_chains steps : ℤ) (s t : Ptrig) (n : ℕ)
    → Reach num_chains steps s
    → s.main ≡ polling (suc n)
    → s.thread_state ≡ thread_inactive
    → Quietly num_chains (record s { main = idle }) t
    → t.chains_triggered ≡ s.chains_triggered
stop_returns-Quietly num_chains steps s t n r at told q =
    (Quietly-Parked q (parked_lem s n told at (Reach-Orderly num_chains steps s r))).2
