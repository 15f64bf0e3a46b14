-- ===== src/Ptrig/Mutex.antt =====
-- Mutual exclusion of the trigger thread and the hooks, and what the fields that they share say.
use microblx.Base.{◌≡◌, Bool, true, false, arith}
use microblx.Base.Int.{ℤ}
use microblx.Store.{active}
use microblx.Lifecycle.{same_state}
use microblx.Ptrig.{
  thread_active, by_thread, by_main, ThreadPc, checking, reporting, reported, activating, activated,
  running, triggered, sleeping, self_stopping, self_locked, self_stopped, MainPc, start_locked,
  started, stop_locked, stopped, polling, exited_locked, cancelling, joining, cleaned, Ptrig,
  ThreadStep, MainStep, by_the_thread, by_the_caller, Reach, begin, later,
}

-- The thread holds the mutex, or has ended with it.
abbrev pub thread_in : ThreadPc → Bool
thread_in checking = true
thread_in reporting = true
thread_in reported = true
thread_in activating = true
thread_in activated = true
thread_in self_locked = true
thread_in self_stopped = true
thread_in exited_locked = true
thread_in _ = false

-- The caller of a hook holds it.
abbrev pub main_in : MainPc → Bool
main_in start_locked = true
main_in started = true
main_in stop_locked = true
main_in stopped = true
main_in _ = false

-- The thread is between setting THREAD_ACTIVE and its next test of the state.
abbrev pub at_work : ThreadPc → Bool
at_work activated = true
at_work running = true
at_work triggered = true
at_work sleeping = true
at_work self_stopping = true
at_work self_locked = true
at_work self_stopped = true
at_work _ = false

abbrev pub is_activating : ThreadPc → Bool
is_activating activating = true
is_activating _ = false

abbrev pub ended_locked : ThreadPc → Bool
ended_locked exited_locked = true
ended_locked _ = false

-- `ptrig_cleanup` has cancelled the thread.
abbrev pub has_cancelled : MainPc → Bool
has_cancelled joining = true
has_cancelled cleaned = true
has_cancelled _ = false

-- `ptrig_cleanup` has set the state.
abbrev pub cleaning : MainPc → Bool
cleaning cancelling = true
cleaning joining = true
cleaning cleaned = true
cleaning _ = false

-- `ptrig_stop` or `ptrig_cleanup` has set the state.
abbrev pub stopping : MainPc → Bool
stopping stopped = true
stopping (polling n) = true
stopping cancelling = true
stopping joining = true
stopping cleaned = true
stopping _ = false

abbrev pub Orderly : Ptrig → Type 0
Orderly s =
    (thread_in s.thread ≡ true → s.mutex ≡ by_thread)
    × (main_in s.main ≡ true → s.mutex ≡ by_main)
    × (s.mutex ≡ by_thread → thread_in s.thread ≡ true)
    × (s.mutex ≡ by_main → main_in s.main ≡ true)
    × (is_activating s.thread ≡ true → cleaning s.main ≡ false → same_state s.state active ≡ true)
    × (at_work s.thread ≡ true → s.thread_state ≡ thread_active)
    × (stopping s.main ≡ true → same_state s.state active ≡ false)
    × (ended_locked s.thread ≡ true → has_cancelled s.main ≡ true)

-- Each step keeps order.
ThreadStep-Orderly :
    {num_chains : ℤ} {s t : Ptrig} → Orderly s → ThreadStep num_chains s t → Orderly t
ThreadStep-Orderly o (ThreadStep.lock at open_now) = ground arith
ThreadStep-Orderly o (ThreadStep.see_inactive at seen) = ground arith
ThreadStep-Orderly o (ThreadStep.see_active at seen) = ground arith
ThreadStep-Orderly o (ThreadStep.report at) = ground arith
ThreadStep-Orderly o (ThreadStep.wait at) = ground arith
ThreadStep-Orderly o (ThreadStep.wake at) = ground arith
ThreadStep-Orderly o (ThreadStep.relock at open_now) = ground arith
ThreadStep-Orderly o (ThreadStep.activate at) = ground arith
ThreadStep-Orderly o (ThreadStep.unlock at) = ground arith
ThreadStep-Orderly o (ThreadStep.gettime_fails at) = ground arith
ThreadStep-Orderly o (ThreadStep.trigger ret tmp at) = ground arith
ThreadStep-Orderly o (ThreadStep.no_autostop at none_set) = ground arith
ThreadStep-Orderly o (ThreadStep.count_step at set left) = ground arith
ThreadStep-Orderly o (ThreadStep.autostop at set last) = ground arith
ThreadStep-Orderly o (ThreadStep.self_lock at open_now) = ground arith
ThreadStep-Orderly o (ThreadStep.self_stop at) = ground arith
ThreadStep-Orderly o (ThreadStep.self_unlock at) = ground arith
ThreadStep-Orderly o (ThreadStep.sleep at) = ground arith
ThreadStep-Orderly o (ThreadStep.nanosleep_fails at) = ground arith
ThreadStep-Orderly o (ThreadStep.cancel_report at asked) = ground arith
ThreadStep-Orderly o (ThreadStep.cancel_wait at open_now asked) = ground arith
ThreadStep-Orderly o (ThreadStep.cancel_trigger at asked) = ground arith
ThreadStep-Orderly o (ThreadStep.cancel_sleep at asked) = ground arith

MainStep-Orderly : {s t : Ptrig} → Orderly s → MainStep s t → Orderly t
MainStep-Orderly o (MainStep.config_fails at) = ground arith
MainStep-Orderly o (MainStep.start_config at) = ground arith
MainStep-Orderly o (MainStep.start_lock at open_now) = ground arith
MainStep-Orderly o (MainStep.start_set at) = ground arith
MainStep-Orderly o (MainStep.start_unlock at) = ground arith
MainStep-Orderly o (MainStep.stop_call at) = ground arith
MainStep-Orderly o (MainStep.stop_lock at open_now) = ground arith
MainStep-Orderly o (MainStep.stop_set at) = ground arith
MainStep-Orderly o (MainStep.stop_unlock at) = ground arith
MainStep-Orderly o (MainStep.stop_returns n at told) = ground arith
MainStep-Orderly o (MainStep.poll_again n at told) = ground arith
MainStep-Orderly o (MainStep.stop_times_out at) = ground arith
MainStep-Orderly o (MainStep.cleanup_call at) = ground arith
MainStep-Orderly o (MainStep.cancel at) = ground arith
MainStep-Orderly o (MainStep.join at ended) = ground arith
MainStep-Orderly o (MainStep.join_fails at) = ground arith

pub Reach-Orderly : (num_chains steps : ℤ) (s : Ptrig) → Reach num_chains steps s → Orderly s
Reach-Orderly num_chains steps s begin = ground arith
Reach-Orderly num_chains steps s (later r (by_the_thread st)) =
    ThreadStep-Orderly (Reach-Orderly num_chains steps _ r) st
Reach-Orderly num_chains steps s (later r (by_the_caller st)) =
    MainStep-Orderly (Reach-Orderly num_chains steps _ r) st
