-- ===== src/Ptrig/Autostop.antt =====
-- The config autostop_steps: the block stops itself once.
use microblx.Base.{ℕ, ◌-◌, ◌<◌, ◌≡◌, Bool, true, false, arith, length, if◌then◌else◌}
use microblx.Base.Int.{ℤ, pos, ltb_ℤ, -ℤ_parts, ◌-ℤ◌}
use microblx.Ptrig.{
  ThreadPc, triggered, self_stopping, self_locked, self_stopped, Ptrig, ThreadStep, MainStep,
  by_the_thread, by_the_caller, Reach, begin, later,
}

-- The thread has triggered a chain, and has not counted it yet.
abbrev pub is_triggered : ThreadPc → Bool
is_triggered triggered = true
is_triggered _ = false

abbrev pub is_self_stopping : ThreadPc → Bool
is_self_stopping self_stopping = true
is_self_stopping self_locked = true
is_self_stopping self_stopped = true
is_self_stopping _ = false

abbrev pub counted : Ptrig → ℕ
counted s =
    if is_triggered s.thread then length s.chains_triggered - 1 else length s.chains_triggered

-- What is left to count, with `n` steps at first.
abbrev pub Counts : ℕ → Ptrig → Type 0
Counts n s =
    (s.autostop_steps ≡ pos (n - counted s))
    × (is_triggered s.thread ≡ true → 0 < length s.chains_triggered)
    × (is_self_stopping s.thread ≡ true → length s.chains_triggered ≡ n)

one_less : (a : ℤ) (n : ℕ) → a ≡ pos n → ltb_ℤ (pos 0) a ≡ true → a -ℤ pos 1 ≡ pos (n - 1)
one_less a n same set = ground (arith, -ℤ_parts a (pos 1))

ThreadStep-Counts :
    {num_chains : ℤ} {s t : Ptrig} (n : ℕ) → Counts n s → ThreadStep num_chains s t → Counts n t
ThreadStep-Counts n k (ThreadStep.lock at open_now) = ground arith
ThreadStep-Counts n k (ThreadStep.see_inactive at seen) = ground arith
ThreadStep-Counts n k (ThreadStep.see_active at seen) = ground arith
ThreadStep-Counts n k (ThreadStep.report at) = ground arith
ThreadStep-Counts n k (ThreadStep.wait at) = ground arith
ThreadStep-Counts n k (ThreadStep.wake at) = ground arith
ThreadStep-Counts n k (ThreadStep.relock at open_now) = ground arith
ThreadStep-Counts n k (ThreadStep.activate at) = ground arith
ThreadStep-Counts n k (ThreadStep.unlock at) = ground arith
ThreadStep-Counts n k (ThreadStep.gettime_fails at) = ground arith
ThreadStep-Counts n k (ThreadStep.trigger ret tmp at) = ground arith
ThreadStep-Counts n k (ThreadStep.no_autostop at none_set) = ground arith
ThreadStep-Counts {s = s} n k (ThreadStep.count_step at set left) =
    ground (arith, one_less s.autostop_steps (n - counted s) k.0 set)
ThreadStep-Counts {s = s} n k (ThreadStep.autostop at set last) =
    ground (arith, one_less s.autostop_steps (n - counted s) k.0 set)
ThreadStep-Counts n k (ThreadStep.self_lock at open_now) = ground arith
ThreadStep-Counts n k (ThreadStep.self_stop at) = ground arith
ThreadStep-Counts n k (ThreadStep.self_unlock at) = ground arith
ThreadStep-Counts n k (ThreadStep.sleep at) = ground arith
ThreadStep-Counts n k (ThreadStep.nanosleep_fails at) = ground arith
ThreadStep-Counts n k (ThreadStep.cancel_report at asked) = ground arith
ThreadStep-Counts n k (ThreadStep.cancel_wait at open_now asked) = ground arith
ThreadStep-Counts n k (ThreadStep.cancel_trigger at asked) = ground arith
ThreadStep-Counts n k (ThreadStep.cancel_sleep at asked) = ground arith

MainStep-Counts : {s t : Ptrig} (n : ℕ) → Counts n s → MainStep s t → Counts n t
MainStep-Counts n k (MainStep.config_fails at) = ground arith
MainStep-Counts n k (MainStep.start_config at) = ground arith
MainStep-Counts n k (MainStep.start_lock at open_now) = ground arith
MainStep-Counts n k (MainStep.start_set at) = ground arith
MainStep-Counts n k (MainStep.start_unlock at) = ground arith
MainStep-Counts n k (MainStep.stop_call at) = ground arith
MainStep-Counts n k (MainStep.stop_lock at open_now) = ground arith
MainStep-Counts n k (MainStep.stop_set at) = ground arith
MainStep-Counts n k (MainStep.stop_unlock at) = ground arith
MainStep-Counts n k (MainStep.stop_returns retries at told) = ground arith
MainStep-Counts n k (MainStep.poll_again retries at told) = ground arith
MainStep-Counts n k (MainStep.stop_times_out at) = ground arith
MainStep-Counts n k (MainStep.cleanup_call at) = ground arith
MainStep-Counts n k (MainStep.cancel at) = ground arith
MainStep-Counts n k (MainStep.join at ended) = ground arith
MainStep-Counts n k (MainStep.join_fails at) = ground arith

-- In every state that can be reached with `autostop_steps` set to a number above 0, the config's
-- value less the number of steps, or 0, is left to count, apart from a step that is not counted
-- yet; and the thread stops the block only after exactly that number of steps since ptrig_init,
-- so not again after it was started anew.
pub Reach-Counts :
    (num_chains : ℤ) (n : ℕ) (s : Ptrig) → 0 < n → Reach num_chains (pos n) s → Counts n s
Reach-Counts num_chains n s set begin = ground arith
Reach-Counts num_chains n s set (later r (by_the_thread st)) =
    ThreadStep-Counts n (Reach-Counts num_chains n _ set r) st
Reach-Counts num_chains n s set (later r (by_the_caller st)) =
    MainStep-Counts n (Reach-Counts num_chains n _ set r) st
