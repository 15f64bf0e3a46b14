-- ===== src/Ptrig/Stop.antt =====
-- ptrig_stop returns, whatever the thread does.
use microblx.Base.{ℕ, suc, ◌+◌, ◌≤◌, ◌≡◌, ◌⊎◌, Bool, true, false}
use microblx.Base.Int.{ℤ}
use microblx.Ptrig.{
  ThreadPc, checking, reporting, reported, activating, activated, self_locked, self_stopped, MainPc,
  stop_locking, stop_locked, stopped, polling, thread_stop_retries, Ptrig, ThreadStep, MainStep,
}

-- The steps of `ptrig_stop` that are left at most.
abbrev pub steps_left : MainPc → ℕ
steps_left stop_locking = thread_stop_retries + 5
steps_left stop_locked = thread_stop_retries + 4
steps_left stopped = thread_stop_retries + 3
steps_left (polling n) = suc n
steps_left _ = 0

abbrev pub in_stop : MainPc → Bool
in_stop stop_locking = true
in_stop stop_locked = true
in_stop stopped = true
in_stop (polling n) = true
in_stop _ = false

-- A run during a call of `ptrig_stop`: `k` of its steps are the caller's.
pub data DuringStop (num_chains : ℤ) (s : Ptrig) : ℕ → Ptrig → Type 0 where
  called : DuringStop num_chains s 0 s
  thread_goes :
      {k : ℕ} {t u : Ptrig}
      → DuringStop num_chains s k t
      → ThreadStep num_chains t u
      → DuringStop num_chains s k u
  caller_goes :
      {k : ℕ} {t u : Ptrig}
      → DuringStop num_chains s k t
      → in_stop t.main ≡ true
      → MainStep t u
      → DuringStop num_chains s (suc k) u

-- The steps until the thread releases the mutex.
abbrev pub hold_left : ThreadPc → ℕ
hold_left checking = 3
hold_left reporting = 2
hold_left reported = 1
hold_left activating = 2
hold_left activated = 1
hold_left self_locked = 2
hold_left self_stopped = 1
hold_left _ = 0

-- The caller has a step; or it waits for the mutex, which the thread owns, and the thread has a
-- step that brings it nearer to releasing it.
abbrev pub Proceeds : ℤ → Ptrig → Type 0
Proceeds num_chains t =
    ((u : Ptrig) × MainStep t u)
    ⊎ ((u : Ptrig) × ThreadStep num_chains t u × (suc (hold_left u.thread) ≤ hold_left t.thread))
