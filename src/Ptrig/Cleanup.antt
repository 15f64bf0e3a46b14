-- ===== src/Ptrig/Cleanup.antt =====
-- ptrig_cleanup: the thread ends.
use microblx.Base.{ℕ, suc, ◌≤◌, ◌≡◌, refl, ap, ◌⊎◌, inl, inr, Bool, true, false, Bool-cases, arith}
use microblx.Base.Int.{ℤ, pos, ltb_ℤ, eqb_ℤ, ◌-ℤ◌}
use microblx.Ptrig.{
  Owner, unlocked, by_thread, by_main, ThreadPc, entering, checking, reporting, reported, waiting,
  woken, activating, activated, running, triggered, sleeping, exited, exited_locked, has_ended,
  self_stopping, self_locked, self_stopped, joining, Ptrig, ThreadStep, Reach,
}
use microblx.Ptrig.Mutex.{thread_in, Orderly, Reach-Orderly}

-- The steps of the thread until it waits, sleeps or ends, when the state is not active.
abbrev pub ahead : ThreadPc → ℕ
ahead exited = 0
ahead exited_locked = 0
ahead waiting = 1
ahead sleeping = 1
ahead reported = 2
ahead reporting = 3
ahead checking = 4
ahead entering = 5
ahead woken = 5
ahead self_stopped = 6
ahead self_locked = 7
ahead self_stopping = 8
ahead triggered = 9
ahead running = 10
ahead activated = 11
ahead activating = 12

-- A step in which a function of the clock fails.
abbrev pub is_failure : {num_chains : ℤ} {s t : Ptrig} → ThreadStep num_chains s t → Bool
is_failure (ThreadStep.gettime_fails at) = true
is_failure (ThreadStep.nanosleep_fails at) = true
is_failure _ = false

-- The thread has a step, in which no function fails, that brings it nearer to its end.
abbrev pub Nearer : ℤ → Ptrig → Type 0
Nearer num_chains t =
    (u : Ptrig) × (step : ThreadStep num_chains t u) × (is_failure step ≡ false)
    × (suc (ahead u.thread) ≤ ahead t.thread)

free_lem :
    (t : Ptrig) (m : Owner)
    → t.mutex ≡ m
    → Orderly t
    → t.main ≡ joining
    → thread_in t.thread ≡ false
    → t.mutex ≡ unlocked
free_lem t unlocked e o at out = e
free_lem t by_thread e o at out = absurd (ground arith)
free_lem t by_main e o at out = absurd (ground arith)

autostop-Nearer : (num_chains : ℤ) (t : Ptrig) → t.thread ≡ triggered → Nearer num_chains t
autostop-Nearer num_chains t e = elim (Bool-cases (ltb_ℤ (pos 0) t.autostop_steps)) [
  | inr none_set ↦ (_, ThreadStep.no_autostop e none_set, refl, omega (arith, ap ahead e))
  | inl set ↦ elim (Bool-cases (eqb_ℤ (t.autostop_steps -ℤ pos 1) (pos 0))) [
    | inl last ↦ (_, ThreadStep.autostop e set last, refl, omega (arith, ap ahead e))
    | inr left ↦ (_, ThreadStep.count_step e set left, refl, omega (arith, ap ahead e))
  ]
]

nearer :
    (num_chains : ℤ) (t : Ptrig) (p : ThreadPc)
    → t.thread ≡ p
    → Orderly t
    → t.main ≡ joining
    → has_ended p ≡ false
    → Nearer num_chains t
nearer num_chains t waiting e o at live = (
  _,
  ThreadStep.cancel_wait e (free_lem t t.mutex refl o at (ap thread_in e)) at,
  refl,
  omega (arith, ap ahead e),
)
nearer num_chains t sleeping e o at live =
    (_, ThreadStep.cancel_sleep e at, refl, omega (arith, ap ahead e))
nearer num_chains t reported e o at live = (_, ThreadStep.wait e, refl, omega (arith, ap ahead e))
nearer num_chains t reporting e o at live =
    (_, ThreadStep.report e, refl, omega (arith, ap ahead e))
nearer num_chains t self_stopped e o at live =
    (_, ThreadStep.self_unlock e, refl, omega (arith, ap ahead e))
nearer num_chains t self_locked e o at live =
    (_, ThreadStep.self_stop e, refl, omega (arith, ap ahead e))
nearer num_chains t running e o at live =
    (_, ThreadStep.trigger (pos 0) (pos 0) e, refl, omega (arith, ap ahead e))
nearer num_chains t activated e o at live =
    (_, ThreadStep.unlock e, refl, omega (arith, ap ahead e))
nearer num_chains t activating e o at live =
    (_, ThreadStep.activate e, refl, omega (arith, ap ahead e))
nearer num_chains t entering e o at live = (
  _,
  ThreadStep.lock e (free_lem t t.mutex refl o at (ap thread_in e)),
  refl,
  omega (arith, ap ahead e),
)
nearer num_chains t woken e o at live = (
  _,
  ThreadStep.relock e (free_lem t t.mutex refl o at (ap thread_in e)),
  refl,
  omega (arith, ap ahead e),
)
nearer num_chains t self_stopping e o at live = (
  _,
  ThreadStep.self_lock e (free_lem t t.mutex refl o at (ap thread_in e)),
  refl,
  omega (arith, ap ahead e),
)
nearer num_chains t checking e o at live =
    (_, ThreadStep.see_inactive e (ground arith), refl, omega (arith, ap ahead e))
nearer num_chains t triggered e o at live = autostop-Nearer num_chains t e
nearer num_chains t exited e o at live = absurd (cc)
nearer num_chains t exited_locked e o at live = absurd (cc)

-- While `ptrig_cleanup` waits for the thread, having cancelled it, the thread has ended, so that
-- the caller can go on, or it has a step, other than the failure of a function of the clock, that
-- brings it nearer to its end: it is never blocked for a mutex, a signal or a sleep.
pub join-Nearer :
    (num_chains steps : ℤ) (s : Ptrig)
    → Reach num_chains steps s
    → s.main ≡ joining
    → (has_ended s.thread ≡ true) ⊎ Nearer num_chains s
join-Nearer num_chains steps s r at = elim (Bool-cases (has_ended s.thread)) [
  | inl ended ↦ inl ended
  | inr live ↦ inr (nearer num_chains s s.thread refl (Reach-Orderly num_chains steps s r) at live)
]
