-- ===== src/Ptrig/Examples.antt =====
-- A block with one chain that is started, triggers, and is stopped.
use microblx.Base.{◌≡◌, refl, none, some, ◌⊎◌, true, false, [], ◌∷◌, arith}
use microblx.Base.Int.{ℤ, pos, negsuc, ◌-ℤ◌}
use microblx.Store.{active, inactive, preinit}
use microblx.Trigger.{common_read_actchain}
use microblx.Ptrig.{
  waiting, has_ended, joining, thread_inactive, thread_active, unlocked, by_thread, checking,
  entering, reported, running, idle, stop_locking, polling, Ptrig, ThreadStep, MainStep,
  by_the_thread, by_the_caller, created, Reach, begin, later,
}
use microblx.Ptrig.Init.{Pthread, PtrigConfig, policy_of, handle_config, ptrig_init}
use microblx.Ptrig.Cleanup.{Nearer, join-Nearer}
use microblx.Ptrig.Quiet.{Quietly, here, thread_on, stop_returns-Quietly}
use microblx.Ptrig.Autostop.{Counts, Reach-Counts}

-- The block is active, and the thread has triggered chain 0 and sleeps.
abbrev after_trigger : ℤ → Ptrig
after_trigger steps = record {
  state = active;
  thread_state = thread_active;
  mutex = unlocked;
  autostop_steps = steps;
  actchain = pos 0;
  block_state = inactive;
  configured = true;
  freed = false;
  chains_triggered = pos 0 ∷ [];
  thread = entering;
  main = idle;
}

started-Reach :
    Reach (pos 1) (pos 2) (record (created (pos 2)) { state = active; configured = true })
started-Reach =
    later
      (later
        (later (later begin (by_the_caller (MainStep.start_config refl)))
          (by_the_caller (MainStep.start_lock refl refl)))
        (by_the_caller (MainStep.start_set refl)))
      (by_the_caller (MainStep.start_unlock refl))

running-Reach : Reach (pos 1) (pos 2) (record (created (pos 2)) {
  state = active;
  configured = true;
  thread_state = thread_active;
  thread = running;
})
running-Reach =
    later
      (later
        (later (later started-Reach (by_the_thread (ThreadStep.lock refl refl)))
          (by_the_thread (ThreadStep.see_active refl refl)))
        (by_the_thread (ThreadStep.activate refl)))
      (by_the_thread (ThreadStep.unlock refl))

triggered-Reach : Reach (pos 1) (pos 2) (after_trigger (pos 1))
unfolding common_read_actchain ◌-ℤ◌
triggered-Reach =
    later
      (later (later running-Reach (by_the_thread (ThreadStep.trigger (pos 0) (pos 0) refl)))
        (by_the_thread (ThreadStep.count_step refl refl refl)))
      (by_the_thread (ThreadStep.sleep refl))

Reach-Counts_example : Counts 2 (after_trigger (pos 1))
Reach-Counts_example = Reach-Counts (pos 1) 2 (after_trigger (pos 1)) (omega arith) triggered-Reach

-- `ptrig_stop` is called.
abbrev being_stopped : Ptrig
being_stopped = record (after_trigger (pos 1)) { main = stop_locking }

being_stopped-Reach : Reach (pos 1) (pos 2) being_stopped
being_stopped-Reach = later triggered-Reach (by_the_caller (MainStep.stop_call refl))

-- It waits, and the thread reports that it is inactive.
abbrev told_inactive : Ptrig
told_inactive = record (after_trigger (pos 1)) {
  state = inactive;
  thread_state = thread_inactive;
  mutex = by_thread;
  thread = reported;
  main = polling 21;
}

told-Reach : Reach (pos 1) (pos 2) told_inactive
told-Reach =
    later
      (later
        (later
          (later
            (later (later being_stopped-Reach (by_the_caller (MainStep.stop_lock refl refl)))
              (by_the_caller (MainStep.stop_set refl)))
            (by_the_caller (MainStep.stop_unlock refl)))
          (by_the_thread (ThreadStep.lock refl refl)))
        (by_the_thread (ThreadStep.see_inactive refl refl)))
      (by_the_thread (ThreadStep.report refl))

-- It returns, the thread waits, and is woken.
abbrev after_stop : Ptrig
after_stop = record told_inactive { mutex = by_thread; thread = checking; main = idle }

after_stop-Quietly : Quietly (pos 1) (record told_inactive { main = idle }) after_stop
after_stop-Quietly =
    thread_on (thread_on (thread_on here (ThreadStep.wait refl)) (ThreadStep.wake refl))
      (ThreadStep.relock refl refl)

stop_returns-Quietly_example : after_stop.chains_triggered ≡ pos 0 ∷ []
stop_returns-Quietly_example =
    stop_returns-Quietly (pos 1) (pos 2) told_inactive after_stop 20 told-Reach refl refl
      after_stop-Quietly

-- While it is called, the thread takes the mutex first.
abbrev kept_out : Ptrig
kept_out = record being_stopped { mutex = by_thread; thread = checking }

-- A CPU that there is not.
abbrev pthread : Pthread
pthread = record {
  stack_min = 16384;
  attr_setstacksize = λ n. pos 0;
  attr_setschedparam = λ policy prio. pos 0;
  create = pos 0;
  setaffinity = λ cpus. pos 22;
}

abbrev pinned : PtrigConfig
pinned = record {
  autostop_steps = none;
  has_period = true;
  stacksize = some 16384;
  sched_policy = none;
  sched_priority = none;
  affinity = pos 99 ∷ [];
}

pinned_held :
    ptrig_init pthread pinned true (pos 1)
    ≡ (negsuc 0, record { private_data = false; chains = true; chain_configs = 1; thread = true })
unfolding ptrig_init handle_config policy_of
pinned_held = refl

-- The thread waits for the first start.
abbrev waiting_first : Ptrig
waiting_first = record (created (pos 2)) { thread = waiting }

waiting-Reach : Reach (pos 1) (pos 2) waiting_first
waiting-Reach =
    later
      (later
        (later (later begin (by_the_thread (ThreadStep.lock refl refl)))
          (by_the_thread (ThreadStep.see_inactive refl refl)))
        (by_the_thread (ThreadStep.report refl)))
      (by_the_thread (ThreadStep.wait refl))

-- The block is cleaned up without ever being started.
abbrev being_joined : Ptrig
being_joined = record waiting_first { state = preinit; main = joining }

being_joined-Reach : Reach (pos 1) (pos 2) being_joined
being_joined-Reach =
    later (later waiting-Reach (by_the_caller (MainStep.cleanup_call refl)))
      (by_the_caller (MainStep.cancel refl))

join-Nearer_example : (has_ended being_joined.thread ≡ true) ⊎ Nearer (pos 1) being_joined
join-Nearer_example = join-Nearer (pos 1) (pos 2) being_joined being_joined-Reach refl
