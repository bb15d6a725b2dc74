-- ===== src/Sched/Tests.antt =====
-- Three threads of kernel/sched.c.
use neptune_os.Common.{
  get_or, ◌==◌, if◌then◌else◌, ℕ, zero, suc, ◌<◌, ◌≡◌, refl, ◌⊎◌, true, false, none, some, [], ◌∷◌,
  arith,
}
use neptune_os.Sched.Fair.{here, Waits, resched, sched_resched-bounded_wait}
use neptune_os.Sched.{
  is_runnable, runnable, running, blocked, dead, is_dead, is_running, Sched, following, switch,
  sched_resched,
}
use neptune_os.Sched.Choice.{after, ready_at}
use neptune_os.Sched.Switch.{OneRunning, sched_resched-first, sched_resched-OneRunning}

-- Thread 1 is running, 2 is blocked, and 0 can run.
abbrev three : Sched
three = record {
  states = runnable ∷ running ∷ blocked ∷ [];
  current = 1;
  ticks = 9;
  last_switch_tick = 4;
  need_resched = true;
  ready = true;
}

abbrev switched : Sched
switched = record {
  states = running ∷ runnable ∷ blocked ∷ [];
  current = 0;
  ticks = 9;
  last_switch_tick = 9;
  need_resched = false;
  ready = true;
}

resched_test : sched_resched three ≡ some switched
unfolding sched_resched
resched_test = refl

three-OneRunning : OneRunning three
unfolding is_running
three-OneRunning zero r = absurd (cc)
three-OneRunning (suc zero) r = refl
three-OneRunning (suc (suc zero)) r = absurd (cc)
three-OneRunning (suc (suc (suc i))) r = absurd (cc)

sched_resched-OneRunning_example : OneRunning switched
sched_resched-OneRunning_example =
    sched_resched-OneRunning three switched refl (omega arith) three-OneRunning resched_test

sched_resched-first_example :
    ((sched_resched three
        ≡ (if is_dead (get_or three.states three.current dead) then none else some three))
      × ((d : ℕ) → d < 3 → ready_at three.states (following 3 1) d ≡ false))
    ⊎ ((d : ℕ) × (d < 3)
        × (ready_at three.states (following 3 1) d ≡ true)
        × ((e : ℕ) → e < d → ready_at three.states (following 3 1) e ≡ false)
        × (sched_resched three
            ≡ some (
                if after 3 (following 3 1) d == 1
                then three
                else switch (after 3 (following 3 1) d) three)))
sched_resched-first_example = sched_resched-first three refl (omega arith)

-- Thread 0 is running; thread 2 can run, and thread 1 is before it.
abbrev queue : Sched
queue = record {
  states = running ∷ runnable ∷ runnable ∷ [];
  current = 0;
  ticks = 9;
  last_switch_tick = 4;
  need_resched = true;
  ready = true;
}

abbrev passed : Sched
passed = record {
  states = runnable ∷ running ∷ runnable ∷ [];
  current = 1;
  ticks = 9;
  last_switch_tick = 9;
  need_resched = false;
  ready = true;
}

queue-Waits : Waits 2 queue
unfolding is_runnable
queue-Waits = record { ready = refl; listed = omega arith; present = omega arith; can_run = refl }

pass_test : sched_resched queue ≡ some passed
unfolding sched_resched
pass_test = refl

sched_resched-bounded_wait_example : (1 < 3) × ((s : Sched) × (sched_resched passed ≡ some s))
sched_resched-bounded_wait_example =
    sched_resched-bounded_wait 2 1 queue passed queue-Waits
      (resched pass_test (λ e. absurd (omega (arith, e))) here)
