-- ===== src/Sched/SleepTests.antt =====
-- Three threads of kernel/sched.c and a wait queue.
use neptune_os.Common.{
  length, update, ℕ, zero, suc, ◌≤◌, ◌≡◌, refl, sym, subst, true, false, none, some, [], ◌∷◌, arith,
}
use neptune_os.Sched.Chain.{has}
use neptune_os.Sched.Blocked.{IsBlocked}
use neptune_os.Sched.{Sched, runnable, running, blocked}
use neptune_os.Sched.Wait.{sched_wake_one, Queues, sched_sleep_cond, sched_wake_all}
use neptune_os.Sched.Wakeups.{Queued, Awake}
use neptune_os.Sched.Sleepers.{Traffic, InOrder, Steps-InOrder, start, after, sleeps, wakes_one}
use neptune_os.Sched.WakeAll.{sched_wake_all-Queued}

abbrev at_work : Sched
at_work = record {
  states = running ∷ runnable ∷ runnable ∷ [];
  current = 0;
  ticks = 9;
  last_switch_tick = 4;
  need_resched = false;
  ready = true;
}

abbrev nobody_sleeps : Queues
nobody_sleeps = record {
  sched = at_work;
  next = λ t. none;
  queues = λ k. record { head = none; tail = none };
}

abbrev quiet : Traffic
quiet = record { waits = nobody_sleeps; slept = λ k. []; woken = λ k. [] }

nobody-Queued : Queued (λ k. []) nobody_sleeps
nobody-Queued = record {
  chain = λ k. refl;
  tail = λ k. refl;
  asleep = λ k w h. absurd (cc);
  apart = λ k j w h. absurd (cc);
}

awake_all : (w : ℕ) → ¬ IsBlocked at_work w
awake_all zero h = cc
awake_all (suc zero) h = cc
awake_all (suc (suc zero)) h = cc
awake_all (suc (suc (suc w))) h = cc

quiet-InOrder : InOrder quiet
quiet-InOrder = record {
  waiting = λ k. [];
  queued = nobody-Queued;
  awake = refl;
  waited = λ w h. absurd (awake_all w h);
  order = λ k. refl;
}

-- Thread 0 sleeps on queue 4, and thread 1 goes on.
abbrev one_sleeps : Queues
one_sleeps = record {
  sched = record at_work {
    states = blocked ∷ running ∷ runnable ∷ [];
    current = 1;
    last_switch_tick = 9;
  };
  next = update (λ t. none) 0 none;
  queues =
      update (λ k. record { head = none; tail = none }) 4 (record { head = some 0; tail = some 0 });
}

one_sleeps_test : sched_sleep_cond 4 false nobody_sleeps ≡ some one_sleeps
unfolding sched_sleep_cond
one_sleeps_test = refl

abbrev asleep : Traffic
asleep = record { waits = one_sleeps; slept = update (λ k. []) 4 (0 ∷ []); woken = λ k. [] }

asleep-InOrder : InOrder asleep
asleep-InOrder =
    Steps-InOrder quiet-InOrder
      (after start (sleeps 4 one_sleeps one_sleeps_test (λ e. absurd (omega arith))))

Steps-InOrder_example :
    InOrder
      (record asleep { waits = sched_wake_one 4 one_sleeps; woken = update (λ k. []) 4 (0 ∷ []) })
Steps-InOrder_example = Steps-InOrder quiet-InOrder (
    after (after start (sleeps 4 one_sleeps one_sleeps_test (λ e. absurd (omega arith))))
      (wakes_one 4 (0 ∷ []) (refl, refl, refl)))

sched_wake_all-Queued_example :
    (s' : Queues) × (sched_wake_all 1 4 one_sleeps ≡ some s')
    × Queued (update asleep-InOrder.waiting 4 []) s'
    × Awake s'
    × ((w : ℕ)
        → IsBlocked s'.sched w
        → IsBlocked one_sleeps.sched w × (has w (asleep-InOrder.waiting 4) ≡ false))
sched_wake_all-Queued_example =
    sched_wake_all-Queued asleep-InOrder.waiting 4 1 one_sleeps asleep-InOrder.queued refl
      (subst (λ l. length l ≤ 1) (sym (asleep-InOrder.order 4)) (omega arith))
