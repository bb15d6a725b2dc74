-- ===== src/Sched/Wait.antt =====
-- The wait queues of kernel/sched.c. `next` is the link `wait_next` of every thread, and a queue has its
-- number. `sched_lock` is held over each function, and a thread is always current.
use neptune_os.Common.{set, if◌then◌else◌, update, ℕ, zero, suc, Bool, Option, none, some}
use neptune_os.Sched.{State, Sched, runnable, blocked, sched_resched}

pub record Queue : Type 0 where
  pub head : Option ℕ
  pub tail : Option ℕ

pub record Queues : Type 0 where
  pub sched : Sched
  pub next : ℕ → Option ℕ
  pub queues : ℕ → Queue

unfoldable pub set_state : ℕ → State → Sched → Sched
set_state t state s = record s { states = set s.states t state }

unfoldable pub wait_queue_init : ℕ → Queues → Queues
wait_queue_init k s = record s { queues = update s.queues k (record { head = none; tail = none }) }

-- The current thread `c` goes behind the tail of the queue, and blocks.
unfoldable pub enqueue : ℕ → ℕ → Queues → Queues
unfolding set_state
enqueue k c s =
    let q = s.queues k in
    let cleared = update s.next c none in
    elim q.tail [
      | none ↦ record {
        sched = set_state c blocked s.sched;
        next = cleared;
        queues = update s.queues k (record { head = some c; tail = some c });
      }
      | some t ↦ record {
        sched = set_state c blocked s.sched;
        next = update cleared t (some c);
        queues = update s.queues k (record q { tail = some c });
      }
    ]

-- `none` where `sched_resched_locked` does not return.
unfoldable pub sched_sleep : ℕ → Queues → Option Queues
unfolding enqueue sched_resched
sched_sleep k s =
    let s1 = enqueue k s.sched.current s in
    elim (sched_resched s1.sched) [ none ↦ none | some sched ↦ some (record s1 { sched = sched }) ]

unfoldable pub sched_sleep_cond : ℕ → Bool → Queues → Option Queues
unfolding sched_sleep
sched_sleep_cond k cond s = if cond then some s else sched_sleep k s

unfoldable pub sched_wake_one : ℕ → Queues → Queues
unfolding set_state
sched_wake_one k s =
    let q = s.queues k in
    elim q.head [
      | none ↦ s
      | some t ↦ record {
        sched = set_state t runnable s.sched;
        next = update s.next t none;
        queues =
            update s.queues k (record {
              head = s.next t;
              tail = elim (s.next t) [ none ↦ none | some u ↦ q.tail ];
            });
      }
    ]

-- The loop of `sched_wake_all`; `none` where the fuel is used up.
unfoldable pub wake_loop : ℕ → Option ℕ → Queues → Option Queues
unfolding set_state
wake_loop fuel none s = some s
wake_loop zero (some t) s = none
wake_loop (suc fuel) (some t) s =
    wake_loop fuel (s.next t)
      (record s { sched = set_state t runnable s.sched; next = update s.next t none })

unfoldable pub sched_wake_all : ℕ → ℕ → Queues → Option Queues
unfolding wake_loop wait_queue_init
sched_wake_all fuel k s = elim (wake_loop fuel (s.queues k).head s) [
  | none ↦ none
  | some s' ↦ some (wait_queue_init k s')
]
