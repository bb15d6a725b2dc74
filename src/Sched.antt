-- ===== src/Sched.antt =====
-- `sched_resched_locked` of kernel/sched.c: the choice of the next thread. The list of threads is a list
-- in its order, and a thread is its place there. `sched_lock` is held over the function.
pub mod Choice
pub mod Fair
pub mod Blocked
pub mod Chain
pub mod Sleepers
pub mod Switch
pub mod Resched
pub mod Wait
pub mod WakeAll
pub mod Wakeups
mod SleepTests
mod Tests
use neptune_os.Common.{
  length, get_or, set, ltb, ◌==◌, if◌then◌else◌, ℕ, zero, suc, ◌+◌, Bool, true, false, not, Option,
  none, some, List,
}

pub data State : Type 0 where
  unused runnable running blocked dead : State

unfoldable pub is_runnable : State → Bool
is_runnable runnable = true
is_runnable _ = false

unfoldable pub is_running : State → Bool
is_running running = true
is_running _ = false

unfoldable pub is_dead : State → Bool
is_dead dead = true
is_dead _ = false

-- The threads' states, `current_thread`, and the numbers that a switch writes.
pub record Sched : Type 0 where
  pub states : List State
  pub current : ℕ
  pub ticks : ℕ
  pub last_switch_tick : ℕ
  pub need_resched : Bool
  pub ready : Bool

-- `t = t->next; if (!t) t = threads_head;`
unfoldable pub following : ℕ → ℕ → ℕ
following count t = if ltb (t + 1) count then t + 1 else 0

-- The loop `do { ... } while (t != start);`, with as many rounds as there are threads.
unfoldable pub find_runnable : List State → ℕ → ℕ → Option ℕ
unfolding is_runnable following
find_runnable states zero t = none
find_runnable states (suc rounds) t = elim (is_runnable (get_or states t dead)) [
  | true ↦ some t
  | false ↦ find_runnable states rounds (following (length states) t)
]

-- The assignments of a switch to thread `t`.
unfoldable pub switch : ℕ → Sched → Sched
unfolding is_running
switch t s =
    let prev = get_or s.states s.current dead in
    let freed = if is_running prev then set s.states s.current runnable else s.states in
    record s {
      states = set freed t running;
      current = t;
      last_switch_tick = s.ticks;
      need_resched = false;
    }

-- `none` is the endless halt of a dead thread that finds no other.
unfoldable pub sched_resched : Sched → Option Sched
unfolding find_runnable following switch is_dead
sched_resched s =
    let count = length s.states in
    if not s.ready
    then some s
    else (elim (find_runnable s.states count (following count s.current)) [
      | none ↦ if is_dead (get_or s.states s.current dead) then none else some s
      | some t ↦ if t == s.current then some s else some (switch t s)
    ])
