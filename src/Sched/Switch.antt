-- ===== src/Sched/Switch.antt =====
-- A call of `sched_resched_locked` in kernel/sched.c: whom it picks, and that one thread runs.
use neptune_os.Common.{
  length, get_or, set, get_or-set_self, get_or-set_ne, ◌==◌, if◌then◌else◌, ==→eq, ==→ne,
  Bool-cases, some_inj, ℕ, ◌<◌, ◌≡◌, sym, ap, subst, ◌∙◌, ◌≢◌, ◌⊎◌, inl, inr, Bool, true, false,
  none, some, List, arith,
}
use neptune_os.Sched.{
  State, runnable, running, dead, is_running, is_dead, Sched, following, find_runnable, switch,
  sched_resched,
}
use neptune_os.Sched.Choice.{after, ready_at, following-lt, find_runnable-Found}

-- With a ready scheduler, `sched_resched_locked` picks, from the thread behind the current one on and
-- around the list, the first thread that can run: it keeps that thread where it is the current one and
-- switches to it otherwise. Only where no thread in the list can run it does nothing, or halts where the
-- current thread is dead.
pub sched_resched-first :
    (s : Sched)
    → s.ready ≡ true
    → s.current < length s.states
    → let start = following (length s.states) s.current in
      ((sched_resched s ≡ (if is_dead (get_or s.states s.current dead) then none else some s))
        × ((d : ℕ) → d < length s.states → ready_at s.states start d ≡ false))
      ⊎ ((d : ℕ) × (d < length s.states)
          × (ready_at s.states start d ≡ true)
          × ((e : ℕ) → e < d → ready_at s.states start e ≡ false)
          × (sched_resched s
              ≡ some (
                  if after (length s.states) start d == s.current
                  then s
                  else switch (after (length s.states) start d) s)))
unfolding sched_resched
sched_resched-first s on h =
    let count = length s.states in
    let start = following count s.current in
    elim (find_runnable-Found s.states count start (following-lt count s.current h) (omega arith)) [
      | inl (e, all) ↦ inl (ground (arith, on, e), all)
      | inr (d, lt, e, ready, before) ↦ inr (d, lt, ready, before, picked (after count start d) e)
    ]
  where
    picked :
        (t : ℕ)
        → find_runnable s.states (length s.states) (following (length s.states) s.current) ≡ some t
        → sched_resched s ≡ some (if t == s.current then s else switch t s)
    picked t e = elim (Bool-cases (t == s.current)) [
      | inl same ↦ ground (arith, on, e, same)
      | inr other ↦ ground (arith, on, e, other)
    ]

-- No thread but the current one is running.
abbrev pub OneRunning : Sched → Type 0
OneRunning s = (i : ℕ) → is_running (get_or s.states i dead) ≡ true → i ≡ s.current

-- The states after the current thread has stopped running.
unfoldable freed : Sched → List State
freed s =
    if is_running (get_or s.states s.current dead)
    then set s.states s.current runnable
    else s.states

freed-idle :
    (s : Sched) (i : ℕ)
    → s.current < length s.states
    → OneRunning s
    → is_running (get_or (freed s) i dead) ≡ false
unfolding freed is_running
freed-idle s i h one = elim (Bool-cases (is_running (get_or s.states s.current dead))) [
  | inl was ↦
      rw (was, freed)
        (elim (Bool-cases (s.current == i)) [
          | inl e ↦ ap is_running (
              ap (λ j. get_or (set s.states s.current runnable) j dead) (sym (==→eq s.current i e))
              ∙ get_or-set_self s.states s.current runnable dead h)
          | inr e ↦
              ap is_running (get_or-set_ne s.states s.current i runnable dead (==→ne s.current i e))
              ∙ not_running s i one (==→ne s.current i e)
        ])
  | inr idle ↦
      rw (idle, freed)
        (elim (Bool-cases (s.current == i)) [
          | inl e ↦ ap (λ j. is_running (get_or s.states j dead)) (sym (==→eq s.current i e)) ∙ idle
          | inr e ↦ not_running s i one (==→ne s.current i e)
        ])
]
  where
    not_running :
        (s : Sched) (i : ℕ)
        → OneRunning s
        → s.current ≢ i
        → is_running (get_or s.states i dead) ≡ false
    not_running s i one ne = elim (Bool-cases (is_running (get_or s.states i dead))) [
      | inl r ↦ absurd (ne (sym (one i r)))
      | inr r ↦ r
    ]

switch-OneRunning :
    (t : ℕ) (s : Sched) → s.current < length s.states → OneRunning s → OneRunning (switch t s)
unfolding switch freed
switch-OneRunning t s h one i r = elim (Bool-cases (t == i)) [
  | inl e ↦ sym (==→eq t i e)
  | inr ne ↦
      let at = get_or-set_ne (freed s) t i running dead (==→ne t i ne) in
      absurd (clash (sym (freed-idle s i h one) ∙ sym (ap is_running at) ∙ r))
]
  where
    clash : false ≢ true
    clash e = absurd (cc)

-- If no thread but the current one is running, the same holds after `sched_resched_locked` returns.
pub sched_resched-OneRunning :
    (s s' : Sched)
    → s.ready ≡ true
    → s.current < length s.states
    → OneRunning s
    → sched_resched s ≡ some s'
    → OneRunning s'
sched_resched-OneRunning s s' on h one e = elim (sched_resched-first s on h) [
  | inl (idle, all) ↦
      subst OneRunning (kept (is_dead (get_or s.states s.current dead)) (sym idle ∙ e)) one
  | inr (d, lt, ready, before, picked) ↦
      let t = after (length s.states) (following (length s.states) s.current) d in
      subst OneRunning (some_inj (sym picked ∙ e)) (either t (t == s.current))
]
  where
    kept : (b : Bool) → (if b then none else some s) ≡ some s' → s ≡ s'
    kept true q = absurd (cc)
    kept false q = some_inj q

    either : (t : ℕ) (b : Bool) → OneRunning (if b then s else switch t s)
    either t true = one
    either t false = switch-OneRunning t s h one
