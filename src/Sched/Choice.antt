-- ===== src/Sched/Choice.antt =====
-- The choice of a thread in kernel/sched.c is round-robin, and one thread runs.
use neptune_os.Common.{
  length, get_or, ltb, if◌then◌else◌, Bool-cases, ℕ, zero, suc, ◌+◌, ◌-◌, ◌≤◌, ◌<◌, ◌≡◌, refl, sym,
  ap, ◌∙◌, ◌⊎◌, inl, inr, Bool, true, false, Option, none, some, List, arith,
}
use neptune_os.Sched.{State, dead, is_runnable, following, find_runnable}

-- The place `d` places behind `t`.
unfoldable pub after : ℕ → ℕ → ℕ → ℕ
after count t d = if ltb (t + d) count then t + d else t + d - count

after-following :
    (count t d : ℕ)
    → t < count
    → d + 1 < count
    → after count (following count t) d ≡ after count t (d + 1)
unfolding after following
after-following count t d h k = ground arith

-- The thread `d` places behind `t` can run.
abbrev pub ready_at : List State → ℕ → ℕ → Bool
ready_at states t d = is_runnable (get_or states (after (length states) t d) dead)

-- What the loop finds: a runnable thread with none before it, or none at all.
abbrev pub Found : List State → ℕ → ℕ → Option ℕ → Type 0
Found states rounds t r =
    ((r ≡ none) × ((d : ℕ) → d < rounds → ready_at states t d ≡ false))
    ⊎ ((d : ℕ) × (d < rounds)
        × (r ≡ some (after (length states) t d))
        × (ready_at states t d ≡ true)
        × ((e : ℕ) → e < d → ready_at states t e ≡ false))

pub following-lt : (count t : ℕ) → t < count → following count t < count
unfolding following
following-lt count t h = ground arith

after-zero : (count t : ℕ) → t < count → after count t 0 ≡ t
unfolding after
after-zero count t h = ground arith

ready_at-zero :
    (states : List State) (t : ℕ)
    → t < length states
    → ready_at states t 0 ≡ is_runnable (get_or states t dead)
ready_at-zero states t h =
    ap (λ i. is_runnable (get_or states i dead)) (after-zero (length states) t h)

ready_at-suc :
    (states : List State) (t d : ℕ)
    → t < length states
    → d + 1 < length states
    → ready_at states t (suc d) ≡ ready_at states (following (length states) t) d
ready_at-suc states t d h k =
    ap (λ i. is_runnable (get_or states i dead))
      (ap (after (length states) t) (omega arith) ∙ sym (after-following (length states) t d h k))

-- A place later is ready only if the place before is not first.
below_suc :
    (states : List State) (t n : ℕ)
    → t < length states
    → n < length states
    → is_runnable (get_or states t dead) ≡ false
    → ((e : ℕ) → e < n → ready_at states (following (length states) t) e ≡ false)
    → (e : ℕ) → e < suc n
    → ready_at states t e ≡ false
below_suc states t n h k first rest zero lt = ready_at-zero states t h ∙ first
below_suc states t n h k first rest (suc e) lt =
    ready_at-suc states t e h (omega arith) ∙ rest e (omega arith)

pub find_runnable-Found :
    (states : List State) (rounds t : ℕ)
    → t < length states
    → rounds ≤ length states
    → Found states rounds t (find_runnable states rounds t)
unfolding find_runnable
find_runnable-Found states zero t h k = inl (refl, λ d lt. absurd (omega arith))
find_runnable-Found states (suc rounds) t h k =
    let count = length states in
    elim (Bool-cases (is_runnable (get_or states t dead))) [
      | inl e ↦
          rw (e, find_runnable)
            (inr (
              0,
              omega arith,
              ap some (sym (after-zero count t h)),
              ready_at-zero states t h ∙ e,
              λ d lt. absurd (omega arith),
            ))
      | inr e ↦
          rw (e, find_runnable)
            (elim (find_runnable-Found states rounds (following count t) (following-lt count t h)
              (omega arith)) [
                | inl (none_eq, all) ↦
                    inl (none_eq, below_suc states t rounds h (omega arith) e all)
                | inr (d, lt, eq, ready, before) ↦ inr (
                  suc d,
                  omega arith,
                  eq
                      ∙ ap some (
                          after-following count t d h (omega arith)
                          ∙ ap (after count t) (omega arith)),
                  ready_at-suc states t d h (omega arith) ∙ ready,
                  below_suc states t d h (omega arith) e before,
                )
              ])
    ]
