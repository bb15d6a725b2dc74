-- ===== src/Sched/Resched.antt =====
-- What `sched_resched_locked` of kernel/sched.c does to threads that are blocked.
use neptune_os.Common.{
  length, get_or, set, length-set, get_or-set_self, get_or-set_ne, ◌==◌, if◌then◌else◌, ==→eq,
  ==→ne, Bool-cases, Option-cases, some_inj, if_intro, ℕ, zero, suc, ◌<◌, ◌≡◌, refl, sym, ap, subst,
  ◌∙◌, ◌≢◌, ◌⊎◌, inl, inr, Bool, true, false, not, Option, none, some, List, [], ◌∷◌, arith,
}
use neptune_os.Sched.{
  unused, is_dead, following, State, is_running, Sched, blocked, dead, runnable, running,
  is_runnable, find_runnable, switch, sched_resched,
}

is_runnable-runnable : (state : State) → is_runnable state ≡ true → state ≡ runnable
unfolding is_runnable
is_runnable-runnable unused e = absurd (cc)
is_runnable-runnable runnable e = refl
is_runnable-runnable running e = absurd (cc)
is_runnable-runnable blocked e = absurd (cc)
is_runnable-runnable dead e = absurd (cc)

is_running-running : (state : State) → is_running state ≡ true → state ≡ running
unfolding is_running
is_running-running unused e = absurd (cc)
is_running-running runnable e = absurd (cc)
is_running-running running e = refl
is_running-running blocked e = absurd (cc)
is_running-running dead e = absurd (cc)

pub get_or-inside : (states : List State) (t : ℕ) → get_or states t dead ≢ dead → t < length states
get_or-inside [] t e = absurd (e refl)
get_or-inside (x ∷ states) zero e = omega arith
get_or-inside (x ∷ states) (suc t) e = omega (arith, get_or-inside states t e)

runs_inside : (states : List State) (t : ℕ) → get_or states t dead ≡ runnable → t < length states
runs_inside states t runs = get_or-inside states t (λ e. absurd (cc (runs, e)))

kept : (b : Bool) {s d : Sched} → (if b then none else some s) ≡ some d → d ≡ s
kept true e = absurd (cc)
kept false e = sym (some_inj e)

find_runnable-runs :
    (states : List State) (rounds t u : ℕ)
    → find_runnable states rounds t ≡ some u
    → get_or states u dead ≡ runnable
unfolding find_runnable is_runnable
find_runnable-runs states zero t u e = absurd (cc)
find_runnable-runs states (suc rounds) t u e =
    let rest = find_runnable states rounds (following (length states) t) in
    let chosen : Bool → Option ℕ = λ b. elim b [ true ↦ some t | false ↦ rest ] in
    elim (Bool-cases (is_runnable (get_or states t dead))) [
      | inl holds ↦
          subst (λ x. get_or states x dead ≡ runnable) (some_inj (sym (ap chosen holds) ∙ e))
            (is_runnable-runnable (get_or states t dead) holds)
      | inr fails ↦
          find_runnable-runs states rounds (following (length states) t) u
            (sym (ap chosen fails) ∙ e)
    ]

-- It changes nothing, or switches to another thread that can run.
pub resched-cases :
    (s d : Sched)
    → sched_resched s ≡ some d
    → (d ≡ s) ⊎ ((t : ℕ) × (get_or s.states t dead ≡ runnable) × (d ≡ switch t s))
unfolding sched_resched
resched-cases s d e =
    let count = length s.states in
    let found = find_runnable s.states count (following count s.current) in
    let chosen : Option ℕ → Option Sched = λ o. elim o [
      | none ↦ if is_dead (get_or s.states s.current dead) then none else some s
      | some t ↦ if t == s.current then some s else some (switch t s)
    ] in
    elim (Bool-cases (not s.ready)) [
      | inl off ↦ inl (sym (some_inj (sym (ap (λ b. if b then some s else chosen found) off) ∙ e)))
      | inr on ↦
          let e : chosen found ≡ some d =
            sym (ap (λ b. if b then some s else chosen found) on) ∙ e in
          elim (Option-cases found) [
            | inl nobody ↦
                inl (kept (is_dead (get_or s.states s.current dead)) (sym (ap chosen nobody) ∙ e))
            | inr (t, some_t) ↦
                let e = sym (ap chosen some_t) ∙ e in
                elim (Bool-cases (t == s.current)) [
                  | inl same ↦ inl (
                      sym (
                        some_inj
                          (sym (ap (λ b. if b then some s else some (switch t s)) same) ∙ e)))
                  | inr other ↦ inr (
                    t,
                    find_runnable-runs s.states count (following count s.current) t some_t,
                    sym (
                        some_inj
                          (sym (ap (λ b. if b then some s else some (switch t s)) other) ∙ e)),
                  )
                ]
          ]
    ]

pub resched-blocked :
    (s d : Sched) (w : ℕ)
    → sched_resched s ≡ some d
    → get_or s.states w dead ≡ blocked
    → get_or d.states w dead ≡ blocked
unfolding switch is_running
resched-blocked s d w e h = elim (resched-cases s d e) [
  | inl same ↦ ap (λ x. get_or x.states w dead) same ∙ h
  | inr (t, runs, moved) ↦
      let prev = get_or s.states s.current dead in
      let freed = if is_running prev then set s.states s.current runnable else s.states in
      ap (λ x. get_or x.states w dead) moved
      ∙ get_or-set_ne freed t w running dead
          (λ tw. absurd (cc (subst (λ x. get_or s.states x dead ≡ runnable) tw runs, h)))
      ∙ if_intro (λ (l : List State). get_or l w dead ≡ blocked) (is_running prev)
          (λ holds.
            get_or-set_ne s.states s.current w runnable dead (λ cw. absurd (
              cc (
                subst (λ x. get_or s.states x dead ≡ running) cw (is_running-running prev holds),
                h,
              )))
            ∙ h)
          (λ fails. h)
]

pub resched-awake :
    (s d : Sched)
    → sched_resched s ≡ some d
    → d.current ≢ s.current
    → get_or d.states d.current dead ≡ running
unfolding switch is_running
resched-awake s d e moved = elim (resched-cases s d e) [
  | inl same ↦ absurd (moved (ap (λ x. x.current) same))
  | inr (t, runs, to) ↦
      let freed =
        if is_running (get_or s.states s.current dead)
        then set s.states s.current runnable
        else s.states in
      ap (λ x. get_or x.states x.current dead) to
      ∙ get_or-set_self freed t running dead (
          if_intro (λ (l : List State). t < length l) (is_running (get_or s.states s.current dead))
            (λ holds.
              subst (λ n. t < n) (sym (length-set s.states s.current runnable))
                (runs_inside s.states t runs))
            (λ fails. runs_inside s.states t runs))
]

pub resched-running :
    (s d : Sched)
    → sched_resched s ≡ some d
    → get_or s.states s.current dead ≡ running
    → get_or d.states d.current dead ≡ running
unfolding switch
resched-running s d e h = elim (Bool-cases (d.current == s.current)) [
  | inr moved ↦ resched-awake s d e (==→ne d.current s.current moved)
  | inl same ↦ elim (resched-cases s d e) [
    | inl still ↦ ap (λ x. get_or x.states x.current dead) still ∙ h
    | inr (t, runs, to) ↦ absurd (
        cc (
          subst (λ x. get_or s.states x dead ≡ runnable)
              (ap (λ x. x.current) (sym to) ∙ ==→eq d.current s.current same) runs,
          h,
        ))
  ]
]
