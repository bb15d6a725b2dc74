-- ===== src/Sched/Blocked.antt =====
-- Which threads of kernel/sched.c are blocked after a change of states: none that was not blocked or put
-- to sleep, and none that was woken.
use neptune_os.Common.{
  get_or, set, get_or-set_ne, ◌==◌, if◌then◌else◌, ==→eq, ==→ne, ==_refl, Bool-cases, if_intro,
  or-right, or-left, update, ℕ, zero, suc, ◌≡◌, sym, subst, ◌∙◌, ◌≢◌, ◌⊎◌, inl, inr, true, some,
  List, [], ◌∷◌, ◌++◌, arith,
}
use neptune_os.Sched.{
  State, is_running, Sched, blocked, dead, runnable, running, switch, sched_resched,
}
use neptune_os.Sched.Chain.{has, has-snoc}
use neptune_os.Sched.Resched.{resched-cases}

abbrev pub IsBlocked : Sched → ℕ → Type 0
IsBlocked s w = get_or s.states w dead ≡ blocked

-- Every blocked thread is in one of the queues.
abbrev pub Waited : (ℕ → List ℕ) → Sched → Type 0
Waited waiting s = (w : ℕ) → IsBlocked s w → (k : ℕ) × (has w (waiting k) ≡ true)

-- A thread that is blocked after one has got another state is a different one, and was blocked.
pub set-blocked :
    (states : List State) (t w : ℕ) (state : State)
    → state ≢ blocked
    → get_or (set states t state) w dead ≡ blocked
    → (t ≢ w) × (get_or states w dead ≡ blocked)
set-blocked [] t w state ne h = absurd (cc)
set-blocked (x ∷ states) zero zero state ne h = absurd (ne h)
set-blocked (x ∷ states) zero (suc w) state ne h = (λ e. absurd (omega arith), h)
set-blocked (x ∷ states) (suc t) zero state ne h = (λ e. absurd (omega arith), h)
set-blocked (x ∷ states) (suc t) (suc w) state ne h =
    let r = set-blocked states t w state ne h in (λ e. r.0 (omega arith), r.1)

pub set-sleeper :
    (states : List State) (c w : ℕ)
    → get_or (set states c blocked) w dead ≡ blocked
    → (c ≡ w) ⊎ (get_or states w dead ≡ blocked)
set-sleeper states c w h = elim (Bool-cases (c == w)) [
  | inl e ↦ inl (==→eq c w e)
  | inr e ↦ inr (sym (get_or-set_ne states c w blocked dead (==→ne c w e)) ∙ h)
]

-- A switch blocks nobody.
pub resched-blocked_before :
    (s d : Sched) (w : ℕ) → sched_resched s ≡ some d → IsBlocked d w → IsBlocked s w
unfolding switch is_running
resched-blocked_before s d w e h = elim (resched-cases s d e) [
  | inl same ↦ subst (λ x. IsBlocked x w) same h
  | inr (t, runs, moved) ↦
      let freed =
        if is_running (get_or s.states s.current dead)
        then set s.states s.current runnable
        else s.states in
      let before : get_or freed w dead ≡ blocked =
        (set-blocked freed t w running (λ z. absurd (cc)) (subst (λ x. IsBlocked x w) moved h)).1 in
      elim (Bool-cases (is_running (get_or s.states s.current dead))) [
        | inl holds ↦
            (set-blocked s.states s.current w runnable (λ z. absurd (cc))
              (subst
                (λ b.
                  get_or (if b then set s.states s.current runnable else s.states) w dead ≡ blocked)
                holds before)).1
        | inr fails ↦
            subst
              (λ b.
                get_or (if b then set s.states s.current runnable else s.states) w dead ≡ blocked)
              fails before
      ]
]

-- A thread goes behind a queue, and blocks.
pub sleep-Waited :
    (waiting : ℕ → List ℕ) (s d : Sched) (k : ℕ)
    → Waited waiting s
    → ((w : ℕ) → IsBlocked d w → (s.current ≡ w) ⊎ IsBlocked s w)
    → Waited (update waiting k (waiting k ++ s.current ∷ [])) d
sleep-Waited waiting s d k waited only w h = elim (only w h) [
  | inl it ↦ (
    k,
    if_intro (λ l. has w l ≡ true) (k == k)
        (λ same.
          has-snoc w s.current (waiting k)
          ∙ or-right (has w (waiting k)) (s.current == w)
              (subst (λ x. (s.current == x) ≡ true) it (==_refl s.current)))
        (λ other. absurd (cc (==_refl k, other))),
  )
  | inr before ↦
      let (j, there) = waited w before in
      (
        j,
        if_intro (λ l. has w l ≡ true) (k == j)
            (λ same.
              has-snoc w s.current (waiting k)
              ∙ or-left (has w (waiting k)) (s.current == w)
                  (subst (λ x. has w (waiting x) ≡ true) (sym (==→eq k j same)) there))
            (λ other. there),
      )
]

-- The threads of queue `k` that are not in `ws` are awake.
pub wake-Waited :
    (waiting : ℕ → List ℕ) (s d : Sched) (k : ℕ) (ws : List ℕ)
    → Waited waiting s
    → ((w : ℕ) → IsBlocked d w → IsBlocked s w × (has w (waiting k) ≡ has w ws))
    → Waited (update waiting k ws) d
wake-Waited waiting s d k ws waited only w h =
    let (before, left) = only w h in
    let (j, there) = waited w before in
    (
      j,
      if_intro (λ l. has w l ≡ true) (k == j)
          (λ same. sym left ∙ subst (λ x. has w (waiting x) ≡ true) (sym (==→eq k j same)) there)
          (λ other. there),
    )
