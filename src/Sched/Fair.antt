-- ===== src/Sched/Fair.antt =====
-- How long a thread of kernel/sched.c that can run waits for its turn.
use neptune_os.Common.{
  length, get_or, set, length-set, get_or-set_ne, ltb, ◌==◌, if◌then◌else◌, ltb→lt, ltb→ge, ==→eq,
  ==→ne, Bool-cases, some_inj, if_intro, ℕ, zero, suc, ◌+◌, ◌-◌, ◌≤◌, ◌<◌, ◌≡◌, refl, sym, ap, ap₂,
  subst, ◌∙◌, ◌≢◌, inl, inr, true, false, some, List, arith,
}
use neptune_os.Sched.Switch.{sched_resched-first}
use neptune_os.Sched.{
  unused, blocked, runnable, running, switch, State, is_running, dead, is_runnable, Sched,
  following, sched_resched,
}
use neptune_os.Sched.Choice.{ready_at, after}

-- Thread `t` is in the list of a ready scheduler, and can run.
pub record Waits (t : ℕ) (s : Sched) : Type 0 where
  pub ready : s.ready ≡ true
  pub listed : s.current < length s.states
  pub present : t < length s.states
  pub can_run : is_runnable (get_or s.states t dead) ≡ true

-- What happens while `t` waits, with the number of calls of `sched_resched_locked`: such calls, none of
-- which picks `t`, and between them anything that leaves the current thread, the number of threads and the
-- state of `t` alone.
pub data Passes (t : ℕ) : ℕ → Sched → Sched → Type 0 where
  here : {s : Sched} → Passes t 0 s s
  resched :
      {k : ℕ} {s s' s'' : Sched}
      → sched_resched s ≡ some s'
      → s'.current ≢ t
      → Passes t k s' s''
      → Passes t (suc k) s s''
  meanwhile :
      {k : ℕ} {s s' s'' : Sched}
      → Waits t s'
      → s'.current ≡ s.current
      → length s'.states ≡ length s.states
      → Passes t k s' s''
      → Passes t k s s''

-- How many threads stand between the current one and `t`, around the list.
unfoldable gap : ℕ → ℕ → ℕ → ℕ
gap count c t = if ltb c t then t - c - 1 else t + count - c - 1

gap-lt : (count c t : ℕ) → c < count → t < count → gap count c t < count
unfolding gap
gap-lt count c t h k = ground (arith)

after-gap :
    (count c t : ℕ) → c < count → t < count → after count (following count c) (gap count c t) ≡ t
unfolding gap after following
after-gap count c t h k = ground (arith)

-- A pick before `t` leaves fewer threads between.
gap-after :
    (count c t d : ℕ)
    → c < count
    → t < count
    → d < gap count c t
    → gap count (after count (following count c) d) t < gap count c t
unfolding gap after following
gap-after count c t d h k l = ground (arith)

after-inside : (count c d : ℕ) → c < count → d < count → after count (following count c) d < count
unfolding after following
after-inside count c d h k = ground (arith)

-- The list after the current thread has stopped running.
abbrev stopped : Sched → List State
stopped s =
    if is_running (get_or s.states s.current dead)
    then set s.states s.current runnable
    else s.states

stopped-length : (s : Sched) → length (stopped s) ≡ length s.states
stopped-length s =
    if_intro (λ (l : List State). length l ≡ length s.states)
      (is_running (get_or s.states s.current dead)) (λ e. length-set s.states s.current runnable)
      (λ e. refl)

runnable-not_running : (x : State) → is_runnable x ≡ true → is_running x ≡ false
unfolding is_runnable is_running
runnable-not_running unused e = refl
runnable-not_running runnable e = refl
runnable-not_running running e = absurd (cc)
runnable-not_running blocked e = refl
runnable-not_running dead e = refl

stopped-other :
    (t : ℕ) (s : Sched)
    → is_runnable (get_or s.states t dead) ≡ true
    → is_runnable (get_or (stopped s) t dead) ≡ true
stopped-other t s can =
    if_intro (λ (l : List State). is_runnable (get_or l t dead) ≡ true)
      (is_running (get_or s.states s.current dead))
      (λ e. elim (Bool-cases (s.current == t)) [
        | inl same ↦ absurd (
            clash (
              sym (runnable-not_running (get_or s.states t dead) can)
              ∙ ap (λ i. is_running (get_or s.states i dead)) (sym (==→eq s.current t same))
              ∙ e))
        | inr other ↦
            ap is_runnable
              (get_or-set_ne s.states s.current t runnable dead (==→ne s.current t other))
            ∙ can
      ])
      (λ e. can)
  where
    clash : false ≢ true
    clash e = absurd (cc)

switch-current : (c : ℕ) (s : Sched) → (switch c s).current ≡ c
unfolding switch
switch-current c s = refl

switch-Waits :
    (t c : ℕ) (s : Sched)
    → Waits t s
    → c < length s.states
    → c ≢ t
    → Waits t (switch c s) × (length (switch c s).states ≡ length s.states)
unfolding switch
switch-Waits t c s w h ne =
    let same = length-set (stopped s) c running ∙ stopped-length s in
    (
      record {
        ready = w.ready;
        listed = omega (arith, same, h);
        present = omega (arith, same, w.present);
        can_run =
            ap is_runnable (get_or-set_ne (stopped s) c t running dead ne)
            ∙ stopped-other t s w.can_run;
      },
      same,
    )

-- A call that does not pick `t` brings the current thread nearer to it.
abbrev Nearer : ℕ → Sched → Sched → Type 0
Nearer t s s' =
    Waits t s'
    × (length s'.states ≡ length s.states)
    × (gap (length s.states) s'.current t < gap (length s.states) s.current t)

module _ (t : ℕ) (s : Sched) (w : Waits t s) where
  ready_at-gap :
      ready_at s.states (following (length s.states) s.current) (gap (length s.states) s.current t)
      ≡ true
  ready_at-gap =
      ap (λ i. is_runnable (get_or s.states i dead))
        (after-gap (length s.states) s.current t w.listed w.present)
      ∙ w.can_run

  picked-Nearer :
      (s' : Sched) (d : ℕ)
      → d < length s.states
      → d ≤ gap (length s.states) s.current t
      → sched_resched s
        ≡ some (
            if after (length s.states) (following (length s.states) s.current) d == s.current
            then s
            else switch (after (length s.states) (following (length s.states) s.current) d) s)
      → sched_resched s ≡ some s'
      → s'.current ≢ t
      → Nearer t s s'
  picked-Nearer s' d small le picked e ne = elim (Bool-cases (c == s.current)) [
    | inl same ↦
        let kept : s ≡ s' = some_inj (sym (rw same at picked) ∙ e) in
        let at : c ≡ s'.current = ==→eq c s.current same ∙ ap (λ x. x.current) kept in
        let less =
          gap-after (length s.states) s.current t d w.listed w.present
            (below (λ q. ne (sym at ∙ q))) in
        absurd (omega (arith, less, ap (λ i. gap (length s.states) i t) (==→eq c s.current same)))
    | inr other ↦
        let moved : switch c s ≡ s' = some_inj (sym (rw other at picked) ∙ e) in
        let away : c ≢ t = λ q. ne (sym (ap (λ x. x.current) moved) ∙ switch-current c s ∙ q) in
        let (waits, same) = switch-Waits t c s w inside away in
        subst (Nearer t s) moved (
          waits,
          same,
          subst (λ i. gap (length s.states) i t < gap (length s.states) s.current t)
              (sym (switch-current c s))
              (gap-after (length s.states) s.current t d w.listed w.present (below away)),
        )
  ]
    where
      c : ℕ
      c = after (length s.states) (following (length s.states) s.current) d

      inside : c < length s.states
      inside = after-inside (length s.states) s.current d w.listed small

      below : c ≢ t → d < gap (length s.states) s.current t
      below away = elim (Bool-cases (d == gap (length s.states) s.current t)) [
        | inl q ↦ absurd (
            away (
              ap (after (length s.states) (following (length s.states) s.current))
                (==→eq d (gap (length s.states) s.current t) q)
              ∙ after-gap (length s.states) s.current t w.listed w.present))
        | inr q ↦ omega (arith, le, ==→ne d (gap (length s.states) s.current t) q)
      ]

  resched-Nearer : (s' : Sched) → sched_resched s ≡ some s' → s'.current ≢ t → Nearer t s s'
  resched-Nearer s' e ne = elim (sched_resched-first s w.ready w.listed) [
    | inl (idle, all) ↦ absurd (
        clash (
          sym (
            all (gap (length s.states) s.current t)
              (gap-lt (length s.states) s.current t w.listed w.present))
          ∙ ready_at-gap))
    | inr (d, small, ready, before, picked) ↦
        picked-Nearer s' d small (not_behind d before) picked e ne
  ]
    where
      clash : false ≢ true
      clash q = absurd (cc)

      not_behind :
          (d : ℕ)
          → ((i : ℕ) → i < d → ready_at s.states (following (length s.states) s.current) i ≡ false)
          → d ≤ gap (length s.states) s.current t
      not_behind d before = elim (Bool-cases (ltb (gap (length s.states) s.current t) d)) [
        | inl q ↦ absurd (
            clash (
              sym (
                before (gap (length s.states) s.current t)
                  (ltb→lt (gap (length s.states) s.current t) d q))
              ∙ ready_at-gap))
        | inr q ↦ ltb→ge (gap (length s.states) s.current t) d q
      ]

le-gap :
    (t k : ℕ) (s s' : Sched)
    → Passes t k s s'
    → Waits t s
    → (k ≤ gap (length s.states) s.current t) × Waits t s'
le-gap t zero s _ here w = (omega arith, w)
le-gap t (suc k) s s' (resched {s' = s1} e ne p) w =
    let (w1, same, less) = resched-Nearer t s w s1 e ne in
    let (le, w2) = le-gap t k s1 s' p w1 in
    (omega (arith, less, le, ap (λ n. gap n s1.current t) same), w2)
le-gap t k s s' (meanwhile {s' = s1} w1 c l p) w =
    let (le, w2) = le-gap t k s1 s' p w1 in (omega (arith, le, ap₂ (λ n i. gap n i t) l c), w2)

resched-returns : (t : ℕ) (s : Sched) → Waits t s → (s' : Sched) × (sched_resched s ≡ some s')
resched-returns t s w = elim (sched_resched-first s w.ready w.listed) [
  | inl (idle, all) ↦ absurd (
      clash (
        sym (
          all (gap (length s.states) s.current t)
            (gap-lt (length s.states) s.current t w.listed w.present))
        ∙ ready_at-gap t s w))
  | inr (d, small, ready, before, picked) ↦ (_, picked)
]
  where
    clash : false ≢ true
    clash q = absurd (cc)

-- A thread that can run waits for fewer calls of `sched_resched_locked` than there are threads, and each of
-- them returns: while the thread is passed over, whatever else happens between the calls leaves the current
-- thread, the number of threads and the state of this thread alone.
pub sched_resched-bounded_wait :
    (t k : ℕ) (s s' : Sched)
    → Waits t s
    → Passes t k s s'
    → (k < length s.states) × ((s'' : Sched) × (sched_resched s' ≡ some s''))
sched_resched-bounded_wait t k s s' w p =
    let (le, w') = le-gap t k s s' p w in
    (
      omega (arith, le, gap-lt (length s.states) s.current t w.listed w.present),
      resched-returns t s' w',
    )
