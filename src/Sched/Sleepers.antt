-- ===== src/Sched/Sleepers.antt =====
-- Any sequence of sleeps, wake-ups and switches of kernel/sched.c, on any number of wait queues.
use neptune_os.Common.{
  length, get_or, take, get_or-set_ne, ◌==◌, ==→eq, ==_refl, ne→==, Option-cases, some_inj,
  if_intro, or-left, update, ℕ, ◌≤◌, ◌≡◌, refl, sym, ap, subst, ◌∙◌, ◌≢◌, inl, inr, true, false,
  ◌||◌, Option, none, some, List, [], ◌∷◌, ◌++◌, append-nil, append_assoc,
}
use neptune_os.Sched.Blocked.{
  IsBlocked, set-blocked, set-sleeper, sleep-Waited, wake-Waited, Waited, resched-blocked_before,
}
use neptune_os.Sched.{Sched, blocked, dead, runnable, running, sched_resched}
use neptune_os.Sched.Wait.{
  Queues, set_state, enqueue, sched_sleep, sched_sleep_cond, sched_wake_one, sched_wake_all,
}
use neptune_os.Sched.Chain.{has, Chain, Chain-same}
use neptune_os.Sched.Resched.{resched-blocked, resched-awake, resched-running, get_or-inside}
use neptune_os.Sched.WakeAll.{sched_wake_all-Queued}
use neptune_os.Sched.Wakeups.{if_both, Queued, Awake, enqueue-Queued, wake_one-Queued}

-- What has happened: the threads that each queue put to sleep and those that it woke, in order.
pub record Traffic : Type 0 where
  pub waits : Queues
  pub slept : ℕ → List ℕ
  pub woken : ℕ → List ℕ

-- A sleeper finds another thread to run, as does a thread that ends.
pub data Step (t : Traffic) : Traffic → Type 0 where
  sleeps :
      (k : ℕ) (s' : Queues)
      → sched_sleep_cond k false t.waits ≡ some s'
      → s'.sched.current ≢ t.waits.sched.current
      → Step t (record t {
        waits = s';
        slept = update t.slept k (t.slept k ++ t.waits.sched.current ∷ []);
      })
  stays :
      (k : ℕ) (s' : Queues)
      → sched_sleep_cond k true t.waits ≡ some s'
      → Step t (record t { waits = s' })
  wakes_one :
      (k : ℕ) (ws : List ℕ)
      → Chain t.waits.next (t.waits.queues k).head ws
      → Step t (record t {
        waits = sched_wake_one k t.waits;
        woken = update t.woken k (t.woken k ++ take 1 ws);
      })
  wakes_all :
      (k fuel : ℕ) (ws : List ℕ) (s' : Queues)
      → Chain t.waits.next (t.waits.queues k).head ws
      → length ws ≤ fuel
      → sched_wake_all fuel k t.waits ≡ some s'
      → Step t (record t { waits = s'; woken = update t.woken k (t.woken k ++ ws) })
  reschedules :
      (sched : Sched)
      → sched_resched t.waits.sched ≡ some sched
      → Step t (record t { waits = record t.waits { sched = sched } })
  ends :
      (sched : Sched)
      → sched_resched (set_state t.waits.sched.current dead t.waits.sched) ≡ some sched
      → sched.current ≢ t.waits.sched.current
      → Step t (record t { waits = record t.waits { sched = sched } })

pub data Steps (t : Traffic) : Traffic → Type 0 where
  start : Steps t t
  after : {u v : Traffic} → Steps t u → Step u v → Steps t v

-- Every queue holds, in order, the threads that went to sleep there and have not been woken, and no
-- thread is blocked but those.
pub record InOrder (t : Traffic) : Type 0 where
  pub waiting : ℕ → List ℕ
  pub queued : Queued waiting t.waits
  pub awake : Awake t.waits
  pub waited : Waited waiting t.waits.sched
  pub order : (k : ℕ) → t.woken k ++ waiting k ≡ t.slept k

resched-Queued :
    (waiting : ℕ → List ℕ) (s : Queues) (sched : Sched)
    → sched_resched s.sched ≡ some sched
    → Queued waiting s
    → Queued waiting (record s { sched = sched })
resched-Queued waiting s sched e q = record {
  chain = q.chain;
  tail = q.tail;
  asleep = λ k w h. resched-blocked s.sched sched w e (q.asleep k w h);
  apart = q.apart;
}

ends-Queued :
    (waiting : ℕ → List ℕ) (s : Queues)
    → Queued waiting s
    → Awake s
    → Queued waiting (record s { sched = set_state s.sched.current dead s.sched })
unfolding set_state
ends-Queued waiting s q awake = record {
  chain = q.chain;
  tail = q.tail;
  asleep = λ k w h.
      get_or-set_ne s.sched.states s.sched.current w dead dead (λ e.
        absurd (cc (q.asleep k w h, subst (λ x. get_or s.sched.states x dead ≡ running) e awake)))
      ∙ q.asleep k w h;
  apart = q.apart;
}

enqueue-sched : (k c : ℕ) (s : Queues) → (enqueue k c s).sched ≡ set_state c blocked s.sched
unfolding enqueue
enqueue-sched k c s = elim (Option-cases (s.queues k).tail) [
  | inl e ↦ rw (e, enqueue) refl
  | inr (t, e) ↦ rw (e, enqueue) refl
]

wake_one-sched :
    (k w : ℕ) (s : Queues)
    → (s.queues k).head ≡ some w
    → (sched_wake_one k s).sched ≡ set_state w runnable s.sched
unfolding sched_wake_one
wake_one-sched k w s e = rw (e, sched_wake_one) refl

wake_one-none : (k : ℕ) (s : Queues) → (s.queues k).head ≡ none → sched_wake_one k s ≡ s
unfolding sched_wake_one
wake_one-none k s e = rw (e, sched_wake_one) refl

sleeps-InOrder :
    {t : Traffic} (k : ℕ) (s' : Queues)
    → InOrder t
    → sched_sleep_cond k false t.waits ≡ some s'
    → s'.sched.current ≢ t.waits.sched.current
    → InOrder (record t {
      waits = s';
      slept = update t.slept k (t.slept k ++ t.waits.sched.current ∷ []);
    })
unfolding sched_sleep_cond sched_sleep set_state
sleeps-InOrder {t} k s' o e moved =
    let s = t.waits in
    let c = s.sched.current in
    let s1 = enqueue k c s in
    let waiting' = update o.waiting k (o.waiting k ++ c ∷ []) in
    let resume : Option Sched → Option Queues =
      λ r. elim r [ none ↦ none | some sched ↦ some (record s1 { sched = sched }) ] in
    elim (Option-cases (sched_resched s1.sched)) [
      | inl halts ↦ absurd (cc (ap resume halts, e))
      | inr (d, goes) ↦
          let s'_eq : s' ≡ record s1 { sched = d } = some_inj (sym e ∙ ap resume goes) in
          let away : d.current ≢ s1.sched.current = λ same.
            moved (
              ap (λ x. x.sched.current) s'_eq ∙ same ∙ ap (λ x. x.current) (enqueue-sched k c s)) in
          subst
            (λ x. InOrder (record t { waits = x; slept = update t.slept k (t.slept k ++ c ∷ []) }))
            (sym s'_eq)
            record {
              waiting = waiting';
              queued = resched-Queued waiting' s1 d goes (
                  enqueue-Queued o.waiting k c s o.queued (λ b. absurd (cc (b, o.awake)))
                    (get_or-inside s.sched.states c (λ b. absurd (cc (b, o.awake)))));
              awake = resched-awake s1.sched d goes away;
              waited = sleep-Waited o.waiting s.sched d k o.waited (λ w h.
                  set-sleeper s.sched.states c w (
                    subst (λ x. IsBlocked x w) (enqueue-sched k c s)
                      (resched-blocked_before s1.sched d w goes h)));
              order = λ j.
                  if_both (λ (a b : List ℕ). t.woken j ++ a ≡ b) (k == j)
                    (λ same.
                      subst (λ x. t.woken x ++ (o.waiting k ++ c ∷ []) ≡ t.slept k ++ c ∷ [])
                        (==→eq k j same)
                        (sym (append_assoc (t.woken k) (o.waiting k) (c ∷ []))
                          ∙ ap (λ l. l ++ c ∷ []) (o.order k)))
                    (λ other. o.order j);
            }
    ]

wakes_one-InOrder :
    {t : Traffic} (k : ℕ) (ws : List ℕ)
    → InOrder t
    → Chain t.waits.next (t.waits.queues k).head ws
    → InOrder (record t {
      waits = sched_wake_one k t.waits;
      woken = update t.woken k (t.woken k ++ take 1 ws);
    })
unfolding set_state
wakes_one-InOrder {t} k [] o chain = record {
  waiting = o.waiting;
  queued = subst (Queued o.waiting) (sym (wake_one-none k t.waits chain)) o.queued;
  awake = subst Awake (sym (wake_one-none k t.waits chain)) o.awake;
  waited = subst (λ x. Waited o.waiting x.sched) (sym (wake_one-none k t.waits chain)) o.waited;
  order = λ j.
      if_intro (λ (l : List ℕ). l ++ o.waiting j ≡ t.slept j) (k == j)
        (λ same.
          ap (λ l. l ++ o.waiting j) (append-nil (t.woken k) ∙ ap t.woken (==→eq k j same))
          ∙ o.order j)
        (λ other. o.order j);
}
wakes_one-InOrder {t} k (w ∷ ws) o chain =
    let s = t.waits in
    let same : o.waiting k ≡ w ∷ ws =
      Chain-same s.next (s.queues k).head (o.waiting k) (w ∷ ws) (o.queued.chain k) chain in
    let asleep =
      o.queued.asleep k w
        (subst (λ l. has w l ≡ true) (sym same) (or-left (w == w) (has w ws) (==_refl w))) in
    let sched = wake_one-sched k w s chain.0 in
    record {
      waiting = update o.waiting k ws;
      queued = wake_one-Queued o.waiting k w ws s o.queued same;
      awake =
          subst (λ x. get_or x.states x.current dead ≡ running) (sym sched)
            (get_or-set_ne s.sched.states w s.sched.current runnable dead (λ e.
                absurd (
                  cc (asleep, subst (λ x. get_or s.sched.states x dead ≡ running) (sym e) o.awake)))
              ∙ o.awake);
      waited = wake-Waited o.waiting s.sched (sched_wake_one k s).sched k ws o.waited (λ v h.
          let (other, before) =
            set-blocked s.sched.states w v runnable (λ z. absurd (cc))
              (subst (λ x. IsBlocked x v) sched h) in
          (before, ap (has v) same ∙ ap (λ b. b || has v ws) (ne→== w v other)));
      order = λ j.
          if_both (λ (a b : List ℕ). a ++ b ≡ t.slept j) (k == j)
            (λ kj.
              append_assoc (t.woken k) (w ∷ []) ws
              ∙ ap (λ l. t.woken k ++ l) (sym same)
              ∙ o.order k
              ∙ ap t.slept (==→eq k j kj))
            (λ other. o.order j);
    }

wakes_all-InOrder :
    {t : Traffic} (k fuel : ℕ) (ws : List ℕ) (s' : Queues)
    → InOrder t
    → Chain t.waits.next (t.waits.queues k).head ws
    → length ws ≤ fuel
    → sched_wake_all fuel k t.waits ≡ some s'
    → InOrder (record t { waits = s'; woken = update t.woken k (t.woken k ++ ws) })
wakes_all-InOrder {t} k fuel ws s' o chain h e =
    let same : o.waiting k ≡ ws =
      Chain-same t.waits.next (t.waits.queues k).head (o.waiting k) ws (o.queued.chain k) chain in
    let (s2, e2, queued, awake, asleep) =
      sched_wake_all-Queued o.waiting k fuel t.waits o.queued o.awake
        (subst (λ l. length l ≤ fuel) (sym same) h) in
    subst (λ x. InOrder (record t { waits = x; woken = update t.woken k (t.woken k ++ ws) }))
      (some_inj (sym e2 ∙ e))
      record {
        waiting = update o.waiting k [];
        queued = queued;
        awake = awake;
        waited = wake-Waited o.waiting t.waits.sched s2.sched k [] o.waited asleep;
        order = λ j.
            if_both (λ (a b : List ℕ). a ++ b ≡ t.slept j) (k == j)
              (λ kj.
                append-nil (t.woken k ++ ws)
                ∙ ap (λ l. t.woken k ++ l) (sym same)
                ∙ o.order k
                ∙ ap t.slept (==→eq k j kj))
              (λ other. o.order j);
      }

step-InOrder : {t u : Traffic} → InOrder t → Step t u → InOrder u
unfolding sched_sleep_cond set_state
step-InOrder o (sleeps k s' e moved) = sleeps-InOrder k s' o e moved
step-InOrder {t} o (stays k s' e) = subst (λ x. InOrder (record t { waits = x })) (some_inj e) o
step-InOrder o (wakes_one k ws chain) = wakes_one-InOrder k ws o chain
step-InOrder o (wakes_all k fuel ws s' chain h e) = wakes_all-InOrder k fuel ws s' o chain h e
step-InOrder {t} o (reschedules sched e) = record {
  waiting = o.waiting;
  queued = resched-Queued o.waiting t.waits sched e o.queued;
  awake = resched-running t.waits.sched sched e o.awake;
  waited = λ w h. o.waited w (resched-blocked_before t.waits.sched sched w e h);
  order = o.order;
}
step-InOrder {t} o (ends sched e moved) = record {
  waiting = o.waiting;
  queued =
      resched-Queued o.waiting
        (record t.waits { sched = set_state t.waits.sched.current dead t.waits.sched }) sched e
        (ends-Queued o.waiting t.waits o.queued o.awake);
  awake = resched-awake (set_state t.waits.sched.current dead t.waits.sched) sched e moved;
  waited = λ w h.
      o.waited w
        (set-blocked t.waits.sched.states t.waits.sched.current w dead (λ z. absurd (cc))
          (resched-blocked_before (set_state t.waits.sched.current dead t.waits.sched) sched w e
            h)).1;
  order = o.order;
}

-- From queues that hold the threads that sleep there in order: whatever sleeps, wake-ups of one thread or
-- of all, switches and ends of threads follow, in any order, on any number of queues, each queue has
-- woken, in the order in which they went to sleep, the first of the threads that slept there, and holds
-- the rest; the threads in the queues are blocked and no others are, so that a thread that has been woken
-- is blocked no more unless it went to sleep again; and the current thread runs. A sleeper and a thread
-- that ends find another thread to run.
pub Steps-InOrder : {t u : Traffic} → InOrder t → Steps t u → InOrder u
Steps-InOrder o start = o
Steps-InOrder o (after steps step) = step-InOrder (Steps-InOrder o steps) step
