-- ===== src/Sched/WakeAll.antt =====
-- `sched_wake_all` of kernel/sched.c: the loop ends, and the queue is empty.
use neptune_os.Common.{
  length, get_or, get_or-set_ne, ◌==◌, ==→ne, ne→==, or-false, refute, update, update_other, ℕ,
  zero, suc, ◌≤◌, ◌≡◌, refl, sym, ap, ap₂, subst, ◌∙◌, ◌≢◌, true, false, ◌||◌, Option, none, some,
  List, [], ◌∷◌, arith,
}
use neptune_os.Sched.Blocked.{set-blocked, IsBlocked}
use neptune_os.Sched.{dead, runnable}
use neptune_os.Sched.Wait.{Queue, Queues, set_state, wait_queue_init, wake_loop, sched_wake_all}
use neptune_os.Sched.Chain.{has, Chain, Chain-frame}
use neptune_os.Sched.Wakeups.{Queued, Awake, put-Queued}

-- What the loop of `sched_wake_all` over the threads `ws` leaves.
record Woken (ws : List ℕ) (s s' : Queues) : Type 0 where
  links : (w : ℕ) → has w ws ≡ false → s'.next w ≡ s.next w
  states : (w : ℕ) → has w ws ≡ false → get_or s'.sched.states w dead ≡ get_or s.sched.states w dead
  queues : s'.queues ≡ s.queues
  current : s'.sched.current ≡ s.sched.current
  asleep : (w : ℕ) → IsBlocked s'.sched w → IsBlocked s.sched w × (has w ws ≡ false)

wake_loop-none : (fuel : ℕ) (s : Queues) → wake_loop fuel none s ≡ some s
unfolding wake_loop
wake_loop-none zero s = refl
wake_loop-none (suc fuel) s = refl

wake_loop-Woken :
    (fuel : ℕ) (at : Option ℕ) (ws : List ℕ) (s : Queues)
    → length ws ≤ fuel
    → Chain s.next at ws
    → (s' : Queues) × (wake_loop fuel at s ≡ some s') × Woken ws s s'
unfolding wake_loop set_state
wake_loop-Woken fuel at [] s h chain = (
  s,
  ap (λ o. wake_loop fuel o s) chain ∙ wake_loop-none fuel s,
  record {
    links = λ w e. refl;
    states = λ w e. refl;
    queues = refl;
    current = refl;
    asleep = λ w h. (h, refl);
  },
)
wake_loop-Woken zero at (w ∷ ws) s h chain = absurd (omega arith)
wake_loop-Woken (suc fuel) at (w ∷ ws) s h chain =
    let s1 = record s { sched = set_state w runnable s.sched; next = update s.next w none } in
    let (s', e, rest) = wake_loop-Woken fuel (s.next w) ws s1 (omega arith) (
      Chain-frame s.next (update s.next w none) (s.next w) ws
        (λ v hv.
          update_other s.next w none v
            (λ wv. absurd (cc (subst (λ x. has x ws ≡ true) (sym wv) hv, chain.1))))
        chain.2) in
    (
      s',
      ap (λ o. wake_loop (suc fuel) o s) chain.0 ∙ e,
      record {
        links = λ v out.
            let o = or-false (w == v) (has v ws) out in
            rest.links v o.1 ∙ update_other s.next w none v (==→ne w v o.0);
        states = λ v out.
            let o = or-false (w == v) (has v ws) out in
            rest.states v o.1 ∙ get_or-set_ne s.sched.states w v runnable dead (==→ne w v o.0);
        queues = rest.queues;
        current = rest.current;
        asleep = λ v h.
            let (before, out) = rest.asleep v h in
            let (other, first) =
              set-blocked s.sched.states w v runnable (λ z. absurd (cc)) before in
            (first, ap₂ (λ a b. a || b) (ne→== w v other) out);
      },
    )

-- With as much fuel as the queue has threads, `sched_wake_all` returns: it empties the queue, keeps the
-- other queues and leaves the current thread running; no thread that slept in the queue is blocked after
-- it, and none is that was not before.
pub sched_wake_all-Queued :
    (waiting : ℕ → List ℕ) (k fuel : ℕ) (s : Queues)
    → Queued waiting s
    → Awake s
    → length (waiting k) ≤ fuel
    → (s' : Queues) × (sched_wake_all fuel k s ≡ some s')
      × Queued (update waiting k []) s'
      × Awake s'
      × ((w : ℕ) → IsBlocked s'.sched w → IsBlocked s.sched w × (has w (waiting k) ≡ false))
unfolding sched_wake_all wait_queue_init
sched_wake_all-Queued waiting k fuel s q awake h =
    let (s', e, r) = wake_loop-Woken fuel (s.queues k).head (waiting k) s h (q.chain k) in
    let out : has s.sched.current (waiting k) ≡ false =
      refute (has s.sched.current (waiting k))
        (λ there. absurd (cc (q.asleep k s.sched.current there, awake))) in
    let elsewhere : (j w : ℕ) → k ≢ j → has w (waiting j) ≡ true → has w (waiting k) ≡ false =
      λ j w ne there. refute (has w (waiting k)) (λ both. absurd (ne (q.apart k j w both there))) in
    let empty : Queue = record { head = none; tail = none } in
    (
      record { sched = s'.sched; next = s'.next; queues = update s'.queues k empty },
      ap (λ o. elim o [ none ↦ none | some s' ↦ some (wait_queue_init k s') ]) e,
      subst
          (λ qs.
            Queued (update waiting k [])
              (record { sched = s'.sched; next = s'.next; queues = update qs k empty }))
          (sym r.queues)
          (put-Queued q k [] empty s'.next s'.sched refl refl
            (λ j w ne there. r.links w (elsewhere j w ne there))
            (λ j w ne there. r.states w (elsewhere j w ne there) ∙ q.asleep j w there)
            (λ w no_one. absurd (cc)) (λ j w no_one. absurd (cc))),
      ap (λ c. get_or s'.sched.states c dead) r.current ∙ r.states s.sched.current out ∙ awake,
      r.asleep,
    )
