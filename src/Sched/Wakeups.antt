-- ===== src/Sched/Wakeups.antt =====
-- The wait queues of kernel/sched.c wake their threads in the order in which they went to sleep.
use neptune_os.Common.{
  length, get_or, set, get_or-set_self, get_or-set_ne, ◌==◌, if◌then◌else◌, ==→eq, ==→ne, ==_refl,
  Bool-cases, Option-cases, or-split, or-right, refute, or-left, update, update_same, update_other,
  ℕ, ◌<◌, ◌≡◌, refl, sym, ap, subst, ◌∙◌, ◌≢◌, ◌⊎◌, inl, inr, Bool, true, false, Option, none, some,
  List, [], ◌∷◌, ◌++◌,
}
use neptune_os.Sched.{running, Sched, blocked, dead, runnable}
use neptune_os.Sched.Wait.{Queue, Queues, set_state, enqueue, sched_wake_one}
use neptune_os.Sched.Chain.{
  has, last_of, Chain, Chain-frame, Chain-snoc, has-snoc, last_of-snoc, has-last,
}

-- Every queue is the list `waiting` of blocked threads, no thread is in two queues, and the current
-- thread is in none.
pub record Queued (waiting : ℕ → List ℕ) (s : Queues) : Type 0 where
  pub chain : (k : ℕ) → Chain s.next (s.queues k).head (waiting k)
  pub tail : (k : ℕ) → (s.queues k).tail ≡ last_of (waiting k)
  pub asleep : (k w : ℕ) → has w (waiting k) ≡ true → get_or s.sched.states w dead ≡ blocked
  pub apart : (k j w : ℕ) → has w (waiting k) ≡ true → has w (waiting j) ≡ true → k ≡ j

-- The current thread runs.
abbrev pub Awake : Queues → Type 0
Awake s = get_or s.sched.states s.sched.current dead ≡ running

pub if_both :
    {A B : Type 0} (P : A → B → Type 0) (b : Bool) {x y : A} {u v : B}
    → (b ≡ true → P x u)
    → (b ≡ false → P y v)
    → P (if b then x else y) (if b then u else v)
if_both P true h l = h refl
if_both P false h l = l refl

-- A change of one queue, and of the links and states of threads that are in no other.
module _ {waiting : ℕ → List ℕ} {s : Queues} (q : Queued waiting s) (k : ℕ) (ws : List ℕ)
    (queue : Queue) (next : ℕ → Option ℕ) (sched : Sched) (chain_k : Chain next queue.head ws)
    (tail_k : queue.tail ≡ last_of ws)
    (links : (j w : ℕ) → k ≢ j → has w (waiting j) ≡ true → next w ≡ s.next w)
    (sleep : (j w : ℕ) → k ≢ j → has w (waiting j) ≡ true → get_or sched.states w dead ≡ blocked)
    (sleep_k : (w : ℕ) → has w ws ≡ true → get_or sched.states w dead ≡ blocked)
    (apart_k : (j w : ℕ) → has w ws ≡ true → has w (waiting j) ≡ true → k ≡ j) where
  abbrev waiting' : ℕ → List ℕ
  waiting' = update waiting k ws

  in_either :
      (j w : ℕ)
      → has w (waiting' j) ≡ true
      → ((k ≡ j) × (has w ws ≡ true)) ⊎ ((k ≢ j) × (has w (waiting j) ≡ true))
  in_either j w h = elim (Bool-cases (k == j)) [
    | inl same ↦ inl (==→eq k j same, sym (ap (λ b. has w (if b then ws else waiting j)) same) ∙ h)
    | inr other ↦
        inr (==→ne k j other, sym (ap (λ b. has w (if b then ws else waiting j)) other) ∙ h)
  ]

  both_apart : (j i w : ℕ) → has w (waiting' j) ≡ true → has w (waiting' i) ≡ true → j ≡ i
  both_apart j i w hj hi = elim (in_either j w hj) [
    | inl (kj, a) ↦ elim (in_either i w hi) [
      | inl (ki, b) ↦ sym kj ∙ ki
      | inr (ki, b) ↦ sym kj ∙ apart_k i w a b
    ]
    | inr (kj, a) ↦ elim (in_either i w hi) [
      | inl (ki, b) ↦ sym (apart_k j w b a) ∙ ki
      | inr (ki, b) ↦ q.apart j i w a b
    ]
  ]

  pub put-Queued :
      Queued waiting' (record { sched = sched; next = next; queues = update s.queues k queue })
  put-Queued = record {
    chain = λ j.
        if_both (λ (u : Queue) (l : List ℕ). Chain next u.head l) (k == j) (λ same. chain_k)
          (λ other.
            Chain-frame s.next next (s.queues j).head (waiting j)
              (λ w h. links j w (==→ne k j other) h) (q.chain j));
    tail = λ j.
        if_both (λ (u : Queue) (l : List ℕ). u.tail ≡ last_of l) (k == j) (λ same. tail_k)
          (λ other. q.tail j);
    asleep = λ j w h. elim (in_either j w h) [
      | inl (kj, a) ↦ sleep_k w a
      | inr (kj, a) ↦ sleep j w kj a
    ];
    apart = both_apart;
  }

last_of-none : (ws : List ℕ) → last_of ws ≡ none → ws ≡ []
last_of-none [] e = refl
last_of-none (w ∷ []) e = absurd (cc)
last_of-none (w ∷ x ∷ xs) e = absurd (cc (last_of-none (x ∷ xs) e))

-- The thread `c` that is not blocked goes behind a queue.
pub enqueue-Queued :
    (waiting : ℕ → List ℕ) (k c : ℕ) (s : Queues)
    → Queued waiting s
    → get_or s.sched.states c dead ≢ blocked
    → c < length s.sched.states
    → Queued (update waiting k (waiting k ++ c ∷ [])) (enqueue k c s)
unfolding enqueue set_state
enqueue-Queued waiting k c s q new inside =
    let cleared = update s.next c none in
    let out : (j : ℕ) → has c (waiting j) ≡ false =
      λ j. refute (has c (waiting j)) (λ h. absurd (new (q.asleep j c h))) in
    let other : (j w : ℕ) → has w (waiting j) ≡ true → c ≢ w =
      λ j w h e. absurd (cc (subst (λ x. has x (waiting j) ≡ true) (sym e) h, out j)) in
    let blocks : (j w : ℕ)
        → has w (waiting j) ≡ true
        → get_or (set s.sched.states c blocked) w dead ≡ blocked =
      λ j w h. get_or-set_ne s.sched.states c w blocked dead (other j w h) ∙ q.asleep j w h in
    let split : (w : ℕ)
        → has w (waiting k ++ c ∷ []) ≡ true
        → (has w (waiting k) ≡ true) ⊎ ((c == w) ≡ true) =
      λ w h. or-split (has w (waiting k)) (c == w) (sym (has-snoc w c (waiting k)) ∙ h) in
    let put = put-Queued q k (waiting k ++ c ∷ []) in
    let sleep_k : (w : ℕ)
        → has w (waiting k ++ c ∷ []) ≡ true
        → get_or (set s.sched.states c blocked) w dead ≡ blocked =
      λ w h. elim (split w h) [
        | inl there ↦ blocks k w there
        | inr it ↦
            subst (λ x. get_or (set s.sched.states c blocked) x dead ≡ blocked) (==→eq c w it)
              (get_or-set_self s.sched.states c blocked dead inside)
      ] in
    let apart_k : (j w : ℕ)
        → has w (waiting k ++ c ∷ []) ≡ true
        → has w (waiting j) ≡ true
        → k ≡ j =
      λ j w h there. elim (split w h) [
        | inl both ↦ q.apart k j w both there
        | inr it ↦ absurd (other j w there (==→eq c w it))
      ] in
    let after : Option ℕ → Queues = λ o. elim o [
      | none ↦ record {
        sched = set_state c blocked s.sched;
        next = cleared;
        queues = update s.queues k (record { head = some c; tail = some c });
      }
      | some t ↦ record {
        sched = set_state c blocked s.sched;
        next = update cleared t (some c);
        queues = update s.queues k (record (s.queues k) { tail = some c });
      }
    ] in
    elim (Option-cases (s.queues k).tail) [
      | inl e ↦
          let empty = last_of-none (waiting k) (sym (q.tail k) ∙ e) in
          subst (λ o. Queued (update waiting k (waiting k ++ c ∷ [])) (after o)) (sym e)
            (put (record { head = some c; tail = some c }) cleared (set_state c blocked s.sched)
              (subst (λ l. Chain cleared (some c) (l ++ c ∷ [])) (sym empty)
                (refl, refl, update_same s.next c none))
              (sym (last_of-snoc c (waiting k)))
              (λ j w ne h. update_other s.next c none w (other j w h)) (λ j w ne h. blocks j w h)
              sleep_k apart_k)
      | inr (t, e) ↦
          let last = sym (q.tail k) ∙ e in
          let t_there = has-last t (waiting k) last in
          subst (λ o. Queued (update waiting k (waiting k ++ c ∷ [])) (after o)) (sym e)
            (put (record (s.queues k) { tail = some c }) (update cleared t (some c))
              (set_state c blocked s.sched)
              (Chain-snoc s.next (s.queues k).head (waiting k) t c (q.chain k) last (out k))
              (sym (last_of-snoc c (waiting k)))
              (λ j w ne h.
                update_other cleared t (some c) w
                  (λ tw. ne (q.apart k j w (subst (λ x. has x (waiting k) ≡ true) tw t_there) h))
                ∙ update_other s.next c none w (other j w h))
              (λ j w ne h. blocks j w h) sleep_k apart_k)
    ]

-- The tail behind the first thread of a queue.
tail_after :
    (next : ℕ → Option ℕ) (w : ℕ) (ws : List ℕ) (tail : Option ℕ)
    → Chain next (next w) ws
    → tail ≡ last_of (w ∷ ws)
    → (elim (next w) [ none ↦ none | some u ↦ tail ]) ≡ last_of ws
tail_after next w [] tail h e = ap (λ o. elim o [ none ↦ none | some u ↦ tail ]) h
tail_after next w (x ∷ xs) tail h e = ap (λ o. elim o [ none ↦ none | some u ↦ tail ]) h.0 ∙ e

pub wake_one-Queued :
    (waiting : ℕ → List ℕ) (k w : ℕ) (ws : List ℕ) (s : Queues)
    → Queued waiting s
    → waiting k ≡ w ∷ ws
    → Queued (update waiting k ws) (sched_wake_one k s)
unfolding sched_wake_one set_state
wake_one-Queued waiting k w ws s q e =
    let chain : Chain s.next (s.queues k).head (w ∷ ws) =
      subst (λ l. Chain s.next (s.queues k).head l) e (q.chain k) in
    let w_there : has w (waiting k) ≡ true =
      subst (λ l. has w l ≡ true) (sym e) (or-left (w == w) (has w ws) (==_refl w)) in
    let among : (v : ℕ) → has v ws ≡ true → has v (waiting k) ≡ true =
      λ v h. subst (λ l. has v l ≡ true) (sym e) (or-right (w == v) (has v ws) h) in
    let not_w : (v : ℕ) → has v ws ≡ true → w ≢ v =
      λ v h wv. absurd (cc (subst (λ x. has x ws ≡ true) (sym wv) h, chain.1)) in
    let not_here : (j v : ℕ) → k ≢ j → has v (waiting j) ≡ true → w ≢ v = λ j v ne h wv.
      ne (q.apart k j w w_there (subst (λ x. has x (waiting j) ≡ true) (sym wv) h)) in
    let after : Option ℕ → Queues = λ o. elim o [
      | none ↦ s
      | some t ↦ record {
        sched = set_state t runnable s.sched;
        next = update s.next t none;
        queues = update s.queues k (record {
          head = s.next t;
          tail = elim (s.next t) [ none ↦ none | some u ↦ (s.queues k).tail ];
        });
      }
    ] in
    subst (λ o. Queued (update waiting k ws) (after o)) (sym chain.0)
      (put-Queued q k ws
        (record {
          head = s.next w;
          tail = elim (s.next w) [ none ↦ none | some u ↦ (s.queues k).tail ];
        })
        (update s.next w none) (set_state w runnable s.sched)
        (Chain-frame s.next (update s.next w none) (s.next w) ws
          (λ v h. update_other s.next w none v (not_w v h)) chain.2)
        (tail_after s.next w ws (s.queues k).tail chain.2 (q.tail k ∙ ap last_of e))
        (λ j v ne h. update_other s.next w none v (not_here j v ne h))
        (λ j v ne h.
          get_or-set_ne s.sched.states w v runnable dead (not_here j v ne h) ∙ q.asleep j v h)
        (λ v h.
          get_or-set_ne s.sched.states w v runnable dead (not_w v h) ∙ q.asleep k v (among v h))
        (λ j v h there. q.apart k j v (among v h) there))
