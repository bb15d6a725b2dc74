-- ===== src/Sched/Chain.antt =====
-- A wait queue as the list of its threads, in the order of the links.
use neptune_os.Common.{
  ◌==◌, ==→ne, ==_refl, ne→==, some_inj, or_assoc, or-false, or-right, or-left, update, update_same,
  update_other, ℕ, ◌≡◌, refl, sym, ap, ap₂, subst, ◌∙◌, ◌≢◌, Bool, true, false, ◌||◌, Option, none,
  some, List, [], ◌∷◌, ◌++◌,
}

abbrev pub has : ℕ → List ℕ → Bool
has w [] = false
has w (x ∷ xs) = x == w || has w xs

abbrev pub last_of : List ℕ → Option ℕ
last_of [] = none
last_of (w ∷ []) = some w
last_of (w ∷ x ∷ xs) = last_of (x ∷ xs)

-- The threads from `at` on, each of them once.
abbrev pub Chain : (ℕ → Option ℕ) → Option ℕ → List ℕ → Type 0
Chain next at [] = at ≡ none
Chain next at (w ∷ ws) = (at ≡ some w) × (has w ws ≡ false) × Chain next (next w) ws

pub Chain-same :
    (next : ℕ → Option ℕ) (at : Option ℕ) (ws vs : List ℕ)
    → Chain next at ws
    → Chain next at vs
    → ws ≡ vs
Chain-same next at [] [] h k = refl
Chain-same next at [] (v ∷ vs) h k = absurd (cc (h, k.0))
Chain-same next at (w ∷ ws) [] h k = absurd (cc (h.0, k))
Chain-same next at (w ∷ ws) (v ∷ vs) h k =
    let e : w ≡ v = some_inj (sym h.0 ∙ k.0) in
    ap₂ (λ x xs. x ∷ xs) e
      (Chain-same next (next w) ws vs h.2 (subst (λ x. Chain next (next x) vs) (sym e) k.2))

-- Links outside of a chain may change.
pub Chain-frame :
    (next next' : ℕ → Option ℕ) (at : Option ℕ) (ws : List ℕ)
    → ((w : ℕ) → has w ws ≡ true → next' w ≡ next w)
    → Chain next at ws
    → Chain next' at ws
Chain-frame next next' at [] same h = h
Chain-frame next next' at (w ∷ ws) same h = (
  h.0,
  h.1,
  subst (λ x. Chain next' x ws) (sym (same w (or-left (w == w) (has w ws) (==_refl w))))
      (Chain-frame next next' (next w) ws (λ v e. same v (or-right (w == v) (has v ws) e)) h.2),
)

or_none : (b : Bool) → (b || false) ≡ b
or_none true = refl
or_none false = refl

pub has-snoc : (w c : ℕ) (ws : List ℕ) → has w (ws ++ c ∷ []) ≡ (has w ws || c == w)
has-snoc w c [] = or_none (c == w)
has-snoc w c (x ∷ xs) =
    ap (λ b. x == w || b) (has-snoc w c xs) ∙ sym (or_assoc (x == w) (has w xs) (c == w))

pub last_of-snoc : (c : ℕ) (ws : List ℕ) → last_of (ws ++ c ∷ []) ≡ some c
last_of-snoc c [] = refl
last_of-snoc c (w ∷ []) = refl
last_of-snoc c (w ∷ x ∷ xs) = last_of-snoc c (x ∷ xs)

pub has-last : (t : ℕ) (ws : List ℕ) → last_of ws ≡ some t → has t ws ≡ true
has-last t [] e = absurd (cc)
has-last t (w ∷ []) e =
    or-left (w == t) false (subst (λ x. (w == x) ≡ true) (some_inj e) (==_refl w))
has-last t (w ∷ x ∷ xs) e = or-right (w == t) (has t (x ∷ xs)) (has-last t (x ∷ xs) e)

-- The links that put `c` behind the tail `t`.
pub Chain-snoc :
    (next : ℕ → Option ℕ) (at : Option ℕ) (ws : List ℕ) (t c : ℕ)
    → Chain next at ws
    → last_of ws ≡ some t
    → has c ws ≡ false
    → Chain (update (update next c none) t (some c)) at (ws ++ c ∷ [])
Chain-snoc next at [] t c h last new = absurd (cc)
Chain-snoc next at (w ∷ []) t c h last new =
    let cleared = update next c none in
    let wt : w ≡ t = some_inj last in
    let apart : w ≢ c = ==→ne w c (or-false (w == c) false new).0 in
    (
      h.0,
      or_none (c == w) ∙ ne→== c w (λ e. apart (sym e)),
      (
        subst (λ y. update cleared t (some c) y ≡ some c) (sym wt) (update_same cleared t (some c)),
        refl,
        update_other cleared t (some c) c (λ e. apart (wt ∙ e)) ∙ update_same next c none,
      ),
    )
Chain-snoc next at (w ∷ x ∷ xs) t c h last new =
    let cleared = update next c none in
    let rest = or-false (w == c) (has c (x ∷ xs)) new in
    let apart : w ≢ c = ==→ne w c rest.0 in
    let behind : t ≢ w =
      λ e. absurd (cc (subst (λ y. has y (x ∷ xs) ≡ true) e (has-last t (x ∷ xs) last), h.1)) in
    let link : update cleared t (some c) w ≡ next w =
      update_other cleared t (some c) w behind ∙ update_other next c none w (λ e. apart (sym e)) in
    (
      h.0,
      has-snoc w c (x ∷ xs) ∙ ap₂ (λ a b. a || b) h.1 (ne→== c w (λ e. apart (sym e))),
      subst (λ y. Chain (update cleared t (some c)) y (x ∷ xs ++ c ∷ [])) (sym link)
          (Chain-snoc next (next w) (x ∷ xs) t c h.2 last rest.1),
    )
