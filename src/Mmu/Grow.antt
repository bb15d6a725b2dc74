-- ===== src/Mmu/Grow.antt =====
-- A new table in a tree of page tables: what the page allocator promises, and what `zero_page` leaves.
use neptune_os.Common.{
  ltb, ◌==◌, ltb→lt, ltb→ge, ==→eq, ==→ne, Bool-cases, update, update_same, update_other, ℕ, zero,
  suc, ◌+◌, ◌*◌, ◌%◌, ◌≤◌, ◌<◌, ◌≡◌, refl, sym, ap, ap₂, subst, ◌∙◌, ◌≢◌, ◌⊎◌, inl, inr, Bool, true,
  false, some, arith,
}
use neptune_os.Mmu.Tree.{same_or_other, Agrees, Index, Tree, some-pair, Owner}
use neptune_os.Mmu.{pte_user, pte_ps, table_of, pte_present, has_bit, zero_page, zero_words}

-- What the tables rely on: while pages are left, the allocator takes one that is free and aligned.
pub record Alloc {A : Type 0} (alloc_page : A → ℕ × A) (taken : A → ℕ → Bool) (left : A → ℕ)
    : Type 0 where
  pub fresh : (s : A) → 0 < left s → taken s (alloc_page s).0 ≡ false
  pub takes : (s : A) → 0 < left s → taken (alloc_page s).1 (alloc_page s).0 ≡ true
  pub whole : (s : A) → 0 < left s → (alloc_page s).0 % 4096 ≡ 0
  pub keeps : (s : A) (p : ℕ) → taken s p ≡ true → taken (alloc_page s).1 p ≡ true
  pub lasts : (s : A) → left s ≤ suc (left (alloc_page s).1)

zero_words_before : (n at : ℕ) (mem : ℕ → ℕ) (x : ℕ) → x < at → zero_words n at mem x ≡ mem x
unfolding zero_words
zero_words_before zero at mem x h = refl
zero_words_before (suc n) at mem x h =
    zero_words_before n (at + 8) (update mem at 0) x (omega arith)
    ∙ update_other mem at 0 x (λ e. absurd (omega arith))

zero_words_after : (n at : ℕ) (mem : ℕ → ℕ) (x : ℕ) → at + 8 * n ≤ x → zero_words n at mem x ≡ mem x
unfolding zero_words
zero_words_after zero at mem x h = refl
zero_words_after (suc n) at mem x h =
    zero_words_after n (at + 8) (update mem at 0) x (omega arith)
    ∙ update_other mem at 0 x (λ e. absurd (omega arith))

zero_words_inside : (n at : ℕ) (mem : ℕ → ℕ) (k : ℕ) → k < n → zero_words n at mem (at + 8 * k) ≡ 0
unfolding zero_words
zero_words_inside zero at mem k h = absurd (omega arith)
zero_words_inside (suc n) at mem zero h =
    zero_words_before n (at + 8) (update mem at 0) (at + 8 * zero) (omega arith)
    ∙ subst (λ x. update mem at 0 x ≡ 0) (omega arith) (update_same mem at 0)
zero_words_inside (suc n) at mem (suc k) h =
    subst (λ x. zero_words n (at + 8) (update mem at 0) x ≡ 0) (omega arith)
      (zero_words_inside n (at + 8) (update mem at 0) k (omega arith))

-- Words of two pages are not the same, nor are two words of one page.
pub words_apart :
    (p q i j : ℕ)
    → p % 4096 ≡ 0
    → q % 4096 ≡ 0
    → i < 512
    → j < 512
    → (q ≢ p) ⊎ (j ≢ i)
    → p + 8 * i ≢ q + 8 * j
words_apart p q i j hp hq hi hj (inl apart) e = apart (omega arith)
words_apart p q i j hp hq hi hj (inr apart) e = apart (omega arith)

zero_page-other :
    (c : ℕ) (mem : ℕ → ℕ) (q j : ℕ)
    → c % 4096 ≡ 0
    → q % 4096 ≡ 0
    → j < 512
    → q ≢ c
    → zero_page c mem (q + 8 * j) ≡ mem (q + 8 * j)
unfolding zero_page
zero_page-other c mem q j hc hq hj apart = elim (Bool-cases (ltb q c)) [
  | inl before ↦ zero_words_before 512 c mem (q + 8 * j) (omega (arith, ltb→lt q c before))
  | inr after ↦ zero_words_after 512 c mem (q + 8 * j) (omega (arith, ltb→ge q c after, apart))
]

pub zero_page-inside : (c : ℕ) (mem : ℕ → ℕ) (j : ℕ) → j < 512 → zero_page c mem (c + 8 * j) ≡ 0
unfolding zero_page
zero_page-inside c mem j h = zero_words_inside 512 c mem j h

-- The memory after a new table `c` at the entry `i` of the table `p`.
unfoldable pub linked : ℕ → ℕ → ℕ → (ℕ → ℕ) → ℕ → ℕ
linked p i c mem = update (zero_page c mem) (p + 8 * i) (c + 3 + 4)

pub some-level :
    {p q l m r t : ℕ} (owner : Owner)
    → owner p ≡ some (l, r)
    → owner q ≡ some (m, t)
    → l ≢ m
    → p ≢ q
some-level owner hp hq apart e = apart ((some-pair (sym hp ∙ ap owner e ∙ hq)).0)

-- The owners with the new table `c` below the entry `i` of a table of level `suc l`.
pub grown : Owner → ℕ → ℕ → ℕ → ℕ → Owner
grown owner c l range i = update owner c (some (l, range * 512 + i))

module _ {taken taken' : ℕ → Bool} {mem : ℕ → ℕ} {owner : Owner} (tree : Tree taken mem owner)
    (keeps : (q : ℕ) → taken q ≡ true → taken' q ≡ true) (c : ℕ) (fresh : taken c ≡ false)
    (takes : taken' c ≡ true) (whole : c % 4096 ≡ 0) (p l range i : ℕ)
    (at : owner p ≡ some (suc l, range)) (index : Index (suc l) i) where
  not_new : (q level r : ℕ) → owner q ≡ some (level, r) → q ≢ c
  not_new q level r o e = absurd (cc (tree.held q level r o, fresh))

  pub grown-old :
      (q level r : ℕ) → owner q ≡ some (level, r) → grown owner c l range i q ≡ some (level, r)
  unfolding grown
  grown-old q level r o =
      update_other owner c (some (l, range * 512 + i)) q (λ e. not_new q level r o (sym e)) ∙ o

  pub grown-new : grown owner c l range i c ≡ some (l, range * 512 + i)
  unfolding grown
  grown-new = update_same owner c (some (l, range * 512 + i))

  pub linked-Agrees : Agrees owner p i mem (linked p i c mem)
  unfolding linked
  linked-Agrees q level r j o h other =
      update_other (zero_page c mem) (p + 8 * i) (c + 3 + 4) (q + 8 * j) (
        words_apart p q i j (tree.aligned p (suc l) range at) (tree.aligned q level r o) index.0 h
          other)
      ∙ zero_page-other c mem q j whole (tree.aligned q level r o) h (not_new q level r o)

  pub linked-entry : linked p i c mem (p + 8 * i) ≡ c + 3 + 4
  unfolding linked
  linked-entry = update_same (zero_page c mem) (p + 8 * i) (c + 3 + 4)

  pub linked-inside : (j : ℕ) → j < 512 → linked p i c mem (c + 8 * j) ≡ 0
  unfolding linked
  linked-inside j h =
      update_other (zero_page c mem) (p + 8 * i) (c + 3 + 4) (c + 8 * j) (
        words_apart p c i j (tree.aligned p (suc l) range at) whole index.0 h
          (inl (λ e. not_new p (suc l) range at (sym e))))
      ∙ zero_page-inside c mem j h

  -- A table after the growth is the new one or an old one.
  new_or_old :
      (q level r : ℕ)
      → grown owner c l range i q ≡ some (level, r)
      → ((q ≡ c) × (level ≡ l) × (r ≡ range * 512 + i)) ⊎ (owner q ≡ some (level, r))
  unfolding grown
  new_or_old q level r o = elim (Bool-cases (c == q)) [
    | inl same ↦
        let e = some-pair (
          sym (update_same owner c (some (l, range * 512 + i)))
          ∙ ap (λ x. update owner c (some (l, range * 512 + i)) x) (==→eq c q same)
          ∙ o) in
        inl (sym (==→eq c q same), sym e.0, sym e.1)
    | inr other ↦
        inr (sym (update_other owner c (some (l, range * 512 + i)) q (==→ne c q other)) ∙ o)
  ]

  -- An entry after the growth is empty, or leads to the new table, or is as it was.
  entries :
      (q level r j : ℕ)
      → grown owner c l range i q ≡ some (level, r)
      → j < 512
      → (linked p i c mem (q + 8 * j) ≡ 0)
        ⊎ ((linked p i c mem (q + 8 * j) ≡ c + 3 + 4)
            × (level ≡ suc l)
            × (r * 512 + j ≡ range * 512 + i))
        ⊎ ((owner q ≡ some (level, r)) × (linked p i c mem (q + 8 * j) ≡ mem (q + 8 * j)))
  entries q level r j o h = elim (new_or_old q level r o) [
    | inl (qc, le, re) ↦ inl (ap (λ x. linked p i c mem (x + 8 * j)) qc ∙ linked-inside j h)
    | inr old ↦ elim (same_or_other q p j i) [
      | inr other ↦ inr (inr (old, linked-Agrees q level r j old h other))
      | inl (qp, ji) ↦
          let e = some-pair (sym old ∙ ap owner qp ∙ at) in
          inr (
            inl (
              ap₂ (λ x y. linked p i c mem (x + 8 * y)) qp ji ∙ linked-entry,
              e.0,
              ap₂ (λ x y. x * 512 + y) e.1 ji,
            ))
    ]
  ]

  empty_bits : (has_bit 0 pte_present ≡ false) × (has_bit 0 pte_ps ≡ false)
  unfolding has_bit
  empty_bits = (refl, refl)

  pub new_bits :
      (has_bit (c + 3 + 4) pte_present ≡ true)
      × (has_bit (c + 3 + 4) pte_user ≡ true)
      × (has_bit (c + 3 + 4) pte_ps ≡ false)
      × (table_of (c + 3 + 4) ≡ c)
  unfolding has_bit table_of
  new_bits =
      (ground (arith, whole), ground (arith, whole), ground (arith, whole), omega (arith, whole))

  pub grown-Tree : Tree taken' (linked p i c mem) (grown owner c l range i)
  grown-Tree = record {
    aligned = λ q level r o. elim (new_or_old q level r o) [
      | inl (qc, le, re) ↦ subst (λ x. x % 4096 ≡ 0) (sym qc) whole
      | inr old ↦ tree.aligned q level r old
    ];
    held = λ q level r o. elim (new_or_old q level r o) [
      | inl (qc, le, re) ↦ subst (λ x. taken' x ≡ true) (sym qc) takes
      | inr old ↦ keeps q (tree.held q level r old)
    ];
    child = λ q level r j o index' present. elim (entries q (suc level) r j o index'.0) [
      | inl empty ↦ absurd (cc (present, ap (λ e. has_bit e pte_present) empty, empty_bits.0))
      | inr (inl (new, le, re)) ↦
          ap (λ e. grown owner c l range i (table_of e)) new
          ∙ ap (λ x. grown owner c l range i x) (new_bits.3)
          ∙ grown-new
          ∙ ap₂ (λ x y. some (x, y)) (omega (arith, le)) (sym re)
      | inr (inr (old, same)) ↦
          ap (λ e. grown owner c l range i (table_of e)) same
          ∙ grown-old (table_of (mem (q + 8 * j))) level (r * 512 + j) (
              tree.child q level r j old index'
                (sym (ap (λ e. has_bit e pte_present) same) ∙ present))
    ];
    open_to_user = λ q level r j o index' present. elim (entries q (suc level) r j o index'.0) [
      | inl empty ↦ absurd (cc (present, ap (λ e. has_bit e pte_present) empty, empty_bits.0))
      | inr (inl (new, le, re)) ↦ ap (λ e. has_bit e pte_user) new ∙ new_bits.1
      | inr (inr (old, same)) ↦
          ap (λ e. has_bit e pte_user) same
          ∙ tree.open_to_user q level r j old index'
              (sym (ap (λ e. has_bit e pte_present) same) ∙ present)
    ];
    no_large = λ q level r j o index'. elim (entries q (suc level) r j o index'.0) [
      | inl empty ↦ ap (λ e. has_bit e pte_ps) empty ∙ empty_bits.1
      | inr (inl (new, le, re)) ↦ ap (λ e. has_bit e pte_ps) new ∙ new_bits.2
      | inr (inr (old, same)) ↦
          ap (λ e. has_bit e pte_ps) same ∙ tree.no_large q level r j old index'
    ];
  }
