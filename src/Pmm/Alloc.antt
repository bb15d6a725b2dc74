-- ===== src/Pmm/Alloc.antt =====
-- `pmm_alloc_page` of kernel/mem.c: which page it takes, and when there is none.
use neptune_os.Common.{
  length, get_elem?, get_elem?_of_lt, lt_of_get_elem?, leb, ◌==◌, if◌then◌else◌, Bool-cases,
  Option-cases, add32, ℕ, zero, suc, ◌+◌, ◌-◌, ◌%◌, ◌≤◌, ◌<◌, ◌≡◌, refl, sym, ap, ◌∙◌, ◌↔◌, inl,
  inr, true, false, none, some, arith, mod-eq_of_lt,
}
use neptune_os.Pmm.{
  Region, Pmm, Run, ok, panic, test_bit, scan_clear, start_page, try_region, take_page, alloc_loop,
  alloc_page,
}
use neptune_os.Pmm.Inv.{IsValid}

module _ (mem : ℕ → ℕ) (r : Region) where
  scan_clear-some :
      (n from p : ℕ)
      → scan_clear mem r n from ≡ some p
      → (from ≤ p) × (p < from + n) × (test_bit mem r p ≡ false)
  unfolding scan_clear
  scan_clear-some zero from p h = cc
  scan_clear-some (suc n) from p h = elim (Bool-cases (test_bit mem r from)) [
    | inl e ↦ ground (arith, scan_clear-some n (from + 1) p)
    | inr e ↦ ground arith
  ]

  scan_clear-none :
      (n from : ℕ)
      → scan_clear mem r n from ≡ none
      → (p : ℕ) → from ≤ p
      → p < from + n
      → test_bit mem r p ≡ true
  unfolding scan_clear
  scan_clear-none zero from h p lo hi = absurd (omega arith)
  scan_clear-none (suc n) from h p lo hi = elim (Bool-cases (test_bit mem r from)) [
    | inl e ↦ elim (Bool-cases (from == p)) [
      | inl q ↦ ground arith
      | inr q ↦ scan_clear-none n (from + 1) (ground arith) p (ground arith) (ground arith)
    ]
    | inr e ↦ absurd (ground arith)
  ]

  start_page-reserved : (sr sp k : ℕ) → r.reserved_pages ≤ start_page sr sp k r
  unfolding start_page
  start_page-reserved sr sp k = ground arith

  start_page_other : (sr sp k : ℕ) → (k == sr) ≡ false → start_page sr sp k r ≡ r.reserved_pages
  unfolding start_page
  start_page_other sr sp k e = ground arith

  start_page-le :
      (sr sp k : ℕ) → r.reserved_pages < r.total_pages → start_page sr sp k r ≤ r.total_pages
  unfolding start_page
  start_page-le sr sp k h = ground arith

  try_region-some :
      (sr sp k p : ℕ)
      → try_region mem sr sp k r ≡ some p
      → (r.reserved_pages ≤ p) × (p < r.total_pages) × (test_bit mem r p ≡ false)
  unfolding try_region
  try_region-some sr sp k p h =
      let from = start_page sr sp k r in
      ground (
        arith,
        scan_clear-some (r.total_pages - from) from p,
        scan_clear-some (from - r.reserved_pages) r.reserved_pages p,
        start_page-reserved sr sp k,
        start_page-le sr sp k,
      )

  try_region-none :
      (sr sp k : ℕ)
      → try_region mem sr sp k r ≡ none
      → (p : ℕ) → r.reserved_pages ≤ p
      → p < r.total_pages
      → test_bit mem r p ≡ true
  unfolding try_region
  try_region-none sr sp k h p lo hi =
      let from = start_page sr sp k r in
      ground (
        arith,
        λ (e : scan_clear mem r (r.total_pages - from) from ≡ none).
            scan_clear-none (r.total_pages - from) from e p,
        λ (e : scan_clear mem r (from - r.reserved_pages) r.reserved_pages ≡ none).
            scan_clear-none (from - r.reserved_pages) r.reserved_pages e p,
        start_page-reserved sr sp k,
        start_page_other sr sp k,
        start_page-le sr sp k,
      )

-- What a successful call has done: page `page` of region `index` was clear, and is now taken.
pub record Took (s : Pmm) (addr : ℕ) (s' : Pmm) : Type 0 where
  pub index : ℕ
  pub region : Region
  pub page : ℕ
  pub at : get_elem? s.regions index ≡ some region
  pub low : region.reserved_pages ≤ page
  pub high : page < region.total_pages
  pub was_clear : test_bit s.mem region page ≡ false
  pub done : take_page s index region page ≡ (addr, s')

alloc_loop_next :
    (s : Pmm) (sr sp n i : ℕ) (r : Region)
    → get_elem? s.regions (add32 sr i % length s.regions) ≡ some r
    → try_region s.mem sr sp (add32 sr i % length s.regions) r ≡ none
    → alloc_loop s sr sp (suc n) i ≡ alloc_loop s sr sp n (i + 1)
unfolding alloc_loop
alloc_loop_next s sr sp n i r e t = ground arith

alloc_loop-Took :
    (s : Pmm) (sr sp n i a : ℕ) (s' : Pmm) → alloc_loop s sr sp n i ≡ ok (a, s') → Took s a s'
unfolding alloc_loop
alloc_loop-Took s sr sp zero i a s' h = absurd (cc)
alloc_loop-Took s sr sp (suc n) i a s' h =
    let k = add32 sr i % length s.regions in
    elim (Option-cases (get_elem? s.regions k)) [
      | inl e ↦ absurd (ground arith)
      | inr (r, e) ↦ elim (Option-cases (try_region s.mem sr sp k r)) [
        | inl t ↦
            alloc_loop-Took s sr sp n (i + 1) a s' (sym (alloc_loop_next s sr sp n i r e t) ∙ h)
        | inr (p, t) ↦
            let found = try_region-some s.mem r sr sp k p t in
            record {
              index = k;
              region = r;
              page = p;
              at = e;
              low = found.0;
              high = found.1;
              was_clear = found.2;
              done = ground arith;
            }
      ]
    ]

pub alloc_page-Took : (s : Pmm) {a : ℕ} {s' : Pmm} → alloc_page s ≡ ok (a, s') → Took s a s'
unfolding alloc_page
alloc_page-Took s {a} {s'} h =
    alloc_loop-Took s s.cursor_region s.cursor_page_idx (length s.regions) 0 a s' h

alloc_loop-panic :
    (s : Pmm) (sr sp n i : ℕ)
    → 0 < length s.regions
    → alloc_loop s sr sp n i ≡ panic
    → (j : ℕ) → i ≤ j
    → j < i + n
    → (r : Region) → get_elem? s.regions (add32 sr j % length s.regions) ≡ some r
    → try_region s.mem sr sp (add32 sr j % length s.regions) r ≡ none
unfolding alloc_loop
alloc_loop-panic s sr sp zero i ne0 h j lo hi r at = absurd (omega arith)
alloc_loop-panic s sr sp (suc n) i ne0 h j lo hi r at = elim (Bool-cases (i == j)) [
  | inl e ↦
      let k = add32 sr j % length s.regions in
      elim (Option-cases (try_region s.mem sr sp k r)) [
        | inl t ↦ t
        | inr (p, t) ↦ absurd (ground arith)
      ]
  | inr ne ↦
      let k = add32 sr i % length s.regions in
      elim (Option-cases (get_elem? s.regions k)) [
        | inl t ↦
            let there = get_elem?_of_lt s.regions k (omega arith) in
            absurd (ground (arith, there.1))
        | inr (q, t) ↦ elim (Option-cases (try_region s.mem sr sp k q)) [
          | inl u ↦
              alloc_loop-panic s sr sp n (i + 1) ne0 (sym (alloc_loop_next s sr sp n i q t u) ∙ h) j
                (ground arith) (omega arith) r at
          | inr (p, u) ↦ absurd (ground arith)
        ]
      ]
]

-- Every region is visited: the round that comes to region `k`, counted from region `sr`.
round_of : ℕ → ℕ → ℕ → ℕ
round_of sr count k = if leb sr k then k - sr else k + count - sr

round_of_lem :
    (sr count k : ℕ)
    → sr < count
    → k < count
    → count ≤ 32
    → (round_of sr count k < count) × (add32 sr (round_of sr count k) % count ≡ k)
unfolding round_of
round_of_lem sr count k hs hk small = elim (Bool-cases (leb sr k)) [
  | inl e ↦ rw e (ground arith, ap (λ t. t % count) (fwd e) ∙ mod-eq_of_lt hk)
  | inr e ↦ rw e (ground arith, ap (λ t. t % count) (back e) ∙ around)
]
  where
    fwd : leb sr k ≡ true → add32 sr (k - sr) ≡ k
    fwd e = ground arith

    back : leb sr k ≡ false → add32 sr (k + count - sr) ≡ k + count
    back e = ground arith

    around : (k + count) % count ≡ k
    around = grind arith

-- Every page that is not reserved is marked in the bitmap of its region.
abbrev pub AllTaken : Pmm → Type 0
AllTaken s =
    (k : ℕ) (r : Region)
    → get_elem? s.regions k ≡ some r
    → (p : ℕ) → r.reserved_pages ≤ p
    → p < r.total_pages
    → test_bit s.mem r p ≡ true

-- From a valid state the call panics exactly when every page that is not reserved is marked, in all
-- regions: the search from the cursor round all regions misses no page.
pub alloc_page-panic : {s : Pmm} → IsValid s → (alloc_page s ≡ panic) ↔ AllTaken s
unfolding alloc_page
alloc_page-panic {s} v = (only, when)
  where
    only : alloc_page s ≡ panic → AllTaken s
    only h k r at p lo hi =
        let n = length s.regions in
        let j = round_of s.cursor_region n k in
        let w =
          round_of_lem s.cursor_region n k v.cursor (lt_of_get_elem? s.regions k r at) v.few in
        try_region-none s.mem r s.cursor_region s.cursor_page_idx k
          (rw w.1 at (
            alloc_loop-panic s s.cursor_region s.cursor_page_idx n 0 (omega arith) h j (omega arith)
              (omega arith) r (rw w.1 at)))
          p lo hi

    when : AllTaken s → alloc_page s ≡ panic
    when all = go (alloc_page s) refl
      where
        go : (o : Run (ℕ × Pmm)) → alloc_page s ≡ o → alloc_page s ≡ panic
        go panic e = e
        go (ok (a, s')) e =
            let t = alloc_page-Took s e in
            absurd (ground (arith, t.was_clear, all t.index t.region t.at t.page t.low t.high))
