-- ===== src/Handles/Release.antt =====
-- What each access to the handle table of kernel/syscall.c does to the counts.
use neptune_os.Common.{
  get_elem?, get_or, set, length-set, get_elem?_of_lt, lt_of_get_elem?, get_elem?-set_self,
  get_elem?-set_ne, leb, ◌==◌, ==→eq, ==→ne, ==_refl, Bool-cases, Option-cases, ℕ, suc, ◌+◌, ◌-◌,
  ◌≤◌, ◌<◌, ◌≡◌, refl, sym, ap, ◌∙◌, ◌≢◌, inl, inr, true, false, Option, none, some, List, [], ◌∷◌,
  arith,
}
use neptune_os.Handles.{
  HandleType, Handle, Files, is_free, free_handle, handle_max, acquire_handle, release_handle,
  find_free, handle_alloc, set_fd,
}
use neptune_os.Handles.Count.{hit, count, count_all, holders, count-set, CountOk, CountedWith}

module _ {e : ℕ → ℕ} {s : Files} (c : CountedWith e s) where
  -- A write to a descriptor moves one reference from it, and one to it.
  pub set_fd-CountedWith :
      (fd : ℕ) (v : Option ℕ) (e' : ℕ → ℕ)
      → fd < 16
      → ((g : ℕ) → e' g + hit g v ≡ e g + hit g (get_or s.fds fd none))
      → CountedWith e' (set_fd fd v s)
  unfolding set_fd holders
  set_fd-CountedWith fd v e' h move = rw (ge16 fd h) (record {
    entries = c.entries;
    slots = length-set s.fds fd v ∙ c.slots;
    counts = λ g k at.
        let n = c.counts g k at in
        let same : count g (set s.fds fd v) + count_all g s.others + e' g
            ≡ count g s.fds + count_all g s.others + e g =
          omega (arith, move g, count-set g s.fds fd v (omega (arith, c.slots))) in
        rw same n;
  })
    where
      ge16 : (i : ℕ) → i < 16 → leb 16 i ≡ false
      ge16 i h = ground arith

  -- Only the references to handles that the table has matter.
  pub same-CountedWith : (e' : ℕ → ℕ) → ((x : ℕ) → x < handle_max → e' x ≡ e x) → CountedWith e' s
  same-CountedWith e' same = record {
    entries = c.entries;
    slots = c.slots;
    counts = λ g k at.
        let inside = lt_of_get_elem? s.handles g k at in
        rw (same g (omega (arith, inside, c.entries))) (c.counts g k at);
  }

  -- One entry is written, and counts its references.
  pub put-CountedWith :
      (g : ℕ) (new : Handle) (closed' : List ℕ) (e' : ℕ → ℕ)
      → g < handle_max
      → ((x : ℕ) → x ≢ g → e' x ≡ e x)
      → CountOk (holders g s + e' g) new
      → CountedWith e' (record s { handles = set s.handles g new; closed = closed' })
  unfolding holders
  put-CountedWith g new closed' e' inside others ok = record {
    entries = length-set s.handles g new ∙ c.entries;
    slots = c.slots;
    counts = λ x k at. elim (Bool-cases (g == x)) [
      | inl here ↦
          let q : g ≡ x = ==→eq g x here in
          let there = get_elem?-set_self s.handles g new (omega (arith, c.entries)) in
          let is_new : k ≡ new = ground (arith, there) in rw (is_new, ← q) ok
      | inr other ↦
          let ne = ==→ne g x other in
          rw (others x (λ q. ne (sym q)))
            (c.counts x k (sym (get_elem?-set_ne s.handles g x new ne) ∙ at))
    ];
  }

  pub release_handle-CountedWith :
      (g : ℕ) (e' : ℕ → ℕ)
      → ((x : ℕ) → e' x + hit x (some g) ≡ e x)
      → CountedWith e' (release_handle g s)
  unfolding release_handle
  release_handle-CountedWith g e' move = elim (Bool-cases (leb handle_max g)) [
    | inl out ↦ rw out (same-CountedWith e' (λ x h. ground (arith, move x)))
    | inr inside ↦
        let there = get_elem?_of_lt s.handles g (ground (arith, c.entries)) in
        let h = there.0 in
        let n = c.counts g h there.1 in
        let m = move g in
        let one : e' g + 1 ≡ e g = ground (arith, ==_refl g) in
        let rest : (x : ℕ) → x ≢ g → e' x ≡ e x = λ x ne. ground (arith, move x) in
        elim (Bool-cases (is_free h.type)) [
          | inl f ↦ absurd (omega (arith, n.0 f))
          | inr nf ↦ elim (Bool-cases (leb h.refcount 1)) [
            | inl last ↦
                rw (inside, there.1, nf, last)
                  (put-CountedWith g free_handle _ e' (ground arith) rest
                    (λ q. ground (arith, n.1 nf), λ q. absurd (cc)))
            | inr more ↦
                rw (inside, there.1, nf, more)
                  (put-CountedWith g (record h { refcount = h.refcount - 1 }) s.closed e'
                    (ground arith) rest (λ q. absurd (cc), λ q. ground (arith, n.1 nf)))
          ]
        ]
  ]

  pub acquire_handle-CountedWith :
      (g : ℕ) (e' : ℕ → ℕ)
      → 0 < holders g s + e g
      → ((x : ℕ) → e' x ≡ e x + hit x (some g))
      → CountedWith e' (acquire_handle g s)
  unfolding acquire_handle
  acquire_handle-CountedWith g e' pos move = elim (Bool-cases (leb handle_max g)) [
    | inl out ↦ rw out (same-CountedWith e' (λ x h. ground (arith, move x)))
    | inr inside ↦
        let there = get_elem?_of_lt s.handles g (ground (arith, c.entries)) in
        let h = there.0 in
        let n = c.counts g h there.1 in
        let one : e' g ≡ e g + 1 = ground (arith, move g, ==_refl g) in
        let rest : (x : ℕ) → x ≢ g → e' x ≡ e x = λ x ne. ground (arith, move x) in
        elim (Bool-cases (is_free h.type)) [
          | inl f ↦ absurd (omega (arith, n.0 f))
          | inr nf ↦
              rw (inside, there.1, nf)
                (put-CountedWith g (record h { refcount = h.refcount + 1 }) s.closed e'
                  (ground arith) rest (λ q. absurd (cc), λ q. ground (arith, n.1 nf)))
        ]
  ]

pub find_free-some :
    (hs : List Handle) (i g : ℕ)
    → find_free hs i ≡ some g
    → (i ≤ g) × (h : Handle) × (get_elem? hs (g - i) ≡ some h) × (is_free h.type ≡ true)
unfolding find_free
find_free-some [] i g h = absurd (cc)
find_free-some (x ∷ hs) i g h = elim (Bool-cases (is_free x.type)) [
  | inl f ↦
      let q : g ≡ i = ground arith in
      let z : g - i ≡ 0 = omega arith in (omega arith, x, ap (get_elem? (x ∷ hs)) z, f)
  | inr nf ↦
      let ih = find_free-some hs (i + 1) g (ground arith) in
      let step : g - i ≡ suc (g - (i + 1)) = omega (arith, ih.0) in
      (omega (arith, ih.0), ih.1, ap (get_elem? (x ∷ hs)) step ∙ ih.2, ih.3)
]

pub handle_alloc-CountedWith :
    {e : ℕ → ℕ} {s : Files}
    → CountedWith e s
    → (type : HandleType) (file owner g : ℕ) (s' : Files) (e' : ℕ → ℕ) → is_free type ≡ false
    → handle_alloc type file owner s ≡ (some g, s')
    → ((x : ℕ) → e' x ≡ e x + hit x (some g))
    → CountedWith e' s' × (g < handle_max) × (s'.fds ≡ s.fds)
unfolding handle_alloc
handle_alloc-CountedWith {e} {s} c type file owner g s' e' nf h move =
    elim (Option-cases (find_free s.handles 0)) [
      | inl full ↦ absurd (ground arith)
      | inr (i, found) ↦
          let same : i ≡ g = ground arith in
          let f = find_free-some s.handles 0 g (found ∙ ap some same) in
          let z : g - 0 ≡ g = omega arith in
          let at : get_elem? s.handles g ≡ some f.1 = ap (get_elem? s.handles) (sym z) ∙ f.2 in
          let inside = lt_of_get_elem? s.handles g f.1 at in
          let n = (c.counts g f.1 at).0 f.3 in
          let new : Handle = record { type = type; file = file; owner_pid = owner; refcount = 1 } in
          let s'_is : s' ≡ record s { handles = set s.handles g new; closed = s.closed } =
            ground arith in
          rw s'_is (
            put-CountedWith c g new s.closed e' (omega (arith, inside, c.entries))
                (λ x ne. ground (arith, move x))
                (λ q. absurd (cc), λ q. ground (arith, n, move g, ==_refl g)),
            omega (arith, inside, c.entries),
            refl,
          )
    ]
