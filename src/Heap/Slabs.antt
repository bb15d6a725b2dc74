-- ===== src/Heap/Slabs.antt =====
-- Slab classes of kernel/heap.c: which class a request gets, and the room that it leaves.
use neptune_os.Common.{
  length, get_or, leb, leb→le, Bool-cases, Option-cases, some_inj, and-true, and-false, leb→gt, u64,
  add64, ℕ, zero, suc, ◌+◌, ◌≤◌, ◌<◌, ◌≡◌, sym, ap, subst, ◌∙◌, ◌⊎◌, inl, inr, false, ◌&&◌, Option,
  none, some, List, [], ◌∷◌, arith, mod-eq_of_lt,
}
use neptune_os.Heap.{slab_classes, hdr_size}
use neptune_os.Heap.Alloc.{pick_from, pick_slab_class, at_least_16}

-- The class at place `d` is the first that is as large as `need` and as `req_align`.
abbrev pub Picked : ℕ → ℕ → List ℕ → ℕ → Type 0
Picked need req_align classes d =
    (d < length classes)
    × (need ≤ get_or classes d 0)
    × (req_align ≤ get_or classes d 0)
    × ((j : ℕ) → j < d → (get_or classes j 0 < need) ⊎ (get_or classes j 0 < req_align))

pick_from-Picked :
    (need req_align i k : ℕ) (classes : List ℕ)
    → pick_from need req_align i classes ≡ some k
    → (d : ℕ) × (k ≡ i + d) × Picked need req_align classes d
unfolding pick_from
pick_from-Picked need req_align i k [] e = absurd (cc)
pick_from-Picked need req_align i k (class ∷ rest) e =
    elim (Bool-cases (leb need class && leb req_align class)) [
      | inl fits ↦
          let (a, b) = and-true (leb need class) (leb req_align class) fits in
          (
            0,
            omega (arith, some_inj (rw (fits, pick_from) at e)),
            (
              omega arith,
              leb→le need class a,
              leb→le req_align class b,
              λ j h. absurd (omega arith),
            ),
          )
      | inr not_fits ↦
          let (d, same, (small, wide, aligned, first)) =
            pick_from-Picked need req_align (i + 1) k rest (rw (not_fits, pick_from) at e) in
          (
            suc d,
            omega (arith, same),
            (
              omega (arith, small),
              wide,
              aligned,
              shifted d (and-false (leb need class) (leb req_align class) not_fits) first,
            ),
          )
    ]
  where
    shifted :
        (d : ℕ)
        → (leb need class ≡ false) ⊎ (leb req_align class ≡ false)
        → ((j : ℕ) → j < d → (get_or rest j 0 < need) ⊎ (get_or rest j 0 < req_align))
        → (j : ℕ) → j < suc d
        → (get_or (class ∷ rest) j 0 < need) ⊎ (get_or (class ∷ rest) j 0 < req_align)
    shifted d (inl a) first zero h = inl (leb→gt need class a)
    shifted d (inr b) first zero h = inr (leb→gt req_align class b)
    shifted d n first (suc j) h = first j (omega arith)

-- What a choice among the classes means: the first one that fits, or none where none fits.
abbrev pub Chosen : ℕ → ℕ → List ℕ → Option ℕ → Type 0
Chosen need req_align classes (some i) = Picked need req_align classes i
Chosen need req_align classes none =
    (j : ℕ) → j < length classes → (get_or classes j 0 < need) ⊎ (get_or classes j 0 < req_align)

too_small :
    (need req_align class : ℕ)
    → (leb need class && leb req_align class) ≡ false
    → (class < need) ⊎ (class < req_align)
too_small need req_align class h = elim (and-false (leb need class) (leb req_align class) h) [
  | inl a ↦ inl (leb→gt need class a)
  | inr b ↦ inr (leb→gt req_align class b)
]

pick_from-none :
    (need req_align i : ℕ) (classes : List ℕ)
    → pick_from need req_align i classes ≡ none
    → Chosen need req_align classes none
unfolding pick_from
pick_from-none need req_align i [] e j h = absurd (omega arith)
pick_from-none need req_align i (class ∷ rest) e j h =
    elim (Bool-cases (leb need class && leb req_align class)) [
      | inl fits ↦ absurd (ground (arith, rw (fits, pick_from) at e))
      | inr not_fits ↦
          place j h (too_small need req_align class not_fits)
            (pick_from-none need req_align (i + 1) rest (rw (not_fits, pick_from) at e))
    ]
  where
    place :
        (j : ℕ)
        → j < length (class ∷ rest)
        → (class < need) ⊎ (class < req_align)
        → Chosen need req_align rest none
        → (get_or (class ∷ rest) j 0 < need) ⊎ (get_or (class ∷ rest) j 0 < req_align)
    place zero h here there = here
    place (suc j) h here there = there j (omega arith)

-- Where the size with the header is below 2^64, so that the sum of kernel/heap.c does not wrap around:
-- the class that a request gets is the first one that is as large as the alignment (16 at least) and as
-- the size with the header; and where a request gets no class, no class is so.
pub pick_slab_class-Room :
    (size align : ℕ)
    → size + hdr_size < u64
    → Chosen (size + hdr_size) (at_least_16 align) slab_classes (pick_slab_class size align)
unfolding pick_slab_class
pick_slab_class-Room size align h =
    let plain : add64 size hdr_size ≡ size + hdr_size = mod-eq_of_lt h in
    subst
      (λ n.
        Chosen (size + hdr_size) (at_least_16 align) slab_classes
          (pick_from n (at_least_16 align) 0 slab_classes))
      (sym plain)
      (elim (Option-cases (pick_from (size + hdr_size) (at_least_16 align) 0 slab_classes)) [
        | inl e ↦
            subst (Chosen (size + hdr_size) (at_least_16 align) slab_classes) (sym e)
              (pick_from-none (size + hdr_size) (at_least_16 align) 0 slab_classes e)
        | inr (i, e) ↦
            let (d, same, picked) =
              pick_from-Picked (size + hdr_size) (at_least_16 align) 0 i slab_classes e in
            let here : d ≡ i = omega (arith, same) in
            subst (Chosen (size + hdr_size) (at_least_16 align) slab_classes) (ap some here ∙ sym e)
              picked
      ])
