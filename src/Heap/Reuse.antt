-- ===== src/Heap/Reuse.antt =====
-- What `kalloc` of kernel/heap.c takes out of the list of large free blocks.
use neptune_os.Common.{
  ltb, if◌then◌else◌, ne→==, Bool-cases, if_intro, or-split, or-right, refute, or-left, u64, add64,
  sub64, ℕ, ◌+◌, ◌-◌, ◌≤◌, ◌<◌, ◌≡◌, sym, ap, ap₂, subst, ◌∙◌, ◌≢◌, inl, inr, true, false, ◌||◌,
  some, List, arith, mod-eq_of_lt,
}
use neptune_os.Heap.FirstFit.{
  fragment-Keeps, bounds, sub64_plain, placed-Within, Kept, Within, first_fit-Taken,
}
use neptune_os.Heap.{Heap, payload_offset, FreeNode, insert_large_fragment}
use neptune_os.Heap.Alloc.{at_least_16, reuse_large, cut, kalloc, Fit, first_fit}
use neptune_os.Heap.Joins.{inside, covered, IsBlock, Gapped}
use neptune_os.Heap.Free.{inside-true}

-- What is left of a node before and behind the block.
abbrev front_of : Fit → FreeNode
front_of fit = record { addr = fit.node.addr; size = sub64 fit.start fit.node.addr }

abbrev back_of : ℕ → Fit → FreeNode
back_of need fit = record {
  addr = add64 fit.start need;
  size = sub64 (add64 fit.node.addr fit.node.size) (add64 fit.start need);
}

module _ (need : ℕ) (fit : Fit) (n : IsBlock 0 fit.node) (k : fit.start + need < u64)
    (w : Within need fit.node fit.start) (some_need : 0 < need) where
  front_size : sub64 fit.start fit.node.addr ≡ fit.start - fit.node.addr
  front_size = sub64_plain fit.start fit.node.addr w.0 (omega (arith))

  back_size :
      sub64 (add64 fit.node.addr fit.node.size) (add64 fit.start need)
      ≡ fit.node.addr + fit.node.size - (fit.start + need)
  back_size =
      ap₂ sub64 (mod-eq_of_lt n.2) (mod-eq_of_lt k)
      ∙ sub64_plain (fit.node.addr + fit.node.size) (fit.start + need) w.1 n.2

  front-inside :
      (x : ℕ) → inside (front_of fit) x ≡ true → (inside fit.node x ≡ true) × (x < fit.start)
  front-inside x i =
      let (a, b) = bounds (front_of fit) x i in
      (
        inside-true fit.node x a (omega (arith, b, front_size, w.1)),
        omega (arith, b, front_size, w.0),
      )

  back-inside :
      (x : ℕ)
      → inside (back_of need fit) x ≡ true
      → (inside fit.node x ≡ true) × (fit.start + need ≤ x)
  back-inside x i =
      let (a, b) = bounds (back_of need fit) x i in
      let e = mod-eq_of_lt k in
      (
        inside-true fit.node x (omega (arith, a, e, w.0)) (omega (arith, b, back_size, e, w.1)),
        omega (arith, a, e),
      )

  block-inside :
      (x : ℕ)
      → inside (record { addr = fit.start; size = need }) x ≡ true
      → (inside fit.node x ≡ true) × (fit.start ≤ x) × (x < fit.start + need)
  block-inside x i =
      let (a, b) = bounds (record { addr = fit.start; size = need }) x i in
      (inside-true fit.node x (omega (arith, a, w.0)) (omega (arith, b, w.1)), a, b)

  module _ (g : Gapped 0 fit.others)
      (apart : (x : ℕ) → inside fit.node x ≡ true → covered fit.others x ≡ false) where
    abbrev front : List FreeNode
    front =
        if ltb fit.node.addr fit.start
        then insert_large_fragment fit.node.addr (sub64 fit.start fit.node.addr) fit.others
        else fit.others

    front-Kept : Kept (front_of fit) fit.others front
    front-Kept =
        if_intro (Kept (front_of fit) fit.others) (ltb fit.node.addr fit.start)
          (λ e.
            fragment-Keeps fit.node.addr (sub64 fit.start fit.node.addr) fit.others
              (omega (arith, n.0)) (omega (arith, front_size, w.1, n.2)) g
              (λ x i. apart x (front-inside x i).0))
          (λ e. (g, λ x c. or-right (inside (front_of fit) x) (covered fit.others x) c))

    back-apart : (x : ℕ) → inside (back_of need fit) x ≡ true → covered front x ≡ false
    back-apart x i = elim (Bool-cases (covered front x)) [
      | inr e ↦ e
      | inl e ↦
          elim (or-split (inside (front_of fit) x) (covered fit.others x) (front-Kept.1 x e)) [
            | inl f ↦ absurd (omega (arith, (front-inside x f).1, (back-inside x i).1, some_need))
            | inr o ↦ absurd (clash (sym (apart x (back-inside x i).0) ∙ o))
          ]
    ]
      where
        clash : false ≢ true
        clash e = absurd (cc)

    cut-Kept : Kept (back_of need fit) front (cut need fit)
    unfolding cut
    cut-Kept =
        if_intro (Kept (back_of need fit) front)
          (ltb (add64 fit.start need) (add64 fit.node.addr fit.node.size))
          (λ e.
            fragment-Keeps (add64 fit.start need)
              (sub64 (add64 fit.node.addr fit.node.size) (add64 fit.start need)) front
              (omega (arith, mod-eq_of_lt k, w.0, n.0))
              (omega (arith, back_size, mod-eq_of_lt k, w.1, n.2)) front-Kept.0 back-apart)
          (λ e. (front-Kept.0, λ x c. or-right (inside (back_of need fit) x) (covered front x) c))

    -- A byte that is free after the cut was in the node or free, and is not in the block.
    cut-bytes :
        (x : ℕ)
        → covered (cut need fit) x ≡ true
        → ((inside fit.node x || covered fit.others x) ≡ true)
          × (inside (record { addr = fit.start; size = need }) x ≡ false)
    cut-bytes x c =
        elim (or-split (inside (back_of need fit) x) (covered front x) (cut-Kept.1 x c)) [
          | inl b ↦
              let (in_node, late) = back-inside x b in
              (
                or-left (inside fit.node x) (covered fit.others x) in_node,
                refute (inside (record { addr = fit.start; size = need }) x)
                    (λ i. absurd (omega (arith, late, (block-inside x i).2))),
              )
          | inr f ↦
              elim (or-split (inside (front_of fit) x) (covered fit.others x) (front-Kept.1 x f)) [
                | inl b ↦
                    let (in_node, early) = front-inside x b in
                    (
                      or-left (inside fit.node x) (covered fit.others x) in_node,
                      refute (inside (record { addr = fit.start; size = need }) x)
                          (λ i. absurd (omega (arith, early, (block-inside x i).1))),
                    )
                | inr o ↦ (
                  or-right (inside fit.node x) (covered fit.others x) o,
                  refute (inside (record { addr = fit.start; size = need }) x)
                      (λ i. sym o ∙ apart x (block-inside x i).0),
                )
              ]
        ]

kalloc-fit :
    (size align : ℕ) (h : Heap) (fit : Fit)
    → 0 < size
    → size + payload_offset < u64
    → first_fit (size + payload_offset) (at_least_16 align) h.free_large ≡ some fit
    → kalloc size align h ≡ reuse_large (size + payload_offset) (at_least_16 align) fit h
unfolding kalloc
kalloc-fit size align h fit some_size fits e =
    let plain : add64 size payload_offset ≡ size + payload_offset = mod-eq_of_lt fits in
    let found = ap (λ n. first_fit n (at_least_16 align) h.free_large) plain ∙ e in
    rw (ne→== size 0 (λ z. absurd (omega (arith, z))), found, kalloc)
      (ap (λ n. reuse_large n (at_least_16 align) fit h) plain)

-- The pointer and the heap after a call that takes the block of `need` bytes out of a free node.
abbrev pub Reuses : Heap → Fit → ℕ → ℕ × Heap → Type 0
Reuses h fit need (ptr, after) =
    (ptr ≡ fit.start + payload_offset)
    × Gapped 0 after.free_large
    × ((x : ℕ)
        → inside (record { addr = fit.start; size = need }) x ≡ true
        → covered h.free_large x ≡ true)
    × ((x : ℕ)
        → covered after.free_large x ≡ true
        → (covered h.free_large x ≡ true)
          × (inside (record { addr = fit.start; size = need }) x ≡ false))

-- A request of `kalloc` that finds room in a list of large free blocks with gaps, and does not wrap around
-- the addresses: the pointer is behind the block's header; every byte of the block, header included, was
-- free; and the list keeps its gaps, has no byte of the block, and no byte that it did not have.
pub kalloc-Reuses :
    (size align : ℕ) (h : Heap) (fit : Fit)
    → 0 < size
    → size + payload_offset < u64
    → Gapped 0 h.free_large
    → first_fit (size + payload_offset) (at_least_16 align) h.free_large ≡ some fit
    → fit.start + (size + payload_offset) < u64
    → Reuses h fit (size + payload_offset) (kalloc size align h)
unfolding reuse_large
kalloc-Reuses size align h fit some_size fits g e k =
    let need = size + payload_offset in
    let (n, gapped, start, apart, same) =
      first_fit-Taken 0 need (at_least_16 align) h.free_large fit g e in
    let w = placed-Within need (at_least_16 align) fit.node fit.start n.2 k start in
    let cut_bytes = cut-bytes need fit n k w (omega arith) gapped apart in
    subst (Reuses h fit need) (sym (kalloc-fit size align h fit some_size fits e)) (
      mod-eq_of_lt (omega arith),
      (cut-Kept need fit n k w (omega arith) gapped apart).0,
      λ x i.
          same x
          ∙ or-left (inside fit.node x) (covered fit.others x)
              (block-inside need fit n k w (omega arith) x i).0,
      λ x c. (same x ∙ (cut_bytes x c).0, (cut_bytes x c).1),
    )
