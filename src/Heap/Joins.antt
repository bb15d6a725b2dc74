-- ===== src/Heap/Joins.antt =====
-- The bytes of a list of free blocks of kernel/heap.c, and the joining of blocks that touch.
use neptune_os.Common.{
  ltb, leb, ◌==◌, ==→eq, ==→ne, if_intro, or_assoc, u64, add64, ℕ, ◌+◌, ◌≤◌, ◌<◌, ◌≡◌, refl, sym,
  ap, subst, ◌∙◌, Bool, true, false, ◌&&◌, ◌||◌, List, [], ◌∷◌, arith, mod-eq_of_lt,
}
use neptune_os.Heap.{FreeNode, join_next, join_prev}

-- The address `x` lies in the node.
abbrev pub inside : FreeNode → ℕ → Bool
inside node x = leb node.addr x && ltb x (node.addr + node.size)

-- The address `x` lies in a node of the list.
abbrev pub covered : List FreeNode → ℕ → Bool
covered [] x = false
covered (node ∷ rest) x = inside node x || covered rest x

-- A node that is not empty, ends within the 64-bit addresses, and starts behind `lo`.
abbrev pub IsBlock : ℕ → FreeNode → Type 0
IsBlock lo node = (lo < node.addr) × (0 < node.size) × (node.addr + node.size < u64)

-- The nodes lie in order with a gap before each of them, the first behind `lo`.
abbrev pub Gapped : ℕ → List FreeNode → Type 0
Gapped lo [] = Unit
Gapped lo (node ∷ rest) = IsBlock lo node × Gapped (node.addr + node.size) rest

-- The list has the nodes' bytes and those of `bytes`, with gaps.
abbrev pub Joined : ℕ → (ℕ → Bool) → List FreeNode → Type 0
Joined lo bytes free = Gapped lo free × ((x : ℕ) → covered free x ≡ bytes x)

-- Two nodes that touch hold the same bytes as one.
pub inside-joined :
    (a b : FreeNode) (x : ℕ)
    → a.addr + a.size ≡ b.addr
    → inside (record { addr = a.addr; size = a.size + b.size }) x ≡ (inside a x || inside b x)
inside-joined a b x e = ground (arith, e)

-- Where the rest of a list starts behind a node.
abbrev pub Behind : ℕ → List FreeNode → Type 0
Behind end [] = Unit
Behind end (cur ∷ rest) =
    (end ≤ cur.addr)
    × (0 < cur.size)
    × (cur.addr + cur.size < u64)
    × Gapped (cur.addr + cur.size) rest

-- One node for two that touch: where it ends, and what it holds.
pub merged :
    (lo : ℕ) (a b : FreeNode)
    → IsBlock lo a
    → (add64 a.addr a.size == b.addr) ≡ true
    → 0 < b.size
    → b.addr + b.size < u64
    → let m : FreeNode = record a { size = add64 a.size b.size } in
      IsBlock lo m
      × (m.addr + m.size ≡ b.addr + b.size)
      × ((x : ℕ) → inside m x ≡ (inside a x || inside b x))
merged lo a b (h, k, l) e m n =
    let touch : a.addr + a.size ≡ b.addr =
      sym (mod-eq_of_lt l) ∙ ==→eq (add64 a.addr a.size) b.addr e in
    let plain : add64 a.size b.size ≡ a.size + b.size = mod-eq_of_lt (omega (arith, touch, n)) in
    (
      (h, omega (arith, plain, k), omega (arith, plain, touch, n)),
      omega (arith, plain, touch),
      λ x.
          ap (λ z. inside (record { addr = a.addr; size = z }) x) plain ∙ inside-joined a b x touch,
    )

pub join_next-Joined :
    (lo : ℕ) (node : FreeNode) (rest : List FreeNode)
    → IsBlock lo node
    → Behind (node.addr + node.size) rest
    → Joined lo (λ x. inside node x || covered rest x) (join_next node rest)
unfolding join_next
join_next-Joined lo node [] h b = ((h, tt), λ x. refl)
join_next-Joined lo node (cur ∷ rest) h (b, k, l, m) =
    if_intro (Joined lo (λ x. inside node x || covered (cur ∷ rest) x))
      (add64 node.addr node.size == cur.addr)
      (λ e.
        let (block, end, bytes) = merged lo node cur h e k l in
        (
          (block, subst (λ z. Gapped z rest) (sym end) m),
          λ x.
              ap (λ b. b || covered rest x) (bytes x)
              ∙ or_assoc (inside node x) (inside cur x) (covered rest x),
        ))
      (λ e.
        let apart : node.addr + node.size < cur.addr =
          omega (arith, b, ==→ne (add64 node.addr node.size) cur.addr e, mod-eq_of_lt (h.2)) in
        ((h, ((apart, k, l), m)), λ x. refl))

pub Gapped-Behind : (end : ℕ) (rest : List FreeNode) → Gapped end rest → Behind end rest
Gapped-Behind end [] g = tt
Gapped-Behind end (cur ∷ rest) ((a, b, c), g) = (omega (arith, a), b, c, g)

pub join_prev-Joined :
    (lo : ℕ) (prev node : FreeNode) (rest : List FreeNode)
    → IsBlock lo prev
    → prev.addr + prev.size ≤ node.addr
    → 0 < node.size
    → node.addr + node.size < u64
    → Gapped (node.addr + node.size) rest
    → Joined lo (λ x. inside prev x || (inside node x || covered rest x)) (join_prev prev node rest)
unfolding join_prev
join_prev-Joined lo prev node rest h b k l m =
    if_intro (Joined lo (λ x. inside prev x || (inside node x || covered rest x)))
      (add64 prev.addr prev.size == node.addr)
      (λ e.
        let (block, end, bytes) = merged lo prev node h e k l in
        let (gapped, same) =
          join_next-Joined lo (record prev { size = add64 prev.size node.size }) rest block
            (Gapped-Behind (prev.addr + add64 prev.size node.size) rest
              (subst (λ z. Gapped z rest) (sym end) m)) in
        (
          gapped,
          λ x.
              same x
              ∙ ap (λ b. b || covered rest x) (bytes x)
              ∙ or_assoc (inside prev x) (inside node x) (covered rest x),
        ))
      (λ e.
        let apart : prev.addr + prev.size < node.addr =
          omega (arith, b, ==→ne (add64 prev.addr prev.size) node.addr e, mod-eq_of_lt (h.2)) in
        ((h, ((apart, k, l), m)), λ x. refl))
