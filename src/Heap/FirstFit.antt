-- ===== src/Heap/FirstFit.antt =====
-- The search of `kalloc` of kernel/heap.c for a large free block with room, and what a fragment adds.
use neptune_os.Common.{
  ltb, leb, ltb→lt, ltb→ge, leb→le, Bool-cases, Option-cases, some_inj, if_intro, or_swap, or-right,
  some_if, and-true, u64, add64, sub64, ℕ, ◌+◌, ◌-◌, ◌≤◌, ◌<◌, ◌≡◌, refl, sym, ap, ap₂, subst, ◌∙◌,
  ◌≢◌, inl, inr, true, false, ◌&&◌, ◌||◌, none, some, List, [], ◌∷◌, arith, mod-eq_of_lt,
}
use neptune_os.Heap.{
  payload_offset, align_up_uint, FreeNode, insert_large_fragment, is_canonical, large_split_min,
}
use neptune_os.Heap.Alloc.{Fit, placed, first_fit}
use neptune_os.Heap.Joins.{inside, covered, IsBlock, Gapped}
use neptune_os.Heap.Free.{insert_large_node-Gapped}

pub sub64_plain : (a b : ℕ) → b ≤ a → a < u64 → sub64 a b ≡ a - b
sub64_plain a b h k = omega (arith)

pub outside : (node : FreeNode) (x : ℕ) → x ≤ node.addr → x ≢ node.addr → inside node x ≡ false
outside node x h k = ground (arith)

-- Nothing at or before the bound is in the list.
pub covered-bound :
    (lo : ℕ) (free : List FreeNode) (x : ℕ) → Gapped lo free → x ≤ lo → covered free x ≡ false
covered-bound lo [] x g h = refl
covered-bound lo (node ∷ rest) x ((a, b, c), g) h =
    let out : inside node x ≡ false = ground (arith) in
    let next = covered-bound (node.addr + node.size) rest x g (omega (arith)) in
    ap₂ (λ a b. a || b) out next

pub Gapped-weaken : (lo hi : ℕ) (free : List FreeNode) → lo ≤ hi → Gapped hi free → Gapped lo free
Gapped-weaken lo hi [] h g = tt
Gapped-weaken lo hi (node ∷ rest) h ((a, b, c), g) = ((omega (arith), b, c), g)

pub inside-below : (node : FreeNode) (x : ℕ) → inside node x ≡ true → x ≤ node.addr + node.size
inside-below node x i = ground (arith)

-- A byte of a later node is not in a node before it.
pub beyond :
    (node later : FreeNode) (x : ℕ)
    → node.addr + node.size < later.addr
    → inside later x ≡ true
    → inside node x ≡ false
beyond node later x h i = ground (arith)

pub none-some {ℓ} : {A : Type ℓ} (a : A) → none ≢ some a
none-some a e = absurd (cc)

-- What `first_fit` takes out of the list.
abbrev pub Taken : ℕ → ℕ → ℕ → List FreeNode → Fit → Type 0
Taken lo need req_align free fit =
    IsBlock lo fit.node
    × Gapped lo fit.others
    × (placed need req_align fit.node ≡ some fit.start)
    × ((x : ℕ) → inside fit.node x ≡ true → covered fit.others x ≡ false)
    × ((x : ℕ) → covered free x ≡ (inside fit.node x || covered fit.others x))

pub first_fit-Taken :
    (lo need req_align : ℕ) (free : List FreeNode) (fit : Fit)
    → Gapped lo free
    → first_fit need req_align free ≡ some fit
    → Taken lo need req_align free fit
unfolding first_fit
first_fit-Taken lo need req_align [] fit g e = absurd (cc)
first_fit-Taken lo need req_align (node ∷ rest) fit (n, g) e =
    elim (Option-cases (placed need req_align node)) [
      | inr (start, p) ↦
          subst (Taken lo need req_align (node ∷ rest)) (some_inj (rw (p, first_fit) at e)) (
            n,
            Gapped-weaken lo (node.addr + node.size) rest (omega (arith, n.0)) g,
            p,
            λ x i. covered-bound (node.addr + node.size) rest x g (inside-below node x i),
            λ x. refl,
          )
      | inl p ↦ elim (Option-cases (first_fit need req_align rest)) [
        | inl q ↦ absurd (none-some fit (rw (p, q, first_fit) at e))
        | inr (found, q) ↦
            let (block, gapped, start, apart, same) =
              first_fit-Taken (node.addr + node.size) need req_align rest found g q in
            subst (Taken lo need req_align (node ∷ rest)) (some_inj (rw (p, q, first_fit) at e)) (
              (omega (arith, block.0, n.0), block.1, block.2),
              (n, gapped),
              start,
              λ x i. ap₂ (λ a b. a || b) (beyond node found.node x block.0 i) (apart x i),
              λ x.
                  ap (λ b. inside node x || b) (same x)
                  ∙ or_swap (inside node x) (inside found.node x) (covered found.others x),
            )
      ]
    ]

-- Of two lists, the second has gaps and no byte that is not in the node or in the first.
abbrev pub Kept : FreeNode → List FreeNode → List FreeNode → Type 0
Kept node free after =
    Gapped 0 after × ((x : ℕ) → covered after x ≡ true → (inside node x || covered free x) ≡ true)

pub fragment-Keeps :
    (addr size : ℕ) (free : List FreeNode)
    → 0 < addr
    → addr + size < u64
    → Gapped 0 free
    → ((x : ℕ) → inside (record { addr = addr; size = size }) x ≡ true → covered free x ≡ false)
    → Kept (record { addr = addr; size = size }) free (insert_large_fragment addr size free)
unfolding insert_large_fragment
fragment-Keeps addr size free h k g apart =
    if_intro (Kept (record { addr = addr; size = size }) free) (ltb size large_split_min)
      (λ small. kept)
      (λ large. elim (Bool-cases (is_canonical addr)) [
        | inl canonical ↦
            let (gapped, same) =
              insert_large_node-Gapped (record { addr = addr; size = size }) free canonical
                (h, omega (arith, ltb→ge size large_split_min large), k) g apart in
            if_intro (Kept (record { addr = addr; size = size }) free) (is_canonical addr)
              (λ e. (gapped, λ x c. sym (same x) ∙ c)) (λ e. kept)
        | inr other ↦
            if_intro (Kept (record { addr = addr; size = size }) free) (is_canonical addr)
              (λ e. absurd (clash (sym other ∙ e))) (λ e. kept)
      ])
  where
    kept : Kept (record { addr = addr; size = size }) free free
    kept = (g, λ x c. or-right (inside (record { addr = addr; size = size }) x) (covered free x) c)

    clash : false ≢ true
    clash e = absurd (cc)

-- A block of `need` bytes at `start` lies in the node.
abbrev pub Within : ℕ → FreeNode → ℕ → Type 0
Within need node start = (node.addr ≤ start) × (start + need ≤ node.addr + node.size)

pub placed-Within :
    (need req_align : ℕ) (node : FreeNode) (start : ℕ)
    → node.addr + node.size < u64
    → start + need < u64
    → placed need req_align node ≡ some start
    → Within need node start
unfolding placed
placed-Within need req_align node start h k e =
    let at = sub64 (align_up_uint (add64 node.addr payload_offset) req_align) payload_offset in
    let room = leb need node.size && leb node.addr at in
    let (c, same) = some_if (room && leb (add64 at need) (add64 node.addr node.size)) e in
    let (r, upper) = and-true room (leb (add64 at need) (add64 node.addr node.size)) c in
    let (wide, lower) = and-true (leb need node.size) (leb node.addr at) r in
    let before = leb→le node.addr at lower in
    let behind = leb→le (add64 at need) (add64 node.addr node.size) upper in
    (
      omega (arith, before, same),
      omega
          (arith, behind, same, h, k, mod-eq_of_lt h, ap (λ z. add64 z need) same, mod-eq_of_lt k),
    )

pub bounds :
    (node : FreeNode) (x : ℕ) → inside node x ≡ true → (node.addr ≤ x) × (x < node.addr + node.size)
bounds node x i =
    let (a, b) = and-true (leb node.addr x) (ltb x (node.addr + node.size)) i in
    (leb→le node.addr x a, ltb→lt x (node.addr + node.size) b)
