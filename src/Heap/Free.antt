-- ===== src/Heap/Free.antt =====
-- The list of large free blocks of kernel/heap.c: in order, apart, and joined where blocks touch.
use neptune_os.Common.{
  ltb, ◌==◌, ltb→lt, ltb→ge, ==→ne, ne→==, Bool-cases, if_intro, or_assoc, or_swap, or-false, u64,
  add64, ℕ, ◌+◌, ◌≤◌, ◌<◌, ◌≡◌, refl, sym, ap, subst, ◌∙◌, ◌≢◌, inl, inr, true, false, ◌||◌, List,
  [], ◌∷◌, arith, mod-eq_of_lt,
}
use neptune_os.Heap.{
  FreeNode, behind, insert_behind, insert_sorted, insert_large_node, is_canonical,
}
use neptune_os.Heap.Joins.{
  inside, covered, IsBlock, Gapped, Joined, merged, join_next-Joined, join_prev-Joined,
}

-- No byte of the node is in the list.
abbrev Apart : FreeNode → List FreeNode → Type 0
Apart node free = (x : ℕ) → inside node x ≡ true → covered free x ≡ false

pub inside-true :
    (node : FreeNode) (x : ℕ) → node.addr ≤ x → x < node.addr + node.size → inside node x ≡ true
inside-true node x h k = ground arith

not_inside :
    (node : FreeNode) (x : ℕ) → inside node x ≡ false → node.addr ≤ x → node.addr + node.size ≤ x
not_inside node x e h = ground arith

-- A node of the list that starts before a node apart from it also ends before it.
ends_before :
    (node cur : FreeNode) (rest : List FreeNode)
    → Apart node (cur ∷ rest)
    → 0 < node.size
    → cur.addr < node.addr
    → cur.addr + cur.size ≤ node.addr
ends_before node cur rest apart k h =
    not_inside cur node.addr
      (or-false (inside cur node.addr) (covered rest node.addr)
        (apart node.addr (inside-true node node.addr (omega arith) (omega arith)))).0
      (omega arith)

starts_behind :
    (node cur : FreeNode) (rest : List FreeNode)
    → Apart node (cur ∷ rest)
    → 0 < cur.size
    → node.addr ≤ cur.addr
    → node.addr + node.size ≤ cur.addr
starts_behind node cur rest apart k h = elim (Bool-cases (inside node cur.addr)) [
  | inl e ↦ absurd (
      clash (
        sym (or-false (inside cur cur.addr) (covered rest cur.addr) (apart cur.addr e)).0
        ∙ inside-true cur cur.addr (omega arith) (omega arith)))
  | inr e ↦ not_inside node cur.addr e h
]
  where
    clash : false ≢ true
    clash e = absurd (cc)

Apart-rest :
    (node cur : FreeNode) (rest : List FreeNode) → Apart node (cur ∷ rest) → Apart node rest
Apart-rest node cur rest apart x e = (or-false (inside cur x) (covered rest x) (apart x e)).1

insert_behind-Joined :
    (lo : ℕ) (prev node : FreeNode) (free : List FreeNode)
    → IsBlock lo prev
    → prev.addr + prev.size ≤ node.addr
    → 0 < node.size
    → node.addr + node.size < u64
    → Gapped (prev.addr + prev.size) free
    → Apart node free
    → Joined lo
        (λ x. inside prev x || (inside node x || covered free x))
        (insert_behind prev node free)
unfolding insert_behind behind
insert_behind-Joined lo prev node [] h b k l m apart = join_prev-Joined lo prev node [] h b k l tt
insert_behind-Joined lo prev node (cur ∷ rest) h b k l (n, m) apart =
    if_intro (Joined lo (λ x. inside prev x || (inside node x || covered (cur ∷ rest) x)))
      (ltb cur.addr node.addr)
      (λ e.
        let before : cur.addr < node.addr = ltb→lt cur.addr node.addr e in
        let (gapped, same) =
          insert_behind-Joined (prev.addr + prev.size) cur node rest n
            (ends_before node cur rest apart k before) k l m (Apart-rest node cur rest apart) in
        (
          (h, gapped),
          λ x.
              ap (λ b. inside prev x || b)
                (same x ∙ or_swap (inside cur x) (inside node x) (covered rest x)),
        ))
      (λ e.
        let apart' : node.addr + node.size ≤ cur.addr =
          starts_behind node cur rest apart n.1 (ltb→ge cur.addr node.addr e) in
        if_intro
          (λ free.
            Joined lo (λ x. inside prev x || (inside node x || covered (cur ∷ rest) x))
              (behind prev free))
          (add64 node.addr node.size == cur.addr)
          (λ t.
            let (block, end, bytes) =
              merged prev.addr node cur (omega (arith, b, h.1), k, l) t n.1 n.2 in
            let (gapped, same) =
              join_prev-Joined lo prev (record node { size = add64 node.size cur.size }) rest h b
                block.1 block.2 (subst (λ z. Gapped z rest) (sym end) m) in
            (
              gapped,
              λ x.
                  same x
                  ∙ ap (λ b. inside prev x || b)
                      (ap (λ b. b || covered rest x) (bytes x)
                        ∙ or_assoc (inside node x) (inside cur x) (covered rest x)),
            ))
          (λ t. join_prev-Joined lo prev node (cur ∷ rest) h b k l (
            (
              omega (arith, apart', ==→ne (add64 node.addr node.size) cur.addr t, mod-eq_of_lt l),
              n.1,
              n.2,
            ),
            m,
          )))

insert_sorted-Joined :
    (node : FreeNode) (free : List FreeNode)
    → IsBlock 0 node
    → Gapped 0 free
    → Apart node free
    → Joined 0 (λ x. inside node x || covered free x) (insert_sorted node free)
unfolding insert_sorted
insert_sorted-Joined node [] h g apart = ((h, tt), λ x. refl)
insert_sorted-Joined node (cur ∷ rest) h (n, m) apart =
    if_intro (Joined 0 (λ x. inside node x || covered (cur ∷ rest) x)) (ltb cur.addr node.addr)
      (λ e.
        let (gapped, same) =
          insert_behind-Joined 0 cur node rest n
            (ends_before node cur rest apart h.1 (ltb→lt cur.addr node.addr e)) h.1 h.2 m
            (Apart-rest node cur rest apart) in
        (gapped, λ x. same x ∙ or_swap (inside cur x) (inside node x) (covered rest x)))
      (λ e.
        join_next-Joined 0 node (cur ∷ rest) h
          (starts_behind node cur rest apart n.1 (ltb→ge cur.addr node.addr e), n.1, n.2, m))

-- A block whose address is canonical and of which no byte is in a list of large free nodes: the list
-- after `insert_large_node` is in order, with gaps, and holds the bytes that it held and the block's.
pub insert_large_node-Gapped :
    (node : FreeNode) (free : List FreeNode)
    → is_canonical node.addr ≡ true
    → IsBlock 0 node
    → Gapped 0 free
    → ((x : ℕ) → inside node x ≡ true → covered free x ≡ false)
    → Gapped 0 (insert_large_node node free)
      × ((x : ℕ) → covered (insert_large_node node free) x ≡ (inside node x || covered free x))
unfolding insert_large_node
insert_large_node-Gapped node free canonical h g apart =
    rw (ne→== node.addr 0 (λ e. absurd (omega (arith, e, h.0))), canonical, insert_large_node)
      (insert_sorted-Joined node free h g apart)
