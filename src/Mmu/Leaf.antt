-- ===== src/Mmu/Leaf.antt =====
-- The last step of mapping a page: the entry of the page, and what the write of it keeps.
use neptune_os.Common.{
  ◌==◌, if◌then◌else◌, if_intro, ℕ, suc, ◌+◌, ◌*◌, ◌/◌, ◌%◌, ◌^◌, ◌<◌, ◌≡◌, refl, sym, ap, ◌∙◌, inl,
  Bool, true, false, not, ◌&&◌, ◌||◌, Option, none, some, arith,
}
use neptune_os.Mmu.Tree.{Agrees, Tree, translate, Owner, walk}
use neptune_os.Mmu.Ensure.{walk-Leads, Leads}
use neptune_os.Mmu.Grow.{some-level}
use neptune_os.Mmu.{
  pte_nx, pte_cow, pte_global, shifted, pte_rw, pte_ps, pte_user, pte_present, table_index,
  page_entry, has_bit, keep_bit, table_of,
}

-- Another frame is mapped already.
abbrev pub clashes : Option ℕ → ℕ → Bool
clashes none phys = false
clashes (some entry) phys = not (table_of entry == table_of phys)

abbrev pub unaligned : ℕ → ℕ → ℕ → Bool
unaligned root virt phys =
    root == 0 || not (root % 4096 == 0) || not (virt % 4096 == 0) || not (phys % 4096 == 0)

keep_bit-even : (flags k : ℕ) → 2 ^ k % 2 ≡ 0 → keep_bit flags k % 2 ≡ 0
unfolding keep_bit
keep_bit-even flags k h = if_intro (λ x. x % 2 ≡ 0) (has_bit flags k) (λ e. h) (λ e. refl)

pub page_entry-present : (phys flags : ℕ) → has_bit (page_entry phys flags) pte_present ≡ true
unfolding has_bit page_entry table_of
page_entry-present phys flags =
    let rw_even = keep_bit-even flags pte_rw refl in
    let user_even = keep_bit-even flags pte_user refl in
    let global_even = keep_bit-even flags pte_global refl in
    let cow_even = keep_bit-even flags pte_cow refl in
    let nx_even = keep_bit-even flags pte_nx refl in
    ground (arith, rw_even, user_even, global_even, cow_even, nx_even)

-- A write to a page table keeps the tree.
pub leaf-Tree :
    {taken : ℕ → Bool} {mem mem' : ℕ → ℕ} {owner : Owner} {p i range : ℕ}
    → Tree taken mem owner
    → owner p ≡ some (0, range)
    → Agrees owner p i mem mem'
    → Tree taken mem' owner
leaf-Tree {mem} {mem'} {owner} {p} {i} tree at agrees =
    let same : (q level r j : ℕ)
        → owner q ≡ some (suc level, r)
        → j < 512
        → mem' (q + 8 * j) ≡ mem (q + 8 * j) =
      λ q level r j o h.
        agrees q (suc level) r j o h (inl (some-level owner o at (λ e. absurd (omega arith)))) in
    record {
      aligned = tree.aligned;
      held = tree.held;
      child = λ q level r j o index present.
          let e = same q level r j o index.0 in
          ap (λ x. owner (table_of x)) e
          ∙ tree.child q level r j o index (sym (ap (λ x. has_bit x pte_present) e) ∙ present);
      open_to_user = λ q level r j o index present.
          let e = same q level r j o index.0 in
          ap (λ x. has_bit x pte_user) e
          ∙ tree.open_to_user q level r j o index
              (sym (ap (λ x. has_bit x pte_present) e) ∙ present);
      no_large = λ q level r j o index.
          ap (λ x. has_bit x pte_ps) (same q level r j o index.0)
          ∙ tree.no_large q level r j o index;
    }

-- The translation at the end of a way.
pub walk_down :
    (mem : ℕ → ℕ) (virt root pdpt pd pt : ℕ)
    → Leads mem 3 virt root pdpt
    → Leads mem 2 virt pdpt pd
    → Leads mem 1 virt pd pt
    → translate mem root virt ≡ walk 0 mem pt virt
walk_down mem virt root pdpt pd pt h3 h2 h1 =
    walk-Leads 2 mem virt root pdpt h3
    ∙ walk-Leads 1 mem virt pdpt pd h2
    ∙ walk-Leads 0 mem virt pd pt h1

clashes_if :
    (b : Bool) (entry phys : ℕ)
    → (b && not (table_of entry == table_of phys)) ≡ clashes (if b then some entry else none) phys
clashes_if true entry phys = refl
clashes_if false entry phys = refl

pub clashes-walk :
    (mem : ℕ → ℕ) (pt virt phys : ℕ)
    → (has_bit (mem (pt + 8 * table_index 0 virt)) pte_present
        && not (table_of (mem (pt + 8 * table_index 0 virt)) == table_of phys))
      ≡ clashes (walk 0 mem pt virt) phys
unfolding walk
clashes-walk mem pt virt phys =
    clashes_if (has_bit (mem (pt + 8 * table_index 0 virt)) pte_present)
      (mem (pt + 8 * table_index 0 virt)) phys

pub walk_leaf :
    (mem : ℕ → ℕ) (pt virt entry : ℕ)
    → mem (pt + 8 * table_index 0 virt) ≡ entry
    → has_bit entry pte_present ≡ true
    → walk 0 mem pt virt ≡ some entry
unfolding walk
walk_leaf mem pt virt entry e present =
    ap (λ x. if has_bit x pte_present then some x else none) e
    ∙ ap (λ b. if b then some entry else none) present

pub same_page : (v virt : ℕ) → v / 4096 ≡ virt / 4096 → shifted 0 v ≡ shifted 0 virt
unfolding shifted
same_page v virt h = h

pub page_same : (v virt : ℕ) → shifted 0 v ≡ shifted 0 virt → v / 4096 ≡ virt / 4096
unfolding shifted
page_same v virt h = h
