-- ===== src/Mmu/Ranges.antt =====
-- What `user_ptr_range` of kernel/syscall.c accepts is mapped for user programs.
use neptune_os.Common.{
  ltb, leb, ◌==◌, if◌then◌else◌, lt→ltb, ltb→ge, ==→eq, ==→ne, ne→==, Bool-cases, u64, add64, ℕ,
  zero, suc, ◌+◌, ◌*◌, ◌/◌, ◌≤◌, ◌<◌, ◌≡◌, refl, sym, ap, ◌∙◌, ◌≢◌, inl, inr, Bool, true, false,
  not, ◌&&◌, ◌||◌, Option, none, some, arith,
}
use neptune_os.Mmu.Leaf.{same_page}
use neptune_os.Mmu.Ensure.{walk-page}
use neptune_os.Mmu.Tree.{shifted_step, user-Index, translate, walk, user_end, Tree, Owner}
use neptune_os.Mmu.{pte_ps, table_of, pte_present, shifted, table_index, pte_user, has_bit}
use neptune_os.Mmu.User.{user_ptr_range, pages_present, user_entry, user_page_present}
use neptune_os.Mmu.Find.{at_root}

-- A translation that user programs may use.
abbrev pub open_entry : Option ℕ → Bool
open_entry none = false
open_entry (some entry) = has_bit entry pte_user

open_level :
    (b c : Bool) (w : Option ℕ) (x : Bool)
    → (b ≡ true → c ≡ true)
    → (b ≡ true → open_entry w ≡ x)
    → open_entry (if b then w else none) ≡ (if not (b && c) then false else x)
open_level true true w x h k = k refl
open_level true false w x h k = absurd (cc (h refl))
open_level false c w x h k = refl

open_leaf :
    (b : Bool) (entry : ℕ)
    → open_entry (if b then some entry else none) ≡ (b && has_bit entry pte_user)
open_leaf true entry = refl
open_leaf false entry = refl

else_part : (b : Bool) {x : Bool} → (if b then false else x) ≡ true → (b ≡ false) × (x ≡ true)
else_part true e = absurd (cc)
else_part false e = (refl, e)

not-false : (b : Bool) → not b ≡ false → b ≡ true
not-false true e = refl
not-false false e = absurd (cc)

open_some :
    (o : Option ℕ)
    → open_entry o ≡ true
    → (entry : ℕ) × (o ≡ some entry) × (has_bit entry pte_user ≡ true)
open_some none e = absurd (cc)
open_some (some entry) e = (entry, refl, e)

-- The first test of `user_page_present`, apart.
three_tests :
    (a b c y : Bool)
    → a ≡ false
    → (if a || not b || not c then false else y)
      ≡ (if not b then false else (if not c then false else y))
three_tests a true true y h = ap (λ x. if x || false || false then false else y) h
three_tests a true false y h = ap (λ x. if x || false || true then false else y) h
three_tests a false c y h = ap (λ x. if x || true || not c then false else y) h

module _ {taken : ℕ → Bool} {mem : ℕ → ℕ} {owner : Owner} (tree : Tree taken mem owner) (virt : ℕ)
    (user : virt < user_end) where
  -- One level of the tables, in the test and in the translation.
  level_test :
      (l p : ℕ)
      → suc l ≤ 3
      → owner p ≡ some (suc l, shifted (suc (suc l)) virt)
      → let entry = mem (p + 8 * table_index (suc l) virt) in
        (x : Bool)
        → (owner (table_of entry) ≡ some (l, shifted (suc l) virt)
            → open_entry (walk l mem (table_of entry) virt) ≡ x)
        → open_entry (walk (suc l) mem p virt) ≡ (if not (user_entry entry) then false else x)
  unfolding walk
  level_test l p low at x next =
      let i = table_index (suc l) virt in
      let index = user-Index (suc l) virt low user in
      let entry = mem (p + 8 * i) in
      open_level (has_bit entry pte_present) (has_bit entry pte_user)
        (walk l mem (table_of entry) virt) x
        (λ present. tree.open_to_user p l (shifted (suc (suc l)) virt) i at index present)
        (λ present. next (
          tree.child p l (shifted (suc (suc l)) virt) i at index present
          ∙ ap (λ z. some (l, z)) (shifted_step (suc l) virt)))

  not_large :
      (l p : ℕ)
      → suc l ≤ 3
      → owner p ≡ some (suc l, shifted (suc (suc l)) virt)
      → has_bit (mem (p + 8 * table_index (suc l) virt)) pte_ps ≡ false
  not_large l p low at =
      tree.no_large p l (shifted (suc (suc l)) virt) (table_index (suc l) virt) at
        (user-Index (suc l) virt low user)

  leaf_test :
      (p : ℕ) → open_entry (walk 0 mem p virt) ≡ user_entry (mem (p + 8 * table_index 0 virt))
  unfolding walk
  leaf_test p =
      open_leaf (has_bit (mem (p + 8 * table_index 0 virt)) pte_present)
        (mem (p + 8 * table_index 0 virt))

  -- With the page tables a tree and a root that is not the page 0, the test of `user_page_present` is that
  -- the address of a user program has a translation whose entry is open to user programs.
  pub user_page_present-translate :
      (root : ℕ)
      → owner root ≡ some (3, 0)
      → root ≢ 0
      → user_page_present mem root virt ≡ open_entry (translate mem root virt)
  unfolding user_page_present
  user_page_present-translate root at some_root =
      let pml4e = mem (root + 8 * table_index 3 virt) in
      let pdpte = mem (table_of pml4e + 8 * table_index 2 virt) in
      let pde = mem (table_of pdpte + 8 * table_index 1 virt) in
      let pte = mem (table_of pde + 8 * table_index 0 virt) in
      let x1 = if has_bit pde pte_ps then true else user_entry pte in
      let x2 =
        if has_bit pdpte pte_ps then true else (if not (user_entry pde) then false else x1) in
      three_tests (root == 0) (user_entry pml4e) (user_entry pdpte) x2 (ne→== root 0 some_root)
      ∙ sym (
          level_test 2 root (omega arith) (at_root owner at user)
            (if not (user_entry pdpte) then false else x2)
            (λ pdpt_at. level_test 1 (table_of pml4e) (omega arith) pdpt_at x2 (λ pd_at.
              level_test 0 (table_of pdpte) (omega arith) pd_at x1 (λ pt_at.
                leaf_test (table_of pde)
                ∙ sym (
                    ap (λ b. if b then true else user_entry pte)
                      (not_large 0 (table_of pdpte) (omega arith) pd_at)))
              ∙ sym (
                  ap (λ b. if b then true else (if not (user_entry pde) then false else x1))
                    (not_large 1 (table_of pml4e) (omega arith) pdpt_at)))))

module _ {taken : ℕ → Bool} {mem : ℕ → ℕ} {owner : Owner} (tree : Tree taken mem owner) (root : ℕ)
    (at : owner root ≡ some (3, 0)) (some_root : root ≢ 0) where
  -- The test looks at the page of an address only.
  present_page :
      (v virt : ℕ)
      → v < user_end
      → virt < user_end
      → v / 4096 ≡ virt / 4096
      → user_page_present mem root virt ≡ true
      → open_entry (translate mem root v) ≡ true
  present_page v virt small user same e =
      ap open_entry (walk-page 3 mem root v virt (same_page v virt same))
      ∙ sym (user_page_present-translate tree virt user root at some_root)
      ∙ e

  pages_present-open :
      (rounds addr end : ℕ)
      → end < user_end
      → pages_present mem root rounds addr end ≡ true
      → (v : ℕ) → addr ≤ v
      → v < end
      → v / 4096 < addr / 4096 + rounds
      → open_entry (translate mem root v) ≡ true
  unfolding pages_present
  pages_present-open zero addr end user e v from to h = absurd (omega arith)
  pages_present-open (suc rounds) addr end user e v from to h =
      let next = add64 (addr / 4096 * 4096) 0x1000 in
      let rest = pages_present mem root rounds next end in
      let more = if leb next addr then false else rest in
      let inside =
        sym (
          ap
            (λ b.
              if not b
              then true
              else (if not (user_page_present mem root addr) then false else more))
            (lt→ltb addr end (omega arith)))
        ∙ e in
      let (here, later) = else_part (not (user_page_present mem root addr)) inside in
      let next_eq : next ≡ addr / 4096 * 4096 + 4096 = omega arith in
      elim (Bool-cases (v / 4096 == addr / 4096)) [
        | inl same ↦
            present_page v addr (omega arith) (omega arith) (==→eq (v / 4096) (addr / 4096) same)
              (not-false (user_page_present mem root addr) here)
        | inr apart ↦
            let apart = ==→ne (v / 4096) (addr / 4096) apart in
            pages_present-open rounds next end user (else_part (leb next addr) later).1 v
              (omega (arith, apart)) to (omega (arith, apart))
      ]

  -- With the page tables a tree: where `user_ptr_range` accepts a range, each address of the range has a
  -- translation, and its page is open to user programs.
  pub user_ptr_range-translate :
      (ptr len : ℕ)
      → user_ptr_range mem root ptr len ≡ true
      → ptr < u64
      → len < u64
      → (v : ℕ) → ptr ≤ v
      → v < ptr + len
      → (entry : ℕ) × (translate mem root v ≡ some entry) × (has_bit entry pte_user ≡ true)
  unfolding user_ptr_range
  user_ptr_range-translate ptr len e hp hl v from to =
      let end = add64 ptr len in
      let (some_len, e1) = else_part (len == 0) e in
      let (above, e2) = else_part (ltb ptr 0x400000) e1 in
      let (no_wrap, e3) = else_part (ltb end ptr) e2 in
      let (below, e4) = else_part (ltb 0x7FFFFFF000 end) e3 in
      let no_wrap = ltb→ge end ptr no_wrap in
      let below = ltb→ge 0x7FFFFFF000 end below in
      let end_eq : end ≡ ptr + len = omega (arith, no_wrap) in
      open_some (translate mem root v) (
        pages_present-open (len / 4096 + 2) ptr end (omega (arith, below)) e4 v from
          (omega (arith, end_eq)) (omega arith))
