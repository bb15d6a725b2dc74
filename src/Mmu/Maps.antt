-- ===== src/Mmu/Maps.antt =====
-- `mmu_map_page_in` against the translations of the address space: it changes the one page, or none.
use neptune_os.Common.{
  ◌==◌, if◌then◌else◌, ==→eq, ==→ne, if_intro, or-left, update, update_same, update_other, ℕ, ◌+◌,
  ◌*◌, ◌/◌, ◌≤◌, ◌<◌, ◌≡◌, refl, sym, ap, subst, ◌∙◌, ◌≢◌, Bool, true, false, not, ◌&&◌, ◌||◌, some,
  arith,
}
use neptune_os.Mmu.Tree.{
  user-Index, shifted_step, walk-Agrees, Agrees, user_end, Tree, translate, Owner,
}
use neptune_os.Mmu.Ensure.{walk-page}
use neptune_os.Mmu.Grow.{words_apart, Alloc}
use neptune_os.Mmu.{
  find_table, mmu_map_page_in, set_page, shifted, pte_user, pte_present, Paging, table_index,
  page_entry, has_bit, table_of,
}
use neptune_os.Mmu.Find.{find_table-Found, at_root, Leads-kept, Found}
use neptune_os.Mmu.Leaf.{
  clashes, unaligned, page_entry-present, leaf-Tree, walk_down, clashes-walk, walk_leaf, same_page,
  page_same,
}

module _ {A : Type 0} (alloc_page : A → ℕ × A) (taken : A → ℕ → Bool) (left : A → ℕ)
    (laws : Alloc alloc_page taken left) where
  -- What a call leaves: the tree, the result, and every translation.
  pub record Mapped (s : Paging A) (root virt phys flags : ℕ) (refused : Bool) (r : Bool × Paging A)
      : Type 0 where
    pub after : Owner
    pub tree : Tree (taken r.1.env) r.1.mem after
    pub root_at : after root ≡ some (3, 0)
    pub lasts : left s.env ≤ 3 + left r.1.env
    pub holds : (q : ℕ) → taken s.env q ≡ true → taken r.1.env q ≡ true
    pub result : r.0 ≡ not refused
    pub translates :
        (v : ℕ)
        → v < user_end
        → translate r.1.mem root v ≡ (
            if not refused && v / 4096 == virt / 4096
            then some (page_entry phys flags)
            else translate s.mem root v)

  module _ (s : Paging A) (root virt phys flags : ℕ) (user : virt < user_end) (r : ℕ × Paging A)
      (found : Found alloc_page taken left laws s virt root r) where
    kept-Mapped : Mapped s root virt phys flags true (false, r.1)
    kept-Mapped = record {
      after = found.after;
      tree = found.tree;
      root_at = found.root_at;
      lasts = found.lasts;
      holds = found.holds;
      result = refl;
      translates = found.walks;
    }

    abbrev written : ℕ → ℕ
    written = update r.1.mem (r.0 + 8 * table_index 0 virt) (page_entry phys flags)

    written-Agrees : Agrees found.after r.0 (table_index 0 virt) r.1.mem written
    written-Agrees q level range j o h other =
        update_other r.1.mem (r.0 + 8 * table_index 0 virt) (page_entry phys flags) (q + 8 * j) (
          words_apart r.0 q (table_index 0 virt) j
            (found.tree.aligned r.0 0 (shifted 1 virt) found.pt_at)
            (found.tree.aligned q level range o) (user-Index 0 virt (omega arith) user).0 h other)

    written-here :
        (v : ℕ) → v / 4096 ≡ virt / 4096 → translate written root v ≡ some (page_entry phys flags)
    written-here v same =
        walk-page 3 written root v virt (same_page v virt same)
        ∙ walk_down written virt root found.pdpt found.pd r.0
            (Leads-kept r.1.mem written found.after written-Agrees found.root_at found.pt_at
              (λ e. absurd (omega arith)) (omega arith) user found.root_leads)
            (Leads-kept r.1.mem written found.after written-Agrees found.pdpt_at found.pt_at
              (λ e. absurd (omega arith)) (omega arith) user found.pdpt_leads)
            (Leads-kept r.1.mem written found.after written-Agrees found.pd_at found.pt_at
              (λ e. absurd (omega arith)) (omega arith) user found.pd_leads)
        ∙ walk_leaf written r.0 virt (page_entry phys flags)
            (update_same r.1.mem (r.0 + 8 * table_index 0 virt) (page_entry phys flags))
            (page_entry-present phys flags)

    written-away :
        (v : ℕ)
        → v < user_end
        → v / 4096 ≢ virt / 4096
        → translate written root v ≡ translate s.mem root v
    written-away v small apart =
        walk-Agrees r.1.mem written found.tree r.0 0 (shifted 1 virt) (table_index 0 virt)
          found.pt_at written-Agrees v small
          (λ same. absurd (apart (page_same v virt (same ∙ shifted_step 0 virt)))) 3 root
          (omega arith) (at_root found.after found.root_at small)
        ∙ found.walks v small

    written-Mapped :
        Mapped s root virt phys flags false (true, record { mem = written; env = r.1.env })
    written-Mapped = record {
      after = found.after;
      tree = leaf-Tree found.tree found.pt_at written-Agrees;
      root_at = found.root_at;
      lasts = found.lasts;
      holds = found.holds;
      result = refl;
      translates = λ v small.
          if_intro (λ x. translate written root v ≡ x) (v / 4096 == virt / 4096)
            (λ same. written-here v (==→eq (v / 4096) (virt / 4096) same))
            (λ apart. written-away v small (==→ne (v / 4096) (virt / 4096) apart));
    }

    set_page-Mapped :
        Mapped s root virt phys flags
          (clashes (translate s.mem root virt) phys)
          (set_page alloc_page (r.0 + 8 * table_index 0 virt) phys flags r.1)
    unfolding set_page
    set_page-Mapped =
        let existing = r.1.mem (r.0 + 8 * table_index 0 virt) in
        let clash = has_bit existing pte_present && not (table_of existing == table_of phys) in
        let same : clash ≡ clashes (translate s.mem root virt) phys =
          clashes-walk r.1.mem r.0 virt phys
          ∙ ap (λ o. clashes o phys)
              (sym (
                  walk_down r.1.mem virt root found.pdpt found.pd r.0 found.root_leads
                    found.pdpt_leads found.pd_leads)
                ∙ found.walks virt user) in
        if_intro (λ x. Mapped s root virt phys flags (clashes (translate s.mem root virt) phys) x)
          clash
          (λ e.
            subst (λ b. Mapped s root virt phys flags b (false, r.1)) (sym e ∙ same) kept-Mapped)
          (λ e.
            subst
              (λ b. Mapped s root virt phys flags b (true, record { mem = written; env = r.1.env }))
              (sym e ∙ same) written-Mapped)

  pub call-Mapped :
      (owner : Owner) (s : Paging A) (tree : Tree (taken s.env) s.mem owner)
      (root virt phys flags : ℕ)
      → owner root ≡ some (3, 0)
      → virt < user_end
      → has_bit flags pte_user ≡ true
      → 3 ≤ left s.env
      → Mapped s root virt phys flags
          (unaligned root virt phys || clashes (translate s.mem root virt) phys)
          (mmu_map_page_in alloc_page root virt phys flags s)
  unfolding mmu_map_page_in
  call-Mapped owner s tree root virt phys flags at user for_user some_left =
      if_intro
        (λ x.
          Mapped s root virt phys flags
            (unaligned root virt phys || clashes (translate s.mem root virt) phys) x)
        (unaligned root virt phys)
        (λ e.
          subst (λ b. Mapped s root virt phys flags b (false, s))
            (sym (or-left (unaligned root virt phys) (clashes (translate s.mem root virt) phys) e))
            record {
              after = owner;
              tree = tree;
              root_at = at;
              lasts = omega arith;
              holds = λ q h. h;
              result = refl;
              translates = λ v small. refl;
            })
        (λ e.
          subst
            (λ b. Mapped s root virt phys flags (b || clashes (translate s.mem root virt) phys) (
              set_page alloc_page
                ((find_table alloc_page root virt flags s).0 + 8 * table_index 0 virt) phys flags
                (find_table alloc_page root virt flags s).1))
            (sym e)
            (set_page-Mapped s root virt phys flags user (find_table alloc_page root virt flags s) (
              find_table-Found alloc_page taken left laws owner s tree virt root flags user for_user
                at some_left)))

  -- With the page tables a tree, three pages left, flags for user programs and an address of theirs, the
  -- call fails on an unaligned argument or where another frame is mapped at the address. Else the page of
  -- the address has the frame and the flags. Every other translation of an address of user programs stays.
  pub mmu_map_page_in-translate :
      (owner : Owner) (s : Paging A) (tree : Tree (taken s.env) s.mem owner)
      (root virt phys flags : ℕ)
      → owner root ≡ some (3, 0)
      → virt < user_end
      → has_bit flags pte_user ≡ true
      → 3 ≤ left s.env
      → (v : ℕ) → v < user_end
      → let refused = unaligned root virt phys || clashes (translate s.mem root virt) phys in
        let r = mmu_map_page_in alloc_page root virt phys flags s in
        (r.0 ≡ not refused)
        × (translate r.1.mem root v ≡ (
            if not refused && v / 4096 == virt / 4096
            then some (page_entry phys flags)
            else translate s.mem root v))
  mmu_map_page_in-translate owner s tree root virt phys flags at user for_user some_left v small =
      let m = call-Mapped owner s tree root virt phys flags at user for_user some_left in
      (m.result, m.translates v small)

  -- Under the same conditions the page tables are a tree after the call, with the same root.
  pub mmu_map_page_in-Tree :
      (owner : Owner) (s : Paging A) (tree : Tree (taken s.env) s.mem owner)
      (root virt phys flags : ℕ)
      → owner root ≡ some (3, 0)
      → virt < user_end
      → has_bit flags pte_user ≡ true
      → 3 ≤ left s.env
      → let r = mmu_map_page_in alloc_page root virt phys flags s in
        (after : Owner) × Tree (taken r.1.env) r.1.mem after × (after root ≡ some (3, 0))
  mmu_map_page_in-Tree owner s tree root virt phys flags at user for_user some_left =
      let m = call-Mapped owner s tree root virt phys flags at user for_user some_left in
      (m.after, m.tree, m.root_at)
