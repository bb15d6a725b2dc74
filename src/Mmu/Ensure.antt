-- ===== src/Mmu/Ensure.antt =====
-- `ensure_table` in a tree of page tables: the table below an entry is there, and translations stay.
use neptune_os.Common.{
  if◌then◌else◌, if_intro, update, ℕ, zero, suc, ◌+◌, ◌*◌, ◌/◌, ◌%◌, ◌^◌, ◌≤◌, ◌<◌, ◌≡◌, refl, sym,
  ap, ap₂, subst, ◌∙◌, Bool, true, false, not, ◌&&◌, none, some, arith,
}
use neptune_os.Mmu.{
  pte_ps, zero_page, keep_bit, old_table, new_table, ensure_table, pte_user, table_of, Paging,
  pte_present, shifted, table_index, has_bit,
}
use neptune_os.Mmu.Tree.{
  walk-Agrees, if_then, user-Index, shifted_step, Index, Agrees, user_end, Tree, Owner, walk,
}
use neptune_os.Mmu.Grow.{
  linked-inside, grown-old, grown-new, grown-Tree, grown, new_bits, linked-entry, linked,
  linked-Agrees, Alloc,
}

shifted_same :
    (level v virt : ℕ) → shifted 0 v ≡ shifted 0 virt → shifted level v ≡ shifted level virt
unfolding shifted
shifted_same zero v virt h = h
shifted_same (suc level) v virt h = ap (λ x. x / 2 ^ 9) (shifted_same level v virt h)

-- Two addresses of one page take the same way.
pub walk-page :
    (level : ℕ) (mem : ℕ → ℕ) (t v virt : ℕ)
    → shifted 0 v ≡ shifted 0 virt
    → walk level mem t v ≡ walk level mem t virt
unfolding walk table_index
walk-page zero mem t v virt h =
    ap
      (λ x.
        let entry = mem (t + 8 * (x % 512)) in
        if has_bit entry pte_present then some entry else none)
      h
walk-page (suc level) mem t v virt h =
    let same = shifted_same (suc level) v virt h in
    ap
      (λ x.
        let entry = mem (t + 8 * (x % 512)) in
        if has_bit entry pte_present then walk level mem (table_of entry) v else none)
      same
    ∙ if_then (has_bit (mem (t + 8 * table_index (suc level) virt)) pte_present) (λ present.
      walk-page level mem (table_of (mem (t + 8 * table_index (suc level) virt))) v virt h)

-- The entry of the table `p` on the way to `virt` leads to the table `c`.
abbrev pub LeadsAt : (ℕ → ℕ) → ℕ → ℕ → ℕ → Type 0
LeadsAt mem i p c =
    (has_bit (mem (p + 8 * i)) pte_present ≡ true) × (table_of (mem (p + 8 * i)) ≡ c)

abbrev pub Leads : (ℕ → ℕ) → ℕ → ℕ → ℕ → ℕ → Type 0
Leads mem level virt p c = LeadsAt mem (table_index level virt) p c

pub walk-Leads :
    (l : ℕ) (mem : ℕ → ℕ) (virt p c : ℕ)
    → Leads mem (suc l) virt p c
    → walk (suc l) mem p virt ≡ walk l mem c virt
unfolding walk
walk-Leads l mem virt p c h =
    ap
      (λ b. if b then walk l mem (table_of (mem (p + 8 * table_index (suc l) virt))) virt else none)
      h.0
    ∙ ap (λ x. walk l mem x virt) h.1

pub walk-missing :
    (level : ℕ) (mem : ℕ → ℕ) (p v : ℕ)
    → has_bit (mem (p + 8 * table_index level v)) pte_present ≡ false
    → walk level mem p v ≡ none
unfolding walk
walk-missing zero mem p v h = ap (λ b. if b then some (mem (p + 8 * table_index 0 v)) else none) h
walk-missing (suc l) mem p v h =
    ap (λ b. if b then walk l mem (table_of (mem (p + 8 * table_index (suc l) v))) v else none) h

index_same :
    (level v virt : ℕ)
    → shifted level v ≡ shifted level virt
    → table_index level v ≡ table_index level virt
unfolding table_index
index_same level v virt h = ap (λ x. x % 512) h

-- A new table translates nothing.
walk-opened :
    (l : ℕ) (mem mem' : ℕ → ℕ) (p c v : ℕ)
    → has_bit (mem (p + 8 * table_index (suc l) v)) pte_present ≡ false
    → Leads mem' (suc l) v p c
    → ((j : ℕ) → j < 512 → mem' (c + 8 * j) ≡ 0)
    → walk (suc l) mem' p v ≡ walk (suc l) mem p v
unfolding has_bit table_index
walk-opened l mem mem' p c v missing leads empty =
    walk-Leads l mem' v p c leads
    ∙ walk-missing l mem' c v
        (ap (λ e. has_bit e pte_present) (empty (table_index l v) (omega arith)))
    ∙ sym (walk-missing (suc l) mem p v missing)

old_table-open :
    {A : Type 0} (alloc_page : A → ℕ × A) (at entry flags : ℕ) (s : Paging A)
    → has_bit flags pte_user ≡ true
    → has_bit entry pte_user ≡ true
    → old_table alloc_page at entry flags s ≡ (table_of entry, s)
unfolding old_table
old_table-open alloc_page at entry flags s hf he =
    ap₂
      (λ a b.
        (table_of entry, if a && not b then record s { mem = update s.mem at (entry + 4) } else s))
      hf he

kept_user : (flags : ℕ) → has_bit flags pte_user ≡ true → keep_bit flags pte_user ≡ 4
unfolding keep_bit
kept_user flags h = ap (λ b. if b then 4 else 0) h

new_table-linked :
    {A : Type 0} (alloc_page : A → ℕ × A) (p i flags : ℕ) (s : Paging A)
    → has_bit flags pte_user ≡ true
    → new_table alloc_page (p + 8 * i) flags s ≡ (
      (alloc_page s.env).0,
      record { mem = linked p i (alloc_page s.env).0 s.mem; env = (alloc_page s.env).1 },
    )
unfolding new_table linked
new_table-linked alloc_page p i flags s h =
    let c = (alloc_page s.env).0 in
    ap
      (λ k. (
        c,
        record {
          mem = update (zero_page c s.mem) (p + 8 * i) (c + 3 + k);
          env = (alloc_page s.env).1;
        },
      ))
      (kept_user flags h)

module _ {A : Type 0} (alloc_page : A → ℕ × A) (taken : A → ℕ → Bool) (left : A → ℕ)
    (laws : Alloc alloc_page taken left) where
  -- The table for `virt` below the table `p` of level `suc l`, after the growth of the tree.
  pub record Ensured (owner : Owner) (s : Paging A) (virt l p : ℕ) (r : ℕ × Paging A) : Type 0 where
    pub after : Owner
    pub tree : Tree (taken r.1.env) r.1.mem after
    pub at : after r.0 ≡ some (l, shifted (suc l) virt)
    pub leads : Leads r.1.mem (suc l) virt p r.0
    pub extends :
        (q level range : ℕ) → owner q ≡ some (level, range) → after q ≡ some (level, range)
    pub agrees : Agrees owner p (table_index (suc l) virt) s.mem r.1.mem
    pub walks :
        (m t v : ℕ)
        → m ≤ 3
        → v < user_end
        → owner t ≡ some (m, shifted (suc m) v)
        → walk m r.1.mem t v ≡ walk m s.mem t v
    pub lasts : left s.env ≤ suc (left r.1.env)
    pub holds : (q : ℕ) → taken s.env q ≡ true → taken r.1.env q ≡ true

  module _ (owner : Owner) (s : Paging A) (tree : Tree (taken s.env) s.mem owner)
      (virt l p flags : ℕ) (user : virt < user_end) (low : suc l ≤ 3)
      (for_user : has_bit flags pte_user ≡ true)
      (at : owner p ≡ some (suc l, shifted (suc (suc l)) virt)) where
    index : Index (suc l) (table_index (suc l) virt)
    index = user-Index (suc l) virt low user

    old_table-Ensured :
        has_bit (s.mem (p + 8 * table_index (suc l) virt)) pte_present ≡ true
        → Ensured owner s virt l p (
            old_table alloc_page
              (p + 8 * table_index (suc l) virt)
              (s.mem (p + 8 * table_index (suc l) virt))
              flags
              s)
    old_table-Ensured present =
        subst (λ r. Ensured owner s virt l p r)
          (sym (
            old_table-open alloc_page (p + 8 * table_index (suc l) virt)
              (s.mem (p + 8 * table_index (suc l) virt)) flags s for_user
              (tree.open_to_user p l (shifted (suc (suc l)) virt) (table_index (suc l) virt) at
                index present)))
          record {
            after = owner;
            tree = tree;
            at =
                tree.child p l (shifted (suc (suc l)) virt) (table_index (suc l) virt) at index
                  present
                ∙ ap (λ z. some (l, z)) (shifted_step (suc l) virt);
            leads = (present, refl);
            extends = λ q level range o. o;
            agrees = λ q level range j o h other. refl;
            walks = λ m t v h small o. refl;
            lasts = omega arith;
            holds = λ q h. h;
          }

    new_table-Ensured :
        has_bit (s.mem (p + 8 * table_index (suc l) virt)) pte_present ≡ false
        → 0 < left s.env
        → Ensured owner s virt l p (new_table alloc_page (p + 8 * table_index (suc l) virt) flags s)
    new_table-Ensured missing some_left =
        let i = table_index (suc l) virt in
        let range = shifted (suc (suc l)) virt in
        let c = (alloc_page s.env).0 in
        let env = (alloc_page s.env).1 in
        let keeps = laws.keeps s.env in
        let fresh = laws.fresh s.env some_left in
        let takes = laws.takes s.env some_left in
        let whole = laws.whole s.env some_left in
        let agrees = linked-Agrees tree keeps c fresh takes whole p l range i at index in
        let entry = linked-entry tree keeps c fresh takes whole p l range i at index in
        let bits = new_bits tree keeps c fresh takes whole p l range i at index in
        let leads : Leads (linked p i c s.mem) (suc l) virt p c =
          (ap (λ e. has_bit e pte_present) entry ∙ bits.0, ap table_of entry ∙ bits.3) in
        subst (λ r. Ensured owner s virt l p r)
          (sym (new_table-linked alloc_page p i flags s for_user))
          record {
            after = grown owner c l range i;
            tree = grown-Tree tree keeps c fresh takes whole p l range i at index;
            at =
                grown-new tree keeps c fresh takes whole p l range i at index
                ∙ ap (λ z. some (l, z)) (shifted_step (suc l) virt);
            leads = leads;
            extends = grown-old tree keeps c fresh takes whole p l range i at index;
            agrees = agrees;
            walks = λ m t v h small o.
                walk-Agrees s.mem (linked p i c s.mem) tree p (suc l) range i at agrees v small
                  (λ same.
                    walk-opened l s.mem (linked p i c s.mem) p c v
                      (subst (λ x. has_bit (s.mem (p + 8 * x)) pte_present ≡ false)
                        (sym (index_same (suc l) v virt (same ∙ shifted_step (suc l) virt)))
                        missing)
                      (subst (λ x. LeadsAt (linked p i c s.mem) x p c)
                        (sym (index_same (suc l) v virt (same ∙ shifted_step (suc l) virt))) leads)
                      (λ j hj.
                        linked-inside tree keeps c fresh takes whole p l range i at index j hj))
                  m t h o;
            lasts = laws.lasts s.env;
            holds = laws.keeps s.env;
          }

    pub ensure_table-Ensured :
        0 < left s.env
        → Ensured owner s virt l p (ensure_table alloc_page p (table_index (suc l) virt) flags s)
    unfolding ensure_table
    ensure_table-Ensured some_left =
        let at_index = p + 8 * table_index (suc l) virt in
        let entry = s.mem at_index in
        if_intro (λ r. Ensured owner s virt l p r) (has_bit entry pte_ps)
          (λ large. absurd (
            cc (
              large,
              tree.no_large p l (shifted (suc (suc l)) virt) (table_index (suc l) virt) at index,
            )))
          (λ small.
            if_intro (λ r. Ensured owner s virt l p r) (has_bit entry pte_present) old_table-Ensured
              (λ missing. new_table-Ensured missing some_left))
