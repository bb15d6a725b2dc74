-- ===== src/Mmu/Find.antt =====
-- The way that `mmu_map_page_in` finds or makes, from the root to the page table of an address.
use neptune_os.Common.{ℕ, ◌+◌, ◌≤◌, ◌<◌, ◌≡◌, sym, ap, ◌∙◌, ◌≢◌, inl, Bool, true, some, arith}
use neptune_os.Mmu.Ensure.{ensure_table-Ensured, Leads}
use neptune_os.Mmu.Grow.{some-level, Alloc}
use neptune_os.Mmu.{
  table_of, ensure_table, pte_present, pte_user, has_bit, table_index, Paging, find_table, shifted,
}
use neptune_os.Mmu.Tree.{user-Index, translate, Tree, user_end, Agrees, Owner}

-- An entry stays where the entry that changed is in a table of another level.
pub Leads-kept :
    (mem mem' : ℕ → ℕ) (owner : Owner) {p i q level level' range range' virt c : ℕ}
    → Agrees owner p i mem mem'
    → owner q ≡ some (level, range)
    → owner p ≡ some (level', range')
    → level ≢ level'
    → level ≤ 3
    → virt < user_end
    → Leads mem level virt q c
    → Leads mem' level virt q c
Leads-kept mem mem' owner {q} {level} {range} {virt} agrees hq hp apart h user (present, to) =
    let e =
      agrees q level range (table_index level virt) hq (user-Index level virt h user).0
        (inl (some-level owner hq hp apart)) in
    (ap (λ x. has_bit x pte_present) e ∙ present, ap table_of e ∙ to)

user_root : (virt : ℕ) → virt < user_end → shifted 4 virt ≡ 0
unfolding shifted
user_root virt h = omega arith

pub at_root :
    (owner : Owner) {root virt : ℕ}
    → owner root ≡ some (3, 0)
    → virt < user_end
    → owner root ≡ some (3, shifted 4 virt)
at_root owner {virt} h user = h ∙ ap (λ z. some (3, z)) (sym (user_root virt user))

module _ {A : Type 0} (alloc_page : A → ℕ × A) (taken : A → ℕ → Bool) (left : A → ℕ)
    (laws : Alloc alloc_page taken left) where
  -- The page table `r.0` of an address, with the tables on the way.
  pub record Found (s : Paging A) (virt root : ℕ) (r : ℕ × Paging A) : Type 0 where
    pub after : Owner
    pub tree : Tree (taken r.1.env) r.1.mem after
    pub pdpt : ℕ
    pub pd : ℕ
    pub root_at : after root ≡ some (3, 0)
    pub pdpt_at : after pdpt ≡ some (2, shifted 3 virt)
    pub pd_at : after pd ≡ some (1, shifted 2 virt)
    pub pt_at : after r.0 ≡ some (0, shifted 1 virt)
    pub root_leads : Leads r.1.mem 3 virt root pdpt
    pub pdpt_leads : Leads r.1.mem 2 virt pdpt pd
    pub pd_leads : Leads r.1.mem 1 virt pd r.0
    pub lasts : left s.env ≤ 3 + left r.1.env
    pub holds : (q : ℕ) → taken s.env q ≡ true → taken r.1.env q ≡ true
    pub walks : (v : ℕ) → v < user_end → translate r.1.mem root v ≡ translate s.mem root v

  pub find_table-Found :
      (owner : Owner) (s : Paging A) (tree : Tree (taken s.env) s.mem owner) (virt root flags : ℕ)
      → virt < user_end
      → has_bit flags pte_user ≡ true
      → owner root ≡ some (3, 0)
      → 3 ≤ left s.env
      → Found s virt root (find_table alloc_page root virt flags s)
  unfolding find_table
  find_table-Found owner s tree virt root flags user for_user at some_left =
      let e1 =
        ensure_table-Ensured alloc_page taken left laws owner s tree virt 2 root flags user
          (omega arith) for_user (at_root owner at user) (omega arith) in
      let (pdpt, s1) = ensure_table alloc_page root (table_index 3 virt) flags s in
      let e2 =
        ensure_table-Ensured alloc_page taken left laws e1.after s1 e1.tree virt 1 pdpt flags user
          (omega arith) for_user e1.at (omega (arith, e1.lasts)) in
      let (pd, s2) = ensure_table alloc_page pdpt (table_index 2 virt) flags s1 in
      let e3 =
        ensure_table-Ensured alloc_page taken left laws e2.after s2 e2.tree virt 0 pd flags user
          (omega arith) for_user e2.at (omega (arith, e1.lasts, e2.lasts)) in
      let s3 = (ensure_table alloc_page pd (table_index 1 virt) flags s2).1 in
      let root1 = e1.extends root 3 0 at in
      let root2 = e2.extends root 3 0 root1 in
      let pdpt2 = e2.extends pdpt 2 (shifted 3 virt) e1.at in
      record {
        after = e3.after;
        tree = e3.tree;
        pdpt = pdpt;
        pd = pd;
        root_at = e3.extends root 3 0 root2;
        pdpt_at = e3.extends pdpt 2 (shifted 3 virt) pdpt2;
        pd_at = e3.extends pd 1 (shifted 2 virt) e2.at;
        pt_at = e3.at;
        root_leads =
            Leads-kept s2.mem s3.mem e2.after e3.agrees root2 e2.at (λ e. absurd (omega arith))
              (omega arith) user
              (Leads-kept s1.mem s2.mem e1.after e2.agrees root1 e1.at (λ e. absurd (omega arith))
                (omega arith) user e1.leads);
        pdpt_leads =
            Leads-kept s2.mem s3.mem e2.after e3.agrees pdpt2 e2.at (λ e. absurd (omega arith))
              (omega arith) user e2.leads;
        pd_leads = e3.leads;
        lasts = omega (arith, e1.lasts, e2.lasts, e3.lasts);
        holds = λ q h. e3.holds q (e2.holds q (e1.holds q h));
        walks = λ v small.
            e3.walks 3 root v (omega arith) small (at_root e2.after root2 small)
            ∙ e2.walks 3 root v (omega arith) small (at_root e1.after root1 small)
            ∙ e1.walks 3 root v (omega arith) small (at_root owner at small);
      }
