-- ===== src/Mmu/Root.antt =====
-- A new address space: `mmu_create_user_pml4` makes a tree that maps nothing for user programs.
use neptune_os.Common.{
  ◌==◌, if◌then◌else◌, ==→eq, ==→ne, ne→==, Bool-cases, update, update_same, update_other, ℕ, zero,
  suc, ◌+◌, ◌*◌, ◌%◌, ◌<◌, ◌≡◌, refl, sym, ap, subst, ◌∙◌, ◌≢◌, inl, inr, Bool, true, Option, none,
  some, arith,
}
use neptune_os.Mmu.Ensure.{walk-missing}
use neptune_os.Mmu.Grow.{zero_page-inside, Alloc}
use neptune_os.Mmu.Tree.{user-Index, some-pair, translate, user_end, Index, Tree, Owner}
use neptune_os.Mmu.{
  table_index, zero_page, pte_ps, pte_present, Paging, mmu_create_user_pml4, has_bit, copy_words,
}

copy_words_before :
    (n from to : ℕ) (mem : ℕ → ℕ) (x : ℕ) → x < to → copy_words n from to mem x ≡ mem x
unfolding copy_words
copy_words_before zero from to mem x h = refl
copy_words_before (suc n) from to mem x h =
    copy_words_before n (from + 8) (to + 8) (update mem to (mem from)) x (omega arith)
    ∙ update_other mem to (mem from) x (λ e. absurd (omega arith))

-- The tree of a root alone.
pub lone : ℕ → Owner
lone root = update (λ p. none) root (some (3, 0))

lone-cases : (root q level range : ℕ) → lone root q ≡ some (level, range) → (q ≡ root) × (level ≡ 3)
unfolding lone
lone-cases root q level range o = elim (Bool-cases (root == q)) [
  | inl same ↦
      let e : ◌≡◌ {A = Option (ℕ × ℕ)} (some (3, 0)) (some (level, range)) =
        sym (update_same {A = Option (ℕ × ℕ)} (λ p. none) root (some (3, 0)))
        ∙ ap (λ x. update {A = Option (ℕ × ℕ)} (λ p. none) root (some (3, 0)) x) (==→eq root q same)
        ∙ o in
      (sym (==→eq root q same), sym ((some-pair e).0))
  | inr other ↦ absurd (
      cc (
        update_other {A = Option (ℕ × ℕ)} (λ p. none) root (some (3, 0)) q (==→ne root q other),
        o,
      ))
]

pub lone-Tree :
    {taken : ℕ → Bool} {mem : ℕ → ℕ} (root : ℕ)
    → root % 4096 ≡ 0
    → taken root ≡ true
    → ((i : ℕ) → i < 256 → mem (root + 8 * i) ≡ 0)
    → Tree taken mem (lone root)
unfolding has_bit
lone-Tree {taken} {mem} root whole held empty =
    let at_zero : (q level range i : ℕ)
        → lone root q ≡ some (suc level, range)
        → Index (suc level) i
        → mem (q + 8 * i) ≡ 0 =
      λ q level range i o index.
        let (qr, l3) = lone-cases root q (suc level) range o in
        ap (λ x. mem (x + 8 * i)) qr ∙ empty i (index.1 l3) in
    record {
      aligned = λ q level range o.
          subst (λ x. x % 4096 ≡ 0) (sym ((lone-cases root q level range o).0)) whole;
      held = λ q level range o.
          subst (λ x. taken x ≡ true) (sym ((lone-cases root q level range o).0)) held;
      child = λ q level range i o index present.
          absurd (cc (present, ap (λ e. has_bit e pte_present) (at_zero q level range i o index)));
      open_to_user = λ q level range i o index present.
          absurd (cc (present, ap (λ e. has_bit e pte_present) (at_zero q level range i o index)));
      no_large =
          λ q level range i o index. ap (λ e. has_bit e pte_ps) (at_zero q level range i o index);
    }

pub lone-root : (root : ℕ) → lone root root ≡ some (3, 0)
unfolding lone
lone-root root = update_same {A = Option (ℕ × ℕ)} (λ p. none) root (some (3, 0))

-- The lower half of the new root is empty.
lower_half :
    (kernel c : ℕ) (mem : ℕ → ℕ) (i : ℕ)
    → i < 256
    → copy_words 256 (kernel + 8 * 256) (c + 8 * 256) (zero_page c mem) (c + 8 * i) ≡ 0
lower_half kernel c mem i h =
    copy_words_before 256 (kernel + 8 * 256) (c + 8 * 256) (zero_page c mem) (c + 8 * i)
      (omega arith)
    ∙ zero_page-inside c mem i (omega arith)

-- A root whose lower half is empty translates nothing for user programs.
root_walk :
    (mem : ℕ → ℕ) (root virt : ℕ)
    → ((i : ℕ) → i < 256 → mem (root + 8 * i) ≡ 0)
    → virt < user_end
    → translate mem root virt ≡ none
unfolding has_bit
root_walk mem root virt empty user = walk-missing 3 mem root virt (
    ap (λ e. has_bit e pte_present)
      (empty (table_index 3 virt) ((user-Index 3 virt (omega arith) user).1 refl)))

-- While pages are left, and the page is not the page 0, a new address space is a tree, and no address of user
-- programs has a translation there.
pub mmu_create_user_pml4-Tree :
    {A : Type 0} (alloc_page : A → ℕ × A) (taken : A → ℕ → Bool) (left : A → ℕ)
    → Alloc alloc_page taken left
    → (kernel : ℕ) (s : Paging A) → 0 < left s.env
    → (alloc_page s.env).0 ≢ 0
    → (virt : ℕ) → virt < user_end
    → let r = mmu_create_user_pml4 alloc_page kernel s in
      (owner : Owner) × Tree (taken r.1.env) r.1.mem owner
      × (owner r.0 ≡ some (3, 0))
      × (translate r.1.mem r.0 virt ≡ none)
unfolding mmu_create_user_pml4
mmu_create_user_pml4-Tree {A} alloc_page taken left laws kernel s some_left some_page virt user =
    let c = (alloc_page s.env).0 in
    let m = copy_words 256 (kernel + 8 * 256) (c + 8 * 256) (zero_page c s.mem) in
    subst
      (λ (r : ℕ × Paging A).
        (owner : Owner) × Tree (taken r.1.env) r.1.mem owner
        × (owner r.0 ≡ some (3, 0))
        × (translate r.1.mem r.0 virt ≡ none))
      (sym (
        ap
          (λ b.
            if b
            then (0, record s { env = (alloc_page s.env).1 })
            else (c, record { mem = m; env = (alloc_page s.env).1 }))
          (ne→== c 0 some_page)))
      (
        lone c,
        lone-Tree c (laws.whole s.env some_left) (laws.takes s.env some_left)
            (lower_half kernel c s.mem),
        lone-root c,
        root_walk m c virt (lower_half kernel c s.mem) user,
      )
