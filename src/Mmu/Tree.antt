-- ===== src/Mmu/Tree.antt =====
-- The page tables of a user address space as a tree: each table belongs to one range of addresses.
use neptune_os.Common.{
  ◌==◌, if◌then◌else◌, ==→eq, ==→ne, Bool-cases, some_inj, ℕ, zero, suc, ◌+◌, ◌*◌, ◌%◌, ◌^◌, ◌≤◌,
  ◌<◌, ◌≡◌, refl, sym, ap, subst, ◌∙◌, ◌≢◌, ◌⊎◌, inl, inr, Bool, true, false, Option, none, some,
  arith,
}
use neptune_os.Mmu.{has_bit, table_of, shifted, table_index, pte_present, pte_user, pte_ps}

-- The level of a table and the number of the range of addresses that goes through it.
abbrev pub Owner : Type 0
Owner = ℕ → Option (ℕ × ℕ)

-- What the processor finds for an address, from a table of this level on: the entry of the page.
unfoldable pub walk : ℕ → (ℕ → ℕ) → ℕ → ℕ → Option ℕ
unfolding has_bit table_of table_index
walk zero mem table virt =
    let entry = mem (table + 8 * table_index 0 virt) in
    if has_bit entry pte_present then some entry else none
walk (suc level) mem table virt =
    let entry = mem (table + 8 * table_index (suc level) virt) in
    if has_bit entry pte_present then walk level mem (table_of entry) virt else none

abbrev pub translate : (ℕ → ℕ) → ℕ → ℕ → Option ℕ
translate mem root virt = walk 3 mem root virt

-- An index of a table of this level that belongs to user programs.
abbrev pub Index : ℕ → ℕ → Type 0
Index level i = (i < 512) × (level ≡ 3 → i < 256)

-- Every table is taken and aligned; its entries that are present lead to the table of a part of its range
-- and are open to user programs; and no entry is a large page.
pub record Tree (taken : ℕ → Bool) (mem : ℕ → ℕ) (owner : Owner) : Type 0 where
  pub aligned : (p level range : ℕ) → owner p ≡ some (level, range) → p % 4096 ≡ 0
  pub held : (p level range : ℕ) → owner p ≡ some (level, range) → taken p ≡ true
  pub child :
      (p level range i : ℕ)
      → owner p ≡ some (suc level, range)
      → Index (suc level) i
      → has_bit (mem (p + 8 * i)) pte_present ≡ true
      → owner (table_of (mem (p + 8 * i))) ≡ some (level, range * 512 + i)
  pub open_to_user :
      (p level range i : ℕ)
      → owner p ≡ some (suc level, range)
      → Index (suc level) i
      → has_bit (mem (p + 8 * i)) pte_present ≡ true
      → has_bit (mem (p + 8 * i)) pte_user ≡ true
  pub no_large :
      (p level range i : ℕ)
      → owner p ≡ some (suc level, range)
      → Index (suc level) i
      → has_bit (mem (p + 8 * i)) pte_ps ≡ false

-- The words of the tables are the same, but for the entry `i` of the table `p`.
abbrev pub Agrees : Owner → ℕ → ℕ → (ℕ → ℕ) → (ℕ → ℕ) → Type 0
Agrees owner p i mem mem' =
    (q level range j : ℕ)
    → owner q ≡ some (level, range)
    → j < 512
    → (q ≢ p) ⊎ (j ≢ i)
    → mem' (q + 8 * j) ≡ mem (q + 8 * j)

-- Addresses of user programs.
abbrev pub user_end : ℕ
user_end = 2 ^ 47

pub user-Index :
    (level virt : ℕ) → level ≤ 3 → virt < user_end → Index level (table_index level virt)
unfolding table_index shifted
user-Index zero virt h k = (omega arith, λ e. absurd (omega arith))
user-Index (suc zero) virt h k = (omega arith, λ e. absurd (omega arith))
user-Index (suc (suc zero)) virt h k = (omega arith, λ e. absurd (omega arith))
user-Index (suc (suc (suc zero))) virt h k = (omega arith, λ e. omega arith)
user-Index (suc (suc (suc (suc level)))) virt h k = absurd (omega arith)

pub shifted_step :
    (level virt : ℕ) → shifted (suc level) virt * 512 + table_index level virt ≡ shifted level virt
unfolding shifted table_index
shifted_step level virt = omega arith

pub some-pair :
    {a b c d : ℕ} → ◌≡◌ {A = Option (ℕ × ℕ)} (some (a, b)) (some (c, d)) → (a ≡ c) × (b ≡ d)
some-pair e = (ap (λ p. p.0) (some_inj e), ap (λ p. p.1) (some_inj e))

pub if_then :
    {A : Type 0} (b : Bool) {x y : Option A}
    → (b ≡ true → x ≡ y)
    → (if b then x else none) ≡ (if b then y else none)
if_then true h = h refl
if_then false h = refl

-- An entry is the one that changed, or another.
pub same_or_other : (t p j i : ℕ) → ((t ≡ p) × (j ≡ i)) ⊎ ((t ≢ p) ⊎ (j ≢ i))
same_or_other t p j i = elim (Bool-cases (t == p)) [
  | inr other ↦ inr (inl (==→ne t p other))
  | inl same ↦ elim (Bool-cases (j == i)) [
    | inr other ↦ inr (inr (==→ne j i other))
    | inl both ↦ inl (==→eq t p same, ==→eq j i both)
  ]
]

module _ {taken : ℕ → Bool} (mem mem' : ℕ → ℕ) {owner : Owner} (tree : Tree taken mem owner)
    (p level range i : ℕ) (at : owner p ≡ some (level, range)) (agrees : Agrees owner p i mem mem')
    (virt : ℕ) (user : virt < user_end)
    (same : shifted level virt ≡ range * 512 + i
      → walk level mem' p virt ≡ walk level mem p virt) where
  on_way :
      (l t : ℕ)
      → owner t ≡ some (l, shifted (suc l) virt)
      → t ≡ p
      → table_index l virt ≡ i
      → walk l mem' t virt ≡ walk l mem t virt
  on_way l t o tp ji =
      let (le, re) = some-pair (sym at ∙ ap owner (sym tp) ∙ o) in
      let in_range : shifted level virt ≡ range * 512 + i =
        ap (λ x. shifted x virt) le ∙ omega (arith, shifted_step l virt, re, ji) in
      subst (λ x. walk x mem' t virt ≡ walk x mem t virt) le
        (subst (λ q. walk level mem' q virt ≡ walk level mem q virt) (sym tp) (same in_range))

  -- Where the entry that changed is on the way of an address, the address is in the entry's range.
  pub walk-Agrees :
      (l t : ℕ)
      → l ≤ 3
      → owner t ≡ some (l, shifted (suc l) virt)
      → walk l mem' t virt ≡ walk l mem t virt
  unfolding walk
  walk-Agrees zero t h o = elim (same_or_other t p (table_index 0 virt) i) [
    | inl (tp, ji) ↦ on_way 0 t o tp ji
    | inr away ↦
        ap (λ e. if has_bit e pte_present then some e else none)
          (agrees t 0 (shifted 1 virt) (table_index 0 virt) o (user-Index 0 virt h user).0 away)
  ]
  walk-Agrees (suc l) t h o = elim (same_or_other t p (table_index (suc l) virt) i) [
    | inl (tp, ji) ↦ on_way (suc l) t o tp ji
    | inr away ↦
        let w = t + 8 * table_index (suc l) virt in
        let index = user-Index (suc l) virt h user in
        ap (λ e. if has_bit e pte_present then walk l mem' (table_of e) virt else none)
          (agrees t (suc l) (shifted (suc (suc l)) virt) (table_index (suc l) virt) o index.0 away)
        ∙ if_then (has_bit (mem w) pte_present) (λ present.
          walk-Agrees l (table_of (mem w)) (omega arith) (
            tree.child t l (shifted (suc (suc l)) virt) (table_index (suc l) virt) o index present
            ∙ ap (λ z. some (l, z)) (shifted_step (suc l) virt)))
  ]
