-- ===== src/Mmu/Tests.antt =====
-- The page tables at concrete inputs, with an allocator that hands out the pages in turn.
use neptune_os.Common.{
  ltb, ◌==◌, if◌then◌else◌, ltb→lt, lt→ltb, ge→ltb, ℕ, suc, ◌*◌, ◌/◌, ◌≡◌, refl, Bool, true, not,
  ◌&&◌, ◌||◌, none, some, arith,
}
use neptune_os.Mmu.Ranges.{user_ptr_range-translate}
use neptune_os.Mmu.Maps.{mmu_map_page_in-translate, mmu_map_page_in-Tree}
use neptune_os.Mmu.Leaf.{clashes, unaligned}
use neptune_os.Mmu.User.{user_ptr_range}
use neptune_os.Mmu.Root.{lone-root, lone-Tree, lone, mmu_create_user_pml4-Tree}
use neptune_os.Mmu.Tree.{translate, Tree, Owner}
use neptune_os.Mmu.Grow.{Alloc}
use neptune_os.Mmu.{pte_user, page_entry, has_bit, mmu_map_page_in, Paging, mmu_create_user_pml4}

abbrev next_page : ℕ → ℕ × ℕ
next_page n = (n * 4096, suc n)

abbrev handed_out : ℕ → ℕ → Bool
handed_out n p = ltb p (n * 4096)

next_page-Alloc : Alloc next_page handed_out (λ n. 3)
next_page-Alloc = record {
  fresh = λ s h. ge→ltb (s * 4096) (s * 4096) (omega arith);
  takes = λ s h. lt→ltb (s * 4096) (suc s * 4096) (omega arith);
  whole = λ s h. omega arith;
  keeps = λ s p h. lt→ltb p (suc s * 4096) (omega (arith, ltb→lt p (s * 4096) h));
  lasts = λ s. omega arith;
}

abbrev before : Paging ℕ
before = record { mem = λ a. 0; env = 16 }

abbrev kernel_root : ℕ
kernel_root = 4096

-- After the page 16 has been taken for the root of an address space.
abbrev user_root : ℕ
user_root = 65536

abbrev created : Paging ℕ
created = record { mem = λ a. 0; env = 17 }

abbrev flags : ℕ
flags = 6

mmu_create_user_pml4-Tree_example :
    let r = mmu_create_user_pml4 next_page kernel_root before in
    (owner : Owner) × Tree (handed_out r.1.env) r.1.mem owner
    × (owner r.0 ≡ some (3, 0))
    × (translate r.1.mem r.0 0x400000 ≡ none)
mmu_create_user_pml4-Tree_example =
    mmu_create_user_pml4-Tree next_page handed_out (λ n. 3) next_page-Alloc kernel_root before
      (omega arith) (λ e. absurd (omega arith)) 0x400000 (omega arith)

created-Tree : Tree (handed_out 17) created.mem (lone user_root)
created-Tree = lone-Tree user_root refl refl (λ i h. refl)

mmu_map_page_in-translate_example :
    let refused =
      unaligned user_root 0x400000 0x200000
      || clashes (translate created.mem user_root 0x400000) 0x200000 in
    let r = mmu_map_page_in next_page user_root 0x400000 0x200000 flags created in
    (r.0 ≡ not refused)
    × (translate r.1.mem user_root 0x400008 ≡ (
        if not refused && 0x400008 / 4096 == 0x400000 / 4096
        then some (page_entry 0x200000 flags)
        else translate created.mem user_root 0x400008))
unfolding has_bit
mmu_map_page_in-translate_example =
    mmu_map_page_in-translate next_page handed_out (λ n. 3) next_page-Alloc (lone user_root) created
      created-Tree user_root 0x400000 0x200000 flags (lone-root user_root) (omega arith) refl
      (omega arith) 0x400008 (omega arith)

mmu_map_page_in-Tree_example :
    let r = mmu_map_page_in next_page user_root 0x400000 0x200000 flags created in
    (after : Owner) × Tree (handed_out r.1.env) r.1.mem after × (after user_root ≡ some (3, 0))
unfolding has_bit
mmu_map_page_in-Tree_example =
    mmu_map_page_in-Tree next_page handed_out (λ n. 3) next_page-Alloc (lone user_root) created
      created-Tree user_root 0x400000 0x200000 flags (lone-root user_root) (omega arith) refl
      (omega arith)

-- The page 0x400000 of the address space, mapped.
abbrev mapped : Paging ℕ
mapped = (mmu_map_page_in next_page user_root 0x400000 0x200000 flags created).1

mapped-present : user_ptr_range mapped.mem user_root 0x400010 32 ≡ true
unfolding user_ptr_range mmu_map_page_in neptune_os.Mmu.zero_page neptune_os.Mmu.zero_words
mapped-present = refl

mapped-Tree :
    (after : Owner) × Tree (handed_out mapped.env) mapped.mem after
    × (after user_root ≡ some (3, 0))
unfolding has_bit
mapped-Tree =
    mmu_map_page_in-Tree next_page handed_out (λ n. 3) next_page-Alloc (lone user_root) created
      created-Tree user_root 0x400000 0x200000 flags (lone-root user_root) (omega arith) refl
      (omega arith)

user_ptr_range-translate_example :
    (entry : ℕ) × (translate mapped.mem user_root 0x400020 ≡ some entry)
    × (has_bit entry pte_user ≡ true)
user_ptr_range-translate_example =
    user_ptr_range-translate (mapped-Tree.1) user_root (mapped-Tree.2) (λ e. absurd (omega arith))
      0x400010 32 mapped-present (omega arith) (omega arith) 0x400020 (omega arith) (omega arith)
