-- ===== src/Mmu.antt =====
-- kernel/arch/x86_64/mmu.c: the page tables. `mem` gives the 64-bit word at a physical address, and the
-- page allocator is an argument (it panics where no page is left, and does not return). A word of a
-- table is an address that is a multiple of 4096, with flags in the bits below 12 and in bit 63.
pub mod Ensure
pub mod Find
pub mod Grow
pub mod Leaf
pub mod Maps
pub mod Ranges
pub mod Root
pub mod Tests
pub mod Tree
pub mod User
use neptune_os.Common.{
  leb, ◌==◌, if◌then◌else◌, add64, update, ℕ, zero, suc, ◌+◌, ◌-◌, ◌*◌, ◌/◌, ◌%◌, ◌^◌, Bool, true,
  false, not, ◌&&◌, ◌||◌, Option, none, some,
}

-- `PTE_PRESENT`, `PTE_RW`, `PTE_USER`, `PTE_PS`, bit 8 and `PTE_COW` by their numbers, and bit 63.
abbrev pub pte_present : ℕ
pte_present = 0

abbrev pub pte_rw : ℕ
pte_rw = 1

abbrev pub pte_user : ℕ
pte_user = 2

abbrev pub pte_ps : ℕ
pte_ps = 7

abbrev pub pte_global : ℕ
pte_global = 8

abbrev pub pte_cow : ℕ
pte_cow = 9

abbrev pub pte_nx : ℕ
pte_nx = 63

-- The flags `MMU_FLAG_*` have the same bits.
unfoldable pub has_bit : ℕ → ℕ → Bool
has_bit word k = word / 2 ^ k % 2 == 1

-- The bit `k` of `word` alone.
unfoldable pub keep_bit : ℕ → ℕ → ℕ
unfolding has_bit
keep_bit word k = if has_bit word k then 2 ^ k else 0

-- `entry & ~0xFFF`.
unfoldable pub table_of : ℕ → ℕ
table_of entry = entry / 4096 * 4096

pub record Paging (A : Type 0) : Type 0 where
  pub mem : ℕ → ℕ
  pub env : A

-- `(virt >> 12) & 0x1FF` at level 0, and 9 bits further up at each level above: the index into the page
-- table, the page directory, the directory of these, and the table at the root.
unfoldable pub shifted : ℕ → ℕ → ℕ
shifted zero virt = virt / 2 ^ 12
shifted (suc level) virt = shifted level virt / 2 ^ 9

unfoldable pub table_index : ℕ → ℕ → ℕ
unfolding shifted
table_index level virt = shifted level virt % 512

-- The loop of `zero_page`, with `n` words left.
unfoldable pub zero_words : ℕ → ℕ → (ℕ → ℕ) → ℕ → ℕ
zero_words zero at mem = mem
zero_words (suc n) at mem = zero_words n (at + 8) (update mem at 0)

unfoldable pub zero_page : ℕ → (ℕ → ℕ) → ℕ → ℕ
zero_page phys mem = zero_words 512 phys mem

-- The loop that splits a page of 2 MiB, with `n` entries left.
unfoldable pub split_words : ℕ → ℕ → ℕ → (ℕ → ℕ) → ℕ → ℕ
split_words zero at pte mem = mem
split_words (suc n) at pte mem = split_words n (at + 8) (pte + 4096) (update mem at pte)

-- The entry of a page: its address and the flags.
unfoldable pub page_entry : ℕ → ℕ → ℕ
unfolding keep_bit
page_entry phys flags =
    table_of phys
    + 1
    + keep_bit flags pte_rw
    + keep_bit flags pte_user
    + keep_bit flags pte_global
    + keep_bit flags pte_cow
    + keep_bit flags pte_nx

-- The loop that copies the upper half of the kernel's root.
unfoldable pub copy_words : ℕ → ℕ → ℕ → (ℕ → ℕ) → ℕ → ℕ
copy_words zero from to mem = mem
copy_words (suc n) from to mem = copy_words n (from + 8) (to + 8) (update mem to (mem from))

module _ {A : Type 0} (alloc_page : A → ℕ × A) where
  -- The three branches of `ensure_table`, at the word `at` with the value `entry`: a large page is split,
  -- a missing table is made, and a table that is there gets the user flag.
  unfoldable pub split_large : ℕ → ℕ → Paging A → ℕ × Paging A
  unfolding keep_bit
  split_large at entry s =
      let (phys, env) = alloc_page s.env in
      let kept =
        keep_bit entry pte_rw
        + keep_bit entry pte_user
        + keep_bit entry pte_global
        + keep_bit entry pte_nx in
      let base = entry / 2 ^ 21 * 2 ^ 21 % 2 ^ 63 in
      let filled = split_words 512 phys (base + kept + keep_bit entry pte_present) s.mem in
      (phys, record { mem = update filled at (phys + 1 + kept); env = env })

  unfoldable pub new_table : ℕ → ℕ → Paging A → ℕ × Paging A
  unfolding keep_bit
  new_table at flags s =
      let (phys, env) = alloc_page s.env in
      (
        phys,
        record {
          mem = update (zero_page phys s.mem) at (phys + 3 + keep_bit flags pte_user);
          env = env;
        },
      )

  unfoldable pub old_table : ℕ → ℕ → ℕ → Paging A → ℕ × Paging A
  unfolding has_bit table_of
  old_table at entry flags s = (
    table_of entry,
    if has_bit flags pte_user && not (has_bit entry pte_user)
        then record s { mem = update s.mem at (entry + 4) }
        else s,
  )

  unfoldable pub ensure_table : ℕ → ℕ → ℕ → Paging A → ℕ × Paging A
  unfolding has_bit split_large new_table old_table
  ensure_table parent index flags s =
      let at = parent + 8 * index in
      let entry = s.mem at in
      if has_bit entry pte_ps
      then split_large at entry s
      else (if has_bit entry pte_present then old_table at entry flags s else new_table at flags s)

  -- The page table for an address, three levels below the root.
  unfoldable pub find_table : ℕ → ℕ → ℕ → Paging A → ℕ × Paging A
  unfolding ensure_table table_index
  find_table root virt flags s =
      let (pdpt, s1) = ensure_table root (table_index 3 virt) flags s in
      let (pd, s2) = ensure_table pdpt (table_index 2 virt) flags s1 in
      ensure_table pd (table_index 1 virt) flags s2

  -- The entry is written, unless another page is mapped there: then the result is `false`.
  unfoldable pub set_page : ℕ → ℕ → ℕ → Paging A → Bool × Paging A
  unfolding has_bit table_of page_entry
  set_page at phys flags s =
      let existing = s.mem at in
      if has_bit existing pte_present && not (table_of existing == table_of phys)
      then (false, s)
      else (true, record s { mem = update s.mem at (page_entry phys flags) })

  -- Mapping in the tables below `root`; `false` is the result -1.
  unfoldable pub mmu_map_page_in : ℕ → ℕ → ℕ → ℕ → Paging A → Bool × Paging A
  unfolding find_table set_page table_index
  mmu_map_page_in root virt phys flags s =
      let (pt, s') = find_table root virt flags s in
      if root == 0 || not (root % 4096 == 0) || not (virt % 4096 == 0) || not (phys % 4096 == 0)
      then (false, s)
      else set_page (pt + 8 * table_index 0 virt) phys flags s'

  -- In the tables of the kernel, at `root`; `none` is a panic.
  unfoldable pub mmu_map_page : ℕ → ℕ → ℕ → ℕ → Paging A → Option (Paging A)
  unfolding find_table set_page table_index
  mmu_map_page root virt phys flags s =
      let (pt, s') = find_table root virt flags s in
      let (ok, s'') = set_page (pt + 8 * table_index 0 virt) phys flags s' in
      if not (virt % 4096 == 0) || not (phys % 4096 == 0)
      then none
      else (if ok then some s'' else none)

  -- `kernel` is the root of the kernel's tables.
  unfoldable pub mmu_create_user_pml4 : ℕ → Paging A → ℕ × Paging A
  unfolding copy_words
  mmu_create_user_pml4 kernel s =
      let (phys, env) = alloc_page s.env in
      if phys == 0 then (0, record s { env = env }) else (
        phys,
        record {
          mem = copy_words 256 (kernel + 8 * 256) (phys + 8 * 256) (zero_page phys s.mem);
          env = env;
        },
      )

  -- The tables on the way to the direct map of the physical memory.
  unfoldable pub ensure_hhdm_table : ℕ → ℕ → Paging A → ℕ × Paging A
  unfolding has_bit table_of
  ensure_hhdm_table table index s =
      let at = table + 8 * index in
      let entry = s.mem at in
      let (phys, env) = alloc_page s.env in
      if has_bit entry pte_present
      then (table_of entry, s)
      else (phys, record { mem = update (zero_page phys s.mem) at (phys + 3); env = env })

  -- The loop over the pages of 2 MiB from `phys` on; `virt` is `phys_to_hhdm(phys)`.
  unfoldable pub map_large : ℕ → ℕ → ℕ → ℕ → Paging A → Paging A
  unfolding ensure_hhdm_table table_index
  map_large pdpt zero phys virt s = s
  map_large pdpt (suc rounds) phys virt s =
      let (pd, s1) = ensure_hhdm_table pdpt (table_index 2 virt) s in
      let entry = phys / 2 ^ 21 * 2 ^ 21 + 131 + 2 ^ 63 in
      map_large pdpt rounds (phys + 2 ^ 21) (add64 virt (2 ^ 21))
        (record s1 { mem = update s1.mem (pd + 8 * table_index 1 virt) entry })

  unfoldable pub mmu_map_hhdm_2m : ℕ → ℕ → ℕ → ℕ → Paging A → Paging A
  unfolding map_large ensure_hhdm_table table_index
  mmu_map_hhdm_2m root hhdm_base phys_start phys_end s =
      let start = phys_start / 2 ^ 21 * 2 ^ 21 in
      let end = (phys_end + 2 ^ 21 - 1) / 2 ^ 21 * 2 ^ 21 in
      let (pdpt, s1) = ensure_hhdm_table root (table_index 3 hhdm_base) s in
      if leb end start
      then s
      else map_large pdpt ((end - start) / 2 ^ 21) start (add64 start hhdm_base) s1

-- The entry one level down, unless there is none or it is a large page: `none` is a panic.
unfoldable pub next_table : ℕ → Option ℕ
unfolding has_bit table_of
next_table entry =
    if not (has_bit entry pte_present) || has_bit entry pte_ps then none else some (table_of entry)

unfoldable pub mmu_unmap_page : {A : Type 0} → ℕ → ℕ → Paging A → Option (Paging A)
unfolding next_table has_bit table_of table_index
mmu_unmap_page root virt s =
    let top = s.mem (root + 8 * table_index 3 virt) in
    if not (virt % 4096 == 0) || not (has_bit top pte_present)
    then none
    else (elim (next_table (s.mem (table_of top + 8 * table_index 2 virt))) [
      | none ↦ none
      | some pd ↦ elim (next_table (s.mem (pd + 8 * table_index 1 virt))) [
        | none ↦ none
        | some pt ↦
            if has_bit (s.mem (pt + 8 * table_index 0 virt)) pte_present
            then some (record s { mem = update s.mem (pt + 8 * table_index 0 virt) 0 })
            else none
      ]
    ])
