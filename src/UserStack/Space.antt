-- ===== src/UserStack/Space.antt =====
-- kernel/user.c: a new address space and the pages of its stack. The page allocator is an argument.
use neptune_os.Common.{
  set, replicate, ltb, ◌==◌, if◌then◌else◌, ℕ, zero, suc, ◌+◌, ◌-◌, ◌*◌, ◌^◌, Bool, false, ◌||◌,
  Option, none, some, List,
}
use neptune_os.Mmu.{Paging, has_bit, pte_user, mmu_create_user_pml4, mmu_map_page_in}
use neptune_os.UserStack.{UserSpace, page_size}

abbrev pub user_base : ℕ
user_base = 0x400000

abbrev pub user_stack_top : ℕ
user_stack_top = 0x7FFFFFF000

abbrev pub user_stack_max_pages : ℕ
user_stack_max_pages = 4

-- `MMU_FLAG_WRITE | MMU_FLAG_NOEXEC`.
abbrev pub stack_flags : ℕ
stack_flags = 2 + 2 ^ 63

-- `flags | MMU_FLAG_USER`.
unfoldable pub with_user : ℕ → ℕ
unfolding has_bit
with_user flags = if has_bit flags pte_user then flags else flags + 4

module _ {A : Type 0} (alloc_page : A → ℕ × A) where
  unfoldable pub user_space_init : ℕ → Paging A → Option UserSpace × Paging A
  unfolding mmu_create_user_pml4
  user_space_init kernel s =
      let (pml4, s') = mmu_create_user_pml4 alloc_page kernel s in
      if pml4 == 0 then (none, s') else (
        some record {
          pml4_phys = pml4;
          entry = user_base;
          stack_top = user_stack_top;
          stack_bottom = user_stack_top;
          stack_pages = 0;
          stack_phys = replicate user_stack_max_pages 0;
        },
        s',
      )

  unfoldable pub user_space_map_page : ℕ → ℕ → ℕ → ℕ → Paging A → Bool × Paging A
  unfolding with_user mmu_map_page_in
  user_space_map_page root virt phys flags s =
      if root == 0
      then (false, s)
      else mmu_map_page_in alloc_page root virt phys (with_user flags) s

  -- The loop, with the pages left, the page it is at, and the frames so far.
  unfoldable pub map_stack_pages : ℕ → ℕ → ℕ → ℕ → List ℕ → Paging A → Option (List ℕ) × Paging A
  unfolding user_space_map_page
  map_stack_pages zero i bottom root frames s = (some frames, s)
  map_stack_pages (suc left) i bottom root frames s =
      let (phys, env) = alloc_page s.env in
      let s1 = record s { env = env } in
      let (ok, s2) = user_space_map_page root (bottom + i * page_size) phys stack_flags s1 in
      let rest = map_stack_pages left (i + 1) bottom root (set frames i phys) s2 in
      if phys == 0 then (none, s1) else (if ok then rest else (none, s2))

  unfoldable pub user_space_map_stack : UserSpace → ℕ → Paging A → Option UserSpace × Paging A
  unfolding map_stack_pages
  user_space_map_stack space pages s =
      let bottom = user_stack_top - pages * page_size in
      let (result, s') = map_stack_pages pages 0 bottom space.pml4_phys space.stack_phys s in
      if space.pml4_phys == 0 || pages == 0 || ltb user_stack_max_pages pages
      then (none, s)
      else (elim result [
        | none ↦ (none, s')
        | some frames ↦ (
          some record space {
            stack_top = user_stack_top;
            stack_bottom = bottom;
            stack_pages = pages;
            stack_phys = frames;
          },
          s',
        )
      ])
