-- ===== src/Mmu/User.antt =====
-- The tests of kernel/syscall.c on addresses of user programs.
use neptune_os.Common.{
  ltb, leb, ◌==◌, if◌then◌else◌, add64, ℕ, zero, suc, ◌+◌, ◌*◌, ◌/◌, Bool, true, false, not, ◌&&◌,
  ◌||◌,
}
use neptune_os.Mmu.{has_bit, table_of, table_index, pte_present, pte_user, pte_ps}

abbrev pub user_entry : ℕ → Bool
user_entry entry = has_bit entry pte_present && has_bit entry pte_user

unfoldable pub user_page_present : (ℕ → ℕ) → ℕ → ℕ → Bool
unfolding has_bit table_of table_index
user_page_present mem pml4_phys virt =
    let pml4e = mem (pml4_phys + 8 * table_index 3 virt) in
    let pdpte = mem (table_of pml4e + 8 * table_index 2 virt) in
    let pde = mem (table_of pdpte + 8 * table_index 1 virt) in
    let pte = mem (table_of pde + 8 * table_index 0 virt) in
    if pml4_phys == 0 || not (user_entry pml4e) || not (user_entry pdpte)
    then false
    else (if has_bit pdpte pte_ps
        then true
        else (if not (user_entry pde)
            then false
            else (if has_bit pde pte_ps then true else user_entry pte)))

-- The loop over the pages from `addr` to `end`.
unfoldable pub pages_present : (ℕ → ℕ) → ℕ → ℕ → ℕ → ℕ → Bool
unfolding user_page_present
pages_present mem root zero addr end = true
pages_present mem root (suc rounds) addr end =
    let next = add64 (addr / 4096 * 4096) 0x1000 in
    let rest = pages_present mem root rounds next end in
    if not (ltb addr end)
    then true
    else (if not (user_page_present mem root addr)
        then false
        else (if leb next addr then false else rest))

-- With `USER_BASE` and `USER_STACK_TOP`.
unfoldable pub user_ptr_range : (ℕ → ℕ) → ℕ → ℕ → ℕ → Bool
unfolding pages_present
user_ptr_range mem root ptr len =
    if len == 0
    then false
    else (if ltb ptr 0x400000
        then false
        else (if ltb (add64 ptr len) ptr
            then false
            else (if ltb 0x7FFFFFF000 (add64 ptr len)
                then false
                else pages_present mem root (len / 4096 + 2) ptr (add64 ptr len))))
