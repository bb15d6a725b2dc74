-- ===== src/Pmm.antt =====
-- kernel/mem.c: the physical page allocator. A region keeps one bit for each of its pages in a bitmap
-- that lies in physical memory, so the state holds the byte memory and every bit is a byte access.
-- `pmm_lock` is held over each function, which is why a function is one step here; `panic` does not
-- return, and is the result `panic`.
pub mod Alloc
pub mod Bits
pub mod Free
pub mod Inv
pub mod Keeps
pub mod Runs
pub mod RunsLaws
mod Tests
pub mod Count
use neptune_os.Common.{
  ℕ, zero, suc, ◌+◌, ◌-◌, ◌*◌, ◌/◌, ◌%◌, Bool, true, false, ◌&&◌, ◌||◌, Option, none, some, List,
  [], ◌∷◌, ltb, leb, ◌==◌, if◌then◌else◌, length, get_elem?, add64, sub64, add32, update, byte_set,
  byte_clear, byte_test,
}

-- `struct pmm_region`
pub record Region : Type 0 where
  pub phys_start : ℕ
  pub phys_end : ℕ
  pub bitmap_phys : ℕ
  pub bitmap_bytes : ℕ
  pub total_pages : ℕ
  pub reserved_pages : ℕ

-- The static variables of mem.c; `regions` are the first `region_count` entries, and `mem` is physical
-- memory, which `phys_to_virt` maps one to one.
pub record Pmm : Type 0 where
  pub regions : List Region
  pub managed_pages : ℕ
  pub reserved_pages : ℕ
  pub used_pages : ℕ
  pub max_phys_end : ℕ
  pub cursor_region : ℕ
  pub cursor_page_idx : ℕ
  pub mem : ℕ → ℕ

pub data Run {ℓ} (A : Type ℓ) : Type ℓ where
  ok : A → Run A
  panic : Run A

abbrev pub bitmap_addr : Region → ℕ → ℕ
bitmap_addr region idx = region.bitmap_phys + idx / 8

unfoldable pub set_bit : (ℕ → ℕ) → Region → ℕ → ℕ → ℕ
set_bit mem region idx =
    update mem (bitmap_addr region idx) (byte_set (mem (bitmap_addr region idx)) (idx % 8))

unfoldable pub clear_bit : (ℕ → ℕ) → Region → ℕ → ℕ → ℕ
clear_bit mem region idx =
    update mem (bitmap_addr region idx) (byte_clear (mem (bitmap_addr region idx)) (idx % 8))

unfoldable pub test_bit : (ℕ → ℕ) → Region → ℕ → Bool
test_bit mem region idx = byte_test (mem (bitmap_addr region idx)) (idx % 8)

pub find_region : List Region → ℕ → Option Region
find_region [] addr = none
find_region (region ∷ rest) addr =
    if region.total_pages == 0
    then find_region rest addr
    else (if leb region.phys_start addr && ltb addr region.phys_end
        then some region
        else find_region rest addr)

-- `for (page = ...; page < ...; ++page) if (!test_bit(region, page)) ...`, over the pages left.
pub scan_clear : (ℕ → ℕ) → Region → ℕ → ℕ → Option ℕ
scan_clear mem region zero page = none
scan_clear mem region (suc n) page = elim (test_bit mem region page) [
  | true ↦ scan_clear mem region n (page + 1)
  | false ↦ some page
]

-- Where the search of a region starts.
pub start_page : ℕ → ℕ → ℕ → Region → ℕ
start_page start_r start_p r region =
    let p = if r == start_r then start_p else region.reserved_pages in
    if leb region.total_pages p || ltb p region.reserved_pages then region.reserved_pages else p

-- One round of the loop of `pmm_alloc_page`: the page that it would take from region `r`.
pub try_region : (ℕ → ℕ) → ℕ → ℕ → ℕ → Region → Option ℕ
try_region mem start_r start_p r region =
    let p = start_page start_r start_p r region in
    if leb region.total_pages region.reserved_pages
    then none
    else (elim (scan_clear mem region (region.total_pages - p) p) [
      | some page ↦ some page
      | none ↦
          if (r == start_r) && ltb region.reserved_pages p
          then scan_clear mem region (p - region.reserved_pages) region.reserved_pages
          else none
    ])

-- What `pmm_alloc_page` writes when it has found page `page` of region `r`.
pub take_page : Pmm → ℕ → Region → ℕ → ℕ × Pmm
take_page s r region page = (
  region.phys_start + page * 4096,
  record s {
    mem = set_bit s.mem region page;
    used_pages = add64 s.used_pages 1;
    cursor_region = r;
    cursor_page_idx = page + 1;
  },
)

pub alloc_loop : Pmm → ℕ → ℕ → ℕ → ℕ → Run (ℕ × Pmm)
alloc_loop s start_r start_p zero i = panic
alloc_loop s start_r start_p (suc n) i =
    let r = add32 start_r i % length s.regions in
    elim (get_elem? s.regions r) [
      | none ↦ panic
      | some region ↦ elim (try_region s.mem start_r start_p r region) [
        | some page ↦ ok (take_page s r region page)
        | none ↦ alloc_loop s start_r start_p n (i + 1)
      ]
    ]

pub alloc_page : Pmm → Run (ℕ × Pmm)
alloc_page s = alloc_loop s s.cursor_region s.cursor_page_idx (length s.regions) 0

pub free_page : ℕ → Pmm → Run Pmm
free_page addr s = elim (find_region s.regions addr) [
  | none ↦ panic
  | some region ↦
      let idx = (addr - region.phys_start) / 4096 in
      if leb region.total_pages idx
      then panic
      else (if ltb idx region.reserved_pages
          then panic
          else (if test_bit s.mem region idx
              then ok
                  (record s { mem = clear_bit s.mem region idx; used_pages = sub64 s.used_pages 1 })
              else panic))
]

pub total_bytes : Pmm → ℕ
total_bytes s = s.managed_pages * 4096

pub used_bytes : Pmm → ℕ
used_bytes s = s.used_pages * 4096
