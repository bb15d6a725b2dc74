-- ===== src/Pmm/Inv.antt =====
-- The invariant of the physical page allocator of kernel/mem.c.
use neptune_os.Common.{
  length, get_elem?, u64, IsBytes, ℕ, ◌+◌, ◌*◌, ◌≤◌, ◌<◌, ◌≡◌, ◌≢◌, ◌⊎◌, some, List,
}
use neptune_os.Pmm.{Region, Pmm}
use neptune_os.Pmm.Bits.{Apart}
use neptune_os.Pmm.Count.{marked, pages}

-- A region's bitmap holds a bit for each page, and its pages lie in its address range.
pub record Fits (r : Region) : Type 0 where
  pub room : r.total_pages ≤ 8 * r.bitmap_bytes
  pub reserved_in : r.reserved_pages ≤ r.total_pages
  pub range : r.phys_start + r.total_pages * 4096 ≤ r.phys_end

abbrev pub BitmapsApart : List Region → Type 0
BitmapsApart rs =
    (j k : ℕ) (q r : Region) → get_elem? rs j ≡ some q → get_elem? rs k ≡ some r → j ≢ k → Apart q r

abbrev pub AllFit : List Region → Type 0
AllFit rs = (k : ℕ) (r : Region) → get_elem? rs k ≡ some r → Fits r

pub record IsValid (s : Pmm) : Type 0 where
  pub bytes : IsBytes s.mem
  pub fits : AllFit s.regions
  pub apart : BitmapsApart s.regions
  pub cursor : s.cursor_region < length s.regions
  pub few : length s.regions ≤ 32
  pub counted : s.used_pages ≡ marked s.mem s.regions
  pub small : pages s.regions < u64

-- The address ranges of the regions do not overlap, and none is empty.
abbrev pub RangesApart : List Region → Type 0
RangesApart rs =
    (j k : ℕ) (q r : Region)
    → get_elem? rs j ≡ some q
    → get_elem? rs k ≡ some r
    → j ≢ k
    → (q.phys_end ≤ r.phys_start) ⊎ (r.phys_end ≤ q.phys_start)
