-- ===== src/Pmm/Tests.antt =====
-- The page allocator of kernel/mem.c on one region of four pages, the first of them reserved.
use neptune_os.Common.{
  get_elem?, ◌==◌, if◌then◌else◌, update, byte_set, byte_test, ℕ, zero, suc, ◌+◌, ◌*◌, ◌≤◌, ◌<◌,
  ◌≡◌, refl, sym, ◌∙◌, false, some, [], ◌∷◌, arith,
}
use neptune_os.Pmm.{
  Region, Pmm, ok, panic, set_bit, clear_bit, test_bit, find_region, scan_clear, start_page,
  try_region, take_page, alloc_loop, alloc_page, free_page,
}
use neptune_os.Pmm.Count.{count_bits, marked, pages}
use neptune_os.Pmm.Inv.{Fits, IsValid, RangesApart}
use neptune_os.Pmm.Keeps.{OneMoreBit, alloc_page-OneMoreBit}
use neptune_os.Pmm.Free.{SameBits, free_page-IsValid, free_page-free_page, free_page-alloc_page}
use neptune_os.Pmm.Runs.{set_run, scan_run, runs_loop, alloc_pages, ClearRun}
use neptune_os.Pmm.RunsLaws.{RunMoreBits, alloc_pages-RunMoreBits}

abbrev low : Region
low = record {
  phys_start = 0x100000;
  phys_end = 0x104000;
  bitmap_phys = 0x100000;
  bitmap_bytes = 1;
  total_pages = 4;
  reserved_pages = 1;
}

abbrev booted : Pmm
booted = record {
  regions = low ∷ [];
  managed_pages = 3;
  reserved_pages = 1;
  used_pages = 1;
  max_phys_end = 0x104000;
  cursor_region = 0;
  cursor_page_idx = 0;
  mem = λ a. if a == 0x100000 then 1 else 0;
}

-- `booted` after one call of `pmm_alloc_page`.
abbrev one_taken : Pmm
one_taken = record booted {
  used_pages = 2;
  cursor_page_idx = 2;
  mem = update booted.mem 0x100000 3;
}

at_low : (k : ℕ) (r : Region) → get_elem? (low ∷ []) k ≡ some r → (k ≡ 0) × (r ≡ low)
at_low zero r h = (refl, ground arith)
at_low (suc k) r h = absurd (ground arith)

low-Fits : Fits low
low-Fits = omega arith

booted-IsValid : IsValid booted
unfolding marked pages count_bits test_bit byte_test
booted-IsValid = record {
  bytes = λ a. ground arith;
  fits = λ k r h. rw (at_low k r h).1 low-Fits;
  apart = λ j k q r hq hr ne. absurd (ne ((at_low j q hq).0 ∙ sym (at_low k r hr).0));
  cursor = omega arith;
  few = omega arith;
  counted = refl;
  small = omega arith;
}

booted-RangesApart : RangesApart booted.regions
booted-RangesApart j k q r hq hr ne = absurd (ne ((at_low j q hq).0 ∙ sym (at_low k r hr).0))

-- The first call takes page 1, at 0x101000.
alloc_page-booted : alloc_page booted ≡ ok (0x101000, (take_page booted 0 low 1).1)
unfolding alloc_page alloc_loop try_region start_page scan_clear test_bit take_page byte_test
alloc_page-booted = refl

-- A region of four pages has no run of three behind its reserved page: the test in
-- `pmm_alloc_pages` passes a region over when it would be filled to its last page.
alloc_pages-booted : alloc_pages 3 booted ≡ panic
unfolding alloc_pages runs_loop
alloc_pages-booted = refl

alloc_page-OneMoreBit_example :
    (k : ℕ) × (r : Region) × (p : ℕ) × (get_elem? booted.regions k ≡ some r)
    × (r.reserved_pages ≤ p)
    × (p < r.total_pages)
    × (0x101000 ≡ r.phys_start + p * 4096)
    × (test_bit booted.mem r p ≡ false)
    × OneMoreBit booted (take_page booted 0 low 1).1 k p
    × ((take_page booted 0 low 1).1.used_pages ≡ 2)
    × IsValid (take_page booted 0 low 1).1
alloc_page-OneMoreBit_example = alloc_page-OneMoreBit booted-IsValid alloc_page-booted

free_page-alloc_page_example :
    (u : Pmm) × (free_page 0x101000 (take_page booted 0 low 1).1 ≡ ok u)
    × SameBits booted u
    × (u.used_pages ≡ 1)
free_page-alloc_page_example =
    free_page-alloc_page booted-IsValid booted-RangesApart alloc_page-booted

taken-IsValid : IsValid (take_page booted 0 low 1).1
taken-IsValid = (alloc_page-OneMoreBit booted-IsValid alloc_page-booted).10

given_back : Pmm
given_back =
    let t = (take_page booted 0 low 1).1 in record t { mem = clear_bit t.mem low 1; used_pages = 1 }

free_page-taken : free_page 0x101000 (take_page booted 0 low 1).1 ≡ ok given_back
unfolding free_page find_region take_page test_bit set_bit byte_set byte_test given_back
free_page-taken = refl

free_page-IsValid_example :
    IsValid given_back × (given_back.used_pages + 1 ≡ (take_page booted 0 low 1).1.used_pages)
free_page-IsValid_example = free_page-IsValid 0x101000 taken-IsValid free_page-taken

free_page-free_page_example : free_page 0x101000 given_back ≡ panic
free_page-free_page_example = free_page-free_page 0x101000 taken-IsValid free_page-taken

alloc_pages-two :
    alloc_pages 2 booted
    ≡ ok (0x101000, record booted { mem = set_run booted.mem low 1 2; used_pages = 3 })
unfolding alloc_pages runs_loop scan_run test_bit byte_test
alloc_pages-two = refl

alloc_pages-RunMoreBits_example :
    (k : ℕ) × (r : Region) × (p : ℕ) × (get_elem? booted.regions k ≡ some r)
    × (r.reserved_pages ≤ p)
    × (p + 2 ≤ r.total_pages)
    × (0x101000 ≡ r.phys_start + p * 4096)
    × ClearRun booted.mem r p (p + 2)
    × RunMoreBits booted (record booted { mem = set_run booted.mem low 1 2; used_pages = 3 }) k p 2
    × (◌≡◌ {A = ℕ} 3 3)
    × IsValid (record booted { mem = set_run booted.mem low 1 2; used_pages = 3 })
alloc_pages-RunMoreBits_example =
    alloc_pages-RunMoreBits 2 booted-IsValid (omega arith) alloc_pages-two
