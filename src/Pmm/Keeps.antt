-- ===== src/Pmm/Keeps.antt =====
-- The page operations of kernel/mem.c keep the allocator's invariant and move one bit each.
use neptune_os.Common.{
  get_elem?, lt_of_get_elem?, ◌==◌, ==→ne, Bool-cases, ℕ, ◌+◌, ◌*◌, ◌≤◌, ◌<◌, ◌≡◌, sym, ap, subst,
  ◌≢◌, inl, inr, true, false, ◌&&◌, ◌||◌, some, arith,
}
use neptune_os.Pmm.Alloc.{alloc_page-Took}
use neptune_os.Pmm.{ok, alloc_page, Region, Pmm, set_bit, clear_bit, test_bit, take_page}
use neptune_os.Pmm.Bits.{test-set, test-set_other, set_bit-IsBytes, test-clear_other}
use neptune_os.Pmm.Count.{
  marked, count_bits-set, count_bits-clear, count_bits-same, marked-change, marked-le,
}
use neptune_os.Pmm.Inv.{IsValid}

module _ {s : Pmm} (v : IsValid s) (k : ℕ) (r : Region) (at : get_elem? s.regions k ≡ some r)
    (p : ℕ) (high : p < r.total_pages) where
  same_set :
      (j : ℕ) (q : Region)
      → get_elem? s.regions j ≡ some q
      → j ≢ k
      → (i : ℕ) → i < q.total_pages
      → test_bit (set_bit s.mem r p) q i ≡ test_bit s.mem q i
  same_set j q at' ne i hi =
      test-set_other s.mem r q p i (v.apart k j r q at at' (λ e. ne (sym e)))
        (omega (arith, v.fits k r at)) (omega (arith, v.fits j q at'))

  pub same_clear :
      (j : ℕ) (q : Region)
      → get_elem? s.regions j ≡ some q
      → j ≢ k
      → (i : ℕ) → i < q.total_pages
      → test_bit (clear_bit s.mem r p) q i ≡ test_bit s.mem q i
  same_clear j q at' ne i hi =
      test-clear_other s.mem r q p i (v.apart k j r q at at' (λ e. ne (sym e)))
        (omega (arith, v.fits k r at)) (omega (arith, v.fits j q at'))

  marked-set :
      test_bit s.mem r p ≡ false → marked (set_bit s.mem r p) s.regions ≡ marked s.mem s.regions + 1
  marked-set c = omega (
    arith,
    marked-change s.mem (set_bit s.mem r p) s.regions k r at (λ j q at' ne.
        count_bits-same s.mem (set_bit s.mem r p) q q.total_pages (same_set j q at' ne)),
    count_bits-set s.mem r p v.bytes c r.total_pages high,
  )

  pub marked-clear :
      test_bit s.mem r p ≡ true
      → marked (clear_bit s.mem r p) s.regions + 1 ≡ marked s.mem s.regions
  marked-clear c = omega (
    arith,
    marked-change s.mem (clear_bit s.mem r p) s.regions k r at (λ j q at' ne.
        count_bits-same s.mem (clear_bit s.mem r p) q q.total_pages (same_clear j q at' ne)),
    count_bits-clear s.mem r p v.bytes c r.total_pages high,
  )

  pub take_page-IsValid : test_bit s.mem r p ≡ false → IsValid (take_page s k r p).1
  unfolding take_page
  take_page-IsValid c = record {
    bytes = set_bit-IsBytes s.mem r p v.bytes;
    fits = v.fits;
    apart = v.apart;
    cursor = lt_of_get_elem? s.regions k r at;
    few = v.few;
    counted =
        omega (arith, marked-set c, v.counted, v.small, marked-le (set_bit s.mem r p) s.regions);
    small = v.small;
  }

  pub used_take_page :
      test_bit s.mem r p ≡ false → (take_page s k r p).1.used_pages ≡ s.used_pages + 1
  unfolding take_page
  used_take_page c =
      omega (arith, marked-set c, v.counted, v.small, marked-le (set_bit s.mem r p) s.regions)

-- The bits of `s'` are those of `s`, with the one of page `p` of region `k` set.
abbrev pub OneMoreBit : Pmm → Pmm → ℕ → ℕ → Type 0
OneMoreBit s s' k p =
    (j : ℕ) (q : Region)
    → get_elem? s.regions j ≡ some q
    → (i : ℕ) → i < q.total_pages
    → test_bit s'.mem q i ≡ ((j == k) && (p == i) || test_bit s.mem q i)

pub OneMoreBit-take_page :
    {s : Pmm}
    → IsValid s
    → (k : ℕ) (r : Region) (p : ℕ) → get_elem? s.regions k ≡ some r
    → p < r.total_pages
    → OneMoreBit s (take_page s k r p).1 k p
unfolding take_page
OneMoreBit-take_page {s} v k r p at high j q at' i hi = elim (Bool-cases (j == k)) [
  | inl e ↦ let same : q ≡ r = ground arith in rw (e, same) (test-set s.mem r p v.bytes i)
  | inr ne ↦ rw ne (same_set v k r at p high j q at' (==→ne j k ne) i hi)
]

-- A call that succeeds returns the address of a page above the reserved ones that was clear in its
-- region's bitmap. It sets that bit and no other bit of any region, counts one page more as used, and
-- keeps the invariant.
pub alloc_page-OneMoreBit :
    {s : Pmm} {a : ℕ} {s' : Pmm}
    → IsValid s
    → alloc_page s ≡ ok (a, s')
    → (k : ℕ) × (r : Region) × (p : ℕ) × (get_elem? s.regions k ≡ some r)
      × (r.reserved_pages ≤ p)
      × (p < r.total_pages)
      × (a ≡ r.phys_start + p * 4096)
      × (test_bit s.mem r p ≡ false)
      × OneMoreBit s s' k p
      × (s'.used_pages ≡ s.used_pages + 1)
      × IsValid s'
unfolding take_page
alloc_page-OneMoreBit {s} {a} {s'} v h =
    let t = alloc_page-Took s h in
    let keep = take_page-IsValid v t.index t.region t.at t.page t.high t.was_clear in
    let bits = OneMoreBit-take_page v t.index t.region t.page t.at t.high in
    let used = used_take_page v t.index t.region t.at t.page t.high t.was_clear in
    (
      t.index,
      t.region,
      t.page,
      t.at,
      t.low,
      t.high,
      sym (ap (λ (x : ℕ × Pmm). x.0) t.done),
      t.was_clear,
      subst (λ (x : ℕ × Pmm). OneMoreBit s x.1 t.index t.page) t.done bits,
      subst (λ (x : ℕ × Pmm). x.1.used_pages ≡ s.used_pages + 1) t.done used,
      subst (λ (x : ℕ × Pmm). IsValid x.1) t.done keep,
    )
