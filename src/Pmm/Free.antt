-- ===== src/Pmm/Free.antt =====
-- `pmm_free_page` of kernel/mem.c against `pmm_alloc_page`.
use neptune_os.Common.{
  get_elem?, ltb, leb, ◌==◌, ==→eq, ==→ne, ==_refl, Bool-cases, Option-cases, sub64, ℕ, zero, suc,
  ◌+◌, ◌-◌, ◌*◌, ◌/◌, ◌≤◌, ◌<◌, ◌≡◌, refl, subst, ◌∙◌, inl, inr, true, false, ◌&&◌, some, List, [],
  ◌∷◌, arith,
}
use neptune_os.Pmm.{
  Region, Pmm, ok, panic, clear_bit, test_bit, take_page, alloc_page, find_region, free_page,
}
use neptune_os.Pmm.Bits.{test-clear, clear_bit-IsBytes}
use neptune_os.Pmm.Count.{marked-le}
use neptune_os.Pmm.Inv.{AllFit, IsValid, RangesApart}
use neptune_os.Pmm.Alloc.{alloc_page-Took}
use neptune_os.Pmm.Keeps.{take_page-IsValid, same_clear, marked-clear, OneMoreBit-take_page}

find_region-index :
    (rs : List Region) (addr : ℕ) (r : Region)
    → find_region rs addr ≡ some r
    → (k : ℕ) × (get_elem? rs k ≡ some r) × (r.phys_start ≤ addr) × (addr < r.phys_end)
unfolding find_region
find_region-index [] addr r h = absurd (ground arith)
find_region-index (q ∷ rs) addr r h = elim (Bool-cases (q.total_pages == 0)) [
  | inl z ↦
      let rest = find_region-index rs addr r (ground arith) in (suc rest.0, rest.1, rest.2, rest.3)
  | inr nz ↦ elim (Bool-cases (leb q.phys_start addr && ltb addr q.phys_end)) [
    | inl hit ↦ (0, ground arith, ground arith, ground arith)
    | inr miss ↦
        let rest = find_region-index rs addr r (ground arith) in
        (suc rest.0, rest.1, rest.2, rest.3)
  ]
]

-- Where the ranges do not overlap, the address of a region's page leads back to that region.
pub find_region-page :
    (rs : List Region)
    → AllFit rs
    → RangesApart rs
    → (k : ℕ) (r : Region) → get_elem? rs k ≡ some r
    → (p : ℕ) → p < r.total_pages
    → find_region rs (r.phys_start + p * 4096) ≡ some r
unfolding find_region
find_region-page [] fits apart k r at p h = absurd (ground arith)
find_region-page (q ∷ rs) fits apart zero r at p h =
    let same : q ≡ r = ground arith in rw same (ground (arith, (fits 0 r at).range))
find_region-page (q ∷ rs) fits apart (suc k) r at p h = ground (
  arith,
  (fits (suc k) r at).range,
  apart 0 (suc k) q r refl at (omega arith),
  find_region-page rs (λ j. fits (suc j))
      (λ i j a b ha hb ne. apart (suc i) (suc j) a b ha hb (omega arith)) k r at p h,
)

-- What a successful `pmm_free_page` has done.
pub record Freed (s : Pmm) (addr : ℕ) (s' : Pmm) : Type 0 where
  pub index : ℕ
  pub region : Region
  pub at : get_elem? s.regions index ≡ some region
  pub found : find_region s.regions addr ≡ some region
  pub low : region.reserved_pages ≤ (addr - region.phys_start) / 4096
  pub high : (addr - region.phys_start) / 4096 < region.total_pages
  pub was_set : test_bit s.mem region ((addr - region.phys_start) / 4096) ≡ true
  pub done : s' ≡ record s {
    mem = clear_bit s.mem region ((addr - region.phys_start) / 4096);
    used_pages = sub64 s.used_pages 1;
  }

pub free_page-Freed : (addr : ℕ) (s : Pmm) {s' : Pmm} → free_page addr s ≡ ok s' → Freed s addr s'
unfolding free_page
free_page-Freed addr s {s'} h = elim (Option-cases (find_region s.regions addr)) [
  | inl e ↦ absurd (ground arith)
  | inr (r, e) ↦
      let w = find_region-index s.regions addr r e in
      record {
        index = w.0;
        region = r;
        at = w.1;
        found = e;
        low = ground arith;
        high = ground arith;
        was_set = ground arith;
        done = ground arith;
      }
]

-- A successful call keeps the invariant and counts one page less as used.
pub free_page-IsValid :
    (addr : ℕ) {s s' : Pmm}
    → IsValid s
    → free_page addr s ≡ ok s'
    → IsValid s' × (s'.used_pages + 1 ≡ s.used_pages)
free_page-IsValid addr {s} {s'} v h =
    let f = free_page-Freed addr s h in
    let p = (addr - f.region.phys_start) / 4096 in
    let m = marked-clear v f.index f.region f.at p f.high f.was_set in
    let used : sub64 s.used_pages 1 + 1 ≡ s.used_pages =
      omega (arith, v.counted, v.small, m, marked-le s.mem s.regions) in
    rw f.done (
      record {
        bytes = clear_bit-IsBytes s.mem f.region p v.bytes;
        fits = v.fits;
        apart = v.apart;
        cursor = v.cursor;
        few = v.few;
        counted = omega (arith, used, m, v.counted);
        small = v.small;
      },
      used,
    )

-- From a valid state, an address that was freed cannot be freed again at once: the second call panics.
pub free_page-free_page :
    (addr : ℕ) {s s' : Pmm} → IsValid s → free_page addr s ≡ ok s' → free_page addr s' ≡ panic
unfolding free_page
free_page-free_page addr {s} {s'} v h =
    let f = free_page-Freed addr s h in
    let p = (addr - f.region.phys_start) / 4096 in
    rw f.done (ground (arith, f.found, test-clear s.mem f.region p v.bytes p, ==_refl p))

abbrev pub SameBits : Pmm → Pmm → Type 0
SameBits s t =
    (j : ℕ) (q : Region)
    → get_elem? s.regions j ≡ some q
    → (i : ℕ) → i < q.total_pages
    → test_bit t.mem q i ≡ test_bit s.mem q i

free_page-ok :
    (s : Pmm) (addr : ℕ) (r : Region) (p : ℕ)
    → find_region s.regions addr ≡ some r
    → (addr - r.phys_start) / 4096 ≡ p
    → r.reserved_pages ≤ p
    → p < r.total_pages
    → test_bit s.mem r p ≡ true
    → free_page addr s
      ≡ ok (record s { mem = clear_bit s.mem r p; used_pages = sub64 s.used_pages 1 })
unfolding free_page
free_page-ok s addr r p found idx low high bit = ground arith

-- The state after the page `p` of region `k` was taken and given back.
undone : Pmm → ℕ → Region → ℕ → Pmm
undone s k r p =
    let t = (take_page s k r p).1 in
    record t { mem = clear_bit t.mem r p; used_pages = sub64 t.used_pages 1 }

module _ {s : Pmm} (v : IsValid s) (apart : RangesApart s.regions) (t : ℕ) (r : Region) (p : ℕ)
    (at : get_elem? s.regions t ≡ some r) (low : r.reserved_pages ≤ p) (high : p < r.total_pages)
    (clear : test_bit s.mem r p ≡ false) where
  undone-ok : free_page (take_page s t r p).0 (take_page s t r p).1 ≡ ok (undone s t r p)
  unfolding undone take_page
  undone-ok =
      free_page-ok (take_page s t r p).1 (r.phys_start + p * 4096) r p
        (find_region-page s.regions v.fits apart t r at p high) (omega arith) low high
        (ground (arith, OneMoreBit-take_page v t r p at high t r at p high, ==_refl t, ==_refl p))

  undone-bits : SameBits s (undone s t r p)
  unfolding undone take_page
  undone-bits j q at' i hi =
      let w = take_page-IsValid v t r at p high clear in
      elim (Bool-cases (j == t)) [
        | inl e ↦
            let same : q ≡ r = ground arith in
            rw same (
              ground (
                arith,
                test-clear (take_page s t r p).1.mem r p w.bytes i,
                OneMoreBit-take_page v t r p at high t r at i,
                clear,
                ==→eq p i,
              ))
        | inr ne ↦
            same_clear w t r at p high j q at' (==→ne j t ne) i hi
            ∙ ground (arith, OneMoreBit-take_page v t r p at high j q at' i hi)
      ]

  undone-used : (undone s t r p).used_pages ≡ s.used_pages
  unfolding undone take_page
  undone-used =
      let w = take_page-IsValid v t r at p high clear in
      omega (arith, v.counted, v.small, marked-le s.mem s.regions)

-- In a valid state whose regions have disjoint address ranges, freeing the page that was just taken
-- succeeds, and brings back every bit of every region and the number of used pages.
pub free_page-alloc_page :
    {s : Pmm} {a : ℕ} {s' : Pmm}
    → IsValid s
    → RangesApart s.regions
    → alloc_page s ≡ ok (a, s')
    → (u : Pmm) × (free_page a s' ≡ ok u) × SameBits s u × (u.used_pages ≡ s.used_pages)
free_page-alloc_page {s} v apart h =
    let t = alloc_page-Took s h in
    let goal = λ (x : ℕ × Pmm).
      (u : Pmm) × (free_page x.0 x.1 ≡ ok u) × SameBits s u × (u.used_pages ≡ s.used_pages) in
    subst goal t.done (
      undone s t.index t.region t.page,
      undone-ok v apart t.index t.region t.page t.at t.low t.high t.was_clear,
      undone-bits v apart t.index t.region t.page t.at t.low t.high t.was_clear,
      undone-used v apart t.index t.region t.page t.at t.low t.high t.was_clear,
    )
