-- ===== src/Pmm/RunsLaws.antt =====
-- What `pmm_alloc_pages` of kernel/mem.c takes.
use neptune_os.Common.{
  get_elem?, ltb, leb, ◌==◌, ==→eq, Bool-cases, Option-cases, add64, ℕ, zero, suc, ◌+◌, ◌-◌, ◌*◌,
  ◌≤◌, ◌<◌, ◌≡◌, refl, ◌∙◌, inl, inr, ◌&&◌, ◌||◌, some, List, [], ◌∷◌, arith,
}
use neptune_os.Pmm.Count.{marked-le}
use neptune_os.Pmm.{Region, Pmm, ok, test_bit, take_page}
use neptune_os.Pmm.Inv.{IsValid}
use neptune_os.Pmm.Keeps.{OneMoreBit-take_page, take_page-IsValid, used_take_page}
use neptune_os.Pmm.Runs.{set_run, scan_run, ClearRun, scan_run-clear, runs_loop, alloc_pages}

-- The state after `k` pages from `page` on were marked.
abbrev pub ran : Pmm → Region → ℕ → ℕ → Pmm
ran s r page k = record s { mem = set_run s.mem r page k; used_pages = add64 s.used_pages k }

-- The bits of `s'` are those of `s`, with those of the `n` pages from `p` on of region `k` set.
abbrev pub RunMoreBits : Pmm → Pmm → ℕ → ℕ → ℕ → Type 0
RunMoreBits s s' k p n =
    (j : ℕ) (q : Region)
    → get_elem? s.regions j ≡ some q
    → (i : ℕ) → i < q.total_pages
    → test_bit s'.mem q i ≡ ((j == k) && leb p i && ltb i (p + n) || test_bit s.mem q i)

ran-IsValid :
    (k : ℕ) (s : Pmm) (index : ℕ) (r : Region) (page : ℕ)
    → IsValid s
    → get_elem? s.regions index ≡ some r
    → page + k ≤ r.total_pages
    → ClearRun s.mem r page (page + k)
    → IsValid (ran s r page k)
      × RunMoreBits s (ran s r page k) index page k
      × ((ran s r page k).used_pages ≡ s.used_pages + k)
unfolding set_run take_page
ran-IsValid zero s index r page v at fits run =
    let used : add64 s.used_pages 0 ≡ s.used_pages =
      omega (arith, v.counted, v.small, marked-le s.mem s.regions) in
    (
      record {
        bytes = v.bytes;
        fits = v.fits;
        apart = v.apart;
        cursor = v.cursor;
        few = v.few;
        counted = used ∙ v.counted;
        small = v.small;
      },
      λ j q at' i hi. ground arith,
      used ∙ omega arith,
    )
ran-IsValid (suc k) s index r page v at fits run =
    let t = (take_page s index r page).1 in
    let c = run page (omega arith) (omega arith) in
    let w = take_page-IsValid v index r at page (omega arith) c in
    let one = OneMoreBit-take_page v index r page at (omega arith) in
    let ih =
      ran-IsValid k t index r (page + 1) w at (omega arith)
        (λ p lo hi. ground (arith, one index r at p, run p, ==→eq page p)) in
    let used : (ran s r page (suc k)).used_pages ≡ s.used_pages + suc k = omega (
      arith,
      ih.2,
      used_take_page v index r at page (omega arith) c,
      ih.0.counted,
      marked-le (ran t r (page + 1) k).mem s.regions,
      v.small,
    ) in
    (
      record {
        bytes = ih.0.bytes;
        fits = v.fits;
        apart = v.apart;
        cursor = v.cursor;
        few = v.few;
        counted =
            omega
              (arith, used, ih.2, ih.0.counted, used_take_page v index r at page (omega arith) c);
        small = v.small;
      },
      λ j q at' i hi. ground (arith, ih.1 j q at' i hi, one j q at' i hi),
      used,
    )

-- The run that the loop found, in one of the regions `rs`.
record FoundRun (s : Pmm) (n : ℕ) (rs : List Region) (a : ℕ) (s' : Pmm) : Type 0 where
  index : ℕ
  region : Region
  page : ℕ
  at : get_elem? rs index ≡ some region
  scan :
      scan_run s.mem region n (region.total_pages - region.reserved_pages) region.reserved_pages 0 0
      ≡ some page
  room : region.reserved_pages + n < region.total_pages
  addr : a ≡ region.phys_start + page * 4096
  state : s' ≡ ran s region page n

runs_loop-FoundRun :
    (s : Pmm) (n : ℕ) (rs : List Region) (a : ℕ) (s' : Pmm)
    → runs_loop s n rs ≡ ok (a, s')
    → FoundRun s n rs a s'
unfolding runs_loop
runs_loop-FoundRun s n [] a s' h = absurd (cc)
runs_loop-FoundRun s n (r ∷ rs) a s' h =
    elim (Bool-cases (leb r.total_pages (r.reserved_pages + n))) [
      | inl e ↦ later (runs_loop-FoundRun s n rs a s' (ground arith))
      | inr e ↦
          elim (Option-cases
            (scan_run s.mem r n (r.total_pages - r.reserved_pages) r.reserved_pages 0 0)) [
              | inl t ↦ later (runs_loop-FoundRun s n rs a s' (ground arith))
              | inr (p, t) ↦ record {
                index = 0;
                region = r;
                page = p;
                at = refl;
                scan = t;
                room = ground arith;
                addr = ground arith;
                state = ground arith;
              }
            ]
    ]
  where
    later : FoundRun s n rs a s' → FoundRun s n (r ∷ rs) a s'
    later f = record {
      index = suc f.index;
      region = f.region;
      page = f.page;
      at = f.at;
      scan = f.scan;
      room = f.room;
      addr = f.addr;
      state = f.state;
    }

-- A request for two or more pages that succeeds returns the address of the first of `n` pages of one
-- region, none of them reserved and all of them clear. Exactly their bits are set, `n` more pages are
-- counted as used, and the invariant is kept.
pub alloc_pages-RunMoreBits :
    (n : ℕ) {s : Pmm} {a : ℕ} {s' : Pmm}
    → IsValid s
    → 1 < n
    → alloc_pages n s ≡ ok (a, s')
    → (k : ℕ) × (r : Region) × (p : ℕ) × (get_elem? s.regions k ≡ some r)
      × (r.reserved_pages ≤ p)
      × (p + n ≤ r.total_pages)
      × (a ≡ r.phys_start + p * 4096)
      × ClearRun s.mem r p (p + n)
      × RunMoreBits s s' k p n
      × (s'.used_pages ≡ s.used_pages + n)
      × IsValid s'
unfolding alloc_pages
alloc_pages-RunMoreBits n {s} {a} {s'} v more h =
    let f = runs_loop-FoundRun s n s.regions a s' (ground arith) in
    let r = f.region in
    let c =
      scan_run-clear s.mem r n (r.total_pages - r.reserved_pages) r.reserved_pages 0 0
        r.reserved_pages refl (omega arith) (omega arith) (λ p lo hi. absurd (omega arith))
        (omega arith) f.page f.scan in
    let fits : f.page + n ≤ r.total_pages = omega (arith, c.1, f.room) in
    let w = ran-IsValid n s f.index r f.page v f.at fits c.2 in
    rw f.state (f.index, r, f.page, f.at, c.0, fits, f.addr, c.2, w.1, w.2, w.0)
