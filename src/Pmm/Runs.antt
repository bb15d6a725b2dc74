-- ===== src/Pmm/Runs.antt =====
-- `pmm_alloc_pages` of kernel/mem.c: a run of pages that follow one another.
use neptune_os.Common.{
  leb, ◌==◌, if◌then◌else◌, ==→eq, Bool-cases, add64, ℕ, zero, suc, ◌+◌, ◌-◌, ◌*◌, ◌≤◌, ◌<◌, ◌≡◌,
  refl, inl, inr, true, false, Option, none, some, List, [], ◌∷◌, arith,
}
use neptune_os.Pmm.{Region, Pmm, Run, ok, panic, set_bit, test_bit, alloc_page}

-- The loop over the pages of one region, with its variables `consecutive` and `start_run`.
unfoldable pub scan_run : (ℕ → ℕ) → Region → ℕ → ℕ → ℕ → ℕ → ℕ → Option ℕ
scan_run mem region n zero page consecutive start_run = none
scan_run mem region n (suc rounds) page consecutive start_run =
    let start = if consecutive == 0 then page else start_run in
    elim (test_bit mem region page) [
      | true ↦ scan_run mem region n rounds (page + 1) 0 start_run
      | false ↦ elim (consecutive + 1 == n) [
        | true ↦ some start
        | false ↦ scan_run mem region n rounds (page + 1) (consecutive + 1) start
      ]
    ]

-- `for (k = 0; k < n; ++k) set_bit(region, start_run + k);` with `k` rounds left.
unfoldable pub set_run : (ℕ → ℕ) → Region → ℕ → ℕ → ℕ → ℕ
set_run mem region page zero = mem
set_run mem region page (suc k) = set_run (set_bit mem region page) region (page + 1) k

unfoldable pub runs_loop : Pmm → ℕ → List Region → Run (ℕ × Pmm)
runs_loop s n [] = panic
runs_loop s n (region ∷ rest) =
    let next = runs_loop s n rest in
    if leb region.total_pages (region.reserved_pages + n)
    then next
    else (elim (scan_run s.mem region n (region.total_pages - region.reserved_pages)
        region.reserved_pages 0 0) [
          | none ↦ next
          | some start ↦ ok (
            region.phys_start + start * 4096,
            record s { mem = set_run s.mem region start n; used_pages = add64 s.used_pages n },
          )
        ])

unfoldable pub alloc_pages : ℕ → Pmm → Run (ℕ × Pmm)
alloc_pages n s =
    if n == 0 then ok (0, s) else (if n == 1 then alloc_page s else runs_loop s n s.regions)

-- The pages from `start` up to `page` are clear.
abbrev pub ClearRun : (ℕ → ℕ) → Region → ℕ → ℕ → Type 0
ClearRun mem r start page = (p : ℕ) → start ≤ p → p < page → test_bit mem r p ≡ false

module _ (mem : ℕ → ℕ) (r : Region) (n : ℕ) where
  ClearRun-suc :
      (start page : ℕ)
      → ClearRun mem r start page
      → test_bit mem r page ≡ false
      → ClearRun mem r start (page + 1)
  ClearRun-suc start page run e p lo hi = elim (Bool-cases (p == page)) [
    | inl here ↦ rw (==→eq p page here) e
    | inr other ↦ run p lo (ground arith)
  ]

  -- `eff` is where the run of clear pages that ends before `page` starts.
  pub scan_run-clear :
      (rounds page c start eff : ℕ)
      → eff ≡ (if c == 0 then page else start)
      → eff + c ≡ page
      → r.reserved_pages ≤ eff
      → ClearRun mem r eff page
      → c < n
      → (out : ℕ) → scan_run mem r n rounds page c start ≡ some out
      → (r.reserved_pages ≤ out) × (out + n ≤ page + rounds) × ClearRun mem r out (out + n)
  unfolding scan_run
  scan_run-clear zero page c start eff ee sum low run small out h = absurd (ground arith)
  scan_run-clear (suc rounds) page c start eff ee sum low run small out h =
      elim (Bool-cases (test_bit mem r page)) [
        | inl e ↦
            let ih =
              scan_run-clear rounds (page + 1) 0 start (page + 1) refl (omega arith) (omega arith)
                (λ p lo hi. absurd (omega arith)) (omega arith) out (ground arith) in
            (ih.0, omega (arith, ih.1), ih.2)
        | inr e ↦
            let more = ClearRun-suc eff page run e in
            elim (Bool-cases (c + 1 == n)) [
              | inl full ↦
                  let here : out ≡ eff = ground arith in
                  let end : eff + n ≡ page + 1 = ground arith in
                  rw here (low, omega (arith, end), λ p lo hi. more p lo (omega (arith, end)))
              | inr part ↦
                  let ih =
                    scan_run-clear rounds (page + 1) (c + 1) eff eff (ground arith) (omega arith)
                      low more (ground arith) out (ground arith) in
                  (ih.0, omega (arith, ih.1), ih.2)
            ]
      ]
