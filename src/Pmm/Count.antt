-- ===== src/Pmm/Count.antt =====
-- How many pages of the regions of kernel/mem.c are marked, and how one bit changes that number.
use neptune_os.Common.{
  get_elem?, ◌==◌, if◌then◌else◌, Bool-cases, IsBytes, ℕ, zero, suc, ◌+◌, ◌≤◌, ◌<◌, ◌≡◌, refl, ◌≢◌,
  inl, inr, true, false, some, List, [], ◌∷◌, arith,
}
use neptune_os.Pmm.{Region, set_bit, clear_bit, test_bit}
use neptune_os.Pmm.Bits.{test-set, test-clear}

unfoldable pub count_bits : (ℕ → ℕ) → Region → ℕ → ℕ
count_bits mem r zero = 0
count_bits mem r (suc n) = count_bits mem r n + (if test_bit mem r n then 1 else 0)

unfoldable pub marked : (ℕ → ℕ) → List Region → ℕ
unfolding count_bits
marked mem [] = 0
marked mem (r ∷ rs) = count_bits mem r r.total_pages + marked mem rs

unfoldable pub pages : List Region → ℕ
pages [] = 0
pages (r ∷ rs) = r.total_pages + pages rs

pub count_bits-le : (mem : ℕ → ℕ) (r : Region) (n : ℕ) → count_bits mem r n ≤ n
unfolding count_bits
count_bits-le mem r zero = omega arith
count_bits-le mem r (suc n) = ground (arith, count_bits-le mem r n)

pub marked-le : (mem : ℕ → ℕ) (rs : List Region) → marked mem rs ≤ pages rs
unfolding marked pages
marked-le mem [] = omega arith
marked-le mem (r ∷ rs) = omega (arith, count_bits-le mem r r.total_pages, marked-le mem rs)

pub count_bits-same :
    (mem mem' : ℕ → ℕ) (r : Region) (n : ℕ)
    → ((j : ℕ) → j < n → test_bit mem' r j ≡ test_bit mem r j)
    → count_bits mem' r n ≡ count_bits mem r n
unfolding count_bits
count_bits-same mem mem' r zero h = refl
count_bits-same mem mem' r (suc n) h =
    rw (h n (omega arith), count_bits-same mem mem' r n (λ j p. h j (omega arith)))

module _ (mem : ℕ → ℕ) (r : Region) (i : ℕ) (bytes : IsBytes mem) where
  count_bits-set_above : (n : ℕ) → n ≤ i → count_bits (set_bit mem r i) r n ≡ count_bits mem r n
  count_bits-set_above n h =
      count_bits-same mem (set_bit mem r i) r n (λ j p. ground (arith, test-set mem r i bytes j))

  pub count_bits-set :
      test_bit mem r i ≡ false
      → (n : ℕ) → i < n
      → count_bits (set_bit mem r i) r n ≡ count_bits mem r n + 1
  unfolding count_bits
  count_bits-set c zero h = absurd (omega arith)
  count_bits-set c (suc n) h = elim (Bool-cases (i == n)) [
    | inl e ↦ ground (arith, test-set mem r i bytes n, count_bits-set_above n)
    | inr ne ↦ ground (arith, test-set mem r i bytes n, count_bits-set c n)
  ]

  count_bits-clear_above : (n : ℕ) → n ≤ i → count_bits (clear_bit mem r i) r n ≡ count_bits mem r n
  count_bits-clear_above n h =
      count_bits-same mem (clear_bit mem r i) r n
        (λ j p. ground (arith, test-clear mem r i bytes j))

  pub count_bits-clear :
      test_bit mem r i ≡ true
      → (n : ℕ) → i < n
      → count_bits (clear_bit mem r i) r n + 1 ≡ count_bits mem r n
  unfolding count_bits
  count_bits-clear c zero h = absurd (omega arith)
  count_bits-clear c (suc n) h = elim (Bool-cases (i == n)) [
    | inl e ↦ ground (arith, test-clear mem r i bytes n, count_bits-clear_above n)
    | inr ne ↦ ground (arith, test-clear mem r i bytes n, count_bits-clear c n)
  ]

-- A change of memory that leaves every region but the one at `k` alone moves the total by as much as
-- that region moves.
pub marked-change :
    (mem mem' : ℕ → ℕ) (rs : List Region) (k : ℕ) (r : Region)
    → get_elem? rs k ≡ some r
    → ((j : ℕ) (q : Region)
        → get_elem? rs j ≡ some q
        → j ≢ k
        → count_bits mem' q q.total_pages ≡ count_bits mem q q.total_pages)
    → marked mem' rs + count_bits mem r r.total_pages
      ≡ marked mem rs + count_bits mem' r r.total_pages
unfolding marked
marked-change mem mem' [] k r at same = cc
marked-change mem mem' (q ∷ rs) zero r at same =
    let e : q ≡ r = ground arith in rw (e, rest) (omega arith)
  where
    rest : marked mem' rs ≡ marked mem rs
    rest = go rs (λ j p at'. same (suc j) p at' (ground arith))
      where
        go :
            (ts : List Region)
            → ((j : ℕ) (p : Region)
                → get_elem? ts j ≡ some p
                → count_bits mem' p p.total_pages ≡ count_bits mem p p.total_pages)
            → marked mem' ts ≡ marked mem ts
        go [] h = refl
        go (t ∷ ts) h = rw (h 0 t refl, go ts (λ j. h (suc j)))
marked-change mem mem' (q ∷ rs) (suc k) r at same = omega (
  arith,
  same 0 q refl (omega arith),
  marked-change mem mem' rs k r at (λ j p at' ne. same (suc j) p at' (omega arith)),
)
