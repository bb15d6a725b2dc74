-- ===== src/Pmm/Bits.antt =====
-- Single bits of the bitmaps of kernel/mem.c.
use neptune_os.Common.{
  ℕ, ◌+◌, ◌*◌, ◌%◌, ◌≤◌, ◌<◌, ◌≡◌, ◌⊎◌, not, ◌&&◌, ◌||◌, ◌==◌, arith, IsBytes, byte_test-set,
  byte_test-clear, byte_set-lt, byte_clear-lt,
}
use neptune_os.Pmm.{Region, bitmap_addr, set_bit, clear_bit, test_bit}

-- Two regions whose bitmaps do not overlap.
abbrev pub Apart : Region → Region → Type 0
Apart r q =
    (r.bitmap_phys + r.bitmap_bytes ≤ q.bitmap_phys)
    ⊎ (q.bitmap_phys + q.bitmap_bytes ≤ r.bitmap_phys)

module _ (mem : ℕ → ℕ) (r : Region) (i : ℕ) (bytes : IsBytes mem) where
  pub set_bit-IsBytes : IsBytes (set_bit mem r i)
  unfolding set_bit
  set_bit-IsBytes a = ground (arith, bytes a, byte_set-lt (mem (bitmap_addr r i)) (i % 8))

  pub clear_bit-IsBytes : IsBytes (clear_bit mem r i)
  unfolding clear_bit
  clear_bit-IsBytes a = ground (
    arith,
    bytes a,
    byte_clear-lt (mem (bitmap_addr r i)) (i % 8) (bytes (bitmap_addr r i)) (omega arith),
  )

  pub test-set : (j : ℕ) → test_bit (set_bit mem r i) r j ≡ ((i == j) || test_bit mem r j)
  unfolding set_bit test_bit
  test-set j = ground (
    arith,
    byte_test-set (mem (bitmap_addr r i)) (i % 8) (j % 8) (bytes (bitmap_addr r i)) (omega arith)
        (omega arith),
  )

  pub test-clear : (j : ℕ) → test_bit (clear_bit mem r i) r j ≡ (not (i == j) && test_bit mem r j)
  unfolding clear_bit test_bit
  test-clear j = ground (
    arith,
    byte_test-clear (mem (bitmap_addr r i)) (i % 8) (j % 8) (bytes (bitmap_addr r i)) (omega arith)
        (omega arith),
  )

module _ (mem : ℕ → ℕ) (r q : Region) (i j : ℕ) (apart : Apart r q) (hi : i < 8 * r.bitmap_bytes)
    (hj : j < 8 * q.bitmap_bytes) where
  pub test-set_other : test_bit (set_bit mem r i) q j ≡ test_bit mem q j
  unfolding set_bit test_bit
  test-set_other = ground arith

  pub test-clear_other : test_bit (clear_bit mem r i) q j ≡ test_bit mem q j
  unfolding clear_bit test_bit
  test-clear_other = ground arith
