-- ===== src/Fat/Whole.antt =====
-- What `fat_read` of kernel/fat.c returns, against the chain of clusters of a file.
use neptune_os.Common.{
  length, get_or, add64, ℕ, ◌+◌, ◌-◌, ◌%◌, ◌^◌, ◌≤◌, ◌<◌, min, ◌≡◌, some, List, arith,
}
use neptune_os.Fat.{Disk, Fat, FatFile, u16}
use neptune_os.Fat.Read.{fat_read}
use neptune_os.Fat.Table.{DiskLaws}
use neptune_os.Fat.Chain.{Holds, Stops}
use neptune_os.Fat.Follow.{Ends-Stops}
use neptune_os.Fat.Places.{fat_read-Placed}

-- The bytes are at most `len`, and stand from place `p` of the chain from `c` on; where they are fewer, the
-- chain stops before the place behind them.
pub record Reads {S : Type 0} (disk : Disk S) (f : Fat) (s : S) (c p len : ℕ) (bytes : List ℕ)
    : Type 0 where
  pub bounded : length bytes ≤ len
  pub held : (i : ℕ) → i < length bytes → Holds disk f s c (p + i) (get_or bytes i 0)
  pub whole : length bytes < len → Stops disk f s c (p + length bytes)

-- On a lawful disk with sectors of 512 bytes, `fat_read` at a 64-bit offset returns bytes
-- that stand, in order, from the offset on in the chain of clusters that the entries of the table make, at
-- most as many as were asked for and as the file's size leaves; where they are fewer, the chain stops
-- before the place behind the last of them: at a cluster number below 2, at an entry that is 0 or at least
-- 0xFFF8, or at a sector of the table that cannot be read. The offset moves behind them.
pub fat_read-Reads :
    {S : Type 0} {disk : Disk S} (f : Fat) (laws : DiskLaws disk) (bps : f.bytes_per_sector ≡ 512)
    (s : S) (file : FatFile) (offset len : ℕ) (bytes : List ℕ) (after : ℕ)
    → 0 < f.sectors_per_cluster
    → offset < 2 ^ 64
    → fat_read disk f s file offset len ≡ some (bytes, after)
    → (after ≡ add64 offset (length bytes))
      × Reads disk f s (file.start_cluster % u16) offset (min len (file.size - offset)) bytes
fat_read-Reads {disk = disk} f laws bps s file offset len bytes after pos word e =
    let (moved, r) = fat_read-Placed f laws bps s file offset len bytes after pos word e in
    (
      moved,
      record {
        bounded = r.bounded;
        held = r.held;
        whole = λ lt.
            Ends-Stops disk f bps s (offset + length bytes) (file.start_cluster % u16)
              (offset + length bytes) (omega arith) pos (r.whole lt);
      },
    )
