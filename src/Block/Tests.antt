-- ===== src/Block/Tests.antt =====
-- The cache of kernel/block.c over a RAM disk of zeros.
use neptune_os.Common.{replicate, ℕ, ◌≡◌, refl, ◌⊎◌, true, false, none, some, [], arith}
use neptune_os.Block.{Block, block_read, block_write}
use neptune_os.Block.Coherent.{IsCoherent, block_read-read, block_write-write}
use neptune_os.Block.Ramdisk.{ramdisk, ramdisk-Laws}

abbrev blank : Block (ℕ → ℕ)
blank = record {
  devices = λ _. 0;
  cache = λ _. record { dev = 0; lba = 0; bytes = []; valid = false };
}

blank-IsCoherent : IsCoherent ramdisk ramdisk-Laws blank
blank-IsCoherent i v = absurd (cc)

block_read-read_example :
    let (out, b') = block_read ramdisk 1 20 1 blank in
    (out ≡ ramdisk.read 1 20 1 blank.devices)
    × (b'.devices ≡ blank.devices)
    × IsCoherent ramdisk ramdisk-Laws b'
block_read-read_example =
    block_read-read ramdisk ramdisk-Laws 1 20 1 blank blank-IsCoherent (omega arith)

block_write-write_example :
    let (done, b') = block_write ramdisk 1 20 1 (replicate 512 7) blank in
    IsCoherent ramdisk ramdisk-Laws b'
    × (((done ≡ true) × (ramdisk.write 1 20 1 (replicate 512 7) blank.devices ≡ some b'.devices))
        ⊎ ((done ≡ false)
            × (ramdisk.write 1 20 1 (replicate 512 7) blank.devices ≡ none)
            × (b' ≡ blank)))
block_write-write_example =
    block_write-write ramdisk ramdisk-Laws 1 20 (replicate 512 7) blank blank-IsCoherent
      (omega arith) refl
