-- ===== src/Fat/Layer.antt =====
-- The block layer of kernel/block.c under kernel/fat.c: a device that keeps what is written to it makes a
-- disk that does.
use neptune_os.Common.{ℕ, inr}
use neptune_os.Block.{Devices}
use neptune_os.Block.Coherent.{Laws}
use neptune_os.Fat.{Disk}
use neptune_os.Fat.Table.{DiskLaws}

-- `read_sector` and the writes of kernel/fat.c, at device `dev`.
unfoldable pub block_disk : {S : Type 0} → Devices S → ℕ → Disk S
block_disk ops dev = record {
  read = λ lba s. ops.read dev lba 1 s;
  write = λ lba buf s. ops.write dev lba 1 buf s;
}

pub block_disk-DiskLaws :
    {S : Type 0} (ops : Devices S) (dev : ℕ) → Laws ops → DiskLaws (block_disk ops dev)
unfolding block_disk
block_disk-DiskLaws ops dev laws = record {
  read-write = λ lba buf s s' n w. laws.read-write dev lba buf s s' n w;
  read-write_other =
      λ lba lba' buf s s' n w ne. laws.read-write_other dev lba dev lba' buf s s' n w (inr ne);
  length-read = λ lba s {buf} r. laws.length-read dev lba s r;
}
