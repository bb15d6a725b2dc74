-- ===== src/Fat/Tests.antt =====
-- A small FAT16 volume of kernel/fat.c on the RAM disk.
use neptune_os.Common.{
  get_or, leb, ◌==◌, if◌then◌else◌, add64, ℕ, ◌-◌, ◌≡◌, refl, true, false, some, List, [], ◌∷◌,
  arith,
}
use neptune_os.Fat.Dir.{entry, file, dir_find_entry}
use neptune_os.Fat.Search.{dir_find_entry-Sound, Sound}
use neptune_os.Block.Ramdisk.{slice, ramdisk_read, ramdisk_write, ramdisk, ramdisk-Laws}
use neptune_os.Fat.{Disk, Fat, FatFile, fat_alloc_cluster}
use neptune_os.Fat.Names.{build_short_name, format_name}
use neptune_os.Fat.Read.{fat_read}
use neptune_os.Fat.Table.{DiskLaws, IsMounted, Taken, fat_alloc_cluster-Taken}
use neptune_os.Fat.Layer.{block_disk, block_disk-DiskLaws}
use neptune_os.Fat.Whole.{Reads, fat_read-Reads}

abbrev volume : Disk (ℕ → ℕ)
volume = block_disk ramdisk 1

volume-DiskLaws : DiskLaws volume
unfolding block_disk
volume-DiskLaws = block_disk-DiskLaws ramdisk 1 ramdisk-Laws

-- One sector for each cluster, the table in sector 1 and the first cluster in sector 3.
abbrev geometry : Fat
geometry = record {
  bytes_per_sector = 512;
  sectors_per_cluster = 1;
  reserved_sectors = 1;
  fat_count = 1;
  root_entries = 16;
  fat_size = 1;
  total_sectors = 32;
  root_dir_sectors = 1;
  fat_start = 1;
  root_start = 2;
  data_start = 3;
  cluster_count = 20;
  ready = true;
}

-- Cluster 2 holds `Hi` and is the last of its chain.
abbrev bytes : ℕ → ℕ
bytes a =
    if a == 516
    then 255
    else (if a == 517 then 255 else (if a == 1536 then 72 else (if a == 1537 then 105 else 0)))

abbrev greeting : FatFile
greeting = record {
  start_cluster = 2;
  size = 2;
  dir_sector = 2;
  dir_offset = 0;
  is_dir = false;
  attr = 32;
}

read_test : fat_read volume geometry bytes greeting 0 9 ≡ some (72 ∷ 105 ∷ [], 2)
unfolding fat_read block_disk ramdisk_read slice
read_test = refl

name_test :
    build_short_name (97 ∷ 46 ∷ 116 ∷ [])
    ≡ some (65 ∷ 32 ∷ 32 ∷ 32 ∷ 32 ∷ 32 ∷ 32 ∷ 32 ∷ 84 ∷ 32 ∷ 32 ∷ [])
unfolding build_short_name
name_test = refl

format_test :
    format_name (65 ∷ 32 ∷ 32 ∷ 32 ∷ 32 ∷ 32 ∷ 32 ∷ 32 ∷ 84 ∷ 32 ∷ 32 ∷ 7 ∷ []) 16
    ≡ 65 ∷ 46 ∷ 84 ∷ []
unfolding format_name
format_test = refl

fat_read-Reads_example : (2 ≡ add64 0 2) × Reads volume geometry bytes 2 0 2 (72 ∷ 105 ∷ [])
fat_read-Reads_example =
    fat_read-Reads geometry volume-DiskLaws refl bytes greeting 0 9 (72 ∷ 105 ∷ []) 2 (omega arith)
      (omega arith) read_test

geometry-IsMounted : IsMounted geometry
geometry-IsMounted = record { sector_bytes = refl; table_low = omega arith; numbered = omega arith }

abbrev allocated : ℕ → ℕ
unfolding fat_alloc_cluster block_disk
allocated = (fat_alloc_cluster volume geometry bytes).1

alloc_test : fat_alloc_cluster volume geometry bytes ≡ (some 3, allocated)
unfolding fat_alloc_cluster block_disk ramdisk_read slice ramdisk_write
alloc_test = refl

fat_alloc_cluster-Taken_example : Taken volume-DiskLaws geometry-IsMounted bytes allocated 2 22 3
fat_alloc_cluster-Taken_example =
    fat_alloc_cluster-Taken volume-DiskLaws geometry-IsMounted bytes allocated 3 alloc_test

-- The root directory holds a deleted entry and the entry of the file `A.T`.
abbrev row : List ℕ
row =
    65 ∷ 32 ∷ 32 ∷ 32 ∷ 32 ∷ 32 ∷ 32 ∷ 32 ∷ 84 ∷ 32 ∷ 32 ∷ 32 ∷ 0 ∷ 0 ∷ 0 ∷ 0 ∷ 0 ∷ 0 ∷ 0 ∷ 0 ∷ 0
    ∷ 0 ∷ 0 ∷ 0 ∷ 0 ∷ 0 ∷ 2 ∷ 0 ∷ 2 ∷ 0 ∷ 0 ∷ 0 ∷ []

abbrev populated : ℕ → ℕ
populated a = if a == 1024 then 0xE5 else (if leb 1056 a then get_or row (a - 1056) 0 else bytes a)

abbrev name : List ℕ
name = 65 ∷ 32 ∷ 32 ∷ 32 ∷ 32 ∷ 32 ∷ 32 ∷ 32 ∷ 84 ∷ 32 ∷ 32 ∷ []

find_test :
    dir_find_entry volume geometry 0 name file true populated
    ≡ entry (record {
      start_cluster = 2;
      size = 2;
      dir_sector = 2;
      dir_offset = 32;
      is_dir = false;
      attr = 32;
    })
unfolding dir_find_entry block_disk ramdisk_read slice
find_test = refl

dir_find_entry-Sound_example :
    Sound volume populated name file true
      (dir_find_entry volume geometry 0 name file true populated)
dir_find_entry-Sound_example = dir_find_entry-Sound volume geometry 0 name file true populated
