-- ===== src/Fat/Mkdir.antt =====
-- `fat_mkdir` of kernel/fat.c.
use neptune_os.Common.{
  replicate, if◌then◌else◌, add32, ℕ, zero, suc, true, not, none, some, List, ◌∷◌,
}
use neptune_os.Fat.{
  Disk, Fat, Step, ◌>>=◌, ◌>>◌, return, fail, cluster_to_sector, read_sector, write_sector,
  fat_alloc_cluster,
}
use neptune_os.Fat.Names.{space, dot}
use neptune_os.Fat.Dir.{
  either, Found, entry, free_at, missing, endless, dir_find_entry, dir_write_entry, put_bytes,
}
use neptune_os.Fat.Walk.{new_entry, fat_find_parent}

module _ {S : Type 0} (disk : Disk S) (f : Fat) where
  -- The loop of `zero_cluster`, with `rounds` sectors left.
  unfoldable pub zero_sectors : ℕ → ℕ → Step S (Unit {0})
  unfolding write_sector
  zero_sectors zero lba = return tt
  zero_sectors (suc rounds) lba = do
    write_sector disk f lba (replicate f.bytes_per_sector 0)
    zero_sectors rounds (add32 lba 1)

  unfoldable pub zero_cluster : ℕ → Step S (Unit {0})
  unfolding zero_sectors cluster_to_sector
  zero_cluster cluster = zero_sectors f.sectors_per_cluster (cluster_to_sector f cluster)

  unfoldable pub init_dir_cluster : ℕ → ℕ → Step S (Unit {0})
  unfolding zero_cluster read_sector write_sector put_bytes new_entry
  init_dir_cluster cluster parent = do
    zero_cluster cluster
    sector ← read_sector disk f (cluster_to_sector f cluster)
    let own = new_entry (dot ∷ replicate 10 space) 0x10 cluster 0
    let up = new_entry (dot ∷ dot ∷ replicate 9 space) 0x10 parent 0
    write_sector disk f (cluster_to_sector f cluster) (put_bytes (put_bytes sector 0 own) 32 up)

  unfoldable pub make_dir : ℕ → List ℕ → Found → Step S (Unit {0})
  unfolding fat_alloc_cluster dir_write_entry init_dir_cluster new_entry
  make_dir parent name (entry found) = if found.is_dir then return tt else fail
  make_dir parent name (free_at loc) = do
    cluster ← fat_alloc_cluster disk f
    dir_write_entry disk f loc (new_entry name 0x10 cluster 0)
    init_dir_cluster cluster parent
  make_dir parent name missing = fail
  make_dir parent name endless = fail

  unfoldable pub fat_mkdir : List ℕ → Step S (Unit {0})
  unfolding fat_find_parent make_dir dir_find_entry
  fat_mkdir path s = if not f.ready then (none, s) else (elim (fat_find_parent disk f path s) [
    | none ↦ (none, s)
    | some (parent, name) ↦ make_dir parent name (dir_find_entry disk f parent name either true s) s
  ])
