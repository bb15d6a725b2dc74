-- ===== src/Fat.antt =====
-- kernel/fat.c, the FAT16 file system: the boot sector and the allocation table. Files below this one
-- model names, directories, reading and writing.
-- A sector is the list of its bytes. The block layer is an argument, `Disk`: what kernel/block.c reads and
-- writes at one device, whose cache cannot be seen (Block.Coherent). `none` is the result -1, and the
-- disk stays where an operation fails after a write. Numbers are `uint32_t` unless a comment says
-- otherwise.
pub mod Names
pub mod Dir
pub mod Walk
pub mod Read
pub mod Write
pub mod Mkdir
pub mod Listing
pub mod Table
pub mod Chain
pub mod Skips
pub mod Whole
pub mod Follow
pub mod Places
pub mod Search
pub mod Entries
pub mod Layer
mod Tests
use neptune_os.Common.{
  get_or, set, ltb, leb, ◌==◌, if◌then◌else◌, u32, add32, sub32, ℕ, zero, suc, ◌+◌, ◌-◌, ◌*◌, ◌/◌,
  ◌%◌, ◌^◌, Bool, true, false, not, ◌||◌, Option, none, some, List,
}

abbrev pub min_clusters : ℕ
min_clusters = 4085

abbrev pub fat_eoc : ℕ
fat_eoc = 0xFFF8

abbrev pub u16 : ℕ
u16 = 2 ^ 16

-- `block_read` and `block_write` of one sector at `fat.dev`.
pub record Disk (S : Type 0) : Type 0 where
  pub read : ℕ → S → Option (List ℕ)
  pub write : ℕ → List ℕ → S → Option S

-- `struct fat_state` without the device.
pub record Fat : Type 0 where
  pub bytes_per_sector : ℕ
  pub sectors_per_cluster : ℕ
  pub reserved_sectors : ℕ
  pub fat_count : ℕ
  pub root_entries : ℕ
  pub fat_size : ℕ
  pub total_sectors : ℕ
  pub root_dir_sectors : ℕ
  pub fat_start : ℕ
  pub root_start : ℕ
  pub data_start : ℕ
  pub cluster_count : ℕ
  pub ready : Bool

-- `struct fat_file`
pub record FatFile : Type 0 where
  pub start_cluster : ℕ
  pub size : ℕ
  pub dir_sector : ℕ
  pub dir_offset : ℕ
  pub is_dir : Bool
  pub attr : ℕ

-- `struct dir_loc`
pub record DirLoc : Type 0 where
  pub sector : ℕ
  pub offset : ℕ

-- A step that may fail, over the disk's state, which stays as a failed step leaves it.
abbrev pub Step : Type 0 → Type 0 → Type 0
Step S A = S → Option A × S

abbrev pub and_then : {S A B : Type 0} → (A → Step S B) → Option A × S → Option B × S
and_then k (none, s) = (none, s)
and_then k (some a, s) = k a s

infixl 5 ◌>>=◌ ◌>>◌
abbrev pub ◌>>=◌ : {S A B : Type 0} → Step S A → (A → Step S B) → Step S B
◌>>=◌ m k s = and_then k (m s)

abbrev pub ◌>>◌ : {S B : Type 0} → Step S (Unit {0}) → Step S B → Step S B
m >> k = m >>= λ _. k

abbrev pub return : {S A : Type 0} → A → Step S A
return a s = (some a, s)

abbrev pub fail : {S A : Type 0} → Step S A
fail s = (none, s)

-- The bytes of little-endian words at offset `at` of a buffer. The shifted bytes have no bit in common,
-- so `|` is `+`.
unfoldable pub read_u16 : List ℕ → ℕ → ℕ
read_u16 buf at = get_or buf at 0 + get_or buf (at + 1) 0 * 256

unfoldable pub read_u32 : List ℕ → ℕ → ℕ
read_u32 buf at =
    get_or buf at 0
    + get_or buf (at + 1) 0 * 256
    + get_or buf (at + 2) 0 * 2 ^ 16
    + get_or buf (at + 3) 0 * 2 ^ 24

-- The two bytes of a `uint16_t` and the four of a `uint32_t` as the code stores them.
unfoldable pub put_u16 : List ℕ → ℕ → ℕ → List ℕ
put_u16 buf at v = set (set buf at (v % 256)) (at + 1) (v / 256 % 256)

unfoldable pub put_u32 : List ℕ → ℕ → ℕ → List ℕ
put_u32 buf at v =
    set (set (set (set buf at (v % 256)) (at + 1) (v / 2 ^ 8 % 256)) (at + 2) (v / 2 ^ 16 % 256))
      (at + 3) (v / 2 ^ 24 % 256)

-- The fields that `fat_init` takes from the boot sector.
unfoldable pub boot_fields : List ℕ → Fat
unfolding read_u16 read_u32
boot_fields buf =
    let bytes_per_sector = read_u16 buf 11 in
    let sectors_per_cluster = get_or buf 13 0 in
    let reserved = read_u16 buf 14 in
    let fat_count = get_or buf 16 0 in
    let root_entries = read_u16 buf 17 in
    let total16 = read_u16 buf 19 in
    let total = if total16 == 0 then read_u32 buf 32 else total16 in
    let fat_size = read_u16 buf 22 in
    let root_dir_sectors = (root_entries * 32 + (bytes_per_sector - 1)) / bytes_per_sector in
    let root_start = (reserved + fat_count * fat_size) % u32 in
    let data_start = add32 root_start root_dir_sectors in
    record {
      bytes_per_sector = bytes_per_sector;
      sectors_per_cluster = sectors_per_cluster;
      reserved_sectors = reserved;
      fat_count = fat_count;
      root_entries = root_entries;
      fat_size = fat_size;
      total_sectors = total;
      root_dir_sectors = root_dir_sectors;
      fat_start = reserved;
      root_start = root_start;
      data_start = data_start;
      cluster_count = sub32 total data_start / sectors_per_cluster;
      ready = true;
    }

-- `fat_init`; where it fails the file system is not ready.
unfoldable pub fat_init : {S : Type 0} → Disk S → S → Option Fat
unfolding boot_fields
fat_init disk s = elim (disk.read 0 s) [
  | none ↦ none
  | some buf ↦
      let f = boot_fields buf in
      if not (f.bytes_per_sector == 512) || f.sectors_per_cluster == 0 || f.fat_size == 0
      then none
      else (if ltb f.cluster_count min_clusters then none else some f)
]

unfoldable pub is_end_cluster : ℕ → Bool
is_end_cluster value = leb fat_eoc value

-- `cluster - 2` is an `int`, which goes below zero.
unfoldable pub cluster_to_sector : Fat → ℕ → ℕ
cluster_to_sector f cluster = add32 f.data_start (sub32 cluster 2 * f.sectors_per_cluster % u32)

module _ {S : Type 0} (disk : Disk S) (f : Fat) where
  -- The sector of the table that holds a cluster's entry, and the entry's place in it.
  unfoldable pub table_sector : ℕ → ℕ
  table_sector cluster = add32 f.fat_start (cluster * 2 / f.bytes_per_sector)

  unfoldable pub table_offset : ℕ → ℕ
  table_offset cluster = cluster * 2 % f.bytes_per_sector

  unfoldable pub fat_next_cluster : ℕ → S → ℕ
  unfolding table_sector table_offset read_u16
  fat_next_cluster cluster s = elim (disk.read (table_sector cluster) s) [
    | none ↦ 0
    | some buf ↦ read_u16 buf (table_offset cluster)
  ]

  unfoldable pub write_sector : ℕ → List ℕ → Step S (Unit {0})
  write_sector lba buf s = elim (disk.write lba buf s) [
    | none ↦ (none, s)
    | some s' ↦ (some tt, s')
  ]

  unfoldable pub read_sector : ℕ → Step S (List ℕ)
  read_sector lba s = (disk.read lba s, s)

  unfoldable pub fat_set_cluster : ℕ → ℕ → Step S (Unit {0})
  unfolding table_sector table_offset read_sector write_sector put_u16
  fat_set_cluster cluster value = do
    buf ← read_sector (table_sector cluster)
    write_sector (table_sector cluster) (put_u16 buf (table_offset cluster) value)

  -- The loop of `fat_alloc_cluster`, with `rounds` clusters left. `none` is the result 0.
  unfoldable pub alloc_from : ℕ → ℕ → Step S ℕ
  unfolding fat_next_cluster fat_set_cluster
  alloc_from zero cluster s = (none, s)
  alloc_from (suc rounds) cluster s = elim (fat_next_cluster (cluster % u16) s == 0) [
    | true ↦ (fat_set_cluster (cluster % u16) fat_eoc >> return (cluster % u16)) s
    | false ↦ alloc_from rounds (cluster + 1) s
  ]

  unfoldable pub fat_alloc_cluster : Step S ℕ
  unfolding alloc_from
  fat_alloc_cluster = alloc_from (add32 f.cluster_count 2 - 2) 2
