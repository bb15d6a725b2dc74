-- ===== src/Fat/Dir.antt =====
-- Directories of kernel/fat.c: the search for an entry, and writing one.
use neptune_os.Common.{
  get_or, set, leb, ◌==◌, if◌then◌else◌, add32, ℕ, zero, suc, ◌+◌, ◌*◌, ◌/◌, ◌%◌, ◌^◌, Bool, true,
  false, not, ◌&&◌, ◌||◌, Option, none, some, List, [], ◌∷◌,
}
use neptune_os.Fat.{
  Disk, Fat, FatFile, DirLoc, Step, ◌>>=◌, read_u16, read_u32, is_end_cluster, cluster_to_sector,
  fat_next_cluster, read_sector, write_sector,
}

-- `want_dir` is -1, 0 or 1.
pub data Want : Type 0 where
  either file dir : Want

-- What `dir_find_entry` returns: 0 with the file, 1 with a free place, -1; and `endless` where the fuel
-- for a chain of clusters has run out.
pub data Found : Type 0 where
  entry : FatFile → Found
  free_at : DirLoc → Found
  missing endless : Found

-- The variables `seen`, `saw_free` and `free_loc`.
pub record Scan : Type 0 where
  pub seen : ℕ
  pub free_loc : Option DirLoc

pub data Verdict : Type 0 where
  goes_on : Scan → Verdict
  returns : Found → Verdict

-- `sector[idx + i] != name[i]` for the eleven characters.
unfoldable pub same_name : ℕ → List ℕ → ℕ → List ℕ → Bool
same_name zero sector at name = true
same_name (suc n) sector at [] = true
same_name (suc n) sector at (c ∷ name) = get_or sector at 0 == c && same_name n sector (at + 1) name

unfoldable pub skips_kind : Want → Bool → Bool
skips_kind either is_dir = false
skips_kind file is_dir = is_dir
skips_kind dir is_dir = not is_dir

unfoldable pub attr_bit : ℕ → ℕ → Bool
attr_bit attr k = attr / 2 ^ k % 2 == 1

-- The fields of the entry at `idx` of a sector.
unfoldable pub entry_file : ℕ → List ℕ → ℕ → FatFile
unfolding read_u16 read_u32 attr_bit
entry_file lba sector idx = record {
  start_cluster = read_u16 sector (idx + 26);
  size = read_u32 sector (idx + 28);
  dir_sector = lba;
  dir_offset = idx;
  is_dir = attr_bit (get_or sector (idx + 11) 0) 4;
  attr = get_or sector (idx + 11) 0;
}

-- A place is remembered if it is the first.
unfoldable pub note_free : Bool → DirLoc → Scan → Scan
note_free allow_free loc scan = elim scan.free_loc [
  | none ↦ if allow_free then record scan { free_loc = some loc } else scan
  | some first ↦ scan
]

unfoldable pub finish : Bool → Scan → Found
finish allow_free scan = elim scan.free_loc [
  | none ↦ missing
  | some loc ↦ if allow_free then free_at loc else missing
]

-- One round of the loop over the entries of a sector, `limit` entries allowed in the root directory.
module _ (root : Bool) (limit : ℕ) (name : List ℕ) (want : Want) (allow_free : Bool) where
  unfoldable pub look_at : ℕ → List ℕ → ℕ → Scan → Verdict
  unfolding same_name skips_kind entry_file note_free finish
  look_at lba sector idx scan =
      let first = get_or sector idx 0 in
      let counted = if root then record scan { seen = add32 scan.seen 1 } else scan in
      let loc : DirLoc = record { sector = lba; offset = idx } in
      let found = entry_file lba sector idx in
      if root && leb limit scan.seen
      then returns (finish allow_free scan)
      else (if first == 0
          then returns (finish allow_free (note_free allow_free loc counted))
          else (if first == 0xE5
              then goes_on (note_free allow_free loc counted)
              else (if get_or sector (idx + 11) 0 == 0x0F
                  then goes_on counted
                  else (if skips_kind want found.is_dir
                      then goes_on counted
                      else (if same_name 11 sector idx name
                          then returns (entry found)
                          else goes_on counted)))))

  -- The loop over the entries of a sector, with `rounds` left.
  unfoldable pub scan_entries : ℕ → ℕ → List ℕ → ℕ → Scan → Verdict
  unfolding look_at
  scan_entries zero lba sector e scan = goes_on scan
  scan_entries (suc rounds) lba sector e scan = elim (look_at lba sector (e * 32) scan) [
    | returns r ↦ returns r
    | goes_on scan' ↦ scan_entries rounds lba sector (e + 1) scan'
  ]

  module _ {S : Type 0} (disk : Disk S) (f : Fat) (s : S) where
    -- The loop over the sectors of a cluster, or of the root directory.
    unfoldable pub scan_sectors : ℕ → ℕ → Scan → Verdict
    unfolding scan_entries
    scan_sectors zero lba scan = goes_on scan
    scan_sectors (suc rounds) lba scan = elim (disk.read lba s) [
      | none ↦ returns missing
      | some sector ↦ elim (scan_entries (f.bytes_per_sector / 32) lba sector 0 scan) [
        | returns r ↦ returns r
        | goes_on scan' ↦ scan_sectors rounds (add32 lba 1) scan'
      ]
    ]

    -- `while (1)` over the clusters of a directory other than the root, on fuel.
    unfoldable pub scan_chain : ℕ → ℕ → Scan → Found
    unfolding scan_sectors cluster_to_sector fat_next_cluster is_end_cluster
    scan_chain zero cluster scan = endless
    scan_chain (suc fuel) cluster scan =
        elim (scan_sectors f.sectors_per_cluster (cluster_to_sector f cluster) scan) [
          | returns r ↦ r
          | goes_on scan' ↦
              let next = fat_next_cluster disk f cluster s in
              elim (next == 0 || is_end_cluster next) [
                | true ↦ finish allow_free scan'
                | false ↦ scan_chain fuel next (record scan' { seen = 0 })
              ]
        ]

    unfoldable pub scan_root : Found
    unfolding scan_sectors finish
    scan_root =
        elim (scan_sectors f.root_dir_sectors f.root_start (record { seen = 0; free_loc = none })) [
          | returns r ↦ r
          | goes_on scan ↦ finish allow_free scan
        ]

-- A chain that does not come back to a cluster has fewer than 2^16 clusters.
abbrev pub chain_fuel : ℕ
chain_fuel = 65536

unfoldable pub dir_find_entry : {S : Type 0} → Disk S → Fat → ℕ → List ℕ → Want → Bool → S → Found
unfolding scan_root scan_chain
dir_find_entry disk f dir_cluster name want allow_free s =
    if dir_cluster == 0
    then scan_root true f.root_entries name want allow_free disk f s
    else scan_chain false 0 name want allow_free disk f s chain_fuel dir_cluster
        (record { seen = 0; free_loc = none })

-- The copy of an entry into a sector.
unfoldable pub put_bytes : List ℕ → ℕ → List ℕ → List ℕ
put_bytes sector at [] = sector
put_bytes sector at (x ∷ xs) = put_bytes (set sector at x) (at + 1) xs

unfoldable pub dir_write_entry : {S : Type 0} → Disk S → Fat → DirLoc → List ℕ → Step S (Unit {0})
unfolding read_sector write_sector put_bytes
dir_write_entry disk f loc ent = do
  sector ← read_sector disk f loc.sector
  write_sector disk f loc.sector (put_bytes sector loc.offset ent)
