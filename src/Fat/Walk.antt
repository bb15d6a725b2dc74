-- ===== src/Fat/Walk.antt =====
-- Paths of kernel/fat.c. A path is the list of its characters without the final zero; the loops take its
-- segments between slashes (Paths).
use neptune_os.Common.{
  length, take, replicate, leb, ◌==◌, if◌then◌else◌, ℕ, ◌/◌, ◌%◌, ◌^◌, Bool, true, false, ◌&&◌,
  ◌||◌, Option, none, some, List, [], ◌∷◌, ◌++◌,
}
use neptune_os.Paths.{segments}
use neptune_os.Fat.{Disk, Fat, FatFile, DirLoc, Step, ◌>>◌, return, u16}
use neptune_os.Fat.Names.{slash, build_short_name}
use neptune_os.Fat.Dir.{
  Want, either, file, dir, Found, entry, free_at, missing, endless, dir_find_entry, dir_write_entry,
}

-- The 32 bytes of a new entry, as `fat_traverse_path` and `dir_entry_init` write them.
unfoldable pub new_entry : List ℕ → ℕ → ℕ → ℕ → List ℕ
new_entry name attr cluster size =
    take 11 name
    ++ attr ∷ replicate 14 0
    ++ (cluster % 256)
      ∷ (cluster / 256 % 256)
      ∷ (size % 256)
      ∷ (size / 2 ^ 8 % 256)
      ∷ (size / 2 ^ 16 % 256)
      ∷ (size / 2 ^ 24 % 256)
      ∷ []

unfoldable pub is_file : Want → Bool
is_file either = false
is_file file = true
is_file dir = false

-- A component: not empty, shorter than 16 characters, and a short name.
unfoldable pub component : List ℕ → Option (List ℕ)
component seg = if length seg == 0 || leb 16 (length seg) then none else build_short_name seg

unfoldable pub drop_slash : List ℕ → List ℕ
drop_slash [] = []
drop_slash (c ∷ cs) = if c == slash then cs else c ∷ cs

module _ {S : Type 0} (disk : Disk S) (f : Fat) where
  -- The branch of `fat_traverse_path` that makes a new entry at a free place.
  unfoldable pub create_at : List ℕ → DirLoc → Step S FatFile
  unfolding new_entry
  create_at name loc = do
    dir_write_entry disk f loc (new_entry name 0x20 0 0)
    return (record {
      start_cluster = 0;
      size = 0;
      dir_sector = loc.sector;
      dir_offset = loc.offset;
      is_dir = false;
      attr = 0x20;
    })

  -- What the last component leads to.
  unfoldable pub at_last : Bool → List ℕ → Found → Step S FatFile
  unfolding create_at
  at_last allow_free name (entry found) s = (some found, s)
  at_last allow_free name (free_at loc) s = if allow_free then create_at name loc s else (none, s)
  at_last allow_free name missing s = (none, s)
  at_last allow_free name endless s = (none, s)

  -- The loop of `fat_traverse_path` over the components left.
  unfoldable pub traverse : Bool → Want → ℕ → List (List ℕ) → Step S FatFile
  unfolding component at_last is_file
  traverse create want dir_cluster [] s = (none, s)
  traverse create want dir_cluster (seg ∷ []) s = elim (component seg) [
    | none ↦ (none, s)
    | some name ↦
        let allow_free = create && is_file want in
        at_last allow_free name (dir_find_entry disk f dir_cluster name want allow_free s) s
  ]
  traverse create want dir_cluster (seg ∷ next ∷ rest) s = elim (component seg) [
    | none ↦ (none, s)
    | some name ↦ elim (dir_find_entry disk f dir_cluster name dir false s) [
      | entry found ↦ traverse create want (found.start_cluster % u16) (next ∷ rest) s
      | free_at loc ↦ (none, s)
      | missing ↦ (none, s)
      | endless ↦ (none, s)
    ]
  ]

  unfoldable pub fat_traverse_path : List ℕ → Bool → Want → Step S FatFile
  unfolding traverse segments drop_slash
  fat_traverse_path path create want = traverse create want 0 (segments (drop_slash path))

  unfoldable pub fat_open : List ℕ → Step S FatFile
  unfolding fat_traverse_path
  fat_open path s = if f.ready then fat_traverse_path path false file s else (none, s)

  unfoldable pub fat_open_dir : List ℕ → Step S FatFile
  unfolding fat_traverse_path
  fat_open_dir path s = if f.ready then fat_traverse_path path false dir s else (none, s)

  unfoldable pub fat_create : List ℕ → Step S FatFile
  unfolding fat_traverse_path
  fat_create path s = if f.ready then fat_traverse_path path true file s else (none, s)

  -- `fat_find_parent`: slashes in a row count as one, also at the ends, so only the nonempty components
  -- are left.
  unfoldable pub nonempty : List (List ℕ) → List (List ℕ)
  nonempty [] = []
  nonempty (seg ∷ segs) = if length seg == 0 then nonempty segs else seg ∷ nonempty segs

  unfoldable pub find_parent : ℕ → List (List ℕ) → S → Option (ℕ × List ℕ)
  unfolding component
  find_parent dir_cluster [] s = none
  find_parent dir_cluster (seg ∷ []) s = elim (component seg) [
    | none ↦ none
    | some name ↦ some (dir_cluster, name)
  ]
  find_parent dir_cluster (seg ∷ next ∷ rest) s = elim (component seg) [
    | none ↦ none
    | some name ↦ elim (dir_find_entry disk f dir_cluster name dir false s) [
      | entry found ↦ find_parent (found.start_cluster % u16) (next ∷ rest) s
      | free_at loc ↦ none
      | missing ↦ none
      | endless ↦ none
    ]
  ]

  unfoldable pub fat_find_parent : List ℕ → S → Option (ℕ × List ℕ)
  unfolding find_parent nonempty segments
  fat_find_parent path = find_parent 0 (nonempty (segments path))
