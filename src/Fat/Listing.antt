-- ===== src/Fat/Listing.antt =====
-- The directory listing of kernel/fat.c: `list_dir` and `fat_list_dir`. The buffer is the list of the
-- characters that are written to it, at most `len` of them.
use neptune_os.Common.{
  length, get_or, take, drop, leb, ◌==◌, if◌then◌else◌, add32, ℕ, zero, suc, ◌+◌, ◌*◌, ◌/◌, ◌%◌,
  Bool, true, false, not, ◌&&◌, ◌||◌, Option, none, some, List, [], ◌∷◌, ◌++◌,
}
use neptune_os.Fat.{Disk, Fat, u16, is_end_cluster, cluster_to_sector, fat_next_cluster}
use neptune_os.Fat.Names.{space, dot, slash, format_name}
use neptune_os.Fat.Dir.{attr_bit, chain_fuel}
use neptune_os.Fat.Walk.{fat_open_dir}

abbrev newline : ℕ
newline = 10

-- `append_str`, and the same with the characters `out` written already.
unfoldable pub append_str : ℕ → List ℕ → List ℕ → List ℕ
append_str len out [] = out
append_str len out (c ∷ cs) =
    if leb len (length out + 1) then out else append_str len (out ++ c ∷ []) cs

-- The loop over the entries: it goes on with more written, or the whole call returns.
pub data Listed : Type 0 where
  goes_on : ℕ → List ℕ → Listed
  returns : List ℕ → Listed

-- An entry that is not listed: erased, a part of a long name, a volume label, `.` or `..`.
unfoldable pub hidden : List ℕ → Bool
unfolding attr_bit
hidden ent =
    let first = get_or ent 0 0 in
    let second = get_or ent 1 0 in
    let attr = get_or ent 11 0 in
    first == 0xE5
    || attr == 0x0F
    || attr_bit attr 3
    || (first == dot && (second == space || second == dot))

module _ (root : Bool) (limit : ℕ) (prefix : List ℕ) (len : ℕ) where
  unfoldable pub list_entry : List ℕ → ℕ → List ℕ → Listed
  unfolding hidden append_str format_name attr_bit
  list_entry ent seen out =
      let counted = if root then add32 seen 1 else seen in
      let named = append_str len (append_str len out prefix) (format_name ent 16) in
      if root && leb limit seen
      then returns out
      else (if get_or ent 0 0 == 0
          then returns out
          else (if hidden ent
              then goes_on counted out
              else (if attr_bit (get_or ent 11 0) 4
                  then (if leb len (length named + 2)
                      then returns named
                      else goes_on counted (named ++ slash ∷ newline ∷ []))
                  else (if leb len (length named + 1)
                      then returns named
                      else goes_on counted (named ++ newline ∷ [])))))

  unfoldable pub list_entries : ℕ → List ℕ → ℕ → ℕ → List ℕ → Listed
  unfolding list_entry
  list_entries zero sector e seen out = goes_on seen out
  list_entries (suc rounds) sector e seen out =
      elim (list_entry (take 32 (drop (e * 32) sector)) seen out) [
        | returns out' ↦ returns out'
        | goes_on seen' out' ↦ list_entries rounds sector (e + 1) seen' out'
      ]

  module _ {S : Type 0} (disk : Disk S) (f : Fat) (s : S) where
    unfoldable pub list_sectors : ℕ → ℕ → ℕ → List ℕ → Listed
    unfolding list_entries
    list_sectors zero lba seen out = goes_on seen out
    list_sectors (suc rounds) lba seen out = elim (disk.read lba s) [
      | none ↦ returns out
      | some sector ↦ elim (list_entries (f.bytes_per_sector / 32) sector 0 seen out) [
        | returns out' ↦ returns out'
        | goes_on seen' out' ↦ list_sectors rounds (add32 lba 1) seen' out'
      ]
    ]

    -- The loop over the clusters of a directory, on fuel; `none` where it runs out.
    unfoldable pub list_chain : ℕ → ℕ → ℕ → List ℕ → Option (List ℕ)
    unfolding list_sectors cluster_to_sector fat_next_cluster is_end_cluster
    list_chain zero cluster seen out = none
    list_chain (suc fuel) cluster seen out =
        elim (list_sectors f.sectors_per_cluster (cluster_to_sector f cluster) seen out) [
          | returns out' ↦ some out'
          | goes_on seen' out' ↦
              let next = fat_next_cluster disk f cluster s in
              elim (next == 0 || is_end_cluster next) [
                | true ↦ some out'
                | false ↦ list_chain fuel next seen' out'
              ]
        ]

    unfoldable pub list_root : List ℕ
    unfolding list_sectors
    list_root = elim (list_sectors f.root_dir_sectors f.root_start 0 []) [
      | returns out ↦ out
      | goes_on seen out ↦ out
    ]

unfoldable pub list_dir : {S : Type 0} → Disk S → Fat → ℕ → List ℕ → ℕ → S → Option (List ℕ)
unfolding list_root list_chain
list_dir disk f dir_cluster prefix len s =
    if dir_cluster == 0
    then some (list_root true f.root_entries prefix len disk f s)
    else list_chain false 0 prefix len disk f s chain_fuel dir_cluster 0 []

unfoldable pub drop_slashes : List ℕ → List ℕ
drop_slashes [] = []
drop_slashes (c ∷ cs) = if c == slash then drop_slashes cs else c ∷ cs

-- The characters of a path up to its last one that is no slash.
unfoldable pub trim_end : List ℕ → List ℕ
trim_end [] = []
trim_end (c ∷ cs) =
    let rest = trim_end cs in if length rest == 0 && c == slash then [] else c ∷ rest

-- `normalize_path` into a buffer of `out_len` characters; a path that is too long is refused.
unfoldable pub fat_normalize_path : List ℕ → ℕ → Option (List ℕ)
unfolding drop_slashes trim_end
fat_normalize_path path out_len =
    let p = drop_slashes path in if leb out_len (length p) then none else some (trim_end p)

abbrev pub disk_prefix : List ℕ
disk_prefix = 47 ∷ 100 ∷ 105 ∷ 115 ∷ 107 ∷ 47 ∷ []

-- `fat_list_dir`, the list of what it writes. The prefix has room: a path has fewer than 64 characters.
unfoldable pub fat_list_dir : {S : Type 0} → Disk S → Fat → List ℕ → ℕ → S → Option (List ℕ)
unfolding fat_normalize_path list_dir fat_open_dir
fat_list_dir disk f path len s =
    if not f.ready || len == 0 then some [] else (elim (fat_normalize_path path 64) [
      | none ↦ some []
      | some trimmed ↦
          if length trimmed == 0
          then list_dir disk f 0 disk_prefix len s
          else (elim (fat_open_dir disk f trimmed s).0 [
            | none ↦ some []
            | some d ↦
                if d.is_dir
                then list_dir disk f (d.start_cluster % u16) (disk_prefix ++ trimmed ++ slash ∷ [])
                    len s
                else some []
          ])
    ])

-- `fat_list`, of the root directory.
unfoldable pub fat_list : {S : Type 0} → Disk S → Fat → ℕ → S → Option (List ℕ)
unfolding fat_list_dir
fat_list disk f len s = fat_list_dir disk f [] len s
