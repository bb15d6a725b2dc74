-- ===== src/Fat/Read.antt =====
-- `fat_read` of kernel/fat.c.
use neptune_os.Common.{
  length, take, drop, ltb, leb, ◌==◌, if◌then◌else◌, u32, add64, add32, ℕ, zero, suc, ◌+◌, ◌-◌, ◌*◌,
  ◌/◌, ◌%◌, min, true, false, not, ◌&&◌, ◌||◌, Option, none, some, List, [], ◌++◌,
}
use neptune_os.Fat.{Disk, Fat, FatFile, u16, is_end_cluster, cluster_to_sector, fat_next_cluster}

module _ {S : Type 0} (disk : Disk S) (f : Fat) (s : S) where
  abbrev pub cluster_size : ℕ
  cluster_size = f.sectors_per_cluster * f.bytes_per_sector

  -- The next cluster of a chain; `none` at its end, and also where the sector of the table that holds the
  -- entry of `cluster` cannot be read, for which `fat_next_cluster` gives 0.
  unfoldable pub follow : ℕ → Option ℕ
  unfolding is_end_cluster fat_next_cluster
  follow cluster =
      let next = fat_next_cluster disk f cluster s in
      if next == 0 || is_end_cluster next then none else some next

  -- The loop that skips whole clusters, on fuel: the cluster and what is left of `skip`.
  unfoldable pub skip_clusters : ℕ → ℕ → ℕ → Option (ℕ × ℕ)
  unfolding follow
  skip_clusters zero cluster skip = some (cluster, skip)
  skip_clusters (suc fuel) cluster skip = elim (leb cluster_size skip && leb 2 cluster) [
    | false ↦ some (cluster, skip)
    | true ↦ elim (follow cluster) [
      | none ↦ none
      | some next ↦ skip_clusters fuel next (skip - cluster_size)
    ]
  ]

  -- The inner loop, on fuel: the bytes of one cluster from `cluster_off` on, at most `len` of them.
  unfoldable pub read_cluster : ℕ → ℕ → ℕ → ℕ → Option (List ℕ)
  read_cluster zero base cluster_off len = some []
  read_cluster (suc fuel) base cluster_off len =
      let off = cluster_off % f.bytes_per_sector in
      let chunk = min (f.bytes_per_sector - off) len in
      elim (ltb cluster_off cluster_size && ltb 0 len) [
        | false ↦ some []
        | true ↦ elim (disk.read (add32 base (cluster_off / f.bytes_per_sector % u32)) s) [
          | none ↦ none
          | some sector ↦ elim (read_cluster fuel base (cluster_off + chunk) (len - chunk)) [
            | none ↦ none
            | some rest ↦ some (take chunk (drop off sector) ++ rest)
          ]
        ]
      ]

  -- The outer loop, on fuel.
  unfoldable pub read_chain : ℕ → ℕ → ℕ → ℕ → Option (List ℕ)
  unfolding read_cluster follow cluster_to_sector
  read_chain zero cluster skip len = some []
  read_chain (suc fuel) cluster skip len = elim (ltb 0 len && leb 2 cluster) [
    | false ↦ some []
    | true ↦ elim (read_cluster len (cluster_to_sector f cluster) skip len) [
      | none ↦ none
      | some bytes ↦ elim (len - length bytes == 0) [
        | true ↦ some bytes
        | false ↦ elim (follow cluster) [
          | none ↦ some bytes
          | some next ↦ elim (read_chain fuel next 0 (len - length bytes)) [
            | none ↦ none
            | some rest ↦ some (bytes ++ rest)
          ]
        ]
      ]
    ]
  ]

  -- `fat_read`: the bytes, and the offset behind them. Each loop makes its variable smaller in every
  -- round, which bounds the fuel.
  unfoldable pub fat_read : FatFile → ℕ → ℕ → Option (List ℕ × ℕ)
  unfolding skip_clusters read_chain
  fat_read file offset len =
      let n = min len (file.size - offset) in
      if not f.ready
      then none
      else (if file.start_cluster == 0 || leb file.size offset || len == 0
          then some ([], offset)
          else (elim (skip_clusters offset (file.start_cluster % u16) offset) [
            | none ↦ some ([], offset)
            | some (cluster, skip) ↦ elim (read_chain n cluster skip n) [
              | none ↦ none
              | some bytes ↦ some (bytes, add64 offset (length bytes))
            ]
          ]))
