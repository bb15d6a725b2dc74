-- ===== src/Fat/Write.antt =====
-- `fat_write` of kernel/fat.c. A result of the source is an `int64_t`: `none` is -1.
use neptune_os.Common.{
  length, take, drop, ltb, leb, ◌==◌, if◌then◌else◌, u32, add64, add32, ℕ, zero, suc, ◌+◌, ◌-◌, ◌*◌,
  ◌/◌, ◌%◌, min, true, false, not, ◌&&◌, Option, none, some, List,
}
use neptune_os.Fat.{
  Disk, Fat, FatFile, Step, ◌>>=◌, ◌>>◌, return, u16, put_u16, put_u32, cluster_to_sector,
  read_sector, write_sector, fat_set_cluster, fat_alloc_cluster,
}
use neptune_os.Fat.Dir.{attr_bit, put_bytes}
use neptune_os.Fat.Read.{follow}

module _ {S : Type 0} (disk : Disk S) (f : Fat) where
  abbrev cluster_size : ℕ
  cluster_size = f.sectors_per_cluster * f.bytes_per_sector

  -- An empty file's first cluster is noted in its directory entry.
  unfoldable pub note_first : FatFile → ℕ → Step S (Unit {0})
  unfolding read_sector write_sector put_u16
  note_first file first = do
    sector ← read_sector disk f file.dir_sector
    write_sector disk f file.dir_sector (put_u16 sector (file.dir_offset + 26) first)

  -- The branch that gives an empty file a cluster: the file keeps it also where the note fails.
  unfoldable pub with_first : FatFile → Option ℕ × S → FatFile × Option (Unit {0}) × S
  unfolding note_first
  with_first file (none, s) = (file, none, s)
  with_first file (some first, s) =
      let r = note_first file first s in (record file { start_cluster = first }, r.0, r.1)

  unfoldable pub with_cluster : FatFile → S → FatFile × Option (Unit {0}) × S
  unfolding with_first fat_alloc_cluster
  with_cluster file s =
      if file.start_cluster == 0
      then with_first file (fat_alloc_cluster disk f s)
      else (file, some tt, s)

  -- A new cluster, linked behind `cluster`.
  unfoldable pub extend : ℕ → Step S ℕ
  unfolding fat_alloc_cluster fat_set_cluster
  extend cluster = do new ← fat_alloc_cluster disk f; fat_set_cluster disk f cluster new; return new

  -- The cluster behind `cluster`, a new one at the end of the chain.
  unfoldable pub follow_or_extend : ℕ → Step S ℕ
  unfolding extend follow
  follow_or_extend cluster s = elim (follow disk f s cluster) [
    | some next ↦ (some next, s)
    | none ↦ extend cluster s
  ]

  -- The loop that skips whole clusters, on fuel.
  unfoldable pub seek : ℕ → ℕ → ℕ → Step S (ℕ × ℕ)
  unfolding follow_or_extend
  seek zero cluster skip = return (cluster, skip)
  seek (suc fuel) cluster skip = elim (leb cluster_size skip) [
    | false ↦ return (cluster, skip)
    | true ↦ do next ← follow_or_extend cluster; seek fuel next (skip - cluster_size)
  ]

  -- The inner loop, on fuel: the bytes that one cluster does not take are the result.
  unfoldable pub write_cluster : ℕ → ℕ → ℕ → List ℕ → Step S (List ℕ)
  unfolding read_sector write_sector put_bytes
  write_cluster zero base cluster_off src = return src
  write_cluster (suc fuel) base cluster_off src =
      let sector_no = add32 base (cluster_off / f.bytes_per_sector % u32) in
      let off = cluster_off % f.bytes_per_sector in
      let chunk = min (f.bytes_per_sector - off) (length src) in
      elim (ltb cluster_off cluster_size && ltb 0 (length src)) [
        | false ↦ return src
        | true ↦ do
          sector ← read_sector disk f sector_no
          write_sector disk f sector_no (put_bytes sector off (take chunk src))
          write_cluster fuel base (cluster_off + chunk) (drop chunk src)
      ]

  -- How the outer loop ends: all bytes are written, or, where no cluster is left, those before `left`;
  -- then the file keeps its size and its offset.
  pub data Outcome : Type 0 where
    all_written : Outcome
    stopped : List ℕ → Outcome

  -- After a cluster is full: the next one, or the end. A failure here is no error of the call.
  unfoldable pub go_on : (ℕ → List ℕ → Step S Outcome) → List ℕ → Option ℕ × S → Option Outcome × S
  go_on next_round left (none, s) = (some (stopped left), s)
  go_on next_round left (some next, s) = next_round next left s

  -- The outer loop, on fuel.
  unfoldable pub write_chain : ℕ → ℕ → ℕ → List ℕ → Step S Outcome
  unfolding write_cluster cluster_to_sector follow_or_extend go_on
  write_chain zero cluster skip src s = (some all_written, s)
  write_chain (suc fuel) cluster skip src s =
      let again = λ (next : ℕ) (left : List ℕ). write_chain fuel next 0 left in
      elim (ltb 0 (length src)) [
        | false ↦ (some all_written, s)
        | true ↦
            (write_cluster (length src) (cluster_to_sector f cluster) skip src >>= λ left s'.
            if length left == 0
            then (some all_written, s')
            else go_on again left (follow_or_extend cluster s'))
              s
      ]

  -- The new size in the directory entry, whose failure is ignored.
  unfoldable pub store_size : FatFile → S → S
  unfolding put_u32
  store_size file s = elim (disk.read file.dir_sector s) [
    | none ↦ s
    | some sector ↦
        elim (disk.write file.dir_sector (put_u32 sector (file.dir_offset + 28) file.size) s) [
          | none ↦ s
          | some s' ↦ s'
        ]
  ]

  -- The file and the offset after a call, its result, and the disk.
  pub record Written : Type 0 where
    pub file : FatFile
    pub offset : ℕ
    pub result : Option ℕ
    pub state : S

  -- The end of the call.
  unfoldable pub ended : FatFile → ℕ → List ℕ → Option Outcome × S → Written
  unfolding store_size
  ended file offset src (none, s) = record {
    file = file;
    offset = offset;
    result = none;
    state = s;
  }
  ended file offset src (some (stopped left), s) = record {
    file = file;
    offset = offset;
    result = some (length src - length left);
    state = s;
  }
  ended file offset src (some all_written, s) =
      let end = add64 offset (length src) in
      let grown = record file { size = end % u32 } in
      if ltb file.size end
      then record {
        file = grown;
        offset = end;
        result = some (length src);
        state = store_size grown s;
      }
      else record { file = file; offset = end; result = some (length src); state = s }

  unfoldable pub write_placed : ℕ → List ℕ → FatFile × Option (Unit {0}) × S → Written
  unfolding seek write_chain ended
  write_placed offset src (file, none, s) = record {
    file = file;
    offset = offset;
    result = none;
    state = s;
  }
  write_placed offset src (file, some done, s) = ended file offset src (
      (seek offset (file.start_cluster % u16) offset >>= λ at.
      write_chain (length src) at.0 at.1 src)
        s)

  -- `fat_write` of the bytes `src`.
  unfoldable pub fat_write : FatFile → ℕ → List ℕ → S → Written
  unfolding attr_bit with_cluster write_placed
  fat_write file offset src s =
      let refused : Written = record { file = file; offset = offset; result = none; state = s } in
      let nothing : Written = record { file = file; offset = offset; result = some 0; state = s } in
      if not f.ready
      then refused
      else (if file.is_dir
          then refused
          else (if attr_bit file.attr 0
              then refused
              else (if length src == 0
                  then nothing
                  else (if ltb (add64 offset (length src)) offset
                      then refused
                      else write_placed offset src (with_cluster file s)))))
