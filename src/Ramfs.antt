-- ===== src/Ramfs.antt =====
-- kernel/ramfs.c: a table of 32 files in memory. A path is the list of its characters without the final
-- zero; a file's storage is the list of its `capacity` bytes. `kalloc` is an argument where it is called:
-- whether it finds room for the new storage.
pub mod Bytes
pub mod Laws
pub mod Open
pub mod RoundTrip
mod Tests
use neptune_os.Common.{
  length, set, take, drop, replicate, ltb, leb, ◌==◌, if◌then◌else◌, add64, ℕ, zero, suc, ◌+◌, ◌-◌,
  ◌<◌, min, max, Bool, true, false, not, ◌&&◌, ◌||◌, Option, none, some, List, [], ◌∷◌, ◌++◌,
}

abbrev pub max_files : ℕ
max_files = 32

abbrev pub path_max : ℕ
path_max = 64

abbrev pub grow_step : ℕ
grow_step = 64

-- `struct ramfs_file`; `capacity` is the length of `bytes`.
pub record RamfsFile : Type 0 where
  pub path : List ℕ
  pub bytes : List ℕ
  pub size : ℕ
  pub used : Bool

unfoldable pub streq : List ℕ → List ℕ → Bool
streq [] [] = true
streq [] (y ∷ ys) = false
streq (x ∷ xs) [] = false
streq (x ∷ xs) (y ∷ ys) = x == y && streq xs ys

-- What a call returns: a result, or -1; `endless` where the loop below does not end.
pub data Result {ℓ} (A : Type ℓ) : Type ℓ where
  ok : A → Result A
  failed endless : Result A

-- `while (new_cap < need) new_cap += RAMFS_GROW_STEP;`, on fuel: `none` where `fuel` rounds do not end
-- it. `need` rounds are enough unless the sum wraps around to a number below `need`, which it cannot
-- while `need` is at least one step below 2^64.
unfoldable pub grow : ℕ → ℕ → ℕ → Option ℕ
grow zero cap need = if ltb cap need then none else some cap
grow (suc fuel) cap need = elim (ltb cap need) [
  | true ↦ grow fuel (add64 cap grow_step) need
  | false ↦ some cap
]

unfoldable pub new_capacity : ℕ → ℕ → Option ℕ
unfolding grow
new_capacity capacity need =
    let start = if capacity == 0 then grow_step else capacity in grow need start need

-- `ramfs_expand`: old bytes up to `size`, zeros behind them.
unfoldable pub expand : (ℕ → Bool) → RamfsFile → ℕ → Result RamfsFile
unfolding new_capacity
expand kalloc file need =
    let capacity = length file.bytes in
    if leb need capacity then ok file else (elim (new_capacity capacity need) [
      | none ↦ endless
      | some new_cap ↦
          if kalloc new_cap
          then ok (record file {
            bytes = take file.size file.bytes ++ replicate (new_cap - file.size) 0;
          })
          else failed
    ])

-- The first loop of `ramfs_open`, then the second, from entry `i` on.
unfoldable pub find_path : List ℕ → List RamfsFile → ℕ → Option ℕ
unfolding streq
find_path path [] i = none
find_path path (f ∷ fs) i = elim (f.used && streq f.path path) [
  | true ↦ some i
  | false ↦ find_path path fs (i + 1)
]

unfoldable pub find_unused : List RamfsFile → ℕ → Option ℕ
find_unused [] i = none
find_unused (f ∷ fs) i = elim f.used [ true ↦ find_unused fs (i + 1) | false ↦ some i ]

-- `path[0] != '/'`
unfoldable pub is_absolute : List ℕ → Bool
is_absolute [] = false
is_absolute (c ∷ cs) = c == b'/'

unfoldable pub ramfs_open : List ℕ → List RamfsFile → Option (ℕ × List RamfsFile)
unfolding find_path find_unused is_absolute
ramfs_open path files =
    if not (is_absolute path)
    then none
    else (if leb path_max (length path) then none else (elim (find_path path files 0) [
      | some i ↦ some (i, files)
      | none ↦ elim (find_unused files 0) [
        | some i ↦
            some
              (i, set files i (record { path = take 63 path; bytes = []; size = 0; used = true }))
        | none ↦ none
      ]
    ]))

-- `ramfs_read`: the bytes that it copies, and the offset after it.
unfoldable pub ramfs_read : RamfsFile → ℕ → ℕ → List ℕ × ℕ
ramfs_read file offset len =
    if len == 0 || leb file.size offset
    then ([], offset)
    else (let n = min len (file.size - offset) in (take n (drop offset file.bytes), add64 offset n))

-- The copy loop of `ramfs_write`.
unfoldable pub overwrite : List ℕ → ℕ → List ℕ → List ℕ
overwrite bytes at [] = bytes
overwrite bytes at (x ∷ xs) = overwrite (set bytes at x) (at + 1) xs

-- `ramfs_write` of the bytes `src`: the file and the offset after it.
unfoldable pub ramfs_write : (ℕ → Bool) → RamfsFile → ℕ → List ℕ → Result (RamfsFile × ℕ)
unfolding overwrite expand
ramfs_write kalloc file offset src =
    let end = add64 offset (length src) in
    if length src == 0
    then ok (file, offset)
    else (if ltb end offset then failed else (elim (expand kalloc file end) [
      | failed ↦ failed
      | endless ↦ endless
      | ok f ↦ ok (record f { bytes = overwrite f.bytes offset src; size = max f.size end }, end)
    ]))
