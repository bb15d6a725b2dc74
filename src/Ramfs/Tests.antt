-- ===== src/Ramfs/Tests.antt =====
-- Runs of kernel/ramfs.c on small files.
use neptune_os.Common.{
  replicate, ltb, leb, if◌then◌else◌, ℕ, ◌+◌, ◌-◌, ◌≤◌, max, ◌≡◌, refl, ◌⊎◌, Bool, true, false,
  ◌&&◌, some, List, [], ◌∷◌, arith,
}
use neptune_os.Ramfs.{ok, failed, RamfsFile, expand, ramfs_write, ramfs_read, ramfs_open}
use neptune_os.Ramfs.Bytes.{byte_at}
use neptune_os.Ramfs.Laws.{IsValid, contents, ramfs_write-contents}
use neptune_os.Ramfs.Open.{Opened, ramfs_open-Opened}
use neptune_os.Ramfs.RoundTrip.{ramfs_write-returns, ramfs_read-ramfs_write}

abbrev plenty : ℕ → Bool
plenty n = true

abbrev slash_a : List ℕ
slash_a = 47 ∷ 97 ∷ []

abbrev fresh_file : RamfsFile
fresh_file = record { path = slash_a; bytes = []; size = 0; used = true }

abbrev unused_file : RamfsFile
unused_file = record { path = []; bytes = []; size = 0; used = false }

abbrev hello : List ℕ
hello = 104 ∷ 105 ∷ []

-- The file with `hello` at offset 3.
abbrev written_file : RamfsFile
written_file = record {
  path = slash_a;
  bytes = 0 ∷ 0 ∷ 0 ∷ 104 ∷ 105 ∷ replicate 59 0;
  size = 5;
  used = true;
}

write_test : ramfs_write plenty fresh_file 3 hello ≡ ok (written_file, 5)
unfolding ramfs_write expand
write_test = refl

read_test : ramfs_read written_file 2 9 ≡ (0 ∷ 104 ∷ 105 ∷ [], 5)
unfolding ramfs_read
read_test = refl

no_room_test : ramfs_write (λ n. false) fresh_file 3 hello ≡ failed
unfolding ramfs_write expand
no_room_test = refl

fresh_file-IsValid : IsValid fresh_file
fresh_file-IsValid = record { fits = omega arith; zero_tail = λ i h. refl }

ramfs_write-contents_example :
    IsValid written_file
    × (5 ≡ 3 + 2)
    × (written_file.size ≡ max 0 5)
    × ((i : ℕ)
        → contents written_file i
          ≡ (if leb 3 i && ltb i 5 then byte_at hello (i - 3) else contents fresh_file i))
ramfs_write-contents_example =
    ramfs_write-contents plenty fresh_file 3 hello written_file 5 fresh_file-IsValid (omega arith)
      (omega arith) write_test

ramfs_write-returns_example :
    ((f' : RamfsFile) × (ramfs_write plenty fresh_file 3 hello ≡ ok (f', 3 + 2)))
    ⊎ ((ramfs_write plenty fresh_file 3 hello ≡ failed)
        × (cap : ℕ) × (3 + 2 ≤ cap)
        × (plenty cap ≡ false))
ramfs_write-returns_example =
    ramfs_write-returns plenty fresh_file 3 hello (omega arith) (omega arith)

ramfs_read-ramfs_write_example : ramfs_read written_file 3 2 ≡ (hello, 5)
ramfs_read-ramfs_write_example =
    ramfs_read-ramfs_write plenty fresh_file 3 hello written_file 5 fresh_file-IsValid (omega arith)
      (omega arith) write_test

open_test :
    ramfs_open slash_a (unused_file ∷ unused_file ∷ []) ≡ some (0, fresh_file ∷ unused_file ∷ [])
unfolding ramfs_open
open_test = refl

ramfs_open-Opened_example :
    Opened slash_a (unused_file ∷ unused_file ∷ []) (0, fresh_file ∷ unused_file ∷ [])
ramfs_open-Opened_example =
    ramfs_open-Opened slash_a (unused_file ∷ unused_file ∷ []) 0 (fresh_file ∷ unused_file ∷ [])
      open_test
