-- ===== src/Elf/Tests.antt =====
-- A small program for kernel/elf.c.
use mathlib.Core.List.Memᴰ
use neptune_os.Common.{
  get_or, ltb, ltb→lt, lt→ltb, ge→ltb, and-true, IsBytes, ℕ, zero, suc, ◌+◌, ◌*◌, ◌<◌, ◌≡◌, refl,
  Bool, true, ◌&&◌, List, [], ◌∷◌, arith,
}
use neptune_os.Elf.{Env, Loading, elf_load_user}
use neptune_os.Elf.Pages.{EnvLaws, Owned}
use neptune_os.Elf.Program.{Loaded, elf_load_user-Loaded}

-- Pages are given one behind the other, and every mapping succeeds.
abbrev pages : Env ℕ
pages = record { alloc_page = λ n. (n * 4096, n + 1); map_page = λ v phys flags n. (true, n) }

pages-EnvLaws : EnvLaws pages
pages-EnvLaws = record {
  taken = λ n p. ltb p (n * 4096);
  alloc_free = λ n h. ge→ltb (n * 4096) (n * 4096) (omega arith);
  alloc_takes = λ n h. lt→ltb (n * 4096) ((n + 1) * 4096) (omega arith);
  alloc_aligned = λ n. omega arith;
  alloc_keeps = λ n p h. lt→ltb p ((n + 1) * 4096) (omega (arith, ltb→lt p (n * 4096) h));
  map_keeps = λ v phys flags n p h. h;
}

-- One segment of two bytes at address 0x400078, which is 16 bytes long in memory.
abbrev program : List ℕ
program =
    127 ∷ 69 ∷ 76 ∷ 70 ∷ 2 ∷ 1 ∷ 1 ∷ 0 ∷ 0 ∷ 0 ∷ 0 ∷ 0 ∷ 0 ∷ 0 ∷ 0 ∷ 0 ∷ 2 ∷ 0 ∷ 62 ∷ 0 ∷ 1 ∷ 0 ∷ 0
    ∷ 0 ∷ 120 ∷ 0 ∷ 64 ∷ 0 ∷ 0 ∷ 0 ∷ 0 ∷ 0 ∷ 64 ∷ 0 ∷ 0 ∷ 0 ∷ 0 ∷ 0 ∷ 0 ∷ 0 ∷ 0 ∷ 0 ∷ 0 ∷ 0 ∷ 0 ∷ 0
    ∷ 0 ∷ 0 ∷ 0 ∷ 0 ∷ 0 ∷ 0 ∷ 64 ∷ 0 ∷ 56 ∷ 0 ∷ 1 ∷ 0 ∷ 0 ∷ 0 ∷ 0 ∷ 0 ∷ 0 ∷ 0 ∷ 1 ∷ 0 ∷ 0 ∷ 0 ∷ 5
    ∷ 0 ∷ 0 ∷ 0 ∷ 120 ∷ 0 ∷ 0 ∷ 0 ∷ 0 ∷ 0 ∷ 0 ∷ 0 ∷ 120 ∷ 0 ∷ 64 ∷ 0 ∷ 0 ∷ 0 ∷ 0 ∷ 0 ∷ 120 ∷ 0 ∷ 64
    ∷ 0 ∷ 0 ∷ 0 ∷ 0 ∷ 0 ∷ 2 ∷ 0 ∷ 0 ∷ 0 ∷ 0 ∷ 0 ∷ 0 ∷ 0 ∷ 16 ∷ 0 ∷ 0 ∷ 0 ∷ 0 ∷ 0 ∷ 0 ∷ 0 ∷ 0 ∷ 0 ∷ 0
    ∷ 0 ∷ 0 ∷ 0 ∷ 0 ∷ 0 ∷ 235 ∷ 254 ∷ []

abbrev image : ℕ → ℕ
image a = get_or program a 0

abbrev small_bytes : List ℕ → Bool
small_bytes [] = true
small_bytes (x ∷ xs) = ltb x 256 && small_bytes xs

get_or-small : (xs : List ℕ) (i : ℕ) → small_bytes xs ≡ true → get_or xs i 0 < 256
get_or-small [] i h = omega arith
get_or-small (x ∷ xs) zero h = ltb→lt x 256 (and-true (ltb x 256) (small_bytes xs) h).0
get_or-small (x ∷ xs) (suc i) h = get_or-small xs i (and-true (ltb x 256) (small_bytes xs) h).1

image-IsBytes : IsBytes image
image-IsBytes a = get_or-small program a refl

abbrev start : Loading ℕ
start = record { env = 16; mem = λ a. 7; mapped = []; entry = 0 }

start-Owned : Owned pages-EnvLaws start
start-Owned m h = absurd (Memᴰ.not-nil h)

abbrev loaded : Loading ℕ
unfolding elf_load_user
loaded = (elf_load_user pages image 122 start).1

entry_test : loaded.entry ≡ 0x400078
unfolding elf_load_user
entry_test = refl

load_test : elf_load_user pages image 122 start ≡ (true, loaded)
unfolding elf_load_user
load_test = refl

elf_load_user-Loaded_example : Loaded image 122 loaded
elf_load_user-Loaded_example =
    elf_load_user-Loaded pages-EnvLaws image 122 start loaded image-IsBytes start-Owned load_test
