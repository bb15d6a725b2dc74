-- ===== src/Handles/Tests.antt =====
-- The handle table of kernel/syscall.c with one open file that two threads share.
use neptune_os.Common.{
  get_elem?, set, replicate, get_elem?-set_ne, get_elem?-replicate, ◌==◌, if◌then◌else◌, ==→eq,
  ==→ne, Bool-cases, ℕ, ◌<◌, ◌≡◌, refl, sym, ◌∙◌, ◌≢◌, inl, inr, true, false, none, some, List, [],
  ◌∷◌, arith,
}
use neptune_os.Handles.{
  vfs, Handle, Fds, Files, is_free, is_vfs, free_handle, handles_init, find_free, get_fd, find_fd,
}
use neptune_os.Handles.Boot.{zeroed, sys_close-handles_init}
use neptune_os.Handles.Calls.{enomem, sys_close, sys_dup2, sys_open_file, sys_spawn}
use neptune_os.Handles.Count.{CountOk, count, count_all, holders, Counted}
use neptune_os.Handles.Counted.{sys_close-closed}
use neptune_os.Handles.Threads.{sys_open_file-closed_twice}

-- The file at address 9, with two holders.
abbrev file9 : Handle
file9 = record { type = vfs; file = 9; owner_pid = 1; refcount = 2 }

abbrev one_file : Fds
one_file = set (replicate 16 none) 5 (some 3)

-- A table with one handle, file9 held `n` times.
abbrev table : ℕ → List Handle
table n = set (replicate 128 free_handle) 3 (record file9 { refcount = n })

abbrev shared : Files
shared = record { handles = table 2; fds = one_file; others = one_file ∷ []; closed = [] }

-- All sixteen descriptors of one thread hold the handle.
abbrev crowded : Files
crowded = record { handles = table 16; fds = replicate 16 (some 3); others = []; closed = [] }

table-CountOk :
    (n g m : ℕ) (h : Handle)
    → 0 < n
    → get_elem? (table n) g ≡ some h
    → m ≡ (if g == 3 then n else 0)
    → CountOk m h
unfolding is_free
table-CountOk n g m h pos at e = elim (Bool-cases (g == 3)) [
  | inl here ↦
      let q : g ≡ 3 = ==→eq g 3 here in
      let is9 : h ≡ record file9 { refcount = n } = ground arith in
      rw is9 (λ z. absurd (cc), λ z. ground arith)
  | inr ne ↦
      let k = ==→ne g 3 ne in
      let other =
        get_elem?-set_ne (replicate 128 free_handle) 3 g (record file9 { refcount = n })
          (λ z. k (sym z)) in
      let blank : h ≡ free_handle = get_elem?-replicate 128 free_handle g h (sym other ∙ at) in
      rw blank (λ z. ground arith, λ z. absurd (cc))
]

shared-Counted : Counted shared
unfolding holders count count_all
shared-Counted = record {
  entries = refl;
  slots = refl;
  counts = λ g h at. table-CountOk 2 g _ h (omega arith) at (ground arith);
}

shared-5 : get_fd 5 shared ≡ some 3
unfolding get_fd
shared-5 = refl

sys_close-closed_example : (sys_close 5 shared).1.closed ≡ []
unfolding is_vfs holders count count_all
sys_close-closed_example =
    sys_close-closed 5 3 {h = file9} {s = shared} shared-Counted shared-5 refl

crowded-free : find_free crowded.handles 0 ≢ none
unfolding find_free is_free
crowded-free h = cc

crowded-full : find_fd crowded.fds 0 ≡ none
unfolding find_fd
crowded-full = refl

sys_open_file-closed_twice_example :
    ((sys_open_file 11 1 crowded).0 ≡ enomem)
    × ((sys_open_file 11 1 crowded).1.closed ≡ 11 ∷ 11 ∷ [])
sys_open_file-closed_twice_example =
    sys_open_file-closed_twice 11 1 crowded refl crowded-free crowded-full

abbrev booted : Files
booted = record {
  handles = handles_init zeroed;
  fds = set (replicate 16 none) 0 (some 0);
  others = set (replicate 16 none) 0 (some 0) ∷ [];
  closed = [];
}

booted-0 : get_fd 0 booted ≡ some 0
unfolding get_fd
booted-0 = refl

sys_close-handles_init_example : get_elem? (sys_close 0 booted).1.handles 0 ≡ some free_handle
sys_close-handles_init_example = sys_close-handles_init 0 0 booted refl (omega arith) booted-0

-- The current thread opens a file, doubles a descriptor, and starts a thread with a map of descriptor 5
-- and one that gets no stack; then it closes the descriptor.
abbrev opened : Files
opened = (sys_dup2 5 7 (sys_open_file 11 1 shared).1).1

abbrev third : Files
third = (sys_spawn none (5 ∷ []) true true true 3 opened).1

abbrev fourth : Files
fourth = (sys_spawn none [] true true false 4 third).1
