-- ===== src/Handles.antt =====
-- kernel/syscall.c, the table of open handles, with the file descriptors of the threads that
-- kernel/sched.c keeps. A descriptor holds the number of a handle, and a handle counts its holders.
-- `int` arguments are 32-bit patterns, so `fd < 0 || fd >= 16` is `16 <= fd` here; a descriptor of -1 is
-- `none`. Calls of `vfs_close` are recorded in `closed`, the last one first.
pub mod Count
pub mod Boot
pub mod Calls
pub mod Release
pub mod Threads
pub mod Spawn
pub mod Counted
pub mod Dup
pub mod Pipes
pub mod Reach
mod Tests
use neptune_os.Common.{
  get_elem?, get_or, set, leb, if◌then◌else◌, ℕ, ◌+◌, ◌-◌, ◌<◌, Bool, true, false, not, ◌||◌,
  Option, none, some, List, [], ◌∷◌,
}

pub data HandleType : Type 0 where
  free tty vfs : HandleType

-- `struct handle`. A count is decremented only where it is freed at 0 or below, so it is a number.
pub record Handle : Type 0 where
  pub type : HandleType
  pub file : ℕ
  pub owner_pid : ℕ
  pub refcount : ℕ

abbrev pub handle_max : ℕ
handle_max = 128

abbrev pub Fds : Type 0
Fds = List (Option ℕ)

-- The handle table, the descriptors of the current thread and those of all other threads.
pub record Files : Type 0 where
  pub handles : List Handle
  pub fds : Fds
  pub others : List Fds
  pub closed : List ℕ

abbrev pub free_handle : Handle
free_handle = record { type = free; file = 0; owner_pid = 0; refcount = 0 }

unfoldable pub is_free : HandleType → Bool
is_free free = true
is_free tty = false
is_free vfs = false

unfoldable pub is_vfs : HandleType → Bool
is_vfs free = false
is_vfs tty = false
is_vfs vfs = true

-- The loop of `handles_init`, which does not write the counts.
unfoldable pub clear_handles : List Handle → List Handle
clear_handles [] = []
clear_handles (h ∷ hs) = record free_handle { refcount = h.refcount } ∷ clear_handles hs

-- The entries of standard input, output and error, with the counts that they had.
unfoldable pub set_tty : ℕ → List Handle → List Handle
set_tty i hs = set hs i (record (get_or hs i free_handle) { type = tty; owner_pid = 0 })

unfoldable pub handles_init : List Handle → List Handle
unfolding clear_handles set_tty
handles_init hs = set_tty 2 (set_tty 1 (set_tty 0 (clear_handles hs)))

unfoldable pub acquire_handle : ℕ → Files → Files
unfolding is_free
acquire_handle id s = if leb handle_max id then s else (elim (get_elem? s.handles id) [
  | none ↦ s
  | some h ↦
      if is_free h.type
      then s
      else record s { handles = set s.handles id (record h { refcount = h.refcount + 1 }) }
])

-- `refcount--` and the test `refcount <= 0` behind it.
unfoldable pub release_handle : ℕ → Files → Files
unfolding is_free is_vfs
release_handle id s = if leb handle_max id then s else (elim (get_elem? s.handles id) [
  | none ↦ s
  | some h ↦
      if is_free h.type
      then s
      else (if leb h.refcount 1
          then record s {
            handles = set s.handles id free_handle;
            closed = if is_vfs h.type then h.file ∷ s.closed else s.closed;
          }
          else record s { handles = set s.handles id (record h { refcount = h.refcount - 1 }) })
])

-- The first free entry from `i` on.
unfoldable pub find_free : List Handle → ℕ → Option ℕ
unfolding is_free
find_free [] i = none
find_free (h ∷ hs) i = elim (is_free h.type) [ true ↦ some i | false ↦ find_free hs (i + 1) ]

unfoldable pub handle_alloc : HandleType → ℕ → ℕ → Files → Option ℕ × Files
unfolding find_free
handle_alloc type file owner s = elim (find_free s.handles 0) [
  | none ↦ (none, s)
  | some i ↦ (
    some i,
    record s {
      handles =
          set s.handles i (record { type = type; file = file; owner_pid = owner; refcount = 1 });
    },
  )
]

unfoldable pub get_fd : ℕ → Files → Option ℕ
get_fd fd s = if leb 16 fd then none else get_or s.fds fd none

unfoldable pub set_fd : ℕ → Option ℕ → Files → Files
set_fd fd v s = if leb 16 fd then s else record s { fds = set s.fds fd v }

-- The first descriptor from `i` on that is -1.
unfoldable pub find_fd : Fds → ℕ → Option ℕ
find_fd [] i = none
find_fd (none ∷ fds) i = some i
find_fd (some g ∷ fds) i = find_fd fds (i + 1)

unfoldable pub allocate_fd : ℕ → Files → Option ℕ × Files
unfolding find_fd
allocate_fd g s = elim (find_fd s.fds 0) [
  | none ↦ (none, s)
  | some i ↦ (some i, record s { fds = set s.fds i (some g) })
]
