-- ===== src/Handles/Boot.antt =====
-- `handles_init` of kernel/syscall.c: the three terminal handles start with a count of 0.
use neptune_os.Common.{
  get_elem?, replicate, lt_of_get_elem?, get_elem?-set_self, ℕ, zero, suc, ◌<◌, ◌≡◌, refl, some,
  List, arith,
}
use neptune_os.Handles.{
  tty, Handle, Files, is_free, is_vfs, free_handle, clear_handles, set_tty, handles_init,
  release_handle, get_fd, set_fd,
}
use neptune_os.Handles.Calls.{sys_close}

-- The table as the kernel's image holds it, all bytes zero.
abbrev pub zeroed : List Handle
zeroed = replicate 128 free_handle

abbrev terminal : Handle
terminal = record { type = tty; file = 0; owner_pid = 0; refcount = 0 }

init-zeroed : (g : ℕ) → g < 3 → get_elem? (handles_init zeroed) g ≡ some terminal
unfolding handles_init clear_handles set_tty
init-zeroed zero h = refl
init-zeroed (suc zero) h = refl
init-zeroed (suc (suc zero)) h = refl
init-zeroed (suc (suc (suc g))) h = absurd (omega arith)

-- While the handle table is exactly as `handles_init` leaves it on the zeroed table, so that the three
-- terminal handles have a count of 0, closing a descriptor that holds one of them frees the handle,
-- whatever other descriptors of whatever threads hold it.
pub sys_close-handles_init :
    (fd g : ℕ) (s : Files)
    → s.handles ≡ handles_init zeroed
    → g < 3
    → get_fd fd s ≡ some g
    → get_elem? (sys_close fd s).1.handles g ≡ some free_handle
unfolding sys_close set_fd release_handle is_free is_vfs
sys_close-handles_init fd g s table low e =
    let at : get_elem? s.handles g ≡ some terminal = rw table (init-zeroed g low) in
    let inside = lt_of_get_elem? s.handles g terminal at in
    ground (arith, at, get_elem?-set_self s.handles g free_handle inside)
