-- ===== src/Handles/Calls.antt =====
-- The system calls of kernel/syscall.c on descriptors, and what the creation and the end of a thread in
-- kernel/sched.c do to them. What `vfs_open` and `pipe_create` return are arguments.
use neptune_os.Common.{
  replicate, leb, ◌==◌, if◌then◌else◌, ℕ, zero, suc, ◌+◌, ◌^◌, Bool, true, false, not, Option, none,
  some, List, [], ◌∷◌,
}
use neptune_os.Handles.{
  tty, vfs, Fds, Files, acquire_handle, release_handle, handle_alloc, get_fd, set_fd, allocate_fd,
}

-- The errors of these calls, and a descriptor as a result.
pub data Reply : Type 0 where
  ok : ℕ → Reply
  ebadf enomem einval : Reply

unfoldable pub vfs_close : ℕ → Files → Files
vfs_close file s = record s { closed = file ∷ s.closed }

unfoldable pub sys_close : ℕ → Files → Reply × Files
sys_close fd s = elim (get_fd fd s) [
  | none ↦ (ebadf, s)
  | some g ↦ (ok 0, release_handle g (set_fd fd none s))
]

-- The step of `SYSCALL_DUP2` that empties the new descriptor.
unfoldable pub drop_fd : ℕ → Files → Files
drop_fd fd s = elim (get_fd fd s) [ none ↦ s | some g ↦ release_handle g (set_fd fd none s) ]

unfoldable pub sys_dup2 : ℕ → ℕ → Files → Reply × Files
unfolding drop_fd
sys_dup2 oldfd newfd s = elim (get_fd oldfd s) [
  | none ↦ (ebadf, s)
  | some g ↦
      if leb 16 newfd
      then (ebadf, s)
      else (if oldfd == newfd
          then (ok newfd, s)
          else (ok newfd, acquire_handle g (set_fd newfd (some g) (drop_fd newfd s))))
]

-- `SYSCALL_OPEN` of a file that `vfs_open` has opened, from its last step back: a descriptor was
-- asked for, then a handle.
unfoldable pub file_attached : ℕ → ℕ → Option ℕ × Files → Reply × Files
unfolding vfs_close
file_attached file g (none, s) = (enomem, vfs_close file (release_handle g s))
file_attached file g (some fd, s) = (ok fd, s)

unfoldable pub file_allocated : ℕ → Option ℕ × Files → Reply × Files
unfolding file_attached vfs_close
file_allocated file (none, s) = (enomem, vfs_close file s)
file_allocated file (some g, s) = file_attached file g (allocate_fd g s)

unfoldable pub sys_open_file : ℕ → ℕ → Files → Reply × Files
unfolding file_allocated
sys_open_file file pid s = file_allocated file (handle_alloc vfs file pid s)

-- `SYSCALL_OPEN` of the terminal.
unfoldable pub tty_attached : ℕ → Option ℕ × Files → Reply × Files
tty_attached g (none, s) = (enomem, release_handle g s)
tty_attached g (some fd, s) = (ok fd, s)

unfoldable pub tty_allocated : Option ℕ × Files → Reply × Files
unfolding tty_attached
tty_allocated (none, s) = (enomem, s)
tty_allocated (some g, s) = tty_attached g (allocate_fd g s)

unfoldable pub sys_open_tty : ℕ → Files → Reply × Files
unfolding tty_allocated
sys_open_tty pid s = tty_allocated (handle_alloc tty 0 pid s)

-- The descriptors of a new thread in `sched_create_user`: each that is not -1 is acquired.
unfoldable pub inherit_fds : Fds → Files → Files
inherit_fds [] s = s
inherit_fds (none ∷ fds) s = inherit_fds fds s
inherit_fds (some g ∷ fds) s = inherit_fds fds (acquire_handle g s)

-- The descriptors 0, 1 and 2 of a thread without a parent; the thirteen others are -1.
abbrev pub terminals : Fds
terminals = some 0 ∷ some 1 ∷ some 2 ∷ replicate 13 none

-- `sched_create_user`: whether it returns 0, and the state. The arguments: whether the parent is found,
-- which is then the current thread, the caller of SYSCALL_SPAWN; whether there is memory for the thread;
-- and for its stack. Without a stack the thread is removed, and what was acquired stays acquired.
unfoldable pub create_user : Bool → Bool → Bool → Files → Bool × Files
unfolding inherit_fds
create_user parent thread_room stack_room s =
    let fds = if parent then s.fds else terminals in
    let s' = inherit_fds fds s in
    if not thread_room
    then (false, s)
    else (if stack_room then (true, record s' { others = fds ∷ s'.others }) else (false, s'))

-- The loop of `SYSCALL_SPAWN` over the descriptors `user_map` that the caller passes, as 32-bit patterns:
-- each open one is acquired, and its handle kept in `override_fds` of the launch.
unfoldable pub acquire_overrides : List ℕ → Files → Files
acquire_overrides [] s = s
acquire_overrides (fd ∷ user_map) s =
    if leb (2 ^ 31) fd then acquire_overrides user_map s else (elim (get_fd fd s) [
      | none ↦ acquire_overrides user_map s
      | some g ↦ acquire_overrides user_map (acquire_handle g s)
    ])

-- `SYSCALL_SPAWN`. `fault` is the error where the path, the launch or its strings fail; `user_map` has
-- three descriptors, or is empty where no map is passed or its range is not the caller's; `pid` is the
-- number of the new thread.
unfoldable pub sys_spawn : Option Reply → List ℕ → Bool → Bool → Bool → ℕ → Files → Reply × Files
unfolding acquire_overrides create_user
sys_spawn fault user_map parent thread_room stack_room pid s = elim fault [
  | some e ↦ (e, s)
  | none ↦
      let (done, s') = create_user parent thread_room stack_room (acquire_overrides user_map s) in
      if done then (ok pid, s') else (enomem, s')
]

-- The loop of `sched_exit` over the current thread's descriptors.
unfoldable pub exit_fd : ℕ → Files → Files
exit_fd i s = elim (get_fd i s) [ none ↦ s | some g ↦ set_fd i none (release_handle g s) ]

unfoldable pub exit_fds : ℕ → ℕ → Files → Files
unfolding exit_fd
exit_fds zero i s = s
exit_fds (suc left) i s = exit_fds left (i + 1) (exit_fd i s)

unfoldable pub sched_exit : Files → Files
unfolding exit_fds
sched_exit s = exit_fds 16 0 s
