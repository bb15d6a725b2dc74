-- ===== src/Handles/Reach.antt =====
-- The calls of kernel/syscall.c and kernel/sched.c on descriptors, in any order and by any thread.
use neptune_os.Common.{length, ℕ, ◌+◌, ◌≡◌, Bool, false, Option, List, ◌∷◌, ◌++◌}
use neptune_os.Handles.Spawn.{left_by_create, left_by_spawn, TerminalsHeld}
use neptune_os.Handles.Pipes.{sys_pipe}
use neptune_os.Handles.Calls.{
  Reply, sys_spawn, sched_exit, create_user, sys_open_file, sys_dup2, sys_close, sys_open_tty,
}
use neptune_os.Handles.{Fds, Files}
use neptune_os.Handles.Count.{Counted}

-- Another thread, whose table has sixteen descriptors too, becomes the current one.
unfoldable pub switch_to : List Fds → Fds → List Fds → Files → Files
switch_to front fds back s = record s { fds = fds; others = front ++ s.fds ∷ back }

abbrev pub nothing : ℕ → ℕ
nothing g = 0

-- A call, and how many references to each handle it leaves that no descriptor holds.
pub data Call (s : Files) : (ℕ → ℕ) → Files → Type 0 where
  close : (fd : ℕ) → Call s nothing (sys_close fd s).1
  dup2 : (oldfd newfd : ℕ) → Call s nothing (sys_dup2 oldfd newfd s).1
  open_file : (file pid : ℕ) → Call s nothing (sys_open_file file pid s).1
  open_tty : (pid : ℕ) → Call s nothing (sys_open_tty pid s).1
  pipe :
      (valid : Bool) (created : Option (ℕ × ℕ)) (pid : ℕ)
      → Call s nothing (sys_pipe valid created pid s).2
  spawn :
      (fault : Option Reply) (user_map : List ℕ) (parent thread_room stack_room : Bool) (pid : ℕ)
      → TerminalsHeld parent s
      → Call s
          (left_by_spawn fault user_map parent thread_room stack_room s)
          (sys_spawn fault user_map parent thread_room stack_room pid s).1
  create :
      (thread_room stack_room : Bool)
      → TerminalsHeld false s
      → Call s
          (left_by_create false thread_room stack_room s)
          (create_user false thread_room stack_room s).1
  exit : Call s nothing (sched_exit s)
  switch :
      (front : List Fds) (fds : Fds) (back : List Fds)
      → s.others ≡ front ++ fds ∷ back
      → length fds ≡ 16
      → Call s nothing (switch_to front fds back s)

-- What a sequence of calls reaches, with the references that they have left, one after the other.
pub data Reached (start : Files) : (ℕ → ℕ) → Files → Type 0 where
  begun : Reached start nothing start
  more :
      {lost left : ℕ → ℕ} {s t : Files}
      → Reached start lost s
      → Call s left t
      → Reached start (λ g. lost g + left g) t
