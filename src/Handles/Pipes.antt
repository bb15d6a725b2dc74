-- ===== src/Handles/Pipes.antt =====
-- `SYSCALL_PIPE` of kernel/syscall.c. What `user_ptr_range` and `pipe_create` return are arguments.
use neptune_os.Common.{
  get_or, get_or-set_self, ℕ, ◌+◌, ◌≡◌, refl, ap, ◌∙◌, Bool, true, false, Option, none, some, arith,
}
use neptune_os.Handles.{vfs, Files, is_free, release_handle, handle_alloc, set_fd, allocate_fd}
use neptune_os.Handles.Calls.{Reply, ok, enomem, einval, vfs_close}
use neptune_os.Handles.Count.{hit, CountedWith}
use neptune_os.Handles.Release.{
  set_fd-CountedWith, release_handle-CountedWith, handle_alloc-CountedWith,
}
use neptune_os.Handles.Threads.{allocate_fd-some, allocate_fd-none, alloc-none, vfs_close-Counted}

-- `if (fd >= 0) sched_set_fd(fd, -1);`
unfoldable pub unset_fd : Option ℕ → Files → Files
unset_fd none s = s
unset_fd (some fd) s = set_fd fd none s

-- The end of the call: the reply, and the descriptors that it writes to the caller's memory.
unfoldable pub pipe_reply : ℕ → ℕ → Option ℕ → Option ℕ → Files → Reply × Option (ℕ × ℕ) × Files
unfolding unset_fd
pipe_reply h1 h2 (some fd1) (some fd2) s = (ok 0, some (fd1, fd2), s)
pipe_reply h1 h2 (some fd1) none s =
    (enomem, none, release_handle h2 (release_handle h1 (unset_fd (some fd1) s)))
pipe_reply h1 h2 none fd2 s = (enomem, none, release_handle h2 (release_handle h1 (unset_fd fd2 s)))

unfoldable pub pipe_fds : ℕ → ℕ → Option ℕ × Files → Reply × Option (ℕ × ℕ) × Files
unfolding pipe_reply
pipe_fds h1 h2 (fd1, s) = let r = allocate_fd h2 s in pipe_reply h1 h2 fd1 r.0 r.1

unfoldable pub pipe_second : ℕ → ℕ → Option ℕ × Files → Reply × Option (ℕ × ℕ) × Files
unfolding pipe_fds
pipe_second w h1 (none, s) = (enomem, none, vfs_close w (release_handle h1 s))
pipe_second w h1 (some h2, s) = pipe_fds h1 h2 (allocate_fd h1 s)

unfoldable pub pipe_first : ℕ → ℕ → ℕ → Option ℕ × Files → Reply × Option (ℕ × ℕ) × Files
unfolding pipe_second
pipe_first r w pid (none, s) = (enomem, none, vfs_close w (vfs_close r s))
pipe_first r w pid (some h1, s) = pipe_second w h1 (handle_alloc vfs w pid s)

unfoldable pub sys_pipe : Bool → Option (ℕ × ℕ) → ℕ → Files → Reply × Option (ℕ × ℕ) × Files
unfolding pipe_first
sys_pipe false created pid s = (einval, none, s)
sys_pipe true none pid s = (enomem, none, s)
sys_pipe true (some (r, w)) pid s = pipe_first r w pid (handle_alloc vfs r pid s)

-- Both handles of a pipe are released, which no descriptor holds.
release_both :
    (h1 h2 : ℕ) {lost : ℕ → ℕ} {s : Files}
    → CountedWith (λ x. lost x + hit x (some h1) + hit x (some h2)) s
    → CountedWith lost (release_handle h2 (release_handle h1 s))
release_both h1 h2 {lost} c =
    release_handle-CountedWith
      (release_handle-CountedWith c h1 (λ x. lost x + hit x (some h2)) (λ x. omega arith)) h2 lost
      (λ x. omega arith)

-- A descriptor that was just given a handle gives it back.
unset-CountedWith :
    (g fd : ℕ) (e e' : ℕ → ℕ) {s t : Files}
    → CountedWith e s
    → ((x : ℕ) → e x ≡ e' x + hit x (some g))
    → allocate_fd g s ≡ (some fd, t)
    → CountedWith e' t × CountedWith e (set_fd fd none t)
unfolding set_fd
unset-CountedWith g fd e e' {s} {t} c eq a =
    let f = allocate_fd-some g fd s t c.slots a in
    let ct : CountedWith e' t =
      rw f.2 (set_fd-CountedWith c fd (some g) e' f.0 (λ x. rw f.1 (omega (arith, eq x)))) in
    let slot : get_or t.fds fd none ≡ some g =
      ap (λ u. get_or u.fds fd none) f.2
      ∙ ground (arith, f.0, get_or-set_self s.fds fd (some g) none (omega (arith, f.0, c.slots))) in
    (ct, set_fd-CountedWith ct fd none e f.0 (λ x. rw slot (omega (arith, eq x))))

pipe_fds-Counted :
    (h1 h2 : ℕ) {lost : ℕ → ℕ} {s : Files}
    → CountedWith (λ x. lost x + hit x (some h1) + hit x (some h2)) s
    → CountedWith lost (pipe_fds h1 h2 (allocate_fd h1 s)).2
unfolding pipe_fds pipe_reply unset_fd
pipe_fds-Counted h1 h2 {lost} {s} c = first (allocate_fd h1 s) refl
  where
    second :
        (r : Option ℕ × Files)
        → allocate_fd h2 s ≡ r
        → CountedWith lost (pipe_reply h1 h2 none r.0 r.1).2
    second (none, t) e = let u = allocate_fd-none h2 s t e in rw u (release_both h1 h2 c)
    second (some fd, t) e =
        let u =
          unset-CountedWith h2 fd (λ x. lost x + hit x (some h1) + hit x (some h2))
            (λ x. lost x + hit x (some h1)) c (λ x. refl) e in
        release_both h1 h2 u.1

    third :
        (fd1 : ℕ) (t1 : Files)
        → CountedWith (λ x. lost x + hit x (some h2)) t1
        → CountedWith (λ x. lost x + hit x (some h1) + hit x (some h2)) (set_fd fd1 none t1)
        → (r : Option ℕ × Files) → allocate_fd h2 t1 ≡ r
        → CountedWith lost (pipe_reply h1 h2 (some fd1) r.0 r.1).2
    third fd1 t1 c1 c0 (none, t) e =
        let u = allocate_fd-none h2 t1 t e in rw u (release_both h1 h2 c0)
    third fd1 t1 c1 c0 (some fd, t) e =
        let u =
          unset-CountedWith h2 fd (λ x. lost x + hit x (some h2)) lost c1 (λ x. omega arith) e in
        u.0

    first : (r : Option ℕ × Files) → allocate_fd h1 s ≡ r → CountedWith lost (pipe_fds h1 h2 r).2
    first (none, t) e = let u = allocate_fd-none h1 s t e in rw u (second (allocate_fd h2 s) refl)
    first (some fd, t) e =
        let u =
          unset-CountedWith h1 fd (λ x. lost x + hit x (some h1) + hit x (some h2))
            (λ x. lost x + hit x (some h2)) c (λ x. omega arith) e in
        third fd t u.0 u.1 (allocate_fd h2 t) refl

pipe_second-Counted :
    (w pid h1 : ℕ) {lost : ℕ → ℕ} {s : Files}
    → CountedWith (λ x. lost x + hit x (some h1)) s
    → CountedWith lost (pipe_second w h1 (handle_alloc vfs w pid s)).2
unfolding pipe_second is_free
pipe_second-Counted w pid h1 {lost} {s} c = go (handle_alloc vfs w pid s) refl
  where
    go :
        (r : Option ℕ × Files)
        → handle_alloc vfs w pid s ≡ r
        → CountedWith lost (pipe_second w h1 r).2
    go (none, t) e =
        let u = alloc-none w pid s t e in
        rw u (vfs_close-Counted w (release_handle-CountedWith c h1 lost (λ x. omega arith)))
    go (some h2, t) e =
        let a =
          handle_alloc-CountedWith c vfs w pid h2 t
            (λ x. lost x + hit x (some h1) + hit x (some h2)) refl e (λ x. refl) in
        pipe_fds-Counted h1 h2 a.0

-- `SYSCALL_PIPE` keeps the handle counts on every branch: where the pointer is bad, where the pipe,
-- either handle or either descriptor is missing, and where it succeeds.
pub sys_pipe-Counted :
    (valid : Bool) (created : Option (ℕ × ℕ)) (pid : ℕ) {lost : ℕ → ℕ} {s : Files}
    → CountedWith lost s
    → CountedWith lost (sys_pipe valid created pid s).2
unfolding sys_pipe pipe_first is_free
sys_pipe-Counted false created pid c = c
sys_pipe-Counted true none pid c = c
sys_pipe-Counted true (some (r, w)) pid {lost} {s} c = go (handle_alloc vfs r pid s) refl
  where
    go :
        (o : Option ℕ × Files)
        → handle_alloc vfs r pid s ≡ o
        → CountedWith lost (pipe_first r w pid o).2
    go (none, t) e =
        let u = alloc-none r pid s t e in rw u (vfs_close-Counted w (vfs_close-Counted r c))
    go (some h1, t) e =
        let a =
          handle_alloc-CountedWith c vfs r pid h1 t (λ x. lost x + hit x (some h1)) refl e
            (λ x. omega arith) in
        pipe_second-Counted w pid h1 a.0
