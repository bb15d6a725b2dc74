-- ===== src/Handles/Threads.antt =====
-- Opening files and ending threads: the handle counts of kernel/syscall.c and kernel/sched.c.
use neptune_os.Common.{
  length, get_elem?, get_or, get_or-set_self, get_or-set_ne, lt_of_get_elem?, get_elem?-set_self,
  ◌==◌, ==→eq, ==→ne, Bool-cases, Option-cases, ℕ, zero, suc, ◌+◌, ◌-◌, ◌≤◌, ◌<◌, ◌≡◌, refl, sym,
  ap, ◌∙◌, ◌≢◌, inl, inr, Option, none, some, [], ◌∷◌, arith,
}
use neptune_os.Handles.{
  handle_max, vfs, Handle, Fds, Files, is_free, is_vfs, release_handle, find_free, handle_alloc,
  get_fd, set_fd, find_fd, allocate_fd,
}
use neptune_os.Handles.Calls.{
  file_allocated, exit_fd, file_attached, enomem, vfs_close, sys_open_file, exit_fds, sched_exit,
}
use neptune_os.Handles.Count.{hit, holders, CountedWith}
use neptune_os.Handles.Release.{
  find_free-some, set_fd-CountedWith, release_handle-CountedWith, handle_alloc-CountedWith,
}
use neptune_os.Handles.Counted.{get_fd-none, fds-release, release-set_fd, detach-Counted}

pub find_fd-some :
    (fds : Fds) (i k : ℕ)
    → find_fd fds i ≡ some k
    → (i ≤ k) × (k < i + length fds) × (get_or fds (k - i) none ≡ none)
unfolding find_fd
find_fd-some [] i k h = absurd (cc)
find_fd-some (none ∷ fds) i k h =
    let q : i ≡ k = ground arith in
    let z : k - i ≡ 0 = omega arith in (omega arith, omega arith, rw z)
find_fd-some (some g ∷ fds) i k h =
    let ih = find_fd-some fds (i + 1) k h in
    let step : k - i ≡ suc (k - (i + 1)) = omega (arith, ih.0) in
    (omega (arith, ih.0), omega (arith, ih.1), ap (λ n. get_or (some g ∷ fds) n none) step ∙ ih.2)

pub allocate_fd-some :
    (g fd : ℕ) (s s' : Files)
    → length s.fds ≡ 16
    → allocate_fd g s ≡ (some fd, s')
    → (fd < 16) × (get_or s.fds fd none ≡ none) × (s' ≡ set_fd fd (some g) s)
unfolding allocate_fd set_fd
allocate_fd-some g fd s s' slots h = elim (Option-cases (find_fd s.fds 0)) [
  | inl full ↦ absurd (ground arith)
  | inr (k, e) ↦
      let f = find_fd-some s.fds 0 k e in
      let q : k ≡ fd = ground arith in
      let z : k - 0 ≡ fd = omega arith in
      (omega (arith, f.1), ap (λ n. get_or s.fds n none) (sym z) ∙ f.2, ground (arith, f.1))
]

pub vfs_close-Counted :
    (file : ℕ) {lost : ℕ → ℕ} {s : Files} → CountedWith lost s → CountedWith lost (vfs_close file s)
unfolding vfs_close holders
vfs_close-Counted file c = record { entries = c.entries; slots = c.slots; counts = c.counts }

pub alloc-none : (file pid : ℕ) (s t : Files) → handle_alloc vfs file pid s ≡ (none, t) → t ≡ s
unfolding handle_alloc
alloc-none file pid s t h = ground arith

pub allocate_fd-none : (g : ℕ) (s t : Files) → allocate_fd g s ≡ (none, t) → t ≡ s
unfolding allocate_fd
allocate_fd-none g s t h = ground arith

-- A handle with one reference that no descriptor holds goes to a descriptor, or is released.
attach-Counted :
    (file g : ℕ) {lost : ℕ → ℕ} {s : Files}
    → CountedWith (λ x. lost x + hit x (some g)) s
    → CountedWith lost (file_attached file g (allocate_fd g s)).1
unfolding file_attached
attach-Counted file g {lost} {s} c = attached (allocate_fd g s) refl
  where
    attached :
        (r : Option ℕ × Files) → allocate_fd g s ≡ r → CountedWith lost (file_attached file g r).1
    attached (none, t) e =
        let r = release_handle-CountedWith c g lost (λ x. omega arith) in
        rw (allocate_fd-none g s t e) (vfs_close-Counted file r)
    attached (some fd, t) e =
        let a = allocate_fd-some g fd s t c.slots e in
        rw a.2 (set_fd-CountedWith c fd (some g) lost a.0 (λ x. rw a.1 (omega arith)))

-- `SYSCALL_OPEN` of a file keeps the handle counts, where it succeeds and where it fails for want
-- of a handle or of a descriptor.
pub sys_open_file-Counted :
    (file pid : ℕ) {lost : ℕ → ℕ} {s : Files}
    → CountedWith lost s
    → CountedWith lost (sys_open_file file pid s).1
unfolding sys_open_file file_allocated is_free
sys_open_file-Counted file pid {lost} {s} c = allocated (handle_alloc vfs file pid s) refl
  where
    allocated :
        (r : Option ℕ × Files)
        → handle_alloc vfs file pid s ≡ r
        → CountedWith lost (file_allocated file r).1
    allocated (none, t) e =
        let unchanged : t ≡ s = alloc-none file pid s t e in rw unchanged (vfs_close-Counted file c)
    allocated (some g, t) e =
        let a =
          handle_alloc-CountedWith c vfs file pid g t (λ x. lost x + hit x (some g)) refl e
            (λ x. omega arith) in
        attach-Counted file g a.0

-- With no descriptor of the current thread free and a handle free in the table of 128, whatever the
-- counts of the other handles are, `SYSCALL_OPEN` of a file fails with -ENOMEM and closes the file that
-- it opened twice: once when it releases the handle, and once more itself.
pub sys_open_file-closed_twice :
    (file pid : ℕ) (s : Files)
    → length s.handles ≡ handle_max
    → find_free s.handles 0 ≢ none
    → find_fd s.fds 0 ≡ none
    → ((sys_open_file file pid s).0 ≡ enomem)
      × ((sys_open_file file pid s).1.closed ≡ file ∷ file ∷ s.closed)
unfolding sys_open_file handle_alloc allocate_fd release_handle is_vfs is_free
sys_open_file-closed_twice file pid s entries room full =
    elim (Option-cases (find_free s.handles 0)) [
      | inl e ↦ absurd (room e)
      | inr (g, e) ↦
          let f = find_free-some s.handles 0 g e in
          let z : g - 0 ≡ g = omega arith in
          let at : get_elem? s.handles g ≡ some f.1 = ap (get_elem? s.handles) (sym z) ∙ f.2 in
          let inside = lt_of_get_elem? s.handles g f.1 at in
          let new : Handle = record { type = vfs; file = file; owner_pid = pid; refcount = 1 } in
          ground (arith, get_elem?-set_self s.handles g new inside, inside, entries)
    ]

exit_fd-Counted :
    (i : ℕ) {lost : ℕ → ℕ} {s : Files}
    → CountedWith lost s
    → i < 16
    → CountedWith lost (exit_fd i s)
      × (get_or (exit_fd i s).fds i none ≡ none)
      × ((k : ℕ) → k ≢ i → get_or (exit_fd i s).fds k none ≡ get_or s.fds k none)
unfolding exit_fd set_fd
exit_fd-Counted i {s = s} c h = elim (Option-cases (get_fd i s)) [
  | inl e ↦ rw (e, exit_fd) (c, get_fd-none i s e h, λ k ne. refl)
  | inr (g, e) ↦
      let same = fds-release g s in
      rw (e, exit_fd)
        (
          rw (← release-set_fd g i none s) (detach-Counted i g c e),
          ground (arith, same, get_or-set_self s.fds i none none, c.slots),
          λ k ne. ground (arith, same, get_or-set_ne s.fds i k none none, ne),
        )
]

exit_fds-Counted :
    (left i : ℕ) {lost : ℕ → ℕ} {s : Files}
    → CountedWith lost s
    → i + left ≡ 16
    → ((k : ℕ) → k < i → get_or s.fds k none ≡ none)
    → CountedWith lost (exit_fds left i s)
      × ((k : ℕ) → k < 16 → get_or (exit_fds left i s).fds k none ≡ none)
unfolding exit_fds
exit_fds-Counted zero i c sum done = (c, λ k h. done k (omega arith))
exit_fds-Counted (suc left) i {s = s} c sum done =
    let x = exit_fd-Counted i c (omega arith) in
    exit_fds-Counted left (i + 1) x.0 (omega arith) (λ k h. elim (Bool-cases (k == i)) [
      | inl q ↦ rw (==→eq k i q) x.1
      | inr q ↦ x.2 k (==→ne k i q) ∙ done k (ground arith)
    ])

-- The end of a thread keeps the counts, and leaves all of its descriptors empty: each handle that
-- it held was released once for each descriptor that held it.
pub sched_exit-Counted :
    {lost : ℕ → ℕ} {s : Files}
    → CountedWith lost s
    → CountedWith lost (sched_exit s)
      × ((fd : ℕ) → fd < 16 → get_or (sched_exit s).fds fd none ≡ none)
unfolding sched_exit
sched_exit-Counted c = exit_fds-Counted 16 0 c refl (λ k h. absurd (omega arith))
