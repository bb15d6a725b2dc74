-- ===== src/Handles/Counted.antt =====
-- The calls of kernel/syscall.c and kernel/sched.c on descriptors keep every handle's count.
use neptune_os.Common.{
  length, get_elem?, get_or, get_or-set_self, get_or-set_ne, lt_of_get_elem?, ◌==◌, if◌then◌else◌,
  ==→ne, ==_refl, Bool-cases, Option-cases, ℕ, zero, suc, ◌+◌, ◌<◌, ◌≡◌, ap, ◌∙◌, inl, inr, false,
  ◌&&◌, Option, none, some, [], ◌∷◌, arith,
}
use neptune_os.Handles.{
  Handle, Fds, Files, is_free, is_vfs, handle_max, acquire_handle, release_handle, get_fd, set_fd,
}
use neptune_os.Handles.Calls.{sys_close, drop_fd}
use neptune_os.Handles.Count.{CountedWith, hit, count, holders, Counted}
use neptune_os.Handles.Release.{set_fd-CountedWith, release_handle-CountedWith}

pub get_fd-some :
    (fd : ℕ) (s : Files) {g : ℕ}
    → get_fd fd s ≡ some g
    → (fd < 16) × (get_or s.fds fd none ≡ some g)
unfolding get_fd
get_fd-some fd s h = ground arith

pub get_fd-none : (fd : ℕ) (s : Files) → get_fd fd s ≡ none → fd < 16 → get_or s.fds fd none ≡ none
unfolding get_fd
get_fd-none fd s h lt = ground arith

pub fds-release : (g : ℕ) (s : Files) → (release_handle g s).fds ≡ s.fds
unfolding release_handle
fds-release g s = ground arith

pub fds-acquire : (g : ℕ) (s : Files) → (acquire_handle g s).fds ≡ s.fds
unfolding acquire_handle
fds-acquire g s = ground arith

pub others-acquire : (g : ℕ) (s : Files) → (acquire_handle g s).others ≡ s.others
unfolding acquire_handle
others-acquire g s = ground arith

pub acquire-set_fd :
    (g fd : ℕ) (v : Option ℕ) (s : Files)
    → acquire_handle g (set_fd fd v s) ≡ set_fd fd v (acquire_handle g s)
unfolding acquire_handle set_fd
acquire-set_fd g fd v s = ground arith

pub release-set_fd :
    (g fd : ℕ) (v : Option ℕ) (s : Files)
    → release_handle g (set_fd fd v s) ≡ set_fd fd v (release_handle g s)
unfolding release_handle set_fd
release-set_fd g fd v s = ground arith

count_pos : (g : ℕ) (fds : Fds) (i : ℕ) → get_or fds i none ≡ some g → 0 < count g fds
unfolding count
count_pos g [] i h = absurd (cc)
count_pos g (fd ∷ fds) zero h = ground (arith, ==_refl g)
count_pos g (fd ∷ fds) (suc i) h = omega (arith, count_pos g fds i h)

pub holders_pos : (g i : ℕ) (s : Files) → get_or s.fds i none ≡ some g → 0 < holders g s
unfolding holders
holders_pos g i s h = omega (arith, count_pos g s.fds i h)

-- Emptying a descriptor and releasing what it held.
pub detach-Counted :
    (fd g : ℕ) {lost : ℕ → ℕ} {s : Files}
    → CountedWith lost s
    → get_fd fd s ≡ some g
    → CountedWith lost (release_handle g (set_fd fd none s))
detach-Counted fd g {lost} {s} c h =
    let f = get_fd-some fd s h in
    release_handle-CountedWith
      (set_fd-CountedWith c fd none (λ x. lost x + hit x (some g)) f.0 (λ x. rw f.1 (omega arith)))
      g lost (λ x. omega arith)

pub drop_fd-Counted :
    (fd : ℕ) {lost : ℕ → ℕ} {s : Files} → CountedWith lost s → CountedWith lost (drop_fd fd s)
unfolding drop_fd
drop_fd-Counted fd {s = s} c = elim (Option-cases (get_fd fd s)) [
  | inl e ↦ rw (e, drop_fd) c
  | inr (g, e) ↦ rw (e, drop_fd) (detach-Counted fd g c e)
]

-- `SYSCALL_CLOSE` keeps the counts, for every descriptor number and on every branch.
pub sys_close-Counted :
    (fd : ℕ) {lost : ℕ → ℕ} {s : Files} → CountedWith lost s → CountedWith lost (sys_close fd s).1
unfolding sys_close
sys_close-Counted fd {s = s} c = elim (Option-cases (get_fd fd s)) [
  | inl e ↦ rw (e, sys_close) c
  | inr (g, e) ↦ rw (e, sys_close) (detach-Counted fd g c e)
]

-- With exact counts, closing a descriptor closes the file behind its handle exactly when no other
-- descriptor of any thread holds the handle.
pub sys_close-closed :
    (fd g : ℕ) {h : Handle} {s : Files}
    → Counted s
    → get_fd fd s ≡ some g
    → get_elem? s.handles g ≡ some h
    → (sys_close fd s).1.closed
      ≡ (if is_vfs h.type && (holders g s == 1) then h.file ∷ s.closed else s.closed)
unfolding sys_close set_fd release_handle
sys_close-closed fd g {h} {s} c e at =
    let f = get_fd-some fd s e in
    let n = c.counts g h at in
    let inside : g < handle_max = omega (arith, lt_of_get_elem? s.handles g h at, c.entries) in
    let held = holders_pos g fd s f.1 in
    elim (Bool-cases (is_free h.type)) [
      | inl free_type ↦ absurd (omega (arith, n.0 free_type))
      | inr used ↦ ground (arith, n.1 used)
    ]

pub drop_fd-slot :
    (fd i : ℕ) (s : Files)
    → (fd == i) ≡ false
    → get_or (drop_fd fd s).fds i none ≡ get_or s.fds i none
unfolding drop_fd set_fd
drop_fd-slot fd i s ne = elim (Option-cases (get_fd fd s)) [
  | inl e ↦ rw (e, drop_fd)
  | inr (g, e) ↦
      rw (e, drop_fd)
        (ap (λ l. get_or l i none) (fds-release g (set_fd fd none s))
          ∙ ground (arith, get_or-set_ne s.fds fd i none none, ==→ne fd i ne))
]

pub drop_fd-empty :
    (fd : ℕ) (s : Files) → length s.fds ≡ 16 → fd < 16 → get_or (drop_fd fd s).fds fd none ≡ none
unfolding drop_fd set_fd
drop_fd-empty fd s slots h = elim (Option-cases (get_fd fd s)) [
  | inl e ↦ rw (e, drop_fd) (get_fd-none fd s e h)
  | inr (g, e) ↦
      rw (e, drop_fd)
        (ap (λ l. get_or l fd none) (fds-release g (set_fd fd none s))
          ∙ ground (arith, get_or-set_self s.fds fd none none))
]
