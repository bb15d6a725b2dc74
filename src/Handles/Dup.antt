-- ===== src/Handles/Dup.antt =====
-- `SYSCALL_DUP2` of kernel/syscall.c: two descriptors for one handle.
use neptune_os.Common.{
  length, get_or, length-set, get_or-set_self, get_or-set_ne, leb, ◌==◌, if◌then◌else◌, ==→eq,
  ==→ne, ==_refl, ne→==, Bool-cases, Option-cases, ge→leb, ℕ, ◌+◌, ◌<◌, ◌≡◌, refl, sym, ap, ◌∙◌,
  ◌≢◌, inl, inr, false, none, some, arith,
}
use neptune_os.Handles.{Files, acquire_handle, get_fd, set_fd}
use neptune_os.Handles.Calls.{ok, drop_fd, sys_dup2}
use neptune_os.Handles.Count.{CountedWith, hit}
use neptune_os.Handles.Release.{set_fd-CountedWith, acquire_handle-CountedWith}
use neptune_os.Handles.Counted.{
  get_fd-some, fds-release, fds-acquire, acquire-set_fd, holders_pos, drop_fd-Counted, drop_fd-slot,
  drop_fd-empty,
}

-- Giving an empty descriptor a handle that some descriptor holds, and counting it.
share-Counted :
    (fd g i : ℕ) {lost : ℕ → ℕ} {s : Files}
    → CountedWith lost s
    → fd < 16
    → get_or s.fds fd none ≡ none
    → get_or s.fds i none ≡ some g
    → CountedWith lost (acquire_handle g (set_fd fd (some g) s))
share-Counted fd g i {lost} {s} c h empty held = rw acquire-set_fd (
    set_fd-CountedWith
      (acquire_handle-CountedWith c g (λ x. lost x + hit x (some g))
        (omega (arith, holders_pos g i s held)) (λ x. omega arith))
      fd (some g) lost h (λ x. rw (fds-acquire g s, empty) (omega arith)))

-- `SYSCALL_DUP2` keeps the counts, on every branch.
pub sys_dup2-Counted :
    (oldfd newfd : ℕ) {lost : ℕ → ℕ} {s : Files}
    → CountedWith lost s
    → CountedWith lost (sys_dup2 oldfd newfd s).1
unfolding sys_dup2
sys_dup2-Counted oldfd newfd {s = s} c = elim (Option-cases (get_fd oldfd s)) [
  | inl e ↦ rw (e, sys_dup2) c
  | inr (g, e) ↦ elim (Bool-cases (leb 16 newfd)) [
    | inl out ↦ rw (e, sys_dup2) (rw out c)
    | inr inside ↦ elim (Bool-cases (oldfd == newfd)) [
      | inl same ↦ rw (e, sys_dup2) (rw (inside, same) c)
      | inr ne ↦
          let d = drop_fd-Counted newfd c in
          let lt : newfd < 16 = ground arith in
          rw (e, sys_dup2)
            (rw (inside, ne)
              (share-Counted newfd g oldfd d lt (drop_fd-empty newfd s c.slots lt) (
                drop_fd-slot newfd oldfd s (ne→== newfd oldfd (ground arith))
                ∙ (get_fd-some oldfd s e).1)))
    ]
  ]
]

length-drop_fd : (fd : ℕ) (s : Files) → length (drop_fd fd s).fds ≡ length s.fds
unfolding drop_fd set_fd
length-drop_fd fd s = elim (Option-cases (get_fd fd s)) [
  | inl e ↦ rw (e, drop_fd)
  | inr (g, e) ↦
      rw (e, drop_fd)
        (ap length (fds-release g (set_fd fd none s)) ∙ ground (arith, length-set s.fds fd none))
]

get_fd-shared :
    (fd g i : ℕ) (s : Files)
    → length s.fds ≡ 16
    → fd < 16
    → get_fd i (acquire_handle g (set_fd fd (some g) s)) ≡ (if fd == i then some g else get_fd i s)
unfolding get_fd set_fd
get_fd-shared fd g i s slots lt = ground (
  arith,
  fds-acquire g (set_fd fd (some g) s),
  get_or-set_self s.fds fd (some g) none,
  get_or-set_ne s.fds fd i (some g) none,
  ==→ne fd i,
)

get_fd-drop_fd : (fd i : ℕ) (s : Files) → (fd == i) ≡ false → get_fd i (drop_fd fd s) ≡ get_fd i s
unfolding get_fd
get_fd-drop_fd fd i s ne = rw (drop_fd-slot fd i s ne)

-- After `SYSCALL_DUP2` of an open descriptor to a descriptor below 16, the new descriptor holds the
-- handle of the old one, and the old one still holds it, also when the two are the same. Any other
-- descriptor is as before.
pub get_fd-sys_dup2 :
    (oldfd newfd g : ℕ) (s : Files)
    → length s.fds ≡ 16
    → get_fd oldfd s ≡ some g
    → newfd < 16
    → let (reply, s') = sys_dup2 oldfd newfd s in
      (reply ≡ ok newfd)
      × (get_fd newfd s' ≡ some g)
      × (get_fd oldfd s' ≡ some g)
      × ((i : ℕ) → i ≢ newfd → get_fd i s' ≡ get_fd i s)
unfolding sys_dup2
get_fd-sys_dup2 oldfd newfd g s slots e lt = elim (Bool-cases (oldfd == newfd)) [
  | inl same ↦
      let q = ==→eq oldfd newfd same in
      rw (e, sys_dup2) (rw (ge→leb 16 newfd lt, same) (refl, rw (← q) e, e, λ i ne. refl))
  | inr ne ↦
      let d = drop_fd newfd s in
      let full = length-drop_fd newfd s ∙ slots in
      let ne' = ne→== newfd oldfd (λ q. ==→ne oldfd newfd ne (sym q)) in
      rw (e, sys_dup2)
        (rw (ge→leb 16 newfd lt, ne)
          (
            refl,
            get_fd-shared newfd g newfd d full lt ∙ rw (==_refl newfd),
            get_fd-shared newfd g oldfd d full lt ∙ rw ne' (get_fd-drop_fd newfd oldfd s ne' ∙ e),
            λ i other.
                let q = ne→== newfd i (λ z. other (sym z)) in
                get_fd-shared newfd g i d full lt ∙ rw q (get_fd-drop_fd newfd i s q),
          ))
]
