-- ===== src/Handles/Spawn.antt =====
-- Starting threads: the handle counts of SYSCALL_SPAWN in kernel/syscall.c and sched_create_user in
-- kernel/sched.c.
use neptune_os.Common.{
  leb, ◌==◌, if◌then◌else◌, ==→eq, ==_refl, Bool-cases, Option-cases, if_intro, ℕ, ◌+◌, ◌^◌, ◌<◌,
  ◌≡◌, refl, sym, ap, subst, ◌∙◌, inl, inr, Bool, true, false, Option, none, some, List, [], ◌∷◌,
  arith,
}
use neptune_os.Handles.{Fds, Files, acquire_handle}
use neptune_os.Handles.{get_fd}
use neptune_os.Handles.Count.{CountOk}
use neptune_os.Handles.Counted.{holders_pos, get_fd-some}
use neptune_os.Handles.Calls.{
  Reply, inherit_fds, terminals, create_user, acquire_overrides, sys_spawn,
}
use neptune_os.Handles.Count.{CountOk, hit, count, count_all, holders, CountedWith}
use neptune_os.Handles.Release.{same-CountedWith, acquire_handle-CountedWith}
use neptune_os.Handles.Counted.{others-acquire, fds-acquire}

holders-acquire : (x g : ℕ) (s : Files) → holders x (acquire_handle g s) ≡ holders x s
unfolding holders
holders-acquire x g s = rw (fds-acquire g s, others-acquire g s)

count-le-holders : (g : ℕ) (s : Files) → 0 < count g s.fds → 0 < holders g s
unfolding holders
count-le-holders g s h = omega arith

-- The copy of the descriptors `fds`, each of which some descriptor holds.
inherit_fds-CountedWith :
    (fds : Fds) (e e' : ℕ → ℕ) (s : Files)
    → CountedWith e s
    → ((g : ℕ) → e' g ≡ e g + count g fds)
    → ((g : ℕ) → 0 < count g fds → 0 < holders g s)
    → CountedWith e' (inherit_fds fds s)
      × ((inherit_fds fds s).fds ≡ s.fds)
      × ((inherit_fds fds s).others ≡ s.others)
unfolding inherit_fds count
inherit_fds-CountedWith [] e e' s c eq held =
    (same-CountedWith c e' (λ x h. eq x ∙ omega arith), refl, refl)
inherit_fds-CountedWith (none ∷ fds) e e' s c eq held =
    inherit_fds-CountedWith fds e e' s c (λ g. eq g ∙ omega arith)
      (λ g h. held g (omega (arith, h)))
inherit_fds-CountedWith (some g ∷ fds) e e' s c eq held =
    let t = acquire_handle g s in
    let here : 0 < holders g s + e g = omega (arith, held g (ground (arith, ==_refl g))) in
    let keep : (x : ℕ) → holders x t ≡ holders x s = λ x. holders-acquire x g s in
    let ih =
      inherit_fds-CountedWith fds (λ x. e x + hit x (some g)) e' t
        (acquire_handle-CountedWith c g (λ x. e x + hit x (some g)) here (λ x. refl))
        (λ x. eq x ∙ omega arith) (λ x h. omega (arith, keep x, held x (omega (arith, h)))) in
    (ih.0, ih.1 ∙ fds-acquire g s, ih.2 ∙ others-acquire g s)

terminals-low : (g : ℕ) → 0 < count g terminals → g < 3
unfolding count
terminals-low g h = ground arith

-- The handles that the map of SYSCALL_SPAWN names.
pub mapped : List ℕ → Files → Fds
mapped [] s = []
mapped (fd ∷ user_map) s = (if leb (2 ^ 31) fd then none else get_fd fd s) ∷ mapped user_map s

-- The descriptors of a new thread.
pub given : Bool → Files → Fds
given parent s = if parent then s.fds else terminals

-- The references that sched_create_user leaves without a holder: those of a thread without a stack.
abbrev pub left_by_create : Bool → Bool → Bool → Files → ℕ → ℕ
left_by_create parent true false s g = count g (given parent s)
left_by_create parent true true s g = 0
left_by_create parent false stack_room s g = 0

-- Those that SYSCALL_SPAWN leaves: also what the map names.
abbrev pub left_by_spawn : Option Reply → List ℕ → Bool → Bool → Bool → Files → ℕ → ℕ
left_by_spawn (some e) user_map parent thread_room stack_room s g = 0
left_by_spawn none user_map parent thread_room stack_room s g =
    count g (mapped user_map s) + left_by_create parent thread_room stack_room s g

-- The three terminal handles have holders, where the descriptors come from no parent.
abbrev pub TerminalsHeld : Bool → Files → Type 0
TerminalsHeld parent s = parent ≡ false → (g : ℕ) → g < 3 → 0 < holders g s

given-held :
    (parent : Bool) (s : Files)
    → TerminalsHeld parent s
    → (g : ℕ) → 0 < count g (given parent s)
    → 0 < holders g s
unfolding given
given-held true s held g h = count-le-holders g s h
given-held false s held g h = held refl g (terminals-low g h)

pub create_user-Counted :
    (parent thread_room stack_room : Bool) {lost : ℕ → ℕ} {s : Files}
    → CountedWith lost s
    → TerminalsHeld parent s
    → CountedWith
        (λ g. lost g + left_by_create parent thread_room stack_room s g)
        (create_user parent thread_room stack_room s).1
unfolding create_user given holders count_all
create_user-Counted parent false stack_room c held = same-CountedWith c _ (λ x h. omega arith)
create_user-Counted parent true false {lost} {s} c held =
    (inherit_fds-CountedWith (given parent s) lost (λ g. lost g + count g (given parent s)) s c
      (λ g. refl) (given-held parent s held)).0
create_user-Counted parent true true {lost} {s} c held =
    let fds = given parent s in
    let i =
      inherit_fds-CountedWith fds lost (λ g. lost g + count g fds) s c (λ g. refl)
        (given-held parent s held) in
    record {
      entries = i.0.entries;
      slots = i.0.slots;
      counts = λ g h at. subst (λ n. CountOk n h) (omega arith) (i.0.counts g h at);
    }

get_fd-acquire : (fd g : ℕ) (s : Files) → get_fd fd (acquire_handle g s) ≡ get_fd fd s
unfolding get_fd
get_fd-acquire fd g s = rw (fds-acquire g s)

mapped-acquire : (m : List ℕ) (g : ℕ) (s : Files) → mapped m (acquire_handle g s) ≡ mapped m s
unfolding mapped
mapped-acquire [] g s = refl
mapped-acquire (fd ∷ m) g s = rw (get_fd-acquire fd g s, mapped-acquire m g s) refl

acquire_overrides-inherit_fds :
    (m : List ℕ) (s : Files) → acquire_overrides m s ≡ inherit_fds (mapped m s) s
unfolding acquire_overrides inherit_fds mapped
acquire_overrides-inherit_fds [] s = refl
acquire_overrides-inherit_fds (fd ∷ m) s = elim (Bool-cases (leb (2 ^ 31) fd)) [
  | inl negative ↦ rw negative (acquire_overrides-inherit_fds m s)
  | inr positive ↦ elim (Option-cases (get_fd fd s)) [
    | inl e ↦ rw (positive, e) (acquire_overrides-inherit_fds m s)
    | inr (g, e) ↦
        rw (positive, e)
          (acquire_overrides-inherit_fds m (acquire_handle g s)
            ∙ ap (λ l. inherit_fds l (acquire_handle g s)) (mapped-acquire m g s))
  ]
]

mapped-held : (m : List ℕ) (s : Files) (g : ℕ) → 0 < count g (mapped m s) → 0 < holders g s
unfolding mapped count
mapped-held [] s g h = absurd (omega arith)
mapped-held (fd ∷ m) s g h = elim (Bool-cases (leb (2 ^ 31) fd)) [
  | inl negative ↦ mapped-held m s g (omega (arith, rw negative at h))
  | inr positive ↦ elim (Option-cases (get_fd fd s)) [
    | inl e ↦ mapped-held m s g (omega (arith, rw (positive, e) at h))
    | inr (k, e) ↦ elim (Bool-cases (k == g)) [
      | inl same ↦ holders_pos g fd s ((get_fd-some fd s e).1 ∙ ap some (==→eq k g same))
      | inr other ↦ mapped-held m s g (omega (arith, rw (positive, e, other) at h))
    ]
  ]
]

left_by_create-same :
    (parent thread_room stack_room : Bool) (s t : Files)
    → t.fds ≡ s.fds
    → (g : ℕ)
    → left_by_create parent thread_room stack_room t g
      ≡ left_by_create parent thread_room stack_room s g
unfolding given
left_by_create-same parent false stack_room s t e g = refl
left_by_create-same parent true true s t e g = refl
left_by_create-same parent true false s t e g =
    ap (λ l. count g (if parent then l else terminals)) e

-- `SYSCALL_SPAWN`, on every branch.
pub sys_spawn-Counted :
    (fault : Option Reply) (user_map : List ℕ) (parent thread_room stack_room : Bool) (pid : ℕ)
    {lost : ℕ → ℕ} {s : Files}
    → CountedWith lost s
    → TerminalsHeld parent s
    → CountedWith
        (λ g. lost g + left_by_spawn fault user_map parent thread_room stack_room s g)
        (sys_spawn fault user_map parent thread_room stack_room pid s).1
unfolding sys_spawn holders
sys_spawn-Counted (some e) user_map parent thread_room stack_room pid c held =
    same-CountedWith c _ (λ x h. omega arith)
sys_spawn-Counted none user_map parent thread_room stack_room pid {lost} {s} c held =
    let t = acquire_overrides user_map s in
    let fds = mapped user_map s in
    let i =
      inherit_fds-CountedWith fds lost (λ g. lost g + count g fds) s c (λ g. refl)
        (mapped-held user_map s) in
    let same = acquire_overrides-inherit_fds user_map s in
    let fds_eq : t.fds ≡ s.fds = ap (λ x. x.fds) same ∙ i.1 in
    let others_eq : t.others ≡ s.others = ap (λ x. x.others) same ∙ i.2 in
    let ct : CountedWith (λ g. lost g + count g fds) t =
      subst (CountedWith (λ g. lost g + count g fds)) (sym same) i.0 in
    let made =
      create_user-Counted parent thread_room stack_room ct
        (λ e g h. rw (fds_eq, others_eq) (held e g h)) in
    let r = create_user parent thread_room stack_room t in
    if_intro
      (λ (x : Reply × Files).
        CountedWith (λ g. lost g + left_by_spawn none user_map parent thread_room stack_room s g)
          x.1)
      r.0
      (λ e.
        same-CountedWith made _
          (λ x h. omega (arith, left_by_create-same parent thread_room stack_room s t fds_eq x)))
      (λ e.
        same-CountedWith made _
          (λ x h. omega (arith, left_by_create-same parent thread_room stack_room s t fds_eq x)))
