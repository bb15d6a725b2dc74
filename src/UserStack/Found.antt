-- ===== src/UserStack/Found.antt =====
-- The user program finds its stack where the kernel writes it: the pages of `user_space_map_stack`.
use neptune_os.Common.{
  length, ltb, ◌==◌, if◌then◌else◌, ltb→lt, ltb→ge, Bool-cases, some_inj, or-false, ℕ, ◌+◌, ◌-◌,
  ◌*◌, ◌/◌, ◌%◌, ◌≤◌, ◌<◌, ◌≡◌, refl, ap, subst, inl, inr, Bool, true, false, ◌||◌, Option, none,
  some, List, arith,
}
use neptune_os.UserStack.Bytes.{Sound, place}
use neptune_os.Mmu.{Paging, page_entry}
use neptune_os.Mmu.Tree.{Tree, Owner, translate}
use neptune_os.Mmu.Grow.{Alloc}
use neptune_os.UserStack.{UserSpace, page_size}
use neptune_os.UserStack.Space.{
  user_stack_max_pages, user_stack_top, user_space_map_stack, stack_flags, with_user,
  map_stack_pages,
}
use neptune_os.UserStack.Mapping.{frame, MappedTo, map_stack_pages-MappedTo}
use neptune_os.UserStack.Space.{user_stack_max_pages}

guard_some :
    {A B : Type 0} (b : Bool) (x : B) {r : Option A × B} {y : A} {s' : B}
    → (if b then (none, x) else r) ≡ (some y, s')
    → (b ≡ false) × (r ≡ (some y, s'))
guard_some true x e = absurd (cc (ap (λ p. p.0) e))
guard_some false x e = (refl, e)

frames_some :
    {F S B : Type 0} (o : Option F) (mk : F → S) (s2 : B) {y : S} {s' : B}
    → ◌≡◌ {A = Option S × B}
        (elim o [ none ↦ (none, s2) | some f ↦ (some (mk f), s2) ])
        (some y, s')
    → (f : F) × (o ≡ some f) × (mk f ≡ y) × (s2 ≡ s')
frames_some none mk s2 e = absurd (cc (ap (λ p. p.0) e))
frames_some (some f) mk s2 e = (f, refl, some_inj (ap (λ p. p.0) e), ap (λ p. p.1) e)

-- The address space with its stack.
abbrev with_stack : UserSpace → ℕ → List ℕ → UserSpace
with_stack space pages frames = record space {
  stack_top = user_stack_top;
  stack_bottom = user_stack_top - pages * page_size;
  stack_pages = pages;
  stack_phys = frames;
}

-- Where the user program finds an address of its stack.
abbrev pub FoundAt : UserSpace → (ℕ → ℕ) → ℕ → ℕ → Type 0
FoundAt space mem root v =
    (phys : ℕ) × (translate mem root v ≡ some (page_entry phys (with_user stack_flags)))
    × (phys % page_size ≡ 0)
    × (place space (v - space.stack_bottom) ≡ phys + v % page_size)

module _ {A : Type 0} (alloc_page : A → ℕ × A) (taken : A → ℕ → Bool) (left : A → ℕ)
    (laws : Alloc alloc_page taken left) (pages root : ℕ) (few : pages ≤ 4)
    (whole : (user_stack_top - pages * page_size) % page_size ≡ 0) (frames : List ℕ) (s : Paging A)
    (m : MappedTo alloc_page taken left laws
      (user_stack_top - pages * page_size)
      root
      whole
      pages
      frames
      s)
    (space : UserSpace) where
  with_stack-Sound : Sound (with_stack space pages frames)
  with_stack-Sound = record {
    whole = omega arith;
    low = omega arith;
    apart = λ i j hi hj ne. elim (Bool-cases (ltb (frame frames i) (frame frames j))) [
      | inl below ↦ inl (
          omega (
            arith,
            ltb→lt (frame frames i) (frame frames j) below,
            (m.held i hi).1,
            (m.held j hj).1,
          ))
      | inr above ↦ inr (
          omega (
            arith,
            ltb→ge (frame frames i) (frame frames j) above,
            (m.held i hi).1,
            (m.held j hj).1,
            m.distinct i j hi hj ne,
          ))
    ];
  }

  with_stack-FoundAt :
      (v : ℕ)
      → user_stack_top - pages * page_size ≤ v
      → v < user_stack_top
      → FoundAt (with_stack space pages frames) s.mem root v
  unfolding place
  with_stack-FoundAt v low high =
      let j = (v - (user_stack_top - pages * page_size)) / page_size in
      (
        frame frames j,
        m.mapped j v (omega arith) (omega (arith, whole)) (omega arith),
        (m.held j (omega arith)).1,
        omega (arith, whole),
      )

-- With the page tables a tree and four pages left for each page of the stack: where the stack of an
-- address space is mapped, its pages do not overlap, and each address of it leads the user program to the byte
-- at which the kernel writes it.
pub user_space_map_stack-Sound :
    {A : Type 0} (alloc_page : A → ℕ × A) (taken : A → ℕ → Bool) (left : A → ℕ)
    → Alloc alloc_page taken left
    → (space : UserSpace) (pages : ℕ) (s : Paging A) (owner : Owner)
    → Tree (taken s.env) s.mem owner
    → owner space.pml4_phys ≡ some (3, 0)
    → length space.stack_phys ≡ 4
    → 4 * pages ≤ left s.env
    → (space' : UserSpace) (s' : Paging A)
    → user_space_map_stack alloc_page space pages s ≡ (some space', s')
    → (v : ℕ) → space'.stack_bottom ≤ v
    → v < space'.stack_top
    → Sound space' × FoundAt space' s'.mem space.pml4_phys v
unfolding user_space_map_stack place
user_space_map_stack-Sound {A} alloc_page taken left laws space pages s owner tree at four some_left
      space' s' e v low high =
    let bottom = user_stack_top - pages * page_size in
    let (o, s2) = map_stack_pages alloc_page pages 0 bottom space.pml4_phys space.stack_phys s in
    let (guard, made) =
      guard_some (space.pml4_phys == 0 || pages == 0 || ltb user_stack_max_pages pages) s e in
    let few =
      ltb→ge 4 pages
        (or-false (space.pml4_phys == 0 || pages == 0) (ltb user_stack_max_pages pages) guard).1 in
    let whole : bottom % page_size ≡ 0 = omega (arith, few) in
    let (frames, some_frames, space_eq, s_eq) = frames_some o (with_stack space pages) s2 made in
    let start : MappedTo alloc_page taken left laws bottom space.pml4_phys whole 0 space.stack_phys
        s =
      record {
        owner = owner;
        tree = tree;
        root_at = at;
        slots = four;
        held = λ j h. absurd (omega arith);
        distinct = λ j k hj hk ne. absurd (omega arith);
        mapped = λ j v h same small. absurd (omega arith);
      } in
    let m =
      map_stack_pages-MappedTo alloc_page taken left laws bottom space.pml4_phys whole pages 0
        space.stack_phys s frames s2 start (omega (arith, few)) (omega (arith, few)) some_left
        (ap (λ x. (x, s2)) some_frames) in
    let m : MappedTo alloc_page taken left laws bottom space.pml4_phys whole pages frames s2 =
      subst (λ n. MappedTo alloc_page taken left laws bottom space.pml4_phys whole n frames s2)
        (omega arith) m in
    let P = λ (u : UserSpace) (t : Paging A).
      u.stack_bottom ≤ v → v < u.stack_top → Sound u × FoundAt u t.mem space.pml4_phys v in
    subst (λ (u : UserSpace). P u s') space_eq
      (subst (λ (t : Paging A). P (with_stack space pages frames) t) s_eq
        (λ low high. (
          with_stack-Sound alloc_page taken left laws pages space.pml4_phys few whole frames s2 m
              space,
          with_stack-FoundAt alloc_page taken left laws pages space.pml4_phys few whole frames s2 m
              space v low high,
        )))
      low high
