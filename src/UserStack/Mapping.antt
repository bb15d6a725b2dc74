-- ===== src/UserStack/Mapping.antt =====
-- The loop of `user_space_map_stack`: the pages of a stack are mapped, each to a frame of its own.
use neptune_os.Common.{
  length, get_or, set, length-set, get_or-set_self, get_or-set_ne, ◌==◌, if◌then◌else◌, ==→eq,
  ==→ne, ==_refl, ne→==, Bool-cases, some_inj, ℕ, zero, suc, ◌+◌, ◌*◌, ◌/◌, ◌%◌, ◌≤◌, ◌<◌, ◌≡◌,
  refl, sym, ap, subst, ◌∙◌, ◌≢◌, ◌⊎◌, inl, inr, Bool, true, false, not, ◌&&◌, ◌||◌, Option, none,
  some, List, arith,
}
use neptune_os.Mmu.{Paging, has_bit, page_entry, mmu_map_page_in}
use neptune_os.Mmu.Tree.{Tree, Owner, translate, user_end}
use neptune_os.Mmu.Grow.{Alloc}
use neptune_os.Mmu.Maps.{call-Mapped}
use neptune_os.Mmu.Leaf.{unaligned, clashes}
use neptune_os.UserStack.{page_size}
use neptune_os.UserStack.Space.{stack_flags, with_user, user_space_map_page, map_stack_pages}

Tree-taken :
    {taken taken' : ℕ → Bool} {mem : ℕ → ℕ} {owner : Owner}
    → ((q : ℕ) → taken q ≡ true → taken' q ≡ true)
    → Tree taken mem owner
    → Tree taken' mem owner
Tree-taken keeps tree = record {
  aligned = tree.aligned;
  held = λ p level range o. keeps p (tree.held p level range o);
  child = tree.child;
  open_to_user = tree.open_to_user;
  no_large = tree.no_large;
}

abbrev pub frame : List ℕ → ℕ → ℕ
frame frames j = get_or frames j 0

root_some :
    {A : Type 0} (b : Bool) (x : A) {y : A} {r : Bool × A}
    → (if b then (false, x) else r) ≡ (true, y)
    → r ≡ (true, y)
root_some true x e = absurd (cc (ap (λ p. p.0) e))
root_some false x e = e

round_some :
    {A B : Type 0} (b ok : Bool) (x z : B) {rest : Option A × B} {y : A} {s' : B}
    → (if b then (none, x) else (if ok then rest else (none, z))) ≡ (some y, s')
    → (ok ≡ true) × (rest ≡ (some y, s'))
round_some true ok x z e = absurd (cc (ap (λ p. p.0) e))
round_some false true x z e = (refl, e)
round_some false false x z e = absurd (cc (ap (λ p. p.0) e))

page_here :
    (bottom i j v : ℕ)
    → bottom % page_size ≡ 0
    → v / page_size ≡ bottom / page_size + j
    → j ≡ i
    → (v / 4096 == (bottom + i * page_size) / 4096) ≡ true
page_here bottom i j v whole at ji =
    let e : v / 4096 ≡ (bottom + i * page_size) / 4096 = omega arith in
    ap (λ x. x == (bottom + i * page_size) / 4096) e ∙ ==_refl ((bottom + i * page_size) / 4096)

page_elsewhere :
    (bottom i j v : ℕ)
    → bottom % page_size ≡ 0
    → v / page_size ≡ bottom / page_size + j
    → j < i
    → (v / 4096 == (bottom + i * page_size) / 4096) ≡ false
page_elsewhere bottom i j v whole at lt =
    ne→== (v / 4096) ((bottom + i * page_size) / 4096) (λ e. absurd (omega arith))

-- The frames after the frame `phys` of page `i`.
frame-set :
    (frames : List ℕ) (i phys j : ℕ)
    → length frames ≡ 4
    → i < 4
    → j < i + 1
    → ((j ≡ i) × (frame (set frames i phys) j ≡ phys))
      ⊎ ((j < i) × (frame (set frames i phys) j ≡ frame frames j))
frame-set frames i phys j four small h = elim (Bool-cases (j == i)) [
  | inl same ↦
      let ji = ==→eq j i same in
      inl (
        ji,
        ap (λ x. frame (set frames i phys) x) ji ∙ get_or-set_self frames i phys 0 (omega arith),
      )
  | inr other ↦
      let ne = ==→ne j i other in
      inr (omega (arith, ne), get_or-set_ne frames i j phys 0 (λ e. ne (sym e)))
]

module _ {A : Type 0} (alloc_page : A → ℕ × A) (taken : A → ℕ → Bool) (left : A → ℕ)
    (laws : Alloc alloc_page taken left) (bottom root : ℕ) (whole : bottom % page_size ≡ 0) where
  -- The first `i` pages from `bottom` on are mapped to frames that are taken, each its own.
  pub record MappedTo (i : ℕ) (frames : List ℕ) (s : Paging A) : Type 0 where
    pub owner : Owner
    pub tree : Tree (taken s.env) s.mem owner
    pub root_at : owner root ≡ some (3, 0)
    pub slots : length frames ≡ 4
    pub held :
        (j : ℕ) → j < i → (taken s.env (frame frames j) ≡ true) × (frame frames j % page_size ≡ 0)
    pub distinct : (j k : ℕ) → j < i → k < i → j ≢ k → frame frames j ≢ frame frames k
    pub mapped :
        (j v : ℕ)
        → j < i
        → v / page_size ≡ bottom / page_size + j
        → v < user_end
        → translate s.mem root v ≡ some (page_entry (frame frames j) (with_user stack_flags))

  user_space_map_page-MappedTo :
      (i : ℕ) (frames : List ℕ) (s s2 : Paging A)
      → MappedTo i frames s
      → i < 4
      → bottom + i * page_size < user_end
      → 4 ≤ left s.env
      → let (phys, env) = alloc_page s.env in
        user_space_map_page alloc_page root
            (bottom + i * page_size)
            phys
            stack_flags
            (record s { env = env })
          ≡ (true, s2)
        → MappedTo (i + 1) (set frames i phys) s2 × (left s.env ≤ 4 + left s2.env)
  unfolding user_space_map_page with_user has_bit
  user_space_map_page-MappedTo i frames s s2 m small user some_left e =
      let phys = (alloc_page s.env).0 in
      let s1 = record s { env = (alloc_page s.env).1 } in
      let virt = bottom + i * page_size in
      let flags = with_user stack_flags in
      let c =
        call-Mapped alloc_page taken left laws m.owner s1 (Tree-taken (laws.keeps s.env) m.tree)
          root virt phys flags m.root_at user refl (omega (arith, laws.lasts s.env)) in
      let refused = unaligned root virt phys || clashes (translate s.mem root virt) phys in
      let done = root_some (root == 0) s1 e in
      let accepted : not refused ≡ true = sym c.result ∙ ap (λ r. r.0) done in
      let pick = frame-set frames i phys in
      let new = laws.fresh s.env (omega arith) in
      let r = mmu_map_page_in alloc_page root virt phys flags s1 in
      let seen : (v : ℕ)
          → v < user_end
          → translate r.1.mem root v ≡ (
              if v / 4096 == virt / 4096
              then some (page_entry phys flags)
              else translate s.mem root v) =
        λ v low.
          c.translates v low
          ∙ ap
              (λ b.
                if b && v / 4096 == virt / 4096
                then some (page_entry phys flags)
                else translate s.mem root v)
              accepted in
      let apart : (j : ℕ) → j < i → frame frames j ≢ phys =
        λ j h z. absurd (cc ((m.held j h).0, ap (taken s.env) z, new)) in
      let next : MappedTo (i + 1) (set frames i phys) r.1 = record {
        owner = c.after;
        tree = c.tree;
        root_at = c.root_at;
        slots = length-set frames i phys ∙ m.slots;
        held = λ j h. elim (pick j m.slots small h) [
          | inl (ji, at) ↦ (
            ap (taken r.1.env) at ∙ c.holds phys (laws.takes s.env (omega arith)),
            ap (λ x. x % page_size) at ∙ laws.whole s.env (omega arith),
          )
          | inr (lt, at) ↦ (
            ap (taken r.1.env) at
                ∙ c.holds (frame frames j) (laws.keeps s.env (frame frames j) (m.held j lt).0),
            ap (λ x. x % page_size) at ∙ (m.held j lt).1,
          )
        ];
        distinct = λ j k hj hk ne z. elim (pick j m.slots small hj) [
          | inl (ji, at) ↦ elim (pick k m.slots small hk) [
            | inl (ki, kt) ↦ ne (ji ∙ sym ki)
            | inr (lt, kt) ↦ apart k lt (sym kt ∙ sym z ∙ at)
          ]
          | inr (lt, at) ↦ elim (pick k m.slots small hk) [
            | inl (ki, kt) ↦ apart j lt (sym at ∙ z ∙ kt)
            | inr (lk, kt) ↦ m.distinct j k lt lk ne (sym at ∙ z ∙ kt)
          ]
        ];
        mapped = λ j v h place low. seen v low ∙ (elim (pick j m.slots small h) [
          | inl (ji, at) ↦
              ap (λ b. if b then some (page_entry phys flags) else translate s.mem root v)
                (page_here bottom i j v whole place ji)
              ∙ ap (λ f. some (page_entry f flags)) (sym at)
          | inr (lt, at) ↦
              ap (λ b. if b then some (page_entry phys flags) else translate s.mem root v)
                (page_elsewhere bottom i j v whole place lt)
              ∙ m.mapped j v lt place low
              ∙ ap (λ f. some (page_entry f flags)) (sym at)
        ]);
      } in
      subst
        (λ (x : Paging A). MappedTo (i + 1) (set frames i phys) x × (left s.env ≤ 4 + left x.env))
        (ap (λ r. r.1) done) (next, omega (arith, c.lasts, laws.lasts s.env))

  pub map_stack_pages-MappedTo :
      (n i : ℕ) (frames : List ℕ) (s : Paging A) (frames' : List ℕ) (s' : Paging A)
      → MappedTo i frames s
      → i + n ≤ 4
      → bottom + 4 * page_size ≤ user_end
      → 4 * n ≤ left s.env
      → map_stack_pages alloc_page n i bottom root frames s ≡ (some frames', s')
      → MappedTo (i + n) frames' s'
  unfolding map_stack_pages
  map_stack_pages-MappedTo zero i frames s frames' s' m h user some_left e =
      subst
        (λ (r : Option (List ℕ) × Paging A). (f : List ℕ) → r.0 ≡ some f → MappedTo (i + 0) f r.1) e
        (λ f h.
          subst (λ x. MappedTo x f s) (omega arith) (subst (λ x. MappedTo i x s) (some_inj h) m))
        frames' refl
  map_stack_pages-MappedTo (suc n) i frames s frames' s' m h user some_left e =
      let phys = (alloc_page s.env).0 in
      let r =
        user_space_map_page alloc_page root (bottom + i * page_size) phys stack_flags
          (record s { env = (alloc_page s.env).1 }) in
      let (ok, rest) = round_some (phys == 0) r.0 (record s { env = (alloc_page s.env).1 }) r.1 e in
      let step =
        user_space_map_page-MappedTo i frames s r.1 m (omega arith) (omega arith) (omega arith)
          (ap (λ b. (b, r.1)) ok) in
      subst (λ x. MappedTo x frames' s') (omega arith)
        (map_stack_pages-MappedTo n (i + 1) (set frames i phys) r.1 frames' s' step.0 (omega arith)
          user (omega (arith, step.1)) rest)
