-- ===== src/Elf/Pages.antt =====
-- What a page loaded by kernel/elf.c has in memory.
use mathlib.Core.List.{Memᴰ}
use mathlib.Core.List.Memᴰ
use neptune_os.Common.{
  ltb, ◌==◌, ltb→lt, ltb→ge, ==→ne, Bool-cases, u64, ℕ, ◌+◌, ◌%◌, ◌≤◌, ◌<◌, ◌≡◌, refl, sym, ap,
  subst, ◌∙◌, ◌≢◌, ◌⊎◌, inl, inr, Bool, true, false, ◌∷◌, arith,
}
use neptune_os.Elf.{Env, Loading, Mapping, Phdr, load_page, page_flags, fill_page, page_size}
use neptune_os.Elf.Copy.{segment_byte, fill_page-segment_byte, fill_page-outside}

-- What the loader needs of the allocator: a page that it gives is aligned and was not taken before, and
-- what is taken stays taken.
pub record EnvLaws {A : Type 0} (e : Env A) : Type 0 where
  pub taken : A → ℕ → Bool
  pub alloc_free : (a : A) → (e.alloc_page a).0 ≢ 0 → taken a (e.alloc_page a).0 ≡ false
  pub alloc_takes :
      (a : A) → (e.alloc_page a).0 ≢ 0 → taken (e.alloc_page a).1 (e.alloc_page a).0 ≡ true
  pub alloc_aligned : (a : A) → (e.alloc_page a).0 % page_size ≡ 0
  pub alloc_keeps : (a : A) (p : ℕ) → taken a p ≡ true → taken (e.alloc_page a).1 p ≡ true
  pub map_keeps :
      (v phys flags : ℕ) (a : A) (p : ℕ)
      → taken a p ≡ true
      → taken (e.map_page v phys flags a).1 p ≡ true

module _ {A : Type 0} {e : Env A} (laws : EnvLaws e) where
  -- Every page that is mapped was given by the allocator.
  abbrev pub Owned : Loading A → Type 0
  Owned s =
      (m : Mapping) → Memᴰ m s.mapped → (laws.taken s.env m.phys ≡ true) × (m.phys % page_size ≡ 0)

-- Byte `k` of the page mapped at `v` with these flags is `b`.
pub record Shows {A : Type 0} (s : Loading A) (v k flags b : ℕ) : Type 0 where
  pub page : Mapping
  pub listed : Memᴰ page s.mapped
  pub virt : page.virt ≡ v
  pub allowed : page.flags ≡ flags
  pub byte : s.mem (page.phys + k) ≡ b

-- What is mapped stays mapped, with its bytes.
abbrev pub Keeps : {A : Type 0} → Loading A → Loading A → Type 0
Keeps s s' =
    (m : Mapping)
    → Memᴰ m s.mapped
    → Memᴰ m s'.mapped × ((k : ℕ) → k < page_size → s'.mem (m.phys + k) ≡ s.mem (m.phys + k))

pub Keeps-Shows :
    {A : Type 0} (s s' : Loading A) {v k flags b : ℕ}
    → k < page_size
    → Keeps s s'
    → Shows s v k flags b
    → Shows s' v k flags b
Keeps-Shows s s' {k = k} small keeps h = record {
  page = h.page;
  listed = (keeps h.page h.listed).0;
  virt = h.virt;
  allowed = h.allowed;
  byte = (keeps h.page h.listed).1 k small ∙ h.byte;
}

pub Keeps-trans : {A : Type 0} (s s' s'' : Loading A) → Keeps s s' → Keeps s' s'' → Keeps s s''
Keeps-trans s s' s'' f g m h =
    let (h', same) = f m h in
    let (h'', same') = g m h' in (h'', λ k small. same' k small ∙ same k small)

-- Two different pages do not meet.
pages_apart :
    (p q k : ℕ)
    → p % page_size ≡ 0
    → q % page_size ≡ 0
    → p ≢ q
    → k < page_size
    → (p + k < q) ⊎ (q + page_size ≤ p + k)
pages_apart p q k a b ne small = elim (Bool-cases (ltb p q)) [
  | inl l ↦ inl (omega (arith, ltb→lt p q l))
  | inr g ↦ inr (omega (arith, ltb→ge p q g))
]

module _ {A : Type 0} {e : Env A} (laws : EnvLaws e) (image : ℕ → ℕ) (size : ℕ) (ph : Phdr)
    (ends : ph.p_vaddr + ph.p_filesz < u64) where
  -- What a page, or pages, of the segment leave.
  abbrev pub Loads : Loading A → Loading A → Type 0
  Loads s s' = Owned laws s' × Keeps s s'

  -- The state behind a page that was given and mapped.
  abbrev placed : ℕ → Loading A → Loading A
  placed v s =
      let (phys, env) = e.alloc_page s.env in
      record s {
        env = (e.map_page v phys (page_flags ph.p_flags) env).1;
        mem = fill_page image ph v phys s.mem;
        mapped = record { virt = v; phys = phys; flags = page_flags ph.p_flags } ∷ s.mapped;
      }

  placed-Loads :
      (v : ℕ) (s : Loading A)
      → Owned laws s
      → (e.alloc_page s.env).0 ≢ 0
      → Loads s (placed v s)
        × ((k : ℕ)
            → k < page_size
            → Shows (placed v s) v k (page_flags ph.p_flags) (segment_byte image ph (v + k)))
  placed-Loads v s owned given = (
    (owned', keeps),
    λ k small. record {
      page = new;
      listed = Memᴰ.head refl;
      virt = refl;
      allowed = refl;
      byte = fill_page-segment_byte image ph v phys s.mem k small ends;
    },
  )
    where
      phys : ℕ
      phys = (e.alloc_page s.env).0

      new : Mapping
      new = record { virt = v; phys = phys; flags = page_flags ph.p_flags }

      kept :
          (p : ℕ)
          → laws.taken (e.alloc_page s.env).1 p ≡ true
          → laws.taken (placed v s).env p ≡ true
      kept p h = laws.map_keeps v phys (page_flags ph.p_flags) (e.alloc_page s.env).1 p h

      owned' : Owned laws (placed v s)
      owned' m h = elim (Memᴰ.cases_cons h) [
        | inl same ↦
            subst
              (λ (z : Mapping).
                (laws.taken (placed v s).env z.phys ≡ true) × (z.phys % page_size ≡ 0))
              (sym same) (kept phys (laws.alloc_takes s.env given), laws.alloc_aligned s.env)
        | inr old ↦ (kept m.phys (laws.alloc_keeps s.env m.phys (owned m old).0), (owned m old).1)
      ]

      other : (m : Mapping) → Memᴰ m s.mapped → m.phys ≢ phys
      other m h q = absurd (
          clash (sym (laws.alloc_free s.env given) ∙ ap (laws.taken s.env) (sym q) ∙ (owned m h).0))
        where
          clash : false ≢ true
          clash q = absurd (cc)

      keeps : Keeps s (placed v s)
      keeps m h = (
        Memᴰ.tail h,
        λ k small.
            fill_page-outside image ph v phys s.mem (m.phys + k) (
              pages_apart m.phys phys k (owned m h).1 (laws.alloc_aligned s.env) (other m h) small),
      )

  pub load_page-Loads :
      (v : ℕ) (s s' : Loading A)
      → Owned laws s
      → load_page e image size ph v s ≡ (true, s')
      → Loads s s'
        × ((k : ℕ)
            → k < page_size
            → Shows s' v k (page_flags ph.p_flags) (segment_byte image ph (v + k)))
  unfolding load_page
  load_page-Loads v s s' owned q = elim (Bool-cases ((e.alloc_page s.env).0 == 0)) [
    | inl none_left ↦ absurd (clash (ap (λ r. r.0) (rw (none_left, load_page) at q)))
    | inr given ↦
        elim (Bool-cases
          (e.map_page v (e.alloc_page s.env).0 (page_flags ph.p_flags) (e.alloc_page s.env).1).0) [
            | inr refused ↦ absurd (clash (ap (λ r. r.0) (rw (given, refused, load_page) at q)))
            | inl ok ↦
                subst
                  (λ z.
                    Loads s z
                    × ((k : ℕ)
                        → k < page_size
                        → Shows z v k (page_flags ph.p_flags) (segment_byte image ph (v + k))))
                  (ap (λ r. r.1) (rw (given, ok, load_page) at q))
                  (placed-Loads v s owned (==→ne (e.alloc_page s.env).0 0 given))
          ]
  ]
    where
      clash : false ≢ true
      clash q = absurd (cc)
