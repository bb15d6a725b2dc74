-- ===== src/Elf/Segments.antt =====
-- What a segment loaded by kernel/elf.c has in memory, after its last page.
use neptune_os.Common.{
  ◌==◌, ==→ne, Bool-cases, u64, add64, ℕ, zero, suc, ◌+◌, ◌-◌, ◌*◌, ◌/◌, ◌%◌, ◌≤◌, ◌<◌, ◌≡◌, refl,
  ap, subst, ◌≢◌, inl, inr, Bool, true, false, arith,
}
use neptune_os.Elf.{
  align_up, align_down, load_pages, segment_ok, load_segment, on_ok, Env, Loading, Phdr, load_page,
  page_flags, page_size,
}
use neptune_os.Elf.Copy.{segment_byte}
use neptune_os.Elf.Pages.{
  EnvLaws, Owned, Loads, Shows, Keeps, Keeps-Shows, Keeps-trans, load_page-Loads,
}

-- A step that returned 0 was followed by the rest.
pub on_ok-true :
    {A : Type 0} (r : Bool × Loading A) (rest : Loading A → Bool × Loading A) (s' : Loading A)
    → on_ok r rest ≡ (true, s')
    → (s : Loading A) × (r ≡ (true, s)) × (rest s ≡ (true, s'))
on_ok-true (true, s) rest s' q = (s, refl, q)
on_ok-true (false, s) rest s' q = absurd (clash (ap (λ r. r.0) q))
  where
    clash : false ≢ true
    clash q = absurd (cc)

-- All bytes of so many pages from `v` on are those of the segment.
abbrev pub PagesShown : {A : Type 0} → (ℕ → ℕ) → Phdr → Loading A → ℕ → ℕ → Type 0
PagesShown image ph s v rounds =
    (i k : ℕ)
    → i < rounds
    → k < page_size
    → Shows s (v + i * page_size) k (page_flags ph.p_flags)
        (segment_byte image ph (v + i * page_size + k))

module _ {A : Type 0} {e : Env A} (laws : EnvLaws e) (image : ℕ → ℕ) (size : ℕ) (ph : Phdr)
    (ends : ph.p_vaddr + ph.p_filesz < u64) where
  load_pages-Loads :
      (rounds v : ℕ) (s s' : Loading A)
      → Owned laws s
      → load_pages e image size ph rounds v s ≡ (true, s')
      → Loads laws image size ph ends s s' × PagesShown image ph s' v rounds
  unfolding load_pages
  load_pages-Loads zero v s s' owned q =
      subst (λ z. Loads laws image size ph ends s z × PagesShown image ph z v 0) (ap (λ r. r.1) q)
        ((owned, λ m h. (h, λ k small. refl)), λ i k h. absurd (omega arith))
  load_pages-Loads (suc rounds) v s s' owned q =
      let (s1, first, rest) =
        on_ok-true (load_page e image size ph v s)
          (load_pages e image size ph rounds (v + page_size)) s' q in
      let ((owned1, keeps1), page) = load_page-Loads laws image size ph ends v s s1 owned first in
      let ((owned2, keeps2), pages) = load_pages-Loads rounds (v + page_size) s1 s' owned1 rest in
      ((owned2, Keeps-trans s s1 s' keeps1 keeps2), shown s1 keeps2 page pages)
    where
      shown :
          (s1 : Loading A)
          → Keeps s1 s'
          → ((k : ℕ)
              → k < page_size
              → Shows s1 v k (page_flags ph.p_flags) (segment_byte image ph (v + k)))
          → PagesShown image ph s' (v + page_size) rounds
          → PagesShown image ph s' v (suc rounds)
      shown s1 keeps page pages zero k h small =
          subst (λ z. Shows s' z k (page_flags ph.p_flags) (segment_byte image ph (z + k)))
            (omega arith) (Keeps-Shows s1 s' small keeps (page k small))
      shown s1 keeps page pages (suc i) k h small =
          subst (λ z. Shows s' z k (page_flags ph.p_flags) (segment_byte image ph (z + k)))
            (omega arith) (pages i k (omega arith) small)

-- Every address of the pages of a segment is mapped, with the byte of the segment.
abbrev pub SegmentShown : {A : Type 0} → (ℕ → ℕ) → Phdr → Loading A → Type 0
SegmentShown image ph s =
    (x : ℕ)
    → align_down ph.p_vaddr ≤ x
    → x < align_up (add64 ph.p_vaddr ph.p_memsz)
    → Shows s (align_down x) (x % page_size) (page_flags ph.p_flags) (segment_byte image ph x)

module _ {A : Type 0} {e : Env A} (laws : EnvLaws e) (image : ℕ → ℕ) (size : ℕ) (ph : Phdr)
    (vaddr_word : ph.p_vaddr < u64) (memsz_word : ph.p_memsz < u64) where
  ok-ends : segment_ok ph size ≡ true → ph.p_vaddr + ph.p_filesz < u64
  unfolding segment_ok
  ok-ends h = ground arith

  every_byte :
      (s : Loading A)
      → PagesShown image ph s
          (align_down ph.p_vaddr)
          ((align_up (add64 ph.p_vaddr ph.p_memsz) - align_down ph.p_vaddr) / page_size)
      → SegmentShown image ph s
  unfolding align_down align_up
  every_byte s pages x low high =
      let i = (x - align_down ph.p_vaddr) / page_size in
      let page : align_down ph.p_vaddr + i * page_size ≡ align_down x = omega arith in
      let byte : align_down ph.p_vaddr + i * page_size + x % page_size ≡ x = omega arith in
      subst (λ z. Shows s z (x % page_size) (page_flags ph.p_flags) (segment_byte image ph x)) page
        (subst
          (λ z.
            Shows s (align_down ph.p_vaddr + i * page_size) (x % page_size) (page_flags ph.p_flags)
              (segment_byte image ph z))
          byte (pages i (x % page_size) (omega arith) (omega arith)))

  pub load_segment-Shown :
      (s s' : Loading A)
      → Owned laws s
      → load_segment e image size ph s ≡ (true, s')
      → (Owned laws s' × Keeps s s')
        × (ph.p_type ≡ 1 → (segment_ok ph size ≡ true) × SegmentShown image ph s')
  unfolding load_segment align_down align_up
  load_segment-Shown s s' owned q = elim (Bool-cases (ph.p_type == 1)) [
    | inr other ↦
        subst
          (λ z.
            (Owned laws z × Keeps s z)
            × (ph.p_type ≡ 1 → (segment_ok ph size ≡ true) × SegmentShown image ph z))
          (ap (λ r. r.1) (rw (other, load_segment) at q))
          ((owned, λ m h. (h, λ k small. refl)), λ h. absurd (==→ne ph.p_type 1 other h))
    | inl load ↦ elim (Bool-cases (segment_ok ph size)) [
      | inr bad ↦ absurd (clash (ap (λ r. r.0) (rw (load, bad, load_segment) at q)))
      | inl ok ↦
          let start = align_down ph.p_vaddr in
          let end = align_up (add64 ph.p_vaddr ph.p_memsz) in
          let (kept, pages) =
            load_pages-Loads laws image size ph (ok-ends ok) ((end - start) / page_size) start s s'
              owned (rw (load, ok, load_segment) at q) in
          (kept, λ h. (ok, every_byte s' pages))
    ]
  ]
    where
      clash : false ≢ true
      clash q = absurd (cc)
