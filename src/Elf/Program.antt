-- ===== src/Elf/Program.antt =====
-- What `elf_load_user` of kernel/elf.c has loaded when it succeeds.
use neptune_os.Common.{
  ◌==◌, Bool-cases, or-false, u64, add64, IsBytes, ℕ, zero, suc, ◌*◌, ◌<◌, ◌≡◌, refl, ap, subst,
  ◌≢◌, inl, inr, Bool, true, false, not, ◌||◌, arith,
}
use neptune_os.Elf.{
  Env, Loading, field, read_ehdr, read_phdr, load_segment, load_segments, elf_load_user,
  elf_check_header, segment_ok, phdr_size,
}
use neptune_os.Elf.Pages.{EnvLaws, Owned, Keeps, Keeps-Shows, Keeps-trans}
use neptune_os.Elf.Segments.{SegmentShown, load_segment-Shown, on_ok-true}

-- `256 ^ n`.
abbrev word : ℕ → ℕ
word zero = 1
word (suc n) = 256 * word n

field-lt : (n : ℕ) (image : ℕ → ℕ) (at : ℕ) → IsBytes image → field n image at < word n
unfolding field
field-lt zero image at b = omega arith
field-lt (suc n) image at b = omega (arith, b at, field-lt n image (add64 at 1) b)

-- Where the program header behind `i` others starts.
abbrev pub nth_phdr : ℕ → ℕ → ℕ
nth_phdr at zero = at
nth_phdr at (suc i) = nth_phdr (add64 at phdr_size) i

-- The segments of so many program headers: each that is to be loaded passed the tests, and its bytes are in memory.
abbrev pub Shown : {A : Type 0} → (ℕ → ℕ) → ℕ → ℕ → ℕ → Loading A → Type 0
Shown image size rounds at s =
    (i : ℕ)
    → i < rounds
    → (read_phdr image (nth_phdr at i)).p_type ≡ 1
    → (segment_ok (read_phdr image (nth_phdr at i)) size ≡ true)
      × SegmentShown image (read_phdr image (nth_phdr at i)) s

module _ {A : Type 0} {e : Env A} (laws : EnvLaws e) (image : ℕ → ℕ) (size : ℕ)
    (bytes : IsBytes image) where
  vaddr_word : (at : ℕ) → (read_phdr image at).p_vaddr < u64
  unfolding read_phdr
  vaddr_word at = field-lt 8 image (add64 at 16) bytes

  memsz_word : (at : ℕ) → (read_phdr image at).p_memsz < u64
  unfolding read_phdr
  memsz_word at = field-lt 8 image (add64 at 40) bytes

  load_segments-Shown :
      (rounds at : ℕ) (s s' : Loading A)
      → Owned laws s
      → load_segments e image size rounds at s ≡ (true, s')
      → Keeps s s' × Shown image size rounds at s'
  unfolding load_segments
  load_segments-Shown zero at s s' owned q =
      (subst (Keeps s) (ap (λ r. r.1) q) (λ m h. (h, λ k small. refl)), λ i h. absurd (omega arith))
  load_segments-Shown (suc rounds) at s s' owned q =
      let (s1, first, rest) =
        on_ok-true (load_segment e image size (read_phdr image at) s)
          (load_segments e image size rounds (add64 at phdr_size)) s' q in
      let ((owned1, keeps1), segment) =
        load_segment-Shown laws image size (read_phdr image at) (vaddr_word at) (memsz_word at) s s1
          owned first in
      let (keeps2, others) = load_segments-Shown rounds (add64 at phdr_size) s1 s' owned1 rest in
      (Keeps-trans s s1 s' keeps1 keeps2, shown s1 keeps2 segment others)
    where
      shown :
          (s1 : Loading A)
          → Keeps s1 s'
          → ((read_phdr image at).p_type ≡ 1
              → (segment_ok (read_phdr image at) size ≡ true)
                × SegmentShown image (read_phdr image at) s1)
          → Shown image size rounds (add64 at phdr_size) s'
          → Shown image size (suc rounds) at s'
      shown s1 keeps segment others zero h load =
          let (ok, bytes) = segment load in
          (ok, λ x low high. Keeps-Shows s1 s' (omega arith) keeps (bytes x low high))
      shown s1 keeps segment others (suc i) h load = others i (omega arith) load

-- What is loaded: the header passed its tests, the entry point is the header's, and every segment that is
-- to be loaded passed its tests and has all its bytes in memory.
pub record Loaded {A : Type 0} (image : ℕ → ℕ) (size : ℕ) (s : Loading A) : Type 0 where
  pub checked : elf_check_header (read_ehdr image) size ≡ true
  pub entry : s.entry ≡ (read_ehdr image).e_entry
  pub segments : Shown image size (read_ehdr image).e_phnum (read_ehdr image).e_phoff s

-- With an allocator that gives aligned pages not taken before: where `elf_load_user` succeeds, the header
-- passed its tests, the entry point is the header's, and each segment to be loaded passed its tests; every
-- address of its pages is mapped with the flags of the segment, to the byte of the file or to 0 behind
-- the file's part, also after the segments behind it have been loaded.
pub elf_load_user-Loaded :
    {A : Type 0} {e : Env A} (laws : EnvLaws e) (image : ℕ → ℕ) (size : ℕ) (s s' : Loading A)
    → IsBytes image
    → Owned laws s
    → elf_load_user e image size s ≡ (true, s')
    → Loaded image size s'
unfolding elf_load_user
elf_load_user-Loaded {A} {e} laws image size s s' bytes owned q =
    elim (Bool-cases (size == 0 || not (elf_check_header (read_ehdr image) size))) [
      | inl bad ↦ absurd (clash (ap (λ r. r.0) (rw (bad, elf_load_user) at q)))
      | inr good ↦
          let eh = read_ehdr image in
          let (s1, first, rest) =
            on_ok-true (load_segments e image size eh.e_phnum eh.e_phoff s)
              (λ s'. (true, record s' { entry = eh.e_entry })) s' (rw (good, elf_load_user) at q) in
          let (kept, segments) =
            load_segments-Shown laws image size bytes eh.e_phnum eh.e_phoff s s1 owned first in
          subst (Loaded image size) (ap (λ r. r.1) rest) (record {
            checked =
                accepted (elf_check_header eh size)
                  (or-false (size == 0) (not (elf_check_header eh size)) good).1;
            entry = refl;
            segments = λ i h load.
                let (ok, shown) = segments i h load in
                (
                  ok,
                  λ x low high.
                      Keeps-Shows s1 (record s1 { entry = eh.e_entry }) (omega arith)
                        (λ m h. (h, λ k small. refl)) (shown x low high),
                );
          })
    ]
  where
    clash : false ≢ true
    clash q = absurd (cc)

    accepted : (b : Bool) → not b ≡ false → b ≡ true
    accepted true h = refl
    accepted false h = absurd (cc)
