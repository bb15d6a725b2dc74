-- ===== src/Elf/Copy.antt =====
-- The two loops of kernel/elf.c that fill a page.
use neptune_os.Common.{
  ltb, leb, ◌==◌, if◌then◌else◌, ltb→lt, ltb→ge, leb→le, ==→eq, ==→ne, ==_refl, Bool-cases,
  if_intro, and-true, and-false, leb→gt, u64, add64, update, update_other, ℕ, zero, suc, ◌+◌, ◌-◌,
  ◌≤◌, ◌<◌, ◌≡◌, refl, ap, ◌∙◌, ◌≢◌, ◌⊎◌, inl, inr, false, ◌&&◌, arith, mod-eq_of_lt,
}
use neptune_os.Elf.{zero_bytes, copy_bytes, Phdr, fill_page, page_size}

update_self : (m : ℕ → ℕ) (a v : ℕ) → update m a v a ≡ v
update_self m a v = rw (==_refl a) refl

pub zero_bytes-outside :
    (n dst : ℕ) (mem : ℕ → ℕ) (a : ℕ) → (a < dst) ⊎ (dst + n ≤ a) → zero_bytes n dst mem a ≡ mem a
unfolding zero_bytes
zero_bytes-outside zero dst mem a h = refl
zero_bytes-outside (suc n) dst mem a h =
    zero_bytes-outside n (dst + 1) (update mem dst 0) a (still h)
    ∙ update_other mem dst 0 a (apart h)
  where
    still : (a < dst) ⊎ (dst + suc n ≤ a) → (a < dst + 1) ⊎ (dst + 1 + n ≤ a)
    still (inl k) = inl (omega arith)
    still (inr k) = inr (omega arith)

    apart : (a < dst) ⊎ (dst + suc n ≤ a) → dst ≢ a
    apart (inl k) e = absurd (omega arith)
    apart (inr k) e = absurd (omega arith)

pub zero_bytes-inside :
    (n dst : ℕ) (mem : ℕ → ℕ) (a : ℕ) → dst ≤ a → a < dst + n → zero_bytes n dst mem a ≡ 0
unfolding zero_bytes
zero_bytes-inside zero dst mem a h k = absurd (omega arith)
zero_bytes-inside (suc n) dst mem a h k = elim (Bool-cases (dst == a)) [
  | inl e ↦
      let same = ==→eq dst a e in
      zero_bytes-outside n (dst + 1) (update mem dst 0) a (inl (omega (arith, same))) ∙ rw (e) refl
  | inr e ↦
      zero_bytes-inside n (dst + 1) (update mem dst 0) a (omega (arith, ==→ne dst a e))
        (omega arith)
]

pub copy_bytes-outside :
    (image : ℕ → ℕ) (n dst src : ℕ) (mem : ℕ → ℕ) (a : ℕ)
    → (a < dst) ⊎ (dst + n ≤ a)
    → copy_bytes image n dst src mem a ≡ mem a
unfolding copy_bytes
copy_bytes-outside image zero dst src mem a h = refl
copy_bytes-outside image (suc n) dst src mem a h =
    copy_bytes-outside image n (dst + 1) (add64 src 1) (update mem dst (image src)) a (still h)
    ∙ update_other mem dst (image src) a (apart h)
  where
    still : (a < dst) ⊎ (dst + suc n ≤ a) → (a < dst + 1) ⊎ (dst + 1 + n ≤ a)
    still (inl k) = inl (omega arith)
    still (inr k) = inr (omega arith)

    apart : (a < dst) ⊎ (dst + suc n ≤ a) → dst ≢ a
    apart (inl k) e = absurd (omega arith)
    apart (inr k) e = absurd (omega arith)

pub copy_bytes-inside :
    (image : ℕ → ℕ) (n dst src : ℕ) (mem : ℕ → ℕ) (k : ℕ)
    → src < u64
    → k < n
    → copy_bytes image n dst src mem (dst + k) ≡ image (add64 src k)
unfolding copy_bytes
copy_bytes-inside image zero dst src mem k h l = absurd (omega arith)
copy_bytes-inside image (suc n) dst src mem zero h l =
    copy_bytes-outside image n (dst + 1) (add64 src 1) (update mem dst (image src)) (dst + 0)
      (inl (omega arith))
    ∙ ap (update mem dst (image src)) (omega arith)
    ∙ update_self mem dst (image src)
    ∙ ap image (omega arith)
copy_bytes-inside image (suc n) dst src mem (suc k) h l =
    ap (copy_bytes image n (dst + 1) (add64 src 1) (update mem dst (image src))) (omega arith)
    ∙ copy_bytes-inside image n (dst + 1) (add64 src 1) (update mem dst (image src)) k (omega arith)
        (omega arith)
    ∙ ap image (omega arith)

-- The byte of a segment at an address: a byte of the file, or 0.
unfoldable pub segment_byte : (ℕ → ℕ) → Phdr → ℕ → ℕ
segment_byte image ph x =
    if leb ph.p_vaddr x && ltb x (ph.p_vaddr + ph.p_filesz)
    then image (add64 ph.p_offset (x - ph.p_vaddr))
    else 0

module _ (image : ℕ → ℕ) (ph : Phdr) (v phys : ℕ) (mem : ℕ → ℕ) (k : ℕ) (small : k < page_size)
    (ends : ph.p_vaddr + ph.p_filesz < u64) where
  abbrev filled : ℕ → ℕ → ℕ → ℕ
  filled from to =
      if ltb from to
      then copy_bytes image (to - from) (phys + (from - v)) (add64 ph.p_offset (from - ph.p_vaddr))
          (zero_bytes page_size phys mem)
      else zero_bytes page_size phys mem

  zeroed : zero_bytes page_size phys mem (phys + k) ≡ 0
  zeroed = zero_bytes-inside page_size phys mem (phys + k) (omega arith) (omega arith)

  filled-out :
      (from to : ℕ) → v ≤ from → (v + k < from) ⊎ (to ≤ v + k) → filled from to (phys + k) ≡ 0
  filled-out from to h out =
      if_intro (λ (m : ℕ → ℕ). m (phys + k) ≡ 0) (ltb from to)
        (λ e.
          copy_bytes-outside image (to - from) (phys + (from - v))
            (add64 ph.p_offset (from - ph.p_vaddr)) (zero_bytes page_size phys mem) (phys + k)
            (beyond (ltb→lt from to e) out)
          ∙ zeroed)
        (λ e. zeroed)
    where
      beyond :
          from < to
          → (v + k < from) ⊎ (to ≤ v + k)
          → (phys + k < phys + (from - v)) ⊎ (phys + (from - v) + (to - from) ≤ phys + k)
      beyond l (inl a) = inl (omega arith)
      beyond l (inr a) = inr (omega arith)

  filled-in :
      (from to : ℕ)
      → v ≤ from
      → ph.p_vaddr ≤ from
      → from ≤ v + k
      → v + k < to
      → filled from to (phys + k) ≡ image (add64 ph.p_offset (v + k - ph.p_vaddr))
  filled-in from to h g a b =
      if_intro (λ (m : ℕ → ℕ). m (phys + k) ≡ image (add64 ph.p_offset (v + k - ph.p_vaddr)))
        (ltb from to)
        (λ e.
          ap
            (copy_bytes image (to - from) (phys + (from - v))
              (add64 ph.p_offset (from - ph.p_vaddr)) (zero_bytes page_size phys mem))
            (omega arith)
          ∙ copy_bytes-inside image (to - from) (phys + (from - v))
              (add64 ph.p_offset (from - ph.p_vaddr)) (zero_bytes page_size phys mem) (v + k - from)
              (omega arith) (omega arith)
          ∙ ap image (omega arith))
        (λ e. absurd (omega (arith, ltb→ge from to e)))

  abbrev from_at : ℕ
  from_at = if ltb ph.p_vaddr v then v else ph.p_vaddr

  abbrev to_at : ℕ
  to_at =
      if ltb (v + page_size) (add64 ph.p_vaddr ph.p_filesz)
      then v + page_size
      else add64 ph.p_vaddr ph.p_filesz

  behind_page : v ≤ from_at
  behind_page = ground arith

  behind_data : ph.p_vaddr ≤ from_at
  behind_data = ground arith

  starts : ph.p_vaddr ≤ v + k → from_at ≤ v + k
  starts h = ground arith

  stops : v + k < ph.p_vaddr + ph.p_filesz → v + k < to_at
  stops h =
      let plain : add64 ph.p_vaddr ph.p_filesz ≡ ph.p_vaddr + ph.p_filesz = mod-eq_of_lt ends in
      if_intro (λ n. v + k < n) (ltb (v + page_size) (add64 ph.p_vaddr ph.p_filesz))
        (λ e. omega arith) (λ e. omega (arith, plain))

  stopped : ph.p_vaddr + ph.p_filesz ≤ v + k → to_at ≤ v + k
  stopped h =
      let plain : add64 ph.p_vaddr ph.p_filesz ≡ ph.p_vaddr + ph.p_filesz = mod-eq_of_lt ends in
      if_intro (λ n. n ≤ v + k) (ltb (v + page_size) (add64 ph.p_vaddr ph.p_filesz))
        (λ e. omega (arith, plain, ltb→lt (v + page_size) (add64 ph.p_vaddr ph.p_filesz) e))
        (λ e. omega (arith, plain))

  -- A new page holds the bytes of the segment.
  pub fill_page-segment_byte :
      fill_page image ph v phys mem (phys + k) ≡ segment_byte image ph (v + k)
  unfolding fill_page segment_byte
  fill_page-segment_byte =
      elim (Bool-cases (leb ph.p_vaddr (v + k) && ltb (v + k) (ph.p_vaddr + ph.p_filesz))) [
        | inl e ↦
            let (a, b) =
              and-true (leb ph.p_vaddr (v + k)) (ltb (v + k) (ph.p_vaddr + ph.p_filesz)) e in
            rw (e, segment_byte)
              (filled-in from_at to_at behind_page behind_data
                (starts (leb→le ph.p_vaddr (v + k) a))
                (stops (ltb→lt (v + k) (ph.p_vaddr + ph.p_filesz) b)))
        | inr e ↦
            rw (e, segment_byte)
              (filled-out from_at to_at behind_page (
                out
                  (and-false (leb ph.p_vaddr (v + k)) (ltb (v + k) (ph.p_vaddr + ph.p_filesz)) e)))
      ]
    where
      out :
          (leb ph.p_vaddr (v + k) ≡ false) ⊎ (ltb (v + k) (ph.p_vaddr + ph.p_filesz) ≡ false)
          → (v + k < from_at) ⊎ (to_at ≤ v + k)
      out (inl a) = inl (omega (arith, behind_data, leb→gt ph.p_vaddr (v + k) a))
      out (inr b) = inr (stopped (ltb→ge (v + k) (ph.p_vaddr + ph.p_filesz) b))

-- What is beside a page is beside a part of it.
beside :
    {v phys a : ℕ} (from to : ℕ)
    → from < to
    → v ≤ from
    → to ≤ v + page_size
    → (a < phys) ⊎ (phys + page_size ≤ a)
    → (a < phys + (from - v)) ⊎ (phys + (from - v) + (to - from) ≤ a)
beside from to l b c (inl h) = inl (omega arith)
beside from to l b c (inr h) = inr (omega arith)

-- Filling a page leaves all other memory alone.
pub fill_page-outside :
    (image : ℕ → ℕ) (ph : Phdr) (v phys : ℕ) (mem : ℕ → ℕ) (a : ℕ)
    → (a < phys) ⊎ (phys + page_size ≤ a)
    → fill_page image ph v phys mem a ≡ mem a
unfolding fill_page
fill_page-outside image ph v phys mem a h =
    let from = if ltb ph.p_vaddr v then v else ph.p_vaddr in
    let to =
      if ltb (v + page_size) (add64 ph.p_vaddr ph.p_filesz)
      then v + page_size
      else add64 ph.p_vaddr ph.p_filesz in
    let lower : v ≤ from = ground arith in
    let upper : to ≤ v + page_size = ground arith in
    let rest = zero_bytes-outside page_size phys mem a h in
    if_intro (λ (m : ℕ → ℕ). m a ≡ mem a) (ltb from to)
      (λ e.
        copy_bytes-outside image (to - from) (phys + (from - v))
          (add64 ph.p_offset (from - ph.p_vaddr)) (zero_bytes page_size phys mem) a
          (beside from to (ltb→lt from to e) lower upper h)
        ∙ rest)
      (λ e. rest)
