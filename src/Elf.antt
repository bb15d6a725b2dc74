-- ===== src/Elf.antt =====
-- kernel/elf.c: loading a program. `image` gives the bytes at the addresses from the image on. The page
-- allocator and `user_space_map_page` are arguments; which pages have been mapped where is recorded.
pub mod Copy
pub mod Pages
pub mod Program
pub mod Segments
mod Tests
use neptune_os.Common.{
  get_or, ltb, leb, ◌==◌, if◌then◌else◌, add64, sub64, update, ℕ, zero, suc, ◌+◌, ◌-◌, ◌*◌, ◌/◌,
  ◌%◌, ◌^◌, Bool, true, false, not, ◌&&◌, ◌||◌, List, [], ◌∷◌,
}

-- `sizeof(Elf64_Ehdr)`, `sizeof(Elf64_Phdr)`, and the bounds of kernel/include/kernel/user.h.
abbrev pub ehdr_size : ℕ
ehdr_size = 64

abbrev pub phdr_size : ℕ
phdr_size = 56

abbrev pub user_base : ℕ
user_base = 0x400000

abbrev pub user_stack_top : ℕ
user_stack_top = 0x7FFFFFF000

abbrev pub page_size : ℕ
page_size = 4096

pub record Ehdr : Type 0 where
  pub e_ident : List ℕ
  pub e_entry : ℕ
  pub e_phoff : ℕ
  pub e_phentsize : ℕ
  pub e_phnum : ℕ

pub record Phdr : Type 0 where
  pub p_type : ℕ
  pub p_flags : ℕ
  pub p_offset : ℕ
  pub p_vaddr : ℕ
  pub p_filesz : ℕ
  pub p_memsz : ℕ

-- `user_space_map_page` was called with these arguments, and did not fail.
pub record Mapping : Type 0 where
  pub virt : ℕ
  pub phys : ℕ
  pub flags : ℕ

-- `pmm_alloc_page`, and `user_space_map_page` with its result 0 as `true`.
pub record Env (A : Type 0) : Type 0 where
  pub alloc_page : A → ℕ × A
  pub map_page : ℕ → ℕ → ℕ → A → Bool × A

pub record Loading (A : Type 0) : Type 0 where
  pub env : A
  pub mem : ℕ → ℕ
  pub mapped : List Mapping
  pub entry : ℕ

-- A field of so many bytes, the lowest first.
unfoldable pub field : ℕ → (ℕ → ℕ) → ℕ → ℕ
field zero image at = 0
field (suc n) image at = image at + 256 * field n image (add64 at 1)

unfoldable pub read_ehdr : (ℕ → ℕ) → Ehdr
unfolding field
read_ehdr image = record {
  e_ident = image 0 ∷ image 1 ∷ image 2 ∷ image 3 ∷ image 4 ∷ image 5 ∷ image 6 ∷ [];
  e_entry = field 8 image 24;
  e_phoff = field 8 image 32;
  e_phentsize = field 2 image 54;
  e_phnum = field 2 image 56;
}

unfoldable pub read_phdr : (ℕ → ℕ) → ℕ → Phdr
unfolding field
read_phdr image at = record {
  p_type = field 4 image at;
  p_flags = field 4 image (add64 at 4);
  p_offset = field 8 image (add64 at 8);
  p_vaddr = field 8 image (add64 at 16);
  p_filesz = field 8 image (add64 at 32);
  p_memsz = field 8 image (add64 at 40);
}

-- At the alignment 4096 of a page.
unfoldable pub align_down : ℕ → ℕ
align_down value = value / page_size * page_size

unfoldable pub align_up : ℕ → ℕ
unfolding align_down
align_up value = align_down (sub64 (add64 value page_size) 1)

unfoldable pub elf_check_header : Ehdr → ℕ → Bool
elf_check_header eh size =
    leb ehdr_size size
    && get_or eh.e_ident 0 0 == 0x7F
    && get_or eh.e_ident 1 0 == 69
    && get_or eh.e_ident 2 0 == 76
    && get_or eh.e_ident 3 0 == 70
    && get_or eh.e_ident 4 0 == 2
    && get_or eh.e_ident 5 0 == 1
    && get_or eh.e_ident 6 0 == 1
    && eh.e_phentsize == phdr_size
    && not (eh.e_phnum == 0)
    && leb (add64 eh.e_phoff (eh.e_phnum * phdr_size)) size

-- The tests of a segment before it is loaded.
unfoldable pub segment_ok : Phdr → ℕ → Bool
unfolding align_down align_up
segment_ok ph size =
    not (ph.p_memsz == 0)
    && leb ph.p_filesz ph.p_memsz
    && leb (add64 ph.p_offset ph.p_filesz) size
    && leb ph.p_vaddr (add64 ph.p_vaddr ph.p_memsz)
    && leb (user_base - 0x1000) (align_down ph.p_vaddr)
    && leb (align_up (add64 ph.p_vaddr ph.p_memsz)) user_stack_top

-- `MMU_FLAG_WRITE` where the segment can be written, `MMU_FLAG_NOEXEC` where it cannot be executed.
unfoldable pub page_flags : ℕ → ℕ
page_flags p_flags =
    (if p_flags / 2 % 2 == 1 then 2 else 0) + (if p_flags % 2 == 1 then 0 else 2 ^ 63)

-- The loop `dst[j] = 0`.
unfoldable pub zero_bytes : ℕ → ℕ → (ℕ → ℕ) → ℕ → ℕ
zero_bytes zero dst mem = mem
zero_bytes (suc n) dst mem = zero_bytes n (dst + 1) (update mem dst 0)

-- The loop `dst[dst_off + k] = bytes[src_off + k]`.
unfoldable pub copy_bytes : (ℕ → ℕ) → ℕ → ℕ → ℕ → (ℕ → ℕ) → ℕ → ℕ
copy_bytes image zero dst src mem = mem
copy_bytes image (suc n) dst src mem =
    copy_bytes image n (dst + 1) (add64 src 1) (update mem dst (image src))

-- What a new page at `phys` for the address `v` is filled with.
unfoldable pub fill_page : (ℕ → ℕ) → Phdr → ℕ → ℕ → (ℕ → ℕ) → ℕ → ℕ
fill_page image ph v phys mem =
    let zeroed = zero_bytes page_size phys mem in
    let data_end = add64 ph.p_vaddr ph.p_filesz in
    let copy_start = if ltb ph.p_vaddr v then v else ph.p_vaddr in
    let copy_end = if ltb (v + page_size) data_end then v + page_size else data_end in
    if ltb copy_start copy_end
    then copy_bytes image (copy_end - copy_start) (phys + (copy_start - v))
        (add64 ph.p_offset (copy_start - ph.p_vaddr)) zeroed
    else zeroed

-- The rest of a function behind a step that may return -1.
abbrev pub on_ok :
    {A : Type 0} → Bool × Loading A → (Loading A → Bool × Loading A) → Bool × Loading A
on_ok (false, s) rest = (false, s)
on_ok (true, s) rest = rest s

module _ {A : Type 0} (e : Env A) (image : ℕ → ℕ) (size : ℕ) where
  -- One round of the loop over the pages of a segment; `false` is the result -1.
  unfoldable pub load_page : Phdr → ℕ → Loading A → Bool × Loading A
  unfolding page_flags
  load_page ph v s =
      let (phys, env) = e.alloc_page s.env in
      let (ok, env') = e.map_page v phys (page_flags ph.p_flags) env in
      if phys == 0
      then (false, record s { env = env })
      else (if not ok then (false, record s { env = env' }) else (
        true,
        record s {
          env = env';
          mem = fill_page image ph v phys s.mem;
          mapped = record { virt = v; phys = phys; flags = page_flags ph.p_flags } ∷ s.mapped;
        },
      ))

  unfoldable pub load_pages : Phdr → ℕ → ℕ → Loading A → Bool × Loading A
  unfolding load_page
  load_pages ph zero v s = (true, s)
  load_pages ph (suc rounds) v s =
      on_ok (load_page ph v s) (λ s'. load_pages ph rounds (v + page_size) s')

  -- The round of the loop over the segments.
  unfoldable pub load_segment : Phdr → Loading A → Bool × Loading A
  unfolding segment_ok align_down align_up load_pages
  load_segment ph s =
      let start = align_down ph.p_vaddr in
      let end = align_up (add64 ph.p_vaddr ph.p_memsz) in
      if not (ph.p_type == 1)
      then (true, s)
      else (if segment_ok ph size
          then load_pages ph ((end - start) / page_size) start s
          else (false, s))

  unfoldable pub load_segments : ℕ → ℕ → Loading A → Bool × Loading A
  unfolding load_segment read_phdr
  load_segments zero at s = (true, s)
  load_segments (suc rounds) at s =
      on_ok (load_segment (read_phdr image at) s)
        (λ s'. load_segments rounds (add64 at phdr_size) s')

  unfoldable pub elf_load_user : Loading A → Bool × Loading A
  unfolding read_ehdr elf_check_header load_segments
  elf_load_user s =
      let eh = read_ehdr image in
      if size == 0 || not (elf_check_header eh size)
      then (false, s)
      else (on_ok (load_segments eh.e_phnum eh.e_phoff s)
          (λ s'. (true, record s' { entry = eh.e_entry })))
