-- ===== src/Fat/Entries.antt =====
-- The fields, the name and the kind of an entry of a directory of kernel/fat.c, byte by byte.
use neptune_os.Common.{
  length, get_or, ◌==◌, ==→eq, ==→ne, Bool-cases, ℕ, zero, suc, ◌+◌, ◌*◌, ◌/◌, ◌%◌, ◌<◌, ◌≡◌, refl,
  ap, ◌∙◌, ◌⊎◌, inl, inr, Bool, true, false, List, [], ◌∷◌, arith,
}
use neptune_os.Fat.{read_u32, read_u16, FatFile}
use neptune_os.Fat.Dir.{either, file, dir, attr_bit, Want, same_name, skips_kind, entry_file}

-- A kind that is asked for: of a file, of a directory, or any.
abbrev pub Wanted : Want → Bool → Type 0
Wanted either is_dir = Unit
Wanted file is_dir = is_dir ≡ false
Wanted dir is_dir = is_dir ≡ true

-- `found` has the fields of an entry of 32 bytes.
pub record Fields (byte : ℕ → ℕ) (found : FatFile) : Type 0 where
  pub start_cluster_eq : found.start_cluster ≡ byte 26 + 256 * byte 27
  pub size_eq : found.size ≡ byte 28 + 256 * (byte 29 + 256 * (byte 30 + 256 * byte 31))
  pub attr_eq : found.attr ≡ byte 11
  pub kind :
      ((found.is_dir ≡ true) × (byte 11 / 16 % 2 ≡ 1))
      ⊎ ((found.is_dir ≡ false) × (byte 11 / 16 % 2 ≡ 0))

pub entry_file-Fields :
    (lba : ℕ) (sector : List ℕ) (idx : ℕ)
    → Fields (λ i. get_or sector (idx + i) 0) (entry_file lba sector idx)
unfolding entry_file read_u16 read_u32 attr_bit
entry_file-Fields lba sector idx =
    let at : (i j : ℕ) → get_or sector (idx + i + j) 0 ≡ get_or sector (idx + (i + j)) 0 =
      λ i j. ap (λ n. get_or sector n 0) (omega arith) in
    record {
      start_cluster_eq = omega (arith, at 26 1);
      size_eq = omega (arith, at 28 1, at 28 2, at 28 3);
      attr_eq = refl;
      kind = elim (Bool-cases (get_or sector (idx + 11) 0 / 16 % 2 == 1)) [
        | inl e ↦ inl (e, ==→eq _ _ e)
        | inr e ↦ inr (e, ground (arith, ==→ne _ _ e))
      ];
    }

pub same_name-bytes :
    (n : ℕ) (sector : List ℕ) (at : ℕ) (name : List ℕ)
    → same_name n sector at name ≡ true
    → (i : ℕ) → i < n
    → i < length name
    → get_or sector (at + i) 0 ≡ get_or name i 0
unfolding same_name
same_name-bytes zero sector at name e i h l = absurd (omega arith)
same_name-bytes (suc n) sector at [] e i h l = absurd (omega arith)
same_name-bytes (suc n) sector at (c ∷ name) e zero h l =
    ap (λ k. get_or sector k 0) (omega arith) ∙ ==→eq (get_or sector at 0) c (ground arith)
same_name-bytes (suc n) sector at (c ∷ name) e (suc i) h l =
    ap (λ k. get_or sector k 0) (omega arith)
    ∙ same_name-bytes n sector (at + 1) name (ground arith) i (omega arith) (omega arith)

pub skips_kind-Wanted :
    (want : Want) (is_dir : Bool) → skips_kind want is_dir ≡ false → Wanted want is_dir
unfolding skips_kind
skips_kind-Wanted either is_dir e = tt
skips_kind-Wanted file is_dir e = e
skips_kind-Wanted dir is_dir e = ground arith
