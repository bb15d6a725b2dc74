-- ===== src/Ramfs/Bytes.antt =====
-- Bytes of a file's storage in kernel/ramfs.c.
use neptune_os.Common.{
  length, get_or, set, take, replicate, length-set, get_or-set_self, get_or-set_ne, ltb, leb, ◌==◌,
  if◌then◌else◌, ltb→lt, leb→le, ==→eq, ==→ne, Bool-cases, if_intro, leb→gt, add64, ℕ, zero, suc,
  ◌+◌, ◌-◌, ◌*◌, ◌^◌, ◌≤◌, ◌<◌, ◌≡◌, refl, ap, ◌∙◌, inl, inr, Bool, false, ◌&&◌, some, List, [],
  ◌∷◌, ◌++◌, arith,
}
use neptune_os.Ramfs.{
  Result, ok, failed, endless, RamfsFile, expand, overwrite, grow_step, grow, new_capacity,
}

-- The loop ends with a storage that is large enough.
grow-ends :
    (fuel cap need : ℕ)
    → need + grow_step ≤ 2 ^ 64
    → need ≤ cap + fuel * 64
    → (c : ℕ) × (grow fuel cap need ≡ some c) × (need ≤ c)
unfolding grow
grow-ends zero cap need b h = (cap, ground arith, omega arith)
grow-ends (suc fuel) cap need b h = elim (Bool-cases (ltb cap need)) [
  | inl e ↦ rw (e, grow) (grow-ends fuel (add64 cap 64) need b (ground arith))
  | inr e ↦ rw (e, grow) (cap, refl, ground arith)
]

pub new_capacity-ends :
    (capacity need : ℕ)
    → need + grow_step ≤ 2 ^ 64
    → (c : ℕ) × (new_capacity capacity need ≡ some c) × (need ≤ c)
unfolding new_capacity
new_capacity-ends capacity need b =
    grow-ends need (if capacity == 0 then grow_step else capacity) need b (omega arith)

pub ok_inj {ℓ} : {A : Type ℓ} {x y : A} → ok x ≡ ok y → x ≡ y
ok_inj {x = x} e = ap (λ r. elim r [ ok v ↦ v | failed ↦ x | endless ↦ x ]) e

-- What `ramfs_expand` does with a size at least one step below 2^64: the storage was large enough, or it
-- is copied into a larger one, or there is no memory for that.
pub data Expands (kalloc : ℕ → Bool) (f : RamfsFile) (need : ℕ) : Result RamfsFile → Type 0 where
  enough : need ≤ length f.bytes → Expands kalloc f need (ok f)
  copied :
      (cap : ℕ)
      → length f.bytes < need
      → need ≤ cap
      → Expands kalloc f need
          (ok (record f { bytes = take f.size f.bytes ++ replicate (cap - f.size) 0 }))
  refused : (cap : ℕ) → need ≤ cap → kalloc cap ≡ false → Expands kalloc f need failed

pub expand-Expands :
    (kalloc : ℕ → Bool) (f : RamfsFile) (need : ℕ)
    → need + grow_step ≤ 2 ^ 64
    → Expands kalloc f need (expand kalloc f need)
unfolding expand
expand-Expands kalloc f need b = elim (Bool-cases (leb need (length f.bytes))) [
  | inl le ↦ rw le (enough (leb→le need (length f.bytes) le))
  | inr gt ↦
      let (cap, e, large) = new_capacity-ends (length f.bytes) need b in
      rw (gt, e)
        (if_intro (Expands kalloc f need) (kalloc cap)
          (λ room. copied cap (leb→gt need (length f.bytes) gt) large)
          (λ full. refused cap large full))
]

-- What a storage reads as: beyond its end there is nothing, which reads as 0 here.
abbrev pub byte_at : List ℕ → ℕ → ℕ
byte_at bytes i = get_or bytes i 0

byte_at-shift :
    (x : ℕ) (src : List ℕ) (i at : ℕ)
    → at < i
    → byte_at (x ∷ src) (i - at) ≡ byte_at src (i - (at + 1))
byte_at-shift x src i at h =
    let e : i - at ≡ suc (i - (at + 1)) = omega arith in ap (byte_at (x ∷ src)) e

byte_at-same : (x : ℕ) (src : List ℕ) (i : ℕ) → byte_at (x ∷ src) (i - i) ≡ x
byte_at-same x src i = let e : i - i ≡ 0 = omega arith in ap (byte_at (x ∷ src)) e

byte_at-first :
    (x : ℕ) (src bytes : List ℕ) (at i : ℕ)
    → at ≡ i
    → at + length (x ∷ src) ≤ length bytes
    → (if leb (at + 1) i && ltb i (at + 1 + length src)
        then byte_at src (i - (at + 1))
        else byte_at (set bytes at x) i)
      ≡ (if leb at i && ltb i (at + length (x ∷ src))
          then byte_at (x ∷ src) (i - at)
          else byte_at bytes i)
byte_at-first x src bytes at i e h =
    let self = get_or-set_self bytes i x 0 (omega arith) in
    rw e (ground (arith, byte_at-same x src i, self))

pub byte_at-overwrite :
    (src bytes : List ℕ) (at i : ℕ)
    → at + length src ≤ length bytes
    → byte_at (overwrite bytes at src) i
      ≡ (if leb at i && ltb i (at + length src) then byte_at src (i - at) else byte_at bytes i)
unfolding overwrite
byte_at-overwrite [] bytes at i h = ground arith
byte_at-overwrite (x ∷ src) bytes at i h =
    let ih =
      byte_at-overwrite src (set bytes at x) (at + 1) i (omega (arith, length-set bytes at x)) in
    ih ∙ (elim (Bool-cases (ltb at i)) [
      | inl e ↦ ground (
        arith,
        get_or-set_ne bytes at i x 0 (λ eq. absurd (ground arith)),
        byte_at-shift x src i at (ltb→lt at i e),
      )
      | inr e ↦ elim (Bool-cases (at == i)) [
        | inl e' ↦ byte_at-first x src bytes at i (==→eq at i e') h
        | inr e' ↦ ground (arith, get_or-set_ne bytes at i x 0 (==→ne at i e'))
      ]
    ])

pub length-overwrite :
    (src bytes : List ℕ) (at : ℕ) → length (overwrite bytes at src) ≡ length bytes
unfolding overwrite
length-overwrite [] bytes at = refl
length-overwrite (x ∷ src) bytes at =
    length-overwrite src (set bytes at x) (at + 1) ∙ length-set bytes at x
