-- ===== src/Block/Ramdisk.antt =====
-- `ramdisk_read` and `ramdisk_write` of kernel/block.c over the disk's bytes.
use neptune_os.Common.{
  length, take, take_all, ltb, leb, ◌==◌, if◌then◌else◌, ==→eq, Bool-cases, some_inj, update, ℕ,
  zero, suc, ◌+◌, ◌-◌, ◌*◌, ◌≤◌, ◌<◌, ◌≡◌, refl, sym, ap, ap₂, ◌∙◌, ◌≢◌, ◌⊎◌, inl, inr, Bool, true,
  false, not, ◌&&◌, Option, none, some, List, [], ◌∷◌, arith,
}
use neptune_os.Block.{sector_size, Devices}
use neptune_os.Block.Coherent.{Laws}

abbrev pub ramdisk_sectors : ℕ
ramdisk_sectors = 8192

-- `n` bytes from address `a` on.
unfoldable pub slice : (ℕ → ℕ) → ℕ → ℕ → List ℕ
slice m a zero = []
slice m a (suc n) = m a ∷ slice m (a + 1) n

unfoldable pub write_bytes : (ℕ → ℕ) → ℕ → List ℕ → ℕ → ℕ
write_bytes m a [] = m
write_bytes m a (x ∷ xs) = write_bytes (update m a x) (a + 1) xs

-- The tests at the head of both functions.
unfoldable pub in_range : ℕ → ℕ → Bool
in_range lba count =
    not (count == 0) && ltb lba ramdisk_sectors && leb count (ramdisk_sectors - lba)

unfoldable pub ramdisk_read : ℕ → ℕ → (ℕ → ℕ) → Option (List ℕ)
unfolding in_range
ramdisk_read lba count m =
    if in_range lba count then some (slice m (lba * sector_size) (count * sector_size)) else none

unfoldable pub ramdisk_write : ℕ → ℕ → List ℕ → (ℕ → ℕ) → Option (ℕ → ℕ)
unfolding in_range
ramdisk_write lba count buf m =
    if in_range lba count
    then some (write_bytes m (lba * sector_size) (take (count * sector_size) buf))
    else none

-- The RAM disk as device 1; no other device is there.
abbrev pub ramdisk : Devices (ℕ → ℕ)
ramdisk = record {
  read = λ dev lba count m. if dev == 1 then ramdisk_read lba count m else none;
  write = λ dev lba count buf m. if dev == 1 then ramdisk_write lba count buf m else none;
}

length-slice : (m : ℕ → ℕ) (a n : ℕ) → length (slice m a n) ≡ n
unfolding slice
length-slice m a zero = refl
length-slice m a (suc n) = ap suc (length-slice m (a + 1) n)

-- Bytes outside the written range stay.
write_bytes_outside :
    (xs : List ℕ) (m : ℕ → ℕ) (a b : ℕ) → (b < a) ⊎ (a + length xs ≤ b) → write_bytes m a xs b ≡ m b
unfolding write_bytes
write_bytes_outside [] m a b h = refl
write_bytes_outside (x ∷ xs) m a b h =
    write_bytes_outside xs (update m a x) (a + 1) b (omega arith) ∙ ground arith

slice-write_bytes :
    (xs : List ℕ) (m : ℕ → ℕ) (a : ℕ) → slice (write_bytes m a xs) a (length xs) ≡ xs
unfolding slice write_bytes
slice-write_bytes [] m a = refl
slice-write_bytes (x ∷ xs) m a =
    ap₂ ◌∷◌ (write_bytes_outside xs (update m a x) (a + 1) a (omega arith) ∙ ground arith)
      (slice-write_bytes xs (update m a x) (a + 1))

slice-write_bytes_outside :
    (n : ℕ) (xs : List ℕ) (m : ℕ → ℕ) (a b : ℕ)
    → (b + n ≤ a) ⊎ (a + length xs ≤ b)
    → slice (write_bytes m a xs) b n ≡ slice m b n
unfolding slice
slice-write_bytes_outside zero xs m a b h = refl
slice-write_bytes_outside (suc n) xs m a b h =
    ap₂ ◌∷◌ (write_bytes_outside xs m a b (omega arith))
      (slice-write_bytes_outside n xs m a (b + 1) (omega arith))

-- Two sectors lie apart.
sectors_apart : (i j : ℕ) → i ≢ j → (i * 512 + 512 ≤ j * 512) ⊎ (j * 512 + 512 ≤ i * 512)
sectors_apart i j ne = omega arith

module _ (lba : ℕ) (m : ℕ → ℕ) where
  ramdisk_read-in : in_range lba 1 ≡ true → ramdisk_read lba 1 m ≡ some (slice m (lba * 512) 512)
  unfolding ramdisk_read
  ramdisk_read-in e = rw e

  ramdisk_read-out : in_range lba 1 ≡ false → ramdisk_read lba 1 m ≡ none
  unfolding ramdisk_read
  ramdisk_read-out e = rw e

  ramdisk_write-in :
      (buf : List ℕ)
      → length buf ≡ 512
      → in_range lba 1 ≡ true
      → ramdisk_write lba 1 buf m ≡ some (write_bytes m (lba * 512) buf)
  unfolding ramdisk_write
  ramdisk_write-in buf len e =
      rw e (ap (λ l. some (write_bytes m (lba * 512) l)) (take_all 512 buf (omega (arith, len))))

  ramdisk_write-out : (buf : List ℕ) → in_range lba 1 ≡ false → ramdisk_write lba 1 buf m ≡ none
  unfolding ramdisk_write
  ramdisk_write-out buf e = rw e

module _ (lba : ℕ) (buf : List ℕ) (m m' : ℕ → ℕ) (len : length buf ≡ 512)
    (h : ramdisk_write lba 1 buf m ≡ some m') where
  written : (in_range lba 1 ≡ true) × (m' ≡ write_bytes m (lba * 512) buf)
  written = elim (Bool-cases (in_range lba 1)) [
    | inl e ↦ (e, some_inj (sym h ∙ ramdisk_write-in lba m buf len e))
    | inr e ↦ absurd (cc (ramdisk_write-out lba m buf e))
  ]

  read-written : ramdisk_read lba 1 m' ≡ some buf
  read-written = rw written.1 (
      ramdisk_read-in lba (write_bytes m (lba * 512) buf) written.0
      ∙ ap some (
          ap (slice (write_bytes m (lba * 512) buf) (lba * 512)) (sym len)
          ∙ slice-write_bytes buf m (lba * 512)))

  read-written_other : (lba' : ℕ) → lba' ≢ lba → ramdisk_read lba' 1 m' ≡ ramdisk_read lba' 1 m
  read-written_other lba' ne = elim (Bool-cases (in_range lba' 1)) [
    | inl e ↦ rw written.1 (
        ramdisk_read-in lba' (write_bytes m (lba * 512) buf) e
        ∙ ap some (
            slice-write_bytes_outside 512 buf m (lba * 512) (lba' * 512)
              (omega (arith, sectors_apart lba' lba ne, len)))
        ∙ sym (ramdisk_read-in lba' m e))
    | inr e ↦ ramdisk_read-out lba' m' e ∙ sym (ramdisk_read-out lba' m e)
  ]

length-ramdisk_read :
    (lba : ℕ) (m : ℕ → ℕ) (buf : List ℕ) → ramdisk_read lba 1 m ≡ some buf → length buf ≡ 512
length-ramdisk_read lba m buf h = elim (Bool-cases (in_range lba 1)) [
  | inl e ↦ ap length (some_inj (sym h ∙ ramdisk_read-in lba m e)) ∙ length-slice m (lba * 512) 512
  | inr e ↦ absurd (cc (ramdisk_read-out lba m e))
]

-- A test on the number of the device that has passed.
device_of :
    {A : Type 0} (dev : ℕ) (o : Option A) (a : A)
    → (if dev == 1 then o else none) ≡ some a
    → ((dev == 1) ≡ true) × (o ≡ some a)
device_of dev o a h = ground arith

other_sector :
    (dev dev' lba lba' : ℕ)
    → (dev == 1) ≡ true
    → (dev' == 1) ≡ true
    → (dev' ≢ dev) ⊎ (lba' ≢ lba)
    → lba' ≢ lba
other_sector dev dev' lba lba' e e' (inl ne) = absurd (ne (==→eq dev' 1 e' ∙ sym (==→eq dev 1 e)))
other_sector dev dev' lba lba' e e' (inr ne) = ne

-- The RAM disk does what the cache relies on: one sector reads as it was last written, and no other
-- sector changes.
pub ramdisk-Laws : Laws ramdisk
ramdisk-Laws = record {
  read-write = λ dev lba buf s s' len h.
      let d = device_of dev (ramdisk_write lba 1 buf s) s' h in
      rw d.0 (read-written lba buf s s' len d.1);
  read-write_other = λ dev lba dev' lba' buf s s' len h ne.
      let d = device_of dev (ramdisk_write lba 1 buf s) s' h in
      elim (Bool-cases (dev' == 1)) [
        | inl e ↦
            rw e (
              read-written_other lba buf s s' len d.1 lba'
                (other_sector dev dev' lba lba' d.0 e ne))
        | inr e ↦ rw e
      ];
  length-read = λ dev lba s {buf} h.
      let d = device_of dev (ramdisk_read lba 1 s) buf h in length-ramdisk_read lba s buf d.1;
}
