-- ===== src/Ramfs/RoundTrip.antt =====
-- A read of kernel/ramfs.c after a write.
use neptune_os.Common.{
  length, take, drop, length-take, leb, ◌==◌, add64, ℕ, zero, suc, ◌+◌, ◌-◌, ◌^◌, ◌≤◌, ◌<◌, min,
  ◌≡◌, refl, sym, ap, ap₂, subst, ◌∙◌, ◌⊎◌, inl, inr, Bool, false, ◌||◌, List, [], ◌∷◌, arith,
  mod-eq_of_lt,
}
use neptune_os.Ramfs.{
  Result, ok, failed, endless, RamfsFile, expand, grow_step, ramfs_write, ramfs_read,
}
use neptune_os.Ramfs.Bytes.{Expands, refused, expand-Expands, byte_at}
use neptune_os.Ramfs.Laws.{ramfs_write-put, put, IsValid, contents, ramfs_write-contents}

-- A write of a nonempty buffer that ends at least 64 bytes below 2^64 returns: with the offset behind its
-- last byte, or with -1 where there was no memory for a storage that holds the end of the write.
pub ramfs_write-returns :
    (kalloc : ℕ → Bool) (f : RamfsFile) (offset : ℕ) (src : List ℕ)
    → offset + length src + grow_step ≤ 2 ^ 64
    → 0 < length src
    → ((f' : RamfsFile) × (ramfs_write kalloc f offset src ≡ ok (f', offset + length src)))
      ⊎ ((ramfs_write kalloc f offset src ≡ failed)
          × (n : ℕ) × (offset + length src ≤ n)
          × (kalloc n ≡ false))
ramfs_write-returns kalloc f offset src b ne =
    let step = ramfs_write-put kalloc f offset src (omega arith) ne in
    subst
      (λ w.
        ((f' : RamfsFile) × (w ≡ ok (f', offset + length src)))
        ⊎ ((w ≡ failed) × (n : ℕ) × (offset + length src ≤ n) × (kalloc n ≡ false)))
      (sym step)
      (goes (expand kalloc f (offset + length src))
        (expand-Expands kalloc f (offset + length src) b))
  where
    goes :
        (r : Result RamfsFile)
        → Expands kalloc f (offset + length src) r
        → ((f' : RamfsFile) × (put offset (offset + length src) src r
              ≡ ok (f', offset + length src)))
          ⊎ ((put offset (offset + length src) src r ≡ failed)
              × (n : ℕ) × (offset + length src ≤ n)
              × (kalloc n ≡ false))
    goes failed (refused n le full) = inr (refl, n, le, full)
    goes endless x = elim x [ ]
    goes (ok g) x = inl (_, refl)

shifted : (x : ℕ) (xs : List ℕ) (k i : ℕ) → byte_at xs (k + i) ≡ byte_at (x ∷ xs) (suc k + i)
shifted x xs k i = let e : suc k + i ≡ suc (k + i) = omega arith in ap (byte_at (x ∷ xs)) (sym e)

byte_at-drop : (k : ℕ) (xs : List ℕ) (i : ℕ) → byte_at (drop k xs) i ≡ byte_at xs (k + i)
byte_at-drop zero xs i = ap (byte_at xs) (omega arith)
byte_at-drop (suc k) [] i = refl
byte_at-drop (suc k) (x ∷ xs) i = byte_at-drop k xs i ∙ shifted x xs k i

byte_at-take : (n : ℕ) (xs : List ℕ) (i : ℕ) → i < n → byte_at (take n xs) i ≡ byte_at xs i
byte_at-take zero xs i h = absurd (omega arith)
byte_at-take (suc n) [] i h = refl
byte_at-take (suc n) (x ∷ xs) zero h = refl
byte_at-take (suc n) (x ∷ xs) (suc i) h = byte_at-take n xs i (omega arith)

length-drop : (k : ℕ) (xs : List ℕ) → length (drop k xs) ≡ length xs - k
length-drop zero xs = omega arith
length-drop (suc k) [] = omega arith
length-drop (suc k) (x ∷ xs) = omega (arith, length-drop k xs)

-- Two lists of one length that read the same are the same.
list_ext :
    (xs ys : List ℕ)
    → length xs ≡ length ys
    → ((i : ℕ) → i < length ys → byte_at xs i ≡ byte_at ys i)
    → xs ≡ ys
list_ext [] [] e h = refl
list_ext [] (y ∷ ys) e h = absurd (omega arith)
list_ext (x ∷ xs) [] e h = absurd (omega arith)
list_ext (x ∷ xs) (y ∷ ys) e h =
    ap₂ (λ a l. a ∷ l) (h 0 (omega arith))
      (list_ext xs ys (omega arith) (λ i lt. h (suc i) (omega arith)))

-- A read inside the file returns the contents.
read-contents :
    (f : RamfsFile) (offset : ℕ) (src : List ℕ)
    → IsValid f
    → 0 < length src
    → offset + length src ≤ f.size
    → offset + length src < 2 ^ 64
    → ((i : ℕ) → i < length src → contents f (offset + i) ≡ byte_at src i)
    → ramfs_read f offset (length src) ≡ (src, offset + length src)
unfolding ramfs_read
read-contents f offset src v ne inside b same =
    let n = length src in
    let not_empty : (n == 0 || leb f.size offset) ≡ false = ground arith in
    let all : min n (f.size - offset) ≡ n = omega arith in
    let end : add64 offset n ≡ offset + n = mod-eq_of_lt (omega arith) in
    let bytes : take n (drop offset f.bytes) ≡ src =
      list_ext (take n (drop offset f.bytes)) src
        (omega (arith, length-take n (drop offset f.bytes), length-drop offset f.bytes, v.fits))
        (λ i lt.
          byte_at-take n (drop offset f.bytes) i lt
          ∙ byte_at-drop offset f.bytes i
          ∙ ground (arith, same i lt)) in
    rw (not_empty, all, end, bytes) refl

-- What a write put into a valid file is what a read of as many bytes at the same offset returns, and
-- the read leaves the offset where the write left it. The write ends at least 64 bytes below 2^64.
pub ramfs_read-ramfs_write :
    (kalloc : ℕ → Bool) (f : RamfsFile) (offset : ℕ) (src : List ℕ) (f' : RamfsFile) (after : ℕ)
    → IsValid f
    → offset + length src + grow_step ≤ 2 ^ 64
    → 0 < length src
    → ramfs_write kalloc f offset src ≡ ok (f', after)
    → ramfs_read f' offset (length src) ≡ (src, after)
ramfs_read-ramfs_write kalloc f offset src f' after v b ne e =
    let (v', end, size, same) = ramfs_write-contents kalloc f offset src f' after v b ne e in
    let back : (i : ℕ) → byte_at src (offset + i - offset) ≡ byte_at src i =
      λ i. ap (byte_at src) (omega arith) in
    read-contents f' offset src v' ne (omega arith) (omega arith)
      (λ i lt. same (offset + i) ∙ ground (arith, back i))
    ∙ ap (λ a. (src, a)) (sym end)
