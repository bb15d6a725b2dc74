-- ===== src/Ramfs/Laws.antt =====
-- What a file of kernel/ramfs.c holds after a write, and what a read returns.
use neptune_os.Common.{
  length, take, replicate, length-append, length-take, ltb, leb, ◌==◌, if◌then◌else◌, ltb→ge,
  Bool-cases, add64, ℕ, zero, suc, ◌+◌, ◌-◌, ◌^◌, ◌≤◌, ◌<◌, max, ◌≡◌, refl, sym, ap, subst, ◌∙◌,
  inl, inr, Bool, false, ◌&&◌, List, [], ◌∷◌, ◌++◌, arith, mod-eq_of_lt,
}
use neptune_os.Ramfs.{
  Result, ok, failed, endless, RamfsFile, expand, overwrite, ramfs_write, grow_step,
}
use neptune_os.Ramfs.Bytes.{
  Expands, enough, copied, refused, expand-Expands, ok_inj, length-overwrite, byte_at-overwrite,
  byte_at,
}

-- The storage holds the file, and is zero behind it.
pub record IsValid (f : RamfsFile) : Type 0 where
  pub fits : f.size ≤ length f.bytes
  pub zero_tail : (i : ℕ) → f.size ≤ i → byte_at f.bytes i ≡ 0

byte_at-replicate : (k i : ℕ) → byte_at (replicate k 0) i ≡ 0
byte_at-replicate zero i = refl
byte_at-replicate (suc k) zero = refl
byte_at-replicate (suc k) (suc i) = byte_at-replicate k i

length-zeros : (k : ℕ) → length {A = ℕ} (replicate k 0) ≡ k
length-zeros zero = refl
length-zeros (suc k) = ap suc (length-zeros k)

byte_at-copied :
    (n k : ℕ) (xs : List ℕ) (i : ℕ)
    → byte_at (take n xs ++ replicate k 0) i ≡ (if ltb i n then byte_at xs i else 0)
byte_at-copied zero k xs i = byte_at-replicate k i ∙ (ground arith)
byte_at-copied (suc n) k [] i = byte_at-replicate k i ∙ (ground arith)
byte_at-copied (suc n) k (x ∷ xs) zero = ground arith
byte_at-copied (suc n) k (x ∷ xs) (suc i) = byte_at-copied n k xs i ∙ (ground arith)

-- `g` holds what `f` holds, in a storage of at least `need` bytes.
record Expanded (f g : RamfsFile) (need : ℕ) : Type 0 where
  size_same : g.size ≡ f.size
  room : need ≤ length g.bytes
  still_fits : f.size ≤ length g.bytes
  bytes_same : (i : ℕ) → byte_at g.bytes i ≡ byte_at f.bytes i

copied-Expanded :
    (f : RamfsFile) (need cap : ℕ)
    → IsValid f
    → length f.bytes < need
    → need ≤ cap
    → Expanded f (record f { bytes = take f.size f.bytes ++ replicate (cap - f.size) 0 }) need
copied-Expanded f need cap v lt le =
    let len : length (take f.size f.bytes ++ replicate (cap - f.size) 0) ≡ cap = omega (
      arith,
      v.fits,
      length-append (take f.size f.bytes) (replicate (cap - f.size) 0),
      length-take f.size f.bytes,
      length-zeros (cap - f.size),
    ) in
    record {
      size_same = refl;
      room = omega arith;
      still_fits = omega (arith, v.fits);
      bytes_same = λ i.
          byte_at-copied f.size (cap - f.size) f.bytes i ∙ elim (Bool-cases (ltb i f.size)) [
            | inl e ↦ rw e refl
            | inr e ↦ rw e (sym (v.zero_tail i (ltb→ge i f.size e)))
          ];
    }

Expands-Expanded :
    (kalloc : ℕ → Bool) (f : RamfsFile) (need : ℕ) (g : RamfsFile) (r : Result RamfsFile)
    → IsValid f
    → Expands kalloc f need r
    → r ≡ ok g
    → Expanded f g need
Expands-Expanded kalloc f need g r v (enough room) e =
    subst (λ x. Expanded f x need) (ok_inj e)
      (record { size_same = refl; room = room; still_fits = v.fits; bytes_same = λ i. refl })
Expands-Expanded kalloc f need g r v (copied cap lt le) e =
    subst (λ x. Expanded f x need) (ok_inj e) (copied-Expanded f need cap v lt le)
Expands-Expanded kalloc f need g r v (refused cap le full) e = absurd (cc)

-- What a read sees at offset `i`: the file's bytes, and zeros from its size on.
abbrev pub contents : RamfsFile → ℕ → ℕ
contents f i = if ltb i f.size then byte_at f.bytes i else 0

-- The state after a write of a nonempty `src` to `f`.
record Written (f f' : RamfsFile) (offset : ℕ) (src : List ℕ) : Type 0 where
  middle : RamfsFile
  grown : Expanded f middle (offset + length src)
  bytes_eq : f'.bytes ≡ overwrite middle.bytes offset src
  size_eq : f'.size ≡ max f.size (offset + length src)

-- What `ramfs_write` returns after the growth of the storage.
abbrev pub put : ℕ → ℕ → List ℕ → Result RamfsFile → Result (RamfsFile × ℕ)
put offset end src r = elim r [
  | failed ↦ failed
  | endless ↦ endless
  | ok g ↦ ok (record g { bytes = overwrite g.bytes offset src; size = max g.size end }, end)
]

pub ramfs_write-put :
    (kalloc : ℕ → Bool) (f : RamfsFile) (offset : ℕ) (src : List ℕ)
    → offset + length src < 2 ^ 64
    → 0 < length src
    → ramfs_write kalloc f offset src
      ≡ put offset (offset + length src) src (expand kalloc f (offset + length src))
unfolding ramfs_write
ramfs_write-put kalloc f offset src b ne =
    let branch : Bool → Bool → ℕ → Result (RamfsFile × ℕ) = λ empty wraps end.
      if empty
      then ok (f, offset)
      else (if wraps then failed else put offset end src (expand kalloc f end)) in
    let end : add64 offset (length src) ≡ offset + length src = mod-eq_of_lt b in
    let not_empty : (length src == 0) ≡ false = ground arith in
    let no_wrap : ltb (offset + length src) offset ≡ false = ground arith in
    let wrapped = add64 offset (length src) in
    ap (λ e. branch e (ltb wrapped offset) wrapped) not_empty
    ∙ ap (λ n. branch false (ltb n offset) n) end
    ∙ ap (λ w. branch false w (offset + length src)) no_wrap

written :
    (kalloc : ℕ → Bool) (f : RamfsFile) (offset : ℕ) (src : List ℕ) (f' : RamfsFile) (after : ℕ)
    → IsValid f
    → offset + length src + grow_step ≤ 2 ^ 64
    → 0 < length src
    → ramfs_write kalloc f offset src ≡ ok (f', after)
    → Written f f' offset src × (after ≡ offset + length src)
written kalloc f offset src f' after v b ne e =
    goes (expand kalloc f (offset + length src)) refl
      (sym (ramfs_write-put kalloc f offset src (omega arith) ne) ∙ e)
      (expand-Expands kalloc f (offset + length src) b)
  where
    goes :
        (r : Result RamfsFile)
        → expand kalloc f (offset + length src) ≡ r
        → put offset (offset + length src) src r ≡ ok (f', after)
        → Expands kalloc f (offset + length src) (expand kalloc f (offset + length src))
        → Written f f' offset src × (after ≡ offset + length src)
    goes failed eq p x = absurd (cc)
    goes endless eq p x = absurd (cc)
    goes (ok g) eq p x =
        let q = ok_inj p in
        let ex =
          Expands-Expanded kalloc f (offset + length src) g (expand kalloc f (offset + length src))
            v x eq in
        (
          record {
            middle = g;
            grown = ex;
            bytes_eq = sym (ap (λ z. z.0.bytes) q);
            size_eq =
                sym (ap (λ z. z.0.size) q) ∙ ap (λ n. max n (offset + length src)) ex.size_same;
          },
          sym (ap (λ z. z.1) q),
        )

Written-bytes :
    (f f' : RamfsFile) (offset : ℕ) (src : List ℕ) (i : ℕ)
    → Written f f' offset src
    → byte_at f'.bytes i ≡ (
        if leb offset i && ltb i (offset + length src)
        then byte_at src (i - offset)
        else byte_at f.bytes i)
Written-bytes f f' offset src i w =
    ap (λ bs. byte_at bs i) w.bytes_eq
    ∙ byte_at-overwrite src w.middle.bytes offset i w.grown.room
    ∙ ap (λ y. if leb offset i && ltb i (offset + length src) then byte_at src (i - offset) else y)
        (w.grown.bytes_same i)

Written-IsValid :
    (f f' : RamfsFile) (offset : ℕ) (src : List ℕ)
    → IsValid f
    → Written f f' offset src
    → IsValid f'
Written-IsValid f f' offset src v w = record {
  fits = omega (
    arith,
    w.size_eq,
    ap length w.bytes_eq,
    length-overwrite src w.middle.bytes offset,
    w.grown.room,
    w.grown.still_fits,
  );
  zero_tail = λ i h.
      Written-bytes f f' offset src i w
      ∙ (ground (arith, w.size_eq, v.zero_tail i (omega (arith, w.size_eq))));
}

-- A write of a nonempty buffer that returns, in a file whose storage holds its size and is zero behind
-- it, and that ends at least 64 bytes below 2^64, leaves a file of that form; the offset moves to the
-- end of the write, and the file then reads as the buffer between the two offsets and as it did before
-- elsewhere, where everything from the old size on, also a gap that the write leaves, reads as zeros.
pub ramfs_write-contents :
    (kalloc : ℕ → Bool) (f : RamfsFile) (offset : ℕ) (src : List ℕ) (f' : RamfsFile) (after : ℕ)
    → IsValid f
    → offset + length src + grow_step ≤ 2 ^ 64
    → 0 < length src
    → ramfs_write kalloc f offset src ≡ ok (f', after)
    → IsValid f'
      × (after ≡ offset + length src)
      × (f'.size ≡ max f.size after)
      × ((i : ℕ)
          → contents f' i
            ≡ (if leb offset i && ltb i after then byte_at src (i - offset) else contents f i))
ramfs_write-contents kalloc f offset src f' after v b ne e =
    let (w, end) = written kalloc f offset src f' after v b ne e in
    (
      Written-IsValid f f' offset src v w,
      end,
      w.size_eq ∙ ap (max f.size) (sym end),
      λ i. ground (arith, Written-bytes f f' offset src i w, w.size_eq, end, v.zero_tail i),
    )
