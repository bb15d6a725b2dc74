-- ===== src/UserStack/Bytes.antt =====
-- Writing to the stack page by page is writing its bytes one after the other, wherever the pages are.
use neptune_os.Common.{
  length, get_or, take, drop, length-take, take-append-drop, length-drop, ◌==◌, if◌then◌else◌,
  ==→eq, ==→ne, Bool-cases, ge→leb, update, update_same, update_other, ℕ, zero, suc, ◌+◌, ◌-◌, ◌*◌,
  ◌/◌, ◌%◌, ◌^◌, ◌≤◌, ◌<◌, min, ◌≡◌, refl, sym, ap, ◌∙◌, ◌≢◌, ◌⊎◌, inl, inr, none, some, List, [],
  ◌∷◌, ◌++◌, arith,
}
use neptune_os.UserStack.{page_size, UserSpace, Bytes, copy_chunk, write_pages}

-- Where the byte at an offset of the stack is.
unfoldable pub place : UserSpace → ℕ → ℕ
place space o = get_or space.stack_phys (o / page_size) 0 + o % page_size

-- The pages of the stack do not overlap.
pub record Sound (space : UserSpace) : Type 0 where
  pub whole : space.stack_top ≡ space.stack_bottom + space.stack_pages * page_size
  pub low : space.stack_top < 2 ^ 63
  pub apart :
      (i j : ℕ)
      → i < space.stack_pages
      → j < space.stack_pages
      → i ≢ j
      → (get_or space.stack_phys i 0 + page_size ≤ get_or space.stack_phys j 0)
        ⊎ (get_or space.stack_phys j 0 + page_size ≤ get_or space.stack_phys i 0)

-- The bytes one after the other.
unfoldable pub put_bytes : UserSpace → List ℕ → ℕ → Bytes → Bytes
unfolding place
put_bytes space [] o mem = mem
put_bytes space (x ∷ xs) o mem = put_bytes space xs (o + 1) (update mem (place space o) x)

place-inj :
    {space : UserSpace}
    → Sound space
    → (o v : ℕ) → o < space.stack_pages * page_size
    → v < space.stack_pages * page_size
    → place space o ≡ place space v
    → o ≡ v
unfolding place
place-inj {space} sound o v ho hv e = elim (Bool-cases (o / page_size == v / page_size)) [
  | inl same ↦
      let pages = ==→eq (o / page_size) (v / page_size) same in
      let frames = ap (λ p. get_or space.stack_phys p 0) pages in omega (arith, e, pages, frames)
  | inr other ↦
      elim (sound.apart (o / page_size) (v / page_size) (omega arith) (omega arith)
        (==→ne (o / page_size) (v / page_size) other)) [
          | inl below ↦ absurd (omega (arith, e, below))
          | inr above ↦ absurd (omega (arith, e, above))
        ]
]

place_next :
    (space : UserSpace) (o : ℕ)
    → o % page_size + 1 < page_size
    → place space o + 1 ≡ place space (o + 1)
unfolding place
place_next space o h =
    let page : get_or space.stack_phys (o / page_size) 0
        ≡ get_or space.stack_phys ((o + 1) / page_size) 0 =
      ap (λ p. get_or space.stack_phys p 0) (omega (arith, h)) in
    omega (arith, page, h)

copy_chunk-bytes :
    (space : UserSpace) (xs : List ℕ) (o : ℕ) (mem : Bytes)
    → o % page_size + length xs ≤ page_size
    → copy_chunk xs (place space o) mem ≡ put_bytes space xs o mem
unfolding copy_chunk put_bytes
copy_chunk-bytes space [] o mem h = refl
copy_chunk-bytes space (x ∷ []) o mem h = refl
copy_chunk-bytes space (x ∷ y ∷ ys) o mem h =
    ap (λ d. copy_chunk (y ∷ ys) d (update mem (place space o) x))
      (place_next space o (omega arith))
    ∙ copy_chunk-bytes space (y ∷ ys) (o + 1) (update mem (place space o) x) (omega arith)

put_bytes-append :
    (space : UserSpace) (xs ys : List ℕ) (o : ℕ) (mem : Bytes)
    → put_bytes space (xs ++ ys) o mem
      ≡ put_bytes space ys (o + length xs) (put_bytes space xs o mem)
unfolding put_bytes
put_bytes-append space [] ys o mem = ap (λ p. put_bytes space ys p mem) (omega arith)
put_bytes-append space (x ∷ xs) ys o mem =
    put_bytes-append space xs ys (o + 1) (update mem (place space o) x)
    ∙ ap (λ p. put_bytes space ys p (put_bytes space xs (o + 1) (update mem (place space o) x)))
        (omega arith)

pub write_pages-bytes :
    (space : UserSpace) (fuel o : ℕ) (src : List ℕ) (mem : Bytes)
    → length src ≤ fuel
    → o + length src ≤ space.stack_pages * page_size
    → write_pages fuel space o src mem ≡ some (put_bytes space src o mem)
unfolding write_pages place put_bytes
write_pages-bytes space zero o [] mem h k = refl
write_pages-bytes space (suc fuel) o [] mem h k = refl
write_pages-bytes space zero o (x ∷ xs) mem h k = absurd (omega arith)
write_pages-bytes space (suc fuel) o (x ∷ xs) mem h k =
    let src = x ∷ xs in
    let c = min (page_size - o % page_size) (length src) in
    let taken : length (take c src) ≡ c = length-take c src ∙ omega arith in
    let left : length (drop c src) ≡ length src - c = length-drop c src in
    let written = put_bytes space (take c src) o mem in
    ap
      (λ b.
        if b
        then none
        else write_pages fuel space (o + c) (drop c src)
            (copy_chunk (take c src) (place space o) mem))
      (ge→leb space.stack_pages (o / page_size) (omega arith))
    ∙ ap (write_pages fuel space (o + c) (drop c src))
        (copy_chunk-bytes space (take c src) o mem (omega (arith, taken)))
    ∙ write_pages-bytes space fuel (o + c) (drop c src) written (omega (arith, left))
        (omega (arith, left))
    ∙ ap some (
        ap (λ n. put_bytes space (drop c src) (o + n) written) (sym taken)
        ∙ sym (put_bytes-append space (take c src) (drop c src) o mem)
        ∙ ap (λ l. put_bytes space l o mem) (take-append-drop c src))

module _ {space : UserSpace} (sound : Sound space) where
  pub put_bytes-outside :
      (src : List ℕ) (o : ℕ) (mem : Bytes) (v : ℕ)
      → o + length src ≤ space.stack_pages * page_size
      → v < space.stack_pages * page_size
      → (v < o) ⊎ (o + length src ≤ v)
      → put_bytes space src o mem (place space v) ≡ mem (place space v)
  unfolding put_bytes
  put_bytes-outside [] o mem v h k out = refl
  put_bytes-outside (x ∷ xs) o mem v h k out =
      let further : (v < o + 1) ⊎ (o + 1 + length xs ≤ v) = elim out [
        | inl a ↦ inl (omega arith)
        | inr b ↦ inr (omega arith)
      ] in
      let away : o ≢ v =
        λ e. elim out [ inl a ↦ absurd (omega arith) | inr b ↦ absurd (omega arith) ] in
      put_bytes-outside xs (o + 1) (update mem (place space o) x) v (omega arith) k further
      ∙ update_other mem (place space o) x (place space v)
          (λ e. away (place-inj sound o v (omega arith) k e))

  pub put_bytes-inside :
      (src : List ℕ) (o : ℕ) (mem : Bytes) (i : ℕ)
      → o + length src ≤ space.stack_pages * page_size
      → i < length src
      → put_bytes space src o mem (place space (o + i)) ≡ get_or src i 0
  unfolding put_bytes
  put_bytes-inside [] o mem i h k = absurd (omega arith)
  put_bytes-inside (x ∷ xs) o mem zero h k =
      put_bytes-outside xs (o + 1) (update mem (place space o) x) (o + zero) (omega arith)
        (omega arith) (inl (omega arith))
      ∙ ap (λ v. update mem (place space o) x (place space v)) (omega arith)
      ∙ update_same mem (place space o) x
  put_bytes-inside (x ∷ xs) o mem (suc i) h k =
      ap (λ v. put_bytes space xs (o + 1) (update mem (place space o) x) (place space v))
        (omega arith)
      ∙ put_bytes-inside xs (o + 1) (update mem (place space o) x) i (omega arith) (omega arith)
