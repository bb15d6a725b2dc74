-- ===== src/Irq/Queue.antt =====
-- A ring of kernel/irq.c as a queue of at most `size - 1` bytes.
use neptune_os.Common.{
  length, ltb, leb, ◌==◌, if◌then◌else◌, ==→eq, ==→ne, ne→==, Bool-cases, add32, update, ℕ, zero,
  suc, ◌+◌, ◌-◌, ◌%◌, ◌^◌, ◌≤◌, ◌<◌, ◌≡◌, refl, sym, ap, ◌∙◌, ◌⊎◌, inl, inr, true, false, none,
  some, List, [], ◌∷◌, ◌++◌, arith, mod-eq_of_lt,
}
use native.Mathlib.Nat.{mod_self}
use neptune_os.Irq.{Ring, next_index, has_room, stored, pop}

-- The next index, for an index in a ring of at most 2^31 entries.
abbrev wrap : ℕ → ℕ → ℕ
wrap size i = if i + 1 == size then 0 else i + 1

next_index-wrap : (size i : ℕ) → size ≤ 2 ^ 31 → i < size → next_index size i ≡ wrap size i
next_index-wrap size i small h =
    let e : add32 i 1 ≡ i + 1 = mod-eq_of_lt (omega arith) in
    ap (λ n. n % size) e ∙ elim (Bool-cases (i + 1 == size)) [
      | inl last ↦ rw last (ap (λ n. n % size) (==→eq (i + 1) size last) ∙ mod_self size)
      | inr inside ↦ rw inside (mod-eq_of_lt (omega (arith, ==→ne (i + 1) size inside)))
    ]

-- The number of bytes between the tail and the head.
unfoldable pub used : ℕ → Ring → ℕ
used size r = if leb r.tail r.head then r.head - r.tail else r.head + size - r.tail

unfoldable pub window : ℕ → (ℕ → ℕ) → ℕ → ℕ → List ℕ
window size buf i zero = []
window size buf i (suc n) = buf i ∷ window size buf (wrap size i) n

-- The bytes in the ring, the oldest first.
unfoldable pub contents : ℕ → Ring → List ℕ
contents size r = window size r.buf r.tail (used size r)

pub record IsValid (size : ℕ) (r : Ring) : Type 0 where
  pub small : size ≤ 2 ^ 31
  pub head_in : r.head < size
  pub tail_in : r.tail < size

length-window : (size : ℕ) (buf : ℕ → ℕ) (i n : ℕ) → length (window size buf i n) ≡ n
unfolding window
length-window size buf i zero = refl
length-window size buf i (suc n) = ap suc (length-window size buf (wrap size i) n)

pub length-contents : (size : ℕ) (r : Ring) → length (contents size r) ≡ used size r
unfolding contents
length-contents size r = length-window size r.buf r.tail (used size r)

-- The index `n` places behind `i`.
abbrev behind : ℕ → ℕ → ℕ → ℕ
behind size i n = if ltb (i + n) size then i + n else i + n - size

window-snoc :
    (size : ℕ) (buf : ℕ → ℕ) (x n i at : ℕ)
    → i < size
    → n < size
    → at ≡ behind size i n
    → window size (update buf at x) i (suc n) ≡ window size buf i n ++ x ∷ []
unfolding window
window-snoc size buf x zero i at h hn e = ground arith
window-snoc size buf x (suc n) i at h hn e =
    let ih =
      window-snoc size buf x n (wrap size i) at (ground arith) (omega arith) (ground arith) in
    let other : (at == i) ≡ false = ne→== at i (λ q. absurd (ground arith)) in
    rw other (ap (λ l. buf i ∷ l) ih)

module _ {size : ℕ} {r : Ring} (v : IsValid size r) where
  pub stored-IsValid : (x : ℕ) → IsValid size (stored size x r)
  unfolding stored
  stored-IsValid x =
      let e = next_index-wrap size r.head v.small v.head_in in
      record { small = v.small; head_in = ground (arith, e, v.head_in); tail_in = v.tail_in }

  pub has_room-contents : has_room size r ≡ ltb (length (contents size r) + 1) size
  unfolding has_room used
  has_room-contents =
      let e = next_index-wrap size r.head v.small v.head_in in
      rw (e, length-contents size r) (ground (arith, v.head_in, v.tail_in))

  pub contents-stored :
      (x : ℕ) → has_room size r ≡ true → contents size (stored size x r) ≡ contents size r ++ x ∷ []
  unfolding contents stored has_room used
  contents-stored x room =
      let e = next_index-wrap size r.head v.small v.head_in in
      let more : used size (stored size x r) ≡ suc (used size r) =
        ground (arith, e, v.head_in, v.tail_in) in
      ap (window size (update r.buf r.head x) r.tail) more
      ∙ window-snoc size r.buf x (used size r) r.tail r.head v.tail_in
          (ground (arith, v.head_in, v.tail_in)) (ground (arith, v.head_in, v.tail_in))

  -- A pop takes the oldest byte, and fails only on an empty ring.
  pub pop-contents :
      ((pop size r ≡ none) × (contents size r ≡ []))
      ⊎ ((x : ℕ) × (r' : Ring) × (pop size r ≡ some (x, r'))
          × IsValid size r'
          × (contents size r ≡ x ∷ contents size r'))
  unfolding pop contents window used
  pop-contents = elim (Bool-cases (r.tail == r.head)) [
    | inl empty ↦
        let none_left : used size r ≡ 0 = ground (arith, ==→eq r.tail r.head empty) in
        inl (rw empty, ap (window size r.buf r.tail) none_left)
    | inr filled ↦
        let e = next_index-wrap size r.tail v.small v.tail_in in
        let r' : Ring = record r { tail = next_index size r.tail } in
        let fewer : used size r ≡ suc (used size r') =
          ground (arith, e, v.head_in, v.tail_in, ==→ne r.tail r.head filled) in
        inr (
          r.buf r.tail,
          r',
          rw filled refl,
          record { small = v.small; head_in = v.head_in; tail_in = ground (arith, e, v.tail_in) },
          ap (window size r.buf r.tail) fewer
              ∙ ap (λ i. r.buf r.tail ∷ window size r.buf i (used size r')) (sym e),
        )
  ]
