-- ===== src/Pipe/Fifo.antt =====
-- The pipe of kernel/pipe.c as the queue of the bytes that it holds.
use neptune_os.Common.{
  length, take, ◌==◌, ==→eq, ==→ne, ne→==, Bool-cases, update, ℕ, zero, suc, ◌+◌, ◌-◌, ◌%◌, ◌≤◌,
  ◌<◌, min, ◌≡◌, refl, sym, ap, ◌∙◌, ◌≢◌, ◌⊎◌, inl, inr, false, List, [], ◌∷◌, ◌++◌, append-nil,
  append_assoc, arith,
}
use neptune_os.Pipe.{
  finish, pipe_size, Pipe, take_byte, put_byte, read_loop, write_loop, got, waits, read_section,
  WriteOutcome, wrote, broken, pending, full_check, write_section,
}

-- The `n` bytes from index `h` on, going round at the end of the buffer.
unfoldable pub window : (ℕ → ℕ) → ℕ → ℕ → List ℕ
window buf h zero = []
window buf h (suc n) = buf h ∷ window buf ((h + 1) % pipe_size) n

unfoldable pub contents : Pipe → List ℕ
contents p = window p.buffer p.read_pos p.used

pub record IsValid (p : Pipe) : Type 0 where
  pub read_in : p.read_pos < pipe_size
  pub used_in : p.used ≤ pipe_size
  pub write_at : p.write_pos ≡ (p.read_pos + p.used) % pipe_size

pub length-window : (buf : ℕ → ℕ) (h n : ℕ) → length (window buf h n) ≡ n
unfolding window
length-window buf h zero = refl
length-window buf h (suc n) = ap suc (length-window buf ((h + 1) % pipe_size) n)

window-snoc :
    (buf : ℕ → ℕ) (x n h i : ℕ)
    → h < pipe_size
    → n < pipe_size
    → i ≡ (h + n) % pipe_size
    → window (update buf i x) h (suc n) ≡ window buf h n ++ x ∷ []
unfolding window
window-snoc buf x zero h i hh hn e = ground arith
window-snoc buf x (suc n) h i hh hn e =
    let ih =
      window-snoc buf x n ((h + 1) % pipe_size) i (omega arith) (omega arith) (omega arith) in
    let other : (i == h) ≡ false = ne→== i h (omega arith) in rw other (ap (λ l. buf h ∷ l) ih)

module _ {p : Pipe} (v : IsValid p) where
  pub take_byte-IsValid : p.used ≢ 0 → IsValid (take_byte p)
  unfolding take_byte
  take_byte-IsValid ne = omega arith

  pub put_byte-IsValid : (x : ℕ) → p.used ≢ pipe_size → IsValid (put_byte p x)
  unfolding put_byte
  put_byte-IsValid x ne = omega arith

  pub contents-put_byte :
      (x : ℕ) → p.used ≢ pipe_size → contents (put_byte p x) ≡ contents p ++ x ∷ []
  unfolding contents put_byte
  contents-put_byte x ne =
      ap (window (update p.buffer p.write_pos x) p.read_pos) (omega arith)
      ∙ window-snoc p.buffer x p.used p.read_pos p.write_pos v.read_in (omega arith) v.write_at

pub contents-take_byte :
    (p : Pipe) → p.used ≢ 0 → contents p ≡ p.buffer p.read_pos ∷ contents (take_byte p)
unfolding contents take_byte window
contents-take_byte p ne =
    let one : p.used ≡ suc (p.used - 1) = omega arith in ap (window p.buffer p.read_pos) one

-- What the copy loop of a read has taken out stood at the front of the queue.
pub read_loop-contents :
    (n : ℕ) {p : Pipe}
    → IsValid p
    → IsValid (read_loop p n).1
      × (contents p ≡ (read_loop p n).0 ++ contents (read_loop p n).1)
      × (length (read_loop p n).0 ≡ min n p.used)
unfolding read_loop take_byte
read_loop-contents zero v = (v, refl, omega arith)
read_loop-contents (suc n) {p} v = elim (Bool-cases (p.used == 0)) [
  | inl e ↦ rw e (v, refl, ground arith)
  | inr ne ↦
      let ih = read_loop-contents n (take_byte-IsValid v (==→ne _ _ ne)) in
      rw ne (
        ih.0,
        contents-take_byte p (==→ne _ _ ne) ∙ ap (λ l. p.buffer p.read_pos ∷ l) ih.1,
        omega (arith, ih.2, ==→ne _ _ ne),
      )
]

-- How many of the bytes `src` a copy loop took, given those that it left.
abbrev pub sent : List ℕ → List ℕ → List ℕ
sent src left = take (length src - length left) src

pub write_loop-sent :
    (src : List ℕ) (p : Pipe)
    → (length (write_loop p src).0 ≤ length src)
      × (sent src (write_loop p src).0 ++ (write_loop p src).0 ≡ src)
unfolding write_loop
write_loop-sent [] p = (omega arith, refl)
write_loop-sent (x ∷ src) p = elim (Bool-cases (p.used == pipe_size)) [
  | inl e ↦
      let none_taken : suc (length src) - suc (length src) ≡ 0 = omega arith in
      rw e (omega arith, ap (λ k. take k (x ∷ src) ++ x ∷ src) none_taken)
  | inr ne ↦
      let ih = write_loop-sent src (put_byte p x) in
      let left = (write_loop (put_byte p x) src).0 in
      let more : suc (length src) - length left ≡ suc (length src - length left) =
        omega (arith, ih.0) in
      rw ne (omega (arith, ih.0), ap (λ k. take k (x ∷ src) ++ left) more ∙ ap (λ l. x ∷ l) ih.1)
]

-- What the copy loop of a write has taken stands at the end of the queue.
pub write_loop-contents :
    (src : List ℕ) {p : Pipe}
    → IsValid p
    → IsValid (write_loop p src).1
      × (contents (write_loop p src).1 ≡ contents p ++ sent src (write_loop p src).0)
      × (((write_loop p src).0 ≡ []) ⊎ ((write_loop p src).1.used ≡ pipe_size))
unfolding write_loop
write_loop-contents [] v = (v, sym (append-nil _), inl refl)
write_loop-contents (x ∷ src) {p} v = elim (Bool-cases (p.used == pipe_size)) [
  | inl e ↦
      let none_taken : suc (length src) - suc (length src) ≡ 0 = omega arith in
      rw e (
        v,
        sym (append-nil (contents p)) ∙ ap (λ k. contents p ++ take k (x ∷ src)) (sym none_taken),
        inr (==→eq _ _ e),
      )
  | inr ne ↦
      let n = ==→ne _ _ ne in
      let ih = write_loop-contents src (put_byte-IsValid v x n) in
      let left = (write_loop (put_byte p x) src).0 in
      let more : suc (length src) - length left ≡ suc (length src - length left) =
        omega (arith, (write_loop-sent src (put_byte p x)).0) in
      rw ne (
        ih.0,
        ih.1
            ∙ ap (λ l. l ++ sent src left) (contents-put_byte v x n)
            ∙ append_assoc (contents p) (x ∷ []) (sent src left)
            ∙ ap (λ k. contents p ++ take k (x ∷ src)) (sym more),
        ih.2,
      )
]

-- How a section ends, given that it stopped with nothing left or at a full pipe.
pub finish_lem :
    (left : List ℕ) (q : Pipe)
    → (left ≡ []) ⊎ (q.used ≡ pipe_size)
    → ((finish left q).1 ≡ q)
      × (((left ≡ []) × ((finish left q).0 ≡ wrote))
          ⊎ ((left ≢ [])
              × (q.used ≡ pipe_size)
              × (((q.readers ≡ 0) × ((finish left q).0 ≡ broken))
                  ⊎ ((q.readers ≢ 0) × ((finish left q).0 ≡ pending left)))))
unfolding finish full_check
finish_lem [] q h = (refl, inl (refl, refl))
finish_lem (x ∷ left) q h = elim (Bool-cases (q.readers == 0)) [
  | inl e ↦ rw e (refl, inr (ground arith, ground arith, inl (ground arith, refl)))
  | inr ne ↦ rw ne (refl, inr (ground arith, ground arith, inr (ground arith, refl)))
]

-- One section of a read. On a valid pipe it waits exactly when the pipe is empty and still has a
-- writer, and changes nothing then. Otherwise it hands out the bytes at the front of the queue, as many
-- as were asked for or are there, and leaves the rest.
pub read_section-contents :
    (len : ℕ) {p : Pipe}
    → IsValid p
    → let (out, p') = read_section len p in
      IsValid p'
      × (((out ≡ waits) × (p.used ≡ 0) × (p.writers ≢ 0) × (p' ≡ p))
          ⊎ ((bytes : List ℕ) × (out ≡ got bytes)
              × (contents p ≡ bytes ++ contents p')
              × (length bytes ≡ min len p.used)
              × ((p.used ≡ 0) → p.writers ≡ 0)))
unfolding read_section
read_section-contents len {p} v = elim (Bool-cases (p.used == 0)) [
  | inl e ↦ elim (Bool-cases (p.writers == 0)) [
    | inl none_left ↦
        rw (e, none_left) (v, inr ([], refl, refl, ground arith, λ z. ==→eq _ _ none_left))
    | inr open_still ↦ rw (e, open_still) (v, inl (refl, ==→eq _ _ e, ==→ne _ _ open_still, refl))
  ]
  | inr ne ↦
      let l = read_loop-contents len v in
      rw ne (l.0, inr ((read_loop p len).0, refl, l.1, l.2, λ z. absurd (==→ne _ _ ne z)))
]

-- The part of a write that runs under one hold of the lock. On a valid pipe the bytes that it takes
-- join the end of the queue in order. It takes all of them and reports success, or it stops at a full
-- pipe with bytes left, to report a broken pipe when there is no reader and to wait when there is one.
pub write_section-contents :
    (src : List ℕ) {p : Pipe}
    → IsValid p
    → (left : List ℕ) × (q : Pipe) × (out : WriteOutcome) × (write_section src p ≡ (out, q))
      × IsValid q
      × (contents q ≡ contents p ++ sent src left)
      × (sent src left ++ left ≡ src)
      × (((left ≡ []) × (out ≡ wrote))
          ⊎ ((left ≢ [])
              × (q.used ≡ pipe_size)
              × (((q.readers ≡ 0) × (out ≡ broken)) ⊎ ((q.readers ≢ 0) × (out ≡ pending left)))))
unfolding write_section
write_section-contents src {p} v =
    let c = write_loop-contents src v in
    let left = (write_loop p src).0 in
    let q = (write_loop p src).1 in
    let f = finish_lem left q c.2 in
    (
      left,
      q,
      (finish left q).0,
      ap (λ t. ((finish left q).0, t)) f.0,
      c.0,
      c.1,
      (write_loop-sent src p).1,
      f.1,
    )
