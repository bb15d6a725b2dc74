-- ===== src/Printf/Digits.antt =====
-- The digits that `put_uint_printed` of kernel/printf.c puts out stand for the number, and fit in the buffer.
use neptune_os.Common.{
  length, ltb, ◌==◌, if◌then◌else◌, ==→eq, if_intro, u64, ℕ, zero, suc, ◌+◌, ◌-◌, ◌*◌, ◌/◌, ◌%◌,
  ◌^◌, ◌≤◌, ◌<◌, ◌≡◌, refl, sym, ap₂, subst, ◌∙◌, ◌⊎◌, inl, inr, Bool, List, [], ◌∷◌, ◌++◌, arith,
}
use Prim.Native.Nat.pow
use neptune_os.Printf.{digit, format_loop, format_uint, put_back, put_uint_printed}

-- The number that a digit stands for, in upper or lower case.
unfoldable pub digit_value : ℕ → ℕ
digit_value c = if ltb c 58 then c - 48 else (if ltb c 71 then c - 55 else c - 87)

-- A text read from its first digit on.
unfoldable pub read_digits : ℕ → ℕ → List ℕ → ℕ
unfolding digit_value
read_digits base acc [] = acc
read_digits base acc (c ∷ cs) = read_digits base (acc * base + digit_value c) cs

abbrev pub IsBase : ℕ → Type 0
IsBase base = (base ≡ 10) ⊎ (base ≡ 16)

digit_value-digit : (uppercase : Bool) (d : ℕ) → d < 16 → digit_value (digit uppercase d) ≡ d
unfolding digit digit_value
digit_value-digit uppercase d h = ground arith

read_digits-append :
    (base acc : ℕ) (xs ys : List ℕ)
    → read_digits base acc (xs ++ ys) ≡ read_digits base (read_digits base acc xs) ys
unfolding read_digits
read_digits-append base acc [] ys = refl
read_digits-append base acc (x ∷ xs) ys = read_digits-append base (acc * base + digit_value x) xs ys

split_base : (base v : ℕ) → IsBase base → (v / base * base + v % base ≡ v) × (v % base < 16)
split_base base v (inl ten) =
    subst (λ b. (v / b * b + v % b ≡ v) × (v % b < 16)) (sym ten) (omega arith, omega arith)
split_base base v (inr sixteen) =
    subst (λ b. (v / b * b + v % b ≡ v) × (v % b < 16)) (sym sixteen) (omega arith, omega arith)

halves : (base v n : ℕ) → IsBase base → v < n * 2 → v / base < n
halves base v n (inl ten) h = subst (λ b. v / b < n) (sym ten) (omega (arith, h))
halves base v n (inr sixteen) h = subst (λ b. v / b < n) (sym sixteen) (omega (arith, h))

format_loop-value :
    (uppercase : Bool) (base room v : ℕ)
    → IsBase base
    → v < 2 ^ room
    → read_digits base 0 (put_back (format_loop uppercase base room v)) ≡ v
unfolding format_loop put_back read_digits
format_loop-value uppercase base zero v is h = omega (arith, h)
format_loop-value uppercase base (suc room) v is h =
    let rest = format_loop uppercase base room (v / base) in
    let d = digit uppercase (v % base) in
    let split = split_base base v is in
    let power : 2 ^ suc room ≡ 2 ^ room * 2 = pow.suc 2 room in
    let below : v / base < 2 ^ room = halves base v (2 ^ room) is (omega (arith, h, power)) in
    if_intro (λ (l : List ℕ). read_digits base 0 (put_back l) ≡ v) (v == 0)
      (λ none_left. sym (==→eq v 0 none_left))
      (λ some_left.
        read_digits-append base 0 (put_back rest) (d ∷ [])
        ∙ ap₂ (λ a b. a * base + b) (format_loop-value uppercase base room (v / base) is below)
            (digit_value-digit uppercase (v % base) split.1)
        ∙ split.0)

format_loop-room :
    (uppercase : Bool) (base room v : ℕ) → length (format_loop uppercase base room v) ≤ room
unfolding format_loop
format_loop-room uppercase base zero v = omega arith
format_loop-room uppercase base (suc room) v =
    if_intro (λ (l : List ℕ). length l ≤ suc room) (v == 0) (λ e. omega arith)
      (λ e. omega (arith, format_loop-room uppercase base room (v / base)))

-- In base 10 or 16 and with the buffer of 64 bytes, the digits of a 64-bit number, read from the first one
-- on, are the number again, and they fit in the buffer.
pub put_uint_printed-value :
    (value base : ℕ) (uppercase : Bool)
    → IsBase base
    → value < u64
    → (read_digits base 0 (put_uint_printed value base uppercase 64) ≡ value)
      × (length (format_uint value base uppercase 64) ≤ 64)
unfolding put_uint_printed format_uint put_back read_digits
put_uint_printed-value value base uppercase is h =
    if_intro (λ (l : List ℕ). (read_digits base 0 (put_back l) ≡ value) × (length l ≤ 64))
      (value == 0) (λ e. (omega (arith, ==→eq value 0 e), omega arith))
      (λ e.
        (format_loop-value uppercase base 64 value is h, format_loop-room uppercase base 64 value))
