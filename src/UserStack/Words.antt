-- ===== src/UserStack/Words.antt =====
-- Words and strings on the stack of a user program, as the program reads them.
use neptune_os.Common.{
  length, ℕ, zero, suc, ◌+◌, ◌*◌, ◌/◌, ◌%◌, ◌^◌, ◌≤◌, ◌<◌, ◌≡◌, refl, ap, ap₂, ◌∙◌, true, false,
  List, [], ◌∷◌, ◌++◌, arith,
}
use neptune_os.UserStack.{UserSpace, Bytes, le_bytes}
use Prim.Native.Nat.pow
use neptune_os.UserStack.Pushes.{byte_at, KeepsAbove, Stands}

-- The number of `n` bytes at an address, the lowest byte first.
unfoldable pub word_at : UserSpace → Bytes → ℕ → ℕ → ℕ
unfolding byte_at
word_at space mem zero at = 0
word_at space mem (suc n) at = byte_at space mem at + 256 * word_at space mem n (at + 1)

-- The 64-bit words `ws` stand from `at` on.
abbrev pub Words : UserSpace → Bytes → ℕ → List ℕ → Type 0
Words space mem at [] = true ≡ true
Words space mem at (w ∷ ws) = (word_at space mem 8 at ≡ w) × Words space mem (at + 8) ws

-- The addresses, all from `low` on, are those of the strings, each with its zero.
abbrev pub Points : UserSpace → Bytes → ℕ → List ℕ → List (List ℕ) → Type 0
Points space mem low [] [] = true ≡ true
Points space mem low [] (s ∷ ss) = true ≡ false
Points space mem low (a ∷ ptrs) [] = true ≡ false
Points space mem low (a ∷ ptrs) (s ∷ ss) =
    ((low ≤ a) × (a + length (s ++ 0 ∷ []) ≤ space.stack_top) × Stands space mem a (s ++ 0 ∷ []))
    × Points space mem low ptrs ss

abbrev pub IsShort : List ℕ → Type 0
IsShort s = length (s ++ 0 ∷ []) < 2 ^ 63

div256 : (n x : ℕ) → x < 256 ^ suc n → x / 256 < 256 ^ n
div256 n x h = let power : 256 ^ suc n ≡ 256 ^ n * 256 = pow.suc 256 n in omega (arith, h, power)

pub word_at-le_bytes :
    (space : UserSpace) (mem : Bytes) (n x at : ℕ)
    → x < 256 ^ n
    → Stands space mem at (le_bytes n x)
    → word_at space mem n at ≡ x
unfolding word_at le_bytes
word_at-le_bytes space mem zero x at h stands = omega (arith, h)
word_at-le_bytes space mem (suc n) x at h stands =
    let rest : word_at space mem n (at + 1) ≡ x / 256 =
      word_at-le_bytes space mem n (x / 256) (at + 1) (div256 n x h)
        (λ i k. ap (byte_at space mem) (omega arith) ∙ stands (suc i) (omega arith)) in
    let first : byte_at space mem at ≡ x % 256 =
      ap (byte_at space mem) (omega arith) ∙ stands 0 (omega arith) in
    omega (arith, first, rest)

word_at-same :
    (space : UserSpace) (mem mem' : Bytes) (n at sp : ℕ)
    → KeepsAbove space sp mem mem'
    → sp ≤ at
    → at + n ≤ space.stack_top
    → word_at space mem' n at ≡ word_at space mem n at
unfolding word_at
word_at-same space mem mem' zero at sp keeps low high = refl
word_at-same space mem mem' (suc n) at sp keeps low high =
    ap₂ (λ b w. b + 256 * w) (keeps at low (omega arith))
      (word_at-same space mem mem' n (at + 1) sp keeps (omega arith) (omega arith))

pub Words-same :
    (space : UserSpace) (mem mem' : Bytes) (ws : List ℕ) (at sp : ℕ)
    → KeepsAbove space sp mem mem'
    → sp ≤ at
    → at + 8 * length ws ≤ space.stack_top
    → Words space mem at ws
    → Words space mem' at ws
Words-same space mem mem' [] at sp keeps low high h = refl
Words-same space mem mem' (w ∷ ws) at sp keeps low high h = (
  word_at-same space mem mem' 8 at sp keeps low (omega arith) ∙ h.0,
  Words-same space mem mem' ws (at + 8) sp keeps (omega arith) (omega arith) h.1,
)

pub Points-same :
    (space : UserSpace) (mem mem' : Bytes) (ptrs : List ℕ) (ss : List (List ℕ)) (low sp : ℕ)
    → KeepsAbove space sp mem mem'
    → sp ≤ low
    → Points space mem low ptrs ss
    → Points space mem' sp ptrs ss
Points-same space mem mem' [] [] low sp keeps h p = refl
Points-same space mem mem' [] (s ∷ ss) low sp keeps h p = p
Points-same space mem mem' (a ∷ ptrs) [] low sp keeps h p = p
Points-same space mem mem' (a ∷ ptrs) (s ∷ ss) low sp keeps h p = (
  (
    omega (arith, p.0.0),
    p.0.1,
    λ i k. keeps (a + i) (omega (arith, p.0.0)) (omega (arith, p.0.1)) ∙ p.0.2 i k,
  ),
  Points-same space mem mem' ptrs ss low sp keeps h p.1,
)
