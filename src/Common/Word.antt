-- ===== src/Common/Word.antt =====
-- C's unsigned words, byte memory, and single bits of a byte.
use Prim.Native.Nat.{ℕ, zero, suc, ◌+◌, ◌-◌, ◌*◌, ◌/◌, ◌%◌, ◌^◌, ◌<◌, bit_and, bit_or, bit_xor}
use mathlib.Core.Path.{◌≡◌, refl, ap}
use mathlib.Core.Logic.{◌≢◌}
use mathlib.Core.Bool.{Bool, true, false, not, ◌&&◌, ◌||◌}
use native.Mathlib.Omega.{arith}
use neptune_os.Common.Tests.{◌==◌, ltb, if◌then◌else◌, ltb→lt, ==_refl, ne→==}

abbrev pub u64 : ℕ
u64 = 2 ^ 64

abbrev pub u32 : ℕ
u32 = 2 ^ 32

-- `uint64_t` addition and subtraction.
abbrev pub add64 : ℕ → ℕ → ℕ
add64 a b = (a + b) % u64

abbrev pub sub64 : ℕ → ℕ → ℕ
sub64 a b = (a + u64 - b) % u64

abbrev pub mul64 : ℕ → ℕ → ℕ
mul64 a b = (a * b) % u64

abbrev pub add32 : ℕ → ℕ → ℕ
add32 a b = (a + b) % u32

abbrev pub sub32 : ℕ → ℕ → ℕ
sub32 a b = (a + u32 - b) % u32

-- A store at one address of a memory.
abbrev pub update {ℓ} : {A : Type ℓ} → (ℕ → A) → ℕ → A → ℕ → A
update m a v b = if a == b then v else m b

pub update_same {ℓ} : {A : Type ℓ} (m : ℕ → A) (a : ℕ) (v : A) → update m a v a ≡ v
update_same m a v = ap (λ b. if b then v else m a) (==_refl a)

pub update_other {ℓ} :
    {A : Type ℓ} (m : ℕ → A) (a : ℕ) (v : A) (b : ℕ) → a ≢ b → update m a v b ≡ m b
update_other m a v b h = ap (λ t. if t then v else m b) (ne→== a b h)

-- Memory whose cells are bytes.
abbrev pub IsBytes : (ℕ → ℕ) → Type 0
IsBytes m = (a : ℕ) → m a < 256

-- `b |= (uint8_t)(1u << k)`, `b &= (uint8_t)~(1u << k)` and `(b >> k) & 1u`, at `k` below 8.
unfoldable pub byte_set : ℕ → ℕ → ℕ
byte_set b k = bit_or b (2 ^ k) % 256

unfoldable pub byte_clear : ℕ → ℕ → ℕ
byte_clear b k = bit_and b (bit_xor 0xFF (2 ^ k))

unfoldable pub byte_test : ℕ → ℕ → Bool
byte_test b k = bit_and (b / 2 ^ k) 1 == 1

-- A test of the numbers below a bound, from the smallest on.
every : (ℕ → Bool) → ℕ → Bool
every test zero = true
every test (suc bound) = every test bound && test bound

every-lt :
    (test : ℕ → Bool) {i : ℕ} (bound : ℕ) → i < bound → every test bound ≡ true → test i ≡ true
unfolding every
every-lt test zero small passed = absurd (omega arith)
every-lt test {i} (suc bound) small passed = ground (arith, every-lt test {i = i} bound)

abbrev beq : Bool → Bool → Bool
beq true b = b
beq false b = not b

beq→eq : (a b : Bool) → beq a b ≡ true → a ≡ b
beq→eq true b h = ground arith
beq→eq false b h = ground arith

abbrev byte_laws : ℕ → ℕ → ℕ → Bool
byte_laws b k j =
    beq (byte_test (byte_set b k) j) ((k == j) || byte_test b j)
    && beq (byte_test (byte_clear b k) j) (not (k == j) && byte_test b j)
    && ltb (byte_clear b k) 256

byte_table : every (λ b. every (λ k. every (byte_laws b k) 8) 8) 256 ≡ true
unfolding every byte_set byte_clear byte_test
byte_table = refl

byte_at : (b k j : ℕ) → b < 256 → k < 8 → j < 8 → byte_laws b k j ≡ true
byte_at b k j hb hk hj =
    let row = every-lt (λ c. every (λ i. every (byte_laws c i) 8) 8) 256 hb byte_table in
    every-lt (byte_laws b k) 8 hj (every-lt (λ i. every (byte_laws b i) 8) 8 hk row)

and_parts : (a b c : Bool) → (a && b && c) ≡ true → (a ≡ true) × (b ≡ true) × (c ≡ true)
and_parts a b c h = ground arith

module _ (b k j : ℕ) (hb : b < 256) (hk : k < 8) (hj : j < 8) where
  pub byte_test-set : byte_test (byte_set b k) j ≡ ((k == j) || byte_test b j)
  byte_test-set = beq→eq _ _ (and_parts _ _ _ (byte_at b k j hb hk hj)).0

  pub byte_test-clear : byte_test (byte_clear b k) j ≡ (not (k == j) && byte_test b j)
  byte_test-clear = beq→eq _ _ (and_parts _ _ _ (byte_at b k j hb hk hj)).1

pub byte_set-lt : (b k : ℕ) → byte_set b k < 256
unfolding byte_set
byte_set-lt b k = omega arith

pub byte_clear-lt : (b k : ℕ) → b < 256 → k < 8 → byte_clear b k < 256
byte_clear-lt b k hb hk =
    ltb→lt _ _
      (and_parts (beq (byte_test (byte_set b k) 0) ((k == 0) || byte_test b 0))
        (beq (byte_test (byte_clear b k) 0) (not (k == 0) && byte_test b 0)) _
        (byte_at b k 0 hb hk (omega arith))).2
