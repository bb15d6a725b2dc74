-- ===== src/UserStack/Vector.antt =====
-- The words at the top of the stack: the count, the pointers to the arguments, and those to the environment.
use neptune_os.Common.{
  length, All, ℕ, zero, suc, ◌+◌, ◌*◌, ◌/◌, ◌^◌, ◌≤◌, ◌<◌, ◌≡◌, refl, sym, ap, subst, ◌∙◌, Option,
  none, some, List, [], ◌∷◌, ◌++◌, arith,
}
use neptune_os.UserStack.{UserSpace, Bytes, le_bytes, push_u64, push_down, push_vectors}
use neptune_os.UserStack.Bytes.{Sound}
use neptune_os.UserStack.Pushes.{KeepsAbove, push_bytes-Pushed, parts}
use neptune_os.UserStack.Words.{Words, word_at-le_bytes, Words-same}

-- What a step gives, where it and the steps behind it succeed.
pub step_some :
    {A B : Type 0} (o : Option A) (f : A → Option B) {y : B}
    → (elim o [ none ↦ none | some a ↦ f a ]) ≡ some y
    → (a : A) × (o ≡ some a) × (f a ≡ some y)
step_some none f e = absurd (cc)
step_some (some a) f e = (a, refl, e)

length-le_bytes : (n x : ℕ) → length (le_bytes n x) ≡ n
unfolding le_bytes
length-le_bytes zero x = refl
length-le_bytes (suc n) x = ap suc (length-le_bytes n (x / 256))

length8 : (x : ℕ) → length (le_bytes 8 x) < 2 ^ 63
length8 x = omega (arith, length-le_bytes 8 x)

-- The words of the vector from `sp` up to `base`, and what stands from `base` on.
pub record Vector (space : UserSpace) (base : ℕ) (mem0 : Bytes) (sp : ℕ) (mem : Bytes) (ws : List ℕ)
    : Type 0 where
  pub words : Words space mem sp ws
  pub fits : sp + 8 * length ws ≡ base
  pub keeps : KeepsAbove space base mem0 mem
  pub room : space.stack_bottom ≤ sp

module _ {space : UserSpace} (sound : Sound space) where
  push_u64-Vector :
      (base : ℕ) (mem0 : Bytes) (sp : ℕ) (mem : Bytes) (ws : List ℕ) (value sp' : ℕ) (mem' : Bytes)
      → base ≤ space.stack_top
      → value < 2 ^ 64
      → Vector space base mem0 sp mem ws
      → push_u64 space sp value mem ≡ some (sp', mem')
      → Vector space base mem0 sp' mem' (value ∷ ws)
  unfolding push_u64
  push_u64-Vector base mem0 sp mem ws value sp' mem' under small v e =
      let p =
        push_bytes-Pushed sound sp (le_bytes 8 value) mem sp' mem' (omega (arith, v.fits))
          (length8 value) e in
      let size : sp' + 8 ≡ sp = ap (λ n. sp' + n) (sym (length-le_bytes 8 value)) ∙ p.size in
      record {
        words = (
          word_at-le_bytes space mem' 8 value sp' small p.stands,
          subst (λ at. Words space mem' at ws) (sym size)
              (Words-same space mem mem' ws sp sp p.keeps (omega arith) (omega (arith, v.fits))
                v.words),
        );
        fits = omega (arith, size, v.fits);
        keeps = λ a above below. p.keeps a (omega (arith, v.fits)) below ∙ v.keeps a above below;
        room = p.room;
      }

  push_down-Vector :
      (base : ℕ) (mem0 : Bytes) (sp : ℕ) (mem : Bytes) (ws ptrs : List ℕ) (sp' : ℕ) (mem' : Bytes)
      → base ≤ space.stack_top
      → All (λ a. a < 2 ^ 64) ptrs
      → Vector space base mem0 sp mem ws
      → push_down space sp ptrs mem ≡ some (sp', mem')
      → Vector space base mem0 sp' mem' (ptrs ++ ws)
  unfolding push_down
  push_down-Vector base mem0 sp mem ws [] sp' mem' under small v e =
      let (es, em) = parts e in
      subst (λ m. Vector space base mem0 sp' m ws) em
        (subst (λ x. Vector space base mem0 x mem ws) es v)
  push_down-Vector base mem0 sp mem ws (a ∷ ptrs) sp' mem' under small v e =
      let (r, e1, e2) = step_some (push_down space sp ptrs mem) (λ r. push_u64 space r.0 a r.1) e in
      push_u64-Vector base mem0 r.0 r.1 (ptrs ++ ws) a sp' mem' under small.0
        (push_down-Vector base mem0 sp mem ws ptrs r.0 r.1 under small.1 v e1) e2

  pub push_vectors-Vector :
      (sp : ℕ) (args envs : List ℕ) (mem : Bytes) (sp' : ℕ) (mem' : Bytes)
      → sp ≤ space.stack_top
      → space.stack_bottom ≤ sp
      → All (λ a. a < 2 ^ 64) args
      → All (λ a. a < 2 ^ 64) envs
      → length args < 2 ^ 64
      → push_vectors space sp args envs mem ≡ some (sp', mem')
      → Vector space sp mem sp' mem' (length args ∷ (args ++ (0 ∷ (envs ++ (0 ∷ [])))))
  unfolding push_vectors
  push_vectors-Vector sp args envs mem sp' mem' under room small_args small_envs few e =
      let f4 : ℕ × Bytes → Option (ℕ × Bytes) = λ r. push_u64 space r.0 (length args) r.1 in
      let f3 : ℕ × Bytes → Option (ℕ × Bytes) =
        λ r. elim (push_down space r.0 args r.1) [ none ↦ none | some q ↦ f4 q ] in
      let f2 : ℕ × Bytes → Option (ℕ × Bytes) =
        λ r. elim (push_u64 space r.0 0 r.1) [ none ↦ none | some q ↦ f3 q ] in
      let f1 : ℕ × Bytes → Option (ℕ × Bytes) =
        λ r. elim (push_down space r.0 envs r.1) [ none ↦ none | some q ↦ f2 q ] in
      let (r1, e1, rest1) = step_some (push_u64 space sp 0 mem) f1 e in
      let (r2, e2, rest2) = step_some (push_down space r1.0 envs r1.1) f2 rest1 in
      let (r3, e3, rest3) = step_some (push_u64 space r2.0 0 r2.1) f3 rest2 in
      let (r4, e4, rest4) = step_some (push_down space r3.0 args r3.1) f4 rest3 in
      let v0 : Vector space sp mem sp mem [] = record {
        words = refl;
        fits = omega arith;
        keeps = λ a above below. refl;
        room = room;
      } in
      let v1 = push_u64-Vector sp mem sp mem [] 0 r1.0 r1.1 under (omega arith) v0 e1 in
      let v2 = push_down-Vector sp mem r1.0 r1.1 (0 ∷ []) envs r2.0 r2.1 under small_envs v1 e2 in
      let v3 =
        push_u64-Vector sp mem r2.0 r2.1 (envs ++ 0 ∷ []) 0 r3.0 r3.1 under (omega arith) v2 e3 in
      let v4 =
        push_down-Vector sp mem r3.0 r3.1 (0 ∷ (envs ++ (0 ∷ []))) args r4.0 r4.1 under small_args
          v3 e4 in
      push_u64-Vector sp mem r4.0 r4.1 (args ++ (0 ∷ (envs ++ (0 ∷ [])))) (length args) sp' mem'
        under few v4 rest4
