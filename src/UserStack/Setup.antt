-- ===== src/UserStack/Setup.antt =====
-- The stack that `user_stack_setup` builds, read back as the user program reads it.
use neptune_os.Common.{
  length, All, ltb, ◌==◌, ltb→ge, some_inj, or-false, ℕ, suc, ◌+◌, ◌*◌, ◌/◌, ◌%◌, ◌^◌, ◌≤◌, ◌<◌,
  ◌≡◌, refl, ap, subst, ◌∙◌, ◌||◌, Option, none, some, List, [], ◌∷◌, ◌++◌, arith,
}
use neptune_os.UserStack.{
  UserSpace, Bytes, push_string, push_strings, push_vectors, user_stack_setup,
}
use neptune_os.UserStack.Bytes.{Sound}
use neptune_os.UserStack.Pushes.{KeepsAbove, or_none-some, push_bytes-Pushed}
use neptune_os.UserStack.Words.{Words, Points, IsShort, Points-same}
use neptune_os.UserStack.Vector.{step_some, push_vectors-Vector}

module _ {space : UserSpace} (sound : Sound space) where
  Points-small :
      (mem : Bytes) (low : ℕ) (ptrs : List ℕ) (ss : List (List ℕ))
      → Points space mem low ptrs ss
      → All (λ a. a < 2 ^ 64) ptrs
  Points-small mem low [] ss p = tt
  Points-small mem low (a ∷ ptrs) [] p = absurd (cc)
  Points-small mem low (a ∷ ptrs) (s ∷ ss) p =
      (omega (arith, p.0.1, sound.low), Points-small mem low ptrs ss p.1)

  Points-length :
      (mem : Bytes) (low : ℕ) (ptrs : List ℕ) (ss : List (List ℕ))
      → Points space mem low ptrs ss
      → length ptrs ≡ length ss
  Points-length mem low [] [] p = refl
  Points-length mem low [] (s ∷ ss) p = absurd (cc)
  Points-length mem low (a ∷ ptrs) [] p = absurd (cc)
  Points-length mem low (a ∷ ptrs) (s ∷ ss) p = ap suc (Points-length mem low ptrs ss p.1)

  -- What the strings leave: their addresses, and nothing above has changed.
  pub record Texts (sp : ℕ) (mem : Bytes) (ss : List (List ℕ)) (addrs : List ℕ) (sp' : ℕ)
      (mem' : Bytes) : Type 0 where
    pub below : sp' ≤ sp
    pub room : space.stack_bottom ≤ sp'
    pub keeps : KeepsAbove space sp mem mem'
    pub points : Points space mem' sp' addrs ss

  push_strings-Texts :
      (sp : ℕ) (ss : List (List ℕ)) (mem : Bytes) (addrs : List ℕ) (sp' : ℕ) (mem' : Bytes)
      → sp ≤ space.stack_top
      → space.stack_bottom ≤ sp
      → All IsShort ss
      → push_strings space sp ss mem ≡ some (addrs, sp', mem')
      → Texts sp mem ss addrs sp' mem'
  unfolding push_strings push_string
  push_strings-Texts sp [] mem addrs sp' mem' under room short e =
      subst (λ (r : List ℕ × ℕ × Bytes). Texts sp mem [] r.0 r.1 r.2) (some_inj e)
        record { below = omega arith; room = room; keeps = λ v above below. refl; points = refl }
  push_strings-Texts sp (s ∷ ss) mem addrs sp' mem' under room short e =
      let f2 : ℕ × Bytes → List ℕ × ℕ × Bytes → Option (List ℕ × ℕ × Bytes) =
        λ r q. some (r.0 ∷ q.0, q.1, q.2) in
      let f1 : ℕ × Bytes → Option (List ℕ × ℕ × Bytes) =
        λ r. elim (push_strings space r.0 ss r.1) [ none ↦ none | some q ↦ f2 r q ] in
      let (r, e1, rest1) = step_some (push_string space sp s mem) f1 e in
      let (q, e2, rest2) = step_some (push_strings space r.0 ss r.1) (f2 r) rest1 in
      let p = push_bytes-Pushed sound sp (s ++ 0 ∷ []) mem r.0 r.1 under short.0 e1 in
      let t = push_strings-Texts r.0 ss r.1 q.0 q.1 q.2 (omega (arith, p.size)) p.room short.1 e2 in
      subst (λ (r : List ℕ × ℕ × Bytes). Texts sp mem (s ∷ ss) r.0 r.1 r.2) (some_inj rest2)
        record {
          below = omega (arith, t.below, p.size);
          room = t.room;
          keeps = λ v above below. t.keeps v (omega (arith, p.size)) below ∙ p.keeps v above below;
          points = (
            (
              t.below,
              omega (arith, p.size),
              λ i k. t.keeps (r.0 + i) (omega arith) (omega (arith, p.size)) ∙ p.stands i k,
            ),
            t.points,
          );
        }

  -- For a stack of pages that do not overlap, from a multiple of 16 on, and strings shorter than 2^63:
  -- where the setup succeeds, the stack pointer is in the stack and the words from it on are the number of
  -- arguments, the addresses of the arguments, 0, the addresses of the environment's strings, and 0; and at each
  -- of these addresses, in the stack, stand the bytes of that string and a zero.
  pub user_stack_setup-Stack :
      (argv envp : List (List ℕ)) (mem : Bytes) (sp : ℕ) (mem' : Bytes)
      → All IsShort argv
      → All IsShort envp
      → space.stack_bottom % 16 ≡ 0
      → user_stack_setup space argv envp mem ≡ some (sp, mem')
      → (args envs : List ℕ) × Words space mem' sp
          (length argv ∷ (args ++ (0 ∷ (envs ++ (0 ∷ [])))))
        × Points space mem' sp args argv
        × Points space mem' sp envs envp
        × (space.stack_bottom ≤ sp)
  unfolding user_stack_setup
  user_stack_setup-Stack argv envp mem sp mem' short_args short_envs whole e =
      let f2 : List ℕ × ℕ × Bytes → List ℕ × ℕ × Bytes → Option (ℕ × Bytes) =
        λ r q. push_vectors space (q.1 / 16 * 16) r.0 q.0 q.2 in
      let f1 : List ℕ × ℕ × Bytes → Option (ℕ × Bytes) =
        λ r. elim (push_strings space r.1 envp r.2) [ none ↦ none | some q ↦ f2 r q ] in
      let limits = space.stack_pages == 0 || ltb 8 (length argv) || ltb 8 (length envp) in
      let (guard, rest0) = or_none-some limits e in
      let none_long =
        (or-false (space.stack_pages == 0 || ltb 8 (length argv)) (ltb 8 (length envp)) guard).0 in
      let few = (or-false (space.stack_pages == 0) (ltb 8 (length argv)) none_long).1 in
      let (r, e1, rest1) = step_some (push_strings space space.stack_top argv mem) f1 rest0 in
      let (q, e2, e3) = step_some (push_strings space r.1 envp r.2) (f2 r) rest1 in
      let t1 =
        push_strings-Texts space.stack_top argv mem r.0 r.1 r.2 (omega arith)
          (omega (arith, sound.whole)) short_args e1 in
      let t2 = push_strings-Texts r.1 envp r.2 q.0 q.1 q.2 t1.below t1.room short_envs e2 in
      let base = q.1 / 16 * 16 in
      let count = Points-length r.2 r.1 r.0 argv t1.points in
      let v =
        push_vectors-Vector sound base r.0 q.0 q.2 sp mem' (omega (arith, t1.below, t2.below))
          (omega (arith, t2.room, whole)) (Points-small r.2 r.1 r.0 argv t1.points)
          (Points-small q.2 q.1 q.0 envp t2.points)
          (omega (arith, count, ltb→ge 8 (length argv) few)) e3 in
      let lower =
        λ (ptrs : List ℕ) (ss : List (List ℕ)) (low : ℕ) (h : base ≤ low)
            (p : Points space q.2 low ptrs ss).
          Points-same space mem' mem' ptrs ss base sp (λ a above below. refl)
            (omega (arith, v.fits)) (Points-same space q.2 mem' ptrs ss low base v.keeps h p) in
      (
        r.0,
        q.0,
        (v.words.0 ∙ count, v.words.1),
        lower r.0 argv r.1 (omega (arith, t2.below))
            (Points-same space r.2 q.2 r.0 argv r.1 r.1 t2.keeps (omega arith) t1.points),
        lower q.0 envp q.1 (omega arith) t2.points,
        v.room,
      )
