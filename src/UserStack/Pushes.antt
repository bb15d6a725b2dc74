-- ===== src/UserStack/Pushes.antt =====
-- What pushing bytes on the stack of a user program leaves.
use neptune_os.Common.{
  length, get_or, ltb, ◌==◌, if◌then◌else◌, ltb→ge, ge→ltb, ==→ne, ne→==, some_inj, or-false, add64,
  sub64, ℕ, ◌+◌, ◌-◌, ◌^◌, ◌≤◌, ◌<◌, ◌≡◌, refl, sym, ap, ap₂, ◌∙◌, inr, Bool, true, false, ◌||◌,
  Option, none, some, List, arith,
}
use neptune_os.UserStack.{UserSpace, Bytes, write_pages, stack_write, push_bytes}
use neptune_os.UserStack.Bytes.{
  place, Sound, put_bytes, write_pages-bytes, put_bytes-outside, put_bytes-inside,
}

-- The byte of the stack at an address of the user program.
unfoldable pub byte_at : UserSpace → Bytes → ℕ → ℕ
unfolding place
byte_at space mem v = mem (place space (v - space.stack_bottom))

-- Nothing from `sp` on has changed.
abbrev pub KeepsAbove : UserSpace → ℕ → Bytes → Bytes → Type 0
KeepsAbove space sp mem mem' =
    (v : ℕ) → sp ≤ v → v < space.stack_top → byte_at space mem' v ≡ byte_at space mem v

-- The bytes `src` stand from `at` on.
abbrev pub Stands : UserSpace → Bytes → ℕ → List ℕ → Type 0
Stands space mem at src = (i : ℕ) → i < length src → byte_at space mem (at + i) ≡ get_or src i 0

pub record Pushed (space : UserSpace) (sp : ℕ) (src : List ℕ) (mem : Bytes) (sp' : ℕ) (mem' : Bytes)
    : Type 0 where
  pub room : space.stack_bottom ≤ sp'
  pub size : sp' + length src ≡ sp
  pub keeps : KeepsAbove space sp mem mem'
  pub stands : Stands space mem' sp' src

pub or_none-some :
    {A : Type 0} (b : Bool) {x : Option A} {y : A}
    → (if b then none else x) ≡ some y
    → (b ≡ false) × (x ≡ some y)
or_none-some true e = absurd (cc)
or_none-some false e = (refl, e)

pub parts :
    {a c : ℕ} {b d : Bytes}
    → ◌≡◌ {A = Option (ℕ × Bytes)} (some (a, b)) (some (c, d))
    → (a ≡ c) × (b ≡ d)
parts e = (ap (λ r. r.0) (some_inj e), ap (λ r. r.1) (some_inj e))

module _ {space : UserSpace} (sound : Sound space) where
  stack_write-bytes :
      (addr : ℕ) (src : List ℕ) (mem : Bytes)
      → 0 < length src
      → space.stack_bottom ≤ addr
      → addr + length src ≤ space.stack_top
      → stack_write space addr src mem ≡ some (put_bytes space src (addr - space.stack_bottom) mem)
  unfolding stack_write
  stack_write-bytes addr src mem pos low high =
      let written = write_pages (length src) space (addr - space.stack_bottom) src mem in
      let out = ltb addr space.stack_bottom || ltb space.stack_top (add64 addr (length src)) in
      let inside : out ≡ false =
        ap₂ (λ a b. a || b) (ge→ltb addr space.stack_bottom low)
          (ge→ltb space.stack_top (add64 addr (length src)) (omega (arith, sound.low))) in
      ap (λ b. if b then none else (if out then none else written))
        (ne→== (length src) 0 (λ z. absurd (omega arith)))
      ∙ ap (λ b. if b then none else written) inside
      ∙ write_pages-bytes space (length src) (addr - space.stack_bottom) src mem (omega arith)
          (omega (arith, sound.whole))

  pub push_bytes-Pushed :
      (sp : ℕ) (src : List ℕ) (mem : Bytes) (sp' : ℕ) (mem' : Bytes)
      → sp ≤ space.stack_top
      → length src < 2 ^ 63
      → push_bytes space sp src mem ≡ some (sp', mem')
      → Pushed space sp src mem sp' mem'
  unfolding push_bytes byte_at
  push_bytes-Pushed sp src mem sp' mem' under short e =
      let n = length src in
      let (guard, done) = or_none-some (n == 0 || ltb sp (add64 space.stack_bottom n)) e in
      let (some_bytes, fits) = or-false (n == 0) (ltb sp (add64 space.stack_bottom n)) guard in
      let pos : 0 < n = omega (arith, ==→ne n 0 some_bytes) in
      let fit : space.stack_bottom + n ≤ sp =
        omega (arith, ltb→ge sp (add64 space.stack_bottom n) fits, sound.low, sound.whole) in
      let moved : sub64 sp n ≡ sp - n = omega (arith, sound.low) in
      let offset = sp - n - space.stack_bottom in
      let written = put_bytes space src offset mem in
      let wrote : stack_write space (sub64 sp n) src mem ≡ some written =
        ap (λ a. stack_write space a src mem) moved
        ∙ stack_write-bytes (sp - n) src mem pos (omega arith) (omega arith) in
      let (at_sp, at_mem) =
        parts {a = sub64 sp n} {c = sp'} {b = written} {d = mem'}
          (sym (ap (λ o. elim o [ none ↦ none | some m ↦ some (sub64 sp n, m) ]) wrote) ∙ done) in
      let sp'_eq : sp' ≡ sp - n = sym at_sp ∙ moved in
      let mem'_eq : mem' ≡ written = sym at_mem in
      record {
        room = omega (arith, sp'_eq, fit);
        size = omega (arith, sp'_eq, fit);
        keeps = λ v above below.
            ap (λ m. m (place space (v - space.stack_bottom))) mem'_eq
            ∙ put_bytes-outside sound src offset mem (v - space.stack_bottom)
                (omega (arith, fit, sound.whole)) (omega (arith, fit, sound.whole))
                (inr (omega (arith, fit)));
        stands = λ i h.
            ap (λ m. m (place space (sp' + i - space.stack_bottom))) mem'_eq
            ∙ ap (λ o. written (place space o)) (omega (arith, sp'_eq, fit))
            ∙ put_bytes-inside sound src offset mem i (omega (arith, fit, sound.whole)) h;
      }
