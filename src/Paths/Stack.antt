-- ===== src/Paths/Stack.antt =====
-- `normalize_path` of kernel/syscall.c as a stack of names.
use neptune_os.Common.{
  length, All, ltb, ◌==◌, if◌then◌else◌, Bool-cases, ℕ, suc, ◌+◌, ◌<◌, ◌≡◌, refl, ap, ◌∙◌, ◌⊎◌, inl,
  inr, true, false, not, ◌&&◌, some, List, [], ◌∷◌, arith,
}
use neptune_os.Paths.{
  segments, add_char, put_name, slash, is_dot, is_dot_dot, ends_in_slash, drop_name, go_up, put_all,
}

-- What a path means: the names from the root, the last one first. `..` leaves the last directory.
unfoldable pub up : List (List ℕ) → List (List ℕ)
up [] = []
up (s ∷ ss) = ss

unfoldable pub enter : List ℕ → List (List ℕ) → List (List ℕ)
enter seg stack =
    if is_dot seg
    then stack
    else (if is_dot_dot seg then up stack else (if length seg == 0 then stack else seg ∷ stack))

unfoldable pub resolve : List (List ℕ) → List (List ℕ) → List (List ℕ)
unfolding enter up
resolve [] stack = stack
resolve (seg ∷ segs) stack = resolve segs (enter seg stack)

-- The characters of a stack, the last one first, and the same with a slash at the end.
unfoldable pub written : List (List ℕ) → List ℕ
unfolding put_all
written [] = []
written (s ∷ ss) = put_all (slash ∷ written ss) s

abbrev pub Names : List ℕ → Type 0
Names s = All (λ c. (c == slash) ≡ false) s

abbrev pub IsName : List ℕ → Type 0
IsName s = (0 < length s) × Names s

-- `out` is the path of the stack, with a slash at its end or without.
abbrev pub Shows : List ℕ → List (List ℕ) → Type 0
Shows out ss = ((out ≡ written ss) × (0 < length ss)) ⊎ (out ≡ slash ∷ written ss)

pub length-put_all : (out s : List ℕ) → length (put_all out s) ≡ length out + length s
unfolding put_all
length-put_all out [] = omega arith
length-put_all out (c ∷ s) = length-put_all (c ∷ out) s ∙ omega arith

ends-put_all :
    (out s : List ℕ) → ends_in_slash out ≡ false → Names s → ends_in_slash (put_all out s) ≡ false
unfolding put_all ends_in_slash
ends-put_all out [] h n = h
ends-put_all out (c ∷ s) h n = ends-put_all (c ∷ out) s n.0 n.1

ends-name : (out s : List ℕ) → IsName s → ends_in_slash (put_all out s) ≡ false
unfolding put_all ends_in_slash
ends-name out [] n = absurd (omega (arith, n.0))
ends-name out (c ∷ s) n = ends-put_all (c ∷ out) s n.1.0 n.1.1

-- Going back over a name ends at the slash before it.
drop_name-put_all :
    (out s : List ℕ) → Names s → drop_name (put_all (slash ∷ out) s) ≡ drop_name (slash ∷ out)
unfolding drop_name put_all
drop_name-put_all out s n = go (slash ∷ out) s n (omega arith)
  where
    go : (o t : List ℕ) → Names t → 0 < length o → drop_name (put_all o t) ≡ drop_name o
    go o [] m h = refl
    go [] (c ∷ t) m h = absurd (omega arith)
    go (d ∷ o) (c ∷ t) m h = go (c ∷ d ∷ o) t m.1 (omega arith) ∙ rw (m.0, drop_name) refl

drop_name-slash : (out : List ℕ) → drop_name (slash ∷ out) ≡ slash ∷ out
unfolding drop_name
drop_name-slash [] = refl
drop_name-slash (c ∷ out) = refl

go_up-closed :
    (s : List ℕ) (ss : List (List ℕ)) → IsName s → go_up (written (s ∷ ss)) ≡ slash ∷ written ss
unfolding go_up written
go_up-closed s ss n =
    let long : ltb 1 (length (put_all (slash ∷ written ss) s)) ≡ true =
      ground (arith, length-put_all (slash ∷ written ss) s, n.0) in
    rw (long, ends-name (slash ∷ written ss) s n)
      (drop_name-put_all (written ss) s n.1 ∙ drop_name-slash (written ss))

go_up-slashed :
    (ss : List (List ℕ)) → All IsName ss → go_up (slash ∷ written ss) ≡ slash ∷ written (up ss)
unfolding go_up written up ends_in_slash
go_up-slashed [] n = refl
go_up-slashed (s ∷ ss) n =
    let long : ltb 1 (length (slash ∷ put_all (slash ∷ written ss) s)) ≡ true =
      ground (arith, length-put_all (slash ∷ written ss) s) in
    rw long (drop_name-put_all (written ss) s n.0.1 ∙ drop_name-slash (written ss))

pub go_up-Shows :
    (out : List ℕ) (ss : List (List ℕ)) → All IsName ss → Shows out ss → Shows (go_up out) (up ss)
unfolding up
go_up-Shows out [] n (inl (e, some_name)) = absurd (omega arith)
go_up-Shows out (s ∷ ss) n (inl (e, some_name)) = inr (ap go_up e ∙ go_up-closed s ss n.0)
go_up-Shows out ss n (inr e) = inr (ap go_up e ∙ go_up-slashed ss n)

-- A name that fits is put behind a slash.
unfoldable pub starts : List ℕ → List ℕ
starts out = if ltb 1 (length out) && not (ends_in_slash out) then slash ∷ out else out

pub starts-Shows :
    (out : List ℕ) (ss : List (List ℕ))
    → All IsName ss
    → Shows out ss
    → starts out ≡ slash ∷ written ss
unfolding starts written ends_in_slash
starts-Shows out [] n (inl (e, some_name)) = absurd (omega arith)
starts-Shows out (s ∷ ss) n (inl (e, some_name)) =
    let long : ltb 1 (length (put_all (slash ∷ written ss) s)) ≡ true =
      ground (arith, length-put_all (slash ∷ written ss) s, n.0.0) in
    ap starts e ∙ rw (starts, long, ends-name (slash ∷ written ss) s n.0) refl
starts-Shows out ss n (inr e) = ap starts e ∙ (ground arith)

put_name-starts :
    (out_len : ℕ) (seg out out' : List ℕ)
    → put_name out_len seg out ≡ some out'
    → (out' ≡ put_all (starts out) seg) × (length (starts out) + length seg < out_len)
unfolding put_name starts
put_name-starts out_len seg out out' h = ground arith

pub put_name-some :
    (out_len : ℕ) (seg out out' : List ℕ) (ss : List (List ℕ))
    → All IsName ss
    → Shows out ss
    → put_name out_len seg out ≡ some out'
    → (out' ≡ written (seg ∷ ss)) × (length out' < out_len)
unfolding written
put_name-some out_len seg out out' ss n sh h =
    let (e, lt) = put_name-starts out_len seg out out' h in
    let st = starts-Shows out ss n sh in
    (e ∙ ap (λ o. put_all o seg) st, omega (arith, ap length e, length-put_all (starts out) seg))

-- The segments hold no slash, and with a slash for each they are as long as the path and one more.
unfoldable pub total : List (List ℕ) → ℕ
total [] = 0
total (s ∷ ss) = suc (length s + total ss)

add_char-Names :
    (c : ℕ) (ss : List (List ℕ)) → (c == slash) ≡ false → All Names ss → All Names (add_char c ss)
add_char-Names c [] h n = ((h, tt), tt)
add_char-Names c (s ∷ ss) h n = ((h, n.0), n.1)

pub segments-Names : (path : List ℕ) → All Names (segments path)
unfolding segments
segments-Names [] = (tt, tt)
segments-Names (c ∷ cs) = elim (Bool-cases (c == slash)) [
  | inl e ↦ rw (e, segments) (tt, segments-Names cs)
  | inr e ↦ rw (e, segments) (add_char-Names c (segments cs) e (segments-Names cs))
]
