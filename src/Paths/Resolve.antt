-- ===== src/Paths/Resolve.antt =====
-- What `normalize_path` of kernel/syscall.c returns.
use neptune_os.Common.{
  length, All, ltb, ◌==◌, ==→ne, Bool-cases, Option-cases, some_inj, ℕ, suc, ◌+◌, ◌≤◌, ◌<◌, ◌≡◌,
  refl, subst, inl, inr, false, some, List, [], ◌∷◌, arith,
}
use neptune_os.Paths.{
  slash, add_char, segments, is_dot, is_dot_dot, drop_name, go_up, put_name, put_segment,
  put_segments, normalize_path,
}
use neptune_os.Paths.Stack.{
  written, up, enter, resolve, Names, IsName, Shows, starts, total, length-put_all, go_up-Shows,
  put_name-some, segments-Names,
}

length-drop_name : (out : List ℕ) → length (drop_name out) ≤ length out
unfolding drop_name
length-drop_name [] = omega arith
length-drop_name (c ∷ []) = omega arith
length-drop_name (c ∷ d ∷ out) = elim (Bool-cases (c == slash)) [
  | inl e ↦ rw (e, drop_name) (omega arith)
  | inr e ↦ rw (e, drop_name) (omega (arith, length-drop_name (d ∷ out)))
]

length-go_up : (out : List ℕ) → length (go_up out) ≤ length out
unfolding go_up
length-go_up [] = omega arith
length-go_up (c ∷ out) = ground (arith, length-drop_name (c ∷ out), length-drop_name out)

up-IsName : (ss : List (List ℕ)) → All IsName ss → All IsName (up ss)
unfolding up
up-IsName [] n = n
up-IsName (s ∷ ss) n = n.1

-- The output while it shows a stack of names and fits in the buffer.
record Good (out_len : ℕ) (out : List ℕ) (ss : List (List ℕ)) : Type 0 where
  shows : Shows out ss
  names : All IsName ss
  fits : length out < out_len

put_segment-Good :
    (out_len : ℕ) (seg out out' : List ℕ) (ss : List (List ℕ))
    → Names seg
    → Good out_len out ss
    → put_segment out_len seg out ≡ some out'
    → Good out_len out' (enter seg ss)
unfolding put_segment enter
put_segment-Good out_len seg out out' ss m g h = elim (Bool-cases (is_dot seg)) [
  | inl e ↦ rw e (subst (λ o. Good out_len o ss) (some_inj (rw e at h)) g)
  | inr e ↦ elim (Bool-cases (is_dot_dot seg)) [
    | inl d ↦
        rw (e, d)
          (subst (λ o. Good out_len o (up ss)) (some_inj (rw (e, d) at h))
            (record {
              shows = go_up-Shows out ss g.names g.shows;
              names = up-IsName ss g.names;
              fits = omega (arith, g.fits, length-go_up out);
            }))
    | inr d ↦ elim (Bool-cases (length seg == 0)) [
      | inl z ↦ rw (e, d, z) (subst (λ o. Good out_len o ss) (some_inj (rw (e, d, z) at h)) g)
      | inr z ↦
          let (eq, lt) =
            put_name-some out_len seg out out' ss g.names g.shows (rw (e, d, z) at h) in
          rw (e, d, z)
            (record {
              shows = inl (eq, omega arith);
              names = ((omega (arith, ==→ne (length seg) 0 z), m), g.names);
              fits = lt;
            })
    ]
  ]
]

put_segments-Good :
    (out_len : ℕ) (segs : List (List ℕ)) (out out' : List ℕ) (ss : List (List ℕ))
    → All Names segs
    → Good out_len out ss
    → put_segments out_len segs out ≡ some out'
    → Good out_len out' (resolve segs ss)
unfolding put_segments resolve
put_segments-Good out_len [] out out' ss m g h = subst (λ o. Good out_len o ss) (some_inj h) g
put_segments-Good out_len (seg ∷ segs) out out' ss m g h =
    elim (Option-cases (put_segment out_len seg out)) [
      | inl e ↦ absurd (ground arith)
      | inr (o, e) ↦
          put_segments-Good out_len segs o out' (enter seg ss) m.1
            (put_segment-Good out_len seg out o ss m.0 g e) (rw (e, put_segments) at h)
    ]

-- Where `normalize_path` succeeds, its output is the path of the names that the segments lead to from
-- the root, perhaps with a slash at the end, and it fits in the buffer with its final zero.
pub normalize_path-Shows :
    (out_len : ℕ) (path out : List ℕ)
    → normalize_path out_len path ≡ some out
    → Shows out (resolve (segments path) []) × (length out < out_len)
unfolding normalize_path written
normalize_path-Shows out_len path out h = elim (Bool-cases (ltb out_len 2)) [
  | inl e ↦ absurd (ground arith)
  | inr e ↦
      let start : Good out_len (slash ∷ []) [] = record {
        shows = inr refl;
        names = tt;
        fits = ground arith;
      } in
      let g =
        put_segments-Good out_len (segments path) (slash ∷ []) out [] (segments-Names path) start
          (rw e at h) in
      (g.shows, g.fits)
]

-- A segment takes at most its length and a slash of room.
put_segment-room :
    (out_len : ℕ) (seg out : List ℕ)
    → length out + suc (length seg) < out_len
    → (out' : List ℕ) × (put_segment out_len seg out ≡ some out')
      × (length out' ≤ length out + suc (length seg))
unfolding put_segment put_name starts
put_segment-room out_len seg out h = elim (Option-cases (put_segment out_len seg out)) [
  | inl e ↦ absurd (ground arith)
  | inr (o, e) ↦ (
    o,
    e,
    ground (arith, length-go_up out, length-put_all out seg, length-put_all (slash ∷ out) seg),
  )
]

put_segments-room :
    (out_len : ℕ) (segs : List (List ℕ)) (out : List ℕ)
    → length out + total segs < out_len
    → (out' : List ℕ) × (put_segments out_len segs out ≡ some out')
unfolding put_segments total
put_segments-room out_len [] out h = (out, refl)
put_segments-room out_len (seg ∷ segs) out h =
    let (o, e, le) = put_segment-room out_len seg out (omega arith) in
    let (o', e') = put_segments-room out_len segs o (omega arith) in (o', rw (e, put_segments) e')

total-segments : (path : List ℕ) → total (segments path) ≡ suc (length path)
unfolding segments total
total-segments [] = refl
total-segments (c ∷ cs) = elim (Bool-cases (c == slash)) [
  | inl e ↦ rw (e, segments) (omega (arith, total-segments cs))
  | inr e ↦ rw (e, segments) (more (segments cs) (total-segments cs))
]
  where
    more :
        (ss : List (List ℕ))
        → total ss ≡ suc (length cs)
        → total (add_char c ss) ≡ suc (suc (length cs))
    more [] h = absurd (omega arith)
    more (s ∷ ss) h = omega arith

-- A path that is at least three characters shorter than the buffer is always normalized.
pub normalize_path-returns :
    (out_len : ℕ) (path : List ℕ)
    → length path + 2 < out_len
    → (out : List ℕ) × (normalize_path out_len path ≡ some out)
unfolding normalize_path
normalize_path-returns out_len path h =
    let (o, e) =
      put_segments-room out_len (segments path) (slash ∷ []) (omega (arith, total-segments path)) in
    let wide : ltb out_len 2 ≡ false = ground arith in (o, rw wide e)
