-- ===== src/Paths.antt =====
-- `normalize_path` of kernel/syscall.c and of kernel/vfs.c. A path is the list of its characters without the final zero. The
-- loop over the characters is a loop over the segments between slashes, where the empty segments, which
-- two slashes in a row give, do nothing, as in the source. The output buffer up to `out_pos` is a list
-- with the last character first.
pub mod Stack
pub mod Resolve
mod Tests
use neptune_os.Common.{
  length, get_or, ltb, leb, ◌==◌, if◌then◌else◌, ℕ, zero, ◌+◌, ◌-◌, ◌<◌, Bool, true, false, not,
  ◌&&◌, Option, none, some, List, [], ◌∷◌,
}

abbrev pub slash : ℕ
slash = 47

abbrev pub dot : ℕ
dot = 46

abbrev pub add_char : ℕ → List (List ℕ) → List (List ℕ)
add_char c [] = (c ∷ []) ∷ []
add_char c (s ∷ ss) = (c ∷ s) ∷ ss

-- The segments between the slashes.
unfoldable pub segments : List ℕ → List (List ℕ)
segments [] = [] ∷ []
segments (c ∷ cs) = if c == slash then [] ∷ segments cs else add_char c (segments cs)

unfoldable pub is_dot : List ℕ → Bool
is_dot (c ∷ []) = c == dot
is_dot _ = false

unfoldable pub is_dot_dot : List ℕ → Bool
is_dot_dot (c ∷ d ∷ []) = c == dot && d == dot
is_dot_dot _ = false

-- `out[out_pos-1] == '/'`
unfoldable pub ends_in_slash : List ℕ → Bool
ends_in_slash [] = false
ends_in_slash (c ∷ out) = c == slash

-- `while (out_pos > 1 && out[out_pos-1] != '/') --out_pos;`
unfoldable pub drop_name : List ℕ → List ℕ
drop_name [] = []
drop_name (c ∷ []) = c ∷ []
drop_name (c ∷ d ∷ out) = elim (c == slash) [ true ↦ c ∷ d ∷ out | false ↦ drop_name (d ∷ out) ]

abbrev drop_last : List ℕ → List ℕ
drop_last [] = []
drop_last (c ∷ out) = out

-- The branch of a `..`.
unfoldable pub go_up : List ℕ → List ℕ
unfolding drop_name ends_in_slash
go_up out =
    if ltb 1 (length out) then drop_name (if ends_in_slash out then drop_last out else out) else out

-- `for (i = 0; i < len; ++i) out[out_pos++] = start[i];`
unfoldable pub put_all : List ℕ → List ℕ → List ℕ
put_all out [] = out
put_all out (c ∷ cs) = put_all (c ∷ out) cs

-- The branch of a name: the slash before it if there is none, then its characters.
unfoldable pub put_name : ℕ → List ℕ → List ℕ → Option (List ℕ)
unfolding put_all ends_in_slash
put_name out_len seg out =
    let needs_slash = ltb 1 (length out) && not (ends_in_slash out) in
    let start = if needs_slash then slash ∷ out else out in
    if needs_slash && leb out_len (length out + 1)
    then none
    else (if leb out_len (length start + length seg) then none else some (put_all start seg))

unfoldable pub put_segment : ℕ → List ℕ → List ℕ → Option (List ℕ)
unfolding is_dot is_dot_dot go_up put_name
put_segment out_len seg out =
    if is_dot seg
    then some out
    else (if is_dot_dot seg
        then some (go_up out)
        else (if length seg == 0 then some out else put_name out_len seg out))

unfoldable pub put_segments : ℕ → List (List ℕ) → List ℕ → Option (List ℕ)
unfolding put_segment
put_segments out_len [] out = some out
put_segments out_len (seg ∷ segs) out = elim (put_segment out_len seg out) [
  | none ↦ none
  | some out' ↦ put_segments out_len segs out'
]

-- The path in `out`, its last character first.
unfoldable pub normalize_path : ℕ → List ℕ → Option (List ℕ)
unfolding put_segments segments
normalize_path out_len path =
    if ltb out_len 2 then none else put_segments out_len (segments path) (slash ∷ [])

-- `len > 1 && path[len - 1] == '/'` of kernel/vfs.c.
unfoldable pub wants_dir : List ℕ → Bool
wants_dir path = ltb 1 (length path) && get_or path (length path - 1) 0 == slash

-- `normalize_path` of kernel/vfs.c, which takes absolute paths only and also tells if the path ends in a
-- slash.
unfoldable pub vfs_normalize_path : ℕ → List ℕ → Option (List ℕ × Bool)
unfolding put_segments segments wants_dir
vfs_normalize_path out_len path =
    if ltb out_len 2
    then none
    else (if not (get_or path 0 0 == slash)
        then none
        else (elim (put_segments out_len (segments path) (slash ∷ [])) [
          | none ↦ none
          | some out ↦ some (out, wants_dir path)
        ]))
