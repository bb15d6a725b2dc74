-- ===== src/Fat/Names.antt =====
-- Names of kernel/fat.c: the eleven bytes of a directory entry, eight for the name and three for the
-- extension, filled with spaces.
use neptune_os.Common.{
  length, set, drop, replicate, ltb, leb, ◌==◌, if◌then◌else◌, ℕ, zero, suc, ◌+◌, ◌-◌, Bool, true,
  false, not, ◌&&◌, Option, none, some, List, [], ◌∷◌, ◌++◌,
}

abbrev pub space : ℕ
space = 32

abbrev pub dot : ℕ
dot = 46

abbrev pub slash : ℕ
slash = 47

unfoldable pub upper_char : ℕ → ℕ
upper_char c = if leb 97 c && leb c 122 then c - 32 else c

-- The loop of `build_short_name` over the characters left: `out` with `name_len` and `ext_len`
-- characters of each part written.
unfoldable pub short_name_loop : List ℕ → List ℕ → ℕ → ℕ → Bool → Option (List ℕ)
unfolding upper_char
short_name_loop [] out name_len ext_len in_ext = if ltb 0 name_len then some out else none
short_name_loop (c ∷ cs) out name_len ext_len in_ext =
    let ends = if ltb 0 name_len then some out else none in
    let on_dot = short_name_loop cs out name_len ext_len true in
    let on_name =
      short_name_loop cs (set out name_len (upper_char c)) (name_len + 1) ext_len false in
    let on_ext =
      short_name_loop cs (set out (8 + ext_len) (upper_char c)) name_len (ext_len + 1) true in
    if c == slash
    then ends
    else (if c == dot
        then (if in_ext then none else on_dot)
        else (if in_ext
            then (if leb 3 ext_len then none else on_ext)
            else (if leb 8 name_len then none else on_name)))

unfoldable pub build_short_name : List ℕ → Option (List ℕ)
unfolding short_name_loop
build_short_name path = short_name_loop path (replicate 11 space) 0 0 false

-- The two copy loops of `format_name`: at most `n` characters before the first space, with room for
-- `room` of them.
unfoldable pub copy_part : ℕ → ℕ → List ℕ → List ℕ
copy_part zero room cs = []
copy_part (suc n) zero cs = []
copy_part (suc n) (suc room) [] = []
copy_part (suc n) (suc room) (c ∷ cs) = if c == space then [] else c ∷ copy_part n room cs

unfoldable pub all_spaces : ℕ → List ℕ → Bool
all_spaces zero cs = true
all_spaces (suc n) [] = true
all_spaces (suc n) (c ∷ cs) = c == space && all_spaces n cs

-- `format_name`, without the final zero.
unfoldable pub format_name : List ℕ → ℕ → List ℕ
unfolding copy_part all_spaces
format_name ent out_len =
    let name = copy_part 8 (out_len - 1) ent in
    let idx = length name in
    let ext = copy_part 3 (out_len - 1 - (idx + 1)) (drop 8 ent) in
    if not (all_spaces 3 (drop 8 ent)) && ltb (idx + 1) out_len then name ++ dot ∷ ext else name
