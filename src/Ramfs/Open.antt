-- ===== src/Ramfs/Open.antt =====
-- Opening files of kernel/ramfs.c by their paths.
use neptune_os.Common.{
  length, get_elem?, set, take, take_all, lt_of_get_elem?, get_elem?-set_self, get_elem?-set_ne,
  leb, ◌==◌, ==→eq, ==_refl, Bool-cases, Option-cases, some_inj, ℕ, zero, suc, ◌+◌, ◌<◌, ◌≡◌, refl,
  sym, ap, ap₂, subst, ◌∙◌, ◌≢◌, inl, inr, true, false, ◌&&◌, none, some, List, [], ◌∷◌, arith,
}
use neptune_os.Ramfs.{path_max, RamfsFile, streq, find_path, find_unused, is_absolute, ramfs_open}

streq-eq : (xs ys : List ℕ) → streq xs ys ≡ true → xs ≡ ys
unfolding streq
streq-eq [] [] e = refl
streq-eq [] (y ∷ ys) e = absurd (ground arith)
streq-eq (x ∷ xs) [] e = absurd (ground arith)
streq-eq (x ∷ xs) (y ∷ ys) e = elim (Bool-cases (x == y)) [
  | inl h ↦ ap₂ (λ a l. a ∷ l) (==→eq x y h) (streq-eq xs ys (rw h at e))
  | inr h ↦ absurd (ground arith)
]

streq_refl : (xs : List ℕ) → streq xs xs ≡ true
unfolding streq
streq_refl [] = refl
streq_refl (x ∷ xs) = rw (==_refl x) (streq_refl xs)

-- Entry `i` of the table is in use for `path`.
abbrev pub Names : List RamfsFile → ℕ → List ℕ → Type 0
Names files i path =
    (f : RamfsFile) × (get_elem? files i ≡ some f) × (f.used ≡ true) × (f.path ≡ path)

find_path-Names :
    (path : List ℕ) (files : List RamfsFile) (i j : ℕ)
    → find_path path files i ≡ some j
    → (k : ℕ) × (j ≡ i + k) × Names files k path
unfolding find_path
find_path-Names path [] i j e = absurd (ground arith)
find_path-Names path (f ∷ fs) i j e = elim (Bool-cases (f.used && streq f.path path)) [
  | inl h ↦ (0, ground arith, (f, refl, ground arith, streq-eq f.path path (ground arith)))
  | inr h ↦
      let (k, eq, n) = find_path-Names path fs (i + 1) j (rw (h, find_path) at e) in
      (suc k, omega arith, n)
]

find_unused-lem :
    (files : List RamfsFile) (i j : ℕ)
    → find_unused files i ≡ some j
    → (k : ℕ) × (f : RamfsFile) × (j ≡ i + k) × (get_elem? files k ≡ some f) × (f.used ≡ false)
unfolding find_unused
find_unused-lem [] i j e = absurd (ground arith)
find_unused-lem (f ∷ fs) i j e = elim (Bool-cases f.used) [
  | inl h ↦
      let (k, g, eq, at, un) = find_unused-lem fs (i + 1) j (rw h at e) in
      (suc k, g, omega arith, at, un)
  | inr h ↦ (0, f, ground arith, refl, h)
]

-- A free entry that takes the path is the first entry with it, if none had it before.
find_path-set :
    (path : List ℕ) (files : List RamfsFile) (i k : ℕ) (f : RamfsFile)
    → find_path path files i ≡ none
    → k < length files
    → f.used ≡ true
    → f.path ≡ path
    → find_path path (set files k f) i ≡ some (i + k)
unfolding find_path
find_path-set path [] i k f e lt u p = absurd (omega arith)
find_path-set path (g ∷ gs) i zero f e lt u p =
    let hit : (f.used && streq f.path path) ≡ true = rw (u, p) (streq_refl path) in
    ground (arith, hit)
find_path-set path (g ∷ gs) i (suc k) f e lt u p = elim (Bool-cases (g.used && streq g.path path)) [
  | inl h ↦ absurd (ground arith)
  | inr h ↦
      rw (h, find_path)
        (find_path-set path gs (i + 1) k f (rw (h, find_path) at e) (omega arith) u p
          ∙ ap some (omega arith))
]

-- The table after an open: entry `i` is in use for the path, what was in use is as it was.
abbrev pub Opened : List ℕ → List RamfsFile → ℕ × List RamfsFile → Type 0
Opened path files (i, files') =
    Names files' i path
    × (ramfs_open path files' ≡ some (i, files'))
    × ((j : ℕ) (f : RamfsFile)
        → get_elem? files j ≡ some f
        → f.used ≡ true
        → get_elem? files' j ≡ some f)

differs : (g f : RamfsFile) → g.used ≡ false → f.used ≡ true → g ≢ f
differs g f a b e = absurd (ground (arith, ap (λ r. r.used) e))

found-Opened :
    (path : List ℕ) (files : List RamfsFile) (k : ℕ)
    → is_absolute path ≡ true
    → leb path_max (length path) ≡ false
    → find_path path files 0 ≡ some k
    → Opened path files (k, files)
unfolding ramfs_open
found-Opened path files k abs short found =
    let (m, eq, names) = find_path-Names path files 0 k found in
    let same : k ≡ m = omega arith in
    (subst (λ x. Names files x path) (sym same) names, rw (abs, short, found) refl, λ j f at u. at)

fresh-Opened :
    (path : List ℕ) (files : List RamfsFile) (k : ℕ)
    → is_absolute path ≡ true
    → leb path_max (length path) ≡ false
    → find_path path files 0 ≡ none
    → find_unused files 0 ≡ some k
    → Opened path files
        (k, set files k (record { path = take 63 path; bytes = []; size = 0; used = true }))
unfolding ramfs_open
fresh-Opened path files k abs short fresh spare =
    let new : RamfsFile = record { path = take 63 path; bytes = []; size = 0; used = true } in
    let (m, g, eq, at, unused) = find_unused-lem files 0 k spare in
    let same : m ≡ k = omega arith in
    let at_k : get_elem? files k ≡ some g = subst (λ x. get_elem? files x ≡ some g) same at in
    let lt = lt_of_get_elem? files k g at_k in
    let whole : take 63 path ≡ path = take_all 63 path (ground arith) in
    (
      (new, get_elem?-set_self files k new lt, refl, whole),
      rw (abs, short, find_path-set path files 0 k new fresh lt refl whole)
          (ap (λ n. some (n, set files k new)) (omega arith)),
      λ j f at_j u.
          get_elem?-set_ne files k j new
            (λ e. differs g f unused u (some_inj (sym at_k ∙ ap (get_elem? files) e ∙ at_j)))
          ∙ at_j,
    )

-- Whenever `ramfs_open` gives an entry, that entry is in use for the path it was given, the same path
-- then gives that entry again and changes nothing, and every entry that was in use stays as it was.
pub ramfs_open-Opened :
    (path : List ℕ) (files : List RamfsFile) (i : ℕ) (files' : List RamfsFile)
    → ramfs_open path files ≡ some (i, files')
    → Opened path files (i, files')
unfolding ramfs_open
ramfs_open-Opened path files i files' e = elim (Bool-cases (is_absolute path)) [
  | inr rel ↦ absurd (ground arith)
  | inl abs ↦ elim (Bool-cases (leb path_max (length path))) [
    | inl long ↦ absurd (ground arith)
    | inr short ↦ elim (Option-cases (find_path path files 0)) [
      | inr (k, found) ↦
          subst (Opened path files) (some_inj (rw (abs, short, found) at e))
            (found-Opened path files k abs short found)
      | inl fresh ↦ elim (Option-cases (find_unused files 0)) [
        | inl full ↦ absurd (ground arith)
        | inr (k, spare) ↦
            subst (Opened path files) (some_inj (rw (abs, short, fresh, spare) at e))
              (fresh-Opened path files k abs short fresh spare)
      ]
    ]
  ]
]
