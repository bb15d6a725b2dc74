-- ===== src/Paths/Tests.antt =====
-- Paths of kernel/syscall.c and kernel/vfs.c.
use neptune_os.Common.{length, ℕ, ◌<◌, ◌≡◌, refl, true, none, some, List, [], ◌∷◌, arith}
use neptune_os.Paths.{segments, normalize_path, vfs_normalize_path}
use neptune_os.Paths.Stack.{resolve, Shows}
use neptune_os.Paths.Resolve.{normalize_path-Shows, normalize_path-returns}

-- `/ab/../c/.`
abbrev path : List ℕ
path = 47 ∷ 97 ∷ 98 ∷ 47 ∷ 46 ∷ 46 ∷ 47 ∷ 99 ∷ 47 ∷ 46 ∷ []

-- `/c`, its last character first.
abbrev out : List ℕ
out = 99 ∷ 47 ∷ []

path_test : normalize_path 128 path ≡ some out
unfolding normalize_path
path_test = refl

vfs_test : vfs_normalize_path 128 (47 ∷ 47 ∷ 97 ∷ 47 ∷ []) ≡ some (97 ∷ 47 ∷ [], true)
unfolding vfs_normalize_path
vfs_test = refl

small_test : normalize_path 3 (97 ∷ 98 ∷ []) ≡ none
unfolding normalize_path
small_test = refl

normalize_path-Shows_example : Shows out (resolve (segments path) []) × (length out < 128)
normalize_path-Shows_example = normalize_path-Shows 128 path out path_test

normalize_path-returns_example : (o : List ℕ) × (normalize_path 128 path ≡ some o)
normalize_path-returns_example = normalize_path-returns 128 path (omega arith)
