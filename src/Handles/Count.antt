-- ===== src/Handles/Count.antt =====
-- How many descriptors hold a handle (kernel/syscall.c, kernel/sched.c), and the invariant that a handle
-- counts them.
use neptune_os.Common.{
  length, get_elem?, get_or, set, ◌==◌, if◌then◌else◌, ℕ, zero, suc, ◌+◌, ◌<◌, ◌≡◌, true, false,
  Option, none, some, List, [], ◌∷◌, arith,
}
use neptune_os.Handles.{Handle, Fds, Files, is_free, handle_max}

-- 1 if the descriptor holds handle `g`.
abbrev pub hit : ℕ → Option ℕ → ℕ
hit g none = 0
hit g (some k) = if k == g then 1 else 0

unfoldable pub count : ℕ → Fds → ℕ
count g [] = 0
count g (fd ∷ fds) = hit g fd + count g fds

unfoldable pub count_all : ℕ → List Fds → ℕ
count_all g [] = 0
count_all g (fds ∷ rest) = count g fds + count_all g rest

-- All descriptors of all threads that hold handle `g`.
unfoldable pub holders : ℕ → Files → ℕ
holders g s = count g s.fds + count_all g s.others

pub count-set :
    (g : ℕ) (fds : Fds) (i : ℕ) (v : Option ℕ)
    → i < length fds
    → count g (set fds i v) + hit g (get_or fds i none) ≡ count g fds + hit g v
unfolding count
count-set g [] i v h = absurd (omega arith)
count-set g (fd ∷ fds) zero v h = omega arith
count-set g (fd ∷ fds) (suc i) v h = omega (arith, count-set g fds i v (omega arith))

-- A handle that is free has no holder, and any other counts its holders and `extra` references that no
-- descriptor holds.
abbrev pub CountOk : ℕ → Handle → Type 0
CountOk n h =
    (is_free h.type ≡ true → n ≡ 0) × (is_free h.type ≡ false → (h.refcount ≡ n) × (0 < n))

pub record CountedWith (extra : ℕ → ℕ) (s : Files) : Type 0 where
  pub entries : length s.handles ≡ handle_max
  pub slots : length s.fds ≡ 16
  pub counts :
      (g : ℕ) (h : Handle) → get_elem? s.handles g ≡ some h → CountOk (holders g s + extra g) h

-- Every handle counts exactly the descriptors that hold it.
abbrev pub Counted : Files → Type 0
Counted s = CountedWith (λ _. 0) s
