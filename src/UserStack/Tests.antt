-- ===== src/UserStack/Tests.antt =====
-- A stack of one page, with one argument and one string of the environment.
use neptune_os.Common.{
  replicate, ltb, ltb→lt, lt→ltb, ge→ltb, ℕ, suc, ◌*◌, ◌≤◌, ◌≡◌, refl, Bool, none, some, List, [],
  ◌∷◌, ◌++◌, arith,
}
use neptune_os.UserStack.Bytes.{Sound}
use neptune_os.UserStack.Setup.{user_stack_setup-Stack}
use neptune_os.UserStack.Words.{Points, Words}
use neptune_os.UserStack.{user_stack_setup, Bytes, UserSpace}
use neptune_os.UserStack.Found.{FoundAt, user_space_map_stack-Sound}
use neptune_os.UserStack.Space.{user_space_map_stack}
use neptune_os.Mmu.{Paging}
use neptune_os.Mmu.Grow.{Alloc}
use neptune_os.Mmu.Root.{lone, lone-Tree, lone-root}

abbrev one_page : UserSpace
one_page = record {
  pml4_phys = 65536;
  entry = 0x400000;
  stack_top = 0x7FFFFFF000;
  stack_bottom = 0x7FFFFFE000;
  stack_pages = 1;
  stack_phys = 0x200000 ∷ [];
}

one_page-Sound : Sound one_page
one_page-Sound = record {
  whole = refl;
  low = omega arith;
  apart = λ i j hi hj ne. absurd (ne (omega arith));
}

abbrev blank : Bytes
blank = λ a. 0

-- "hi" and "A=b".
abbrev args : List (List ℕ)
args = (104 ∷ 105 ∷ []) ∷ []

abbrev envs : List (List ℕ)
envs = (65 ∷ 61 ∷ 98 ∷ []) ∷ []

abbrev built : ℕ × Bytes
built = elim (user_stack_setup one_page args envs blank) [ none ↦ (0, blank) | some r ↦ r ]

built_test : user_stack_setup one_page args envs blank ≡ some built
unfolding user_stack_setup
built_test = refl

user_stack_setup-Stack_example :
    (ptrs others : List ℕ) × Words one_page built.1 built.0
      (1 ∷ (ptrs ++ (0 ∷ (others ++ (0 ∷ [])))))
    × Points one_page built.1 built.0 ptrs args
    × Points one_page built.1 built.0 others envs
    × (one_page.stack_bottom ≤ built.0)
user_stack_setup-Stack_example =
    user_stack_setup-Stack one_page-Sound args envs blank built.0 built.1 (omega arith, tt)
      (omega arith, tt) refl built_test

-- An allocator that hands out the pages in turn, after the page 16 has been taken for the root.
abbrev next_page : ℕ → ℕ × ℕ
next_page n = (n * 4096, suc n)

abbrev handed_out : ℕ → ℕ → Bool
handed_out n p = ltb p (n * 4096)

next_page-Alloc : Alloc next_page handed_out (λ n. 8)
next_page-Alloc = record {
  fresh = λ s h. ge→ltb (s * 4096) (s * 4096) (omega arith);
  takes = λ s h. lt→ltb (s * 4096) (suc s * 4096) (omega arith);
  whole = λ s h. omega arith;
  keeps = λ s p h. lt→ltb p (suc s * 4096) (omega (arith, ltb→lt p (s * 4096) h));
  lasts = λ s. omega arith;
}

abbrev started : Paging ℕ
started = record { mem = λ a. 0; env = 17 }

abbrev no_stack : UserSpace
no_stack = record {
  pml4_phys = 65536;
  entry = 0x400000;
  stack_top = 0x7FFFFFF000;
  stack_bottom = 0x7FFFFFF000;
  stack_pages = 0;
  stack_phys = replicate 4 0;
}

-- The stack of two pages: their frames, and the tables and the allocator afterwards.
abbrev mapped : Paging ℕ
mapped = (user_space_map_stack next_page no_stack 2 started).1

abbrev two_pages : UserSpace
two_pages = record {
  pml4_phys = 65536;
  entry = 0x400000;
  stack_top = 0x7FFFFFF000;
  stack_bottom = 0x7FFFFFD000;
  stack_pages = 2;
  stack_phys = 69632 ∷ 86016 ∷ 0 ∷ 0 ∷ [];
}

mapped_test : user_space_map_stack next_page no_stack 2 started ≡ (some two_pages, mapped)
unfolding user_space_map_stack neptune_os.Mmu.zero_page neptune_os.Mmu.zero_words
mapped_test = refl

user_space_map_stack-Sound_example :
    Sound two_pages × FoundAt two_pages mapped.mem 65536 0x7FFFFFE010
user_space_map_stack-Sound_example =
    user_space_map_stack-Sound next_page handed_out (λ n. 8) next_page-Alloc no_stack 2 started
      (lone 65536) (lone-Tree 65536 refl refl (λ i h. refl)) (lone-root 65536) refl (omega arith)
      two_pages mapped mapped_test 0x7FFFFFE010 (omega arith) (omega arith)
