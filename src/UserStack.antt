-- ===== src/UserStack.antt =====
-- kernel/user.c: the first stack of a user program. `mem` has the bytes of physical memory. Pointers are not
-- null, a string is the list of its bytes without the zero at its end, and a list of strings ends where
-- the code finds a null pointer. After a failure, `none`, nothing of the stack is used.
pub mod Bytes
pub mod Pushes
pub mod Setup
pub mod Space
pub mod Mapping
pub mod Found
pub mod Vector
pub mod Words
mod Tests
use neptune_os.Common.{
  length, get_or, take, drop, ltb, leb, ◌==◌, if◌then◌else◌, add64, sub64, update, ℕ, zero, suc,
  ◌+◌, ◌-◌, ◌*◌, ◌/◌, ◌%◌, min, not, ◌||◌, Option, none, some, List, [], ◌∷◌, ◌++◌,
}

abbrev pub page_size : ℕ
page_size = 4096

abbrev pub user_arg_max : ℕ
user_arg_max = 8

abbrev pub user_env_max : ℕ
user_env_max = 8

pub record UserSpace : Type 0 where
  pub pml4_phys : ℕ
  pub entry : ℕ
  pub stack_top : ℕ
  pub stack_bottom : ℕ
  pub stack_pages : ℕ
  pub stack_phys : List ℕ

abbrev pub Bytes : Type 0
Bytes = ℕ → ℕ

-- The loop that copies within one page.
unfoldable pub copy_chunk : List ℕ → ℕ → Bytes → Bytes
copy_chunk [] dst mem = mem
copy_chunk (x ∷ xs) dst mem = copy_chunk xs (dst + 1) (update mem dst x)

-- The loop over the pages, from `offset` in the stack on. Each round writes a byte or more, so the bytes
-- to write are fuel enough.
unfoldable pub write_pages : ℕ → UserSpace → ℕ → List ℕ → Bytes → Option Bytes
unfolding copy_chunk
write_pages fuel space offset [] mem = some mem
write_pages zero space offset (x ∷ xs) mem = none
write_pages (suc fuel) space offset (x ∷ xs) mem =
    let page_off = offset % page_size in
    let chunk = min (page_size - page_off) (length (x ∷ xs)) in
    let phys = get_or space.stack_phys (offset / page_size) 0 in
    let rest =
      write_pages fuel space (offset + chunk) (drop chunk (x ∷ xs))
        (copy_chunk (take chunk (x ∷ xs)) (phys + page_off) mem) in
    if leb space.stack_pages (offset / page_size) then none else rest

unfoldable pub stack_write : UserSpace → ℕ → List ℕ → Bytes → Option Bytes
unfolding write_pages
stack_write space addr src mem =
    if length src == 0
    then none
    else (if ltb addr space.stack_bottom || ltb space.stack_top (add64 addr (length src))
        then none
        else write_pages (length src) space (addr - space.stack_bottom) src mem)

-- The new stack pointer, and the memory.
unfoldable pub push_bytes : UserSpace → ℕ → List ℕ → Bytes → Option (ℕ × Bytes)
unfolding stack_write
push_bytes space sp src mem =
    let sp' = sub64 sp (length src) in
    if length src == 0 || ltb sp (add64 space.stack_bottom (length src))
    then none
    else (elim (stack_write space sp' src mem) [ none ↦ none | some mem' ↦ some (sp', mem') ])

-- The `n` bytes of a number, the lowest first.
unfoldable pub le_bytes : ℕ → ℕ → List ℕ
le_bytes zero x = []
le_bytes (suc n) x = x % 256 ∷ le_bytes n (x / 256)

unfoldable pub push_u64 : UserSpace → ℕ → ℕ → Bytes → Option (ℕ × Bytes)
unfolding push_bytes le_bytes
push_u64 space sp value mem = push_bytes space sp (le_bytes 8 value) mem

unfoldable pub push_string : UserSpace → ℕ → List ℕ → Bytes → Option (ℕ × Bytes)
unfolding push_bytes
push_string space sp s mem = push_bytes space sp (s ++ 0 ∷ []) mem

-- The loop over the strings, in order, with their addresses.
unfoldable pub push_strings : UserSpace → ℕ → List (List ℕ) → Bytes → Option (List ℕ × ℕ × Bytes)
unfolding push_string
push_strings space sp [] mem = some ([], sp, mem)
push_strings space sp (s ∷ rest) mem = elim (push_string space sp s mem) [
  | none ↦ none
  | some (sp1, mem1) ↦ elim (push_strings space sp1 rest mem1) [
    | none ↦ none
    | some (addrs, sp2, mem2) ↦ some (sp1 ∷ addrs, sp2, mem2)
  ]
]

-- The loop over the addresses, from the last one down.
unfoldable pub push_down : UserSpace → ℕ → List ℕ → Bytes → Option (ℕ × Bytes)
unfolding push_u64
push_down space sp [] mem = some (sp, mem)
push_down space sp (a ∷ rest) mem = elim (push_down space sp rest mem) [
  | none ↦ none
  | some (sp1, mem1) ↦ push_u64 space sp1 a mem1
]

-- From the strings on: the words, the last one first.
unfoldable pub push_vectors : UserSpace → ℕ → List ℕ → List ℕ → Bytes → Option (ℕ × Bytes)
unfolding push_u64 push_down
push_vectors space sp args envs mem = elim (push_u64 space sp 0 mem) [
  | none ↦ none
  | some (sp1, mem1) ↦ elim (push_down space sp1 envs mem1) [
    | none ↦ none
    | some (sp2, mem2) ↦ elim (push_u64 space sp2 0 mem2) [
      | none ↦ none
      | some (sp3, mem3) ↦ elim (push_down space sp3 args mem3) [
        | none ↦ none
        | some (sp4, mem4) ↦ push_u64 space sp4 (length args) mem4
      ]
    ]
  ]
]

unfoldable pub user_stack_setup :
    UserSpace → List (List ℕ) → List (List ℕ) → Bytes → Option (ℕ × Bytes)
unfolding push_strings push_vectors
user_stack_setup space argv envp mem =
    if space.stack_pages == 0 || ltb user_arg_max (length argv) || ltb user_env_max (length envp)
    then none
    else (elim (push_strings space space.stack_top argv mem) [
      | none ↦ none
      | some (args, sp1, mem1) ↦ elim (push_strings space sp1 envp mem1) [
        | none ↦ none
        | some (envs, sp2, mem2) ↦ push_vectors space (sp2 / 16 * 16) args envs mem2
      ]
    ])
