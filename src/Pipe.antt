-- ===== src/Pipe.antt =====
-- kernel/pipe.c: the byte pipe between two files. A function runs from one acquisition of the pipe's
-- lock to its release; where the source releases the lock, yields and takes it again, a call has the
-- outcome `waits`, and the caller's next section starts from whatever state the others have left.
pub mod Fifo
pub mod Steps
mod Tests
use neptune_os.Common.{
  ◌==◌, if◌then◌else◌, sub32, update, ℕ, zero, suc, ◌+◌, ◌-◌, ◌%◌, ◌<◌, Bool, ◌&&◌, List, [], ◌∷◌,
}

abbrev pub pipe_size : ℕ
pipe_size = 4096

-- `struct pipe` without its lock and its wait queues, which no function uses. The two `int` counters
-- are kept as their 32-bit patterns.
pub record Pipe : Type 0 where
  pub buffer : ℕ → ℕ
  pub read_pos : ℕ
  pub write_pos : ℕ
  pub used : ℕ
  pub readers : ℕ
  pub writers : ℕ

-- `pipe_alloc_struct`, when the heap gives it a zeroed block.
unfoldable pub fresh : Pipe
fresh = record { buffer = λ _. 0; read_pos = 0; write_pos = 0; used = 0; readers = 1; writers = 1 }

-- The assignments of one round of each copy loop.
pub take_byte : Pipe → Pipe
take_byte p = record p { read_pos = (p.read_pos + 1) % pipe_size; used = p.used - 1 }

pub put_byte : Pipe → ℕ → Pipe
put_byte p x = record p {
  buffer = update p.buffer p.write_pos x;
  write_pos = (p.write_pos + 1) % pipe_size;
  used = p.used + 1;
}

-- `while (read < len && p->used > 0)`, with `len - read` rounds left: the bytes copied out.
unfoldable pub read_loop : Pipe → ℕ → List ℕ × Pipe
read_loop p zero = ([], p)
read_loop p (suc left) =
    let rest = read_loop (take_byte p) left in
    if p.used == 0 then ([], p) else (p.buffer p.read_pos ∷ rest.0, rest.1)

-- `while (written < len && p->used < PIPE_SIZE)`: what is left of the source bytes.
unfoldable pub write_loop : Pipe → List ℕ → List ℕ × Pipe
write_loop p [] = ([], p)
write_loop p (x ∷ src) =
    let rest = write_loop (put_byte p x) src in if p.used == pipe_size then (x ∷ src, p) else rest

pub data ReadOutcome : Type 0 where
  got : List ℕ → ReadOutcome
  waits : ReadOutcome

-- One section of `pipe_read_impl`; end of file is `got []`.
unfoldable pub read_section : ℕ → Pipe → ReadOutcome × Pipe
read_section len p =
    if p.used == 0
    then (if p.writers == 0 then (got [], p) else (waits, p))
    else (let (out, p') = read_loop p len in (got out, p'))

-- `left` are the bytes that a waiting writer has still to write.
pub data WriteOutcome : Type 0 where
  wrote : WriteOutcome
  broken : WriteOutcome
  pending : List ℕ → WriteOutcome

-- The test at the head of the inner loop of `pipe_write_impl`.
pub full_check : List ℕ → Pipe → WriteOutcome × Pipe
full_check src p = if p.readers == 0 then (broken, p) else (pending src, p)

-- Where a section ends: at the outer loop's test, or at the inner loop's with a full pipe.
pub finish : List ℕ → Pipe → WriteOutcome × Pipe
finish [] p = (wrote, p)
finish (x ∷ left) p = full_check (x ∷ left) p

-- A section of `pipe_write_impl` after its first lines: from the outer loop's test until the lock is
-- released.
unfoldable pub write_section : List ℕ → Pipe → WriteOutcome × Pipe
write_section src p = let (left, p') = write_loop p src in finish left p'

-- The first section of a call: the pipe is broken if nobody can read from it.
unfoldable pub write_start : List ℕ → Pipe → WriteOutcome × Pipe
write_start src p = if p.readers == 0 then (broken, p) else write_section src p

-- `pipe_close_impl`, with whether it frees the pipe.
unfoldable pub close : Bool → Pipe → Bool × Pipe
close is_writer p =
    let p' =
      if is_writer
      then record p { writers = sub32 p.writers 1 }
      else record p { readers = sub32 p.readers 1 } in
    (p'.readers == 0 && p'.writers == 0, p')
