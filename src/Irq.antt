-- ===== src/Irq.antt =====
-- kernel/irq.c: the ring buffers of the keyboard (64 entries) and of the serial port (128), which an
-- interrupt fills and a reader empties. One entry stays unused, so that `head == tail` means empty. A
-- waiter that `sched_wake_one` wakes is counted in `wakes`. The bytes that the ports of a device return
-- during one interrupt, each port read at most once, are an argument.
pub mod Queue
pub mod Arrivals
mod Tests
use neptune_os.Common.{
  ◌==◌, if◌then◌else◌, add32, update, ℕ, ◌+◌, ◌%◌, Bool, not, ◌||◌, Option, none, some,
}

abbrev pub kb_buf_size : ℕ
kb_buf_size = 64

abbrev pub com_buf_size : ℕ
com_buf_size = 128

-- `kb_buf`, `kb_head` and `kb_tail`, or `com_buf`, `com_head` and `com_tail`.
pub record Ring : Type 0 where
  pub buf : ℕ → ℕ
  pub head : ℕ
  pub tail : ℕ

pub record Irq : Type 0 where
  pub kb : Ring
  pub serial : Ring
  pub wakes : ℕ

abbrev pub next_index : ℕ → ℕ → ℕ
next_index size i = add32 i 1 % size

-- The test at the head of each push, and the two assignments behind it.
unfoldable pub has_room : ℕ → Ring → Bool
has_room size r = not (next_index size r.head == r.tail)

unfoldable pub stored : ℕ → ℕ → Ring → Ring
stored size x r = record r { buf = update r.buf r.head x; head = next_index size r.head }

unfoldable pub kb_push : ℕ → Irq → Irq
unfolding has_room stored
kb_push sc s =
    if has_room kb_buf_size s.kb
    then record s { kb = stored kb_buf_size sc s.kb; wakes = s.wakes + 1 }
    else s

unfoldable pub irq_com_push : ℕ → Irq → Irq
unfolding has_room stored
irq_com_push ch s =
    if has_room com_buf_size s.serial
    then record s { serial = stored com_buf_size ch s.serial; wakes = s.wakes + 1 }
    else s

-- The body of each pop: the entry at the tail, and the ring without it.
unfoldable pub pop : ℕ → Ring → Option (ℕ × Ring)
pop size r =
    if r.tail == r.head
    then none
    else some (r.buf r.tail, record r { tail = next_index size r.tail })

unfoldable pub irq_kb_pop : Irq → Option ℕ × Irq
unfolding pop
irq_kb_pop s = elim (pop kb_buf_size s.kb) [
  | none ↦ (none, s)
  | some (sc, r) ↦ (some sc, record s { kb = r })
]

unfoldable pub irq_com_pop : Irq → Option ℕ × Irq
unfolding pop
irq_com_pop s = elim (pop com_buf_size s.serial) [
  | none ↦ (none, s)
  | some (ch, r) ↦ (some ch, record s { serial = r })
]

unfoldable pub irq_has_input : Irq → Bool
irq_has_input s = not (s.kb.head == s.kb.tail) || not (s.serial.head == s.serial.tail)

-- Interrupt 1 is the keyboard and 4 the serial port, with data at port 0x3F8 and status at 0x3FD.
unfoldable pub irq_dispatch : (ℕ → ℕ) → ℕ → Irq → Irq
unfolding kb_push irq_com_push
irq_dispatch inb irq s =
    if irq == 1
    then kb_push (inb 96) s
    else (if irq == 4 then (if inb 1021 % 2 == 1 then irq_com_push (inb 1016) s else s) else s)
