-- ===== src/Irq/Arrivals.antt =====
-- Any sequence of interrupts and reads on the rings of kernel/irq.c.
use neptune_os.Common.{
  length, ltb, ◌==◌, if◌then◌else◌, Bool-cases, Option-cases, ℕ, ◌+◌, ◌%◌, ◌≡◌, refl, sym, ap, ◌∙◌,
  ◌↔◌, inl, inr, Bool, true, false, ◌&&◌, Option, none, some, List, [], ◌∷◌, ◌++◌, append-nil,
  append_assoc, arith,
}
use neptune_os.Irq.{
  irq_has_input, pop, kb_buf_size, com_buf_size, Ring, Irq, has_room, stored, kb_push, irq_com_push,
  irq_kb_pop, irq_com_pop, irq_dispatch,
}
use neptune_os.Irq.Queue.{
  length-contents, used, pop-contents, contents, IsValid, stored-IsValid, has_room-contents,
  contents-stored,
}

pub data Event : Type 0 where
  interrupt : (ℕ → ℕ) → ℕ → Event
  kb_reads : Event
  serial_reads : Event

-- The bytes that a device has sent and that found room, and the bytes that were read from it.
pub record Line : Type 0 where
  pub taken : List ℕ
  pub read : List ℕ

pub record Traffic : Type 0 where
  pub irq : Irq
  pub kb : Line
  pub serial : Line

-- A byte that is ready is taken if the queue is not full, which it is with one byte less than its size.
pub arrives : ℕ → Ring → Bool → ℕ → List ℕ
arrives size r ready x = if ready && ltb (length (contents size r) + 1) size then x ∷ [] else []

pub bytes_of : Option ℕ → List ℕ
bytes_of none = []
bytes_of (some x) = x ∷ []

unfoldable pub handle : Event → Traffic → Traffic
unfolding arrives bytes_of
handle (interrupt inb n) t = record {
  irq = irq_dispatch inb n t.irq;
  kb = record t.kb { taken = t.kb.taken ++ arrives kb_buf_size t.irq.kb (n == 1) (inb 96) };
  serial = record t.serial {
    taken =
        t.serial.taken
        ++ arrives com_buf_size t.irq.serial (n == 4 && inb 1021 % 2 == 1) (inb 1016);
  };
}
handle kb_reads t =
    let (x, s) = irq_kb_pop t.irq in
    record t { irq = s; kb = record t.kb { read = t.kb.read ++ bytes_of x } }
handle serial_reads t =
    let (x, s) = irq_com_pop t.irq in
    record t { irq = s; serial = record t.serial { read = t.serial.read ++ bytes_of x } }

unfoldable pub handle_all : List Event → Traffic → Traffic
handle_all [] t = t
handle_all (e ∷ es) t = handle_all es (handle e t)

-- What was read and what is in the ring is, in order, what was taken.
pub record Fifo (size : ℕ) (r : Ring) (line : Line) : Type 0 where
  pub valid : IsValid size r
  pub order : line.read ++ contents size r ≡ line.taken

pub record IsFifo (t : Traffic) : Type 0 where
  pub kb_fifo : Fifo kb_buf_size t.irq.kb t.kb
  pub serial_fifo : Fifo com_buf_size t.irq.serial t.serial

-- A ring after a byte has come in, ready or not.
push_ring : ℕ → Ring → Bool → ℕ → Ring
push_ring size r ready x = if ready && has_room size r then stored size x r else r

push-Fifo :
    (size : ℕ) (r : Ring) (line : Line) (ready : Bool) (x : ℕ)
    → Fifo size r line
    → Fifo size
        (push_ring size r ready x)
        (record line { taken = line.taken ++ arrives size r ready x })
unfolding push_ring arrives
push-Fifo size r line false x f = record {
  valid = f.valid;
  order = f.order ∙ sym (append-nil line.taken);
}
push-Fifo size r line true x f = elim (Bool-cases (has_room size r)) [
  | inl room ↦
      let fits : ltb (length (contents size r) + 1) size ≡ true =
        sym (has_room-contents f.valid) ∙ room in
      rw (room, fits)
        (record {
          valid = stored-IsValid f.valid x;
          order =
              ap (λ l. line.read ++ l) (contents-stored f.valid x room)
              ∙ sym (append_assoc line.read (contents size r) (x ∷ []))
              ∙ ap (λ l. l ++ x ∷ []) f.order;
        })
  | inr full ↦
      let over : ltb (length (contents size r) + 1) size ≡ false =
        sym (has_room-contents f.valid) ∙ full in
      rw (full, over) (record { valid = f.valid; order = f.order ∙ sym (append-nil line.taken) })
]

kb-dispatch :
    (inb : ℕ → ℕ) (n : ℕ) (s : Irq)
    → (irq_dispatch inb n s).kb ≡ push_ring kb_buf_size s.kb (n == 1) (inb 96)
unfolding irq_dispatch kb_push irq_com_push push_ring
kb-dispatch inb n s = ground arith

serial-dispatch :
    (inb : ℕ → ℕ) (n : ℕ) (s : Irq)
    → (irq_dispatch inb n s).serial
      ≡ push_ring com_buf_size s.serial (n == 4 && inb 1021 % 2 == 1) (inb 1016)
unfolding irq_dispatch kb_push irq_com_push push_ring
serial-dispatch inb n s = ground arith

-- The ring and the byte after a pop.
popped : ℕ → Ring → Option ℕ × Ring
popped size r = elim (pop size r) [ none ↦ (none, r) | some (x, r') ↦ (some x, r') ]

popped-Fifo :
    (size : ℕ) (r : Ring) (line : Line)
    → Fifo size r line
    → Fifo size (popped size r).1 (record line { read = line.read ++ bytes_of (popped size r).0 })
unfolding popped bytes_of
popped-Fifo size r line f = elim (pop-contents f.valid) [
  | inl (e, empty) ↦
      rw (e, popped)
        (record {
          valid = f.valid;
          order = ap (λ l. l ++ contents size r) (append-nil line.read) ∙ f.order;
        })
  | inr (x, r', e, v, taken) ↦
      rw (e, popped)
        (record {
          valid = v;
          order =
              append_assoc line.read (x ∷ []) (contents size r')
              ∙ ap (λ l. line.read ++ l) (sym taken)
              ∙ f.order;
        })
]

kb-pop :
    (s : Irq)
    → irq_kb_pop s ≡ ((popped kb_buf_size s.kb).0, record s { kb = (popped kb_buf_size s.kb).1 })
unfolding irq_kb_pop popped
kb-pop s = elim (Option-cases (pop kb_buf_size s.kb)) [
  | inl e ↦ rw (e, irq_kb_pop, popped) refl
  | inr (r, e) ↦ rw (e, irq_kb_pop, popped) refl
]

serial-pop :
    (s : Irq)
    → irq_com_pop s
      ≡ ((popped com_buf_size s.serial).0, record s { serial = (popped com_buf_size s.serial).1 })
unfolding irq_com_pop popped
serial-pop s = elim (Option-cases (pop com_buf_size s.serial)) [
  | inl e ↦ rw (e, irq_com_pop, popped) refl
  | inr (r, e) ↦ rw (e, irq_com_pop, popped) refl
]

handle-IsFifo : (e : Event) {t : Traffic} → IsFifo t → IsFifo (handle e t)
unfolding handle
handle-IsFifo (interrupt inb n) {t} f = record {
  kb_fifo =
      rw (kb-dispatch inb n t.irq)
        (push-Fifo kb_buf_size t.irq.kb t.kb (n == 1) (inb 96) f.kb_fifo);
  serial_fifo = rw (serial-dispatch inb n t.irq) (
      push-Fifo com_buf_size t.irq.serial t.serial (n == 4 && inb 1021 % 2 == 1) (inb 1016)
        f.serial_fifo);
}
handle-IsFifo kb_reads {t} f = rw (kb-pop t.irq) (record {
  kb_fifo = popped-Fifo kb_buf_size t.irq.kb t.kb f.kb_fifo;
  serial_fifo = f.serial_fifo;
})
handle-IsFifo serial_reads {t} f = rw (serial-pop t.irq) (record {
  kb_fifo = f.kb_fifo;
  serial_fifo = popped-Fifo com_buf_size t.irq.serial t.serial f.serial_fifo;
})

-- Through any sequence of interrupts and reads, what each reader has got and what is still in its ring
-- is, in order, what the device has sent, less only the bytes that found the ring full.
pub handle_all-IsFifo : (es : List Event) {t : Traffic} → IsFifo t → IsFifo (handle_all es t)
unfolding handle_all
handle_all-IsFifo [] f = f
handle_all-IsFifo (e ∷ es) f = handle_all-IsFifo es (handle-IsFifo e f)

-- With valid rings, `irq_has_input` is false exactly when both queues are empty, so a sleeping reader
-- waits only while there is nothing to read.
pub irq_has_input-contents :
    (s : Irq)
    → IsValid kb_buf_size s.kb
    → IsValid com_buf_size s.serial
    → (irq_has_input s ≡ false)
      ↔ ((length (contents kb_buf_size s.kb) ≡ 0) × (length (contents com_buf_size s.serial) ≡ 0))
unfolding irq_has_input used
irq_has_input-contents s k c =
    rw (length-contents kb_buf_size s.kb, length-contents com_buf_size s.serial)
      (
        λ h. (ground (arith, h, k.head_in, k.tail_in), ground (arith, h, c.head_in, c.tail_in)),
        λ h. ground (arith, h.0, h.1, k.head_in, k.tail_in, c.head_in, c.tail_in),
      )
