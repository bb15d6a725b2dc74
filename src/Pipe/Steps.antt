-- ===== src/Pipe/Steps.antt =====
-- Any number of readers and writers on one pipe of kernel/pipe.c: their sections in any order.
use neptune_os.Common.{
  ◌==◌, if◌then◌else◌, Bool-cases, ℕ, ◌≡◌, refl, sym, ap, ◌∙◌, inl, inr, Bool, true, false, List,
  [], ◌∷◌, ◌++◌, append_assoc, arith,
}
use neptune_os.Pipe.{
  Pipe, fresh, write_loop, ReadOutcome, got, waits, read_section, write_section, close,
}
use neptune_os.Pipe.Fifo.{
  read_loop-contents, finish_lem, write_loop-contents, window, IsValid, contents, sent,
}

-- One section of some thread. A writer that waits comes back with `writes` and what it has left.
pub data Event : Type 0 where
  reads : ℕ → Event
  starts : List ℕ → Event
  writes : List ℕ → Event
  closes : Bool → Event

-- The pipe with all bytes that its writers have put in and all that its readers have taken out.
pub record Traffic : Type 0 where
  pub pipe : Pipe
  pub accepted : List ℕ
  pub delivered : List ℕ

pub bytes_of : ReadOutcome → List ℕ
bytes_of (got bytes) = bytes
bytes_of waits = []

pub write_event : List ℕ → Traffic → Traffic
write_event src t = record t {
  pipe = (write_section src t.pipe).1;
  accepted = t.accepted ++ sent src (write_loop t.pipe src).0;
}

unfoldable pub step : Event → Traffic → Traffic
unfolding bytes_of write_event
step (reads len) t =
    let (out, p) = read_section len t.pipe in
    record t { pipe = p; delivered = t.delivered ++ bytes_of out }
step (starts src) t = if t.pipe.readers == 0 then t else write_event src t
step (writes src) t = write_event src t
step (closes is_writer) t = record t { pipe = (close is_writer t.pipe).1 }

unfoldable pub run : List Event → Traffic → Traffic
run [] t = t
run (e ∷ es) t = run es (step e t)

-- The bytes that were delivered and those in the pipe are, in order, the bytes that were accepted.
pub record InOrder (t : Traffic) : Type 0 where
  pub valid : IsValid t.pipe
  pub order : t.delivered ++ contents t.pipe ≡ t.accepted

fresh-InOrder : InOrder (record { pipe = fresh; accepted = []; delivered = [] })
unfolding fresh contents window
fresh-InOrder = record { valid = omega arith; order = refl }

write_event-InOrder : (src : List ℕ) {t : Traffic} → InOrder t → InOrder (write_event src t)
unfolding write_event write_section
write_event-InOrder src {t} h =
    let c = write_loop-contents src h.valid in
    let left = (write_loop t.pipe src).0 in
    let q = (write_loop t.pipe src).1 in
    let same = (finish_lem left q c.2).0 in
    record {
      valid = rw same c.0;
      order = rw same (
          ap (λ l. t.delivered ++ l) c.1
          ∙ sym (append_assoc t.delivered (contents t.pipe) (sent src left))
          ∙ ap (λ l. l ++ sent src left) h.order);
    }

-- What a section of a read hands out, it takes from the front of the queue.
read_section-InOrder :
    (len : ℕ) {p : Pipe}
    → IsValid p
    → IsValid (read_section len p).1
      × (contents p ≡ bytes_of (read_section len p).0 ++ contents (read_section len p).1)
unfolding read_section bytes_of
read_section-InOrder len {p} v = elim (Bool-cases (p.used == 0)) [
  | inl e ↦ elim (Bool-cases (p.writers == 0)) [
    | inl z ↦ rw (e, z) (v, refl)
    | inr z ↦ rw (e, z) (v, refl)
  ]
  | inr ne ↦ rw ne ((read_loop-contents len v).0, (read_loop-contents len v).1)
]

step-InOrder : (e : Event) {t : Traffic} → InOrder t → InOrder (step e t)
unfolding step close contents
step-InOrder (reads len) {t} h =
    let r = read_section-InOrder len h.valid in
    let out = bytes_of (read_section len t.pipe).0 in
    record {
      valid = r.0;
      order =
          append_assoc t.delivered out (contents (read_section len t.pipe).1)
          ∙ ap (λ l. t.delivered ++ l) (sym r.1)
          ∙ h.order;
    }
step-InOrder (starts src) {t} h = elim (Bool-cases (t.pipe.readers == 0)) [
  | inl e ↦ rw e h
  | inr e ↦ rw e (write_event-InOrder src h)
]
step-InOrder (writes src) h = write_event-InOrder src h
step-InOrder (closes true) h = record { valid = omega arith; order = h.order }
step-InOrder (closes false) h = record { valid = omega arith; order = h.order }

-- Whatever order the sections of readers and writers come in, a pipe delivers the bytes that it
-- accepted, in the order in which it accepted them, and holds the rest: none is lost, repeated or
-- changed.
pub run-InOrder : (es : List Event) {t : Traffic} → InOrder t → InOrder (run es t)
unfolding run
run-InOrder [] h = h
run-InOrder (e ∷ es) h = run-InOrder es (step-InOrder e h)
