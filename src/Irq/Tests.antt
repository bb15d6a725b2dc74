-- ===== src/Irq/Tests.antt =====
-- Runs of kernel/irq.c on small rings.
use neptune_os.Common.{◌==◌, if◌then◌else◌, ℕ, ◌≡◌, refl, List, [], ◌∷◌, arith}
use neptune_os.Irq.{irq_dispatch, irq_kb_pop, Ring, Irq}
use neptune_os.Irq.Queue.{contents, used, window}
use neptune_os.Irq.Arrivals.{
  handle, Event, interrupt, kb_reads, Traffic, IsFifo, handle_all, handle_all-IsFifo,
}

abbrev empty_ring : Ring
empty_ring = record { buf = λ _. 0; head = 0; tail = 0 }

abbrev idle : Irq
idle = record { kb = empty_ring; serial = empty_ring; wakes = 0 }

abbrev start : Traffic
start = record {
  irq = idle;
  kb = record { taken = []; read = [] };
  serial = record { taken = []; read = [] };
}

start-IsFifo : IsFifo start
unfolding contents used window
start-IsFifo = record {
  kb_fifo = record {
    valid = record { small = omega arith; head_in = omega arith; tail_in = omega arith };
    order = refl;
  };
  serial_fifo = record {
    valid = record { small = omega arith; head_in = omega arith; tail_in = omega arith };
    order = refl;
  };
}

-- Two keys and a serial byte come in; the first key is read.
abbrev ports : ℕ → ℕ
ports p = if p == 96 then 30 else 65

abbrev busy : List Event
busy = interrupt ports 1 ∷ interrupt ports 4 ∷ interrupt (λ _. 48) 1 ∷ kb_reads ∷ []

busy_test : (handle_all busy start).kb.read ≡ 30 ∷ []
unfolding handle_all handle irq_kb_pop irq_dispatch
busy_test = refl

handle_all-IsFifo_example : IsFifo (handle_all busy start)
handle_all-IsFifo_example = handle_all-IsFifo busy start-IsFifo
