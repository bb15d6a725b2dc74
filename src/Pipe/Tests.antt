-- ===== src/Pipe/Tests.antt =====
-- The pipe of kernel/pipe.c on a few bytes.
use neptune_os.Common.{◌≡◌, refl, true, List, [], ◌∷◌, arith}
use neptune_os.Pipe.{
  finish, put_byte, take_byte, close, Pipe, fresh, read_section, write_section, write_loop,
  read_loop,
}
use neptune_os.Pipe.Fifo.{IsValid, contents, window}
use neptune_os.Pipe.Steps.{Event, reads, starts, closes, Traffic, step, run, InOrder, run-InOrder}

abbrev start : Traffic
start = record { pipe = fresh; accepted = []; delivered = [] }

abbrev script : List Event
script = reads 4 ∷ starts (1 ∷ 2 ∷ 3 ∷ []) ∷ reads 2 ∷ closes true ∷ reads 5 ∷ reads 5 ∷ []

start-InOrder : InOrder start
unfolding fresh contents window
start-InOrder = record { valid = omega arith; order = refl }

script_delivers : (run script start).delivered ≡ 1 ∷ 2 ∷ 3 ∷ []
unfolding run step read_section write_section read_loop write_loop fresh finish put_byte take_byte
    close
script_delivers = refl

-- The pipe after the three bytes were written.
abbrev three : Pipe
three = (run (starts (1 ∷ 2 ∷ 3 ∷ []) ∷ []) start).pipe

three-IsValid : IsValid three
three-IsValid = (run-InOrder (starts (1 ∷ 2 ∷ 3 ∷ []) ∷ []) start-InOrder).valid

run-InOrder_example : InOrder (run script start)
run-InOrder_example = run-InOrder script start-InOrder
