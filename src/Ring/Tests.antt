-- ===== src/Ring/Tests.antt =====
-- Runs of the bit ring.
use echo_protocol.Base.{◌≡◌, ◌%◌, ◌⊎◌, refl, arith, some, List, [], ◌∷◌, ◌++◌}
use echo_protocol.Ring.{Buffer, put_bits, get_bits}
use echo_protocol.Ring.Inv.{IsValid, IsFull}
use echo_protocol.Ring.Refine.{contents, dequeue, put_bits_refines, get_bits_refines}
use echo_protocol.Ring.Fifo.{Op, put, get, AllOps, run, run_fifo}
use echo_protocol.Ring.Race.{put_around_get, race_loses_bit}

abbrev empty : Buffer
empty = record { buf = λ j. 0; head = 0; tail = 0; count_put = 0; count_get = 0 }

-- The reader has taken the 8 bits of the last byte of the array.
abbrev caught_up : Buffer
caught_up = record { buf = λ j. 77; head = 16383; tail = 16383; count_put = 8; count_get = 8 }

empty-IsValid : IsValid empty
empty-IsValid = ground arith

caught_up-IsValid : IsValid caught_up
caught_up-IsValid = ground arith

abbrev calls : List Op
calls = put 1 ∷ get ∷ get ∷ put 0 ∷ put 1 ∷ get ∷ []

-- The bits come out in the order in which they are put.
reads : (run empty calls).got ≡ 1 ∷ 0 ∷ []
unfolding run put_bits get_bits
reads = refl

calls-AllOps : AllOps calls
calls-AllOps = ground arith

run_fifo_example :
    contents empty ++ (run empty calls).accepted
    ≡ (run empty calls).got ++ contents (run empty calls).ring
run_fifo_example = run_fifo calls empty-IsValid calls-AllOps

get_bits_refines_example :
    ((get_bits caught_up).1, contents (get_bits caught_up).0) ≡ dequeue (contents caught_up)
get_bits_refines_example = get_bits_refines caught_up-IsValid

put_bits_refines_example :
    (((put_bits caught_up 1).1 ≡ 1)
      × (contents (put_bits caught_up 1).0 ≡ contents caught_up ++ (1 ∷ [])))
    ⊎ (((put_bits caught_up 1).1 ≡ 0) × ((put_bits caught_up 1).0 ≡ caught_up) × IsFull caught_up)
put_bits_refines_example = put_bits_refines 1 (omega arith) caught_up-IsValid

has_room : ¬ (IsFull caught_up)
has_room e = omega (arith, e)

race_loses_bit_example :
    ((put_around_get caught_up 0).1 ≡ some (77 % 2))
    × (contents (put_around_get caught_up 0).0 ≡ [])
race_loses_bit_example = race_loses_bit 0 caught_up-IsValid has_room refl refl
