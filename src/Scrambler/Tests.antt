-- ===== src/Scrambler/Tests.antt =====
-- Runs of src/scrambler.c.
use echo_protocol.Base.{ℕ, ◌≡◌, ◌≢◌, refl, arith, List, [], ◌∷◌, replicate}
use echo_protocol.Scrambler.{Scrambler, scrambler_process}
use echo_protocol.Scrambler.Stream.{scramble, scramble_undo, scramble_garbles}

abbrev fresh : Scrambler
fresh = record { state = 1 }

abbrev other : Scrambler
other = record { state = 0x10800 }

abbrev bits : List ℕ
bits = 1 ∷ 0 ∷ 0 ∷ 1 ∷ 0 ∷ 0 ∷ 1 ∷ 1 ∷ 0 ∷ 0 ∷ 0 ∷ 0 ∷ 1 ∷ 0 ∷ 1 ∷ 1 ∷ 0 ∷ []

-- A stream of zeros comes out as the low bits of the register.
zeros : (scramble fresh (replicate 13 0)).1 ≡ 0 ∷ 0 ∷ 0 ∷ 0 ∷ 0 ∷ 0 ∷ 0 ∷ 0 ∷ 0 ∷ 0 ∷ 0 ∷ 1 ∷ 0 ∷ []
unfolding scramble scrambler_process
zeros = refl

scramble_undo_example :
    ((scramble fresh (scramble fresh bits).1).1 ≡ bits)
    × ((scramble fresh (scramble fresh bits).1).0 ≡ (scramble fresh bits).0)
scramble_undo_example = scramble_undo fresh bits

apart : fresh.state ≢ other.state
apart e = omega arith

scramble_garbles_example : (scramble other (scramble fresh bits).1).1 ≢ bits
scramble_garbles_example = scramble_garbles bits fresh other refl (omega arith) (omega arith) apart
