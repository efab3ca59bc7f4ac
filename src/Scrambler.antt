-- ===== src/Scrambler.antt =====
-- include/scrambler.h and src/scrambler.c. A function that updates `*s` returns the new state.
pub mod Stream
mod Tests
use echo_protocol.Base.{ℕ, ◌-◌, bit_and, bit_or, bit_xor, u32, ◌<<◌, ◌>>◌}

abbrev pub scrambler_state_bits : ℕ
scrambler_state_bits = 17

pub record Scrambler : Type 0 where
  pub state : ℕ

unfoldable pub scrambler_init : Scrambler → Scrambler
scrambler_init s = record s { state = 1 }

unfoldable pub scrambler_reset : Scrambler → Scrambler
scrambler_reset s = record s { state = 1 }

-- The feedback of taps 17 and 12.
unfoldable pub feedback : ℕ → ℕ
feedback state = bit_xor (bit_and (state >> 16) 1) (bit_and (state >> 11) 1)

-- `scrambler_process`: the new state, and the bit that it returns.
unfoldable pub scrambler_process : Scrambler → ℕ → Scrambler × ℕ
unfolding feedback
scrambler_process s bit =
    let state =
      bit_and (bit_or (u32 (s.state << 1)) (feedback s.state)) (1 << scrambler_state_bits - 1) in
    (record s { state = state }, bit_xor bit (bit_and state 1))
