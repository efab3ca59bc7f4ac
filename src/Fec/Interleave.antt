-- ===== src/Fec/Interleave.antt =====
-- The matrix interleaver: `fec_interleave` and `fec_deinterleave` of src/fec.c. The array that is
-- written is the last argument.
pub mod Inverse
use echo_protocol.Base.{ℕ, ◌+◌, ◌*◌, List, set, for_up}
use echo_protocol.Fec.Rs.{at}

-- `out[c * nblocks + r] = blocks[r * block_size + c]`
unfoldable pub interleave_at : List ℕ → ℕ → ℕ → ℕ → ℕ → List ℕ → List ℕ
interleave_at blocks nblocks block_size c r out =
    set out (c * nblocks + r) (at blocks (r * block_size + c))

unfoldable pub fec_interleave : List ℕ → ℕ → ℕ → List ℕ → List ℕ
unfolding interleave_at
fec_interleave blocks nblocks block_size out =
    for_up block_size 0 (λ c out. for_up nblocks 0 (interleave_at blocks nblocks block_size c) out)
      out

-- `blocks[r * block_size + c] = in[c * nblocks + r]`
unfoldable pub deinterleave_at : List ℕ → ℕ → ℕ → ℕ → ℕ → List ℕ → List ℕ
deinterleave_at input nblocks block_size c r blocks =
    set blocks (r * block_size + c) (at input (c * nblocks + r))

unfoldable pub fec_deinterleave : List ℕ → ℕ → ℕ → List ℕ → List ℕ
unfolding deinterleave_at
fec_deinterleave input nblocks block_size blocks =
    for_up block_size 0
      (λ c blocks. for_up nblocks 0 (deinterleave_at input nblocks block_size c) blocks) blocks
