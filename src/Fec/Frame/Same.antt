-- ===== src/Fec/Frame/Same.antt =====
-- `fec_decode` depends on the tables only through what `gf_init` makes of them.
use echo_protocol.Base.{ℕ, zero, suc, ◌+◌, ◌≡◌, refl, ap, ◌∙◌, Bool}
use echo_protocol.Base.{List, [], Option, some, none, for_up}
use echo_protocol.Fec.Gf.{Gf, gf_init}
use echo_protocol.Fec.Frame.{fec_decode, decode_block_round}

-- The code is taken off in the same way by every program whose tables are reached.
round_same :
    (g g' : Gf) (blocks : List ℕ) (n r : ℕ) (acc : Option (List ℕ))
    → gf_init g ≡ gf_init g'
    → decode_block_round g blocks n r acc ≡ decode_block_round g' blocks n r acc
unfolding decode_block_round
round_same g g' blocks n r none e = refl
round_same g g' blocks n r (some out) e = rw e refl

rounds_same :
    (g g' : Gf) (blocks : List ℕ) (n k r : ℕ) (acc : Option (List ℕ))
    → gf_init g ≡ gf_init g'
    → for_up k r (decode_block_round g blocks n) acc
      ≡ for_up k r (decode_block_round g' blocks n) acc
unfolding for_up
rounds_same g g' blocks n zero r acc e = refl
rounds_same g g' blocks n (suc k) r acc e =
    ap (for_up k (r + 1) (decode_block_round g blocks n)) (round_same g g' blocks n r acc e)
    ∙ rounds_same g g' blocks n k (r + 1) (decode_block_round g' blocks n r acc) e

pub decode_same :
    (g g' : Gf) (memory : Bool) (input : List ℕ) (n room : ℕ)
    → gf_init g ≡ gf_init g'
    → fec_decode g memory input n room ≡ fec_decode g' memory input n room
unfolding fec_decode
decode_same g g' memory input n room e = rw (e, rounds_same g g' _ _ _ 0 (some []) e) refl
