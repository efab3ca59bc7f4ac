-- ===== src/Fec/Tests.antt =====
-- Runs of src/fec.c.
use echo_protocol.Base.{ℕ, ◌≡◌, ◌<◌, ◌≤◌, ◌+◌, ◌*◌, refl, arith, none, some, List, [], ◌∷◌}
use echo_protocol.Base.{true, length, set, replicate, inl, zero, suc}
use echo_protocol.Base.{get_or-replicate, for_up, for_down}
use echo_protocol.Fec.Gf.{zeroed, gf_init, gf_mul, gf_inv, gf_pow}
use echo_protocol.Fec.Gf.Tables.{tables}
use echo_protocol.Fec.Gf.Field.{IsField, tables-IsField, gf_init-IsField}
use echo_protocol.Fec.Rs.{at, local_msg, rs_encode_block, rs_decode_block, rs_generator_poly}
use echo_protocol.Fec.Rs.Eval.{Bytes}
use echo_protocol.Fec.Rs.Generator.{IsGenerator, rs_generator_poly-IsGenerator}
use echo_protocol.Fec.Rs.Systematic.{rs_decode-encode}
use echo_protocol.Fec.Length.{fec_ecc_bytes, fec_encoded_len, block_count}
use echo_protocol.Fec.Interleave.{fec_interleave, fec_deinterleave}
use echo_protocol.Fec.Interleave.Inverse.{deinterleave-interleave}
use echo_protocol.Fec.Frame.{fec_encode, fec_decode}
use echo_protocol.Fec.Frame.Roundtrip.{fec_decode-encode}
use echo_protocol.Fec.Crc.{fec_crc32}

abbrev word : List ℕ
word = 0x31 ∷ 0x32 ∷ 0x33 ∷ 0x34 ∷ 0x35 ∷ 0x36 ∷ 0x37 ∷ 0x38 ∷ 0x39 ∷ []

word-Bytes : Bytes (at word)
word-Bytes j = ground arith

-- The check value of CRC-32.
crc32_check : fec_crc32 word ≡ 0xCBF43926
unfolding fec_crc32
crc32_check = refl

abbrev coded : List ℕ
coded = rs_encode_block tables word 9 4

-- Two wrong bytes of thirteen are corrected, when the parity is four bytes.
two_errors : rs_decode_block tables (set (set coded 2 0) 11 0xFF) 13 9 ≡ some word
unfolding rs_decode_block rs_encode_block local_msg rs_generator_poly tables gf_mul for_down gf_inv
    gf_pow
two_errors = refl

-- A third is noticed.
three_errors : rs_decode_block tables (set (set (set coded 2 0) 11 0xFF) 5 1) 13 9 ≡ none
unfolding rs_decode_block rs_encode_block local_msg rs_generator_poly tables gf_mul for_down gf_inv
three_errors = refl

-- The header of a packet and 200 bytes: two blocks.
abbrev packet : List ℕ
packet = 0x45 ∷ 0x00 ∷ 0xCC ∷ replicate 200 0

packet-Bytes : Bytes (at packet)
packet-Bytes zero = omega arith
packet-Bytes (suc zero) = omega arith
packet-Bytes (suc (suc zero)) = omega arith
packet-Bytes (suc (suc (suc j))) = rw (get_or-replicate {A = ℕ} 200 0 j) (omega arith)

parity_fits : length packet + 2 + fec_ecc_bytes (length packet) ≤ 600
unfolding fec_ecc_bytes
parity_fits = omega arith

room : 183 < length packet → block_count (length packet) * 255 + 2 ≤ 600
room h = omega arith

fec_decode-encode_example :
    (code : List ℕ) × (fec_encode zeroed true packet (length packet) 600 ≡ some code)
    × (some (length code) ≡ fec_encoded_len (length packet))
    × (fec_decode zeroed true code (length code) 2048 ≡ some packet)
fec_decode-encode_example =
    fec_decode-encode packet 600 2048 (inl refl) packet-Bytes (omega arith) (omega arith)
      parity_fits room (omega arith)

rs_decode-encode_example : rs_decode_block tables (rs_encode_block tables word 9 4) 13 9 ≡ some word
rs_decode-encode_example =
    rs_decode-encode tables-IsField word 9 4 (omega arith) word-Bytes (omega arith) (omega arith)
      (omega arith)

rs_generator_poly-IsGenerator_example : IsGenerator tables 32 (rs_generator_poly tables 32)
rs_generator_poly-IsGenerator_example =
    rs_generator_poly-IsGenerator tables-IsField 32 (omega arith)

gf_init-IsField_example : IsField (gf_init zeroed)
gf_init-IsField_example = gf_init-IsField (inl refl)

abbrev square : List ℕ
square = 1 ∷ 2 ∷ 3 ∷ 4 ∷ 5 ∷ 6 ∷ []

woven : fec_interleave square 2 3 (replicate 6 0) ≡ 1 ∷ 4 ∷ 2 ∷ 5 ∷ 3 ∷ 6 ∷ []
unfolding fec_interleave for_up
woven = refl

deinterleave-interleave_example :
    fec_deinterleave (fec_interleave square 2 3 (replicate 6 0)) 2 3 (replicate 6 9) ≡ square
deinterleave-interleave_example =
    deinterleave-interleave square 2 3 (replicate 6 0) (replicate 6 9) refl refl refl
