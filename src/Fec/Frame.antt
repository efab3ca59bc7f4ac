-- ===== src/Fec/Frame.antt =====
-- `fec_encode` and `fec_decode` of src/fec.c. The result is what is written to `out`, whose length
-- is the value returned; `none` is the return of -1. `out_cap` is the capacity of `out`, and
-- `memory` says whether `malloc` gives a block.
pub mod Roundtrip
pub mod Same
use mathlib.Core.Option
use echo_protocol.Base.{
  ℕ, ◌+◌, ◌-◌, ◌*◌, ◌/◌, ◌%◌, Bool, true, false, if◌then◌else◌, ltb, leb, ◌==◌, ◌&&◌, ◌||◌, not,
}
use echo_protocol.Base.{
  List, [], ◌∷◌, ◌++◌, Option, none, some, bit_and, bit_or, ◌<<◌, ◌>>◌, get_or, set, take, drop,
}
use echo_protocol.Base.{replicate, for_up, length}
use echo_protocol.Fec.Gf.{Gf, gf_init}
use echo_protocol.Fec.Rs.{at, rs_encode_block, rs_decode_block}
use echo_protocol.Fec.Length.{
  fec_rs_max_n, fec_rs_msgblk, fec_rs_parity_blk, fec_ecc_bytes, block_count,
}
use echo_protocol.Fec.Interleave.{fec_interleave, fec_deinterleave}

-- `out[0] = (data_len >> 8) & 0xFF; out[1] = data_len & 0xFF`
abbrev pub len_prefix : ℕ → List ℕ
len_prefix data_len = bit_and (data_len >> 8) 0xFF ∷ bit_and data_len 0xFF ∷ []

module _ (g : Gf) where
  -- Both functions call `gf_init` first.
  abbrev t : Gf
  t = gf_init g

  -- One block of a long message: up to 223 bytes from `r * 223` on, padded with zeros and encoded.
  unfoldable pub message_block : List ℕ → ℕ → ℕ → List ℕ
  message_block payload data_len r =
      let off = r * fec_rs_msgblk in
      let left = data_len - off in
      let k = if ltb fec_rs_msgblk left then fec_rs_msgblk else left in
      let blk = take k (drop off payload) ++ replicate (fec_rs_max_n - k) 0 in
      rs_encode_block t blk fec_rs_msgblk fec_rs_parity_blk

  -- The loop over the blocks fills `blocks` from its start.
  unfoldable pub fill_blocks : List ℕ → ℕ → ℕ → List ℕ
  unfolding message_block
  fill_blocks payload data_len nblocks =
      for_up nblocks 0 (λ r blocks. blocks ++ message_block payload data_len r) []

  unfoldable pub fec_encode : Bool → List ℕ → ℕ → ℕ → Option (List ℕ)
  fec_encode memory payload data_len out_cap =
      let ecc = fec_ecc_bytes data_len in
      let nblocks = block_count data_len in
      let size = nblocks * fec_rs_max_n in
      if data_len == 0
      then none
      else (if ltb out_cap (data_len + 2 + ecc) && leb (data_len + ecc) fec_rs_max_n
          then none
          else (if ltb out_cap (data_len + 2 + ecc) && ltb fec_rs_max_n (data_len + ecc)
              then none
              else (if leb (data_len + ecc) fec_rs_max_n
                  then (if ltb out_cap (data_len + 2 + ecc)
                      then none
                      else some (len_prefix data_len ++ rs_encode_block t payload data_len ecc))
                  else (if ltb out_cap (size + 2) || not memory
                      then none
                      else some (
                          len_prefix data_len
                          ++ fec_interleave (fill_blocks payload data_len nblocks) nblocks
                              fec_rs_max_n (replicate size 0))))))

  -- A round of the decoding loop: the bytes written so far, of which `out_off` is the number.
  unfoldable pub decode_block_round : List ℕ → ℕ → ℕ → Option (List ℕ) → Option (List ℕ)
  decode_block_round blocks data_len r none = none
  decode_block_round blocks data_len r (some out) =
      let remain = data_len - length out in
      let cpy = if ltb fec_rs_msgblk remain then fec_rs_msgblk else remain in
      Option.map (λ dec. out ++ take cpy dec)
        (rs_decode_block t (take fec_rs_max_n (drop (r * fec_rs_max_n) blocks)) fec_rs_max_n
          fec_rs_msgblk)

  unfoldable pub fec_decode : Bool → List ℕ → ℕ → ℕ → Option (List ℕ)
  fec_decode memory input fec_len out_cap =
      let data_len = bit_or (at input 0 << 8) (at input 1) in
      let fec_data = drop 2 input in
      let fec_data_len = fec_len - 2 in
      let ecc = fec_ecc_bytes data_len in
      let nblocks = block_count data_len in
      let size = nblocks * fec_rs_max_n in
      if ltb fec_len 3
      then none
      else (if data_len == 0 || ltb out_cap data_len
          then none
          else (if leb (data_len + ecc) fec_rs_max_n
              then (if fec_data_len == data_len + ecc
                  then rs_decode_block t fec_data fec_data_len data_len
                  else none)
              else (if not (fec_data_len == size) || not memory
                  then none
                  else for_up nblocks 0
                      (decode_block_round
                        (fec_deinterleave fec_data nblocks fec_rs_max_n (replicate size 0))
                        data_len)
                      (some []))))
