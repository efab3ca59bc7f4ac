-- ===== src/Fec/Rs/Systematic.antt =====
-- `rs_encode_block` gives a code word that begins with the message, and `rs_decode_block` returns
-- the message of a code word.
use native.Mathlib.Decide.{dec_lt}
use echo_protocol.Base.{ℕ, zero, ◌+◌, ◌-◌, ◌≤◌, ◌<◌, ◌≡◌, refl, sym, ap, ap₂, ◌∙◌, arith}
use echo_protocol.Base.{
  List, ◌++◌, bit_xor, for_up, for_up_inv, length, take, drop, replicate, some,
}
use echo_protocol.Base.{Bool, false}
use echo_protocol.Base.{
  length-append, length-take, length-drop, length-replicate, get_or-append_left,
  get_or-append_right,
}
use echo_protocol.Base.{get_or-take, get_or-drop, get_or-replicate, take_prefix, take_all}
use echo_protocol.Base.Xor.{xor-lt, zero-xor, xor-zero, xor_self}
use echo_protocol.Fec.Gf.{Gf, exp_at}
use echo_protocol.Fec.Gf.Field.{IsField}
use echo_protocol.Fec.Rs.{
  at, local_msg, divide_round, rs_generator_poly, rs_encode_block, rs_syndromes, syndrome,
  rs_decode_block,
}
use echo_protocol.Fec.Rs.Eval.{Bytes, value, value-cong, value-xor, syndrome_lem}
use echo_protocol.Fec.Rs.Generator.{rs_generator_poly-IsGenerator}
use echo_protocol.Fec.Rs.Division.{Divided, division-Divided}

pub at-append_ge :
    (xs ys : List ℕ) (t : ℕ) → length xs ≤ t → at (xs ++ ys) t ≡ at ys (t - length xs)
at-append_ge xs ys t h =
    ap (at (xs ++ ys)) {y = length xs + (t - length xs)} (omega arith)
    ∙ get_or-append_right xs ys (t - length xs) 0

module _ {g : Gf} (field : IsField g) (msg : List ℕ) (k ecc : ℕ) (enough : k ≤ length msg)
    (bytes : Bytes (at msg)) (short : k ≤ 223) (fits : k + ecc ≤ 255) (pos : 0 < k) where
  length-message : length (take k msg) ≡ k
  length-message = omega (arith, length-take k msg)

  abbrev start : List ℕ
  start = take k msg ++ replicate ecc 0

  abbrev out : List ℕ
  out = for_up k 0 (divide_round g (rs_generator_poly g ecc).gen ecc) start

  abbrev block : List ℕ
  block = take k msg ++ drop k out

  start-inside : (t : ℕ) → t < k → at start t ≡ at msg t
  start-inside t h =
      get_or-append_left (take k msg) (replicate ecc 0) t 0 (omega (arith, length-message))
      ∙ get_or-take k msg t 0 h

  start-outside : (t : ℕ) → k ≤ t → at start t ≡ 0
  start-outside t h =
      at-append_ge (take k msg) (replicate ecc 0) t (omega (arith, length-message))
      ∙ get_or-replicate ecc 0 (t - length (take k msg))

  start-Bytes : Bytes (at start)
  start-Bytes t = elim (dec_lt t k) [
    | yes h ↦ rw (start-inside t h) (bytes t)
    | no h ↦ rw (start-outside t (omega arith)) (omega arith)
  ]

  length-start : length start ≡ k + ecc
  length-start = omega (
    arith,
    length-append (take k msg) (replicate ecc 0),
    length-message,
    length-replicate ecc (zero),
  )

  divided : Divided g k ecc start k out
  divided =
      division-Divided field (rs_generator_poly-IsGenerator field ecc (omega arith)) (omega arith) k
        start
        (record {
          same_length = length-start;
          bytes = start-Bytes;
          cleared = λ t h. absurd (omega arith);
          values = λ l h. refl;
        })

  -- The code word is the sum of the shifted message and of what the division leaves.
  block_at : (t : ℕ) → at block t ≡ bit_xor (at start t) (at out t)
  block_at t = elim (dec_lt t k) [
    | yes h ↦
        get_or-append_left (take k msg) (drop k out) t 0 (omega (arith, length-message))
        ∙ get_or-take k msg t 0 h
        ∙ sym (ap₂ bit_xor (start-inside t h) (divided.cleared t h) ∙ xor-zero (at msg t))
    | no h ↦
        at-append_ge (take k msg) (drop k out) t (omega (arith, length-message))
        ∙ get_or-drop k out (t - length (take k msg)) 0
        ∙ ap (at out) (omega (arith, length-message))
        ∙ sym (ap (λ a. bit_xor a (at out t)) (start-outside t (omega arith)) ∙ zero-xor (at out t))
  ]

  block-value : (l : ℕ) → l < ecc → value g (exp_at g l) (at block) (k + ecc) ≡ 0
  block-value l h =
      let small : exp_at g l < 256 = field.exp_in l (omega arith) in
      value-cong field small (at block) (λ t. bit_xor (at start t) (at out t)) (k + ecc)
        (λ t p. block_at t)
      ∙ value-xor field small (at start) (at out) (k + ecc) start-Bytes divided.bytes
      ∙ ap (bit_xor (value g (exp_at g l) (at start) (k + ecc))) (divided.values l h)
      ∙ xor_self (value g (exp_at g l) (at start) (k + ecc))

  -- The message fits in `msg`.
  local_msg-whole : local_msg msg k ≡ take k msg
  unfolding local_msg
  local_msg-whole = take_all 223 (take k msg) (omega (arith, length-message))

  encoded : rs_encode_block g msg k ecc ≡ block
  unfolding rs_encode_block
  encoded = rw local_msg-whole refl

  pub rs_encode_block-Bytes : Bytes (at (rs_encode_block g msg k ecc))
  rs_encode_block-Bytes t =
      rw (encoded, block_at t) (xor-lt 8 _ _ (start-Bytes t) (divided.bytes t))

  -- Every syndrome of a code word is zero.
  syndromes-zero : (rs_syndromes g block (k + ecc) ecc).1 ≡ false
  unfolding rs_syndromes
  syndromes-zero =
      for_up_inv {S = List ℕ × Bool} (λ i acc. acc.1 ≡ false) _ ecc 0 ecc (replicate 256 0, false)
        (omega arith)
        (λ i acc lo hi none.
          let zero_syndrome : syndrome g block (k + ecc) i ≡ 0 =
            syndrome_lem field block (k + ecc) i (omega arith) (omega arith) ∙ block-value i hi in
          rw (zero_syndrome, none))
        refl

  -- Over tables that make a field: for at least one and `k` of the bytes of `msg`, with `k` at most 223,
  -- the size of the local array, and `k + ecc` at most 255, `rs_decode_block` of what `rs_encode_block`
  -- gives returns the `k` bytes.
  pub rs_decode-encode :
      rs_decode_block g (rs_encode_block g msg k ecc) (k + ecc) k ≡ some (take k msg)
  unfolding rs_decode_block
  rs_decode-encode =
      let same_ecc : k + ecc - k ≡ ecc = omega arith in
      rw (encoded, same_ecc, syndromes-zero)
        (ap some (take_prefix (take k msg) (drop k out) k length-message))

  pub length-rs_encode_block : length (rs_encode_block g msg k ecc) ≡ k + ecc
  length-rs_encode_block = omega (
    arith,
    ap length encoded,
    length-append (take k msg) (drop k out),
    length-message,
    length-drop k out,
    divided.same_length,
  )
