-- ===== src/Fec/Frame/Roundtrip.antt =====
-- `fec_decode` of what `fec_encode` gives is the payload, for one block and for many.
use native.Mathlib.Decide.{ℕ_discrete, dec_lt, dec_le}
use echo_protocol.Base.{
  ℕ, zero, suc, ◌+◌, ◌-◌, ◌*◌, ◌/◌, ◌%◌, ◌≤◌, ◌<◌, ◌≡◌, refl, sym, ap, ap₂, ◌∙◌, arith,
}
use echo_protocol.Base.{List, [], ◌∷◌, ◌++◌, length, take, drop, replicate, true, some}
use echo_protocol.Base.{
  length-append, length-take, length-drop, length-replicate, take_prefix, drop_prefix, take_all,
}
use echo_protocol.Base.{
  get_or-take, get_or-drop, get_or-replicate, get_or-append_left, for_up, for_up_inv,
}
use echo_protocol.Base.{bit_or, ◌<<◌, ◌>>◌, if◌then◌else◌, ltb}
use echo_protocol.Base.Xor.{bit_and_mask, bit_or_fields}
use echo_protocol.Base.{AllBytes}
use echo_protocol.Base.Bytes.{AllBytes-append, get_or-AllBytes, replicate-AllBytes}
use echo_protocol.Fec.Gf.{Gf, gf_init}
use echo_protocol.Fec.Gf.Field.{IsField, IsReached, gf_init-IsField}
use echo_protocol.Fec.Rs.{at, rs_encode_block, rs_decode_block}
use echo_protocol.Fec.Rs.Eval.{Bytes}
use echo_protocol.Fec.Rs.Systematic.{
  rs_decode-encode, length-rs_encode_block, rs_encode_block-Bytes, at-append_ge,
}
use echo_protocol.Fec.Length.{fec_ecc_bytes, block_count, fec_encoded_len, one_block_iff}
use echo_protocol.Fec.Interleave.{fec_interleave, fec_deinterleave}
use echo_protocol.Fec.Interleave.Inverse.{
  deinterleave-interleave, fec_interleave-AllBytes, length-fec_interleave,
}
use echo_protocol.Fec.Frame.{
  len_prefix, message_block, fill_blocks, fec_encode, fec_decode, decode_block_round,
}

-- The two bytes of the length prefix read back.
prefix_reads :
    (n : ℕ) (rest : List ℕ)
    → n < 65536
    → bit_or (at (len_prefix n ++ rest) 0 << 8) (at (len_prefix n ++ rest) 1) ≡ n
prefix_reads n rest h =
    ap₂ (λ a b. bit_or (a << 8) b) (bit_and_mask 8 (n >> 8)) (bit_and_mask 8 n)
    ∙ bit_or_fields 8 (n / 256 % 256) (n % 256) (omega arith)
    ∙ omega arith

take-drop-append :
    (i n : ℕ) (xs ys : List ℕ) → i + n ≤ length xs → take n (drop i (xs ++ ys)) ≡ take n (drop i xs)
take-drop-append i zero xs ys h = refl
take-drop-append zero (suc n) [] ys h = absurd (omega arith)
take-drop-append (suc i) (suc n) [] ys h = absurd (omega arith)
take-drop-append zero (suc n) (x ∷ xs) ys h =
    ap (λ l. x ∷ l) (take-drop-append zero n xs ys (omega arith))
take-drop-append (suc i) (suc n) (x ∷ xs) ys h = take-drop-append i (suc n) xs ys (omega arith)

take_nil : (n : ℕ) → take {A = ℕ} n [] ≡ []
take_nil zero = refl
take_nil (suc n) = refl

take-take : (k n : ℕ) (xs : List ℕ) → k ≤ n → take k (take n xs) ≡ take k xs
take-take zero n xs h = refl
take-take (suc k) zero xs h = absurd (omega arith)
take-take (suc k) (suc n) [] h = refl
take-take (suc k) (suc n) (x ∷ xs) h = ap (λ l. x ∷ l) (take-take k n xs (omega arith))

-- A prefix and the piece after it.
take-add : (i k : ℕ) (xs : List ℕ) → take i xs ++ take k (drop i xs) ≡ take (i + k) xs
take-add zero k xs = ap (λ n. take n xs) {x = k} {y = 0 + k} (omega arith)
take-add (suc i) k [] = take_nil k ∙ sym (take_nil (suc i + k))
take-add (suc i) k (x ∷ xs) =
    ap (λ l. x ∷ l) (take-add i k xs)
    ∙ ap (λ n. take n (x ∷ xs)) {x = suc (i + k)} {y = suc i + k} (omega arith)

module _ (g : Gf) (field : IsField (gf_init g)) (payload : List ℕ)
    (bytes : Bytes (at payload)) where
  abbrev data_len : ℕ
  data_len = length payload

  -- One block of a long payload.
  module _ (r : ℕ) (inside : r * 223 < data_len) where
    abbrev off : ℕ
    off = r * 223

    abbrev k : ℕ
    k = if ltb 223 (data_len - off) then 223 else data_len - off

    abbrev blk : List ℕ
    blk = take k (drop off payload) ++ replicate (255 - k) 0

    k_bounds : (k ≤ 223) × (off + k ≤ data_len) × (k ≤ data_len - off)
    k_bounds = ground arith

    length-piece : length (take k (drop off payload)) ≡ k
    length-piece =
        omega (arith, k_bounds, length-take k (drop off payload), length-drop off payload)

    length-blk : length blk ≡ 255
    length-blk = omega (
      arith,
      k_bounds,
      length-piece,
      length-append (take k (drop off payload)) (replicate (255 - k) 0),
      length-replicate (255 - k) zero,
    )

    blk-Bytes : Bytes (at blk)
    blk-Bytes t = elim (dec_lt t k) [
      | yes h ↦
          rw
            (get_or-append_left (take k (drop off payload)) (replicate (255 - k) 0) t 0
                (omega (arith, length-piece))
              ∙ get_or-take k (drop off payload) t 0 h
              ∙ get_or-drop off payload t 0)
            (bytes (off + t))
      | no h ↦
          rw
            (at-append_ge (take k (drop off payload)) (replicate (255 - k) 0) t
                (omega (arith, length-piece))
              ∙ get_or-replicate (255 - k) 0 (t - length (take k (drop off payload))))
            (omega arith)
    ]

    message_block-AllBytes : AllBytes (message_block g payload data_len r)
    unfolding message_block
    message_block-AllBytes = get_or-AllBytes _ (
        rs_encode_block-Bytes field blk 223 32 (omega (arith, length-blk)) blk-Bytes (omega arith)
          (omega arith) (omega arith))

    length-message_block : length (message_block g payload data_len r) ≡ 255
    unfolding message_block
    length-message_block =
        length-rs_encode_block field blk 223 32 (omega (arith, length-blk)) blk-Bytes (omega arith)
          (omega arith) (omega arith)

    -- The block decodes to its padded piece.
    decode-message_block :
        rs_decode_block (gf_init g) (message_block g payload data_len r) 255 223
        ≡ some (take 223 blk)
    unfolding message_block
    decode-message_block =
        rs_decode-encode field blk 223 32 (omega (arith, length-blk)) blk-Bytes (omega arith)
          (omega arith) (omega arith)

    -- Of which the loop takes the bytes of the payload.
    piece : take k (take 223 blk) ≡ take k (drop off payload)
    piece =
        take-take k 223 blk k_bounds.0
        ∙ take_prefix (take k (drop off payload)) (replicate (255 - k) 0) k length-piece

    next_prefix : take off payload ++ take k (drop off payload) ≡ take (suc r * 223) payload
    next_prefix = take-add off k payload ∙ elim (dec_lt 223 (data_len - off)) [
      | yes full ↦ ap (λ n. take n payload) (ground arith)
      | no last ↦
          take_all (off + k) payload (ground arith)
          ∙ sym (take_all (suc r * 223) payload (ground arith))
    ]

    -- A round of the decoding loop, when the blocks are those of the encoder.
    decode_round :
        (blocks : List ℕ)
        → take 255 (drop (r * 255) blocks) ≡ message_block g payload data_len r
        → decode_block_round g blocks data_len r (some (take off payload))
          ≡ some (take (suc r * 223) payload)
    unfolding decode_block_round
    decode_round blocks e =
        let so_far : length (take off payload) ≡ off = omega (arith, length-take off payload) in
        rw (e, decode-message_block, so_far)
          (ap (λ l. some (take off payload ++ l)) piece ∙ ap some next_prefix)

  -- The blocks that the encoder has filled.
  record Filled (n : ℕ) (blocks : List ℕ) : Type 0 where
    size : length blocks ≡ n * 255
    block : (j : ℕ) → j < n → take 255 (drop (j * 255) blocks) ≡ message_block g payload data_len j
    all_bytes : AllBytes blocks

  fill_step :
      (n : ℕ) (blocks : List ℕ)
      → n * 223 < data_len
      → Filled n blocks
      → Filled (suc n) (blocks ++ message_block g payload data_len n)
  fill_step n blocks inside f =
      let whole : length (message_block g payload data_len n) ≡ 255 =
        length-message_block n inside in
      record {
        size =
            omega (arith, f.size, whole, length-append blocks (message_block g payload data_len n));
        block = λ j h. elim (ℕ_discrete j n) [
          | yes here ↦ rw here (
              ap (take 255)
                (drop_prefix blocks (message_block g payload data_len n) (n * 255) f.size)
              ∙ take_all 255 (message_block g payload data_len n) (omega (arith, whole)))
          | no before ↦
              take-drop-append (j * 255) 255 blocks (message_block g payload data_len n)
                (omega (arith, f.size))
              ∙ f.block j (omega arith)
        ];
        all_bytes =
            AllBytes-append blocks (message_block g payload data_len n) f.all_bytes
              (message_block-AllBytes n inside);
      }

  fill_blocks-Filled :
      (n : ℕ) → n * 223 < data_len + 223 → Filled n (fill_blocks g payload data_len n)
  unfolding fill_blocks
  fill_blocks-Filled n h =
      for_up_inv Filled (λ r blocks. blocks ++ message_block g payload data_len r) n 0 n []
        (omega arith) (λ r blocks lo hi f. fill_step r blocks (omega arith) f)
        (record { size = refl; block = λ j h. absurd (omega arith); all_bytes = tt })

  -- Decoding the encoder's blocks gives the payload.
  decode_blocks :
      (n : ℕ)
      → n * 223 < data_len + 223
      → data_len ≤ n * 223
      → for_up n 0 (decode_block_round g (fill_blocks g payload data_len n) data_len) (some [])
        ≡ some payload
  decode_blocks n h enough =
      let blocks = fill_blocks g payload data_len n in
      for_up_inv (λ r acc. acc ≡ some (take (r * 223) payload))
        (decode_block_round g blocks data_len) n 0 n (some []) (omega arith)
        (λ r acc lo hi e.
          ap (decode_block_round g blocks data_len r) e
          ∙ decode_round r (omega arith) blocks ((fill_blocks-Filled n h).block r hi))
        refl
      ∙ ap some (take_all (n * 223) payload enough)

  -- What the receiver is to have: a code that the encoder gives, of the announced length, that
  -- decodes to the payload.
  abbrev Delivered : ℕ → ℕ → Type 0
  Delivered cap cap' =
      (code : List ℕ) × (fec_encode g true payload data_len cap ≡ some code)
      × (some (length code) ≡ fec_encoded_len data_len)
      × (fec_decode g true code (length code) cap' ≡ some payload)
      × AllBytes code

  prefix-AllBytes : (code : List ℕ) → AllBytes code → AllBytes (len_prefix data_len ++ code)
  prefix-AllBytes code b =
      (omega (arith, bit_and_mask 8 (data_len >> 8)), (omega (arith, bit_and_mask 8 data_len), b))

  -- A payload of one block.
  module _ (cap cap' : ℕ) (pos : 0 < data_len) (small : data_len ≤ 183)
      (room : data_len + 2 + fec_ecc_bytes data_len ≤ cap) (room' : data_len ≤ cap') where
    abbrev ecc : ℕ
    ecc = fec_ecc_bytes data_len

    abbrev single : List ℕ
    single = rs_encode_block (gf_init g) payload data_len ecc

    length-single : length single ≡ data_len + ecc
    length-single =
        length-rs_encode_block field payload data_len ecc (omega arith) bytes (omega arith)
          (omega (arith, (one_block_iff data_len).1)) pos

    decode-single : rs_decode_block (gf_init g) single (data_len + ecc) data_len ≡ some payload
    decode-single =
        rs_decode-encode field payload data_len ecc (omega arith) bytes (omega arith)
          (omega (arith, (one_block_iff data_len).1)) pos
        ∙ ap some (take_all data_len payload (omega arith))

    encode_one : fec_encode g true payload data_len cap ≡ some (len_prefix data_len ++ single)
    unfolding fec_encode
    encode_one = ground (arith, (one_block_iff data_len).1)

    decode_one :
        fec_decode g true
          (len_prefix data_len ++ single)
          (length (len_prefix data_len ++ single))
          cap'
        ≡ some payload
    unfolding fec_decode
    decode_one =
        rw (prefix_reads data_len single (omega arith), length-single)
          (ground (arith, (one_block_iff data_len).1, decode-single))

    announced_one : some (length (len_prefix data_len ++ single)) ≡ fec_encoded_len data_len
    unfolding fec_encoded_len
    announced_one = ground (arith, length-single, (one_block_iff data_len).1)

    one_block : Delivered cap cap'
    one_block =
        let b = get_or-AllBytes single (
          rs_encode_block-Bytes field payload data_len ecc (omega arith) bytes (omega arith)
            (omega (arith, (one_block_iff data_len).1)) pos) in
        (
          len_prefix data_len ++ single,
          encode_one,
          announced_one,
          decode_one,
          prefix-AllBytes single b,
        )

  -- A payload of many blocks.
  module _ (cap cap' : ℕ) (large : 183 < data_len) (fits : data_len < 65536)
      (parity_fits : data_len + 2 + fec_ecc_bytes data_len ≤ cap)
      (room : block_count data_len * 255 + 2 ≤ cap) (room' : data_len ≤ cap') where
    abbrev n : ℕ
    n = block_count data_len

    abbrev blocks : List ℕ
    blocks = fill_blocks g payload data_len n

    abbrev air : List ℕ
    air = fec_interleave blocks n 255 (replicate (n * 255) 0)

    count : (n * 223 < data_len + 223) × (data_len ≤ n * 223)
    count = omega arith

    length-blocks : length blocks ≡ 255 * n
    length-blocks = omega (arith, (fill_blocks-Filled n count.0).size)

    length-zeros : length (replicate (n * 255) zero) ≡ 255 * n
    length-zeros = omega (arith, length-replicate (n * 255) zero)

    length-air : length air ≡ 255 * n
    length-air = length-fec_interleave blocks n 255 (replicate (n * 255) 0) length-zeros

    encode_many : fec_encode g true payload data_len cap ≡ some (len_prefix data_len ++ air)
    unfolding fec_encode
    encode_many = ground (arith, (one_block_iff data_len).0)

    unwoven : fec_deinterleave air n 255 (replicate (n * 255) 0) ≡ blocks
    unwoven =
        deinterleave-interleave blocks n 255 (replicate (n * 255) 0) (replicate (n * 255) 0)
          length-blocks length-zeros length-zeros

    decode_all :
        for_up n 0
          (decode_block_round g (fec_deinterleave air n 255 (replicate (n * 255) 0)) data_len)
          (some [])
        ≡ some payload
    decode_all = rw unwoven (decode_blocks n count.0 count.1)

    decode_many :
        fec_decode g true (len_prefix data_len ++ air) (length (len_prefix data_len ++ air)) cap'
        ≡ some payload
    unfolding fec_decode
    decode_many =
        rw (prefix_reads data_len air fits, length-air)
          (ground (arith, (one_block_iff data_len).0, decode_all))

    announced_many : some (length (len_prefix data_len ++ air)) ≡ fec_encoded_len data_len
    unfolding fec_encoded_len
    announced_many = ground (arith, length-air, (one_block_iff data_len).0)

    many_blocks : Delivered cap cap'
    many_blocks =
        let b =
          fec_interleave-AllBytes blocks (replicate (n * 255) 0) n 255
            (fill_blocks-Filled n count.0).all_bytes (replicate-AllBytes (n * 255)) in
        (
          len_prefix data_len ++ air,
          encode_many,
          announced_many,
          decode_many,
          prefix-AllBytes air b,
        )

  delivered :
      (cap cap' : ℕ)
      → 0 < data_len
      → data_len < 65536
      → data_len + 2 + fec_ecc_bytes data_len ≤ cap
      → (183 < data_len → block_count data_len * 255 + 2 ≤ cap)
      → data_len ≤ cap'
      → Delivered cap cap'
  delivered cap cap' pos fits parity room room' = elim (dec_le data_len 183) [
    | yes small ↦ one_block cap cap' pos small parity room'
    | no large ↦ many_blocks cap cap' (omega arith) fits parity (room (omega arith)) room'
  ]

-- The code, with what is known of it.
pub fec_encode_lem :
    {g : Gf} (payload : List ℕ) (cap cap' : ℕ)
    → IsReached g
    → Bytes (at payload)
    → 0 < length payload
    → length payload < 65536
    → length payload + 2 + fec_ecc_bytes (length payload) ≤ cap
    → (183 < length payload → block_count (length payload) * 255 + 2 ≤ cap)
    → length payload ≤ cap'
    → (code : List ℕ) × (fec_encode g true payload (length payload) cap ≡ some code)
      × (some (length code) ≡ fec_encoded_len (length payload))
      × (fec_decode g true code (length code) cap' ≡ some payload)
      × AllBytes code
fec_encode_lem {g} payload cap cap' reached bytes pos fits parity room room' =
    delivered g (gf_init-IsField reached) payload bytes cap cap' pos fits parity room room'

-- For every payload of 1 to 65535 bytes, in one block or in many: when the buffer of `fec_encode`
-- has room for the code and for the parity it asks room for, that of `fec_decode` for the payload,
-- and `malloc` gives memory, `fec_encode` gives a code of `fec_encoded_len` bytes, and `fec_decode`
-- of that code gives the payload.
pub fec_decode-encode :
    {g : Gf} (payload : List ℕ) (cap cap' : ℕ)
    → IsReached g
    → Bytes (at payload)
    → 0 < length payload
    → length payload < 65536
    → length payload + 2 + fec_ecc_bytes (length payload) ≤ cap
    → (183 < length payload → block_count (length payload) * 255 + 2 ≤ cap)
    → length payload ≤ cap'
    → (code : List ℕ) × (fec_encode g true payload (length payload) cap ≡ some code)
      × (some (length code) ≡ fec_encoded_len (length payload))
      × (fec_decode g true code (length code) cap' ≡ some payload)
fec_decode-encode {g} payload cap cap' reached bytes pos fits parity room room' =
    let (code, encoded, size, decoded, b) =
      fec_encode_lem payload cap cap' reached bytes pos fits parity room room' in
    (code, encoded, size, decoded)
