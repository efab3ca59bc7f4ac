-- ===== src/Header/Valid.antt =====
-- What the checks of a received header let through.
use echo_protocol.Base.{
  ℕ, ◌+◌, ◌-◌, ◌*◌, ◌/◌, ◌%◌, ◌^◌, ◌≤◌, ◌<◌, ◌≡◌, ◌↔◌, ◌⊎◌, inl, inr, refl, sym, ap, ap₂, ◌∙◌,
  arith,
}
use echo_protocol.Base.{
  Option-cases, Bool-cases, ==_iff, Bool, true, false, ◌||◌, some, for_up, for_up_inv,
}
use echo_protocol.Base.{bit_and, bit_or, u16, ◌<<◌, ◌>>◌}
use echo_protocol.Base.Xor.{bit_and_mask, bit_or_fields}
use native.Mathlib.Decide.{ℕ_discrete, dec_le}
use echo_protocol.Fec.Length.{
  fec_encoded_len, fec_encoded_len_lem, fec_ecc_bytes, fec_ecc_bytes_bounds, one_block_iff,
  block_count,
}
use echo_protocol.Header.{Header, pack, unpack, is_valid_header, is_encoded_len, is_valid_fec_len}

-- `len` is the length of the code of a payload.
abbrev pub IsEncoded : ℕ → Type 0
IsEncoded len = (data_len : ℕ) × (fec_encoded_len data_len ≡ some len)

is_encoded_len_iff : (n len : ℕ) → (is_encoded_len n len ≡ true) ↔ (fec_encoded_len n ≡ some len)
unfolding is_encoded_len
is_encoded_len_iff n len = elim (Option-cases (fec_encoded_len n)) [
  | inl e ↦ rw e (ground arith)
  | inr (m, e) ↦ rw e (ground (arith, ==_iff m len))
]

or_left : {a : Bool} (b : Bool) → a ≡ true → (a || b) ≡ true
or_left {a} b h = rw h

or_right : (a b : Bool) → b ≡ true → (a || b) ≡ true
or_right true b h = refl
or_right false b h = h

-- The search over the lengths of a single block.
search_sound :
    (len : ℕ) → for_up 255 1 (λ n found. found || is_encoded_len n len) false ≡ true → IsEncoded len
search_sound len e =
    for_up_inv (λ j t. t ≡ true → IsEncoded len) (λ n found. found || is_encoded_len n len) 255 1
      256 false (omega arith)
      (λ j t lo hi p h. elim (Bool-cases t) [
        | inl found ↦ p found
        | inr missing ↦ (j, (is_encoded_len_iff j len).0 (rw missing at h))
      ])
      (λ h. absurd (ground arith)) e

search_complete :
    (len n : ℕ)
    → 0 < n
    → n < 256
    → is_encoded_len n len ≡ true
    → for_up 255 1 (λ n found. found || is_encoded_len n len) false ≡ true
search_complete len n pos h e =
    for_up_inv (λ j t. n < j → t ≡ true) (λ m found. found || is_encoded_len m len) 255 1 256 false
      (omega arith)
      (λ j t lo hi p below. elim (ℕ_discrete n j) [
        | yes here ↦ or_right t _ (ap (λ m. is_encoded_len m len) (sym here) ∙ e)
        | no before ↦ or_left _ (p (omega arith))
      ])
      (λ below. absurd (omega arith)) h

-- The two forms of a code.
encoded_len_cases :
    (n len : ℕ)
    → fec_encoded_len n ≡ some len
    → (0 < n)
      × (((n ≤ 183) × (len ≡ n + 2 + fec_ecc_bytes n))
          ⊎ ((183 < n) × (len ≡ block_count n * 255 + 2)))
unfolding fec_encoded_len
encoded_len_cases n len e = ground (arith, one_block_iff n)

-- The multi-block lengths.
blocks_encoded : (b : ℕ) → 0 < b → fec_encoded_len (b * 223) ≡ some (b * 255 + 2)
blocks_encoded b h = fec_encoded_len_lem (b * 223) (omega arith) ∙ ground arith

-- `is_valid_fec_len` accepts a length exactly when it is `fec_encoded_len` of some payload length.
pub is_valid_fec_len_iff : (len : ℕ) → (is_valid_fec_len len ≡ true) ↔ IsEncoded len
is_valid_fec_len_iff len = (sound, complete)
  where
    sound : is_valid_fec_len len ≡ true → IsEncoded len
    sound e = elim (dec_le len 257) [
      | yes small ↦ search_sound len (unfold is_valid_fec_len in ground arith)
      | no large ↦ (
        (len - 2) / 255 * 223,
        (is_encoded_len_iff ((len - 2) / 255 * 223) len).0
            (unfold is_valid_fec_len in ground arith),
      )
    ]

    complete : IsEncoded len → is_valid_fec_len len ≡ true
    complete (n, e) =
        let (pos, forms) = encoded_len_cases n len e in
        elim (dec_le len 257) [
          | yes small ↦
              let found =
                search_complete len n pos (omega (arith, forms)) ((is_encoded_len_iff n len).1 e) in
              unfold is_valid_fec_len in ground (arith, found, forms, (fec_ecc_bytes_bounds n).0)
          | no large ↦
              let b : ℕ = block_count n in
              let shape : len ≡ b * 255 + 2 = ground (arith, forms, (one_block_iff n).1) in
              let quotient : (len - 2) / 255 ≡ b = omega arith in
              let last : is_encoded_len ((len - 2) / 255 * 223) len ≡ true =
                (is_encoded_len_iff ((len - 2) / 255 * 223) len).1 (
                  ap (λ q. fec_encoded_len (q * 223)) quotient
                  ∙ blocks_encoded b (omega arith)
                  ∙ ap some (sym shape)) in
              unfold is_valid_fec_len in ground (arith, last)
        ]

-- A packed header as a sum.
pack_sum :
    (h : Header)
    → h.comp < 2
    → h.rohc < 2
    → h.fec < 2
    → h.len < 8192
    → pack h ≡ (4 * h.comp + 2 * h.rohc + h.fec) * 8192 + h.len
unfolding pack
pack_sum h c r f l =
    let first : bit_or (h.comp << 15) (h.rohc << 14) ≡ (2 * h.comp + h.rohc) * 2 ^ 14 =
      bit_or_fields 15 h.comp (h.rohc << 14) (omega arith) ∙ omega arith in
    let second : bit_or (bit_or (h.comp << 15) (h.rohc << 14)) (h.fec << 13)
        ≡ (4 * h.comp + 2 * h.rohc + h.fec) * 2 ^ 13 =
      ap (λ x. bit_or x (h.fec << 13)) first
      ∙ bit_or_fields 14 (2 * h.comp + h.rohc) (h.fec << 13) (omega arith)
      ∙ omega arith in
    ap₂ (λ x y. u16 (bit_or x y)) second (bit_and_mask 13 h.len)
    ∙ ap u16 (bit_or_fields 13 (4 * h.comp + 2 * h.rohc + h.fec) (h.len % 2 ^ 13) (omega arith))
    ∙ omega arith

-- The fields of a header whose flags are bits and whose length has 13 bits are read back.
pub unpack-pack :
    (h : Header) → h.comp < 2 → h.rohc < 2 → h.fec < 2 → h.len < 8192 → unpack (pack h) ≡ h
unfolding unpack
unpack-pack h c r f l =
    let w : ℕ = (4 * h.comp + 2 * h.rohc + h.fec) * 8192 + h.len in
    let comp' : bit_and (w >> 15) 1 ≡ h.comp = bit_and_mask 1 (w >> 15) ∙ omega arith in
    let rohc' : bit_and (w >> 14) 1 ≡ h.rohc = bit_and_mask 1 (w >> 14) ∙ omega arith in
    let fec' : bit_and (w >> 13) 1 ≡ h.fec = bit_and_mask 1 (w >> 13) ∙ omega arith in
    let len' : bit_and w 0x1FFF ≡ h.len = bit_and_mask 13 w ∙ omega arith in
    rw (pack_sum h c r f l, comp', rohc', fec', len')

-- For flags that are bits and a length of 13 bits: `is_valid_header` accepts the packed header exactly
-- when the flags `comp` and `rohc` are not both set, the length is from 1 to 2048 and, with the flag
-- `fec`, it is that of the code of a payload.
pub is_valid_header_iff :
    (h : Header)
    → h.comp < 2
    → h.rohc < 2
    → h.fec < 2
    → h.len < 8192
    → (is_valid_header (pack h) ≡ true)
      ↔ ((h.comp + h.rohc ≤ 1) × (0 < h.len) × (h.len ≤ 2048) × (h.fec ≡ 1 → IsEncoded h.len))
unfolding is_valid_header
is_valid_header_iff h c r f l =
    rw (unpack-pack h c r f l) (ground (arith, is_valid_fec_len_iff h.len))
