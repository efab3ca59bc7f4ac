-- ===== src/Transmit/Choice.antt =====
-- Which bytes `tun_to_rb` of src/echo_protocol.c chooses for a packet.
use echo_protocol.Base.{ℕ, ◌+◌, ◌≤◌, ◌<◌, ◌≡◌, inl, inr, refl, arith}
use echo_protocol.Base.{List, length, true, Option, some, none, AllBytes, Bool-cases}
use echo_protocol.Rohc.Compress.{Compressed, sent, refresh, unsupported, malformed, too_small}
use echo_protocol.Transmit.{
  Outgoing, as_is, shorter, is_refused, with_rohc, with_lz4, choose, lz4_buf_size,
}

-- The bytes that are chosen for a packet: not more than it has, under at most one flag.
pub record IsChosen (pressed_as : Option (List ℕ)) (result : Compressed) (raw : List ℕ)
    (o : Outgoing) : Type 0 where
  pub one_flag : o.comp + o.rohc ≤ 1
  pub no_code : o.fec ≡ 0
  pub some_bytes : 0 < length o.bytes
  pub at_most : length o.bytes ≤ length raw
  pub bytes : AllBytes o.bytes
  pub plain : o.comp ≡ 0 → o.rohc ≡ 0 → o.bytes ≡ raw
  pub by_lz4 : o.comp ≡ 1 → pressed_as ≡ some o.bytes
  pub by_rohc : o.rohc ≡ 1 → result ≡ sent o.bytes

-- The LZ4 library gives bytes.
abbrev pub GivesBytes : (List ℕ → ℕ → Option (List ℕ)) → Type 0
GivesBytes lz4_compress =
    (input output : List ℕ) (capacity : ℕ)
    → lz4_compress input capacity ≡ some output
    → AllBytes output

as_is-IsChosen :
    (l : Option (List ℕ)) (result : Compressed) (raw : List ℕ)
    → 0 < length raw
    → AllBytes raw
    → IsChosen l result raw (as_is raw)
as_is-IsChosen l result raw pos b = record {
  one_flag = omega arith;
  no_code = refl;
  some_bytes = pos;
  at_most = omega arith;
  bytes = b;
  plain = λ c r. refl;
  by_lz4 = λ c. absurd (omega (arith, c));
  by_rohc = λ r. absurd (omega (arith, r));
}

shorter_lem :
    (out raw : List ℕ) → shorter out raw ≡ true → (0 < length out) × (length out < length raw)
shorter_lem out raw e = ground arith

with_rohc-IsChosen :
    (l : Option (List ℕ)) (result : Compressed) (raw : List ℕ)
    → ((out : List ℕ) → result ≡ sent out → AllBytes out)
    → 0 < length raw
    → AllBytes raw
    → IsChosen l result raw (with_rohc result raw)
unfolding with_rohc
with_rohc-IsChosen l (sent out) raw h pos b = elim (Bool-cases (shorter out raw)) [
  | inl e ↦
      let (some_bytes, less) = shorter_lem out raw e in
      rw e (record {
        one_flag = omega arith;
        no_code = refl;
        some_bytes = some_bytes;
        at_most = omega arith;
        bytes = h out refl;
        plain = λ c r. absurd (omega (arith, r));
        by_lz4 = λ c. absurd (omega (arith, c));
        by_rohc = λ r. refl;
      })
  | inr e ↦ rw e (as_is-IsChosen l (sent out) raw pos b)
]
with_rohc-IsChosen l refresh raw h pos b = as_is-IsChosen l refresh raw pos b
with_rohc-IsChosen l unsupported raw h pos b = as_is-IsChosen l unsupported raw pos b
with_rohc-IsChosen l malformed raw h pos b = as_is-IsChosen l malformed raw pos b
with_rohc-IsChosen l too_small raw h pos b = as_is-IsChosen l too_small raw pos b

with_lz4-IsChosen :
    (l : Option (List ℕ)) (result : Compressed) (raw : List ℕ) (o : Outgoing)
    → ((out : List ℕ) → l ≡ some out → AllBytes out)
    → o.rohc ≡ 0
    → IsChosen l result raw o
    → IsChosen l result raw (with_lz4 l raw o)
unfolding with_lz4
with_lz4-IsChosen none result raw o h z v = v
with_lz4-IsChosen (some out) result raw o h z v = elim (Bool-cases (shorter out raw)) [
  | inl e ↦
      let (some_bytes, less) = shorter_lem out raw e in
      rw e (record {
        one_flag = omega (arith, z);
        no_code = v.no_code;
        some_bytes = some_bytes;
        at_most = omega arith;
        bytes = h out refl;
        plain = λ c r. absurd (omega (arith, c));
        by_lz4 = λ c. refl;
        by_rohc = λ r. absurd (omega (arith, r, z));
      })
  | inr e ↦ rw e v
]

-- A refused packet is as it is before LZ4.
refused-rohc :
    (result : Compressed) (raw : List ℕ)
    → is_refused result ≡ true
    → (with_rohc result raw).rohc ≡ 0
unfolding with_rohc
refused-rohc (sent out) raw e = absurd (ground arith)
refused-rohc refresh raw e = absurd (ground arith)
refused-rohc unsupported raw e = refl
refused-rohc malformed raw e = refl
refused-rohc too_small raw e = refl

pub choose-IsChosen :
    (lz4_compress : List ℕ → ℕ → Option (List ℕ)) (result : Compressed) (raw : List ℕ)
    → GivesBytes lz4_compress
    → ((out : List ℕ) → result ≡ sent out → AllBytes out)
    → 0 < length raw
    → AllBytes raw
    → IsChosen (lz4_compress raw lz4_buf_size) result raw (choose lz4_compress result raw)
unfolding choose
choose-IsChosen lz4_compress result raw lz4 h pos b =
    let first = with_rohc-IsChosen (lz4_compress raw lz4_buf_size) result raw h pos b in
    elim (Bool-cases (is_refused result)) [
      | inl e ↦ rw e (
          with_lz4-IsChosen (lz4_compress raw lz4_buf_size) result raw (with_rohc result raw)
            (λ out g. lz4 raw out lz4_buf_size g) (refused-rohc result raw e) first)
      | inr e ↦ rw e first
    ]
