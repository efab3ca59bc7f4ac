-- ===== src/Transmit/Coded.antt =====
-- The code that `tun_to_rb` of src/echo_protocol.c puts on the chosen bytes.
use mathlib.Core.Path.{subst}
use echo_protocol.Base.{ℕ, ◌≤◌, ◌<◌, ◌≡◌, ◌⊎◌, inl, inr, refl, sym, ap, ◌∙◌, arith}
use echo_protocol.Base.{
  List, length, Bool, true, false, if◌then◌else◌, ltb, leb, ◌&&◌, Option, some, none, AllBytes,
  Option-cases,
}
use echo_protocol.Base.Bytes.{get_or-lt}
use echo_protocol.Fec.Gf.{Gf}
use echo_protocol.Fec.Gf.Field.{IsReached}
use echo_protocol.Fec.Length.{fec_encoded_len, fec_ecc_bytes_bounds, fec_encoded_len_lem}
use echo_protocol.Fec.Frame.{fec_encode, fec_decode}
use echo_protocol.Fec.Frame.Roundtrip.{fec_encode_lem}
use echo_protocol.Transmit.{Outgoing, with_code, with_fec, fec_buf_size}

-- What is sent of the chosen bytes: themselves, or a code that decodes to them.
pub record IsCoded (g : Gf) (o o' : Outgoing) : Type 0 where
  pub bytes : AllBytes o'.bytes
  pub same_flags : (o'.comp ≡ o.comp) × (o'.rohc ≡ o.rohc)
  pub coding :
      ((o'.fec ≡ 0) × (o'.bytes ≡ o.bytes))
      ⊎ ((o'.fec ≡ 1)
          × (fec_encoded_len (length o.bytes) ≡ some (length o'.bytes))
          × (fec_decode g true o'.bytes (length o'.bytes) 4096 ≡ some o.bytes))

-- The code is the same when `malloc` gives a block, as when it does not and none is needed.
encode_without :
    (g : Gf) (memory : Bool) (payload code : List ℕ) (n room : ℕ)
    → fec_encode g memory payload n room ≡ some code
    → fec_encode g true payload n room ≡ some code
unfolding fec_encode
encode_without g true payload code n room e = e
encode_without g false payload code n room e = ground arith

with_fec-step :
    (g : Gf) (memory : Bool) (o : Outgoing) (n : ℕ)
    → fec_encoded_len (length o.bytes) ≡ some n
    → 0 < n
    → n ≤ 4096
    → with_code (fec_encode g memory o.bytes (length o.bytes) fec_buf_size) o ≡ with_fec g memory o
unfolding with_fec
with_fec-step g memory o n e pos small =
    let test : (ltb 0 n && leb n fec_buf_size) ≡ true = ground arith in
    ap
      (λ b.
        if b then with_code (fec_encode g memory o.bytes (length o.bytes) fec_buf_size) o else o)
      (sym test)
    ∙ ap
        (λ (r : Option ℕ). elim r [
          | none ↦ o
          | some n ↦
              if ltb 0 n && leb n fec_buf_size
              then with_code (fec_encode g memory o.bytes (length o.bytes) fec_buf_size) o
              else o
        ])
        (sym e)

-- A code of up to 2048 bytes fits in `fec_buf`.
pub announced :
    (n len : ℕ) → 0 < n → n ≤ 2048 → some len ≡ fec_encoded_len n → (0 < len) × (len ≤ 4096)
announced n len pos small e = ground (arith, e, fec_encoded_len_lem n pos, fec_ecc_bytes_bounds n)

with_code-some :
    (code : List ℕ) (o : Outgoing)
    → 0 < length code
    → length code ≤ 4096
    → record o { fec = 1; bytes = code } ≡ with_code (some code) o
unfolding with_code
with_code-some code o pos small =
    let test : (ltb 0 (length code) && leb (length code) fec_buf_size) ≡ true = ground arith in
    rw test refl

with_code-none : (o : Outgoing) → o ≡ with_code none o
unfolding with_code
with_code-none o = refl

pub with_fec-IsCoded :
    (g : Gf) (memory : Bool) (o : Outgoing)
    → IsReached g
    → o.fec ≡ 0
    → 0 < length o.bytes
    → length o.bytes ≤ 2048
    → AllBytes o.bytes
    → IsCoded g o (with_fec g memory o)
with_fec-IsCoded g memory o reached no_code pos small b =
    let n = length o.bytes in
    let (code, encoded, size, decoded, code_bytes) =
      fec_encode_lem o.bytes 4096 4096 reached (λ i. get_or-lt o.bytes i b) pos (omega arith)
        (omega (arith, fec_ecc_bytes_bounds n)) (λ large. omega arith) (omega arith) in
    let (some_code, fits) = announced n (length code) pos small size in
    let step = with_fec-step g memory o (length code) (sym size) some_code fits in
    elim (Option-cases (fec_encode g memory o.bytes n fec_buf_size)) [
      | inl e ↦
          subst (IsCoded g o) (with_code-none o ∙ ap (λ r. with_code r o) (sym e) ∙ step)
            (record { bytes = b; same_flags = (refl, refl); coding = inl (no_code, refl) })
      | inr (code', e) ↦
          let same : some code' ≡ some code =
            sym (encode_without g memory o.bytes code' n 4096 e) ∙ encoded in
          subst (IsCoded g o)
            (with_code-some code o some_code fits ∙ ap (λ r. with_code r o) (sym (e ∙ same)) ∙ step)
            (record {
              bytes = code_bytes;
              same_flags = (refl, refl);
              coding = inr (refl, sym size, decoded);
            })
    ]
