-- ===== src/Transmit/Framed.antt =====
-- What `tun_to_rb` of src/echo_protocol.c makes of a packet: the frame, its header, and the ring.
use mathlib.Core.Path.{subst}
use echo_protocol.Base.{ℕ, ◌+◌, ◌≤◌, ◌<◌, ◌≡◌, ◌⊎◌, inl, inr, refl, sym, ap, arith}
use echo_protocol.Base.{List, length, Bool, true, leb, Option, some, u16, AllBytes, Bool-cases}
use echo_protocol.Rohc.Compress.{Compressed, rohc_compress}
use echo_protocol.Rohc.Bytes.{rohc_compress-AllBytes}
use echo_protocol.Fec.Gf.{Gf}
use echo_protocol.Fec.Gf.Field.{IsReached}
use echo_protocol.Fec.Length.{fec_encoded_len, fec_ecc_bytes_bounds, fec_encoded_len_lem}
use echo_protocol.Header.{pack, is_valid_header}
use echo_protocol.Header.Valid.{IsEncoded, is_valid_header_iff}
use echo_protocol.Ring.Inv.{IsValid as IsRing}
use echo_protocol.Transmit.Sent.{IsSent, Result, frame_bits, send_frame-IsSent}
use echo_protocol.Transmit.{
  tun_to_rb, send_frame, Sender, Outgoing, as_is, choose, header_for, framed, counted, lz4_buf_size,
  rohc_max_compressed,
}
use echo_protocol.Transmit.Choice.{IsChosen, GivesBytes, choose-IsChosen}
use echo_protocol.Transmit.Coded.{IsCoded, with_fec-IsCoded, announced}

-- The bytes that `tun_to_rb` chooses for a packet.
abbrev pub chosen_for : (List ℕ → ℕ → Option (List ℕ)) → List ℕ → Sender → Outgoing
chosen_for lz4_compress raw s =
    choose lz4_compress (rohc_compress s.rohc_tx raw (length raw) rohc_max_compressed).1 raw

-- A packet that goes as it is, or the code of the bytes that are chosen for it.
abbrev pub IsFrame : Gf → List ℕ → Outgoing → Outgoing → Type 0
IsFrame g raw chosen o = (o ≡ as_is raw) ⊎ IsCoded g chosen o

pub chosen_for-IsChosen :
    (lz4_compress : List ℕ → ℕ → Option (List ℕ)) (raw : List ℕ) (s : Sender)
    → GivesBytes lz4_compress
    → 0 < length raw
    → AllBytes raw
    → IsChosen
        (lz4_compress raw lz4_buf_size)
        (rohc_compress s.rohc_tx raw (length raw) rohc_max_compressed).1
        raw
        (chosen_for lz4_compress raw s)
chosen_for-IsChosen lz4_compress raw s lz4 pos b =
    choose-IsChosen lz4_compress _ raw lz4
      (λ out e. rohc_compress-AllBytes s.rohc_tx raw out (length raw) rohc_max_compressed b e) pos b

pub framed-IsFrame :
    (lz4_compress : List ℕ → ℕ → Option (List ℕ)) (memory : Bool) (raw : List ℕ) (s : Sender)
    → GivesBytes lz4_compress
    → IsReached s.gf
    → 0 < length raw
    → length raw ≤ 2048
    → AllBytes raw
    → IsFrame s.gf raw (chosen_for lz4_compress raw s) (framed lz4_compress memory raw s).1
unfolding framed
framed-IsFrame lz4_compress memory raw s lz4 reached pos small b =
    let v = chosen_for-IsChosen lz4_compress raw s lz4 pos b in
    elim (Bool-cases (leb 100 (s.tx_raw_counter + 1))) [
      | inl e ↦ rw e (inl refl)
      | inr e ↦ rw e (
          inr (
            with_fec-IsCoded s.gf memory (chosen_for lz4_compress raw s) reached v.no_code
              v.some_bytes (omega (arith, v.at_most)) v.bytes))
    ]

-- What a valid header needs of a frame.
header_for-valid :
    (o : Outgoing)
    → o.comp + o.rohc ≤ 1
    → o.fec < 2
    → 0 < length o.bytes
    → length o.bytes ≤ 2048
    → (o.fec ≡ 1 → IsEncoded (length o.bytes))
    → is_valid_header (pack (header_for o)) ≡ true
header_for-valid o one bit pos small code =
    let same : u16 (length o.bytes) ≡ length o.bytes = omega arith in
    (is_valid_header_iff (header_for o) (omega arith) (omega arith) bit (omega arith)).1
      (one, omega arith, omega arith, λ e. subst IsEncoded (sym same) (code e))

-- The code of at most 1784 bytes has at most 2042.
code-small :
    (n len : ℕ) → 0 < n → n ≤ 1784 → fec_encoded_len n ≡ some len → (0 < len) × (len ≤ 2042)
code-small n len pos small e = ground (arith, e, fec_encoded_len_lem n pos, fec_ecc_bytes_bounds n)

-- A header that the receiver takes, for a payload that has some bytes and not more than 2048.
abbrev pub IsAnnounced : Outgoing → Type 0
IsAnnounced o =
    (is_valid_header (pack (header_for o)) ≡ true) × (0 < length o.bytes) × (length o.bytes ≤ 2048)

coded-IsAnnounced :
    {g : Gf} {l : Option (List ℕ)} {result : Compressed} {raw : List ℕ} {chosen : Outgoing}
    (o : Outgoing)
    → IsChosen l result raw chosen
    → length raw ≤ 1784
    → IsCoded g chosen o
    → IsAnnounced o
coded-IsAnnounced {chosen = chosen} o v small c = elim c.coding [
  | inl (fec, bytes) ↦
      let size = ap length bytes in
      (
        header_for-valid o (omega (arith, c.same_flags, v.one_flag)) (omega (arith, fec))
            (omega (arith, size, v.some_bytes)) (omega (arith, size, v.at_most))
            (λ h. absurd (omega (arith, fec, h))),
        omega (arith, size, v.some_bytes),
        omega (arith, size, v.at_most),
      )
  | inr (fec, size, decoded) ↦
      let (some_bytes, few) =
        code-small (length chosen.bytes) (length o.bytes) v.some_bytes (omega (arith, v.at_most))
          size in
      (
        header_for-valid o (omega (arith, c.same_flags, v.one_flag)) (omega (arith, fec)) some_bytes
            (omega arith) (λ h. (length chosen.bytes, size)),
        some_bytes,
        omega arith,
      )
]

-- A packet of 1 to 1784 bytes goes out under a header that `is_valid_header` accepts, however it was
-- compressed and whether or not it was coded, and the announced length is that of the payload.
pub framed-is_valid_header :
    (lz4_compress : List ℕ → ℕ → Option (List ℕ)) (memory : Bool) (raw : List ℕ) (s : Sender)
    → GivesBytes lz4_compress
    → IsReached s.gf
    → 0 < length raw
    → length raw ≤ 1784
    → AllBytes raw
    → IsAnnounced (framed lz4_compress memory raw s).1
framed-is_valid_header lz4_compress memory raw s lz4 reached pos small b =
    let chosen = chosen_for lz4_compress raw s in
    let v = chosen_for-IsChosen lz4_compress raw s lz4 pos b in
    elim (framed-IsFrame lz4_compress memory raw s lz4 reached pos (omega arith) b) [
      | inl e ↦ rw e (
        header_for-valid (as_is raw) (omega arith) (omega arith) pos (omega arith)
            (λ h. absurd (omega (arith, h))),
        pos,
        omega arith,
      )
      | inr c ↦ coded-IsAnnounced (framed lz4_compress memory raw s).1 v small c
    ]

keeps_ring :
    (lz4_compress : List ℕ → ℕ → Option (List ℕ)) (memory : Bool) (raw : List ℕ) (s : Sender)
    → (framed lz4_compress memory raw s).0.tx_rb ≡ s.tx_rb
unfolding framed counted
keeps_ring lz4_compress memory raw s = refl

frame-length :
    {g : Gf} {l : Option (List ℕ)} {result : Compressed} {raw : List ℕ} {chosen : Outgoing}
    (o : Outgoing)
    → IsChosen l result raw chosen
    → length raw ≤ 2048
    → IsFrame g raw chosen o
    → length o.bytes < 65536
frame-length o v small (inl e) = omega (arith, ap (λ (a : Outgoing). length a.bytes) e)
frame-length {chosen = chosen} o v small (inr c) = elim c.coding [
  | inl (fec, bytes) ↦ omega (arith, ap length bytes, v.at_most)
  | inr (fec, size, decoded) ↦ omega (
    arith,
    announced (length chosen.bytes) (length o.bytes) v.some_bytes (omega (arith, v.at_most))
        (sym size),
  )
]

-- On a valid ring, for a packet of 1 to 2048 bytes: `tun_to_rb` leaves a valid ring that holds, behind
-- what it held, the header and the payload scrambled from the state that `scrambler_reset` leaves;
-- only where the ring fills is it a part of their front.
pub tun_to_rb-IsSent :
    (lz4_compress : List ℕ → ℕ → Option (List ℕ)) (memory : Bool) (raw : List ℕ) (s : Sender)
    → GivesBytes lz4_compress
    → IsReached s.gf
    → 0 < length raw
    → length raw ≤ 2048
    → AllBytes raw
    → IsRing s.tx_rb
    → IsSent s
        (tun_to_rb lz4_compress memory (some raw) s)
        (frame_bits (framed lz4_compress memory raw s).1)
unfolding tun_to_rb
tun_to_rb-IsSent lz4_compress memory raw s lz4 reached pos small b ring =
    let f = framed lz4_compress memory raw s in
    let same = keeps_ring lz4_compress memory raw s in
    let sent =
      send_frame-IsSent f.1 f.0
        (frame-length f.1 (chosen_for-IsChosen lz4_compress raw s lz4 pos b) small
          (framed-IsFrame lz4_compress memory raw s lz4 reached pos small b))
        (subst IsRing (sym same) ring) in
    record {
      valid = sent.valid;
      result = subst (λ rb. Result rb (send_frame f.1 f.0) (frame_bits f.1)) same sent.result;
    }
