-- ===== src/Delivery/Arrive.antt =====
-- What `rb_to_tun` does with a whole frame: its bytes are read, decoded, and handed on.
use mathlib.Core.Path.{subst}
use echo_protocol.Base.{
  ◌+◌, ◌%◌, ◌^◌, ℕ, ◌-◌, ◌*◌, ◌≤◌, ◌<◌, ◌≡◌, ◌⊎◌, inl, inr, refl, sym, ap, ◌∙◌, arith, true, false,
  ltb, leb, ◌==◌, ◌&&◌, ◌||◌, not,
}
use echo_protocol.Base.{
  List, [], ◌∷◌, ◌++◌, append-nil, some, length, bit_and, take, drop, replicate, AllBytes,
  take_prefix, take_all,
}
use echo_protocol.Base.Powers.{word_bits}
use echo_protocol.Base.Bytes.{bits_of, length-word_bits}
use echo_protocol.Ring.{Buffer}
use echo_protocol.Ring.Inv.{IsValid as IsRing}
use echo_protocol.Ring.Refine.{contents}
use echo_protocol.Rohc.{byte, memcpy, ip_checksum, rohc_sync_context}
use echo_protocol.Fec.Gf.{Gf, gf_init}
use echo_protocol.Fec.Frame.{fec_decode}
use echo_protocol.Delivery.{
  reset, Station, Surroundings, with_ring, skip_bits, read_bits, finish, after_lz4, deliver_lz4,
  deliver_raw, deliver, after_fec, uncode, after_read, take_payload, rb_to_tun, payload_size,
}
use echo_protocol.Delivery.Settled.{IsGood}
use echo_protocol.Delivery.Read.{Skipped, skip_bits_lem, read_bits_lem}

-- `audio_payload` after the loop.
abbrev pub padded : List ℕ → List ℕ
padded bytes = bytes ++ replicate (4096 - length bytes) 0

-- A whole frame is read: its header is dropped and its payload is what goes on.
pub read_frame :
    (env : Surroundings) (st : Station) (w : ℕ) (bytes : List ℕ)
    → IsRing st.receiver.rx_rb
    → contents st.receiver.rx_rb ≡ word_bits 16 w ++ bits_of bytes
    → AllBytes bytes
    → 0 < length bytes
    → length bytes ≤ 4096
    → (b : Buffer) × (rb_to_tun env (length bytes) st
        ≡ uncode env (padded bytes) (length bytes) (with_ring st b))
unfolding rb_to_tun take_payload
read_frame env st w bytes v e all pos small =
    let skipped : Skipped (skip_bits 16 st.receiver.rx_rb) (bits_of bytes) =
      subst (λ n. Skipped (skip_bits n st.receiver.rx_rb) (bits_of bytes)) (length-word_bits 16 w)
        (skip_bits_lem (word_bits 16 w) (bits_of bytes) st.receiver.rx_rb v e) in
    let b = (skip_bits 16 st.receiver.rx_rb).0 in
    let read =
      read_bits_lem bytes [] 4096 b all small skipped.ring
        (skipped.rest ∙ sym (append-nil (bits_of bytes))) in
    let test : ((length bytes == 0) || ltb payload_size (length bytes)) ≡ false = ground arith in
    (
      (read_bits (length bytes * 8) 0 (replicate 4096 0) b).0,
      rw (skipped.all, test)
          (ap
            (λ r.
              after_read env (length bytes) r
                (with_ring st (read_bits (length bytes * 8) 0 (replicate 4096 0) b).0))
            read.all),
    )

-- What `deliver` is called with: the bytes, in front of an array, and a station that differs in its
-- ring and its tables alone.
pub record IsHanded (env : Surroundings) (st end : Station) (bytes : List ℕ) : Type 0 where
  pub ring : Buffer
  pub gf : Gf
  pub array : List ℕ
  pub front : take (length bytes) array ≡ bytes
  pub handed : end ≡ deliver env array (length bytes) (record (with_ring st ring) { gf = gf })

pub plain_frame :
    (env : Surroundings) (st : Station) (bytes : List ℕ) (b : Buffer)
    → st.receiver.is_fec ≡ 0
    → IsHanded env st (uncode env (padded bytes) (length bytes) (with_ring st b)) bytes
unfolding uncode
plain_frame env st bytes b e =
    let test : (st.receiver.is_fec == 0) ≡ true = ground (arith, e) in
    record {
      ring = b;
      gf = st.gf;
      array = padded bytes;
      front = take_prefix bytes _ (length bytes) refl;
      handed = rw test refl;
    }

pub coded_frame :
    (env : Surroundings) (st : Station) (code bytes : List ℕ) (b : Buffer)
    → st.receiver.is_fec ≡ 1
    → fec_decode st.gf env.memory code (length code) 4096 ≡ some bytes
    → 0 < length bytes
    → IsHanded env st (uncode env (padded code) (length code) (with_ring st b)) bytes
unfolding uncode
coded_frame env st code bytes b e decoded pos =
    let test : (st.receiver.is_fec == 0) ≡ false = ground (arith, e) in
    let test' : (length bytes == 0) ≡ false = ground arith in
    let front = take_prefix code (replicate (4096 - length code) 0) (length code) refl in
    record {
      ring = b;
      gf = gf_init st.gf;
      array = memcpy (padded code) bytes (length bytes);
      front =
          ap (λ l. take (length bytes) (l ++ drop (length bytes) (padded code)))
            (take_all (length bytes) bytes (omega arith))
          ∙ take_prefix bytes _ (length bytes) refl;
      handed = rw test (
          ap
            (λ l.
              after_fec env (padded code) (fec_decode st.gf env.memory l (length code) 4096)
                (record (with_ring st b) { gf = gf_init st.gf }))
            front
          ∙ ap (λ r. after_fec env (padded code) r (record (with_ring st b) { gf = gf_init st.gf }))
              decoded
          ∙ rw test' refl);
    }

-- A good packet is written and counted.
abbrev pub handed_over : List ℕ → Station → Station
handed_over out st = reset (record st {
  written = st.written ++ (out ∷ []);
  rx_packets = (st.rx_packets + 1) % 2 ^ 64;
  rx_bytes = (st.rx_bytes + length out) % 2 ^ 64;
})

pub finish_good :
    (env : Surroundings) (out : List ℕ) (st : Station)
    → IsGood env out
    → finish env out st ≡ handed_over out st
unfolding finish
finish_good env out st good =
    let packet = memcpy env.uninitialised out (length out) in
    let cksum = ip_checksum packet (bit_and (byte packet 0) 0x0F * 4) in
    let test : ((leb 20 (length out) && (bit_and (byte packet 0) 0xF0 == 0x40)) && not (cksum == 0))
        ≡ false =
      ground (arith, good.verified) in
    let pos : ltb 0 (length out) ≡ true = ground (arith, good.some_bytes) in rw (test, pos) refl

finish-written :
    (env : Surroundings) (out : List ℕ) (st : Station)
    → IsGood env out
    → (finish env out st).written ≡ st.written ++ (out ∷ [])
finish-written env out st good = ap (λ (t : Station). t.written) (finish_good env out st good)

-- Bytes that are neither compressed, or are compressed as a block, are written as the packet.
pub deliver-written :
    (env : Surroundings) (array bytes raw : List ℕ) (st : Station)
    → take (length bytes) array ≡ bytes
    → st.receiver.is_rohc ≡ 0
    → ((st.receiver.is_compressed ≡ 0) × (bytes ≡ raw))
      ⊎ ((st.receiver.is_compressed ≡ 1) × (env.lz4_decompress bytes 4096 ≡ some raw))
    → IsGood env raw
    → (deliver env array (length bytes) st).written ≡ st.written ++ (raw ∷ [])
unfolding deliver deliver_lz4 deliver_raw
deliver-written env array bytes raw st front r0 (inl (c0, e)) good =
    let rohc : (st.receiver.is_rohc == 0) ≡ true = ground (arith, r0) in
    let comp : (st.receiver.is_compressed == 0) ≡ true = ground (arith, c0) in
    let st' = record st { rohc_rx = rohc_sync_context st.rohc_rx array (length bytes) } in
    rw (rohc, comp)
      (ap (λ out. (finish env out st').written) (front ∙ e) ∙ finish-written env raw st' good)
deliver-written env array bytes raw st front r0 (inr (c1, e)) good =
    let rohc : (st.receiver.is_rohc == 0) ≡ true = ground (arith, r0) in
    let comp : (st.receiver.is_compressed == 0) ≡ false = ground (arith, c1) in
    rw (rohc, comp)
      (ap (λ r. (after_lz4 env r st).written) (ap (λ l. env.lz4_decompress l 4096) front ∙ e)
        ∙ finish-written env raw st good)
