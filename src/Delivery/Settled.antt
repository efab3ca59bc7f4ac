-- ===== src/Delivery/Settled.antt =====
-- How every run of `rb_to_tun` ends: the receiver is reset, and at most one packet is written.
use echo_protocol.Base.{
  ℕ, ◌+◌, ◌*◌, ◌%◌, ◌^◌, ◌≤◌, ◌<◌, ◌≡◌, ◌⊎◌, inl, inr, refl, ap, arith, ltb, leb, ◌==◌, ◌&&◌, ◌||◌,
  not,
}
use echo_protocol.Base.{
  List, [], ◌∷◌, ◌++◌, Option, some, none, length, bit_and, take, replicate, Bool-cases,
}
use echo_protocol.Ring.{rb_reset}
use echo_protocol.Ring.Inv.{IsValid as IsRing, rb_reset-IsValid}
use echo_protocol.Ring.Refine.{contents}
use echo_protocol.Scrambler.{scrambler_reset}
use echo_protocol.Sync.{sync_correlator_reset}
use echo_protocol.Receiver.{Receiver, searching, rx_reset}
use echo_protocol.Rohc.{byte, memcpy, ip_checksum, rohc_sync_context}
use echo_protocol.Fec.Gf.{gf_init}
use echo_protocol.Fec.Frame.{fec_decode}
use echo_protocol.Delivery.{
  Station, Surroundings, reset, with_ring, corrupt, skip_bits, read_bits, finish, try_rohc,
  after_rohc, deliver_rohc, after_lz4, deliver_lz4, deliver_raw, deliver, after_fec, uncode,
  after_read, take_payload, rb_to_tun, payload_size,
}

-- The receiver waits for a sync word, over an empty ring.
pub record IsIdle (r : Receiver) : Type 0 where
  pub ring : IsRing r.rx_rb
  pub empty : contents r.rx_rb ≡ []
  pub idle : r.state ≡ searching
  pub counts : (r.bits_received ≡ 0) × (r.packet_len ≡ 0) × (r.header_accumulator ≡ 0)
  pub flags : (r.is_compressed ≡ 0) × (r.is_rohc ≡ 0) × (r.is_fec ≡ 0)
  pub scrambler : r.rx_scrambler.state ≡ 1
  pub search : (r.sync_accumulator ≡ 0) × (r.correlator ≡ record { corr_reg = 0; corr_bits = 0 })

-- A packet that may be written: it has bytes, and one of IPv4 has a checksum that verifies.
pub record IsGood (env : Surroundings) (out : List ℕ) : Type 0 where
  pub some_bytes : 0 < length out
  pub verified :
      let packet = memcpy env.uninitialised out (length out) in
      20 ≤ length out
      → bit_and (byte packet 0) 0xF0 ≡ 0x40
      → ip_checksum packet (bit_and (byte packet 0) 0x0F * 4) ≡ 0

-- What is written and counted: nothing, a corrupted frame, or a good packet.
abbrev pub Outcome : Surroundings → Station → Station → Type 0
Outcome env st st' =
    ((st'.written ≡ st.written)
      × (st'.rx_packets ≡ st.rx_packets)
      × (st'.rx_bytes ≡ st.rx_bytes)
      × (st'.rx_corrupted ≡ st.rx_corrupted))
    ⊎ (((st'.written ≡ st.written)
          × (st'.rx_packets ≡ st.rx_packets)
          × (st'.rx_bytes ≡ st.rx_bytes)
          × (st'.rx_corrupted ≡ (st.rx_corrupted + 1) % 2 ^ 64))
        ⊎ ((out : List ℕ) × IsGood env out
            × (st'.written ≡ st.written ++ (out ∷ []))
            × (st'.rx_packets ≡ (st.rx_packets + 1) % 2 ^ 64)
            × (st'.rx_bytes ≡ (st.rx_bytes + length out) % 2 ^ 64)
            × (st'.rx_corrupted ≡ st.rx_corrupted)))

pub record IsSettled (env : Surroundings) (st st' : Station) : Type 0 where
  pub idle : IsIdle st'.receiver
  pub outcome : Outcome env st st'

-- Two stations with the same packets written and the same statistics.
abbrev Same : Station → Station → Type 0
Same st st' =
    (st'.written ≡ st.written)
    × (st'.rx_packets ≡ st.rx_packets)
    × (st'.rx_bytes ≡ st.rx_bytes)
    × (st'.rx_corrupted ≡ st.rx_corrupted)

rx_reset-IsIdle : (r : Receiver) → IsIdle (rx_reset r)
unfolding rx_reset scrambler_reset rb_reset sync_correlator_reset
rx_reset-IsIdle r = record {
  search = (refl, refl);
  ring = unfold rb_reset in rb_reset-IsValid r.rx_rb;
  empty = refl;
  idle = refl;
  counts = (refl, refl, refl);
  flags = (refl, refl, refl);
  scrambler = refl;
}

reset-IsSettled :
    (env : Surroundings) (st st' : Station) → Same st st' → IsSettled env st (reset st')
reset-IsSettled env st st' e = record { idle = rx_reset-IsIdle st'.receiver; outcome = inl e }

corrupt-IsSettled :
    (env : Surroundings) (st st' : Station) → Same st st' → IsSettled env st (corrupt st')
unfolding corrupt
corrupt-IsSettled env st st' e = record {
  idle = rx_reset-IsIdle st'.receiver;
  outcome = inr (inl (e.0, e.1, e.2, ap (λ n. (n + 1) % 2 ^ 64) e.3));
}

finish-IsSettled :
    (env : Surroundings) (out : List ℕ) (st st' : Station)
    → Same st st'
    → IsSettled env st (finish env out st')
unfolding finish
finish-IsSettled env out st st' e =
    let packet = memcpy env.uninitialised out (length out) in
    let cksum = ip_checksum packet (bit_and (byte packet 0) 0x0F * 4) in
    let bad = (leb 20 (length out) && (bit_and (byte packet 0) 0xF0 == 0x40)) && not (cksum == 0) in
    elim (Bool-cases bad) [
      | inl b ↦ rw b (corrupt-IsSettled env st st' e)
      | inr ok ↦ elim (Bool-cases (ltb 0 (length out))) [
        | inl pos ↦
            rw (ok, pos)
              (record {
                idle = rx_reset-IsIdle st'.receiver;
                outcome = inr (
                    inr (
                      out,
                      record {
                        some_bytes = ground (arith, pos);
                        verified = λ long v4. ground (arith, ok, long, v4);
                      },
                      ap (λ l. l ++ (out ∷ [])) e.0,
                      ap (λ n. (n + 1) % 2 ^ 64) e.1,
                      ap (λ n. (n + length out) % 2 ^ 64) e.2,
                      e.3,
                    ));
              })
        | inr none_left ↦ rw (ok, none_left) (reset-IsSettled env st st' e)
      ]
    ]

after_rohc-IsSettled :
    (env : Surroundings) (r : Option (List ℕ)) (st st' : Station)
    → Same st st'
    → IsSettled env st (after_rohc env r st')
after_rohc-IsSettled env none st st' e = corrupt-IsSettled env st st' e
after_rohc-IsSettled env (some out) st st' e = elim (Bool-cases (length out == 0)) [
  | inl z ↦ rw z (corrupt-IsSettled env st st' e)
  | inr p ↦ rw p (finish-IsSettled env out st st' e)
]

after_lz4-IsSettled :
    (env : Surroundings) (r : Option (List ℕ)) (st st' : Station)
    → Same st st'
    → IsSettled env st (after_lz4 env r st')
after_lz4-IsSettled env none st st' e = corrupt-IsSettled env st st' e
after_lz4-IsSettled env (some out) st st' e = finish-IsSettled env out st st' e

deliver-IsSettled :
    (env : Surroundings) (payload : List ℕ) (n : ℕ) (st st' : Station)
    → Same st st'
    → IsSettled env st (deliver env payload n st')
unfolding deliver deliver_rohc deliver_lz4 deliver_raw
deliver-IsSettled env payload n st st' e = elim (Bool-cases (not (st'.receiver.is_rohc == 0))) [
  | inl a ↦
      let (ctx, r) = try_rohc env payload n st'.rohc_rx in
      rw a (after_rohc-IsSettled env r st (record st' { rohc_rx = ctx }) e)
  | inr a ↦ elim (Bool-cases (not (st'.receiver.is_compressed == 0))) [
    | inl b ↦
        rw (a, b)
          (after_lz4-IsSettled env (env.lz4_decompress (take n payload) payload_size) st st' e)
    | inr b ↦
        rw (a, b)
          (finish-IsSettled env (take n payload) st
            (record st' { rohc_rx = rohc_sync_context st'.rohc_rx payload n }) e)
  ]
]

after_fec-IsSettled :
    (env : Surroundings) (payload : List ℕ) (r : Option (List ℕ)) (st st' : Station)
    → Same st st'
    → IsSettled env st (after_fec env payload r st')
after_fec-IsSettled env payload none st st' e = corrupt-IsSettled env st st' e
after_fec-IsSettled env payload (some out) st st' e = elim (Bool-cases (length out == 0)) [
  | inl z ↦ rw z (corrupt-IsSettled env st st' e)
  | inr p ↦ rw p (deliver-IsSettled env (memcpy payload out (length out)) (length out) st st' e)
]

after_read-IsSettled :
    (env : Surroundings) (n : ℕ) (r : Option (List ℕ)) (st st' : Station)
    → Same st st'
    → IsSettled env st (after_read env n r st')
unfolding uncode
after_read-IsSettled env n none st st' e = reset-IsSettled env st st' e
after_read-IsSettled env n (some payload) st st' e = elim (Bool-cases (st'.receiver.is_fec == 0)) [
  | inl z ↦ rw z (deliver-IsSettled env payload n st st' e)
  | inr p ↦
      let r = fec_decode st'.gf env.memory (take n payload) n payload_size in
      rw p (after_fec-IsSettled env payload r st (record st' { gf = gf_init st'.gf }) e)
]

-- However `rb_to_tun` ends (a ring that runs out, a length that is out of range, a code, a header or a
-- block that does not decode, a checksum that is wrong, or success), the receiver waits for a sync word
-- over an empty ring, with its counters and flags zero; and either nothing was written or counted, or
-- nothing was written and one more frame is counted as corrupted, or exactly one packet was written
-- and counted, which has bytes and, for IPv4, a checksum that verifies.
pub rb_to_tun-IsSettled :
    (env : Surroundings) (packet_len : ℕ) (st : Station)
    → IsSettled env st (rb_to_tun env packet_len st)
unfolding rb_to_tun take_payload
rb_to_tun-IsSettled env packet_len st =
    let (b, ok) = skip_bits 16 st.receiver.rx_rb in
    let skipped = with_ring st b in
    let (b', r) = read_bits (packet_len * 8) 0 (replicate payload_size 0) b in
    let same : Same st skipped = (refl, refl, refl, refl) in
    elim (Bool-cases (not ok)) [
      | inl short ↦ rw short (reset-IsSettled env st skipped same)
      | inr full ↦ elim (Bool-cases ((packet_len == 0) || ltb payload_size packet_len)) [
        | inl bad_len ↦ rw (full, bad_len) (corrupt-IsSettled env st skipped same)
        | inr good_len ↦
            rw (full, good_len)
              (after_read-IsSettled env packet_len r st (with_ring skipped b') same)
      ]
    ]
