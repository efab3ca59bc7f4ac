-- ===== src/Link.antt =====
-- The whole way of a packet, from `tun_to_rb` at one station to `rb_to_tun` at the other, over a
-- channel that carries the bits of the transmit ring: src/echo_protocol.c.
pub mod Written
pub mod Times
pub mod Led
pub mod Air
pub mod Compressed
pub mod Tests
pub mod AirTests
mod CompressedTests
use mathlib.Core.Path.{subst}
use native.Mathlib.Decide.{ℕ_discrete}
use echo_protocol.Base.{
  ℕ, zero, suc, ◌+◌, ◌-◌, ◌*◌, ◌%◌, ◌^◌, ◌≤◌, ◌<◌, ◌≡◌, ◌⊎◌, inl, inr, refl, sym, ap, ap₂, ◌∙◌,
  arith, Bool, true, false, if◌then◌else◌,
}
use echo_protocol.Base.{
  List, [], ◌∷◌, ◌++◌, Option, some, none, length, length-append, AllBytes, AllBits, u16, for_up,
}
use echo_protocol.Base.Powers.{word_bits}
use echo_protocol.Base.Bytes.{bits_of, bits_of-AllBits, length-bits_of, length-word_bits}
use echo_protocol.Ring.{Buffer}
use echo_protocol.Ring.Inv.{IsValid as IsRing}
use echo_protocol.Ring.Refine.{contents}
use echo_protocol.Scrambler.{Scrambler}
use echo_protocol.Scrambler.Stream.{scramble, length-scramble}
use echo_protocol.Fec.Gf.{Gf, gf_init}
use echo_protocol.Fec.Gf.Field.{IsReached, reached-same}
use echo_protocol.Fec.Rs.{rs_decode_block}
use echo_protocol.Fec.Frame.{fec_decode}
use echo_protocol.Fec.Frame.Same.{decode_same}
use echo_protocol.Header.{Header, pack, unpack, is_valid_header}
use echo_protocol.Header.Valid.{unpack-pack}
use echo_protocol.Receiver.{Receiver}
use echo_protocol.Receiver.Frame.{hear, IsTimely, Completed}
use echo_protocol.Receiver.Frame.Whole.{IsStarted, hear_lem}
use echo_protocol.Transmit.{Sender, Outgoing, framed, header_for, tun_to_rb, lz4_buf_size, as_is}
use echo_protocol.Transmit.Sent.{frame_bits, fresh, IsSent, sent_whole}
use echo_protocol.Transmit.Choice.{GivesBytes, IsChosen}
use echo_protocol.Transmit.Coded.{IsCoded}
use echo_protocol.Transmit.Framed.{
  IsFrame, IsAnnounced, chosen_for, chosen_for-IsChosen, framed-IsFrame, framed-is_valid_header,
  tun_to_rb-IsSent,
}
use echo_protocol.Delivery.{Station, Surroundings, rb_to_tun, with_ring}
use echo_protocol.Delivery.Settled.{IsGood}
use echo_protocol.Delivery.Arrive.{IsHanded, read_frame, plain_frame, coded_frame, deliver-written}
use echo_protocol.Link.Written.{Undoes, Gives, chosen-Gives, IsComplete, frame-written}

pack-lt : (h : Header) → pack h < 2 ^ 16
unfolding pack
pack-lt h = omega arith

-- The flags of a frame are bits.
pub frame-bits :
    {g : Gf} {raw : List ℕ} {chosen : Outgoing} (o : Outgoing)
    → IsFrame g raw chosen o
    → chosen.comp + chosen.rohc ≤ 1
    → (o.comp < 2) × (o.rohc < 2) × (o.fec < 2)
frame-bits o (inl e) one = (
  omega (arith, ap (λ (a : Outgoing). a.comp) e),
  omega (arith, ap (λ (a : Outgoing). a.rohc) e),
  omega (arith, ap (λ (a : Outgoing). a.fec) e),
)
frame-bits o (inr c) one = elim c.coding [
  | inl (fec, bytes) ↦
      (omega (arith, c.same_flags), omega (arith, c.same_flags), omega (arith, fec))
  | inr (fec, size, decoded) ↦
      (omega (arith, c.same_flags), omega (arith, c.same_flags), omega (arith, fec))
]

-- The receiver at the end of a frame that was announced.
pub heard :
    (o : Outgoing) (r : Receiver) (times : List ℕ)
    → IsAnnounced o
    → (o.comp < 2) × (o.rohc < 2) × (o.fec < 2)
    → IsStarted r
    → r.rx_scrambler ≡ fresh
    → length times ≡ length (frame_bits o)
    → IsTimely r.last_rx_time times
    → Completed (hear r times (scramble fresh (frame_bits o)).1) (header_for o) (frame_bits o)
heard o r times a flags v e same on =
    let size : u16 (length o.bytes) ≡ length o.bytes = omega (arith, a) in
    let fields = unpack-pack (header_for o) flags.0 flags.1 flags.2 (omega (arith, a)) in
    let bits = length-append (word_bits 16 (pack (header_for o))) (bits_of o.bytes) in
    subst
      (λ (h : Header). Completed (hear r times (scramble fresh (frame_bits o)).1) h (frame_bits o))
      fields
      (subst
        (λ t.
          Completed (hear r times (scramble t (frame_bits o)).1) (unpack (pack (header_for o)))
            (frame_bits o))
        e
        (hear_lem (pack (header_for o)) (bits_of o.bytes) times r (pack-lt (header_for o)) a.0
          (bits_of-AllBits o.bytes)
          (omega (arith, ap (λ (h : Header). h.len) fields, size, length-bits_of o.bytes))
          (omega (arith, bits, length-word_bits 16 (pack (header_for o)))) v on))

pub complete :
    (st : Station) (o : Outgoing)
    → Completed st.receiver (header_for o) (frame_bits o)
    → IsComplete st o
complete st o v = record {
  ring = v.sound.ring;
  holds = v.holds;
  comp = ap (λ (h : Header). h.comp) v.header;
  rohc = ap (λ (h : Header). h.rohc) v.header;
  fec = ap (λ (h : Header). h.fec) v.header;
}

-- With an empty ring, the ring that `tun_to_rb` leaves holds the frame and nothing else.
pub sent_alone :
    (lz4_compress : List ℕ → ℕ → Option (List ℕ)) (memory : Bool) (raw : List ℕ) (s : Sender)
    → GivesBytes lz4_compress
    → IsReached s.gf
    → 0 < length raw
    → length raw ≤ 1784
    → AllBytes raw
    → IsRing s.tx_rb
    → contents s.tx_rb ≡ []
    → contents (tun_to_rb lz4_compress memory (some raw) s).tx_rb
      ≡ (scramble fresh (frame_bits (framed lz4_compress memory raw s).1)).1
sent_alone lz4_compress memory raw s lz4 reached pos small b ring empty =
    let o = (framed lz4_compress memory raw s).1 in
    let announced = framed-is_valid_header lz4_compress memory raw s lz4 reached pos small b in
    let sent = tun_to_rb-IsSent lz4_compress memory raw s lz4 reached pos (omega arith) b ring in
    let size = length-append (word_bits 16 (pack (header_for o))) (bits_of o.bytes) in
    sent_whole (frame_bits o) sent (
      omega (
        arith,
        ap length empty,
        size,
        length-word_bits 16 (pack (header_for o)),
        length-bits_of o.bytes,
        announced,
      ))
    ∙ ap (λ l. l ++ (scramble fresh (frame_bits o)).1) empty

-- The same, with the length that the receiver has taken.
pub arrives :
    (lz4_compress : List ℕ → ℕ → Option (List ℕ)) (memory : Bool) (env : Surroundings)
    (raw times : List ℕ) (s : Sender) (st : Station)
    → GivesBytes lz4_compress
    → Undoes lz4_compress env.lz4_decompress
    → env.memory ≡ true
    → 0 < length raw
    → length raw ≤ 1784
    → AllBytes raw
    → IsGood env raw
    → IsRing s.tx_rb
    → contents s.tx_rb ≡ []
    → IsReached s.gf
    → (framed lz4_compress memory raw s).1.rohc ≡ 0
    → IsStarted st.receiver
    → st.receiver.rx_scrambler ≡ fresh
    → IsReached st.gf
    → length times ≡ length (contents (tun_to_rb lz4_compress memory (some raw) s).tx_rb)
    → IsTimely st.receiver.last_rx_time times
    → let r =
        hear st.receiver times (contents (tun_to_rb lz4_compress memory (some raw) s).tx_rb) in
      (r.packet_ready ≡ 1)
      × (0 < r.packet_len)
      × ((rb_to_tun env r.packet_len (record st { receiver = r })).written
          ≡ st.written ++ (raw ∷ []))
arrives lz4_compress memory env raw times s st lz4 undoes malloc pos small b good ring empty reached
      plain started in_step reached' many on =
    let o = (framed lz4_compress memory raw s).1 in
    let chosen = chosen_for lz4_compress raw s in
    let v = chosen_for-IsChosen lz4_compress raw s lz4 pos b in
    let frame = framed-IsFrame lz4_compress memory raw s lz4 reached pos (omega arith) b in
    let announced = framed-is_valid_header lz4_compress memory raw s lz4 reached pos small b in
    let air = sent_alone lz4_compress memory raw s lz4 reached pos small b ring empty in
    let done =
      heard o st.receiver times announced (frame-bits o frame v.one_flag) started in_step
        (many ∙ ap length air ∙ length-scramble fresh (frame_bits o)) on in
    let r = hear st.receiver times (scramble fresh (frame_bits o)).1 in
    let st' = record st { receiver = r } in
    let len : length o.bytes ≡ r.packet_len =
      sym (ap (λ (h : Header). h.len) done.header ∙ omega (arith, announced)) in
    subst
      (λ bits.
        let r = hear st.receiver times bits in
        (r.packet_ready ≡ 1)
        × (0 < r.packet_len)
        × ((rb_to_tun env r.packet_len (record st { receiver = r })).written
            ≡ st.written ++ (raw ∷ [])))
      (sym air)
      (
        done.ready,
        omega (arith, len, announced),
        subst (λ n. (rb_to_tun env n st').written ≡ st.written ++ (raw ∷ [])) len
            (frame-written env st' raw reached reached' malloc good o frame
              (chosen-Gives lz4_compress env raw s lz4 undoes pos small b) (complete st' o done)
              plain b pos v.some_bytes announced.1 announced.2),
      )

-- A packet of 1 to 1784 bytes, whose header the sender does not compress, put into an empty transmit
-- ring by `tun_to_rb` (as it is, as an LZ4 block, with or without the code): when the receiver, just
-- after a sync word, hears the ring's bits, none more than 6 seconds after the one before, it sets
-- `packet_ready`, and `rb_to_tun` writes exactly that packet to the tunnel. LZ4 is to give back what it
-- has compressed, and the packet's IPv4 checksum is to be right.
pub packet_arrives :
    (lz4_compress : List ℕ → ℕ → Option (List ℕ)) (memory : Bool) (env : Surroundings)
    (raw times : List ℕ) (s : Sender) (st : Station)
    → GivesBytes lz4_compress
    → Undoes lz4_compress env.lz4_decompress
    → env.memory ≡ true
    → 0 < length raw
    → length raw ≤ 1784
    → AllBytes raw
    → IsGood env raw
    → IsRing s.tx_rb
    → contents s.tx_rb ≡ []
    → IsReached s.gf
    → (framed lz4_compress memory raw s).1.rohc ≡ 0
    → IsStarted st.receiver
    → st.receiver.rx_scrambler ≡ fresh
    → IsReached st.gf
    → length times ≡ length (contents (tun_to_rb lz4_compress memory (some raw) s).tx_rb)
    → IsTimely st.receiver.last_rx_time times
    → let r =
        hear st.receiver times (contents (tun_to_rb lz4_compress memory (some raw) s).tx_rb) in
      (r.packet_ready ≡ 1)
      × ((rb_to_tun env r.packet_len (record st { receiver = r })).written
          ≡ st.written ++ (raw ∷ []))
packet_arrives lz4_compress memory env raw times s st lz4 undoes malloc pos small b good ring empty
      reached plain started in_step reached' many on =
    let a =
      arrives lz4_compress memory env raw times s st lz4 undoes malloc pos small b good ring empty
        reached plain started in_step reached' many on in
    (a.0, a.2)
