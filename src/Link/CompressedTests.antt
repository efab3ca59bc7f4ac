-- ===== src/Link/CompressedTests.antt =====
-- The second packet of a flow.
use echo_protocol.Base.{
  ℕ, ◌≡◌, refl, ◌∙◌, arith, List, [], ◌∷◌, ◌++◌, length, length-replicate, replicate, take, inl,
  true, some, AllBytes, for_up,
}
use echo_protocol.Ring.Refine.{contents}
use echo_protocol.Receiver.Frame.{hear}
use echo_protocol.Receiver.Search.{IsWaiting}
use echo_protocol.Fec.Gf.{zeroed}
use echo_protocol.Rohc.{RohcState, ip_checksum, checksum_round, has}
use echo_protocol.Rohc.Compress.{
  rohc_compress, compress_ipv4, header_ipv4, flags_ipv4, same_flow_ipv4, memcmp_same,
}
use echo_protocol.Rohc.Lockstep.{IsContext}
use echo_protocol.Rohc.Tests.{packet_1, packet_2, packet_2-IsPacket}
use echo_protocol.Transmit.{Sender, framed, choose, with_rohc}
use echo_protocol.Transmit.Coded.{with_fec-IsCoded}
use echo_protocol.Transmit.Framed.{chosen_for, chosen_for-IsChosen}
use echo_protocol.Delivery.{Station}
use echo_protocol.Delivery.Settled.{IsGood}
use echo_protocol.Main.{serve_frame, read_tunnel}
use echo_protocol.Link.Tests.{
  sender, station, world, no_lz4, empty_ring-IsValid, same_second-IsTimely,
}
use echo_protocol.Link.AirTests.{idle, idle-IsWaiting}
use echo_protocol.Link.Compressed.{compressed_arrives}

-- The context after the first packet.
abbrev shared : RohcState
shared = record { context = take 20 packet_1 ++ replicate 20 0; context_valid = true }

shared-IsContext : IsContext shared
shared-IsContext = record { size = refl; first = omega arith }

abbrev talks : Sender
talks = record sender { rohc_tx = shared }

abbrev listens : Station
listens = record station { receiver = idle; rohc_rx = shared }

packet_2-AllBytes : AllBytes packet_2
packet_2-AllBytes = ground arith

packet_2-IsGood : IsGood world packet_2
unfolding ip_checksum for_up checksum_round has
packet_2-IsGood = record { some_bytes = omega arith; verified = λ long v4. refl }

chosen-rohc : (chosen_for no_lz4 packet_2 talks).rohc ≡ 1
unfolding choose with_rohc rohc_compress compress_ipv4 header_ipv4 flags_ipv4 same_flow_ipv4
    memcmp_same has
chosen-rohc = refl

framed-rohc : (framed no_lz4 true packet_2 talks).1.rohc ≡ 1
unfolding framed
framed-rohc =
    let w =
      chosen_for-IsChosen no_lz4 packet_2 talks (λ input output capacity e. absurd (ground arith))
        (omega arith) packet_2-AllBytes in
    (with_fec-IsCoded zeroed true (chosen_for no_lz4 packet_2 talks) (inl refl) w.no_code
      w.some_bytes (omega (arith, w.at_most)) w.bytes).same_flags.1
    ∙ chosen-rohc

abbrev sent_bits : List ℕ
sent_bits = contents (read_tunnel no_lz4 true (some packet_2) talks).tx_rb

abbrev served_station : Station
served_station =
    serve_frame world
      (record listens { receiver = hear idle (replicate (length sent_bits) 100) sent_bits })

compressed_arrives_example :
    (served_station.written ≡ packet_2 ∷ [])
    × (served_station.rohc_rx ≡ (framed no_lz4 true packet_2 talks).0.rohc_tx)
    × IsWaiting served_station.receiver
compressed_arrives_example =
    compressed_arrives no_lz4 world packet_2 talks
      (λ input output capacity e. absurd (ground arith)) refl (omega arith) packet_2-AllBytes
      packet_2-IsPacket packet_2-IsGood empty_ring-IsValid refl (inl refl) shared-IsContext listens
      (replicate (length sent_bits) 100) 100 framed-rohc (inl refl) refl idle-IsWaiting
      (omega arith) (length-replicate (length sent_bits) 100)
      (same_second-IsTimely (length sent_bits))
