-- ===== src/Rohc/Tests.antt =====
-- Runs of src/rohc.c.
use echo_protocol.Base.{ℕ, ◌≡◌, refl, arith, List, [], ◌∷◌, map, some, false}
use echo_protocol.Base.{replicate, for_up}
use echo_protocol.Rohc.{RohcState, rohc_init, crc8, ip_checksum, has, checksum_round}
use echo_protocol.Rohc.Compress.{
  sent, rohc_compress, compress_ipv4, header_ipv4, flags_ipv4, same_flow_ipv4,
}
use echo_protocol.Rohc.Rebuild.{IsPacket}
use echo_protocol.Rohc.Lockstep.{IsContext, AllPackets, Lockstep, lockstep, converse, converse_lem}

abbrev fresh : RohcState
fresh = record { context = replicate 40 0; context_valid = false }

-- Two UDP packets of one flow: the identification, the time to live and the checksum differ.
abbrev pub packet_1 : List ℕ
packet_1 =
    0x45 ∷ 0x00 ∷ 0x00 ∷ 0x17 ∷ 0x00 ∷ 0x01 ∷ 0x00 ∷ 0x00 ∷ 0x40 ∷ 0x11 ∷ 0x66 ∷ 0xD3 ∷ 0x0A ∷ 0x00
    ∷ 0x00 ∷ 0x01 ∷ 0x0A ∷ 0x00 ∷ 0x00 ∷ 0x02 ∷ 1 ∷ 2 ∷ 3 ∷ []

abbrev pub packet_2 : List ℕ
packet_2 =
    0x45 ∷ 0x00 ∷ 0x00 ∷ 0x17 ∷ 0x00 ∷ 0x02 ∷ 0x00 ∷ 0x00 ∷ 0x3F ∷ 0x11 ∷ 0x67 ∷ 0xD2 ∷ 0x0A ∷ 0x00
    ∷ 0x00 ∷ 0x01 ∷ 0x0A ∷ 0x00 ∷ 0x00 ∷ 0x02 ∷ 4 ∷ 5 ∷ 6 ∷ []

packet_1-IsPacket : IsPacket packet_1
unfolding ip_checksum has for_up checksum_round
packet_1-IsPacket = record {
  size = omega arith;
  first = refl;
  total_high = refl;
  total_low = refl;
  sum_high = refl;
  sum_low = refl;
}

pub packet_2-IsPacket : IsPacket packet_2
unfolding ip_checksum has for_up checksum_round
packet_2-IsPacket = record {
  size = omega arith;
  first = refl;
  total_high = refl;
  total_low = refl;
  sum_high = refl;
  sum_low = refl;
}

-- The second packet of the flow goes out with a header of 6 bytes.
second_is_short :
    let s = (rohc_compress fresh packet_1 23 2048).0 in
    (rohc_compress s packet_2 23 2048).1
    ≡ sent (0 ∷ 3 ∷ crc8 (0 ∷ 3 ∷ 0 ∷ 0 ∷ 2 ∷ 0x3F ∷ []) 6 ∷ 0 ∷ 2 ∷ 0x3F ∷ 4 ∷ 5 ∷ 6 ∷ [])
unfolding rohc_compress compress_ipv4 header_ipv4 flags_ipv4 same_flow_ipv4 has
second_is_short = refl

fresh-IsContext : IsContext fresh
fresh-IsContext = record { size = refl; first = omega arith }

lockstep_example : Lockstep [] 2048 2048 fresh packet_1
lockstep_example =
    lockstep fresh [] packet_1 2048 2048 fresh-IsContext packet_1-IsPacket (omega arith)
      (omega arith)

both-AllPackets : AllPackets 2048 (packet_1 ∷ packet_2 ∷ [])
both-AllPackets = (packet_1-IsPacket, omega arith, (packet_2-IsPacket, omega arith, tt))

converse_lem_example :
    let (s, r, got) =
      converse [] 2048 2048 (rohc_init fresh) (rohc_init fresh) (packet_1 ∷ packet_2 ∷ []) in
    (s ≡ r) × (got ≡ map some (packet_1 ∷ packet_2 ∷ []))
converse_lem_example = converse_lem [] 2048 fresh (packet_1 ∷ packet_2 ∷ []) both-AllPackets
