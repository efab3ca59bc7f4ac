-- ===== src/Transmit/Tests.antt =====
-- Runs of the sender.
use echo_protocol.Base.{ℕ, refl, arith, true, none, some, Option, List, [], ◌∷◌, replicate, inl}
use echo_protocol.Ring.{Buffer}
use echo_protocol.Ring.Inv.{IsValid}
use echo_protocol.Fec.Gf.{zeroed}
use echo_protocol.Transmit.{Sender, framed, tun_to_rb}
use echo_protocol.Transmit.Sent.{IsSent, frame_bits}
use echo_protocol.Transmit.Framed.{IsAnnounced, framed-is_valid_header, tun_to_rb-IsSent}

abbrev ring : Buffer
ring = record { buf = λ j. 0; head = 7; tail = 7; count_put = 2; count_get = 2 }

ring-IsValid : IsValid ring
ring-IsValid = ground arith

abbrev idle : Sender
idle = record {
  tx_rb = ring;
  tx_scrambler = record { state = 9 };
  rohc_tx = record { context = replicate 40 0; context_valid = true };
  gf = zeroed;
  tx_packets = 0;
  tx_bytes = 0;
  tx_raw_counter = 0;
}

-- A block library that never makes a block smaller.
abbrev no_lz4 : List ℕ → ℕ → Option (List ℕ)
no_lz4 input capacity = none

abbrev ping : List ℕ
ping = 1 ∷ 2 ∷ 3 ∷ 250 ∷ []

tun_to_rb-IsSent_example :
    IsSent idle
      (tun_to_rb no_lz4 true (some ping) idle)
      (frame_bits (framed no_lz4 true ping idle).1)
tun_to_rb-IsSent_example =
    tun_to_rb-IsSent no_lz4 true ping idle (λ input output capacity e. absurd (ground arith))
      (inl refl) (omega arith) (omega arith)
      (omega arith, (omega arith, (omega arith, (omega arith, tt)))) ring-IsValid

framed-is_valid_header_example : IsAnnounced (framed no_lz4 true ping idle).1
framed-is_valid_header_example =
    framed-is_valid_header no_lz4 true ping idle (λ input output capacity e. absurd (ground arith))
      (inl refl) (omega arith) (omega arith)
      (omega arith, (omega arith, (omega arith, (omega arith, tt))))
