-- ===== src/Link/Tests.antt =====
-- A run of a packet over the whole way.
use echo_protocol.Base.{
  ℕ, AllBytes, suc, ◌≡◌, refl, arith, true, none, some, Option, List, [], ◌∷◌, length,
  length-replicate, replicate, inl, zero,
}
use echo_protocol.Ring.{Buffer}
use echo_protocol.Ring.Inv.{IsValid}
use echo_protocol.Ring.Refine.{contents}
use echo_protocol.Fec.Gf.{zeroed}
use echo_protocol.Rohc.Compress.{rohc_compress}
use echo_protocol.Receiver.{Receiver, in_data}
use echo_protocol.Receiver.Frame.{hear, IsTimely}
use echo_protocol.Receiver.Frame.Whole.{IsStarted}
use echo_protocol.Transmit.{Sender, framed, tun_to_rb, choose, with_rohc, with_lz4, as_is}
use echo_protocol.Transmit.Coded.{with_fec-IsCoded}
use echo_protocol.Delivery.{Station, Surroundings, rb_to_tun}
use echo_protocol.Delivery.Settled.{IsGood}
use echo_protocol.Link.{packet_arrives}

abbrev pub empty_ring : Buffer
empty_ring = record { buf = λ j. 0; head = 0; tail = 0; count_put = 0; count_get = 0 }

pub empty_ring-IsValid : IsValid empty_ring
empty_ring-IsValid = ground arith

abbrev pub sender : Sender
sender = record {
  tx_rb = empty_ring;
  tx_scrambler = record { state = 9 };
  rohc_tx = record { context = replicate 40 0; context_valid = true };
  gf = zeroed;
  tx_packets = 0;
  tx_bytes = 0;
  tx_raw_counter = 0;
}

abbrev pub receiver : Receiver
receiver = record {
  state = in_data;
  sync_accumulator = 0;
  bits_received = 0;
  packet_len = 0;
  header_accumulator = 0;
  last_rx_time = 100;
  packet_ready = 0;
  is_compressed = 0;
  is_rohc = 0;
  is_fec = 0;
  rx_rb = empty_ring;
  rx_scrambler = record { state = 1 };
  correlator = record { corr_reg = 0; corr_bits = 0 };
  rx_sync_found = 1;
  rx_timeouts = 0;
}

receiver-IsStarted : IsStarted receiver
receiver-IsStarted = record {
  sound = record { ring = empty_ring-IsValid; sync = ground arith; scrambler = omega arith };
  busy = refl;
  count = refl;
  acc = refl;
  empty = refl;
}

abbrev pub station : Station
station = record {
  receiver = receiver;
  rohc_rx = record { context = replicate 40 0; context_valid = true };
  gf = zeroed;
  rx_packets = 0;
  rx_bytes = 0;
  rx_corrupted = 0;
  written = [];
}

abbrev pub no_lz4 : List ℕ → ℕ → Option (List ℕ)
no_lz4 input capacity = none

abbrev pub world : Surroundings
world = record {
  lz4_decompress = no_lz4;
  memory = true;
  beyond = [];
  uninitialised = replicate 64 7;
}

abbrev pub ping : List ℕ
ping = 1 ∷ 2 ∷ 3 ∷ 250 ∷ []

pub ping-IsGood : IsGood world ping
ping-IsGood = record {
  some_bytes = omega arith;
  verified = λ long v4. absurd (omega (arith, long));
}

-- Every bit comes in the same second.
pub same_second-IsTimely : (n : ℕ) → IsTimely 100 (replicate n 100)
same_second-IsTimely zero = tt
same_second-IsTimely (suc n) = (omega arith, omega arith, same_second-IsTimely n)

abbrev air : List ℕ
air = contents (tun_to_rb no_lz4 true (some ping) sender).tx_rb

pub ping-bytes : AllBytes ping
ping-bytes = (omega arith, (omega arith, (omega arith, (omega arith, tt))))

-- The packet goes out coded, and its header is not compressed.
ping-rohc : (framed no_lz4 true ping sender).1.rohc ≡ 0
unfolding framed rohc_compress choose with_rohc with_lz4
ping-rohc =
    (with_fec-IsCoded zeroed true (as_is ping) (inl refl) refl (omega arith) (omega arith)
      ping-bytes).same_flags.1

packet_arrives_example :
    ((hear receiver (replicate (length air) 100) air).packet_ready ≡ 1)
    × ((rb_to_tun world
          (hear receiver (replicate (length air) 100) air).packet_len
          (record station { receiver = hear receiver (replicate (length air) 100) air })).written
        ≡ ping ∷ [])
packet_arrives_example =
    packet_arrives no_lz4 true world ping (replicate (length air) 100) sender station
      (λ input output capacity e. absurd (ground arith))
      (λ input output capacity room e small. absurd (ground arith)) refl (omega arith) (omega arith)
      ping-bytes ping-IsGood empty_ring-IsValid refl (inl refl) ping-rohc receiver-IsStarted refl
      (inl refl) (length-replicate (length air) 100) (same_second-IsTimely (length air))
