-- ===== src/Delivery/Tests.antt =====
-- Runs of the delivery.
use echo_protocol.Base.{true, none, [], replicate}
use echo_protocol.Receiver.{Receiver, searching}
use echo_protocol.Fec.Gf.{zeroed}
use echo_protocol.Delivery.{Station, Surroundings, rb_to_tun}
use echo_protocol.Delivery.Settled.{IsSettled, rb_to_tun-IsSettled}

abbrev world : Surroundings
world = record {
  lz4_decompress = λ input capacity. none;
  memory = true;
  beyond = [];
  uninitialised = replicate 64 7;
}

-- A ring that holds three bytes, of which the first two are the header.
abbrev receiver : Receiver
receiver = record {
  state = searching;
  sync_accumulator = 0;
  bits_received = 24;
  packet_len = 1;
  header_accumulator = 1;
  last_rx_time = 100;
  packet_ready = 1;
  is_compressed = 0;
  is_rohc = 0;
  is_fec = 0;
  rx_rb = record { buf = λ j. 1; head = 2; tail = 0; count_put = 8; count_get = 0 };
  rx_scrambler = record { state = 1 };
  correlator = record { corr_reg = 0; corr_bits = 0 };
  rx_sync_found = 1;
  rx_timeouts = 0;
}

abbrev station : Station
station = record {
  receiver = receiver;
  rohc_rx = record { context = replicate 40 0; context_valid = true };
  gf = zeroed;
  rx_packets = 4;
  rx_bytes = 90;
  rx_corrupted = 0;
  written = [];
}

rb_to_tun-IsSettled_example : IsSettled world station (rb_to_tun world 1 station)
rb_to_tun-IsSettled_example = rb_to_tun-IsSettled world 1 station
