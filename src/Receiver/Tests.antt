-- ===== src/Receiver/Tests.antt =====
-- Runs of the receiver.
use echo_protocol.Base.{◌≡◌, ◌++◌, arith, refl, replicate, true}
use echo_protocol.Base.Powers.{word_bits}
use echo_protocol.Header.{unpack, is_valid_header}
use echo_protocol.Scrambler.Stream.{scramble}
use echo_protocol.Receiver.Frame.{hear, Completed}
use echo_protocol.Receiver.Frame.Whole.{IsStarted, hear_lem}
use echo_protocol.Receiver.Search.{lead, last_of, IsWaiting, IsReported, hear_ones-lead}
use echo_protocol.Receiver.{searching, Receiver, in_data, process_rx_bit}
use echo_protocol.Receiver.Inv.{IsValid, process_rx_bit-IsValid}

-- In a frame of three bytes, of which the header has come.
abbrev busy : Receiver
busy = record {
  state = in_data;
  sync_accumulator = 0;
  bits_received = 16;
  packet_len = 3;
  header_accumulator = 3;
  last_rx_time = 100;
  packet_ready = 0;
  is_compressed = 0;
  is_rohc = 0;
  is_fec = 0;
  rx_rb = record { buf = λ j. 0; head = 0; tail = 0; count_put = 0; count_get = 0 };
  rx_scrambler = record { state = 1 };
  correlator = record { corr_reg = 0; corr_bits = 0 };
  rx_sync_found = 1;
  rx_timeouts = 0;
}

busy-IsValid : IsValid busy
busy-IsValid = ground arith

process_rx_bit-IsValid_example : IsValid (process_rx_bit 101 busy 1)
process_rx_bit-IsValid_example = process_rx_bit-IsValid 101 busy 1 (omega arith) busy-IsValid

-- A sync word has just come.
abbrev started : Receiver
started = record busy { bits_received = 0; packet_len = 0; header_accumulator = 0 }

started-IsStarted : IsStarted started
started-IsStarted = record {
  sound = record { ring = ground arith; sync = ground arith; scrambler = omega arith };
  busy = refl;
  count = refl;
  acc = refl;
  empty = refl;
}

-- The header of a payload of one byte, and the byte.
one_byte-valid : is_valid_header 1 ≡ true
unfolding is_valid_header unpack
one_byte-valid = refl

hear_lem_example :
    Completed
      (hear started
        (replicate 24 103)
        (scramble started.rx_scrambler (word_bits 16 1 ++ replicate 8 1)).1)
      (unpack 1)
      (word_bits 16 1 ++ replicate 8 1)
hear_lem_example =
    hear_lem 1 (replicate 8 1) (replicate 24 103) started (omega arith) one_byte-valid
      (ground arith) (unfold unpack in refl) refl started-IsStarted (ground arith)

-- Idle, after some ones.
abbrev idle : Receiver
idle = record started {
  state = searching;
  correlator = record { corr_reg = 7; corr_bits = 3 };
  sync_accumulator = 7;
}

idle-IsWaiting : IsWaiting idle
idle-IsWaiting = (
  3,
  record {
    search = record {
      sound = record { ring = ground arith; sync = ground arith; scrambler = omega arith };
      searching = refl;
      empty = refl;
    };
    at_most = omega arith;
    word = refl;
    register = refl;
  },
)

hear_ones-lead_example :
    IsReported
      (last_of 0 (replicate 48 101))
      (hear (hear idle (replicate 50 100) (replicate 50 1)) (replicate 48 101) lead)
hear_ones-lead_example =
    hear_ones-lead 50 (replicate 50 100) (replicate 48 101) idle idle-IsWaiting refl refl
