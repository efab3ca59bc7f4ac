-- ===== src/Setup/Tests.antt =====
-- A station on memory that holds other things.
use echo_protocol.Base.{ℕ, ◌≡◌, refl, List, [], ◌∷◌, none, some, replicate, true}
use echo_protocol.Ring.{Buffer}
use echo_protocol.Receiver.{in_data}
use echo_protocol.Rohc.{RohcState}
use echo_protocol.Callback.Toy.{toy, toy_filters, toy_oscillator}
use echo_protocol.Tunnel.{Sys, tun_alloc}
use echo_protocol.Tunnel.Tests.{os, sys}
use echo_protocol.Setup.{EchoProtocol, echo_init, set_fields, tun_flags, at_start}
use echo_protocol.Setup.Ready.{IsReady, echo_init-IsReady}

abbrev pub block : Buffer
block = record { buf = λ j. 205; head = 9; tail = 4; count_put = 3; count_get = 7 }

abbrev used : RohcState
used = record { context = replicate 40 205; context_valid = true }

abbrev pub stale : EchoProtocol ℕ
stale = record {
  tun_fd = 77;
  tx_rb = none;
  rx_rb = some block;
  mod_state = toy_oscillator;
  freq_states = toy_filters;
  rx = record {
    state = in_data;
    sync_accumulator = 1;
    rx_sample_count = 2;
    bits_received = 3;
    packet_len = 4;
    header_accumulator = 5;
    last_rx_time = 6;
    packet_ready = 7;
    is_compressed = 8;
    is_rohc = 9;
    is_fec = 10;
  };
  tx_sample_count = 11;
  rohc_tx = used;
  rohc_rx = used;
  tx_scrambler = record { state = 12 };
  rx_scrambler = record { state = 13 };
  stats = record {
    tx_packets = 1;
    tx_bytes = 1;
    rx_packets = 1;
    rx_bytes = 1;
    rx_corrupted = 1;
    rx_sync_found = 1;
    rx_timeouts = 1;
  };
}

abbrev pub tun0 : List ℕ
tun0 = 116 ∷ 117 ∷ 110 ∷ 48 ∷ []

pub booted : EchoProtocol ℕ
booted = set_fields toy (some block) (some block) 5 stale

pub booted_sys : Sys
booted_sys = (tun_alloc os tun0 tun_flags sys).1

pub starts :
    echo_init toy os (some block) (some block) tun0 stale sys ≡ (some (booted, tun0), booted_sys)
unfolding echo_init tun_alloc booted booted_sys
starts = refl

-- The second `malloc` gives nothing.
half_booted : EchoProtocol ℕ
half_booted = set_fields toy (some block) none 5 stale

starts_half :
    echo_init toy os (some block) none tun0 stale sys ≡ (some (half_booted, tun0), booted_sys)
unfolding echo_init tun_alloc half_booted booted_sys
starts_half = refl

half_booted-IsReady : IsReady toy at_start half_booted (some block) none
half_booted-IsReady =
    echo_init-IsReady toy (some block) none os tun0 stale half_booted tun0 sys booted_sys
      starts_half

echo_init-IsReady_example : IsReady toy at_start booted (some block) (some block)
echo_init-IsReady_example =
    echo_init-IsReady toy (some block) (some block) os tun0 stale booted tun0 sys booted_sys starts
