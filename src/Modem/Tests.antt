-- ===== src/Modem/Tests.antt =====
-- Two symbols that the filters hear.
use echo_protocol.Base.{ℕ, ◌≡◌, refl, arith, List, [], ◌∷◌, replicate}
use echo_protocol.Receiver.{Receiver, searching}
use echo_protocol.Modem.{Demod, reset_state}
use echo_protocol.Modem.Symbols.{Sample, flatten, IsBetween, audio_all, hear_symbols, audio_all_lem}
use echo_protocol.Callback.Toy.{toy, toy_filters}

abbrev receiver : Receiver
receiver = record {
  state = searching;
  sync_accumulator = 0;
  bits_received = 0;
  packet_len = 0;
  header_accumulator = 0;
  last_rx_time = 0;
  packet_ready = 0;
  is_compressed = 0;
  is_rohc = 0;
  is_fec = 0;
  rx_rb = record { buf = λ j. 0; head = 0; tail = 0; count_put = 0; count_get = 0 };
  rx_scrambler = record { state = 1 };
  correlator = record { corr_reg = 0; corr_bits = 0 };
  rx_sync_found = 0;
  rx_timeouts = 0;
}

abbrev demod : Demod ℕ
demod = record { freq_states = toy_filters; rx_sample_count = 0; receiver = receiver }

demod-IsBetween : IsBetween toy demod
unfolding reset_state
demod-IsBetween = record { count = refl; quiet = refl }

-- The symbols 2 and 1.
abbrev two_symbols : List (List (Sample ℕ))
two_symbols = replicate 32 (7, 3) ∷ replicate 32 (8, 2) ∷ []

audio_all_lem_example :
    audio_all toy demod (flatten two_symbols)
    ≡ record demod { receiver = hear_symbols toy toy_filters receiver two_symbols }
audio_all_lem_example = audio_all_lem toy two_symbols demod demod-IsBetween (ground arith)
