-- ===== src/Callback/Tests.antt =====
-- A call that plays three bits and hears two symbols.
use echo_protocol.Base.{ℕ, ◌≡◌, refl, arith, List, [], ◌∷◌, replicate, if◌then◌else◌, ◌==◌}
use echo_protocol.Ring.{Buffer}
use echo_protocol.Ring.Inv.{IsValid as IsRing}
use echo_protocol.Ring.Refine.{contents}
use echo_protocol.Receiver.{Receiver, searching}
use echo_protocol.Modem.{reset_state}
use echo_protocol.Modem.Symbols.{Sample, flatten, IsBetween, hear_symbols}
use echo_protocol.Callback.{Audio, pa_callback}
use echo_protocol.Callback.Played.{sound_in, symbols, tones, pa_callback_lem}
use echo_protocol.Callback.Toy.{toy, toy_filters, toy_oscillator}

-- The bits 1, 0 and 1.
abbrev ring : Buffer
ring = record {
  buf = λ j. if j == 0 then 5 else 0;
  head = 0;
  tail = 0;
  count_put = 3;
  count_get = 0;
}

ring-IsRing : IsRing ring
ring-IsRing = ground arith

abbrev receiver : Receiver
receiver = record {
  state = searching;
  sync_accumulator = 0;
  bits_received = 0;
  packet_len = 0;
  header_accumulator = 0;
  last_rx_time = 0;
  packet_ready = 0;
  is_compressed = 0;
  is_rohc = 0;
  is_fec = 0;
  rx_rb = ring;
  rx_scrambler = record { state = 1 };
  correlator = record { corr_reg = 0; corr_bits = 0 };
  rx_sync_found = 0;
  rx_timeouts = 0;
}

abbrev audio : Audio ℕ
audio = record {
  player = record {
    tx_rb = ring;
    mod_state = toy_oscillator;
    tx_sample_count = 32;
    current_tx_symbol = 0;
  };
  demod = record { freq_states = toy_filters; rx_sample_count = 0; receiver = receiver };
  tx_active_frames = 0;
  agc_freeze = 0;
}

audio-IsBetween : IsBetween toy audio.demod
unfolding reset_state
audio-IsBetween = record { count = refl; quiet = refl }

-- The third bit is lost: where there is one bit left, the symbol is 3.
three_bits : symbols 2 (contents ring) ≡ 2 ∷ 3 ∷ []
unfolding symbols
three_bits = refl

abbrev two_symbols : List (List (Sample ℕ))
two_symbols = replicate 32 (7, 3) ∷ replicate 32 (8, 2) ∷ []

pa_callback_lem_example :
    let (a', out) = pa_callback toy (sound_in (flatten two_symbols)) audio in
    (out ≡ flatten (tones toy toy_oscillator (symbols 2 (contents ring))))
    × (a'.demod
        ≡ record audio.demod { receiver = hear_symbols toy toy_filters receiver two_symbols })
pa_callback_lem_example =
    pa_callback_lem toy two_symbols audio ring-IsRing refl audio-IsBetween (ground arith)
