-- ===== src/Setup.antt =====
-- The start and the end of a station: `echo_init` and `echo_close` of src/echo_protocol.c, with
-- `EchoProtocol` of include/echo_protocol.h as it is laid out, and the static variables of the other
-- files, which they leave alone. What the structure holds before is an argument, and so is what `malloc`
-- gives to the two calls of `rb_init`.
pub mod Ready
pub mod Tests
use echo_protocol.Base.Floats.{Floats}
use echo_protocol.Base.{ℕ, bit_or, List, [], Option, some, none}
use echo_protocol.Ring.{Buffer, rb_init}
use echo_protocol.Scrambler.{Scrambler, scrambler_init}
use echo_protocol.Sync.{Correlator}
use echo_protocol.Rohc.{RohcState, rohc_init}
use echo_protocol.Fec.Gf.{Gf, zeroed}
use echo_protocol.Receiver.{RxStatus, searching, Receiver}
use echo_protocol.Modem.{
  StateFsk, StateGoertzel, Demod, pre_calc_fsk, pre_calc_goertzel, freqs, samples_per_symbol,
}
use echo_protocol.Transmit.{Sender}
use echo_protocol.Delivery.{Station}
use echo_protocol.Callback.{Player, Audio}
use echo_protocol.Tunnel.{Os, Sys, close_fd, tun_alloc}

-- `RxState`
pub record RxState : Type 0 where
  pub state : RxStatus
  pub sync_accumulator : ℕ
  pub rx_sample_count : ℕ
  pub bits_received : ℕ
  pub packet_len : ℕ
  pub header_accumulator : ℕ
  pub last_rx_time : ℕ
  pub packet_ready : ℕ
  pub is_compressed : ℕ
  pub is_rohc : ℕ
  pub is_fec : ℕ

-- `ProtocolStats`
pub record ProtocolStats : Type 0 where
  pub tx_packets : ℕ
  pub tx_bytes : ℕ
  pub rx_packets : ℕ
  pub rx_bytes : ℕ
  pub rx_corrupted : ℕ
  pub rx_sync_found : ℕ
  pub rx_timeouts : ℕ

-- `EchoProtocol`. A ring that could not be allocated is `none`.
pub record EchoProtocol (F : Type 0) : Type 0 where
  pub tun_fd : ℕ
  pub tx_rb : Option Buffer
  pub rx_rb : Option Buffer
  pub mod_state : StateFsk F
  pub freq_states : ℕ → StateGoertzel F
  pub rx : RxState
  pub tx_sample_count : ℕ
  pub rohc_tx : RohcState
  pub rohc_rx : RohcState
  pub tx_scrambler : Scrambler
  pub rx_scrambler : Scrambler
  pub stats : ProtocolStats

-- `memset(&echo->stats, 0, sizeof(echo->stats))`
abbrev pub no_stats : ProtocolStats
no_stats = record {
  tx_packets = 0;
  tx_bytes = 0;
  rx_packets = 0;
  rx_bytes = 0;
  rx_corrupted = 0;
  rx_sync_found = 0;
  rx_timeouts = 0;
}

-- What is stored after the tunnel is open. `rx.is_fec` keeps what it held.
unfoldable pub set_fields :
    (fl : Floats) → Option Buffer → Option Buffer → ℕ → EchoProtocol fl.F → EchoProtocol fl.F
set_fields fl tx_block rx_block fd echo = record {
  tun_fd = fd;
  tx_rb = rb_init tx_block;
  rx_rb = rb_init rx_block;
  mod_state = pre_calc_fsk fl;
  freq_states = λ i. pre_calc_goertzel fl (freqs i);
  rx = record echo.rx {
    state = searching;
    sync_accumulator = 0;
    rx_sample_count = 0;
    bits_received = 0;
    packet_len = 0;
    header_accumulator = 0;
    last_rx_time = 0;
    packet_ready = 0;
    is_compressed = 0;
    is_rohc = 0;
  };
  rohc_tx = rohc_init echo.rohc_tx;
  rohc_rx = rohc_init echo.rohc_rx;
  tx_scrambler = scrambler_init echo.tx_scrambler;
  rx_scrambler = scrambler_init echo.rx_scrambler;
  tx_sample_count = samples_per_symbol;
  stats = no_stats;
}

-- The return of -1, where the tunnel does not open, is `none`. The name is what `dev_name` then holds.
abbrev pub opened :
    (fl : Floats)
    → Option Buffer
    → Option Buffer
    → EchoProtocol fl.F
    → Option (ℕ × List ℕ) × Sys
    → Option (EchoProtocol fl.F × List ℕ) × Sys
opened fl tx_block rx_block echo (none, s) = (none, s)
opened fl tx_block rx_block echo (some (fd, dev), s) =
    (some (set_fields fl tx_block rx_block fd echo, dev), s)

-- `IFF_TUN | IFF_NO_PI`
abbrev pub tun_flags : ℕ
tun_flags = bit_or 0x0001 0x1000

unfoldable pub echo_init :
    (fl : Floats)
    → Os
    → Option Buffer
    → Option Buffer
    → List ℕ
    → EchoProtocol fl.F
    → Sys
    → Option (EchoProtocol fl.F × List ℕ) × Sys
echo_init fl os tx_block rx_block dev_name echo s =
    opened fl tx_block rx_block echo (tun_alloc os dev_name tun_flags s)

-- The blocks that are freed are those that the two rings had.
unfoldable pub echo_close : {F : Type 0} → EchoProtocol F → Sys → Sys
echo_close echo s = close_fd echo.tun_fd s

-- The static variables that the parts of a station use, and that `echo_init` does not touch: `corr_reg`
-- and `corr_bits` of src/demod_afsk.c, the tables of src/fec.c, `tx_raw_counter` of
-- src/echo_protocol.c, `current_tx_symbol` and `tx_active_frames` of src/audio_io.c.
pub record Statics : Type 0 where
  pub correlator : Correlator
  pub gf : Gf
  pub tx_raw_counter : ℕ
  pub current_tx_symbol : ℕ
  pub tx_active_frames : ℕ

-- At the start of the program they are zero.
abbrev pub at_start : Statics
at_start = record {
  correlator = record { corr_reg = 0; corr_bits = 0 };
  gf = zeroed;
  tx_raw_counter = 0;
  current_tx_symbol = 0;
  tx_active_frames = 0;
}

-- What the parts see of a station with these static variables and these two rings.
abbrev pub receiver_of : {F : Type 0} → Statics → EchoProtocol F → Buffer → Receiver
receiver_of statics echo rx_rb = record {
  state = echo.rx.state;
  sync_accumulator = echo.rx.sync_accumulator;
  bits_received = echo.rx.bits_received;
  packet_len = echo.rx.packet_len;
  header_accumulator = echo.rx.header_accumulator;
  last_rx_time = echo.rx.last_rx_time;
  packet_ready = echo.rx.packet_ready;
  is_compressed = echo.rx.is_compressed;
  is_rohc = echo.rx.is_rohc;
  is_fec = echo.rx.is_fec;
  rx_rb = rx_rb;
  rx_scrambler = echo.rx_scrambler;
  correlator = statics.correlator;
  rx_sync_found = echo.stats.rx_sync_found;
  rx_timeouts = echo.stats.rx_timeouts;
}

abbrev pub sender_of : {F : Type 0} → Statics → EchoProtocol F → Buffer → Sender
sender_of statics echo tx_rb = record {
  tx_rb = tx_rb;
  tx_scrambler = echo.tx_scrambler;
  rohc_tx = echo.rohc_tx;
  gf = statics.gf;
  tx_packets = echo.stats.tx_packets;
  tx_bytes = echo.stats.tx_bytes;
  tx_raw_counter = statics.tx_raw_counter;
}

abbrev pub station_of : {F : Type 0} → Statics → EchoProtocol F → Buffer → Station
station_of statics echo rx_rb = record {
  receiver = receiver_of statics echo rx_rb;
  rohc_rx = echo.rohc_rx;
  gf = statics.gf;
  rx_packets = echo.stats.rx_packets;
  rx_bytes = echo.stats.rx_bytes;
  rx_corrupted = echo.stats.rx_corrupted;
  written = [];
}

abbrev pub demod_of : {F : Type 0} → Statics → EchoProtocol F → Buffer → Demod F
demod_of statics echo rx_rb = record {
  freq_states = echo.freq_states;
  rx_sample_count = echo.rx.rx_sample_count;
  receiver = receiver_of statics echo rx_rb;
}

abbrev pub player_of : {F : Type 0} → Statics → EchoProtocol F → Buffer → Player F
player_of statics echo tx_rb = record {
  tx_rb = tx_rb;
  mod_state = echo.mod_state;
  tx_sample_count = echo.tx_sample_count;
  current_tx_symbol = statics.current_tx_symbol;
}

abbrev pub audio_of : {F : Type 0} → Statics → EchoProtocol F → Buffer → Buffer → Audio F
audio_of statics echo tx_rb rx_rb = record {
  player = player_of statics echo tx_rb;
  demod = demod_of statics echo rx_rb;
  tx_active_frames = statics.tx_active_frames;
  agc_freeze = 0;
}
