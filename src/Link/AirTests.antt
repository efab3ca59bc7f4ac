-- ===== src/Link/AirTests.antt =====
-- A packet over the air.
use echo_protocol.Base.{
  ℕ, suc, ◌≡◌, refl, sym, ap, ap₂, ◌∙◌, arith, List, [], ◌∷◌, map, length, replicate, some, none,
  inl, true,
}
use echo_protocol.Ring.{Buffer}
use echo_protocol.Ring.Inv.{IsValid as IsRing}
use echo_protocol.Ring.Refine.{contents}
use echo_protocol.Receiver.{Receiver, searching}
use echo_protocol.Receiver.Frame.{IsTimely}
use echo_protocol.Receiver.Search.{IsWaiting}
use echo_protocol.Modem.{samples_per_symbol, reset_state}
use echo_protocol.Modem.Symbols.{flatten, AllOf, Sample, last_time, IsBetween}
use echo_protocol.Transmit.{Sender, Outgoing, framed, as_is}
use echo_protocol.Callback.{Audio, pa_callback}
use echo_protocol.Callback.Played.{sound_in, symbols, tones, tones-AllOf, pa_callback-played}
use echo_protocol.Callback.Air.{signal, doubled}
use echo_protocol.Callback.Toy.{toy, toy_filters, toy_oscillator, toy-IsClear}
use echo_protocol.Main.{Host, main_step}
use echo_protocol.Main.Room.{length-on_air, read_tunnel-on_air}
use echo_protocol.Link.Air.{packet_crosses}
use echo_protocol.Link.Tests.{
  sender, receiver, station, world, ping, ping-bytes, ping-IsGood, no_lz4, empty_ring-IsValid,
}

-- The packet is the 100th, which goes as it is.
abbrev raw_sender : Sender
raw_sender = record sender { tx_raw_counter = 99 }

abbrev sends : Host
sends = record { sender = raw_sender; station = station }

abbrev pub idle : Receiver
idle = record receiver { state = searching }

abbrev hears : Host
hears = record { sender = raw_sender; station = record station { receiver = idle } }

abbrev air_ring : Buffer
air_ring = (main_step no_lz4 world (some (some ping)) sends).sender.tx_rb

abbrev sending : Audio ℕ
sending = record {
  player = record {
    tx_rb = air_ring;
    mod_state = toy_oscillator;
    tx_sample_count = 32;
    current_tx_symbol = 0;
  };
  demod = record { freq_states = toy_filters; rx_sample_count = 0; receiver = idle };
  tx_active_frames = 0;
  agc_freeze = 0;
}

abbrev hearing : Audio ℕ
hearing = record sending {
  player = record {
    tx_rb = raw_sender.tx_rb;
    mod_state = toy_oscillator;
    tx_sample_count = 32;
    current_tx_symbol = 0;
  };
}

abbrev silence : List (List (Sample ℕ))
silence = replicate 48 (replicate 32 (100, 0))

silence-AllOf : AllOf samples_per_symbol silence
silence-AllOf = ground arith

abbrev stamp : ℕ → Sample ℕ
stamp x = (100, x)

-- Samples that all come in the same second.
abbrev stamped : List (List ℕ) → List (List (Sample ℕ))
stamped cs = map (map stamp) cs

unstamped : (xs : List ℕ) → map (λ (x : Sample ℕ). x.1) (map stamp xs) ≡ xs
unstamped [] = refl
unstamped (x ∷ xs) = ap (λ l. x ∷ l) (unstamped xs)

signal-stamped : (cs : List (List ℕ)) → signal (stamped cs) ≡ cs
signal-stamped [] = refl
signal-stamped (c ∷ cs) = ap₂ ◌∷◌ (unstamped c) (signal-stamped cs)

length-stamped : (xs : List ℕ) → length (map stamp xs) ≡ length xs
length-stamped [] = refl
length-stamped (x ∷ xs) = ap suc (length-stamped xs)

last_time-stamped : (x : ℕ) (xs : List ℕ) → last_time (map stamp (x ∷ xs)) ≡ 100
last_time-stamped x [] = refl
last_time-stamped x (y ∷ ys) = last_time-stamped y ys

stamped-AllOf : (cs : List (List ℕ)) → AllOf 32 cs → AllOf 32 (stamped cs)
stamped-AllOf [] v = tt
stamped-AllOf (c ∷ cs) v = (length-stamped c ∙ v.0, stamped-AllOf cs v.1)

stamped-IsTimely :
    (cs : List (List ℕ)) → AllOf 32 cs → IsTimely 100 (doubled (map last_time (stamped cs)))
stamped-IsTimely [] v = tt
stamped-IsTimely ([] ∷ cs) v = absurd (omega (arith, v.0))
stamped-IsTimely ((x ∷ xs) ∷ cs) v =
    rw (last_time-stamped x xs)
      (omega arith, omega arith, (omega arith, omega arith, stamped-IsTimely cs v.1))

air_tones : List (List ℕ)
air_tones = tones toy toy_oscillator (symbols 48 (contents air_ring))

raw_framed : (framed no_lz4 true ping raw_sender).1 ≡ as_is ping
unfolding framed
raw_framed = refl

air_held : (length (contents air_ring) ≡ 96) × IsRing air_ring
unfolding main_step
air_held =
    let o = (framed no_lz4 true ping raw_sender).1 in
    let size = length-on_air o in
    let four : length o.bytes ≡ 4 = ap (λ (a : Outgoing). length a.bytes) raw_framed in
    let (valid, holds) =
      read_tunnel-on_air no_lz4 true ping raw_sender
        (λ input output capacity e. absurd (ground arith)) (inl refl) (omega arith) (omega arith)
        ping-bytes empty_ring-IsValid (omega arith) (omega (arith, size, four)) in
    (ap length holds ∙ omega (arith, size, four), valid)

heard_tones : List (List (Sample ℕ))
heard_tones = stamped air_tones

heard_tones-AllOf : AllOf 32 air_tones × (AllOf 32 heard_tones)
unfolding heard_tones air_tones
heard_tones-AllOf =
    let v = (tones-AllOf toy toy_oscillator (symbols 48 (contents air_ring))).0 in
    (v, stamped-AllOf (tones toy toy_oscillator (symbols 48 (contents air_ring))) v)

hearing-IsBetween : IsBetween toy hearing.demod
unfolding reset_state
hearing-IsBetween = record { count = refl; quiet = refl }

pub idle-IsWaiting : IsWaiting idle
idle-IsWaiting = (
  0,
  record {
    search = record {
      sound = record { ring = empty_ring-IsValid; sync = ground arith; scrambler = omega arith };
      searching = refl;
      empty = refl;
    };
    at_most = omega arith;
    word = refl;
    register = refl;
  },
)

packet_crosses_example :
    (main_step no_lz4 world none (record hears {
      station = record station {
        receiver = (pa_callback toy (sound_in (flatten heard_tones)) hearing).0.demod.receiver;
      };
    })).station.written
    ≡ ping ∷ []
packet_crosses_example =
    packet_crosses toy no_lz4 world ping sends hears sending hearing silence heard_tones 100
      toy-IsClear (λ input output capacity e. absurd (ground arith))
      (λ input output capacity room e small. absurd (ground arith)) refl (omega arith) (omega arith)
      ping-bytes ping-IsGood empty_ring-IsValid refl (inl refl)
      (ap (λ (o : Outgoing). o.rohc) raw_framed) refl refl refl silence-AllOf
      (omega (arith, air_held)) heard_tones-AllOf.1
      (unfold heard_tones air_tones in
        ap flatten (signal-stamped (tones toy toy_oscillator (symbols 48 (contents air_ring))))
        ∙ sym (pa_callback-played toy silence sending air_held.1 refl silence-AllOf))
      hearing-IsBetween refl idle-IsWaiting (inl refl) (omega arith)
      (unfold heard_tones in stamped-IsTimely air_tones heard_tones-AllOf.0)
