-- ===== src/AudioIo/Tests.antt =====
-- A PortAudio with one device, number 2, which gives no stream.
use echo_protocol.Base.{ℕ, ◌≡◌, ◌⊎◌, [], some, none, true, false}
use echo_protocol.AudioIo.{initialize_call, PortAudio, Pa, failed, noted, audio_init}
use echo_protocol.AudioIo.Closed.{Leaves, audio_init-Leaves}

abbrev pub deaf : PortAudio
deaf = record {
  Time = ℕ;
  initialize = λ calls. true;
  default_input_device = λ calls. some 2;
  default_output_device = λ calls. some 2;
  device_count = λ calls. some 3;
  device_info =
      λ calls. some (record { default_low_input_latency = 8; default_low_output_latency = 9 });
  open_stream = λ calls. none;
  start_stream = λ calls. true;
}

abbrev pub silent : Pa ℕ
silent = record { running = 0; streams = []; calls = [] }

audio_init-Leaves_example :
    ((true ≡ false)
      × (audio_init deaf none (some 2) silent ≡ (failed, noted initialize_call silent)))
    ⊎ ((true ≡ true) × Leaves 1 [] (audio_init deaf none (some 2) silent))
audio_init-Leaves_example = audio_init-Leaves deaf none (some 2) silent
