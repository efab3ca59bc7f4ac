-- ===== src/AudioIo.antt =====
-- The streams of src/audio_io.c: `audio_init`, `audio_start`, `audio_close` and `audio_list_devices`. The
-- PortAudio library is an argument: what a call gives may depend on all the calls before it.
-- `suppress_alsa_errors`, the messages, and the stores of `echo` and of 0 to `agc_freeze` are left out.
pub mod Closed
pub mod Tests
use echo_protocol.Base.{
  ℕ, zero, suc, ◌+◌, ◌-◌, Bool, true, false, List, [], ◌∷◌, Option, some, none,
}
use echo_protocol.Tunnel.{without}

-- `PaDeviceInfo`, of which the latencies are used.
pub record PaDeviceInfo (T : Type 0) : Type 0 where
  pub default_low_input_latency : T
  pub default_low_output_latency : T

-- `PaStreamParameters`; the format is `paFloat32`.
pub record PaStreamParameters (T : Type 0) : Type 0 where
  pub device : ℕ
  pub channel_count : ℕ
  pub suggested_latency : T

-- The calls, in their order.
pub data PaCall (T : Type 0) : Type 0 where
  initialize_call : PaCall T
  default_input_call : PaCall T
  default_output_call : PaCall T
  device_count_call : PaCall T
  device_info_call : ℕ → PaCall T
  open_stream_call : PaStreamParameters T → PaStreamParameters T → (rate frames : ℕ) → PaCall T
  start_stream_call : ℕ → PaCall T
  stop_stream_call : ℕ → PaCall T
  close_stream_call : ℕ → PaCall T
  terminate_call : PaCall T

-- What the calls give, the call itself being the first of the list. An error is `false` or `none`, as
-- are `paNoDevice` and NULL.
pub record PortAudio : Type 1 where
  pub Time : Type 0
  pub initialize : List (PaCall Time) → Bool
  pub default_input_device : List (PaCall Time) → Option ℕ
  pub default_output_device : List (PaCall Time) → Option ℕ
  pub device_count : List (PaCall Time) → Option ℕ
  pub device_info : List (PaCall Time) → Option (PaDeviceInfo Time)
  pub open_stream : List (PaCall Time) → Option ℕ
  pub start_stream : List (PaCall Time) → Bool

-- How many times the library is initialised and not terminated, the streams that are open, and the
-- calls, the last one first.
pub record Pa (T : Type 0) : Type 0 where
  pub running : ℕ
  pub streams : List ℕ
  pub calls : List (PaCall T)

-- The return of a function: 0 with what it has stored, -1, or a read through NULL.
pub data Return (A : Type 0) : Type 0 where
  ok : A → Return A
  failed : Return A
  crashed : Return A

abbrev pub noted : {T : Type 0} → PaCall T → Pa T → Pa T
noted c p = record p { calls = c ∷ p.calls }

module _ (lib : PortAudio) where
  abbrev pub PaResult : Type 0 → Type 0
  PaResult A = Return A × Pa lib.Time

  abbrev pub after_initialize :
      {A : Type 0} → Bool → Pa lib.Time → (Pa lib.Time → PaResult A) → PaResult A
  after_initialize false p go = (failed, p)
  after_initialize true p go = go (record p { running = p.running + 1 })

  abbrev pub with_device :
      {A : Type 0} → Option ℕ → Pa lib.Time → (ℕ → Pa lib.Time → PaResult A) → PaResult A
  with_device none p go = (failed, p)
  with_device (some device) p go = go device p

  -- The device of the command line, or the default one.
  abbrev pub input_device :
      {A : Type 0} → Option ℕ → Pa lib.Time → (ℕ → Pa lib.Time → PaResult A) → PaResult A
  input_device (some id) p go = go id p
  input_device none p go =
      let p' = noted default_input_call p in with_device (lib.default_input_device p'.calls) p' go

  abbrev pub output_device :
      {A : Type 0} → Option ℕ → Pa lib.Time → (ℕ → Pa lib.Time → PaResult A) → PaResult A
  output_device (some id) p go = go id p
  output_device none p go =
      let p' = noted default_output_call p in with_device (lib.default_output_device p'.calls) p' go

  abbrev pub with_info :
      {A : Type 0}
      → Option (PaDeviceInfo lib.Time)
      → Pa lib.Time
      → (PaDeviceInfo lib.Time → Pa lib.Time → PaResult A)
      → PaResult A
  with_info none p go = (crashed, p)
  with_info (some info) p go = go info p

  -- `Pa_GetDeviceInfo(device)->...`
  abbrev pub device_info :
      {A : Type 0}
      → ℕ
      → Pa lib.Time
      → (PaDeviceInfo lib.Time → Pa lib.Time → PaResult A)
      → PaResult A
  device_info device p go =
      let p' = noted (device_info_call device) p in with_info (lib.device_info p'.calls) p' go

  abbrev pub with_stream : Option ℕ → Pa lib.Time → PaResult ℕ
  with_stream none p = (failed, p)
  with_stream (some stream) p = (ok stream, record p { streams = stream ∷ p.streams })

  abbrev pub open_stream :
      PaStreamParameters lib.Time → PaStreamParameters lib.Time → Pa lib.Time → PaResult ℕ
  open_stream input output p =
      let p' = noted (open_stream_call input output 48000 256) p in
      with_stream (lib.open_stream p'.calls) p'

  -- The result is the stream. An id that is negative is `none`.
  unfoldable pub audio_init : Option ℕ → Option ℕ → Pa lib.Time → PaResult ℕ
  audio_init input_id output_id p =
      let p0 = noted initialize_call p in
      after_initialize (lib.initialize p0.calls) p0 (λ p1. input_device input_id p1 (λ input p2.
        device_info input p2 (λ info p3. output_device output_id p3 (λ output p4.
          device_info output p4 (λ info' p5.
            open_stream
              (record {
                device = input;
                channel_count = 1;
                suggested_latency = info.default_low_input_latency;
              })
              (record {
                device = output;
                channel_count = 1;
                suggested_latency = info'.default_low_output_latency;
              })
              p5)))))

  abbrev pub start_result : Bool → Pa lib.Time → PaResult ℕ
  start_result false p = (failed, p)
  start_result true p = (ok 0, p)

  unfoldable pub audio_start : ℕ → Pa lib.Time → PaResult ℕ
  audio_start stream p =
      let p' = noted (start_stream_call stream) p in start_result (lib.start_stream p'.calls) p'

  abbrev pub terminate : Pa lib.Time → Pa lib.Time
  terminate p = record (noted terminate_call p) { running = p.running - 1 }

  -- The stream is there: `audio_close` is called after `audio_init` has opened it.
  unfoldable pub audio_close : ℕ → Pa lib.Time → Pa lib.Time
  audio_close stream p =
      let p' = noted (close_stream_call stream) (noted (stop_stream_call stream) p) in
      terminate (record p' { streams = without stream p'.streams })

  -- The loop over the devices, of which the names and channels are printed.
  unfoldable pub print_devices : ℕ → ℕ → Pa lib.Time → PaResult ℕ
  print_devices zero i p = (ok 0, terminate p)
  print_devices (suc n) i p = device_info i p (λ info p'. print_devices n (i + 1) p')

  abbrev pub with_count : Option ℕ → Pa lib.Time → PaResult ℕ
  with_count none p = (failed, terminate p)
  with_count (some n) p = print_devices n 0 p

  -- The function has no result: where it returns early is `failed`.
  unfoldable pub audio_list_devices : Pa lib.Time → PaResult ℕ
  audio_list_devices p =
      let p0 = noted initialize_call p in
      after_initialize (lib.initialize p0.calls) p0
        (λ p1. let p2 = noted device_count_call p1 in with_count (lib.device_count p2.calls) p2)
