-- ===== src/AudioIo/Closed.antt =====
-- What src/audio_io.c leaves open of PortAudio.
use echo_protocol.Base.{
  ℕ, zero, suc, ◌+◌, ◌≡◌, ◌⊎◌, inl, inr, refl, ap, ◌∙◌, arith, Bool, true, false, Bool-cases, List,
  ◌∷◌, Option, some, none,
}
use echo_protocol.Tunnel.{without}
use echo_protocol.Tunnel.Closed.{without_first}
use echo_protocol.AudioIo.{
  PaDeviceInfo, initialize_call, default_input_call, default_output_call, device_info_call,
  start_stream_call, PortAudio, Pa, Return, ok, failed, crashed, noted, PaResult, with_device,
  input_device, output_device, with_info, device_info, with_stream, audio_init, audio_start,
  audio_close, print_devices, with_count, audio_list_devices,
}

-- The library is initialised `n` times and has these streams open.
abbrev pub Holds : {T : Type 0} → ℕ → List ℕ → Pa T → Type 0
Holds n streams p = (p.running ≡ n) × (p.streams ≡ streams)

-- After a function that opens a stream: the same, and the stream where it is returned.
abbrev pub Leaves : {T : Type 0} → ℕ → List ℕ → Return ℕ × Pa T → Type 0
Leaves n streams (ok stream, p) = Holds n (stream ∷ streams) p
Leaves n streams (failed, p) = Holds n streams p
Leaves n streams (crashed, p) = Holds n streams p

module _ (lib : PortAudio) (n : ℕ) (streams : List ℕ) where
  -- What comes after a step, in every state that it can leave.
  abbrev Next : {A : Type 0} → (A → Pa lib.Time → PaResult lib ℕ) → Type 0
  Next {A} go = (a : A) (p : Pa lib.Time) → Holds n streams p → Leaves n streams (go a p)

  device-Leaves :
      (o : Option ℕ) (p : Pa lib.Time) (go : ℕ → Pa lib.Time → PaResult lib ℕ)
      → Holds n streams p
      → Next go
      → Leaves n streams (with_device lib o p go)
  device-Leaves none p go h next = h
  device-Leaves (some device) p go h next = next device p h

  input-Leaves :
      (id : Option ℕ) (p : Pa lib.Time) (go : ℕ → Pa lib.Time → PaResult lib ℕ)
      → Holds n streams p
      → Next go
      → Leaves n streams (input_device lib id p go)
  input-Leaves (some id) p go h next = next id p h
  input-Leaves none p go h next =
      let p' = noted default_input_call p in
      device-Leaves (lib.default_input_device p'.calls) p' go h next

  output-Leaves :
      (id : Option ℕ) (p : Pa lib.Time) (go : ℕ → Pa lib.Time → PaResult lib ℕ)
      → Holds n streams p
      → Next go
      → Leaves n streams (output_device lib id p go)
  output-Leaves (some id) p go h next = next id p h
  output-Leaves none p go h next =
      let p' = noted default_output_call p in
      device-Leaves (lib.default_output_device p'.calls) p' go h next

  some_info-Leaves :
      (o : Option (PaDeviceInfo lib.Time)) (p : Pa lib.Time)
      (go : PaDeviceInfo lib.Time → Pa lib.Time → PaResult lib ℕ)
      → Holds n streams p
      → Next go
      → Leaves n streams (with_info lib o p go)
  some_info-Leaves none p go h next = h
  some_info-Leaves (some info) p go h next = next info p h

  info-Leaves :
      (device : ℕ) (p : Pa lib.Time) (go : PaDeviceInfo lib.Time → Pa lib.Time → PaResult lib ℕ)
      → Holds n streams p
      → Next go
      → Leaves n streams (device_info lib device p go)
  info-Leaves device p go h next =
      let p' = noted (device_info_call device) p in
      some_info-Leaves (lib.device_info p'.calls) p' go h next

  stream-Leaves :
      (o : Option ℕ) (p : Pa lib.Time) → Holds n streams p → Leaves n streams (with_stream lib o p)
  stream-Leaves none p h = h
  stream-Leaves (some stream) p h = (h.0, ap (λ l. stream ∷ l) h.1)

module _ (lib : PortAudio) where
  initialized-Leaves :
      (input_id output_id : Option ℕ) (p : Pa lib.Time) (b : Bool)
      → lib.initialize (initialize_call ∷ p.calls) ≡ b
      → let r = audio_init lib input_id output_id p in
        ((b ≡ false) × (r ≡ (failed, noted initialize_call p)))
        ⊎ ((b ≡ true) × Leaves (p.running + 1) p.streams r)
  unfolding audio_init
  initialized-Leaves input_id output_id p false e = inl (refl, rw e refl)
  initialized-Leaves input_id output_id p true e =
      let n = p.running + 1 in
      let s = p.streams in
      inr (
        refl,
        rw e (
            input-Leaves lib n s input_id _ _ (refl, refl)
              (λ input p2 h2. info-Leaves lib n s input p2 _ h2 (λ info p3 h3.
                output-Leaves lib n s output_id p3 _ h3 (λ output p4 h4.
                  info-Leaves lib n s output p4 _ h4
                    (λ info' p5 h5. stream-Leaves lib n s _ _ h5))))),
      )

  -- Where `Pa_Initialize` fails, `audio_init` has called nothing else. Where it does not, `audio_init`
  -- leaves the library initialised on every path, the failing ones included, and a stream open exactly
  -- where it returns one.
  pub audio_init-Leaves :
      (input_id output_id : Option ℕ) (p : Pa lib.Time)
      → let r = audio_init lib input_id output_id p in
        let b = lib.initialize (initialize_call ∷ p.calls) in
        ((b ≡ false) × (r ≡ (failed, noted initialize_call p)))
        ⊎ ((b ≡ true) × Leaves (p.running + 1) p.streams r)
  audio_init-Leaves input_id output_id p = initialized-Leaves input_id output_id p _ refl

  pub start-Holds :
      (stream : ℕ) (p : Pa lib.Time) → Holds p.running p.streams (audio_start lib stream p).1
  unfolding audio_start
  start-Holds stream p = elim (Bool-cases (lib.start_stream (start_stream_call stream ∷ p.calls))) [
    | inl e ↦ rw e (refl, refl)
    | inr e ↦ rw e (refl, refl)
  ]

  pub close-Holds :
      (n stream : ℕ) (streams : List ℕ) (p : Pa lib.Time)
      → Holds (n + 1) (stream ∷ streams) p
      → Holds n streams (audio_close lib stream p)
  unfolding audio_close
  close-Holds n stream streams p h =
      (omega (arith, h.0), ap (without stream) h.1 ∙ without_first stream streams)

  -- After the list of the devices; a read through NULL comes before `Pa_Terminate`.
  abbrev pub Listed : ℕ → List ℕ → PaResult lib ℕ → Type 0
  Listed n streams (ok status, p) = Holds n streams p
  Listed n streams (failed, p) = Holds n streams p
  Listed n streams (crashed, p) = Holds (n + 1) streams p

  printed-Listed :
      (n : ℕ) (streams : List ℕ) (o : Option (PaDeviceInfo lib.Time)) (p : Pa lib.Time)
      (go : PaDeviceInfo lib.Time → Pa lib.Time → PaResult lib ℕ)
      → Holds (n + 1) streams p
      → ((info : PaDeviceInfo lib.Time) → Listed n streams (go info p))
      → Listed n streams (with_info lib o p go)
  printed-Listed n streams none p go h next = h
  printed-Listed n streams (some info) p go h next = next info

  print-Listed :
      (k i n : ℕ) (streams : List ℕ) (p : Pa lib.Time)
      → Holds (n + 1) streams p
      → Listed n streams (print_devices lib k i p)
  unfolding print_devices
  print-Listed zero i n streams p h = (omega (arith, h.0), h.1)
  print-Listed (suc k) i n streams p h =
      let p' = noted (device_info_call i) p in
      printed-Listed n streams (lib.device_info p'.calls) p' _ h
        (λ info. print-Listed k (i + 1) n streams p' h)

  counted-Listed :
      (o : Option ℕ) (n : ℕ) (streams : List ℕ) (p : Pa lib.Time)
      → Holds (n + 1) streams p
      → Listed n streams (with_count lib o p)
  counted-Listed none n streams p h = (omega (arith, h.0), h.1)
  counted-Listed (some k) n streams p h = print-Listed k 0 n streams p h

  pub list_devices-Listed :
      (p : Pa lib.Time) → Listed p.running p.streams (audio_list_devices lib p)
  unfolding audio_list_devices
  list_devices-Listed p = elim (Bool-cases (lib.initialize (initialize_call ∷ p.calls))) [
    | inl e ↦ rw e (counted-Listed _ p.running p.streams _ (refl, refl))
    | inr e ↦ rw e (refl, refl)
  ]
