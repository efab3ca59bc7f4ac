-- ===== src/Link/Air.antt =====
-- The whole way of a packet from the loop of src/main.c at one station, through the callbacks of
-- src/audio_io.c and the signals, to the loop at the other.
use mathlib.Core.Path.{subst}
use echo_protocol.Base.Floats.{Floats}
use echo_protocol.Base.{
  ℕ, ◌*◌, ◌^◌, ◌≤◌, ◌<◌, ◌≡◌, sym, ap, ◌∙◌, arith, true, false, ltb, ◌==◌, u32,
}
use echo_protocol.Base.{
  List, [], ◌∷◌, ◌++◌, map, length, take, drop, Option, some, none, AllBytes, AllBits,
  length-append, length-take, length-drop,
}
use echo_protocol.Ring.{Buffer}
use echo_protocol.Ring.Inv.{IsValid as IsRing, distance}
use echo_protocol.Ring.Refine.{contents, length-contents}
use echo_protocol.Scrambler.Stream.{scramble}
use echo_protocol.Fec.Gf.Field.{IsReached}
use echo_protocol.Receiver.{Receiver}
use echo_protocol.Receiver.Frame.{hear, IsTimely}
use echo_protocol.Receiver.Search.{lead, IsWaiting, last_of, last_of-any, hear-lead}
use echo_protocol.Modem.{samples_per_symbol}
use echo_protocol.Modem.Symbols.{flatten, AllOf, Sample, last_time, IsBetween}
use echo_protocol.Transmit.{Sender, framed, tun_to_rb}
use echo_protocol.Transmit.Sent.{frame_bits, fresh}
use echo_protocol.Transmit.Choice.{GivesBytes}
use echo_protocol.Transmit.Framed.{framed-is_valid_header}
use echo_protocol.Delivery.{Station, Surroundings, rb_to_tun}
use echo_protocol.Delivery.Settled.{IsGood}
use echo_protocol.Callback.{Audio, pa_callback}
use echo_protocol.Callback.Played.{
  sound_in, symbols, tones, tones-AllOf, length-symbols, pa_callback-played, pa_callback-heard,
}
use echo_protocol.Callback.Air.{
  length-map, IsClear, signal, signal-AllOf, doubled, hear_symbols-tones,
}
use echo_protocol.Main.{Host, main_step, serve_frame, read_tunnel, free_space, max_tx_frame_bytes}
use echo_protocol.Main.Room.{on_air, length-on_air, length-lead, used_bytes_lem, read_tunnel-on_air}
use echo_protocol.Link.Times.{
  hear-append, IsTimely-drop, last_of-lt, length-doubled, contents-AllBits, flatten-AllOf,
}
use echo_protocol.Link.Written.{Undoes}
use echo_protocol.Link.{arrives, sent_alone}

-- An empty ring has room for any frame.
pub empty_free : (b : Buffer) → IsRing b → contents b ≡ [] → max_tx_frame_bytes ≤ free_space b
empty_free b v e =
    let none_stored = length-contents b in
    let apart : distance b ≡ 0 =
      ground (arith, ap length e, none_stored, v.started, v.get_in, v.head_in, v.tail_in) in
    omega (arith, apart, used_bytes_lem b v)

-- A receiver that has the packet ready, and the loop's call that writes it.
abbrev Arrived : Surroundings → List ℕ → Station → Receiver → Type 0
Arrived env raw st r =
    (r.packet_ready ≡ 1)
    × (0 < r.packet_len)
    × ((rb_to_tun env r.packet_len (record st { receiver = r })).written ≡ st.written ++ (raw ∷ []))

-- A packet that the loop reads from the tunnel.
module _ (lz4_compress : List ℕ → ℕ → Option (List ℕ)) (env : Surroundings) (raw : List ℕ)
    (s : Sender) (lz4 : GivesBytes lz4_compress) (undoes : Undoes lz4_compress env.lz4_decompress)
    (malloc : env.memory ≡ true) (pos : 0 < length raw) (small : length raw ≤ 1784)
    (bytes : AllBytes raw) (good : IsGood env raw) (ring : IsRing s.tx_rb)
    (empty : contents s.tx_rb ≡ []) (reached : IsReached s.gf)
    (plain : (framed lz4_compress env.memory raw s).1.rohc ≡ 0) where
  -- The ring after the round of the loop.
  put_on_air :
      let b = (read_tunnel lz4_compress env.memory (some raw) s).tx_rb in
      IsRing b × (contents b ≡ on_air (framed lz4_compress env.memory raw s).1)
  put_on_air =
      let o = (framed lz4_compress env.memory raw s).1 in
      let announced =
        framed-is_valid_header lz4_compress env.memory raw s lz4 reached pos small bytes in
      let (valid, holds) =
        read_tunnel-on_air lz4_compress env.memory raw s lz4 reached pos (omega arith) bytes ring
          (empty_free s.tx_rb ring empty)
          (omega (arith, ap length empty, length-on_air o, announced)) in
      (valid, holds ∙ ap (λ l. l ++ on_air o) empty)

  -- The frame after the sync word, in the station that has heard both.
  heard_whole :
      (st : Station) (times : List ℕ) (since : ℕ)
      → IsWaiting st.receiver
      → IsReached st.gf
      → since < 2 ^ 32
      → length times ≡ length (on_air (framed lz4_compress env.memory raw s).1)
      → IsTimely since times
      → Arrived env raw st
          (hear st.receiver times (on_air (framed lz4_compress env.memory raw s).1))
  heard_whole st times since waiting reached' early many on =
      let o = (framed lz4_compress env.memory raw s).1 in
      let frame = (scramble fresh (frame_bits o)).1 in
      let first = take 48 times in
      let rest = drop 48 times in
      let size = length-on_air o in
      let r1 = hear st.receiver first lead in
      let some_time : length first ≡ 48 = omega (arith, length-take 48 times, many, size) in
      let found = hear-lead first st.receiver some_time waiting in
      let alone = sent_alone lz4_compress env.memory raw s lz4 reached pos small bytes ring empty in
      let at : r1.last_rx_time ≡ last_of since first =
        found.time
        ∙ ap u32 (last_of-any 0 since first (omega (arith, some_time)))
        ∙ omega (arith, last_of-lt 48 since times early on) in
      let on' =
        subst (λ t. IsTimely t rest) (sym at)
          (IsTimely-drop 48 since times (omega (arith, many, size)) on) in
      let all =
        arrives lz4_compress env.memory env raw rest s (record st { receiver = r1 }) lz4 undoes
          malloc pos small bytes good ring empty reached plain found.started found.scrambler
          reached'
          (omega (
            arith,
            length-drop 48 times,
            many,
            size,
            ap length alone,
            length-append lead frame,
            length-lead,
          ))
          on' in
      let sent = (tun_to_rb lz4_compress env.memory (some raw) s).tx_rb in
      let apart : hear st.receiver times (on_air o) ≡ hear r1 rest (contents sent) =
        hear-append lead frame times st.receiver (omega (arith, many, size, length-lead))
        ∙ ap (λ n. hear (hear st.receiver (take n times) lead) (drop n times) frame) length-lead
        ∙ ap (hear r1 rest) (sym alone) in
      subst (Arrived env raw st) (sym apart) all

  -- The station's loop, which finds the frame.
  served :
      (st : Station) (r : Receiver)
      → Arrived env raw st r
      → (serve_frame env (record st { receiver = r })).written ≡ st.written ++ (raw ∷ [])
  unfolding serve_frame
  served st r (ready, size, written) =
      let one : (r.packet_ready == 0) ≡ false = ground (arith, ready) in
      let len : ltb 0 r.packet_len ≡ true = ground (arith, size) in rw (one, len) written

-- The receiving station hears the frame that the sending one plays.
module _ (fl : Floats) (a a' : Audio fl.F) (played heard : List (List (Sample fl.F)))
    (clear : IsClear fl a'.demod.freq_states) where
  carried :
      (bits : List ℕ)
      → IsRing a.player.tx_rb
      → contents a.player.tx_rb ≡ bits
      → a.player.tx_sample_count ≡ samples_per_symbol
      → clear.Phase a.player.mod_state
      → AllOf samples_per_symbol played
      → 2 * length played ≡ length bits
      → AllOf samples_per_symbol heard
      → flatten (signal heard) ≡ (pa_callback fl (sound_in (flatten played)) a).1
      → IsBetween fl a'.demod
      → ((pa_callback fl (sound_in (flatten heard)) a').0.demod.receiver
          ≡ hear a'.demod.receiver (doubled (map last_time heard)) bits)
        × (length (doubled (map last_time heard)) ≡ length bits)
  carried bits ring holds due phase whole many whole' air between =
      let o = a.player.mod_state in
      let ss = symbols (length played) bits in
      let tuned = tones-AllOf fl o ss in
      let caught = signal-AllOf samples_per_symbol heard whole' in
      let same : signal heard ≡ tones fl o ss =
        flatten-AllOf samples_per_symbol (signal heard) (tones fl o ss) (omega arith) caught.0
          tuned.0
          (air
            ∙ pa_callback-played fl played a ring due whole
            ∙ ap (λ l. flatten (tones fl o (symbols (length played) l))) holds) in
      (
        ap (λ d. d.receiver) (pa_callback-heard fl heard a' between whole')
            ∙ hear_symbols-tones fl a'.demod.freq_states clear (length played) bits heard o
                a'.demod.receiver (sym many) (subst AllBits holds (contents-AllBits a.player.tx_rb))
                phase same,
        omega (
          arith,
          length-doubled (map last_time heard),
          length-map last_time heard,
          ap length same,
          caught.1,
          tuned.1,
          length-symbols (length played) bits,
          many,
        ),
      )

-- A packet of 1 to 1784 bytes, whose header the sender does not compress, crosses the air. The loop of the
-- sending station, with an empty transmit ring, reads it from the tunnel; its callback, when a symbol
-- is due, plays that ring to the end; the channel carries the samples as they are. The callback of the
-- receiving station, between two symbols, hears them, none of the symbols more than 6 seconds after
-- the one before; its receiver is in search with an empty ring and has heard only ones since it was
-- reset, or none. Then the next round of its loop writes exactly that packet to the tunnel. The filters
-- are to hear a symbol of 32 samples as what was played, LZ4 is to give back what it has compressed,
-- `malloc` is to give memory, and the IPv4 checksum of the packet is to be right.
pub packet_crosses :
    (fl : Floats) (lz4_compress : List ℕ → ℕ → Option (List ℕ)) (env : Surroundings) (raw : List ℕ)
    (h h' : Host) (a a' : Audio fl.F) (played heard : List (List (Sample fl.F))) (since : ℕ)
    (clear : IsClear fl a'.demod.freq_states)
    → GivesBytes lz4_compress
    → Undoes lz4_compress env.lz4_decompress
    → env.memory ≡ true
    → 0 < length raw
    → length raw ≤ 1784
    → AllBytes raw
    → IsGood env raw
    → IsRing h.sender.tx_rb
    → contents h.sender.tx_rb ≡ []
    → IsReached h.sender.gf
    → (framed lz4_compress env.memory raw h.sender).1.rohc ≡ 0
    → a.player.tx_rb ≡ (main_step lz4_compress env (some (some raw)) h).sender.tx_rb
    → a.player.tx_sample_count ≡ samples_per_symbol
    → clear.Phase a.player.mod_state
    → AllOf samples_per_symbol played
    → 2 * length played ≡ length (contents a.player.tx_rb)
    → AllOf samples_per_symbol heard
    → flatten (signal heard) ≡ (pa_callback fl (sound_in (flatten played)) a).1
    → IsBetween fl a'.demod
    → a'.demod.receiver ≡ h'.station.receiver
    → IsWaiting h'.station.receiver
    → IsReached h'.station.gf
    → since < 2 ^ 32
    → IsTimely since (doubled (map last_time heard))
    → let r = (pa_callback fl (sound_in (flatten heard)) a').0.demod.receiver in
      (main_step lz4_compress env none
        (record h' { station = record h'.station { receiver = r } })).station.written
      ≡ h'.station.written ++ (raw ∷ [])
unfolding main_step
packet_crosses fl lz4_compress env raw h h' a a' played heard since clear lz4 undoes malloc pos
      small bytes good ring empty reached plain shared due phase whole many whole' air between same
      waiting reached' early on =
    let st = h'.station in
    let s = h.sender in
    let times = doubled (map last_time heard) in
    let bits = on_air (framed lz4_compress env.memory raw s).1 in
    let (valid, holds) =
      put_on_air lz4_compress env raw s lz4 undoes malloc pos small bytes good ring empty reached
        plain in
    let held = ap contents shared ∙ holds in
    let (got, size) =
      carried fl a a' played heard clear bits (subst IsRing (sym shared) valid) held due phase whole
        (many ∙ ap length held) whole' air between in
    let r = (pa_callback fl (sound_in (flatten heard)) a').0.demod.receiver in
    let r-heard : hear st.receiver times bits ≡ r = sym (got ∙ ap (λ q. hear q times bits) same) in
    served lz4_compress env raw s lz4 undoes malloc pos small bytes good ring empty reached plain st
      r
      (subst (Arrived env raw st) r-heard (
        heard_whole lz4_compress env raw s lz4 undoes malloc pos small bytes good ring empty reached
          plain st times since waiting reached' early size on))
