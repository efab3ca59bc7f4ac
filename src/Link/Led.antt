-- ===== src/Link/Led.antt =====
-- A frame behind the preamble and the sync word, in a receiver that waits for them, and the round of the
-- loop that finds it.
use mathlib.Core.Path.{subst}
use echo_protocol.Base.{
  ℕ, ◌^◌, ◌<◌, ◌≡◌, refl, true, false, ltb, ◌==◌, sym, ap, ◌∙◌, arith, List, length, take, drop,
  length-take, length-drop, u32,
}
use echo_protocol.Scrambler.Stream.{scramble}
use echo_protocol.Receiver.{Receiver}
use echo_protocol.Receiver.Frame.{hear, IsTimely, Completed}
use echo_protocol.Receiver.Search.{lead, IsWaiting, last_of, last_of-any, hear-lead}
use echo_protocol.Transmit.{Outgoing, header_for}
use echo_protocol.Transmit.Sent.{frame_bits, fresh}
use echo_protocol.Transmit.Framed.{IsAnnounced}
use echo_protocol.Sync.Detect.{IsValid as IsSync}
use echo_protocol.Delivery.{Station, Surroundings, rb_to_tun}
use echo_protocol.Delivery.Settled.{IsIdle, rb_to_tun-IsSettled}
use echo_protocol.Main.{serve_frame}
use echo_protocol.Main.Room.{on_air, length-on_air, length-lead, length-frame}
use echo_protocol.Link.Times.{hear-append, IsTimely-drop, last_of-lt}
use echo_protocol.Link.{heard}

-- The frame is heard whole.
pub heard_on_air :
    (o : Outgoing) (r : Receiver) (times : List ℕ) (since : ℕ)
    → IsAnnounced o
    → (o.comp < 2) × (o.rohc < 2) × (o.fec < 2)
    → IsWaiting r
    → since < 2 ^ 32
    → length times ≡ length (on_air o)
    → IsTimely since times
    → Completed (hear r times (on_air o)) (header_for o) (frame_bits o)
heard_on_air o r times since a flags waiting early many on =
    let frame = (scramble fresh (frame_bits o)).1 in
    let first = take 48 times in
    let rest = drop 48 times in
    let size = length-on_air o in
    let some_time : length first ≡ 48 = omega (arith, length-take 48 times, many, size) in
    let found = hear-lead first r some_time waiting in
    let r1 = hear r first lead in
    let at : r1.last_rx_time ≡ last_of since first =
      found.time
      ∙ ap u32 (last_of-any 0 since first (omega (arith, some_time)))
      ∙ omega (arith, last_of-lt 48 since times early on) in
    let on' =
      subst (λ t. IsTimely t rest) (sym at)
        (IsTimely-drop 48 since times (omega (arith, many, size)) on) in
    let apart : hear r times (on_air o) ≡ hear r1 rest frame =
      hear-append lead frame times r (omega (arith, many, size, length-lead))
      ∙ ap (λ n. hear (hear r (take n times) lead) (drop n times) frame) length-lead in
    subst (λ r'. Completed r' (header_for o) (frame_bits o)) (sym apart)
      (heard o r1 rest a flags found.started found.scrambler
        (omega (arith, length-drop 48 times, many, size, length-frame o)) on')

-- The receiver that `rb_to_tun` leaves waits again.
idle-IsWaiting : (r : Receiver) → IsIdle r → IsWaiting r
idle-IsWaiting r v = (
  0,
  record {
    search = record {
      sound = record {
        ring = v.ring;
        sync =
            subst (λ w. IsSync w r.correlator) (sym v.search.0)
              (subst (IsSync 0) (sym v.search.1)
                (record { word_in = omega arith; reg_in = omega arith; bits_in = omega arith }));
        scrambler = omega (arith, v.scrambler);
      };
      searching = v.idle;
      empty = v.empty;
    };
    at_most = omega arith;
    word = v.search.0;
    register = v.search.1;
  },
)

-- The loop finds a frame.
module _ (env : Surroundings) (st : Station) (ready : st.receiver.packet_ready ≡ 1)
    (some_bytes : 0 < st.receiver.packet_len) where
  pub serve_ready :
      let end = rb_to_tun env st.receiver.packet_len st in
      serve_frame env st ≡ record end { receiver = record end.receiver { packet_ready = 0 } }
  unfolding serve_frame
  serve_ready =
      let one : (st.receiver.packet_ready == 0) ≡ false = ground (arith, ready) in
      let long : ltb 0 st.receiver.packet_len ≡ true = ground (arith, some_bytes) in
      rw (one, long) refl

  pub serve-IsWaiting : IsWaiting (serve_frame env st).receiver
  serve-IsWaiting =
      let idle = (rb_to_tun-IsSettled env st.receiver.packet_len st).idle in
      let end = rb_to_tun env st.receiver.packet_len st in
      subst (λ (t : Station). IsWaiting t.receiver) (sym serve_ready)
        (idle-IsWaiting (record end.receiver { packet_ready = 0 })
          (record {
            ring = idle.ring;
            empty = idle.empty;
            idle = idle.idle;
            counts = idle.counts;
            flags = idle.flags;
            scrambler = idle.scrambler;
            search = idle.search;
          }))
