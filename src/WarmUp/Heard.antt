-- ===== src/WarmUp/Heard.antt =====
-- The warm-up of src/main.c at the other station: each of its packets is heard, and served by the loop.
use mathlib.Core.Path.{subst}
use echo_protocol.Base.Floats.{Floats}
use echo_protocol.Base.{ℕ, ◌^◌, ◌≤◌, ◌<◌, ◌≡◌, refl, sym, ap, ◌∙◌, arith, inl, for_up}
use echo_protocol.Base.{
  List, [], ◌∷◌, ◌++◌, length, take, drop, replicate, append-nil, append_assoc, take_prefix,
  drop_prefix, some, AllBytes,
}
use echo_protocol.Ring.{Buffer}
use echo_protocol.Ring.Refine.{contents}
use echo_protocol.Header.{Header, pack, unpack, is_valid_header}
use echo_protocol.Receiver.Frame.{hear, IsTimely}
use echo_protocol.Receiver.Search.{IsWaiting}
use echo_protocol.Rohc.{ip_checksum, checksum_round, has}
use echo_protocol.Modem.Symbols.{flatten}
use echo_protocol.Transmit.{as_is, header_for}
use echo_protocol.Transmit.Framed.{IsAnnounced}
use echo_protocol.Delivery.{Station, Surroundings, rb_to_tun, with_ring}
use echo_protocol.Delivery.Settled.{IsGood}
use echo_protocol.Delivery.Arrive.{read_frame, plain_frame, deliver-written}
use echo_protocol.Main.{serve_frame}
use echo_protocol.Tunnel.{Os, Sys}
use echo_protocol.Setup.{EchoProtocol, at_start, echo_init, sender_of, station_of}
use echo_protocol.Setup.Ready.{echo_init-IsReady, emptied}
use echo_protocol.Link.{complete}
use echo_protocol.Link.Led.{heard_on_air, serve_ready, serve-IsWaiting}
use echo_protocol.Link.Written.{IsComplete}
use echo_protocol.WarmUp.{dummy_ip, warm_up}
use echo_protocol.WarmUp.Sent.{
  dummy_on_air, dummy_length, dummy_size, dummy_bytes, dummy_plain, dummy_ip_lem, warm_up-Appended,
}

-- The station hears some bits, at these times, and its loop has a round.
abbrev pub hear_and_serve : Surroundings → List ℕ → List ℕ → Station → Station
hear_and_serve env times bits st =
    serve_frame env (record st { receiver = hear st.receiver times bits })

-- The bits come in runs; after each of them the loop has a round.
abbrev pub listen : Surroundings → List (List ℕ) → List ℕ → Station → Station
listen env [] bits st = st
listen env (times ∷ runs) bits st =
    listen env runs (drop (length times) bits)
      (hear_and_serve env times (take (length times) bits) st)

-- The times of one frame of the warm-up: no bit more than 6 seconds after the one before.
abbrev pub IsPaced : List ℕ → Type 0
IsPaced times = (length times ≡ 288) × ((since : ℕ) × (since < 2 ^ 32) × IsTimely since times)

abbrev pub AllPaced : List (List ℕ) → Type 0
AllPaced [] = Unit
AllPaced (times ∷ runs) = IsPaced times × AllPaced runs

dummy-IsAnnounced : IsAnnounced (as_is dummy_ip)
unfolding dummy_ip is_valid_header pack unpack
dummy-IsAnnounced = (refl, omega (arith, dummy_size), omega (arith, dummy_size))

plain-IsGood : (env : Surroundings) → IsGood env dummy_plain
unfolding ip_checksum for_up checksum_round has
plain-IsGood env = record { some_bytes = omega arith; verified = λ long v4. refl }

dummy-IsGood : (env : Surroundings) → IsGood env dummy_ip
dummy-IsGood env = subst (IsGood env) (sym dummy_ip_lem) (plain-IsGood env)

-- A frame that the loop finds, and that is neither compressed nor coded.
module _ (env : Surroundings) (st : Station) (bytes : List ℕ) (v : IsComplete st (as_is bytes))
    (all : AllBytes bytes) (good : IsGood env bytes) (small : length bytes ≤ 2048) where
  plain-written : (rb_to_tun env (length bytes) st).written ≡ st.written ++ (bytes ∷ [])
  plain-written =
      let (b, e) =
        read_frame env st (pack (header_for (as_is bytes))) bytes v.ring v.holds all good.some_bytes
          (omega (arith, small)) in
      let h = plain_frame env st bytes b v.fec in
      ap (λ (t : Station). t.written) (e ∙ h.handed)
      ∙ deliver-written env h.array bytes bytes (record (with_ring st h.ring) { gf = h.gf }) h.front
          v.rohc (inl (v.comp, refl)) good

  plain-served :
      st.receiver.packet_ready ≡ 1
      → st.receiver.packet_len ≡ length bytes
      → ((serve_frame env st).written ≡ st.written ++ (bytes ∷ []))
        × IsWaiting (serve_frame env st).receiver
  plain-served ready len =
      let served = serve_ready env st ready (omega (arith, len, good.some_bytes)) in
      (
        ap (λ (t : Station). t.written) served
            ∙ ap (λ n. (rb_to_tun env n st).written) len
            ∙ plain-written,
        serve-IsWaiting env st ready (omega (arith, len, good.some_bytes)),
      )

one_frame :
    (env : Surroundings) (times : List ℕ) (st : Station)
    → IsPaced times
    → IsWaiting st.receiver
    → let st' = hear_and_serve env times dummy_on_air st in
      (st'.written ≡ st.written ++ (dummy_ip ∷ [])) × IsWaiting st'.receiver
one_frame env times st (size, (since, early, on)) waiting =
    let done =
      heard_on_air (as_is dummy_ip) st.receiver times since dummy-IsAnnounced
        (omega arith, omega arith, omega arith) waiting early (size ∙ sym dummy_length) on in
    let st' = record st { receiver = hear st.receiver times dummy_on_air } in
    plain-served env st' dummy_ip (complete st' (as_is dummy_ip) done) dummy_bytes
      (dummy-IsGood env) (omega (arith, dummy_size)) done.ready
      (ap (λ (h : Header). h.len) done.header ∙ omega (arith, dummy_size))

frames-written :
    (env : Surroundings) (runs : List (List ℕ)) (st : Station)
    → AllPaced runs
    → IsWaiting st.receiver
    → (listen env runs (flatten (replicate (length runs) dummy_on_air)) st).written
      ≡ st.written ++ replicate (length runs) dummy_ip
frames-written env [] st paced waiting = sym (append-nil st.written)
frames-written env (times ∷ runs) st (first, paced) waiting =
    let n = length runs in
    let others = flatten (replicate n dummy_on_air) in
    let size : length times ≡ length dummy_on_air = first.0 ∙ sym dummy_length in
    let front : take (length times) (dummy_on_air ++ others) ≡ dummy_on_air =
      take_prefix dummy_on_air others (length times) (sym size) in
    let back : drop (length times) (dummy_on_air ++ others) ≡ others =
      drop_prefix dummy_on_air others (length times) (sym size) in
    let (written, waiting') = one_frame env times st first waiting in
    let st' = hear_and_serve env times dummy_on_air st in
    ap
      (λ l.
        (listen env runs l
          (hear_and_serve env times (take (length times) (dummy_on_air ++ others)) st)).written)
      back
    ∙ ap (λ l. (listen env runs others (hear_and_serve env times l st)).written) front
    ∙ frames-written env runs st' paced waiting'
    ∙ ap (λ l. l ++ replicate n dummy_ip) written
    ∙ append_assoc st.written (dummy_ip ∷ []) (replicate n dummy_ip)

-- Two stations, each just after `echo_init` at the start of the program. The warm-up of the one fills its transmit ring; when the
-- other hears the bits of that ring in eight runs of 288, no bit of a run more than 6 seconds after
-- the one before, and its loop has a round after each of them, it writes the dummy packet to its tunnel
-- eight times, and nothing else.
pub warm_up_arrives :
    (fl : Floats) (os os' : Os) (tx_block rx_block tx_block' rx_block' : Buffer)
    (dev dev' name name' : List ℕ) (echo echo' e e' : EchoProtocol fl.F) (s s' t t' : Sys)
    (env : Surroundings) (runs : List (List ℕ))
    → echo_init fl os (some tx_block) (some rx_block) dev echo s ≡ (some (e, name), s')
    → echo_init fl os' (some tx_block') (some rx_block') dev' echo' t ≡ (some (e', name'), t')
    → length runs ≡ 8
    → AllPaced runs
    → (listen env runs
        (contents (warm_up (sender_of at_start e (emptied tx_block))).tx_rb)
        (station_of at_start e' (emptied rx_block'))).written
      ≡ replicate 8 dummy_ip
warm_up_arrives fl os os' tx_block rx_block tx_block' rx_block' dev dev' name name' echo echo' e e'
      s s' t t' env runs started started' eight paced =
    let v = echo_init-IsReady fl (some tx_block) (some rx_block) os dev echo e name s s' started in
    let v' =
      echo_init-IsReady fl (some tx_block') (some rx_block') os' dev' echo' e' name' t t'
        started' in
    let st = station_of at_start e' (emptied rx_block') in
    let holds =
      (warm_up-Appended (sender_of at_start e (emptied tx_block)) v.tx.1
        (omega (arith, ap length v.tx.2))).1
      ∙ ap (λ l. l ++ flatten (replicate 8 dummy_on_air)) v.tx.2
      ∙ ap (λ n. flatten (replicate n dummy_on_air)) (sym eight) in
    ap (λ l. (listen env runs l st).written) holds
    ∙ frames-written env runs st paced v'.listening.0
    ∙ ap (λ n. replicate n dummy_ip) eight
