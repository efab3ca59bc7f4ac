-- ===== src/Link/Compressed.antt =====
-- A packet whose header is compressed, from the loop of src/main.c at one station to the loop at the other.
use mathlib.Core.Path.{subst}
use echo_protocol.Base.{ℕ, ◌^◌, ◌≤◌, ◌<◌, ◌≡◌, inl, inr, refl, sym, ap, ◌∙◌, arith, true}
use echo_protocol.Base.{List, [], ◌∷◌, ◌++◌, Option, some, length, AllBytes}
use echo_protocol.Ring.Inv.{IsValid as IsRing}
use echo_protocol.Ring.Refine.{contents}
use echo_protocol.Fec.Gf.Field.{IsReached}
use echo_protocol.Header.{Header}
use echo_protocol.Receiver.Frame.{hear, IsTimely}
use echo_protocol.Receiver.Search.{IsWaiting}
use echo_protocol.Rohc.{RohcState, byte}
use echo_protocol.Rohc.Compress.{sent, rohc_compress}
use echo_protocol.Rohc.Decompress.{rohc_decompress, header_len_ipv4}
use echo_protocol.Rohc.Rebuild.{IsPacket}
use echo_protocol.Rohc.Lockstep.{IsContext, receive, lockstep}
use echo_protocol.Rohc.Shape.{HasHeader, rohc_compress-HasHeader}
use echo_protocol.Transmit.{Sender, Outgoing, framed, counted, rohc_max_compressed}
use echo_protocol.Transmit.Choice.{GivesBytes}
use echo_protocol.Transmit.Framed.{
  IsFrame, chosen_for, chosen_for-IsChosen, framed-IsFrame, framed-is_valid_header,
}
use echo_protocol.Delivery.{Station, Surroundings, rb_to_tun, with_ring}
use echo_protocol.Delivery.Settled.{IsGood}
use echo_protocol.Delivery.Arrive.{IsHanded}
use echo_protocol.Delivery.Restore.{deliver_restored}
use echo_protocol.Main.{serve_frame, read_tunnel}
use echo_protocol.Main.Room.{on_air, length-on_air, read_tunnel-on_air}
use echo_protocol.Link.{complete, frame-bits}
use echo_protocol.Link.Air.{empty_free}
use echo_protocol.Link.Led.{heard_on_air, serve_ready, serve-IsWaiting}
use echo_protocol.Link.Written.{IsComplete, chosen-IsHanded}

-- What the receiver makes of the packet: it is written, and the context is `s'`.
abbrev Restored : Station → Station → List ℕ → RohcState → Type 0
Restored st end raw s' = (end.written ≡ st.written ++ (raw ∷ [])) × (end.rohc_rx ≡ s')

handed-Restored :
    (env : Surroundings) (st end : Station) (bytes raw : List ℕ) (s' : RohcState)
    → IsHanded env st end bytes
    → HasHeader (sent bytes)
    → rohc_decompress env.beyond st.rohc_rx bytes (length bytes) 4096 ≡ (s', some raw)
    → st.receiver.is_rohc ≡ 1
    → IsGood env raw
    → Restored st end raw s'
handed-Restored env st end bytes raw s' h all restored rohc good =
    let n = length bytes in
    let there = subst (λ b. HasHeader (sent b)) (sym h.front) all in
    let fits = subst (λ b. header_len_ipv4 (byte b 1) ≤ n) (sym h.front) all.1 in
    let e =
      deliver_restored env h.array raw n st.rohc_rx s' there all.0 fits
        (subst (λ b. rohc_decompress env.beyond st.rohc_rx b n 4096 ≡ (s', some raw)) (sym h.front)
          restored)
        good.some_bytes (record (with_ring st h.ring) { gf = h.gf }) refl rohc good in
    let all_of = h.handed ∙ e in
    (ap (λ (t : Station). t.written) all_of, ap (λ (t : Station). t.rohc_rx) all_of)

-- The lockstep of the two ends, for what was sent.
restored_from :
    (s : RohcState) (beyond raw out : List ℕ)
    → IsContext s
    → IsPacket raw
    → length raw ≤ 2048
    → (rohc_compress s raw (length raw) rohc_max_compressed).1 ≡ sent out
    → rohc_decompress beyond s out (length out) 4096
      ≡ ((rohc_compress s raw (length raw) rohc_max_compressed).0, some raw)
restored_from s beyond raw out v packet small e =
    let s' = (rohc_compress s raw (length raw) rohc_max_compressed).0 in
    subst (λ r. receive beyond s r raw 4096 ≡ (s', some raw)) e
      (lockstep s beyond raw rohc_max_compressed 4096 v packet (omega (arith, small))
        (omega (arith, small))).0

module _ (lz4_compress : List ℕ → ℕ → Option (List ℕ)) (env : Surroundings) (raw : List ℕ)
    (s : Sender) (lz4 : GivesBytes lz4_compress) (malloc : env.memory ≡ true)
    (small : length raw ≤ 1784) (bytes : AllBytes raw) (packet : IsPacket raw)
    (good : IsGood env raw) (ring : IsRing s.tx_rb) (empty : contents s.tx_rb ≡ [])
    (reached : IsReached s.gf) (context : IsContext s.rohc_tx) where
  abbrev frame : Outgoing
  frame = (framed lz4_compress env.memory raw s).1

  -- The context of the sender after the packet.
  framed-rohc_tx :
      (framed lz4_compress env.memory raw s).0.rohc_tx
      ≡ (rohc_compress s.rohc_tx raw (length raw) rohc_max_compressed).0
  unfolding framed counted
  framed-rohc_tx = refl

  put_frame : contents (read_tunnel lz4_compress env.memory (some raw) s).tx_rb ≡ on_air frame
  put_frame =
      let pos = good.some_bytes in
      let announced =
        framed-is_valid_header lz4_compress env.memory raw s lz4 reached pos small bytes in
      (read_tunnel-on_air lz4_compress env.memory raw s lz4 reached pos (omega (arith, small)) bytes
        ring (empty_free s.tx_rb ring empty)
        (omega (arith, ap length empty, length-on_air frame, announced))).1
      ∙ ap (λ l. l ++ on_air frame) empty

  coded-Restored :
      (st : Station)
      → IsReached st.gf
      → st.rohc_rx ≡ s.rohc_tx
      → IsComplete st frame
      → frame.rohc ≡ 1
      → IsFrame s.gf raw (chosen_for lz4_compress raw s) frame
      → 0 < length frame.bytes
      → length frame.bytes ≤ 2048
      → Restored st
          (rb_to_tun env (length frame.bytes) st)
          raw
          (framed lz4_compress env.memory raw s).0.rohc_tx
  coded-Restored st reached' same v one (inl e) pos short =
      absurd (omega (arith, one, ap (λ (o : Outgoing). o.rohc) e))
  coded-Restored st reached' same v one (inr c) pos short =
      let chosen = chosen_for lz4_compress raw s in
      let w = chosen_for-IsChosen lz4_compress raw s lz4 good.some_bytes bytes in
      let out = w.by_rohc (sym c.same_flags.1 ∙ one) in
      let back =
        restored_from s.rohc_tx env.beyond raw chosen.bytes context packet (omega (arith, small))
          out in
      handed-Restored env st (rb_to_tun env (length frame.bytes) st) chosen.bytes raw
        (framed lz4_compress env.memory raw s).0.rohc_tx
        (chosen-IsHanded env st frame reached reached' malloc v c w.some_bytes pos
          (omega (arith, short)))
        (rohc_compress-HasHeader s.rohc_tx raw chosen.bytes (length raw) rohc_max_compressed
          packet.first out)
        (ap (λ t. rohc_decompress env.beyond t chosen.bytes (length chosen.bytes) 4096) same
          ∙ back
          ∙ ap (λ t. (t, some raw)) (sym framed-rohc_tx))
        (v.rohc ∙ one) good

  -- An IPv4 packet without options, whose length and checksum are right, of at most 1784 bytes, which
  -- the loop reads from the tunnel into an empty transmit ring, and whose header the sender compresses:
  -- when the other station, which has the context that the sender had, waits for a sync word and hears the
  -- bits of the ring, none more than 6 seconds after the one before, the next round of its loop writes
  -- exactly that packet to the tunnel; it then has the context that the sender has then, and waits
  -- again. `malloc` is to give memory to the code.
  pub compressed_arrives :
      (st : Station) (times : List ℕ) (since : ℕ)
      → frame.rohc ≡ 1
      → IsReached st.gf
      → st.rohc_rx ≡ s.rohc_tx
      → IsWaiting st.receiver
      → since < 2 ^ 32
      → length times ≡ length (contents (read_tunnel lz4_compress env.memory (some raw) s).tx_rb)
      → IsTimely since times
      → let bits = contents (read_tunnel lz4_compress env.memory (some raw) s).tx_rb in
        let st' = serve_frame env (record st { receiver = hear st.receiver times bits }) in
        (st'.written ≡ st.written ++ (raw ∷ []))
        × (st'.rohc_rx ≡ (framed lz4_compress env.memory raw s).0.rohc_tx)
        × IsWaiting st'.receiver
  compressed_arrives st times since one reached' same waiting early many on =
      let pos = good.some_bytes in
      let w = chosen_for-IsChosen lz4_compress raw s lz4 pos bytes in
      let is_frame =
        framed-IsFrame lz4_compress env.memory raw s lz4 reached pos (omega (arith, small)) bytes in
      let announced =
        framed-is_valid_header lz4_compress env.memory raw s lz4 reached pos small bytes in
      let done =
        heard_on_air frame st.receiver times since announced (frame-bits frame is_frame w.one_flag)
          waiting early (many ∙ ap length put_frame) on in
      let st1 = record st { receiver = hear st.receiver times (on_air frame) } in
      let len : st1.receiver.packet_len ≡ length frame.bytes =
        ap (λ (h : Header). h.len) done.header ∙ omega (arith, announced) in
      let some_bytes : 0 < st1.receiver.packet_len = omega (arith, len, announced) in
      let served = serve_ready env st1 done.ready some_bytes in
      let end =
        coded-Restored st1 reached' same (complete st1 frame done) one is_frame announced.1
          announced.2 in
      let s' = (framed lz4_compress env.memory raw s).0.rohc_tx in
      let (written, taken) = subst (λ n. Restored st1 (rb_to_tun env n st1) raw s') (sym len) end in
      subst
        (λ bits.
          let st' = serve_frame env (record st { receiver = hear st.receiver times bits }) in
          (st'.written ≡ st.written ++ (raw ∷ [])) × (st'.rohc_rx ≡ s') × IsWaiting st'.receiver)
        (sym put_frame)
        (
          ap (λ (t : Station). t.written) served ∙ written,
          ap (λ (t : Station). t.rohc_rx) served ∙ taken,
          serve-IsWaiting env st1 done.ready some_bytes,
        )
