-- ===== src/Main/Room.antt =====
-- Which frames the back-pressure of src/main.c leaves room for.
use echo_protocol.Base.{
  ℕ, ◌+◌, ◌-◌, ◌*◌, ◌^◌, ◌≤◌, ◌<◌, ◌≡◌, ◌≢◌, refl, ap, ◌∙◌, arith, Bool, false, ltb,
}
use echo_protocol.Base.{List, ◌++◌, length, length-append, append_assoc, Option, some, AllBytes}
use echo_protocol.Base.Powers.{word_bits}
use echo_protocol.Base.Bytes.{bits_of, length-bits_of, length-word_bits}
use echo_protocol.Ring.{Buffer}
use echo_protocol.Ring.Inv.{IsValid as IsRing, masked, distance}
use echo_protocol.Ring.Refine.{contents, length-contents}
use echo_protocol.Scrambler.Stream.{scramble, length-scramble}
use echo_protocol.Fec.Gf.Field.{IsReached}
use echo_protocol.Header.{pack}
use echo_protocol.Preamble.{push_preamble, push_sync_word}
use echo_protocol.Preamble.Pushed.{push_sync_word-preamble}
use echo_protocol.Receiver.Search.{lead}
use echo_protocol.Transmit.{Sender, Outgoing, framed, header_for}
use echo_protocol.Transmit.Sent.{frame_bits, fresh, sent_whole}
use echo_protocol.Transmit.Choice.{GivesBytes}
use echo_protocol.Transmit.Framed.{tun_to_rb-IsSent}
use echo_protocol.Callback.{used_bytes}
use echo_protocol.Main.{free_space, max_tx_frame_bytes, read_tunnel}

pub used_bytes_lem : (b : Buffer) → IsRing b → used_bytes b ≡ distance b
used_bytes_lem b v = omega (arith, masked (b.head + (2 ^ 64 - b.tail)), v.head_in, v.tail_in)

-- What a frame is in the air.
abbrev pub on_air : Outgoing → List ℕ
on_air o = lead ++ (scramble fresh (frame_bits o)).1

pub length-lead : length lead ≡ 48
unfolding word_bits
length-lead = refl

pub length-frame : (o : Outgoing) → length (frame_bits o) ≡ 16 + length o.bytes * 8
length-frame o = omega (
  arith,
  length-append (word_bits 16 (pack (header_for o))) (bits_of o.bytes),
  length-word_bits 16 (pack (header_for o)),
  length-bits_of o.bytes,
)

pub length-on_air : (o : Outgoing) → length (on_air o) ≡ 64 + length o.bytes * 8
length-on_air o = omega (
  arith,
  length-append lead (scramble fresh (frame_bits o)).1,
  length-lead,
  length-scramble fresh (frame_bits o),
  length-frame o,
)

-- A ring with some bytes free.
room_in : (b : Buffer) → IsRing b → max_tx_frame_bytes ≤ free_space b → length (contents b) ≤ 122888
room_in b v h = omega (arith, h, used_bytes_lem b v, length-contents b, v.put_in)

held_at_least :
    (b : Buffer) → IsRing b → free_space b ≡ max_tx_frame_bytes → 122873 ≤ length (contents b)
held_at_least b v h =
    let used : distance b ≡ 15360 = omega (arith, h, used_bytes_lem b v) in
    let apart : b.head ≢ b.tail = λ e. omega (arith, e, used, v.tail_in) in
    omega (arith, used, length-contents b, v.started apart, v.get_in)

module _ (lz4_compress : List ℕ → ℕ → Option (List ℕ)) (memory : Bool) (raw : List ℕ) (s : Sender)
    (lz4 : GivesBytes lz4_compress) (reached : IsReached s.gf) (pos : 0 < length raw)
    (small : length raw ≤ 2048) (bytes : AllBytes raw) (ring : IsRing s.tx_rb) where
  read_tunnel-IsRing :
      max_tx_frame_bytes ≤ free_space s.tx_rb
      → IsRing (read_tunnel lz4_compress memory (some raw) s).tx_rb
  unfolding read_tunnel
  read_tunnel-IsRing free =
      let few = room_in s.tx_rb ring free in
      let go : ltb (free_space s.tx_rb) max_tx_frame_bytes ≡ false = ground (arith, free) in
      let b = push_sync_word (push_preamble s.tx_rb) in
      rw go
        (tun_to_rb-IsSent lz4_compress memory raw (record s { tx_rb = b }) lz4 reached pos small
          bytes (push_sync_word-preamble ring (omega arith)).0).valid

  -- Where the ring has the room.
  pub read_tunnel-on_air :
      max_tx_frame_bytes ≤ free_space s.tx_rb
      → length (contents s.tx_rb) + length (on_air (framed lz4_compress memory raw s).1) ≤ 131057
      → let b = (read_tunnel lz4_compress memory (some raw) s).tx_rb in
        IsRing b × (contents b ≡ contents s.tx_rb ++ on_air (framed lz4_compress memory raw s).1)
  unfolding read_tunnel framed
  read_tunnel-on_air free fits =
      let few = room_in s.tx_rb ring free in
      let go : ltb (free_space s.tx_rb) max_tx_frame_bytes ≡ false = ground (arith, free) in
      let b = push_sync_word (push_preamble s.tx_rb) in
      let s' = record s { tx_rb = b } in
      let o = (framed lz4_compress memory raw s').1 in
      let (valid, led) = push_sync_word-preamble ring (omega arith) in
      let sent = tun_to_rb-IsSent lz4_compress memory raw s' lz4 reached pos small bytes valid in
      let longer = length-append (contents s.tx_rb) lead in
      let fits' : length (contents s.tx_rb) + length (on_air o) ≤ 131057 = fits in
      let room : length (contents b) + length (frame_bits o) ≤ 131057 =
        omega (arith, ap length led, longer, length-lead, length-frame o, length-on_air o, fits') in
      (
        read_tunnel-IsRing free,
        rw go (
            sent_whole (frame_bits o) sent room
            ∙ ap (λ l. l ++ (scramble fresh (frame_bits o)).1) led
            ∙ append_assoc (contents s.tx_rb) lead (scramble fresh (frame_bits o)).1),
      )

  -- When the loop does not hold the tunnel back, and the payload of the frame has at most 1013 bytes:
  -- the ring stays valid, and behind what it held comes the preamble, the sync word and the whole
  -- frame, scrambled.
  pub read_tunnel-whole :
      max_tx_frame_bytes ≤ free_space s.tx_rb
      → length (framed lz4_compress memory raw s).1.bytes ≤ 1013
      → let b = (read_tunnel lz4_compress memory (some raw) s).tx_rb in
        IsRing b × (contents b ≡ contents s.tx_rb ++ on_air (framed lz4_compress memory raw s).1)
  read_tunnel-whole free fits = read_tunnel-on_air free (
      omega (
        arith,
        room_in s.tx_rb ring free,
        length-on_air (framed lz4_compress memory raw s).1,
        fits,
      ))

  -- The limit of the back-pressure is too low: when exactly 1024 bytes are free, which the loop takes to be
  -- enough, a frame whose payload has 1017 bytes or more is not whole in the ring.
  pub read_tunnel-cuts :
      free_space s.tx_rb ≡ max_tx_frame_bytes
      → 1017 ≤ length (framed lz4_compress memory raw s).1.bytes
      → contents (read_tunnel lz4_compress memory (some raw) s).tx_rb
        ≢ contents s.tx_rb ++ on_air (framed lz4_compress memory raw s).1
  read_tunnel-cuts free long e =
      let valid = read_tunnel-IsRing (omega (arith, free)) in
      let o = (framed lz4_compress memory raw s).1 in
      let b = (read_tunnel lz4_compress memory (some raw) s).tx_rb in
      omega (
        arith,
        ap length e,
        length-append (contents s.tx_rb) (on_air o),
        length-on_air o,
        length-contents b,
        length-contents s.tx_rb,
        valid.put_in,
        held_at_least s.tx_rb ring free,
        long,
      )
