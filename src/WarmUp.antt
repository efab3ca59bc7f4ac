-- ===== src/WarmUp.antt =====
-- The warm-up of src/main.c: eight packets that go out before the loop starts. What the callback takes
-- out of the ring meanwhile is left out, and so are the waits.
pub mod Sent
pub mod Heard
mod Tests
use echo_protocol.Base.{
  ℕ, ◌-◌, ◌*◌, bit_and, ◌>>◌, List, [], ◌∷◌, ◌++◌, replicate, set, for_up, for_down,
}
use echo_protocol.Ring.{put_bits}
use echo_protocol.Preamble.{push_preamble, push_sync_word}
use echo_protocol.Scrambler.{scrambler_process, scrambler_reset}
use echo_protocol.Rohc.{byte, ip_checksum}
use echo_protocol.Transmit.{Sender}

-- `dummy_ip` as it is declared: 28 bytes, of which the last 8 are not given.
abbrev pub bare_ip : List ℕ
bare_ip =
    (0x45 ∷ 0x00 ∷ 0x00 ∷ 0x1C ∷ 0x00 ∷ 0x01 ∷ 0x40 ∷ 0x00 ∷ 0x40 ∷ 0x01 ∷ 0x00 ∷ 0x00 ∷ 0x0A ∷ 0x00
      ∷ 0x00 ∷ 0x01 ∷ 0x0A ∷ 0x00 ∷ 0x00 ∷ 0x02 ∷ [])
    ++ replicate 8 0

-- The checksum is put in.
unfoldable pub dummy_ip : List ℕ
dummy_ip =
    let cleared = set (set bare_ip 10 0) 11 0 in
    let ck = ip_checksum cleared 20 in
    set (set cleared 10 (bit_and (ck >> 8) 0xFF)) 11 (bit_and ck 0xFF)

abbrev pub dummy_header : ℕ
dummy_header = bit_and 28 0x3FFF

-- A bit is scrambled and put; what `put_bits` returns is ignored.
unfoldable pub put_scrambled : ℕ → Sender → Sender
put_scrambled bit s =
    let (scr, out) = scrambler_process s.tx_scrambler bit in
    record s { tx_scrambler = scr; tx_rb = (put_bits s.tx_rb out).0 }

-- A round of the loop.
unfoldable pub warm_up_packet : Sender → Sender
warm_up_packet s =
    let led = record s {
      tx_rb = push_sync_word (push_preamble s.tx_rb);
      tx_scrambler = scrambler_reset s.tx_scrambler;
    } in
    let headed = for_down 16 (λ i. put_scrambled (bit_and (dummy_header >> (i - 1)) 1)) led in
    for_up (28 * 8) 0 (λ b. put_scrambled (bit_and (byte dummy_ip (b >> 3) >> (7 - bit_and b 7)) 1))
      headed

unfoldable pub warm_up : Sender → Sender
warm_up s = for_up 8 0 (λ i. warm_up_packet) s
