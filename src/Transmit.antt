-- ===== src/Transmit.antt =====
-- From the tunnel to the transmit ring: `tun_to_rb` of src/echo_protocol.c. What `tun_read` gave and
-- the LZ4 library are arguments; the log is left out.
pub mod Progress
pub mod Sent
pub mod Choice
pub mod Coded
pub mod Framed
pub mod Resync
mod Tests
use echo_protocol.Base.{
  ℕ, zero, suc, ◌+◌, ◌-◌, ◌*◌, ◌%◌, ◌^◌, Bool, true, false, if◌then◌else◌, ltb, leb, ◌==◌, ◌&&◌,
}
use echo_protocol.Base.{List, [], ◌∷◌, Option, none, some, length, bit_and, u16, ◌>>◌, get_or}
use echo_protocol.Ring.{Buffer, put_bits}
use echo_protocol.Scrambler.{Scrambler, scrambler_process, scrambler_reset}
use echo_protocol.Rohc.{RohcState, byte}
use echo_protocol.Rohc.Compress.{
  Compressed, unsupported, malformed, too_small, refresh, sent, rohc_compress,
}
use echo_protocol.Fec.Gf.{Gf, gf_init}
use echo_protocol.Fec.Length.{fec_encoded_len}
use echo_protocol.Fec.Frame.{fec_encode}
use echo_protocol.Header.{Header, pack, size_buf}

abbrev pub size_byte : ℕ
size_byte = 8

-- The sizes of `rohc_buf`, `lz4_buf` and `fec_buf`.
abbrev pub rohc_max_compressed : ℕ
rohc_max_compressed = 1 + 1 + 2 + 1 + 2 + 2 + 2048

abbrev pub lz4_buf_size : ℕ
lz4_buf_size = size_buf + 64

abbrev pub fec_buf_size : ℕ
fec_buf_size = size_buf * 2

-- What of `EchoProtocol` and of the statics the function uses: `gf` are the tables of src/fec.c and
-- `tx_raw_counter` is its own.
pub record Sender : Type 0 where
  pub tx_rb : Buffer
  pub tx_scrambler : Scrambler
  pub rohc_tx : RohcState
  pub gf : Gf
  pub tx_packets : ℕ
  pub tx_bytes : ℕ
  pub tx_raw_counter : ℕ

-- The flags, and the bytes at `final_ptr`, of which there are `final_len`.
pub record Outgoing : Type 0 where
  pub comp : ℕ
  pub rohc : ℕ
  pub fec : ℕ
  pub bytes : List ℕ

abbrev pub as_is : List ℕ → Outgoing
as_is raw = record { comp = 0; rohc = 0; fec = 0; bytes = raw }

-- The condition that the compressed form is shorter.
abbrev pub shorter : List ℕ → List ℕ → Bool
shorter out raw = ltb 0 (length out) && ltb (length out) (length raw)

-- The result of `rohc_compress` is negative.
abbrev pub is_refused : Compressed → Bool
is_refused unsupported = true
is_refused malformed = true
is_refused too_small = true
is_refused refresh = false
is_refused (sent out) = false

unfoldable pub with_rohc : Compressed → List ℕ → Outgoing
with_rohc (sent out) raw =
    if shorter out raw then record { comp = 0; rohc = 1; fec = 0; bytes = out } else as_is raw
with_rohc refresh raw = as_is raw
with_rohc unsupported raw = as_is raw
with_rohc malformed raw = as_is raw
with_rohc too_small raw = as_is raw

-- `none` is a result of `LZ4_compress_default` that is not positive.
unfoldable pub with_lz4 : Option (List ℕ) → List ℕ → Outgoing → Outgoing
with_lz4 none raw o = o
with_lz4 (some out) raw o = if shorter out raw then record o { comp = 1; bytes = out } else o

unfoldable pub with_code : Option (List ℕ) → Outgoing → Outgoing
with_code none o = o
with_code (some code) o =
    if ltb 0 (length code) && leb (length code) fec_buf_size
    then record o { fec = 1; bytes = code }
    else o

unfoldable pub with_fec : Gf → Bool → Outgoing → Outgoing
with_fec g memory o = elim (fec_encoded_len (length o.bytes)) [
  | none ↦ o
  | some n ↦
      if ltb 0 n && leb n fec_buf_size
      then with_code (fec_encode g memory o.bytes (length o.bytes) fec_buf_size) o
      else o
]

-- The calls of `fec_encode` fill the tables.
unfoldable pub coded_tables : Gf → Outgoing → Gf
coded_tables g o = elim (fec_encoded_len (length o.bytes)) [
  | none ↦ g
  | some n ↦ if ltb 0 n && leb n fec_buf_size then gf_init g else g
]

-- The payload and its flags before the code. `lz4_compress` gets the bytes and the capacity.
unfoldable pub choose : (List ℕ → ℕ → Option (List ℕ)) → Compressed → List ℕ → Outgoing
choose lz4_compress result raw =
    let o = with_rohc result raw in
    if is_refused result then with_lz4 (lz4_compress raw lz4_buf_size) raw o else o

-- `bit` of the two loops.
abbrev pub header_bit_at : ℕ → ℕ → ℕ
header_bit_at header k = bit_and (header >> (15 - k)) 1

abbrev pub payload_bit_at : List ℕ → ℕ → ℕ
payload_bit_at bytes i = bit_and (byte bytes (i >> 3) >> (7 - bit_and i 7)) 1

-- `n` rounds of a loop over bits from the round `k` on: each bit is scrambled and put, and a put that
-- is refused returns from the function. The flag says that no put was refused.
unfoldable pub send_bits : (ℕ → ℕ) → ℕ → ℕ → Sender → Sender × Bool
send_bits bit zero k s = (s, true)
send_bits bit (suc n) k s =
    let (scr, out) = scrambler_process s.tx_scrambler (bit k) in
    let (rb, status) = put_bits s.tx_rb out in
    let s' = record s { tx_scrambler = scr; tx_rb = rb } in
    let rest = send_bits bit n (k + 1) s' in if status == 0 then (s', false) else rest

-- The header that announces what is sent.
abbrev pub header_for : Outgoing → Header
header_for o = record { comp = o.comp; rohc = o.rohc; fec = o.fec; len = u16 (length o.bytes) }

-- From `scrambler_reset` on.
unfoldable pub send_frame : Outgoing → Sender → Sender
send_frame o s =
    let start = record s { tx_scrambler = scrambler_reset s.tx_scrambler } in
    let (s', done) = send_bits (header_bit_at (pack (header_for o))) 16 0 start in
    if done
    then (send_bits (payload_bit_at o.bytes) (u16 (length o.bytes) * size_byte) 0 s').0
    else s'

-- `tx_raw_counter` after a packet, and what is sent: every 100th packet goes as it is.
abbrev pub next_raw_counter : ℕ → ℕ
next_raw_counter c = if leb 100 (c + 1) then 0 else c + 1

abbrev pub or_raw : ℕ → List ℕ → Outgoing → Outgoing
or_raw c raw o = if leb 100 (c + 1) then as_is raw else o

-- The statistics count what was prepared, before the counter may send the packet as it is.
unfoldable pub counted : Outgoing → Sender → Sender
counted o s = record s {
  tx_packets = (s.tx_packets + 1) % 2 ^ 64;
  tx_bytes = (s.tx_bytes + u16 (length o.bytes)) % 2 ^ 64;
  tx_raw_counter = next_raw_counter s.tx_raw_counter;
}

-- What the function does before it sends: the frame of a packet, and the sender that has counted it.
-- `memory` says whether `malloc` gives a block to `fec_encode`.
unfoldable pub framed : (List ℕ → ℕ → Option (List ℕ)) → Bool → List ℕ → Sender → Sender × Outgoing
framed lz4_compress memory raw s =
    let (ctx, result) = rohc_compress s.rohc_tx raw (length raw) rohc_max_compressed in
    let chosen = choose lz4_compress result raw in
    let o = with_fec s.gf memory chosen in
    (
      counted o (record s { rohc_tx = ctx; gf = coded_tables s.gf chosen }),
      or_raw s.tx_raw_counter raw o,
    )

-- `none` is a result of `tun_read` that is not positive.
unfoldable pub tun_to_rb : (List ℕ → ℕ → Option (List ℕ)) → Bool → Option (List ℕ) → Sender → Sender
tun_to_rb lz4_compress memory none s = s
tun_to_rb lz4_compress memory (some raw) s =
    let (s', o) = framed lz4_compress memory raw s in send_frame o s'
