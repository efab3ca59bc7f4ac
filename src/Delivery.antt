-- ===== src/Delivery.antt =====
-- From the receive ring to the tunnel: `rb_to_tun` of src/echo_protocol.c. The LZ4 library is an
-- argument, `written` is what `tun_write` was called with; the log is left out.
pub mod Settled
pub mod Read
pub mod Arrive
pub mod Restore
mod Tests
use echo_protocol.Base.{
  ℕ, zero, suc, ◌+◌, ◌*◌, ◌%◌, ◌^◌, Bool, true, false, if◌then◌else◌, ltb, leb, ◌==◌, ◌&&◌, ◌||◌,
  not,
}
use echo_protocol.Base.{
  List, [], ◌∷◌, ◌++◌, Option, none, some, length, bit_and, bit_or, u8, ◌<<◌, ◌>>◌, set, take,
  replicate,
}
use echo_protocol.Ring.{Buffer, get_bits}
use echo_protocol.Receiver.{Receiver, rx_reset}
use echo_protocol.Rohc.{RohcState, byte, memcpy, ip_checksum, rohc_sync_context}
use echo_protocol.Rohc.Decompress.{rohc_decompress}
use echo_protocol.Fec.Gf.{Gf, gf_init}
use echo_protocol.Fec.Frame.{fec_decode}
use echo_protocol.Header.{size_buf}
use echo_protocol.Transmit.{size_byte}

-- The size of `audio_payload`, `fec_decoded` and `final_ip_packet`.
abbrev pub payload_size : ℕ
payload_size = size_buf * 2

-- What of `EchoProtocol` and of the statics the function uses.
pub record Station : Type 0 where
  pub receiver : Receiver
  pub rohc_rx : RohcState
  pub gf : Gf
  pub rx_packets : ℕ
  pub rx_bytes : ℕ
  pub rx_corrupted : ℕ
  pub written : List (List ℕ)

-- What is not the program's: the LZ4 library (the bytes and the capacity), whether `malloc` gives a
-- block, the memory behind the 40 bytes of the context, and what `final_ip_packet` holds at first.
pub record Surroundings : Type 0 where
  pub lz4_decompress : List ℕ → ℕ → Option (List ℕ)
  pub memory : Bool
  pub beyond : List ℕ
  pub uninitialised : List ℕ

abbrev pub reset : Station → Station
reset st = record st { receiver = rx_reset st.receiver }

abbrev pub with_ring : Station → Buffer → Station
with_ring st b = record st { receiver = record st.receiver { rx_rb = b } }

-- `stats.rx_corrupted++`, and the reset that follows.
unfoldable pub corrupt : Station → Station
corrupt st = reset (record st { rx_corrupted = (st.rx_corrupted + 1) % 2 ^ 64 })

-- The loop that drops the header. The flag says that every bit was there.
unfoldable pub skip_bits : ℕ → Buffer → Buffer × Bool
skip_bits zero b = (b, true)
skip_bits (suc n) b =
    let (b', r) = get_bits b in elim r [ none ↦ (b', false) | some x ↦ skip_bits n b' ]

-- `audio_payload[i >> 3] = (audio_payload[i >> 3] << 1) | bit`
abbrev pub shift_into : ℕ → ℕ → List ℕ → List ℕ
shift_into i bit a = set a (i >> 3) (u8 (bit_or (byte a (i >> 3) << 1) bit))

-- `n` rounds of the loop over the payload, from the round `i` on.
unfoldable pub read_bits : ℕ → ℕ → List ℕ → Buffer → Buffer × Option (List ℕ)
read_bits zero i a b = (b, some a)
read_bits (suc n) i a b =
    let (b', r) = get_bits b in
    elim r [ none ↦ (b', none) | some x ↦ read_bits n (i + 1) (shift_into i x a) b' ]

-- The end of the function, for a packet of `out_size` bytes in `final_ip_packet`.
unfoldable pub finish : Surroundings → List ℕ → Station → Station
finish env out st =
    let final_ip_packet = memcpy env.uninitialised out (length out) in
    let ihl = bit_and (byte final_ip_packet 0) 0x0F * 4 in
    if (leb 20 (length out) && (bit_and (byte final_ip_packet 0) 0xF0 == 0x40))
      && not (ip_checksum final_ip_packet ihl == 0)
    then corrupt st
    else (if ltb 0 (length out)
        then reset (record st {
          written = st.written ++ (out ∷ []);
          rx_packets = (st.rx_packets + 1) % 2 ^ 64;
          rx_bytes = (st.rx_bytes + length out) % 2 ^ 64;
        })
        else reset st)

-- A result of `rohc_decompress` that is not positive.
abbrev pub is_failed : Option (List ℕ) → Bool
is_failed none = true
is_failed (some out) = length out == 0

-- A packet whose header is compressed: when the first call fails, the context is taken from the
-- payload and the call is made again.
unfoldable pub try_rohc : Surroundings → List ℕ → ℕ → RohcState → RohcState × Option (List ℕ)
try_rohc env payload packet_len s =
    let (s', r) = rohc_decompress env.beyond s payload packet_len payload_size in
    let again =
      rohc_decompress env.beyond (rohc_sync_context s' payload packet_len) payload packet_len
        payload_size in
    if is_failed r then again else (s', r)

abbrev pub after_rohc : Surroundings → Option (List ℕ) → Station → Station
after_rohc env none st = corrupt st
after_rohc env (some out) st = if length out == 0 then corrupt st else finish env out st

unfoldable pub deliver_rohc : Surroundings → List ℕ → ℕ → Station → Station
deliver_rohc env payload packet_len st =
    let (s, r) = try_rohc env payload packet_len st.rohc_rx in
    after_rohc env r (record st { rohc_rx = s })

-- `none` is a negative result of `LZ4_decompress_safe`.
abbrev pub after_lz4 : Surroundings → Option (List ℕ) → Station → Station
after_lz4 env none st = corrupt st
after_lz4 env (some out) st = finish env out st

unfoldable pub deliver_lz4 : Surroundings → List ℕ → ℕ → Station → Station
deliver_lz4 env payload packet_len st =
    after_lz4 env (env.lz4_decompress (take packet_len payload) payload_size) st

unfoldable pub deliver_raw : Surroundings → List ℕ → ℕ → Station → Station
deliver_raw env payload packet_len st =
    finish env (take packet_len payload)
      (record st { rohc_rx = rohc_sync_context st.rohc_rx payload packet_len })

unfoldable pub deliver : Surroundings → List ℕ → ℕ → Station → Station
deliver env payload packet_len st =
    if not (st.receiver.is_rohc == 0)
    then deliver_rohc env payload packet_len st
    else (if not (st.receiver.is_compressed == 0)
        then deliver_lz4 env payload packet_len st
        else deliver_raw env payload packet_len st)

-- The decoded bytes go over the front of `audio_payload`.
abbrev pub after_fec : Surroundings → List ℕ → Option (List ℕ) → Station → Station
after_fec env payload none st = corrupt st
after_fec env payload (some out) st =
    if length out == 0
    then corrupt st
    else deliver env (memcpy payload out (length out)) (length out) st

-- The code is taken off, when the header says that there is one. `fec_decode` reads no byte behind
-- the `packet_len` that it is told of.
unfoldable pub uncode : Surroundings → List ℕ → ℕ → Station → Station
uncode env payload packet_len st =
    if st.receiver.is_fec == 0
    then deliver env payload packet_len st
    else after_fec env payload
        (fec_decode st.gf env.memory (take packet_len payload) packet_len payload_size)
        (record st { gf = gf_init st.gf })

abbrev pub after_read : Surroundings → ℕ → Option (List ℕ) → Station → Station
after_read env packet_len none st = reset st
after_read env packet_len (some payload) st = uncode env payload packet_len st

-- From the loop over the payload on.
unfoldable pub take_payload : Surroundings → ℕ → Station → Station
take_payload env packet_len st =
    let (b, r) =
      read_bits (packet_len * size_byte) 0 (replicate payload_size 0) st.receiver.rx_rb in
    after_read env packet_len r (with_ring st b)

unfoldable pub rb_to_tun : Surroundings → ℕ → Station → Station
rb_to_tun env packet_len st =
    let (b, ok) = skip_bits 16 st.receiver.rx_rb in
    let st' = with_ring st b in
    if not ok
    then reset st'
    else (if (packet_len == 0) || ltb payload_size packet_len
        then corrupt st'
        else take_payload env packet_len st')
