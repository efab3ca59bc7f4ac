-- ===== src/Receiver.antt =====
-- The receiver's state machine of src/echo_protocol.c: `process_rx_bit`, `handle_data_state` and
-- `rx_reset`, with what they reach: the receive ring, the descrambler, the sync correlator and two of
-- the counters. The time is an argument; the log is left out.
pub mod Sound
pub mod Inv
pub mod Frame
pub mod Search
mod Tests
use echo_protocol.Base.{
  ℕ, ◌+◌, ◌-◌, ◌*◌, ◌%◌, ◌^◌, Bool, true, false, if◌then◌else◌, ltb, ◌==◌, ◌&&◌, not,
}
use echo_protocol.Base.{bit_and, bit_or, u16, u32, ◌<<◌}
use echo_protocol.Ring.{Buffer, rb_reset, put_bits}
use echo_protocol.Scrambler.{Scrambler, scrambler_reset, scrambler_process}
use echo_protocol.Sync.{Correlator, Checked, sync_correlator_reset, check_sync_word}
use echo_protocol.Header.{unpack, is_valid_header}

-- `SEARCHING` and `DATA`.
pub data RxStatus : Type 0 where
  searching : RxStatus
  in_data : RxStatus

-- The fields of `RxState`, and of the rest of `EchoProtocol` what the receiver uses.
pub record Receiver : Type 0 where
  pub state : RxStatus
  pub sync_accumulator : ℕ
  pub bits_received : ℕ
  pub packet_len : ℕ
  pub header_accumulator : ℕ
  pub last_rx_time : ℕ
  pub packet_ready : ℕ
  pub is_compressed : ℕ
  pub is_rohc : ℕ
  pub is_fec : ℕ
  pub rx_rb : Buffer
  pub rx_scrambler : Scrambler
  pub correlator : Correlator
  pub rx_sync_found : ℕ
  pub rx_timeouts : ℕ

unfoldable pub rx_reset : Receiver → Receiver
rx_reset r = record r {
  state = searching;
  bits_received = 0;
  packet_len = 0;
  header_accumulator = 0;
  sync_accumulator = 0;
  is_compressed = 0;
  is_rohc = 0;
  is_fec = 0;
  rx_rb = rb_reset r.rx_rb;
  rx_scrambler = scrambler_reset r.rx_scrambler;
  correlator = sync_correlator_reset r.correlator;
}

-- The fields of a header, which resets the receiver when it is not valid.
unfoldable pub take_header : Receiver → ℕ → Receiver
take_header r header =
    let h = unpack header in
    let r' = record r {
      is_compressed = h.comp;
      is_rohc = h.rohc;
      is_fec = h.fec;
      packet_len = h.len;
    } in
    if is_valid_header header then r' else rx_reset r'

-- What `handle_data_state` does with the first 16 bits, of which `bit` is the last that has come.
unfoldable pub header_bit : Receiver → ℕ → Receiver
header_bit r bit =
    let r' = record r { header_accumulator = bit_or (r.header_accumulator << 1) bit % 2 ^ 64 } in
    if r.bits_received == 16 then take_header r' (bit_and r'.header_accumulator 0xFFFF) else r'

-- What it does with the bits after them.
unfoldable pub payload_bit : Receiver → Receiver
payload_bit r =
    if r.bits_received == r.packet_len * 8 + 16
    then record r { state = searching; packet_ready = 1 }
    else r

-- The bit is descrambled and stored.
unfoldable pub store_bit : Receiver → ℕ → Receiver
store_bit r bit =
    let (s, out) = scrambler_process r.rx_scrambler bit in
    record r {
      rx_scrambler = s;
      rx_rb = (put_bits r.rx_rb out).0;
      bits_received = u16 (r.bits_received + 1);
    }

unfoldable pub handle_data_state : Receiver → ℕ → Receiver
handle_data_state r bit =
    let stored = store_bit r bit in
    if ltb 16 stored.bits_received
    then payload_bit stored
    else header_bit stored (scrambler_process r.rx_scrambler bit).1

-- A bit while the sync word is sought.
unfoldable pub search_bit : ℕ → Receiver → ℕ → Receiver
search_bit now r bit =
    let c = check_sync_word r.sync_accumulator r.correlator bit in
    let r' = record r { sync_accumulator = c.check_word; correlator = c.correlator } in
    if c.result == 0
    then record r' {
      state = in_data;
      bits_received = 0;
      packet_len = 0;
      header_accumulator = 0;
      last_rx_time = u32 now;
      rx_scrambler = scrambler_reset r.rx_scrambler;
      rx_sync_found = r.rx_sync_found + 1;
    }
    else r'

-- A bit in the frame: `now - last_rx_time > 6` is a timeout, which takes no bit.
unfoldable pub frame_bit : ℕ → Receiver → ℕ → Receiver
frame_bit now r bit =
    if ltb (r.last_rx_time + 6) now
    then record r { state = searching; bits_received = 0; rx_timeouts = r.rx_timeouts + 1 }
    else handle_data_state (record r { last_rx_time = u32 now }) bit

unfoldable pub process_rx_bit : ℕ → Receiver → ℕ → Receiver
process_rx_bit now r bit = elim r.state [
  | searching ↦ search_bit now r bit
  | in_data ↦ frame_bit now r bit
]
