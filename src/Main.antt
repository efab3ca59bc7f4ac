-- ===== src/Main.antt =====
-- The loop of src/main.c: the back-pressure on the transmit ring, and the frames that are ready. What
-- `poll` and `tun_read` give is an argument; the log and the statistics every 10 seconds are left out.
pub mod Room
mod Tests
use echo_protocol.Base.{
  ℕ, ◌-◌, Bool, true, if◌then◌else◌, ltb, ◌==◌, not, u16, List, Option, none, some,
}
use echo_protocol.Ring.{Buffer, buffer_size}
use echo_protocol.Preamble.{push_preamble, push_sync_word}
use echo_protocol.Transmit.{Sender, tun_to_rb}
use echo_protocol.Delivery.{Station, Surroundings, rb_to_tun}
use echo_protocol.Callback.{used_bytes}

abbrev pub max_tx_frame_bytes : ℕ
max_tx_frame_bytes = 1024

abbrev pub free_space : Buffer → ℕ
free_space b = u16 (buffer_size - used_bytes b)

-- The tunnel has something to read: `none` is a result of `tun_read` that is not positive.
unfoldable pub read_tunnel :
    (List ℕ → ℕ → Option (List ℕ)) → Bool → Option (List ℕ) → Sender → Sender
read_tunnel lz4_compress memory raw s =
    if ltb (free_space s.tx_rb) max_tx_frame_bytes
    then s
    else tun_to_rb lz4_compress memory raw
        (record s { tx_rb = push_sync_word (push_preamble s.tx_rb) })

-- `packet_ready` is looked at, and cleared.
unfoldable pub serve_frame : Surroundings → Station → Station
serve_frame env st =
    let r = st.receiver in
    let st' = if ltb 0 r.packet_len then rb_to_tun env r.packet_len st else st in
    if r.packet_ready == 0
    then st
    else record st' { receiver = record st'.receiver { packet_ready = 0 } }

-- What the loop changes.
pub record Host : Type 0 where
  pub sender : Sender
  pub station : Station

abbrev pub polled :
    (List ℕ → ℕ → Option (List ℕ)) → Bool → Option (Option (List ℕ)) → Sender → Sender
polled lz4_compress memory none s = s
polled lz4_compress memory (some raw) s = read_tunnel lz4_compress memory raw s

-- A round of the loop: `none` says that `poll` reports nothing.
unfoldable pub main_step :
    (List ℕ → ℕ → Option (List ℕ)) → Surroundings → Option (Option (List ℕ)) → Host → Host
main_step lz4_compress env event h = record {
  sender = polled lz4_compress env.memory event h.sender;
  station = serve_frame env h.station;
}
