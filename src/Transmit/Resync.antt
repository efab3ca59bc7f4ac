-- ===== src/Transmit/Resync.antt =====
-- `tx_raw_counter` of `tun_to_rb`: the packets that go as they are, for the receiver's context.
use echo_protocol.Base.{ℕ, Bool}
use echo_protocol.Base.{List, [], ◌∷◌, Option, some}
use echo_protocol.Transmit.{Sender, tun_to_rb}

-- One packet after another.
unfoldable pub send_all : (List ℕ → ℕ → Option (List ℕ)) → Bool → List (List ℕ) → Sender → Sender
send_all lz4_compress memory [] s = s
send_all lz4_compress memory (raw ∷ rest) s =
    send_all lz4_compress memory rest (tun_to_rb lz4_compress memory (some raw) s)
