-- ===== src/Main/Tests.antt =====
-- Packets against the back-pressure. Each is the 100th, which goes as it is.
use echo_protocol.Base.{
  ℕ, ◌≡◌, ◌≢◌, refl, arith, true, List, ◌++◌, length, replicate, length-replicate, AllBytes, Option,
  some, none, inl, ap, zero, suc,
}
use echo_protocol.Ring.{Buffer}
use echo_protocol.Ring.Inv.{IsValid as IsRing}
use echo_protocol.Ring.Refine.{contents}
use echo_protocol.Fec.Gf.{zeroed}
use echo_protocol.Transmit.{Sender, Outgoing, framed, as_is}
use echo_protocol.Main.{read_tunnel}
use echo_protocol.Main.Room.{on_air, read_tunnel-whole, read_tunnel-cuts}

abbrev no_lz4 : List ℕ → ℕ → Option (List ℕ)
no_lz4 input capacity = none

-- 15360 bytes are in use.
abbrev busy_ring : Buffer
busy_ring = record { buf = λ j. 0; head = 15360; tail = 0; count_put = 4; count_get = 0 }

busy_ring-IsRing : IsRing busy_ring
busy_ring-IsRing = ground arith

abbrev sender : Sender
sender = record {
  tx_rb = busy_ring;
  tx_scrambler = record { state = 9 };
  rohc_tx = record { context = replicate 40 0; context_valid = true };
  gf = zeroed;
  tx_packets = 0;
  tx_bytes = 0;
  tx_raw_counter = 99;
}

goes_raw : (raw : List ℕ) → (framed no_lz4 true raw sender).1 ≡ as_is raw
unfolding framed
goes_raw raw = refl

ones_size : (n : ℕ) → length {A = ℕ} (replicate n 1) ≡ n
ones_size n = length-replicate n 1

ones-AllBytes : (n : ℕ) → AllBytes (replicate n 1)
ones-AllBytes zero = tt
ones-AllBytes (suc n) = (omega arith, ones-AllBytes n)

-- A packet of 1000 bytes is whole.
read_tunnel-whole_example :
    let b = (read_tunnel no_lz4 true (some (replicate 1000 1)) sender).tx_rb in
    IsRing b
    × (contents b ≡ contents busy_ring ++ on_air (framed no_lz4 true (replicate 1000 1) sender).1)
read_tunnel-whole_example =
    read_tunnel-whole no_lz4 true (replicate 1000 1) sender
      (λ input output capacity e. absurd (ground arith)) (inl refl) (omega (arith, ones_size 1000))
      (omega (arith, ones_size 1000)) (ones-AllBytes 1000) busy_ring-IsRing (omega arith)
      (omega (
        arith,
        ap (λ (o : Outgoing). length o.bytes) (goes_raw (replicate 1000 1)),
        ones_size 1000,
      ))

-- One of 1200 bytes, which the tunnel's MTU allows, is cut.
read_tunnel-cuts_example :
    contents (read_tunnel no_lz4 true (some (replicate 1200 1)) sender).tx_rb
    ≢ contents busy_ring ++ on_air (framed no_lz4 true (replicate 1200 1) sender).1
read_tunnel-cuts_example =
    read_tunnel-cuts no_lz4 true (replicate 1200 1) sender
      (λ input output capacity e. absurd (ground arith)) (inl refl) (omega (arith, ones_size 1200))
      (omega (arith, ones_size 1200)) (ones-AllBytes 1200) busy_ring-IsRing (omega arith)
      (omega (
        arith,
        ap (λ (o : Outgoing). length o.bytes) (goes_raw (replicate 1200 1)),
        ones_size 1200,
      ))
