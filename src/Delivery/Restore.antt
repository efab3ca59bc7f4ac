-- ===== src/Delivery/Restore.antt =====
-- A packet with a compressed header in `rb_to_tun` of src/echo_protocol.c, when the context serves.
use mathlib.Core.Path.{subst}
use echo_protocol.Base.{ℕ, ◌≤◌, ◌<◌, ◌≡◌, refl, sym, ◌∙◌, arith, true, false, ◌==◌, not}
use echo_protocol.Base.{List, some, length, take, get_or-take}
use echo_protocol.Rohc.{RohcState, byte, has}
use echo_protocol.Rohc.Compress.{sent}
use echo_protocol.Rohc.Decompress.{rohc_decompress, header_len_ipv4}
use echo_protocol.Rohc.Prefix.{decompress_front}
use echo_protocol.Rohc.Shape.{HasHeader}
use echo_protocol.Delivery.{Station, Surroundings, try_rohc, deliver_rohc, deliver}
use echo_protocol.Delivery.Settled.{IsGood}
use echo_protocol.Delivery.Arrive.{finish_good, handed_over}

module _ (env : Surroundings) (array raw : List ℕ) (n : ℕ) (s s' : RohcState)
    (all : HasHeader (sent (take n array))) (enough : 5 ≤ n)
    (head : header_len_ipv4 (byte (take n array) 1) ≤ n)
    (restored : rohc_decompress env.beyond s (take n array) n 4096 ≡ (s', some raw))
    (pos : 0 < length raw) where
  restored_there : rohc_decompress env.beyond s array n 4096 ≡ (s', some raw)
  restored_there =
      let zeroth : byte (take n array) 0 ≡ byte array 0 =
        get_or-take n array 0 0 (omega (arith, enough)) in
      let first : byte (take n array) 1 ≡ byte array 1 =
        get_or-take n array 1 0 (omega (arith, enough)) in
      sym (
        decompress_front array n env.beyond s 4096 enough
          (subst (λ b. header_len_ipv4 b ≤ n) first head)
          (subst (λ b. has b 0x80 ≡ false) zeroth all.2))
      ∙ restored

  -- The first call gives the packet.
  tried : try_rohc env array n s ≡ (s', some raw)
  unfolding try_rohc
  tried =
      let some_bytes : (length raw == 0) ≡ false = ground (arith, pos) in
      rw (restored_there, some_bytes) refl

  pub deliver_restored :
      (st : Station)
      → st.rohc_rx ≡ s
      → st.receiver.is_rohc ≡ 1
      → IsGood env raw
      → deliver env array n st ≡ handed_over raw (record st { rohc_rx = s' })
  unfolding deliver deliver_rohc
  deliver_restored st same rohc good =
      let test : not (st.receiver.is_rohc == 0) ≡ true = ground (arith, rohc) in
      let some_bytes : (length raw == 0) ≡ false = ground (arith, pos) in
      rw (test, same, tried, some_bytes) (finish_good env raw (record st { rohc_rx = s' }) good)
