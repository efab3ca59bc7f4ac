-- ===== src/Rohc/Shape.antt =====
-- What a packet of `rohc_compress` of src/rohc.c starts with.
use mathlib.Core.Path.{subst}
use echo_protocol.Base.{
  ℕ, ◌+◌, ◌-◌, ◌≤◌, ◌≡◌, refl, arith, Bool, true, false, if◌then◌else◌, ltb, ◌==◌, ◌||◌, not,
  bit_and,
}
use echo_protocol.Base.{List, [], ◌∷◌, ◌++◌, length, length-append, set, take, drop}
use echo_protocol.Rohc.{RohcState, byte, has, crc8, header_size, refreshed, ctx_copy}
use echo_protocol.Rohc.Compress.{
  Compressed, unsupported, malformed, too_small, refresh, sent, flag_tos, flag_flags, flag_ttl,
  optional, header_ipv4, flags_ipv4, sealed, learn_ipv4, same_flow_ipv4, compress_ipv4,
  rohc_compress,
}
use echo_protocol.Rohc.Decompress.{header_len_ipv4}

-- The compressed header of IPv4 is all there.
abbrev pub HasHeader : Compressed → Type 0
HasHeader unsupported = Unit
HasHeader malformed = Unit
HasHeader too_small = Unit
HasHeader refresh = Unit
HasHeader (sent out) =
    (5 ≤ length out) × (header_len_ipv4 (byte out 1) ≤ length out) × (has (byte out 0) 0x80 ≡ false)

parts :
    (a b c d e f g h i : ℕ) (tos frag ttl : Bool)
    → length (
        (a ∷ b ∷ c ∷ d ∷ e ∷ [])
        ++ (optional tos (f ∷ []) ++ (optional frag (g ∷ h ∷ []) ++ optional ttl (i ∷ []))))
      ≡ 5 + (if tos then 1 else 0) + (if frag then 2 else 0) + (if ttl then 1 else 0)
parts a b c d e f g h i false false false = refl
parts a b c d e f g h i false false true = refl
parts a b c d e f g h i false true false = refl
parts a b c d e f g h i false true true = refl
parts a b c d e f g h i true false false = refl
parts a b c d e f g h i true false true = refl
parts a b c d e f g h i true true false = refl
parts a b c d e f g h i true true true = refl

sealed-HasHeader :
    (packet : List ℕ) (flags : ℕ) (payload : List ℕ)
    → HasHeader (sent (sealed (header_ipv4 packet flags) payload))
unfolding header_ipv4 header_len_ipv4 has
sealed-HasHeader packet flags payload =
    let header = header_ipv4 packet flags in
    let crc = crc8 header (length header) in
    let size =
      parts 0 flags crc (byte packet 4) (byte packet 5) (byte packet 1) (byte packet 6)
        (byte packet 7) (byte packet 8) (has flags flag_tos) (has flags flag_flags)
        (has flags flag_ttl) in
    let all = length-append (set header 2 crc) payload in
    (omega (arith, size, all), omega (arith, size, all), refl)

-- Either way of a test.
if-HasHeader :
    (b : Bool) (x y : RohcState × Compressed)
    → HasHeader x.1
    → HasHeader y.1
    → HasHeader (if b then x else y).1
if-HasHeader true x y h k = h
if-HasHeader false x y h k = k

compress_ipv4-HasHeader :
    (s : RohcState) (packet : List ℕ) (packet_len out_len : ℕ)
    → HasHeader (compress_ipv4 s packet packet_len out_len).1
unfolding compress_ipv4
compress_ipv4-HasHeader s packet packet_len out_len =
    let ihl = header_size packet in
    let flags = flags_ipv4 packet s.context in
    let payload = take (packet_len - ihl) (drop ihl packet) in
    let needed =
      5
      + (if has flags flag_tos then 1 else 0)
      + (if has flags flag_flags then 2 else 0)
      + (if has flags flag_ttl then 1 else 0)
      + (packet_len - ihl) in
    if-HasHeader (ltb packet_len 20 || (ltb ihl 20 || ltb packet_len ihl)) (s, malformed) _ tt
      (if-HasHeader
        (not s.context_valid
          || (not (same_flow_ipv4 packet s.context)
              || not (bit_and (byte packet 0) 0x0F == bit_and (byte s.context 0) 0x0F)))
        (refreshed s packet (ctx_copy ihl), refresh) _ tt
        (if-HasHeader (ltb out_len needed) (s, too_small)
          (
            record s { context = learn_ipv4 s.context packet },
            sent (sealed (header_ipv4 packet flags) payload),
          )
          tt (sealed-HasHeader packet flags payload)))

-- What is sent of an IPv4 packet.
pub rohc_compress-HasHeader :
    (s : RohcState) (packet out : List ℕ) (packet_len out_len : ℕ)
    → byte packet 0 ≡ 0x45
    → (rohc_compress s packet packet_len out_len).1 ≡ sent out
    → HasHeader (sent out)
unfolding rohc_compress
rohc_compress-HasHeader s packet out packet_len out_len v4 e = subst HasHeader (rw v4 at e) (
    if-HasHeader (ltb packet_len 20) (s, malformed) (compress_ipv4 s packet packet_len out_len) tt
      (compress_ipv4-HasHeader s packet packet_len out_len))
