-- ===== src/Rohc/Bytes.antt =====
-- What `rohc_compress` sends are bytes, when the packet is of bytes.
use mathlib.Core.Path.{subst}
use echo_protocol.Base.{ℕ, ◌-◌, ◌<◌, ◌≡◌, arith, Bool, true, false}
use echo_protocol.Base.{
  List, [], ◌∷◌, ◌++◌, length, take, drop, set, AllBytes, bit_and, Bool-cases, inl, inr, for_up,
  for_up_inv,
}
use echo_protocol.Base.Bytes.{
  AllBytes-append, take-AllBytes, drop-AllBytes, set-AllBytes, get_or-lt,
}
use echo_protocol.Base.Xor.{bit_and_mask}
use echo_protocol.Rohc.{RohcState, byte, header_size, crc8, crc8_byte, crc8_bit, has}
use echo_protocol.Rohc.Compress.{
  flag_tos, flag_flags, flag_ttl, v6_flag_next_hdr, v6_flag_hop_limit, v6_flag_tc, Compressed, sent,
  unsupported, malformed, too_small, refresh, optional, flags_ipv4, flags_ipv6, header_ipv4,
  header_ipv6, sealed, compress_ipv4, compress_ipv6, rohc_compress,
}

optional-AllBytes : (c : Bool) (xs : List ℕ) → AllBytes xs → AllBytes (optional c xs)
optional-AllBytes true xs a = a
optional-AllBytes false xs a = tt

crc8_bit-lt : (crc : ℕ) → crc8_bit crc < 256
unfolding crc8_bit
crc8_bit-lt crc = elim (Bool-cases (has crc 0x80)) [
  | inl e ↦ rw e (omega arith)
  | inr e ↦ rw e (omega arith)
]

crc8_get_or-lt : (bytes : List ℕ) (i crc : ℕ) → crc8_byte bytes i crc < 256
unfolding crc8_byte for_up
crc8_get_or-lt bytes i crc = crc8_bit-lt _

crc8-lt : (bytes : List ℕ) (len : ℕ) → crc8 bytes len < 256
unfolding crc8
crc8-lt bytes len =
    for_up_inv (λ j crc. crc < 256) (crc8_byte bytes) len 0 len 0xFF (omega arith)
      (λ j t lo hi p. crc8_get_or-lt bytes j t) (omega arith)

-- The flags are the sum of those that are set.
flags_ipv4-lt : (packet ctx : List ℕ) → flags_ipv4 packet ctx < 256
unfolding flags_ipv4
flags_ipv4-lt packet ctx = ground arith

flags_ipv6-lt : (packet ctx : List ℕ) → flags_ipv6 packet ctx < 256
unfolding flags_ipv6
flags_ipv6-lt packet ctx = ground arith

sealed-AllBytes :
    (header payload : List ℕ)
    → AllBytes header
    → AllBytes payload
    → AllBytes (sealed header payload)
sealed-AllBytes header payload a b =
    AllBytes-append (set header 2 (crc8 header (length header))) payload
      (set-AllBytes header 2 _ (crc8-lt header (length header)) a) b

three_optional :
    (a b c : Bool) (xs ys zs : List ℕ)
    → AllBytes xs
    → AllBytes ys
    → AllBytes zs
    → AllBytes (optional a xs ++ (optional b ys ++ optional c zs))
three_optional a b c xs ys zs p q r =
    AllBytes-append (optional a xs) (optional b ys ++ optional c zs) (optional-AllBytes a xs p) (
      AllBytes-append (optional b ys) (optional c zs) (optional-AllBytes b ys q)
        (optional-AllBytes c zs r))

header_ipv4-AllBytes :
    (packet : List ℕ) (flags : ℕ)
    → AllBytes packet
    → flags < 256
    → AllBytes (header_ipv4 packet flags)
unfolding header_ipv4
header_ipv4-AllBytes packet flags a f =
    let b = λ (i : ℕ). get_or-lt packet i a in
    (
      omega arith,
      (
        f,
        (
          omega arith,
          (
            b 4,
            (
              b 5,
              three_optional (has flags flag_tos) (has flags flag_flags) (has flags flag_ttl)
                  (byte packet 1 ∷ []) (byte packet 6 ∷ byte packet 7 ∷ []) (byte packet 8 ∷ [])
                  (b 1, tt) (b 6, (b 7, tt)) (b 8, tt),
            ),
          ),
        ),
      ),
    )

header_ipv6-AllBytes :
    (packet : List ℕ) (flags : ℕ)
    → AllBytes packet
    → flags < 256
    → AllBytes (header_ipv6 packet flags)
unfolding header_ipv6
header_ipv6-AllBytes packet flags a f =
    let b = λ (i : ℕ). get_or-lt packet i a in
    let low : bit_and (byte packet 0) 0x0F < 256 = omega (arith, bit_and_mask 4 (byte packet 0)) in
    (
      omega arith,
      (
        f,
        (
          omega arith,
          (
            b 4,
            (
              b 5,
              three_optional (has flags v6_flag_next_hdr) (has flags v6_flag_hop_limit)
                  (has flags v6_flag_tc) (byte packet 6 ∷ []) (byte packet 7 ∷ [])
                  (bit_and (byte packet 0) 0x0F ∷ []) (b 6, tt) (b 7, tt) (low, tt),
            ),
          ),
        ),
      ),
    )

abbrev payload_of : Compressed → List ℕ
payload_of (sent out) = out
payload_of unsupported = []
payload_of malformed = []
payload_of too_small = []
payload_of refresh = []

-- What is sent, if anything is, is bytes.
abbrev IsBytes : RohcState × Compressed → Type 0
IsBytes r = AllBytes (payload_of r.1)

rest-AllBytes : (packet : List ℕ) (n m : ℕ) → AllBytes packet → AllBytes (take n (drop m packet))
rest-AllBytes packet n m a = take-AllBytes n (drop m packet) (drop-AllBytes m packet a)

ipv4-IsBytes :
    (s : RohcState) (packet : List ℕ) (packet_len out_len : ℕ)
    → AllBytes packet
    → IsBytes (compress_ipv4 s packet packet_len out_len)
unfolding compress_ipv4
ipv4-IsBytes s packet packet_len out_len a =
    let good : AllBytes (
        sealed (header_ipv4 packet (flags_ipv4 packet s.context))
          (take (packet_len - (header_size packet)) (drop (header_size packet) packet))) =
      sealed-AllBytes (header_ipv4 packet _) _
        (header_ipv4-AllBytes packet _ a (flags_ipv4-lt packet s.context))
        (rest-AllBytes packet (packet_len - header_size packet) (header_size packet) a) in
    ground (arith, good)

ipv6-IsBytes :
    (s : RohcState) (packet : List ℕ) (packet_len out_len : ℕ)
    → AllBytes packet
    → IsBytes (compress_ipv6 s packet packet_len out_len)
unfolding compress_ipv6
ipv6-IsBytes s packet packet_len out_len a =
    let good : AllBytes (
        sealed (header_ipv6 packet (flags_ipv6 packet s.context))
          (take (packet_len - 40) (drop (40) packet))) =
      sealed-AllBytes (header_ipv6 packet _) _
        (header_ipv6-AllBytes packet _ a (flags_ipv6-lt packet s.context))
        (rest-AllBytes packet (packet_len - 40) 40 a) in
    ground (arith, good)

compress-IsBytes :
    (s : RohcState) (packet : List ℕ) (packet_len out_len : ℕ)
    → AllBytes packet
    → IsBytes (rohc_compress s packet packet_len out_len)
unfolding rohc_compress
compress-IsBytes s packet packet_len out_len a =
    ground (
      arith,
      ipv4-IsBytes s packet packet_len out_len a,
      ipv6-IsBytes s packet packet_len out_len a,
    )

-- Whatever `rohc_compress` sends of a packet of bytes is bytes.
pub rohc_compress-AllBytes :
    (s : RohcState) (packet out : List ℕ) (packet_len out_len : ℕ)
    → AllBytes packet
    → (rohc_compress s packet packet_len out_len).1 ≡ sent out
    → AllBytes out
rohc_compress-AllBytes s packet out packet_len out_len a e =
    subst (λ r. AllBytes (payload_of r)) e (compress-IsBytes s packet packet_len out_len a)
