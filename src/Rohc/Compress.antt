-- ===== src/Rohc/Compress.antt =====
-- `compress_ipv4`, `compress_ipv6` and `rohc_compress` of src/rohc.c.
use echo_protocol.Base.{ℕ, ◌+◌, ◌-◌, Bool, if◌then◌else◌, ltb, ◌==◌, ◌||◌, ◌&&◌, not, all_below}
use echo_protocol.Base.{
  List, [], ◌∷◌, ◌++◌, length, bit_and, bit_or, u8, ◌<<◌, ◌>>◌, set, take, drop,
}
use echo_protocol.Rohc.{RohcState, rohc_ctx_size, byte, has, crc8, ctx_copy, header_size, refreshed}

-- The value returned, and with a positive one the bytes of `out`.
pub data Compressed : Type 0 where
  -- -1
  unsupported : Compressed
  -- -2
  malformed : Compressed
  -- -3
  too_small : Compressed
  -- 0: the packet itself is to be sent
  refresh : Compressed
  sent : List ℕ → Compressed

abbrev pub flag_ip_id : ℕ
flag_ip_id = 0x01

abbrev pub flag_ttl : ℕ
flag_ttl = 0x02

abbrev pub flag_tos : ℕ
flag_tos = 0x04

abbrev pub flag_flags : ℕ
flag_flags = 0x08

abbrev pub v6_flag_next_hdr : ℕ
v6_flag_next_hdr = 0x01

abbrev pub v6_flag_hop_limit : ℕ
v6_flag_hop_limit = 0x02

abbrev pub v6_flag_tc : ℕ
v6_flag_tc = 0x04

-- `a[i] == b[i]`
abbrev pub same_byte : List ℕ → List ℕ → ℕ → Bool
same_byte a b i = byte a i == byte b i

-- `memcmp(a + i, b + i, n) == 0`
unfoldable pub memcmp_same : List ℕ → List ℕ → ℕ → ℕ → Bool
unfolding all_below
memcmp_same a b i n = all_below n (λ j. same_byte a b (i + j))

-- A field that is written when a bit of the flags is set.
abbrev pub optional : Bool → List ℕ → List ℕ
optional c xs = if c then xs else []

-- The static part of the header: what a change of makes the sender refresh the context.
unfoldable pub same_flow_ipv4 : List ℕ → List ℕ → Bool
unfolding memcmp_same
same_flow_ipv4 packet ctx =
    (bit_and (byte packet 0) 0xF0 == bit_and (byte ctx 0) 0xF0)
    && (same_byte packet ctx 9 && memcmp_same packet ctx 12 8)

unfoldable pub flags_ipv4 : List ℕ → List ℕ → ℕ
flags_ipv4 packet ctx =
    let f = flag_ip_id in
    let f' = if same_byte packet ctx 1 then f else bit_or f flag_tos in
    let f'' =
      if not (same_byte packet ctx 6) || not (same_byte packet ctx 7)
      then bit_or f' flag_flags
      else f' in
    if same_byte packet ctx 8 then f'' else bit_or f'' flag_ttl

-- The compressed header, its CRC still zero.
unfoldable pub header_ipv4 : List ℕ → ℕ → List ℕ
header_ipv4 packet flags =
    (0 ∷ flags ∷ 0 ∷ byte packet 4 ∷ byte packet 5 ∷ [])
    ++ (optional (has flags flag_tos) (byte packet 1 ∷ [])
        ++ (optional (has flags flag_flags) (byte packet 6 ∷ byte packet 7 ∷ [])
            ++ optional (has flags flag_ttl) (byte packet 8 ∷ [])))

-- The header with its CRC, and the payload.
abbrev pub sealed : List ℕ → List ℕ → List ℕ
sealed header payload = set header 2 (crc8 header (length header)) ++ payload

-- The six assignments to `ctx` at the end of `compress_ipv4`.
abbrev pub learn_ipv4 : List ℕ → List ℕ → List ℕ
learn_ipv4 ctx packet =
    set
      (set
        (set (set (set (set ctx 1 (byte packet 1)) 4 (byte packet 4)) 5 (byte packet 5)) 6
          (byte packet 6))
        7 (byte packet 7))
      8 (byte packet 8)

unfoldable pub compress_ipv4 : RohcState → List ℕ → ℕ → ℕ → RohcState × Compressed
compress_ipv4 s packet packet_len out_len =
    let ihl = header_size packet in
    let ctx = s.context in
    let flags = flags_ipv4 packet ctx in
    let needed =
      5
      + (if has flags flag_tos then 1 else 0)
      + (if has flags flag_flags then 2 else 0)
      + (if has flags flag_ttl then 1 else 0)
      + (packet_len - ihl) in
    if ltb packet_len 20 || (ltb ihl 20 || ltb packet_len ihl)
    then (s, malformed)
    else (if not s.context_valid
          || (not (same_flow_ipv4 packet ctx)
              || not (bit_and (byte packet 0) 0x0F == bit_and (byte ctx 0) 0x0F))
        then (refreshed s packet (ctx_copy ihl), refresh)
        else (if ltb out_len needed then (s, too_small) else (
          record s { context = learn_ipv4 ctx packet },
          sent (sealed (header_ipv4 packet flags) (take (packet_len - ihl) (drop ihl packet))),
        )))

unfoldable pub same_flow_ipv6 : List ℕ → List ℕ → Bool
unfolding memcmp_same
same_flow_ipv6 packet ctx =
    (bit_and (byte packet 0) 0xF0 == bit_and (byte ctx 0) 0xF0)
    && (same_byte packet ctx 6 && memcmp_same packet ctx 8 32)

unfoldable pub flags_ipv6 : List ℕ → List ℕ → ℕ
flags_ipv6 packet ctx =
    let f = if same_byte packet ctx 6 then 0 else bit_or 0 v6_flag_next_hdr in
    let f' = if same_byte packet ctx 7 then f else bit_or f v6_flag_hop_limit in
    if not (bit_and (byte packet 0) 0x0F == bit_and (byte ctx 0) 0x0F)
      || not ((byte packet 1 >> 4) == (byte ctx 1 >> 4))
    then bit_or f' v6_flag_tc
    else f'

unfoldable pub header_ipv6 : List ℕ → ℕ → List ℕ
header_ipv6 packet flags =
    (0x80 ∷ flags ∷ 0 ∷ byte packet 4 ∷ byte packet 5 ∷ [])
    ++ (optional (has flags v6_flag_next_hdr) (byte packet 6 ∷ [])
        ++ (optional (has flags v6_flag_hop_limit) (byte packet 7 ∷ [])
            ++ optional (has flags v6_flag_tc) (bit_and (byte packet 0) 0x0F ∷ [])))

-- The assignments to `ctx` at the end of `compress_ipv6`.
abbrev pub learn_ipv6 : List ℕ → List ℕ → List ℕ
learn_ipv6 ctx packet =
    let low = bit_and (byte packet 0) 0x0F in
    set
      (set
        (set
          (set
            (set (set ctx 0 (bit_or (bit_and (byte ctx 0) 0xF0) low)) 1
              (u8 (bit_or (low << 4) (bit_and (byte ctx 1) 0x0F))))
            4 (byte packet 4))
          5 (byte packet 5))
        6 (byte packet 6))
      7 (byte packet 7)

unfoldable pub compress_ipv6 : RohcState → List ℕ → ℕ → ℕ → RohcState × Compressed
compress_ipv6 s packet packet_len out_len =
    let ctx = s.context in
    let flags = flags_ipv6 packet ctx in
    let needed =
      5
      + (if has flags v6_flag_next_hdr then 1 else 0)
      + (if has flags v6_flag_hop_limit then 1 else 0)
      + (if has flags v6_flag_tc then 1 else 0)
      + (packet_len - 40) in
    if ltb packet_len 40
    then (s, malformed)
    else (if not s.context_valid || not (same_flow_ipv6 packet ctx)
        then (refreshed s packet rohc_ctx_size, refresh)
        else (if ltb out_len needed then (s, too_small) else (
          record s { context = learn_ipv6 ctx packet },
          sent (sealed (header_ipv6 packet flags) (take (packet_len - 40) (drop 40 packet))),
        )))

unfoldable pub rohc_compress : RohcState → List ℕ → ℕ → ℕ → RohcState × Compressed
rohc_compress s packet packet_len out_len =
    let version = bit_and (byte packet 0) 0xF0 in
    if ltb packet_len 20
    then (s, malformed)
    else (if version == 0x40
        then compress_ipv4 s packet packet_len out_len
        else (if version == 0x60
            then compress_ipv6 s packet packet_len out_len
            else (s, unsupported)))
