-- ===== src/Rohc/Decompress.antt =====
-- `rohc_decompress` and `rohc_decompress_ipv6` of src/rohc.c.
use echo_protocol.Base.{
  ℕ, ◌+◌, ◌-◌, ◌*◌, Bool, true, if◌then◌else◌, ltb, ◌==◌, ◌||◌, not, Option, none, some,
}
use echo_protocol.Base.{
  List, [], ◌∷◌, ◌++◌, length, bit_and, bit_or, u8, ◌<<◌, ◌>>◌, set, take, drop,
}
use echo_protocol.Rohc.{RohcState, byte, has, crc8, ip_checksum}
use echo_protocol.Rohc.Compress.{flag_ip_id, flag_ttl, flag_tos, flag_flags}
use echo_protocol.Rohc.Compress.{v6_flag_next_hdr, v6_flag_hop_limit, v6_flag_tc}

-- A return of -1 ends the function.
infixl 5 ◌>>=◌
abbrev pub ◌>>=◌ {ℓ κ} : {A : Type ℓ} {B : Type κ} → Option A → (A → Option B) → Option B
none >>= f = none
some a >>= f = f a

-- `rebuilt` and `pos`.
pub record Rebuilding : Type 0 where
  pub rebuilt : List ℕ
  pub pos : ℕ

-- `rebuilt[t] = compressed[pos++]`, for each of the targets.
unfoldable pub copy_bytes : List ℕ → List ℕ → Rebuilding → Rebuilding
copy_bytes compressed [] r = r
copy_bytes compressed (t ∷ ts) r =
    copy_bytes compressed ts
      (record { rebuilt = set r.rebuilt t (byte compressed r.pos); pos = r.pos + 1 })

-- A field that is there when its bit of the flags is set.
unfoldable pub read_field : List ℕ → ℕ → Bool → List ℕ → Rebuilding → Option Rebuilding
unfolding copy_bytes
read_field compressed comp_len present targets r =
    if present
    then (if ltb comp_len (r.pos + length targets)
        then none
        else some (copy_bytes compressed targets r))
    else some r

-- The CRC over the first `header_len` bytes, with that of the CRC zeroed.
abbrev pub crc_of : List ℕ → ℕ → ℕ
crc_of compressed header_len = crc8 (set (take header_len compressed) 2 0) header_len

-- `header_len` of `rohc_decompress`, and of `rohc_decompress_ipv6`.
unfoldable pub header_len_ipv4 : ℕ → ℕ
header_len_ipv4 flags =
    5
    + (if has flags flag_tos then 1 else 0)
    + (if has flags flag_flags then 2 else 0)
    + (if has flags flag_ttl then 1 else 0)

unfoldable pub header_len_ipv6 : ℕ → ℕ
header_len_ipv6 flags =
    5
    + (if has flags v6_flag_next_hdr then 1 else 0)
    + (if has flags v6_flag_hop_limit then 1 else 0)
    + (if has flags v6_flag_tc then 1 else 0)

-- The length and the checksum are computed again.
unfoldable pub finish_ipv4 : List ℕ → ℕ → ℕ → List ℕ
finish_ipv4 rebuilt size total_len =
    let cleared =
      set
        (set (set (set rebuilt 2 (bit_and (total_len >> 8) 0xFF)) 3 (bit_and total_len 0xFF)) 10 0)
        11 0 in
    let cksum = ip_checksum cleared size in
    set (set cleared 10 (bit_and (cksum >> 8) 0xFF)) 11 (bit_and cksum 0xFF)

-- The assignments to `state->context` at the end.
abbrev pub learned_ipv4 : List ℕ → List ℕ → List ℕ
learned_ipv4 ctx rebuilt =
    set
      (set
        (set (set (set (set ctx 1 (byte rebuilt 1)) 4 (byte rebuilt 4)) 5 (byte rebuilt 5)) 6
          (byte rebuilt 6))
        7 (byte rebuilt 7))
      8 (byte rebuilt 8)

-- The fields in their order; `none` where `compressed` is too short for one.
unfoldable pub read_fields_ipv4 : List ℕ → ℕ → ℕ → List ℕ → Option Rebuilding
unfolding read_field
read_fields_ipv4 compressed comp_len flags start = do
  r ←
      read_field compressed comp_len (has flags flag_ip_id) (4 ∷ 5 ∷ [])
        (record { rebuilt = start; pos = 3 })
  r ← read_field compressed comp_len (has flags flag_tos) (1 ∷ []) r
  r ← read_field compressed comp_len (has flags flag_flags) (6 ∷ 7 ∷ []) r
  read_field compressed comp_len (has flags flag_ttl) (8 ∷ []) r

-- The payload goes behind the header, when both fit.
unfoldable pub deliver_ipv4 : RohcState → List ℕ → ℕ → ℕ → Rebuilding → RohcState × Option (List ℕ)
deliver_ipv4 s compressed comp_len out_len r =
    let size = bit_and (byte s.context 0) 0x0F * 4 in
    let total_len = size + (comp_len - r.pos) in
    let header = finish_ipv4 r.rebuilt size total_len in
    if ltb comp_len r.pos || ltb out_len total_len then (s, none) else (
      record s { context = learned_ipv4 s.context header },
      some (take size header ++ take (comp_len - r.pos) (drop r.pos compressed)),
    )

-- What follows the CRC of an IPv4 header. The copy of the context reads past its 40 bytes when the
-- header is longer: `beyond` is the memory there.
unfoldable pub decompress_ipv4 : List ℕ → RohcState → List ℕ → ℕ → ℕ → RohcState × Option (List ℕ)
decompress_ipv4 beyond s compressed comp_len out_len =
    let size = bit_and (byte s.context 0) 0x0F * 4 in
    if ltb size 20
    then (s, none)
    else elim (read_fields_ipv4 compressed comp_len (byte compressed 1)
        (take size (s.context ++ beyond))) [
          | none ↦ (s, none)
          | some r ↦ deliver_ipv4 s compressed comp_len out_len r
        ]

-- The traffic class, of which the low half of the byte is sent.
unfoldable pub read_tc : List ℕ → ℕ → Bool → Rebuilding → Option Rebuilding
read_tc compressed comp_len present r =
    let tc_lo = byte compressed r.pos in
    let first = set r.rebuilt 0 (bit_or 0x60 tc_lo) in
    if present
    then (if ltb comp_len (r.pos + 1)
        then none
        else some (record {
          rebuilt = set first 1 (u8 (bit_or (tc_lo << 4) (bit_and (byte first 1) 0x0F)));
          pos = r.pos + 1;
        }))
    else some r

unfoldable pub read_fields_ipv6 : List ℕ → ℕ → ℕ → List ℕ → Option Rebuilding
unfolding read_field read_tc
read_fields_ipv6 compressed comp_len flags start = do
  r ← read_field compressed comp_len true (4 ∷ 5 ∷ []) (record { rebuilt = start; pos = 3 })
  r ← read_field compressed comp_len (has flags v6_flag_next_hdr) (6 ∷ []) r
  r ← read_field compressed comp_len (has flags v6_flag_hop_limit) (7 ∷ []) r
  read_tc compressed comp_len (has flags v6_flag_tc) r

abbrev pub learned_ipv6 : List ℕ → List ℕ → List ℕ
learned_ipv6 ctx rebuilt =
    set
      (set
        (set (set (set (set ctx 0 (byte rebuilt 0)) 1 (byte rebuilt 1)) 4 (byte rebuilt 4)) 5
          (byte rebuilt 5))
        6 (byte rebuilt 6))
      7 (byte rebuilt 7)

unfoldable pub deliver_ipv6 : RohcState → List ℕ → ℕ → ℕ → Rebuilding → RohcState × Option (List ℕ)
deliver_ipv6 s compressed comp_len out_len r =
    if ltb comp_len r.pos || ltb out_len (40 + (comp_len - r.pos)) then (s, none) else (
      record s { context = learned_ipv6 s.context r.rebuilt },
      some (r.rebuilt ++ take (comp_len - r.pos) (drop r.pos compressed)),
    )

unfoldable pub rohc_decompress_ipv6 : RohcState → List ℕ → ℕ → ℕ → RohcState × Option (List ℕ)
rohc_decompress_ipv6 s compressed comp_len out_len =
    let flags = byte compressed 1 in
    if ltb comp_len 5 || not (byte compressed 2 == crc_of compressed (header_len_ipv6 flags))
    then (s, none)
    else elim (read_fields_ipv6 compressed comp_len flags (take 40 s.context)) [
      | none ↦ (s, none)
      | some r ↦ deliver_ipv6 s compressed comp_len out_len r
    ]

-- `none` is the return of -1, and the length of the list is the value returned otherwise.
unfoldable pub rohc_decompress : List ℕ → RohcState → List ℕ → ℕ → ℕ → RohcState × Option (List ℕ)
rohc_decompress beyond s compressed comp_len out_len =
    if not s.context_valid || ltb comp_len 5
    then (s, none)
    else (if not (byte compressed 2 == crc_of compressed (header_len_ipv4 (byte compressed 1)))
        then (s, none)
        else (if has (byte compressed 0) 0x80
            then rohc_decompress_ipv6 s compressed comp_len out_len
            else decompress_ipv4 beyond s compressed comp_len out_len))
