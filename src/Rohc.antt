-- ===== src/Rohc.antt =====
-- The header compression of include/rohc.h and src/rohc.c: the state, the checksums, `rohc_init`,
-- `rohc_reset`, `rohc_sync_context`. Messages to stderr are left out.
pub mod Compress
pub mod Decompress
pub mod Fields
pub mod Rebuild
pub mod Lockstep
pub mod Prefix
pub mod Shape
pub mod Bytes
pub mod Tests
use echo_protocol.Base.{
  ℕ, ◌+◌, ◌-◌, ◌*◌, ◌/◌, Bool, true, false, if◌then◌else◌, ltb, leb, ◌==◌, ◌||◌, not,
}
use echo_protocol.Base.{
  List, ◌++◌, bit_and, bit_or, bit_xor, u8, u32, ◌<<◌, ◌>>◌, get_or, take, drop, replicate, for_up,
}

abbrev pub rohc_ctx_size : ℕ
rohc_ctx_size = 40

-- `ROHCState`. The context is an array of 40 bytes.
pub record RohcState : Type 0 where
  pub context : List ℕ
  pub context_valid : Bool

-- `a[i]`
abbrev pub byte : List ℕ → ℕ → ℕ
byte a i = get_or a i 0

-- `memcpy(dst, src, n)`
abbrev pub memcpy : List ℕ → List ℕ → ℕ → List ℕ
memcpy dst src n = take n src ++ drop n dst

-- A test of a bit: `flags & mask`.
unfoldable pub has : ℕ → ℕ → Bool
has flags mask = not (bit_and flags mask == 0)

unfoldable pub crc8_bit : ℕ → ℕ
crc8_bit crc = if has crc 0x80 then u8 (bit_xor (crc << 1) 0x07) else u8 (crc << 1)

unfoldable pub crc8_byte : List ℕ → ℕ → ℕ → ℕ
crc8_byte bytes i crc = for_up 8 0 (λ j crc. crc8_bit crc) (bit_xor crc (byte bytes i))

unfoldable pub crc8 : List ℕ → ℕ → ℕ
crc8 bytes len = for_up len 0 (crc8_byte bytes) 0xFF

-- A round of `ip_checksum`, over the bytes `2 * k` and `2 * k + 1`.
unfoldable pub checksum_round : List ℕ → ℕ → ℕ → ℕ
checksum_round header k sum =
    let sum' = u32 (sum + bit_or (byte header (2 * k) << 8) (byte header (2 * k + 1))) in
    if has sum' 0xFFFF0000 then bit_and sum' 0xFFFF + (sum' >> 16) else sum'

-- The complement is that of 16 bits.
unfoldable pub ip_checksum : List ℕ → ℕ → ℕ
ip_checksum header len =
    0xFFFF - bit_and (for_up ((len + 1) / 2) 0 (checksum_round header) 0) 0xFFFF

unfoldable pub rohc_init : RohcState → RohcState
rohc_init s = record s { context = replicate rohc_ctx_size 0; context_valid = false }

unfoldable pub rohc_reset : RohcState → RohcState
rohc_reset s = record s { context_valid = false }

-- `ihl < ROHC_CTX_SIZE ? ihl : ROHC_CTX_SIZE`
abbrev pub ctx_copy : ℕ → ℕ
ctx_copy ihl = if ltb ihl rohc_ctx_size then ihl else rohc_ctx_size

-- The length of the IPv4 header, from its first byte.
abbrev pub header_size : List ℕ → ℕ
header_size packet = bit_and (byte packet 0) 0x0F * 4

-- The first `n` bytes of the packet become the context.
abbrev pub refreshed : RohcState → List ℕ → ℕ → RohcState
refreshed s packet n = record s { context = memcpy s.context packet n; context_valid = true }

unfoldable pub rohc_sync_context : RohcState → List ℕ → ℕ → RohcState
rohc_sync_context s packet packet_len =
    let version = bit_and (byte packet 0) 0xF0 in
    let ihl = header_size packet in
    if version == 0x40
    then (if ltb packet_len 20 || (ltb ihl 20 || ltb packet_len ihl)
        then s
        else refreshed s packet (ctx_copy ihl))
    else (if version == 0x60
        then (if ltb packet_len 40 then s else refreshed s packet rohc_ctx_size)
        else s)
