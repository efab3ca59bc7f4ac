-- ===== src/Fec/Crc.antt =====
-- `fec_crc32` of src/fec.c: the reflected CRC-32, bit by bit.
use echo_protocol.Base.{ℕ, ◌-◌, ◌^◌, List, [], ◌∷◌, bit_and, bit_xor, ◌>>◌, u32, for_up}

-- `crc = (crc >> 1) ^ (0xEDB88320u & (0u - (crc & 1u)))`
unfoldable pub crc32_bit : ℕ → ℕ
crc32_bit crc = bit_xor (crc >> 1) (bit_and 0xEDB88320 (u32 (2 ^ 32 - bit_and crc 1)))

unfoldable pub crc32_byte : ℕ → ℕ → ℕ
unfolding crc32_bit for_up
crc32_byte crc byte = for_up 8 0 (λ b crc. crc32_bit crc) (bit_xor crc byte)

-- The loop over the bytes from the register `crc`.
unfoldable pub crc32_from : ℕ → List ℕ → ℕ
unfolding crc32_byte
crc32_from crc [] = crc
crc32_from crc (byte ∷ bytes) = crc32_from (crc32_byte crc byte) bytes

-- `~crc` is the complement to 2^32 - 1.
unfoldable pub fec_crc32 : List ℕ → ℕ
unfolding crc32_from
fec_crc32 bytes = 2 ^ 32 - 1 - crc32_from 0xFFFFFFFF bytes
