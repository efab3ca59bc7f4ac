-- ===== src/Header/Tests.antt =====
-- Runs of the header checks.
use echo_protocol.Base.{◌≡◌, ◌<◌, ◌≤◌, ◌+◌, ◌↔◌, refl, arith, true}
use echo_protocol.Header.{Header, pack, is_valid_header, is_valid_fec_len}
use echo_protocol.Header.Valid.{IsEncoded, is_valid_fec_len_iff, is_valid_header_iff}

-- Two blocks, with a compressed header.
abbrev coded : Header
coded = record { comp = 0; rohc = 1; fec = 1; len = 512 }

packed : pack coded ≡ 0x6200
unfolding pack
packed = refl

is_valid_fec_len_iff_example : (is_valid_fec_len 512 ≡ true) ↔ IsEncoded 512
is_valid_fec_len_iff_example = is_valid_fec_len_iff 512

is_valid_header_iff_example : (is_valid_header (pack coded) ≡ true) ↔ (
    (coded.comp + coded.rohc ≤ 1)
    × (0 < coded.len)
    × (coded.len ≤ 2048)
    × (coded.fec ≡ 1 → IsEncoded coded.len))
is_valid_header_iff_example =
    is_valid_header_iff coded (omega arith) (omega arith) (omega arith) (omega arith)
