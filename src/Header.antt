-- ===== src/Header.antt =====
-- The 16-bit frame header of src/echo_protocol.c: how `tun_to_rb` packs it, how `handle_data_state`
-- takes it apart, and the checks `is_valid_header` and `is_valid_fec_len`.
pub mod Valid
mod Tests
use echo_protocol.Base.{
  ℕ, ◌+◌, ◌-◌, ◌*◌, ◌/◌, ◌%◌, Bool, true, false, if◌then◌else◌, ltb, leb, ◌==◌, ◌||◌, ◌&&◌, not,
}
use echo_protocol.Base.{bit_and, bit_or, u16, ◌<<◌, ◌>>◌, Option, none, some, for_up}
use echo_protocol.Fec.Length.{fec_rs_max_n, fec_rs_msgblk, fec_encoded_len}

abbrev pub size_buf : ℕ
size_buf = 2048

-- `is_compressed`, `is_rohc`, `is_fec` and `packet_len`.
pub record Header : Type 0 where
  pub comp : ℕ
  pub rohc : ℕ
  pub fec : ℕ
  pub len : ℕ

-- `(comp_flag << 15) | (rohc_flag << 14) | (fec_flag << 13) | (final_len & 0x1FFF)`
unfoldable pub pack : Header → ℕ
pack h =
    u16
      (bit_or (bit_or (bit_or (h.comp << 15) (h.rohc << 14)) (h.fec << 13)) (bit_and h.len 0x1FFF))

unfoldable pub unpack : ℕ → Header
unpack header = record {
  comp = bit_and (header >> 15) 1;
  rohc = bit_and (header >> 14) 1;
  fec = bit_and (header >> 13) 1;
  len = bit_and header 0x1FFF;
}

-- `fec_encoded_len(data_len) == len`, where the length is never -1.
unfoldable pub is_encoded_len : ℕ → ℕ → Bool
is_encoded_len data_len len = elim (fec_encoded_len data_len) [ none ↦ false | some n ↦ n == len ]

unfoldable pub is_valid_fec_len : ℕ → Bool
is_valid_fec_len len =
    if ltb len 3
    then false
    else (if leb len (fec_rs_max_n + 2)
        then for_up 255 1 (λ data_len found. found || is_encoded_len data_len len) false
        else ((len - 2) % fec_rs_max_n == 0)
          && is_encoded_len ((len - 2) / fec_rs_max_n * fec_rs_msgblk) len)

unfoldable pub is_valid_header : ℕ → Bool
is_valid_header header =
    let h = unpack header in
    if not (h.comp == 0) && not (h.rohc == 0)
    then false
    else (if not (h.comp == 0) && (not (h.rohc == 0) && not (h.fec == 0))
        then false
        else (if (h.len == 0) || ltb size_buf h.len
            then false
            else (if not (h.fec == 0) && not (is_valid_fec_len h.len) then false else true)))
