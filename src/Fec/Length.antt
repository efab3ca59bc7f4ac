-- ===== src/Fec/Length.antt =====
-- The sizes of the code: `fec_ecc_bytes` and `fec_encoded_len` of src/fec.c. A C `int` is a
-- number here: every length the program passes is at least 0, and 0 stands for the refused ones.
use echo_protocol.Base.{ℕ, ◌+◌, ◌-◌, ◌*◌, ◌/◌, ◌%◌, ◌≤◌, ◌<◌, ◌≡◌, ◌↔◌, arith, Option, some, none}
use echo_protocol.Base.{if◌then◌else◌, ltb, leb, ◌==◌, max}

abbrev pub fec_rs_max_n : ℕ
fec_rs_max_n = 255

abbrev pub fec_rs_msgblk : ℕ
fec_rs_msgblk = 223

abbrev pub fec_rs_parity_blk : ℕ
fec_rs_parity_blk = 32

unfoldable pub fec_ecc_bytes : ℕ → ℕ
fec_ecc_bytes data_len =
    let e = 2 * (data_len / 5) in if ltb data_len 4 then 2 else (if ltb e 4 then 4 else e)

-- The number of RS(255, 223) blocks for a message that is not coded in one block.
abbrev pub block_count : ℕ → ℕ
block_count data_len = (data_len + fec_rs_msgblk - 1) / fec_rs_msgblk

-- `none` is the return of -1.
unfoldable pub fec_encoded_len : ℕ → Option ℕ
fec_encoded_len data_len =
    let ecc = fec_ecc_bytes data_len in
    if data_len == 0
    then none
    else (if leb (data_len + ecc) fec_rs_max_n
        then some (data_len + 2 + ecc)
        else some (block_count data_len * fec_rs_max_n + 2))

-- The parity is even, at least 2 bytes, at least 4 for a message of 4 bytes or more, and at most the
-- greater of 4 and twice a fifth of the message.
pub fec_ecc_bytes_bounds :
    (n : ℕ)
    → (2 ≤ fec_ecc_bytes n)
      × (fec_ecc_bytes n % 2 ≡ 0)
      × (4 ≤ n → 4 ≤ fec_ecc_bytes n)
      × (fec_ecc_bytes n ≤ max 4 (2 * (n / 5)))
unfolding fec_ecc_bytes
fec_ecc_bytes_bounds n = ground arith

-- A message and its parity fit in one block exactly when the message has at most 183 bytes.
pub one_block_iff : (n : ℕ) → (n + fec_ecc_bytes n ≤ fec_rs_max_n) ↔ (n ≤ 183)
unfolding fec_ecc_bytes
one_block_iff n = ground arith

-- The size of the code of a payload that is not empty.
pub fec_encoded_len_lem :
    (n : ℕ)
    → 0 < n
    → fec_encoded_len n
      ≡ (if leb n 183 then some (n + 2 + fec_ecc_bytes n) else some (block_count n * 255 + 2))
unfolding fec_encoded_len
fec_encoded_len_lem n h = ground (arith, one_block_iff n)
