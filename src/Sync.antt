-- ===== src/Sync.antt =====
-- The search for the sync word: `check_sync_word` of src/demod_afsk.c, with its two file-level
-- variables as a record.
pub mod Popcount
pub mod Detect
mod Tests
use echo_protocol.Base.{ℕ, zero, suc, ◌+◌, ◌-◌, ◌/◌, ◌%◌, Bool, if◌then◌else◌, ltb, leb, ◌==◌, ◌||◌}
use echo_protocol.Base.{bit_and, bit_or, bit_xor, u32, ◌<<◌}

abbrev pub sync_word : ℕ
sync_word = 0x930B51DE

abbrev pub sync_threshold : ℕ
sync_threshold = 30

-- `corr_reg` and `corr_bits`.
pub record Correlator : Type 0 where
  pub corr_reg : ℕ
  pub corr_bits : ℕ

unfoldable pub sync_correlator_reset : Correlator → Correlator
sync_correlator_reset c = record c { corr_reg = 0; corr_bits = 0 }

-- `__builtin_popcount` of a number of at most `n` bits: documented to count the one bits.
unfoldable pub popcount_upto : ℕ → ℕ → ℕ
popcount_upto zero x = 0
popcount_upto (suc n) x = x % 2 + popcount_upto n (x / 2)

unfoldable pub popcount : ℕ → ℕ
unfolding popcount_upto
popcount x = popcount_upto 32 x

-- What a call leaves: the shifted `*check_word`, the correlator, and the value it returns.
pub record Checked : Type 0 where
  pub check_word : ℕ
  pub correlator : Correlator
  pub result : ℕ

-- `corr_reg` and `corr_bits` after one more bit.
unfoldable pub corr_push : Correlator → ℕ → Correlator
corr_push c bit = record c {
  corr_reg = bit_and (bit_or (u32 (c.corr_reg << 1)) bit) 0xFFFFFFFF;
  corr_bits = if ltb c.corr_bits 32 then c.corr_bits + 1 else 32;
}

-- The decision over a full register: the filter on the number of ones, then the correlation.
unfoldable pub corr_decide : ℕ → Correlator → Checked
unfolding sync_correlator_reset
corr_decide word c =
    let pop = popcount c.corr_reg in
    let diff = bit_xor c.corr_reg sync_word in
    let matches = 32 - popcount diff in
    if ltb pop 10 || ltb 22 pop
    then record { check_word = word; correlator = c; result = 1 }
    else (if leb sync_threshold matches
        then record { check_word = word; correlator = sync_correlator_reset c; result = 0 }
        else record { check_word = word; correlator = c; result = 1 })

unfoldable pub check_sync_word : ℕ → Correlator → ℕ → Checked
unfolding sync_correlator_reset
check_sync_word word c bit =
    let word' = bit_or (u32 (word << 1)) bit in
    let c' = corr_push c bit in
    if word' == sync_word
    then record { check_word = word'; correlator = sync_correlator_reset c; result = 0 }
    else (if c'.corr_bits == 32
        then corr_decide word' c'
        else record { check_word = word'; correlator = c'; result = 1 })
