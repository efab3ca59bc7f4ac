-- ===== src/Sync/Tests.antt =====
-- Runs of `check_sync_word`.
use echo_protocol.Base.{◌≡◌, ◌≤◌, ◌↔◌, ◌⊎◌, arith, true}
use echo_protocol.Base.Powers.{word_bits}
use echo_protocol.Sync.{Correlator, check_sync_word, popcount, sync_word}
use echo_protocol.Sync.Detect.{IsValid, distance, finds, finds_word, shifted, check_sync_word_iff}

abbrev empty : Correlator
empty = record { corr_reg = 0; corr_bits = 0 }

-- All bits of the sync word but the last have come.
abbrev almost : Correlator
almost = record { corr_reg = 0x4985A8EF; corr_bits = 31 }

empty-IsValid : IsValid 0 empty
empty-IsValid = record { word_in = omega arith; reg_in = omega arith; bits_in = omega arith }

almost-IsValid : IsValid 0x4985A8EF almost
almost-IsValid = record { word_in = omega arith; reg_in = omega arith; bits_in = omega arith }

-- The sync word with its two lowest bits flipped.
near : distance 0x930B51DD ≤ 2
unfolding popcount
near = omega arith

finds_word_example : finds 0 empty (word_bits 32 0x930B51DD) ≡ true
finds_word_example = finds_word 0x930B51DD 0 empty (omega arith) near empty-IsValid

check_sync_word_iff_example : ((check_sync_word 0x4985A8EF almost 1).result ≡ 0) ↔ (
    (shifted 0x4985A8EF 1 ≡ sync_word)
    ⊎ ((31 ≤ almost.corr_bits) × (distance (shifted almost.corr_reg 1) ≤ 2)))
check_sync_word_iff_example = check_sync_word_iff 0x4985A8EF almost 1 (omega arith) almost-IsValid
