-- ===== src/Sync/Popcount.antt =====
-- The number of ones, and the Hamming distance.
use echo_protocol.Base.{ℕ, zero, suc, ◌+◌, ◌/◌, ◌≤◌, ◌≡◌, refl, arith, bit_xor}
use echo_protocol.Base.Xor.{xor-div, xor-mod}
use echo_protocol.Sync.{popcount_upto, popcount, sync_word}

popcount_upto_triangle :
    (n a b : ℕ) → popcount_upto n a ≤ popcount_upto n (bit_xor a b) + popcount_upto n b
unfolding popcount_upto
popcount_upto_triangle zero a b = omega arith
popcount_upto_triangle (suc n) a b =
    rw (xor-div a b) (omega (arith, xor-mod a b, popcount_upto_triangle n (a / 2) (b / 2)))

popcount_upto_triangle' :
    (n a b : ℕ) → popcount_upto n b ≤ popcount_upto n (bit_xor a b) + popcount_upto n a
unfolding popcount_upto
popcount_upto_triangle' zero a b = omega arith
popcount_upto_triangle' (suc n) a b =
    rw (xor-div a b) (omega (arith, xor-mod a b, popcount_upto_triangle' n (a / 2) (b / 2)))

popcount_upto-le : (n a : ℕ) → popcount_upto n a ≤ n
unfolding popcount_upto
popcount_upto-le zero a = omega arith
popcount_upto-le (suc n) a = omega (arith, popcount_upto-le n (a / 2))

pub popcount-le : (a : ℕ) → popcount a ≤ 32
unfolding popcount
popcount-le a = popcount_upto-le 32 a

-- The numbers of ones of two words differ by at most their distance.
pub popcount_triangle :
    (a b : ℕ)
    → (popcount a ≤ popcount (bit_xor a b) + popcount b)
      × (popcount b ≤ popcount (bit_xor a b) + popcount a)
unfolding popcount
popcount_triangle a b = (popcount_upto_triangle 32 a b, popcount_upto_triangle' 32 a b)

pub popcount-sync_word : popcount sync_word ≡ 16
unfolding popcount
popcount-sync_word = refl
