-- ===== src/Base/Powers.antt =====
-- Shifts to the left under a fixed width, with a power of two as the modulus.
use Prim.Native.Nat.{ℕ, zero, suc, ◌+◌, ◌-◌, ◌*◌, ◌/◌, ◌%◌, ◌^◌, ◌<◌, ◌∣◌}
use mathlib.Core.Path.{◌≡◌, ap, ◌∙◌}
use mathlib.Core.List.{List, [], ◌∷◌}
use native.Mathlib.Nat.{pow-suc, mod-mod_of_dvd, dvd_refl, dvd-mul_right_of_dvd, one-le-pow}
use native.Mathlib.Nat.{
  mul-add-mod_self_left, mod-eq_of_lt, div-add-mod, mod-lt, div-div-eq-div-mul,
}
use native.Mathlib.Omega.{arith}

pub pow-dvd : (d k n : ℕ) → d + k ≡ n → 2 ^ k ∣ 2 ^ n
pow-dvd zero k n e = let same : k ≡ n = omega arith in rw same (dvd_refl (2 ^ n))
pow-dvd (suc d) k zero e = absurd (omega arith)
pow-dvd (suc d) k (suc n) e =
    rw (pow-suc 2 n) (dvd-mul_right_of_dvd (2 ^ k) (pow-dvd d k n (omega arith)) 2)

-- A doubling under a doubled modulus.
pub double-mod : (m a f : ℕ) → 0 < m → f < 2 → (2 * a + f) % (m * 2) ≡ 2 * (a % m) + f
double-mod m a f h g =
    ap (λ t. t % (m * 2)) (omega (arith, ap (λ t. 2 * t) (div-add-mod a m)))
    ∙ mul-add-mod_self_left (m * 2) (a / m) (2 * (a % m) + f)
    ∙ mod-eq_of_lt (omega (arith, mod-lt a h))

-- Shifting one bit in at the right of an `n`-bit register: what its low bits become.
pub shift_low :
    (n k a f : ℕ) → k < n → f < 2 → (2 * a + f) % 2 ^ n % 2 ^ suc k ≡ 2 * (a % 2 ^ k) + f
shift_low n k a f h g =
    mod-mod_of_dvd (2 ^ suc k) (2 * a + f) (pow-dvd (n - suc k) (suc k) n (omega arith))
    ∙ ap (λ m. (2 * a + f) % m) (pow-suc 2 k)
    ∙ double-mod (2 ^ k) a f (one-le-pow k 2 (omega arith)) g

-- The `n` low bits of a word, the highest first: `(w >> i) & 1` for i from n - 1 down to 0.
unfoldable pub word_bits : ℕ → ℕ → List ℕ
word_bits zero w = []
word_bits (suc n) w = (w / 2 ^ n % 2) ∷ word_bits n w

-- One more of a word's bits, from the top.
pub next_bit : (w n : ℕ) → w / 2 ^ n ≡ 2 * (w / 2 ^ suc n) + w / 2 ^ n % 2
next_bit w n = omega (arith, ap (λ m. w / m) (pow-suc 2 n), div-div-eq-div-mul w (2 ^ n) 2)
