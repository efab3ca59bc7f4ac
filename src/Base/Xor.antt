-- ===== src/Base/Xor.antt =====
-- Laws of the native bit operations at every width, from the recursion on binary digits.
use Prim.Native.Nat.{ℕ, zero, suc, ◌+◌, ◌-◌, ◌*◌, ◌/◌, ◌%◌, ◌^◌, ◌≤◌, ◌<◌, min, max}
use Prim.Native.Nat.{bit_and, bit_or, bit_xor, digits, bitwise, differ}
use Prim.Native.Nat.{bit_and-bitwise, bit_or-bitwise, bit_xor-bitwise}
use mathlib.Core.Path.{◌≡◌, refl, sym, ap, ap₂, ◌∙◌}
use native.Mathlib.Nat.{le_refl, pow-suc, one-le-pow}
use native.Mathlib.Omega.{arith}

-- The native operations run over the digits of the first number on fuel, which is that number.
module _ (op : ℕ → ℕ → ℕ) (low : ℕ → ℕ) (f : ℕ → ℕ → ℕ)
    (meaning : (a b : ℕ) → op a b ≡ bitwise low f a b)
    (low_digit : (b : ℕ) → low b ≡ low (b / 2) * 2 + f 0 (b % 2)) where
  one_more : (fuel a b : ℕ) → a ≤ fuel → digits low f (suc fuel) a b ≡ digits low f fuel a b
  one_more zero zero b h = refl
  one_more (suc fuel) zero b h = refl
  one_more zero (suc a) b h = absurd (omega arith)
  one_more (suc fuel) (suc a) b h =
      ap (λ t. t * 2 + f (suc a % 2) (b % 2)) (one_more fuel (suc a / 2) (b / 2) (omega arith))

  enough_fuel : (extra a b : ℕ) → digits low f (extra + a) a b ≡ digits low f a a b
  enough_fuel zero a b = ap (λ n. digits low f n a b) {x = 0 + a} {y = a} (omega arith)
  enough_fuel (suc extra) a b =
      ap (λ n. digits low f n a b) {x = suc extra + a} {y = suc (extra + a)} (omega arith)
      ∙ one_more (extra + a) a b (omega arith)
      ∙ enough_fuel extra a b

  -- The lowest digit, and the rest.
  op_digit : (a b : ℕ) → op a b ≡ op (a / 2) (b / 2) * 2 + f (a % 2) (b % 2)
  op_digit zero b =
      meaning 0 b ∙ low_digit b ∙ ap (λ t. t * 2 + f 0 (b % 2)) (sym (meaning 0 (b / 2)))
  op_digit (suc a) b =
      let half : ℕ = suc a / 2 in
      let all : a - half + half ≡ a = omega arith in
      meaning (suc a) b
      ∙ ap (λ t. t * 2 + f (suc a % 2) (b % 2))
          (ap (λ n. digits low f n half (b / 2)) (sym all)
            ∙ enough_fuel (a - half) half (b / 2)
            ∙ sym (meaning half (b / 2)))

pub bit_xor_step : (a b : ℕ) → bit_xor a b ≡ bit_xor (a / 2) (b / 2) * 2 + differ (a % 2) (b % 2)
bit_xor_step = op_digit bit_xor (λ y. y) differ bit_xor-bitwise (λ b. omega arith)

pub bit_or_step : (a b : ℕ) → bit_or a b ≡ bit_or (a / 2) (b / 2) * 2 + max (a % 2) (b % 2)
bit_or_step = op_digit bit_or (λ y. y) max bit_or-bitwise (λ b. omega arith)

pub bit_and_step : (a b : ℕ) → bit_and a b ≡ bit_and (a / 2) (b / 2) * 2 + min (a % 2) (b % 2)
bit_and_step = op_digit bit_and (λ y. 0) min bit_and-bitwise (λ b. omega arith)

pub zero-xor : (b : ℕ) → bit_xor 0 b ≡ b
zero-xor b = bit_xor-bitwise 0 b

-- `differ` on two digits is addition mod 2.
differ_lem : (x y : ℕ) → x < 2 → y < 2 → differ x y ≡ (x + y) % 2
differ_lem zero y p q = omega arith
differ_lem (suc zero) zero p q = refl
differ_lem (suc zero) (suc zero) p q = refl
differ_lem (suc zero) (suc (suc y)) p q = absurd (omega arith)
differ_lem (suc (suc x)) y p q = absurd (omega arith)

-- One digit of `^` as arithmetic.
pub xor_digit : (a b : ℕ) → bit_xor a b ≡ bit_xor (a / 2) (b / 2) * 2 + (a % 2 + b % 2) % 2
xor_digit a b =
    omega (arith, bit_xor_step a b, differ_lem (a % 2) (b % 2) (omega arith) (omega arith))

pub xor-div : (a b : ℕ) → bit_xor a b / 2 ≡ bit_xor (a / 2) (b / 2)
xor-div a b = omega (arith, xor_digit a b)

pub xor-mod : (a b : ℕ) → bit_xor a b % 2 ≡ (a % 2 + b % 2) % 2
xor-mod a b = omega (arith, xor_digit a b)

-- Two numbers with equal digits are equal.
eq_of_halves : (a b : ℕ) → a / 2 ≡ b / 2 → a % 2 ≡ b % 2 → a ≡ b
eq_of_halves a b p q = omega arith

-- Each law is an induction on a bound, from `a / 2` to `a`.
xor_comm_upto : (n a b : ℕ) → a ≤ n → b ≤ n → bit_xor a b ≡ bit_xor b a
xor_comm_upto zero zero zero p q = refl
xor_comm_upto zero zero (suc b) p q = absurd (omega arith)
xor_comm_upto zero (suc a) b p q = absurd (omega arith)
xor_comm_upto (suc n) a b p q = omega (
  arith,
  xor_digit a b,
  xor_digit b a,
  xor_comm_upto n (a / 2) (b / 2) (omega arith) (omega arith),
)

pub xor_comm : (a b : ℕ) → bit_xor a b ≡ bit_xor b a
xor_comm a b = xor_comm_upto (a + b) a b (omega arith) (omega arith)

xor_self_upto : (n a : ℕ) → a ≤ n → bit_xor a a ≡ 0
xor_self_upto zero zero p = refl
xor_self_upto zero (suc a) p = absurd (omega arith)
xor_self_upto (suc n) a p = omega (arith, xor_digit a a, xor_self_upto n (a / 2) (omega arith))

pub xor_self : (a : ℕ) → bit_xor a a ≡ 0
xor_self a = xor_self_upto a a (le_refl a)

pub xor-zero : (a : ℕ) → bit_xor a 0 ≡ a
xor-zero a = xor_comm a 0 ∙ zero-xor a

xor_assoc_upto : (n a b c : ℕ) → a + b + c ≤ n → bit_xor (bit_xor a b) c ≡ bit_xor a (bit_xor b c)
xor_assoc_upto zero zero zero zero p = refl
xor_assoc_upto zero zero zero (suc c) p = absurd (omega arith)
xor_assoc_upto zero zero (suc b) c p = absurd (omega arith)
xor_assoc_upto zero (suc a) b c p = absurd (omega arith)
xor_assoc_upto (suc n) zero zero c p =
    ap (λ t. bit_xor t c) (zero-xor 0) ∙ sym (ap (bit_xor 0) (zero-xor c))
xor_assoc_upto (suc n) zero (suc b) c p =
    ap (λ t. bit_xor t c) (zero-xor (suc b)) ∙ sym (zero-xor (bit_xor (suc b) c))
xor_assoc_upto (suc n) (suc a) b c p =
    eq_of_halves (bit_xor (bit_xor (suc a) b) c) (bit_xor (suc a) (bit_xor b c))
      (xor-div (bit_xor (suc a) b) c
        ∙ ap (λ t. bit_xor t (c / 2)) (xor-div (suc a) b)
        ∙ xor_assoc_upto n (suc a / 2) (b / 2) (c / 2) (omega arith)
        ∙ sym (ap (bit_xor (suc a / 2)) (xor-div b c))
        ∙ sym (xor-div (suc a) (bit_xor b c)))
      (omega (
        arith,
        xor-mod (bit_xor (suc a) b) c,
        xor-mod (suc a) b,
        xor-mod (suc a) (bit_xor b c),
        xor-mod b c,
      ))

pub xor_assoc : (a b c : ℕ) → bit_xor (bit_xor a b) c ≡ bit_xor a (bit_xor b c)
xor_assoc a b c = xor_assoc_upto (a + b + c) a b c (le_refl _)

-- `^` undoes itself.
pub xor_cancel : (a b : ℕ) → bit_xor (bit_xor a b) b ≡ a
xor_cancel a b = xor_assoc a b b ∙ ap (bit_xor a) (xor_self b) ∙ xor-zero a

pub xor_cancel_left : (a b : ℕ) → bit_xor a (bit_xor a b) ≡ b
xor_cancel_left a b = sym (xor_assoc a a b) ∙ ap (λ t. bit_xor t b) (xor_self a) ∙ zero-xor b

-- A sum of two sums, regrouped.
pub xor_exchange :
    (a b c d : ℕ) → bit_xor (bit_xor a b) (bit_xor c d) ≡ bit_xor (bit_xor a c) (bit_xor b d)
xor_exchange a b c d =
    xor_assoc a b (bit_xor c d)
    ∙ ap (bit_xor a)
        (sym (xor_assoc b c d) ∙ ap (λ t. bit_xor t d) (xor_comm b c) ∙ xor_assoc c b d)
    ∙ sym (xor_assoc a c (bit_xor b d))

xor-lt_upto : (k a b : ℕ) → a < 2 ^ k → b < 2 ^ k → bit_xor a b < 2 ^ k
xor-lt_upto zero zero zero p q = omega arith
xor-lt_upto zero zero (suc b) p q = absurd (omega arith)
xor-lt_upto zero (suc a) b p q = absurd (omega arith)
xor-lt_upto (suc k) a b p q = omega (
  arith,
  pow-suc 2 k,
  xor_digit a b,
  xor-lt_upto k (a / 2) (b / 2) (omega (arith, pow-suc 2 k)) (omega (arith, pow-suc 2 k)),
)

-- `^` of two `k`-bit numbers has `k` bits.
pub xor-lt : (k a b : ℕ) → a < 2 ^ k → b < 2 ^ k → bit_xor a b < 2 ^ k
xor-lt k a b p q = xor-lt_upto k a b p q

pub xor_bit : (a b : ℕ) → a < 2 → b < 2 → bit_xor a b ≡ (a + b) % 2
xor_bit a b p q =
    omega (arith, xor_digit a b, ap₂ bit_xor (half_zero a p) (half_zero b q) ∙ zero-xor 0)
  where
    half_zero : (x : ℕ) → x < 2 → x / 2 ≡ 0
    half_zero x h = omega arith

bit_or-zero_upto : (n a : ℕ) → a ≤ n → bit_or a 0 ≡ a
bit_or-zero_upto zero zero p = refl
bit_or-zero_upto zero (suc a) p = absurd (omega arith)
bit_or-zero_upto (suc n) a p =
    omega (arith, bit_or_step a 0, bit_or-zero_upto n (a / 2) (omega arith))

pub bit_or-zero : (a : ℕ) → bit_or a 0 ≡ a
bit_or-zero a = bit_or-zero_upto a a (le_refl a)

-- `x | y` is a sum when `y` fits below the low `k` zero bits of `x`.
pub bit_or_fields : (k q r : ℕ) → r < 2 ^ k → bit_or (q * 2 ^ k) r ≡ q * 2 ^ k + r
bit_or_fields zero q r p = ground (arith, bit_or-zero q)
bit_or_fields (suc k) q r p = ground (
  arith,
  bit_or_step (q * 2 ^ suc k) r,
  ap (λ (t : ℕ). q * t) (pow-suc 2 k),
  pow-suc 2 k,
  bit_or_fields k q (r / 2) (omega (arith, pow-suc 2 k)),
)

bit_and-zero_upto : (n a : ℕ) → a ≤ n → bit_and a 0 ≡ 0
bit_and-zero_upto zero zero p = refl
bit_and-zero_upto zero (suc a) p = absurd (omega arith)
bit_and-zero_upto (suc n) a p =
    omega (arith, bit_and_step a 0, bit_and-zero_upto n (a / 2) (omega arith))

pub bit_and-zero : (a : ℕ) → bit_and a 0 ≡ 0
bit_and-zero a = bit_and-zero_upto a a (le_refl a)

bit_and_low : (k q r : ℕ) → r < 2 ^ k → bit_and (q * 2 ^ k + r) (2 ^ k - 1) ≡ r
bit_and_low zero q r p = rw bit_and-zero (omega arith)
bit_and_low (suc k) q r p = ground (
  arith,
  bit_and_step (q * 2 ^ suc k + r) (2 ^ suc k - 1),
  ap (λ (t : ℕ). q * t) (pow-suc 2 k),
  pow-suc 2 k,
  one-le-pow k 2 (omega arith),
  bit_and_low k q (r / 2) (omega (arith, pow-suc 2 k)),
)

-- A mask of `k` ones is the remainder by `2 ^ k`.
pub bit_and_mask : (k a : ℕ) → bit_and a (2 ^ k - 1) ≡ a % 2 ^ k
bit_and_mask k a =
    ground (arith, one-le-pow k 2 (omega arith), bit_and_low k (a / 2 ^ k) (a % 2 ^ k))
