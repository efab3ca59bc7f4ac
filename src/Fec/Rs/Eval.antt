-- ===== src/Fec/Rs/Eval.antt =====
-- The value of a polynomial whose coefficients are given from the highest down, by Horner's rule,
-- and its linearity.
use echo_protocol.Base.{
  ℕ, zero, suc, ◌+◌, ◌-◌, ◌<◌, ◌≡◌, refl, sym, ap, ap₂, ◌∙◌, arith, List, bit_xor,
}
use echo_protocol.Base.{for_up_inv}
use echo_protocol.Base.Xor.{zero-xor, xor-lt, xor_exchange}
use echo_protocol.Fec.Gf.{Gf, gf_mul, exp_at}
use echo_protocol.Fec.Gf.Field.{IsField}
use echo_protocol.Fec.Rs.{at, syndrome}

-- Every entry is a byte.
abbrev pub Bytes : (ℕ → ℕ) → Type 0
Bytes f = (j : ℕ) → f j < 256

module _ (g : Gf) (x : ℕ) where
  -- The value of the first `n` coefficients at `x`.
  unfoldable pub value : (ℕ → ℕ) → ℕ → ℕ
  value f zero = 0
  value f (suc n) = bit_xor (gf_mul g (value f n) x) (f n)

module _ {g : Gf} (field : IsField g) {x : ℕ} (hx : x < 256) where
  open field use {mul_in, mul-zero, mul_comm, mul_assoc, mul-xor}

  pub mul_left_zero : (a : ℕ) → gf_mul g 0 a ≡ 0
  mul_left_zero a = mul_comm 0 a ∙ mul-zero a

  pub xor-mul :
      (a b c : ℕ)
      → a < 256
      → b < 256
      → c < 256
      → gf_mul g (bit_xor a b) c ≡ bit_xor (gf_mul g a c) (gf_mul g b c)
  xor-mul a b c p q r =
      mul_comm (bit_xor a b) c ∙ mul-xor c a b r p q ∙ ap₂ bit_xor (mul_comm c a) (mul_comm c b)

  pub value-in : {f : ℕ → ℕ} (n : ℕ) → Bytes f → value g x f n < 256
  unfolding value
  value-in zero b = omega arith
  value-in {f} (suc n) b = xor-lt 8 _ _ (mul_in _ x (value-in n b) hx) (b n)

  pub value-cong :
      (f h : ℕ → ℕ) (n : ℕ) → ((j : ℕ) → j < n → f j ≡ h j) → value g x f n ≡ value g x h n
  unfolding value
  value-cong f h zero e = refl
  value-cong f h (suc n) e =
      ap₂ (λ a b. bit_xor (gf_mul g a x) b) (value-cong f h n (λ j p. e j (omega arith)))
        (e n (omega arith))

  pub value-xor :
      (f h : ℕ → ℕ) (n : ℕ)
      → Bytes f
      → Bytes h
      → value g x (λ j. bit_xor (f j) (h j)) n ≡ bit_xor (value g x f n) (value g x h n)
  unfolding value
  value-xor f h zero bf bh = sym (zero-xor 0)
  value-xor f h (suc n) bf bh =
      ap (λ a. bit_xor (gf_mul g a x) (bit_xor (f n) (h n))) (value-xor f h n bf bh)
      ∙ ap (λ a. bit_xor a (bit_xor (f n) (h n)))
          (xor-mul (value g x f n) (value g x h n) x (value-in n bf) (value-in n bh) hx)
      ∙ xor_exchange (gf_mul g (value g x f n) x) (gf_mul g (value g x h n) x) (f n) (h n)

  pub value-mul :
      (c : ℕ) (f : ℕ → ℕ) (n : ℕ)
      → c < 256
      → Bytes f
      → value g x (λ j. gf_mul g c (f j)) n ≡ gf_mul g c (value g x f n)
  unfolding value
  value-mul c f zero hc b = sym (mul-zero c)
  value-mul c f (suc n) hc b =
      ap (λ a. bit_xor (gf_mul g a x) (gf_mul g c (f n))) (value-mul c f n hc b)
      ∙ ap (λ a. bit_xor a (gf_mul g c (f n))) (mul_assoc c (value g x f n) x hc (value-in n b) hx)
      ∙ sym (mul-xor c (gf_mul g (value g x f n) x) (f n) hc (mul_in _ x (value-in n b) hx) (b n))

  pub value-zeros : (f : ℕ → ℕ) (n : ℕ) → ((j : ℕ) → j < n → f j ≡ 0) → value g x f n ≡ 0
  unfolding value
  value-zeros f zero z = refl
  value-zeros f (suc n) z =
      ap₂ (λ a b. bit_xor (gf_mul g a x) b) (value-zeros f n (λ j p. z j (omega arith)))
        (z n (omega arith))
      ∙ ap (λ a. bit_xor a 0) (mul_left_zero x)
      ∙ zero-xor 0

  -- Leading zeros do not count.
  pub value-drop :
      (f : ℕ → ℕ) (i n : ℕ) → value g x f i ≡ 0 → value g x f (n + i) ≡ value g x (λ j. f (j + i)) n
  unfolding value
  value-drop f i zero z = ap (value g x f) {x = 0 + i} {y = i} (omega arith) ∙ z
  value-drop f i (suc n) z =
      ap (value g x f) {x = suc n + i} {y = suc (n + i)} (omega arith)
      ∙ ap (λ a. bit_xor (gf_mul g a x) (f (n + i))) (value-drop f i n z)

  -- Zeros after a root leave it a root.
  pub value-pad :
      (f : ℕ → ℕ) (i n : ℕ)
      → value g x f i ≡ 0
      → ((j : ℕ) → j < n → f (j + i) ≡ 0)
      → value g x f (n + i) ≡ 0
  value-pad f i n z rest = value-drop f i n z ∙ value-zeros (λ j. f (j + i)) n rest

-- A syndrome is the value of the received block at its power of alpha.
pub syndrome_lem :
    {g : Gf} (field : IsField g) (r : List ℕ) (n i : ℕ)
    → 0 < n
    → i < 255
    → syndrome g r n i ≡ value g (exp_at g i) (at r) n
unfolding syndrome value
syndrome_lem {g} field r n i pos h =
    for_up_inv (λ j s. s ≡ value g (exp_at g i) (at r) j)
      (λ j s. bit_xor (gf_mul g s (exp_at g i)) (at r j)) (n - 1) 1 n (at r 0) (omega arith)
      (λ j s lo hi e. ap (λ t. bit_xor (gf_mul g t (exp_at g i)) (at r j)) e)
      (sym (
        ap (λ t. bit_xor t (at r 0))
          (mul_left_zero field {x = exp_at g i} (field.exp_in i h) (exp_at g i))
        ∙ zero-xor (at r 0)))
