-- ===== src/Fec/Gf/Field.antt =====
-- The tables make the bytes a field, with `^` as the sum and `gf_mul` as the product.
use native.Mathlib.Decide.{ℕ_discrete}
use native.Mathlib.Nat.{mod-add-mod}
use echo_protocol.Base.{ℕ, zero, suc, ◌+◌, ◌-◌, ◌%◌, ◌<◌, ◌≡◌, ◌≢◌, refl, sym, ap, ap₂, ◌∙◌}
use echo_protocol.Base.{◌⊎◌, inl, inr, bit_xor, arith}
use echo_protocol.Base.Xor.{zero-xor, xor-lt}
use echo_protocol.Fec.Gf.{Gf, zeroed, gf_init, exp_at, log_at, double, gf_mul, gf_inv}
use echo_protocol.Fec.Gf.Tables.{
  tables, tables_ready, exp_lem, log_lem, step_lem, double_lem, exp_mod, one_lem,
}

-- What the code over the tables needs of them.
pub record IsField (g : Gf) : Type 0 where
  pub exp_in : (i : ℕ) → i < 255 → exp_at g i < 256
  pub mul_in : (a b : ℕ) → a < 256 → b < 256 → gf_mul g a b < 256
  pub mul-zero : (a : ℕ) → gf_mul g a 0 ≡ 0
  pub mul-one : (a : ℕ) → a < 256 → gf_mul g a 1 ≡ a
  pub mul_comm : (a b : ℕ) → gf_mul g a b ≡ gf_mul g b a
  pub mul_assoc :
      (a b c : ℕ)
      → a < 256
      → b < 256
      → c < 256
      → gf_mul g (gf_mul g a b) c ≡ gf_mul g a (gf_mul g b c)
  pub mul-xor :
      (a b c : ℕ)
      → a < 256
      → b < 256
      → c < 256
      → gf_mul g a (bit_xor b c) ≡ bit_xor (gf_mul g a b) (gf_mul g a c)
  pub mul-inv : (a : ℕ) → a < 256 → a ≢ 0 → gf_mul g a (gf_inv g a) ≡ 1

abbrev mul : ℕ → ℕ → ℕ
mul = gf_mul tables

mul_zero_left : (b : ℕ) → mul 0 b ≡ 0
unfolding gf_mul
mul_zero_left b = refl

mul_zero_right : (a : ℕ) → mul a 0 ≡ 0
unfolding gf_mul
mul_zero_right a = ground arith

mul_nonzero :
    (a b : ℕ) → a ≢ 0 → b ≢ 0 → mul a b ≡ exp_at tables (log_at tables a + log_at tables b)
unfolding gf_mul
mul_nonzero a b p q = ground arith

-- A product by its logarithm.
log_mul :
    (a b : ℕ)
    → a < 256
    → b < 256
    → a ≢ 0
    → b ≢ 0
    → (mul a b < 256)
      × (mul a b ≢ 0)
      × (log_at tables (mul a b) ≡ (log_at tables a + log_at tables b) % 255)
log_mul a b p q na nb =
    let n : ℕ = log_at tables a + log_at tables b in
    let product : mul a b ≡ exp_at tables (n % 255) =
      mul_nonzero a b na nb ∙ exp_mod n (omega (arith, log_lem a p na, log_lem b q nb)) in
    let entry = exp_lem (n % 255) (omega arith) in
    (rw product entry.0, rw product entry.1, rw product entry.2)

field-mul_in : (a b : ℕ) → a < 256 → b < 256 → mul a b < 256
field-mul_in a b p q = elim (ℕ_discrete a 0) [
  | yes a=0 ↦ rw (a=0, mul_zero_left) (omega arith)
  | no na ↦ elim (ℕ_discrete b 0) [
    | yes b=0 ↦ rw (b=0, mul_zero_right) (omega arith)
    | no nb ↦ (log_mul a b p q na nb).0
  ]
]

field-mul_comm : (a b : ℕ) → mul a b ≡ mul b a
unfolding gf_mul
field-mul_comm a b = ground (
  arith,
  ap (exp_at tables) {x = log_at tables a + log_at tables b} {y = log_at tables b + log_at tables a}
      (omega arith),
)

field-mul-one : (a : ℕ) → a < 256 → mul a 1 ≡ a
field-mul-one a p = elim (ℕ_discrete a 0) [
  | yes a=0 ↦ rw (a=0, mul_zero_left)
  | no na ↦
      mul_nonzero a 1 na (omega arith)
      ∙ ap (exp_at tables) {y = log_at tables a} (omega (arith, one_lem.0))
      ∙ (log_lem a p na).1
]

-- The product of three bytes other than 0, by logarithms.
mul-mul :
    (a b c : ℕ)
    → a < 256
    → b < 256
    → c < 256
    → a ≢ 0
    → b ≢ 0
    → c ≢ 0
    → mul (mul a b) c ≡ exp_at tables ((log_at tables a + log_at tables b + log_at tables c) % 255)
mul-mul a b c p q r na nb nc =
    let (_, ne, l) = log_mul a b p q na nb in
    mul_nonzero (mul a b) c ne nc
    ∙ ap (λ t. exp_at tables (t + log_at tables c)) l
    ∙ exp_mod _ (omega (arith, log_lem c r nc))
    ∙ ap (exp_at tables) (mod-add-mod (log_at tables a + log_at tables b) 255 (log_at tables c))

field-mul_assoc : (a b c : ℕ) → a < 256 → b < 256 → c < 256 → mul (mul a b) c ≡ mul a (mul b c)
field-mul_assoc a b c p q r = elim (ℕ_discrete a 0) [
  | yes a=0 ↦ rw (a=0, mul_zero_left, mul_zero_left, mul_zero_left)
  | no na ↦ elim (ℕ_discrete b 0) [
    | yes b=0 ↦ rw (b=0, mul_zero_right, mul_zero_left, mul_zero_right)
    | no nb ↦ elim (ℕ_discrete c 0) [
      | yes c=0 ↦ rw (c=0, mul_zero_right, mul_zero_right, mul_zero_right)
      | no nc ↦
          mul-mul a b c p q r na nb nc
          ∙ ap (λ t. exp_at tables (t % 255)) (omega arith)
          ∙ sym (mul-mul b c a q r p nb nc na)
          ∙ field-mul_comm (mul b c) a
    ]
  ]
]

-- The inverse of a byte, by its logarithm.
inv_lem : (a : ℕ) → a ≢ 0 → gf_inv tables a ≡ exp_at tables (255 - log_at tables a)
unfolding gf_inv
inv_lem a na = ground arith

field-mul-inv : (a : ℕ) → a < 256 → a ≢ 0 → mul a (gf_inv tables a) ≡ 1
field-mul-inv a p na =
    let l : ℕ = log_at tables a in
    let inverse : gf_inv tables a ≡ exp_at tables ((255 - l) % 255) =
      inv_lem a na ∙ exp_mod (255 - l) (omega arith) in
    let entry = exp_lem ((255 - l) % 255) (omega arith) in
    ap (mul a) inverse
    ∙ mul_nonzero a (exp_at tables ((255 - l) % 255)) na entry.1
    ∙ ap (λ t. exp_at tables (l + t)) entry.2
    ∙ exp_mod (l + (255 - l) % 255) (omega (arith, log_lem a p na))
    ∙ ap (exp_at tables) {y = 0} (omega (arith, log_lem a p na))
    ∙ one_lem.1

-- A product is a repeated doubling.
scale : ℕ → ℕ → ℕ
scale zero b = b
scale (suc n) b = double (scale n b)

scale-in : (n b : ℕ) → b < 256 → scale n b < 256
unfolding scale
scale-in zero b h = h
scale-in (suc n) b h = (double_lem (scale n b) 0 (scale-in n b h) (omega arith)).1

scale-xor :
    (n a b : ℕ) → a < 256 → b < 256 → scale n (bit_xor a b) ≡ bit_xor (scale n a) (scale n b)
unfolding scale
scale-xor zero a b p q = refl
scale-xor (suc n) a b p q =
    ap double (scale-xor n a b p q)
    ∙ (double_lem (scale n a) (scale n b) (scale-in n a p) (scale-in n b q)).0

scale-zero : (n : ℕ) → scale n 0 ≡ 0
unfolding scale double
scale-zero zero = refl
scale-zero (suc n) = ap double (scale-zero n)

exp-scale : (n j : ℕ) → n + j < 512 → exp_at tables (n + j) ≡ scale n (exp_at tables j)
unfolding scale
exp-scale zero j h = ap (exp_at tables) {x = 0 + j} {y = j} (omega arith)
exp-scale (suc n) j h =
    ap (exp_at tables) {x = suc n + j} {y = n + j + 1} (omega arith)
    ∙ step_lem (n + j) (omega arith)
    ∙ ap double (exp-scale n j (omega arith))

mul-scale : (a b : ℕ) → a < 256 → a ≢ 0 → b < 256 → mul a b ≡ scale (log_at tables a) b
mul-scale a b p na q = elim (ℕ_discrete b 0) [
  | yes b=0 ↦ rw (b=0, mul_zero_right) (sym (scale-zero (log_at tables a)))
  | no nb ↦
      mul_nonzero a b na nb
      ∙ exp-scale (log_at tables a) (log_at tables b)
          (omega (arith, log_lem a p na, log_lem b q nb))
      ∙ ap (scale (log_at tables a)) (log_lem b q nb).1
]

field-mul-xor :
    (a b c : ℕ) → a < 256 → b < 256 → c < 256 → mul a (bit_xor b c) ≡ bit_xor (mul a b) (mul a c)
field-mul-xor a b c p q r = elim (ℕ_discrete a 0) [
  | yes a=0 ↦ rw (a=0, mul_zero_left, mul_zero_left, mul_zero_left) (sym (zero-xor 0))
  | no na ↦
      mul-scale a (bit_xor b c) p na (xor-lt 8 b c q r)
      ∙ scale-xor (log_at tables a) b c q r
      ∙ sym (ap₂ bit_xor (mul-scale a b p na q) (mul-scale a c p na r))
]

-- The tables that `gf_init` fills make `gf_mul` the product of a field over the bytes, with `^` as
-- the sum, 1 as the unit and `gf_inv` as the inverse.
pub tables-IsField : IsField tables
tables-IsField = record {
  exp_in = λ i h. (exp_lem i h).0;
  mul_in = field-mul_in;
  mul-zero = mul_zero_right;
  mul-one = field-mul-one;
  mul_comm = field-mul_comm;
  mul_assoc = field-mul_assoc;
  mul-xor = field-mul-xor;
  mul-inv = field-mul-inv;
}

-- The tables that a run of the program has: as at its start, or filled.
abbrev pub IsReached : Gf → Type 0
IsReached g = (g ≡ zeroed) ⊎ (g ≡ tables)

init_zeroed : tables ≡ gf_init zeroed
unfolding tables
init_zeroed = refl

-- A second call of `gf_init` leaves the tables alone.
init_again : gf_init tables ≡ tables
unfolding gf_init
init_again = rw tables_ready refl

-- At its first call and at a later one, `gf_init` leaves tables that make the bytes a field, with `^`
-- as the sum, `gf_mul` as the product and `gf_inv` as the inverse.
pub gf_init-IsField : {g : Gf} → IsReached g → IsField (gf_init g)
gf_init-IsField (inl e) = rw (e, sym init_zeroed) tables-IsField
gf_init-IsField (inr e) = rw (e, init_again) tables-IsField

-- All reached tables are the same once `gf_init` has run.
pub reached-same : {g g' : Gf} → IsReached g → IsReached g' → gf_init g ≡ gf_init g'
reached-same (inl e) (inl e') = ap gf_init (e ∙ sym e')
reached-same (inl e) (inr e') = rw (e, e', sym init_zeroed, init_again) refl
reached-same (inr e) (inl e') = rw (e, e', sym init_zeroed, init_again) refl
reached-same (inr e) (inr e') = ap gf_init (e ∙ sym e')
