-- ===== src/Fec/Rs/Generator.antt =====
-- `rs_generator_poly` builds the monic polynomial with the roots alpha^0 .. alpha^(ecc - 1).
use native.Mathlib.Decide.{ℕ_discrete, dec_lt}
use echo_protocol.Base.{
  ℕ, zero, suc, ◌+◌, ◌-◌, ◌≤◌, ◌<◌, ◌≡◌, ◌≢◌, refl, sym, ap, ap₂, ◌∙◌, arith, List, bit_xor,
}
use echo_protocol.Base.{
  for_up_inv, for_down, set, length, replicate, length-set, get_or-set_self, get_or-set_ne,
}
use echo_protocol.Base.{get_or-replicate}
use echo_protocol.Base.Xor.{xor_assoc, zero-xor, xor-zero, xor-lt, xor_exchange, xor_self}
use echo_protocol.Fec.Gf.{Gf, gf_mul, exp_at}
use echo_protocol.Fec.Gf.Field.{IsField}
use echo_protocol.Fec.Rs.{at, GenPoly, gen_coef, gen_round, rs_generator_poly}
use echo_protocol.Fec.Rs.Eval.{Bytes, value, value-in, mul_left_zero, xor-mul}

-- The product of a polynomial `h` of degree `d` by x + root, coefficient by coefficient.
module _ {g : Gf} (field : IsField g) {x root : ℕ} (hx : x < 256) (hr : root < 256) (h h' : ℕ → ℕ)
    (d : ℕ) (bh : Bytes h) (top : h' 0 ≡ h 0)
    (mid : (m : ℕ) → m < d → h' (suc m) ≡ bit_xor (h (suc m)) (gf_mul g root (h m)))
    (last : h' (suc d) ≡ gf_mul g root (h d)) where
  open field use {mul_in, mul-zero, mul_comm, mul_assoc, mul-xor}

  -- One more coefficient of the product.
  shift_value :
      (m : ℕ)
      → gf_mul g (bit_xor (value g x h (suc m)) (gf_mul g root (value g x h m))) x
        ≡ bit_xor (gf_mul g (value g x h (suc m)) x) (gf_mul g root (gf_mul g (value g x h m) x))
  shift_value m =
      xor-mul field hx (value g x h (suc m)) (gf_mul g root (value g x h m)) x
        (value-in field hx (suc m) bh) (mul_in root _ hr (value-in field hx m bh)) hx
      ∙ ap (bit_xor (gf_mul g (value g x h (suc m)) x))
          (mul_assoc root (value g x h m) x hr (value-in field hx m bh) hx)

  value_upto :
      (m : ℕ)
      → m ≤ d
      → value g x h' (suc m) ≡ bit_xor (value g x h (suc m)) (gf_mul g root (value g x h m))
  unfolding value
  value_upto zero p =
      ap (bit_xor (gf_mul g 0 x)) top
      ∙ sym (ap (bit_xor (bit_xor (gf_mul g 0 x) (h 0))) (mul-zero root) ∙ xor-zero _)
  value_upto (suc m) p =
      ap₂ (λ a b. bit_xor (gf_mul g a x) b) (value_upto m (omega arith)) (mid m p)
      ∙ ap (λ a. bit_xor a (bit_xor (h (suc m)) (gf_mul g root (h m)))) (shift_value m)
      ∙ xor_exchange (gf_mul g (value g x h (suc m)) x) (gf_mul g root (gf_mul g (value g x h m) x))
          (h (suc m)) (gf_mul g root (h m))
      ∙ ap (bit_xor (value g x h (suc (suc m)))) (
          sym (
            mul-xor root (gf_mul g (value g x h m) x) (h m) hr
              (mul_in _ x (value-in field hx m bh) hx) (bh m)))

  -- The value of the product is the product of the values.
  value_product :
      value g x h' (suc (suc d))
      ≡ bit_xor (gf_mul g (value g x h (suc d)) x) (gf_mul g root (value g x h (suc d)))
  unfolding value
  value_product =
      ap₂ (λ a b. bit_xor (gf_mul g a x) b) (value_upto d (omega arith)) last
      ∙ ap (λ a. bit_xor a (gf_mul g root (h d))) (shift_value d)
      ∙ xor_assoc (gf_mul g (value g x h (suc d)) x) (gf_mul g root (gf_mul g (value g x h d) x))
          (gf_mul g root (h d))
      ∙ ap (bit_xor (gf_mul g (value g x h (suc d)) x)) (
          sym (
            mul-xor root (gf_mul g (value g x h d) x) (h d) hr
              (mul_in _ x (value-in field hx d bh) hx) (bh d)))

-- The inner loop of a round, which goes down so as to read each coefficient before it is replaced.
module _ (g : Gf) (root : ℕ) where
  length-coefs : (n : ℕ) (gen : List ℕ) → length (for_down n (gen_coef g root) gen) ≡ length gen
  unfolding for_down gen_coef
  length-coefs zero gen = refl
  length-coefs (suc n) gen = length-coefs n (gen_coef g root (suc n) gen) ∙ length-set gen (suc n) _

  coefs-outside :
      (n : ℕ) (gen : List ℕ) (j : ℕ) → n < j → at (for_down n (gen_coef g root) gen) j ≡ at gen j
  unfolding for_down gen_coef
  coefs-outside zero gen j h = refl
  coefs-outside (suc n) gen j h =
      coefs-outside n (gen_coef g root (suc n) gen) j (omega arith)
      ∙ get_or-set_ne gen (suc n) j _ 0 (omega arith)

  coefs-first : (n : ℕ) (gen : List ℕ) → at (for_down n (gen_coef g root) gen) 0 ≡ at gen 0
  unfolding for_down gen_coef
  coefs-first zero gen = refl
  coefs-first (suc n) gen =
      coefs-first n (gen_coef g root (suc n) gen) ∙ get_or-set_ne gen (suc n) 0 _ 0 (omega arith)

  coefs-last :
      (n : ℕ) (gen : List ℕ)
      → suc n < length gen
      → at (for_down (suc n) (gen_coef g root) gen) (suc n)
        ≡ bit_xor (at gen n) (gf_mul g (at gen (suc n)) root)
  unfolding for_down gen_coef
  coefs-last n gen fits =
      coefs-outside n (gen_coef g root (suc n) gen) (suc n) (omega arith)
      ∙ get_or-set_self gen (suc n) _ 0 fits
      ∙ ap (λ k. bit_xor (at gen k) (gf_mul g (at gen (suc n)) root)) {y = n} (omega arith)

  coefs-inside :
      (n : ℕ) (gen : List ℕ) (j : ℕ)
      → n < length gen
      → j < n
      → at (for_down n (gen_coef g root) gen) (suc j)
        ≡ bit_xor (at gen j) (gf_mul g (at gen (suc j)) root)
  unfolding for_down gen_coef
  coefs-inside zero gen j fits h = absurd (omega arith)
  coefs-inside (suc n) gen j fits h = elim (ℕ_discrete j n) [
    | yes same ↦ rw same (coefs-last n gen fits)
    | no other ↦
        let gen' = gen_coef g root (suc n) gen in
        let keeps : (k : ℕ) → suc n ≢ k → at gen' k ≡ at gen k =
          (λ k ne. get_or-set_ne gen (suc n) k _ 0 ne) in
        let fits' : n < length gen' = rw length-set (omega arith) in
        coefs-inside n gen' j fits' (omega arith)
        ∙ ap₂ (λ a b. bit_xor a (gf_mul g b root)) (keeps j (omega arith))
            (keeps (suc j) (omega arith))
  ]

-- The polynomial after `i` rounds: monic, of degree `i`, with the first `i` powers as roots.
pub record IsGenerator (g : Gf) (i : ℕ) (p : GenPoly) : Type 0 where
  pub degree : p.deg ≡ i
  pub room : length p.gen ≡ 256
  pub bytes : Bytes (at p.gen)
  pub monic : at p.gen i ≡ 1
  pub above : (j : ℕ) → i < j → at p.gen j ≡ 0
  pub roots : (l : ℕ) → l < i → value g (exp_at g l) (λ m. at p.gen (i - m)) (suc i) ≡ 0

module _ {g : Gf} (field : IsField g) where
  open field use {exp_in, mul_in, mul-zero, mul-one, mul_comm}

  start-above : (j : ℕ) → at (set (replicate 256 0) 0 1) (suc j) ≡ 0
  start-above j = get_or-replicate 255 0 j

  start-Bytes : Bytes (at (set (replicate 256 0) 0 1))
  start-Bytes zero = omega arith
  start-Bytes (suc j) = rw (start-above j) (omega arith)

  start-zero : (j : ℕ) → 0 < j → at (set (replicate 256 0) 0 1) j ≡ 0
  start-zero zero h = absurd (omega arith)
  start-zero (suc j) h = start-above j

  start-IsGenerator : IsGenerator g 0 (record { gen = set (replicate 256 0) 0 1; deg = 0 })
  start-IsGenerator = record {
    degree = refl;
    room = refl;
    bytes = start-Bytes;
    monic = refl;
    above = start-zero;
    roots = λ l h. absurd (omega arith);
  }

  -- The coefficients after a round.
  module _ (i : ℕ) (p : GenPoly) (v : IsGenerator g i p) (small : i < 255) where
    abbrev root : ℕ
    root = exp_at g i

    abbrev new : ℕ → ℕ
    new = at (gen_round g i p).gen

    fits : p.deg + 1 < length p.gen
    fits = omega (arith, v.degree, v.room)

    abbrev inner : List ℕ
    inner = for_down (p.deg + 1) (gen_coef g root) p.gen

    new-first : new 0 ≡ gf_mul g (at p.gen 0) root
    unfolding gen_round
    new-first =
        get_or-set_self inner 0 _ 0
          (rw (length-coefs g root (p.deg + 1) p.gen) (omega (arith, fits)))
        ∙ ap (λ a. gf_mul g a root) (coefs-first g root (p.deg + 1) p.gen)

    new-other : (j : ℕ) → 0 < j → new j ≡ at inner j
    unfolding gen_round
    new-other j h = get_or-set_ne inner 0 j _ 0 (omega arith)

    new-inside :
        (j : ℕ) → j ≤ i → new (suc j) ≡ bit_xor (at p.gen j) (gf_mul g (at p.gen (suc j)) root)
    new-inside j h =
        new-other (suc j) (omega arith)
        ∙ coefs-inside g root (p.deg + 1) p.gen j fits (omega (arith, v.degree))

    new-above : (j : ℕ) → suc i < j → new j ≡ 0
    new-above j h =
        new-other j (omega arith)
        ∙ coefs-outside g root (p.deg + 1) p.gen j (omega (arith, v.degree))
        ∙ v.above j (omega arith)

    new-top : new (suc i) ≡ at p.gen i
    new-top =
        new-inside i (omega arith)
        ∙ ap (λ a. bit_xor (at p.gen i) (gf_mul g a root)) (v.above (suc i) (omega arith))
        ∙ ap (bit_xor (at p.gen i)) (mul_left_zero field {x = root} (exp_in i small) root)
        ∙ xor-zero (at p.gen i)

    new-bytes : (j : ℕ) → new j < 256
    new-bytes zero = rw new-first (mul_in _ _ (v.bytes 0) (exp_in i small))
    new-bytes (suc j) = elim (dec_lt i j) [
      | yes far ↦ rw (new-above (suc j) (omega arith)) (omega arith)
      | no near ↦
          rw (new-inside j (omega arith))
            (xor-lt 8 _ _ (v.bytes j) (mul_in _ _ (v.bytes (suc j)) (exp_in i small)))
    ]

    -- The new polynomial is the old one times x + root.
    new-value :
        (x : ℕ)
        → x < 256
        → let old = value g x (λ m. at p.gen (i - m)) (suc i) in
          value g x (λ m. new (suc i - m)) (suc (suc i))
          ≡ bit_xor (gf_mul g old x) (gf_mul g root old)
    new-value x hx =
        value_product field hx (exp_in i small) (λ m. at p.gen (i - m)) (λ m. new (suc i - m)) i
          (λ m. v.bytes (i - m)) (ap new (omega arith) ∙ new-top ∙ ap (at p.gen) (omega arith))
          (λ m h.
            ap new {y = suc (i - suc m)} (omega arith)
            ∙ new-inside (i - suc m) (omega arith)
            ∙ ap (bit_xor (at p.gen (i - suc m)))
                (mul_comm _ root ∙ ap (λ k. gf_mul g root (at p.gen k)) (omega arith)))
          (ap new {y = 0} (omega arith)
            ∙ new-first
            ∙ mul_comm _ root
            ∙ ap (λ k. gf_mul g root (at p.gen k)) (omega arith))

    new-roots : (l : ℕ) → l < suc i → value g (exp_at g l) (λ m. new (suc i - m)) (suc (suc i)) ≡ 0
    new-roots l h = elim (ℕ_discrete l i) [
      | yes last ↦
          let old = value g root (λ m. at p.gen (i - m)) (suc i) in
          rw last (
            new-value root (exp_in i small)
            ∙ ap (λ a. bit_xor a (gf_mul g root old)) (mul_comm old root)
            ∙ xor_self (gf_mul g root old))
      | no before ↦
          let x<256 = exp_in l (omega arith) in
          let old=0 = v.roots l (omega arith) in
          new-value (exp_at g l) x<256
          ∙ ap₂ bit_xor
              (ap (λ a. gf_mul g a (exp_at g l)) old=0 ∙ mul_left_zero field x<256 (exp_at g l))
              (ap (gf_mul g root) old=0 ∙ mul-zero root)
          ∙ zero-xor 0
    ]

    gen_round-IsGenerator : IsGenerator g (suc i) (gen_round g i p)
    gen_round-IsGenerator = record {
      degree = unfold gen_round in omega (arith, v.degree);
      room =
          unfold gen_round in
          (length-set inner 0 _ ∙ length-coefs g root (p.deg + 1) p.gen ∙ v.room);
      bytes = new-bytes;
      monic = new-top ∙ v.monic;
      above = new-above;
      roots = new-roots;
    }

  -- Over tables that make a field, and for `ecc` at most 255, `rs_generator_poly` gives the monic
  -- polynomial of degree `ecc`, with coefficients that are bytes, that is zero at the first `ecc`
  -- powers of alpha.
  pub rs_generator_poly-IsGenerator :
      (ecc : ℕ) → ecc ≤ 255 → IsGenerator g ecc (rs_generator_poly g ecc)
  unfolding rs_generator_poly
  rs_generator_poly-IsGenerator ecc h =
      for_up_inv (IsGenerator g) (gen_round g) ecc 0 ecc _ (omega arith)
        (λ j p lo hi v. gen_round-IsGenerator j p v (omega arith)) start-IsGenerator
