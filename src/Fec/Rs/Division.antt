-- ===== src/Fec/Rs/Division.antt =====
-- The long division of `rs_encode_block`: a round clears the leading coefficient and changes the
-- polynomial by a multiple of the generator, so its values at the generator's roots stay.
use native.Mathlib.Decide.{ℕ_discrete}
use echo_protocol.Base.{
  ℕ, suc, ◌+◌, ◌-◌, ◌≤◌, ◌<◌, ◌≡◌, ◌≢◌, ◌⊎◌, inl, inr, refl, ap, ap₂, ◌∙◌, arith,
}
use echo_protocol.Base.{
  List, bit_xor, for_up, for_up_inv, length, length-set, get_or-set_self, get_or-set_ne,
}
use echo_protocol.Base.{if◌then◌else◌, ltb, ◌||◌}
use echo_protocol.Base.Xor.{xor-zero, xor-lt, xor_self}
use echo_protocol.Fec.Gf.{Gf, gf_mul, exp_at}
use echo_protocol.Fec.Gf.Field.{IsField}
use echo_protocol.Fec.Rs.{at, GenPoly, cancel_at, divide_round}
use echo_protocol.Fec.Rs.Eval.{
  Bytes, value, value-cong, value-xor, value-mul, value-zeros, value-drop, value-pad,
}
use echo_protocol.Fec.Rs.Generator.{IsGenerator}

-- The multiple of the generator that a round adds: `gen` times `coef`, from index `i` on.
abbrev multiple : Gf → List ℕ → ℕ → ℕ → ℕ → ℕ → ℕ
multiple g gen ecc coef i t =
    if ltb t i || ltb (i + ecc) t then 0 else gf_mul g (at gen (ecc - (t - i))) coef

-- After `m` rounds of the inner loop.
record Cancelled (g : Gf) (gen : List ℕ) (ecc coef i : ℕ) (out : List ℕ) (m : ℕ) (s : List ℕ)
    : Type 0 where
  same_length : length s ≡ length out
  done :
      (t : ℕ)
      → i ≤ t
      → t < i + m
      → at s t ≡ bit_xor (at out t) (gf_mul g (at gen (ecc - (t - i))) coef)
  rest : (t : ℕ) → (t < i) ⊎ (i + m ≤ t) → at s t ≡ at out t

module _ (g : Gf) (gen : List ℕ) (ecc coef i : ℕ) (out : List ℕ) (fits : i + ecc < length out) where
  cancel_at-Cancelled :
      (m : ℕ) (s : List ℕ)
      → m < ecc + 1
      → Cancelled g gen ecc coef i out m s
      → Cancelled g gen ecc coef i out (suc m) (cancel_at g gen ecc coef i m s)
  unfolding cancel_at
  cancel_at-Cancelled m s h v = record {
    same_length = length-set s (i + m) _ ∙ v.same_length;
    done = λ t lo hi. elim (ℕ_discrete t (i + m)) [
      | yes here ↦ rw here (
          get_or-set_self s (i + m) _ 0 (omega (arith, v.same_length))
          ∙ ap₂ (λ a k. bit_xor a (gf_mul g (at gen (ecc - k)) coef))
              (v.rest (i + m) (inr (omega arith))) (omega arith))
      | no other ↦ get_or-set_ne s (i + m) t _ 0 (omega arith) ∙ v.done t lo (omega arith)
    ];
    rest = λ t far. get_or-set_ne s (i + m) t _ 0 (omega arith) ∙ v.rest t (omega arith);
  }

  all-Cancelled :
      Cancelled g gen ecc coef i out (ecc + 1) (for_up (ecc + 1) 0 (cancel_at g gen ecc coef i) out)
  all-Cancelled =
      for_up_inv (Cancelled g gen ecc coef i out) (cancel_at g gen ecc coef i) (ecc + 1) 0 (ecc + 1)
        out (omega arith) (λ m s lo hi v. cancel_at-Cancelled m s hi v)
        (record {
          same_length = refl;
          done = λ t lo hi. absurd (omega arith);
          rest = λ t far. refl;
        })

  -- The inner loop adds the multiple of the generator.
  cancelled_at :
      (t : ℕ)
      → at (for_up (ecc + 1) 0 (cancel_at g gen ecc coef i) out) t
        ≡ bit_xor (at out t) (multiple g gen ecc coef i t)
  cancelled_at t = ground (arith, all-Cancelled.done t, all-Cancelled.rest t, xor-zero (at out t))

-- A multiple of the generator has the generator's roots.
module _ {g : Gf} (field : IsField g) {ecc : ℕ} {p : GenPoly} (v : IsGenerator g ecc p)
    (coef i n : ℕ) (hc : coef < 256) (fits : i + ecc < n) (l : ℕ) (hl : l < ecc)
    (small : ecc ≤ 255) where
  open field use {exp_in, mul_in, mul-zero, mul_comm}

  abbrev x : ℕ
  x = exp_at g l

  abbrev e : ℕ → ℕ
  e = multiple g p.gen ecc coef i

  multiple-Bytes : Bytes e
  multiple-Bytes t =
      ground (arith, mul_in (at p.gen (ecc - (t - i))) coef (v.bytes (ecc - (t - i))) hc)

  multiple-before : value g x e i ≡ 0
  multiple-before = value-zeros field {x = x} (exp_in l (omega arith)) e i (λ j h. ground arith)

  multiple-inside : value g x e (suc ecc + i) ≡ 0
  multiple-inside =
      value-drop field {x = x} (exp_in l (omega arith)) e i (suc ecc) multiple-before
      ∙ value-cong field {x = x} (exp_in l (omega arith)) (λ j. e (j + i))
          (λ j. gf_mul g coef (at p.gen (ecc - j))) (suc ecc) inside
      ∙ value-mul field {x = x} (exp_in l (omega arith)) coef (λ j. at p.gen (ecc - j)) (suc ecc) hc
          (λ j. v.bytes (ecc - j))
      ∙ ap (gf_mul g coef) (v.roots l hl)
      ∙ mul-zero coef
    where
      inside : (j : ℕ) → j < suc ecc → e (j + i) ≡ gf_mul g coef (at p.gen (ecc - j))
      inside j h = ground (
        arith,
        mul_comm (at p.gen (ecc - j)) coef,
        ap (λ k. at p.gen (ecc - k)) {x = j + i - i} {y = j} (omega arith),
      )

  multiple-root : value g x e n ≡ 0
  multiple-root =
      ap (value g x e) {y = n - (suc ecc + i) + (suc ecc + i)} (omega arith)
      ∙ value-pad field {x = x} (exp_in l (omega arith)) e (suc ecc + i) (n - (suc ecc + i))
          multiple-inside (λ j h. ground arith)

-- What the division has reached before round `i`: the first `i` coefficients are gone, and the
-- values at the roots are those of the start.
pub record Divided (g : Gf) (k ecc : ℕ) (start : List ℕ) (i : ℕ) (out : List ℕ) : Type 0 where
  pub same_length : length out ≡ k + ecc
  pub bytes : Bytes (at out)
  pub cleared : (t : ℕ) → t < i → at out t ≡ 0
  pub values :
      (l : ℕ)
      → l < ecc
      → value g (exp_at g l) (at out) (k + ecc) ≡ value g (exp_at g l) (at start) (k + ecc)

module _ {g : Gf} (field : IsField g) {ecc : ℕ} {p : GenPoly} (v : IsGenerator g ecc p)
    (small : ecc ≤ 255) (k : ℕ) (start : List ℕ) where
  open field use {exp_in, mul_in, mul-zero, mul-one, mul_comm}

  -- A round with a coefficient that is not zero.
  module _ (i : ℕ) (out : List ℕ) (hi : i < k) (d : Divided g k ecc start i out) where
    abbrev coef : ℕ
    coef = at out i

    abbrev next : List ℕ
    next = for_up (ecc + 1) 0 (cancel_at g p.gen ecc coef i) out

    fits : i + ecc < length out
    fits = omega (arith, d.same_length)

    next_at : (t : ℕ) → at next t ≡ bit_xor (at out t) (multiple g p.gen ecc coef i t)
    next_at = cancelled_at g p.gen ecc coef i out fits

    e-Bytes : Bytes (multiple g p.gen ecc coef i)
    e-Bytes t =
        ground (arith, mul_in (at p.gen (ecc - (t - i))) coef (v.bytes (ecc - (t - i))) (d.bytes i))

    leading : at next i ≡ 0
    leading =
        next_at i
        ∙ ground (
          arith,
          ap (at p.gen) {x = ecc - (i - i)} {y = ecc} (omega arith),
          v.monic,
          mul_comm 1 coef,
          mul-one coef (d.bytes i),
          xor_self coef,
        )

    next-Divided : Divided g k ecc start (suc i) next
    next-Divided = record {
      same_length = (all-Cancelled g p.gen ecc coef i out fits).same_length ∙ d.same_length;
      bytes = λ t. rw (next_at t) (xor-lt 8 _ _ (d.bytes t) (e-Bytes t));
      cleared = λ t h. elim (ℕ_discrete t i) [
        | yes here ↦ rw here leading
        | no before ↦
            (all-Cancelled g p.gen ecc coef i out fits).rest t (inl (omega arith))
            ∙ d.cleared t (omega arith)
      ];
      values = λ l hl.
          value-cong field {x = exp_at g l} (exp_in l (omega arith)) (at next)
            (λ t. bit_xor (at out t) (multiple g p.gen ecc coef i t)) (k + ecc) (λ t h. next_at t)
          ∙ value-xor field {x = exp_at g l} (exp_in l (omega arith)) (at out)
              (multiple g p.gen ecc coef i) (k + ecc) d.bytes e-Bytes
          ∙ ap (bit_xor (value g (exp_at g l) (at out) (k + ecc)))
              (multiple-root field v coef i (k + ecc) (d.bytes i) (omega arith) l hl small)
          ∙ xor-zero (value g (exp_at g l) (at out) (k + ecc))
          ∙ d.values l hl;
    }

  divide_round-Divided :
      (i : ℕ) (out : List ℕ)
      → i < k
      → Divided g k ecc start i out
      → Divided g k ecc start (suc i) (divide_round g p.gen ecc i out)
  divide_round-Divided i out hi d = elim (ℕ_discrete (at out i) 0) [
    | yes none ↦ rw (skipped none) (record {
      same_length = d.same_length;
      bytes = d.bytes;
      values = d.values;
      cleared = λ t h. elim (ℕ_discrete t i) [
        | yes here ↦ rw here none
        | no before ↦ d.cleared t (omega arith)
      ];
    })
    | no some ↦ rw (taken some) (next-Divided i out hi d)
  ]
    where
      skipped : at out i ≡ 0 → divide_round g p.gen ecc i out ≡ out
      skipped e = unfold divide_round in ground arith

      taken : at out i ≢ 0 → divide_round g p.gen ecc i out ≡ next i out hi d
      taken ne = unfold divide_round in ground arith

  -- The whole division.
  pub division-Divided :
      Divided g k ecc start 0 start
      → Divided g k ecc start k (for_up k 0 (divide_round g p.gen ecc) start)
  division-Divided d =
      for_up_inv (Divided g k ecc start) (divide_round g p.gen ecc) k 0 k start (omega arith)
        (λ i out lo hi e. divide_round-Divided i out hi e) d
