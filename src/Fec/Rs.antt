-- ===== src/Fec/Rs.antt =====
-- The Reed-Solomon code of src/fec.c: `gf_poly_eval`, `rs_generator_poly`, `rs_encode_block`,
-- `rs_syndromes`, `rs_find_error_locator`, `rs_omega_eval`, `rs_derivative_eval` and
-- `rs_decode_block`. A C array is a list; the tables are the argument `g`.
pub mod Eval
pub mod Generator
pub mod Division
pub mod Systematic
use echo_protocol.Base.{
  ℕ, ◌+◌, ◌-◌, ◌*◌, ◌/◌, ◌%◌, Bool, true, false, if◌then◌else◌, ltb, leb, ◌==◌, ◌||◌,
}
use echo_protocol.Base.{
  not, List, [], ◌++◌, Option, none, some, bit_xor, get_or, set, take, drop, replicate,
}
use echo_protocol.Base.{for_up, for_down}
use mathlib.Core.Option
use echo_protocol.Fec.Length.{fec_rs_msgblk}
use echo_protocol.Fec.Gf.{Gf, exp_at, gf_mul, gf_inv, gf_pow}

-- `a[i]`
abbrev pub at : List ℕ → ℕ → ℕ
at a i = get_or a i 0

-- The polynomial under construction in `rs_generator_poly`.
pub record GenPoly : Type 0 where
  pub gen : List ℕ
  pub deg : ℕ

-- `memcpy(msg, data, k)` to the 223 bytes of `msg`. What a longer message writes behind the array is not
-- part of the model: only with `k` at most 223 is this what the code copies.
unfoldable pub local_msg : List ℕ → ℕ → List ℕ
local_msg bytes k = take fec_rs_msgblk (take k bytes)

module _ (g : Gf) where
  -- `gf_poly_eval`
  unfoldable pub gf_poly_eval : List ℕ → ℕ → ℕ → ℕ
  gf_poly_eval poly deg x =
      for_down deg (λ i y. bit_xor (gf_mul g y x) (at poly (i - 1))) (at poly deg)

  -- `gen[j] = gen[j - 1] ^ gf_mul(gen[j], root)`
  unfoldable pub gen_coef : ℕ → ℕ → List ℕ → List ℕ
  gen_coef root j gen = set gen j (bit_xor (at gen (j - 1)) (gf_mul g (at gen j) root))

  -- One round of `rs_generator_poly`: the product by x + alpha^i.
  unfoldable pub gen_round : ℕ → GenPoly → GenPoly
  unfolding gen_coef
  gen_round i p =
      let root = exp_at g i in
      let gen = for_down (p.deg + 1) (gen_coef root) p.gen in
      record { gen = set gen 0 (gf_mul g (at gen 0) root); deg = p.deg + 1 }

  unfoldable pub rs_generator_poly : ℕ → GenPoly
  unfolding gen_round
  rs_generator_poly ecc =
      for_up ecc 0 gen_round (record { gen = set (replicate 256 0) 0 1; deg = 0 })

  -- `out[i + m] ^= gf_mul(gen[ecc - m], coef)`
  unfoldable pub cancel_at : List ℕ → ℕ → ℕ → ℕ → ℕ → List ℕ → List ℕ
  cancel_at gen ecc coef i m out =
      set out (i + m) (bit_xor (at out (i + m)) (gf_mul g (at gen (ecc - m)) coef))

  -- One round of the long division; a zero coefficient is skipped.
  unfoldable pub divide_round : List ℕ → ℕ → ℕ → List ℕ → List ℕ
  unfolding cancel_at
  divide_round gen ecc i out =
      let coef = at out i in
      let cancelled = for_up (ecc + 1) 0 (cancel_at gen ecc coef i) out in
      if coef == 0 then out else cancelled

  -- `rs_encode_block`: the `k + ecc` bytes that it leaves in `out`.
  unfoldable pub rs_encode_block : List ℕ → ℕ → ℕ → List ℕ
  unfolding divide_round rs_generator_poly local_msg
  rs_encode_block bytes k ecc =
      let gen = (rs_generator_poly ecc).gen in
      let msg = local_msg bytes k in
      let out = for_up k 0 (divide_round gen ecc) (msg ++ replicate ecc 0) in msg ++ drop k out

  -- One syndrome: the received polynomial at alpha^i, by Horner's rule.
  unfoldable pub syndrome : List ℕ → ℕ → ℕ → ℕ
  syndrome r n i =
      let x = exp_at g i in for_up (n - 1) 1 (λ j s. bit_xor (gf_mul g s x) (at r j)) (at r 0)

  -- `rs_syndromes`: the array `synd`, and whether an entry is not zero.
  unfoldable pub rs_syndromes : List ℕ → ℕ → ℕ → List ℕ × Bool
  unfolding syndrome
  rs_syndromes r n ecc =
      for_up ecc 0 (λ i acc. let s = syndrome r n i in (set acc.0 i s, not (s == 0) || acc.1))
        (replicate 256 0, false)

-- The variables of the Berlekamp-Massey loop.
pub record Locator : Type 0 where
  pub c : List ℕ
  pub b_poly : List ℕ
  pub len : ℕ
  pub m : ℕ
  pub b : ℕ

-- What the Chien search has found.
pub record Found : Type 0 where
  pub nerr : ℕ
  pub err_pos : List ℕ
  pub err_num : List ℕ

module _ (g : Gf) where
  -- The discrepancy: `d = synd[n]; d ^= gf_mul(C[i], synd[n - i])` for i = 1 .. L.
  unfoldable pub discrepancy : List ℕ → ℕ → Locator → ℕ
  discrepancy synd n l =
      for_up l.len 1 (λ i d. bit_xor d (gf_mul g (at l.c i) (at synd (n - i)))) (at synd n)

  unfoldable pub locator_round : List ℕ → ℕ → Locator → Locator
  unfolding discrepancy
  locator_round synd n l =
      let d = discrepancy synd n l in
      let coef = gf_mul g d (gf_inv g l.b) in
      let c =
        for_up (256 - l.m) 0
          (λ i c. set c (i + l.m) (bit_xor (at c (i + l.m)) (gf_mul g coef (at l.b_poly i)))) l.c in
      if d == 0
      then record l { m = l.m + 1 }
      else (if leb (2 * l.len) n
          then record { c = c; b_poly = l.c; len = n + 1 - l.len; m = 1; b = d }
          else record l { c = c; m = l.m + 1 })

  -- `rs_find_error_locator`: `loc` is `c`, `*loc_deg` is `len`.
  unfoldable pub rs_find_error_locator : List ℕ → ℕ → Locator
  unfolding locator_round
  rs_find_error_locator synd ecc =
      let one = set (replicate 256 0) 0 1 in
      for_up ecc 0 (locator_round synd) (record { c = one; b_poly = one; len = 0; m = 1; b = 1 })

  -- `rs_omega_eval`
  unfoldable pub rs_omega_eval : List ℕ → ℕ → List ℕ → ℕ → ℕ → ℕ
  rs_omega_eval synd ecc loc loc_deg y =
      for_up ecc 0
        (λ t acc.
          let omega_t =
            for_up (t + 1) 0
              (λ i o.
                if ltb loc_deg (t - i)
                then o
                else bit_xor o (gf_mul g (at synd i) (at loc (t - i))))
              0 in
          bit_xor acc (gf_mul g omega_t (gf_pow g y t)))
        0

  -- `rs_derivative_eval`: the odd degrees d = 1, 3, .. up to `loc_deg`.
  unfoldable pub rs_derivative_eval : List ℕ → ℕ → ℕ → ℕ
  rs_derivative_eval loc loc_deg y =
      for_up ((loc_deg + 1) / 2) 0
        (λ t acc. bit_xor acc (gf_mul g (at loc (2 * t + 1)) (gf_pow g y (2 * t)))) 0

  -- One position of the Chien search.
  unfoldable pub chien_round : List ℕ → ℕ → ℕ → ℕ → Found → Found
  unfolding gf_poly_eval
  chien_round loc loc_deg n j f =
      let e = (n - 1 - j) % 255 in
      let x = exp_at g ((255 - e) % 255) in
      if ltb f.nerr 256
      then (if gf_poly_eval g loc loc_deg x == 0
          then record {
            nerr = f.nerr + 1;
            err_pos = set f.err_pos f.nerr j;
            err_num = set f.err_num f.nerr (exp_at g e);
          }
          else f)
      else f

  -- One correction by Forney's formula; `none` is the return of -1 on a zero derivative.
  unfoldable pub correct_round :
      List ℕ → ℕ → Locator → Found → ℕ → Option (List ℕ) → Option (List ℕ)
  unfolding rs_omega_eval rs_derivative_eval
  correct_round synd ecc l f i none = none
  correct_round synd ecc l f i (some buf) =
      let num = at f.err_num i in
      let pos = at f.err_pos i in
      let xinv = gf_inv g num in
      let omega_value = rs_omega_eval synd ecc l.c l.len xinv in
      let deriv = rs_derivative_eval l.c l.len xinv in
      let mag = gf_mul g (gf_mul g num omega_value) (gf_inv g deriv) in
      if deriv == 0 then none else some (set buf pos (bit_xor (at buf pos) mag))

  -- The part of `rs_decode_block` after syndromes that are not all zero.
  unfoldable pub rs_correct : List ℕ → ℕ → ℕ → List ℕ → Option (List ℕ)
  unfolding rs_find_error_locator chien_round correct_round
  rs_correct r n k synd =
      let ecc = n - k in
      let l = rs_find_error_locator synd ecc in
      let found =
        for_up n 0 (chien_round l.c l.len n)
          (record { nerr = 0; err_pos = replicate 256 0; err_num = replicate 256 0 }) in
      let fixed = for_up found.nerr 0 (correct_round synd ecc l found) (some (take n r)) in
      if l.len == 0 || ltb (ecc / 2) l.len
      then none
      else (if found.nerr == l.len then Option.map (take k) fixed else none)

  -- `rs_decode_block`: the `k` bytes that it leaves in `out`, `none` for the return of -1.
  unfoldable pub rs_decode_block : List ℕ → ℕ → ℕ → Option (List ℕ)
  unfolding rs_correct rs_syndromes
  rs_decode_block r n k =
      let (synd, nonzero) = rs_syndromes g r n (n - k) in
      if nonzero then rs_correct r n k synd else some (take k r)
