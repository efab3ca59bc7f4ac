-- ===== src/Fec/Interleave/Inverse.antt =====
-- Deinterleaving undoes interleaving, and a burst on the air is spread over the blocks.
use mathlib.Core.Path.{subst}
use native.Mathlib.Decide.{ℕ_discrete}
use native.Mathlib.Nat.{mul-add-mod_self_right, mod-eq_of_lt, mod-lt, div-add-mod', mul_comm}
use echo_protocol.Base.{
  ℕ, zero, suc, ◌+◌, ◌*◌, ◌/◌, ◌%◌, ◌≤◌, ◌<◌, ◌≡◌, ◌≢◌, sym, ap, ap₂, ◌∙◌, arith,
}
use echo_protocol.Base.{
  List, set, length, length-set, get_or-set_self, get_or-set_ne, get_or_ext, for_up, for_up_inv,
}
use echo_protocol.Base.{AllBytes}
use echo_protocol.Base.Bytes.{set-AllBytes, get_or-lt}
use echo_protocol.Fec.Rs.{at}
use echo_protocol.Fec.Interleave.{interleave_at, fec_interleave, deinterleave_at, fec_deinterleave}

row_mod : (a m b : ℕ) → b < m → (a * m + b) % m ≡ b
row_mod a m b h = mul-add-mod_self_right a m b ∙ mod-eq_of_lt h

row_div : (a m b : ℕ) → b < m → (a * m + b) / m ≡ a
row_div a m b h = grind (arith, row_mod a m b h, div-add-mod' (a * m + b) m)

-- An entry of a matrix lies inside the array.
cell_in : (c nb r bs : ℕ) → c < bs → r < nb → c * nb + r < bs * nb
cell_in c nb r bs p q = grind arith

-- Where the byte `p` of the air comes from, in blocks of `bs` bytes.
abbrev cell : ℕ → ℕ → ℕ → ℕ
cell nb bs p = p % nb * bs + p / nb

module _ (blocks : List ℕ) (nb bs : ℕ) (out₀ : List ℕ) (size : length out₀ ≡ bs * nb) where
  -- The bytes of the air up to `p` are written.
  record Woven (p : ℕ) (out : List ℕ) : Type 0 where
    same_length : length out ≡ bs * nb
    written : (j : ℕ) → j < p → at out j ≡ at blocks (cell nb bs j)

  weave_step :
      (c r : ℕ) (out : List ℕ)
      → c < bs
      → r < nb
      → Woven (c * nb + r) out
      → Woven (c * nb + suc r) (interleave_at blocks nb bs c r out)
  unfolding interleave_at
  weave_step c r out hc hr w = record {
    same_length = length-set out (c * nb + r) _ ∙ w.same_length;
    written = λ j h. elim (ℕ_discrete j (c * nb + r)) [
      | yes here ↦ rw here (
          get_or-set_self out (c * nb + r) _ 0 (rw w.same_length (cell_in c nb r bs hc hr))
          ∙ ap (at blocks)
              (ap₂ (λ a b. a * bs + b) (sym (row_mod c nb r hr)) (sym (row_div c nb r hr))))
      | no other ↦ get_or-set_ne out (c * nb + r) j _ 0 (omega arith) ∙ w.written j (omega arith)
    ];
  }

  weave_row :
      (c : ℕ) (out : List ℕ)
      → c < bs
      → Woven (c * nb) out
      → Woven (suc c * nb) (for_up nb 0 (interleave_at blocks nb bs c) out)
  weave_row c out hc w =
      let start : c * nb ≡ c * nb + 0 = omega arith in
      let finish : suc c * nb ≡ c * nb + nb = grind arith in
      rw finish (
        for_up_inv (λ r out. Woven (c * nb + r) out) (interleave_at blocks nb bs c) nb 0 nb out
          (omega arith) (λ r out lo hi v. weave_step c r out hc hi v)
          (subst (λ k. Woven k out) start w))

  fec_interleave-Woven : Woven (bs * nb) (fec_interleave blocks nb bs out₀)
  unfolding fec_interleave
  fec_interleave-Woven =
      for_up_inv (λ c out. Woven (c * nb) out) _ bs 0 bs out₀ (omega arith)
        (λ c out lo hi v. weave_row c out hi v)
        (record { same_length = size; written = λ j h. absurd (omega arith) })

quotient-le : (c nb j : ℕ) → j < suc c * nb → j / nb ≤ c
quotient-le c nb j h = grind (arith, div-add-mod' j nb)

remainder-lt : (nb r j : ℕ) → r < nb → j % nb < nb
remainder-lt nb r j h = mod-lt j (omega arith)

-- Two bytes of the air come from different places.
cell-ne : (nb bs c r j : ℕ) → c < bs → r < nb → j < c * nb + r → r * bs + c ≢ cell nb bs j
cell-ne nb bs c r j hc hr h e =
    let column : j / nb ≤ c = quotient-le c nb j (grind arith) in
    let same_row : r ≡ j % nb =
      sym (row_div r bs c hc) ∙ ap (λ k. k / bs) e ∙ row_div (j % nb) bs (j / nb) (omega arith) in
    let same_column : c ≡ j / nb =
      sym (row_mod r bs c hc) ∙ ap (λ k. k % bs) e ∙ row_mod (j % nb) bs (j / nb) (omega arith) in
    let whole : j / nb * nb + j % nb ≡ j = div-add-mod' j nb in
    let moved : c * nb + r ≡ j / nb * nb + j % nb = ap₂ (λ a b. a * nb + b) same_column same_row in
    omega arith

module _ (input : List ℕ) (nb bs : ℕ) (blocks₀ : List ℕ) (size : length blocks₀ ≡ bs * nb) where
  -- The bytes of the air up to `p` are back in their blocks.
  record Unwoven (p : ℕ) (blocks : List ℕ) : Type 0 where
    same_length : length blocks ≡ bs * nb
    written : (j : ℕ) → j < p → at blocks (cell nb bs j) ≡ at input j

  unweave_step :
      (c r : ℕ) (blocks : List ℕ)
      → c < bs
      → r < nb
      → Unwoven (c * nb + r) blocks
      → Unwoven (c * nb + suc r) (deinterleave_at input nb bs c r blocks)
  unfolding deinterleave_at
  unweave_step c r blocks hc hr w = record {
    same_length = length-set blocks (r * bs + c) _ ∙ w.same_length;
    written = λ j h. elim (ℕ_discrete j (c * nb + r)) [
      | yes here ↦ rw here (
          ap (at (set blocks (r * bs + c) (at input (c * nb + r))))
            (ap₂ (λ a b. a * bs + b) (row_mod c nb r hr) (row_div c nb r hr))
          ∙ get_or-set_self blocks (r * bs + c) _ 0
              (rw w.same_length (omega (arith, cell_in r bs c nb hr hc))))
      | no other ↦
          get_or-set_ne blocks (r * bs + c) (cell nb bs j) _ 0
            (cell-ne nb bs c r j hc hr (omega arith))
          ∙ w.written j (omega arith)
    ];
  }

  unweave_row :
      (c : ℕ) (blocks : List ℕ)
      → c < bs
      → Unwoven (c * nb) blocks
      → Unwoven (suc c * nb) (for_up nb 0 (deinterleave_at input nb bs c) blocks)
  unweave_row c blocks hc w =
      let start : c * nb ≡ c * nb + 0 = omega arith in
      let finish : suc c * nb ≡ c * nb + nb = grind arith in
      rw finish (
        for_up_inv (λ r b. Unwoven (c * nb + r) b) (deinterleave_at input nb bs c) nb 0 nb blocks
          (omega arith) (λ r b lo hi v. unweave_step c r b hc hi v)
          (subst (λ k. Unwoven k blocks) start w))

  fec_deinterleave-Unwoven : Unwoven (bs * nb) (fec_deinterleave input nb bs blocks₀)
  unfolding fec_deinterleave
  fec_deinterleave-Unwoven =
      for_up_inv (λ c b. Unwoven (c * nb) b) _ bs 0 bs blocks₀ (omega arith)
        (λ c b lo hi v. unweave_row c b hi v)
        (record { same_length = size; written = λ j h. absurd (omega arith) })

quotient-lt : (nb bs q : ℕ) → q < nb * bs → q / bs < nb
quotient-lt nb bs q h = grind (arith, div-add-mod' q bs)

positive : (nb bs q : ℕ) → q < nb * bs → 0 < bs
positive nb zero q h = omega arith
positive nb (suc bs) q h = omega arith

-- Deinterleaving what interleaving `nblocks` blocks of `block_size` bytes gives is the blocks again,
-- whatever the arrays of that size that are written held before.
pub deinterleave-interleave :
    (blocks : List ℕ) (nblocks block_size : ℕ) (out in_blocks : List ℕ)
    → length blocks ≡ block_size * nblocks
    → length out ≡ block_size * nblocks
    → length in_blocks ≡ block_size * nblocks
    → fec_deinterleave (fec_interleave blocks nblocks block_size out) nblocks block_size in_blocks
      ≡ blocks
deinterleave-interleave blocks nb bs out₀ in₀ hb ho hi =
    get_or_ext 0 _ blocks (unwoven.same_length ∙ sym hb) same
  where
    woven : Woven blocks nb bs out₀ ho (bs * nb) (fec_interleave blocks nb bs out₀)
    woven = fec_interleave-Woven blocks nb bs out₀ ho

    air : List ℕ
    air = fec_interleave blocks nb bs out₀

    unwoven : Unwoven air nb bs in₀ hi (bs * nb) (fec_deinterleave air nb bs in₀)
    unwoven = fec_deinterleave-Unwoven air nb bs in₀ hi

    same :
        (q : ℕ)
        → q < length (fec_deinterleave air nb bs in₀)
        → at (fec_deinterleave air nb bs in₀) q ≡ at blocks q
    same q h =
        let total : bs * nb ≡ nb * bs = mul_comm bs nb in
        let in_range : q < nb * bs = omega (arith, unwoven.same_length) in
        let row : q / bs < nb = quotient-lt nb bs q in_range in
        let column : q % bs < bs = mod-lt q (positive nb bs q in_range) in
        let p : ℕ = q % bs * nb + q / bs in
        let p_in : p < bs * nb = cell_in (q % bs) nb (q / bs) bs column row in
        let home : cell nb bs p ≡ q =
          ap₂ (λ a b. a * bs + b) (row_mod (q % bs) nb (q / bs) row)
            (row_div (q % bs) nb (q / bs) row)
          ∙ div-add-mod' q bs in
        ap (at (fec_deinterleave air nb bs in₀)) (sym home)
        ∙ unwoven.written p p_in
        ∙ woven.written p p_in
        ∙ ap (at blocks) home

-- Bytes of the air that lie fewer than `nblocks` apart belong to different blocks: a burst of up to
-- `nblocks` bytes damages at most one byte of each block.
pub burst_spread : (nblocks i j : ℕ) → i < j → j < i + nblocks → i % nblocks ≢ j % nblocks
burst_spread nb i j h k e =
    let left : i / nb * nb + i % nb ≡ i = div-add-mod' i nb in
    let right : j / nb * nb + j % nb ≡ j = div-add-mod' j nb in grind arith

pub length-fec_interleave :
    (blocks : List ℕ) (nblocks block_size : ℕ) (out : List ℕ)
    → length out ≡ block_size * nblocks
    → length (fec_interleave blocks nblocks block_size out) ≡ block_size * nblocks
length-fec_interleave blocks nb bs out h = (fec_interleave-Woven blocks nb bs out h).same_length

-- The air carries bytes when the blocks are bytes.
pub fec_interleave-AllBytes :
    (blocks out : List ℕ) (nb bs : ℕ)
    → AllBytes blocks
    → AllBytes out
    → AllBytes (fec_interleave blocks nb bs out)
unfolding fec_interleave interleave_at
fec_interleave-AllBytes blocks out nb bs a b =
    for_up_inv (λ c out. AllBytes out) _ bs 0 bs out (omega arith)
      (λ c out lo hi v.
        for_up_inv (λ r out. AllBytes out) (interleave_at blocks nb bs c) nb 0 nb out (omega arith)
          (λ r out lo hi w. set-AllBytes out _ _ (get_or-lt blocks (r * bs + c) a) w) v)
      b
