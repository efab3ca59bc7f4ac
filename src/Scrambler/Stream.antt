-- ===== src/Scrambler/Stream.antt =====
-- The scrambler over a stream of bits: it undoes itself, and never falls into step by itself.
use echo_protocol.Base.Powers.{shift_low}
use echo_protocol.Base.Xor.{xor-lt}
use echo_protocol.Base.{ℕ, suc, ◌+◌, ◌*◌, ◌/◌, ◌%◌, ◌^◌, ◌<◌, ◌≡◌, ◌≢◌, refl, sym, ap, ap₂, ◌∙◌}
use echo_protocol.Base.{
  get_or, drop, List, [], ◌∷◌, ◌++◌, length, arith, bit_or, bit_xor, u32, ◌<<◌, ◌>>◌,
}
use echo_protocol.Base.Xor.{bit_and_mask, bit_or_fields, xor_bit, xor_cancel, xor_cancel_left}
use echo_protocol.Scrambler.{Scrambler, scrambler_process, feedback}

-- `scrambler_process` over the bits of a frame.
unfoldable pub scramble : Scrambler → List ℕ → Scrambler × List ℕ
scramble s [] = (s, [])
scramble s (bit ∷ bits) =
    let (s', out) = scrambler_process s bit in let rest = scramble s' bits in (rest.0, out ∷ rest.1)

-- The next state, which does not depend on the data.
abbrev pub next : ℕ → ℕ
next state = (2 * state + (state / 2 ^ 16 % 2 + state / 2 ^ 11 % 2) % 2) % 2 ^ 17

feedback_sum : (state : ℕ) → feedback state ≡ (state / 2 ^ 16 % 2 + state / 2 ^ 11 % 2) % 2
unfolding feedback
feedback_sum state =
    ap₂ bit_xor (bit_and_mask 1 (state >> 16)) (bit_and_mask 1 (state >> 11))
    ∙ xor_bit _ _ (omega arith) (omega arith)

pub process_state :
    (s : Scrambler) (bit : ℕ) → s.state < 2 ^ 17 → (scrambler_process s bit).0.state ≡ next s.state
unfolding scrambler_process
process_state s bit h = ground (
  arith,
  feedback_sum s.state,
  bit_or_fields 1 s.state (feedback s.state) (omega (arith, feedback_sum s.state)),
  bit_and_mask 17 (bit_or (u32 (s.state << 1)) (feedback s.state)),
)

pub process_bit :
    (s : Scrambler) (bit : ℕ)
    → s.state < 2 ^ 17
    → (scrambler_process s bit).1 ≡ bit_xor bit (next s.state % 2)
unfolding scrambler_process
process_bit s bit h = ap (bit_xor bit) (bit_and_mask 1 _ ∙ ap (λ k. k % 2) (process_state s bit h))

-- The state stays in its 17 bits, and a bit comes out as a bit.
pub process_in :
    (s : Scrambler) (bit : ℕ)
    → bit < 2
    → ((scrambler_process s bit).0.state < 2 ^ 17) × ((scrambler_process s bit).1 < 2)
unfolding scrambler_process
process_in s bit h = (
  omega (arith, bit_and_mask 17 (bit_or (u32 (s.state << 1)) (feedback s.state))),
  xor-lt 1 bit _ (omega arith) (omega (arith, bit_and_mask 1 _)),
)

-- The state after a bit is the same for every bit.
pub process_state_same :
    (s : Scrambler) (x y : ℕ) → (scrambler_process s x).0 ≡ (scrambler_process s y).0
unfolding scrambler_process
process_state_same s x y = refl

pub process_undo : (s : Scrambler) (x : ℕ) → (scrambler_process s (scrambler_process s x).1).1 ≡ x
unfolding scrambler_process
process_undo s x = xor_cancel x _

-- From the same state, scrambling the scrambled stream gives the stream back, and both sides end in
-- the same state.
pub scramble_undo :
    (s : Scrambler) (bits : List ℕ)
    → (scramble s (scramble s bits).1).1 ≡ bits
      × ((scramble s (scramble s bits).1).0 ≡ (scramble s bits).0)
unfolding scramble
scramble_undo s [] = (refl, refl)
scramble_undo s (x ∷ xs) =
    let s' = (scrambler_process s x).0 in
    let ih = scramble_undo s' xs in
    let same = process_state_same s (scrambler_process s x).1 x in
    (
      ap₂ ◌∷◌ (process_undo s x) (ap (λ t. (scramble t (scramble s' xs).1).1) same ∙ ih.0),
      ap (λ t. (scramble t (scramble s' xs).1).0) same ∙ ih.1,
    )

-- One stream after another.
pub scramble-append :
    (s : Scrambler) (xs ys : List ℕ)
    → ((scramble s (xs ++ ys)).1 ≡ (scramble s xs).1 ++ (scramble (scramble s xs).0 ys).1)
      × ((scramble s (xs ++ ys)).0 ≡ (scramble (scramble s xs).0 ys).0)
unfolding scramble
scramble-append s [] ys = (refl, refl)
scramble-append s (x ∷ xs) ys =
    let ih = scramble-append (scrambler_process s x).0 xs ys in
    (ap (λ l. (scrambler_process s x).1 ∷ l) ih.0, ih.1)

pub next-injective : (a b : ℕ) → a < 2 ^ 17 → b < 2 ^ 17 → next a ≡ next b → a ≡ b
next-injective a b p q e = omega arith

next-low : (k a : ℕ) → k < 17 → next a % 2 ^ suc k ≡ 2 * (a % 2 ^ k) + next a % 2
next-low k a h =
    let f : ℕ = (a / 2 ^ 16 % 2 + a / 2 ^ 11 % 2) % 2 in
    let bit : next a % 2 ≡ f = omega arith in
    shift_low 17 k a f h (omega arith) ∙ ap (λ t. 2 * (a % 2 ^ k) + t) (sym bit)

-- Two scramblers that give the same 17 bits for the same 17 bits were in the same state.
agree :
    (bits : List ℕ) (s t : Scrambler) (k : ℕ)
    → k + length bits ≡ 17
    → s.state < 2 ^ 17
    → t.state < 2 ^ 17
    → s.state % 2 ^ k ≡ t.state % 2 ^ k
    → (scramble s bits).1 ≡ (scramble t bits).1
    → s.state ≡ t.state
unfolding scramble
agree [] s t k e p q low out = let k=17 : k ≡ 17 = omega arith in omega (arith, rw k=17 at low)
agree (x ∷ xs) s t k e p q low out =
    let same_bit : next s.state % 2 ≡ next t.state % 2 =
      sym (xor_cancel_left x (next s.state % 2))
      ∙ ap (bit_xor x) (sym (process_bit s x p) ∙ ap (λ l. get_or l 0 0) out ∙ process_bit t x q)
      ∙ xor_cancel_left x (next t.state % 2) in
    let s' = (scrambler_process s x).0 in
    let t' = (scrambler_process t x).0 in
    let same_low : s'.state % 2 ^ suc k ≡ t'.state % 2 ^ suc k =
      ap (λ a. a % 2 ^ suc k) (process_state s x p)
      ∙ next-low k s.state (omega arith)
      ∙ ap₂ (λ a b. 2 * a + b) low same_bit
      ∙ sym (next-low k t.state (omega arith))
      ∙ sym (ap (λ a. a % 2 ^ suc k) (process_state t x q)) in
    next-injective s.state t.state p q (
      sym (process_state s x p)
      ∙ agree xs s' t' (suc k) (omega arith) (omega (arith, process_state s x p))
          (omega (arith, process_state t x q)) same_low (ap (drop 1) out)
      ∙ process_state t x q)

-- Two scramblers in different 17-bit states are still in different states after any streams of the
-- same length.
pub scramble_apart :
    (bits bits' : List ℕ) (s t : Scrambler)
    → length bits ≡ length bits'
    → s.state < 2 ^ 17
    → t.state < 2 ^ 17
    → s.state ≢ t.state
    → (scramble s bits).0.state ≢ (scramble t bits').0.state
unfolding scramble
scramble_apart [] [] s t e p q ne = ne
scramble_apart [] (y ∷ ys) s t e p q ne = absurd (omega arith)
scramble_apart (x ∷ xs) [] s t e p q ne = absurd (omega arith)
scramble_apart (x ∷ xs) (y ∷ ys) s t e p q ne =
    scramble_apart xs ys (scrambler_process s x).0 (scrambler_process t y).0 (omega arith)
      (omega (arith, process_state s x p)) (omega (arith, process_state t y q))
      (λ h.
        ne (
          next-injective s.state t.state p q (sym (process_state s x p) ∙ h ∙ process_state t y q)))

pub length-scramble : (s : Scrambler) (bits : List ℕ) → length (scramble s bits).1 ≡ length bits
unfolding scramble
length-scramble s [] = refl
length-scramble s (x ∷ xs) = ap suc (length-scramble (scrambler_process s x).0 xs)

-- A receiver whose 17-bit state differs from that of the sender does not get a run of 17 bits right.
pub scramble_garbles :
    (bits : List ℕ) (s t : Scrambler)
    → length bits ≡ 17
    → s.state < 2 ^ 17
    → t.state < 2 ^ 17
    → s.state ≢ t.state
    → (scramble t (scramble s bits).1).1 ≢ bits
scramble_garbles bits s t e p q ne h =
    let sent = (scramble s bits).1 in
    ne (
      agree sent s t 0 (omega (arith, length-scramble s bits)) p q (omega arith)
        ((scramble_undo s bits).0 ∙ sym h))
