-- ===== src/Callback/Air.antt =====
-- From the bits in one station's transmit ring, through the signals, to the bits that the other's receiver
-- gets: src/audio_io.c, src/mod_fsk.c, src/demod_afsk.c and `audio_to_rb` of src/echo_protocol.c.
use echo_protocol.Base.Floats.{Floats}
use echo_protocol.Base.{
  ℕ, zero, suc, ◌*◌, ◌<◌, ◌≡◌, refl, ap, ap₂, ◌∙◌, arith, u8, bit_and, bit_or, ◌<<◌, ◌>>◌,
}
use echo_protocol.Base.{List, [], ◌∷◌, map, length, AllBits, get_or, drop}
use echo_protocol.Receiver.{Receiver, process_rx_bit}
use echo_protocol.Receiver.Frame.{hear}
use echo_protocol.Modem.{StateFsk, StateGoertzel, take_symbol, samples_per_symbol}
use echo_protocol.Modem.Symbols.{Sample, AllOf, last_time, decide, hear_symbols}
use echo_protocol.Callback.Played.{symbols, tone, tones}

pub length-map : {A B : Type 0} (f : A → B) (xs : List A) → length (map f xs) ≡ length xs
length-map f [] = refl
length-map f (x ∷ xs) = ap suc (length-map f xs)

-- The samples, without their times.
abbrev pub signal : {F : Type 0} → List (List (Sample F)) → List (List F)
signal {F} cs = map (map (λ (x : Sample F). x.1)) cs

pub signal-AllOf :
    {F : Type 0} (n : ℕ) (cs : List (List (Sample F)))
    → AllOf n cs
    → AllOf n (signal cs) × (length (signal cs) ≡ length cs)
signal-AllOf n [] v = (tt, refl)
signal-AllOf {F} n (c ∷ cs) v =
    let rest = signal-AllOf n cs v.1 in
    ((length-map (λ (x : Sample F). x.1) c ∙ v.0, rest.0), ap suc rest.1)

-- What the arithmetic has to give: from the oscillators that `Phase` admits, the filters hear in the 32
-- samples of a symbol that symbol, and the oscillator after it is admitted again.
pub record IsClear (fl : Floats) (states : ℕ → StateGoertzel fl.F) : Type 1 where
  pub Phase : StateFsk fl.F → Type 0
  pub kept :
      (o : StateFsk fl.F) (s : ℕ) → s < 4 → Phase o → Phase (tone fl samples_per_symbol o s).0
  pub heard :
      (o : StateFsk fl.F) (s : ℕ)
      → s < 4
      → Phase o
      → decide fl states (tone fl samples_per_symbol o s).1 ≡ s

-- Each time stands for both bits of a symbol.
abbrev pub doubled : List ℕ → List ℕ
doubled [] = []
doubled (t ∷ ts) = t ∷ t ∷ doubled ts

-- The two bits of a symbol.
abbrev Splits : ℕ → ℕ → ℕ → Type 0
Splits s x y = (s < 4) × (bit_and (s >> 1) 1 ≡ x) × (bit_and s 1 ≡ y)

splits : (x y : ℕ) → x < 2 → y < 2 → Splits (u8 (bit_or (x << 1) y)) x y
splits zero zero h k = (omega arith, refl, refl)
splits zero (suc zero) h k = (omega arith, refl, refl)
splits (suc zero) zero h k = (omega arith, refl, refl)
splits (suc zero) (suc zero) h k = (omega arith, refl, refl)
splits (suc (suc x)) y h k = absurd (omega arith)
splits zero (suc (suc y)) h k = absurd (omega arith)
splits (suc zero) (suc (suc y)) h k = absurd (omega arith)

module _ (fl : Floats) (states : ℕ → StateGoertzel fl.F) (clear : IsClear fl states) where
  symbol-bits :
      (now : ℕ) (r : Receiver) (s x y : ℕ)
      → Splits s x y
      → take_symbol fl now r s ≡ process_rx_bit now (process_rx_bit now r x) y
  unfolding take_symbol
  symbol-bits now r s x y (h, e, f) = ap₂ (λ a b. process_rx_bit now (process_rx_bit now r a) b) e f

  -- Over a channel that carries the samples as they are: of the tones of an even number of bits, the
  -- receiver gets these bits.
  pub hear_symbols-tones :
      (n : ℕ) (bits : List ℕ) (cs : List (List (Sample fl.F))) (o : StateFsk fl.F) (r : Receiver)
      → length bits ≡ 2 * n
      → AllBits bits
      → clear.Phase o
      → signal cs ≡ tones fl o (symbols n bits)
      → hear_symbols fl states r cs ≡ hear r (doubled (map last_time cs)) bits
  unfolding hear_symbols hear symbols tones
  hear_symbols-tones zero [] [] o r n b p e = refl
  hear_symbols-tones zero [] (c ∷ cs) o r n b p e = absurd (ground (arith, e))
  hear_symbols-tones zero (x ∷ bits) cs o r n b p e = absurd (omega (arith, n))
  hear_symbols-tones (suc k) [] cs o r n b p e = absurd (omega (arith, n))
  hear_symbols-tones (suc k) (x ∷ []) cs o r n b p e = absurd (omega (arith, n))
  hear_symbols-tones (suc k) (x ∷ y ∷ bits) [] o r n b p e = absurd (ground (arith, e))
  hear_symbols-tones (suc k) (x ∷ y ∷ bits) (c ∷ cs) o r n b p e =
      let s = u8 (bit_or (x << 1) y) in
      let both = splits x y b.0 b.1.0 in
      let t = last_time c in
      let same : map (λ (z : Sample fl.F). z.1) c ≡ (tone fl samples_per_symbol o s).1 =
        ap (λ l. get_or l 0 []) e in
      let rest : signal cs ≡ tones fl (tone fl samples_per_symbol o s).0 (symbols k bits) =
        ap (drop 1) e in
      let symbol : decide fl states (map (λ (z : Sample fl.F). z.1) c) ≡ s =
        ap (decide fl states) same ∙ clear.heard o s both.0 p in
      ap (λ m. hear_symbols fl states (take_symbol fl t r m) cs) symbol
      ∙ ap (λ r'. hear_symbols fl states r' cs) (symbol-bits t r s x y both)
      ∙ hear_symbols-tones k bits cs (tone fl samples_per_symbol o s).0
          (process_rx_bit t (process_rx_bit t r x) y) (omega (arith, n)) b.1.1
          (clear.kept o s both.0 p) rest
