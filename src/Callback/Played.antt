-- ===== src/Callback/Played.antt =====
-- What the callback of src/audio_io.c plays, and what it hears.
use mathlib.Core.Path.{subst}
use echo_protocol.Base.Floats.{Floats}
use echo_protocol.Base.{
  ℕ, zero, suc, ◌+◌, ◌≤◌, ◌≡◌, refl, sym, ap, ap₂, ◌∙◌, arith, leb, true, false, u8, u16, ◌<<◌,
  bit_or,
}
use echo_protocol.Base.{List, [], ◌∷◌, ◌++◌, length, Option, none, some}
use echo_protocol.Ring.{Buffer, get_bits}
use echo_protocol.Ring.Inv.{IsValid as IsRing, get_bits-IsValid}
use echo_protocol.Ring.Refine.{contents, dequeue, get_bits_refines}
use echo_protocol.Modem.{StateFsk, Demod, generate_fsk, audio_to_rb, samples_per_symbol}
use echo_protocol.Modem.Symbols.{
  flatten, AllOf, Sample, audio_all, IsBetween, hear_symbols, audio_all_lem,
}
use echo_protocol.Callback.{
  Player, Audio, second_bit, first_bit, next_symbol, fetch, play_sample, hear_sample, frames,
  freeze, pa_callback,
}

-- The symbols of a queue of bits: two bits each, and 3 where there are not two.
unfoldable pub symbols : ℕ → List ℕ → List ℕ
symbols zero bits = []
symbols (suc n) [] = 3 ∷ symbols n []
symbols (suc n) (x ∷ []) = 3 ∷ symbols n []
symbols (suc n) (x ∷ y ∷ bits) = u8 (bit_or (x << 1) y) ∷ symbols n bits

module _ (fl : Floats) where
  -- `n` samples of one symbol.
  unfoldable pub tone : ℕ → StateFsk fl.F → ℕ → StateFsk fl.F × List fl.F
  tone zero state s = (state, [])
  tone (suc n) state s =
      let (state', out) = generate_fsk fl state s in
      let (state'', outs) = tone n state' s in (state'', out ∷ outs)

  -- Symbol after symbol, from one oscillator.
  unfoldable pub tones : StateFsk fl.F → List ℕ → List (List fl.F)
  tones state [] = []
  tones state (s ∷ ss) =
      let (state', outs) = tone samples_per_symbol state s in outs ∷ tones state' ss

  -- The two halves of the callback do not touch each other.
  unfoldable pub play_all : {A : Type 0} → List A → Player fl.F → Player fl.F × List fl.F
  play_all [] p = (p, [])
  play_all (x ∷ xs) p =
      let (p', out) = play_sample fl p in let (p'', outs) = play_all xs p' in (p'', out ∷ outs)

  abbrev pub hear_all : List (ℕ × Option fl.F) → Demod fl.F → Demod fl.F
  hear_all [] d = d
  hear_all (x ∷ xs) d = hear_all xs (hear_sample fl x d)

  pub frames_lem :
      (xs : List (ℕ × Option fl.F)) (a : Audio fl.F)
      → frames fl xs a ≡ (
        record a { player = (play_all xs a.player).0; demod = hear_all xs a.demod },
        (play_all xs a.player).1,
      )
  unfolding frames play_all
  frames_lem [] a = refl
  frames_lem (x ∷ xs) a =
      let (p, out) = play_sample fl a.player in
      ap (λ (q : Audio fl.F × List fl.F). (q.0, out ∷ q.1))
        (frames_lem xs (record a { player = p; demod = hear_sample fl x a.demod }))

  -- The samples of a symbol that has begun.
  play_within :
      {A : Type 0} (xs : List A) (p : Player fl.F)
      → p.tx_sample_count + length xs ≤ samples_per_symbol
      → play_all xs p ≡ (
          let (state, outs) = tone (length xs) p.mod_state p.current_tx_symbol in
          (record p { mod_state = state; tx_sample_count = p.tx_sample_count + length xs }, outs))
  unfolding play_all tone play_sample fetch
  play_within [] p e =
      ap (λ k. (record p { tx_sample_count = k }, [])) {x = p.tx_sample_count}
        {y = p.tx_sample_count + 0} (omega arith)
  play_within (x ∷ xs) p e =
      let begun : leb samples_per_symbol p.tx_sample_count ≡ false = ground (arith, e) in
      let (state, out) = generate_fsk fl p.mod_state p.current_tx_symbol in
      let p' = record p { mod_state = state; tx_sample_count = u16 (p.tx_sample_count + 1) } in
      let (state', outs) = tone (length xs) state p.current_tx_symbol in
      rw begun (
        ap (λ (q : Player fl.F × List fl.F). (q.0, out ∷ q.1))
          (play_within xs p' (omega (arith, e)))
        ∙ ap (λ k. (record p { mod_state = state'; tx_sample_count = k }, out ∷ outs))
            {x = u16 (p.tx_sample_count + 1) + length xs} {y = p.tx_sample_count + suc (length xs)}
            (omega (arith, e)))

  -- A symbol that has just been fetched.
  abbrev fetched : Player fl.F → Player fl.F
  fetched p = record p {
    tx_rb = (next_symbol p.tx_rb).0;
    current_tx_symbol = (next_symbol p.tx_rb).1;
    tx_sample_count = 0;
  }

  play_fetched :
      {A : Type 0} (x : A) (xs : List A) (p : Player fl.F)
      → p.tx_sample_count ≡ samples_per_symbol
      → play_all (x ∷ xs) p ≡ play_all (x ∷ xs) (fetched p)
  unfolding play_all play_sample fetch
  play_fetched x xs p e =
      let full : leb samples_per_symbol p.tx_sample_count ≡ true = ground (arith, e) in rw full refl

  play_symbol :
      {A : Type 0} (xs : List A) (p : Player fl.F)
      → p.tx_sample_count ≡ samples_per_symbol
      → length xs ≡ samples_per_symbol
      → play_all xs p ≡ (
          let (b, s) = next_symbol p.tx_rb in
          let (state, outs) = tone samples_per_symbol p.mod_state s in
          (
            record {
              tx_rb = b;
              mod_state = state;
              tx_sample_count = samples_per_symbol;
              current_tx_symbol = s;
            },
            outs,
          ))
  play_symbol [] p e n = absurd (omega (arith, n))
  play_symbol (x ∷ xs) p e n =
      play_fetched x xs p e
      ∙ play_within (x ∷ xs) (fetched p) (omega (arith, n))
      ∙ ap
          (λ k. (
            record {
              tx_rb = (next_symbol p.tx_rb).0;
              mod_state = (tone k p.mod_state (next_symbol p.tx_rb).1).0;
              tx_sample_count = 0 + k;
              current_tx_symbol = (next_symbol p.tx_rb).1;
            },
            (tone k p.mod_state (next_symbol p.tx_rb).1).1,
          ))
          n

  play_all-append :
      {A : Type 0} (xs ys : List A) (p : Player fl.F)
      → (play_all (xs ++ ys) p).1 ≡ (play_all xs p).1 ++ (play_all ys (play_all xs p).0).1
  unfolding play_all
  play_all-append [] ys p = refl
  play_all-append (x ∷ xs) ys p =
      ap (λ outs. (play_sample fl p).1 ∷ outs) (play_all-append xs ys (play_sample fl p).0)

-- What a read of the queue leaves.
Read : Buffer → Option ℕ → List ℕ → Type 0
Read b o q = IsRing b × ((o, contents b) ≡ dequeue q)

-- What a symbol takes from the queue.
abbrev Takes : ℕ → Buffer × ℕ → List ℕ → Type 0
Takes n (b, s) q = IsRing b × (symbols (suc n) q ≡ s ∷ symbols n (contents b))

second-Takes :
    (x n : ℕ) (b : Buffer) (o : Option ℕ) (q : List ℕ)
    → Read b o q
    → Takes n (second_bit x (b, o)) (x ∷ q)
unfolding Read dequeue symbols
second-Takes x n b none [] r = (r.0, ap (λ l. 3 ∷ symbols n l) (sym (ap (λ p. p.1) r.1)))
second-Takes x n b none (y ∷ q) r = absurd (ground (arith, r.1))
second-Takes x n b (some y) [] r = absurd (ground (arith, r.1))
second-Takes x n b (some y) (z ∷ q) r =
    let same : y ≡ z = ground (arith, r.1) in
    (r.0, ap₂ (λ w l. u8 (bit_or (x << 1) w) ∷ symbols n l) (sym same) (sym (ap (λ p. p.1) r.1)))

first-Takes :
    (n : ℕ) (b : Buffer) (o : Option ℕ) (q : List ℕ) → Read b o q → Takes n (first_bit (b, o)) q
unfolding Read dequeue symbols
first-Takes n b none [] r = (r.0, ap (λ l. 3 ∷ symbols n l) (sym (ap (λ p. p.1) r.1)))
first-Takes n b none (y ∷ q) r = absurd (ground (arith, r.1))
first-Takes n b (some y) [] r = absurd (ground (arith, r.1))
first-Takes n b (some y) (z ∷ q) r =
    let same : y ≡ z = ground (arith, r.1) in
    let rest : contents b ≡ q = ap (λ p. p.1) r.1 in
    subst (Takes n (second_bit y (get_bits b))) (ap₂ ◌∷◌ same rest) (
      second-Takes y n (get_bits b).0 (get_bits b).1 (contents b)
        (get_bits-IsValid r.0, get_bits_refines r.0))

next_symbol-Takes : (b : Buffer) (n : ℕ) → IsRing b → Takes n (next_symbol b) (contents b)
unfolding next_symbol Read
next_symbol-Takes b n v =
    first-Takes n (get_bits b).0 (get_bits b).1 (contents b)
      (get_bits-IsValid v, get_bits_refines v)

module _ (fl : Floats) where
  -- When a symbol is due: of any number of symbols of 32 samples each, the callback plays the tones of
  -- the bits in the ring, two for each symbol, and of symbol 3 where there are not two.
  pub play_all-tones :
      {A : Type 0} (cs : List (List A)) (p : Player fl.F)
      → IsRing p.tx_rb
      → p.tx_sample_count ≡ samples_per_symbol
      → AllOf samples_per_symbol cs
      → (play_all fl (flatten cs) p).1
        ≡ flatten (tones fl p.mod_state (symbols (length cs) (contents p.tx_rb)))
  unfolding play_all tones symbols
  play_all-tones [] p v e n = refl
  play_all-tones (c ∷ cs) p v e n =
      let (b, s) = next_symbol p.tx_rb in
      let (state, outs) = tone fl samples_per_symbol p.mod_state s in
      let p' : Player fl.F = record {
        tx_rb = b;
        mod_state = state;
        tx_sample_count = samples_per_symbol;
        current_tx_symbol = s;
      } in
      let (v', more) = next_symbol-Takes p.tx_rb (length cs) v in
      play_all-append fl c (flatten cs) p
      ∙ ap (λ (q : Player fl.F × List fl.F). q.1 ++ (play_all fl (flatten cs) q.0).1)
          (play_symbol fl c p e n.0)
      ∙ ap (λ l. outs ++ l) (play_all-tones cs p' v' refl n.1)
      ∙ ap (λ ss. flatten (tones fl p.mod_state ss)) (sym more)

-- The input of a call.
abbrev pub sound_in : {F : Type 0} → List (Sample F) → List (ℕ × Option F)
sound_in [] = []
sound_in (x ∷ xs) = (x.0, some x.1) ∷ sound_in xs

module _ (fl : Floats) where
  hear_all_sound :
      (xs : List (Sample fl.F)) (d : Demod fl.F) → hear_all fl (sound_in xs) d ≡ audio_all fl d xs
  unfolding audio_all
  hear_all_sound [] d = refl
  hear_all_sound (x ∷ xs) d = hear_all_sound xs (audio_to_rb fl x.0 d x.1)

  sound_all :
      (xs : List (Sample fl.F)) (p : Player fl.F) → play_all fl (sound_in xs) p ≡ play_all fl xs p
  unfolding play_all
  sound_all [] p = refl
  sound_all (x ∷ xs) p =
      ap (λ (q : Player fl.F × List fl.F). (q.0, (play_sample fl p).1 ∷ q.1))
        (sound_all xs (play_sample fl p).0)

  pub pa_callback-played :
      (cs : List (List (Sample fl.F))) (a : Audio fl.F)
      → IsRing a.player.tx_rb
      → a.player.tx_sample_count ≡ samples_per_symbol
      → AllOf samples_per_symbol cs
      → (pa_callback fl (sound_in (flatten cs)) a).1
        ≡ flatten (tones fl a.player.mod_state (symbols (length cs) (contents a.player.tx_rb)))
  unfolding pa_callback
  pa_callback-played cs a v e n =
      ap (λ q. q.1) (frames_lem fl (sound_in (flatten cs)) (freeze a))
      ∙ ap (λ q. q.1) (sound_all (flatten cs) a.player)
      ∙ play_all-tones fl cs a.player v e n

  pub pa_callback-heard :
      (cs : List (List (Sample fl.F))) (a : Audio fl.F)
      → IsBetween fl a.demod
      → AllOf samples_per_symbol cs
      → (pa_callback fl (sound_in (flatten cs)) a).0.demod
        ≡ record a.demod { receiver = hear_symbols fl a.demod.freq_states a.demod.receiver cs }
  unfolding pa_callback
  pa_callback-heard cs a between n =
      ap (λ q. q.0.demod) (frames_lem fl (sound_in (flatten cs)) (freeze a))
      ∙ hear_all_sound (flatten cs) a.demod
      ∙ audio_all_lem fl cs a.demod between n

  -- A call of the callback for a number of symbols, where a symbol is due and the receiver is between two
  -- symbols: it plays the tones of the bits in the transmit ring, two for each symbol and symbol 3
  -- where there are not two, and the receiver gets the symbols that the filters hear.
  pub pa_callback_lem :
      (cs : List (List (Sample fl.F))) (a : Audio fl.F)
      → IsRing a.player.tx_rb
      → a.player.tx_sample_count ≡ samples_per_symbol
      → IsBetween fl a.demod
      → AllOf samples_per_symbol cs
      → let (a', out) = pa_callback fl (sound_in (flatten cs)) a in
        (out
          ≡ flatten (tones fl a.player.mod_state (symbols (length cs) (contents a.player.tx_rb))))
        × (a'.demod
            ≡ record a.demod { receiver = hear_symbols fl a.demod.freq_states a.demod.receiver cs })
  pa_callback_lem cs a v e between n =
      (pa_callback-played cs a v e n, pa_callback-heard cs a between n)

  length-tone : (n : ℕ) (o : StateFsk fl.F) (s : ℕ) → length (tone fl n o s).1 ≡ n
  unfolding tone
  length-tone zero o s = refl
  length-tone (suc n) o s = ap suc (length-tone n (generate_fsk fl o s).0 s)

  pub tones-AllOf :
      (o : StateFsk fl.F) (ss : List ℕ)
      → AllOf samples_per_symbol (tones fl o ss) × (length (tones fl o ss) ≡ length ss)
  unfolding tones
  tones-AllOf o [] = (tt, refl)
  tones-AllOf o (s ∷ ss) =
      let rest = tones-AllOf (tone fl samples_per_symbol o s).0 ss in
      ((length-tone samples_per_symbol o s, rest.0), ap suc rest.1)

pub length-symbols : (n : ℕ) (bits : List ℕ) → length (symbols n bits) ≡ n
unfolding symbols
length-symbols zero bits = refl
length-symbols (suc n) [] = ap suc (length-symbols n [])
length-symbols (suc n) (x ∷ []) = ap suc (length-symbols n [])
length-symbols (suc n) (x ∷ y ∷ bits) = ap suc (length-symbols n bits)
