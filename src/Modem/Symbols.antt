-- ===== src/Modem/Symbols.antt =====
-- `audio_to_rb` of src/echo_protocol.c over many samples: symbol by symbol.
use echo_protocol.Base.Floats.{Floats}
use echo_protocol.Base.{ℕ, ◌+◌, ◌≡◌, refl, sym, ap, ap₂, ◌∙◌, arith, ltb, true, false, u16}
use echo_protocol.Base.{List, [], ◌∷◌, ◌++◌, map, length}
use echo_protocol.Receiver.{Receiver}
use echo_protocol.Modem.{
  StateGoertzel, Demod, process_goertzel, reset_state, loudest, take_symbol, audio_to_rb,
  samples_per_symbol,
}

abbrev pub flatten : {A : Type 0} → List (List A) → List A
flatten [] = []
flatten (xs ∷ xss) = xs ++ flatten xss

-- Every list has this length.
abbrev pub AllOf : {A : Type 0} → ℕ → List (List A) → Type 0
AllOf n [] = Unit
AllOf n (xs ∷ xss) = (length xs ≡ n) × AllOf n xss

-- A sample with the time at which it comes, and the time of the last of a list.
abbrev pub Sample : Type 0 → Type 0
Sample F = ℕ × F

abbrev pub last_time : {F : Type 0} → List (Sample F) → ℕ
last_time [] = 0
last_time (x ∷ []) = x.0
last_time (x ∷ y ∷ xs) = last_time (y ∷ xs)

module _ (fl : Floats) where
  unfoldable pub audio_all : Demod fl.F → List (Sample fl.F) → Demod fl.F
  audio_all d [] = d
  audio_all d (x ∷ xs) = audio_all (audio_to_rb fl x.0 d x.1) xs

  -- The power that a filter has after some samples, of which `p` is it before them.
  unfoldable pub power : StateGoertzel fl.F → fl.F → List fl.F → fl.F
  power state p [] = p
  power state p (x ∷ xs) = power (process_goertzel fl state x).0 (process_goertzel fl state x).1 xs

  -- The symbol that the four filters hear.
  abbrev pub decide : (ℕ → StateGoertzel fl.F) → List fl.F → ℕ
  decide states xs = loudest fl (λ i. power (states i) (fl.lit 0 0) xs)

  -- The symbols that are heard go to the receiver, each at the time of its last sample.
  unfoldable pub hear_symbols :
      (ℕ → StateGoertzel fl.F) → Receiver → List (List (Sample fl.F)) → Receiver
  hear_symbols states r [] = r
  hear_symbols states r (c ∷ cs) =
      hear_symbols states
        (take_symbol fl (last_time c) r (decide states (map (λ (x : Sample fl.F). x.1) c))) cs

  -- Between two symbols: no sample is counted, and the filters are reset.
  pub record IsBetween (d : Demod fl.F) : Type 0 where
    pub count : d.rx_sample_count ≡ 0
    pub quiet : (λ (i : ℕ). reset_state fl (d.freq_states i)) ≡ d.freq_states

  audio_all-append :
      (d : Demod fl.F) (xs ys : List (Sample fl.F))
      → audio_all d (xs ++ ys) ≡ audio_all (audio_all d xs) ys
  unfolding audio_all
  audio_all-append d [] ys = refl
  audio_all-append d (x ∷ xs) ys = audio_all-append (audio_to_rb fl x.0 d x.1) xs ys

  -- The rest of a symbol.
  rest_of_symbol :
      (d : Demod fl.F) (p : ℕ → fl.F) (x : Sample fl.F) (xs : List (Sample fl.F))
      → d.rx_sample_count + length (x ∷ xs) ≡ samples_per_symbol
      → audio_all d (x ∷ xs) ≡ record d {
        freq_states = λ i. reset_state fl (d.freq_states i);
        rx_sample_count = 0;
        receiver = take_symbol fl (last_time (x ∷ xs)) d.receiver (
            loudest fl
              (λ i. power (d.freq_states i) (p i) (map (λ (x : Sample fl.F). x.1) (x ∷ xs))));
      }
  unfolding audio_all audio_to_rb power reset_state process_goertzel
  rest_of_symbol d p x [] e =
      let full : ltb (u16 (d.rx_sample_count + 1)) samples_per_symbol ≡ false = ground (arith, e) in
      rw full refl
  rest_of_symbol d p x (y ∷ ys) e =
      let more : ltb (u16 (d.rx_sample_count + 1)) samples_per_symbol ≡ true = ground (arith, e) in
      rw more (
        rest_of_symbol
          (record d {
            freq_states = λ i. (process_goertzel fl (d.freq_states i) x.1).0;
            rx_sample_count = u16 (d.rx_sample_count + 1);
          })
          (λ i. (process_goertzel fl (d.freq_states i) x.1).1) y ys (omega (arith, e)))

  -- A whole symbol.
  one_symbol :
      (d : Demod fl.F) (c : List (Sample fl.F))
      → IsBetween d
      → length c ≡ samples_per_symbol
      → audio_all d c ≡ record d {
        receiver =
            take_symbol fl
              (last_time c)
              d.receiver
              (decide d.freq_states (map (λ (x : Sample fl.F). x.1) c));
      }
  one_symbol d [] v e = absurd (omega (arith, e))
  one_symbol d (x ∷ xs) v e =
      rest_of_symbol d (λ i. fl.lit 0 0) x xs (omega (arith, v.count, e))
      ∙ ap₂
          (λ states n. record {
            freq_states = states;
            rx_sample_count = n;
            receiver =
                take_symbol fl (last_time (x ∷ xs)) d.receiver
                  (decide d.freq_states (map (λ (x : Sample fl.F). x.1) (x ∷ xs)));
          })
          v.quiet (sym v.count)

  -- Between two symbols, any number of symbols of 32 samples each: the receiver gets of each the two bits
  -- of the filter that has the greatest power over its samples, at the time of its last sample, and the
  -- filters and the count are as they were.
  pub audio_all_lem :
      (cs : List (List (Sample fl.F))) (d : Demod fl.F)
      → IsBetween d
      → AllOf samples_per_symbol cs
      → audio_all d (flatten cs) ≡ record d { receiver = hear_symbols d.freq_states d.receiver cs }
  unfolding audio_all hear_symbols
  audio_all_lem [] d v e = refl
  audio_all_lem (c ∷ cs) d v e =
      let r =
        take_symbol fl (last_time c) d.receiver
          (decide d.freq_states (map (λ (x : Sample fl.F). x.1) c)) in
      audio_all-append d c (flatten cs)
      ∙ ap (λ d'. audio_all d' (flatten cs)) (one_symbol d c v e.0)
      ∙ audio_all_lem cs (record d { receiver = r }) (record { count = v.count; quiet = v.quiet })
          e.1
