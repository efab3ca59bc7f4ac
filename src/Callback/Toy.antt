-- ===== src/Callback/Toy.antt =====
-- An arithmetic in which the filters hear every symbol, which shows that `IsClear` can hold. A sample
-- of the symbol `s` is `s + 1`, the coefficient of the filter `i` is `10 + i`, and a filter holds 20 once
-- it has heard its own symbol, and 21 once it has heard another.
use echo_protocol.Base.Floats.{Floats}
use echo_protocol.Base.{
  ℕ, zero, suc, ◌+◌, ◌<◌, ◌≡◌, refl, ap, ap₂, ◌∙◌, arith, if◌then◌else◌, ltb, leb, ◌==◌, ◌&&◌, ◌||◌,
}
use echo_protocol.Base.{◌∷◌, replicate}
use echo_protocol.Modem.{
  StateFsk, StateGoertzel, generate_fsk, process_goertzel, loudest, samples_per_symbol,
}
use echo_protocol.Modem.Symbols.{decide, power}
use echo_protocol.Callback.Played.{tone}
use echo_protocol.Callback.Air.{IsClear}

abbrev toy_mul : ℕ → ℕ → ℕ
toy_mul a b = if (b == 0) || leb 20 b then a else b

abbrev toy_add : ℕ → ℕ → ℕ
toy_add a b =
    if b == 0 then a else (if ltb b 10 || leb 20 b then b else (if a + 9 == b then 20 else 21))

abbrev pub toy : Floats
toy = record {
  F = ℕ;
  lit = λ n k. 0;
  of_nat = λ n. n;
  neg = λ a. a;
  add = toy_add;
  sub = λ a b. a;
  mul = toy_mul;
  div = λ a b. a;
  lt = λ a b. (a == 21) && (b == 20);
  le = leb;
  eq = ◌==◌;
  powf = λ a b. a;
  log10f = λ a. a;
  fabsf = λ a. a;
  cosf = λ a. 0;
  sinf = λ a. a;
  D = ℕ;
  pi = 3;
  widen = λ a. a;
  narrow = λ a. a;
  mul_d = λ a b. a;
  div_d = λ a b. a;
  nat_d = λ n. n;
}

abbrev pub toy_filters : ℕ → StateGoertzel ℕ
toy_filters i = record { n = 32; k = 0; omega = 0; coeff = 10 + i; q1 = 0; q2 = 0 }

abbrev pub toy_oscillator : StateFsk ℕ
toy_oscillator = record {
  step_cos = λ i. 0;
  step_sin = λ i. i + 1;
  current_cos = 7;
  current_sin = 0;
  sample_count = 0;
}

abbrev pub IsToy : StateFsk ℕ → Type 0
IsToy o = o.step_sin ≡ (λ i. i + 1)

toy_sample : (o : StateFsk ℕ) (s : ℕ) → s < 4 → IsToy o → (generate_fsk toy o s).1 ≡ s + 1
unfolding generate_fsk
toy_sample o zero h p = rw p refl
toy_sample o (suc zero) h p = rw p refl
toy_sample o (suc (suc zero)) h p = rw p refl
toy_sample o (suc (suc (suc zero))) h p = rw p refl
toy_sample o (suc (suc (suc (suc s)))) h p = absurd (omega arith)

pub toy-tone :
    (n : ℕ) (o : StateFsk ℕ) (s : ℕ)
    → s < 4
    → IsToy o
    → ((tone toy n o s).1 ≡ replicate n (s + 1)) × IsToy (tone toy n o s).0
unfolding tone generate_fsk
toy-tone zero o s h p = (refl, p)
toy-tone (suc n) o s h p =
    let rest = toy-tone n (generate_fsk toy o s).0 s h p in
    (ap₂ ◌∷◌ (toy_sample o s h p) rest.0, rest.1)

pub toy_heard : (s : ℕ) → s < 4 → decide toy toy_filters (replicate 32 (s + 1)) ≡ s
unfolding loudest power process_goertzel
toy_heard zero h = refl
toy_heard (suc zero) h = refl
toy_heard (suc (suc zero)) h = refl
toy_heard (suc (suc (suc zero))) h = refl
toy_heard (suc (suc (suc (suc s)))) h = absurd (omega arith)

abbrev pub toy-IsClear : IsClear toy toy_filters
toy-IsClear = record {
  Phase = IsToy;
  kept = λ o s h p. (toy-tone samples_per_symbol o s h p).1;
  heard = λ o s h p.
      ap (decide toy toy_filters) (toy-tone samples_per_symbol o s h p).0 ∙ toy_heard s h;
}
