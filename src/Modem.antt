-- ===== src/Modem.antt =====
-- The signals: the generators of src/mod_fsk.c and src/mod_afsk.c, the Goertzel filter of
-- src/demod_afsk.c, and `audio_to_rb` of src/echo_protocol.c, which makes bits of samples. A `float` is
-- a value of any type with the operations of Base/Floats. An array of four is a function of the index.
pub mod Symbols
mod Tests
use echo_protocol.Base.Floats.{Floats}
use echo_protocol.Base.{ℕ, ◌+◌, ◌*◌, ◌/◌, ◌%◌, Bool, if◌then◌else◌, ltb, ◌==◌, bit_and, u16, ◌>>◌}
use echo_protocol.Receiver.{Receiver, process_rx_bit}

abbrev pub sample_rate : ℕ
sample_rate = 48000

abbrev pub symbol_rate : ℕ
symbol_rate = 1500

abbrev pub samples_per_symbol : ℕ
samples_per_symbol = sample_rate / symbol_rate

-- FREQ_00 to FREQ_11
abbrev pub freqs : ℕ → ℕ
freqs i = 2000 + 1000 * i

-- FREQ_SPACE and FREQ_MARK
abbrev pub freq_space : ℕ
freq_space = 2400

abbrev pub freq_mark : ℕ
freq_mark = 4800

-- `StateFSK`
pub record StateFsk (F : Type 0) : Type 0 where
  pub step_cos : ℕ → F
  pub step_sin : ℕ → F
  pub current_cos : F
  pub current_sin : F
  pub sample_count : ℕ

-- `StateAFSK`
pub record StateAfsk (F : Type 0) : Type 0 where
  pub step_cos_space : F
  pub step_cos_mark : F
  pub step_sin_space : F
  pub step_sin_mark : F
  pub current_sin : F
  pub current_cos : F
  pub sample_count : ℕ

-- `StateGoertzel`
pub record StateGoertzel (F : Type 0) : Type 0 where
  pub n : ℕ
  pub k : F
  pub omega : F
  pub coeff : F
  pub q1 : F
  pub q2 : F

-- What `audio_to_rb` uses of `EchoProtocol`.
pub record Demod (F : Type 0) : Type 0 where
  pub freq_states : ℕ → StateGoertzel F
  pub rx_sample_count : ℕ
  pub receiver : Receiver

module _ (fl : Floats) where
  unfoldable pub pre_calc_fsk : StateFsk fl.F
  pre_calc_fsk =
      let f = λ (i : ℕ).
        fl.div (fl.mul (fl.mul (fl.lit 2 0) (fl.narrow fl.pi)) (fl.of_nat (freqs i)))
          (fl.of_nat sample_rate) in
      record {
        step_cos = λ i. fl.cosf (f i);
        step_sin = λ i. fl.sinf (f i);
        current_cos = fl.lit 1 0;
        current_sin = fl.lit 0 0;
        sample_count = 0;
      }

  -- The oscillator one sample further: the state, and the sample.
  unfoldable pub generate_fsk : StateFsk fl.F → ℕ → StateFsk fl.F × fl.F
  generate_fsk state symbol =
      let idx = bit_and symbol 3 in
      let step_cos = state.step_cos idx in
      let step_sin = state.step_sin idx in
      let next_cos =
        fl.sub (fl.mul state.current_cos step_cos) (fl.mul state.current_sin step_sin) in
      let next_sin =
        fl.add (fl.mul state.current_sin step_cos) (fl.mul state.current_cos step_sin) in
      (
        record state { current_cos = next_cos; current_sin = next_sin },
        fl.mul next_sin (fl.lit 5 1),
      )

  -- The two angles are computed in `double` and rounded before the division.
  unfoldable pub pre_calc_afsk : StateAfsk fl.F
  pre_calc_afsk =
      let angle = λ (freq : ℕ).
        fl.div (fl.narrow (fl.mul_d (fl.mul_d (fl.nat_d 2) fl.pi) (fl.nat_d freq)))
          (fl.of_nat sample_rate) in
      record {
        step_cos_space = fl.cosf (angle freq_space);
        step_cos_mark = fl.cosf (angle freq_mark);
        step_sin_space = fl.sinf (angle freq_space);
        step_sin_mark = fl.sinf (angle freq_mark);
        current_sin = fl.lit 0 0;
        current_cos = fl.lit 1 0;
        sample_count = 0;
      }

  unfoldable pub generate_afsk : StateAfsk fl.F → ℕ → StateAfsk fl.F × fl.F
  generate_afsk state bit =
      let step_cos = if bit == 1 then state.step_cos_mark else state.step_cos_space in
      let step_sin = if bit == 1 then state.step_sin_mark else state.step_sin_space in
      let next_cos =
        fl.sub (fl.mul state.current_cos step_cos) (fl.mul state.current_sin step_sin) in
      let next_sin =
        fl.add (fl.mul state.current_sin step_cos) (fl.mul state.current_cos step_sin) in
      (
        record state { current_cos = next_cos; current_sin = next_sin },
        fl.mul next_sin (fl.lit 5 1),
      )

  -- `omega` is computed in `double`.
  unfoldable pub pre_calc_goertzel : ℕ → StateGoertzel fl.F
  pre_calc_goertzel freq =
      let n = samples_per_symbol in
      let k = fl.div (fl.mul (fl.of_nat n) (fl.of_nat freq)) (fl.of_nat sample_rate) in
      let omega =
        fl.narrow (fl.div_d (fl.mul_d (fl.mul_d (fl.nat_d 2) fl.pi) (fl.widen k)) (fl.nat_d n)) in
      record {
        n = n;
        k = k;
        omega = omega;
        coeff = fl.mul (fl.lit 2 0) (fl.cosf omega);
        q1 = fl.lit 0 0;
        q2 = fl.lit 0 0;
      }

  -- The filter one sample further, and the power that it returns.
  unfoldable pub process_goertzel : StateGoertzel fl.F → fl.F → StateGoertzel fl.F × fl.F
  process_goertzel state sample =
      let q0 = fl.sub (fl.add sample (fl.mul state.coeff state.q1)) state.q2 in
      let q1 = q0 in
      let q2 = state.q1 in
      (
        record state { q1 = q1; q2 = q2 },
        fl.sub (fl.add (fl.mul q1 q1) (fl.mul q2 q2)) (fl.mul (fl.mul q1 q2) state.coeff),
      )

  unfoldable pub reset_state : StateGoertzel fl.F → StateGoertzel fl.F
  reset_state state = record state { q1 = fl.lit 0 0; q2 = fl.lit 0 0 }

  -- The index of the greatest of the four, the first of equal ones.
  unfoldable pub loudest : (ℕ → fl.F) → ℕ
  loudest mag =
      let at_1 : ℕ = if fl.lt (mag 0) (mag 1) then 1 else 0 in
      let at_2 = if fl.lt (mag at_1) (mag 2) then 2 else at_1 in
      if fl.lt (mag at_2) (mag 3) then 3 else at_2

  -- The two bits of a symbol go to the receiver.
  unfoldable pub take_symbol : ℕ → Receiver → ℕ → Receiver
  take_symbol now r max_idx =
      process_rx_bit now (process_rx_bit now r (bit_and (max_idx >> 1) 1)) (bit_and max_idx 1)

  -- `now` is what `time` gives to `process_rx_bit`.
  unfoldable pub audio_to_rb : ℕ → Demod fl.F → fl.F → Demod fl.F
  audio_to_rb now d sample =
      let heard = λ (i : ℕ). process_goertzel (d.freq_states i) sample in
      let count = u16 (d.rx_sample_count + 1) in
      let d' = record d { freq_states = λ i. (heard i).0; rx_sample_count = count } in
      if ltb count samples_per_symbol then d' else record d' {
        freq_states = λ i. reset_state (d'.freq_states i);
        rx_sample_count = 0;
        receiver = take_symbol now d.receiver (loudest (λ i. (heard i).1));
      }
