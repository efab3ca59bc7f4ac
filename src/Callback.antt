-- ===== src/Callback.antt =====
-- The audio callback of src/audio_io.c. For each sample that comes it runs the receiver, and for each
-- that goes out the oscillator, whose symbol it takes from the transmit ring every 32 samples. The
-- ring is as the callback finds it: what the other thread puts meanwhile comes in the next call.
pub mod Played
pub mod Air
pub mod Toy
mod Tests
use echo_protocol.Base.Floats.{Floats}
use echo_protocol.Base.{
  ℕ, ◌+◌, ◌-◌, ◌^◌, Bool, true, false, if◌then◌else◌, ltb, leb, ◌||◌, bit_and, bit_or, u8, u16,
  ◌<<◌,
}
use echo_protocol.Base.{List, [], ◌∷◌, Option, none, some}
use echo_protocol.Ring.{Buffer, buffer_mask, get_bits}
use echo_protocol.Modem.{StateFsk, Demod, generate_fsk, audio_to_rb, samples_per_symbol}

-- What the sending half uses: the transmit ring, the oscillator, `tx_sample_count` and
-- `current_tx_symbol`.
pub record Player (F : Type 0) : Type 0 where
  pub tx_rb : Buffer
  pub mod_state : StateFsk F
  pub tx_sample_count : ℕ
  pub current_tx_symbol : ℕ

pub record Audio (F : Type 0) : Type 0 where
  pub player : Player F
  pub demod : Demod F
  pub tx_active_frames : ℕ
  pub agc_freeze : ℕ

-- `get_bits(&bits[0]) && get_bits(&bits[1])`: what the ring is after that, and the symbol. The first bit
-- is gone also where there is no second one.
abbrev pub second_bit : ℕ → Buffer × Option ℕ → Buffer × ℕ
second_bit x (b, none) = (b, 3)
second_bit x (b, some y) = (b, u8 (bit_or (x << 1) y))

abbrev pub first_bit : Buffer × Option ℕ → Buffer × ℕ
first_bit (b, none) = (b, 3)
first_bit (b, some x) = second_bit x (get_bits b)

unfoldable pub next_symbol : Buffer → Buffer × ℕ
next_symbol b = first_bit (get_bits b)

-- `(head - tail) & BUFFER_MASK`, where the difference wraps around.
abbrev pub used_bytes : Buffer → ℕ
used_bytes b = u16 (bit_and (b.head + (2 ^ 64 - b.tail)) buffer_mask)

module _ (fl : Floats) where
  -- A new symbol, when the one before has had its samples.
  unfoldable pub fetch : Player fl.F → Player fl.F
  fetch p =
      if leb samples_per_symbol p.tx_sample_count
      then record p {
        tx_rb = (next_symbol p.tx_rb).0;
        current_tx_symbol = (next_symbol p.tx_rb).1;
        tx_sample_count = 0;
      }
      else p

  -- `out[i]`
  unfoldable pub play_sample : Player fl.F → Player fl.F × fl.F
  play_sample p =
      let p' = fetch p in
      let (state, out) = generate_fsk fl p'.mod_state p'.current_tx_symbol in
      (record p' { mod_state = state; tx_sample_count = u16 (p'.tx_sample_count + 1) }, out)

  -- The sample that comes, `none` where there is no input buffer, with the time of `process_rx_bit`.
  abbrev pub hear_sample : ℕ × Option fl.F → Demod fl.F → Demod fl.F
  hear_sample (now, none) d = d
  hear_sample (now, some x) d = audio_to_rb fl now d x

  -- The loop of the callback.
  unfoldable pub frames : List (ℕ × Option fl.F) → Audio fl.F → Audio fl.F × List fl.F
  frames [] a = (a, [])
  frames (x ∷ xs) a =
      let (p, out) = play_sample a.player in
      let (a', outs) = frames xs (record a { player = p; demod = hear_sample x a.demod }) in
      (a', out ∷ outs)

-- `agc_freeze`: while there are bytes to send, and for some calls after that.
abbrev pub freeze : {F : Type 0} → Audio F → Audio F
freeze a =
    let tx_active = ltb 0 (used_bytes a.player.tx_rb) in
    let n = if tx_active then 3 else a.tx_active_frames - 1 in
    record a { tx_active_frames = n; agc_freeze = if tx_active || ltb 0 n then 1 else 0 }

-- The flags of PortAudio are looked at and change nothing.
unfoldable pub pa_callback :
    (fl : Floats) → List (ℕ × Option fl.F) → Audio fl.F → Audio fl.F × List fl.F
pa_callback fl input a = frames fl input (freeze a)
