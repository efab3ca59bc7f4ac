-- ===== src/Agc.antt =====
-- The gain control of src/agc.c and include/agc.h. A C `float` is a value of an arbitrary type, with its
-- operations and those of libm as an argument; a time or a count is a number, and a difference of two
-- times is compared by moving the second to the other side. `calib_secs_elapsed`, which stores such a
-- difference, is an `int`: it is kept as its 32 bits. The log is left out.
pub mod Calibrate
pub mod Steady
pub mod Kept
pub mod Track
pub mod Lock
pub mod Tune
pub mod Runs
mod Tests
use echo_protocol.Base.Floats.{Floats}
use echo_protocol.Base.{
  ℕ, ◌+◌, ◌-◌, ◌*◌, ◌%◌, ◌^◌, Bool, true, false, if◌then◌else◌, ltb, leb, ◌==◌, not, ◌&&◌, ◌||◌,
}

-- `AGCPhase`
pub data AgcPhase : Type 0 where
  agc_calibrating : AgcPhase
  agc_steady_on : AgcPhase
  agc_locked : AgcPhase

-- `AGCState`, less `last_tx_packets`, which nothing uses.
pub record AgcState (F : Type 0) : Type 0 where
  pub last_rx_sync : ℕ
  pub last_rx_packets : ℕ
  pub last_rx_corrupted : ℕ
  pub tx_gain_db_min : F
  pub tx_gain_db_max : F
  pub rx_gain_db_min : F
  pub rx_gain_db_max : F
  pub rms_min : F
  pub rms_max : F
  pub target_db : F
  pub loop_bw : F
  pub alpha : F
  pub echo_sync_thresh : ℕ
  pub settle_secs : ℕ
  pub last_adjust : ℕ
  pub echo_streak : ℕ
  pub power_avg : F
  pub enabled : ℕ
  pub phase : AgcPhase
  pub calib_secs_elapsed : ℕ
  pub calib_tx_gain_step : ℕ
  pub calib_rx_gain_step : ℕ
  pub best_rms : F
  pub best_tx_gain : F
  pub best_rx_gain : F
  pub calib_done : ℕ
  pub calib_start_time : ℕ
  pub lock_good_streak : ℕ
  pub lock_threshold : ℕ
  pub locked : ℕ
  pub locked_tx_gain_db : F
  pub locked_rx_gain_db : F
  pub unlock_corrupt_thresh : ℕ
  pub unlock_rssi_drop_db : ℕ
  pub last_unlock_time : ℕ
  pub unlock_cooldown_secs : ℕ

-- What of `AudioState` the gain control uses.
pub record AudioState (F : Type 0) : Type 0 where
  pub tx_gain : F
  pub rx_gain : F
  pub in_rms : F
  pub agc_freeze : ℕ

-- What of `ProtocolStats` it uses.
pub record LinkStats : Type 0 where
  pub rx_sync_found : ℕ
  pub rx_packets : ℕ
  pub rx_corrupted : ℕ

-- The two objects that the functions change.
pub record Control (F : Type 0) : Type 0 where
  pub agc : AgcState F
  pub audio : AudioState F

-- The differences of a window: `uint64_t`, so that they wrap around.
pub record Window : Type 0 where
  pub d_sync : ℕ
  pub d_pkts : ℕ
  pub d_corrupt : ℕ

abbrev pub minus64 : ℕ → ℕ → ℕ
minus64 a b = (a + (2 ^ 64 - b)) % 2 ^ 64

-- `(int)(now - start)`: the 32 bits of the `int`, which is below 0 where the highest of them is set.
abbrev pub seconds_since : ℕ → ℕ → ℕ
seconds_since start now = (now + (2 ^ 64 - start)) % 2 ^ 32

abbrev pub is_negative : ℕ → Bool
is_negative x = leb (2 ^ 31) x

-- `x >= n` and `x < n` of such an `int` and a number that is not below 0.
abbrev pub int_at_least : ℕ → ℕ → Bool
int_at_least n x = not (is_negative x) && leb n x

abbrev pub int_below : ℕ → ℕ → Bool
int_below n x = is_negative x || ltb x n

module _ (fl : Floats) where
  unfoldable pub db_to_linear : fl.F → fl.F
  db_to_linear db = fl.powf (fl.lit 10 0) (fl.div db (fl.lit 20 0))

  unfoldable pub linear_to_db : fl.F → fl.F
  linear_to_db linear =
      if fl.le linear (fl.lit 0 0)
      then fl.neg (fl.lit 120 0)
      else fl.mul (fl.lit 20 0) (fl.log10f linear)

  -- `memset` to zero, and the assignments. `switched_off` says that ECHO_AGC is "0".
  unfoldable pub agc_init : Bool → AgcState fl.F
  agc_init switched_off =
      let zero_f = fl.lit 0 0 in
      record {
        last_rx_sync = 0;
        last_rx_packets = 0;
        last_rx_corrupted = 0;
        tx_gain_db_min = fl.neg (fl.lit 20 0);
        tx_gain_db_max = fl.lit 10 0;
        rx_gain_db_min = zero_f;
        rx_gain_db_max = fl.lit 24 0;
        rms_min = fl.lit 5 2;
        rms_max = fl.lit 7 1;
        target_db = fl.neg (fl.lit 20 0);
        loop_bw = fl.lit 1 3;
        alpha = fl.lit 1 1;
        echo_sync_thresh = 3;
        settle_secs = 5;
        last_adjust = 0;
        echo_streak = 0;
        power_avg = zero_f;
        enabled = if switched_off then 0 else 1;
        phase = agc_calibrating;
        calib_secs_elapsed = 0;
        calib_tx_gain_step = 0;
        calib_rx_gain_step = 0;
        best_rms = zero_f;
        best_tx_gain = fl.lit 1 0;
        best_rx_gain = fl.lit 1 0;
        calib_done = 0;
        calib_start_time = 0;
        lock_good_streak = 0;
        lock_threshold = 20;
        locked = 0;
        locked_tx_gain_db = zero_f;
        locked_rx_gain_db = zero_f;
        unlock_corrupt_thresh = 5;
        unlock_rssi_drop_db = 6;
        last_unlock_time = 0;
        unlock_cooldown_secs = 30;
      }

  -- `agc_set_initial_gains`, and `agc_apply_gains`, which does the same.
  abbrev pub agc_apply_gains : AudioState fl.F → fl.F → fl.F → AudioState fl.F
  agc_apply_gains audio tx_gain rx_gain = record audio { tx_gain = tx_gain; rx_gain = rx_gain }

  unfoldable pub agc_clamp : fl.F → fl.F → fl.F → fl.F
  agc_clamp v low high = if fl.lt v low then low else (if fl.lt high v then high else v)

  -- A gain lowered by a step in dB, and not below the limit; a gain raised, and not above it.
  unfoldable pub step_down : fl.F → fl.F → fl.F → fl.F
  step_down gain step limit =
      let db = fl.sub (linear_to_db gain) step in
      db_to_linear (if fl.lt db limit then limit else db)

  unfoldable pub step_up : fl.F → fl.F → fl.F → fl.F
  step_up gain step limit =
      let db = fl.add (linear_to_db gain) step in
      db_to_linear (if fl.lt limit db then limit else db)

  -- The moving average of the power.
  abbrev pub averaged : AgcState fl.F → fl.F → fl.F
  averaged agc rms =
      let power = fl.mul rms rms in
      if fl.eq agc.power_avg (fl.lit 0 0)
      then power
      else fl.add (fl.mul (fl.sub (fl.lit 1 0) agc.alpha) agc.power_avg) (fl.mul agc.alpha power)

  -- What has come since the last window.
  abbrev pub window : LinkStats → AgcState fl.F → Window
  window stats agc = record {
    d_sync = minus64 stats.rx_sync_found agc.last_rx_sync;
    d_pkts = minus64 stats.rx_packets agc.last_rx_packets;
    d_corrupt = minus64 stats.rx_corrupted agc.last_rx_corrupted;
  }

  -- The window is closed.
  abbrev pub counted_until : LinkStats → AgcState fl.F → AgcState fl.F
  counted_until stats agc = record agc {
    last_rx_sync = stats.rx_sync_found;
    last_rx_packets = stats.rx_packets;
    last_rx_corrupted = stats.rx_corrupted;
  }

  abbrev pub adjusted : ℕ → AgcState fl.F → AgcState fl.F
  adjusted now agc = record agc { last_adjust = now }

  -- `agc_apply_gains`, `last_adjust = now` and the return.
  abbrev pub set_rx : ℕ → fl.F → Control fl.F → Control fl.F
  set_rx now gain c = record {
    agc = adjusted now c.agc;
    audio = agc_apply_gains c.audio c.audio.tx_gain gain;
  }

  abbrev pub set_tx : ℕ → fl.F → Control fl.F → Control fl.F
  set_tx now gain c = record {
    agc = adjusted now c.agc;
    audio = agc_apply_gains c.audio gain c.audio.rx_gain;
  }
