-- ===== src/Agc/Steady.antt =====
-- `agc_steady` of src/agc.c, in the same way, and `agc_tune`.
use echo_protocol.Base.{
  ℕ, ◌+◌, ◌-◌, Bool, true, false, if◌then◌else◌, ltb, leb, ◌==◌, ◌&&◌, ◌||◌, not,
}
use echo_protocol.Base.Floats.{Floats}
use echo_protocol.Agc.{
  AgcPhase, agc_calibrating, agc_steady_on, agc_locked, AgcState, LinkStats, Control, Window,
  db_to_linear, linear_to_db, agc_clamp, step_down, step_up, averaged, window, counted_until,
  adjusted, set_rx, set_tx, seconds_since, int_at_least,
}
use echo_protocol.Agc.Calibrate.{agc_calibrate}

module _ (fl : Floats) (now : ℕ) (d : Window) where
  -- Silence of the peer.
  unfoldable pub steady_silence : Control fl.F → Control fl.F
  steady_silence c =
      let agc = c.agc in
      let audio = c.audio in
      if (d.d_sync == 0) && ((d.d_pkts == 0) && fl.lt audio.in_rms agc.rms_min)
      then (if fl.lt audio.rx_gain (db_to_linear fl agc.rx_gain_db_max)
          then set_rx fl now (step_up fl audio.rx_gain (fl.lit 3 0) agc.rx_gain_db_max) c
          else (if fl.lt audio.tx_gain (db_to_linear fl agc.tx_gain_db_max)
              then set_tx fl now (step_up fl audio.tx_gain (fl.lit 15 1) agc.tx_gain_db_max) c
              else record c { agc = adjusted fl now agc }))
      else record c { agc = adjusted fl now agc }

  -- The loop in dB: `error_db` is measured before.
  unfoldable pub steady_loop : fl.F → Control fl.F → Control fl.F
  steady_loop error_db c =
      let agc = c.agc in
      let gain_db_step = fl.mul (fl.mul (fl.lit 4 0) agc.loop_bw) error_db in
      let new_rx = db_to_linear fl (
        agc_clamp fl (fl.add (linear_to_db fl c.audio.rx_gain) gain_db_step) agc.rx_gain_db_min
          agc.rx_gain_db_max) in
      if fl.lt (fl.lit 1 0) (fl.fabsf error_db) && not (fl.eq new_rx c.audio.rx_gain)
      then set_rx fl now new_rx c
      else steady_silence c

  unfoldable pub steady_clip : fl.F → Control fl.F → Control fl.F
  steady_clip error_db c =
      let agc = c.agc in
      let audio = c.audio in
      if fl.lt agc.rms_max audio.in_rms && fl.lt (db_to_linear fl agc.rx_gain_db_min) audio.rx_gain
      then set_rx fl now (step_down fl audio.rx_gain (fl.lit 3 0) agc.rx_gain_db_min) c
      else steady_loop error_db c

  -- `echo_streak` after the window.
  abbrev pub streak_after : AgcState fl.F → ℕ
  streak_after agc =
      if ltb 0 d.d_pkts
      then 0
      else (if ltb 0 d.d_sync && leb d.d_sync d.d_corrupt
          then agc.echo_streak + 1
          else agc.echo_streak)

  unfoldable pub steady_echo : fl.F → Control fl.F → Control fl.F
  steady_echo error_db c =
      let audio = c.audio in
      let streak = streak_after c.agc in
      let agc = record c.agc { echo_streak = 0 } in
      if leb agc.echo_sync_thresh streak
      then (if fl.lt (db_to_linear fl agc.tx_gain_db_min) audio.tx_gain
          then set_tx fl now (step_down fl audio.tx_gain (fl.lit 3 0) agc.tx_gain_db_min)
              (record c { agc = agc })
          else (if fl.lt audio.in_rms agc.rms_min
                && fl.lt audio.rx_gain (db_to_linear fl agc.rx_gain_db_max)
              then set_rx fl now (step_up fl audio.rx_gain (fl.lit 3 0) agc.rx_gain_db_max)
                  (record c { agc = agc })
              else steady_clip error_db (record c { agc = agc })))
      else steady_clip error_db (record c { agc = record c.agc { echo_streak = streak } })

  -- The gains are locked.
  abbrev pub lock : Control fl.F → Control fl.F
  lock c = record c {
    agc = record c.agc {
      locked = 1;
      locked_tx_gain_db = linear_to_db fl c.audio.tx_gain;
      locked_rx_gain_db = linear_to_db fl c.audio.rx_gain;
      best_rms = c.audio.in_rms;
      phase = agc_locked;
      lock_good_streak = 0;
      last_adjust = now;
    };
  }

  abbrev pub is_cooling : AgcState fl.F → Bool
  is_cooling agc =
      ltb 0 agc.last_unlock_time && ltb now (agc.last_unlock_time + agc.unlock_cooldown_secs)

  -- Good packets are counted, and enough of them lock the gains.
  unfoldable pub steady_track : fl.F → Control fl.F → Control fl.F
  steady_track error_db c =
      let agc = c.agc in
      let good_this_window = if ltb d.d_corrupt d.d_pkts then d.d_pkts - d.d_corrupt else 0 in
      let more = record agc { lock_good_streak = agc.lock_good_streak + good_this_window } in
      if ltb 0 good_this_window && (d.d_corrupt == 0)
      then (if leb agc.lock_threshold more.lock_good_streak
            && (agc.locked == 0)
            && not (is_cooling agc)
          then lock (record c { agc = more })
          else steady_echo error_db (record c { agc = more }))
      else (if ltb 0 d.d_corrupt
          then steady_echo error_db (record c { agc = record agc { lock_good_streak = 0 } })
          else steady_echo error_db c)

  -- The conditions that unlock the gains.
  unfoldable pub is_unlocking : Control fl.F → Bool
  is_unlocking c =
      let rssi = λ (rms : fl.F). fl.mul (fl.lit 20 0) (fl.log10f (fl.add rms (fl.lit 1 12))) in
      leb c.agc.unlock_corrupt_thresh d.d_corrupt
      || (fl.le (fl.of_nat c.agc.unlock_rssi_drop_db)
            (fl.sub (rssi c.agc.best_rms) (rssi c.audio.in_rms))
          || (((d.d_sync == 0) && (d.d_pkts == 0))
              || (ltb 10 d.d_pkts
                  && fl.lt (fl.lit 20 2) (fl.div (fl.of_nat d.d_corrupt) (fl.of_nat d.d_pkts)))))

  -- From the lock on.
  unfoldable pub steady_locked : fl.F → Control fl.F → Control fl.F
  steady_locked error_db c =
      let agc = c.agc in
      if agc.locked == 0
      then steady_track error_db c
      else (if is_unlocking c
          then steady_track error_db (record c {
            agc = record agc {
              locked = 0;
              lock_good_streak = 0;
              phase = agc_steady_on;
              settle_secs = 5;
              last_unlock_time = now;
            };
          })
          else record c { agc = record agc { last_adjust = now; lock_good_streak = 0 } })

module _ (fl : Floats) where
  -- `error_db`, from the average of the power.
  abbrev pub error_of : AgcState fl.F → fl.F
  error_of agc =
      fl.sub agc.target_db (fl.mul (fl.lit 10 0) (fl.log10f (fl.add agc.power_avg (fl.lit 1 12))))

  unfoldable pub agc_steady : ℕ → LinkStats → Control fl.F → Control fl.F
  agc_steady now stats c =
      let agc = record c.agc { power_avg = averaged fl c.agc c.audio.in_rms } in
      if ltb now (c.agc.last_adjust + c.agc.settle_secs)
      then c
      else steady_locked fl now (window fl stats c.agc) (error_of agc)
          (record c { agc = counted_until fl stats agc })

  -- `agc->phase == AGC_CALIBRATING`
  abbrev pub is_calibrating : AgcPhase → Bool
  is_calibrating agc_calibrating = true
  is_calibrating agc_steady_on = false
  is_calibrating agc_locked = false

  -- The start and the length of the calibration, and its end.
  unfoldable pub calib_clock : ℕ → AgcState fl.F → AgcState fl.F
  calib_clock now agc =
      let start = if agc.calib_start_time == 0 then now else agc.calib_start_time in
      let timed = record agc {
        calib_start_time = start;
        calib_secs_elapsed = seconds_since start now;
      } in
      if is_calibrating agc.phase
        && (int_at_least 20 timed.calib_secs_elapsed || not (agc.calib_done == 0))
      then record timed { phase = agc_steady_on; settle_secs = 5 }
      else timed

  unfoldable pub agc_tune : ℕ → LinkStats → Control fl.F → Control fl.F
  agc_tune now stats c =
      let c' = record c { agc = calib_clock now c.agc } in
      if c.agc.enabled == 0
      then c
      else (if not (c.audio.agc_freeze == 0)
          then c
          else (if is_calibrating c'.agc.phase
              then agc_calibrate fl now stats c'
              else agc_steady now stats c'))
