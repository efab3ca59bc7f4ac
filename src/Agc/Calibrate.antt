-- ===== src/Agc/Calibrate.antt =====
-- `agc_calibrate` of src/agc.c: each function is the code from one of its numbered parts to the end.
use echo_protocol.Base.{ℕ, ◌+◌, if◌then◌else◌, ltb, leb, ◌==◌, ◌&&◌, not}
use echo_protocol.Base.Floats.{Floats}
use echo_protocol.Agc.{
  LinkStats, Control, Window, db_to_linear, agc_apply_gains, agc_clamp, step_down, averaged, window,
  counted_until, adjusted, set_rx, set_tx, int_below,
}

module _ (fl : Floats) (now : ℕ) (d : Window) where
  -- Both gains at their ceiling and no link.
  unfoldable pub calib_ceiling : Control fl.F → Control fl.F
  calib_ceiling c =
      let agc = c.agc in
      let audio = c.audio in
      let near = λ (db : fl.F). fl.mul (db_to_linear fl db) (fl.lit 95 2) in
      if fl.le (near agc.tx_gain_db_max) audio.tx_gain
        && fl.le (near agc.rx_gain_db_max) audio.rx_gain
      then record {
        agc = record agc { calib_tx_gain_step = 0; calib_rx_gain_step = 0; last_adjust = now };
        audio = agc_apply_gains fl audio (fl.lit 5 1) (fl.lit 4 0);
      }
      else record c { agc = adjusted fl now agc }

  unfoldable pub calib_rx_up : Control fl.F → Control fl.F
  calib_rx_up c =
      let agc = c.agc in
      let new_rx =
        agc_clamp fl (fl.mul c.audio.rx_gain (fl.lit 14 1)) (db_to_linear fl agc.rx_gain_db_min)
          (db_to_linear fl agc.rx_gain_db_max) in
      if ltb agc.calib_rx_gain_step 5 && not (fl.eq new_rx c.audio.rx_gain)
      then set_rx fl now new_rx
          (record c { agc = record agc { calib_rx_gain_step = agc.calib_rx_gain_step + 1 } })
      else calib_ceiling c

  unfoldable pub calib_tx_up : Control fl.F → Control fl.F
  calib_tx_up c =
      let agc = c.agc in
      let new_tx =
        agc_clamp fl (fl.mul c.audio.tx_gain (fl.lit 13 1)) (db_to_linear fl agc.tx_gain_db_min)
          (db_to_linear fl agc.tx_gain_db_max) in
      if ltb agc.calib_tx_gain_step 5 && not (fl.eq new_tx c.audio.tx_gain)
      then set_tx fl now new_tx
          (record c { agc = record agc { calib_tx_gain_step = agc.calib_tx_gain_step + 1 } })
      else calib_rx_up c

  -- Noise without a sync word.
  unfoldable pub calib_noise : Control fl.F → Control fl.F
  calib_noise c =
      let agc = c.agc in
      let audio = c.audio in
      if (d.d_sync == 0)
        && (fl.lt agc.rms_min audio.in_rms
            && (fl.lt audio.in_rms agc.rms_max
                && fl.lt (db_to_linear fl agc.rx_gain_db_min) audio.rx_gain))
      then set_rx fl now (step_down fl audio.rx_gain (fl.lit 15 1) agc.rx_gain_db_min) c
      else calib_tx_up c

  -- Sync words and no packet: the station hears itself.
  unfoldable pub calib_echo : Control fl.F → Control fl.F
  calib_echo c =
      let agc = c.agc in
      let audio = c.audio in
      let heard = record agc { echo_streak = agc.echo_streak + 1 } in
      if ltb 0 d.d_sync && ((d.d_pkts == 0) && leb d.d_sync d.d_corrupt)
      then (if leb agc.echo_sync_thresh heard.echo_streak
            && fl.lt (db_to_linear fl agc.tx_gain_db_min) audio.tx_gain
          then set_tx fl now (step_down fl audio.tx_gain (fl.lit 3 0) agc.tx_gain_db_min)
              (record c { agc = record agc { echo_streak = 0 } })
          else calib_noise (record c { agc = heard }))
      else (if ltb 0 d.d_pkts
          then calib_noise (record c { agc = record agc { echo_streak = 0 } })
          else calib_noise c)

  -- The converter clips.
  unfoldable pub calib_clip : Control fl.F → Control fl.F
  calib_clip c =
      let agc = c.agc in
      let audio = c.audio in
      if fl.lt agc.rms_max audio.in_rms && fl.lt (db_to_linear fl agc.rx_gain_db_min) audio.rx_gain
      then set_rx fl now (step_down fl audio.rx_gain (fl.lit 3 0) agc.rx_gain_db_min) c
      else calib_echo c

  -- Good packets at a good level: the calibration has converged.
  unfoldable pub calib_converged : Control fl.F → Control fl.F
  calib_converged c =
      let agc = c.agc in
      let audio = c.audio in
      if ltb 0 d.d_pkts && (fl.le agc.rms_min audio.in_rms && fl.le audio.in_rms agc.rms_max)
      then record c {
        agc = record agc {
          best_rms = audio.in_rms;
          best_tx_gain = audio.tx_gain;
          best_rx_gain = audio.rx_gain;
          calib_done = 1;
          last_adjust = now;
        };
      }
      else calib_clip c

module _ (fl : Floats) where
  unfoldable pub agc_calibrate : ℕ → LinkStats → Control fl.F → Control fl.F
  agc_calibrate now stats c =
      let calib_interval = if int_below 5 c.agc.calib_secs_elapsed then 1 else 2 in
      let agc = record c.agc { power_avg = averaged fl c.agc c.audio.in_rms } in
      if ltb now (c.agc.last_adjust + calib_interval)
      then c
      else calib_converged fl now (window fl stats c.agc)
          (record c { agc = counted_until fl stats agc })
