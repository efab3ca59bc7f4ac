-- ===== src/Agc/Kept.antt =====
-- What of src/agc.c leaves the lock of the gains alone: all of `agc_calibrate`, and `agc_steady` after
-- the lock.
use echo_protocol.Base.{ℕ, ◌+◌, ◌≡◌, arith}
use echo_protocol.Base.Floats.{Floats}
use echo_protocol.Agc.{LinkStats, Control, Window, averaged, counted_until, window}
use echo_protocol.Agc.Calibrate.{
  calib_ceiling, calib_rx_up, calib_tx_up, calib_noise, calib_echo, calib_clip, calib_converged,
  agc_calibrate,
}
use echo_protocol.Agc.Steady.{steady_silence, steady_loop, steady_clip, steady_echo}

-- The fields of the lock are the same.
abbrev pub Kept : (fl : Floats) → Control fl.F → Control fl.F → Type 0
Kept fl c c' =
    (c'.agc.locked ≡ c.agc.locked)
    × (c'.agc.phase ≡ c.agc.phase)
    × (c'.agc.last_unlock_time ≡ c.agc.last_unlock_time)
    × (c'.agc.unlock_cooldown_secs ≡ c.agc.unlock_cooldown_secs)

module _ (fl : Floats) (now : ℕ) (d : Window) where
  silence-Kept : (c : Control fl.F) → Kept fl c (steady_silence fl now d c)
  unfolding steady_silence
  silence-Kept c = ground arith

  loop-Kept : (e : fl.F) (c : Control fl.F) → Kept fl c (steady_loop fl now d e c)
  unfolding steady_loop
  loop-Kept e c = ground (arith, silence-Kept c)

  clip-Kept : (e : fl.F) (c : Control fl.F) → Kept fl c (steady_clip fl now d e c)
  unfolding steady_clip
  clip-Kept e c = ground (arith, loop-Kept e c)

  pub echo-Kept : (e : fl.F) (c : Control fl.F) → Kept fl c (steady_echo fl now d e c)
  unfolding steady_echo
  echo-Kept e c =
      let agc = record c.agc { echo_streak = 0 } in
      let agc' = record c.agc { echo_streak = c.agc.echo_streak + 1 } in
      ground (
        arith,
        clip-Kept e (record c { agc = agc }),
        clip-Kept e (record c { agc = agc' }),
        clip-Kept e c,
      )

  ceiling-Kept : (c : Control fl.F) → Kept fl c (calib_ceiling fl now d c)
  unfolding calib_ceiling
  ceiling-Kept c = ground arith

  rx_up-Kept : (c : Control fl.F) → Kept fl c (calib_rx_up fl now d c)
  unfolding calib_rx_up
  rx_up-Kept c = ground (arith, ceiling-Kept c)

  tx_up-Kept : (c : Control fl.F) → Kept fl c (calib_tx_up fl now d c)
  unfolding calib_tx_up
  tx_up-Kept c = ground (arith, rx_up-Kept c)

  noise-Kept : (c : Control fl.F) → Kept fl c (calib_noise fl now d c)
  unfolding calib_noise
  noise-Kept c = ground (arith, tx_up-Kept c)

  calib_echo-Kept : (c : Control fl.F) → Kept fl c (calib_echo fl now d c)
  unfolding calib_echo
  calib_echo-Kept c =
      let heard = record c.agc { echo_streak = c.agc.echo_streak + 1 } in
      let none_heard = record c.agc { echo_streak = 0 } in
      ground (
        arith,
        noise-Kept (record c { agc = heard }),
        noise-Kept (record c { agc = none_heard }),
        noise-Kept c,
      )

  calib_clip-Kept : (c : Control fl.F) → Kept fl c (calib_clip fl now d c)
  unfolding calib_clip
  calib_clip-Kept c = ground (arith, calib_echo-Kept c)

  converged-Kept : (c : Control fl.F) → Kept fl c (calib_converged fl now d c)
  unfolding calib_converged
  converged-Kept c = ground (arith, calib_clip-Kept c)

module _ (fl : Floats) (now : ℕ) where
  pub calibrate-Kept :
      (stats : LinkStats) (c : Control fl.F) → Kept fl c (agc_calibrate fl now stats c)
  unfolding agc_calibrate
  calibrate-Kept stats c =
      let agc = record c.agc { power_avg = averaged fl c.agc c.audio.in_rms } in
      ground (
        arith,
        converged-Kept fl now (window fl stats c.agc)
            (record c { agc = counted_until fl stats agc }),
      )
