-- ===== src/Agc/Tune.antt =====
-- `agc_tune` of src/agc.c as a whole: the lock, and the end of the calibration.
use echo_protocol.Base.{
  ℕ, ◌+◌, ◌-◌, ◌^◌, ◌≤◌, ◌<◌, ◌≡◌, ◌≢◌, inl, inr, refl, sym, ◌∙◌, arith, true, false, if◌then◌else◌,
  ◌==◌, ◌&&◌, not, Bool-cases,
}
use echo_protocol.Base.Floats.{Floats}
use echo_protocol.Agc.{
  AgcPhase, agc_calibrating, agc_steady_on, agc_locked, LinkStats, Control, seconds_since,
  int_at_least,
}
use echo_protocol.Agc.Calibrate.{agc_calibrate}
use echo_protocol.Agc.Steady.{calib_clock, agc_tune, is_calibrating}
use echo_protocol.Base.{◌||◌}
use echo_protocol.Agc.Kept.{calibrate-Kept}
use echo_protocol.Agc.Lock.{
  not_calibrating, IsValid, IsLockStep, unchanged, Kept-IsLockStep, rebased, steady-IsLockStep,
}

module _ (fl : Floats) (now : ℕ) (later : 0 < now) where
  calibrating : (p : AgcPhase) → is_calibrating fl p ≡ true → p ≡ agc_calibrating
  calibrating agc_calibrating e = refl
  calibrating agc_steady_on e = absurd (ground arith)
  calibrating agc_locked e = absurd (ground arith)

  -- The clock of the calibration ends it, and does nothing else to the phase.
  clock-agrees :
      (c : Control fl.F) → IsValid c → IsValid (record c { agc = calib_clock fl now c.agc })
  unfolding calib_clock
  clock-agrees c v =
      let start = if c.agc.calib_start_time == 0 then now else c.agc.calib_start_time in
      elim (Bool-cases (
        is_calibrating fl c.agc.phase
        && (int_at_least 20 (seconds_since start now) || not (c.agc.calib_done == 0)))) [
          | inl due ↦ rw due (record {
            agrees = elim v.agrees [
              | inl (one, p) ↦ absurd (ground (arith, due, p))
              | inr (z, p) ↦ inr (z, λ e. ground (arith, e))
            ];
            cooldown = v.cooldown;
          })
          | inr not_due ↦ rw not_due (record { agrees = v.agrees; cooldown = v.cooldown })
        ]

  clock-Same :
      (c : Control fl.F)
      → ((calib_clock fl now c.agc).locked ≡ c.agc.locked)
        × ((calib_clock fl now c.agc).last_unlock_time ≡ c.agc.last_unlock_time)
        × ((calib_clock fl now c.agc).unlock_cooldown_secs ≡ c.agc.unlock_cooldown_secs)
  unfolding calib_clock
  clock-Same c = ground arith

  clock-settled :
      (c : Control fl.F)
      → c.agc.phase ≢ agc_calibrating
      → (calib_clock fl now c.agc).phase ≢ agc_calibrating
  unfolding calib_clock
  clock-settled c n = λ e. elim (Bool-cases (is_calibrating fl c.agc.phase)) [
    | inl cal ↦ n (calibrating c.agc.phase cal)
    | inr other ↦ n (ground (arith, other, e))
  ]

  -- While the calibration runs, the gains are not locked.
  calibrating-IsLockStep :
      (stats : LinkStats) (c : Control fl.F)
      → IsValid c
      → is_calibrating fl c.agc.phase ≡ true
      → IsLockStep now c (agc_calibrate fl now stats c)
  calibrating-IsLockStep stats c v cal = elim v.agrees [
    | inl (one, p) ↦ absurd (not_calibrating (sym (calibrating c.agc.phase cal) ∙ p))
    | inr (z, p) ↦
        Kept-IsLockStep fl now later c (agc_calibrate fl now stats c) z p v.cooldown
          (calibrate-Kept fl now stats c)
  ]

  -- At a time after 0, from a control whose flag of the lock and whose phase agree, `agc_tune` leaves them
  -- agreeing; gains that are locked after the call are those before it; gains are locked only if they
  -- were never unlocked or the cooldown is over; an unlock notes its time, which nothing else changes;
  -- and a calibration that has ended does not come back.
  pub agc_tune-IsLockStep :
      (stats : LinkStats) (c : Control fl.F)
      → IsValid c
      → IsLockStep now c (agc_tune fl now stats c)
  unfolding agc_tune
  agc_tune-IsLockStep stats c v =
      let c' = record c { agc = calib_clock fl now c.agc } in
      let v' = clock-agrees c v in
      let (l, t, k) = clock-Same c in
      elim (Bool-cases (c.agc.enabled == 0)) [
        | inl off ↦ rw off (unchanged fl now later c v)
        | inr on ↦ elim (Bool-cases (not (c.audio.agc_freeze == 0))) [
          | inl frozen ↦ rw (on, frozen) (unchanged fl now later c v)
          | inr running ↦ elim (Bool-cases (is_calibrating fl c'.agc.phase)) [
            | inl cal ↦
                rw (on, running, cal)
                  (rebased fl now later c c' _ l t k refl (clock-settled c)
                    (calibrating-IsLockStep stats c' v' cal))
            | inr steady ↦
                rw (on, running, steady)
                  (rebased fl now later c c' _ l t k refl (clock-settled c)
                    (steady-IsLockStep fl now later stats c' v'))
          ]
        ]
      ]

  clock-ends :
      (c : Control fl.F)
      → c.agc.calib_start_time ≢ 0
      → c.agc.calib_start_time + 20 ≤ now
      → now < c.agc.calib_start_time + 2 ^ 31
      → now < 2 ^ 63
      → is_calibrating fl (calib_clock fl now c.agc).phase ≡ false
  unfolding calib_clock
  clock-ends c s late soon in_time = elim (Bool-cases (is_calibrating fl c.agc.phase)) [
    | inl cal ↦
        let start : (c.agc.calib_start_time == 0) ≡ false = ground (arith, s) in
        let whole : seconds_since c.agc.calib_start_time now ≡ now - c.agc.calib_start_time =
          omega arith in
        let due : int_at_least 20 (seconds_since c.agc.calib_start_time now) ≡ true =
          rw whole (ground arith) in
        rw (start, due, cal) refl
    | inr other ↦ rw other other
  ]

  -- A call that runs 20 seconds or more after the start ends the calibration.
  pub tune-ends :
      (stats : LinkStats) (c : Control fl.F)
      → IsValid c
      → c.agc.enabled ≢ 0
      → c.audio.agc_freeze ≡ 0
      → c.agc.calib_start_time ≢ 0
      → c.agc.calib_start_time + 20 ≤ now
      → now < c.agc.calib_start_time + 2 ^ 31
      → now < 2 ^ 63
      → (agc_tune fl now stats c).agc.phase ≢ agc_calibrating
  unfolding agc_tune
  tune-ends stats c v on running s late soon in_time =
      let c' = record c { agc = calib_clock fl now c.agc } in
      let ended = clock-ends c s late soon in_time in
      let a : (c.agc.enabled == 0) ≡ false = ground (arith, on) in
      let b : (c.audio.agc_freeze == 0) ≡ true = ground (arith, running) in
      rw (a, b, ended)
        ((steady-IsLockStep fl now later stats c' (clock-agrees c v)).settled
          (λ e. ground (arith, ended, e)))
