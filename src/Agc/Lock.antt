-- ===== src/Agc/Lock.antt =====
-- When `agc_steady` of src/agc.c locks and unlocks the gains.
use echo_protocol.Base.{
  ℕ, ◌+◌, ◌≤◌, ◌<◌, ◌≡◌, ◌≢◌, ◌⊎◌, inl, inr, refl, sym, ap, ◌∙◌, arith, true, false, ltb, ◌==◌,
  Bool-cases,
}
use echo_protocol.Base.Floats.{Floats}
use echo_protocol.Agc.{
  agc_calibrating, agc_steady_on, agc_locked, AudioState, LinkStats, Control, Window, averaged,
  counted_until, window,
}
use echo_protocol.Agc.Steady.{steady_track, is_unlocking, steady_locked, error_of, agc_steady}
use echo_protocol.Agc.Kept.{Kept}
use echo_protocol.Agc.Track.{IsTracked, track-IsTracked}

pub not_calibrating : agc_calibrating ≢ agc_locked
not_calibrating e = ground arith

calibrating_not_steady : agc_calibrating ≢ agc_steady_on
calibrating_not_steady e = ground arith

-- The flag and the phase agree, and the cooldown is a time.
pub record IsValid {F : Type 0} (c : Control F) : Type 0 where
  pub agrees :
      ((c.agc.locked ≡ 1) × (c.agc.phase ≡ agc_locked))
      ⊎ ((c.agc.locked ≡ 0) × (c.agc.phase ≢ agc_locked))
  pub cooldown : 0 < c.agc.unlock_cooldown_secs

-- What a call at the time `now` may do to the lock.
pub record IsLockStep {F : Type 0} (now : ℕ) (c c' : Control F) : Type 0 where
  -- a call that leaves the gains locked does not change them
  pub same_gains :
      c'.agc.locked ≡ 1
      → (c'.audio.tx_gain ≡ c.audio.tx_gain) × (c'.audio.rx_gain ≡ c.audio.rx_gain)
  -- gains are locked before the first unlock, or after the cooldown
  pub cooled :
      c.agc.locked ≡ 0
      → c'.agc.locked ≡ 1
      → (c.agc.last_unlock_time ≡ 0) ⊎ (c.agc.last_unlock_time + c.agc.unlock_cooldown_secs ≤ now)
  -- an unlock notes its time, and nothing else changes that
  pub stamped : c.agc.locked ≡ 1 → c'.agc.locked ≡ 0 → c'.agc.last_unlock_time ≡ now
  pub same_stamp : c.agc.locked ≡ 0 → c'.agc.last_unlock_time ≡ c.agc.last_unlock_time
  pub same_cooldown : c'.agc.unlock_cooldown_secs ≡ c.agc.unlock_cooldown_secs
  -- the calibration does not come back
  pub settled : c.agc.phase ≢ agc_calibrating → c'.agc.phase ≢ agc_calibrating
  pub valid : IsValid c'

module _ (fl : Floats) (now : ℕ) (later : 0 < now) where
  pub unchanged : (c : Control fl.F) → IsValid c → IsLockStep now c c
  unchanged c v = record {
    same_gains = λ e. (refl, refl);
    cooled = λ z e. absurd (omega (arith, z, e));
    stamped = λ e z. absurd (omega (arith, z, e));
    same_stamp = λ z. refl;
    same_cooldown = refl;
    settled = λ n. n;
    valid = v;
  }

  -- A call that leaves the lock alone, while the gains are not locked.
  pub Kept-IsLockStep :
      (c c' : Control fl.F)
      → c.agc.locked ≡ 0
      → (c.agc.phase ≢ agc_locked)
      → 0 < c.agc.unlock_cooldown_secs
      → Kept fl c c'
      → IsLockStep now c c'
  Kept-IsLockStep c c' z p h k = record {
    same_gains = λ e. absurd (omega (arith, e, k.0, z));
    cooled = λ y e. absurd (omega (arith, e, k.0, z));
    stamped = λ e y. absurd (omega (arith, z, e));
    same_stamp = λ y. k.2;
    same_cooldown = k.3;
    settled = λ n e. n (sym k.1 ∙ e);
    valid = record { agrees = inr (k.0 ∙ z, λ e. p (sym k.1 ∙ e)); cooldown = omega (arith, k.3) };
  }

  tracked-IsLockStep :
      (d : Window) (c c' : Control fl.F)
      → c.agc.locked ≡ 0
      → (c.agc.phase ≢ agc_locked)
      → 0 < c.agc.unlock_cooldown_secs
      → IsTracked fl now d c c'
      → IsLockStep now c c'
  tracked-IsLockStep d c c' z p h t = record {
    same_gains = t.same_gains;
    cooled = λ y e. t.cooled e;
    stamped = λ e y. absurd (omega (arith, z, e));
    same_stamp = λ y. t.same_stamp;
    same_cooldown = t.same_cooldown;
    settled = λ n. elim t.agrees [
      | inl a ↦ λ e. not_calibrating (sym e ∙ a.1)
      | inr (a, same) ↦ λ e. n (sym same ∙ e)
    ];
    valid = record {
      agrees = elim t.agrees [ inl a ↦ inl a | inr (a, same) ↦ inr (a, λ e. p (sym same ∙ e)) ];
      cooldown = omega (arith, t.same_cooldown);
    };
  }

  not_steady : agc_steady_on ≢ agc_locked
  not_steady e = ground arith

  -- Gains that the call unlocks are not locked again by it.
  unlocked-IsLockStep :
      (d : Window) (c c1 c' : Control fl.F)
      → c.agc.locked ≡ 1
      → 0 < c.agc.unlock_cooldown_secs
      → c1.agc.phase ≡ agc_steady_on
      → c1.agc.last_unlock_time ≡ now
      → c1.agc.unlock_cooldown_secs ≡ c.agc.unlock_cooldown_secs
      → IsTracked fl now d c1 c'
      → IsLockStep now c c'
  unlocked-IsLockStep d c c1 c' one h phase stamp same t =
      let never : ¬ (c'.agc.locked ≡ 1) = λ e. elim (t.cooled e) [
        | inl z ↦ absurd (omega (arith, z, stamp))
        | inr le ↦ absurd (omega (arith, le, stamp, same))
      ] in
      record {
        same_gains = λ e. absurd (never e);
        cooled = λ z e. absurd (never e);
        stamped = λ e z. t.same_stamp ∙ stamp;
        same_stamp = λ z. absurd (omega (arith, z, one));
        same_cooldown = t.same_cooldown ∙ same;
        settled = λ n. elim t.agrees [
          | inl a ↦ absurd (never a.0)
          | inr (a, p) ↦ λ e. calibrating_not_steady (sym e ∙ p ∙ phase)
        ];
        valid = record {
          agrees = elim t.agrees [
            | inl a ↦ absurd (never a.0)
            | inr (a, p) ↦ inr (a, λ e. not_steady (sym phase ∙ sym p ∙ e))
          ];
          cooldown = omega (arith, t.same_cooldown, same);
        };
      }

  -- The lock, and what follows it.
  locked-IsLockStep :
      (d : Window) (e : fl.F) (c : Control fl.F)
      → IsValid c
      → IsLockStep now c (steady_locked fl now d e c)
  unfolding steady_locked
  locked-IsLockStep d e c v = elim v.agrees [
    | inr (z, p) ↦
        let test : (c.agc.locked == 0) ≡ true = ground (arith, z) in
        rw test (
          tracked-IsLockStep d c (steady_track fl now d e c) z p v.cooldown
            (track-IsTracked fl now d e c z))
    | inl (one, p) ↦
        let test : (c.agc.locked == 0) ≡ false = ground (arith, one) in
        let free = record c {
          agc = record c.agc {
            locked = 0;
            lock_good_streak = 0;
            phase = agc_steady_on;
            settle_secs = 5;
            last_unlock_time = now;
          };
        } in
        elim (Bool-cases (is_unlocking fl now d c)) [
          | inl u ↦
              rw (test, u)
                (unlocked-IsLockStep d c free (steady_track fl now d e free) one v.cooldown refl
                  refl refl (track-IsTracked fl now d e free refl))
          | inr u ↦
              rw (test, u)
                (record {
                  same_gains = λ h. (refl, refl);
                  cooled = λ z h. absurd (omega (arith, z, one));
                  stamped = λ h z. absurd (omega (arith, z, one));
                  same_stamp = λ z. refl;
                  same_cooldown = refl;
                  settled = λ n. n;
                  valid = record { agrees = inl (one, p); cooldown = v.cooldown };
                })
        ]
  ]

  -- A step from a control that has the same lock and the same gains.
  pub rebased :
      (c c1 c' : Control fl.F)
      → c1.agc.locked ≡ c.agc.locked
      → c1.agc.last_unlock_time ≡ c.agc.last_unlock_time
      → c1.agc.unlock_cooldown_secs ≡ c.agc.unlock_cooldown_secs
      → c1.audio ≡ c.audio
      → (c.agc.phase ≢ agc_calibrating → c1.agc.phase ≢ agc_calibrating)
      → IsLockStep now c1 c'
      → IsLockStep now c c'
  rebased c c1 c' l t k a n s = record {
    same_gains = λ e. (
      (s.same_gains e).0 ∙ ap (λ (x : AudioState fl.F). x.tx_gain) a,
      (s.same_gains e).1 ∙ ap (λ (x : AudioState fl.F). x.rx_gain) a,
    );
    cooled = λ z e. elim (s.cooled (l ∙ z) e) [
      | inl none_yet ↦ inl (sym t ∙ none_yet)
      | inr le ↦ inr (omega (arith, le, t, k))
    ];
    stamped = λ e z. s.stamped (l ∙ e) z;
    same_stamp = λ z. s.same_stamp (l ∙ z) ∙ t;
    same_cooldown = s.same_cooldown ∙ k;
    settled = λ m. s.settled (n m);
    valid = s.valid;
  }

  pub steady-IsLockStep :
      (stats : LinkStats) (c : Control fl.F)
      → IsValid c
      → IsLockStep now c (agc_steady fl now stats c)
  unfolding agc_steady
  steady-IsLockStep stats c v =
      elim (Bool-cases (ltb now (c.agc.last_adjust + c.agc.settle_secs))) [
        | inl early ↦ rw early (unchanged c v)
        | inr due ↦
            let agc = record c.agc { power_avg = averaged fl c.agc c.audio.in_rms } in
            let c1 = record c { agc = counted_until fl stats agc } in
            rw due (
              rebased c c1 _ refl refl refl refl (λ n. n)
                (locked-IsLockStep (window fl stats c.agc) (error_of fl agc) c1
                  (record { agrees = v.agrees; cooldown = v.cooldown })))
      ]
