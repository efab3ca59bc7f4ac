-- ===== src/Agc/Track.antt =====
-- How good packets lock the gains: the part of `agc_steady` of src/agc.c that counts them.
use echo_protocol.Base.{
  ℕ, ◌+◌, ◌-◌, ◌≤◌, ◌≡◌, ◌⊎◌, inl, inr, refl, ◌∙◌, arith, if◌then◌else◌, ltb, leb, ◌==◌, ◌&&◌, not,
  Bool-cases,
}
use echo_protocol.Base.Floats.{Floats}
use echo_protocol.Agc.{agc_locked, Control, Window}
use echo_protocol.Agc.Steady.{steady_track, is_cooling}
use echo_protocol.Agc.Kept.{Kept, echo-Kept}

module _ (fl : Floats) (now : ℕ) (d : Window) where
  -- What a call does to the lock.
  pub record IsTracked (c c' : Control fl.F) : Type 0 where
    pub same_gains :
        c'.agc.locked ≡ 1
        → (c'.audio.tx_gain ≡ c.audio.tx_gain) × (c'.audio.rx_gain ≡ c.audio.rx_gain)
    pub cooled :
        c'.agc.locked ≡ 1
        → (c.agc.last_unlock_time ≡ 0) ⊎ (c.agc.last_unlock_time + c.agc.unlock_cooldown_secs ≤ now)
    pub agrees :
        ((c'.agc.locked ≡ 1) × (c'.agc.phase ≡ agc_locked))
        ⊎ ((c'.agc.locked ≡ 0) × (c'.agc.phase ≡ c.agc.phase))
    pub same_stamp : c'.agc.last_unlock_time ≡ c.agc.last_unlock_time
    pub same_cooldown : c'.agc.unlock_cooldown_secs ≡ c.agc.unlock_cooldown_secs

  Kept-IsTracked : (c c' : Control fl.F) → c.agc.locked ≡ 0 → Kept fl c c' → IsTracked c c'
  Kept-IsTracked c c' z k = record {
    same_gains = λ e. absurd (omega (arith, e, k.0, z));
    cooled = λ e. absurd (omega (arith, e, k.0, z));
    agrees = inr (k.0 ∙ z, k.1);
    same_stamp = k.2;
    same_cooldown = k.3;
  }

  pub track-IsTracked :
      (e : fl.F) (c : Control fl.F) → c.agc.locked ≡ 0 → IsTracked c (steady_track fl now d e c)
  unfolding steady_track
  track-IsTracked e c z =
      let good : ℕ = if ltb d.d_corrupt d.d_pkts then d.d_pkts - d.d_corrupt else 0 in
      let more = record c {
        agc = record c.agc { lock_good_streak = c.agc.lock_good_streak + good };
      } in
      let reset = record c { agc = record c.agc { lock_good_streak = 0 } } in
      let locks =
        leb c.agc.lock_threshold (c.agc.lock_good_streak + good)
        && (c.agc.locked == 0)
        && not (is_cooling fl now d c.agc) in
      elim (Bool-cases (ltb 0 good && (d.d_corrupt == 0))) [
        | inl a ↦ elim (Bool-cases locks) [
          | inl b ↦
              rw (a, b)
                (record {
                  same_gains = λ h. (refl, refl);
                  cooled = λ h. ground (arith, b);
                  agrees = inl (refl, refl);
                  same_stamp = refl;
                  same_cooldown = refl;
                })
          | inr b ↦ rw (a, b) (Kept-IsTracked c _ z (echo-Kept fl now d e more))
        ]
        | inr a ↦ elim (Bool-cases (ltb 0 d.d_corrupt)) [
          | inl b ↦ rw (a, b) (Kept-IsTracked c _ z (echo-Kept fl now d e reset))
          | inr b ↦ rw (a, b) (Kept-IsTracked c _ z (echo-Kept fl now d e c))
        ]
      ]
