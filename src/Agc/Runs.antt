-- ===== src/Agc/Runs.antt =====
-- Any number of calls of `agc_tune` of src/agc.c, between which the level and the freeze change.
use mathlib.Core.Path.{subst}
use echo_protocol.Base.{sym, ap₂, ℕ, ◌+◌, ◌^◌, ◌≤◌, ◌<◌, ◌≡◌, ◌≢◌, inl, inr, arith, List, [], ◌∷◌}
use echo_protocol.Base.Floats.{Floats}
use echo_protocol.Agc.{agc_calibrating, LinkStats, Control}
use echo_protocol.Agc.Steady.{agc_tune}
use echo_protocol.Agc.Lock.{IsValid, IsLockStep}
use echo_protocol.Agc.Tune.{agc_tune-IsLockStep, tune-ends}

-- When a call comes, and what it finds.
pub record Call (F : Type 0) : Type 0 where
  pub now : ℕ
  pub stats : LinkStats
  pub rms : F
  pub freeze : ℕ

-- What the rest of the program may have stored since the call before.
abbrev pub heard_by : {F : Type 0} → Call F → Control F → Control F
heard_by call c = record c {
  audio = record c.audio { in_rms = call.rms; agc_freeze = call.freeze };
}

unfoldable pub tune_all : (fl : Floats) → List (Call fl.F) → Control fl.F → Control fl.F
tune_all fl [] c = c
tune_all fl (call ∷ calls) c = tune_all fl calls (agc_tune fl call.now call.stats (heard_by call c))

-- Every call comes at a time before `limit`.
abbrev pub AllBefore : {F : Type 0} → ℕ → List (Call F) → Type 0
AllBefore limit [] = Unit
AllBefore limit (call ∷ calls) = (0 < call.now) × (call.now < limit) × AllBefore limit calls

module _ (fl : Floats) where
  tune_heard :
      (call : Call fl.F) (c : Control fl.F)
      → 0 < call.now
      → IsValid c
      → IsLockStep call.now (heard_by call c) (agc_tune fl call.now call.stats (heard_by call c))
  tune_heard call c later v =
      agc_tune-IsLockStep fl call.now later call.stats (heard_by call c)
        (record { agrees = v.agrees; cooldown = v.cooldown })

  -- After the gains were unlocked, and until the cooldown is over, no call of `agc_tune` locks them
  -- again, whatever the level, the freeze and the statistics are.
  pub tune_all_cooldown :
      (calls : List (Call fl.F)) (c : Control fl.F)
      → IsValid c
      → c.agc.locked ≡ 0
      → 0 < c.agc.last_unlock_time
      → AllBefore (c.agc.last_unlock_time + c.agc.unlock_cooldown_secs) calls
      → (tune_all fl calls c).agc.locked ≡ 0
  unfolding tune_all
  tune_all_cooldown [] c v z t b = z
  tune_all_cooldown (call ∷ calls) c v z t b =
      let c' = agc_tune fl call.now call.stats (heard_by call c) in
      let s = tune_heard call c b.0 v in
      let stamp = s.same_stamp z in
      let still : c'.agc.locked ≡ 0 = elim s.valid.agrees [
        | inl (one, p) ↦ elim (s.cooled z one) [
          | inl none_yet ↦ absurd (omega (arith, none_yet))
          | inr le ↦ absurd (omega (arith, le, b.1))
        ]
        | inr (zero_locked, p) ↦ zero_locked
      ] in
      tune_all_cooldown calls c' s.valid still (omega (arith, stamp))
        (subst (λ limit. AllBefore limit calls) (sym (ap₂ ◌+◌ stamp s.same_cooldown)) b.2)

  stays_settled :
      (calls : List (Call fl.F)) (c : Control fl.F) (limit : ℕ)
      → IsValid c
      → c.agc.phase ≢ agc_calibrating
      → AllBefore limit calls
      → (tune_all fl calls c).agc.phase ≢ agc_calibrating
  unfolding tune_all
  stays_settled [] c limit v n b = n
  stays_settled (call ∷ calls) c limit v n b =
      let s = tune_heard call c b.0 v in
      stays_settled calls (agc_tune fl call.now call.stats (heard_by call c)) limit s.valid
        (s.settled n) b.2

  -- The calibration ends: from a control whose flag of the lock and whose phase agree, a call that
  -- comes 20 seconds or more, but less than 2^31 seconds, after its start, at a time that a `time_t`
  -- of 64 bits holds, while the gain control is on and not frozen, leaves it, and no later call goes
  -- back to it.
  pub calibration_ends :
      (first : Call fl.F) (calls : List (Call fl.F)) (c : Control fl.F) (limit : ℕ)
      → IsValid c
      → c.agc.enabled ≢ 0
      → first.freeze ≡ 0
      → 0 < c.agc.calib_start_time
      → c.agc.calib_start_time + 20 ≤ first.now
      → first.now < c.agc.calib_start_time + 2 ^ 31
      → first.now < 2 ^ 63
      → AllBefore limit calls
      → (tune_all fl (first ∷ calls) c).agc.phase ≢ agc_calibrating
  unfolding tune_all
  calibration_ends first calls c limit v on running started late soon in_time b =
      let later : 0 < first.now = omega arith in
      let s = tune_heard first c later v in
      stays_settled calls (agc_tune fl first.now first.stats (heard_by first c)) limit s.valid
        (tune-ends fl first.now later first.stats (heard_by first c)
          (record { agrees = v.agrees; cooldown = v.cooldown }) on running (λ e. omega (arith, e))
          late soon in_time)
        b
