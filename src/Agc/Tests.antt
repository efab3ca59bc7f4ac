-- ===== src/Agc/Tests.antt =====
-- Runs of the gain control, over whole numbers in the place of `float`.
use echo_protocol.Base.{
  ℕ, ◌+◌, ◌-◌, ◌*◌, ◌/◌, ◌^◌, ◌≡◌, ◌≢◌, refl, arith, inl, inr, List, [], ◌∷◌, ltb, leb, ◌==◌, false,
}
use echo_protocol.Base.Floats.{Floats}
use echo_protocol.Agc.{agc_calibrating, agc_locked, AudioState, LinkStats, Control, agc_init}
use echo_protocol.Agc.Steady.{agc_tune}
use echo_protocol.Agc.Lock.{IsValid, IsLockStep}
use echo_protocol.Agc.Tune.{agc_tune-IsLockStep}
use echo_protocol.Agc.Runs.{Call, tune_all, tune_all_cooldown, calibration_ends}

abbrev whole : Floats
whole = record {
  F = ℕ;
  lit = λ n k. n / 10 ^ k;
  of_nat = λ n. n;
  neg = λ n. 0;
  add = λ a b. a + b;
  sub = λ a b. a - b;
  mul = λ a b. a * b;
  div = λ a b. a / b;
  lt = ltb;
  le = leb;
  eq = ◌==◌;
  powf = λ a b. a ^ b;
  log10f = λ a. a;
  fabsf = λ a. a;
  cosf = λ a. a;
  sinf = λ a. a;
  D = ℕ;
  pi = 3;
  widen = λ a. a;
  narrow = λ a. a;
  mul_d = λ a b. a * b;
  div_d = λ a b. a / b;
  nat_d = λ n. n;
}

abbrev audio : AudioState ℕ
audio = record { tx_gain = 2; rx_gain = 5; in_rms = 1; agc_freeze = 0 }

-- The gains have been locked, after an unlock at the time 40.
abbrev locked_control : Control ℕ
locked_control = record {
  agc = record (agc_init whole false) { locked = 1; phase = agc_locked; last_unlock_time = 40 };
  audio = audio;
}

abbrev stats : LinkStats
stats = record { rx_sync_found = 3; rx_packets = 2; rx_corrupted = 7 }

locked_control-IsValid : IsValid locked_control
unfolding agc_init
locked_control-IsValid = record { agrees = inl (refl, refl); cooldown = omega arith }

agc_tune-IsLockStep_example :
    IsLockStep 200 locked_control (agc_tune whole 200 stats locked_control)
agc_tune-IsLockStep_example =
    agc_tune-IsLockStep whole 200 (omega arith) stats locked_control locked_control-IsValid

-- The gains have just been unlocked, and two windows of good packets follow.
abbrev unlocked_control : Control ℕ
unlocked_control = record {
  agc = record (agc_init whole false) { last_unlock_time = 40 };
  audio = audio;
}

unlocked_control-IsValid : IsValid unlocked_control
unfolding agc_init
unlocked_control-IsValid = record { agrees = inr (refl, λ e. ground arith); cooldown = omega arith }

abbrev calls : List (Call ℕ)
calls =
    record { now = 50; stats = record stats { rx_packets = 30 }; rms = 1; freeze = 0 }
    ∷ record { now = 60; stats = record stats { rx_packets = 90 }; rms = 1; freeze = 0 }
    ∷ []

tune_all_cooldown_example : (tune_all whole calls unlocked_control).agc.locked ≡ 0
tune_all_cooldown_example =
    tune_all_cooldown whole calls unlocked_control unlocked_control-IsValid
      (unfold agc_init in refl) (omega arith) (unfold agc_init in ground arith)

abbrev calibrated : Control ℕ
calibrated = record { agc = record (agc_init whole false) { calib_start_time = 10 }; audio = audio }

calibrated-IsValid : IsValid calibrated
unfolding agc_init
calibrated-IsValid = record { agrees = inr (refl, λ e. ground arith); cooldown = omega arith }

calibration_ends_example :
    (tune_all whole
      (record { now = 30; stats = stats; rms = 1; freeze = 0 } ∷ calls)
      calibrated).agc.phase
    ≢ agc_calibrating
calibration_ends_example =
    calibration_ends whole (record { now = 30; stats = stats; rms = 1; freeze = 0 }) calls
      calibrated 100 calibrated-IsValid (unfold agc_init in λ e. omega (arith, e)) refl
      (omega arith) (omega arith) (omega arith) (omega arith) (ground arith)
