-- ===== src/Fec/Gf/Tables.antt =====
-- Facts of the two tables, each checked at every index by evaluation.
use echo_protocol.Base.{
  ℕ, ◌+◌, ◌<◌, ◌≡◌, refl, Bool, true, ◌==◌, ◌&&◌, ◌||◌, not, ltb, bit_xor, all_below,
}
use native.Mathlib.Decide.{dec_lt}
use echo_protocol.Base.{all_below_sound, arith, ◌≢◌, ap, ◌∙◌, ◌%◌}
use echo_protocol.Fec.Gf.{Gf, zeroed, gf_init, exp_at, log_at, double}

-- The tables after `gf_init`.
unfoldable pub tables : Gf
unfolding gf_init
tables = gf_init zeroed

exp_row : Gf → ℕ → Bool
exp_row g i =
    let e = exp_at g i in
    ltb e 256 && (not (e == 0) && ((log_at g e == i) && (exp_at g (i + 255) == e)))

log_row : Gf → ℕ → Bool
log_row g a = (a == 0) || (ltb (log_at g a) 255 && (exp_at g (log_at g a) == a))

step_row : Gf → ℕ → Bool
step_row g i = exp_at g (i + 1) == double (exp_at g i)

exp_rows : Gf → Bool
exp_rows g = all_below 255 (exp_row g)

log_rows : Gf → Bool
log_rows g = all_below 256 (log_row g)

step_rows : Gf → Bool
step_rows g = all_below 511 (step_row g)

exp_table : exp_rows tables ≡ true
unfolding exp_rows exp_row all_below tables double
exp_table = refl

log_table : log_rows tables ≡ true
unfolding log_rows log_row all_below tables double
log_table = refl

step_table : step_rows tables ≡ true
unfolding step_rows step_row all_below tables double
step_table = refl

double_row : ℕ → ℕ → Bool
double_row a b = (double (bit_xor a b) == bit_xor (double a) (double b)) && ltb (double a) 256

double_rows : ℕ → Bool
double_rows a = all_below 256 (double_row a)

double_table : all_below 256 double_rows ≡ true
unfolding double_rows double_row all_below double
double_table = refl

-- The first 255 entries of `gf_exp` are the bytes other than 0, `gf_log` is their inverse, and the
-- table repeats.
pub exp_lem :
    (i : ℕ)
    → i < 255
    → (exp_at tables i < 256)
      × (exp_at tables i ≢ 0)
      × (log_at tables (exp_at tables i) ≡ i)
      × (exp_at tables (i + 255) ≡ exp_at tables i)
exp_lem i h =
    let ok : exp_row tables i ≡ true =
      unfold exp_rows in all_below_sound 255 (exp_row tables) i exp_table h in
    unfold exp_row in ground arith

pub log_lem :
    (a : ℕ) → a < 256 → a ≢ 0 → (log_at tables a < 255) × (exp_at tables (log_at tables a) ≡ a)
log_lem a h ne =
    let ok : log_row tables a ≡ true =
      unfold log_rows in all_below_sound 256 (log_row tables) a log_table h in
    unfold log_row in ground arith

-- Each entry of `gf_exp` is the double of the one before.
pub step_lem : (i : ℕ) → i < 511 → exp_at tables (i + 1) ≡ double (exp_at tables i)
step_lem i h =
    let ok : step_row tables i ≡ true =
      unfold step_rows in all_below_sound 511 (step_row tables) i step_table h in
    unfold step_row in ground arith

-- Doubling is linear over the bytes.
pub double_lem :
    (a b : ℕ)
    → a < 256
    → b < 256
    → (double (bit_xor a b) ≡ bit_xor (double a) (double b)) × (double a < 256)
double_lem a b p q =
    let ok : double_row a b ≡ true =
      all_below_sound 256 (double_row a) b
        (unfold double_rows in all_below_sound 256 double_rows a double_table p) q in
    unfold double_row in ground arith

-- The table at every index that a product reads.
pub exp_mod : (n : ℕ) → n < 510 → exp_at tables n ≡ exp_at tables (n % 255)
exp_mod n h = elim (dec_lt n 255) [
  | yes lt ↦ ap (exp_at tables) (omega arith)
  | no ge ↦
      ap (exp_at tables) {y = n % 255 + 255} (omega arith) ∙ (exp_lem (n % 255) (omega arith)).3
]

pub one_lem : (log_at tables 1 ≡ 0) × (exp_at tables 0 ≡ 1)
unfolding tables double
one_lem = (refl, refl)

pub tables_ready : tables.gf_ready ≡ true
unfolding tables
tables_ready = refl
