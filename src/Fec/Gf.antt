-- ===== src/Fec/Gf.antt =====
-- Arithmetic of GF(2^8) by tables, as in src/fec.c: `gf_init`, `gf_mul`, `gf_inv`, `gf_pow`. The
-- file-level tables are a record that the functions take.
pub mod Tables
pub mod Field
use echo_protocol.Base.{ℕ, ◌+◌, ◌-◌, ◌*◌, ◌%◌, Bool, true, false, if◌then◌else◌, ◌==◌, ◌||◌}
use echo_protocol.Base.{List, bit_and, bit_xor, u8, ◌<<◌, get_or, set, replicate, for_up}

abbrev pub fec_gf_poly : ℕ
fec_gf_poly = 0x11D

-- `gf_exp`, `gf_log` and `gf_ready`.
pub record Gf : Type 0 where
  pub gf_exp : List ℕ
  pub gf_log : List ℕ
  pub gf_ready : Bool

-- The tables before the first call.
abbrev pub zeroed : Gf
zeroed = record { gf_exp = replicate 512 0; gf_log = replicate 256 0; gf_ready = false }

-- The variables of the first loop of `gf_init`.
record Filling : Type 0 where
  exps : List ℕ
  logs : List ℕ
  x : ℕ

-- `x <<= 1; if (x & 0x100) x ^= FEC_GF_POLY;`
unfoldable pub double : ℕ → ℕ
double x = let y = x << 1 in if bit_and y 0x100 == 0 then y else bit_xor y fec_gf_poly

fill : ℕ → Filling → Filling
unfolding double
fill i f = record { exps = set f.exps i (u8 f.x); logs = set f.logs f.x (u8 i); x = double f.x }

-- `gf_exp[i] = gf_exp[i - 255]`
repeat : ℕ → List ℕ → List ℕ
repeat i exps = set exps i (get_or exps (i - 255) 0)

unfoldable pub gf_init : Gf → Gf
unfolding for_up fill repeat
gf_init g =
    let filled = for_up 255 0 fill (record { exps = g.gf_exp; logs = g.gf_log; x = 1 }) in
    if g.gf_ready then g else record {
      gf_exp = for_up 257 255 repeat filled.exps;
      gf_log = filled.logs;
      gf_ready = true;
    }

module _ (g : Gf) where
  abbrev pub exp_at : ℕ → ℕ
  exp_at i = get_or g.gf_exp i 0

  abbrev pub log_at : ℕ → ℕ
  log_at a = get_or g.gf_log a 0

  unfoldable pub gf_mul : ℕ → ℕ → ℕ
  gf_mul a b = if a == 0 || b == 0 then 0 else exp_at (log_at a + log_at b)

  unfoldable pub gf_inv : ℕ → ℕ
  gf_inv a = if a == 0 then 0 else exp_at (255 - log_at a)

  -- The exponent is never negative where the program calls it.
  unfoldable pub gf_pow : ℕ → ℕ → ℕ
  gf_pow a e = if a == 0 then (if e == 0 then 1 else 0) else exp_at (log_at a * e % 255)
