-- ===== src/Ring/Inv.antt =====
-- The invariant of the ring: indices in range, and the bits of the byte being written that are
-- still to come are zero.
use echo_protocol.Base.{ℕ, ◌+◌, ◌-◌, ◌*◌, ◌/◌, ◌%◌, ◌^◌, ◌≤◌, ◌<◌, ◌≡◌, ◌≢◌, arith}
use echo_protocol.Base.{
  bit_and, bit_or, u8, ltb, ◌==◌, ◌&&◌, ◌||◌, not, true, Bool, all_below, refl, if◌then◌else◌, ◌<<◌,
  all_below_sound,
}
use echo_protocol.Base.Xor.{bit_and_mask}
use echo_protocol.Ring.{
  Buffer, buffer_size, buffer_mask, put_bits, get_bits, rb_reset, advance_put, or_bit,
}
use native.Mathlib.Nat.{pow-le-pow_right}
use native.Mathlib.Decide.{ℕ_discrete}

-- How many bytes the writer is ahead of the reader, going round.
abbrev pub distance : Buffer → ℕ
distance b = (b.head + buffer_size - b.tail) % buffer_size

-- How many bits the ring holds.
abbrev pub stored : Buffer → ℕ
stored b = 8 * distance b + b.count_put - b.count_get

pub record IsValid (b : Buffer) : Type 0 where
  pub head_in : b.head < buffer_size
  pub tail_in : b.tail < buffer_size
  pub put_in : b.count_put ≤ 8
  pub get_in : b.count_get ≤ 8
  pub behind : b.head ≡ b.tail → b.count_get ≤ b.count_put
  pub started : b.head ≢ b.tail → 1 ≤ b.count_put
  pub clean : b.buf b.head < 2 ^ b.count_put

pub masked : (i : ℕ) → bit_and i buffer_mask ≡ i % buffer_size
masked i = bit_and_mask 14 i

-- A bit of a byte.
abbrev pub bit_of : ℕ → ℕ → ℕ
bit_of x j = x / 2 ^ j % 2

-- What `buf[h] |= bit << c` does to bit `j` of a byte whose bits from `c` on are zero.
or_row : ℕ → ℕ → ℕ → ℕ → Bool
or_row c b x j =
    let y = u8 (bit_or x (b << c)) in
    not (ltb x (2 ^ c))
    || ((bit_of y j == (if j == c then b else bit_of x j)) && ltb y (2 ^ (c + 1)))

or_rows : ℕ → ℕ → ℕ → Bool
or_rows c b x = all_below 8 (or_row c b x)

or_columns : ℕ → ℕ → Bool
or_columns c b = all_below 256 (or_rows c b)

or_table : all_below 8 (λ c. all_below 2 (or_columns c)) ≡ true
unfolding all_below or_columns or_rows or_row
or_table = refl

or_checked : (c b x j : ℕ) → c < 8 → b < 2 → x < 256 → j < 8 → or_row c b x j ≡ true
or_checked c b x j hc hb hx hj =
    all_below_sound 8 (or_row c b x) j
      (unfold or_rows in
        all_below_sound 256 (or_rows c b) x
          (unfold or_columns in
            all_below_sound 2 (or_columns c) b
              (all_below_sound 8 (λ c. all_below 2 (or_columns c)) c or_table hc) hb)
          hx)
      hj

pub or_bit_of :
    (c b x j : ℕ)
    → c < 8
    → b < 2
    → x < 2 ^ c
    → x < 256
    → j < 8
    → (bit_of (u8 (bit_or x (b << c))) j ≡ (if j == c then b else bit_of x j))
      × (u8 (bit_or x (b << c)) < 2 ^ (c + 1))
or_bit_of c b x j hc hb small hx hj =
    let y : ℕ = u8 (bit_or x (b << c)) in
    let ok : or_row c b x j ≡ true = or_checked c b x j hc hb hx hj in unfold or_row in ground arith

pub rb_reset-IsValid : (b : Buffer) → IsValid (rb_reset b)
unfolding rb_reset
rb_reset-IsValid b = record {
  head_in = omega arith;
  tail_in = omega arith;
  put_in = omega arith;
  get_in = omega arith;
  behind = λ e. omega arith;
  started = λ ne. absurd (ne refl);
  clean = omega arith;
}

-- `get_bits` leaves a valid ring valid, whether or not there is a bit.
pub get_bits-IsValid : {b : Buffer} → IsValid b → IsValid (get_bits b).0
unfolding get_bits
get_bits-IsValid {b} v = ground (arith, masked (b.tail + 1))

-- `put_bits` finds the ring full: the writer is one byte behind the reader.
abbrev pub IsFull : Buffer → Type 0
IsFull b = bit_and (b.head + 1) buffer_mask ≡ b.tail

-- The ring that `put_bits` writes its bit to: the current byte has room for it.
pub record Moved (b m : Buffer) : Type 0 where
  pub head_in : m.head < buffer_size
  pub room : m.count_put < 8
  pub same_tail : m.tail ≡ b.tail
  pub same_get : m.count_get ≡ b.count_get
  pub same_end : 8 * distance m + m.count_put ≡ 8 * distance b + b.count_put
  pub ordered : m.head ≡ m.tail → m.count_get ≤ m.count_put
  pub clean : m.buf m.head < 2 ^ m.count_put

pub advance_put-Moved : {b : Buffer} → IsValid b → ¬ (IsFull b) → Moved b (advance_put b)
unfolding advance_put
advance_put-Moved {b} v n = ground (arith, masked (b.head + 1))

pub low_byte : (c : ℕ) → c < 8 → 2 ^ c ≤ 128
low_byte c h = pow-le-pow_right {n = 2} (omega arith) {i = c} {j = 7} (omega arith)

pub or_bit-IsValid : {b m : Buffer} (x : ℕ) → x < 2 → IsValid b → Moved b m → IsValid (or_bit m x)
unfolding or_bit
or_bit-IsValid {b} {m} x h v w =
    ground (arith, low_byte m.count_put, or_bit_of m.count_put x (m.buf m.head) 0)

pub put_bits_full : (b : Buffer) (x : ℕ) → IsFull b → put_bits b x ≡ (b, 0)
unfolding put_bits
put_bits_full b x f = ground arith

pub put_bits_room :
    (b : Buffer) (x : ℕ) → ¬ (IsFull b) → put_bits b x ≡ (or_bit (advance_put b) x, 1)
unfolding put_bits
put_bits_room b x f = ground arith

pub IsFull-dec : (b : Buffer) → Dec (IsFull b)
IsFull-dec b = ℕ_discrete (bit_and (b.head + 1) buffer_mask) b.tail

-- `put_bits` of a bit leaves a valid ring valid, whether or not there is room.
pub put_bits-IsValid : {b : Buffer} (x : ℕ) → x < 2 → IsValid b → IsValid (put_bits b x).0
put_bits-IsValid {b} x h v = elim (IsFull-dec b) [
  | yes f ↦ rw (put_bits_full b x f) v
  | no f ↦ rw (put_bits_room b x f) (or_bit-IsValid x h v (advance_put-Moved v f))
]
