-- ===== src/Sync/Detect.antt =====
-- When `check_sync_word` reports the sync word, over one bit and over the bits of a word.
use mathlib.Core.Path.{subst}
use echo_protocol.Base.{
  ℕ, zero, suc, ◌+◌, ◌-◌, ◌*◌, ◌/◌, ◌%◌, ◌^◌, ◌≤◌, ◌<◌, ◌≡◌, ◌↔◌, ◌⊎◌, inl, inr,
}
use echo_protocol.Base.{refl, sym, ap, ◌∙◌, arith, bit_or, bit_xor, u32, ◌<<◌, List, [], ◌∷◌}
use echo_protocol.Base.{Bool, true, false, if◌then◌else◌, ◌==◌, Bool-cases, min}
use echo_protocol.Base.Xor.{bit_or_fields, bit_and_mask}
use echo_protocol.Base.Powers.{shift_low, word_bits, next_bit}
use echo_protocol.Sync.{Correlator, check_sync_word, corr_push, corr_decide, popcount}
use echo_protocol.Sync.{sync_word}
use echo_protocol.Sync.Popcount.{popcount-le, popcount_triangle, popcount-sync_word}

-- The Hamming distance to the sync word.
abbrev pub distance : ℕ → ℕ
distance reg = popcount (bit_xor reg sync_word)

-- The decision over a full register is that at most two of its bits differ from the sync word: the
-- filter on the number of ones rejects nothing that the correlation would accept.
pub corr_decide_iff :
    (word : ℕ) (c : Correlator) → ((corr_decide word c).result ≡ 0) ↔ (distance c.corr_reg ≤ 2)
unfolding corr_decide
corr_decide_iff word c = ground (
  arith,
  popcount-le (bit_xor c.corr_reg sync_word),
  popcount_triangle c.corr_reg sync_word,
  popcount-sync_word,
)

-- Both registers are 32 bits wide, and the count of bits stops at 32.
pub record IsValid (word : ℕ) (c : Correlator) : Type 0 where
  pub word_in : word < 2 ^ 32
  pub reg_in : c.corr_reg < 2 ^ 32
  pub bits_in : c.corr_bits ≤ 32

-- A register after one more bit.
abbrev pub shifted : ℕ → ℕ → ℕ
shifted r bit = (2 * r + bit) % 2 ^ 32

shift_or : (r bit : ℕ) → bit < 2 → bit_or (u32 (r << 1)) bit ≡ shifted r bit
shift_or r bit h =
    ap (λ t. bit_or t bit) {y = (r % 2 ^ 31) * 2 ^ 1} (omega arith)
    ∙ bit_or_fields 1 (r % 2 ^ 31) bit (omega arith)
    ∙ omega arith

pub check_word_lem :
    (word : ℕ) (c : Correlator) (bit : ℕ)
    → bit < 2
    → (check_sync_word word c bit).check_word ≡ shifted word bit
unfolding check_sync_word corr_decide
check_word_lem word c bit h = ground (arith, shift_or word bit h)

corr_reg_lem :
    (c : Correlator) (bit : ℕ) → bit < 2 → (corr_push c bit).corr_reg ≡ shifted c.corr_reg bit
unfolding corr_push
corr_reg_lem c bit h = bit_and_mask 32 _ ∙ omega (arith, shift_or c.corr_reg bit h)

corr_bits_lem : (c : Correlator) (bit : ℕ) → (corr_push c bit).corr_bits ≡ min (c.corr_bits + 1) 32
unfolding corr_push
corr_bits_lem c bit = ground arith

-- What a decision leaves: the register as it was, or a reset one with the result 0.
corr_decide-leaves :
    (word : ℕ) (c : Correlator)
    → let r = corr_decide word c in
      (r.check_word ≡ word)
      × (((r.result ≡ 1) × (r.correlator ≡ c))
          ⊎ ((r.result ≡ 0) × (r.correlator ≡ record { corr_reg = 0; corr_bits = 0 })))
unfolding corr_decide
corr_decide-leaves word c = ground arith

-- From registers in range, `check_sync_word` of a bit reports the sync word exactly when the last 32
-- bits of `*check_word` are the sync word, or when the correlator has seen 32 bits and at most two of
-- its last 32 differ from the sync word.
pub check_sync_word_iff :
    (word : ℕ) (c : Correlator) (bit : ℕ)
    → bit < 2
    → IsValid word c
    → ((check_sync_word word c bit).result ≡ 0) ↔ (
        (shifted word bit ≡ sync_word)
        ⊎ ((31 ≤ c.corr_bits) × (distance (shifted c.corr_reg bit) ≤ 2)))
unfolding check_sync_word
check_sync_word_iff word c bit h v = ground (
  arith,
  shift_or word bit h,
  corr_reg_lem c bit h,
  corr_bits_lem c bit,
  corr_decide_iff (bit_or (u32 (word << 1)) bit) (corr_push c bit),
)

-- What a call leaves: the shifted word, and a correlator that is reset by a report and else holds
-- one more bit.
check_leaves :
    (word : ℕ) (c : Correlator) (bit : ℕ)
    → bit < 2
    → let r = check_sync_word word c bit in
      (r.check_word ≡ shifted word bit)
      × (((r.result ≡ 1) × (r.correlator ≡ corr_push c bit))
          ⊎ ((r.result ≡ 0) × (r.correlator ≡ record { corr_reg = 0; corr_bits = 0 })))
unfolding check_sync_word
check_leaves word c bit h = ground (
  arith,
  shift_or word bit h,
  corr_decide-leaves (bit_or (u32 (word << 1)) bit) (corr_push c bit),
)

corr_push-IsValid :
    {word : ℕ} {c : Correlator} (bit : ℕ)
    → bit < 2
    → IsValid word c
    → IsValid (shifted word bit) (corr_push c bit)
corr_push-IsValid {word} {c} bit h v = omega (arith, corr_reg_lem c bit h, corr_bits_lem c bit)

-- `check_sync_word` of a bit keeps both registers 32 bits wide and the count at most 32, and a report
-- leaves the correlator reset.
pub check_sync_word-IsValid :
    {word : ℕ} {c : Correlator} (bit : ℕ)
    → bit < 2
    → IsValid word c
    → let r = check_sync_word word c bit in
      IsValid r.check_word r.correlator
      × (r.result ≡ 0 → r.correlator ≡ record { corr_reg = 0; corr_bits = 0 })
check_sync_word-IsValid {word} {c} bit h v =
    ground (arith, check_leaves word c bit h, corr_push-IsValid bit h v)

-- The receiver in search of a frame: it stops at the first report.
unfoldable pub finds : ℕ → Correlator → List ℕ → Bool
finds word c [] = false
finds word c (bit ∷ bits) =
    let r = check_sync_word word c bit in
    let rest = finds r.check_word r.correlator bits in if r.result == 0 then true else rest

-- The top `k` of a word's 32 bits have gone into both registers.
record Fed (sent k word : ℕ) (c : Correlator) : Type 0 where
  valid : IsValid word c
  in_word : word % 2 ^ k ≡ sent / 2 ^ (32 - k)
  in_reg : c.corr_reg % 2 ^ k ≡ sent / 2 ^ (32 - k)
  counted : k ≤ c.corr_bits

-- The next bit goes in.
feed_low :
    (sent k n r : ℕ)
    → k + suc n ≡ 32
    → r % 2 ^ k ≡ sent / 2 ^ (32 - k)
    → shifted r (sent / 2 ^ n % 2) % 2 ^ suc k ≡ sent / 2 ^ (32 - suc k)
feed_low sent k n r e low =
    let n=1 : 32 - k ≡ suc n = omega arith in
    let n=0 : 32 - suc k ≡ n = omega arith in
    shift_low 32 k r (sent / 2 ^ n % 2) (omega arith) (omega arith)
    ∙ ap (λ t. 2 * t + sent / 2 ^ n % 2) (low ∙ ap (λ t. sent / 2 ^ t) n=1)
    ∙ sym (next_bit sent n)
    ∙ sym (ap (λ t. sent / 2 ^ t) n=0)

Fed-push :
    {sent k word : ℕ} {c : Correlator} (n : ℕ)
    → k + suc n ≡ 32
    → Fed sent k word c
    → let bit = sent / 2 ^ n % 2 in Fed sent (suc k) (shifted word bit) (corr_push c bit)
Fed-push {sent} {k} {word} {c} n e f =
    let bit : ℕ = sent / 2 ^ n % 2 in
    record {
      valid = corr_push-IsValid bit (omega arith) f.valid;
      in_word = feed_low sent k n word e f.in_word;
      in_reg =
          ap (λ t. t % 2 ^ suc k) (corr_reg_lem c bit (omega arith))
          ∙ feed_low sent k n c.corr_reg e f.in_reg;
      counted = omega (arith, f.counted, f.valid, corr_bits_lem c bit);
    }

-- The last bit of the word is reported.
last_reported :
    {sent word : ℕ} {c : Correlator}
    → sent < 2 ^ 32
    → distance sent ≤ 2
    → Fed sent 31 word c
    → (check_sync_word word c (sent / 2 ^ 0 % 2)).result ≡ 0
last_reported {sent} {word} {c} small near f =
    let bit : ℕ = sent / 2 ^ 0 % 2 in
    let full : shifted c.corr_reg bit ≡ sent =
      omega (arith, feed_low sent 31 0 c.corr_reg refl f.in_reg) in
    (check_sync_word_iff word c bit (omega arith) f.valid).1 (inr (f.counted, rw full near))

-- A bit that is not reported goes into both registers.
Fed-check :
    {sent k word : ℕ} {c : Correlator} (n : ℕ)
    → k + suc n ≡ 32
    → Fed sent k word c
    → let r = check_sync_word word c (sent / 2 ^ n % 2) in
      (r.result == 0) ≡ false → Fed sent (suc k) r.check_word r.correlator
Fed-check {sent} {k} {word} {c} n e f unreported =
    let bit : ℕ = sent / 2 ^ n % 2 in
    let left = check_leaves word c bit (omega arith) in
    let same : (check_sync_word word c bit).correlator ≡ corr_push c bit = ground (arith, left) in
    rw (left.0, same) (Fed-push n e f)

finds_from :
    (n k sent word : ℕ) (c : Correlator)
    → k + suc n ≡ 32
    → sent < 2 ^ 32
    → distance sent ≤ 2
    → Fed sent k word c
    → finds word c (word_bits (suc n) sent) ≡ true
unfolding finds word_bits
finds_from zero k sent word c e small near f =
    let k=31 : k ≡ 31 = omega arith in
    rw (last_reported small near (subst (λ j. Fed sent j word c) k=31 f))
finds_from (suc n) k sent word c e small near f =
    elim (Bool-cases ((check_sync_word word c (sent / 2 ^ suc n % 2)).result == 0)) [
      | inl reported ↦ rw reported
      | inr unreported ↦ rw unreported (
          finds_from n (suc k) sent _ _ (omega arith) small near (Fed-check (suc n) e f unreported))
    ]

-- Whatever is in the registers, in range: of a 32-bit word that differs from the sync word in at most
-- two bits, a report comes by its last bit at the latest.
pub finds_word :
    (sent word : ℕ) (c : Correlator)
    → sent < 2 ^ 32
    → distance sent ≤ 2
    → IsValid word c
    → finds word c (word_bits 32 sent) ≡ true
finds_word sent word c small near v =
    finds_from 31 0 sent word c (omega arith) small near
      (record { valid = v; in_word = omega arith; in_reg = omega arith; counted = omega arith })
