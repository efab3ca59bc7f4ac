-- ===== src/Base/Bytes.antt =====
-- Bytes as bits, the highest first, and a loop over bits as a list.
use Prim.Native.Nat.{ℕ, zero, suc, ◌+◌, ◌-◌, ◌*◌, ◌/◌, ◌%◌, ◌^◌, ◌<◌, bit_and}
use mathlib.Core.Path.{◌≡◌, refl, ap, ap₂, ◌∙◌}
use mathlib.Core.List.{List, [], ◌∷◌, ◌++◌}
use native.Mathlib.Omega.{arith}
use echo_protocol.Base.Lists.{length, get_or, length-append, take, drop, set, replicate}
use echo_protocol.Base.Words.{AllBits, AllBytes, ◌>>◌}
use echo_protocol.Base.Xor.{bit_and_mask}
use echo_protocol.Base.Powers.{word_bits}

-- The bits that `n` rounds of a loop take, from the round `k` on.
unfoldable pub range_bits : (ℕ → ℕ) → ℕ → ℕ → List ℕ
range_bits bit zero k = []
range_bits bit (suc n) k = bit k ∷ range_bits bit n (k + 1)

unfoldable pub bits_of : List ℕ → List ℕ
bits_of [] = []
bits_of (b ∷ bs) = word_bits 8 b ++ bits_of bs

pub length-word_bits : (n w : ℕ) → length (word_bits n w) ≡ n
unfolding word_bits
length-word_bits zero w = refl
length-word_bits (suc n) w = ap suc (length-word_bits n w)

pub length-bits_of : (bs : List ℕ) → length (bits_of bs) ≡ length bs * 8
unfolding bits_of
length-bits_of [] = refl
length-bits_of (b ∷ bs) =
    omega
      (arith, length-append (word_bits 8 b) (bits_of bs), length-word_bits 8 b, length-bits_of bs)

pub AllBits-append : (xs ys : List ℕ) → AllBits xs → AllBits ys → AllBits (xs ++ ys)
AllBits-append [] ys a b = b
AllBits-append (x ∷ xs) ys a b = (a.0, AllBits-append xs ys a.1 b)

pub word_bits-AllBits : (n w : ℕ) → AllBits (word_bits n w)
unfolding word_bits
word_bits-AllBits zero w = tt
word_bits-AllBits (suc n) w = (omega arith, word_bits-AllBits n w)

pub bits_of-AllBits : (bs : List ℕ) → AllBits (bits_of bs)
unfolding bits_of
bits_of-AllBits [] = tt
bits_of-AllBits (b ∷ bs) =
    AllBits-append (word_bits 8 b) (bits_of bs) (word_bits-AllBits 8 b) (bits_of-AllBits bs)

pub range_bits-cong :
    (f g : ℕ → ℕ) (n k j : ℕ)
    → ((i : ℕ) → i < n → f (k + i) ≡ g (j + i))
    → range_bits f n k ≡ range_bits g n j
unfolding range_bits
range_bits-cong f g zero k j h = refl
range_bits-cong f g (suc n) k j h =
    let k=k+0 : k + 0 ≡ k = omega arith in
    let j=j+0 : j + 0 ≡ j = omega arith in
    ap₂ ◌∷◌ (rw (k=k+0, j=j+0) at (h 0 (omega arith))) (
      range_bits-cong f g n (k + 1) (j + 1) λ i p.
        let k' : k + 1 + i ≡ k + suc i = omega arith in
        let j' : j + 1 + i ≡ j + suc i = omega arith in rw (k', j') (h (suc i) (omega arith)))

-- `(p[i >> 3] >> (7 - (i & 7))) & 1`
abbrev pub bit_in : List ℕ → ℕ → ℕ
bit_in bytes i = bit_and (get_or bytes (i >> 3) 0 >> (7 - bit_and i 7)) 1

bit_in-next : (b : ℕ) (bs : List ℕ) (i : ℕ) → bit_in (b ∷ bs) (8 + i) ≡ bit_in bs (0 + i)
bit_in-next b bs i =
    let place : (8 + i) >> 3 ≡ suc (i >> 3) = omega arith in
    let low : bit_and (8 + i) 7 ≡ bit_and i 7 =
      omega (arith, bit_and_mask 3 (8 + i), bit_and_mask 3 i) in
    let same : 0 + i ≡ i = omega arith in rw (place, low, same) refl

-- The bit `i` of the first byte.
bit_in-first : (b : ℕ) (bs : List ℕ) (i : ℕ) → i < 8 → bit_in (b ∷ bs) (0 + i) ≡ b / 2 ^ (7 - i) % 2
bit_in-first b bs i h =
    let place : (0 + i) >> 3 ≡ 0 = omega arith in
    let low : bit_and (0 + i) 7 ≡ i = bit_and_mask 3 (0 + i) ∙ omega arith in
    rw (place, low) (bit_and_mask 1 _)

range_bits-split :
    (f : ℕ → ℕ) (m n k : ℕ) → range_bits f (m + n) k ≡ range_bits f m k ++ range_bits f n (k + m)
unfolding range_bits
range_bits-split f zero n k =
    let n=0+n : 0 + n ≡ n = omega arith in
    let k=k+0 : k + 0 ≡ k = omega arith in rw (n=0+n, k=k+0) refl
range_bits-split f (suc m) n k =
    let more : suc m + n ≡ suc (m + n) = omega arith in
    let next : k + suc m ≡ k + 1 + m = omega arith in
    rw (more, next) (ap (λ l. f k ∷ l) (range_bits-split f m n (k + 1)))

-- A loop that takes the bits of a word from the top.
pub range_bits-word :
    (f : ℕ → ℕ) (n k w : ℕ)
    → ((i : ℕ) → i < n → f (k + i) ≡ w / 2 ^ (n - 1 - i) % 2)
    → range_bits f n k ≡ word_bits n w
unfolding range_bits word_bits
range_bits-word f zero k w h = refl
range_bits-word f (suc n) k w h =
    let k=k+0 : k + 0 ≡ k = omega arith in
    let top : suc n - 1 - 0 ≡ n = omega arith in
    ap₂ ◌∷◌ (rw (k=k+0, top) at (h 0 (omega arith))) (
      range_bits-word f n (k + 1) w λ i p.
        let k' : k + 1 + i ≡ k + suc i = omega arith in
        let low : n - 1 - i ≡ suc n - 1 - suc i = omega arith in
        rw (k', low) (h (suc i) (omega arith)))

-- The loop over the bits of bytes takes them in order.
pub range_bits-bytes : (bs : List ℕ) → range_bits (bit_in bs) (length bs * 8) 0 ≡ bits_of bs
unfolding bits_of
range_bits-bytes [] = unfold range_bits in refl
range_bits-bytes (b ∷ bs) =
    let size : suc (length bs) * 8 ≡ 8 + length bs * 8 = omega arith in
    rw (size, range_bits-split (bit_in (b ∷ bs)) 8 (length bs * 8) 0)
      (ap₂ ◌++◌ (range_bits-word (bit_in (b ∷ bs)) 8 0 b (bit_in-first b bs)) (
        range_bits-cong (bit_in (b ∷ bs)) (bit_in bs) (length bs * 8) 8 0
          (λ i p. bit_in-next b bs i)
        ∙ range_bits-bytes bs))

pub AllBytes-append : (xs ys : List ℕ) → AllBytes xs → AllBytes ys → AllBytes (xs ++ ys)
AllBytes-append [] ys a b = b
AllBytes-append (x ∷ xs) ys a b = (a.0, AllBytes-append xs ys a.1 b)

pub take-AllBytes : (n : ℕ) (xs : List ℕ) → AllBytes xs → AllBytes (take n xs)
take-AllBytes zero xs a = tt
take-AllBytes (suc n) [] a = tt
take-AllBytes (suc n) (x ∷ xs) a = (a.0, take-AllBytes n xs a.1)

pub drop-AllBytes : (n : ℕ) (xs : List ℕ) → AllBytes xs → AllBytes (drop n xs)
drop-AllBytes zero xs a = a
drop-AllBytes (suc n) [] a = tt
drop-AllBytes (suc n) (x ∷ xs) a = drop-AllBytes n xs a.1

pub set-AllBytes : (xs : List ℕ) (i v : ℕ) → v < 256 → AllBytes xs → AllBytes (set xs i v)
set-AllBytes [] i v h a = tt
set-AllBytes (x ∷ xs) zero v h a = (h, a.1)
set-AllBytes (x ∷ xs) (suc i) v h a = (a.0, set-AllBytes xs i v h a.1)

pub get_or-lt : (xs : List ℕ) (i : ℕ) → AllBytes xs → get_or xs i 0 < 256
get_or-lt [] i a = omega arith
get_or-lt (x ∷ xs) zero a = a.0
get_or-lt (x ∷ xs) (suc i) a = get_or-lt xs i a.1

pub get_or-AllBytes : (xs : List ℕ) → ((i : ℕ) → get_or xs i 0 < 256) → AllBytes xs
get_or-AllBytes [] h = tt
get_or-AllBytes (x ∷ xs) h = (h 0, get_or-AllBytes xs (λ i. h (suc i)))

pub replicate-AllBytes : (n : ℕ) → AllBytes (replicate n 0)
replicate-AllBytes zero = tt
replicate-AllBytes (suc n) = (omega arith, replicate-AllBytes n)
