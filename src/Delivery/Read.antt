-- ===== src/Delivery/Read.antt =====
-- The loops of `rb_to_tun` over the ring: the header's bits are dropped, and the payload's bits make
-- up its bytes.
use mathlib.Core.Path.{subst}
use native.Mathlib.Nat.{div-le_self}
use echo_protocol.Base.{
  ℕ, zero, suc, ◌+◌, ◌-◌, ◌*◌, ◌/◌, ◌%◌, ◌^◌, ◌≤◌, ◌<◌, ◌≡◌, refl, sym, ap, ap₂, ◌∙◌, arith, Bool,
  true, false,
}
use echo_protocol.Base.{
  List, [], ◌∷◌, ◌++◌, append_assoc, append-nil, Option, some, none, length, length-append, set,
  replicate, u8, bit_or, ◌<<◌, ◌>>◌, AllBytes,
}
use echo_protocol.Base.{get_or-set_self, length-set}
use echo_protocol.Base.Xor.{bit_or_fields}
use echo_protocol.Base.Powers.{word_bits, next_bit}
use echo_protocol.Base.Bytes.{bits_of, length-bits_of, length-word_bits}
use echo_protocol.Ring.{Buffer, get_bits}
use echo_protocol.Ring.Inv.{IsValid as IsRing, get_bits-IsValid}
use echo_protocol.Ring.Refine.{contents, dequeue, get_bits_refines}
use echo_protocol.Rohc.{byte}
use echo_protocol.Delivery.{skip_bits, shift_into, read_bits}

-- Reading a ring that holds a bit.
record Got (b : Buffer) (x : ℕ) (q : List ℕ) : Type 0 where
  bit : (get_bits b).1 ≡ some x
  rest : contents (get_bits b).0 ≡ q
  ring : IsRing (get_bits b).0

got : {b : Buffer} (x : ℕ) (q : List ℕ) → IsRing b → contents b ≡ x ∷ q → Got b x q
unfolding dequeue
got {b} x q v e =
    let r = get_bits_refines v ∙ ap dequeue e in
    record { bit = ap (λ p. p.0) r; rest = ap (λ p. p.1) r; ring = get_bits-IsValid v }

skip_more :
    (n : ℕ) (b : Buffer) (x : ℕ)
    → (get_bits b).1 ≡ some x
    → skip_bits n (get_bits b).0 ≡ skip_bits (suc n) b
unfolding skip_bits
skip_more n b x e =
    ap
      (λ (r : Option ℕ). elim r [
        | none ↦ ((get_bits b).0, false)
        | some x ↦ skip_bits n (get_bits b).0
      ])
      (sym e)

pub record Skipped (end : Buffer × Bool) (q : List ℕ) : Type 0 where
  pub all : end.1 ≡ true
  pub rest : contents end.0 ≡ q
  pub ring : IsRing end.0

pub skip_bits_lem :
    (xs q : List ℕ) (b : Buffer)
    → IsRing b
    → contents b ≡ xs ++ q
    → Skipped (skip_bits (length xs) b) q
skip_bits_lem [] q b v e = unfold skip_bits in record { all = refl; rest = e; ring = v }
skip_bits_lem (x ∷ xs) q b v e =
    let g = got x (xs ++ q) v e in
    subst (λ end. Skipped end q) (skip_more (length xs) b x g.bit)
      (skip_bits_lem xs q (get_bits b).0 g.ring g.rest)

-- What the loop makes of the bits, without the ring.
unfoldable pub shift_all : ℕ → List ℕ → List ℕ → List ℕ
shift_all i [] a = a
shift_all i (x ∷ xs) a = shift_all (i + 1) xs (shift_into i x a)

read_more :
    (n i : ℕ) (a : List ℕ) (b : Buffer) (x : ℕ)
    → (get_bits b).1 ≡ some x
    → read_bits n (i + 1) (shift_into i x a) (get_bits b).0 ≡ read_bits (suc n) i a b
unfolding read_bits
read_more n i a b x e =
    ap
      (λ (r : Option ℕ). elim r [
        | none ↦ ((get_bits b).0, none)
        | some x ↦ read_bits n (i + 1) (shift_into i x a) (get_bits b).0
      ])
      (sym e)

pub record ReadAll (end : Buffer × Option (List ℕ)) (a q : List ℕ) : Type 0 where
  pub all : end.1 ≡ some a
  pub rest : contents end.0 ≡ q
  pub ring : IsRing end.0

read_bits-shift_all :
    (xs q a : List ℕ) (i : ℕ) (b : Buffer)
    → IsRing b
    → contents b ≡ xs ++ q
    → ReadAll (read_bits (length xs) i a b) (shift_all i xs a) q
unfolding shift_all
read_bits-shift_all [] q a i b v e = unfold read_bits in record { all = refl; rest = e; ring = v }
read_bits-shift_all (x ∷ xs) q a i b v e =
    let g = got x (xs ++ q) v e in
    subst (λ end. ReadAll end (shift_all (i + 1) xs (shift_into i x a)) q)
      (read_more (length xs) i a b x g.bit)
      (read_bits-shift_all xs q (shift_into i x a) (i + 1) (get_bits b).0 g.ring g.rest)

set_same : (a : List ℕ) (j w : ℕ) → j < length a → byte a j ≡ w → set a j w ≡ a
set_same [] j w h e = refl
set_same (x ∷ xs) zero w h e = ap (λ t. t ∷ xs) (sym e)
set_same (x ∷ xs) (suc j) w h e = ap (λ t. x ∷ t) (set_same xs j w (omega arith) e)

set_again : (a : List ℕ) (j v w : ℕ) → set (set a j v) j w ≡ set a j w
set_again [] j v w = refl
set_again (x ∷ xs) zero v w = refl
set_again (x ∷ xs) (suc j) v w = ap (λ t. x ∷ t) (set_again xs j v w)

set-append :
    (xs : List ℕ) (y v : ℕ) (ys : List ℕ) → set (xs ++ (y ∷ ys)) (length xs) v ≡ xs ++ (v ∷ ys)
set-append [] y v ys = refl
set-append (x ∷ xs) y v ys = ap (λ t. x ∷ t) (set-append xs y v ys)

byte-append : (xs : List ℕ) (y : ℕ) (ys : List ℕ) → byte (xs ++ (y ∷ ys)) (length xs) ≡ y
byte-append [] y ys = refl
byte-append (x ∷ xs) y ys = byte-append xs y ys

-- The last bits of a byte, shifted in at its place.
shift_byte :
    (w n j i : ℕ) (a : List ℕ)
    → w < 256
    → n ≤ 8
    → i + n ≡ 8 * j + 8
    → j < length a
    → byte a j ≡ w / 2 ^ n
    → shift_all i (word_bits n w) a ≡ set a j w
unfolding shift_all word_bits
shift_byte w zero j i a small le place inside e = sym (set_same a j w inside (e ∙ omega arith))
shift_byte w (suc n) j i a small le place inside e =
    let x = w / 2 ^ n % 2 in
    let here : i >> 3 ≡ j = omega arith in
    let more : u8 (bit_or (byte a j << 1) x) ≡ w / 2 ^ n =
      omega (
        arith,
        e,
        bit_or_fields 1 (byte a j) x (omega arith),
        next_bit w n,
        div-le_self w (2 ^ n),
      ) in
    let next : shift_into i x a ≡ set a j (w / 2 ^ n) = rw (here, more) refl in
    ap (shift_all (i + 1) (word_bits n w)) next
    ∙ shift_byte w n j (i + 1) (set a j (w / 2 ^ n)) small (omega arith) (omega arith)
        (omega (arith, length-set a j (w / 2 ^ n))) (get_or-set_self a j (w / 2 ^ n) 0 inside)
    ∙ set_again a j (w / 2 ^ n) w

shift_all-append :
    (xs ys a : List ℕ) (i : ℕ)
    → shift_all i (xs ++ ys) a ≡ shift_all (i + length xs) ys (shift_all i xs a)
unfolding shift_all
shift_all-append [] ys a i = ap (λ k. shift_all k ys a) {x = i} (omega arith)
shift_all-append (x ∷ xs) ys a i =
    shift_all-append xs ys (shift_into i x a) (i + 1)
    ∙ ap (λ k. shift_all k ys (shift_all (i + 1) xs (shift_into i x a))) {x = i + 1 + length xs}
        (omega arith)

-- The bits of bytes fill the zeros behind what is there.
shift_all-bytes :
    (bs front : List ℕ) (m : ℕ)
    → AllBytes bs
    → length bs ≤ m
    → shift_all (8 * length front) (bits_of bs) (front ++ replicate m 0)
      ≡ (front ++ bs) ++ replicate (m - length bs) 0
unfolding bits_of
shift_all-bytes [] front m b h =
    let all : m - 0 ≡ m = omega arith in unfold shift_all in rw (all, append-nil front) refl
shift_all-bytes (w ∷ bs) front zero b h = absurd (omega arith)
shift_all-bytes (w ∷ bs) front (suc m) b h =
    let place = 8 * length front in
    let zeros : List ℕ = replicate m 0 in
    let left : suc m - suc (length bs) ≡ m - length bs = omega arith in
    let size = length-append front (0 ∷ zeros) in
    let one : shift_all place (word_bits 8 w) (front ++ (0 ∷ zeros))
        ≡ (front ++ (w ∷ [])) ++ zeros =
      shift_byte w 8 (length front) place (front ++ (0 ∷ zeros)) b.0 (omega arith) refl
        (omega (arith, size)) (byte-append front 0 zeros ∙ omega (arith, b.0))
      ∙ set-append front 0 w zeros
      ∙ sym (append_assoc front (w ∷ []) zeros) in
    let next : place + length (word_bits 8 w) ≡ 8 * length (front ++ (w ∷ [])) =
      omega (arith, length-word_bits 8 w, length-append front (w ∷ [])) in
    shift_all-append (word_bits 8 w) (bits_of bs) (front ++ (0 ∷ zeros)) place
    ∙ ap₂ (λ k a. shift_all k (bits_of bs) a) next one
    ∙ shift_all-bytes bs (front ++ (w ∷ [])) m b.1 (omega arith)
    ∙ ap₂ (λ l k. l ++ replicate k 0) (append_assoc front (w ∷ []) bs) (sym left)

-- Of a ring that holds the bits of bytes, and then `q`: the loop over the payload, as long as those
-- bits, gives the bytes, with zeros behind them, and leaves `q`.
pub read_bits_lem :
    (bs q : List ℕ) (size : ℕ) (b : Buffer)
    → AllBytes bs
    → length bs ≤ size
    → IsRing b
    → contents b ≡ bits_of bs ++ q
    → ReadAll
        (read_bits (length bs * 8) 0 (replicate size 0) b)
        (bs ++ replicate (size - length bs) 0)
        q
read_bits_lem bs q size b all small v e =
    subst
      (λ n. ReadAll (read_bits n 0 (replicate size 0) b) (bs ++ replicate (size - length bs) 0) q)
      (length-bits_of bs)
      (subst (λ a. ReadAll (read_bits (length (bits_of bs)) 0 (replicate size 0) b) a q)
        (shift_all-bytes bs [] size all small)
        (read_bits-shift_all (bits_of bs) q (replicate size 0) 0 b v e))
