-- ===== src/Ring/Refine.antt =====
-- A valid ring is a first-in first-out queue of the bits that it holds.
use native.Mathlib.Decide.{ℕ_discrete}
use echo_protocol.Base.{ℕ, zero, suc, ◌+◌, ◌-◌, ◌*◌, ◌/◌, ◌%◌, ◌<◌, ◌≡◌, ◌≢◌, refl, ap, ap₂}
use echo_protocol.Base.{Option, none, some, List, [], ◌∷◌, ◌++◌, ◌∙◌, arith, length}
use echo_protocol.Base.{◌⊎◌, inl, inr, if◌then◌else◌, ◌==◌}
use echo_protocol.Base.Xor.{bit_and_mask}
use echo_protocol.Ring.{Buffer, buffer_size, put_bits, get_bits}
use echo_protocol.Ring.{advance_put, or_bit, advance_get, read_bit}
use echo_protocol.Ring.Inv.{IsValid, IsFull, Moved, stored, masked, bit_of, or_bit_of}
use echo_protocol.Ring.Inv.{
  put_bits-IsValid, put_bits_full, put_bits_room, advance_put-Moved, IsFull-dec,
}
use echo_protocol.Ring.Inv.{low_byte}

-- The ring's bits in the order of writing, eight to a byte, going round.
abbrev pub bit_at : (ℕ → ℕ) → ℕ → ℕ
bit_at m i = bit_of (m (i / 8 % buffer_size)) (i % 8)

abbrev pub bits_from : (ℕ → ℕ) → ℕ → ℕ → List ℕ
bits_from m i zero = []
bits_from m i (suc n) = bit_at m i ∷ bits_from m (i + 1) n

-- What the reader is still to get.
abbrev pub contents : Buffer → List ℕ
contents b = bits_from b.buf (8 * b.tail + b.count_get) (stored b)

-- The abstract queue's read.
unfoldable pub dequeue : List ℕ → Option ℕ × List ℕ
dequeue [] = (none, [])
dequeue (x ∷ q) = (some x, q)

bit_at-cong : (m : ℕ → ℕ) (i j : ℕ) → i % 131072 ≡ j % 131072 → bit_at m i ≡ bit_at m j
bit_at-cong m i j e =
    ap₂ (λ c k. bit_of (m c) k) {x = i / 8 % buffer_size} (omega arith) (omega arith)

bits_from-cong :
    (m : ℕ → ℕ) (n i j : ℕ) → i % 131072 ≡ j % 131072 → bits_from m i n ≡ bits_from m j n
bits_from-cong m zero i j e = refl
bits_from-cong m (suc n) i j e =
    ap₂ ◌∷◌ (bit_at-cong m i j e) (bits_from-cong m n (i + 1) (j + 1) (omega arith))

bits_from-snoc :
    (m : ℕ → ℕ) (n i : ℕ) → bits_from m i (suc n) ≡ bits_from m i n ++ (bit_at m (i + n) ∷ [])
bits_from-snoc m zero i = ap (λ k. bit_at m k ∷ []) {x = i} (omega arith)
bits_from-snoc m (suc n) i =
    ap (λ l. bit_at m i ∷ l)
      (bits_from-snoc m n (i + 1)
        ∙ ap (λ k. bits_from m (i + 1) n ++ (bit_at m k ∷ [])) {x = i + 1 + n} (omega arith))

bits_from-frame :
    (m m' : ℕ → ℕ) (n i : ℕ)
    → ((k : ℕ) → k < n → bit_at m (i + k) ≡ bit_at m' (i + k))
    → bits_from m i n ≡ bits_from m' i n
bits_from-frame m m' zero i h = refl
bits_from-frame m m' (suc n) i h =
    let i=i+0 : i + 0 ≡ i = omega arith in
    ap₂ ◌∷◌ (rw i=i+0 at (h 0 (omega arith))) (
      bits_from-frame m m' n (i + 1) λ k p.
        let shift : i + 1 + k ≡ i + suc k = omega arith in rw shift (h (suc k) (omega arith)))

length-bits_from : (m : ℕ → ℕ) (n i : ℕ) → length (bits_from m i n) ≡ n
length-bits_from m zero i = refl
length-bits_from m (suc n) i = ap suc (length-bits_from m n (i + 1))

pub length-contents : (b : Buffer) → length (contents b) ≡ stored b
length-contents b = length-bits_from b.buf (stored b) (8 * b.tail + b.count_get)

-- `bits_from` matches on `suc`, the code tests for an empty ring.
bits_from-pos :
    (m : ℕ → ℕ) (i n : ℕ) → n ≢ 0 → bits_from m i n ≡ bit_at m i ∷ bits_from m (i + 1) (n - 1)
bits_from-pos m i zero p = absurd (p refl)
bits_from-pos m i (suc n) p = ap (λ k. bit_at m i ∷ bits_from m (i + 1) k) {x = n} (omega arith)

get_bits_empty : {b : Buffer} → IsValid b → stored b ≡ 0 → get_bits b ≡ (b, none)
unfolding get_bits
get_bits_empty {b} v e = ground arith

-- The bit that `get_bits` reads, wherever the reader stands in its byte.
read_bit_lem :
    {b : Buffer} → IsValid b → read_bit (advance_get b) ≡ bit_at b.buf (8 * b.tail + b.count_get)
unfolding read_bit
read_bit_lem {b} v = bit_and_mask 1 _ ∙ ap₂ bit_of (same_buf ∙ ap b.buf byte) bit
  where
    same_buf : (advance_get b).buf (advance_get b).tail ≡ b.buf (advance_get b).tail
    same_buf = unfold advance_get in ground arith

    byte : (advance_get b).tail ≡ (8 * b.tail + b.count_get) / 8 % buffer_size
    byte = unfold advance_get in ground (arith, masked (b.tail + 1))

    bit : (advance_get b).count_get ≡ (8 * b.tail + b.count_get) % 8
    bit = unfold advance_get in ground arith

record Got (b b' : Buffer) : Type 0 where
  same_buf : b'.buf ≡ b.buf
  one_less : stored b' ≡ stored b - 1
  next : (8 * b'.tail + b'.count_get) % 131072 ≡ (8 * b.tail + b.count_get + 1) % 131072

get_bits-Got : {b : Buffer} → IsValid b → stored b ≢ 0 → Got b (get_bits b).0
unfolding get_bits
get_bits-Got {b} v ne = record {
  same_buf = ground arith;
  one_less = ground (arith, masked (b.tail + 1));
  next = ground (arith, masked (b.tail + 1));
}

get_bits-some :
    {b : Buffer}
    → IsValid b
    → stored b ≢ 0
    → (get_bits b).1 ≡ some (bit_at b.buf (8 * b.tail + b.count_get))
unfolding get_bits
get_bits-some {b} v ne = ground (arith, read_bit_lem v)

-- On a valid ring, `get_bits` is the read of a queue: it gives the oldest bit of the contents and
-- leaves the others, or gives none when there is none.
pub get_bits_refines :
    {b : Buffer} → IsValid b → let (b', r) = get_bits b in (r, contents b') ≡ dequeue (contents b)
unfolding dequeue
get_bits_refines {b} v = elim (ℕ_discrete (stored b) 0) [
  | yes e ↦ rw (get_bits_empty v e, e)
  | no ne ↦
      let g : Got b (get_bits b).0 = get_bits-Got v ne in
      rw (bits_from-pos b.buf (8 * b.tail + b.count_get) (stored b) ne) (
        ap₂ (λ r q. (r, q)) (get_bits-some v ne)
          (ap₂ (λ m n. bits_from m (8 * (get_bits b).0.tail + (get_bits b).0.count_get) n)
              g.same_buf g.one_less
            ∙ bits_from-cong b.buf (stored b - 1) _ _ g.next))
]

-- What the ring reads after a bit is written into the current byte.
or_bit-reads :
    {b m : Buffer} (x i : ℕ)
    → x < 2
    → Moved b m
    → bit_at (or_bit m x).buf i
      ≡ (if i % 131072 == 8 * m.head + m.count_put then x else bit_at m.buf i)
unfolding or_bit
or_bit-reads {b} {m} x i h w =
    ground (arith, low_byte m.count_put, or_bit_of m.count_put x (m.buf m.head) (i % 8))

-- The byte that `advance_put` clears holds none of the bits still to be read.
advance_put-keeps :
    {b : Buffer} (k : ℕ)
    → IsValid b
    → ¬ (IsFull b)
    → k < stored b
    → bit_at (advance_put b).buf (8 * b.tail + b.count_get + k)
      ≡ bit_at b.buf (8 * b.tail + b.count_get + k)
unfolding advance_put
advance_put-keeps {b} k v n lt = ground (arith, masked (b.head + 1))

-- A put that is not refused appends its bit.
put_bits_appends :
    {b : Buffer} (x : ℕ)
    → x < 2
    → IsValid b
    → ¬ (IsFull b)
    → contents (or_bit (advance_put b) x) ≡ contents b ++ (x ∷ [])
put_bits_appends {b} x h v n =
    ap₂ (bits_from (or_bit m x).buf) starts grows
    ∙ bits_from-snoc (or_bit m x).buf (stored b) start
    ∙ ap₂ (λ l y. l ++ (y ∷ [])) (bits_from-frame (or_bit m x).buf b.buf (stored b) start kept)
        added
  where
    m : Buffer
    m = advance_put b

    w : Moved b m
    w = advance_put-Moved v n

    start : ℕ
    start = 8 * b.tail + b.count_get

    -- the number of bits after the put, and where it starts
    grows : stored (or_bit m x) ≡ suc (stored b)
    grows = unfold or_bit in ground (arith, w)

    starts : 8 * (or_bit m x).tail + (or_bit m x).count_get ≡ start
    starts = unfold or_bit in ground (arith, w)

    kept : (k : ℕ) → k < stored b → bit_at (or_bit m x).buf (start + k) ≡ bit_at b.buf (start + k)
    kept k lt = ground (arith, w, or_bit-reads x (start + k) h w, advance_put-keeps k v n lt)

    added : bit_at (or_bit m x).buf (start + stored b) ≡ x
    added = ground (arith, w, or_bit-reads x (start + stored b) h w)

-- On a valid ring, `put_bits` of a bit appends it to the contents and returns 1, or finds the ring
-- full, changes nothing and returns 0.
pub put_bits_refines :
    {b : Buffer} (x : ℕ)
    → x < 2
    → IsValid b
    → let (b', status) = put_bits b x in
      ((status ≡ 1) × (contents b' ≡ contents b ++ (x ∷ []))) ⊎ ((status ≡ 0) × (b' ≡ b) × IsFull b)
put_bits_refines {b} x h v = elim (IsFull-dec b) [
  | yes f ↦ rw (put_bits_full b x f) (inr (refl, refl, f))
  | no n ↦ rw (put_bits_room b x n) (inl (refl, put_bits_appends x h v n))
]

-- On a valid ring that holds fewer than 131057 bits, `put_bits` of a bit is not refused: it appends
-- the bit to the contents, returns 1 and leaves a valid ring.
pub put_bits_accepts :
    {b : Buffer} (x : ℕ)
    → x < 2
    → IsValid b
    → length (contents b) < 131057
    → (IsValid (put_bits b x).0)
      × ((put_bits b x).1 ≡ 1)
      × (contents (put_bits b x).0 ≡ contents b ++ (x ∷ []))
put_bits_accepts {b} x h v small =
    let room : ¬ (IsFull b) = λ f. ground (arith, masked (b.head + 1), length-contents b) in
    (
      put_bits-IsValid x h v,
      rw (put_bits_room b x room) refl,
      rw (put_bits_room b x room) (put_bits_appends x h v room),
    )
