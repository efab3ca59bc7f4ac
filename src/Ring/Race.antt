-- ===== src/Ring/Race.antt =====
-- The reader between two stores of `put_bits`. The ring is atomic in each field, not in each call:
-- the head is published before the byte under it is cleared and `count_put` is reset.
use echo_protocol.Base.{ℕ, ◌+◌, ◌%◌, ◌≡◌, arith, Option, some, [], length, sym, ap, ◌∙◌}
use echo_protocol.Base.Xor.{bit_and_mask}
use echo_protocol.Ring.{Buffer, publish_head, clear_byte, or_bit, put_bits, get_bits}
use echo_protocol.Ring.Inv.{IsValid, IsFull, masked}
use echo_protocol.Ring.Inv.{stored}
use echo_protocol.Ring.Refine.{contents, bits_from, length-contents}

-- The steps of a `put_bits` that moves to a new byte, with a `get_bits` after the first of them.
unfoldable pub put_around_get : Buffer → ℕ → Buffer × Option ℕ
put_around_get b bit =
    let (between, r) = get_bits (publish_head b) in (or_bit (clear_byte between) bit, r)

-- Where nothing comes between them, these are the steps of `put_bits`.
pub put_bits_steps :
    (b : Buffer) (bit : ℕ)
    → b.count_put ≡ 8
    → ¬ (IsFull b)
    → put_bits b bit ≡ (or_bit (clear_byte (publish_head b)) bit, 1)
unfolding put_bits publish_head clear_byte or_bit
put_bits_steps b bit e n = ground arith

-- On a valid ring that is not full and holds no bit, whose current byte has its 8 bits: a reader
-- that comes between the publication of the head and the clearing of the new byte is given the stale
-- lowest bit of that byte, and after the bit is put the ring still holds no bit.
pub race_loses_bit :
    {b : Buffer} (bit : ℕ)
    → IsValid b
    → ¬ (IsFull b)
    → b.count_put ≡ 8
    → contents b ≡ []
    → ((put_around_get b bit).1 ≡ some (b.buf ((b.head + 1) % 16384) % 2))
      × (contents (put_around_get b bit).0 ≡ [])
unfolding put_around_get
race_loses_bit {b} bit v n e c = (stale, ap (bits_from (put_around_get b bit).0.buf _) empty)
  where
    none_stored : stored b ≡ 0
    none_stored = sym (length-contents b) ∙ ap length c

    stale : (get_bits (publish_head b)).1 ≡ some (b.buf ((b.head + 1) % 16384) % 2)
    stale =
        unfold get_bits publish_head in
        ground (
          arith,
          v,
          none_stored,
          masked (b.head + 1),
          masked (b.tail + 1),
          bit_and_mask 1 (b.buf ((b.head + 1) % 16384)),
        )

    empty : stored (put_around_get b bit).0 ≡ 0
    empty =
        unfold put_around_get get_bits publish_head clear_byte or_bit in
        ground (arith, v, none_stored, masked (b.head + 1), masked (b.tail + 1))
