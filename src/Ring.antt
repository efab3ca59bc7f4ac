-- ===== src/Ring.antt =====
-- The bit ring of include/rb_bits.h and src/rb_bits.c. A function that updates `*buf` returns the
-- new ring; the message of `put_bits` to stderr is left out.
pub mod Inv
pub mod Refine
pub mod Fifo
pub mod Race
mod Tests
use echo_protocol.Base.{ℕ, ◌+◌, ◌-◌, bit_and, bit_or, Bool, Option, none, some, if◌then◌else◌}
use echo_protocol.Base.{◌==◌, ◌&&◌, u8, ◌<<◌, ◌>>◌}

abbrev pub buffer_size : ℕ
buffer_size = 16384

abbrev pub buffer_mask : ℕ
buffer_mask = buffer_size - 1

-- `Buffer`. The array is a function from the index; every index is masked to its range.
pub record Buffer : Type 0 where
  pub buf : ℕ → ℕ
  pub head : ℕ
  pub tail : ℕ
  pub count_put : ℕ
  pub count_get : ℕ

-- `buf[i] = v`
abbrev pub store : (ℕ → ℕ) → ℕ → ℕ → ℕ → ℕ
store m i v j = if j == i then v else m j

-- `rb_reset`: the bytes other than the first keep what they hold.
unfoldable pub rb_reset : Buffer → Buffer
rb_reset b = record b { buf = store b.buf 0 0; head = 0; tail = 0; count_put = 0; count_get = 0 }

-- `rb_init`: the argument is what `malloc` returned, `none` for NULL, with unknown contents.
unfoldable pub rb_init : Option Buffer → Option Buffer
unfolding rb_reset
rb_init none = none
rb_init (some fresh) =
    some
      (record fresh { buf = store fresh.buf 0 0; head = 0; tail = 0; count_put = 0; count_get = 0 })

-- The move of `put_bits` to the next byte, in the two parts that the reader can come between: the
-- store of `head`, and the clearing of the byte and of `count_put`.
unfoldable pub publish_head : Buffer → Buffer
publish_head b = record b { head = bit_and (b.head + 1) buffer_mask }

unfoldable pub clear_byte : Buffer → Buffer
clear_byte b = record b { buf = store b.buf b.head 0; count_put = 0 }

-- The move is made when the current byte has its 8 bits.
unfoldable pub advance_put : Buffer → Buffer
unfolding publish_head clear_byte
advance_put b = if b.count_put == 8 then clear_byte (publish_head b) else b

-- `buf->buf[h] |= (*bit << cp); count_put = cp + 1`
unfoldable pub or_bit : Buffer → ℕ → Buffer
or_bit b bit = record b {
  buf = store b.buf b.head (u8 (bit_or (b.buf b.head) (bit << b.count_put)));
  count_put = b.count_put + 1;
}

-- `put_bits`: the new ring, and the status it returns.
unfoldable pub put_bits : Buffer → ℕ → Buffer × ℕ
unfolding advance_put or_bit
put_bits b bit =
    if bit_and (b.head + 1) buffer_mask == b.tail then (b, 0) else (or_bit (advance_put b) bit, 1)

-- The move of `get_bits` to the next byte.
unfoldable pub advance_get : Buffer → Buffer
advance_get b =
    if b.count_get == 8
    then record b { tail = bit_and (b.tail + 1) buffer_mask; count_get = 0 }
    else b

-- `(buf->buf[t] >> cg) & 1`
unfoldable pub read_bit : Buffer → ℕ
read_bit b = bit_and (b.buf b.tail >> b.count_get) 1

-- `get_bits`: `none` is the status 0, which leaves `*bit` alone; `some` is the status 1.
unfoldable pub get_bits : Buffer → Buffer × Option ℕ
unfolding advance_get read_bit
get_bits b =
    if b.tail == b.head && b.count_get == b.count_put
    then (b, none)
    else (let moved = advance_get b in
        (record moved { count_get = moved.count_get + 1 }, some (read_bit moved)))
