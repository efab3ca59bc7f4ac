-- ===== src/Preamble.antt =====
-- What goes out before a frame: `push_preamble` and `push_sync_word` of src/mod_fsk.c, over the ring.
pub mod Pushed
use echo_protocol.Base.{ℕ, ◌-◌, bit_and, ◌>>◌, for_down}
use echo_protocol.Ring.{Buffer, put_bits}
use echo_protocol.Sync.{sync_word}

abbrev pub preamble : ℕ
preamble = 0xAAAA

-- The loop of both: the lowest `n` bits of a word, from the top. What `put_bits` returns is ignored.
unfoldable pub push_word : ℕ → ℕ → Buffer → Buffer
push_word n word b = for_down n (λ i b. (put_bits b (bit_and (word >> (i - 1)) 1)).0) b

unfoldable pub push_preamble : Buffer → Buffer
push_preamble b = push_word 16 preamble b

unfoldable pub push_sync_word : Buffer → Buffer
push_sync_word b = push_word 32 sync_word b
