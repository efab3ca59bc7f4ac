-- ===== src/Preamble/Pushed.antt =====
-- The bits of the preamble and of the sync word reach the ring in order.
use echo_protocol.Base.{ℕ, zero, suc, ◌+◌, ◌-◌, ◌/◌, ◌%◌, ◌^◌, ◌≤◌, ◌≡◌, refl, sym, ap, ◌∙◌, arith}
use echo_protocol.Base.{
  List, [], ◌∷◌, ◌++◌, length, length-append, append-nil, append_assoc, bit_and, ◌>>◌, for_down,
}
use echo_protocol.Base.Xor.{bit_and_mask}
use echo_protocol.Base.Powers.{word_bits}
use echo_protocol.Ring.{Buffer, put_bits}
use echo_protocol.Ring.Inv.{IsValid}
use echo_protocol.Ring.Refine.{contents, put_bits_accepts}
use echo_protocol.Sync.{sync_word}
use echo_protocol.Preamble.{preamble, push_word, push_preamble, push_sync_word}

-- The ring is valid and holds what it held, and then `bits`.
abbrev pub Appended : Buffer → Buffer → List ℕ → Type 0
Appended b b' bits = IsValid b' × (contents b' ≡ contents b ++ bits)

push_word-suc :
    (n word : ℕ) (b : Buffer)
    → push_word (suc n) word b ≡ push_word n word (put_bits b (bit_and (word >> n) 1)).0
unfolding push_word for_down
push_word-suc n word b =
    ap (λ k. push_word n word (put_bits b (bit_and (word >> k) 1)).0) {x = suc n - 1} {y = n}
      (omega arith)

push_word-nil : (word : ℕ) (b : Buffer) → push_word 0 word b ≡ b
unfolding push_word for_down
push_word-nil word b = refl

push_word-Appended :
    (n word : ℕ) (b : Buffer)
    → IsValid b
    → length (contents b) + n ≤ 131057
    → Appended b (push_word n word b) (word_bits n word)
unfolding word_bits
push_word-Appended zero word b v room = rw (push_word-nil word b) (v, sym (append-nil (contents b)))
push_word-Appended (suc n) word b v room =
    let bit : bit_and (word >> n) 1 ≡ word / 2 ^ n % 2 = bit_and_mask 1 (word >> n) in
    let (valid, status, more) =
      put_bits_accepts (bit_and (word >> n) 1) (omega (arith, bit)) v (omega arith) in
    let longer = length-append (contents b) (bit_and (word >> n) 1 ∷ []) in
    let rest =
      push_word-Appended n word (put_bits b (bit_and (word >> n) 1)).0 valid
        (omega (arith, ap length more, longer)) in
    rw (push_word-suc n word b) (
      rest.0,
      rest.1
          ∙ ap (λ l. l ++ word_bits n word) more
          ∙ append_assoc (contents b) (bit_and (word >> n) 1 ∷ []) (word_bits n word)
          ∙ ap (λ x. contents b ++ (x ∷ word_bits n word)) bit,
    )

-- On a valid ring that has room for the 48 bits, `push_preamble` and then `push_sync_word` append the
-- 16 bits of the preamble and the 32 of the sync word, each from the top, and leave a valid ring.
pub push_sync_word-preamble :
    {b : Buffer}
    → IsValid b
    → length (contents b) + 48 ≤ 131057
    → Appended b
        (push_sync_word (push_preamble b))
        (word_bits 16 preamble ++ word_bits 32 sync_word)
unfolding push_sync_word push_preamble
push_sync_word-preamble {b} v room =
    let first = push_word-Appended 16 preamble b v (omega arith) in
    let grown = length-append (contents b) (word_bits 16 preamble) in
    let second =
      push_word-Appended 32 sync_word (push_word 16 preamble b) first.0
        (omega (arith, ap length first.1, grown, sixteen)) in
    (
      second.0,
      second.1
          ∙ ap (λ l. l ++ word_bits 32 sync_word) first.1
          ∙ append_assoc (contents b) (word_bits 16 preamble) (word_bits 32 sync_word),
    )
  where
    sixteen : length (word_bits 16 preamble) ≡ 16
    sixteen = unfold word_bits in refl
