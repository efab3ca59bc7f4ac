-- ===== src/WarmUp/Sent.antt =====
-- What the warm-up of src/main.c puts into the transmit ring.
use mathlib.Core.Path.{subst}
use echo_protocol.Base.{
  ℕ, zero, suc, ◌+◌, ◌-◌, ◌*◌, ◌/◌, ◌%◌, ◌^◌, ◌≤◌, ◌≡◌, refl, sym, ap, ◌∙◌, arith,
}
use echo_protocol.Base.{
  List, [], ◌∷◌, ◌++◌, length, length-append, append-nil, append_assoc, bit_and, ◌>>◌, replicate,
  for_up, for_down, AllBits, AllBytes,
}
use echo_protocol.Base.Xor.{bit_and_mask}
use echo_protocol.Base.Powers.{word_bits}
use echo_protocol.Base.Bytes.{
  range_bits, bits_of, range_bits-bytes, bits_of-AllBits, bit_in, AllBits-append, word_bits-AllBits,
}
use echo_protocol.Ring.{put_bits}
use echo_protocol.Ring.Inv.{IsValid as IsRing}
use echo_protocol.Ring.Refine.{contents, put_bits_accepts}
use echo_protocol.Scrambler.{scrambler_process, scrambler_reset}
use echo_protocol.Scrambler.Stream.{scramble, process_in}
use echo_protocol.Preamble.{push_preamble, push_sync_word}
use echo_protocol.Preamble.Pushed.{Appended, push_sync_word-preamble}
use echo_protocol.Header.{pack}
use echo_protocol.Rohc.{ip_checksum, checksum_round, has}
use echo_protocol.Receiver.Search.{lead}
use echo_protocol.Transmit.{Sender, header_for, as_is}
use echo_protocol.Transmit.Sent.{frame_bits, fresh}
use echo_protocol.Modem.Symbols.{flatten}
use echo_protocol.Main.Room.{on_air, length-on_air, length-frame, length-lead}
use echo_protocol.WarmUp.{dummy_ip, dummy_header, put_scrambled, warm_up_packet, warm_up}

-- The bits of a list, one after the other.
abbrev put_list : List ℕ → Sender → Sender
put_list [] s = s
put_list (x ∷ xs) s = put_list xs (put_scrambled x s)

put_list-append :
    (xs ys : List ℕ) (s : Sender) → put_list (xs ++ ys) s ≡ put_list ys (put_list xs s)
put_list-append [] ys s = refl
put_list-append (x ∷ xs) ys s = put_list-append xs ys (put_scrambled x s)

-- The two loops.
put_range :
    (bit : ℕ → ℕ) (n k : ℕ) (s : Sender)
    → for_up n k (λ b. put_scrambled (bit b)) s ≡ put_list (range_bits bit n k) s
unfolding for_up range_bits
put_range bit zero k s = refl
put_range bit (suc n) k s = put_range bit n (k + 1) (put_scrambled (bit k) s)

put_word :
    (n w : ℕ) (s : Sender)
    → for_down n (λ i. put_scrambled (bit_and (w >> (i - 1)) 1)) s ≡ put_list (word_bits n w) s
unfolding for_down word_bits
put_word zero w s = refl
put_word (suc n) w s =
    let bit : bit_and (w >> (suc n - 1)) 1 ≡ w / 2 ^ n % 2 =
      ap (λ k. bit_and (w >> k) 1) {x = suc n - 1} {y = n} (omega arith)
      ∙ bit_and_mask 1 (w >> n) in
    put_word n w (put_scrambled (bit_and (w >> (suc n - 1)) 1) s)
    ∙ ap (λ x. put_list (word_bits n w) (put_scrambled x s)) bit

-- With room for them, the bits go into the ring scrambled.
put_list-Appended :
    (xs : List ℕ) (s : Sender)
    → AllBits xs
    → IsRing s.tx_rb
    → length (contents s.tx_rb) + length xs ≤ 131057
    → Appended s.tx_rb (put_list xs s).tx_rb (scramble s.tx_scrambler xs).1
unfolding put_scrambled scramble
put_list-Appended [] s b v room = (v, sym (append-nil (contents s.tx_rb)))
put_list-Appended (x ∷ xs) s b v room =
    let out = (scrambler_process s.tx_scrambler x).1 in
    let (valid, status, more) =
      put_bits_accepts out (process_in s.tx_scrambler x b.0).1 v (omega (arith, room)) in
    let longer = length-append (contents s.tx_rb) (out ∷ []) in
    let s' = record s {
      tx_scrambler = (scrambler_process s.tx_scrambler x).0;
      tx_rb = (put_bits s.tx_rb out).0;
    } in
    let rest = put_list-Appended xs s' b.1 valid (omega (arith, ap length more, longer, room)) in
    (
      rest.0,
      rest.1
          ∙ ap (λ l. l ++ (scramble s'.tx_scrambler xs).1) more
          ∙ append_assoc (contents s.tx_rb) (out ∷ []) (scramble s'.tx_scrambler xs).1,
    )

pub dummy_size : length dummy_ip ≡ 28
unfolding dummy_ip
dummy_size = refl

-- `dummy_ip`, with the checksum 0x26DE.
abbrev pub dummy_plain : List ℕ
dummy_plain =
    (69 ∷ 0 ∷ 0 ∷ 28 ∷ 0 ∷ 1 ∷ 64 ∷ 0 ∷ 64 ∷ 1 ∷ 0x26 ∷ 0xDE ∷ 10 ∷ 0 ∷ 0 ∷ 1 ∷ 10 ∷ 0 ∷ 0 ∷ 2 ∷ [])
    ++ replicate 8 0

pub dummy_ip_lem : dummy_ip ≡ dummy_plain
unfolding dummy_ip ip_checksum for_up checksum_round has
dummy_ip_lem = refl

pub dummy_bytes : AllBytes dummy_ip
dummy_bytes = subst AllBytes (sym dummy_ip_lem) (ground arith)

dummy_pack : pack (header_for (as_is dummy_ip)) ≡ dummy_header
unfolding dummy_ip pack
dummy_pack = refl

abbrev pub dummy_on_air : List ℕ
dummy_on_air = on_air (as_is dummy_ip)

dummy_bits : word_bits 16 dummy_header ++ bits_of dummy_ip ≡ frame_bits (as_is dummy_ip)
dummy_bits = ap (λ w. word_bits 16 w ++ bits_of dummy_ip) (sym dummy_pack)

abbrev led : Sender → Sender
led s = record s {
  tx_rb = push_sync_word (push_preamble s.tx_rb);
  tx_scrambler = scrambler_reset s.tx_scrambler;
}

-- A round puts the bits of a frame.
round-list : (s : Sender) → warm_up_packet s ≡ put_list (frame_bits (as_is dummy_ip)) (led s)
unfolding warm_up_packet
round-list s =
    let bit = bit_in dummy_ip in
    let headed = put_list (word_bits 16 dummy_header) (led s) in
    let payload : range_bits bit (28 * 8) 0 ≡ bits_of dummy_ip =
      ap (λ n. range_bits bit (n * 8) 0) (sym dummy_size) ∙ range_bits-bytes dummy_ip in
    ap (for_up (28 * 8) 0 (λ b. put_scrambled (bit b))) (put_word 16 dummy_header (led s))
    ∙ put_range bit (28 * 8) 0 headed
    ∙ ap (λ l. put_list l headed) payload
    ∙ sym (put_list-append (word_bits 16 dummy_header) (bits_of dummy_ip) (led s))
    ∙ ap (λ l. put_list l (led s)) dummy_bits

pub dummy_length : length dummy_on_air ≡ 288
dummy_length = omega (arith, length-on_air (as_is dummy_ip), dummy_size)

pub round-Appended :
    (s : Sender)
    → IsRing s.tx_rb
    → length (contents s.tx_rb) + 288 ≤ 131057
    → Appended s.tx_rb (warm_up_packet s).tx_rb dummy_on_air
unfolding scrambler_reset
round-Appended s v room =
    let bits = frame_bits (as_is dummy_ip) in
    let (valid, holds) = push_sync_word-preamble v (omega (arith, room)) in
    let longer = length-append (contents s.tx_rb) lead in
    let size : length bits ≡ 240 = omega (arith, length-frame (as_is dummy_ip), dummy_size) in
    let (valid', more) =
      put_list-Appended bits (led s)
        (AllBits-append (word_bits 16 (pack (header_for (as_is dummy_ip)))) (bits_of dummy_ip)
          (word_bits-AllBits 16 (pack (header_for (as_is dummy_ip)))) (bits_of-AllBits dummy_ip))
        valid (omega (arith, ap length holds, longer, length-lead, size, room)) in
    subst (λ (s' : Sender). Appended s.tx_rb s'.tx_rb dummy_on_air) (sym (round-list s))
      (
        valid',
        more
            ∙ ap (λ l. l ++ (scramble fresh bits).1) holds
            ∙ append_assoc (contents s.tx_rb) lead (scramble fresh bits).1,
      )

-- The packets so far.
rounds-Appended :
    (n k : ℕ) (s : Sender)
    → IsRing s.tx_rb
    → length (contents s.tx_rb) + n * 288 ≤ 131057
    → Appended s.tx_rb
        (for_up n k (λ i. warm_up_packet) s).tx_rb
        (flatten (replicate n dummy_on_air))
unfolding for_up
rounds-Appended zero k s v room = (v, sym (append-nil (contents s.tx_rb)))
rounds-Appended (suc n) k s v room =
    let (valid, holds) = round-Appended s v (omega (arith, room)) in
    let longer = length-append (contents s.tx_rb) dummy_on_air in
    let (valid', more) =
      rounds-Appended n (k + 1) (warm_up_packet s) valid
        (omega (arith, ap length holds, longer, dummy_length, room)) in
    (
      valid',
      more
          ∙ ap (λ l. l ++ flatten (replicate n dummy_on_air)) holds
          ∙ append_assoc (contents s.tx_rb) dummy_on_air (flatten (replicate n dummy_on_air)),
    )

-- On a valid ring with room for them, the warm-up appends eight times what `tun_to_rb` would send of
-- the dummy packet as it is: the preamble, the sync word and the scrambled frame. It leaves a valid
-- ring.
pub warm_up-Appended :
    (s : Sender)
    → IsRing s.tx_rb
    → length (contents s.tx_rb) + 8 * 288 ≤ 131057
    → Appended s.tx_rb (warm_up s).tx_rb (flatten (replicate 8 (on_air (as_is dummy_ip))))
unfolding warm_up
warm_up-Appended s v room = rounds-Appended 8 0 s v room
