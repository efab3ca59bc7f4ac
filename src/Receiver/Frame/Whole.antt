-- ===== src/Receiver/Frame/Whole.antt =====
-- The bits of a frame's header, `header_bit` and `take_header`, and the frame as a whole.
use mathlib.Core.Path.{subst}
use echo_protocol.Base.{
  ℕ, zero, suc, ◌+◌, ◌-◌, ◌*◌, ◌/◌, ◌%◌, ◌^◌, ◌≤◌, ◌<◌, ◌≡◌, refl, sym, ◌∙◌, arith, true, false,
  ltb, ◌==◌,
}
use echo_protocol.Base.{List, [], ◌∷◌, ◌++◌, length, length-append, append_assoc, AllBits, bit_and}
use echo_protocol.Ring.Refine.{contents}
use echo_protocol.Scrambler.{scrambler_process}
use echo_protocol.Scrambler.Stream.{scramble}
use echo_protocol.Header.{unpack, is_valid_header}
use echo_protocol.Base.{bit_or, ◌<<◌}
use echo_protocol.Base.Xor.{bit_or_fields, bit_and_mask}
use echo_protocol.Base.Powers.{word_bits, next_bit}
use native.Mathlib.Nat.{div-le_self}
use echo_protocol.Receiver.{in_data, Receiver, header_bit, take_header, process_rx_bit}
use echo_protocol.Receiver.Inv.{header_len}
use echo_protocol.Receiver.Sound.{IsSound}
use echo_protocol.Receiver.Frame.{
  hear, IsTimely, Taken, taking, taken, step, in_step, header_of, Completed, taking-last,
  taking-acc, hear-next,
}
use echo_protocol.Receiver.Frame.Payload.{payload_phase}

-- The bits of the header.
module _ (w : ℕ) (word : w < 2 ^ 16) (good : is_valid_header w ≡ true) where
  -- The accumulator after one more bit.
  shift_in :
      (n acc : ℕ)
      → n < 16
      → acc ≡ w / 2 ^ suc n
      → bit_or (acc << 1) (w / 2 ^ n % 2) % 2 ^ 64 ≡ w / 2 ^ n
  shift_in n acc h e = omega (
    arith,
    e,
    bit_or_fields 1 acc (w / 2 ^ n % 2) (omega arith),
    next_bit w n,
    div-le_self w (2 ^ n),
  )

  header_more :
      (r : Receiver) (n : ℕ) (held : List ℕ)
      → 0 < n
      → n < 16
      → Taken r (16 - n) held
      → r.header_accumulator ≡ w / 2 ^ suc n
      → Taken (header_bit r (w / 2 ^ n % 2)) (16 - n) held
        × ((header_bit r (w / 2 ^ n % 2)).header_accumulator ≡ w / 2 ^ n)
        × ((header_bit r (w / 2 ^ n % 2)).rx_scrambler ≡ r.rx_scrambler)
        × ((header_bit r (w / 2 ^ n % 2)).last_rx_time ≡ r.last_rx_time)
  unfolding header_bit
  header_more r n held pos h v e =
      let test : (r.bits_received == 16) ≡ false = ground (arith, v.count) in
      rw test (
        record {
          sound = record {
            ring = v.sound.ring;
            sync = v.sound.sync;
            scrambler = v.sound.scrambler;
          };
          busy = v.busy;
          count = v.count;
          holds = v.holds;
        },
        shift_in n r.header_accumulator h e,
        refl,
        refl,
      )

  header_last :
      (r : Receiver) (held : List ℕ)
      → Taken r 16 held
      → r.header_accumulator ≡ w / 2 ^ 1
      → Taken (header_bit r (w / 2 ^ 0 % 2)) 16 held
        × (header_of (header_bit r (w / 2 ^ 0 % 2)) ≡ unpack w)
        × ((header_bit r (w / 2 ^ 0 % 2)).rx_scrambler ≡ r.rx_scrambler)
        × ((header_bit r (w / 2 ^ 0 % 2)).last_rx_time ≡ r.last_rx_time)
  unfolding header_bit take_header
  header_last r held v e =
      let test : (r.bits_received == 16) ≡ true = ground (arith, v.count) in
      let whole : bit_or (r.header_accumulator << 1) (w / 2 ^ 0 % 2) % 2 ^ 64 ≡ w =
        shift_in 0 r.header_accumulator (omega arith) e ∙ omega arith in
      let word' : bit_and w 0xFFFF ≡ w = bit_and_mask 16 w ∙ omega arith in
      rw (test, whole, word', good)
        (
          record {
            sound = record {
              ring = v.sound.ring;
              sync = v.sound.sync;
              scrambler = v.sound.scrambler;
            };
            busy = v.busy;
            count = v.count;
            holds = v.holds;
          },
          refl,
          refl,
          refl,
        )

  -- A header bit is taken as the branch of the header says.
  early :
      (t : ℕ) (r : Receiver) (x k : ℕ) (held : List ℕ)
      → x < 2
      → Taken r k held
      → length held ≡ k
      → k < 16
      → t ≤ r.last_rx_time + 6
      → t < 2 ^ 32
      → process_rx_bit t r (scrambler_process r.rx_scrambler x).1 ≡ header_bit (taking t r x) x
  early t r x k held b v size few timely small =
      let next = taken t r x b v (omega arith) (omega arith) in
      let test : ltb 16 (taking t r x).bits_received ≡ false = ground (arith, next.count) in
      step t r x b v (omega arith) (omega arith) timely small ∙ rw test refl

  header_phase :
      (n : ℕ) (xs times : List ℕ) (r : Receiver) (held : List ℕ)
      → AllBits xs
      → n < 16
      → Taken r (15 - n) held
      → r.header_accumulator ≡ w / 2 ^ suc n
      → length held ≡ 15 - n
      → length xs ≡ (unpack w).len * 8
      → length times ≡ suc n + length xs
      → IsTimely r.last_rx_time times
      → Completed
          (hear r times (scramble r.rx_scrambler (word_bits (suc n) w ++ xs)).1)
          (unpack w)
          (held ++ (word_bits (suc n) w ++ xs))
  unfolding word_bits
  header_phase n xs [] r held b h v e size many same on = absurd (omega arith)
  header_phase zero xs (t ∷ times) r held b h v e size many same on =
      let x = w / 2 ^ 0 % 2 in
      let q = taking t r x in
      let next = taken t r x (omega arith) v (omega arith) (omega arith) in
      let last =
        header_last q (held ++ (x ∷ []))
          (subst (λ k. Taken q k (held ++ (x ∷ []))) {x = 15 - 0 + 1} (omega arith) next)
          (taking-acc t r x ∙ e) in
      let q' = header_bit q x in
      let arrives = early t r x 15 held (omega arith) v size (omega arith) on.0 on.1 in
      let rest =
        payload_phase (unpack w) (header_len w good).1 xs times q' 16 (held ++ (x ∷ [])) b last.0
          last.1 (omega arith) (omega arith) (omega (arith, length-append held (x ∷ [])))
          (omega (arith, (header_len w good).0)) (omega arith)
          (subst (λ l. IsTimely l times) (sym (last.3 ∙ taking-last t r x)) on.2) in
      rw
        (hear-next t times r q' x xs arrives
          (in_step t r x (omega arith) v (omega arith) (omega arith) ∙ sym last.2))
        (subst (Completed _ (unpack w)) (append_assoc held (x ∷ []) xs) rest)
  header_phase (suc n) xs (t ∷ times) r held b h v e size many same on =
      let x = w / 2 ^ suc n % 2 in
      let q = taking t r x in
      let next = taken t r x (omega arith) v (omega arith) (omega arith) in
      let more =
        header_more q (suc n) (held ++ (x ∷ [])) (omega arith) h
          (subst (λ k. Taken q k (held ++ (x ∷ []))) {x = 15 - suc n + 1} (omega arith) next)
          (taking-acc t r x ∙ e) in
      let q' = header_bit q x in
      let arrives = early t r x (15 - suc n) held (omega arith) v size (omega arith) on.0 on.1 in
      let rest =
        header_phase n xs times q' (held ++ (x ∷ [])) b (omega arith)
          (subst (λ k. Taken q' k (held ++ (x ∷ []))) {x = 16 - suc n} (omega arith) more.0) more.1
          (omega (arith, length-append held (x ∷ []))) many (omega arith)
          (subst (λ l. IsTimely l times) (sym (more.3 ∙ taking-last t r x)) on.2) in
      rw
        (hear-next t times r q' x (word_bits (suc n) w ++ xs) arrives
          (in_step t r x (omega arith) v (omega arith) (omega arith) ∙ sym more.2))
        (subst (Completed _ (unpack w)) (append_assoc held (x ∷ []) (word_bits (suc n) w ++ xs))
          rest)

-- What a sync word leaves: an empty ring, and nothing counted.
pub record IsStarted (r : Receiver) : Type 0 where
  pub sound : IsSound r
  pub busy : r.state ≡ in_data
  pub count : r.bits_received ≡ 0
  pub acc : r.header_accumulator ≡ 0
  pub empty : contents r.rx_rb ≡ []

-- From a receiver that a sync word has just started, with an empty ring: when the bits of a valid
-- header and of a payload of the length that it names come, scrambled from the receiver's own
-- state, and none more than 6 seconds after the one before, the receiver ends idle with
-- `packet_ready` set, the header's fields taken and exactly those bits, descrambled, in its ring.
pub hear_lem :
    (w : ℕ) (xs times : List ℕ) (r : Receiver)
    → w < 2 ^ 16
    → is_valid_header w ≡ true
    → AllBits xs
    → length xs ≡ (unpack w).len * 8
    → length times ≡ 16 + length xs
    → IsStarted r
    → IsTimely r.last_rx_time times
    → Completed
        (hear r times (scramble r.rx_scrambler (word_bits 16 w ++ xs)).1)
        (unpack w)
        (word_bits 16 w ++ xs)
hear_lem w xs times r word good b many same v on =
    header_phase w word good 15 xs times r [] b (omega arith)
      (record { sound = v.sound; busy = v.busy; count = v.count; holds = v.empty })
      (omega (arith, v.acc)) refl many (omega arith) on
