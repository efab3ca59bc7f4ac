-- ===== src/Receiver/Frame.antt =====
-- A frame, bit by bit, in the receiver of src/echo_protocol.c: what a run of `process_rx_bit` is, and
-- what one scrambled bit does to a receiver that is in a frame.
pub mod Payload
pub mod Whole
use mathlib.Core.Path.{subst}
use native.Mathlib.Decide.{ℕ_discrete}
use echo_protocol.Base.{
  ℕ, zero, suc, ◌+◌, ◌-◌, ◌*◌, ◌/◌, ◌%◌, ◌^◌, ◌≤◌, ◌<◌, ◌≡◌, refl, sym, ap, ap₂, ◌∙◌, arith, true,
  false, ltb, ◌==◌,
}
use echo_protocol.Base.{
  List, [], ◌∷◌, ◌++◌, length, length-append, append_assoc, AllBits, append-nil, u32, bit_and,
  if◌then◌else◌,
}
use echo_protocol.Ring.{Buffer, put_bits}
use echo_protocol.Ring.Refine.{contents, put_bits_accepts}
use echo_protocol.Scrambler.{Scrambler, scrambler_process}
use echo_protocol.Scrambler.Stream.{scramble, process_undo, process_state_same, process_in}
use echo_protocol.Header.{Header, unpack, is_valid_header}
use echo_protocol.Base.{bit_or, ◌<<◌}
use echo_protocol.Base.Xor.{bit_or_fields, bit_and_mask}
use echo_protocol.Base.Powers.{word_bits, next_bit}
use native.Mathlib.Nat.{div-le_self}
use echo_protocol.Receiver.{
  searching, in_data, Receiver, header_bit, take_header, payload_bit, store_bit, handle_data_state,
  frame_bit, process_rx_bit,
}
use echo_protocol.Receiver.Inv.{header_len}
use echo_protocol.Receiver.Sound.{IsSound, store_bit-IsSound, process_in_data}

-- The bits and the times at which they come.
unfoldable pub hear : Receiver → List ℕ → List ℕ → Receiver
hear r (now ∷ times) (bit ∷ bits) = hear (process_rx_bit now r bit) times bits
hear r times bits = r

-- No bit comes more than 6 seconds after the one before.
abbrev pub IsTimely : ℕ → List ℕ → Type 0
IsTimely last [] = Unit
IsTimely last (t ∷ times) = (t ≤ last + 6) × (t < 2 ^ 32) × IsTimely t times

-- What is known of a receiver in a frame: the bits counted and the bits held.
pub record Taken (r : Receiver) (k : ℕ) (held : List ℕ) : Type 0 where
  pub sound : IsSound r
  pub busy : r.state ≡ in_data
  pub count : r.bits_received ≡ k
  pub holds : contents r.rx_rb ≡ held

-- The receiver that has stored the scrambled bit.
abbrev pub taking : ℕ → Receiver → ℕ → Receiver
taking now r x = store_bit (record r { last_rx_time = now }) (scrambler_process r.rx_scrambler x).1

module _ (now : ℕ) (r : Receiver) (x : ℕ) {k : ℕ} {held : List ℕ} (bit : x < 2) (v : Taken r k held)
    (room : length held < 131057) (few : k < 60000) where
  pub y-bit : (scrambler_process r.rx_scrambler x).1 < 2
  y-bit = (process_in r.rx_scrambler x bit).1

  pub taken : Taken (taking now r x) (k + 1) (held ++ (x ∷ []))
  unfolding store_bit
  taken =
      let undone = process_undo r.rx_scrambler x in
      let (valid, status, more) =
        put_bits_accepts x bit v.sound.ring (omega (arith, ap length v.holds)) in
      record {
        sound =
            store_bit-IsSound (record r { last_rx_time = now }) _ y-bit
              (record { ring = v.sound.ring; sync = v.sound.sync; scrambler = v.sound.scrambler });
        busy = v.busy;
        count = omega (arith, v.count);
        holds =
            ap (λ b. contents (put_bits r.rx_rb b).0) undone
            ∙ more
            ∙ ap (λ l. l ++ (x ∷ [])) v.holds;
      }

  -- A timely bit is stored, and then counted as one of the header or of the payload.
  pub step :
      now ≤ r.last_rx_time + 6
      → now < 2 ^ 32
      → process_rx_bit now r (scrambler_process r.rx_scrambler x).1 ≡ (
          if ltb 16 (taking now r x).bits_received
          then payload_bit (taking now r x)
          else header_bit (taking now r x) x)
  unfolding frame_bit handle_data_state
  step timely small =
      let test : ltb (r.last_rx_time + 6) now ≡ false = ground arith in
      let same : u32 now ≡ now = omega arith in
      let undone = process_undo r.rx_scrambler x in
      sym (process_in_data now r _ v.busy) ∙ rw (test, same, undone)

  -- The descrambler is where the scrambler is.
  pub in_step : (scrambler_process r.rx_scrambler x).0 ≡ (taking now r x).rx_scrambler
  unfolding store_bit
  in_step = process_state_same r.rx_scrambler x _

-- The header that has been taken.
abbrev pub header_of : Receiver → Header
header_of r = record {
  comp = r.is_compressed;
  rohc = r.is_rohc;
  fec = r.is_fec;
  len = r.packet_len;
}

-- A frame that is complete.
pub record Completed (r : Receiver) (h : Header) (held : List ℕ) : Type 0 where
  pub sound : IsSound r
  pub idle : r.state ≡ searching
  pub ready : r.packet_ready ≡ 1
  pub header : header_of r ≡ h
  pub holds : contents r.rx_rb ≡ held

pub taking-header : (now : ℕ) (r : Receiver) (x : ℕ) → header_of (taking now r x) ≡ header_of r
unfolding store_bit
taking-header now r x = refl

pub taking-last : (now : ℕ) (r : Receiver) (x : ℕ) → (taking now r x).last_rx_time ≡ now
unfolding store_bit
taking-last now r x = refl

pub taking-acc :
    (now : ℕ) (r : Receiver) (x : ℕ) → (taking now r x).header_accumulator ≡ r.header_accumulator
unfolding store_bit
taking-acc now r x = refl

-- Moving a run of the receiver to the next bit.
pub hear-next :
    (now : ℕ) (times : List ℕ) (r q : Receiver) (x : ℕ) (xs : List ℕ)
    → process_rx_bit now r (scrambler_process r.rx_scrambler x).1 ≡ q
    → (scrambler_process r.rx_scrambler x).0 ≡ q.rx_scrambler
    → hear r (now ∷ times) (scramble r.rx_scrambler (x ∷ xs)).1
      ≡ hear q times (scramble q.rx_scrambler xs).1
unfolding hear scramble
hear-next now times r q x xs e same = ap₂ (λ a s. hear a times (scramble s xs).1) e same

pub hear-last :
    (now : ℕ) (r : Receiver) (x : ℕ)
    → hear r (now ∷ []) (scramble r.rx_scrambler (x ∷ [])).1
      ≡ process_rx_bit now r (scrambler_process r.rx_scrambler x).1
unfolding hear scramble
hear-last now r x = refl
