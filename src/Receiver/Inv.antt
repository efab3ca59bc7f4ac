-- ===== src/Receiver/Inv.antt =====
-- The invariant of the receiver, which every bit keeps.
use native.Mathlib.Decide.{ℕ_discrete, dec_lt}
use echo_protocol.Base.{sym, ◌∙◌}
use mathlib.Core.Path.{subst}
use echo_protocol.Base.{
  ℕ, ◌+◌, ◌*◌, ◌^◌, ◌≤◌, ◌<◌, ◌≡◌, ◌⊎◌, inl, inr, arith, true, false, ltb, ◌==◌,
}
use echo_protocol.Base.{Bool-cases}
use echo_protocol.Ring.Inv.{rb_reset-IsValid}
use echo_protocol.Sync.{check_sync_word}
use echo_protocol.Header.{unpack, is_valid_header}
use echo_protocol.Receiver.{
  searching, in_data, Receiver, rx_reset, take_header, header_bit, payload_bit, store_bit,
  handle_data_state, search_bit, frame_bit, process_rx_bit,
}
use echo_protocol.Ring.Inv.{IsValid as IsRing}
use echo_protocol.Sync.Detect.{IsValid as IsSync, check_sync_word-IsValid}
use echo_protocol.Receiver.Sound.{
  IsSound, not_in_data, reset-IsSync, reset_scrambler, store_bit-IsSound, store_bit-counts,
  status_cases, process_searching, process_in_data,
}

-- In a frame, the bits received are of the header, or of a payload of 1 to 2048 bytes that is not
-- complete.
abbrev pub IsCounted : ℕ → ℕ → Type 0
IsCounted bits_received packet_len =
    (bits_received < 16)
    ⊎ ((16 ≤ bits_received)
        × (0 < packet_len)
        × (packet_len ≤ 2048)
        × (bits_received < packet_len * 8 + 16))

pub record IsValid (r : Receiver) : Type 0 where
  pub ring : IsRing r.rx_rb
  pub sync : IsSync r.sync_accumulator r.correlator
  pub scrambler : r.rx_scrambler.state < 2 ^ 17
  pub counted : r.state ≡ in_data → IsCounted r.bits_received r.packet_len

pub header_len :
    (header : ℕ)
    → is_valid_header header ≡ true
    → (0 < (unpack header).len) × ((unpack header).len ≤ 2048)
unfolding is_valid_header
header_len header e = ground arith

-- A reset gives a valid receiver, whatever it was before.
rx_reset-IsValid : (r : Receiver) → IsValid (rx_reset r)
unfolding rx_reset
rx_reset-IsValid r = record {
  ring = rb_reset-IsValid r.rx_rb;
  sync = reset-IsSync r;
  scrambler = reset_scrambler r;
  counted = λ e. absurd (not_in_data e);
}

take_header-IsValid :
    (r : Receiver) (header : ℕ)
    → IsRing r.rx_rb
    → IsSync r.sync_accumulator r.correlator
    → r.rx_scrambler.state < 2 ^ 17
    → r.bits_received ≡ 16
    → IsValid (take_header r header)
unfolding take_header
take_header-IsValid r header ring sync scr n = elim (Bool-cases (is_valid_header header)) [
  | inl good ↦
      let (pos, small) = header_len header good in
      rw good (record {
        ring = ring;
        sync = sync;
        scrambler = scr;
        counted = λ e. inr (omega arith, pos, small, omega arith);
      })
  | inr bad ↦ rw bad (rx_reset-IsValid _)
]

header_bit-IsValid :
    (r : Receiver) (bit : ℕ) → IsSound r → r.bits_received ≤ 16 → IsValid (header_bit r bit)
unfolding header_bit
header_bit-IsValid r bit v n = elim (ℕ_discrete r.bits_received 16) [
  | yes last ↦
      let test : (r.bits_received == 16) ≡ true = ground arith in
      rw test (take_header-IsValid _ _ v.ring v.sync v.scrambler last)
  | no more ↦
      let test : (r.bits_received == 16) ≡ false = ground arith in
      rw test (record {
        ring = v.ring;
        sync = v.sync;
        scrambler = v.scrambler;
        counted = λ e. inl (omega arith);
      })
]

payload_bit-IsValid :
    (r : Receiver)
    → IsSound r
    → 16 < r.bits_received
    → (0 < r.packet_len) × (r.packet_len ≤ 2048) × (r.bits_received ≤ r.packet_len * 8 + 16)
    → IsValid (payload_bit r)
unfolding payload_bit
payload_bit-IsValid r v n (pos, small, bound) =
    elim (ℕ_discrete r.bits_received (r.packet_len * 8 + 16)) [
      | yes last ↦
          let test : (r.bits_received == r.packet_len * 8 + 16) ≡ true = ground arith in
          rw test (record {
            ring = v.ring;
            sync = v.sync;
            scrambler = v.scrambler;
            counted = λ e. absurd (not_in_data e);
          })
      | no more ↦
          let test : (r.bits_received == r.packet_len * 8 + 16) ≡ false = ground arith in
          rw test (record {
            ring = v.ring;
            sync = v.sync;
            scrambler = v.scrambler;
            counted = λ e. inr (omega arith, pos, small, omega arith);
          })
    ]

handle_data_state-IsValid :
    (r : Receiver) (bit : ℕ)
    → bit < 2
    → IsValid r
    → IsCounted r.bits_received r.packet_len
    → IsValid (handle_data_state r bit)
unfolding handle_data_state
handle_data_state-IsValid r bit h v counted =
    let before : IsSound r = record { ring = v.ring; sync = v.sync; scrambler = v.scrambler } in
    let sound = store_bit-IsSound r bit h before in
    let (n, len) = store_bit-counts r bit in
    elim (dec_lt 16 (store_bit r bit).bits_received) [
      | yes payload ↦
          let test : ltb 16 (store_bit r bit).bits_received ≡ true = ground arith in
          rw test (payload_bit-IsValid _ sound payload (ground (arith, n, len, counted)))
      | no header ↦
          let test : ltb 16 (store_bit r bit).bits_received ≡ false = ground arith in
          rw test (header_bit-IsValid _ _ sound (omega arith))
    ]

search_bit-IsValid :
    (now : ℕ) (r : Receiver) (bit : ℕ)
    → bit < 2
    → IsValid r
    → r.state ≡ searching
    → IsValid (search_bit now r bit)
unfolding search_bit
search_bit-IsValid now r bit h v idle =
    let c = check_sync_word r.sync_accumulator r.correlator bit in
    let (sync, reset) = check_sync_word-IsValid bit h v.sync in
    elim (ℕ_discrete c.result 0) [
      | yes found ↦
          let test : (c.result == 0) ≡ true = ground arith in
          rw test (record {
            ring = v.ring;
            sync = sync;
            scrambler = reset_scrambler r;
            counted = λ e. inl (omega arith);
          })
      | no nothing ↦
          let test : (c.result == 0) ≡ false = ground arith in
          rw test (record {
            ring = v.ring;
            sync = sync;
            scrambler = v.scrambler;
            counted = λ e. absurd (not_in_data (sym idle ∙ e));
          })
    ]

frame_bit-IsValid :
    (now : ℕ) (r : Receiver) (bit : ℕ)
    → bit < 2
    → IsValid r
    → IsCounted r.bits_received r.packet_len
    → IsValid (frame_bit now r bit)
unfolding frame_bit
frame_bit-IsValid now r bit h v counted = elim (dec_lt (r.last_rx_time + 6) now) [
  | yes late ↦
      let test : ltb (r.last_rx_time + 6) now ≡ true = ground arith in
      rw test (record {
        ring = v.ring;
        sync = v.sync;
        scrambler = v.scrambler;
        counted = λ e. absurd (not_in_data e);
      })
  | no timely ↦
      let test : ltb (r.last_rx_time + 6) now ≡ false = ground arith in
      rw test (
        handle_data_state-IsValid _ bit h
          (record { ring = v.ring; sync = v.sync; scrambler = v.scrambler; counted = v.counted })
          counted)
]

-- Whatever the time, `process_rx_bit` of a bit leaves a valid receiver valid: while a frame is being
-- received, the bits counted are of its header, or of a payload of 1 to 2048 bytes that is not yet
-- complete.
pub process_rx_bit-IsValid :
    (now : ℕ) (r : Receiver) (bit : ℕ) → bit < 2 → IsValid r → IsValid (process_rx_bit now r bit)
process_rx_bit-IsValid now r bit h v = elim (status_cases r.state) [
  | inl idle ↦
      subst IsValid (process_searching now r bit idle) (search_bit-IsValid now r bit h v idle)
  | inr busy ↦
      subst IsValid (process_in_data now r bit busy)
        (frame_bit-IsValid now r bit h v (v.counted busy))
]
