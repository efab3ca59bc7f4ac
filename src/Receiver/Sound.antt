-- ===== src/Receiver/Sound.antt =====
-- What holds of the receiver's ring, correlator and scrambler, and the steps that every proof about
-- its bits takes.
use echo_protocol.Base.{ℕ, ◌+◌, ◌%◌, ◌^◌, ◌<◌, ◌≡◌, ◌⊎◌, inl, inr, refl, sym, ap, arith}
use echo_protocol.Ring.Inv.{put_bits-IsValid, IsValid as IsRing}
use echo_protocol.Scrambler.{scrambler_reset}
use echo_protocol.Scrambler.Stream.{process_in}
use echo_protocol.Sync.{sync_correlator_reset}
use echo_protocol.Sync.Detect.{IsValid as IsSync}
use echo_protocol.Receiver.{
  RxStatus, searching, in_data, Receiver, store_bit, search_bit, frame_bit, process_rx_bit,
}

pub not_in_data : ¬ (searching ≡ in_data)
not_in_data e = ground arith

-- What holds of the ring, the correlator and the scrambler alone.
pub record IsSound (r : Receiver) : Type 0 where
  pub ring : IsRing r.rx_rb
  pub sync : IsSync r.sync_accumulator r.correlator
  pub scrambler : r.rx_scrambler.state < 2 ^ 17

pub reset-IsSync : (r : Receiver) → IsSync 0 (sync_correlator_reset r.correlator)
unfolding sync_correlator_reset
reset-IsSync r = record { word_in = omega arith; reg_in = omega arith; bits_in = omega arith }

pub reset_scrambler : (r : Receiver) → (scrambler_reset r.rx_scrambler).state < 2 ^ 17
unfolding scrambler_reset
reset_scrambler r = omega arith

pub store_bit-IsSound : (r : Receiver) (bit : ℕ) → bit < 2 → IsSound r → IsSound (store_bit r bit)
unfolding store_bit
store_bit-IsSound r bit h v =
    let (scr, out) = process_in r.rx_scrambler bit h in
    record { ring = put_bits-IsValid _ out v.ring; sync = v.sync; scrambler = scr }

pub store_bit-counts :
    (r : Receiver) (bit : ℕ)
    → ((store_bit r bit).bits_received ≡ (r.bits_received + 1) % 65536)
      × ((store_bit r bit).packet_len ≡ r.packet_len)
unfolding store_bit
store_bit-counts r bit = (refl, refl)

pub status_cases : (s : RxStatus) → (s ≡ searching) ⊎ (s ≡ in_data)
status_cases searching = inl refl
status_cases in_data = inr refl

pub process_searching :
    (now : ℕ) (r : Receiver) (bit : ℕ)
    → r.state ≡ searching
    → search_bit now r bit ≡ process_rx_bit now r bit
unfolding process_rx_bit
process_searching now r bit e =
    ap
      (λ (s : RxStatus). elim s [
        | searching ↦ search_bit now r bit
        | in_data ↦ frame_bit now r bit
      ])
      (sym e)

pub process_in_data :
    (now : ℕ) (r : Receiver) (bit : ℕ)
    → r.state ≡ in_data
    → frame_bit now r bit ≡ process_rx_bit now r bit
unfolding process_rx_bit
process_in_data now r bit e =
    ap
      (λ (s : RxStatus). elim s [
        | searching ↦ search_bit now r bit
        | in_data ↦ frame_bit now r bit
      ])
      (sym e)
