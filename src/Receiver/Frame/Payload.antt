-- ===== src/Receiver/Frame/Payload.antt =====
-- The bits of a frame after its header, until `payload_bit` finds the frame complete.
use mathlib.Core.Path.{subst}
use echo_protocol.Base.{
  ℕ, ◌+◌, ◌*◌, ◌≤◌, ◌<◌, ◌≡◌, refl, sym, ap, ◌∙◌, arith, true, false, ltb, ◌==◌,
}
use echo_protocol.Base.{List, [], ◌∷◌, ◌++◌, length, length-append, append_assoc, AllBits}
use echo_protocol.Scrambler.{scrambler_process}
use echo_protocol.Scrambler.Stream.{scramble}
use echo_protocol.Header.{Header}
use echo_protocol.Receiver.{Receiver, payload_bit, process_rx_bit}
use echo_protocol.Receiver.Frame.{
  hear, IsTimely, Taken, taking, taken, step, in_step, header_of, Completed, taking-header,
  taking-last, hear-next, hear-last,
}

-- The bits of the payload.
module _ (h : Header) (small : h.len ≤ 2048) where
  payload_last :
      (r : Receiver) (k : ℕ) (held : List ℕ)
      → Taken r k held
      → header_of r ≡ h
      → k ≡ h.len * 8 + 16
      → Completed (payload_bit r) h held
  unfolding payload_bit
  payload_last r k held v e n =
      let test : (r.bits_received == r.packet_len * 8 + 16) ≡ true =
        ground (arith, v.count, ap (λ (a : Header). a.len) e) in
      rw test (record {
        sound = record { ring = v.sound.ring; sync = v.sound.sync; scrambler = v.sound.scrambler };
        idle = refl;
        ready = refl;
        header = e;
        holds = v.holds;
      })

  payload_more :
      (r : Receiver) (k : ℕ) (held : List ℕ)
      → Taken r k held
      → header_of r ≡ h
      → k < h.len * 8 + 16
      → payload_bit r ≡ r
  unfolding payload_bit
  payload_more r k held v e n =
      let test : (r.bits_received == r.packet_len * 8 + 16) ≡ false =
        ground (arith, v.count, ap (λ (a : Header). a.len) e) in
      rw test refl

  pub payload_phase :
      (xs times : List ℕ) (r : Receiver) (k : ℕ) (held : List ℕ)
      → AllBits xs
      → Taken r k held
      → header_of r ≡ h
      → 16 ≤ k
      → k + length xs ≡ h.len * 8 + 16
      → length held ≡ k
      → 0 < length xs
      → length times ≡ length xs
      → IsTimely r.last_rx_time times
      → Completed (hear r times (scramble r.rx_scrambler xs).1) h (held ++ xs)
  payload_phase [] times r k held b v e lo n size pos same on = absurd (omega arith)
  payload_phase (x ∷ xs) [] r k held b v e lo n size pos same on = absurd (omega arith)
  payload_phase (x ∷ []) (t ∷ t' ∷ times) r k held b v e lo n size pos same on =
      absurd (omega arith)
  payload_phase (x ∷ []) (t ∷ []) r k held b v e lo n size pos same on =
      let q = taking t r x in
      let next = taken t r x b.0 v (omega arith) (omega arith) in
      let late : ltb 16 q.bits_received ≡ true = ground (arith, next.count) in
      rw (hear-last t r x, step t r x b.0 v (omega arith) (omega arith) on.0 on.1, late)
        (payload_last q (k + 1) (held ++ (x ∷ [])) next (taking-header t r x ∙ e) (omega arith))
  payload_phase (x ∷ x' ∷ xs) (t ∷ times) r k held b v e lo n size pos same on =
      let q = taking t r x in
      let next = taken t r x b.0 v (omega arith) (omega arith) in
      let late : ltb 16 q.bits_received ≡ true = ground (arith, next.count) in
      let e' = taking-header t r x ∙ e in
      let arrives : process_rx_bit t r (scrambler_process r.rx_scrambler x).1 ≡ q =
        step t r x b.0 v (omega arith) (omega arith) on.0 on.1
        ∙ rw late (payload_more q (k + 1) (held ++ (x ∷ [])) next e' (omega arith)) in
      let rest =
        payload_phase (x' ∷ xs) times q (k + 1) (held ++ (x ∷ [])) b.1 next e' (omega arith)
          (omega arith) (omega (arith, length-append held (x ∷ []))) (omega arith) (omega arith)
          (subst (λ l. IsTimely l times) (sym (taking-last t r x)) on.2) in
      rw
        (hear-next t times r q x (x' ∷ xs) arrives
          (in_step t r x b.0 v (omega arith) (omega arith)))
        (subst (Completed _ h) (append_assoc held (x ∷ []) (x' ∷ xs)) rest)
