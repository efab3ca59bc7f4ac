-- ===== src/Transmit/Progress.antt =====
-- How far the loops of `tun_to_rb` over the bits of a frame come: `send_bits`.
use mathlib.Core.Path.{subst}
use echo_protocol.Base.{ℕ, zero, suc, ◌+◌, ◌≤◌, ◌<◌, ◌≡◌, inl, inr, refl, sym, ap, ◌∙◌, arith}
use echo_protocol.Base.{
  List, [], ◌∷◌, ◌++◌, length, length-append, append_assoc, append-nil, Bool, true, false, take,
  take_all, take-append,
}
use echo_protocol.Base.Bytes.{range_bits}
use echo_protocol.Ring.{put_bits}
use echo_protocol.Ring.Inv.{IsValid as IsRing, IsFull, put_bits-IsValid}
use echo_protocol.Ring.Refine.{contents, put_bits_refines}
use echo_protocol.Scrambler.{scrambler_process}
use echo_protocol.Scrambler.Stream.{scramble, process_in, length-scramble, scramble-append}
use echo_protocol.Transmit.{Sender, send_bits}

-- How far a run over `bits` came: the ring holds the first `count` of the scrambled bits behind what
-- it held, and where these are not all, it is full.
pub record Progress (s s' : Sender) (done : Bool) (bits : List ℕ) : Type 0 where
  pub valid : IsRing s'.tx_rb
  pub count : ℕ
  pub holds : contents s'.tx_rb ≡ contents s.tx_rb ++ take count (scramble s.tx_scrambler bits).1
  pub at_most : count ≤ length bits
  pub whole :
      done ≡ true → (count ≡ length bits) × (s'.tx_scrambler ≡ (scramble s.tx_scrambler bits).0)
  pub refused : done ≡ false → IsFull s'.tx_rb × (count < length bits)

-- The sender after one bit.
abbrev one : Sender → ℕ → Sender
one s x = record s {
  tx_scrambler = (scrambler_process s.tx_scrambler x).0;
  tx_rb = (put_bits s.tx_rb (scrambler_process s.tx_scrambler x).1).0;
}

-- One accepted bit before the others.
accepted :
    (s : Sender) (x : ℕ) (bits : List ℕ) (end : Sender × Bool)
    → contents (one s x).tx_rb ≡ contents s.tx_rb ++ ((scrambler_process s.tx_scrambler x).1 ∷ [])
    → Progress (one s x) end.0 end.1 bits
    → Progress s end.0 end.1 (x ∷ bits)
unfolding scramble
accepted s x bits end more p = record {
  valid = p.valid;
  count = suc p.count;
  holds =
      p.holds
      ∙ ap (λ l. l ++ take p.count (scramble (one s x).tx_scrambler bits).1) more
      ∙ append_assoc (contents s.tx_rb) ((scrambler_process s.tx_scrambler x).1 ∷ []) _;
  at_most = omega (arith, p.at_most);
  whole = λ e. (ap suc (p.whole e).0, (p.whole e).1);
  refused = λ e. ((p.refused e).0, omega (arith, (p.refused e).1));
}

-- The run stops at a bit that is refused.
stopped :
    (s : Sender) (x : ℕ) (bits : List ℕ)
    → (one s x).tx_rb ≡ s.tx_rb
    → IsRing s.tx_rb
    → IsFull s.tx_rb
    → Progress s (one s x) false (x ∷ bits)
stopped s x bits e v full = record {
  valid = subst IsRing (sym e) v;
  count = 0;
  holds = ap contents e ∙ sym (append-nil (contents s.tx_rb));
  at_most = omega arith;
  whole = λ h. absurd (ground arith);
  refused = λ h. (subst IsFull (sym e) full, omega arith);
}

-- A round, as the status of the put says.
send_more :
    (bit : ℕ → ℕ) (n k : ℕ) (s : Sender)
    → (put_bits s.tx_rb (scrambler_process s.tx_scrambler (bit k)).1).1 ≡ 1
    → send_bits bit n (k + 1) (one s (bit k)) ≡ send_bits bit (suc n) k s
unfolding send_bits
send_more bit n k s e = rw e refl

send_full :
    (bit : ℕ → ℕ) (n k : ℕ) (s : Sender)
    → (put_bits s.tx_rb (scrambler_process s.tx_scrambler (bit k)).1).1 ≡ 0
    → (one s (bit k), false) ≡ send_bits bit (suc n) k s
unfolding send_bits
send_full bit n k s e = rw e refl

no_round :
    (bit : ℕ → ℕ) (k : ℕ) (s : Sender)
    → IsRing s.tx_rb
    → Progress s (send_bits bit zero k s).0 (send_bits bit zero k s).1 []
unfolding send_bits scramble
no_round bit k s v = record {
  valid = v;
  count = 0;
  holds = sym (append-nil (contents s.tx_rb));
  at_most = omega arith;
  whole = λ e. (refl, refl);
  refused = λ e. absurd (ground arith);
}

-- A run of either loop, over any valid ring.
pub send_bits-Progress :
    (bit : ℕ → ℕ) (n k : ℕ) (s : Sender)
    → ((i : ℕ) → bit i < 2)
    → IsRing s.tx_rb
    → Progress s (send_bits bit n k s).0 (send_bits bit n k s).1 (range_bits bit n k)
unfolding range_bits
send_bits-Progress bit zero k s b v = no_round bit k s v
send_bits-Progress bit (suc n) k s b v =
    let x = (scrambler_process s.tx_scrambler (bit k)).1 in
    let small = (process_in s.tx_scrambler (bit k) (b k)).1 in
    elim (put_bits_refines x small v) [
      | inl (one_more, more) ↦
          let ih =
            send_bits-Progress bit n (k + 1) (one s (bit k)) b (put_bits-IsValid x small v) in
          subst (λ (end : Sender × Bool). Progress s end.0 end.1 (bit k ∷ range_bits bit n (k + 1)))
            (send_more bit n k s one_more) (accepted s (bit k) (range_bits bit n (k + 1)) _ more ih)
      | inr (zero_put, same, full) ↦
          subst (λ (end : Sender × Bool). Progress s end.0 end.1 (bit k ∷ range_bits bit n (k + 1)))
            (send_full bit n k s zero_put)
            (stopped s (bit k) (range_bits bit n (k + 1)) same v full)
    ]

-- Two runs, one after the other.
pub joined :
    {s s' s'' : Sender} {done : Bool} (xs ys : List ℕ)
    → Progress s s' true xs
    → Progress s' s'' done ys
    → Progress s s'' done (xs ++ ys)
joined {s} {s'} xs ys p q =
    let (all, same) = p.whole refl in
    let (out, end) = scramble-append s.tx_scrambler xs ys in
    let first = (scramble s.tx_scrambler xs).1 in
    let n = length-scramble s.tx_scrambler xs in
    let second = (scramble s'.tx_scrambler ys).1 in
    let moved : second ≡ (scramble (scramble s.tx_scrambler xs).0 ys).1 =
      ap (λ t. (scramble t ys).1) same in
    record {
      valid = q.valid;
      count = p.count + q.count;
      holds =
          q.holds
          ∙ ap (λ l. l ++ take q.count second)
              (p.holds
                ∙ ap (λ l. contents s.tx_rb ++ l) (take_all p.count first (omega (arith, all, n))))
          ∙ append_assoc (contents s.tx_rb) first (take q.count second)
          ∙ ap (λ l. contents s.tx_rb ++ l)
              (sym (take-append p.count q.count first second (omega (arith, all, n)))
                ∙ ap (take (p.count + q.count)) (ap (λ l. first ++ l) moved ∙ sym out));
      at_most = omega (arith, all, q.at_most, length-append xs ys);
      whole = λ e. (
        omega (arith, all, (q.whole e).0, length-append xs ys),
        (q.whole e).1 ∙ ap (λ t. (scramble t ys).0) same ∙ sym end,
      );
      refused = λ e. ((q.refused e).0, omega (arith, all, (q.refused e).1, length-append xs ys));
    }
