-- ===== src/Transmit/Sent.antt =====
-- What a frame leaves in the transmit ring: all of it, or a prefix where the ring fills.
use mathlib.Core.Path.{subst}
use echo_protocol.Base.{ℕ, ◌+◌, ◌-◌, ◌*◌, ◌≤◌, ◌<◌, ◌≡◌, ◌⊎◌, inl, inr, refl, sym, ap, ◌∙◌, arith}
use echo_protocol.Base.{
  List, ◌++◌, length, length-append, Bool, true, false, if◌then◌else◌, take, u16, bit_and,
  length-take, take_all, take-append_left,
}
use echo_protocol.Base.Xor.{bit_and_mask}
use echo_protocol.Base.Bytes.{range_bits, bits_of, range_bits-word, range_bits-bytes}
use echo_protocol.Base.Powers.{word_bits}
use echo_protocol.Ring.{Buffer}
use echo_protocol.Ring.Inv.{IsValid as IsRing, IsFull, masked}
use echo_protocol.Ring.Refine.{contents, length-contents}
use echo_protocol.Scrambler.{Scrambler, scrambler_reset}
use echo_protocol.Scrambler.Stream.{scramble, length-scramble, scramble-append}
use echo_protocol.Header.{pack}
use echo_protocol.Transmit.{
  Sender, Outgoing, send_bits, send_frame, header_for, header_bit_at, payload_bit_at,
}
use echo_protocol.Transmit.Progress.{Progress, send_bits-Progress, joined}

-- The bits of a frame before they are scrambled.
abbrev pub frame_bits : Outgoing → List ℕ
frame_bits o = word_bits 16 (pack (header_for o)) ++ bits_of o.bytes

-- What `scrambler_reset` leaves.
abbrev pub fresh : Scrambler
fresh = record { state = 1 }

-- The whole scrambled frame behind what the ring held, or a part of its front in a full ring.
abbrev pub Result : Buffer → Sender → List ℕ → Type 0
Result before s' bits =
    (contents s'.tx_rb ≡ contents before ++ (scramble fresh bits).1)
    ⊎ ((count : ℕ) × (count < length bits)
        × IsFull s'.tx_rb
        × (contents s'.tx_rb ≡ contents before ++ take count (scramble fresh bits).1))

pub record IsSent (s s' : Sender) (bits : List ℕ) : Type 0 where
  pub valid : IsRing s'.tx_rb
  pub result : Result s.tx_rb s' bits

header-range : (header : ℕ) → range_bits (header_bit_at header) 16 0 ≡ word_bits 16 header
header-range header =
    range_bits-word (header_bit_at header) 16 0 header
      λ i h. let same : 15 - (0 + i) ≡ 16 - 1 - i = omega arith in rw same (bit_and_mask 1 _)

payload-range :
    (bytes : List ℕ)
    → length bytes < 65536
    → range_bits (payload_bit_at bytes) (u16 (length bytes) * 8) 0 ≡ bits_of bytes
payload-range bytes h =
    let same : u16 (length bytes) ≡ length bytes = omega arith in rw same (range_bits-bytes bytes)

progress-IsSent :
    {s s' : Sender} (done : Bool) (bits : List ℕ)
    → s.tx_scrambler ≡ fresh
    → Progress s s' done bits
    → IsSent s s' bits
progress-IsSent {s} {s'} true bits e p = record {
  valid = p.valid;
  result = inl (
      p.holds
      ∙ ap (λ l. contents s.tx_rb ++ l)
          (take_all p.count (scramble s.tx_scrambler bits).1
              (omega (arith, (p.whole refl).0, length-scramble s.tx_scrambler bits))
            ∙ ap (λ t. (scramble t bits).1) e));
}
progress-IsSent {s} {s'} false bits e p = record {
  valid = p.valid;
  result = inr (
    p.count,
    (p.refused refl).1,
    (p.refused refl).0,
    p.holds ∙ ap (λ t. contents s.tx_rb ++ take p.count (scramble t bits).1) e,
  );
}

-- A frame that stops in the header.
longer : {s s' : Sender} (xs ys : List ℕ) → Progress s s' false xs → Progress s s' false (xs ++ ys)
longer {s} {s'} xs ys p =
    let first = (scramble s.tx_scrambler xs).1 in
    let n = length-scramble s.tx_scrambler xs in
    record {
      valid = p.valid;
      count = p.count;
      holds =
          p.holds
          ∙ ap (λ l. contents s.tx_rb ++ l)
              (sym (take-append_left p.count first _ (omega (arith, n, p.at_most)))
                ∙ ap (take p.count) (sym (scramble-append s.tx_scrambler xs ys).0));
      at_most = omega (arith, p.at_most, length-append xs ys);
      whole = λ e. absurd (ground arith);
      refused = λ e. ((p.refused e).0, omega (arith, (p.refused e).1, length-append xs ys));
    }

-- The header, and the payload when the header was taken.
then_payload :
    {s : Sender} (xs ys : List ℕ) (payload : Sender → Sender × Bool) (head : Sender × Bool)
    → s.tx_scrambler ≡ fresh
    → Progress s head.0 head.1 xs
    → ((s' : Sender) → IsRing s'.tx_rb → Progress s' (payload s').0 (payload s').1 ys)
    → IsSent s (if head.1 then (payload head.0).0 else head.0) (xs ++ ys)
then_payload xs ys payload (s', true) e p q =
    progress-IsSent (payload s').1 (xs ++ ys) e (joined xs ys p (q s' p.valid))
then_payload xs ys payload (s', false) e p q = progress-IsSent false (xs ++ ys) e (longer xs ys p)

bit-small : (a : ℕ) → bit_and a 1 < 2
bit-small a = omega (arith, bit_and_mask 1 a)

pub send_frame-IsSent :
    (o : Outgoing) (s : Sender)
    → length o.bytes < 65536
    → IsRing s.tx_rb
    → IsSent s (send_frame o s) (frame_bits o)
unfolding send_frame scrambler_reset
send_frame-IsSent o s small v =
    let w = pack (header_for o) in
    let start = record s { tx_scrambler = fresh } in
    let payload =
      λ (s' : Sender). send_bits (payload_bit_at o.bytes) (u16 (length o.bytes) * 8) 0 s' in
    let sent =
      then_payload {s = start} (word_bits 16 w) (bits_of o.bytes) payload
        (send_bits (header_bit_at w) 16 0 start) refl
        (subst (Progress start _ _) (header-range w)
          (send_bits-Progress (header_bit_at w) 16 0 start (λ i. bit-small _) v))
        (λ s' v'.
          subst (Progress s' _ _) (payload-range o.bytes small)
            (send_bits-Progress (payload_bit_at o.bytes) _ 0 s' (λ i. bit-small _) v')) in
    record { valid = sent.valid; result = sent.result }

-- A ring that is full holds at least 131057 bits.
full-length : {b : Buffer} → IsRing b → IsFull b → 131057 ≤ length (contents b)
full-length {b} v full = ground (arith, masked (b.head + 1), length-contents b)

-- With room for it, the whole frame is sent.
pub sent_whole :
    {s s' : Sender} (bits : List ℕ)
    → IsSent s s' bits
    → length (contents s.tx_rb) + length bits ≤ 131057
    → contents s'.tx_rb ≡ contents s.tx_rb ++ (scramble fresh bits).1
sent_whole {s} {s'} bits p room = elim p.result [
  | inl whole ↦ whole
  | inr (count, few, full, holds) ↦
      let out = (scramble fresh bits).1 in
      absurd (
        omega (
          arith,
          full-length p.valid full,
          ap length holds,
          length-append (contents s.tx_rb) (take count out),
          length-take count out,
        ))
]
