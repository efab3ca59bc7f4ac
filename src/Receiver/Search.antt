-- ===== src/Receiver/Search.antt =====
-- The search of the receiver of src/echo_protocol.c through the preamble and the sync word, after any
-- number of the ones that an idle sender plays.
use mathlib.Core.Path.{subst}
use echo_protocol.Base.{
  ℕ, zero, suc, ◌+◌, ◌-◌, ◌^◌, ◌≤◌, ◌<◌, ◌≡◌, refl, sym, ap₂, ◌∙◌, arith, Bool, true, false, ◌&&◌,
  not, ◌==◌, all_below, all_below_sound, min, u32, Bool-cases, inl, inr,
}
use echo_protocol.Base.{List, [], ◌∷◌, ◌++◌, length, replicate, AllBits}
use echo_protocol.Base.Powers.{word_bits}
use echo_protocol.Base.Bytes.{word_bits-AllBits, AllBits-append}
use echo_protocol.Ring.Refine.{contents}
use echo_protocol.Sync.{Correlator, check_sync_word, corr_push, corr_decide, popcount, sync_word}
use echo_protocol.Preamble.{preamble}
use echo_protocol.Scrambler.{scrambler_reset}
use echo_protocol.Receiver.{Receiver, searching, search_bit, process_rx_bit}
use echo_protocol.Receiver.Sound.{process_searching, IsSound}
use echo_protocol.Receiver.Frame.{hear}
use echo_protocol.Receiver.Frame.Whole.{IsStarted}
use echo_protocol.Sync.Detect.{check_sync_word-IsValid}

-- What comes before a frame.
abbrev pub lead : List ℕ
lead = word_bits 16 preamble ++ word_bits 32 sync_word

-- The registers of the search after `j` ones, up to 32.
abbrev ones : ℕ → ℕ
ones j = 2 ^ j - 1

abbrev registers : ℕ → Correlator
registers j = record { corr_reg = ones j; corr_bits = j }

-- The report comes with the last bit, and not before.
sought : ℕ → Correlator → List ℕ → Bool
sought w c [] = false
sought w c (bit ∷ []) = (check_sync_word w c bit).result == 0
sought w c (bit ∷ x ∷ bits) =
    let r = check_sync_word w c bit in
    let rest = sought r.check_word r.correlator (x ∷ bits) in not (r.result == 0) && rest

found_table : all_below 33 (λ j. sought (ones j) (registers j) lead) ≡ true
unfolding all_below sought check_sync_word corr_push corr_decide popcount word_bits
found_table = refl

-- One more.
one_more : ℕ → Bool
one_more j =
    let r = check_sync_word (ones j) (registers j) 1 in
    let k = min (j + 1) 32 in
    not (r.result == 0)
    && ((r.check_word == ones k)
        && ((r.correlator.corr_reg == ones k) && (r.correlator.corr_bits == k)))

more_table : all_below 33 one_more ≡ true
unfolding all_below one_more check_sync_word corr_push corr_decide popcount word_bits
more_table = refl

-- A receiver in search, in whose ring nothing is left.
pub record IsSearching (r : Receiver) : Type 0 where
  pub sound : IsSound r
  pub searching : r.state ≡ searching
  pub empty : contents r.rx_rb ≡ []

-- The receiver has heard `j` ones, or 32 or more of them.
pub record IsIdling (j : ℕ) (r : Receiver) : Type 0 where
  pub search : IsSearching r
  pub at_most : j ≤ 32
  pub word : r.sync_accumulator ≡ ones j
  pub register : r.correlator ≡ registers j

-- A bit that brings no report.
passed : Receiver → ℕ → Receiver
passed r bit =
    let c = check_sync_word r.sync_accumulator r.correlator bit in
    record r { sync_accumulator = c.check_word; correlator = c.correlator }

module _ (now : ℕ) (r : Receiver) (bit : ℕ) (v : IsSearching r) where
  pass_bit :
      ((check_sync_word r.sync_accumulator r.correlator bit).result == 0) ≡ false
      → process_rx_bit now r bit ≡ passed r bit
  unfolding passed search_bit
  pass_bit e = sym (process_searching now r bit v.searching) ∙ rw e refl

  passed-IsSearching : bit < 2 → IsSearching (passed r bit)
  unfolding passed
  passed-IsSearching h = record {
    sound = record {
      ring = v.sound.ring;
      sync = (check_sync_word-IsValid bit h v.sound.sync).0;
      scrambler = v.sound.scrambler;
    };
    searching = v.searching;
    empty = v.empty;
  }

-- The receiver after the report of a bit that comes at the time `t`.
pub record IsReported (t : ℕ) (r' : Receiver) : Type 0 where
  pub started : IsStarted r'
  pub scrambler : r'.rx_scrambler ≡ record { state = 1 }
  pub time : r'.last_rx_time ≡ u32 t

report_bit :
    (now : ℕ) (r : Receiver) (bit : ℕ)
    → IsSearching r
    → bit < 2
    → ((check_sync_word r.sync_accumulator r.correlator bit).result == 0) ≡ true
    → IsReported now (process_rx_bit now r bit)
unfolding search_bit scrambler_reset
report_bit now r bit v h e =
    let reported : IsReported now (search_bit now r bit) = rw e (record {
      started = record {
        sound = record {
          ring = v.sound.ring;
          sync = (check_sync_word-IsValid bit h v.sound.sync).0;
          scrambler = omega arith;
        };
        busy = refl;
        count = refl;
        acc = refl;
        empty = v.empty;
      };
      scrambler = refl;
      time = refl;
    }) in
    subst (IsReported now) (process_searching now r bit v.searching) reported

unfoldable pub last_of : ℕ → List ℕ → ℕ
last_of t [] = t
last_of t (u ∷ us) = last_of u us

sought-IsReported :
    (bits times : List ℕ) (r : Receiver)
    → IsSearching r
    → AllBits bits
    → length times ≡ length bits
    → sought r.sync_accumulator r.correlator bits ≡ true
    → IsReported (last_of 0 times) (hear r times bits)
unfolding sought hear last_of passed
sought-IsReported [] times r v b n e = absurd (ground (arith, e))
sought-IsReported (bit ∷ []) [] r v b n e = absurd (omega (arith, n))
sought-IsReported (bit ∷ []) (t ∷ []) r v b n e = report_bit t r bit v b.0 e
sought-IsReported (bit ∷ []) (t ∷ u ∷ times) r v b n e = absurd (omega (arith, n))
sought-IsReported (bit ∷ x ∷ bits) [] r v b n e = absurd (omega (arith, n))
sought-IsReported (bit ∷ x ∷ bits) (t ∷ []) r v b n e = absurd (omega (arith, n))
sought-IsReported (bit ∷ x ∷ bits) (t ∷ u ∷ times) r v b n e =
    let c = check_sync_word r.sync_accumulator r.correlator bit in
    elim (Bool-cases (c.result == 0)) [
      | inl early ↦ absurd (ground (arith, e, early))
      | inr later ↦
          let more : sought c.check_word c.correlator (x ∷ bits) ≡ true = rw later at e in
          subst (λ r'. IsReported (last_of u times) (hear r' (u ∷ times) (x ∷ bits)))
            (sym (pass_bit t r bit v later))
            (sought-IsReported (x ∷ bits) (u ∷ times) (passed r bit)
              (passed-IsSearching t r bit v b.0) b.1 (omega (arith, n)) more)
    ]

-- Some number of ones.
abbrev pub IsWaiting : Receiver → Type 0
IsWaiting r = (j : ℕ) × IsIdling j r

-- What one more of them does to the registers.
Advances : ℕ → ℕ → Correlator → Type 0
Advances k word register =
    let c = check_sync_word word register 1 in
    ((c.result == 0) ≡ false) × (c.check_word ≡ ones k) × (c.correlator ≡ registers k)

one_more-Advances : (j : ℕ) → j ≤ 32 → Advances (min (j + 1) 32) (ones j) (registers j)
unfolding one_more Advances
one_more-Advances j h =
    let row = all_below_sound 33 one_more j more_table (omega arith) in
    (ground (arith, row), ground (arith, row), ground (arith, row))

pub hear_one : (now : ℕ) (r : Receiver) → IsWaiting r → IsWaiting (process_rx_bit now r 1)
unfolding passed Advances
hear_one now r (j, v) =
    let k = min (j + 1) 32 in
    let a =
      subst (λ w. Advances k w r.correlator) (sym v.word)
        (subst (Advances k (ones j)) (sym v.register) (one_more-Advances j v.at_most)) in
    subst IsWaiting (sym (pass_bit now r 1 v.search a.0)) (
      k,
      record {
        search = passed-IsSearching now r 1 v.search (omega arith);
        at_most = omega arith;
        word = a.1;
        register = a.2;
      },
    )

pub hear_ones :
    (n : ℕ) (times : List ℕ) (r : Receiver)
    → length times ≡ n
    → IsWaiting r
    → IsWaiting (hear r times (replicate n 1))
unfolding hear
hear_ones zero [] r e v = v
hear_ones zero (t ∷ times) r e v = absurd (omega (arith, e))
hear_ones (suc n) [] r e v = absurd (omega (arith, e))
hear_ones (suc n) (t ∷ times) r e v =
    hear_ones n times (process_rx_bit t r 1) (omega (arith, e)) (hear_one t r v)

-- Through the preamble and the sync word.
pub hear-lead :
    (times : List ℕ) (r : Receiver)
    → length times ≡ 48
    → IsWaiting r
    → IsReported (last_of 0 times) (hear r times lead)
hear-lead times r e (j, v) =
    let row =
      all_below_sound 33 (λ k. sought (ones k) (registers k) lead) j found_table
        (omega (arith, v.at_most)) in
    sought-IsReported lead times r v.search
      (AllBits-append (word_bits 16 preamble) (word_bits 32 sync_word)
        (word_bits-AllBits 16 preamble) (word_bits-AllBits 32 sync_word))
      (e ∙ lead_size) (ap₂ (λ w c. sought w c lead) v.word v.register ∙ row)
  where
    lead_size : 48 ≡ length lead
    lead_size = unfold word_bits in refl

pub last_of-any : (a b : ℕ) (ts : List ℕ) → 0 < length ts → last_of a ts ≡ last_of b ts
unfolding last_of
last_of-any a b [] h = absurd (omega arith)
last_of-any a b (t ∷ ts) h = refl

-- A receiver in search whose ring is empty and that has heard some ones: after any number of further
-- ones (what an idle sender plays), it finds the sync word of the 48 bits before a frame just with
-- their last bit, and then waits for the header, with an empty ring, with the descrambler in the state
-- in which the sender starts a frame, and with the time of that bit.
pub hear_ones-lead :
    (n : ℕ) (idle times : List ℕ) (r : Receiver)
    → IsWaiting r
    → length idle ≡ n
    → length times ≡ 48
    → IsReported (last_of 0 times) (hear (hear r idle (replicate n 1)) times lead)
hear_ones-lead n idle times r v e f =
    hear-lead times (hear r idle (replicate n 1)) f (hear_ones n idle r e v)
