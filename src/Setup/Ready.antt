-- ===== src/Setup/Ready.antt =====
-- A station just after `echo_init`.
use echo_protocol.Base.Floats.{Floats}
use mathlib.Core.Path.{subst}
use echo_protocol.Base.{ℕ, ◌≡◌, refl, ap, arith, false, List, [], Option, some, none}
use echo_protocol.Ring.{Buffer, rb_init, store}
use echo_protocol.Ring.Inv.{IsValid as IsRing}
use echo_protocol.Ring.Refine.{contents}
use echo_protocol.Scrambler.{scrambler_init}
use echo_protocol.Transmit.Sent.{fresh}
use echo_protocol.Rohc.{rohc_init}
use echo_protocol.Receiver.Search.{IsWaiting}
use echo_protocol.Modem.{pre_calc_goertzel, reset_state, samples_per_symbol}
use echo_protocol.Modem.Symbols.{IsBetween}
use echo_protocol.Tunnel.{Os, Sys, tun_alloc}
use echo_protocol.Setup.{
  EchoProtocol, set_fields, echo_init, opened, tun_flags, Statics, at_start, receiver_of, demod_of,
}

abbrev pub emptied : Buffer → Buffer
emptied block = record block {
  buf = store block.buf 0 0;
  head = 0;
  tail = 0;
  count_put = 0;
  count_get = 0;
}

emptied-IsRing : (block : Buffer) → IsRing (emptied block)
emptied-IsRing block = record {
  head_in = omega arith;
  tail_in = omega arith;
  put_in = omega arith;
  get_in = omega arith;
  behind = λ e. omega arith;
  started = λ apart. absurd (apart refl);
  clean = omega arith;
}

-- What a ring is after the `malloc` that has given this block, if it has: it is valid and empty.
abbrev pub IsRingOf : Option Buffer → Option Buffer → Type 0
IsRingOf none rb = rb ≡ none
IsRingOf (some block) rb =
    (rb ≡ some (emptied block)) × IsRing (emptied block) × (contents (emptied block) ≡ [])

-- With its ring, the receiver waits for a sync word, between two symbols.
abbrev pub IsListening : (fl : Floats) → Statics → EchoProtocol fl.F → Option Buffer → Type 0
IsListening fl statics e none = Unit
IsListening fl statics e (some block) =
    IsWaiting (receiver_of statics e (emptied block))
    × IsBetween fl (demod_of statics e (emptied block))

-- Each ring is there exactly where `malloc` has given its block, and is then valid and empty; the sender's
-- scrambler is as at the start of a frame, its next symbol is due, and it has no context; the receiver, if
-- it has its ring, waits for a sync word, between two symbols; nothing is there for the loop.
pub record IsReady (fl : Floats) (statics : Statics) (e : EchoProtocol fl.F)
    (tx_block rx_block : Option Buffer) : Type 0 where
  pub tx : IsRingOf tx_block e.tx_rb
  pub rx : IsRingOf rx_block e.rx_rb
  pub scrambler : e.tx_scrambler ≡ fresh
  pub due : e.tx_sample_count ≡ samples_per_symbol
  pub no_context : e.rohc_tx.context_valid ≡ false
  pub listening : IsListening fl statics e rx_block
  pub nothing_ready : e.rx.packet_ready ≡ 0

rb_init-IsRingOf : (o : Option Buffer) → IsRingOf o (rb_init o)
unfolding rb_init
rb_init-IsRingOf none = refl
rb_init-IsRingOf (some block) = (refl, emptied-IsRing block, refl)

module _ (fl : Floats) where
  set_fields-IsListening :
      (tx_block rx_block : Option Buffer) (fd : ℕ) (echo : EchoProtocol fl.F)
      → IsListening fl at_start (set_fields fl tx_block rx_block fd echo) rx_block
  unfolding set_fields scrambler_init pre_calc_goertzel reset_state
  set_fields-IsListening tx_block none fd echo = tt
  set_fields-IsListening tx_block (some rx_block) fd echo = (
    (
      0,
      record {
        search = record {
          sound = record {
            ring = emptied-IsRing rx_block;
            sync = record { word_in = omega arith; reg_in = omega arith; bits_in = omega arith };
            scrambler = omega arith;
          };
          searching = refl;
          empty = refl;
        };
        at_most = omega arith;
        word = refl;
        register = refl;
      },
    ),
    record { count = refl; quiet = refl },
  )

  module _ (tx_block rx_block : Option Buffer) where
    set_fields-IsReady :
        (fd : ℕ) (echo : EchoProtocol fl.F)
        → IsReady fl at_start (set_fields fl tx_block rx_block fd echo) tx_block rx_block
    unfolding set_fields rohc_init scrambler_init
    set_fields-IsReady fd echo = record {
      tx = rb_init-IsRingOf tx_block;
      rx = rb_init-IsRingOf rx_block;
      scrambler = refl;
      due = refl;
      no_context = refl;
      listening = set_fields-IsListening tx_block rx_block fd echo;
      nothing_ready = refl;
    }

    opened-IsReady :
        (r : Option (ℕ × List ℕ) × Sys) (echo : EchoProtocol fl.F) (e : EchoProtocol fl.F)
        (name : List ℕ) (s' : Sys)
        → opened fl tx_block rx_block echo r ≡ (some (e, name), s')
        → IsReady fl at_start e tx_block rx_block
    opened-IsReady (none, s) echo e name s' h = absurd (ground (arith, h))
    opened-IsReady (some (fd, dev), s) echo e name s' h =
        subst
          (λ (o : Option (EchoProtocol fl.F × List ℕ)). elim o [
            | none ↦ Unit
            | some a ↦ IsReady fl at_start a.0 tx_block rx_block
          ])
          (ap (λ (p : Option (EchoProtocol fl.F × List ℕ) × Sys). p.0) h)
          (set_fields-IsReady fd echo)

    -- With the static variables as they are at the start of the program, and whatever the structure and the
    -- blocks of memory held: when `echo_init` succeeds, each of the two rings is there, valid and empty,
    -- where `malloc` has given it a block, and NULL where it has not; the sender's scrambler is as at the
    -- start of a frame, a symbol is due and there is no context; the receiver, if it has its ring, waits for
    -- a sync word, between two symbols; and nothing is there for the loop.
    pub echo_init-IsReady :
        (os : Os) (dev_name : List ℕ) (echo e : EchoProtocol fl.F) (name : List ℕ) (s s' : Sys)
        → echo_init fl os tx_block rx_block dev_name echo s ≡ (some (e, name), s')
        → IsReady fl at_start e tx_block rx_block
    unfolding echo_init
    echo_init-IsReady os dev_name echo e name s s' h =
        opened-IsReady (tun_alloc os dev_name tun_flags s) echo e name s' h
