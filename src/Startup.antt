-- ===== src/Startup.antt =====
-- `main` of src/main.c from `log_init` on, around its loop: what it opens at the start, what it closes on
-- each path, the log with its file included. The messages that are written to the log on the way are an
-- argument. The reading of the command line, the signals and the gains are left out; the warm-up and the
-- loop, which open and close nothing, stand in WarmUp and Main.
pub mod Closed
mod Tests
use echo_protocol.Base.Floats.{Floats}
use echo_protocol.Base.{ℕ, Bool, List, Option, some, none}
use echo_protocol.Ring.{Buffer}
use echo_protocol.Tunnel.{Os, Sys, tun_set_ip, tun_set_mtu, tun_set_up}
use echo_protocol.Setup.{EchoProtocol, echo_init, echo_close}
use echo_protocol.AudioIo.{
  PortAudio, Pa, Return, ok, failed, crashed, audio_init, audio_start, audio_close,
}
use echo_protocol.Log.{info, LogState, Message, log_init, log_set_console_level, log_close}
use echo_protocol.Log.Messages.{log_all}

-- How the process ends: the value that `main` returns, or a read through NULL.
pub data Exit : Type 0 where
  returned : ℕ → Exit
  killed : Exit

-- The log from `log_init` to the end, after these messages.
unfoldable pub log_of_main : (List ℕ → Bool → Option ℕ) → List Message → LogState → LogState
log_of_main fopen said log = log_all said (log_set_console_level info (log_init fopen log))

module _ (fl : Floats) (os : Os) (lib : PortAudio) where
  abbrev pub Ended : Type 0
  Ended = Exit × Sys × Pa lib.Time × LogState

  -- After the loop. The other ends of `main` do not close the log.
  unfoldable pub shut_down : EchoProtocol fl.F → ℕ → LogState → Sys → Pa lib.Time → Ended
  shut_down e stream log s p = (returned 0, echo_close e s, audio_close lib stream p, log_close log)

  abbrev pub after_start : EchoProtocol fl.F → ℕ → LogState → Sys → Return ℕ × Pa lib.Time → Ended
  after_start e stream log s (ok status, p) = shut_down e stream log s p
  after_start e stream log s (failed, p) =
      (returned 1, echo_close e s, audio_close lib stream p, log)
  after_start e stream log s (crashed, p) = (killed, s, p, log)

  abbrev pub after_audio : EchoProtocol fl.F → LogState → Sys → Return ℕ × Pa lib.Time → Ended
  after_audio e log s (ok stream, p) = after_start e stream log s (audio_start lib stream p)
  after_audio e log s (failed, p) = (returned 1, echo_close e s, p, log)
  after_audio e log s (crashed, p) = (killed, s, p, log)

  -- The results of the three calls for the interface are not looked at.
  abbrev pub after_echo :
      List ℕ
      → Option ℕ
      → Option ℕ
      → LogState
      → Pa lib.Time
      → Option (EchoProtocol fl.F × List ℕ) × Sys
      → Ended
  after_echo ip input_id output_id log p (none, s) = (returned 1, s, p, log)
  after_echo ip input_id output_id log p (some (e, dev_name), s) =
      let s1 = (tun_set_ip os dev_name ip s).1 in
      let s2 = (tun_set_mtu os dev_name 1280 s1).1 in
      let s3 = (tun_set_up os dev_name s2).1 in
      after_audio e log s3 (audio_init lib input_id output_id p)

  unfoldable pub run_main :
      Option Buffer
      → Option Buffer
      → (List ℕ → Bool → Option ℕ)
      → List Message
      → List ℕ
      → List ℕ
      → Option ℕ
      → Option ℕ
      → EchoProtocol fl.F
      → LogState
      → Sys
      → Pa lib.Time
      → Ended
  run_main tx_block rx_block fopen said dev_name ip_addr input_id output_id echo log s p =
      after_echo ip_addr input_id output_id (log_of_main fopen said log) p
        (echo_init fl os tx_block rx_block dev_name echo s)
