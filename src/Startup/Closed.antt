-- ===== src/Startup/Closed.antt =====
-- What `main` of src/main.c has left open when it returns.
use echo_protocol.Base.Floats.{Floats}
use echo_protocol.Base.{
  ℕ, ◌+◌, ◌≡◌, ◌⊎◌, inl, inr, refl, sym, ap, ◌∙◌, Bool, List, [], ◌∷◌, Option, some, none,
}
use echo_protocol.Ring.{Buffer}
use echo_protocol.Tunnel.{Os, Sys, without, tun_alloc, tun_set_ip, tun_set_mtu, tun_set_up}
use echo_protocol.Tunnel.Closed.{
  IsOpen, without_first, tun_alloc-IsOpen, set_ip-Leaves, set_mtu-Leaves, set_up-Leaves,
}
use echo_protocol.Setup.{EchoProtocol, set_fields, opened, echo_init, echo_close, tun_flags}
use echo_protocol.AudioIo.{PortAudio, Pa, Return, ok, failed, crashed, audio_init, audio_start}
use echo_protocol.AudioIo.Closed.{Holds, Leaves, audio_init-Leaves, start-Holds, close-Holds}
use echo_protocol.Log.{null, info, LogState, Message, log_init, log_set_console_level, log_close}
use echo_protocol.Log.Files.{IsHeld, held, log_init-IsHeld, log_close-empty, log_all-Same}
use echo_protocol.Startup.{
  Exit, returned, killed, log_of_main, shut_down, after_start, after_audio, after_echo, run_main,
}

-- The process has the descriptors and the streams that it had, and PortAudio is initialised as often as
-- it was, or, where `main` fails, once more. The files of the log are closed where `main` returns 0; where
-- it returns 1, these are open.
abbrev pub IsClosed : {T : Type 0} → List ℕ → Pa T → List ℕ → Exit × Sys × Pa T × LogState → Type 0
IsClosed fds p files (returned status, s', p', log') =
    (s'.open_fds ≡ fds)
    × (p'.streams ≡ p.streams)
    × ((p'.running ≡ p.running) ⊎ ((status ≡ 1) × (p'.running ≡ p.running + 1)))
    × (((status ≡ 0) × (log'.open_files ≡ [])) ⊎ ((status ≡ 1) × (log'.open_files ≡ files)))
IsClosed fds p files (killed, s', p', log') = Unit

-- The log before the end of `main` holds the file that `log_init` has opened.
log_of_main-IsHeld :
    (fopen : List ℕ → Bool → Option ℕ) (said : List Message) (log : LogState)
    → log.log_file ≡ null
    → log.open_files ≡ []
    → IsHeld (log_of_main fopen said log)
      × ((log_of_main fopen said log).open_files ≡ held (log_init fopen log).log_file)
unfolding log_of_main
log_of_main-IsHeld fopen said log no_file none_open =
    let s = log_set_console_level info (log_init fopen log) in
    let h = log_init-IsHeld fopen log.log_file log refl (none_open ∙ sym (ap held no_file)) in
    let (files, file) = log_all-Same said s in (files ∙ h ∙ sym (ap held file), files ∙ h)

module _ (fl : Floats) (os : Os) (lib : PortAudio) where
  close-fds :
      (e : EchoProtocol fl.F) (s : Sys) (fds : List ℕ)
      → s.open_fds ≡ e.tun_fd ∷ fds
      → (echo_close e s).open_fds ≡ fds
  unfolding echo_close
  close-fds e s fds h = ap (without e.tun_fd) h ∙ without_first e.tun_fd fds

  module _ (e : EchoProtocol fl.F) (fds : List ℕ) (p : Pa lib.Time) (log : LogState)
      (files : List ℕ) (log_held : IsHeld log) (log_open : log.open_files ≡ files) where
    started-IsClosed :
        (stream : ℕ) (s : Sys) (r : Return ℕ × Pa lib.Time)
        → s.open_fds ≡ e.tun_fd ∷ fds
        → Holds (p.running + 1) (stream ∷ p.streams) r.1
        → IsClosed fds p files (after_start fl os lib e stream log s r)
    unfolding shut_down log_close
    started-IsClosed stream s (ok status, p') h held =
        let closed = close-Holds lib p.running stream p.streams p' held in
        let log_closed = log_close-empty log.log_file log refl log_held in
        (close-fds e s fds h, closed.1, inl closed.0, inl (refl, log_closed))
    started-IsClosed stream s (failed, p') h held =
        let closed = close-Holds lib p.running stream p.streams p' held in
        (close-fds e s fds h, closed.1, inl closed.0, inr (refl, log_open))
    started-IsClosed stream s (crashed, p') h held = tt

    audio-IsClosed :
        (s : Sys) (r : Return ℕ × Pa lib.Time)
        → s.open_fds ≡ e.tun_fd ∷ fds
        → Leaves (p.running + 1) p.streams r
        → IsClosed fds p files (after_audio fl os lib e log s r)
    audio-IsClosed s (ok stream, p') h held =
        let start = start-Holds lib stream p' in
        started-IsClosed stream s (audio_start lib stream p') h (start.0 ∙ held.0, start.1 ∙ held.1)
    audio-IsClosed s (failed, p') h held =
        (close-fds e s fds h, held.1, inr (refl, held.0), inr (refl, log_open))
    audio-IsClosed s (crashed, p') h held = tt

    init-IsClosed :
        (input_id output_id : Option ℕ) (s : Sys)
        → s.open_fds ≡ e.tun_fd ∷ fds
        → IsClosed fds p files (after_audio fl os lib e log s (audio_init lib input_id output_id p))
    init-IsClosed input_id output_id s h = elim (audio_init-Leaves lib input_id output_id p) [
      | inl (refused, same) ↦ rw same (close-fds e s fds h, refl, inl refl, inr (refl, log_open))
      | inr (initialised, held) ↦ audio-IsClosed s _ h held
    ]

  opened-IsClosed :
      (tx_block rx_block : Option Buffer) (ip : List ℕ) (input_id output_id : Option ℕ)
      (echo : EchoProtocol fl.F) (fds : List ℕ) (p : Pa lib.Time) (log : LogState) (files : List ℕ)
      (r : Option (ℕ × List ℕ) × Sys)
      → IsHeld log
      → log.open_files ≡ files
      → IsOpen (λ (q : ℕ × List ℕ). q.0) fds r
      → IsClosed fds p files
          (after_echo fl os lib ip input_id output_id log p (opened fl tx_block rx_block echo r))
  unfolding set_fields
  opened-IsClosed tx_block rx_block ip input_id output_id echo fds p log files (none, s) log_held
        log_open h =
      (h, refl, inl refl, inr (refl, log_open))
  opened-IsClosed tx_block rx_block ip input_id output_id echo fds p log files (some (fd, dev), s)
        log_held log_open h =
      let s1 = (tun_set_ip os dev ip s).1 in
      let s2 = (tun_set_mtu os dev 1280 s1).1 in
      let s3 = (tun_set_up os dev s2).1 in
      init-IsClosed (set_fields fl tx_block rx_block fd echo) fds p log files log_held log_open
        input_id output_id s3
        ((set_up-Leaves os dev s2).same
          ∙ (set_mtu-Leaves os dev 1280 s1).same
          ∙ (set_ip-Leaves os dev ip s).same
          ∙ h)

  -- From the log's variables as they are at the start of the program, whichever calls of the system, of the
  -- C library and of PortAudio fail: when `main` returns, the process has the streams and the descriptors
  -- of the tunnel and of sockets open that it had before. PortAudio is initialised as often as before, or,
  -- only where `main` returns 1, once more. No file of the log is open where `main` returns 0; where it
  -- returns 1, the file that `log_init` has opened, if any, is still open.
  pub run_main-IsClosed :
      (tx_block rx_block : Option Buffer) (fopen : List ℕ → Bool → Option ℕ) (said : List Message)
      (dev_name ip_addr : List ℕ) (input_id output_id : Option ℕ) (echo : EchoProtocol fl.F)
      (log : LogState) (s : Sys) (p : Pa lib.Time)
      → log.log_file ≡ null
      → log.open_files ≡ []
      → IsClosed s.open_fds p (held (log_init fopen log).log_file) (
          run_main fl os lib tx_block rx_block fopen said dev_name ip_addr input_id output_id echo
            log s p)
  unfolding run_main echo_init
  run_main-IsClosed tx_block rx_block fopen said dev_name ip_addr input_id output_id echo log s p
        no_file none_open =
      let (log_held, log_open) = log_of_main-IsHeld fopen said log no_file none_open in
      opened-IsClosed tx_block rx_block ip_addr input_id output_id echo s.open_fds p
        (log_of_main fopen said log) (held (log_init fopen log).log_file)
        (tun_alloc os dev_name tun_flags s) log_held log_open
        (tun_alloc-IsOpen os dev_name tun_flags s)
