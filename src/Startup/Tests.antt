-- ===== src/Startup/Tests.antt =====
-- A start whose stream is not opened.
use echo_protocol.Base.{refl, [], ◌∷◌, some, none}
use echo_protocol.Callback.Toy.{toy}
use echo_protocol.Tunnel.Tests.{os, sys}
use echo_protocol.Setup.Tests.{block, stale, tun0}
use echo_protocol.AudioIo.Tests.{deaf, silent}
use echo_protocol.Log.{log_init}
use echo_protocol.Log.Files.{held}
use echo_protocol.Log.Tests.{start, messages}
use echo_protocol.Startup.{run_main}
use echo_protocol.Startup.Closed.{IsClosed, run_main-IsClosed}

run_main-IsClosed_example :
    IsClosed (0 ∷ 1 ∷ 2 ∷ []) silent (held (log_init (λ path append. some 7) start).log_file) (
      run_main toy os deaf
        (some block)
        (some block)
        (λ path append. some 7)
        messages
        tun0
        (49 ∷ [])
        none
        none
        stale
        start
        sys
        silent)
run_main-IsClosed_example =
    run_main-IsClosed toy os deaf (some block) (some block) (λ path append. some 7) messages tun0
      (49 ∷ []) none none stale start sys silent refl refl
