-- ===== src/Log/Tests.antt =====
-- Runs of the log.
use echo_protocol.Base.{◌≡◌, refl, List, [], ◌∷◌, none, some}
use echo_protocol.Log.{debug, info, warn, error, null, stderr, opened, LogState, Message, write_log}
use echo_protocol.Log.Files.{Op, init, close, set_file, say, IsHeld, run_ops, run_ops-IsHeld}
use echo_protocol.Log.Messages.{log_all, lines_to, Logged, log_all_lem}

-- The variables as they are declared.
abbrev pub start : LogState
start = record {
  log_file = null;
  file_level = debug;
  console_level = warn;
  log_path = 47 ∷ 116 ∷ [];
  append_mode = 0;
  open_files = [];
  outputs = [];
}

-- The second file cannot be opened.
abbrev ops : List Op
ops =
    init (λ path append. some 3)
    ∷ say (record { level = info; timestamp = 49 ∷ []; text = 104 ∷ 105 ∷ [] })
    ∷ set_file (λ path append. none) (some (47 ∷ 120 ∷ []))
    ∷ set_file (λ path append. some 3) (some (47 ∷ 121 ∷ []))
    ∷ close
    ∷ init (λ path append. some 4)
    ∷ []

run_ops-IsHeld_example : IsHeld (run_ops ops start)
run_ops-IsHeld_example = run_ops-IsHeld ops start refl

abbrev ready : LogState
ready = record start { log_file = opened 3; open_files = 3 ∷ [] }

abbrev pub messages : List Message
messages =
    record { level = info; timestamp = 49 ∷ []; text = 104 ∷ 105 ∷ [] }
    ∷ record { level = error; timestamp = 50 ∷ []; text = 111 ∷ [] }
    ∷ []

log_all_lem_example : Logged 3 messages ready (log_all messages ready)
log_all_lem_example = log_all_lem messages ready 3 refl

-- Without a file the console gets both lines.
abbrev no_file : LogState
no_file = record start { log_file = stderr }

both_lines :
    lines_to stderr (log_all messages no_file).outputs
    ≡ record { target = stderr; timestamp = some (49 ∷ []); level = info; msg = 104 ∷ 105 ∷ [] }
      ∷ record { target = stderr; timestamp = some (50 ∷ []); level = error; msg = 111 ∷ [] }
      ∷ record { target = stderr; timestamp = none; level = error; msg = 111 ∷ [] }
      ∷ []
unfolding log_all write_log
both_lines = refl
