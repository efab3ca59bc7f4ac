-- ===== src/Log.antt =====
-- The log of src/log.c and include/log.h. The variables of the file are a record, and so are the files
-- that are open. What `fopen` gives for a path and a mode, the text that `vsnprintf` formats and the
-- time stamp are arguments. The mutex is left out: each function is one step.
pub mod Files
pub mod Messages
pub mod Tests
use echo_protocol.Base.{
  ℕ, ◌++◌, ◌==◌, Bool, true, false, if◌then◌else◌, ltb, leb, not, ◌&&◌, List, [], ◌∷◌, take, Option,
  none, some,
}

-- `LogLevel`
pub data LogLevel : Type 0 where
  debug : LogLevel
  info : LogLevel
  warn : LogLevel
  error : LogLevel

abbrev pub severity : LogLevel → ℕ
severity debug = 0
severity info = 1
severity warn = 2
severity error = 3

-- `log_file`: NULL, `stderr`, or a file that was opened.
pub data LogFile : Type 0 where
  null : LogFile
  stderr : LogFile
  opened : ℕ → LogFile

-- A line that `fprintf` has written, and to what: those of the file carry the time stamp. The console is
-- `stderr`, so that both kinds go there when `log_file` is `stderr`.
pub record Output : Type 0 where
  pub target : LogFile
  pub timestamp : Option (List ℕ)
  pub level : LogLevel
  pub msg : List ℕ

pub record LogState : Type 0 where
  pub log_file : LogFile
  pub file_level : LogLevel
  pub console_level : LogLevel
  pub log_path : List ℕ
  pub append_mode : ℕ
  pub open_files : List ℕ
  pub outputs : List Output

abbrev pub is_null : LogFile → Bool
is_null null = true
is_null stderr = false
is_null (opened h) = false

-- A call of `log_msg`, or of one of the functions that fix the level.
pub record Message : Type 0 where
  pub level : LogLevel
  pub timestamp : List ℕ
  pub text : List ℕ

-- `vsnprintf` cuts the text to the 1024 bytes of `msg`, with the 0 at its end.
abbrev pub formatted : List ℕ → List ℕ
formatted text = take 1023 text

-- `fprintf`
abbrev pub print : Output → LogState → LogState
print line s = record s { outputs = s.outputs ++ line ∷ [] }

abbrev pub to_file : Message → LogState → LogState
to_file m s =
    if not (is_null s.log_file) && leb (severity s.file_level) (severity m.level)
    then print
        (record {
          target = s.log_file;
          timestamp = some m.timestamp;
          level = m.level;
          msg = formatted m.text;
        })
        s
    else s

abbrev pub to_console : Message → LogState → LogState
to_console m s =
    if leb (severity s.console_level) (severity m.level)
    then print
        (record { target = stderr; timestamp = none; level = m.level; msg = formatted m.text }) s
    else s

unfoldable pub write_log : Message → LogState → LogState
write_log m s =
    if ltb (severity m.level) (severity s.file_level)
      && ltb (severity m.level) (severity s.console_level)
    then s
    else to_console m (to_file m s)

-- `fclose`
abbrev pub closed : ℕ → List ℕ → List ℕ
closed h [] = []
closed h (f ∷ files) = let rest = closed h files in if f == h then files else f ∷ rest

abbrev pub close_file : LogFile → LogState → LogState
close_file null s = s
close_file stderr s = s
close_file (opened h) s = record s { log_file = null; open_files = closed h s.open_files }

unfoldable pub log_close : LogState → LogState
log_close s = close_file s.log_file s

module _ (fopen : List ℕ → Bool → Option ℕ) where
  -- `fopen` of the path, and `stderr` where that fails.
  abbrev pub reopened : Option ℕ → LogState → LogState
  reopened none s = record s { log_file = stderr }
  reopened (some h) s = record s { log_file = opened h; open_files = h ∷ s.open_files }

  abbrev pub open_log : LogState → LogState
  open_log s = reopened (fopen s.log_path (not (s.append_mode == 0))) s

  unfoldable pub log_init : LogState → LogState
  log_init s = if is_null s.log_file then open_log s else s

  -- An open file is closed, and the new path opened.
  abbrev pub moved : LogFile → LogState → LogState
  moved null s = s
  moved stderr s = s
  moved (opened h) s = open_log (record s { open_files = closed h s.open_files })

  -- `strncpy` to an array of 256 bytes, with a 0 at its end.
  unfoldable pub log_set_file : Option (List ℕ) → LogState → LogState
  log_set_file none s = s
  log_set_file (some path) s =
      let renamed = record s { log_path = take 255 path } in moved s.log_file renamed

abbrev pub log_set_level : LogLevel → LogState → LogState
log_set_level level s = record s { file_level = level }

abbrev pub log_set_console_level : LogLevel → LogState → LogState
log_set_console_level level s = record s { console_level = level }

abbrev pub log_set_append : ℕ → LogState → LogState
log_set_append append s = record s { append_mode = append }

abbrev pub log_msg : LogLevel → List ℕ → List ℕ → LogState → LogState
log_msg level timestamp text s =
    write_log (record { level = level; timestamp = timestamp; text = text }) s

abbrev pub log_debug : List ℕ → List ℕ → LogState → LogState
log_debug timestamp text s = log_msg debug timestamp text s

abbrev pub log_info : List ℕ → List ℕ → LogState → LogState
log_info timestamp text s = log_msg info timestamp text s

abbrev pub log_warn : List ℕ → List ℕ → LogState → LogState
log_warn timestamp text s = log_msg warn timestamp text s

abbrev pub log_error : List ℕ → List ℕ → LogState → LogState
log_error timestamp text s = log_msg error timestamp text s
