-- ===== src/Log/Files.antt =====
-- The files that src/log.c holds open.
use echo_protocol.Base.{
  ℕ, ◌==◌, ◌≡◌, refl, ap, sym, ◌∙◌, arith, Bool, true, not, ◌&&◌, ltb, leb, take, Bool-cases, inl,
  inr, List, [], ◌∷◌, Option, none, some,
}
use echo_protocol.Log.{
  LogLevel, LogFile, null, stderr, opened, LogState, Message, write_log, to_file, to_console,
  closed, close_file, severity, log_close, log_init, log_set_file, reopened, is_null, moved,
  log_set_level, log_set_console_level, log_set_append,
}
use echo_protocol.Log.Messages.{log_all}

-- A call of the log's interface.
pub data Op : Type 0 where
  init : (List ℕ → Bool → Option ℕ) → Op
  close : Op
  set_level : LogLevel → Op
  set_console_level : LogLevel → Op
  set_file : (List ℕ → Bool → Option ℕ) → Option (List ℕ) → Op
  set_append : ℕ → Op
  say : Message → Op

abbrev pub run_op : Op → LogState → LogState
run_op (init fopen) s = log_init fopen s
run_op close s = log_close s
run_op (set_level level) s = log_set_level level s
run_op (set_console_level level) s = log_set_console_level level s
run_op (set_file fopen path) s = log_set_file fopen path s
run_op (set_append append) s = log_set_append append s
run_op (say m) s = write_log m s

unfoldable pub run_ops : List Op → LogState → LogState
run_ops [] s = s
run_ops (op ∷ ops) s = run_ops ops (run_op op s)

abbrev pub held : LogFile → List ℕ
held null = []
held stderr = []
held (opened h) = h ∷ []

-- What is open is what `log_file` points to, and nothing else.
abbrev pub IsHeld : LogState → Type 0
IsHeld s = s.open_files ≡ held s.log_file

closed_one : (h : ℕ) → closed h (h ∷ []) ≡ []
closed_one h = let same : (h == h) ≡ true = ground arith in rw same refl

reopened-IsHeld :
    (fopen : List ℕ → Bool → Option ℕ) (o : Option ℕ) (s : LogState)
    → s.open_files ≡ []
    → IsHeld (reopened fopen o s)
reopened-IsHeld fopen none s e = e
reopened-IsHeld fopen (some h) s e = ap (λ fs. h ∷ fs) e

-- A message touches neither the files that are open nor `log_file`.
Same : LogState → LogState → Type 0
Same s s' = (s'.open_files ≡ s.open_files) × (s'.log_file ≡ s.log_file)

to_file-Same : (m : Message) (s : LogState) → Same s (to_file m s)
unfolding Same
to_file-Same m s =
    elim (Bool-cases (not (is_null s.log_file) && leb (severity s.file_level) (severity m.level))) [
      | inl e ↦ rw e (refl, refl)
      | inr e ↦ rw e (refl, refl)
    ]

to_console-Same : (m : Message) (s : LogState) → Same s (to_console m s)
unfolding Same
to_console-Same m s = elim (Bool-cases (leb (severity s.console_level) (severity m.level))) [
  | inl e ↦ rw e (refl, refl)
  | inr e ↦ rw e (refl, refl)
]

write_log-Same : (m : Message) (s : LogState) → Same s (write_log m s)
unfolding write_log Same
write_log-Same m s =
    elim (Bool-cases (
      ltb (severity m.level) (severity s.file_level)
      && ltb (severity m.level) (severity s.console_level))) [
        | inl e ↦ rw e (refl, refl)
        | inr e ↦
            let (f, l) = to_file-Same m s in
            let (f', l') = to_console-Same m (to_file m s) in rw e (f' ∙ f, l' ∙ l)
      ]

log_close-IsHeld :
    (file : LogFile) (s : LogState) → s.log_file ≡ file → IsHeld s → IsHeld (close_file file s)
log_close-IsHeld null s e h = h
log_close-IsHeld stderr s e h = h
log_close-IsHeld (opened f) s e h = ap (closed f) (h ∙ ap held e) ∙ closed_one f

pub log_init-IsHeld :
    (fopen : List ℕ → Bool → Option ℕ) (file : LogFile) (s : LogState)
    → s.log_file ≡ file
    → IsHeld s
    → IsHeld (log_init fopen s)
unfolding log_init
log_init-IsHeld fopen null s e h =
    rw (ap is_null e)
      (reopened-IsHeld fopen (fopen s.log_path (not (s.append_mode == 0))) s (h ∙ ap held e))
log_init-IsHeld fopen stderr s e h = rw (ap is_null e) h
log_init-IsHeld fopen (opened f) s e h = rw (ap is_null e) h

moved-IsHeld :
    (fopen : List ℕ → Bool → Option ℕ) (file : LogFile) (s : LogState)
    → s.log_file ≡ file
    → IsHeld s
    → IsHeld (moved fopen file s)
moved-IsHeld fopen null s e h = h
moved-IsHeld fopen stderr s e h = h
moved-IsHeld fopen (opened f) s e h =
    let s' = record s { open_files = closed f s.open_files } in
    reopened-IsHeld fopen (fopen s.log_path (not (s.append_mode == 0))) s'
      (ap (closed f) (h ∙ ap held e) ∙ closed_one f)

-- After `log_close` no file is open.
pub log_close-empty :
    (file : LogFile) (s : LogState)
    → s.log_file ≡ file
    → IsHeld s
    → (close_file file s).open_files ≡ []
log_close-empty null s e h = h ∙ ap held e
log_close-empty stderr s e h = h ∙ ap held e
log_close-empty (opened f) s e h = ap (closed f) (h ∙ ap held e) ∙ closed_one f

-- Messages neither open nor close a file.
pub log_all-Same :
    (ms : List Message) (s : LogState)
    → ((log_all ms s).open_files ≡ s.open_files) × ((log_all ms s).log_file ≡ s.log_file)
unfolding log_all Same
log_all-Same [] s = (refl, refl)
log_all-Same (m ∷ ms) s =
    let (f, l) = write_log-Same m s in
    let (f', l') = log_all-Same ms (write_log m s) in (f' ∙ f, l' ∙ l)

run_op-IsHeld : (op : Op) (s : LogState) → IsHeld s → IsHeld (run_op op s)
unfolding log_close log_set_file Same
run_op-IsHeld (init fopen) s h = log_init-IsHeld fopen s.log_file s refl h
run_op-IsHeld close s h = log_close-IsHeld s.log_file s refl h
run_op-IsHeld (set_level level) s h = h
run_op-IsHeld (set_console_level level) s h = h
run_op-IsHeld (set_file fopen none) s h = h
run_op-IsHeld (set_file fopen (some path)) s h =
    moved-IsHeld fopen s.log_file (record s { log_path = take 255 path }) refl h
run_op-IsHeld (set_append append) s h = h
run_op-IsHeld (say m) s h = let (f, l) = write_log-Same m s in f ∙ h ∙ ap held (sym l)

-- Whatever is called, in whatever order and whether or not `fopen` fails: from a state in which
-- what is open is what `log_file` points to, and nothing else, the calls lead to such a state.
pub run_ops-IsHeld : (ops : List Op) (s : LogState) → IsHeld s → IsHeld (run_ops ops s)
unfolding run_ops
run_ops-IsHeld [] s h = h
run_ops-IsHeld (op ∷ ops) s h = run_ops-IsHeld ops (run_op op s) (run_op-IsHeld op s h)
