-- ===== src/Log/Messages.antt =====
-- What the messages of src/log.c print.
use mathlib.Core.List.{map-append}
use echo_protocol.Base.{
  ℕ, ◌++◌, ◌≡◌, refl, ap, ap₂, sym, ◌∙◌, arith, Bool, true, false, if◌then◌else◌, ltb, leb, ◌&&◌,
  ◌==◌, Bool-cases, inl, inr, List, [], ◌∷◌, map, take, some, none, append_assoc, append-nil,
}
use echo_protocol.Log.{
  LogLevel, LogFile, null, stderr, opened, LogState, Message, Output, severity, write_log,
}

unfoldable pub log_all : List Message → LogState → LogState
log_all [] s = s
log_all (m ∷ ms) s = log_all ms (write_log m s)

abbrev same_file : LogFile → LogFile → Bool
same_file null null = true
same_file stderr stderr = true
same_file (opened h) (opened k) = h == k
same_file null stderr = false
same_file null (opened k) = false
same_file stderr null = false
same_file stderr (opened k) = false
same_file (opened h) null = false
same_file (opened h) stderr = false

-- The lines that a file or the console has, in their order.
abbrev pub lines_to : LogFile → List Output → List Output
lines_to t [] = []
lines_to t (o ∷ os) = let rest = lines_to t os in if same_file t o.target then o ∷ rest else rest

-- The messages at a level or above.
abbrev pub messages_at : LogLevel → List Message → List Message
messages_at at [] = []
messages_at at (m ∷ ms) =
    let rest = messages_at at ms in if leb (severity at) (severity m.level) then m ∷ rest else rest

-- How a message stands in the file, and on the console: its first 1023 bytes.
abbrev file_line : ℕ → Message → Output
file_line h m = record {
  target = opened h;
  timestamp = some m.timestamp;
  level = m.level;
  msg = take 1023 m.text;
}

abbrev console_line : Message → Output
console_line m = record {
  target = stderr;
  timestamp = none;
  level = m.level;
  msg = take 1023 m.text;
}

-- The file and the console have more lines than before, those of the messages at their level; of the
-- state, nothing but the output differs.
pub record Logged (h : ℕ) (ms : List Message) (s s' : LogState) : Type 0 where
  pub in_file :
      lines_to (opened h) s'.outputs
      ≡ lines_to (opened h) s.outputs ++ map (file_line h) (messages_at s.file_level ms)
  pub on_console :
      lines_to stderr s'.outputs
      ≡ lines_to stderr s.outputs ++ map console_line (messages_at s.console_level ms)
  pub nothing_else : s' ≡ record s { outputs = s'.outputs }

lines_to-append :
    (t : LogFile) (xs ys : List Output) → lines_to t (xs ++ ys) ≡ lines_to t xs ++ lines_to t ys
lines_to-append t [] ys = refl
lines_to-append t (o ∷ os) ys = elim (Bool-cases (same_file t o.target)) [
  | inl e ↦ rw e (ap (λ l. o ∷ l) (lines_to-append t os ys))
  | inr e ↦ rw e (lines_to-append t os ys)
]

-- Lines are added at the end.
added-Logged :
    (h : ℕ) (ms : List Message) (s s' : LogState) (added : List Output)
    → s' ≡ record s { outputs = s.outputs ++ added }
    → lines_to (opened h) added ≡ map (file_line h) (messages_at s.file_level ms)
    → lines_to stderr added ≡ map console_line (messages_at s.console_level ms)
    → Logged h ms s s'
added-Logged h ms s s' added e file console = record {
  in_file =
      ap (λ (z : LogState). lines_to (opened h) z.outputs) e
      ∙ lines_to-append (opened h) s.outputs added
      ∙ ap (λ l. lines_to (opened h) s.outputs ++ l) file;
  on_console =
      ap (λ (z : LogState). lines_to stderr z.outputs) e
      ∙ lines_to-append stderr s.outputs added
      ∙ ap (λ l. lines_to stderr s.outputs ++ l) console;
  nothing_else = e ∙ ap (λ o. record s { outputs = o }) (sym (ap (λ (z : LogState). z.outputs) e));
}

-- One message. The early return skips only what would have printed nothing.
write_log-Logged :
    (m : Message) (s : LogState) (h : ℕ)
    → s.log_file ≡ opened h
    → Logged h (m ∷ []) s (write_log m s)
unfolding write_log
write_log-Logged m s h e =
    let same : (h == h) ≡ true = ground arith in
    let quiet =
      ltb (severity m.level) (severity s.file_level)
      && ltb (severity m.level) (severity s.console_level) in
    elim (Bool-cases (leb (severity s.file_level) (severity m.level))) [
      | inl f ↦
          let goes_on : quiet ≡ false = ground (arith, f) in
          elim (Bool-cases (leb (severity s.console_level) (severity m.level))) [
            | inl c ↦
                added-Logged h (m ∷ []) s (write_log m s) (file_line h m ∷ console_line m ∷ [])
                  (rw (goes_on, e, f, c)
                    (ap (λ o. record s { log_file = opened h; outputs = o })
                      (append_assoc s.outputs (file_line h m ∷ []) (console_line m ∷ []))))
                  (rw (f, same) refl) (rw c refl)
            | inr c ↦
                added-Logged h (m ∷ []) s (write_log m s) (file_line h m ∷ [])
                  (rw (goes_on, e, f, c) refl) (rw (f, same) refl) (rw c refl)
          ]
      | inr f ↦ elim (Bool-cases (leb (severity s.console_level) (severity m.level))) [
        | inl c ↦
            let goes_on : quiet ≡ false = ground (arith, c) in
            added-Logged h (m ∷ []) s (write_log m s) (console_line m ∷ [])
              (rw (goes_on, e, f, c) refl) (rw f refl) (rw c refl)
        | inr c ↦
            let returns : quiet ≡ true = ground (arith, f, c) in
            added-Logged h (m ∷ []) s (write_log m s) []
              (rw returns (ap (λ o. record s { outputs = o }) (sym (append-nil s.outputs))))
              (rw f refl) (rw c refl)
      ]
    ]

messages_at-cons :
    (at : LogLevel) (m : Message) (ms : List Message)
    → messages_at at (m ∷ ms) ≡ messages_at at (m ∷ []) ++ messages_at at ms
messages_at-cons at m ms = elim (Bool-cases (leb (severity at) (severity m.level))) [
  | inl e ↦ rw e refl
  | inr e ↦ rw e refl
]

-- The lines of one message and of others after it.
more_lines :
    (line : Message → Output) (at at' : LogLevel) (m : Message) (ms : List Message)
    (before between after : List Output)
    → at' ≡ at
    → between ≡ before ++ map line (messages_at at (m ∷ []))
    → after ≡ between ++ map line (messages_at at' ms)
    → after ≡ before ++ map line (messages_at at (m ∷ ms))
more_lines line at at' m ms before between after same first others =
    others
    ∙ ap₂ (λ b l. b ++ map line (messages_at l ms)) first same
    ∙ append_assoc before (map line (messages_at at (m ∷ []))) (map line (messages_at at ms))
    ∙ ap (λ l. before ++ l)
        (sym (map-append line (messages_at at (m ∷ [])) (messages_at at ms))
          ∙ ap (map line) (sym (messages_at-cons at m ms)))

-- Once the log has a file: any messages add to the file one line each for those at the file's level or
-- above, with the time stamp, and to the console one line each for those at the console's level or
-- above, in their order and cut to 1023 bytes. They print nothing else to either and change nothing else
-- of the log.
pub log_all_lem :
    (ms : List Message) (s : LogState) (h : ℕ)
    → s.log_file ≡ opened h
    → Logged h ms s (log_all ms s)
unfolding log_all
log_all_lem [] s h e =
    added-Logged h [] s s [] (ap (λ o. record s { outputs = o }) (sym (append-nil s.outputs))) refl
      refl
log_all_lem (m ∷ ms) s h e =
    let s' = write_log m s in
    let first = write_log-Logged m s h e in
    let same = first.nothing_else in
    let others = log_all_lem ms s' h (ap (λ (z : LogState). z.log_file) same ∙ e) in
    record {
      in_file =
          more_lines (file_line h) s.file_level s'.file_level m ms _ _ _
            (ap (λ (z : LogState). z.file_level) same) first.in_file others.in_file;
      on_console =
          more_lines console_line s.console_level s'.console_level m ms _ _ _
            (ap (λ (z : LogState). z.console_level) same) first.on_console others.on_console;
      nothing_else =
          others.nothing_else
          ∙ ap (λ (z : LogState). record z { outputs = (log_all ms s').outputs }) same;
    }
