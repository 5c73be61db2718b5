-- ===== src/Log/Lines.antt =====
-- What a sequence of messages leaves in the log, c/src/log.c.
use jabber.Base.{
  ℕ, ◌≡◌, refl, sym, ◌∙◌, Bool, true, false, none, some, List, [], ◌∷◌, ◌++◌, Text, ltb, leb,
  if◌then◌else◌, arith, Bool-cases, inl, inr,
}
use mathlib.Core.List.{append_assoc, append-nil}
use jabber.Config.{LogLevel}
use jabber.Log.{
  Log, level_number, log_init, log_close, is_open, drops, print_log, log_text, log_write,
}

-- A call of log_write, with its time.
pub record Message : Type 0 where
  pub level : LogLevel
  pub time : Text
  pub text : Text

unfoldable pub write_all : List Message → Log → Log
write_all [] l = l
write_all (m ∷ ms) l = write_all ms (log_write m.level m.time m.text l)

-- The lines of the messages of at least this level.
unfoldable pub lines_from : LogLevel → List Message → List ℕ
unfolding level_number
lines_from least [] = []
lines_from least (m ∷ ms) =
    if leb (level_number least) (level_number m.level)
    then log_text m.level m.time m.text ++ lines_from least ms
    else lines_from least ms

drops-open :
    (level : LogLevel) (path : Text) (l : Log)
    → l.log_fp ≡ some path
    → drops level l ≡ ltb (level_number level) (level_number l.log_level)
unfolding drops is_open
drops-open level path l h = ground arith

drops-closed : (level : LogLevel) (l : Log) → l.log_fp ≡ none → drops level l ≡ true
unfolding drops is_open
drops-closed level l h = ground arith

write_all-open :
    (ms : List Message) (path : Text) (l : Log)
    → l.log_fp ≡ some path
    → (write_all ms l).content ≡ l.content ++ lines_from l.log_level ms
unfolding write_all lines_from log_write print_log
write_all-open [] path l h = sym (append-nil l.content)
write_all-open (m ∷ ms) path l h =
    elim (Bool-cases (leb (level_number l.log_level) (level_number m.level))) [
      | inl x ↦
          let kept : drops m.level l ≡ false = rw (drops-open m.level path l h) (ground arith) in
          let line = log_text m.level m.time m.text in
          rw (kept, x, write_all, lines_from)
            (write_all-open ms path (print_log line l) h
              ∙ append_assoc l.content line (lines_from l.log_level ms))
      | inr x ↦
          let dropped : drops m.level l ≡ true = rw (drops-open m.level path l h) (ground arith) in
          rw (dropped, x, write_all, lines_from) (write_all-open ms path l h)
    ]

write_all-closed : (ms : List Message) (l : Log) → l.log_fp ≡ none → write_all ms l ≡ l
unfolding write_all log_write
write_all-closed [] l h = refl
write_all-closed (m ∷ ms) l h = rw (drops-closed m.level l h, write_all) (write_all-closed ms l h)

close-content : (l : Log) → (log_close l).content ≡ l.content
unfolding log_close
close-content l = refl

closed_rest : (later : List Message) (l : Log) → write_all later (log_close l) ≡ log_close l
unfolding log_close
closed_rest later l = write_all-closed later (log_close l) refl

-- From its opening to its closing the log file gets one line for each message of at least the
-- level it was opened with, in order, and nothing before, after, or where it could not be opened.
pub log_init-write_all :
    (opened : Bool) (path : Text) (level : LogLevel) (ms later : List Message) (l : Log)
    → (write_all later (log_close (write_all ms (log_init opened path level l).0))).content
      ≡ l.content ++ (if opened then lines_from level ms else [])
unfolding log_init
log_init-write_all true path level ms later l =
    rw (closed_rest later (write_all ms (log_init true path level l).0)) (
      close-content _
      ∙ write_all-open ms path (record l { log_fp = some path; log_level = level }) refl)
log_init-write_all false path level ms later l =
    rw
      (
        closed_rest later (write_all ms (log_init false path level l).0),
        write_all-closed ms (record l { log_fp = none; log_level = level }) refl,
      )
      (close-content _ ∙ sym (append-nil l.content))
