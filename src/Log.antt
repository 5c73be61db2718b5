-- ===== src/Log.antt =====
-- The log, c/src/log.c and c/include/log.h: which calls write a line, and what the line is. The
-- message is the text that the format and its arguments make, and the time that of strftime.
pub mod Lines
mod Tests
use jabber.Base.{
  ℕ, Bool, true, false, ◌||◌, not, Option, none, some, List, [], ◌∷◌, ◌++◌, Text, codes, take, ltb,
  if◌then◌else◌,
}
use jabber.Config.{LogLevel, log_debug, log_info, log_warn, log_error}

-- log_fp and log_level, with the bytes that went to the file.
pub record Log : Type 0 where
  pub log_fp : Option Text
  pub log_level : LogLevel
  pub content : List ℕ

abbrev pub no_log : Log
no_log = record { log_fp = none; log_level = log_info; content = [] }

unfoldable pub level_number : LogLevel → ℕ
level_number log_debug = 0
level_number log_info = 1
level_number log_warn = 2
level_number log_error = 3

unfoldable pub level_name : LogLevel → Text
level_name log_debug = codes "DEBUG"
level_name log_info = codes "INFO"
level_name log_warn = codes "WARN"
level_name log_error = codes "ERROR"

-- `opened` is what fopen says; `true` is 0, `false` is -1.
unfoldable pub log_init : Bool → Text → LogLevel → Log → Log × Bool
log_init true path level l = (record l { log_fp = some path; log_level = level }, true)
log_init false path level l = (record l { log_fp = none; log_level = level }, false)

unfoldable pub log_close : Log → Log
log_close l = record l { log_fp = none }

unfoldable pub is_open : Log → Bool
is_open l = elim l.log_fp [ none ↦ false | some path ↦ true ]

unfoldable pub drops : LogLevel → Log → Bool
unfolding level_number is_open
drops level l = ltb (level_number level) (level_number l.log_level) || not (is_open l)

unfoldable pub print_log : List ℕ → Log → Log
print_log bytes l = record l { content = l.content ++ bytes }

-- "[%s] [%s] ", the message and a newline
unfoldable pub log_text : LogLevel → Text → Text → List ℕ
unfolding level_name
log_text level ts message =
    codes "[" ++ (ts ++ (codes "] [" ++ (level_name level ++ (codes "] " ++ (message ++ 10 ∷ [])))))

unfoldable pub log_write : LogLevel → Text → Text → Log → Log
unfolding log_text drops
log_write level ts message l = if drops level l then l else print_log (log_text level ts message) l

-- "%.*s" of `len` bytes, behind the arrow
unfoldable pub log_data : Text → Text → List ℕ → ℕ → Log → Log
unfolding drops
log_data arrow ts data_bytes len l =
    if drops log_debug l
    then l
    else print_log
        (codes "[" ++ (ts ++ (codes "] [DEBUG] " ++ (arrow ++ (take len data_bytes ++ 10 ∷ []))))) l

unfoldable pub log_xml_in : Text → List ℕ → ℕ → Log → Log
unfolding log_data
log_xml_in ts data_bytes len l = log_data (codes "<-- ") ts data_bytes len l

unfoldable pub log_xml_out : Text → List ℕ → ℕ → Log → Log
unfolding log_data
log_xml_out ts data_bytes len l = log_data (codes "--> ") ts data_bytes len l
