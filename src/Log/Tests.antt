-- ===== src/Log/Tests.antt =====
-- A log from the level INFO on.
use jabber.Base.{◌≡◌, refl, true, List, [], ◌∷◌, ◌++◌, codes, if◌then◌else◌}
use jabber.Config.{log_debug, log_info, log_warn}
use jabber.Log.{no_log, log_init, log_close, log_text, level_name}
use jabber.Log.Lines.{Message, write_all, lines_from, log_init-write_all}

abbrev two_messages : List Message
two_messages =
    record { level = log_debug; time = codes "t0"; text = codes "detail" }
    ∷ record { level = log_warn; time = codes "t1"; text = codes "careful" }
    ∷ []

log_init-write_all_example :
    (write_all two_messages (
      log_close (write_all two_messages (log_init true (codes "x.log") log_info no_log).0))).content
    ≡ [] ++ (if true then lines_from log_info two_messages else [])
log_init-write_all_example =
    log_init-write_all true (codes "x.log") log_info two_messages two_messages no_log

one_line : lines_from log_info two_messages ≡ codes "[t1] [WARN] careful\n"
unfolding lines_from log_text level_name
one_line = refl
