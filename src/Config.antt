-- ===== src/Config.antt =====
-- The configuration, c/src/config.c and c/include/config.h. The data directory and the other files
-- are one map from paths to contents; getopt_long gives the list of the options that it recognises,
-- each with its argument, and the same list when it starts over.
pub mod Options
pub mod Fits
pub mod RoundTrip
mod Tests
use jabber.Base.{
  ℕ, zero, suc, ◌+◌, Bool, true, false, ◌&&◌, ◌||◌, Option, none, some, List, [], ◌∷◌, Text, codes,
  str_eq, snprintf_s, index_of, c_string, take, drop, leb, ◌==◌, if◌then◌else◌,
}
use jabber.Message.Order.{atoi_from, int_max}
use jabber.User.Conf.{next_lines, skip_spaces, trim_end}

-- int
pub data ℤ : Type 0 where
  pos : ℕ → ℤ
  negsuc : ℕ → ℤ

pub data LogLevel : Type 0 where
  log_debug log_info log_warn log_error : LogLevel

-- `port` is `none` after a number that an int does not hold, where C leaves what atoi returns open.
pub record Config : Type 0 where
  pub domain : Text
  pub port : Option ℤ
  pub bind_address : Text
  pub datadir : Text
  pub logfile : Text
  pub loglevel : LogLevel

unfoldable pub config_defaults : Config
unfolding snprintf_s
config_defaults = record {
  domain = snprintf_s 256 (codes "localhost");
  port = some (pos 5222);
  bind_address = snprintf_s 256 (codes "0.0.0.0");
  datadir = snprintf_s 1024 (codes "./data");
  logfile = snprintf_s 1024 (codes "./xmppd.log");
  loglevel = log_info;
}

unfoldable pub trim : Text → Text
unfolding trim_end skip_spaces
trim s = trim_end (skip_spaces s)

-- tolower
unfoldable pub to_lower : ℕ → ℕ
to_lower c = if leb b'A' c && leb c b'Z' then c + 32 else c

-- strcasecmp(a, b) == 0
unfoldable pub case_eq : Text → Text → Bool
unfolding to_lower
case_eq [] [] = true
case_eq [] (b ∷ bs) = false
case_eq (a ∷ as') [] = false
case_eq (a ∷ as') (b ∷ bs) = (to_lower a == to_lower b) && case_eq as' bs

unfoldable pub parse_loglevel : Text → LogLevel
unfolding case_eq
parse_loglevel s =
    if case_eq s (codes "DEBUG")
    then log_debug
    else if case_eq s (codes "INFO")
    then log_info
    else if case_eq s (codes "WARN")
    then log_warn
    else if case_eq s (codes "ERROR")
    then log_error
    else log_info

unfoldable pub positive : ℕ → Option ℤ
positive n = if leb n int_max then some (pos n) else none

unfoldable pub negative : ℕ → Option ℤ
negative zero = some (pos 0)
negative (suc n) = if leb n int_max then some (negsuc n) else none

-- atoi: a sign, then digits.
unfoldable pub signed_number : Text → Option ℤ
unfolding positive negative atoi_from
signed_number [] = some (pos 0)
signed_number (c ∷ cs) =
    if c == b'-'
    then negative (atoi_from 0 cs)
    else if c == b'+'
    then positive (atoi_from 0 cs)
    else positive (atoi_from 0 (c ∷ cs))

unfoldable pub atoi_int : Text → Option ℤ
unfolding signed_number skip_spaces
atoi_int s = signed_number (skip_spaces s)

-- The chain of strcmp on the key of a setting.
unfoldable pub set_key : Text → Text → Config → Config
unfolding snprintf_s str_eq
set_key key val cfg =
    if str_eq key (codes "domain")
    then record cfg { domain = snprintf_s 256 val }
    else if str_eq key (codes "port")
    then record cfg { port = atoi_int val }
    else if str_eq key (codes "bind_address")
    then record cfg { bind_address = snprintf_s 256 val }
    else if str_eq key (codes "datadir")
    then record cfg { datadir = snprintf_s 1024 val }
    else if str_eq key (codes "logfile")
    then record cfg { logfile = snprintf_s 1024 val }
    else if str_eq key (codes "loglevel")
    then record cfg { loglevel = parse_loglevel val }
    else cfg

-- line[strcspn(line, "\n")] = '\0'
unfoldable pub until_lf : Text → Text
until_lf [] = []
until_lf (c ∷ cs) = if c == 10 then [] else c ∷ until_lf cs

-- *eq = '\0', and both sides trimmed.
unfoldable pub split_at : Text → Option ℕ → Option (Text × Text)
unfolding trim
split_at s none = none
split_at s (some at) = some (trim (take at s), trim (drop (at + 1) s))

unfoldable pub trimmed_setting : Text → Option (Text × Text)
unfolding split_at
trimmed_setting [] = none
trimmed_setting (c ∷ cs) = if c == b'#' then none else split_at (c ∷ cs) (index_of b'=' (c ∷ cs))

-- The key and the value of a line that has them.
unfoldable pub setting_of : List ℕ → Option (Text × Text)
unfolding trimmed_setting trim until_lf c_string
setting_of line = trimmed_setting (trim (until_lf (c_string line)))

unfoldable pub load_line : List ℕ → Config → Config
unfolding set_key
load_line line cfg = elim (setting_of line) [ none ↦ cfg | some (key, val) ↦ set_key key val cfg ]

unfoldable pub load_lines : List (List ℕ) → Config → Config
load_lines [] cfg = cfg
load_lines (l ∷ ls) cfg = load_lines ls (load_line l cfg)

-- `true` is 0, `false` is -1: the file cannot be read.
unfoldable pub load_content : Option (List ℕ) → Config → Config × Bool
unfolding next_lines load_lines
load_content none cfg = (cfg, false)
load_content (some content) cfg = (load_lines (next_lines 1023 [] content) cfg, true)

-- What getopt_long returns, with optarg.
abbrev pub Options : Type 0
Options = List (ℕ × Text)

-- The first pass: the last `-c` is the one that counts.
unfoldable pub config_path : Option Text → Options → Option Text
config_path path [] = path
config_path path ((opt, optarg) ∷ opts) =
    config_path (if opt == b'c' then some optarg else path) opts

unfoldable pub path_or_default : Option Text → Text
path_or_default none = codes "./xmppd.conf"
path_or_default (some path) = path

-- 0, 1 and -1.
pub data ArgResult : Type 0 where
  args_done help_shown bad_option : ArgResult

unfoldable pub apply_option : ℕ → Text → Config → Config
unfolding snprintf_s
apply_option opt optarg cfg =
    if opt == b'd'
    then record cfg { domain = snprintf_s 256 optarg }
    else if opt == b'p'
    then record cfg { port = atoi_int optarg }
    else if opt == b'D'
    then record cfg { datadir = snprintf_s 1024 optarg }
    else if opt == b'l'
    then record cfg { logfile = snprintf_s 1024 optarg }
    else if opt == b'L'
    then record cfg { loglevel = parse_loglevel optarg }
    else cfg

unfoldable pub known_option : ℕ → Bool
known_option opt =
    opt == b'c' || opt == b'd' || opt == b'p' || opt == b'D' || opt == b'l' || opt == b'L'

-- The second pass.
unfoldable pub apply_options : Options → Config → Config × ArgResult
unfolding apply_option
apply_options [] cfg = (cfg, args_done)
apply_options ((opt, optarg) ∷ opts) cfg =
    let rest = apply_options opts (apply_option opt optarg cfg) in
    if known_option opt then rest else (cfg, if opt == b'h' then help_shown else bad_option)

module _ (files : Text → Option (List ℕ)) where
  unfoldable pub config_load : Text → Config → Config × Bool
  unfolding load_content
  config_load path cfg = load_content (files path) cfg

  unfoldable pub config_parse_args : Options → Config → Config × ArgResult
  unfolding config_path path_or_default
  config_parse_args opts cfg =
      apply_options opts (config_load (path_or_default (config_path none opts)) cfg).0
