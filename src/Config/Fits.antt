-- ===== src/Config/Fits.antt =====
-- The buffers of the configuration, c/include/config.h, hold what c/src/config.c writes to them.
use jabber.Base.{
  ℕ, ◌-◌, ◌<◌, Bool, Option, none, some, List, [], ◌∷◌, Text, snprintf_s, length, length-take,
  if◌then◌else◌, arith, if_both, Option-cases, inl, inr,
}
use jabber.User.Conf.{next_lines}
use jabber.Config.{
  ℤ, LogLevel, Config, Options, ArgResult, config_defaults, set_key, setting_of, load_line,
  load_lines, load_content, known_option, apply_option, apply_options, config_load,
  config_parse_args, path_or_default, config_path,
}

-- Every text has its terminator within its buffer.
pub record Fits (cfg : Config) : Type 0 where
  pub domain : length cfg.domain < 256
  pub bind_address : length cfg.bind_address < 256
  pub datadir : length cfg.datadir < 1024
  pub logfile : length cfg.logfile < 1024

cut : (size : ℕ) (s : Text) → 0 < size → length (snprintf_s size s) < size
unfolding snprintf_s
cut size s some_room = omega (arith, length-take (size - 1) s)

Fits-if : (b : Bool) (x y : Config) → Fits x → Fits y → Fits (if b then x else y)
Fits-if = if_both Fits

module _ (cfg : Config) (h : Fits cfg) where
  domain-Fits : (s : Text) → Fits (record cfg { domain = snprintf_s 256 s })
  domain-Fits s = record {
    domain = cut 256 s (omega arith);
    bind_address = h.bind_address;
    datadir = h.datadir;
    logfile = h.logfile;
  }

  bind_address-Fits : (s : Text) → Fits (record cfg { bind_address = snprintf_s 256 s })
  bind_address-Fits s = record {
    domain = h.domain;
    bind_address = cut 256 s (omega arith);
    datadir = h.datadir;
    logfile = h.logfile;
  }

  datadir-Fits : (s : Text) → Fits (record cfg { datadir = snprintf_s 1024 s })
  datadir-Fits s = record {
    domain = h.domain;
    bind_address = h.bind_address;
    datadir = cut 1024 s (omega arith);
    logfile = h.logfile;
  }

  logfile-Fits : (s : Text) → Fits (record cfg { logfile = snprintf_s 1024 s })
  logfile-Fits s = record {
    domain = h.domain;
    bind_address = h.bind_address;
    datadir = h.datadir;
    logfile = cut 1024 s (omega arith);
  }

  other-Fits :
      (port : Option ℤ) (level : LogLevel) → Fits (record cfg { port = port; loglevel = level })
  other-Fits port level = record {
    domain = h.domain;
    bind_address = h.bind_address;
    datadir = h.datadir;
    logfile = h.logfile;
  }

ruleset fits_rules =
    (Fits-if, domain-Fits, bind_address-Fits, datadir-Fits, logfile-Fits, other-Fits)

module _ (cfg : Config) (h : Fits cfg) where
  set_key-Fits : (key val : Text) → Fits (set_key key val cfg)
  unfolding set_key
  set_key-Fits key val = search fits_rules depth 9

  apply_option-Fits : (opt : ℕ) (optarg : Text) → Fits (apply_option opt optarg cfg)
  unfolding apply_option
  apply_option-Fits opt optarg = search fits_rules depth 9

  load_line-Fits : (line : List ℕ) → Fits (load_line line cfg)
  unfolding load_line
  load_line-Fits line = elim (Option-cases (setting_of line)) [
    | inl e ↦ rw (e, load_line) h
    | inr ((key, val), e) ↦ rw (e, load_line) (set_key-Fits key val)
  ]

load_lines-Fits : (ls : List (List ℕ)) (cfg : Config) → Fits cfg → Fits (load_lines ls cfg)
unfolding load_lines
load_lines-Fits [] cfg h = h
load_lines-Fits (l ∷ ls) cfg h = load_lines-Fits ls (load_line l cfg) (load_line-Fits cfg h l)

load_content-Fits :
    (content : Option (List ℕ)) (cfg : Config) → Fits cfg → Fits (load_content content cfg).0
unfolding load_content
load_content-Fits none cfg h = h
load_content-Fits (some content) cfg h = load_lines-Fits (next_lines 1023 [] content) cfg h

apply_options-Fits : (opts : Options) (cfg : Config) → Fits cfg → Fits (apply_options opts cfg).0
unfolding apply_options
apply_options-Fits [] cfg h = h
apply_options-Fits ((opt, optarg) ∷ opts) cfg h =
    if_both (λ (r : Config × ArgResult). Fits r.0) (known_option opt) _ _
      (apply_options-Fits opts (apply_option opt optarg cfg) (apply_option-Fits cfg h opt optarg)) h

defaults-Fits : Fits config_defaults
unfolding config_defaults
defaults-Fits = record {
  domain = omega arith;
  bind_address = omega arith;
  datadir = omega arith;
  logfile = omega arith;
}

-- Whatever the files hold and the command line says, every text of the configuration that the
-- program starts with ends within its buffer.
pub config_parse_args-Fits :
    (files : Text → Option (List ℕ)) (opts : Options)
    → Fits (config_parse_args files opts config_defaults).0
unfolding config_parse_args config_load
config_parse_args-Fits files opts = apply_options-Fits opts _ (
    load_content-Fits (files (path_or_default (config_path none opts))) config_defaults
      defaults-Fits)
