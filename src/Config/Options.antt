-- ===== src/Config/Options.antt =====
-- The command line against the file, c/src/config.c: `config_parse_args`.
use jabber.Base.{
  ℕ, ◌≡◌, refl, ◌∙◌, Option, none, some, List, [], ◌∷◌, Text, snprintf_s, ◌==◌, if◌then◌else◌,
  arith, Option-cases, Bool-cases, inl, inr,
}
use jabber.Config.{
  Config, Options, ArgResult, args_done, help_shown, bad_option, config_path, path_or_default,
  atoi_int, parse_loglevel, known_option, apply_option, apply_options, config_load,
  config_parse_args,
}

-- The argument of the last option `o`.
unfoldable pub last_arg : ℕ → Options → Option Text
last_arg o [] = none
last_arg o ((opt, optarg) ∷ opts) = elim (last_arg o opts) [
  | some later ↦ some later
  | none ↦ if opt == o then some optarg else none
]

abbrev pub given {ℓ} : {A : Type ℓ} → (Text → A) → Option Text → A → A
given f none old = old
given f (some optarg) old = f optarg

-- The options, and behind them what the configuration holds.
abbrev pub overridden : Options → Config → Config
overridden opts cfg = record {
  domain = given (snprintf_s 256) (last_arg b'd' opts) cfg.domain;
  port = given atoi_int (last_arg b'p' opts) cfg.port;
  bind_address = cfg.bind_address;
  datadir = given (snprintf_s 1024) (last_arg b'D' opts) cfg.datadir;
  logfile = given (snprintf_s 1024) (last_arg b'l' opts) cfg.logfile;
  loglevel = given parse_loglevel (last_arg b'L' opts) cfg.loglevel;
}

given-last :
    {A : Type 0} (f : Text → A) (o opt : ℕ) (optarg : Text) (opts : Options) (old : A)
    → given f (last_arg o ((opt, optarg) ∷ opts)) old
      ≡ given f (last_arg o opts) (if opt == o then f optarg else old)
unfolding last_arg
given-last f o opt optarg opts old = elim (Option-cases (last_arg o opts)) [
  | inl e ↦ elim (Bool-cases (opt == o)) [ inl x ↦ rw (e, x) refl | inr x ↦ rw (e, x) refl ]
  | inr (later, e) ↦ rw e refl
]

module _ (opt : ℕ) (optarg : Text) (cfg : Config) where
  domain-apply :
      (apply_option opt optarg cfg).domain
      ≡ (if opt == b'd' then snprintf_s 256 optarg else cfg.domain)
  unfolding apply_option
  domain-apply = ground arith

  port-apply :
      (apply_option opt optarg cfg).port ≡ (if opt == b'p' then atoi_int optarg else cfg.port)
  unfolding apply_option
  port-apply = ground arith

  bind_address-apply : (apply_option opt optarg cfg).bind_address ≡ cfg.bind_address
  unfolding apply_option
  bind_address-apply = ground arith

  datadir-apply :
      (apply_option opt optarg cfg).datadir
      ≡ (if opt == b'D' then snprintf_s 1024 optarg else cfg.datadir)
  unfolding apply_option
  datadir-apply = ground arith

  logfile-apply :
      (apply_option opt optarg cfg).logfile
      ≡ (if opt == b'l' then snprintf_s 1024 optarg else cfg.logfile)
  unfolding apply_option
  logfile-apply = ground arith

  loglevel-apply :
      (apply_option opt optarg cfg).loglevel
      ≡ (if opt == b'L' then parse_loglevel optarg else cfg.loglevel)
  unfolding apply_option
  loglevel-apply = ground arith

  -- One more option in front changes what the others are laid over.
  overridden-option :
      (opts : Options)
      → overridden ((opt, optarg) ∷ opts) cfg ≡ overridden opts (apply_option opt optarg cfg)
  overridden-option opts =
      rw
        (
          given-last (snprintf_s 256) b'd' opt optarg opts cfg.domain,
          given-last atoi_int b'p' opt optarg opts cfg.port,
          given-last (snprintf_s 1024) b'D' opt optarg opts cfg.datadir,
          given-last (snprintf_s 1024) b'l' opt optarg opts cfg.logfile,
          given-last parse_loglevel b'L' opt optarg opts cfg.loglevel,
          domain-apply,
          port-apply,
          bind_address-apply,
          datadir-apply,
          logfile-apply,
          loglevel-apply,
        )
        refl

-- The options in front of the first one that is not a setting, and that one.
unfoldable pub settings_first : Options → Options
unfolding known_option
settings_first [] = []
settings_first ((opt, optarg) ∷ opts) =
    if known_option opt then (opt, optarg) ∷ settings_first opts else []

unfoldable pub stopper : Options → Option ℕ
unfolding known_option
stopper [] = none
stopper ((opt, optarg) ∷ opts) = if known_option opt then stopper opts else some opt

abbrev pub verdict : Option ℕ → ArgResult
verdict none = args_done
verdict (some opt) = if opt == b'h' then help_shown else bad_option

apply_options-overridden :
    (opts : Options) (cfg : Config)
    → apply_options opts cfg ≡ (overridden (settings_first opts) cfg, verdict (stopper opts))
unfolding apply_options last_arg settings_first stopper
apply_options-overridden [] cfg = refl
apply_options-overridden ((opt, optarg) ∷ opts) cfg = elim (Bool-cases (known_option opt)) [
  | inl e ↦ rw e (
      rw (overridden-option opt optarg cfg (settings_first opts))
        (apply_options-overridden opts (apply_option opt optarg cfg)))
  | inr e ↦ rw e refl
]

abbrev or_else : Option Text → Option Text → Option Text
or_else none old = old
or_else (some x) old = some x

config_path-last :
    (path : Option Text) (opts : Options)
    → config_path path opts ≡ or_else (last_arg b'c' opts) path
unfolding config_path last_arg
config_path-last path [] = refl
config_path-last path ((opt, optarg) ∷ opts) =
    config_path-last (if opt == b'c' then some optarg else path) opts
    ∙ elim (Option-cases (last_arg b'c' opts)) [
      | inl e ↦ elim (Bool-cases (opt == b'c')) [ inl x ↦ rw (e, x) refl | inr x ↦ rw (e, x) refl ]
      | inr (later, e) ↦ rw e refl
    ]

or_else-none : (o : Option Text) → or_else o none ≡ o
or_else-none none = refl
or_else-none (some x) = refl

module _ (files : Text → Option (List ℕ)) (opts : Options) where
  -- What is loaded first: the file of the last `-c`, or the default one.
  abbrev pub from_file : Config → Config
  from_file cfg = (config_load files (path_or_default (last_arg b'c' opts)) cfg).0

  -- The command line is laid over the file that the last `-c` names, or ./xmppd.conf: each setting
  -- is that of its last option, cut to its buffer, and without such an option that of the file,
  -- which also gives the bind address. The options count up to the first that is not a setting; that
  -- one decides the result, which is success where there is none.
  pub config_parse_args-overridden :
      (cfg : Config)
      → config_parse_args files opts cfg
        ≡ (overridden (settings_first opts) (from_file cfg), verdict (stopper opts))
  unfolding config_parse_args
  config_parse_args-overridden cfg =
      rw (config_path-last none opts, or_else-none (last_arg b'c' opts))
        (apply_options-overridden opts _)
