-- ===== src/Config/Tests.antt =====
-- A file of two settings, and a command line that changes one of them.
use jabber.Base.{
  ◌≡◌, refl, Option, none, some, List, [], ◌∷◌, ℕ, Text, codes, str_eq, index_of, if◌then◌else◌,
}
use jabber.Config.{
  Options, pos, negsuc, help_shown, log_warn, config_defaults, parse_loglevel, atoi_int,
  apply_options, known_option, load_line, setting_of, config_load, config_parse_args,
}
use jabber.Config.Options.{
  overridden, settings_first, stopper, verdict, from_file, config_parse_args-overridden,
}
use jabber.Config.Fits.{Fits, config_parse_args-Fits}
use jabber.Config.RoundTrip.{print_settings}

abbrev two_settings : List (Text × Text)
two_settings = (codes "domain", codes "example.org") ∷ (codes "loglevel", codes "warn") ∷ []

unfoldable two_files : Text → Option (List ℕ)
unfolding print_settings str_eq
two_files path =
    if str_eq path (codes "./xmppd.conf") then some (print_settings two_settings) else none

abbrev port_option : Options
port_option = (b'p', codes "5223") ∷ (b'h', []) ∷ (b'd', codes "late") ∷ []

config_parse_args-overridden_example : config_parse_args two_files port_option config_defaults ≡ (
  overridden (settings_first port_option) (from_file two_files port_option config_defaults),
  verdict (stopper port_option),
)
config_parse_args-overridden_example =
    config_parse_args-overridden two_files port_option config_defaults

config_parse_args-Fits_example : Fits (config_parse_args two_files port_option config_defaults).0
config_parse_args-Fits_example = config_parse_args-Fits two_files port_option

parsed_domain :
    (config_parse_args two_files port_option config_defaults).0.domain ≡ codes "example.org"
unfolding config_parse_args two_files config_defaults apply_options known_option config_load
    load_line setting_of index_of
parsed_domain = refl

parsed_port : (config_parse_args two_files port_option config_defaults).0.port ≡ some (pos 5223)
unfolding config_parse_args two_files config_defaults apply_options known_option atoi_int
parsed_port = refl

parsed_result : (config_parse_args two_files port_option config_defaults).1 ≡ help_shown
unfolding config_parse_args two_files config_defaults apply_options known_option
parsed_result = refl

negative_port : atoi_int (codes " -2x") ≡ some (negsuc 1)
unfolding atoi_int
negative_port = refl

wide_port : atoi_int (codes "2147483648") ≡ none
unfolding atoi_int
wide_port = refl

lower_case : parse_loglevel (codes "warn") ≡ log_warn
unfolding parse_loglevel
lower_case = refl
