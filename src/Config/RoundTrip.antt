-- ===== src/Config/RoundTrip.antt =====
-- A file of lines `key = value` says these settings, c/src/config.c: `config_load`.
use jabber.Base.{ℕ, ◌+◌, ◌≤◌, ◌≡◌, ◌≢◌, false, List, [], ◌∷◌, ◌++◌, Text, codes, All, length}
use jabber.User.Conf.{is_space}
use jabber.User.Password.{StartsPlain, EndsPlain}
use jabber.Config.{Config, set_key}

abbrev pub IsKeyByte : ℕ → Type 0
IsKeyByte c = (is_space c ≡ false) × (c ≢ 0) × (c ≢ b'=') × (c ≢ b'#')

abbrev pub IsValueByte : ℕ → Type 0
IsValueByte c = (c ≢ 0) × (c ≢ 10)

-- A key without spaces, `=` and `#`, and a value of one line without a space at its start or end,
-- that fit a line together.
pub record IsSetting (key val : Text) : Type 0 where
  pub key_bytes : All IsKeyByte key
  pub has_key : key ≢ []
  pub value_bytes : All IsValueByte val
  pub has_value : val ≢ []
  pub starts : StartsPlain val
  pub ends : EndsPlain val
  pub short : length key + length val ≤ 1019

abbrev pub setting_line : Text → Text → Text
setting_line key val = key ++ (codes " = " ++ val)

unfoldable pub print_settings : List (Text × Text) → List ℕ
print_settings [] = []
print_settings ((key, val) ∷ rest) = setting_line key val ++ 10 ∷ print_settings rest

unfoldable pub set_keys : List (Text × Text) → Config → Config
set_keys [] cfg = cfg
set_keys ((key, val) ∷ rest) cfg = set_keys rest (set_key key val cfg)

abbrev pub AllSettings : List (Text × Text) → Type 0
AllSettings [] = Unit
AllSettings ((key, val) ∷ rest) = IsSetting key val × AllSettings rest
