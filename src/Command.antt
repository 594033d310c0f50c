-- ===== src/Command.antt =====
-- cmd/hoocloak/main.go: the commands, up to where the listener starts, and
-- internal/version/version.go.
pub mod Keys
pub mod Overrides
pub mod Start
use hoocloak.Base.{
  ℕ, String, List, [], ◌∷◌, Bool, true, false, not, ◌&&◌, ◌||◌, Option, none, some, ◌==◌, leb,
  length, text_dec, if◌then◌else◌,
}
use hoocloak.Base.Map.{Map, insert}
use hoocloak.Config.{Config}
use hoocloak.Config as Configuration
use hoocloak.Config.Text.{Text, codes, is_code, drop_suffix, trim_space, has_prefix}
use hoocloak.Config.Url.{Net, Url, parsed, malformed, invalid_port, Problem, is_empty}
use hoocloak.Config.Validate.{validate}
use hoocloak.Server.Realm.{Realm}
use hoocloak.Server.Login.{login_mode_password, login_mode_select}
use hoocloak.Server.Realms.{SigningKey, Libraries, Built, built, failed, ServerError, new_server}

-- The value in front of a line's end, which the line has.
unfoldable pub read_line : Text → Option (Text × Text)
read_line [] = none
read_line (c ∷ cs) =
    if is_code 10 c
    then some (c ∷ [], cs)
    else elim (read_line cs) [ none ↦ none | some (line, rest) ↦ some (c ∷ line, rest) ]

-- `bcrypt.GenerateFromPassword`.
pub data Hashed : Type 0 where
  hashed : String → Hashed
  too_long generation : Hashed

-- What `hash` prints, or its error.
pub data Printed : Type 0 where
  printed : String → Printed
  no_line empty_value unreadable more_values over_length no_hash unwritten : Printed

module _ (generate : Text → Hashed) where
  -- The hash, printed where the output can be written.
  unfoldable pub print_hash : Bool → Text → Printed
  print_hash writable value = elim (generate value) [
    | too_long ↦ over_length
    | generation ↦ no_hash
    | hashed hash ↦ if writable then printed hash else unwritten
  ]

  -- `hashValue`; `readable` is whether the input ends without an error behind the line.
  unfoldable pub hash_value : Text → Bool → Bool → Printed
  unfolding read_line print_hash drop_suffix
  hash_value input readable writable = elim (read_line input) [
    | none ↦ no_line
    | some (line, extra) ↦
        let value = drop_suffix (codes "\r") (drop_suffix (codes "\n") line) in
        if is_empty value
        then empty_value
        else if not readable
        then unreadable
        else if not (is_empty extra)
        then more_values
        else print_hash writable value
  ]

-- The configuration with what the environment sets, or the error.
pub data Override : Type 0 where
  applied : Config → Override
  padded_mode bad_mode padded_theme relative_theme : Override

abbrev pub is_padded_or_empty : String → Bool
is_padded_or_empty value = value == "" || not (value == trim_space value)

abbrev pub with_mode : Config → String → Config
with_mode c mode = record c { login_mode = mode }

-- The theme's directory; `filepath.IsAbs` on Unix tests for a slash in front.
unfoldable pub override_theme : (String → Option String) → Config → Override
unfolding trim_space
override_theme environment c = elim (environment "HOOCLOAK_UI_THEME_DIR") [
  | none ↦ applied c
  | some dir ↦
      if is_padded_or_empty dir
      then padded_theme
      else if not (has_prefix "/" dir)
      then relative_theme
      else applied (record c { theme_dir = dir })
]

-- From the default of the login mode on.
unfoldable pub override_mode : (String → Option String) → Config → Override
unfolding override_theme
override_mode environment c =
    let mode = if c.login_mode == "" then login_mode_password else c.login_mode in
    if not (mode == login_mode_password) && not (mode == login_mode_select)
    then bad_mode
    else override_theme environment (with_mode c mode)

unfoldable pub apply_environment_overrides : (String → Option String) → Config → Override
unfolding override_mode
apply_environment_overrides environment c = elim (environment "HOOCLOAK_LOGIN_MODE") [
  | none ↦ override_mode environment c
  | some mode ↦
      if is_padded_or_empty mode then padded_mode else override_mode environment (with_mode c mode)
]

-- The keys of the realms; `new_key` is the ID of a new key, where one can be made.
unfoldable pub generate_keys :
    (String → Option String)
    → Map String SigningKey
    → List Configuration.Realm
    → Option (Map String SigningKey)
unfolding insert
generate_keys new_key keys [] = some keys
generate_keys new_key keys (realm ∷ rest) = elim (new_key realm.name) [
  | none ↦ none
  | some kid ↦
      generate_keys new_key (insert text_dec realm.name (record { has_key = true; kid = kid }) keys)
        rest
]

-- What `serve` comes to, before it listens.
pub data Started : Type 0 where
  ready : Map String Realm → Started
  unloaded no_key : Started
  overridden : Override → Started
  invalid : Problem → Started
  no_server : ServerError → Started

module _ (libraries : Libraries) (cost : String → Option ℕ) (fold : String → String)
    (new_key : String → Option String) where
  -- With the keys.
  unfoldable pub start_server : Config → Map String SigningKey → Started
  unfolding new_server
  start_server c keys = elim (new_server libraries c keys) [
    | failed e ↦ no_server e
    | built servers ↦ ready servers
  ]

  -- With the effective configuration.
  unfoldable pub start : Config → Started
  unfolding generate_keys start_server validate
  start c = elim (validate libraries.net cost fold c) [
    | some problem ↦ invalid problem
    | none ↦ elim (generate_keys new_key [] c.realms) [
      | none ↦ no_key
      | some keys ↦ start_server c keys
    ]
  ]

  -- `serve`, with what `config.Load` gives.
  unfoldable pub serve : Option Config → (String → Option String) → Started
  unfolding start apply_environment_overrides
  serve none environment = unloaded
  serve (some c) environment = elim (apply_environment_overrides environment c) [
    | applied effective ↦ start effective
    | padded_mode ↦ overridden padded_mode
    | bad_mode ↦ overridden bad_mode
    | padded_theme ↦ overridden padded_theme
    | relative_theme ↦ overridden relative_theme
  ]

-- The flags of `health`: the URL, whether the timeout is more than 0, and how many arguments are
-- left.
pub record HealthFlags : Type 0 where
  pub target : String
  pub positive : Bool
  pub left : ℕ

-- What `health` comes to. `is_abs` is `IsAbs`, a scheme that is not empty.
pub data Health : Type 0 where
  healthy bad_flags usage bad_url unreachable unhealthy : Health

unfoldable pub is_health_url : Url → Bool
is_health_url u =
    not (u.scheme == "")
    && not (is_empty u.host)
    && not u.has_user
    && (u.scheme == "http" || u.scheme == "https")

-- The status of the answer.
unfoldable pub judge : Option ℕ → Health
judge none = unreachable
judge (some status) = if leb 200 status && not (leb 300 status) then healthy else unhealthy

unfoldable pub health : Net → (Url → Option ℕ) → Option HealthFlags → Health
unfolding is_health_url judge
health net ask none = bad_flags
health net ask (some flags) =
    if not (is_code 0 flags.left) || not flags.positive
    then usage
    else elim (net.parse flags.target) [
      | invalid_port ↦ bad_url
      | malformed ↦ bad_url
      | parsed u ↦ if is_health_url u then judge (ask u) else bad_url
    ]

-- What the arguments ask for; the flags of `serve` are its path and how many arguments are left.
pub data Command : Type 0 where
  print_version read_hash no_arguments version_usage hash_usage serve_flags serve_usage : Command
  serve_at : String → Command
  check_health : List String → Command
  unknown : String → Command

unfoldable pub run : (List String → Option (String × ℕ)) → List String → Command
run flags [] = no_arguments
run flags (name ∷ rest) =
    if name == "version"
    then if is_code 0 (length rest) then print_version else version_usage
    else if name == "hash"
    then if is_code 0 (length rest) then read_hash else hash_usage
    else if name == "serve"
    then elim (flags rest) [
      | none ↦ serve_flags
      | some (path, left) ↦ if is_code 0 left then serve_at path else serve_usage
    ]
    else if name == "health"
    then check_health rest
    else unknown name

-- `init` of internal/version/version.go.
unfoldable pub version : String → String → String
unfolding trim_space
version value source = if value == "dev" then trim_space source else value
