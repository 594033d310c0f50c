-- ===== src/Server/Realms.antt =====
-- internal/idp/server.go: `NewServer`, which makes the server of each realm, and
-- internal/config/config.go: `RealmIssuer`.
pub mod Keys
use Prim.Native.Char.{code}
use Prim.Native.String.{◌++◌ as append}
use hoocloak.Base.{
  ℕ, String, List, [], ◌∷◌, Bool, true, false, not, ◌&&◌, Option, none, some, ◌==◌, text_dec,
  length, leb, if◌then◌else◌,
}
use hoocloak.Base.Map.{Map, lookup, insert, size}
use hoocloak.Config.{Config, User}
use hoocloak.Config as Configuration
use hoocloak.Config.Text.{Text, is_code, is_blank, has_prefix}
use hoocloak.Config.Url.{Net}
use hoocloak.Server.Origins.{
  configured_scopes, configured_origins, configured_redirect_origins, page_policy,
}
use hoocloak.Server.Realm.{Realm, LoginIdentity}

-- `has_key` is `Key != nil`.
pub record SigningKey : Type 0 where
  pub has_key : Bool
  pub kid : String

pub data ServerError : Type 0 where
  theme key_count : ServerError
  key_missing key_nil key_id provider encoding origins unknown_realm : String → ServerError

pub data Built (A : Type 0) : Type 0 where
  built : A → Built A
  failed : ServerError → Built A

-- What is used of the libraries: whether `loadUI` succeeds, whether `op.NewProvider` does for an
-- issuer, the JSON of the discovery document, and the text of a list of codes; the order in which
-- Go visits the keys of a map, and the network packages.
pub record Libraries : Type 0 where
  pub loads_theme : String → Bool
  pub provides : String → Bool
  pub discovery : String → List String → Option String
  pub from_codes : Text → String
  pub range : List String → List String
  pub range_origins : List Text → List Text
  pub net : Net
  pub is_ip : Text → Bool

-- `strings.TrimSuffix(text, "/")`.
unfoldable pub trim_slash : String → String
trim_slash String.[] = String.[]
trim_slash (String.◌∷◌ c s) =
    let rest = trim_slash s in
    if is_code b'/' (code c) && is_blank s then String.[] else String.◌∷◌ c rest

unfoldable pub realm_issuer : Config → String → String
unfolding trim_slash
realm_issuer c name = append (trim_slash c.base_url) (append "/realms/" name)

abbrev identity_of : User → LoginIdentity
identity_of u = record { id = u.id; username = u.username; name = u.name; email = u.email }

abbrev pub identities_of : List User → List LoginIdentity
identities_of [] = []
identities_of (u ∷ rest) = identity_of u ∷ identities_of rest

module _ (libraries : Libraries) (c : Config) (keys : Map String SigningKey) where
  open libraries use {
    loads_theme, provides, discovery, from_codes, range, range_origins, net, is_ip,
  }

  -- The record of a realm.
  unfoldable pub realm_server : Configuration.Realm → String → List Text → Realm
  unfolding realm_issuer configured_origins page_policy
  realm_server realm discovery_json form_origins = record {
    login_mode = c.login_mode;
    issuer = realm_issuer c realm.name;
    base_path = append "/realms/" realm.name;
    secure_cookies = has_prefix "https://" (realm_issuer c realm.name);
    discovery_json = append discovery_json "\n";
    csp = from_codes (page_policy form_origins);
    identities = identities_of realm.users;
    origins = configured_origins range realm;
  }

  -- From `NewStore` on.
  unfoldable pub build_realm : Configuration.Realm → Built Realm
  unfolding realm_server configured_scopes configured_redirect_origins
  build_realm realm =
      let issuer = realm_issuer c realm.name in
      if not (provides issuer)
      then failed (provider realm.name)
      else elim (discovery issuer (configured_scopes range realm)) [
        | none ↦ failed (encoding realm.name)
        | some json ↦ elim (configured_redirect_origins net is_ip range_origins realm) [
          | none ↦ failed (origins realm.name)
          | some form_origins ↦ built (realm_server realm json form_origins)
        ]
      ]

  -- The checks on the realm's key, which come first.
  unfoldable pub check_key : Configuration.Realm → Option ServerError
  check_key realm = elim (lookup text_dec realm.name keys) [
    | none ↦ some (key_missing realm.name)
    | some signing ↦
        if not signing.has_key
        then some (key_nil realm.name)
        else if signing.kid == ""
        then some (key_id realm.name)
        else none
  ]

  unfoldable pub keyed_realm : Configuration.Realm → Built Realm
  unfolding check_key build_realm
  keyed_realm realm = elim (check_key realm) [ some e ↦ failed e | none ↦ build_realm realm ]

  -- The loop over the realms, with those that are there.
  unfoldable pub build_realms :
      Map String Realm → List Configuration.Realm → Built (Map String Realm)
  unfolding keyed_realm insert
  build_realms servers [] = built servers
  build_realms servers (realm ∷ rest) = elim (keyed_realm realm) [
    | failed e ↦ failed e
    | built server ↦ build_realms (insert text_dec realm.name server servers) rest
  ]

  -- The loop over the keys.
  unfoldable pub check_names : Map String Realm → Map String SigningKey → Option ServerError
  check_names servers [] = none
  check_names servers ((name, key) ∷ rest) =
      let more = check_names servers rest in
      elim (lookup text_dec name servers) [ none ↦ some (unknown_realm name) | some server ↦ more ]

  unfoldable pub new_server : Built (Map String Realm)
  unfolding build_realms check_names size
  new_server =
      if not (loads_theme c.theme_dir)
      then failed theme
      else if not (is_code (size keys) (length c.realms))
      then failed key_count
      else elim (build_realms [] c.realms) [
        | failed e ↦ failed e
        | built servers ↦ elim (check_names servers keys) [
          | some e ↦ failed e
          | none ↦ built servers
        ]
      ]
