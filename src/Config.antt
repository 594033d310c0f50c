-- ===== src/Config.antt =====
-- internal/config/config.go: the configuration's data, as the store reads it.
pub mod Text
pub mod Ipv4
pub mod Ipv6
pub mod Url
pub mod Rules
pub mod Validate
pub mod Accepted
use hoocloak.Base.{ℕ, String, List, Bool}

-- The client types; a `Client` read from a file holds any string.
abbrev pub client_type_spa : String
client_type_spa = "spa"

abbrev pub client_type_service : String
client_type_service = "service"

-- The durations, in nanoseconds; a negative one, which `Validate` refuses as it refuses 0, is
-- read as 0.
pub record TokenConfig : Type 0 where
  pub access_ttl : ℕ
  pub id_ttl : ℕ
  pub refresh_ttl : ℕ

pub record User : Type 0 where
  pub id : String
  pub username : String
  pub password_hash : String
  pub name : String
  pub email : String
  pub email_verified : Bool
  pub roles : List String
  pub permissions : List String

pub record ClientConfig : Type 0 where
  pub id : String
  pub type : String
  pub secret_hash : String
  pub name : String
  pub redirect_uris : List String
  pub post_logout_redirect_uris : List String
  pub origins : List String
  pub audiences : List String
  pub allowed_scopes : List String
  pub roles : List String
  pub permissions : List String

pub record Realm : Type 0 where
  pub name : String
  pub users : List User
  pub clients : List ClientConfig

-- The whole configuration; `ui` is its one field, the theme directory.
pub record Config : Type 0 where
  pub base_url : String
  pub listen : String
  pub theme_dir : String
  pub tokens : TokenConfig
  pub realms : List Realm
  pub login_mode : String
