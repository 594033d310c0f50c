-- ===== src/Store/Clients.antt =====
-- internal/idp/storage.go: clients and their credentials, `NewStore`, `GetClientByClientID` to
-- `ClientCredentialsTokenRequest`.
pub mod Registered
pub mod Scopes
use hoocloak.Base.{
  ℕ, String, List, [], ◌∷◌, Bool, true, false, not, ◌&&◌, ◌||◌, Option, none, some, ◌==◌, contains,
  text_dec, if◌then◌else◌,
}
use hoocloak.Base.Map.{Map, lookup, insert}
use hoocloak.Client.{Client, Urls, new_client}
use hoocloak.Config.{TokenConfig, User, ClientConfig, Realm, client_type_service}
use hoocloak.Config.Text.{canonical_username}
use hoocloak.Store.Login.{Slots, dummy_password_hash, compare_credential}
use hoocloak.Store.Types.{
  Store, ServiceRequest, Crypto, Result, ok, err, zero_auth, invalid_client, invalid_scope,
  invalid_client_credentials,
}

unfoldable pub get_client_by_client_id : Store → String → Result Client
get_client_by_client_id s id = elim (lookup text_dec id s.clients) [
  | none ↦ err invalid_client
  | some client ↦ ok client
]

-- The hash that is compared: the client's own for a service client, the dummy otherwise.
unfoldable pub client_hash : Option Client → String
client_hash none = dummy_password_hash
client_hash (some client) =
    if client.config.type == client_type_service
    then client.config.secret_hash
    else dummy_password_hash

unfoldable pub is_service : Option Client → Bool
is_service none = false
is_service (some client) = client.config.type == client_type_service

-- The loop of `ClientCredentialsTokenRequest` finds no scope that it refuses.
unfoldable pub all_permitted : ClientConfig → List String → Bool
all_permitted config [] = true
all_permitted config (scope ∷ rest) =
    contains config.allowed_scopes scope
    && contains config.permissions scope
    && all_permitted config rest

unfoldable pub service_request : ClientConfig → String → List String → ServiceRequest
service_request config id scopes = record {
  client_id = id;
  subject = id;
  audience = config.audiences;
  scopes = scopes;
}

unfoldable pub request_of_client : ClientConfig → String → List String → Result ServiceRequest
unfolding all_permitted service_request
request_of_client config id [] = err invalid_scope
request_of_client config id (scope ∷ rest) =
    if all_permitted config (scope ∷ rest)
    then ok (service_request config id (scope ∷ rest))
    else err invalid_scope

unfoldable pub client_credentials_token_request :
    Store → String → List String → Result ServiceRequest
unfolding request_of_client
client_credentials_token_request s id scopes = elim (lookup text_dec id s.clients) [
  | none ↦ err invalid_client
  | some client ↦
      if client.config.type == client_type_service
      then request_of_client client.config id scopes
      else err invalid_client
]

module _ (crypto : Crypto) where
  unfoldable pub authorize_client_id_secret : Store → Slots → String → String → Result (Unit {0})
  unfolding client_hash is_service
  authorize_client_id_secret s q id secret =
      let client = lookup text_dec id s.clients in
      elim (compare_credential crypto q (client_hash client) secret) [
        | err e ↦ err e
        | ok valid ↦
            if not (is_service client) || not valid then err invalid_client_credentials else ok tt
      ]

  unfoldable pub client_credentials : Store → Slots → String → String → Result Client
  unfolding authorize_client_id_secret get_client_by_client_id
  client_credentials s q id secret = elim (authorize_client_id_secret s q id secret) [
    | err e ↦ err e
    | ok _ ↦ get_client_by_client_id s id
  ]

  -- The loops of `NewStore`.
  unfoldable pub add_users : List User → Map String User → Map String User
  add_users [] m = m
  add_users (user ∷ rest) m = add_users rest (insert text_dec user.id user m)

  unfoldable pub add_usernames : List User → Map String String → Map String String
  add_usernames [] m = m
  add_usernames (user ∷ rest) m =
      add_usernames rest (insert text_dec (canonical_username crypto.fold user.username) user.id m)

  module _ (urls : Urls) where
    unfoldable pub add_clients :
        List ClientConfig → ℕ → String → Map String Client → Map String Client
    add_clients [] id_ttl base_path m = m
    add_clients (c ∷ rest) id_ttl base_path m =
        add_clients rest id_ttl base_path
          (insert text_dec c.id (new_client urls c id_ttl base_path) m)

    unfoldable pub new_store : Realm → TokenConfig → String → String → Store
    unfolding add_users add_usernames add_clients
    new_store realm tokens base_path kid = record {
      tokens = tokens;
      next_expiry = 0;
      clients = add_clients realm.clients tokens.id_ttl base_path [];
      users = add_users realm.users [];
      usernames = add_usernames realm.users [];
      auth_requests = [];
      codes = [];
      access = [];
      refresh = [];
      families = [];
      signing_id = kid;
      heap = λ p. zero_auth;
      next_ref = 0;
    }
