-- ===== src/Store/Clients/Scopes.antt =====
-- The scopes of `ClientCredentialsTokenRequest`.
use mathlib.Core.List.{Memᴰ}
use hoocloak.Base.{
  ℕ, ◌≡◌, ◌≢◌, refl, inl, inr, String, List, [], ◌∷◌, true, Option, none, some, ◌∈◌, arith,
  text_dec, Option-cases, Bool-cases, ◌==◌,
}
use hoocloak.Base.Map.{lookup}
use hoocloak.Client.{Client, Urls, new_client}
use hoocloak.Config.{Config, ClientConfig, Realm, client_type_service}
use hoocloak.Config.Validate.{validate}
use hoocloak.Config.Accepted.{
  check_users-AllNew, check_clients-check_type, check_type-permitted, check_permitted-allowed,
  validate-check_users,
}
use hoocloak.Store.Types.{Store, ServiceRequest, Crypto, ok}
use hoocloak.Store.Clients.{
  all_permitted, service_request, request_of_client, client_credentials_token_request, new_store,
}
use hoocloak.Store.Clients.Registered.{new_store-client}

all_permitted-allowed :
    (c : ClientConfig) (scopes : List String) (x : String)
    → all_permitted c scopes ≡ true
    → x ∈ scopes
    → (x ∈ c.allowed_scopes) × (x ∈ c.permissions)
unfolding all_permitted
all_permitted-allowed c [] x e m = ground arith
all_permitted-allowed c (scope ∷ rest) x e m = ground (arith, all_permitted-allowed c rest x)

all_permitted-intro :
    (c : ClientConfig) (scopes : List String)
    → ((x : String) → x ∈ scopes → (x ∈ c.allowed_scopes) × (x ∈ c.permissions))
    → all_permitted c scopes ≡ true
unfolding all_permitted
all_permitted-intro c [] h = refl
all_permitted-intro c (scope ∷ rest) h =
    let first = h scope (ground arith) in
    ground (arith, first, all_permitted-intro c rest λ x m. h x (ground arith))

-- What a request that is granted to a client holds.
pub record Granted (s : Store) (id : String) (scopes : List String) (r : ServiceRequest)
    : Type 0 where
  pub client : Client
  pub found : lookup text_dec id s.clients ≡ some client
  pub service : client.config.type ≡ client_type_service
  pub some_scope : scopes ≢ []
  pub allowed :
      (x : String)
      → x ∈ scopes
      → (x ∈ client.config.allowed_scopes) × (x ∈ client.config.permissions)
  pub request : r ≡ service_request client.config id scopes

request_of_client-ok :
    (c : ClientConfig) (id : String) (scopes : List String) (r : ServiceRequest)
    → request_of_client c id scopes ≡ ok r
    → (scopes ≢ []) × (all_permitted c scopes ≡ true) × (r ≡ service_request c id scopes)
unfolding request_of_client
request_of_client-ok c id [] r e = ground arith
request_of_client-ok c id (x ∷ xs) r e = ground arith

-- A service gets a token request only for scopes that are all allowed to it and among its
-- permissions, at least one, and for its own audiences.
pub client_credentials_token_request-Granted :
    (s : Store) (id : String) (scopes : List String) (r : ServiceRequest)
    → client_credentials_token_request s id scopes ≡ ok r
    → Granted s id scopes r
unfolding client_credentials_token_request
client_credentials_token_request-Granted s id scopes r e =
    elim (Option-cases (lookup text_dec id s.clients)) [
      | inl q ↦ absurd (ground (arith, q, e))
      | inr (client, q) ↦ elim (Bool-cases (client.config.type == client_type_service)) [
        | inr t ↦ absurd (ground (arith, q, e, t))
        | inl t ↦
            let parts = request_of_client-ok client.config id scopes r (ground (arith, q, e, t)) in
            record {
              client = client;
              found = q;
              service = ground (arith, t);
              some_scope = parts.0;
              allowed = λ x. all_permitted-allowed client.config scopes x parts.1;
              request = parts.2;
            }
      ]
    ]

request_of_client-intro :
    (c : ClientConfig) (id : String) (scopes : List String)
    → scopes ≢ []
    → all_permitted c scopes ≡ true
    → request_of_client c id scopes ≡ ok (service_request c id scopes)
unfolding request_of_client
request_of_client-intro c id [] n e = absurd (n refl)
request_of_client-intro c id (x ∷ xs) n e = ground (arith, e)

-- A service of an accepted configuration gets a token request for any of the scopes that are
-- allowed to it, at least one: that they are its permissions too is no further condition.
pub client_credentials_token_request-accepted :
    (crypto : Crypto) (urls : Urls) (cost : String → Option ℕ) (base kid : String) (c : Config)
    (realm : Realm) (client : ClientConfig) (scopes : List String)
    → validate urls.net cost crypto.fold c ≡ none
    → Memᴰ realm c.realms
    → Memᴰ client realm.clients
    → client.type ≡ client_type_service
    → scopes ≢ []
    → ((x : String) → x ∈ scopes → x ∈ client.allowed_scopes)
    → client_credentials_token_request
        (new_store crypto urls realm c.tokens base kid)
        client.id
        scopes
      ≡ ok (service_request client client.id scopes)
unfolding client_credentials_token_request new_client
client_credentials_token_request-accepted crypto urls cost base kid c realm client scopes accepted
      served registered t n h =
    let users =
      check_users-AllNew urls.net cost crypto.fold realm.users realm.clients [] []
        (validate-check_users urls.net cost crypto.fold c realm accepted served) in
    let permitted = check_type-permitted urls.net cost crypto.fold client t (
      check_clients-check_type urls.net cost crypto.fold client realm.clients users.2.0 users.2.1
        registered) in
    let all = all_permitted-intro client scopes λ x m. (
      h x m,
      check_permitted-allowed urls.net cost crypto.fold client.permissions client.allowed_scopes x
          permitted (h x m),
    ) in
    ground (
      arith,
      t,
      new_store-client crypto urls cost base kid c realm accepted served client registered,
      request_of_client-intro client client.id scopes n all,
    )
