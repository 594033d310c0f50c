-- ===== src/Client.antt =====
-- internal/idp/client.go: a registered client, as the provider sees it.
use Prim.Native.String.{◌++◌ as append}
use hoocloak.Base.{ℕ, String, List, [], ◌∷◌, Bool, false, ◌&&◌, ◌||◌, ◌==◌, contains, if◌then◌else◌}
use hoocloak.Config.Url.{Net, Parsed, parsed, invalid_port, malformed, is_local_host}
use hoocloak.Config.{ClientConfig, client_type_spa}

pub record Client : Type 0 where
  pub config : ClientConfig
  pub provider_redirect_uris : List String
  pub id_ttl : ℕ
  pub base_path : String
  pub dev : Bool

-- What is used of `net/url`: what `config.IsLocalHost` uses too, `url.QueryUnescape`, which gives
-- "" for a text that does not decode, and `url.QueryEscape`.
pub record Urls : Type 0 where
  pub net : Net
  pub query_unescape : String → String
  pub query_escape : String → String

module _ (urls : Urls) where
  open urls use {net, query_unescape, query_escape}

  -- The body of the first loop of `newClient`, over the whole list.
  pub unescape_all : List String → List String
  unescape_all [] = []
  unescape_all (raw ∷ rest) = query_unescape raw ∷ unescape_all rest

  unfoldable pub is_local_http : Parsed → Bool
  is_local_http invalid_port = false
  is_local_http malformed = false
  is_local_http (parsed u) = u.scheme == "http" && is_local_host net u.hostname

  -- The second loop: does some redirect URI go to a local host in cleartext?
  pub any_local_http : List String → Bool → Bool
  any_local_http [] dev = dev
  any_local_http (raw ∷ rest) dev = any_local_http rest (is_local_http (net.parse raw) || dev)

  unfoldable pub new_client : ClientConfig → ℕ → String → Client
  unfolding unescape_all any_local_http is_local_http
  new_client c id_ttl base_path = record {
    config = c;
    provider_redirect_uris = unescape_all c.redirect_uris;
    id_ttl = id_ttl;
    base_path = base_path;
    dev = if c.type == client_type_spa then any_local_http c.redirect_uris false else false;
  }

  pub login_url : Client → String → String
  login_url c request_id =
      append c.base_path (append "/login?authRequestID=" (query_escape request_id))

pub data ApplicationType : Type 0 where
  web user_agent : ApplicationType

pub data AuthMethod : Type 0 where
  basic none_ : AuthMethod

pub data GrantType : Type 0 where
  code refresh_token client_credentials : GrantType

unfoldable pub application_type : Client → ApplicationType
application_type c = if c.config.type == client_type_spa then user_agent else web

unfoldable pub auth_method : Client → AuthMethod
auth_method c = if c.config.type == client_type_spa then none_ else basic

unfoldable pub response_types : Client → List String
response_types c = if c.config.type == client_type_spa then "code" ∷ [] else []

unfoldable pub grant_types : Client → List GrantType
grant_types c =
    if c.config.type == client_type_spa then code ∷ refresh_token ∷ [] else client_credentials ∷ []

-- The functions that `RestrictAdditionalIdTokenScopes` and `RestrictAdditionalAccessTokenScopes`
-- return.
unfoldable pub restrict_id_token_scopes : Client → List String → List String
restrict_id_token_scopes c [] = []
restrict_id_token_scopes c (scope ∷ rest) =
    let kept = restrict_id_token_scopes c rest in
    if (scope == "profile" || scope == "email") && contains c.config.allowed_scopes scope
    then scope ∷ kept
    else kept

unfoldable pub restrict_access_token_scopes : Client → List String → List String
restrict_access_token_scopes c [] = []
restrict_access_token_scopes c (scope ∷ rest) =
    let kept = restrict_access_token_scopes c rest in
    if contains c.config.allowed_scopes scope then scope ∷ kept else kept

unfoldable pub is_scope_allowed : Client → String → Bool
is_scope_allowed c scope = contains c.config.allowed_scopes scope

unfoldable pub id_token_userinfo_claims_assertion : Client → Bool
id_token_userinfo_claims_assertion c = c.config.type == client_type_spa
