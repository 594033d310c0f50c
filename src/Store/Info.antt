-- ===== src/Store/Info.antt =====
-- internal/idp/storage.go: what tokens say of their subject, `SetUserinfoFromRequest` to
-- `applicationScopes`.
pub mod Live
use hoocloak.Base.{
  String, List, [], ◌∷◌, Bool, true, false, not, ◌&&◌, ◌||◌, Option, none, some, ◌==◌, contains,
  text_dec, if◌then◌else◌,
}
use hoocloak.Base.Map.{lookup}
use hoocloak.Config.{User}
use hoocloak.Store.Login.{is_standard_scope}
use hoocloak.Store.Prune.{prune}
use hoocloak.Store.Access.{token_request_info, get_subject, get_scopes}
use hoocloak.Store.Types.{
  Time, AccessRecord, Store, TokenRequest, Result, ok, err, user_not_found, client_not_found,
  invalid_token, token_inactive,
}

-- The fields of an `oidc.UserInfo` that the store writes.
pub record UserInfo : Type 0 where
  pub subject : String
  pub name : String
  pub preferred_username : String
  pub email : String
  pub email_verified : Bool

unfoldable pub with_profile : User → UserInfo → UserInfo
with_profile user info = record info { name = user.name; preferred_username = user.username }

unfoldable pub with_email : User → UserInfo → UserInfo
with_email user info = record info { email = user.email; email_verified = user.email_verified }

unfoldable pub fill_userinfo : User → List String → UserInfo → UserInfo
unfolding with_profile with_email
fill_userinfo user scopes info =
    let named = record info { subject = user.id } in
    let profiled = if contains scopes "profile" then with_profile user named else named in
    if contains scopes "email" then with_email user profiled else profiled

unfoldable pub set_userinfo : Store → UserInfo → String → List String → Result UserInfo
unfolding fill_userinfo
set_userinfo s info subject scopes = elim (lookup text_dec subject s.users) [
  | none ↦ err user_not_found
  | some user ↦ ok (fill_userinfo user scopes info)
]

-- `client == nil || !slices.Contains(client.config.Origins, origin)` fails.
unfoldable pub origin_allowed : Store → String → String → Bool
origin_allowed s client_id origin = elim (lookup text_dec client_id s.clients) [
  | none ↦ false
  | some client ↦ contains client.config.origins origin
]

unfoldable pub userinfo_of_record :
    Store → UserInfo → AccessRecord → String → String → Result UserInfo
unfolding origin_allowed
userinfo_of_record s info r subject origin =
    if not (r.subject == subject)
    then err invalid_token
    else if not (origin == "") && not (origin_allowed s r.client_id origin)
    then err invalid_token
    else set_userinfo s info r.subject r.scopes

unfoldable pub set_userinfo_from_token :
    Store → Time → UserInfo → String → String → String → Store × Result UserInfo
unfolding userinfo_of_record
set_userinfo_from_token s now info token_id subject origin =
    let s' = prune now s in
    elim (lookup text_dec token_id s'.access) [
      | none ↦ (s', err invalid_token)
      | some r ↦ (s', userinfo_of_record s' info r subject origin)
    ]

unfoldable pub set_userinfo_from_request :
    Store → UserInfo → TokenRequest → List String → Result UserInfo
set_userinfo_from_request s info request scopes = set_userinfo s info (get_subject s request) scopes

-- The fields of an `oidc.IntrospectionResponse` that the store writes. A refusal sets `active` to
-- false and leaves the rest, so its result is the error alone.
pub record Introspection : Type 0 where
  pub active : Bool
  pub scope : List String
  pub client_id : String
  pub token_type : String
  pub expiration : Time
  pub issued_at : Time
  pub subject : String
  pub audience : List String
  pub jwt_id : String

unfoldable pub introspect : AccessRecord → Introspection
introspect r = record {
  active = true;
  scope = r.scopes;
  client_id = r.client_id;
  token_type = "Bearer";
  expiration = r.expires;
  issued_at = r.issued_at;
  subject = r.subject;
  audience = r.audience;
  jwt_id = r.id;
}

unfoldable pub set_introspection_from_token :
    Store → Time → String → String → String → Store × Result Introspection
unfolding introspect
set_introspection_from_token s now token_id subject client_id =
    let s' = prune now s in
    elim (lookup text_dec token_id s'.access) [
      | none ↦ (s', err token_inactive)
      | some r ↦
          if not (r.subject == subject) || not (r.client_id == client_id)
          then (s', err token_inactive)
          else (s', ok (introspect r))
    ]

unfoldable pub application_scopes : List String → List String
application_scopes [] = []
application_scopes (scope ∷ rest) =
    let result = application_scopes rest in
    if is_standard_scope scope then result else scope ∷ result

-- The private claims; the name and the user name are there for a user only.
pub record Claims : Type 0 where
  pub scope : List String
  pub name : Option String
  pub preferred_username : Option String
  pub role : List String
  pub permission : List String

unfoldable pub private_claims : List String → List String → Option User → Claims
private_claims scopes roles none = record {
  scope = scopes;
  name = none;
  preferred_username = none;
  role = roles;
  permission = application_scopes scopes;
}
private_claims scopes roles (some user) = record {
  scope = scopes;
  name = some user.name;
  preferred_username = some user.username;
  role = user.roles;
  permission = application_scopes scopes;
}

unfoldable pub get_private_claims_from_request : Store → TokenRequest → Result Claims
unfolding private_claims
get_private_claims_from_request s request = elim (token_request_info s request) [
  | err e ↦ err e
  | ok info ↦ elim (lookup text_dec info.client_id s.clients) [
    | none ↦ err client_not_found
    | some client ↦ ok (
        private_claims (get_scopes s request) client.config.roles
          (lookup text_dec (get_subject s request) s.users))
  ]
]
