-- ===== src/Server/Gates.antt =====
-- internal/idp/server.go: what is checked before a request goes to the provider.
pub mod Exact
pub mod Clients
use Prim.Native.String.{◌++◌ as append}
use hoocloak.Base.{
  ℕ, ◌+◌, String, List, [], ◌∷◌, Bool, true, false, not, ◌&&◌, ◌||◌, Option, none, some, ◌==◌,
  contains, ltb, text_dec, if◌then◌else◌, length, ◌then◌, fails_if,
}
use hoocloak.Base.Map.{Map, lookup}
use hoocloak.Client.{Client}
use hoocloak.Config.{ClientConfig, client_type_spa}
use hoocloak.Config.Text.{fields, trim_space}
use hoocloak.Store.Types.{Store}
use hoocloak.Server.Http.{
  Values, get, exists, Request, Form, Refusal, parse_form, invalid_request, invalid_scope,
  basic_required, byte_length,
}
use hoocloak.Server.Pkce.{valid_s256_code_challenge, valid_code_verifier}

abbrev pub max_form_body_bytes : ℕ
max_form_body_bytes = 65536

abbrev pub max_authorize_field_bytes : ℕ
max_authorize_field_bytes = 1024

-- The gates give the arguments of `oauthError`, or `none` where they return true.
unfoldable pub reject_repeated_form_parameters : Values → List String → Option Refusal
unfolding ◌then◌
reject_repeated_form_parameters form [] = none
reject_repeated_form_parameters form (parameter ∷ rest) =
    fails_if (ltb 1 (length (form parameter)))
      (invalid_request (append parameter " must not be repeated"))
    then reject_repeated_form_parameters form rest

-- The loop over `state` and `nonce`.
unfoldable pub check_lengths : Values → List String → Option Refusal
unfolding ◌then◌
check_lengths form [] = none
check_lengths form (field ∷ rest) =
    fails_if (ltb max_authorize_field_bytes (byte_length (get form field)))
      (invalid_request (append field " must not exceed 1024 bytes"))
    then check_lengths form rest

-- The loop over the requested scopes.
unfoldable pub check_scopes : ClientConfig → List String → Option Refusal
unfolding ◌then◌
check_scopes c [] = none
check_scopes c (scope ∷ rest) =
    fails_if (not (contains c.allowed_scopes scope))
      (invalid_scope "requested scope is not allowed")
    then check_scopes c rest

-- `authorizeGate` from the client on, for a single-page application.
unfoldable pub check_authorization : ClientConfig → Values → Option Refusal
unfolding ◌then◌
check_authorization c form =
    fails_if (not (contains c.redirect_uris (get form "redirect_uri")))
      (invalid_request "redirect_uri is not registered")
    then fails_if (not (get form "response_type" == "code"))
        (invalid_request "response_type must be code")
    then fails_if
        (not (get form "response_mode" == "") && not (get form "response_mode" == "query"))
        (invalid_request "response_mode must be query")
    then fails_if (not (contains (fields (get form "scope")) "openid"))
        (invalid_scope "openid is required")
    then check_scopes c (fields (get form "scope"))
    then fails_if
        (not (valid_s256_code_challenge (get form "code_challenge"))
          || not (get form "code_challenge_method" == "S256"))
        (invalid_request "PKCE requires a 43-character S256 code challenge")

abbrev pub unreadable : Refusal
unreadable = invalid_request "unable to parse request"

-- `s.Store.clients[r.Form.Get("client_id")]`.
unfoldable pub client_of : Store → Values → Option Client
client_of s form = lookup text_dec (get form "client_id") s.clients

abbrev pub authorize_parameters : List String
authorize_parameters =
    "client_id" ∷ "response_type" ∷ "response_mode" ∷ "scope" ∷ "redirect_uri" ∷ "code_challenge"
    ∷ "code_challenge_method" ∷ "state" ∷ "nonce" ∷ []

unfoldable pub check_client_authorization : Option Client → Values → Option Refusal
check_client_authorization none form = none
check_client_authorization (some client) form =
    if client.config.type == client_type_spa then check_authorization client.config form else none

unfoldable pub authorize_gate : Store → Request → Option Refusal
unfolding ◌then◌
authorize_gate s r = elim (parse_form max_form_body_bytes r) [
  | none ↦ some unreadable
  | some form ↦
      reject_repeated_form_parameters form.all authorize_parameters
      then check_lengths form.all ("state" ∷ "nonce" ∷ [])
      then check_client_authorization (client_of s form.all) form.all
]

-- A loop over fields that must not be in the form.
unfoldable pub reject_fields : Values → List String → Option Refusal
unfolding ◌then◌
reject_fields form [] = none
reject_fields form (field ∷ rest) =
    fails_if (exists form field) basic_required then reject_fields form rest

-- `BasicAuth` with an ID and a secret.
unfoldable pub check_basic : Option (String × String) → Option Refusal
check_basic none = some basic_required
check_basic (some (id, secret)) = fails_if (id == "" || secret == "") basic_required

abbrev pub token_parameters : List String
token_parameters =
    "grant_type" ∷ "code" ∷ "client_id" ∷ "client_secret" ∷ "redirect_uri" ∷ "code_verifier"
    ∷ "refresh_token" ∷ "scope" ∷ []

unfoldable pub check_grant : Request → Values → Option Refusal
unfolding ◌then◌
check_grant r form =
    fails_if
      (get form "grant_type" == "authorization_code"
        && not (valid_code_verifier (get form "code_verifier")))
      (invalid_request "code_verifier must contain 43 to 128 ASCII unreserved characters")
    then (if not (get form "grant_type" == "client_credentials")
        then none
        else reject_fields form
            ("client_id" ∷ "client_secret" ∷ "client_assertion" ∷ "client_assertion_type" ∷ [])
          then check_basic r.basic)

unfoldable pub token_gate : Request → Option Refusal
unfolding ◌then◌
token_gate r = if not (r.method == "POST") then none else elim (parse_form max_form_body_bytes r) [
  | none ↦ some unreadable
  | some form ↦
      reject_repeated_form_parameters form.all token_parameters then check_grant r form.all
]

-- Is the client registered as a single-page application?
abbrev is_spa : Option Client → Bool
is_spa none = false
is_spa (some client) = client.config.type == client_type_spa

unfoldable pub mutation_client_authentication_gate : Store → Request → Values → Option Refusal
unfolding ◌then◌
mutation_client_authentication_gate s r form =
    reject_fields form ("client_secret" ∷ "client_assertion" ∷ "client_assertion_type" ∷ [])
    then (if exists form "client_id"
        then fails_if
            (not (r.path == "/revoke" && r.authorization == "" && is_spa (client_of s form)))
            basic_required
        else check_basic r.basic)

abbrev pub mutation_parameters : List String
mutation_parameters = "token" ∷ "token_type_hint" ∷ "client_id" ∷ "client_secret" ∷ []

-- `none` is an error of `ParseForm`, as in the cases of `protocolGates`.
unfoldable pub mutation_gate : Store → Request → Option Refusal
unfolding ◌then◌
mutation_gate s r = elim (parse_form max_form_body_bytes r) [
  | none ↦ some unreadable
  | some form ↦
      reject_repeated_form_parameters form.all mutation_parameters
      then mutation_client_authentication_gate s r form.all
]

unfoldable pub userinfo_gate : Request → Option Refusal
userinfo_gate r =
    if not (r.method == "POST")
    then none
    else elim (parse_form max_form_body_bytes r) [ none ↦ some unreadable | some form ↦ none ]

unfoldable pub end_session_gate : Request → Option Refusal
unfolding ◌then◌
end_session_gate r = elim (parse_form max_form_body_bytes r) [
  | none ↦ some unreadable
  | some form ↦
      reject_repeated_form_parameters form.all
        ("id_token_hint" ∷ "post_logout_redirect_uri" ∷ "state" ∷ "client_id" ∷ [])
      then fails_if (trim_space (get form.all "id_token_hint") == "")
          (invalid_request "id_token_hint is required")
]
