-- ===== src/Server/Protocol.antt =====
-- internal/idp/server.go: `protocolGates`, which stands before the provider.
pub mod Forwarded
pub mod Answered
pub mod Userinfo
use Prim.Native.Char.{code}
use Prim.Native.String.{◌++◌ as append}
use hoocloak.Base.{
  ℕ, ◌+◌, String, List, [], ◌∷◌, ◌++◌, Bool, true, false, not, ◌&&◌, ◌||◌, Option, none, some, ◌==◌,
  contains, ltb, text_dec, if◌then◌else◌,
}
use hoocloak.Base.Map.{Map, lookup, insert}
use hoocloak.Config.Text.{is_code, is_blank}
use hoocloak.Store.Types.{Time, Store, Result, ok, err}
use hoocloak.Store.Login.{consume_completion_secret}
use hoocloak.Server.Http.{
  lax, Request, Response, Cookie, Refusal, blank, get, set_header, write_header, set_cookie,
  http_error, not_found, oauth_error,
}
use hoocloak.Server.Gates.{
  authorize_gate, token_gate, mutation_gate, userinfo_gate, end_session_gate,
}
use hoocloak.Server.Realm.{Realm, Web, completion_cookie_name}

-- `strings.Split(allow, ", ")`.
abbrev starts_with_space : String → Bool
starts_with_space String.[] = false
starts_with_space (String.◌∷◌ c _) = is_code b' ' (code c)

abbrev drop_first : String → String
drop_first String.[] = ""
drop_first (String.◌∷◌ _ s) = s

split_list : String → List String
split_list String.[] = "" ∷ []
split_list (String.◌∷◌ c s) = elim (split_list s) [
  | [] ↦ []
  | part ∷ rest ↦
      if is_code b',' (code c) && starts_with_space part
      then "" ∷ drop_first part ∷ rest
      else String.◌∷◌ c part ∷ rest
]

unfoldable pub method_allowed : String → String → Bool
unfolding split_list
method_allowed method allow = contains (split_list allow) method

unfoldable pub provider_endpoint_methods : String → Option String
provider_endpoint_methods path =
    if path == "/authorize"
    then some "GET, POST"
    else if path == "/authorize/callback"
    then some "GET"
    else if path == "/oauth/token" || path == "/oauth/introspect" || path == "/revoke"
    then some "POST"
    else if path == "/userinfo" || path == "/end_session"
    then some "GET, POST"
    else if path == "/keys"
    then some "GET, HEAD"
    else none

unfoldable pub method_not_allowed : String → Response → Response
unfolding set_header http_error
method_not_allowed allow w = http_error "method not allowed" 405 (set_header "Allow" allow w)

-- Whether a handler has answered, or goes on to the provider.
pub data Gate : Type 0 where
  answer forward : Response → Gate

unfoldable pub refuse : Option Refusal → Response → Gate
refuse none w = forward w
refuse (some e) w = answer (oauth_error e w)

-- The cases of the second `switch` that leave the store alone.
unfoldable pub path_gate : String → Store → Request → Option Refusal
path_gate path s r =
    if path == "/authorize"
    then authorize_gate s r
    else if path == "/oauth/token"
    then token_gate r
    else if path == "/oauth/introspect" || path == "/revoke"
    then mutation_gate s r
    else if path == "/userinfo"
    then userinfo_gate r
    else if path == "/end_session"
    then end_session_gate r
    else none

unfoldable pub token_headers : Request → Response → Response
unfolding set_header
token_headers r w =
    if r.path == "/oauth/token"
    then set_header "Pragma" "no-cache" (set_header "Cache-Control" "no-store" w)
    else w

-- `w.Header().Add(key, value)`, for all values of all keys.
unfoldable pub add_headers : Map String (List String) → Response → Response
unfolding insert
add_headers [] w = w
add_headers ((key, values) ∷ rest) w = add_headers rest (record w {
  headers =
      insert text_dec key
        (elim (lookup text_dec key w.headers) [ none ↦ values | some old ↦ old ++ values ])
        w.headers;
})

-- The provider's answer to a userinfo request, captured and passed on.
unfoldable pub pass_on : Response → Response → Response
unfolding write_header add_headers
pass_on capture w =
    let w' =
      write_header (if ltb 0 capture.status then capture.status else 200)
        (add_headers capture.headers w) in
    record w' { cookies = w'.cookies ++ capture.cookies; body = w'.body ++ capture.body }

abbrev pub is_status : ℕ → ℕ → Bool
is_status = is_code

module _ (web : Web) (realm : Realm) where
  open web use {crypto, provider}

  -- The deletion of a cookie, by a cookie that has expired.
  abbrev pub deletion : String → String → Cookie
  deletion name path = record {
    name = name;
    value = "";
    path = append realm.base_path path;
    max_age = 0;
    deleted = true;
    http_only = true;
    secure = realm.secure_cookies;
    same_site = lax;
  }

  abbrev pub invalid_completion : Response → Gate
  invalid_completion w = answer (http_error "invalid authorization completion" 400 w)

  unfoldable pub callback_gate : Store → Time → Request → Response → Store × Gate
  unfolding set_cookie completion_cookie_name
  callback_gate s now r w =
      let id = get r.query "id" in
      if id == ""
      then (s, invalid_completion w)
      else elim (lookup text_dec (completion_cookie_name web id) r.cookies) [
        | none ↦ (s, invalid_completion w)
        | some secret ↦
            let (s', consumed) = consume_completion_secret crypto s now id secret in
            if secret == "" then (s, invalid_completion w) else elim consumed [
              | err e ↦ (s', invalid_completion w)
              | ok _ ↦ (
                s',
                forward
                    (set_cookie (deletion (completion_cookie_name web id) "/authorize/callback") w),
              )
            ]
      ]

  -- What comes after the test of the method.
  unfoldable pub enter : Store → Time → Request → Response → Store × Gate
  unfolding callback_gate refuse path_gate
  enter s now r w =
      if r.path == "/authorize/callback"
      then callback_gate s now r w
      else (s, refuse (path_gate r.path s r) w)

  unfoldable pub gates : Store → Time → Request → Response → Store × Gate
  unfolding token_headers enter
  gates s now r w =
      let w' = token_headers r w in
      if r.path == "/device_authorization"
      then (s, answer (not_found w'))
      else elim (provider_endpoint_methods r.path) [
        | none ↦ enter s now r w'
        | some allow ↦
            if not (method_allowed r.method allow)
            then (s, answer (method_not_allowed allow w'))
            else enter s now r w'
      ]

  unfoldable pub userinfo_response : Store → Request → Response → Store × Response
  unfolding set_header http_error pass_on
  userinfo_response s r w =
      let (s', capture) = provider s r blank in
      (
        s',
        if is_status 401 capture.status || is_status 403 capture.status
            then http_error "invalid_token" 401
                (set_header "WWW-Authenticate" "Bearer error=\"invalid_token\"" w)
            else pass_on capture w,
      )

  unfoldable pub protocol_gates : Store → Time → Request → Response → Store × Response
  unfolding gates userinfo_response
  protocol_gates s now r w =
      let (s', gate) = gates s now r w in
      elim gate [
        | answer w' ↦ (s', w')
        | forward w' ↦ if r.path == "/userinfo" then userinfo_response s' r w' else provider s' r w'
      ]
