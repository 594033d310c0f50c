-- ===== src/Server/Login.antt =====
-- internal/idp/server.go: the login handlers, and the small pages beside them.
pub mod Redirects
pub mod Authentications
pub mod LoggedIn
pub mod Failed
pub mod Completes
use Prim.Native.String.{◌++◌ as append}
use hoocloak.Base.{
  ℕ, String, List, [], ◌∷◌, ◌++◌, Bool, true, false, not, ◌&&◌, ◌||◌, Option, none, some, ◌==◌, ltb,
  length, text_dec, if◌then◌else◌,
}
use hoocloak.Base.Map.{lookup}
use hoocloak.Store.Types.{Time, Store, Result, ok, err, Error, invalid_credentials}
use hoocloak.Store.Login.{Slots, login_info, select_identity, authenticate, issue_completion_secret}
use hoocloak.Server.Http.{
  lax, Values, get, Request, Cookie, Response, Form, text, is_form, parse_form, set_header,
  write_header, write_chunk, set_cookie, http_error,
}
use hoocloak.Server.Gates.{max_form_body_bytes}
use hoocloak.Server.Realm.{Realm, Web, LoginData, completion_cookie_name, csrf_cookie_name}
use hoocloak.Server.Protocol.{deletion, method_not_allowed}

abbrev pub login_mode_password : String
login_mode_password = "password"

abbrev pub login_mode_select : String
login_mode_select = "select"

-- What is left to the outside while a POST is handled: the times of the calls of the store, what
-- other calls do to it between them and during `Authenticate`, the slots for credential checks,
-- and what `randomID` returns.
pub record Turn : Type 0 where
  pub at_info : Time
  pub before_check : Store → Store
  pub at_check : Time
  pub during_check : Store → Store
  pub at_completion : Time
  pub before_issue : Store → Store
  pub at_issue : Time
  pub slots : Slots
  pub random : Option String

unfoldable pub constant_time_equal : String → String → Bool
constant_time_equal a b = a == b

-- A parameter of the login form stands twice.
unfoldable pub any_repeated : Values → List String → Bool
any_repeated form [] = false
any_repeated form (parameter ∷ rest) = ltb 1 (length (form parameter)) || any_repeated form rest

abbrev pub is_invalid_credentials : Error → Bool
is_invalid_credentials invalid_credentials = true
is_invalid_credentials _ = false

-- The login mode, which is the password where none is set.
abbrev pub mode_of : String → String
mode_of mode = if mode == "" then login_mode_password else mode

abbrev pub login_parameters : List String
login_parameters = "authRequestID" ∷ "csrf" ∷ "identity" ∷ "username" ∷ "password" ∷ []

abbrev holds_value : Option String → String → Bool
holds_value none submitted = false
holds_value (some value) submitted = constant_time_equal value submitted

module _ (web : Web) (realm : Realm) where
  open web use {crypto, login_page, logged_out_page, callback_url}

  unfoldable pub login_page_data : String → String → String → LoginData
  login_page_data request_id client csrf =
      let mode = mode_of realm.login_mode in
      record {
        base_path = realm.base_path;
        request_id = request_id;
        client = client;
        csrf = csrf;
        mode = mode;
        username = "";
        selected_id = "";
        error = "";
        identities = if mode == login_mode_select then realm.identities else [];
      }

  unfoldable pub security_headers : Response → Response
  unfolding set_header
  security_headers w = set_header "Content-Security-Policy" realm.csp (
      set_header "X-Frame-Options" "DENY" (
        set_header "Referrer-Policy" "no-referrer" (
          set_header "X-Content-Type-Options" "nosniff" (set_header "Cache-Control" "no-store" w))))

  unfoldable pub render_login : ℕ → LoginData → Response → Response
  unfolding set_header write_header write_chunk http_error
  render_login status data_ w = elim (login_page data_) [
    | none ↦ http_error "unable to render login" 500 w
    | some page ↦
        write_chunk (text page)
          (write_header status (set_header "Content-Type" "text/html; charset=utf-8" w))
  ]

  -- A cookie for ten minutes.
  abbrev pub session_cookie : String → String → String → Cookie
  session_cookie name value path = record {
    name = name;
    value = value;
    path = append realm.base_path path;
    max_age = 600;
    deleted = false;
    http_only = true;
    secure = realm.secure_cookies;
    same_site = lax;
  }

  unfoldable pub login_get : Store → Time → Option String → Request → Response → Store × Response
  unfolding http_error set_cookie render_login login_page_data csrf_cookie_name
  login_get s now random r w =
      let id = get r.query "authRequestID" in
      let (s', info) = login_info s now id in
      elim info [
        | err e ↦ (s', http_error "invalid or expired authorization request" 400 w)
        | ok client ↦ elim random [
          | none ↦ (s', http_error "unable to create login" 500 w)
          | some csrf ↦ (
            s',
            render_login 200 (login_page_data id client csrf)
                (set_cookie (session_cookie (csrf_cookie_name web id) csrf "/login") w),
          )
        ]
      ]

  -- `http.Redirect` after a POST.
  unfoldable pub redirect : String → ℕ → Response → Response
  unfolding set_header write_header
  redirect url status w = write_header status (set_header "Location" url w)

  -- From `IssueCompletionSecret` on.
  unfoldable pub login_complete : Store → Turn → String → Response → Store × Response
  unfolding http_error set_cookie redirect completion_cookie_name csrf_cookie_name
  login_complete s turn id w =
      let (s', issued) =
        issue_completion_secret crypto (turn.before_issue s) turn.at_issue turn.random id in
      elim issued [
        | err e ↦ (s', http_error "unable to create authorization completion" 500 w)
        | ok secret ↦ (
          s',
          redirect (callback_url id) 303 (
              set_cookie (deletion web realm (csrf_cookie_name web id) "/login") (
                set_cookie
                  (session_cookie (completion_cookie_name web id) secret "/authorize/callback") w)),
        )
      ]

  -- The answer to what the authentication gave; `data_` is the page to show again.
  unfoldable pub login_result :
      Store × Result (Unit {0}) → Turn → String → LoginData → Response → Store × Response
  unfolding login_complete render_login http_error
  login_result (s, err e) turn id data_ w = (
    s,
    if not (is_invalid_credentials e)
        then http_error "invalid or expired authorization request" 400 w
        else render_login 401 data_ w,
  )
  login_result (s, ok _) turn id data_ w = login_complete s turn id w

  -- The authentication that the mode asks for.
  unfoldable pub authentication :
      Store → Turn → Values → String → String → Store × Result (Unit {0})
  authentication s turn form id mode =
      if mode == login_mode_select
      then select_identity (turn.before_check s) turn.at_check id (get form "identity")
      else authenticate crypto (turn.before_check s) turn.during_check turn.slots turn.at_check
          turn.at_completion id (get form "username") (get form "password")

  -- The page for another attempt.
  unfoldable pub retry_data : Values → LoginData → LoginData
  retry_data form data_ =
      if data_.mode == login_mode_select
      then record data_ { selected_id = get form "identity"; error = "Select a valid identity." }
      else record data_ { username = get form "username"; error = "Invalid username or password." }

  -- From `loginPageData` on.
  unfoldable pub login_attempt :
      Store → Turn → Values → String → String → Response → Store × Response
  unfolding login_result login_page_data authentication retry_data
  login_attempt s turn form id client w =
      let data_ = login_page_data id client (get form "csrf") in
      login_result (authentication s turn form id data_.mode) turn id (retry_data form data_) w

  -- The token of the form is the one in the cookie.
  unfoldable pub csrf_matches : Request → String → String → Bool
  unfolding constant_time_equal csrf_cookie_name
  csrf_matches r id submitted =
      not (submitted == "")
      && holds_value (lookup text_dec (csrf_cookie_name web id) r.cookies) submitted

  -- From `LoginInfo` on.
  unfoldable pub login_form : Store → Turn → Values → Request → Response → Store × Response
  unfolding login_attempt csrf_matches http_error
  login_form s turn form r w =
      let id = get form "authRequestID" in
      let (s', info) = login_info s turn.at_info id in
      elim info [
        | err e ↦ (s', http_error "invalid or expired authorization request" 400 w)
        | ok client ↦
            if not (csrf_matches r id (get form "csrf"))
            then (s', http_error "invalid CSRF token" 400 w)
            else login_attempt s' turn form id client w
      ]

  unfoldable pub login_post : Store → Turn → Request → Response → Store × Response
  unfolding login_form http_error any_repeated
  login_post s turn r w =
      if not (is_form r.media_type)
      then (s, http_error "login requires application/x-www-form-urlencoded" 415 w)
      else elim (parse_form max_form_body_bytes r) [
        | none ↦ (s, http_error "invalid login request" 400 w)
        | some form ↦
            if any_repeated form.post login_parameters
            then (s, http_error "invalid login request" 400 w)
            else login_form s turn form.post r w
      ]

  unfoldable pub login : Store → Turn → Request → Response → Store × Response
  unfolding login_get login_post security_headers
  login s turn r w =
      let w' = security_headers w in
      if r.method == "GET"
      then login_get s turn.at_info turn.random r w'
      else if r.method == "POST"
      then login_post s turn r w'
      else (s, method_not_allowed "GET, POST" w')

  unfoldable pub logged_out : Request → Response → Response
  unfolding security_headers set_header http_error write_chunk
  logged_out r w =
      let w' = security_headers w in
      if not (r.method == "GET") && not (r.method == "HEAD")
      then method_not_allowed "GET, HEAD" w'
      else if r.method == "GET"
      then elim (logged_out_page realm.base_path) [
        | none ↦ http_error "unable to render logged-out page" 500 w'
        | some page ↦
            write_chunk (text page) (set_header "Content-Type" "text/html; charset=utf-8" w')
      ]
      else set_header "Content-Type" "text/html; charset=utf-8" w'

  unfoldable pub discovery : Request → Response → Response
  unfolding set_header write_header write_chunk
  discovery r w =
      if not (r.method == "GET") && not (r.method == "HEAD")
      then method_not_allowed "GET, HEAD" w
      else let w' = set_header "Content-Type" "application/json" w in
        if r.method == "HEAD"
        then write_header 200 w'
        else write_chunk (text realm.discovery_json) w'
