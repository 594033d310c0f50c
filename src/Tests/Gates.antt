-- ===== src/Tests/Gates.antt =====
-- Requests at the gates of the small realm.
use Prim.Native.String.{◌++◌ as append}
use hoocloak.Base.{
  ◌≡◌, refl, ◌↔◌, [], ◌∷◌, ◌++◌, true, false, none, some, ◌==◌, text_dec, if◌then◌else◌, ◌then◌,
}
use hoocloak.Base.Map.{lookup, insert, erase, retain, size}
use hoocloak.Config.Text
use hoocloak.Store.Prune.{prune}
use hoocloak.Store.Login
use hoocloak.Store.Requests
use hoocloak.Server.Http
use hoocloak.Server.Http.{Values, Request, Response, Form, blank}
use hoocloak.Server.Realm
use hoocloak.Server.Realm.{Realm, Web}
use hoocloak.Server.Gates
use hoocloak.Server.Gates.{authorize_gate, token_gate, mutation_gate}
use hoocloak.Server.Gates.Exact.{AuthorizeAdmitted, authorize_gate-exact}
use hoocloak.Server.Gates.Clients.{
  TokenAdmitted, token_gate-exact, MutationAdmitted, mutation_gate-exact,
}
use hoocloak.Server.Pkce
use hoocloak.Server.Protocol
use hoocloak.Server.Protocol.{Gate, forward, gates, userinfo_response, method_not_allowed}
use hoocloak.Server.Protocol.Forwarded.{Forwarded, gates-Forwarded}
use hoocloak.Server.Protocol.Answered.{Answered, gates-Answered}
use hoocloak.Server.Protocol.Userinfo.{Masks, userinfo_response-Masks}
use hoocloak.Tests.{crypto, empty}

program : Unit {0}
unfolding text_dec lookup insert erase retain size prune ◌then◌ Text.fields Text.trim_space
    Login.consume_completion_secret Requests.write Requests.ref_dec Http.set_header
    Http.write_header Http.write_chunk Http.set_cookie Http.http_error Http.not_found
    Http.parse_form Http.body_parses Http.post_form Http.oauth_error Http.byte_length
    Pkce.valid_s256_code_challenge Pkce.valid_code_verifier Gates.reject_repeated_form_parameters
    Gates.check_lengths Gates.check_scopes Gates.check_authorization Gates.client_of
    Gates.check_client_authorization Gates.authorize_gate Gates.reject_fields Gates.check_basic
    Gates.check_grant Gates.token_gate Gates.mutation_client_authentication_gate Gates.mutation_gate
    Gates.userinfo_gate Gates.end_session_gate Protocol.method_allowed
    Protocol.provider_endpoint_methods Protocol.method_not_allowed Protocol.refuse
    Protocol.path_gate Protocol.token_headers Protocol.callback_gate Protocol.enter Protocol.gates
    Realm.completion_cookie_name
program = tt

-- A provider that says its name.
abbrev pub web : Web
web = record {
  crypto = crypto;
  short_name = λ hash. hash;
  login_page = λ shown. some "login";
  logged_out_page = λ base. some "bye";
  callback_url = λ id. append "/authorize/callback?id=" id;
  provider = λ s r w. (s, record w { status = 200; body = w.body ++ Http.text "provider" ∷ [] });
  open_asset = λ name. none;
  type_of = λ name. "";
  serve_content = λ r file w. w;
  cors = λ origins r w. (w, true);
  mux_redirect = λ r w. none;
}

abbrev pub realm : Realm
realm = record {
  login_mode = "";
  issuer = "http://localhost/realms/r";
  base_path = "/realms/r";
  secure_cookies = false;
  discovery_json = "{}";
  csp = "";
  identities = [];
  origins = [];
}

abbrev pub no_values : Values
no_values key = []

abbrev pub request : Request
request = record {
  method = "POST";
  path = "/";
  raw_path = "";
  query = no_values;
  query_ok = true;
  posted = no_values;
  posted_ok = true;
  body_bytes = 100;
  media_type = some "application/x-www-form-urlencoded";
  has_content_type = true;
  authorization = "";
  basic = none;
  cookies = [];
}

abbrev authorization : Values
authorization key =
    if key == "client_id"
    then "spa" ∷ []
    else if key == "redirect_uri"
    then "http://localhost/cb" ∷ []
    else if key == "response_type"
    then "code" ∷ []
    else if key == "scope"
    then "openid read" ∷ []
    else if key == "code_challenge"
    then "0123456789012345678901234567890123456789abC" ∷ []
    else if key == "code_challenge_method"
    then "S256" ∷ []
    else []

abbrev authorize_request : Request
authorize_request = record request { path = "/authorize"; posted = authorization }

authorize_gate-exact_example :
    (authorize_gate empty authorize_request ≡ none) ↔ AuthorizeAdmitted empty authorize_request
authorize_gate-exact_example = authorize_gate-exact empty authorize_request

-- The request of the example does pass.
authorizes : authorize_gate empty authorize_request ≡ none
unfolding program
authorizes = refl

abbrev client_form : Values
client_form key = if key == "grant_type" then "client_credentials" ∷ [] else []

abbrev token_request : Request
token_request = record request {
  path = "/oauth/token";
  posted = client_form;
  basic = some ("worker", "key");
}

token_gate-exact_example : (token_gate token_request ≡ none) ↔ TokenAdmitted token_request
token_gate-exact_example = token_gate-exact token_request refl

abbrev own_client : Values
own_client key = if key == "client_id" then "spa" ∷ [] else []

abbrev revocation : Request
revocation = record request { path = "/revoke"; posted = own_client }

mutation_gate-exact_example :
    (mutation_gate empty revocation ≡ none) ↔ MutationAdmitted empty revocation
mutation_gate-exact_example = mutation_gate-exact empty revocation

revokes : mutation_gate empty revocation ≡ none
unfolding program
revokes = refl

gates-Forwarded_example : Forwarded web realm empty 10 authorize_request
unfolding program
gates-Forwarded_example = gates-Forwarded web realm empty 10 authorize_request blank blank refl

abbrev wrong_method : Request
wrong_method = record request { path = "/keys" }

gates-Answered_example : Answered wrong_method (method_not_allowed "GET, HEAD" blank)
unfolding program
gates-Answered_example =
    gates-Answered web realm empty 10 wrong_method blank (method_not_allowed "GET, HEAD" blank) refl
      refl

userinfo_response-Masks_example :
    Masks
      (web.provider empty request blank).1
      blank
      (userinfo_response web realm empty request blank).1
userinfo_response-Masks_example = userinfo_response-Masks web realm empty request blank refl
