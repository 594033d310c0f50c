-- ===== src/Tests/Pages.antt =====
-- Logins at the pages of the small realm.
use hoocloak.Base.{◌≡◌, refl, arith, [], ◌∷◌, some, ◌==◌, text_dec, if◌then◌else◌, ◌then◌}
use text.Mathlib.TextEquality.{eq_iff}
use hoocloak.Base.Map.{lookup, insert, erase, retain, size}
use hoocloak.Config.Text
use hoocloak.Store.Types.{zero_hash}
use hoocloak.Store.Prune.{prune}
use hoocloak.Store.Login as StoreLogin
use hoocloak.Store.Requests
use hoocloak.Server.Http
use hoocloak.Server.Http.{Values, Request, Response, blank}
use hoocloak.Server.Realm as ServerRealm
use hoocloak.Server.Realm.{Realm, Web}
use hoocloak.Server.Protocol.{protocol_gates}
use hoocloak.Server.Login
use hoocloak.Server.Login.{Turn, login_post, login_complete}
use hoocloak.Server.Login.LoggedIn.{LoggedIn, login_post-LoggedIn}
use hoocloak.Server.Login.Failed.{Answers, login_post-Answers}
use hoocloak.Server.Login.Completes.{Follows, consumed, cleared, login_complete-reaches}
use hoocloak.Tests.{pending, coded}
use hoocloak.Tests.Gates.{web, realm, request}
use hoocloak.Tests.Logins.{slots, coded-IsScheduled}

program : Unit {0}
unfolding text_dec lookup insert erase retain size prune ◌then◌ Text.trim_space
    StoreLogin.authenticate StoreLogin.authenticate_start StoreLogin.authenticate_check
    StoreLogin.login_check StoreLogin.compare_credential StoreLogin.begin_comparison
    StoreLogin.take_slot StoreLogin.complete_authentication StoreLogin.completed
    StoreLogin.login_info StoreLogin.issue_completion_secret Requests.write Requests.ref_dec
    Http.set_header Http.write_header Http.write_chunk Http.set_cookie Http.http_error
    Http.parse_form Http.body_parses Http.post_form Login.any_repeated Login.login_form
    Login.csrf_matches Login.constant_time_equal Login.login_attempt Login.authentication
    Login.login_page_data Login.retry_data Login.login_result Login.login_complete Login.redirect
    Login.login_post Login.render_login ServerRealm.completion_cookie_name
    ServerRealm.csrf_cookie_name
program = tt

abbrev pub turn : Turn
turn = record {
  at_info = 10;
  before_check = λ s. s;
  at_check = 11;
  during_check = λ s. s;
  at_completion = 12;
  before_issue = λ s. s;
  at_issue = 13;
  slots = slots;
  random = some "proof";
}

abbrev credentials : Values
credentials key =
    if key == "authRequestID"
    then "req" ∷ []
    else if key == "csrf"
    then "token" ∷ []
    else if key == "username"
    then "ada" ∷ []
    else if key == "password"
    then "secret" ∷ []
    else []

abbrev pub attempt : Request
attempt = record request {
  path = "/login";
  posted = credentials;
  cookies = ("hoocloak_csrf_req", "token") ∷ [];
}

login_post-LoggedIn_example :
    LoggedIn web realm pending turn attempt blank
      (login_post web realm pending turn attempt blank).1
unfolding program
login_post-LoggedIn_example = login_post-LoggedIn web realm pending turn attempt blank refl refl

login_post-Answers_example : Answers blank (login_post web realm pending turn attempt blank).1
login_post-Answers_example = login_post-Answers web realm pending turn attempt blank refl

abbrev return_id : Values
return_id key = if key == "id" then "req" ∷ [] else []

abbrev return_request : Request
return_request = record request {
  method = "GET";
  path = "/authorize/callback";
  query = return_id;
  cookies = ("hoocloak_completion_req", "proof") ∷ [];
}

follows : Follows web realm return_request "req" "proof"
unfolding program
follows = record { path = refl; method = refl; query = refl; cookie = refl }

login_complete-reaches_example :
    let s' = (login_complete web realm coded turn "req" blank).0 in
    protocol_gates web realm s' 20 return_request blank
    ≡ web.provider
        (consumed web realm s' 20 "req" "proof")
        return_request
        (cleared web realm blank "req")
unfolding program
login_complete-reaches_example =
    login_complete-reaches web realm coded turn "req" "proof" 0 blank blank 20 return_request refl
      refl refl coded-IsScheduled refl (omega arith) (ground (arith, eq_iff "proof" zero_hash))
      (ground (arith, eq_iff "req" "")) (ground (arith, eq_iff "proof" "")) follows
