-- ===== src/Server/Login/LoggedIn.antt =====
-- What a login that internal/idp/server.go answers with the redirect has shown.
use hoocloak.Base.{
  ◌≡◌, ap, ◌∙◌, sym, subst, inl, inr, ◌≢◌, String, [], ◌∷◌, ◌++◌, true, false, some, arith,
  text_dec, Bool-cases, Option-cases,
}
use hoocloak.Base.Map.{lookup}
use hoocloak.Store.Types.{Store, ok, Result-cases}
use hoocloak.Store.Login.{login_info, issue_completion_secret}
use Prim.Native.String.{◌++◌ as append}
use hoocloak.Server.Http.{lax, Values, get, Request, Response, Form, parse_form, form_media_type}
use hoocloak.Server.Http.Written.{http_error-status}
use hoocloak.Server.Gates.{max_form_body_bytes}
use hoocloak.Server.Realm.{Realm, Web, completion_cookie_name, csrf_cookie_name}
use hoocloak.Server.Login.{
  Turn, mode_of, retry_data, constant_time_equal, authentication, login_parameters, any_repeated,
  login_page_data, login_complete, login_attempt, csrf_matches, login_form, login_post,
}
use hoocloak.Server.Login.Redirects.{complete-redirects, result-redirects}
use hoocloak.Server.Login.Authentications.{IsAuthentication, authentication-IsAuthentication}

module _ (web : Web) (realm : Realm) where
  -- What a login has shown: the form with its token, the authentication in the store that
  -- `LoginInfo` leaves, and the secret that the browser gets.
  pub record LoggedIn (s : Store) (turn : Turn) (r : Request) (w w' : Response) : Type 0 where
    pub form : Form
    pub parsed : parse_form max_form_body_bytes r ≡ some form
    pub media_type : r.media_type ≡ some form_media_type
    pub single : any_repeated form.post login_parameters ≡ false
    pub token : ◌≢◌ {A = String} (get form.post "csrf") ""
    pub cookie :
        lookup text_dec (csrf_cookie_name web (get form.post "authRequestID")) r.cookies
        ≡ some (get form.post "csrf")
    pub after : Store
    pub authenticated :
        IsAuthentication web realm
          (login_info s turn.at_info (get form.post "authRequestID")).0
          after
          turn
          (get form.post "authRequestID")
          form.post
          (mode_of realm.login_mode)
    pub secret : String
    pub issued :
        (issue_completion_secret web.crypto
          (turn.before_issue after)
          turn.at_issue
          turn.random
          (get form.post "authRequestID")).1
        ≡ ok secret
    pub cookies :
        w'.cookies
        ≡ (w.cookies
            ++ record {
              name = completion_cookie_name web (get form.post "authRequestID");
              value = secret;
              path = append realm.base_path "/authorize/callback";
              max_age = 600;
              deleted = false;
              http_only = true;
              secure = realm.secure_cookies;
              same_site = lax;
            }
              ∷ [])
          ++ record {
            name = csrf_cookie_name web (get form.post "authRequestID");
            value = "";
            path = append realm.base_path "/login";
            max_age = 0;
            deleted = true;
            http_only = true;
            secure = realm.secure_cookies;
            same_site = lax;
          }
            ∷ []

  attempt-redirects :
      (s : Store) (turn : Turn) (form : Values) (id client : String) (w : Response)
      → w.status ≡ 0
      → (login_attempt web realm s turn form id client w).1.status ≡ 303
      → (s' : Store) × IsAuthentication web realm s s' turn id form (mode_of realm.login_mode)
        × (login_attempt web realm s turn form id client w ≡ login_complete web realm s' turn id w)
  unfolding login_attempt login_page_data
  attempt-redirects s turn form id client w z e =
      let given = authentication web realm s turn form id (mode_of realm.login_mode) in
      let data_ =
        retry_data web realm form (login_page_data web realm id client (get form "csrf")) in
      let (succeeds, same) = result-redirects web realm given.0 given.1 turn id data_ w z e in
      (
        given.0,
        authentication-IsAuthentication web realm s turn form id (mode_of realm.login_mode)
            succeeds,
        same,
      )

  pub csrf_matches_sound :
      (r : Request) (id submitted : String)
      → csrf_matches web realm r id submitted ≡ true
      → (◌≢◌ {A = String} submitted "")
        × (lookup text_dec (csrf_cookie_name web id) r.cookies ≡ some submitted)
  unfolding csrf_matches constant_time_equal
  csrf_matches_sound r id submitted e =
      elim (Option-cases (lookup text_dec (csrf_cookie_name web id) r.cookies)) [
        | inl f ↦ absurd (ground (arith, e, f))
        | inr (v, f) ↦ (ground (arith, e, f), ground (arith, e, f, text_dec v submitted))
      ]

  form-redirects :
      (s : Store) (turn : Turn) (form : Values) (r : Request) (w : Response)
      → w.status ≡ 0
      → (login_form web realm s turn form r w).1.status ≡ 303
      → (csrf_matches web realm r (get form "authRequestID") (get form "csrf") ≡ true)
        × ((client : String) × ((login_attempt web realm
                (login_info s turn.at_info (get form "authRequestID")).0
                turn
                form
                (get form "authRequestID")
                client
                w)
              ≡ login_form web realm s turn form r w))
  unfolding login_form
  form-redirects s turn form r w z e =
      let id = get form "authRequestID" in
      elim (Result-cases (login_info s turn.at_info id).1) [
        | inr (x, f) ↦ absurd (
            ground (
              arith,
              e,
              f,
              http_error-status "invalid or expired authorization request" 400 w z (omega arith),
            ))
        | inl (client, f) ↦ elim (Bool-cases (csrf_matches web realm r id (get form "csrf"))) [
          | inr m ↦ absurd (
              ground (arith, e, f, m, http_error-status "invalid CSRF token" 400 w z (omega arith)))
          | inl m ↦ (m, (client, ground (arith, f, m)))
        ]
      ]

  form-LoggedIn :
      (s : Store) (turn : Turn) (form : Form) (r : Request) (w : Response)
      → w.status ≡ 0
      → parse_form max_form_body_bytes r ≡ some form
      → r.media_type ≡ some form_media_type
      → any_repeated form.post login_parameters ≡ false
      → (login_form web realm s turn form.post r w).1.status ≡ 303
      → LoggedIn s turn r w (login_form web realm s turn form.post r w).1
  form-LoggedIn s turn form r w z parsed media single e =
      let id = get form.post "authRequestID" in
      let t = (login_info s turn.at_info id).0 in
      let (m, (client, same)) = form-redirects s turn form.post r w z e in
      let (token, cookie) = csrf_matches_sound r id (get form.post "csrf") m in
      let (after, authenticated, completes) =
        attempt-redirects t turn form.post id client w z
          (ap (λ (p : Store × Response). p.1.status) same ∙ e) in
      let whole : login_complete web realm after turn id w
          ≡ login_form web realm s turn form.post r w =
        sym completes ∙ same in
      let (secret, issued, cookies) =
        complete-redirects web realm after turn id w z
          (ap (λ (p : Store × Response). p.1.status) whole ∙ e) in
      record {
        form = form;
        parsed = parsed;
        media_type = media;
        single = single;
        token = token;
        cookie = cookie;
        after = after;
        authenticated = authenticated;
        secret = secret;
        issued = issued;
        cookies = ap (λ (p : Store × Response). p.1.cookies) (sym whole) ∙ cookies;
      }

  -- If a POST of the login form, into an empty response, is answered by the redirect, then the form
  -- was read and each of its parameters stands once, its token is not empty and is the one in the
  -- request's cookie, the user was authenticated in the store by the mode's way (by a password that
  -- matches, or by a choice where the mode is to select), and the completion secret that was issued
  -- after it is what the cookie for the callback has, while the cookie of the token is deleted.
  pub login_post-LoggedIn :
      (s : Store) (turn : Turn) (r : Request) (w : Response)
      → w.status ≡ 0
      → (login_post web realm s turn r w).1.status ≡ 303
      → LoggedIn s turn r w (login_post web realm s turn r w).1
  unfolding login_post
  login_post-LoggedIn s turn r w z e = elim (Option-cases r.media_type) [
    | inl n ↦ absurd (
        ground (
          arith,
          e,
          n,
          http_error-status "login requires application/x-www-form-urlencoded" 415 w z
              (omega arith),
        ))
    | inr (media, n) ↦ elim (text_dec media form_media_type) [
      | no q ↦ absurd (
          ground (
            arith,
            e,
            n,
            q,
            http_error-status "login requires application/x-www-form-urlencoded" 415 w z
                (omega arith),
          ))
      | yes q ↦ elim (Option-cases (parse_form max_form_body_bytes r)) [
        | inl f ↦ absurd (
            ground
              (arith, e, n, q, f, http_error-status "invalid login request" 400 w z (omega arith)))
        | inr (form, f) ↦ elim (Bool-cases (any_repeated form.post login_parameters)) [
          | inl b ↦ absurd (
              ground (
                arith,
                e,
                n,
                q,
                f,
                b,
                http_error-status "invalid login request" 400 w z (omega arith),
              ))
          | inr b ↦
              let whole : login_form web realm s turn form.post r w
                  ≡ login_post web realm s turn r w =
                ground (arith, n, q, f, b) in
              subst (λ (p : Store × Response). LoggedIn s turn r w p.1) whole
                (form-LoggedIn s turn form r w z f (n ∙ ap some q) b
                  (ap (λ (p : Store × Response). p.1.status) whole ∙ e))
        ]
      ]
    ]
  ]
