-- ===== src/Server/Handler/SignIn.antt =====
-- The login handler changes the store by the store's own calls, and signs somebody in only where
-- the form's token is the one in the cookie.
use hoocloak.Base.{
  ◌≡◌, ◌≢◌, sym, subst, inl, inr, some, String, arith, text_dec, Bool-cases, Option-cases,
}
use hoocloak.Store.Types.{Store, Result, ok, err, Result-cases}
use hoocloak.Store.Login.{login_info}
use hoocloak.Server.Http.{Request, Response, Values, Form, get, is_form, parse_form}
use hoocloak.Base.Map.{lookup}
use hoocloak.Server.Login.LoggedIn.{csrf_matches_sound}
use hoocloak.Server.Gates.{max_form_body_bytes}
use hoocloak.Server.Realm.{Realm, Web, LoginData, csrf_cookie_name}
use hoocloak.Server.Login.Completes.{login_complete-store}
use hoocloak.Server.Login.{
  Turn, authentication, retry_data, login_mode_select, login_parameters, any_repeated,
  login_page_data, login_get, login_complete, login_result, login_attempt, csrf_matches, login_form,
  login_post,
}
use hoocloak.Server.Handler.Reaches.{
  permits, Reaches, stays, Reaches-trans, Disciplined, login_info-Reaches, select_identity-Reaches,
  issue-Reaches, authenticate-Reaches,
}

-- The request is a login that has the token of its cookie in its form.
pub record ShowsToken (web : Web) (r : Request) : Type 0 where
  pub path : r.path ≡ "/login"
  pub method : r.method ≡ "POST"
  pub form : Form
  pub parsed : parse_form max_form_body_bytes r ≡ some form
  pub token : ◌≢◌ {A = String} (get form.post "csrf") ""
  pub cookie :
      lookup text_dec (csrf_cookie_name web (get form.post "authRequestID")) r.cookies
      ≡ some (get form.post "csrf")

module _ (web : Web) (realm : Realm) (turn : Turn) (d : Disciplined web turn) (Permission : Type 0)
    (p : Permission) where
  open web use {crypto}

  complete-Reaches :
      (s : Store) (id : String) (w : Response)
      → Reaches crypto Permission s (login_complete web realm s turn id w).0
  complete-Reaches s id w =
      subst (Reaches crypto Permission s) (sym (login_complete-store web realm s turn id w)) (
        Reaches-trans crypto Permission (permits crypto Permission p (d.before_issue s))
          (issue-Reaches crypto Permission (turn.before_issue s) turn.at_issue turn.random id p))

  result-Reaches :
      (s : Store) (result : Result (Unit {0})) (id : String) (data_ : LoginData) (w : Response)
      → Reaches crypto Permission s (login_result web realm (s, result) turn id data_ w).0
  unfolding login_result
  result-Reaches s (ok u) id data_ w = complete-Reaches s id w
  result-Reaches s (err x) id data_ w = stays crypto Permission s

  authentication-Reaches :
      (s : Store) (form : Values) (id mode : String)
      → Reaches crypto Permission s (authentication web realm s turn form id mode).0
  unfolding authentication
  authentication-Reaches s form id mode = elim (text_dec mode login_mode_select) [
    | yes m ↦ subst (Reaches crypto Permission s) (ground (arith, m)) (
        Reaches-trans crypto Permission (permits crypto Permission p (d.before_check s)) (
          select_identity-Reaches crypto Permission (turn.before_check s) turn.at_check id
            (get form "identity") p))
    | no m ↦ subst (Reaches crypto Permission s) (ground (arith, m)) (
        Reaches-trans crypto Permission (permits crypto Permission p (d.before_check s)) (
          authenticate-Reaches crypto Permission (turn.before_check s) turn.during_check turn.slots
            turn.at_check turn.at_completion id (get form "username") (get form "password")
            d.during_check p))
  ]

  attempt-Reaches :
      (s : Store) (form : Values) (id client : String) (w : Response)
      → Reaches crypto Permission s (login_attempt web realm s turn form id client w).0
  unfolding login_attempt
  attempt-Reaches s form id client w =
      let data_ = login_page_data web realm id client (get form "csrf") in
      Reaches-trans crypto Permission (authentication-Reaches s form id data_.mode)
        (result-Reaches _ _ id (retry_data web realm form data_) w)

module _ (web : Web) (realm : Realm) (turn : Turn) (d : Disciplined web turn) (Permission : Type 0)
    (r : Request) (permit : ShowsToken web r → Permission) where
  open web use {crypto}

  form-Reaches :
      (s : Store) (form : Form) (w : Response)
      → r.path ≡ "/login"
      → r.method ≡ "POST"
      → parse_form max_form_body_bytes r ≡ some form
      → Reaches crypto Permission s (login_form web realm s turn form.post r w).0
  unfolding login_form
  form-Reaches s form w path method parsed =
      let id = get form.post "authRequestID" in
      let first = login_info-Reaches crypto Permission s turn.at_info id in
      elim (Result-cases (login_info s turn.at_info id).1) [
        | inr (x, f) ↦ subst (Reaches crypto Permission s) (ground (arith, f)) first
        | inl (client, f) ↦ elim (Bool-cases (csrf_matches web realm r id (get form.post "csrf"))) [
          | inr m ↦ subst (Reaches crypto Permission s) (ground (arith, f, m)) first
          | inl m ↦
              let (token, cookie) = csrf_matches_sound web realm r id (get form.post "csrf") m in
              let shown : ShowsToken web r = record {
                path = path;
                method = method;
                form = form;
                parsed = parsed;
                token = token;
                cookie = cookie;
              } in
              subst (Reaches crypto Permission s) (ground (arith, f, m)) (
                Reaches-trans crypto Permission first (
                  attempt-Reaches web realm turn d Permission (permit shown)
                    (login_info s turn.at_info id).0 form.post id client w))
        ]
      ]

  pub post-Reaches :
      (s : Store) (w : Response)
      → r.path ≡ "/login"
      → r.method ≡ "POST"
      → Reaches crypto Permission s (login_post web realm s turn r w).0
  unfolding login_post
  post-Reaches s w path method = elim (Bool-cases (is_form r.media_type)) [
    | inr n ↦ subst (Reaches crypto Permission s) (ground (arith, n)) (stays crypto Permission s)
    | inl y ↦ elim (Option-cases (parse_form max_form_body_bytes r)) [
      | inl f ↦
          subst (Reaches crypto Permission s) (ground (arith, y, f)) (stays crypto Permission s)
      | inr (form, f) ↦ elim (Bool-cases (any_repeated form.post login_parameters)) [
        | inl b ↦
            subst (Reaches crypto Permission s) (ground (arith, y, f, b))
              (stays crypto Permission s)
        | inr b ↦
            subst (Reaches crypto Permission s) (ground (arith, y, f, b))
              (form-Reaches s form w path method f)
      ]
    ]
  ]

  pub get-Reaches :
      (s : Store) (w : Response)
      → Reaches crypto Permission s (login_get web realm s turn.at_info turn.random r w).0
  unfolding login_get
  get-Reaches s w =
      let id = get r.query "authRequestID" in
      let first = login_info-Reaches crypto Permission s turn.at_info id in
      elim (Result-cases (login_info s turn.at_info id).1) [
        | inr (x, f) ↦ subst (Reaches crypto Permission s) (ground (arith, f)) first
        | inl (client, f) ↦ elim (Option-cases turn.random) [
          | inl g ↦ subst (Reaches crypto Permission s) (ground (arith, f, g)) first
          | inr (csrf, g) ↦ subst (Reaches crypto Permission s) (ground (arith, f, g)) first
        ]
      ]
