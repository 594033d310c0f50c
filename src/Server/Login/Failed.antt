-- ===== src/Server/Login/Failed.antt =====
-- How internal/idp/server.go answers a login that it does not complete.
use hoocloak.Base.{◌≡◌, refl, subst, ◌⊎◌, inl, inr, ℕ, String, arith, Bool-cases, Option-cases}
use hoocloak.Store.Types.{Store, Result, ok, err, Result-cases}
use hoocloak.Store.Login.{login_info, issue_completion_secret}
use hoocloak.Server.Http.{Values, get, Request, Response, is_form, parse_form, http_error}
use hoocloak.Server.Http.Written.{http_error-status, http_error-cookies}
use hoocloak.Server.Gates.{max_form_body_bytes}
use hoocloak.Server.Realm.{Realm, Web, LoginData}
use hoocloak.Server.Login.{
  Turn, is_invalid_credentials, login_parameters, any_repeated, render_login, redirect,
  login_complete, login_result, login_attempt, csrf_matches, login_form, login_post,
}

-- An error, and no cookie with it.
pub record Failed (w w' : Response) : Type 0 where
  pub status : (w'.status ≡ 400) ⊎ (w'.status ≡ 401) ⊎ (w'.status ≡ 415) ⊎ (w'.status ≡ 500)
  pub cookies : w'.cookies ≡ w.cookies

-- The redirect or an error.
abbrev pub Answers : Response → Response → Type 0
Answers w w' = (w'.status ≡ 303) ⊎ Failed w w'

module _ (w : Response) (z : w.status ≡ 0) where
  http_error-Answers :
      (message : String) (status : ℕ)
      → (status ≡ 400) ⊎ (status ≡ 401) ⊎ (status ≡ 415) ⊎ (status ≡ 500)
      → Answers w (http_error message status w)
  http_error-Answers message status h = inr (record {
    status = ground (arith, h, http_error-status message status w z);
    cookies = http_error-cookies message status w;
  })

  -- An `http_error` that the answer comes to.
  error_is :
      (message : String) (status : ℕ) (w' : Response)
      → (status ≡ 400) ⊎ (status ≡ 401) ⊎ (status ≡ 415) ⊎ (status ≡ 500)
      → http_error message status w ≡ w'
      → Answers w w'
  error_is message status w' h same = subst (Answers w) same (http_error-Answers message status h)

  module _ (web : Web) (realm : Realm) where
    render-Answers : (data_ : LoginData) → Answers w (render_login web realm 401 data_ w)
    unfolding render_login
    render-Answers data_ = elim (Option-cases (web.login_page data_)) [
      | inl f ↦ error_is "unable to render login" 500 _ (inr (inr (inr refl))) (ground (arith, f))
      | inr (page, f) ↦
          inr (record { status = ground (arith, f, z); cookies = ground (arith, f, z) })
    ]

    complete-Answers :
        (s : Store) (turn : Turn) (id : String) → Answers w (login_complete web realm s turn id w).1
    unfolding login_complete redirect
    complete-Answers s turn id =
        elim (Result-cases
          (issue_completion_secret web.crypto (turn.before_issue s) turn.at_issue turn.random
            id).1) [
              | inl (secret, f) ↦ inl (ground (arith, f, z))
              | inr (x, f) ↦
                  error_is "unable to create authorization completion" 500 _ (inr (inr (inr refl)))
                    (ground (arith, f))
            ]

    result-Answers :
        (s : Store) (result : Result (Unit {0})) (turn : Turn) (id : String) (data_ : LoginData)
        → Answers w (login_result web realm (s, result) turn id data_ w).1
    unfolding login_result
    result-Answers s (ok tt) turn id data_ = complete-Answers s turn id
    result-Answers s (err x) turn id data_ = elim (Bool-cases (is_invalid_credentials x)) [
      | inl y ↦ subst (Answers w) (ground (arith, y)) (render-Answers data_)
      | inr n ↦
          error_is "invalid or expired authorization request" 400 _ (inl refl) (ground (arith, n))
    ]

    attempt-Answers :
        (s : Store) (turn : Turn) (form : Values) (id client : String)
        → Answers w (login_attempt web realm s turn form id client w).1
    unfolding login_attempt
    attempt-Answers s turn form id client = result-Answers _ _ turn id _

    form-Answers :
        (s : Store) (turn : Turn) (form : Values) (r : Request)
        → Answers w (login_form web realm s turn form r w).1
    unfolding login_form
    form-Answers s turn form r =
        let id = get form "authRequestID" in
        elim (Result-cases (login_info s turn.at_info id).1) [
          | inr (x, f) ↦
              error_is "invalid or expired authorization request" 400 _ (inl refl)
                (ground (arith, f))
          | inl (client, f) ↦ elim (Bool-cases (csrf_matches web realm r id (get form "csrf"))) [
            | inr m ↦ error_is "invalid CSRF token" 400 _ (inl refl) (ground (arith, f, m))
            | inl m ↦
                subst (Answers w) (ground (arith, f, m))
                  (attempt-Answers (login_info s turn.at_info id).0 turn form id client)
          ]
        ]

-- A POST of the login form, into an empty response, is answered by the redirect, or by 400, 401,
-- 415 or 500 with no cookie set.
pub login_post-Answers :
    (web : Web) (realm : Realm) (s : Store) (turn : Turn) (r : Request) (w : Response)
    → w.status ≡ 0
    → Answers w (login_post web realm s turn r w).1
unfolding login_post
login_post-Answers web realm s turn r w z = elim (Bool-cases (is_form r.media_type)) [
  | inr n ↦
      error_is w z "login requires application/x-www-form-urlencoded" 415 _ (inr (inr (inl refl)))
        (ground (arith, n))
  | inl y ↦ elim (Option-cases (parse_form max_form_body_bytes r)) [
    | inl f ↦ error_is w z "invalid login request" 400 _ (inl refl) (ground (arith, y, f))
    | inr (form, f) ↦ elim (Bool-cases (any_repeated form.post login_parameters)) [
      | inl b ↦ error_is w z "invalid login request" 400 _ (inl refl) (ground (arith, y, f, b))
      | inr b ↦
          subst (Answers w) (ground (arith, y, f, b))
            (form-Answers w z web realm s turn form.post r)
    ]
  ]
]
