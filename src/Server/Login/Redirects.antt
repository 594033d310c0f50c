-- ===== src/Server/Login/Redirects.antt =====
-- What is done where internal/idp/server.go answers a login with the redirect.
use hoocloak.Base.{◌≡◌, refl, ◌⊎◌, inl, inr, ℕ, ◌<◌, String, [], ◌∷◌, ◌++◌, arith, Option-cases}
use hoocloak.Store.Types.{Store, Result, ok, err, Result-cases}
use hoocloak.Store.Login.{issue_completion_secret}
use hoocloak.Server.Http.{Response}
use hoocloak.Server.Http.Written.{http_error-status}
use hoocloak.Server.Realm.{Realm, Web, LoginData, completion_cookie_name, csrf_cookie_name}
use hoocloak.Server.Protocol.{deletion}
use hoocloak.Server.Login.{
  Turn, render_login, session_cookie, redirect, login_complete, login_result,
}

module _ (web : Web) (realm : Realm) where
  -- A redirect: the secret is issued, and its cookie set.
  pub complete-redirects :
      (s : Store) (turn : Turn) (id : String) (w : Response)
      → w.status ≡ 0
      → (login_complete web realm s turn id w).1.status ≡ 303
      → (secret : String) × ((issue_completion_secret web.crypto
            (turn.before_issue s)
            turn.at_issue
            turn.random
            id).1
          ≡ ok secret)
        × ((login_complete web realm s turn id w).1.cookies
            ≡ (w.cookies
                ++ session_cookie web realm
                    (completion_cookie_name web id)
                    secret
                    "/authorize/callback"
                  ∷ [])
              ++ deletion web realm (csrf_cookie_name web id) "/login" ∷ [])
  unfolding login_complete redirect
  complete-redirects s turn id w z e =
      elim (Result-cases
        (issue_completion_secret web.crypto (turn.before_issue s) turn.at_issue turn.random id).1) [
          | inl (secret, f) ↦ (secret, f, ground (arith, f, z))
          | inr (x, f) ↦ absurd (
              ground (
                arith,
                e,
                f,
                http_error-status "unable to create authorization completion" 500 w z (omega arith),
              ))
        ]

  render-status :
      (status : ℕ) (data_ : LoginData) (w : Response)
      → w.status ≡ 0
      → 0 < status
      → ((render_login web realm status data_ w).status ≡ status)
        ⊎ ((render_login web realm status data_ w).status ≡ 500)
  unfolding render_login
  render-status status data_ w z p = elim (Option-cases (web.login_page data_)) [
    | inl f ↦
        inr (ground (arith, f, http_error-status "unable to render login" 500 w z (omega arith)))
    | inr (page, f) ↦ inl (ground (arith, f, z, p))
  ]

  pub result-redirects :
      (s : Store) (result : Result (Unit {0})) (turn : Turn) (id : String) (data_ : LoginData)
      (w : Response)
      → w.status ≡ 0
      → (login_result web realm (s, result) turn id data_ w).1.status ≡ 303
      → (result ≡ ok tt)
        × (login_result web realm (s, result) turn id data_ w
            ≡ login_complete web realm s turn id w)
  unfolding login_result
  result-redirects s (ok tt) turn id data_ w z e = (refl, refl)
  result-redirects s (err x) turn id data_ w z e = absurd (
      ground (
        arith,
        e,
        render-status 401 data_ w z (omega arith),
        http_error-status "invalid or expired authorization request" 400 w z (omega arith),
      ))
