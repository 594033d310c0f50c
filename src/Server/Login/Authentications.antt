-- ===== src/Server/Login/Authentications.antt =====
-- How a user is authenticated at the login of internal/idp/server.go.
use hoocloak.Base.{
  ◌≡◌, refl, ap, ◌∙◌, sym, subst, inl, inr, ◌≢◌, String, some, arith, text_dec, Option-cases,
}
use hoocloak.Base.Map.{lookup}
use hoocloak.Config.{User}
use hoocloak.Store.Types.{Time, Store, Result, ok}
use hoocloak.Store.Prune.{prune}
use hoocloak.Store.Login.{complete_authentication, select_identity, authenticate}
use hoocloak.Store.Login.Authenticated.{
  Authenticated, authenticate-Authenticated, Completed, complete_authentication-Completed,
}
use hoocloak.Server.Http.{Values, get}
use hoocloak.Server.Realm.{Realm, Web}
use hoocloak.Server.Login.{Turn, authentication, login_mode_select}

module _ (web : Web) (realm : Realm) where
  select_identity-Completed :
      (s : Store) (now : Time) (id user_id : String)
      → (select_identity s now id user_id).1 ≡ ok tt
      → (user : User) × (lookup text_dec user_id (prune now s).users ≡ some user)
        × Completed (prune now s) (select_identity s now id user_id).0 id user now "dev-select"
  unfolding select_identity
  select_identity-Completed s now id user_id e =
      elim (Option-cases (lookup text_dec user_id (prune now s).users)) [
        | inl f ↦ absurd (ground (arith, e, f))
        | inr (user, f) ↦
            let same : select_identity s now id user_id
                ≡ complete_authentication (prune now s) id user now "dev-select" =
              rw (f, select_identity) refl in
            (
              user,
              f,
              subst
                  (λ (t : Store × Result (Unit {0})).
                    Completed (prune now s) t.0 id user now "dev-select")
                  (sym same)
                  (complete_authentication-Completed (prune now s) id user now "dev-select"
                    (ap (λ (t : Store × Result (Unit {0})). t.1) (sym same) ∙ e)),
            )
      ]

  -- The login that the mode asks for has succeeded.
  pub data IsAuthentication (s s' : Store) (turn : Turn) (id : String) (form : Values)
      (mode : String) : Type 0 where
    by_password :
        mode ≢ login_mode_select
        → Authenticated web.crypto
            (prune turn.at_check (turn.before_check s))
            (prune turn.at_completion
              (turn.during_check (prune turn.at_check (turn.before_check s))))
            s'
            turn.slots
            id
            (get form "username")
            (get form "password")
            turn.at_completion
        → IsAuthentication s s' turn id form mode
    by_selection :
        mode ≡ login_mode_select
        → (user : User)
        → lookup text_dec (get form "identity") (prune turn.at_check (turn.before_check s)).users
          ≡ some user
        → Completed
            (prune turn.at_check (turn.before_check s))
            s'
            id
            user
            turn.at_check
            "dev-select"
        → IsAuthentication s s' turn id form mode

  pub authentication-IsAuthentication :
      (s : Store) (turn : Turn) (form : Values) (id mode : String)
      → (authentication web realm s turn form id mode).1 ≡ ok tt
      → IsAuthentication s (authentication web realm s turn form id mode).0 turn id form mode
  authentication-IsAuthentication s turn form id mode e = elim (text_dec mode login_mode_select) [
    | yes m ↦
        let same : authentication web realm s turn form id mode
            ≡ select_identity (turn.before_check s) turn.at_check id (get form "identity") =
          unfold authentication in ground (arith, m) in
        let (user, found, completed) =
          select_identity-Completed (turn.before_check s) turn.at_check id (get form "identity")
            (ap (λ (t : Store × Result (Unit {0})). t.1) (sym same) ∙ e) in
        by_selection m user found (
          subst
            (λ (t : Store × Result (Unit {0})).
              Completed (prune turn.at_check (turn.before_check s)) t.0 id user turn.at_check
                "dev-select")
            (sym same) completed)
    | no m ↦
        let same : authentication web realm s turn form id mode
            ≡ authenticate web.crypto (turn.before_check s) turn.during_check turn.slots
                turn.at_check turn.at_completion id (get form "username") (get form "password") =
          unfold authentication in ground (arith, m) in
        by_password m (
          subst
            (λ (t : Store × Result (Unit {0})).
              Authenticated web.crypto (prune turn.at_check (turn.before_check s))
                (prune turn.at_completion
                  (turn.during_check (prune turn.at_check (turn.before_check s))))
                t.0 turn.slots id (get form "username") (get form "password") turn.at_completion)
            (sym same)
            (authenticate-Authenticated web.crypto (turn.before_check s) turn.during_check
              turn.slots turn.at_check turn.at_completion id (get form "username")
              (get form "password") (ap (λ (t : Store × Result (Unit {0})). t.1) (sym same) ∙ e)))
  ]
