-- ===== src/Server/Login/Completes.antt =====
-- The redirect after a login leads to the provider.
use hoocloak.Base.{
  ◌≡◌, refl, ap, ◌∙◌, sym, subst, inl, inr, ◌≢◌, ◌<◌, String, Option, some, arith, text_dec,
  Option-cases,
}
use hoocloak.Base.Map.{lookup}
use hoocloak.Store.Types.{Time, Ref, Store, zero_hash, ok, Result-cases}
use hoocloak.Store.Prune.{prune}
use hoocloak.Store.Prune.Schedule.{IsScheduled}
use hoocloak.Store.Login.{issue_completion_secret, consume_completion_secret}
use hoocloak.Store.Login.Secrets.{consume_completion_secret-issue_completion_secret}
use hoocloak.Server.Http.{get, Request, Response, set_cookie}
use hoocloak.Server.Realm.{Realm, Web, completion_cookie_name}
use hoocloak.Server.Protocol.{
  deletion, Gate, answer, forward, callback_gate, enter, gates, protocol_gates, token_headers,
  provider_endpoint_methods, method_allowed,
}
use hoocloak.Server.Login.Redirects.{complete-redirects}
use hoocloak.Server.Login.{Turn, login_complete}

module _ (web : Web) (realm : Realm) where
  open web use {crypto, provider}

  -- The browser follows the redirect: a GET of the callback with the cookie that was set.
  pub record Follows (r : Request) (id secret : String) : Type 0 where
    pub path : r.path ≡ "/authorize/callback"
    pub method : r.method ≡ "GET"
    pub query : get r.query "id" ≡ id
    pub cookie : lookup text_dec (completion_cookie_name web id) r.cookies ≡ some secret

  abbrev pub consumed : Store → Time → String → String → Store
  consumed s now id secret = (consume_completion_secret crypto s now id secret).0

  abbrev pub cleared : Response → String → Response
  cleared v id =
      set_cookie (deletion web realm (completion_cookie_name web id) "/authorize/callback") v

  module _ (s : Store) (now : Time) (r : Request) (v : Response) (id secret : String)
      (f : Follows r id secret) where
    callback_gate-forward :
        ◌≢◌ {A = String} id ""
        → ◌≢◌ {A = String} secret ""
        → (consume_completion_secret crypto s now id secret).1 ≡ ok tt
        → callback_gate web realm s now r v ≡ (consumed s now id secret, forward (cleared v id))
    unfolding callback_gate
    callback_gate-forward n m e = ground (arith, n, m, e, f.query, f.cookie)

  -- The gates at the path and the method of a callback.
  GoesOn : Store → Time → Request → Response → String → String → Type 0
  GoesOn s now r v path method =
      let r' = record r { path = path; method = method } in
      protocol_gates web realm s now r' v ≡ (
        let (s', gate) = callback_gate web realm s now r' v in
        elim gate [ answer v' ↦ (s', v') | forward v' ↦ provider s' r' v' ])

  literal-GoesOn :
      (s : Store) (now : Time) (r : Request) (v : Response)
      → GoesOn s now r v "/authorize/callback" "GET"
  unfolding GoesOn protocol_gates gates enter provider_endpoint_methods method_allowed text_dec
      token_headers
  literal-GoesOn s now r v = refl

  module _ (s : Store) (now : Time) (r : Request) (v : Response) (id secret : String)
      (f : Follows r id secret) where
    protocol_gates-provider :
        ◌≢◌ {A = String} id ""
        → ◌≢◌ {A = String} secret ""
        → (consume_completion_secret crypto s now id secret).1 ≡ ok tt
        → protocol_gates web realm s now r v ≡ provider (consumed s now id secret) r (cleared v id)
    unfolding GoesOn
    protocol_gates-provider n m e =
        let goes : GoesOn s now r v r.path r.method =
          subst (λ x. GoesOn s now r v x r.method) (sym f.path)
            (subst (GoesOn s now r v "/authorize/callback") (sym f.method)
              (literal-GoesOn s now r v)) in
        goes
        ∙ ap
            (λ (t : Store × Gate). elim t.1 as (λ x. Store × Response) [
              | answer v' ↦ (t.0, v')
              | forward v' ↦ provider t.0 r v'
            ])
            (callback_gate-forward s now r v id secret f n m e)

  issued_is_random :
      (s : Store) (now : Time) (random : Option String) (id secret : String)
      → (issue_completion_secret crypto s now random id).1 ≡ ok secret
      → random ≡ some secret
  unfolding issue_completion_secret
  issued_is_random s now random id secret e =
      elim (Option-cases (lookup text_dec id (prune now s).auth_requests)) [
        | inl f ↦ absurd (ground (arith, e, f))
        | inr (p, f) ↦ ground (arith, e, f)
      ]

  pub login_complete-store :
      (s : Store) (turn : Turn) (id : String) (w : Response)
      → (login_complete web realm s turn id w).0
        ≡ (issue_completion_secret crypto (turn.before_issue s) turn.at_issue turn.random id).0
  unfolding login_complete
  login_complete-store s turn id w =
      elim (Result-cases
        (issue_completion_secret crypto (turn.before_issue s) turn.at_issue turn.random id).1) [
          | inl (secret, f) ↦ ground (arith, f)
          | inr (x, f) ↦ ground (arith, f)
        ]

  -- If a login is completed with the redirect, with a random secret that is not empty and not
  -- hashed to zeros, for a request that has an ID and is pending in a rightly scheduled store, then
  -- a GET of the callback with that secret's cookie, before the request expires, reaches the
  -- provider, with the secret consumed and its cookie deleted.
  pub login_complete-reaches :
      (s : Store) (turn : Turn) (id secret : String) (p : Ref) (w v : Response) (later : Time)
      (r : Request)
      → w.status ≡ 0
      → (login_complete web realm s turn id w).1.status ≡ 303
      → turn.random ≡ some secret
      → IsScheduled (turn.before_issue s)
      → lookup text_dec id (turn.before_issue s).auth_requests ≡ some p
      → later < ((turn.before_issue s).heap p).expires
      → crypto.sum256 secret ≢ zero_hash
      → ◌≢◌ {A = String} id ""
      → ◌≢◌ {A = String} secret ""
      → Follows r id secret
      → let s' = (login_complete web realm s turn id w).0 in
        protocol_gates web realm s' later r v
        ≡ provider (consumed s' later id secret) r (cleared v id)
  login_complete-reaches s turn id secret p w v later r z e random h found l nonzero n m f =
      let t = turn.before_issue s in
      let (secret', issued, _) = complete-redirects web realm s turn id w z e in
      let same : turn.random ≡ some secret' =
        issued_is_random t turn.at_issue turn.random id secret' issued in
      let given : (issue_completion_secret crypto t turn.at_issue (some secret) id).1 ≡ ok secret =
        ground (arith, issued, same, random) in
      let accepted =
        consume_completion_secret-issue_completion_secret crypto t turn.at_issue later id secret p h
          nonzero given found l in
      protocol_gates-provider _ later r v id secret f n m (
        ap (λ (x : Store). (consume_completion_secret crypto x later id secret).1)
          (login_complete-store s turn id w
            ∙ ap (λ x. (issue_completion_secret crypto t turn.at_issue x id).0) random)
        ∙ accepted)
