-- ===== src/Server/Protocol/Forwarded.antt =====
-- What holds of a request that internal/idp/server.go hands to the provider.
use hoocloak.Base.{
  ◌≡◌, refl, sym, ap, ◌∙◌, subst, ◌≢◌, inl, inr, String, true, none, some, arith, text_dec,
  Option-cases,
}
use hoocloak.Base.Map.{lookup}
use text.Mathlib.TextEquality.{eq_iff}
use hoocloak.Store.Types.{Time, Store, ok, Result-cases}
use hoocloak.Store.Login.{consume_completion_secret}
use hoocloak.Server.Http.{get, Request, Response}
use hoocloak.Server.Gates.{authorize_gate, token_gate, mutation_gate}
use hoocloak.Server.Gates.Exact.{AuthorizeAdmitted, authorize_gate-exact}
use hoocloak.Server.Gates.Clients.{
  TokenAdmitted, token_gate-exact, MutationAdmitted, mutation_gate-exact,
}
use hoocloak.Server.Realm.{Realm, Web, completion_cookie_name}
use hoocloak.Server.Protocol.{
  callback_gate, token_headers, forward, provider_endpoint_methods, method_allowed, path_gate,
  refuse, enter, gates,
}

module _ (web : Web) (realm : Realm) (s : Store) (now : Time) (r : Request) (w w' : Response) where
  gates-enter :
      (gates web realm s now r w).1 ≡ forward w'
      → (r.path ≢ "/device_authorization")
        × ((allow : String)
            → provider_endpoint_methods r.path ≡ some allow
            → method_allowed r.method allow ≡ true)
        × ((enter web realm s now r (token_headers r w)).1 ≡ forward w')
  unfolding gates
  gates-enter e = elim (text_dec r.path "/device_authorization") [
    | yes d ↦ absurd (ground (arith, e, d))
    | no d ↦ elim (Option-cases (provider_endpoint_methods r.path)) [
      | inl f ↦ (d, λ allow q. ground (arith, q, f), ground (arith, e, f, d))
      | inr (allow, f) ↦ (d, λ allow' q. ground (arith, e, q, f, d), ground (arith, e, f, d))
    ]
  ]

  enter-path_gate :
      (enter web realm s now r w).1 ≡ forward w'
      → r.path ≢ "/authorize/callback"
      → path_gate r.path s r ≡ none
  unfolding enter refuse
  enter-path_gate e n = elim (Option-cases (path_gate r.path s r)) [
    | inl f ↦ f
    | inr (x, f) ↦ absurd (ground (arith, e, n, f))
  ]

-- The check that the path selects has passed.
module _ (s : Store) (r : Request) (e : path_gate r.path s r ≡ none) where
  path_gate_at : (path : String) → r.path ≡ path → path_gate path s r ≡ none
  path_gate_at path p = sym (ap (λ x. path_gate x s r) p) ∙ e

  path_gate-authorize : r.path ≡ "/authorize" → authorize_gate s r ≡ none
  unfolding path_gate text_dec
  path_gate-authorize p = path_gate_at "/authorize" p

  path_gate-token : r.path ≡ "/oauth/token" → token_gate r ≡ none
  unfolding path_gate text_dec
  path_gate-token p = path_gate_at "/oauth/token" p

  path_gate-introspect : r.path ≡ "/oauth/introspect" → mutation_gate s r ≡ none
  unfolding path_gate text_dec
  path_gate-introspect p = path_gate_at "/oauth/introspect" p

  path_gate-revoke : r.path ≡ "/revoke" → mutation_gate s r ≡ none
  unfolding path_gate text_dec
  path_gate-revoke p = path_gate_at "/revoke" p

-- The endpoints that take a POST alone.
method_is_post :
    (r : Request) (path : String)
    → ((allow : String)
        → provider_endpoint_methods r.path ≡ some allow
        → method_allowed r.method allow ≡ true)
    → r.path ≡ path
    → provider_endpoint_methods path ≡ some "POST"
    → r.method ≡ "POST"
unfolding method_allowed
method_is_post r path h p q =
    ground (arith, h "POST" (ap provider_endpoint_methods p ∙ q), text_dec r.method "POST")

module _ (web : Web) (realm : Realm) where
  open web use {crypto}

  -- The request names an authorization request, and its cookie for that one holds the secret.
  pub record IsCallback (s : Store) (now : Time) (r : Request) : Type 0 where
    pub secret : String
    pub named : ◌≢◌ {A = String} (get r.query "id") ""
    pub cookie :
        lookup text_dec (completion_cookie_name web (get r.query "id")) r.cookies ≡ some secret
    pub held : ◌≢◌ {A = String} secret ""
    pub consumed : (consume_completion_secret crypto s now (get r.query "id") secret).1 ≡ ok tt

  callback_gate-IsCallback :
      (s : Store) (now : Time) (r : Request) (w w' : Response)
      → (callback_gate web realm s now r w).1 ≡ forward w'
      → IsCallback s now r
        × ((secret : String)
            → lookup text_dec (completion_cookie_name web (get r.query "id")) r.cookies
              ≡ some secret
            → (callback_gate web realm s now r w).0
              ≡ (consume_completion_secret crypto s now (get r.query "id") secret).0)
  unfolding callback_gate
  callback_gate-IsCallback s now r w w' e =
      let id = get r.query "id" in
      elim (text_dec id "") [
        | yes q ↦ absurd (ground (arith, e, q))
        | no q ↦ elim (Option-cases (lookup text_dec (completion_cookie_name web id) r.cookies)) [
          | inl f ↦ absurd (ground (arith, e, q, f))
          | inr (secret, f) ↦ elim (text_dec secret "") [
            | yes p ↦ absurd (ground (arith, e, q, f, p))
            | no p ↦ elim (Result-cases (consume_completion_secret crypto s now id secret).1) [
              | inr (x, g) ↦ absurd (ground (arith, e, q, f, p, g))
              | inl (tt, g) ↦ (
                record { secret = secret; named = q; cookie = f; held = p; consumed = g },
                λ secret' f'. ground (arith, e, q, f, f', p, g),
              )
            ]
          ]
        ]
      ]

  -- What holds of a request that the gates let through.
  pub record Forwarded (s : Store) (now : Time) (r : Request) : Type 0 where
    pub known : ◌≢◌ {A = String} r.path "/device_authorization"
    pub method :
        (allow : String)
        → provider_endpoint_methods r.path ≡ some allow
        → method_allowed r.method allow ≡ true
    pub authorize : r.path ≡ "/authorize" → AuthorizeAdmitted s r
    pub callback : r.path ≡ "/authorize/callback" → IsCallback s now r
    pub token : r.path ≡ "/oauth/token" → TokenAdmitted r
    pub introspect : r.path ≡ "/oauth/introspect" → MutationAdmitted s r
    pub revoke : r.path ≡ "/revoke" → MutationAdmitted s r

  module _ (s : Store) (now : Time) (r : Request) (w w' : Response)
      (e : (gates web realm s now r w).1 ≡ forward w') where
    entered : (enter web realm s now r (token_headers r w)).1 ≡ forward w'
    entered = (gates-enter web realm s now r w w' e).2

    passed :
        (path : String) → r.path ≡ path → path ≢ "/authorize/callback" → path_gate r.path s r ≡ none
    passed path p n =
        enter-path_gate web realm s now r (token_headers r w) w' entered
          (subst (λ x. x ≢ "/authorize/callback") (sym p) n)

    entered-callback :
        r.path ≡ "/authorize/callback"
        → (callback_gate web realm s now r (token_headers r w)).1 ≡ forward w'
    unfolding enter
    entered-callback p = ground (arith, entered, p)

    post :
        (path : String)
        → r.path ≡ path
        → provider_endpoint_methods path ≡ some "POST"
        → r.method ≡ "POST"
    post path p q = method_is_post r path (gates-enter web realm s now r w w' e).1 p q

    -- A request that the gates hand to the provider is not for the device endpoint and has a method
    -- that its path allows; and it is what the gate of its path asks for: an admitted
    -- authorization, token, introspection or revocation request, or a callback with the cookie of a
    -- completion secret that the store has accepted.
    pub gates-Forwarded : Forwarded s now r
    unfolding provider_endpoint_methods text_dec
    gates-Forwarded = record {
      known = (gates-enter web realm s now r w w' e).0;
      method = (gates-enter web realm s now r w w' e).1;
      authorize = λ p. (authorize_gate-exact s r).0 (
          path_gate-authorize s r
            (passed _ p (ground (arith, eq_iff "/authorize" "/authorize/callback"))) p);
      callback = λ p. (callback_gate-IsCallback s now r _ w' (entered-callback p)).0;
      token = λ p. (token_gate-exact r (post _ p refl)).0 (
          path_gate-token s r
            (passed _ p (ground (arith, eq_iff "/oauth/token" "/authorize/callback"))) p);
      introspect = λ p. (mutation_gate-exact s r).0 (
          path_gate-introspect s r
            (passed _ p (ground (arith, eq_iff "/oauth/introspect" "/authorize/callback"))) p);
      revoke = λ p. (mutation_gate-exact s r).0 (
          path_gate-revoke s r (passed _ p (ground (arith, eq_iff "/revoke" "/authorize/callback")))
            p);
    }
