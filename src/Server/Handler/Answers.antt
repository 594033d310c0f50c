-- ===== src/Server/Handler/Answers.antt =====
-- The handler of a realm changes the store by the store's own calls.
use hoocloak.Base.{
  ◌≡◌, refl, arith, String, Bool, true, false, not, ◌||◌, Option, none, some, ◌==◌, text_dec,
  if◌then◌else◌,
}
use hoocloak.Base.Map.{lookup}
use hoocloak.Store.Types.{Time, Store, Result, ok, err}
use hoocloak.Store.Login.{consume_completion_secret}
use hoocloak.Server.Http.{Request, Response, get, blank, set_cookie, not_found}
use hoocloak.Server.Realm.{Realm, Web, completion_cookie_name}
use hoocloak.Server.Handler.{asset, route, realm_mux, realm_handler}
use hoocloak.Server.Protocol.{
  Gate, answer, forward, deletion, method_allowed, method_not_allowed, provider_endpoint_methods,
  invalid_completion, callback_gate, enter, gates, userinfo_response, protocol_gates,
}
use hoocloak.Config.Text.{has_prefix}
use hoocloak.Server.Login.{
  Turn, discovery, logged_out, security_headers, login_get, login_post, login,
}
use hoocloak.Server.Handler.Reaches.{
  quiet, Reaches, stays, Reaches-trans, Disciplined, consume-Reaches,
}
use hoocloak.Server.Handler.SignIn.{ShowsToken, post-Reaches, get-Reaches}

module _ (web : Web) (realm : Realm) (turn : Turn) (d : Disciplined web turn)
    (Permission : Type 0) where
  open web use {crypto}

  -- A call that leads to its own store.
  record Lands {A : Type 0} (s : Store) (answered : Store × A) : Type 0 where
    pub reaches : Reaches crypto Permission s answered.0

  lands : {A : Type 0} {s : Store} (p : Store × A) → Reaches crypto Permission s p.0 → Lands s p
  lands p h = record { reaches = h }

  idles : {A : Type 0} {s : Store} (a : A) → Lands s (s, a)
  idles {s} a = lands (s, a) (stays crypto Permission s)

  if-Lands :
      {A : Type 0} {s : Store} (b : Bool) (x y : Store × A)
      → Lands s x
      → Lands s y
      → Lands s (if b then x else y)
  if-Lands true x y hx hy = hx
  if-Lands false x y hx hy = hy

  if_so-Lands :
      {A : Type 0} {s : Store} (b : Bool) (x y : Store × A)
      → (b ≡ true → Lands s x)
      → Lands s y
      → Lands s (if b then x else y)
  if_so-Lands true x y hx hy = hx refl
  if_so-Lands false x y hx hy = hy

  login-Lands :
      (s : Store) (r : Request) (w : Response)
      → (ShowsToken web r → Permission)
      → r.path ≡ "/login"
      → Lands s (login web realm s turn r w)
  unfolding login
  login-Lands s r w permit path =
      let w' = security_headers web realm w in
      if-Lands (r.method == "GET") (login_get web realm s turn.at_info turn.random r w') _
        (lands _ (get-Reaches web realm turn d Permission r permit s w'))
        (if_so-Lands (r.method == "POST") (login_post web realm s turn r w')
          (s, method_not_allowed "GET, POST" w')
          (λ q. lands _ (
            post-Reaches web realm turn d Permission r permit s w' path
              (ground (arith, q, text_dec r.method "POST"))))
          (idles _))

  -- A consumption of the secret, whatever is made of its result.
  consumed-Lands :
      (s : Store) (now : Time) (id secret : String) (w : Response)
      → Lands s (
          let (s', consumed) = consume_completion_secret crypto s now id secret in
          if secret == "" then (s, invalid_completion web realm w) else elim consumed [
            | err e ↦ (s', invalid_completion web realm w)
            | ok _ ↦ (
              s',
              forward (
                  set_cookie
                    (deletion web realm (completion_cookie_name web id) "/authorize/callback")
                    w),
            )
          ])
  consumed-Lands s now id secret w = if-Lands _ _ _ (idles _) (
      lands _ (
        either (consume_completion_secret crypto s now id secret)
          (consume-Reaches crypto Permission s now id secret)))
    where
      either :
          (t : Store × Result (Unit {0}))
          → Reaches crypto Permission s t.0
          → Reaches crypto Permission s
              (elim t.1 as (λ x. Store × Gate) [
                | err e ↦ (t.0, invalid_completion web realm w)
                | ok _ ↦ (
                  t.0,
                  forward (
                      set_cookie
                        (deletion web realm (completion_cookie_name web id) "/authorize/callback")
                        w),
                )
              ]).0
      either (t, err e) h = h
      either (t, ok _) h = h

  callback-Lands :
      (s : Store) (now : Time) (r : Request) (w : Response)
      → Lands s (callback_gate web realm s now r w)
  unfolding callback_gate
  callback-Lands s now r w =
      if-Lands _ _ _ (idles _)
        (found (lookup text_dec (completion_cookie_name web (get r.query "id")) r.cookies))
    where
      found :
          (cookie : Option String)
          → Lands s (elim cookie as (λ x. Store × Gate) [
            | none ↦ (s, invalid_completion web realm w)
            | some secret ↦
                (let (s', consumed) =
                    consume_completion_secret crypto s now (get r.query "id") secret in
                  if secret == "" then (s, invalid_completion web realm w) else elim consumed [
                    | err e ↦ (s', invalid_completion web realm w)
                    | ok _ ↦ (
                      s',
                      forward (
                          set_cookie
                            (deletion web realm
                              (completion_cookie_name web (get r.query "id"))
                              "/authorize/callback")
                            w),
                    )
                  ])
          ])
      found none = idles _
      found (some secret) = consumed-Lands s now (get r.query "id") secret w

  enter-Lands :
      (s : Store) (now : Time) (r : Request) (w : Response) → Lands s (enter web realm s now r w)
  unfolding enter
  enter-Lands s now r w = if-Lands _ _ _ (callback-Lands s now r w) (idles _)

  methods-Lands :
      (s : Store) (now : Time) (r : Request) (w : Response) (methods : Option String)
      → Lands s (elim methods as (λ x. Store × Gate) [
        | none ↦ enter web realm s now r w
        | some allow ↦
            if not (method_allowed r.method allow)
            then (s, answer (method_not_allowed allow w))
            else enter web realm s now r w
      ])
  methods-Lands s now r w none = enter-Lands s now r w
  methods-Lands s now r w (some allow) = if-Lands _ _ _ (idles _) (enter-Lands s now r w)

  gates-Lands :
      (s : Store) (now : Time) (r : Request) (w : Response) → Lands s (gates web realm s now r w)
  unfolding gates
  gates-Lands s now r w =
      if-Lands _ _ _ (idles _) (methods-Lands s now r _ (provider_endpoint_methods r.path))

  served-Lands :
      (s : Store) (r : Request) (t : Store × Gate)
      → Lands s t
      → Lands s (elim t.1 as (λ x. Store × Response) [
        | answer w' ↦ (t.0, w')
        | forward w' ↦
            if r.path == "/userinfo"
            then userinfo_response web realm t.0 r w'
            else web.provider t.0 r w'
      ])
  unfolding userinfo_response
  served-Lands s r (t, answer w') h = lands _ h.reaches
  served-Lands s r (t, forward w') h =
      if-Lands _ _ _
        (lands _ (
          Reaches-trans crypto Permission h.reaches
            (quiet crypto Permission (d.provider t r blank))))
        (lands _
          (Reaches-trans crypto Permission h.reaches (quiet crypto Permission (d.provider t r w'))))

  protocol-Lands :
      (s : Store) (now : Time) (r : Request) (w : Response)
      → Lands s (protocol_gates web realm s now r w)
  unfolding protocol_gates
  protocol-Lands s now r w = served-Lands s r (gates web realm s now r w) (gates-Lands s now r w)

  route-Lands :
      (s : Store) (r : Request) (w : Response)
      → (ShowsToken web r → Permission)
      → Lands s (route web realm s turn r w)
  unfolding route
  route-Lands s r w permit =
      if-Lands (r.path == "/.well-known/openid-configuration") (s, discovery web realm r w) _
        (idles _)
        (if-Lands (has_prefix "/assets/" r.path) (s, asset web realm r w) _ (idles _)
          (if-Lands (r.path == "/ready" || r.path == "/healthz") (s, not_found w) _ (idles _)
            (if_so-Lands (r.path == "/login") (login web realm s turn r w) _
              (λ q. login-Lands s r w permit (ground (arith, q, text_dec r.path "/login")))
              (if-Lands (r.path == "/logged-out") (s, logged_out web realm r w) _ (idles _)
                (protocol-Lands s turn.at_info r w)))))

  mux-Lands :
      (s : Store) (r : Request) (w : Response) (redirected : Option Response)
      → (ShowsToken web r → Permission)
      → Lands s (elim redirected as (λ x. Store × Response) [
        | some w' ↦ (s, w')
        | none ↦ route web realm s turn r w
      ])
  mux-Lands s r w none permit = route-Lands s r w permit
  mux-Lands s r w (some w') permit = idles w'

  handler-Lands :
      (s : Store) (r : Request) (w : Response)
      → (ShowsToken web r → Permission)
      → Lands s (realm_handler web realm s turn r w)
  unfolding realm_handler realm_mux
  handler-Lands s r w permit =
      let (v, goes) = web.cors realm.origins r w in
      if-Lands _ _ _ (idles (not_found w))
        (if-Lands goes _ (s, v) (mux-Lands s r v (web.mux_redirect r v) permit) (idles v))

-- Whatever a request is, the store that the handler leaves is reached by calls of the store with
-- new identifiers, and somebody is signed in only for a login that shows its token, if the provider
-- and the other goroutines change the store by such calls.
pub realm_handler-Reaches :
    (web : Web) (realm : Realm) (turn : Turn) (d : Disciplined web turn) (s : Store) (r : Request)
    (w : Response)
    → Reaches web.crypto (ShowsToken web r) s (realm_handler web realm s turn r w).0
realm_handler-Reaches web realm turn d s r w =
    (handler-Lands web realm turn d (ShowsToken web r) s r w (λ shown. shown)).reaches
