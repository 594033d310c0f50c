-- ===== src/Server/Protocol/Answered.antt =====
-- How internal/idp/server.go answers the requests that it does not hand to the provider.
use text.Mathlib.TextEquality.{eq_iff}
use hoocloak.Base.{
  ◌≡◌, refl, ◌∙◌, ◌⊎◌, inl, inr, String, List, [], ◌∷◌, Bool, true, false, Option, none, some,
  if◌then◌else◌, arith, text_dec, Bool-cases, Option-cases, ◌then◌, fails_if,
}
use hoocloak.Base.Map.{lookup}
use hoocloak.Store.Types.{Time, Store, Result-cases}
use hoocloak.Store.Login.{consume_completion_secret}
use hoocloak.Client.{Client}
use hoocloak.Config.{ClientConfig}
use hoocloak.Server.Http.{
  Values, Form, Request, Response, Refusal, Chunk, basic_challenge, invalid_request, invalid_scope,
  basic_required, oauth_error, set_header, not_found, get,
}
use hoocloak.Server.Http.Written.{
  http_error-status, oauth_error-status, lookup-set_header, lookup-http_error, write_chunk-headers,
}
use hoocloak.Server.Gates.{
  reject_repeated_form_parameters, check_lengths, check_scopes, check_authorization, unreadable,
  check_client_authorization, authorize_gate, reject_fields, check_basic, check_grant, token_gate,
  mutation_client_authentication_gate, mutation_gate, userinfo_gate, end_session_gate,
}
use hoocloak.Server.Realm.{Realm, Web, completion_cookie_name}
use hoocloak.Server.Protocol.{
  answer, provider_endpoint_methods, method_allowed, method_not_allowed, path_gate, refuse,
  token_headers, callback_gate, enter, gates,
}

-- The error is the request's, or the client's with a challenge.
record IsDenial (checked : Option Refusal) : Type 0 where
  pub denied :
      (e : Refusal)
      → checked ≡ some e
      → ((e.status ≡ 400) × (e.basic ≡ false)) ⊎ ((e.status ≡ 401) × (e.basic ≡ true))

pass-IsDenial : IsDenial none
pass-IsDenial = record { denied = λ e q. absurd (ground (arith, q)) }

bad-IsDenial : (d : String) → IsDenial (some (invalid_request d))
bad-IsDenial d = record { denied = λ e q. ground (arith, q) }

then-IsDenial : (a b : Option Refusal) → IsDenial a → IsDenial b → IsDenial (a then b)
unfolding ◌then◌
then-IsDenial none b ha hb = hb
then-IsDenial (some e) b ha hb = ha

if-IsDenial :
    (b : Bool) (x y : Option Refusal) → IsDenial x → IsDenial y → IsDenial (if b then x else y)
if-IsDenial true x y hx hy = hx
if-IsDenial false x y hx hy = hy

request-IsDenial : (b : Bool) (d : String) → IsDenial (fails_if b (invalid_request d))
request-IsDenial b d = record { denied = λ e q. ground (arith, q) }

scope-IsDenial : (b : Bool) (d : String) → IsDenial (fails_if b (invalid_scope d))
scope-IsDenial b d = record { denied = λ e q. ground (arith, q) }

basic-IsDenial : (b : Bool) → IsDenial (fails_if b basic_required)
basic-IsDenial b = record { denied = λ e q. ground (arith, q) }

repeated-IsDenial :
    (form : Values) (ps : List String) → IsDenial (reject_repeated_form_parameters form ps)
unfolding reject_repeated_form_parameters
repeated-IsDenial form [] = pass-IsDenial
repeated-IsDenial form (p ∷ ps) =
    then-IsDenial _ _ (request-IsDenial _ _) (repeated-IsDenial form ps)

lengths-IsDenial : (form : Values) (fs : List String) → IsDenial (check_lengths form fs)
unfolding check_lengths
lengths-IsDenial form [] = pass-IsDenial
lengths-IsDenial form (f ∷ fs) = then-IsDenial _ _ (request-IsDenial _ _) (lengths-IsDenial form fs)

scopes-IsDenial : (c : ClientConfig) (xs : List String) → IsDenial (check_scopes c xs)
unfolding check_scopes
scopes-IsDenial c [] = pass-IsDenial
scopes-IsDenial c (x ∷ xs) = then-IsDenial _ _ (scope-IsDenial _ _) (scopes-IsDenial c xs)

fields-IsDenial : (form : Values) (fs : List String) → IsDenial (reject_fields form fs)
unfolding reject_fields
fields-IsDenial form [] = pass-IsDenial
fields-IsDenial form (f ∷ fs) = then-IsDenial _ _ (basic-IsDenial _) (fields-IsDenial form fs)

authorization-IsDenial : (c : ClientConfig) (form : Values) → IsDenial (check_authorization c form)
unfolding check_authorization
authorization-IsDenial c form =
    search (then-IsDenial, request-IsDenial, scope-IsDenial, scopes-IsDenial) depth 20

client-IsDenial :
    (found : Option Client) (form : Values) → IsDenial (check_client_authorization found form)
unfolding check_client_authorization
client-IsDenial none form = pass-IsDenial
client-IsDenial (some client) form =
    if-IsDenial _ _ _ (authorization-IsDenial client.config form) pass-IsDenial

check_basic-IsDenial : (basic : Option (String × String)) → IsDenial (check_basic basic)
unfolding check_basic
check_basic-IsDenial none = basic-IsDenial true
check_basic-IsDenial (some (id, secret)) = basic-IsDenial _

grant-IsDenial : (r : Request) (form : Values) → IsDenial (check_grant r form)
unfolding check_grant
grant-IsDenial r form = then-IsDenial _ _ (request-IsDenial _ _) (
    if-IsDenial _ _ _ pass-IsDenial
      (then-IsDenial _ _ (fields-IsDenial form _) (check_basic-IsDenial r.basic)))

mutation-IsDenial :
    (s : Store) (r : Request) (form : Values)
    → IsDenial (mutation_client_authentication_gate s r form)
unfolding mutation_client_authentication_gate
mutation-IsDenial s r form =
    then-IsDenial _ _ (fields-IsDenial form _)
      (if-IsDenial _ _ _ (basic-IsDenial _) (check_basic-IsDenial r.basic))

-- A gate that reads the form first.
parsed-IsDenial :
    (parsed : Option Form) (check : Form → Option Refusal)
    → ((form : Form) → IsDenial (check form))
    → IsDenial (elim parsed [ none ↦ some unreadable | some form ↦ check form ])
parsed-IsDenial none check h = bad-IsDenial _
parsed-IsDenial (some form) check h = h form

authorize_gate-IsDenial : (s : Store) (r : Request) → IsDenial (authorize_gate s r)
unfolding authorize_gate
authorize_gate-IsDenial s r = parsed-IsDenial _ _ (λ form.
    then-IsDenial _ _ (repeated-IsDenial form.all _)
      (then-IsDenial _ _ (lengths-IsDenial form.all _) (client-IsDenial _ form.all)))

token_gate-IsDenial : (r : Request) → IsDenial (token_gate r)
unfolding token_gate
token_gate-IsDenial r = if-IsDenial _ _ _ pass-IsDenial (
    parsed-IsDenial _ _
      (λ form. then-IsDenial _ _ (repeated-IsDenial form.all _) (grant-IsDenial r form.all)))

mutation_gate-IsDenial : (s : Store) (r : Request) → IsDenial (mutation_gate s r)
unfolding mutation_gate
mutation_gate-IsDenial s r =
    parsed-IsDenial _ _
      (λ form. then-IsDenial _ _ (repeated-IsDenial form.all _) (mutation-IsDenial s r form.all))

userinfo_gate-IsDenial : (r : Request) → IsDenial (userinfo_gate r)
unfolding userinfo_gate
userinfo_gate-IsDenial r =
    if-IsDenial _ _ _ pass-IsDenial (parsed-IsDenial _ _ (λ form. pass-IsDenial))

end_session_gate-IsDenial : (r : Request) → IsDenial (end_session_gate r)
unfolding end_session_gate
end_session_gate-IsDenial r =
    parsed-IsDenial _ _
      (λ form. then-IsDenial _ _ (repeated-IsDenial form.all _) (request-IsDenial _ _))

path_gate-IsDenial : (path : String) (s : Store) (r : Request) → IsDenial (path_gate path s r)
unfolding path_gate
path_gate-IsDenial path s r =
    search
      (
        if-IsDenial, pass-IsDenial, authorize_gate-IsDenial, token_gate-IsDenial,
        mutation_gate-IsDenial, userinfo_gate-IsDenial, end_session_gate-IsDenial,
      )
      depth 20

-- The answers of the gates.
pub data Answered (r : Request) (w : Response) : Type 0 where
  unknown : r.path ≡ "/device_authorization" → w.status ≡ 404 → Answered r w
  bad_method :
      (allow : String)
      → provider_endpoint_methods r.path ≡ some allow
      → method_allowed r.method allow ≡ false
      → w.status ≡ 405
      → lookup text_dec "Allow" w.headers ≡ some (allow ∷ [])
      → Answered r w
  bad_request : w.status ≡ 400 → Answered r w
  unauthorized :
      w.status ≡ 401
      → lookup text_dec "WWW-Authenticate" w.headers ≡ some (basic_challenge ∷ [])
      → Answered r w

oauth_error-challenge :
    (e : Refusal) (w : Response)
    → e.basic ≡ true
    → lookup text_dec "WWW-Authenticate" (oauth_error e w).headers ≡ some (basic_challenge ∷ [])
unfolding oauth_error
oauth_error-challenge e w b =
    let w' =
      set_header "Cache-Control" "no-store" (set_header "Content-Type" "application/json" w) in
    ground (
      arith,
      b,
      lookup-set_header "WWW-Authenticate" basic_challenge w',
      write_chunk-headers (Chunk.oauth e.error e.description) e.status
          (set_header "WWW-Authenticate" basic_challenge w'),
    )

method_not_allowed-Allow :
    (allow : String) (w : Response)
    → lookup text_dec "Allow" (method_not_allowed allow w).headers ≡ some (allow ∷ [])
unfolding method_not_allowed
method_not_allowed-Allow allow w =
    lookup-http_error "Allow" "method not allowed" 405 (set_header "Allow" allow w)
      (ground (arith, eq_iff "Content-Length" "Allow"))
      (ground (arith, eq_iff "Content-Type" "Allow"))
      (ground (arith, eq_iff "X-Content-Type-Options" "Allow"))
    ∙ lookup-set_header "Allow" allow w

token_headers-status : (r : Request) (w : Response) → (token_headers r w).status ≡ w.status
unfolding token_headers set_header
token_headers-status r w = ground arith

method_not_allowed-status :
    (allow : String) (w : Response) → w.status ≡ 0 → (method_not_allowed allow w).status ≡ 405
unfolding method_not_allowed set_header
method_not_allowed-status allow w z =
    http_error-status "method not allowed" 405 (set_header "Allow" allow w) z (omega arith)

not_found-status : (w : Response) → w.status ≡ 0 → (not_found w).status ≡ 404
unfolding not_found
not_found-status w z = http_error-status "404 page not found" 404 w z (omega arith)

refuse-Answered :
    (checked : Option Refusal) (r : Request) (w w' : Response)
    → IsDenial checked
    → w.status ≡ 0
    → refuse checked w ≡ answer w'
    → Answered r w'
unfolding refuse
refuse-Answered none r w w' h z e = absurd (ground (arith, e))
refuse-Answered (some x) r w w' h z e = elim (h.denied x refl) [
  | inl (bad, _) ↦
      bad_request (ground (arith, e, oauth_error-status x w z (ground (arith, bad)), bad))
  | inr (forbidden, basic) ↦
      unauthorized
        (ground (arith, e, oauth_error-status x w z (ground (arith, forbidden)), forbidden))
        (ground (arith, e, oauth_error-challenge x w basic))
]

module _ (web : Web) (realm : Realm) (s : Store) (now : Time) (r : Request) (w w' : Response) where
  callback_gate-Answered :
      w.status ≡ 0 → (callback_gate web realm s now r w).1 ≡ answer w' → Answered r w'
  unfolding callback_gate
  callback_gate-Answered z e =
      let id = get r.query "id" in
      let bad = http_error-status "invalid authorization completion" 400 w z (omega arith) in
      elim (text_dec id "") [
        | yes q ↦ bad_request (ground (arith, e, q, bad))
        | no q ↦ elim (Option-cases (lookup text_dec (completion_cookie_name web id) r.cookies)) [
          | inl f ↦ bad_request (ground (arith, e, q, f, bad))
          | inr (secret, f) ↦ elim (text_dec secret "") [
            | yes p ↦ bad_request (ground (arith, e, q, f, p, bad))
            | no p ↦ elim (Result-cases (consume_completion_secret web.crypto s now id secret).1) [
              | inr (x, g) ↦ bad_request (ground (arith, e, q, f, p, g, bad))
              | inl (u, g) ↦ absurd (ground (arith, e, q, f, p, g))
            ]
          ]
        ]
      ]

  enter-Answered : w.status ≡ 0 → (enter web realm s now r w).1 ≡ answer w' → Answered r w'
  unfolding enter
  enter-Answered z e = elim (text_dec r.path "/authorize/callback") [
    | yes p ↦ callback_gate-Answered z (ground (arith, e, p))
    | no p ↦
        refuse-Answered (path_gate r.path s r) r w w' (path_gate-IsDenial r.path s r) z
          (ground (arith, e, p))
  ]

module _ (web : Web) (realm : Realm) (s : Store) (now : Time) (r : Request) (w w' : Response) where
  -- A request that the gates answer themselves, into an empty response, gets 404 for the device
  -- endpoint, 405 with the methods of its path where its method is another, 400, or 401 with a
  -- basic challenge; never anything else.
  pub gates-Answered : w.status ≡ 0 → (gates web realm s now r w).1 ≡ answer w' → Answered r w'
  unfolding gates
  gates-Answered z e =
      let v = token_headers r w in
      let zero_status : v.status ≡ 0 = token_headers-status r w ∙ z in
      elim (text_dec r.path "/device_authorization") [
        | yes d ↦ unknown d (ground (arith, e, d, not_found-status v zero_status))
        | no d ↦ elim (Option-cases (provider_endpoint_methods r.path)) [
          | inl f ↦ enter-Answered web realm s now r v w' zero_status (ground (arith, e, d, f))
          | inr (allow, f) ↦ elim (Bool-cases (method_allowed r.method allow)) [
            | inl m ↦ enter-Answered web realm s now r v w' zero_status (ground (arith, e, d, f, m))
            | inr m ↦
                bad_method allow f m
                  (ground (arith, e, d, f, m, method_not_allowed-status allow v zero_status))
                  (ground (arith, e, d, f, m, method_not_allowed-Allow allow v))
          ]
        ]
      ]
