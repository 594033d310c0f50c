-- ===== src/Server/Gates/Clients.antt =====
-- How a client must authenticate to pass the gates of internal/idp/server.go.
use hoocloak.Base.{
  ◌≡◌, refl, ◌≤◌, ◌↔◌, ◌⊎◌, ◌≢◌, inl, inr, String, List, [], ◌∷◌, true, Option, none, some, arith,
  text_dec, length, ◌then◌, then-none, Bool-cases, Option-cases,
}
use hoocloak.Client.{Client}
use hoocloak.Config.{client_type_spa}
use hoocloak.Config.Text.{codes, all_codes}
use hoocloak.Store.Types.{Store}
use hoocloak.Server.Http.{Values, get, exists, Request, Form, parse_form}
use hoocloak.Server.Pkce.{is_verifier_code, valid_code_verifier}
use hoocloak.Server.Gates.{
  max_form_body_bytes, reject_repeated_form_parameters, client_of, token_parameters, reject_fields,
  check_basic, check_grant, token_gate, mutation_client_authentication_gate, mutation_gate,
  mutation_parameters,
}
use hoocloak.Server.Gates.Exact.{AllSingle, AllSingle-iff}

-- None of the fields is in the form.
abbrev pub AllAbsent : Values → List String → Type 0
AllAbsent form [] = Unit
AllAbsent form (f ∷ fs) = (form f ≡ []) × AllAbsent form fs

-- HTTP Basic authentication with an ID and a secret.
abbrev pub HasBasic : Option (String × String) → Type 0
HasBasic basic =
    (id : String) × (secret : String) × (basic ≡ some (id, secret))
    × ◌≢◌ {A = String} id ""
    × ◌≢◌ {A = String} secret ""

AllAbsent-iff :
    (form : Values) (fs : List String) → (reject_fields form fs ≡ none) ↔ AllAbsent form fs
unfolding reject_fields ◌then◌
AllAbsent-iff form [] = ground arith
AllAbsent-iff form (f ∷ fs) = ground (arith, AllAbsent-iff form fs)

HasBasic-iff : (basic : Option (String × String)) → (check_basic basic ≡ none) ↔ HasBasic basic
unfolding check_basic
HasBasic-iff none = ground arith
HasBasic-iff (some (id, secret)) = (
  λ e. (id, secret, refl, ground (arith, e), ground (arith, e)),
  λ h. ground (arith, h.2, h.3, h.4),
)

-- A code verifier in the form of RFC 7636.
pub record IsVerifier (v : String) : Type 0 where
  pub long : 43 ≤ length (codes v)
  pub short : length (codes v) ≤ 128
  pub unreserved : all_codes is_verifier_code (codes v) ≡ true

IsVerifier-iff : (v : String) → (valid_code_verifier v ≡ true) ↔ IsVerifier v
unfolding valid_code_verifier
IsVerifier-iff v = ground arith

abbrev client_fields : List String
client_fields = "client_id" ∷ "client_secret" ∷ "client_assertion" ∷ "client_assertion_type" ∷ []

-- What `tokenGate` promises of a POST.
pub record TokenAdmitted (r : Request) : Type 0 where
  pub form : Form
  pub parsed : parse_form max_form_body_bytes r ≡ some form
  pub single : AllSingle form.all token_parameters
  pub verifier :
      get form.all "grant_type" ≡ "authorization_code" → IsVerifier (get form.all "code_verifier")
  pub basic :
      get form.all "grant_type" ≡ "client_credentials"
      → AllAbsent form.all client_fields × HasBasic r.basic

module _ (r : Request) (form : Values) where
  check_grant-IsVerifier :
      check_grant r form ≡ none
      → get form "grant_type" ≡ "authorization_code"
      → IsVerifier (get form "code_verifier")
  unfolding check_grant ◌then◌
  check_grant-IsVerifier e g = ground (
    arith,
    e,
    g,
    text_dec (get form "grant_type") "authorization_code",
    IsVerifier-iff (get form "code_verifier"),
  )

  check_grant-basic :
      check_grant r form ≡ none
      → get form "grant_type" ≡ "client_credentials"
      → AllAbsent form client_fields × HasBasic r.basic
  unfolding check_grant ◌then◌
  check_grant-basic e g =
      let rest : reject_fields form client_fields then check_basic r.basic ≡ none =
        ground (arith, e, g, text_dec (get form "grant_type") "client_credentials") in
      let both = then-none _ _ rest in
      ((AllAbsent-iff form client_fields).0 both.0, (HasBasic-iff r.basic).0 both.1)

  check_grant_complete :
      (get form "grant_type" ≡ "authorization_code" → IsVerifier (get form "code_verifier"))
      → (get form "grant_type" ≡ "client_credentials"
          → AllAbsent form client_fields × HasBasic r.basic)
      → check_grant r form ≡ none
  unfolding check_grant ◌then◌
  check_grant_complete v b = ground (
    arith,
    v,
    b,
    IsVerifier-iff (get form "code_verifier"),
    AllAbsent-iff form client_fields,
    HasBasic-iff r.basic,
  )

token_gate_sound : (r : Request) → r.method ≡ "POST" → token_gate r ≡ none → TokenAdmitted r
unfolding token_gate ◌then◌
token_gate_sound r m e = elim (Option-cases (parse_form max_form_body_bytes r)) [
  | inl f ↦ absurd (ground (arith, e, f, m, text_dec r.method "POST"))
  | inr (form, f) ↦
      let e' : reject_repeated_form_parameters form.all token_parameters then check_grant r form.all
          ≡ none =
        ground (arith, e, f, m, text_dec r.method "POST") in
      let both = then-none _ _ e' in
      record {
        form = form;
        parsed = f;
        single = (AllSingle-iff form.all token_parameters).0 both.0;
        verifier = check_grant-IsVerifier r form.all both.1;
        basic = check_grant-basic r form.all both.1;
      }
]

token_gate_complete : (r : Request) → TokenAdmitted r → token_gate r ≡ none
unfolding token_gate ◌then◌
token_gate_complete r a = ground (
  arith,
  a.parsed,
  (AllSingle-iff a.form.all token_parameters).1 a.single,
  check_grant_complete r a.form.all a.verifier a.basic,
)

-- The gate of the token endpoint lets a POST through exactly if its form is read, its parameters
-- stand at most once, an authorization code comes with a verifier of 43 to 128 unreserved
-- characters, and client credentials come by basic authentication with an ID and a secret, without
-- any of them in the form.
pub token_gate-exact : (r : Request) → r.method ≡ "POST" → (token_gate r ≡ none) ↔ TokenAdmitted r
token_gate-exact r m = (token_gate_sound r m, token_gate_complete r)

-- A public client may revoke its own tokens without a secret.
pub record IsPublicRevocation (s : Store) (r : Request) (form : Values) : Type 0 where
  pub path : r.path ≡ "/revoke"
  pub unauthorized : r.authorization ≡ ""
  pub named : exists form "client_id" ≡ true
  pub client : Client
  pub registered : client_of s form ≡ some client
  pub public_ : client.config.type ≡ client_type_spa

abbrev credential_fields : List String
credential_fields = "client_secret" ∷ "client_assertion" ∷ "client_assertion_type" ∷ []

pub record MutationAdmitted (s : Store) (r : Request) : Type 0 where
  pub form : Form
  pub parsed : parse_form max_form_body_bytes r ≡ some form
  pub single : AllSingle form.all mutation_parameters
  pub absent : AllAbsent form.all credential_fields
  pub authenticated :
      ((form.all "client_id" ≡ []) × HasBasic r.basic) ⊎ IsPublicRevocation s r form.all

module _ (s : Store) (r : Request) (form : Values) where
  mutation_client_sound :
      mutation_client_authentication_gate s r form ≡ none
      → AllAbsent form credential_fields
        × (((form "client_id" ≡ []) × HasBasic r.basic) ⊎ IsPublicRevocation s r form)
  unfolding mutation_client_authentication_gate ◌then◌
  mutation_client_sound e =
      let both = then-none (reject_fields form credential_fields) _ e in
      (
        (AllAbsent-iff form credential_fields).0 both.0,
        elim (Bool-cases (exists form "client_id")) [
          | inl x ↦ elim (Option-cases (client_of s form)) [
            | inl f ↦ absurd (ground (arith, both.1, x, f))
            | inr (client, f) ↦ inr (record {
              path = ground (arith, both.1, x, f);
              unauthorized = ground (arith, both.1, x, f);
              named = x;
              client = client;
              registered = f;
              public_ = ground (arith, both.1, x, f, text_dec client.config.type client_type_spa);
            })
          ]
          | inr x ↦ inl (ground (arith, x), (HasBasic-iff r.basic).0 (ground (arith, both.1, x)))
        ],
      )

  mutation_client_complete :
      AllAbsent form credential_fields
      → ((form "client_id" ≡ []) × HasBasic r.basic) ⊎ IsPublicRevocation s r form
      → mutation_client_authentication_gate s r form ≡ none
  unfolding mutation_client_authentication_gate ◌then◌
  mutation_client_complete a (inl (x, b)) =
      ground (arith, (AllAbsent-iff form credential_fields).1 a, x, (HasBasic-iff r.basic).1 b)
  mutation_client_complete a (inr p) = ground (
    arith,
    (AllAbsent-iff form credential_fields).1 a,
    p.named,
    p.path,
    p.unauthorized,
    p.registered,
    p.public_,
  )

mutation_gate-sound : (s : Store) (r : Request) → mutation_gate s r ≡ none → MutationAdmitted s r
unfolding mutation_gate ◌then◌
mutation_gate-sound s r e = elim (Option-cases (parse_form max_form_body_bytes r)) [
  | inl f ↦ absurd (ground (arith, e, f))
  | inr (form, f) ↦
      let e' : reject_repeated_form_parameters form.all mutation_parameters
            then mutation_client_authentication_gate s r form.all
          ≡ none =
        ground (arith, e, f) in
      let both = then-none _ _ e' in
      let facts = mutation_client_sound s r form.all both.1 in
      record {
        form = form;
        parsed = f;
        single = (AllSingle-iff form.all mutation_parameters).0 both.0;
        absent = facts.0;
        authenticated = facts.1;
      }
]

mutation_gate_complete : (s : Store) (r : Request) → MutationAdmitted s r → mutation_gate s r ≡ none
unfolding mutation_gate ◌then◌
mutation_gate_complete s r a = ground (
  arith,
  a.parsed,
  (AllSingle-iff a.form.all mutation_parameters).1 a.single,
  mutation_client_complete s r a.form.all a.absent a.authenticated,
)

-- The gate of introspection and revocation lets through exactly the requests whose form is read,
-- whose parameters stand at most once and hold no client credentials, and which either come by
-- basic authentication with no client in the form, or are a revocation by a registered single-page
-- client without an Authorization header.
pub mutation_gate-exact :
    (s : Store) (r : Request) → (mutation_gate s r ≡ none) ↔ MutationAdmitted s r
mutation_gate-exact s r = (mutation_gate-sound s r, mutation_gate_complete s r)
