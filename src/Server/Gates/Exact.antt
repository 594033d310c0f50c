-- ===== src/Server/Gates/Exact.antt =====
-- Which requests the gates of internal/idp/server.go let through.
use hoocloak.Base.{
  ◌≡◌, refl, ◌≤◌, ◌↔◌, ◌⊎◌, inl, inr, ◌∈◌, String, List, [], ◌∷◌, true, Option, none, some, arith,
  text_dec, length, ◌then◌, then-none, Option-cases,
}
use hoocloak.Client.{Client}
use hoocloak.Config.{ClientConfig, client_type_spa}
use hoocloak.Config.Text.{codes, all_codes, fields}
use hoocloak.Store.Types.{Store}
use hoocloak.Server.Http.{Values, get, Request, Form, parse_form, byte_length}
use hoocloak.Server.Pkce.{is_challenge_code, valid_s256_code_challenge}
use hoocloak.Server.Gates.{
  max_form_body_bytes, reject_repeated_form_parameters, check_lengths, check_scopes,
  check_authorization, client_of, authorize_parameters, authorize_gate, check_client_authorization,
}

-- No parameter of the list stands twice in the form.
abbrev pub AllSingle : Values → List String → Type 0
AllSingle form [] = Unit
AllSingle form (p ∷ ps) = (length (form p) ≤ 1) × AllSingle form ps

pub record Authorizable (c : ClientConfig) (form : Values) : Type 0 where
  pub redirect : get form "redirect_uri" ∈ c.redirect_uris
  pub response_type : get form "response_type" ≡ "code"
  pub response_mode : (get form "response_mode" ≡ "") ⊎ (get form "response_mode" ≡ "query")
  pub openid : "openid" ∈ fields (get form "scope")
  pub scopes : (x : String) → x ∈ fields (get form "scope") → x ∈ c.allowed_scopes
  pub challenge_length : length (codes (get form "code_challenge")) ≡ 43
  pub challenge_codes : all_codes is_challenge_code (codes (get form "code_challenge")) ≡ true
  pub challenge_method : get form "code_challenge_method" ≡ "S256"

pub AllSingle-iff :
    (form : Values) (ps : List String)
    → (reject_repeated_form_parameters form ps ≡ none) ↔ AllSingle form ps
unfolding reject_repeated_form_parameters ◌then◌
AllSingle-iff form [] = ground arith
AllSingle-iff form (p ∷ ps) = ground (arith, AllSingle-iff form ps)

check_scopes-sound :
    (c : ClientConfig) (xs : List String) (y : String)
    → check_scopes c xs ≡ none
    → y ∈ xs
    → y ∈ c.allowed_scopes
unfolding check_scopes ◌then◌
check_scopes-sound c [] y e m = ground arith
check_scopes-sound c (x ∷ xs) y e m = elim (text_dec x y) [
  | yes p ↦ ground (arith, p)
  | no n ↦ ground (arith, n, check_scopes-sound c xs y)
]

check_scopes_complete :
    (c : ClientConfig) (xs : List String)
    → ((y : String) → y ∈ xs → y ∈ c.allowed_scopes)
    → check_scopes c xs ≡ none
unfolding check_scopes ◌then◌
check_scopes_complete c [] h = refl
check_scopes_complete c (x ∷ xs) h = ground (
  arith,
  text_dec x x,
  h x,
  check_scopes_complete c xs (λ y m. ground (arith, text_dec x y, h y)),
)

challenge_iff :
    (v : String)
    → (valid_s256_code_challenge v ≡ true)
      ↔ ((length (codes v) ≡ 43) × (all_codes is_challenge_code (codes v) ≡ true))
unfolding valid_s256_code_challenge
challenge_iff v = ground arith

check_authorization-Authorizable :
    (c : ClientConfig) (form : Values) → check_authorization c form ≡ none → Authorizable c form
unfolding check_authorization ◌then◌
check_authorization-Authorizable c form e = record {
  redirect = ground arith;
  response_type = ground (arith, text_dec (get form "response_type") "code");
  response_mode = ground arith;
  openid = ground arith;
  scopes = λ x. check_scopes-sound c (fields (get form "scope")) x (ground arith);
  challenge_length = ground (arith, challenge_iff (get form "code_challenge"));
  challenge_codes = ground (arith, challenge_iff (get form "code_challenge"));
  challenge_method = ground arith;
}

Authorizable-check_authorization :
    (c : ClientConfig) (form : Values) → Authorizable c form → check_authorization c form ≡ none
unfolding check_authorization ◌then◌
Authorizable-check_authorization c form a = ground (
  arith,
  a.redirect,
  a.response_type,
  a.response_mode,
  a.openid,
  check_scopes_complete c (fields (get form "scope")) a.scopes,
  challenge_iff (get form "code_challenge"),
  a.challenge_length,
  a.challenge_codes,
  a.challenge_method,
)

-- What `authorizeGate` promises of a request.
pub record AuthorizeAdmitted (s : Store) (r : Request) : Type 0 where
  pub form : Form
  pub parsed : parse_form max_form_body_bytes r ≡ some form
  pub single : AllSingle form.all authorize_parameters
  pub state : byte_length (get form.all "state") ≤ 1024
  pub nonce : byte_length (get form.all "nonce") ≤ 1024
  pub authorizable :
      (client : Client)
      → client_of s form.all ≡ some client
      → client.config.type ≡ client_type_spa
      → Authorizable client.config form.all

lengths_iff :
    (form : Values)
    → (check_lengths form ("state" ∷ "nonce" ∷ []) ≡ none)
      ↔ ((byte_length (get form "state") ≤ 1024) × (byte_length (get form "nonce") ≤ 1024))
unfolding check_lengths ◌then◌
lengths_iff form = ground arith

client_sound :
    (found : Option Client) (form : Values) (client : Client)
    → check_client_authorization found form ≡ none
    → found ≡ some client
    → client.config.type ≡ client_type_spa
    → Authorizable client.config form
unfolding check_client_authorization
client_sound found form client e f t =
    check_authorization-Authorizable client.config form
      (ground (arith, f, t, text_dec client.config.type client_type_spa))

client_complete :
    (found : Option Client) (form : Values)
    → ((client : Client)
        → found ≡ some client
        → client.config.type ≡ client_type_spa
        → Authorizable client.config form)
    → check_client_authorization found form ≡ none
unfolding check_client_authorization
client_complete none form h = refl
client_complete (some client) form h = elim (text_dec client.config.type client_type_spa) [
  | yes t ↦ ground (arith, t, Authorizable-check_authorization client.config form (h client refl t))
  | no n ↦ ground (arith, n)
]

authorize_gate_sound : (s : Store) (r : Request) → authorize_gate s r ≡ none → AuthorizeAdmitted s r
unfolding authorize_gate ◌then◌
authorize_gate_sound s r e = elim (Option-cases (parse_form max_form_body_bytes r)) [
  | inl f ↦ absurd (ground (arith, e, f))
  | inr (form, f) ↦
      let e' : reject_repeated_form_parameters form.all authorize_parameters
            then check_lengths form.all ("state" ∷ "nonce" ∷ [])
            then check_client_authorization (client_of s form.all) form.all
          ≡ none =
        ground (arith, e, f) in
      let rest = then-none _ _ (then-none _ _ e').1 in
      record {
        form = form;
        parsed = f;
        single = (AllSingle-iff form.all authorize_parameters).0 (then-none _ _ e').0;
        state = ((lengths_iff form.all).0 rest.0).0;
        nonce = ((lengths_iff form.all).0 rest.0).1;
        authorizable = λ client. client_sound (client_of s form.all) form.all client rest.1;
      }
]

authorize_gate_complete :
    (s : Store) (r : Request) → AuthorizeAdmitted s r → authorize_gate s r ≡ none
unfolding authorize_gate ◌then◌
authorize_gate_complete s r a = ground (
  arith,
  a.parsed,
  (AllSingle-iff a.form.all authorize_parameters).1 a.single,
  (lengths_iff a.form.all).1 (a.state, a.nonce),
  client_complete (client_of s a.form.all) a.form.all a.authorizable,
)

-- The gate of the authorization endpoint lets through exactly the requests whose form is read,
-- whose parameters stand at most once, whose state and nonce have at most 1024 bytes, and which, if
-- they name a single-page client, ask for a redirect of that client, the code flow in the query,
-- scopes with openid that the client may have, and an S256 challenge of 43 characters.
pub authorize_gate-exact :
    (s : Store) (r : Request) → (authorize_gate s r ≡ none) ↔ AuthorizeAdmitted s r
authorize_gate-exact s r = (authorize_gate_sound s r, authorize_gate_complete s r)
