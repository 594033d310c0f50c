-- ===== src/Store/Requests.antt =====
-- internal/idp/storage.go: authorization requests and codes, `CreateAuthRequest` to
-- `DeleteAuthRequest`, and the methods of `AuthRequest` and `RefreshRequest`.
use hoocloak.Base.{
  ℕ, suc, ◌+◌, String, List, [], ◌∷◌, Bool, true, false, not, ◌&&◌, ◌||◌, Option, none, some, ite,
  ◌==◌, contains, ltb, leb, text_dec, if◌then◌else◌,
}
use hoocloak.Base.Map.{size, lookup, erase, insert}
use hoocloak.Client.{Client}
use hoocloak.Store.Prune.{schedule_expiry, prune}
use hoocloak.Store.Types.{
  Time, Ref, AuthRequest, CodeRecord, Store, RefreshRequest, Result, ok, err, login_required,
  invalid_request, invalid_grant, server_error, rand_failed, zero_hash,
}
unfoldable pub use native.Mathlib.Decide.{ℕ_discrete as ref_dec}

-- The `oidc.AuthRequest` that the provider has parsed.
pub record OidcRequest : Type 0 where
  pub prompt : List String
  pub client_id : String
  pub redirect_uri : String
  pub state : String
  pub nonce : String
  pub code_challenge : String
  pub code_challenge_method : String
  pub scopes : List String
  pub response_type : String
  pub response_mode : String

abbrev pub max_pending_auth_requests : ℕ
max_pending_auth_requests = 1024

-- Five minutes in nanoseconds.
abbrev pub request_ttl : ℕ
request_ttl = 300000000000

-- A write through a `*AuthRequest`.
unfoldable pub write : Ref → AuthRequest → Store → Store
write p a s = record s { heap = λ q. ite (ref_dec q p) a (s.heap q) }

unfoldable pub new_auth_request : OidcRequest → Client → String → String → Time → AuthRequest
new_auth_request request client id user_id now = record {
  id = id;
  client_id = request.client_id;
  redirect_uri = request.redirect_uri;
  state = request.state;
  nonce = request.nonce;
  subject = user_id;
  code = "";
  code_challenge =
      if request.code_challenge == ""
      then none
      else some
          (record { challenge = request.code_challenge; method = request.code_challenge_method });
  scopes = request.scopes;
  audience = client.config.audiences;
  amr = [];
  response_type = request.response_type;
  response_mode = request.response_mode;
  created = now;
  expires = now + request_ttl;
  auth_time = 0;
  done = false;
  code_saved = false;
  access_audience_returned = false;
  completion_hash = zero_hash;
}

-- The part of `CreateAuthRequest` under the lock, after the prune.
unfoldable pub store_request : Store → AuthRequest → Store × Result Ref
unfolding write schedule_expiry
store_request s a =
    if leb max_pending_auth_requests (size s.auth_requests) then (s, err server_error) else (
      schedule_expiry a.expires (
          write s.next_ref a (record s {
            auth_requests = insert text_dec a.id s.next_ref s.auth_requests;
            next_ref = suc s.next_ref;
          })),
      ok s.next_ref,
    )

-- `random` is what `randomID` returns, `none` for its error.
unfoldable pub create_auth_request :
    Store → Time → Option String → OidcRequest → String → Store × Result Ref
unfolding store_request new_auth_request
create_auth_request s now random request user_id =
    if contains request.prompt "none" then (s, err login_required) else elim random [
      | none ↦ (s, err rand_failed)
      | some id ↦ elim (lookup text_dec request.client_id s.clients) [
        | none ↦ (s, err invalid_request)
        | some client ↦ store_request (prune now s) (new_auth_request request client id user_id now)
      ]
    ]

unfoldable pub auth_request_by_id : Store → Time → String → Store × Result Ref
auth_request_by_id s now id =
    let s' = prune now s in
    elim (lookup text_dec id s'.auth_requests) [
      | none ↦ (s', err invalid_request)
      | some p ↦ (s', ok p)
    ]

-- The request of a code record that is there and not reserved.
unfoldable pub request_of_code : Store → Time → CodeRecord → Result Ref
request_of_code s now r =
    if r.reserved then err invalid_grant else elim (lookup text_dec r.request_id s.auth_requests) [
      | none ↦ err invalid_grant
      | some p ↦ if not (s.heap p).done || not (ltb now r.expires) then err invalid_grant else ok p
    ]

unfoldable pub auth_request_by_code : Store → Time → String → Store × Result Ref
unfolding request_of_code
auth_request_by_code s now code =
    let s' = prune now s in
    elim (lookup text_dec code s'.codes) [
      | none ↦ (s', err invalid_grant)
      | some r ↦ (s', request_of_code s' now r)
    ]

unfoldable pub code_record : String → Time → CodeRecord
code_record request_id expires = record {
  request_id = request_id;
  expires = expires;
  reserved = false;
}

-- The part of `SaveAuthCode` that has found the request.
unfoldable pub save_code : Store → Time → String → String → Ref → Store × Result (Unit {0})
unfolding write schedule_expiry code_record
save_code s now request_id code p =
    let a = s.heap p in
    if not a.done || a.code_saved || not (ltb now a.expires)
    then (s, err invalid_grant)
    else elim (lookup text_dec code s.codes) [
      | some _ ↦ (s, err invalid_grant)
      | none ↦ (
        schedule_expiry a.expires
            (record (write p (record a { code_saved = true; code = code }) s) {
              codes = insert text_dec code (code_record request_id a.expires) s.codes;
            }),
        ok tt,
      )
    ]

unfoldable pub save_auth_code : Store → Time → String → String → Store × Result (Unit {0})
unfolding save_code
save_auth_code s now request_id code =
    let s' = prune now s in
    elim (lookup text_dec request_id s'.auth_requests) [
      | none ↦ (s', err invalid_grant)
      | some p ↦ save_code s' now request_id code p
    ]

-- Is the record there, for this request, and reserved by a token request?
unfoldable pub is_reserved_for : String → Option CodeRecord → Bool
is_reserved_for id none = false
is_reserved_for id (some r) = r.request_id == id && r.reserved

unfoldable pub delete_auth_request : Store → String → Store × Result (Unit {0})
unfolding is_reserved_for
delete_auth_request s id = elim (lookup text_dec id s.auth_requests) [
  | none ↦ (s, err invalid_grant)
  | some p ↦
      let code = (s.heap p).code in
      if code == "" || not (is_reserved_for id (lookup text_dec code s.codes))
      then (s, err invalid_grant)
      else (
        record s {
          codes = erase text_dec code s.codes;
          auth_requests = erase text_dec id s.auth_requests;
        },
        ok tt,
      )
]

-- `GetAudience`, for the access token at the first call and for the ID token from then on.
unfoldable pub get_audience : Store → Ref → Store × List String
unfolding write
get_audience s p =
    let a = s.heap p in
    if a.access_audience_returned
    then (s, a.client_id ∷ [])
    else (write p (record a { access_audience_returned = true }) s, a.audience)

unfoldable pub refresh_get_audience : RefreshRequest → RefreshRequest × List String
refresh_get_audience r =
    if r.access_audience_returned
    then (r, r.client_id ∷ [])
    else (record r { access_audience_returned = true }, r.audience)

unfoldable pub set_current_scopes : List String → RefreshRequest → RefreshRequest
set_current_scopes scopes r = record r { scopes = scopes }
