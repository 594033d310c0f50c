-- ===== src/Store/Access.antt =====
-- internal/idp/storage.go: what is read of a token request, `reserveAuthorizationCodeLocked` and
-- `CreateAccessToken`.
pub mod Reserve
use hoocloak.Base.{
  ◌+◌, String, List, [], ◌∷◌, ◌++◌, Bool, true, false, not, ◌&&◌, ◌||◌, Option, none, some, ◌==◌,
  ltb, text_dec, if◌then◌else◌,
}
use hoocloak.Base.Map.{lookup, erase, insert}
use hoocloak.Store.Prune.{schedule_expiry, prune}
use hoocloak.Store.Requests.{ref_dec}
use hoocloak.Store.Sessions.{consume_refresh_record, compact_family_tokens, revoke_family}
use hoocloak.Store.Types.{
  Time, Hash, Ref, AuthRequest, CodeRecord, AccessRecord, RefreshRecord, RefreshFamily, Store,
  TokenRequest, auth, refresh, service, other, Crypto, Result, ok, err, invalid_grant, rand_failed,
  unsupported_token_request, panic_nil_client,
}

-- What `tokenRequestInfo`, `GetSubject` and `GetScopes` return.
pub record TokenInfo : Type 0 where
  pub client_id : String
  pub auth_time : Time
  pub amr : List String

unfoldable pub token_request_info : Store → TokenRequest → Result TokenInfo
token_request_info s (auth p) =
    let a = s.heap p in
    ok (record { client_id = a.client_id; auth_time = a.auth_time; amr = a.amr })
token_request_info s (refresh r) =
    ok (record { client_id = r.client_id; auth_time = r.auth_time; amr = r.amr })
token_request_info s (service r) = ok (record { client_id = r.client_id; auth_time = 0; amr = [] })
token_request_info s (other _ _) = err unsupported_token_request

unfoldable pub get_subject : Store → TokenRequest → String
get_subject s (auth p) = (s.heap p).subject
get_subject s (refresh r) = r.subject
get_subject s (service r) = r.subject
get_subject s (other subject _) = subject

unfoldable pub get_scopes : Store → TokenRequest → List String
get_scopes s (auth p) = (s.heap p).scopes
get_scopes s (refresh r) = r.scopes
get_scopes s (service r) = r.scopes
get_scopes s (other _ scopes) = scopes

-- `stored != auth`, where a missing entry reads as a nil pointer.
abbrev pub is_stored : Option Ref → Ref → Bool
is_stored none p = false
is_stored (some q) p = elim (ref_dec q p) [ yes _ ↦ true | no _ ↦ false ]

unfoldable pub reserve_code : Store → AuthRequest → CodeRecord → Store × Result (Unit {0})
reserve_code s a r =
    if not (r.request_id == a.id) || r.reserved
    then (s, err invalid_grant)
    else (record s { codes = insert text_dec a.code (record r { reserved = true }) s.codes }, ok tt)

unfoldable pub reserve_auth_request : Store → Ref → Store × Result (Unit {0})
unfolding reserve_code
reserve_auth_request s p =
    let a = s.heap p in
    if not (is_stored (lookup text_dec a.id s.auth_requests) p) || a.code == ""
    then (s, err invalid_grant)
    else elim (lookup text_dec a.code s.codes) [
      | none ↦ (s, err invalid_grant)
      | some r ↦ reserve_code s a r
    ]

unfoldable pub reserve_authorization_code : Store → TokenRequest → Store × Result (Unit {0})
unfolding reserve_auth_request
reserve_authorization_code s (auth p) = reserve_auth_request s p
reserve_authorization_code s (refresh r) = (s, ok tt)
reserve_authorization_code s (service r) = (s, ok tt)
reserve_authorization_code s (other _ _) = (s, ok tt)

unfoldable pub access_record :
    String → TokenInfo → String → List String → List String → Time → Time → String → AccessRecord
access_record id info subject audience scopes expires now family_id = record {
  id = id;
  client_id = info.client_id;
  subject = subject;
  audience = audience;
  scopes = scopes;
  expires = expires;
  issued_at = now;
  auth_time = info.auth_time;
  amr = info.amr;
  family_id = family_id;
}

-- The end of `createAccessToken`, once the code is reserved.
unfoldable pub put_access : Store → AccessRecord → Store
unfolding schedule_expiry
put_access s record_ =
    schedule_expiry record_.expires
      (record s { access = insert text_dec record_.id record_ s.access })

-- `createAccessToken`; `random` is what `randomID` returns.
unfoldable pub create_access_token :
    Store → Time → Option String → TokenRequest → String → Store × Result (String × Time)
unfolding access_record put_access
create_access_token s now random request family_id = elim random [
  | none ↦ (s, err rand_failed)
  | some id ↦ elim (token_request_info s request) [
    | err e ↦ (s, err e)
    | ok info ↦ elim (lookup text_dec info.client_id s.clients) [
      | none ↦ (s, err panic_nil_client)
      | some client ↦
          let scopes = get_scopes s request in
          let expires = now + s.tokens.access_ttl in
          let s' = prune now s in
          let (s'', reserved) = reserve_authorization_code s' request in
          elim reserved [
            | err e ↦ (s'', err e)
            | ok _ ↦ (
              put_access s'' (
                  access_record id info (get_subject s' request) client.config.audiences scopes
                    expires now family_id),
              ok (id, expires),
            )
          ]
    ]
  ]
]
