-- ===== src/Store/Sessions.antt =====
-- internal/idp/storage.go: refresh-token families, `TokenRequestByRefreshToken` to `RevokeToken`.
pub mod Ended
use hoocloak.Base.{
  String, List, [], ◌∷◌, Bool, true, false, not, ◌&&◌, ◌||◌, Option, none, some, ◌==◌, or_zero, ltb,
  text_dec, if◌then◌else◌,
}
use hoocloak.Base.Map.{Map, lookup, erase, retain}
use hoocloak.Store.Prune.{prune}
use hoocloak.Store.Types.{
  Time, Hash, AccessRecord, RefreshRecord, RefreshFamily, RefreshRequest, Store, Crypto, Result, ok,
  err, zero_access, invalid_grant, invalid_refresh_token, logout_unverified,
}

-- The record that `consumeRefreshRecord` writes; it returns the old `access_id`.
unfoldable pub consume_refresh_record : RefreshRecord → RefreshRecord
consume_refresh_record r = record {
  family_id = r.family_id;
  client_id = r.client_id;
  subject = "";
  audience = [];
  scopes = [];
  amr = [];
  auth_time = 0;
  consumed = true;
  access_id = "";
}

abbrev pub is_live : Option RefreshRecord → Bool
is_live none = false
is_live (some r) = not r.consumed

unfoldable pub live_tokens : Map Hash RefreshRecord → List Hash → List Hash
live_tokens records [] = []
live_tokens records (hash ∷ rest) =
    let live = live_tokens records rest in
    if is_live (lookup text_dec hash records) then hash ∷ live else live

unfoldable pub compact_family_tokens : Map Hash RefreshRecord → RefreshFamily → RefreshFamily
unfolding live_tokens
compact_family_tokens records family = record family { tokens = live_tokens records family.tokens }

-- The access tokens of a family's live refresh tokens, which the loop of `revokeFamilyLocked`
-- deletes.
unfoldable pub drop_access :
    String → Map Hash RefreshRecord → Map String AccessRecord → Map String AccessRecord
drop_access id [] access = access
drop_access id ((hash, r) ∷ rest) access =
    drop_access id rest
      (if r.family_id == id && not r.consumed then erase text_dec r.access_id access else access)

-- `revokeFamilyLocked` of a family that is there.
unfoldable pub revoke_present : String → Store → Store
unfolding drop_access
revoke_present id s = record s {
  access = drop_access id s.refresh s.access;
  refresh = retain text_dec (λ hash r. not (r.family_id == id)) s.refresh;
  families = erase text_dec id s.families;
}

unfoldable pub revoke_family : String → Store → Store
unfolding revoke_present
revoke_family id s = elim (lookup text_dec id s.families) [
  | none ↦ s
  | some _ ↦ revoke_present id s
]

unfoldable pub refresh_request : RefreshRecord → RefreshRequest
refresh_request r = record {
  client_id = r.client_id;
  subject = r.subject;
  family_id = r.family_id;
  audience = r.audience;
  scopes = r.scopes;
  amr = r.amr;
  auth_time = r.auth_time;
  access_audience_returned = false;
}

-- `family == nil || family.revoked || !now.Before(family.expires)` fails.
unfoldable pub is_usable : Time → Option RefreshFamily → Bool
is_usable now none = false
is_usable now (some family) = not family.revoked && ltb now family.expires

unfoldable pub request_by_record : Store → Time → RefreshRecord → Store × Result RefreshRequest
unfolding is_usable refresh_request
request_by_record s now r =
    if r.consumed
    then (revoke_family r.family_id s, err invalid_grant)
    else if is_usable now (lookup text_dec r.family_id s.families)
    then (s, ok (refresh_request r))
    else (s, err invalid_grant)

-- The loop of `TerminateSession` over the access tokens, for the families that it collects.
unfoldable pub access_families : String → String → Map String AccessRecord → List String
access_families subject client_id [] = []
access_families subject client_id ((id, r) ∷ rest) =
    let found = access_families subject client_id rest in
    if r.subject == subject && r.client_id == client_id && not (r.family_id == "")
    then r.family_id ∷ found
    else found

-- The loop over the families; it adds to the set.
unfoldable pub session_families :
    String → String → Map String RefreshFamily → List String → List String
session_families subject client_id [] found = found
session_families subject client_id ((id, f) ∷ rest) found =
    let more = session_families subject client_id rest found in
    if f.subject == subject && f.client_id == client_id then id ∷ more else more

-- The set may hold a key twice here; revoking a family again does nothing.
unfoldable pub revoke_all : List String → Store → Store
revoke_all [] s = s
revoke_all (id ∷ rest) s = revoke_all rest (revoke_family id s)

unfoldable pub end_sessions : String → String → Store → Store
end_sessions subject client_id s =
    revoke_all
      (session_families subject client_id s.families (access_families subject client_id s.access))
      (record s {
        access =
            retain text_dec (λ id r. not (r.subject == subject && r.client_id == client_id))
              s.access;
      })

unfoldable pub terminate_session : Store → Time → String → String → Store × Result (Unit {0})
terminate_session s now subject client_id =
    if subject == "" || client_id == ""
    then (s, err logout_unverified)
    else (end_sessions subject client_id (prune now s), ok tt)

-- `RevokeToken` for an access token of the client.
unfoldable pub revoke_access : Store → String → AccessRecord → Store
revoke_access s id r =
    let s' = record s { access = erase text_dec id s.access } in
    if r.family_id == "" then s' else revoke_family r.family_id s'

-- `RevokeToken` for a refresh token, by what is found under its hash.
unfoldable pub revoke_refresh : Store → String → Option RefreshRecord → Store
revoke_refresh s client_id none = s
revoke_refresh s client_id (some r) =
    if r.client_id == client_id then revoke_family r.family_id s else s

unfoldable pub is_unrevoked : Option RefreshFamily → Bool
is_unrevoked none = false
is_unrevoked (some family) = not family.revoked

module _ (crypto : Crypto) where
  open crypto use {sum256}

  unfoldable pub token_request_by_refresh_token :
      Store → Time → String → Store × Result RefreshRequest
  token_request_by_refresh_token s now token =
      let s' = prune now s in
      elim (lookup text_dec (sum256 token) s'.refresh) [
        | none ↦ (s', err invalid_refresh_token)
        | some r ↦ request_by_record s' now r
      ]

  -- The subject and the token.
  unfoldable pub get_refresh_token_info :
      Store → Time → String → String → Store × Result (String × String)
  unfolding is_unrevoked
  get_refresh_token_info s now client_id token =
      let s' = prune now s in
      elim (lookup text_dec (sum256 token) s'.refresh) [
        | none ↦ (s', err invalid_refresh_token)
        | some r ↦
            if not (r.client_id == client_id)
              || r.consumed
              || not (is_unrevoked (lookup text_dec r.family_id s'.families))
            then (s', err invalid_refresh_token)
            else (s', ok (r.subject, token))
      ]

  -- It returns no error whatever the token is.
  unfoldable pub revoke_token : Store → Time → String → String → Store
  revoke_token s now token client_id =
      let s' = prune now s in
      let access = or_zero (lookup text_dec token s'.access) zero_access in
      if access.id == ""
      then revoke_refresh s' client_id (lookup text_dec (sum256 token) s'.refresh)
      else if access.client_id == client_id
      then revoke_access s' token access
      else s'
