-- ===== src/Store/Tokens.antt =====
-- internal/idp/storage.go: refresh-token families and `CreateAccessAndRefreshTokens`.
pub mod Choose
use hoocloak.Store.Access.{
  TokenInfo, token_request_info, get_subject, get_scopes, is_stored, reserve_code,
  reserve_auth_request, reserve_authorization_code, access_record, put_access, create_access_token,
}
use hoocloak.Base.{
  ◌+◌, String, List, [], ◌∷◌, ◌++◌, Bool, true, false, not, ◌&&◌, ◌||◌, Option, none, some, ◌==◌,
  ltb, text_dec, if◌then◌else◌,
}
use hoocloak.Base.Map.{lookup, erase, insert}
use hoocloak.Store.Prune.{schedule_expiry, prune}
use hoocloak.Store.Requests.{ref_dec}
use hoocloak.Store.Sessions.{consume_refresh_record, compact_family_tokens, revoke_family}
use hoocloak.Store.Types.{
  Time, Hash, Ref, AuthRequest, CodeRecord, AccessRecord, RefreshRecord, RefreshFamily, Store,
  TokenRequest, auth, refresh, service, other, Crypto, Result, ok, err, invalid_grant, rand_failed,
  unsupported_token_request, panic_nil_client,
}

unfoldable pub new_family : String → String → String → Time → RefreshFamily
new_family id client_id subject expires = record {
  id = id;
  client_id = client_id;
  subject = subject;
  expires = expires;
  revoked = false;
  tokens = [];
}

-- The branch for `current == ""`: a new family, under its key in the map.
unfoldable pub start_family :
    Store → Time → Option String → String → String → Store × Result (String × RefreshFamily)
unfolding new_family schedule_expiry
start_family s now random client_id subject = elim random [
  | none ↦ (s, err rand_failed)
  | some id ↦
      let family = new_family id client_id subject (now + s.tokens.refresh_ttl) in
      (
        schedule_expiry family.expires
            (record s { families = insert text_dec id family s.families }),
        ok (id, family),
      )
]

-- The family without the tokens that are consumed, the old one among them.
unfoldable pub spent_family : Store → Hash → RefreshRecord → RefreshFamily → RefreshFamily
unfolding consume_refresh_record compact_family_tokens
spent_family s hash old family =
    compact_family_tokens (insert text_dec hash (consume_refresh_record old) s.refresh) family

-- The old token is spent: its record is consumed, its access token goes, and it leaves the index.
unfoldable pub spend : Store → Hash → RefreshRecord → RefreshFamily → Store
unfolding spent_family
spend s hash old family = record s {
  refresh = insert text_dec hash (consume_refresh_record old) s.refresh;
  access = erase text_dec old.access_id s.access;
  families = insert text_dec old.family_id (spent_family s hash old family) s.families;
}

-- `family == nil || family.revoked || !now.Before(family.expires) || old.clientID != clientID`
-- fails, for the family of the record.
unfoldable pub may_rotate : Time → String → RefreshRecord → RefreshFamily → Bool
may_rotate now client_id old family =
    not family.revoked && ltb now family.expires && old.client_id == client_id

-- The branch for a current token, by its hash: its family, under its key in the map.
unfoldable pub rotate_family :
    Store → Time → Hash → String → Store × Result (String × RefreshFamily)
unfolding spend may_rotate
rotate_family s now hash client_id = elim (lookup text_dec hash s.refresh) [
  | none ↦ (s, err invalid_grant)
  | some old ↦
      if old.consumed
      then (revoke_family old.family_id s, err invalid_grant)
      else elim (lookup text_dec old.family_id s.families) [
        | none ↦ (s, err invalid_grant)
        | some family ↦
            if may_rotate now client_id old family
            then (spend s hash old family, ok (old.family_id, spent_family s hash old family))
            else (s, err invalid_grant)
      ]
]

unfoldable pub refresh_record :
    String → TokenInfo → String → List String → List String → String → RefreshRecord
refresh_record family_id info subject audience scopes access_id = record {
  family_id = family_id;
  client_id = info.client_id;
  subject = subject;
  audience = audience;
  scopes = scopes;
  amr = info.amr;
  auth_time = info.auth_time;
  consumed = false;
  access_id = access_id;
}

-- The end of `CreateAccessAndRefreshTokens`: the token joins the index of the family at `key`,
-- and both records are written.
unfoldable pub put_tokens :
    Store → String → RefreshFamily → Hash → RefreshRecord → AccessRecord → Store
unfolding put_access
put_tokens s key family hash r a =
    put_access
      (record s {
        families =
            insert text_dec key (record family { tokens = family.tokens ++ hash ∷ [] }) s.families;
        refresh = insert text_dec hash r s.refresh;
      })
      a

-- From the family to the end.
unfoldable pub issue_tokens :
    Store
    → Time
    → TokenRequest
    → TokenInfo
    → Hash
    → String
    → String
    → RefreshFamily
    → Store × Result Time
unfolding put_tokens refresh_record access_record
issue_tokens s now request info hash access_id key family =
    elim (lookup text_dec info.client_id s.clients) [
      | none ↦ (s, err panic_nil_client)
      | some client ↦
          let audience = client.config.audiences in
          let scopes = get_scopes s request in
          let subject = get_subject s request in
          let expires = now + s.tokens.access_ttl in
          (
            put_tokens s key family hash
                (refresh_record family.id info subject audience scopes access_id)
                (access_record access_id info subject audience scopes expires now family.id),
            ok expires,
          )
    ]

module _ (crypto : Crypto) where
  open crypto use {sum256}

  unfoldable pub choose_family :
      Store
      → Time
      → Option String
      → TokenRequest
      → TokenInfo
      → String
      → Store × Result (String × RefreshFamily)
  choose_family s now random request info current =
      if current == ""
      then start_family s now random info.client_id (get_subject s request)
      else rotate_family s now (sum256 current) info.client_id

  -- `CreateAccessAndRefreshTokens` once the code is reserved.
  unfoldable pub choose_and_issue :
      Store
      → Time
      → Option String
      → TokenRequest
      → TokenInfo
      → Hash
      → String
      → String
      → Store × Result Time
  unfolding choose_family
  choose_and_issue s now random request info hash access_id current =
      let (s', chosen) = choose_family s now random request info current in
      elim chosen [
        | err e ↦ (s', err e)
        | ok (key, family) ↦ issue_tokens s' now request info hash access_id key family
      ]

  -- `CreateAccessAndRefreshTokens`; the three arguments after the time are what the calls of
  -- `randomID` return, for the token, the access token's ID and a new family.
  unfoldable pub create_access_and_refresh_tokens :
      Store
      → Time
      → Option String
      → Option String
      → Option String
      → TokenRequest
      → String
      → Store × Result (String × String × Time)
  unfolding choose_and_issue
  create_access_and_refresh_tokens s now new_token new_access new_family_id request current =
      elim (token_request_info s request) [
        | err e ↦ (s, err e)
        | ok info ↦ elim new_token [
          | none ↦ (s, err rand_failed)
          | some token ↦ elim new_access [
            | none ↦ (s, err rand_failed)
            | some access_id ↦
                let (s', reserved) = reserve_authorization_code (prune now s) request in
                elim reserved [
                  | err e ↦ (s', err e)
                  | ok _ ↦
                      let (s'', issued) =
                        choose_and_issue s' now new_family_id request info (sum256 token) access_id
                          current in
                      elim issued [
                        | err e ↦ (s'', err e)
                        | ok expires ↦ (s'', ok (access_id, token, expires))
                      ]
                ]
          ]
        ]
      ]
