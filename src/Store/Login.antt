-- ===== src/Store/Login.antt =====
-- internal/idp/storage.go: credential checks, `Authenticate`, `SelectIdentity`, the completion
-- secrets and `LoginInfo`.
pub mod Grants
pub mod Secrets
pub mod Checks
pub mod Authenticated
use hoocloak.Base.{
  ℕ, ◌+◌, ◌-◌, String, List, [], ◌∷◌, Bool, true, false, not, ◌&&◌, ◌||◌, Option, none, some, ◌==◌,
  contains, or_zero, ltb, text_dec, if◌then◌else◌,
}
use hoocloak.Base.Map.{lookup}
use hoocloak.Client.{Client}
use hoocloak.Config.{User}
use hoocloak.Config.Text.{canonical_username}
use hoocloak.Store.Prune.{prune}
use hoocloak.Store.Requests.{write}
use hoocloak.Store.Types.{
  Time, AuthRequest, Store, Crypto, Result, ok, err, zero_hash, zero_user, rand_failed,
  request_missing, request_done, request_incomplete, client_unavailable, invalid_credentials,
  checks_busy, completion_denied,
}

abbrev pub dummy_password_hash : String
dummy_password_hash = "$2a$10$7EqJtq98hPqEX7fNZaFWoO5c1QUP5m6d43kYdV9He6Bpv/bVhhmeA"

-- The channel `credentialHashSlots`: its capacity, and how many values it holds.
pub record Slots : Type 0 where
  pub capacity : ℕ
  pub used : ℕ

-- The `select`: takes a slot, or fails when all are taken.
unfoldable pub take_slot : Slots → Result Slots
take_slot q = if ltb q.used q.capacity then ok (record q { used = q.used + 1 }) else err checks_busy

-- A check in bcrypt: the slots while it works, and what it finds.
pub record Comparison : Type 0 where
  pub slots : Slots
  pub matched : Bool

-- The deferred receive.
unfoldable pub release_slot : Slots → Slots
release_slot q = record q { used = q.used - 1 }

-- The scopes that need no permission of the user.
abbrev pub is_standard_scope : String → Bool
is_standard_scope scope =
    scope == "openid" || scope == "profile" || scope == "email" || scope == "offline_access"

-- One turn of the loop over the requested scopes.
unfoldable pub is_granted : Client → User → String → Bool
is_granted client user scope =
    contains client.config.allowed_scopes scope
    && (is_standard_scope scope || contains user.permissions scope)

unfoldable pub grant_scopes : Client → User → List String → List String
unfolding is_granted
grant_scopes client user [] = []
grant_scopes client user (scope ∷ rest) =
    let granted = grant_scopes client user rest in
    if is_granted client user scope then scope ∷ granted else granted

-- The request as `completeAuthenticationLocked` leaves it.
unfoldable pub completed : AuthRequest → Client → User → Time → String → AuthRequest
completed a client user now method = record a {
  subject = user.id;
  scopes = grant_scopes client user a.scopes;
  auth_time = now;
  amr = method ∷ [];
  done = true;
}

unfoldable pub complete_authentication :
    Store → String → User → Time → String → Store × Result (Unit {0})
unfolding completed write
complete_authentication s request_id user now method =
    elim (lookup text_dec request_id s.auth_requests) [
      | none ↦ (s, err request_missing)
      | some p ↦
          let a = s.heap p in
          if a.done then (s, err request_done) else elim (lookup text_dec a.client_id s.clients) [
            | none ↦ (s, err client_unavailable)
            | some client ↦ (write p (completed a client user now method) s, ok tt)
          ]
    ]

unfoldable pub select_identity : Store → Time → String → String → Store × Result (Unit {0})
select_identity s now request_id user_id =
    let s' = prune now s in
    elim (lookup text_dec user_id s'.users) [
      | none ↦ (s', err invalid_credentials)
      | some user ↦ complete_authentication s' request_id user now "dev-select"
    ]

-- `LoginInfo`: the name to show for the request's client.
unfoldable pub login_info : Store → Time → String → Store × Result String
login_info s now request_id =
    let s' = prune now s in
    elim (lookup text_dec request_id s'.auth_requests) [
      | none ↦ (s', err request_missing)
      | some p ↦ elim (lookup text_dec (s'.heap p).client_id s'.clients) [
        | none ↦ (s', err client_unavailable)
        | some client ↦
            (s', ok (if client.config.name == "" then client.config.id else client.config.name))
      ]
    ]

-- What `Authenticate` has read under its first lock.
pub record LoginCheck : Type 0 where
  pub request_ok : Bool
  pub user_ok : Bool
  pub user : User
  pub hash : String
  pub default_password : Bool

abbrev pub is_done : Store → Option ℕ → Bool
is_done s none = false
is_done s (some p) = (s.heap p).done

abbrev pub is_some : {A : Type 0} → Option A → Bool
is_some none = false
is_some (some _) = true

module _ (crypto : Crypto) where
  open crypto use {sum256, matches, fold}

  -- `compareCredential` up to its return: a slot is held while bcrypt works, and is given back then.
  unfoldable pub begin_comparison : Slots → String → String → Result Comparison
  unfolding take_slot
  begin_comparison q hash secret = elim (take_slot q) [
    | err e ↦ err e
    | ok q' ↦ ok (record { slots = q'; matched = matches hash secret })
  ]

  unfoldable pub compare_credential : Slots → String → String → Result Bool
  unfolding begin_comparison
  compare_credential q hash secret = elim (begin_comparison q hash secret) [
    | err e ↦ err e
    | ok c ↦ ok c.matched
  ]

  unfoldable pub login_check : Store → String → String → LoginCheck
  login_check s request_id username =
      let user_id = lookup text_dec (canonical_username fold username) s.usernames in
      let user = or_zero (lookup text_dec (or_zero user_id "") s.users) zero_user in
      let user_ok = is_some user_id in
      let default_password = user_ok && user.password_hash == "" in
      record {
        request_ok = is_some (lookup text_dec request_id s.auth_requests);
        user_ok = user_ok;
        user = user;
        hash = if user_ok && not default_password then user.password_hash else dummy_password_hash;
        default_password = default_password;
      }

  -- The first critical section.
  unfoldable pub authenticate_start : Store → Time → String → String → Store × Result LoginCheck
  unfolding login_check
  authenticate_start s now request_id username =
      let s' = prune now s in
      if is_done s' (lookup text_dec request_id s'.auth_requests)
      then (s', err request_done)
      else (s', ok (login_check s' request_id username))

  -- Between the locks: the password check and what it decides.
  unfoldable pub authenticate_check : Slots → LoginCheck → String → Result (Unit {0})
  authenticate_check q c password = elim (compare_credential q c.hash password) [
    | err e ↦ err e
    | ok matched ↦
        let password_ok = if c.default_password then password == "hoo" else matched in
        if not c.request_ok
        then err request_missing
        else if not c.user_ok || not password_ok
        then err invalid_credentials
        else ok tt
  ]

  -- The whole call. The lock is free while the password is checked: `meanwhile` is what other
  -- calls do to the store in that time, and `q` are the slots when the check begins.
  unfoldable pub authenticate :
      Store
      → (Store → Store)
      → Slots
      → Time
      → Time
      → String
      → String
      → String
      → Store × Result (Unit {0})
  authenticate s meanwhile q now later request_id username password =
      let (s', started) = authenticate_start s now request_id username in
      elim started [
        | err e ↦ (s', err e)
        | ok c ↦ elim (authenticate_check q c password) [
          | err e ↦ (meanwhile s', err e)
          | ok _ ↦
              complete_authentication (prune later (meanwhile s')) request_id c.user later "pwd"
        ]
      ]

  -- `random` is what `randomID` returns.
  unfoldable pub issue_completion_secret :
      Store → Time → Option String → String → Store × Result String
  unfolding write
  issue_completion_secret s now random request_id =
      let s' = prune now s in
      elim (lookup text_dec request_id s'.auth_requests) [
        | none ↦ (s', err request_incomplete)
        | some p ↦ if not (s'.heap p).done then (s', err request_incomplete) else elim random [
          | none ↦ (s', err rand_failed)
          | some secret ↦
              (write p (record (s'.heap p) { completion_hash = sum256 secret }) s', ok secret)
        ]
      ]

  unfoldable pub consume_completion_secret :
      Store → Time → String → String → Store × Result (Unit {0})
  unfolding write
  consume_completion_secret s now request_id secret =
      let s' = prune now s in
      elim (lookup text_dec request_id s'.auth_requests) [
        | none ↦ (s', err completion_denied)
        | some p ↦
            let stored = (s'.heap p).completion_hash in
            if stored == zero_hash || not (stored == sum256 secret)
            then (s', err completion_denied)
            else (write p (record (s'.heap p) { completion_hash = zero_hash }) s', ok tt)
      ]
