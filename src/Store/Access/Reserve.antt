-- ===== src/Store/Access/Reserve.antt =====
-- `reserveAuthorizationCodeLocked` changes the codes and nothing else.
use hoocloak.Base.{◌≡◌, refl, arith}
use hoocloak.Store.Types.{Store, TokenRequest, auth, refresh, service, other}
use hoocloak.Store.Access.{reserve_authorization_code}

pub record SameButCodes (s t : Store) : Type 0 where
  pub tokens : t.tokens ≡ s.tokens
  pub next_expiry : t.next_expiry ≡ s.next_expiry
  pub clients : t.clients ≡ s.clients
  pub users : t.users ≡ s.users
  pub auth_requests : t.auth_requests ≡ s.auth_requests
  pub access : t.access ≡ s.access
  pub refresh : t.refresh ≡ s.refresh
  pub families : t.families ≡ s.families
  pub heap : t.heap ≡ s.heap
  pub next_ref : t.next_ref ≡ s.next_ref

SameButCodes-refl : (s : Store) → SameButCodes s s
SameButCodes-refl s = record {
  tokens = refl;
  next_expiry = refl;
  clients = refl;
  users = refl;
  auth_requests = refl;
  access = refl;
  refresh = refl;
  families = refl;
  heap = refl;
  next_ref = refl;
}

pub reserve_authorization_code-SameButCodes :
    (s : Store) (request : TokenRequest) → SameButCodes s (reserve_authorization_code s request).0
unfolding reserve_authorization_code
reserve_authorization_code-SameButCodes s (auth p) = ground arith
reserve_authorization_code-SameButCodes s (refresh r) = SameButCodes-refl s
reserve_authorization_code-SameButCodes s (service r) = SameButCodes-refl s
reserve_authorization_code-SameButCodes s (other _ _) = SameButCodes-refl s
