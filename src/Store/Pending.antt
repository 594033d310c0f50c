-- ===== src/Store/Pending.antt =====
-- internal/idp/storage.go: the bound on pending authorization requests, `maxPendingAuthRequests`.
use hoocloak.Base.{◌≤◌, String, List, arith, text_dec, ltb}
use hoocloak.Base.Map.{size}
use hoocloak.Base.Map.Size.{size-erase, size-insert, size-retain}
use hoocloak.Store.Types.{
  Time, Ref, AuthRequest, Store, TokenRequest, auth, refresh, service, other, Crypto,
}
use hoocloak.Store.Prune.{prune}
use hoocloak.Store.Requests.{
  max_pending_auth_requests, store_request, write, save_code, delete_auth_request, get_audience,
}
use hoocloak.Config.{User}
use hoocloak.Store.Login.{complete_authentication}
use hoocloak.Store.Access.{reserve_authorization_code}
use hoocloak.Store.Calls.{Call, run}
use hoocloak.Store.Calls.Fresh.{AllFresh}
use hoocloak.Store.Calls.Kept.{IsKept}
use hoocloak.Store.Calls.Induction.{run-IsKept}
use hoocloak.Store.Codes.Untouched.{
  SameRequests, put_access-SameRequests, revoke_family-SameRequests, revoke_access-SameRequests,
  end_sessions-SameRequests, choose_and_issue-SameRequests,
}

abbrev pub IsBounded : Store → Type 0
IsBounded s = size s.auth_requests ≤ max_pending_auth_requests

same-IsBounded : {s t : Store} → SameRequests s t → IsBounded s → IsBounded t
same-IsBounded same h = ground (arith, same.auth_requests, h)

prune-IsBounded : (now : Time) (s : Store) → IsBounded s → IsBounded (prune now s)
unfolding prune
prune-IsBounded now s h =
    ground (arith, size-retain text_dec (λ id p. ltb now (s.heap p).expires) s.auth_requests)

store_request-IsBounded :
    (s : Store) (a : AuthRequest) → IsBounded s → IsBounded (store_request s a).0
unfolding store_request
store_request-IsBounded s a h = ground (arith, size-insert text_dec a.id s.next_ref s.auth_requests)

save_code-IsBounded :
    (s : Store) (now : Time) (id code : String) (p : Ref)
    → IsBounded s
    → IsBounded (save_code s now id code p).0
unfolding save_code
save_code-IsBounded s now id code p h = ground arith

delete_auth_request-IsBounded :
    (s : Store) (id : String) → IsBounded s → IsBounded (delete_auth_request s id).0
unfolding delete_auth_request
delete_auth_request-IsBounded s id h = ground (arith, size-erase text_dec id s.auth_requests)

complete_authentication-IsBounded :
    (s : Store) (id : String) (user : User) (now : Time) (method : String)
    → IsBounded s
    → IsBounded (complete_authentication s id user now method).0
unfolding complete_authentication
complete_authentication-IsBounded s id user now method h = ground arith

get_audience-IsBounded : (s : Store) (p : Ref) → IsBounded s → IsBounded (get_audience s p).0
unfolding get_audience
get_audience-IsBounded s p h = ground arith

reserve_authorization_code-IsBounded :
    (s : Store) (request : TokenRequest)
    → IsBounded s
    → IsBounded (reserve_authorization_code s request).0
unfolding reserve_authorization_code
reserve_authorization_code-IsBounded s (auth p) h = ground arith
reserve_authorization_code-IsBounded s (refresh r) h = h
reserve_authorization_code-IsBounded s (service r) h = h
reserve_authorization_code-IsBounded s (other _ _) h = h

IsBounded-kept : (crypto : Crypto) → IsKept crypto IsBounded
unfolding write
IsBounded-kept crypto = record {
  prunes = prune-IsBounded;
  stores = λ s request client id user now _ h. store_request-IsBounded s _ h;
  saves = λ s now id code p _ h. save_code-IsBounded s now id code p h;
  deletes = delete_auth_request-IsBounded;
  completes = complete_authentication-IsBounded;
  hashes = λ s id p hash _ h. h;
  audits = get_audience-IsBounded;
  reserves = reserve_authorization_code-IsBounded;
  puts = λ s id info subject audience scopes expires now _ _ h.
      same-IsBounded (put_access-SameRequests s _) h;
  issues = λ s now random request info hash access_id current _ _ _ h.
      same-IsBounded
        (choose_and_issue-SameRequests crypto s now random request info hash access_id current) h;
  revokes = λ s id h. same-IsBounded (revoke_family-SameRequests s id) h;
  revokes_access = λ s id client_id r _ h. same-IsBounded (revoke_access-SameRequests s id r) h;
  ends = λ s subject client_id h. same-IsBounded (end_sessions-SameRequests s subject client_id) h;
}

-- After any calls with new identifiers at most 1024 authorization requests are pending, if no more
-- were before them.
pub run-IsBounded :
    (crypto : Crypto) (s : Store) (calls : List Call)
    → AllFresh crypto s calls
    → IsBounded s
    → IsBounded (run crypto s calls)
run-IsBounded crypto s calls = run-IsKept crypto IsBounded (IsBounded-kept crypto) s calls
