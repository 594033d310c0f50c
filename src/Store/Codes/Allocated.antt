-- ===== src/Store/Codes/Allocated.antt =====
-- Every call keeps the pointers of the requests allocated and their codes saved.
use hoocloak.Base.{String, List, arith, text_dec, inl, inr, Bool-cases, leb}
use hoocloak.Base.Map.{size}
use hoocloak.Base.Map.Laws.{lookup-erase, lookup-insert}
use hoocloak.Client.{Client}
use hoocloak.Config.{User}
use hoocloak.Store.Types.{Time, Ref, Store, TokenRequest, auth, refresh, service, other, Crypto}
use hoocloak.Store.Requests.{
  OidcRequest, new_auth_request, store_request, max_pending_auth_requests, save_code,
  delete_auth_request, get_audience,
}
use hoocloak.Store.Login.{complete_authentication}
use hoocloak.Store.Access.{reserve_authorization_code}
use hoocloak.Store.Calls.{Call, run}
use hoocloak.Store.Calls.Fresh.{AllFresh}
use hoocloak.Store.Calls.Induction.{run-IsKept}
use hoocloak.Store.Calls.Kept.{IsKept}
use hoocloak.Store.Codes.{IsAllocated}
use hoocloak.Store.Codes.Kept.Requests.{same-IsAllocated, prune-IsAllocated, write-IsAllocated}
use hoocloak.Store.Codes.Untouched.{
  put_access-SameRequests, revoke_family-SameRequests, revoke_access-SameRequests,
  end_sessions-SameRequests, choose_and_issue-SameRequests,
}

store_request-IsAllocated :
    (s : Store) (request : OidcRequest) (client : Client) (id user : String) (now : Time)
    → IsAllocated s
    → IsAllocated (store_request s (new_auth_request request client id user now)).0
unfolding store_request new_auth_request
store_request-IsAllocated s request client id user now h =
    elim (Bool-cases (leb max_pending_auth_requests (size s.auth_requests))) [
      | inl full ↦ rw (full, store_request) h
      | inr room ↦
          rw (room, store_request)
            (record {
              below = λ j q e.
                  ground
                    (arith, lookup-insert text_dec id j s.next_ref s.auth_requests, h.below j q);
              coded = λ q e. ground (arith, h.coded q);
            })
    ]

save_code-IsAllocated :
    (s : Store) (now : Time) (id code : String) (q : Ref)
    → IsAllocated s
    → IsAllocated (save_code s now id code q).0
unfolding save_code
save_code-IsAllocated s now id code q h = record {
  below = λ j p e. ground (arith, h.below j p);
  coded = λ p e. ground (arith, h.coded p);
}

delete_auth_request-IsAllocated :
    (s : Store) (id : String) → IsAllocated s → IsAllocated (delete_auth_request s id).0
unfolding delete_auth_request
delete_auth_request-IsAllocated s id h = record {
  below = λ j p e. ground (arith, lookup-erase text_dec id j s.auth_requests, h.below j p);
  coded = λ p e. ground (arith, h.coded p);
}

complete_authentication-IsAllocated :
    (s : Store) (id : String) (user : User) (now : Time) (method : String)
    → IsAllocated s
    → IsAllocated (complete_authentication s id user now method).0
unfolding complete_authentication
complete_authentication-IsAllocated s id user now method h = record {
  below = λ j p e. ground (arith, h.below j p);
  coded = λ p e. ground (arith, h.coded p);
}

get_audience-IsAllocated : (s : Store) (q : Ref) → IsAllocated s → IsAllocated (get_audience s q).0
unfolding get_audience
get_audience-IsAllocated s q h = record {
  below = λ j p e. ground (arith, h.below j p);
  coded = λ p e. ground (arith, h.coded p, h.coded q);
}

reserve_authorization_code-IsAllocated :
    (s : Store) (request : TokenRequest)
    → IsAllocated s
    → IsAllocated (reserve_authorization_code s request).0
unfolding reserve_authorization_code
reserve_authorization_code-IsAllocated s (auth q) h = record {
  below = λ j p e. ground (arith, h.below j p);
  coded = λ p e. ground (arith, h.coded p);
}
reserve_authorization_code-IsAllocated s (refresh r) h = h
reserve_authorization_code-IsAllocated s (service r) h = h
reserve_authorization_code-IsAllocated s (other _ _) h = h

IsAllocated-kept : (crypto : Crypto) → IsKept crypto IsAllocated
IsAllocated-kept crypto = record {
  prunes = prune-IsAllocated;
  stores =
      λ s request client id user now _ h. store_request-IsAllocated s request client id user now h;
  saves = λ s now id code p _ h. save_code-IsAllocated s now id code p h;
  deletes = delete_auth_request-IsAllocated;
  completes = complete_authentication-IsAllocated;
  hashes = λ s id q hash _ h.
      write-IsAllocated q (record (s.heap q) { completion_hash = hash }) s (h.coded q) h;
  audits = get_audience-IsAllocated;
  reserves = reserve_authorization_code-IsAllocated;
  puts = λ s id info subject audience scopes expires now _ _ h.
      same-IsAllocated (put_access-SameRequests s _) h;
  issues = λ s now random request info hash access_id current _ _ _ h.
      same-IsAllocated
        (choose_and_issue-SameRequests crypto s now random request info hash access_id current) h;
  revokes = λ s id h. same-IsAllocated (revoke_family-SameRequests s id) h;
  revokes_access = λ s id client_id r _ h. same-IsAllocated (revoke_access-SameRequests s id r) h;
  ends =
      λ s subject client_id h. same-IsAllocated (end_sessions-SameRequests s subject client_id) h;
}

-- After any calls with new identifiers, if it held before them, every pointer of the request map is
-- allocated and every request with a code has the mark that its code was saved.
pub run-IsAllocated :
    (crypto : Crypto) (s : Store) (calls : List Call)
    → AllFresh crypto s calls
    → IsAllocated s
    → IsAllocated (run crypto s calls)
run-IsAllocated crypto s calls = run-IsKept crypto IsAllocated (IsAllocated-kept crypto) s calls
