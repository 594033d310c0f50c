-- ===== src/Store/Codes/Kept.antt =====
-- No call makes a code usable again.
pub mod Requests
use hoocloak.Base.{
  ◌≡◌, ◌≢◌, refl, String, true, false, not, ◌||◌, Option, none, some, arith, text_dec, inl, inr,
  Option-cases, Bool-cases, suc, leb, ltb, ite,
}
use hoocloak.Base.Map.{lookup, erase, insert, size}
use hoocloak.Base.Map.Laws.{lookup-erase, lookup-insert}
use hoocloak.Client.{Client}
use hoocloak.Config.{User}
use hoocloak.Store.Types.{
  Time, Ref, AuthRequest, CodeRecord, Store, TokenRequest, auth, refresh, service, other, Crypto,
}
use hoocloak.Store.Prune.{schedule_expiry, prune}
use hoocloak.Store.Prune.View.{
  Shrinks, prune-heap, prune-next_ref, prune-requests-Shrinks, prune-codes-Shrinks,
}
use hoocloak.Store.Requests.{
  OidcRequest, new_auth_request, store_request, max_pending_auth_requests, write, ref_dec,
  save_code, code_record, delete_auth_request, get_audience,
}
use hoocloak.Store.Login.{complete_authentication, completed}
use hoocloak.Store.Access.{reserve_authorization_code, reserve_auth_request}
use hoocloak.Store.Calls.Kept.{IsKept}
use hoocloak.Store.Codes.{IsAllocated, IsExhausted, Refuses}
use hoocloak.Store.Codes.Untouched.{
  SameRequests, put_access-SameRequests, revoke_family-SameRequests, revoke_access-SameRequests,
  end_sessions-SameRequests, choose_and_issue-SameRequests,
}
use hoocloak.Store.Codes.Kept.Requests.{
  same-IsAllocated, prune-IsAllocated, write-IsAllocated, Refuses-Shrinks, same-IsExhausted,
  prune-IsExhausted, write-IsExhausted, store_request-IsExhausted, save_code-IsExhausted,
}

module _ (p : Ref) where
  delete_auth_request-IsExhausted :
      (s : Store) (id : String) → IsExhausted p s → IsExhausted p (delete_auth_request s id).0
  unfolding delete_auth_request
  delete_auth_request-IsExhausted s id h =
      elim (Option-cases (lookup text_dec id s.auth_requests)) [
        | inl e ↦ rw (e, delete_auth_request) h
        | inr (q, e) ↦ ground (arith, e, h, deleted (s.heap q).code)
      ]
    where
      deleted :
          (code : String)
          → IsExhausted p (record s {
            codes = erase text_dec code s.codes;
            auth_requests = erase text_dec id s.auth_requests;
          })
      deleted code = record {
        allocated = record {
          below = λ j q e.
              ground (arith, lookup-erase text_dec id j s.auth_requests, h.allocated.below j q);
          coded = h.allocated.coded;
        };
        below = h.below;
        saved = h.saved;
        refused = λ e. ground (
          arith,
          h.refused (ground (arith, lookup-erase text_dec id (s.heap p).id s.auth_requests)),
          lookup-erase text_dec code (s.heap p).code s.codes,
        );
      }

  complete_authentication-IsExhausted :
      (s : Store) (id : String) (user : User) (now : Time) (method : String)
      → IsExhausted p s
      → IsExhausted p (complete_authentication s id user now method).0
  unfolding complete_authentication
  complete_authentication-IsExhausted s id user now method h =
      elim (Option-cases (lookup text_dec id s.auth_requests)) [
        | inl e ↦ rw (e, complete_authentication) h
        | inr (q, e) ↦ elim (Option-cases (lookup text_dec (s.heap q).client_id s.clients)) [
          | inl f ↦ ground (arith, e, f, h)
          | inr (client, f) ↦ ground (
            arith,
            e,
            f,
            h,
            write-IsExhausted p q (completed (s.heap q) client user now method) s refl refl refl h,
          )
        ]
      ]

  get_audience-IsExhausted :
      (s : Store) (q : Ref) → IsExhausted p s → IsExhausted p (get_audience s q).0
  unfolding get_audience
  get_audience-IsExhausted s q h = ground (
    arith,
    h,
    write-IsExhausted p q (record (s.heap q) { access_audience_returned = true }) s refl refl refl
        h,
  )

  reserve_auth_request-IsExhausted :
      (s : Store) (q : Ref) → IsExhausted p s → IsExhausted p (reserve_auth_request s q).0
  unfolding reserve_auth_request
  reserve_auth_request-IsExhausted s q h =
      elim (Option-cases (lookup text_dec (s.heap q).code s.codes)) [
        | inl e ↦ ground (arith, e, h)
        | inr (r, e) ↦ ground (arith, e, h, reserved r)
      ]
    where
      reserved :
          (r : CodeRecord)
          → IsExhausted p (record s {
            codes = insert text_dec (s.heap q).code (record r { reserved = true }) s.codes;
          })
      reserved r = record {
        allocated = record { below = h.allocated.below; coded = h.allocated.coded };
        below = h.below;
        saved = h.saved;
        refused = λ e. ground (
          arith,
          h.refused e,
          lookup-insert text_dec (s.heap q).code (s.heap p).code (record r { reserved = true })
              s.codes,
        );
      }

  reserve_authorization_code-IsExhausted :
      (s : Store) (request : TokenRequest)
      → IsExhausted p s
      → IsExhausted p (reserve_authorization_code s request).0
  unfolding reserve_authorization_code
  reserve_authorization_code-IsExhausted s (auth q) h = reserve_auth_request-IsExhausted s q h
  reserve_authorization_code-IsExhausted s (refresh r) h = h
  reserve_authorization_code-IsExhausted s (service r) h = h
  reserve_authorization_code-IsExhausted s (other _ _) h = h

  pub IsExhausted-kept : (crypto : Crypto) → IsKept crypto (IsExhausted p)
  IsExhausted-kept crypto = record {
    prunes = prune-IsExhausted p;
    stores = λ s request client id user now _ h.
        store_request-IsExhausted p s request client id user now h;
    saves = save_code-IsExhausted p;
    deletes = delete_auth_request-IsExhausted;
    completes = complete_authentication-IsExhausted;
    hashes = λ s id q hash _ h.
        write-IsExhausted p q (record (s.heap q) { completion_hash = hash }) s refl refl refl h;
    audits = get_audience-IsExhausted;
    reserves = reserve_authorization_code-IsExhausted;
    puts = λ s id info subject audience scopes expires now _ _ h.
        same-IsExhausted p (put_access-SameRequests s _) h;
    issues = λ s now random request info hash access_id current _ _ _ h.
        same-IsExhausted p
          (choose_and_issue-SameRequests crypto s now random request info hash access_id current) h;
    revokes = λ s id h. same-IsExhausted p (revoke_family-SameRequests s id) h;
    revokes_access =
        λ s id client_id r _ h. same-IsExhausted p (revoke_access-SameRequests s id r) h;
    ends = λ s subject client_id h.
        same-IsExhausted p (end_sessions-SameRequests s subject client_id) h;
  }
