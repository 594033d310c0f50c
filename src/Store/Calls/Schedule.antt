-- ===== src/Store/Calls/Schedule.antt =====
-- Every call keeps the expiry schedule right.
mod Parts
mod Requests
mod Sessions
mod Issue
use hoocloak.Base.{
  ◌≡◌, refl, ◌<◌, ◌+◌, inl, inr, ite, String, true, Option, none, some, List, [], ◌∷◌, suc, arith,
  text_dec, Bool-cases, Option-cases, leb, ltb, not, ◌&&◌, ◌==◌, ◌||◌,
}
use hoocloak.Base.Map.{Map, lookup, erase, insert, retain, size}
use hoocloak.Base.Map.Every.{
  Every-mono, Every-and, Every-insert, Every-erase, Every-retain, Every-lookup,
}
use hoocloak.Client.{Client}
use hoocloak.Config.{User}
use hoocloak.Store.Types.{
  Time, Hash, Ref, AuthRequest, CodeRecord, AccessRecord, RefreshRecord, RefreshFamily, Store,
  TokenRequest, auth, refresh, service, other, Crypto, Result-cases, ok,
}
use hoocloak.Store.Prune.{schedule_expiry, earliest}
use hoocloak.Store.Prune.Schedule.{
  Due, AllDue, AllDue-earliest, earliest-Due, IsScheduled, prune-IsScheduled,
}
use hoocloak.Store.Requests.{
  OidcRequest, new_auth_request, store_request, max_pending_auth_requests, write, ref_dec,
  save_code, code_record, delete_auth_request, get_audience,
}
use hoocloak.Store.Login.{complete_authentication, completed}
use hoocloak.Store.Sessions.{
  revoke_family, drop_access, end_sessions, compact_family_tokens, revoke_all, revoke_access,
}
use hoocloak.Store.Access.{
  reserve_authorization_code, reserve_auth_request, put_access, access_record, get_subject,
  TokenInfo,
}
use hoocloak.Store.Tokens.{
  start_family, rotate_family, spend, spent_family, choose_family, issue_tokens, choose_and_issue,
  new_family,
}
use hoocloak.Store.Tokens.Choose.{choose_family_cases}
use hoocloak.Store.Calls.Induction.{run-IsKept}
use hoocloak.Store.Calls.Fresh.{AllFresh}
use hoocloak.Store.Calls.Kept.{IsKept}
use hoocloak.Store.Calls.{Call, run}
use hoocloak.Store.Calls.Schedule.Parts.{
  write-IsScheduled, schedule_expiry-IsScheduled, put_access-IsScheduled, replace-IsScheduled,
}
use hoocloak.Store.Calls.Schedule.Requests.{
  store_request-IsScheduled, save_code-IsScheduled, delete_auth_request-IsScheduled,
  complete_authentication-IsScheduled, get_audience-IsScheduled, reserve_auth_request-IsScheduled,
  reserve_authorization_code-IsScheduled,
}
use hoocloak.Store.Calls.Schedule.Sessions.{
  drop_access-AllDue, revoke_family-IsScheduled, revoke_all-IsScheduled, end_sessions-IsScheduled,
  revoke_access-IsScheduled,
}
use hoocloak.Store.Calls.Schedule.Issue.{
  spend-IsScheduled, start_family-IsScheduled, rotate_family-IsScheduled, choose_family-IsScheduled,
  choose_family-Due, issue_tokens-IsScheduled, choose_and_issue-IsScheduled,
}

module _ (crypto : Crypto) where
  schedule_kept : IsKept crypto IsScheduled
  unfolding put_access access_record
  schedule_kept = record {
    prunes = prune-IsScheduled;
    stores =
        λ s request client id user now _. store_request-IsScheduled s request client id user now;
    saves = save_code-IsScheduled;
    deletes = delete_auth_request-IsScheduled;
    completes = complete_authentication-IsScheduled;
    hashes = λ s id p hash _. write-IsScheduled p _ s refl;
    audits = get_audience-IsScheduled;
    reserves = reserve_authorization_code-IsScheduled;
    puts = λ s id info subject audience scopes expires now _ e h.
        put_access-IsScheduled s _ (omega arith) h;
    issues = λ s now random request info hash access_id current _ _ _.
        choose_and_issue-IsScheduled crypto s now random request info hash access_id current;
    revokes = revoke_family-IsScheduled;
    revokes_access = λ s id client_id r _. revoke_access-IsScheduled s id r;
    ends = end_sessions-IsScheduled;
  }

  -- After any calls with new identifiers, from a store that is rightly scheduled, next_expiry is no
  -- later than the expiry of any authorization request, code, access token or family in the store.
  pub run-IsScheduled :
      (s : Store) (calls : List Call)
      → AllFresh crypto s calls
      → IsScheduled s
      → IsScheduled (run crypto s calls)
  run-IsScheduled s calls = run-IsKept crypto IsScheduled schedule_kept s calls
