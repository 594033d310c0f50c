-- ===== src/Store/Families/Kept.antt =====
-- Every call keeps the families and their tokens tied together.
mod Started
mod Issued
use hoocloak.Base.{
  ◌≡◌, ◌+◌, refl, sym, subst, inl, inr, ite, String, List, [], true, false, Option, none, some,
  arith, text_dec, Option-cases,
}
use hoocloak.Base.Map.{lookup}
use hoocloak.Base.Map.Laws.{lookup-insert}
use hoocloak.Base.Map.NoShadow.{insert-NoShadow}
use hoocloak.Store.Types.{
  Time, Hash, AccessRecord, RefreshRecord, RefreshFamily, Store, TokenRequest, Crypto, Result-cases,
  Result, ok,
}
use hoocloak.Store.Prune.{schedule_expiry}
use hoocloak.Store.Requests.{store_request, write, save_code, delete_auth_request, get_audience}
use hoocloak.Store.Login.{complete_authentication}
use hoocloak.Store.Sessions.{consume_refresh_record, compact_family_tokens}
use hoocloak.Store.Access.{
  TokenInfo, reserve_authorization_code, put_access, access_record, get_subject, get_scopes,
}
use hoocloak.Store.Tokens.{
  refresh_record, new_family, may_rotate, spend, spent_family, choose_family, issue_tokens,
  choose_and_issue,
}
use hoocloak.Store.Tokens.Choose.{started, choose_family_cases}
use hoocloak.Store.Access.Reserve.{reserve_authorization_code-SameButCodes}
use hoocloak.Store.Calls.{Call, run}
use hoocloak.Store.Calls.Fresh.{NewFamily, AllFresh}
use hoocloak.Store.Calls.Kept.{IsKept}
use hoocloak.Store.Calls.Induction.{run-IsKept}
use hoocloak.Store.Families.{Index, Backed, IsLinked}
use hoocloak.Store.Families.Sweep.{prune-IsLinked}
use hoocloak.Store.Families.Revoke.{
  revoke_family-IsLinked, revoke_access-IsLinked, end_sessions-IsLinked,
}
use hoocloak.Store.Families.Spend.{spend-IsLinked, spent_family-tokens}
use hoocloak.Store.Families.Issue.{put_tokens-IsLinked}
use hoocloak.Store.Families.Kept.Started.{
  reserve-IsLinked, nameless, lone_access-IsLinked, start-IsLinked, ok-injective,
}
use hoocloak.Store.Families.Kept.Issued.{choose_and_issue-IsLinked}

module _ (crypto : Crypto) where
  links_kept : IsKept crypto IsLinked
  unfolding store_request write save_code delete_auth_request complete_authentication get_audience
      access_record
  links_kept = record {
    prunes = prune-IsLinked;
    stores = λ s request client id user now _ h. ground (arith, h);
    saves = λ s now id code p _ h. ground (arith, h);
    deletes = λ s id h. ground (arith, h);
    completes = λ s id user now method h. ground (arith, h);
    hashes = λ s id p hash _ h. h;
    audits = λ s p h. ground (arith, h);
    reserves = reserve-IsLinked;
    puts = λ s id info subject audience scopes expires now _ _ h. lone_access-IsLinked s _ refl h;
    issues = λ s now random request info hash access_id current new _ fresh h.
        choose_and_issue-IsLinked crypto s now random request info hash access_id current new fresh
          h;
    revokes = λ s id h. revoke_family-IsLinked id s h;
    revokes_access = λ s id client_id r _ h. revoke_access-IsLinked s id r h;
    ends = end_sessions-IsLinked;
  }

  -- After any calls with new identifiers the store is linked, if it was before them: every family
  -- is under its own ID, its index is empty or its one live token, every refresh token has its
  -- family and client, and every access token of a family that is there is backed by the live
  -- refresh token issued with it.
  pub run-IsLinked :
      (s : Store) (calls : List Call)
      → AllFresh crypto s calls
      → IsLinked s
      → IsLinked (run crypto s calls)
  run-IsLinked s calls = run-IsKept crypto IsLinked links_kept s calls
