-- ===== src/Store/Codes/Untouched.antt =====
-- Calls on tokens and sessions leave authorization requests and codes alone.
use hoocloak.Base.{◌≡◌, refl, ◌∙◌, String, List, [], ◌∷◌, Option, arith, text_dec, inl, inr}
use hoocloak.Base.Map.{erase}
use hoocloak.Store.Types.{
  Time, Hash, Store, AccessRecord, RefreshFamily, TokenRequest, Crypto, Result-cases,
}
use hoocloak.Store.Prune.{schedule_expiry}
use hoocloak.Store.Sessions.{
  revoke_family, revoke_all, revoke_access, end_sessions, session_families, access_families,
}
use hoocloak.Store.Access.{TokenInfo, put_access}
use hoocloak.Store.Tokens.{spend, choose_family, issue_tokens, choose_and_issue}
use hoocloak.Store.Tokens.Choose.{choose_family_cases}

pub record SameRequests (s t : Store) : Type 0 where
  pub auth_requests : t.auth_requests ≡ s.auth_requests
  pub codes : t.codes ≡ s.codes
  pub heap : t.heap ≡ s.heap
  pub next_ref : t.next_ref ≡ s.next_ref

SameRequests-trans : {s t u : Store} → SameRequests s t → SameRequests t u → SameRequests s u
SameRequests-trans a b = record {
  auth_requests = b.auth_requests ∙ a.auth_requests;
  codes = b.codes ∙ a.codes;
  heap = b.heap ∙ a.heap;
  next_ref = b.next_ref ∙ a.next_ref;
}

SameRequests-refl : (s : Store) → SameRequests s s
SameRequests-refl s = record { auth_requests = refl; codes = refl; heap = refl; next_ref = refl }

pub put_access-SameRequests : (s : Store) (r : AccessRecord) → SameRequests s (put_access s r)
unfolding put_access
put_access-SameRequests s r = record {
  auth_requests = refl;
  codes = refl;
  heap = refl;
  next_ref = refl;
}

pub revoke_family-SameRequests : (s : Store) (id : String) → SameRequests s (revoke_family id s)
unfolding revoke_family
revoke_family-SameRequests s id = ground arith

revoke_all-SameRequests : (ids : List String) (s : Store) → SameRequests s (revoke_all ids s)
unfolding revoke_all
revoke_all-SameRequests [] s = SameRequests-refl s
revoke_all-SameRequests (id ∷ ids) s =
    SameRequests-trans (revoke_family-SameRequests s id)
      (revoke_all-SameRequests ids (revoke_family id s))

pub revoke_access-SameRequests :
    (s : Store) (id : String) (r : AccessRecord) → SameRequests s (revoke_access s id r)
unfolding revoke_access
revoke_access-SameRequests s id r = ground (
  arith,
  revoke_family-SameRequests (record s { access = erase text_dec id s.access }) r.family_id,
)

pub end_sessions-SameRequests :
    (s : Store) (subject client_id : String) → SameRequests s (end_sessions subject client_id s)
unfolding end_sessions
end_sessions-SameRequests s subject client_id =
    let same =
      revoke_all-SameRequests
        (session_families subject client_id s.families (access_families subject client_id s.access))
        _ in
    record {
      auth_requests = same.auth_requests;
      codes = same.codes;
      heap = same.heap;
      next_ref = same.next_ref;
    }

module _ (crypto : Crypto) where
  choose_family-SameRequests :
      (s : Store) (now : Time) (random : Option String) (request : TokenRequest) (info : TokenInfo)
      (current : String)
      → SameRequests s (choose_family crypto s now random request info current).0
  unfolding schedule_expiry spend
  choose_family-SameRequests s now random request info current =
      choose_family_cases (λ r. SameRequests s r.0) s (λ e. SameRequests-refl s) crypto now random
        request info current
        (λ id _. record { auth_requests = refl; codes = refl; heap = refl; next_ref = refl })
        (λ old _ _. revoke_family-SameRequests s old.family_id)
        (λ old f _ _ _ _. record {
          auth_requests = refl;
          codes = refl;
          heap = refl;
          next_ref = refl;
        })

  issue_tokens-SameRequests :
      (s : Store) (now : Time) (request : TokenRequest) (info : TokenInfo) (hash : Hash)
      (access_id key : String) (f : RefreshFamily)
      → SameRequests s (issue_tokens s now request info hash access_id key f).0
  unfolding issue_tokens
  issue_tokens-SameRequests s now request info hash access_id key f = ground arith

  pub choose_and_issue-SameRequests :
      (s : Store) (now : Time) (random : Option String) (request : TokenRequest) (info : TokenInfo)
      (hash : Hash) (access_id current : String)
      → SameRequests s (choose_and_issue crypto s now random request info hash access_id current).0
  unfolding choose_and_issue
  choose_and_issue-SameRequests s now random request info hash access_id current =
      let chosen = choose_family-SameRequests s now random request info current in
      elim (Result-cases (choose_family crypto s now random request info current).1) [
        | inr (x, e) ↦ rw (e, choose_and_issue) chosen
        | inl ((key, f), e) ↦
            rw (e, choose_and_issue)
              (SameRequests-trans chosen
                (issue_tokens-SameRequests _ now request info hash access_id key f))
      ]
