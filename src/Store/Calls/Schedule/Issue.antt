-- ===== src/Store/Calls/Schedule/Issue.antt =====
-- Issuing tokens keeps the schedule right.
use hoocloak.Base.{◌≡◌, ◌+◌, inl, inr, String, Option, none, some, arith, text_dec, Option-cases}
use hoocloak.Base.Map.{lookup, erase, insert}
use hoocloak.Base.Map.Every.{Every-lookup}
use hoocloak.Store.Types.{
  Time, Hash, RefreshRecord, RefreshFamily, Store, TokenRequest, Crypto, Result-cases, ok,
}
use hoocloak.Store.Prune.{schedule_expiry, earliest}
use hoocloak.Store.Prune.Schedule.{Due, earliest-Due, IsScheduled}
use hoocloak.Store.Sessions.{compact_family_tokens}
use hoocloak.Store.Access.{get_subject, TokenInfo}
use hoocloak.Store.Tokens.{
  start_family, rotate_family, spend, spent_family, choose_family, issue_tokens, choose_and_issue,
  new_family,
}
use hoocloak.Store.Tokens.Choose.{choose_family_cases}
use hoocloak.Store.Calls.Schedule.Parts.{
  schedule_expiry-IsScheduled, put_access-IsScheduled, replace-IsScheduled,
}
use hoocloak.Store.Calls.Schedule.Sessions.{
  erase-access-AllDue, insert-families-AllDue, revoke_family-IsScheduled,
}

pub spend-IsScheduled :
    (s : Store) (hash : Hash) (old : RefreshRecord) (f : RefreshFamily)
    → lookup text_dec old.family_id s.families ≡ some f
    → IsScheduled s
    → IsScheduled (spend s hash old f)
unfolding spend spent_family compact_family_tokens
spend-IsScheduled s hash old f e h =
    replace-IsScheduled s s.codes (erase text_dec old.access_id s.access) _ _ h.codes
      (erase-access-AllDue s.next_expiry old.access_id s.access h.access)
      (insert-families-AllDue s.next_expiry old.family_id _ s.families
        (Every-lookup text_dec (λ k (f : RefreshFamily). Due s.next_expiry f.expires) old.family_id
          s.families h.families e)
        h.families)
      h

module _ (crypto : Crypto) where
  pub start_family-IsScheduled :
      (s : Store) (now : Time) (random : Option String) (client_id subject : String)
      → IsScheduled s
      → IsScheduled (start_family s now random client_id subject).0
  unfolding start_family
  start_family-IsScheduled s now none client_id subject h = h
  start_family-IsScheduled s now (some id) client_id subject h =
      let e = now + s.tokens.refresh_ttl in
      let t = schedule_expiry-IsScheduled e s h in
      replace-IsScheduled (schedule_expiry e s) s.codes s.access s.refresh
        (insert text_dec id (new_family id client_id subject e) s.families) t.codes t.access
        (insert-families-AllDue (earliest s.next_expiry e) id (new_family id client_id subject e)
          s.families (earliest-Due s.next_expiry e (omega arith)) t.families)
        t

  pub rotate_family-IsScheduled :
      (s : Store) (now : Time) (hash : Hash) (client_id : String)
      → IsScheduled s
      → IsScheduled (rotate_family s now hash client_id).0
  unfolding rotate_family
  rotate_family-IsScheduled s now hash client_id h =
      elim (Option-cases (lookup text_dec hash s.refresh)) [
        | inl e ↦ rw (e, rotate_family) h
        | inr (old, e) ↦ elim (Option-cases (lookup text_dec old.family_id s.families)) [
          | inl q ↦ ground (arith, e, q, h, revoke_family-IsScheduled s old.family_id h)
          | inr (f, q) ↦ ground (
            arith,
            e,
            q,
            h,
            revoke_family-IsScheduled s old.family_id h,
            spend-IsScheduled s hash old f q h,
          )
        ]
      ]

  pub choose_family-IsScheduled :
      (s : Store) (now : Time) (random : Option String) (request : TokenRequest) (info : TokenInfo)
      (current : String)
      → IsScheduled s
      → IsScheduled (choose_family crypto s now random request info current).0
  unfolding choose_family
  choose_family-IsScheduled s now random request info current h = ground (
    arith,
    start_family-IsScheduled s now random info.client_id (get_subject s request) h,
    rotate_family-IsScheduled s now (crypto.sum256 current) info.client_id h,
  )

  -- The family that is chosen is covered too.
  pub choose_family-Due :
      (s : Store) (now : Time) (random : Option String) (request : TokenRequest) (info : TokenInfo)
      (current key : String) (f : RefreshFamily)
      → IsScheduled s
      → (choose_family crypto s now random request info current).1 ≡ ok (key, f)
      → Due (choose_family crypto s now random request info current).0.next_expiry f.expires
  unfolding new_family schedule_expiry spend spent_family compact_family_tokens
  choose_family-Due s now random request info current key f h =
      choose_family_cases (λ r. r.1 ≡ ok (key, f) → Due r.0.next_expiry f.expires) s (λ x e. cc)
        crypto now random request info current
        (λ id _ e.
          ground (arith, earliest-Due s.next_expiry (now + s.tokens.refresh_ttl) (omega arith)))
        (λ old _ _ e. cc)
        (λ old family _ _ q _ e. ground (
          arith,
          Every-lookup text_dec (λ k (f : RefreshFamily). Due s.next_expiry f.expires) old.family_id
              s.families h.families q,
        ))

  pub issue_tokens-IsScheduled :
      (s : Store) (now : Time) (request : TokenRequest) (info : TokenInfo) (hash : Hash)
      (access_id key : String) (f : RefreshFamily)
      → Due s.next_expiry f.expires
      → IsScheduled s
      → IsScheduled (issue_tokens s now request info hash access_id key f).0
  unfolding issue_tokens
  issue_tokens-IsScheduled s now request info hash access_id key f d h =
      elim (Option-cases (lookup text_dec info.client_id s.clients)) [
        | inl e ↦ rw (e, issue_tokens) h
        | inr (client, e) ↦
            rw (e, issue_tokens)
              (put_access-IsScheduled _ _ (omega arith) (
                replace-IsScheduled s s.codes s.access _ _ h.codes h.access
                  (insert-families-AllDue s.next_expiry key _ s.families d h.families) h))
      ]

  pub choose_and_issue-IsScheduled :
      (s : Store) (now : Time) (random : Option String) (request : TokenRequest) (info : TokenInfo)
      (hash : Hash) (access_id current : String)
      → IsScheduled s
      → IsScheduled (choose_and_issue crypto s now random request info hash access_id current).0
  unfolding choose_and_issue
  choose_and_issue-IsScheduled s now random request info hash access_id current h =
      let t = choose_family-IsScheduled s now random request info current h in
      elim (Result-cases (choose_family crypto s now random request info current).1) [
        | inr (x, e) ↦ rw (e, choose_and_issue) t
        | inl ((key, f), e) ↦
            rw (e, choose_and_issue)
              (issue_tokens-IsScheduled _ now request info hash access_id key f
                (choose_family-Due s now random request info current key f h e) t)
      ]
