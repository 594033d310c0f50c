-- ===== src/Store/Families/Kept/Issued.antt =====
-- Issuing tokens keeps the families and their tokens tied together.
use hoocloak.Base.{
  ◌≡◌, ◌+◌, refl, subst, inl, inr, String, [], true, false, Option, none, some, arith, text_dec,
  Option-cases,
}
use hoocloak.Base.Map.{lookup}
use hoocloak.Base.Map.Laws.{lookup-insert}
use hoocloak.Store.Types.{
  Time, Hash, RefreshRecord, RefreshFamily, Store, TokenRequest, Crypto, Result-cases, Result, ok,
}
use hoocloak.Store.Prune.{schedule_expiry}
use hoocloak.Store.Sessions.{consume_refresh_record, compact_family_tokens}
use hoocloak.Store.Access.{TokenInfo, access_record, get_subject, get_scopes}
use hoocloak.Store.Tokens.{
  refresh_record, new_family, may_rotate, spend, spent_family, choose_family, issue_tokens,
  choose_and_issue,
}
use hoocloak.Store.Tokens.Choose.{started, choose_family_cases}
use hoocloak.Store.Calls.Fresh.{NewFamily}
use hoocloak.Store.Families.{IsLinked}
use hoocloak.Store.Families.Revoke.{revoke_family-IsLinked}
use hoocloak.Store.Families.Spend.{spend-IsLinked, spent_family-tokens}
use hoocloak.Store.Families.Issue.{put_tokens-IsLinked}
use hoocloak.Store.Families.Kept.Started.{start-IsLinked, ok-injective}

module _ (crypto : Crypto) where
  -- What is known of the family when the new tokens are written.
  record Ready (s : Store) (info : TokenInfo) (hash : Hash) (key : String) (f : RefreshFamily)
      : Type 0 where
    links : IsLinked s
    home : lookup text_dec key s.families ≡ some f
    empty : f.tokens ≡ []
    client : info.client_id ≡ f.client_id
    new : lookup text_dec hash s.refresh ≡ none

  issue_tokens-IsLinked :
      (s : Store) (now : Time) (request : TokenRequest) (info : TokenInfo) (hash : Hash)
      (access_id key : String) (f : RefreshFamily)
      → Ready s info hash key f
      → IsLinked (issue_tokens s now request info hash access_id key f).0
  unfolding issue_tokens
  issue_tokens-IsLinked s now request info hash access_id key f r =
      elim (Option-cases (lookup text_dec info.client_id s.clients)) [
        | inl e ↦ rw (e, issue_tokens) r.links
        | inr (client, e) ↦
            let subject = get_subject s request in
            let scopes = get_scopes s request in
            let named = (r.links.named key f r.home).0 in
            rw (e, issue_tokens)
              (put_tokens-IsLinked s key f hash
                (refresh_record f.id info subject client.config.audiences scopes access_id)
                (access_record access_id info subject client.config.audiences scopes
                  (now + s.tokens.access_ttl) now f.id)
                r.links r.home r.empty r.new named r.client refl refl named)
      ]

  -- A family that is chosen is ready, and the store is linked whatever happens.
  abbrev Chosen : TokenInfo → Hash → Store × Result (String × RefreshFamily) → Type 0
  Chosen info hash r =
      IsLinked r.0
      × ((key : String) (f : RefreshFamily) → r.1 ≡ ok (key, f) → Ready r.0 info hash key f)

  start-Ready :
      (s : Store) (now : Time) (random : Option String) (info : TokenInfo) (hash : Hash)
      (subject id : String)
      → lookup text_dec hash s.refresh ≡ none
      → NewFamily random s
      → random ≡ some id
      → IsLinked s
      → let f = new_family id info.client_id subject (now + s.tokens.refresh_ttl) in
        Ready (started s id f) info hash id f
  unfolding schedule_expiry new_family
  start-Ready s now random info hash subject id new fresh drawn h =
      let f = new_family id info.client_id subject (now + s.tokens.refresh_ttl) in
      record {
        links =
            start-IsLinked s id info.client_id subject (now + s.tokens.refresh_ttl)
              (subst (λ o. NewFamily o s) drawn fresh) h;
        home = ground (arith, lookup-insert text_dec id id f s.families);
        empty = refl;
        client = refl;
        new = new;
      }

  rotate-Ready :
      (s : Store) (now : Time) (info : TokenInfo) (hash current : Hash) (old : RefreshRecord)
      (f : RefreshFamily)
      → lookup text_dec hash s.refresh ≡ none
      → lookup text_dec current s.refresh ≡ some old
      → old.consumed ≡ false
      → lookup text_dec old.family_id s.families ≡ some f
      → may_rotate now info.client_id old f ≡ true
      → IsLinked s
      → Ready (spend s current old f) info hash old.family_id (spent_family s current old f)
  unfolding spend may_rotate spent_family compact_family_tokens
  rotate-Ready s now info hash current old f new found live home may h = record {
    links = spend-IsLinked s current old f h found live home;
    home = ground (
      arith,
      lookup-insert text_dec old.family_id old.family_id (spent_family s current old f) s.families,
    );
    empty = spent_family-tokens s current old f h found live home;
    client = spent_client;
    new =
        ground (arith, lookup-insert text_dec current hash (consume_refresh_record old) s.refresh);
  }
    where
      spent_client : info.client_id ≡ (spent_family s current old f).client_id
      spent_client = ground (arith, h.linked current old found)

  choose_family-Chosen :
      (s : Store) (now : Time) (random : Option String) (request : TokenRequest) (info : TokenInfo)
      (hash : Hash) (current : String)
      → lookup text_dec hash s.refresh ≡ none
      → NewFamily random s
      → IsLinked s
      → Chosen info hash (choose_family crypto s now random request info current)
  choose_family-Chosen s now random request info hash current new fresh h =
      choose_family_cases (Chosen info hash) s (λ e. (h, λ key f q. cc)) crypto now random request
        info current
        (λ id drawn.
          let ready =
            start-Ready s now random info hash (get_subject s request) id new fresh drawn h in
          (
            ready.links,
            λ key f q.
                subst
                  (λ x.
                    Ready
                      (started s id (
                        new_family id info.client_id (get_subject s request)
                          (now + s.tokens.refresh_ttl)))
                      info hash x.0 x.1)
                  (ok-injective q) ready,
          ))
        (λ old found spent. (revoke_family-IsLinked old.family_id s h, λ key f q. cc))
        (λ old f found live home may.
          let ready =
            rotate-Ready s now info hash (crypto.sum256 current) old f new found live home may h in
          (
            ready.links,
            λ key g q.
                subst (λ x. Ready (spend s (crypto.sum256 current) old f) info hash x.0 x.1)
                  (ok-injective q) ready,
          ))

  pub choose_and_issue-IsLinked :
      (s : Store) (now : Time) (random : Option String) (request : TokenRequest) (info : TokenInfo)
      (hash : Hash) (access_id current : String)
      → lookup text_dec hash s.refresh ≡ none
      → NewFamily random s
      → IsLinked s
      → IsLinked (choose_and_issue crypto s now random request info hash access_id current).0
  unfolding choose_and_issue
  choose_and_issue-IsLinked s now random request info hash access_id current new fresh h =
      let c = choose_family-Chosen s now random request info hash current new fresh h in
      elim (Result-cases (choose_family crypto s now random request info current).1) [
        | inr (x, e) ↦ rw (e, choose_and_issue) c.0
        | inl ((key, f), e) ↦
            rw (e, choose_and_issue)
              (issue_tokens-IsLinked _ now request info hash access_id key f (c.1 key f e))
      ]
