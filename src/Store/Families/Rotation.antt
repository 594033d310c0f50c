-- ===== src/Store/Families/Rotation.antt =====
-- Rotation of a refresh token by `CreateAccessAndRefreshTokens`.
use hoocloak.Base.{
  ◌≡◌, ◌≢◌, ◌+◌, refl, sym, subst, inl, inr, String, true, false, Option, none, some, arith,
  text_dec, Option-cases, ◌==◌,
}
use hoocloak.Base.Map.{lookup, erase, insert}
use hoocloak.Base.Map.Laws.{lookup-erase, lookup-insert}
use hoocloak.Store.Types.{
  Time, Hash, RefreshRecord, RefreshFamily, RefreshRequest, TokenRequest, Store, Crypto, Result,
  Result-cases, ok, err,
}
use hoocloak.Store.Prune.{prune}
use hoocloak.Store.Prune.View.{prune-refresh-Shrinks}
use hoocloak.Store.Sessions.{consume_refresh_record}
use hoocloak.Store.Access.{
  TokenInfo, token_request_info, reserve_authorization_code, access_record, get_subject, get_scopes,
}
use hoocloak.Store.Tokens.{
  refresh_record, may_rotate, spend, spent_family, put_tokens, choose_family, rotate_family,
  issue_tokens, choose_and_issue, create_access_and_refresh_tokens,
}
use hoocloak.Store.Tokens.Choose.{rotate_family_cases}
use hoocloak.Store.Families.{IsLinked}
use hoocloak.Store.Families.Sweep.{prune-IsLinked}

-- The token with hash `current`, spent by `r`, has become the one with hash `next`; `before` is
-- the store before and `after` the one after.
pub record Rotated (before after : Store) (r : RefreshRequest) (current next : Hash)
    (access_id : String) : Type 0 where
  pub old : RefreshRecord
  pub new : RefreshRecord
  pub found : lookup text_dec current before.refresh ≡ some old
  pub live : old.consumed ≡ false
  pub client : old.client_id ≡ r.client_id
  pub spent : lookup text_dec current after.refresh ≡ some (consume_refresh_record old)
  pub issued : lookup text_dec next after.refresh ≡ some new
  pub fresh : new.consumed ≡ false
  pub family : new.family_id ≡ old.family_id
  pub subject : new.subject ≡ r.subject
  pub scopes : new.scopes ≡ r.scopes
  pub access : new.access_id ≡ access_id
  pub replaced : old.access_id ≢ access_id → lookup text_dec old.access_id after.access ≡ none

module _ (crypto : Crypto) where
  issue-Rotated :
      (s : Store) (now expires : Time) (r : RefreshRequest) (info : TokenInfo) (current next : Hash)
      (access_id : String) (old : RefreshRecord) (f : RefreshFamily)
      → IsLinked s
      → lookup text_dec next s.refresh ≡ none
      → info.client_id ≡ r.client_id
      → lookup text_dec current s.refresh ≡ some old
      → old.consumed ≡ false
      → lookup text_dec old.family_id s.families ≡ some f
      → may_rotate now info.client_id old f ≡ true
      → (issue_tokens
          (spend s current old f)
          now
          (TokenRequest.refresh r)
          info
          next
          access_id
          old.family_id
          (spent_family s current old f)).1
        ≡ ok expires
      → Rotated s
          (issue_tokens
            (spend s current old f)
            now
            (TokenRequest.refresh r)
            info
            next
            access_id
            old.family_id
            (spent_family s current old f)).0
          r
          current
          next
          access_id
  unfolding issue_tokens access_record spend put_tokens may_rotate get_subject get_scopes
  issue-Rotated s now expires r info current next access_id old f links unused client found live
        home may e =
      elim (Option-cases (lookup text_dec info.client_id s.clients)) [
        | inl q ↦ absurd (ground arith)
        | inr (c, q) ↦
            rw (q, issue_tokens)
              (record {
                old = old;
                new = refresh_record f.id info r.subject c.config.audiences r.scopes access_id;
                found = found;
                live = live;
                client = ground arith;
                spent = ground (
                  arith,
                  lookup-insert text_dec next current
                      (refresh_record f.id info r.subject c.config.audiences r.scopes access_id)
                      (insert text_dec current (consume_refresh_record old) s.refresh),
                  lookup-insert text_dec current current (consume_refresh_record old) s.refresh,
                );
                issued = ground (
                  arith,
                  lookup-insert text_dec next next
                      (refresh_record f.id info r.subject c.config.audiences r.scopes access_id)
                      (insert text_dec current (consume_refresh_record old) s.refresh),
                );
                fresh = refl;
                family = (links.named old.family_id f home).0;
                subject = refl;
                scopes = refl;
                access = refl;
                replaced = λ n. ground (
                  arith,
                  lookup-insert text_dec access_id old.access_id
                      (access_record access_id info r.subject c.config.audiences r.scopes
                        (now + s.tokens.access_ttl) now f.id)
                      (erase text_dec old.access_id s.access),
                  lookup-erase text_dec old.access_id old.access_id s.access,
                );
              })
      ]

  -- What `choose_and_issue` does with the family that it has got.
  abbrev finish :
      Time
      → TokenRequest
      → TokenInfo
      → Hash
      → String
      → Store × Result (String × RefreshFamily)
      → Store × Result Time
  finish now request info hash access_id r = elim r.1 [
    | err e ↦ (r.0, err e)
    | ok (key, f) ↦ issue_tokens r.0 now request info hash access_id key f
  ]

  choose_family_given :
      (s : Store) (now : Time) (random : Option String) (request : TokenRequest) (info : TokenInfo)
      (current : String)
      → (current == "") ≡ false
      → choose_family crypto s now random request info current
        ≡ rotate_family s now (crypto.sum256 current) info.client_id
  unfolding choose_family
  choose_family_given s now random request info current given = rw given

  choose_and_issue-Rotated :
      (s : Store) (now expires : Time) (random : Option String) (r : RefreshRequest)
      (info : TokenInfo) (next : Hash) (access_id current : String)
      → IsLinked s
      → lookup text_dec next s.refresh ≡ none
      → info.client_id ≡ r.client_id
      → (current == "") ≡ false
      → (choose_and_issue crypto s now random
          (TokenRequest.refresh r)
          info
          next
          access_id
          current).1
        ≡ ok expires
      → Rotated s
          (choose_and_issue crypto s now random
            (TokenRequest.refresh r)
            info
            next
            access_id
            current).0
          r
          (crypto.sum256 current)
          next
          access_id
  unfolding choose_and_issue
  choose_and_issue-Rotated s now expires random r info next access_id current links unused client
        given =
      let Q : Store × Result (String × RefreshFamily) → Type 0 = λ x.
        (finish now (TokenRequest.refresh r) info next access_id x).1 ≡ ok expires
        → Rotated s (finish now (TokenRequest.refresh r) info next access_id x).0 r
            (crypto.sum256 current) next access_id in
      subst Q (sym (choose_family_given s now random (TokenRequest.refresh r) info current given)) (
        rotate_family_cases Q s (λ x e. cc) now (crypto.sum256 current) info.client_id
          (λ old found spent e. cc)
          (λ old f found live home may e.
            issue-Rotated s now expires r info (crypto.sum256 current) next access_id old f links
              unused client found live home may e))

  -- In a linked store, a refresh that succeeds with a new token spends the token that was
  -- presented, which was live and the client's own, and takes its access token away; the new
  -- refresh token is live, in the same family, for the request's subject and scopes.
  pub create_access_and_refresh_tokens-Rotated :
      (s : Store) (now : Time) (token access : String) (family : Option String) (r : RefreshRequest)
      (current : String) {x : String × String × Time}
      → IsLinked s
      → lookup text_dec (crypto.sum256 token) s.refresh ≡ none
      → (current == "") ≡ false
      → (create_access_and_refresh_tokens crypto s now
          (some token)
          (some access)
          family
          (TokenRequest.refresh r)
          current).1
        ≡ ok x
      → Rotated
          (prune now s)
          (create_access_and_refresh_tokens crypto s now
            (some token)
            (some access)
            family
            (TokenRequest.refresh r)
            current).0
          r
          (crypto.sum256 current)
          (crypto.sum256 token)
          access
  unfolding create_access_and_refresh_tokens reserve_authorization_code token_request_info
  create_access_and_refresh_tokens-Rotated s now token access family r current links unused given
        e =
      let info : TokenInfo = record {
        client_id = r.client_id;
        auth_time = r.auth_time;
        amr = r.amr;
      } in
      elim (Result-cases
        (choose_and_issue crypto (prune now s) now family (TokenRequest.refresh r) info
          (crypto.sum256 token) access current).1) [
            | inr (y, q) ↦ absurd (ground arith)
            | inl (expires, q) ↦ ground (
              arith,
              q,
              choose_and_issue-Rotated (prune now s) now expires family r info (crypto.sum256 token)
                  access current (prune-IsLinked now s links)
                  (ground (arith, prune-refresh-Shrinks now s (crypto.sum256 token))) refl given q,
            )
          ]
