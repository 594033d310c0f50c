-- ===== src/Store/Calls/Issue.antt =====
-- The calls that issue tokens keep what their building blocks keep.
use hoocloak.Base.{
  ◌≡◌, ◌+◌, inl, inr, String, Option, none, some, List, arith, text_dec, Option-cases,
}
use hoocloak.Base.Map.{lookup}
use hoocloak.Store.Types.{Time, Hash, Store, TokenRequest, Crypto, Result-cases}
use hoocloak.Store.Prune.{prune}
use hoocloak.Store.Prune.View.{
  prune-tokens, prune-access-Shrinks, prune-refresh-Shrinks, prune-families-Shrinks,
}
use hoocloak.Store.Access.{
  TokenInfo, token_request_info, reserve_authorization_code, access_record, put_access,
}
use hoocloak.Store.Tokens.{choose_and_issue}
use hoocloak.Store.Access
use hoocloak.Store.Tokens
use hoocloak.Store.Access.Reserve.{reserve_authorization_code-SameButCodes}
use hoocloak.Store.Calls.{Call}
use hoocloak.Store.Calls.Fresh.{Absent, NewFamily, IsFresh}
use hoocloak.Store.Calls.Kept.{IsKept}

module _ (crypto : Crypto) (P : Store → Type 0) (keep : IsKept crypto P) (s : Store) (h : P s) where
  pruned : (now : Time) → P (prune now s)
  pruned now = keep.prunes now s h

  -- The part of `createAccessToken` after the prune.
  pub reserve_put-P :
      (now : Time) (request : TokenRequest) (id : String) (info : TokenInfo) (subject : String)
      (audience scopes : List String)
      → lookup text_dec id s.access ≡ none
      → P (
          put_access
            (reserve_authorization_code (prune now s) request).0
            (access_record id info subject audience scopes (now + s.tokens.access_ttl) now ""))
  reserve_put-P now request id info subject audience scopes f =
      let t = (reserve_authorization_code (prune now s) request).0 in
      let same = reserve_authorization_code-SameButCodes (prune now s) request in
      let ttl : now + s.tokens.access_ttl ≡ now + t.tokens.access_ttl =
        cc (same.tokens, prune-tokens now s) in
      let gone : lookup text_dec id t.access ≡ none =
        rw same.access (ground (arith, prune-access-Shrinks now s id)) in
      keep.puts t id info subject audience scopes (now + s.tokens.access_ttl) now gone ttl
        (keep.reserves (prune now s) request (pruned now))

  pub create_access_token-P :
      (now : Time) (random : Option String) (request : TokenRequest)
      → Absent random s.access
      → P (Access.create_access_token s now random request "").0
  unfolding Access.create_access_token
  create_access_token-P now none request f = h
  create_access_token-P now (some id) request f =
      elim (Result-cases (token_request_info s request)) [
        | inr (x, e) ↦ rw (e, Access.create_access_token) h
        | inl (info, e) ↦ elim (Option-cases (lookup text_dec info.client_id s.clients)) [
          | inl q ↦ rw (e, Access.create_access_token) (rw (q, Access.create_access_token) h)
          | inr (client, q) ↦ ground (
            arith,
            e,
            q,
            keep.reserves (prune now s) request (pruned now),
            reserve_put-P now request id info (Access.get_subject (prune now s) request)
                client.config.audiences (Access.get_scopes s request) f,
          )
        ]
      ]

  NewFamily-reserved :
      (now : Time) (random : Option String) (request : TokenRequest)
      → NewFamily random s
      → NewFamily random (reserve_authorization_code (prune now s) request).0
  NewFamily-reserved now none request f = tt
  NewFamily-reserved now (some id) request f =
      let same = reserve_authorization_code-SameButCodes (prune now s) request in
      (
        f.0,
        rw same.families (ground (arith, prune-families-Shrinks now s id)),
        λ a r e. f.2 a r (ground (arith, same.access, prune-access-Shrinks now s a)),
      )

  pub choose_and_issue-P :
      (now : Time) (random : Option String) (request : TokenRequest) (info : TokenInfo)
      (hash : Hash) (access_id current : String)
      → lookup text_dec hash s.refresh ≡ none
      → lookup text_dec access_id s.access ≡ none
      → NewFamily random s
      → P
          (choose_and_issue crypto
            (reserve_authorization_code (prune now s) request).0
            now
            random
            request
            info
            hash
            access_id
            current).0
  choose_and_issue-P now random request info hash access_id current fh fa ff =
      let same = reserve_authorization_code-SameButCodes (prune now s) request in
      keep.issues (reserve_authorization_code (prune now s) request).0 now random request info hash
        access_id current (rw same.refresh (ground (arith, prune-refresh-Shrinks now s hash)))
        (rw same.access (ground (arith, prune-access-Shrinks now s access_id)))
        (NewFamily-reserved now random request ff)
        (keep.reserves (prune now s) request (pruned now))

  pub create_access_and_refresh_tokens-P :
      (now : Time) (token access family : Option String) (request : TokenRequest) (current : String)
      → IsFresh crypto s
          (Call.create_access_and_refresh_tokens now token access family request current)
      → P
          (Tokens.create_access_and_refresh_tokens crypto s now token access family request
            current).0
  unfolding Tokens.create_access_and_refresh_tokens
  create_access_and_refresh_tokens-P now none access family request current f = ground (arith, h)
  create_access_and_refresh_tokens-P now (some token) none family request current f =
      ground (arith, h)
  create_access_and_refresh_tokens-P now (some token) (some id) family request current f =
      elim (Result-cases (token_request_info s request)) [
        | inr (x, e) ↦ rw (e, Tokens.create_access_and_refresh_tokens) h
        | inl (info, e) ↦ ground (
          arith,
          e,
          keep.reserves (prune now s) request (pruned now),
          choose_and_issue-P now family request info (crypto.sum256 token) id current f.0 f.1 f.2,
        )
      ]
