-- ===== src/Store/Codes/Once.antt =====
-- An authorization code is redeemed at most once.
use hoocloak.Base.{
  ◌≡◌, ◌+◌, subst, String, List, true, Option, none, some, arith, text_dec, inl, inr, Option-cases,
}
use hoocloak.Base.Map.{lookup}
use hoocloak.Base.Map.Laws.{lookup-insert}
use hoocloak.Store.Types.{
  Time, Ref, Store, auth, Crypto, Result, Result-cases, ok, err, invalid_grant,
}
use hoocloak.Store.Prune.{prune}
use hoocloak.Store.Access.{
  TokenInfo, token_request_info, get_subject, get_scopes, reserve_authorization_code,
  reserve_auth_request, access_record, create_access_token,
}
use hoocloak.Store.Tokens.{create_access_and_refresh_tokens}
use hoocloak.Store.Calls.{Call, step, run}
use hoocloak.Store.Calls.Fresh.{AllFresh}
use hoocloak.Store.Calls.Induction.{run-IsKept}
use hoocloak.Store.Codes.{IsAllocated, IsExhausted, Redeems, Succeeds}
use hoocloak.Store.Codes.Kept.Requests.{same-IsExhausted, prune-IsExhausted, prune-IsAllocated}
use hoocloak.Store.Codes.Kept.{IsExhausted-kept}
use hoocloak.Store.Codes.Untouched.{put_access-SameRequests, choose_and_issue-SameRequests}

-- A reservation that succeeds exhausts the code.
reserve_auth_request-IsExhausted_new :
    (p : Ref) (s : Store)
    → IsAllocated s
    → (u : Unit {0}) → (reserve_auth_request s p).1 ≡ ok u
    → IsExhausted p (reserve_auth_request s p).0
unfolding reserve_auth_request
reserve_auth_request-IsExhausted_new p s h u e =
    elim (Option-cases (lookup text_dec (s.heap p).id s.auth_requests)) [
      | inl n ↦ absurd (ground arith)
      | inr (q, stored) ↦ elim (Option-cases (lookup text_dec (s.heap p).code s.codes)) [
        | inl n ↦ absurd (ground arith)
        | inr (r, found) ↦ record {
          allocated = record {
            below = λ j k v. ground (arith, h.below j k);
            coded = λ k v. ground (arith, h.coded k);
          };
          below = ground (arith, h.below (s.heap p).id p);
          saved = ground (arith, h.coded p);
          refused = λ v. ground (
            arith,
            lookup-insert text_dec (s.heap p).code (s.heap p).code (record r { reserved = true })
                s.codes,
          );
        }
      ]
    ]

-- An exhausted code is refused.
reserve_auth_request-refused :
    (p : Ref) (s : Store) → IsExhausted p s → (reserve_auth_request s p).1 ≡ err invalid_grant
unfolding reserve_auth_request
reserve_auth_request-refused p s h = ground (arith, h.refused)

abbrev info_of : Store → Ref → TokenInfo
info_of s p = record {
  client_id = (s.heap p).client_id;
  auth_time = (s.heap p).auth_time;
  amr = (s.heap p).amr;
}

module _ (s : Store) (now : Time) (p : Ref) where
  abbrev reserved : Store × Result (Unit {0})
  reserved = reserve_auth_request (prune now s) p

  reserved-IsExhausted :
      IsAllocated s → (u : Unit {0}) → reserved.1 ≡ ok u → IsExhausted p reserved.0
  reserved-IsExhausted h =
      reserve_auth_request-IsExhausted_new p (prune now s) (prune-IsAllocated now s h)

  access-IsExhausted :
      (random : Option String)
      → IsAllocated s
      → Succeeds (create_access_token s now random (auth p) "").1
      → IsExhausted p (create_access_token s now random (auth p) "").0
  unfolding create_access_token token_request_info reserve_authorization_code
  access-IsExhausted none h done = absurd done
  access-IsExhausted (some id) h done =
      elim (Option-cases (lookup text_dec (s.heap p).client_id s.clients)) [
        | inl q ↦ absurd (rw (q, create_access_token) at done)
        | inr (client, q) ↦ elim (Result-cases reserved.1) [
          | inr (x, e) ↦ absurd (ground arith)
          | inl (u, e) ↦ ground (
            arith,
            q,
            e,
            same-IsExhausted p
                (put_access-SameRequests reserved.0 (
                  access_record id (info_of s p) (get_subject (prune now s) (auth p))
                    client.config.audiences (get_scopes s (auth p)) (now + s.tokens.access_ttl) now
                    ""))
                (reserved-IsExhausted h u e),
          )
        ]
      ]

  access-refused :
      (random : Option String)
      → IsExhausted p s
      → ¬ Succeeds (create_access_token s now random (auth p) "").1
  unfolding create_access_token token_request_info reserve_authorization_code
  access-refused random h done =
      ground (arith, reserve_auth_request-refused p (prune now s) (prune-IsExhausted p now s h))

module _ (crypto : Crypto) (s : Store) (now : Time) (p : Ref) (family : Option String)
    (current : String) where
  tokens-IsExhausted :
      (token access : Option String)
      → IsAllocated s
      → Succeeds
          (create_access_and_refresh_tokens crypto s now token access family (auth p) current).1
      → IsExhausted p
          (create_access_and_refresh_tokens crypto s now token access family (auth p) current).0
  unfolding create_access_and_refresh_tokens token_request_info reserve_authorization_code
  tokens-IsExhausted none access h done = absurd done
  tokens-IsExhausted (some token) none h done = absurd done
  tokens-IsExhausted (some token) (some id) h done = elim (Result-cases (reserved s now p).1) [
    | inr (x, e) ↦ absurd (ground arith)
    | inl (u, e) ↦ ground (
      arith,
      e,
      same-IsExhausted p
          (choose_and_issue-SameRequests crypto (reserved s now p).0 now family (auth p)
            (info_of s p) (crypto.sum256 token) id current)
          (reserved-IsExhausted s now p h u e),
    )
  ]

  tokens-refused :
      (token access : Option String)
      → IsExhausted p s
      → ¬ Succeeds
          (create_access_and_refresh_tokens crypto s now token access family (auth p) current).1
  unfolding create_access_and_refresh_tokens token_request_info reserve_authorization_code
  tokens-refused token access h done =
      ground (arith, reserve_auth_request-refused p (prune now s) (prune-IsExhausted p now s h))

module _ (crypto : Crypto) where
  -- Tokens for an authorization request exhaust its code.
  Redeems-IsExhausted :
      (s : Store) (p : Ref) (call : Call)
      → IsAllocated s
      → Redeems crypto s p call
      → IsExhausted p (step crypto s call)
  unfolding step
  Redeems-IsExhausted s p (Call.create_access_token now random request) h r = rw r.0 (
      access-IsExhausted s now p random h
        (subst (λ x. Succeeds (create_access_token s now random x "").1) r.0 r.1))
  Redeems-IsExhausted s p
        (Call.create_access_and_refresh_tokens now token access family request current) h r =
      rw r.0 (
        tokens-IsExhausted crypto s now p family current token access h (
          subst
            (λ x.
              Succeeds
                (create_access_and_refresh_tokens crypto s now token access family x current).1)
            r.0 r.1))
  Redeems-IsExhausted s p _ h r = absurd r

  exhausted-Redeems :
      (s : Store) (p : Ref) (call : Call) → IsExhausted p s → ¬ Redeems crypto s p call
  exhausted-Redeems s p (Call.create_access_token now random request) h r =
      access-refused s now p random h
        (subst (λ x. Succeeds (create_access_token s now random x "").1) r.0 r.1)
  exhausted-Redeems s p
        (Call.create_access_and_refresh_tokens now token access family request current) h r =
      tokens-refused crypto s now p family current token access h (
        subst
          (λ x.
            Succeeds
              (create_access_and_refresh_tokens crypto s now token access family x current).1)
          r.0 r.1)
  exhausted-Redeems s p _ h r = absurd r

  -- Once a token request for an authorization request has been answered by tokens, in a store whose
  -- pointers are allocated, no later token request for it is, whatever calls with new identifiers
  -- come in between.
  pub redeemed_once :
      (s : Store) (p : Ref) (first second : Call) (between : List Call)
      → IsAllocated s
      → Redeems crypto s p first
      → AllFresh crypto (step crypto s first) between
      → ¬ Redeems crypto (run crypto (step crypto s first) between) p second
  redeemed_once s p first second between h r fresh = exhausted-Redeems _ p second (
      run-IsKept crypto (IsExhausted p) (IsExhausted-kept p crypto) _ between fresh
        (Redeems-IsExhausted s p first h r))
