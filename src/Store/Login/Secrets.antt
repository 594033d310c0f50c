-- ===== src/Store/Login/Secrets.antt =====
-- The completion secret of a login works once.
use hoocloak.Base.{
  none, ◌<◌, ◌≢◌, [], ◌∷◌, ◌≡◌, inl, inr, String, some, arith, text_dec, Option-cases,
}
use hoocloak.Base.Map.{lookup}
use hoocloak.Store.Types.{Time, Ref, Store, Crypto, ok, err, completion_denied, zero_hash}
use hoocloak.Store.Prune.{prune}
use hoocloak.Store.Calls.{Call, step, run}
use hoocloak.Store.Calls.Schedule.{run-IsScheduled}
use hoocloak.Store.Prune.Schedule.{IsScheduled}
use hoocloak.Store.Prune.View.{prune-IsSwept, prune-heap, prune-requests-Shrinks}
use hoocloak.Store.Requests.{write, ref_dec}
use hoocloak.Store.Login.{issue_completion_secret, consume_completion_secret}

module _ (crypto : Crypto) where
  -- No secret is kept for the request.
  abbrev Emptied : String → Store → Type 0
  Emptied id s =
      (p : Ref)
      → lookup text_dec id s.auth_requests ≡ some p
      → (s.heap p).completion_hash ≡ zero_hash

  Emptied-denies :
      (s : Store) (now : Time) (id secret : String)
      → Emptied id s
      → (consume_completion_secret crypto s now id secret).1 ≡ err completion_denied
  unfolding consume_completion_secret
  Emptied-denies s now id secret h =
      elim (Option-cases (lookup text_dec id (prune now s).auth_requests)) [
        | inl e ↦ ground (arith, e)
        | inr (p, e) ↦
            let empty : (s.heap p).completion_hash ≡ zero_hash =
              h p (ground (arith, e, prune-requests-Shrinks now s id)) in
            ground (arith, e, empty, prune-heap now s)
      ]

  consume-Emptied :
      (s : Store) (now : Time) (id secret : String)
      → (consume_completion_secret crypto s now id secret).1 ≡ ok tt
      → Emptied id (consume_completion_secret crypto s now id secret).0
  unfolding consume_completion_secret write ref_dec
  consume-Emptied s now id secret e p q =
      elim (Option-cases (lookup text_dec id (prune now s).auth_requests)) [
        | inl f ↦ absurd (ground (arith, e, f))
        | inr (r, f) ↦ ground (arith, e, f, q)
      ]

  -- A secret that is consumed cannot be consumed again, nor can any other secret for that request
  -- by the next call.
  pub consume_completion_secret-once :
      (s : Store) (now later : Time) (id secret other : String)
      → (consume_completion_secret crypto s now id secret).1 ≡ ok tt
      → (consume_completion_secret crypto
          (consume_completion_secret crypto s now id secret).0
          later
          id
          other).1
        ≡ err completion_denied
  consume_completion_secret-once s now later id secret other e =
      Emptied-denies _ later id other (consume-Emptied s now id secret e)

  refused :
      (s : Store) (now : Time) (id secret : String)
      → lookup text_dec id (prune now s).auth_requests ≡ none
      → (issue_completion_secret crypto s now (some secret) id).1 ≢ ok secret
  unfolding issue_completion_secret
  refused s now id secret f e = ground (arith, f, e)

  issued_request :
      (s : Store) (now : Time) (id secret : String) (p : Ref)
      → lookup text_dec id (prune now s).auth_requests ≡ some p
      → (issue_completion_secret crypto s now (some secret) id).1 ≡ ok secret
      → let t = (issue_completion_secret crypto s now (some secret) id).0 in
        (lookup text_dec id t.auth_requests ≡ some p)
        × ((t.heap p).completion_hash ≡ crypto.sum256 secret)
        × ((t.heap p).expires ≡ (s.heap p).expires)
  unfolding issue_completion_secret write ref_dec
  issued_request s now id secret p f e =
      (ground (arith, f, e), ground (arith, f, e), ground (arith, f, e, prune-heap now s))

  consume_issued :
      (t : Store) (later : Time) (id secret : String) (p : Ref)
      → IsScheduled t
      → crypto.sum256 secret ≢ zero_hash
      → lookup text_dec id t.auth_requests ≡ some p
      → (t.heap p).completion_hash ≡ crypto.sum256 secret
      → later < (t.heap p).expires
      → (consume_completion_secret crypto t later id secret).1 ≡ ok tt
  unfolding consume_completion_secret
  consume_issued t later id secret p h n f g l =
      let found : lookup text_dec id (prune later t).auth_requests ≡ some p =
        ground (arith, (prune-IsSwept later t h).requests id, f, l) in
      ground (arith, found, prune-heap later t, g, n)

  -- The secret that is issued for a request is accepted until the request expires, if it has not a
  -- digest of zeros and the store is rightly scheduled.
  pub consume_completion_secret-issue_completion_secret :
      (s : Store) (now later : Time) (id secret : String) (p : Ref)
      → IsScheduled s
      → crypto.sum256 secret ≢ zero_hash
      → (issue_completion_secret crypto s now (some secret) id).1 ≡ ok secret
      → lookup text_dec id s.auth_requests ≡ some p
      → later < (s.heap p).expires
      → (consume_completion_secret crypto
          (issue_completion_secret crypto s now (some secret) id).0
          later
          id
          secret).1
        ≡ ok tt
  unfolding run step
  consume_completion_secret-issue_completion_secret s now later id secret p h n e f l =
      let live : lookup text_dec id (prune now s).auth_requests ≡ some p =
        elim (Option-cases (lookup text_dec id (prune now s).auth_requests)) [
          | inl g ↦ absurd (refused s now id secret g e)
          | inr (q, g) ↦ ground (arith, g, f, prune-requests-Shrinks now s id)
        ] in
      let facts = issued_request s now id secret p live e in
      consume_issued _ later id secret p
        (run-IsScheduled crypto s (Call.issue_completion_secret now (some secret) id ∷ []) (tt, tt)
          h)
        n facts.0 facts.1 (ground (arith, facts.2, l))
