-- ===== src/Store/Calls/Authorize.antt =====
-- The calls on authorization requests keep what their building blocks keep.
use hoocloak.Base.{◌≡◌, inl, inr, String, Option, none, some, arith, text_dec, Option-cases}
use hoocloak.Base.Map.{lookup}
use hoocloak.Store.Types.{Time, Store, Crypto}
use hoocloak.Store.Prune.{prune}
use hoocloak.Store.Prune.View.{prune-requests-Shrinks}
use hoocloak.Store.Requests.{
  OidcRequest, new_auth_request, store_request, write, save_code, delete_auth_request, get_audience,
}
use hoocloak.Store.Requests
use hoocloak.Store.Calls.Fresh.{Absent}
use hoocloak.Store.Calls.Kept.{IsKept}

module _ (crypto : Crypto) (P : Store → Type 0) (keep : IsKept crypto P) (s : Store) (h : P s) where
  pruned : (now : Time) → P (prune now s)
  pruned now = keep.prunes now s h

  absent_request :
      (now : Time) (id : String)
      → lookup text_dec id s.auth_requests ≡ none
      → lookup text_dec id (prune now s).auth_requests ≡ none
  absent_request now id e = ground (arith, prune-requests-Shrinks now s id)

  pub create_auth_request-P :
      (now : Time) (random : Option String) (request : OidcRequest) (user : String)
      → Absent random s.auth_requests
      → P (Requests.create_auth_request s now random request user).0
  unfolding Requests.create_auth_request
  create_auth_request-P now none request user f = ground (arith, h)
  create_auth_request-P now (some id) request user f =
      elim (Option-cases (lookup text_dec request.client_id s.clients)) [
        | inl e ↦ ground (arith, h)
        | inr (client, e) ↦ ground (
          arith,
          h,
          keep.stores (prune now s) request client id user now (absent_request now id f)
              (pruned now),
        )
      ]

  pub auth_request_by_id-P : (now : Time) (id : String) → P (Requests.auth_request_by_id s now id).0
  unfolding Requests.auth_request_by_id
  auth_request_by_id-P now id = ground (arith, pruned now)

  pub auth_request_by_code-P :
      (now : Time) (id : String) → P (Requests.auth_request_by_code s now id).0
  unfolding Requests.auth_request_by_code
  auth_request_by_code-P now id = ground (arith, pruned now)

  pub save_auth_code-P :
      (now : Time) (id code : String) → P (Requests.save_auth_code s now id code).0
  unfolding Requests.save_auth_code
  save_auth_code-P now id code =
      elim (Option-cases (lookup text_dec id (prune now s).auth_requests)) [
        | inl e ↦ rw (e, Requests.save_auth_code) (pruned now)
        | inr (p, e) ↦
            rw (e, Requests.save_auth_code) (keep.saves (prune now s) now id code p e (pruned now))
      ]
