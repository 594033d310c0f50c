-- ===== src/Store/Codes.antt =====
-- internal/idp/storage.go: authorization codes over the calls of the store.
pub mod Untouched
pub mod Kept
pub mod Allocated
pub mod Once
use hoocloak.Base.{◌≡◌, ◌≢◌, ◌<◌, String, Bool, true, false, Option, none, some, text_dec}
use hoocloak.Base.Map.{lookup}
use hoocloak.Store.Types.{Ref, CodeRecord, Store, TokenRequest, auth, Crypto, Result, ok, err}
use hoocloak.Store.Calls.{Call}
use hoocloak.Store.Access
use hoocloak.Store.Tokens

-- The pointers in the map are allocated, and a request with a code has saved it.
pub record IsAllocated (s : Store) : Type 0 where
  pub below : (id : String) (p : Ref) → lookup text_dec id s.auth_requests ≡ some p → p < s.next_ref
  pub coded : (p : Ref) → (s.heap p).code ≢ "" → (s.heap p).code_saved ≡ true

-- The record of a code cannot be reserved for the request `id`.
abbrev pub Refuses : String → Option CodeRecord → Type 0
Refuses id none = Unit
Refuses id (some r) = r.request_id ≡ id → r.reserved ≡ true

-- The request's code has been used, or can never be.
pub record IsExhausted (p : Ref) (s : Store) : Type 0 where
  pub allocated : IsAllocated s
  pub below : p < s.next_ref
  pub saved : (s.heap p).code_saved ≡ true
  pub refused :
      lookup text_dec (s.heap p).id s.auth_requests ≡ some p
      → Refuses (s.heap p).id (lookup text_dec (s.heap p).code s.codes)

abbrev pub Succeeds : {A : Type 0} → Result A → Type 0
Succeeds (ok a) = Unit
Succeeds (err e) = ⊥

-- The call is a token request for the authorization request `p`, and is answered by tokens.
abbrev pub Redeems : Crypto → Store → Ref → Call → Type 0
Redeems crypto s p (Call.create_access_token now random request) =
    (request ≡ auth p) × Succeeds (Access.create_access_token s now random request "").1
Redeems crypto s p (Call.create_access_and_refresh_tokens now token access family request current) =
    (request ≡ auth p)
    × Succeeds
        (Tokens.create_access_and_refresh_tokens crypto s now token access family request current).1
Redeems crypto s p _ = ⊥
