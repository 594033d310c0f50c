-- ===== src/Store/Calls/Kept.antt =====
-- What the building blocks of the calls keep, each after what the code has checked before it.
use hoocloak.Base.{◌≡◌, ◌+◌, String, Option, none, some, List, text_dec}
use hoocloak.Base.Map.{lookup}
use hoocloak.Client.{Client}
use hoocloak.Config.{User}
use hoocloak.Store.Types.{Time, Hash, Ref, Store, TokenRequest, Crypto, AccessRecord}
use hoocloak.Store.Prune.{prune}
use hoocloak.Store.Requests.{
  OidcRequest, new_auth_request, store_request, write, save_code, delete_auth_request, get_audience,
}
use hoocloak.Store.Login.{complete_authentication}
use hoocloak.Store.Sessions.{revoke_family, end_sessions, revoke_access}
use hoocloak.Store.Access.{TokenInfo, reserve_authorization_code, access_record, put_access}
use hoocloak.Store.Tokens.{choose_and_issue}
use hoocloak.Store.Calls.Fresh.{NewFamily}

module _ (crypto : Crypto) where
  -- The building blocks, each with what the code has checked before it.
  pub record IsKept (P : Store → Type 0) : Type 0 where
    pub prunes : (now : Time) (s : Store) → P s → P (prune now s)
    pub stores :
        (s : Store) (request : OidcRequest) (client : Client) (id user : String) (now : Time)
        → lookup text_dec id s.auth_requests ≡ none
        → P s
        → P (store_request s (new_auth_request request client id user now)).0
    pub saves :
        (s : Store) (now : Time) (id code : String) (p : Ref)
        → lookup text_dec id s.auth_requests ≡ some p
        → P s
        → P (save_code s now id code p).0
    pub deletes : (s : Store) (id : String) → P s → P (delete_auth_request s id).0
    pub completes :
        (s : Store) (id : String) (user : User) (now : Time) (method : String)
        → P s
        → P (complete_authentication s id user now method).0
    pub hashes :
        (s : Store) (id : String) (p : Ref) (hash : Hash)
        → lookup text_dec id s.auth_requests ≡ some p
        → P s
        → P (write p (record (s.heap p) { completion_hash = hash }) s)
    pub audits : (s : Store) (p : Ref) → P s → P (get_audience s p).0
    pub reserves :
        (s : Store) (request : TokenRequest) → P s → P (reserve_authorization_code s request).0
    pub puts :
        (s : Store) (id : String) (info : TokenInfo) (subject : String)
        (audience scopes : List String) (expires now : Time)
        → lookup text_dec id s.access ≡ none
        → expires ≡ now + s.tokens.access_ttl
        → P s
        → P (put_access s (access_record id info subject audience scopes expires now ""))
    pub issues :
        (s : Store) (now : Time) (random : Option String) (request : TokenRequest)
        (info : TokenInfo) (hash : Hash) (access_id current : String)
        → lookup text_dec hash s.refresh ≡ none
        → lookup text_dec access_id s.access ≡ none
        → NewFamily random s
        → P s
        → P (choose_and_issue crypto s now random request info hash access_id current).0
    pub revokes : (s : Store) (id : String) → P s → P (revoke_family id s)
    pub revokes_access :
        (s : Store) (id client_id : String) (r : AccessRecord)
        → lookup text_dec id s.access ≡ some r
        → P s
        → P (revoke_access s id r)
    pub ends : (s : Store) (subject client_id : String) → P s → P (end_sessions subject client_id s)
