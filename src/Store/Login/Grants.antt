-- ===== src/Store/Login/Grants.antt =====
-- What a login grants: the loop of `completeAuthenticationLocked`.
use hoocloak.Base.{◌≡◌, refl, String, List, [], ◌∷◌, true, ◌&&◌, ◌∈◌, ◌↔◌, ◌⊎◌, contains, arith}
use hoocloak.Client.{Client}
use hoocloak.Config.{User}
use hoocloak.Store.Login.{is_granted, is_standard_scope, grant_scopes}

contains-grant_scopes :
    (client : Client) (user : User) (x : String) (scopes : List String)
    → contains (grant_scopes client user scopes) x ≡ contains scopes x && is_granted client user x
unfolding grant_scopes
contains-grant_scopes client user x [] = refl
contains-grant_scopes client user x (scope ∷ rest) =
    ground (arith, contains-grant_scopes client user x rest)

-- A scope is granted exactly if it is requested, allowed to the client, and a standard scope or a
-- permission of the user.
pub grant_scopes-exact :
    (client : Client) (user : User) (x : String) (scopes : List String)
    → (x ∈ grant_scopes client user scopes) ↔ (
        (x ∈ scopes)
        × (x ∈ client.config.allowed_scopes)
        × ((is_standard_scope x ≡ true) ⊎ (x ∈ user.permissions)))
unfolding is_granted
grant_scopes-exact client user x scopes = ground (arith, contains-grant_scopes client user x scopes)
