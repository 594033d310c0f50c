-- ===== src/Server/Origins/Configured.antt =====
-- The scopes that internal/idp/server.go announces for a realm.
use hoocloak.Base.{
  ◌≡◌, sym, subst, ◌∙◌, inl, inr, ◌↔◌, String, List, [], ◌∷◌, Bool, true, false, ◌||◌, ◌∈◌,
  contains, text_dec, arith, Bool-cases,
}
use hoocloak.Config.{ClientConfig, Realm}
use hoocloak.Server.Sorted.{
  IsAscending, AllDistinct, contains-sort_strings, sort_strings-IsAscending, IsAscending-unique,
}
use hoocloak.Server.Origins.{add_key, add_keys, scope_keys, configured_scopes}

-- Go visits every key of a map once, in an order of its own.
pub record Visits (range : List String → List String) : Type 0 where
  pub same : (keys : List String) (x : String) → contains (range keys) x ≡ contains keys x
  pub once : (keys : List String) → AllDistinct keys → AllDistinct (range keys)

-- Some client of the list has the scope.
abbrev pub any_client_allows : String → List ClientConfig → Bool
any_client_allows x [] = false
any_client_allows x (c ∷ rest) = contains c.allowed_scopes x || any_client_allows x rest

contains-add_keys :
    (x : String) (seen keys : List String)
    → contains (add_keys seen keys) x ≡ contains seen x || contains keys x
unfolding add_keys
contains-add_keys x seen [] = ground arith
contains-add_keys x seen (k ∷ ks) =
    ground (arith, contains-add_keys x (add_key seen k) ks, text_dec k x)

add_key-AllDistinct :
    (seen : List String) (k : String) → AllDistinct seen → AllDistinct (add_key seen k)
add_key-AllDistinct seen k h = elim (Bool-cases (contains seen k)) [
  | inl y ↦ ground (arith, y, h)
  | inr n ↦ subst AllDistinct {x = k ∷ seen} (ground (arith, n)) (n, h)
]

add_keys-AllDistinct :
    (seen keys : List String) → AllDistinct seen → AllDistinct (add_keys seen keys)
unfolding add_keys
add_keys-AllDistinct seen [] h = h
add_keys-AllDistinct seen (k ∷ ks) h =
    add_keys-AllDistinct (add_key seen k) ks (add_key-AllDistinct seen k h)

scope_keys-AllDistinct :
    (seen : List String) (cs : List ClientConfig)
    → AllDistinct seen
    → AllDistinct (scope_keys seen cs)
unfolding scope_keys
scope_keys-AllDistinct seen [] h = h
scope_keys-AllDistinct seen (c ∷ cs) h =
    scope_keys-AllDistinct (add_keys seen c.allowed_scopes) cs
      (add_keys-AllDistinct seen c.allowed_scopes h)

contains-scope_keys :
    (x : String) (seen : List String) (cs : List ClientConfig)
    → contains (scope_keys seen cs) x ≡ contains seen x || any_client_allows x cs
unfolding scope_keys
contains-scope_keys x seen [] = ground arith
contains-scope_keys x seen (c ∷ cs) = ground (
  arith,
  contains-scope_keys x (add_keys seen c.allowed_scopes) cs,
  contains-add_keys x seen c.allowed_scopes,
)

contains-configured_scopes :
    (range : List String → List String) (realm : Realm) (x : String)
    → Visits range
    → contains (configured_scopes range realm) x ≡ any_client_allows x realm.clients
unfolding configured_scopes
contains-configured_scopes range realm x v =
    contains-sort_strings x (range (scope_keys [] realm.clients))
    ∙ v.same (scope_keys [] realm.clients) x
    ∙ contains-scope_keys x [] realm.clients

configured_scopes-IsAscending :
    (range : List String → List String) (realm : Realm)
    → Visits range
    → IsAscending (configured_scopes range realm)
unfolding configured_scopes
configured_scopes-IsAscending range realm v =
    sort_strings-IsAscending _
      (v.once (scope_keys [] realm.clients) (scope_keys-AllDistinct [] realm.clients tt))

-- What the discovery document promises of its scopes.
pub record Announces (scopes : List String) (realm : Realm) : Type 0 where
  pub ascending : IsAscending scopes
  pub members : (x : String) → (x ∈ scopes) ↔ (any_client_allows x realm.clients ≡ true)

-- The scopes that a realm announces are in ascending order, without a repetition, and are those
-- that some client of it may have; the order in which Go visits a map does not change them.
pub configured_scopes-Announces :
    (range other : List String → List String) (realm : Realm)
    → Visits range
    → Visits other
    → Announces (configured_scopes range realm) realm
      × (configured_scopes range realm ≡ configured_scopes other realm)
configured_scopes-Announces range other realm v w = (
  record {
    ascending = configured_scopes-IsAscending range realm v;
    members = λ x. ground (arith, contains-configured_scopes range realm x v);
  },
  IsAscending-unique (configured_scopes range realm) (configured_scopes other realm)
      (configured_scopes-IsAscending range realm v) (configured_scopes-IsAscending other realm w)
      (λ x.
        contains-configured_scopes range realm x v
        ∙ sym (contains-configured_scopes other realm x w)),
)
