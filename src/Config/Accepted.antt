-- ===== src/Config/Accepted.antt =====
-- What a configuration that `Validate` accepts has.
use mathlib.Core.List.{Memᴰ}
use mathlib.Core.List.Memᴰ.{head, tail}
use hoocloak.Base.{
  ◌∈◌, arith, text_dec, ◌≡◌, ℕ, String, List, [], ◌∷◌, false, Option, none, contains, then-none,
  fails_if-none,
}
use hoocloak.Config.{client_type_service, Config, Realm, User, ClientConfig}
use hoocloak.Config.Text.{canonical_username}
use hoocloak.Config.Url.{Net, Url, Checked, value, problem}
use hoocloak.Config.Rules.{require_id}
use hoocloak.Config.Validate.{
  check_permitted, check_service, check_ttls, check_user, check_users, check_client, check_clients,
  check_realms, check_type, check_config, validate,
}

-- No key has been seen before, in the list or outside it.
abbrev pub AllNew : {A : Type 0} → (A → String) → List String → List A → Type 0
AllNew key seen [] = Unit
AllNew key seen (x ∷ xs) = (contains seen (key x) ≡ false) × AllNew key (key x ∷ seen) xs

require_id-new :
    (id : String) (ids : List String) → require_id id ids ≡ none → contains ids id ≡ false
unfolding require_id
require_id-new id ids e = fails_if-none _ _ (then-none _ _ e).1

module _ (net : Net) (cost : String → Option ℕ) (fold : String → String) where
  check_client-new :
      (c : ClientConfig) (ids : List String)
      → check_client net cost fold c ids ≡ none
      → contains ids c.id ≡ false
  unfolding check_client
  check_client-new c ids e = require_id-new c.id ids (then-none _ _ e).0

  check_client-check_type :
      (c : ClientConfig) (ids : List String)
      → check_client net cost fold c ids ≡ none
      → check_type net cost fold c ≡ none
  unfolding check_client
  check_client-check_type c ids e =
      let e1 = (then-none _ _ e).1 in
      let e2 = (then-none _ _ e1).1 in
      let e3 = (then-none _ _ e2).1 in
      let e4 = (then-none _ _ e3).1 in
      let e5 = (then-none _ _ e4).1 in
      let e6 = (then-none _ _ e5).1 in
      let e7 = (then-none _ _ e6).1 in let e8 = (then-none _ _ e7).1 in (then-none _ _ e8).1

  pub check_clients-AllNew :
      (cs : List ClientConfig) (ids : List String)
      → check_clients net cost fold cs ids ≡ none
      → AllNew (λ c. c.id) ids cs
  unfolding check_clients
  check_clients-AllNew [] ids e = tt
  check_clients-AllNew (c ∷ cs) ids e =
      let both = then-none _ _ e in
      (check_client-new c ids both.0, check_clients-AllNew cs (c.id ∷ ids) both.1)

  pub check_clients-check_type :
      (c : ClientConfig) (cs : List ClientConfig) (ids : List String)
      → check_clients net cost fold cs ids ≡ none
      → Memᴰ c cs
      → check_type net cost fold c ≡ none
  unfolding check_clients
  check_clients-check_type c [] ids e m = elim m [ ]
  check_clients-check_type c (b ∷ cs) ids e (head q) =
      rw q (check_client-check_type b ids (then-none _ _ e).0)
  check_clients-check_type c (b ∷ cs) ids e (tail m) =
      check_clients-check_type c cs (b.id ∷ ids) (then-none _ _ e).1 m

  check_user-new :
      (u : User) (ids names : List String)
      → check_user net cost fold u ids names ≡ none
      → (contains ids u.id ≡ false) × (contains names (canonical_username fold u.username) ≡ false)
  unfolding check_user
  check_user-new u ids names e =
      let e0 = then-none _ _ e in
      let e1 = then-none _ _ e0.1 in
      let e2 = then-none _ _ e1.1 in
      (require_id-new u.id ids e0.0, fails_if-none _ _ (then-none _ _ e2.1).0)

  -- The users and the clients of a realm have different IDs, and the users different names.
  pub check_users-AllNew :
      (us : List User) (cs : List ClientConfig) (ids names : List String)
      → check_users net cost fold us cs ids names ≡ none
      → AllNew (λ u. u.id) ids us
        × AllNew (λ u. canonical_username fold u.username) names us
        × ((seen : List String) × (check_clients net cost fold cs seen ≡ none))
  unfolding check_users
  check_users-AllNew [] cs ids names e = (tt, tt, (ids, e))
  check_users-AllNew (u ∷ us) cs ids names e =
      let both = then-none _ _ e in
      let new = check_user-new u ids names both.0 in
      let rest = check_users-AllNew us cs _ _ both.1 in ((new.0, rest.0), (new.1, rest.1), rest.2)

  check_realms-check_users :
      (realm : Realm) (realms : List Realm) (names : List String)
      → check_realms net cost fold realms names ≡ none
      → Memᴰ realm realms
      → check_users net cost fold realm.users realm.clients [] [] ≡ none
  unfolding check_realms
  check_realms-check_users realm [] names e m = elim m [ ]
  check_realms-check_users realm (r ∷ rs) names e (head q) =
      rw q (then-none _ _ (then-none _ _ (then-none _ _ e).1).1).0
  check_realms-check_users realm (r ∷ rs) names e (tail m) =
      check_realms-check_users realm rs _ (then-none _ _ (then-none _ _ (then-none _ _ e).1).1).1 m

  check_realms-AllNew :
      (realms : List Realm) (names : List String)
      → check_realms net cost fold realms names ≡ none
      → AllNew (λ realm. realm.name) names realms
  unfolding check_realms
  check_realms-AllNew [] names e = tt
  check_realms-AllNew (r ∷ rs) names e = (
    fails_if-none _ _ (then-none _ _ (then-none _ _ e).1).0,
    check_realms-AllNew rs _ (then-none _ _ (then-none _ _ (then-none _ _ e).1).1).1,
  )

  check_config-parts :
      (c : Config) (r : Checked Url)
      → check_config net cost fold c r ≡ none
      → (check_ttls c.tokens ≡ none) × (check_realms net cost fold c.realms [] ≡ none)
  unfolding check_config
  check_config-parts c (problem x) e = ground arith
  check_config-parts c (value u) e =
      let e1 = then-none _ _ (then-none _ _ (then-none _ _ e).1).1 in
      (e1.0, (then-none _ _ (then-none _ _ (then-none _ _ e1.1).1).1).1)

  pub validate-check_ttls :
      (c : Config) → validate net cost fold c ≡ none → check_ttls c.tokens ≡ none
  unfolding validate
  validate-check_ttls c e = (check_config-parts c _ e).0

  pub validate-AllNew :
      (c : Config) → validate net cost fold c ≡ none → AllNew (λ realm. realm.name) [] c.realms
  unfolding validate
  validate-AllNew c e = check_realms-AllNew c.realms [] (check_config-parts c _ e).1

  pub validate-check_users :
      (c : Config) (realm : Realm)
      → validate net cost fold c ≡ none
      → Memᴰ realm c.realms
      → check_users net cost fold realm.users realm.clients [] [] ≡ none
  unfolding validate
  validate-check_users c realm e =
      check_realms-check_users realm c.realms [] (check_config-parts c _ e).1

  -- Every scope that an accepted service client may ask for is a permission of the client.
  pub check_permitted-allowed :
      (permissions scopes : List String) (x : String)
      → check_permitted permissions scopes ≡ none
      → x ∈ scopes
      → x ∈ permissions
  unfolding check_permitted
  check_permitted-allowed permissions [] x e m = ground arith
  check_permitted-allowed permissions (scope ∷ rest) x e m =
      let e1 = (then-none _ _ e).1 in
      let here = fails_if-none _ _ (then-none _ _ e1).0 in
      ground (arith, here, m, check_permitted-allowed permissions rest x (then-none _ _ e1).1)

  pub check_type-permitted :
      (c : ClientConfig)
      → c.type ≡ client_type_service
      → check_type net cost fold c ≡ none
      → check_permitted c.permissions c.allowed_scopes ≡ none
  unfolding check_type check_service text_dec
  check_type-permitted c t e = (then-none _ _ (then-none _ _ (rw (t, check_type) at e)).1).1
