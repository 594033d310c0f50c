-- ===== src/Store/Clients/Registered.antt =====
-- `NewStore` on the realms of a configuration that `Validate` accepts.
use mathlib.Core.List.{Memᴰ}
use mathlib.Core.List.Memᴰ.{head, tail}
use hoocloak.Base.{
  fails_if-none, ◌≡◌, refl, ap, ℕ, String, List, [], ◌∷◌, ◌∙◌, true, Option, none, some, contains,
  arith, text_dec,
}
use hoocloak.Base.Map.{Map, lookup, insert}
use hoocloak.Base.Map.Laws.{lookup-insert}
use hoocloak.Client.{Client, Urls, new_client}
use hoocloak.Config.{Config, User, ClientConfig, Realm}
use hoocloak.Config.Text.{canonical_username}
use hoocloak.Config.Validate.{validate, check_ttls}
use hoocloak.Config.Accepted.{
  AllNew, check_clients-AllNew, check_users-AllNew, validate-check_users, validate-check_ttls,
}
use hoocloak.Store.Types.{Crypto}
use hoocloak.Store.Prune.Schedule.{IsScheduled}
use hoocloak.Store.Families.{IsLinked}
use hoocloak.Store.Codes.{IsAllocated}
use hoocloak.Store.Clients.{add_users, add_usernames, add_clients, new_store}

-- The map with an entry for each element of a list.
module _ {A V : Type 0} (key : A → String) (val : A → V) where
  abbrev pub add_all : List A → Map String V → Map String V
  add_all [] m = m
  add_all (x ∷ xs) m = add_all xs (insert text_dec (key x) (val x) m)

  -- A key that has been seen is none of the later ones.
  add_all-seen :
      (seen : List String) (k : String) (xs : List A) (m : Map String V)
      → contains seen k ≡ true
      → AllNew key seen xs
      → lookup text_dec k (add_all xs m) ≡ lookup text_dec k m
  add_all-seen seen k [] m h new = refl
  add_all-seen seen k (x ∷ xs) m h new =
      add_all-seen (key x ∷ seen) k xs (insert text_dec (key x) (val x) m)
        (ground (arith, h, new.0)) h'
      ∙ ground (arith, lookup-insert text_dec (key x) k (val x) m, h, new.0)
    where
      h' : AllNew key (key x ∷ seen) xs
      h' = new.1

  add_all-found :
      (seen : List String) (x : A) (xs : List A) (m : Map String V)
      → AllNew key seen xs
      → Memᴰ x xs
      → lookup text_dec (key x) (add_all xs m) ≡ some (val x)
  add_all-found seen x [] m new e = elim e [ ]
  add_all-found seen x (y ∷ ys) m new (head q) = rw q (
      add_all-seen (key y ∷ seen) (key y) ys (insert text_dec (key y) (val y) m) (ground arith)
        new.1
      ∙ ground (arith, lookup-insert text_dec (key y) (key y) (val y) m))
  add_all-found seen x (y ∷ ys) m new (tail e) =
      add_all-found (key y ∷ seen) x ys (insert text_dec (key y) (val y) m) new.1 e

module _ (crypto : Crypto) (urls : Urls) where
  add_users-add_all :
      (us : List User) (m : Map String User)
      → add_users crypto us m ≡ add_all (λ u. u.id) (λ u. u) us m
  unfolding add_users
  add_users-add_all [] m = refl
  add_users-add_all (u ∷ us) m = add_users-add_all us _

  add_usernames-add_all :
      (us : List User) (m : Map String String)
      → add_usernames crypto us m
        ≡ add_all (λ u. canonical_username crypto.fold u.username) (λ u. u.id) us m
  unfolding add_usernames
  add_usernames-add_all [] m = refl
  add_usernames-add_all (u ∷ us) m = add_usernames-add_all us _

  add_clients-add_all :
      (cs : List ClientConfig) (ttl : ℕ) (base : String) (m : Map String Client)
      → add_clients crypto urls cs ttl base m
        ≡ add_all (λ c. c.id) (λ c. new_client urls c ttl base) cs m
  unfolding add_clients
  add_clients-add_all [] ttl base m = refl
  add_clients-add_all (c ∷ cs) ttl base m = add_clients-add_all cs ttl base _

module _ (crypto : Crypto) (urls : Urls) (cost : String → Option ℕ) (base kid : String) (c : Config)
    (realm : Realm) (accepted : validate urls.net cost crypto.fold c ≡ none)
    (served : Memᴰ realm c.realms) where
  -- Of a realm in an accepted configuration the store finds every user under the user's ID, and the
  -- user's ID under the canonical form of the user's name.
  pub new_store-user :
      (u : User)
      → Memᴰ u realm.users
      → let s = new_store crypto urls realm c.tokens base kid in
        (lookup text_dec u.id s.users ≡ some u)
        × (lookup text_dec (canonical_username crypto.fold u.username) s.usernames ≡ some u.id)
  unfolding new_store
  new_store-user u m =
      let new =
        check_users-AllNew urls.net cost crypto.fold realm.users realm.clients [] []
          (validate-check_users urls.net cost crypto.fold c realm accepted served) in
      (
        ap (lookup text_dec u.id) (add_users-add_all crypto urls realm.users [])
            ∙ add_all-found (λ u. u.id) (λ u. u) [] u realm.users [] new.0 m,
        ap (lookup text_dec (canonical_username crypto.fold u.username))
              (add_usernames-add_all crypto urls realm.users [])
            ∙ add_all-found (λ u. canonical_username crypto.fold u.username) (λ u. u.id) [] u
                realm.users [] new.1 m,
      )

  -- Of a realm in an accepted configuration the store finds every client under the client's ID.
  pub new_store-client :
      (client : ClientConfig)
      → Memᴰ client realm.clients
      → lookup text_dec client.id (new_store crypto urls realm c.tokens base kid).clients
        ≡ some (new_client urls client c.tokens.id_ttl base)
  unfolding new_store
  new_store-client client m =
      let new =
        check_users-AllNew urls.net cost crypto.fold realm.users realm.clients [] []
          (validate-check_users urls.net cost crypto.fold c realm accepted served) in
      ap (lookup text_dec client.id)
        (add_clients-add_all crypto urls realm.clients c.tokens.id_ttl base [])
      ∙ add_all-found (λ c. c.id) (λ d. new_client urls d c.tokens.id_ttl base) new.2.0 client
          realm.clients []
          (check_clients-AllNew urls.net cost crypto.fold realm.clients new.2.0 new.2.1) m

  -- The store of a realm in an accepted configuration satisfies the invariants of the runs.
  pub new_store_sound :
      let s = new_store crypto urls realm c.tokens base kid in
      IsScheduled s × IsLinked s × IsAllocated s
  unfolding new_store check_ttls lookup
  new_store_sound =
      let ttl = fails_if-none _ _ (validate-check_ttls urls.net cost crypto.fold c accepted) in
      (
        record {
          allocated = tt;
          requests = tt;
          codes = tt;
          access = tt;
          families = tt;
          access_ttl = ground (arith, ttl);
          refresh_ttl = ground (arith, ttl);
        },
        record {
          clean = tt;
          named = λ id f e. ground arith;
          index = λ id f e. ground arith;
          linked = λ h r e. ground arith;
          backed = λ a r e. ground arith;
        },
        record { below = λ id p e. ground arith; coded = λ p n. absurd (n refl) },
      )
