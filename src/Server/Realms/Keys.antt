-- ===== src/Server/Realms/Keys.antt =====
-- The realms that `NewServer` of internal/idp/server.go serves, and their keys.
use mathlib.Core.List.{Memᴰ}
use mathlib.Core.List.Memᴰ.{head, tail}
use hoocloak.Base.{
  ◌≡◌, ◌≢◌, refl, sym, subst, ◌⊎◌, inl, inr, String, List, [], ◌∷◌, true, none, some, arith,
  text_dec, Option-cases, length,
}
use hoocloak.Base.Map.{Map, lookup, insert, size}
use hoocloak.Base.Map.Laws.{lookup-insert}
use hoocloak.Config.{Config}
use hoocloak.Config as Configuration
use hoocloak.Server.Realm.{Realm}
use hoocloak.Server.Realms.{
  SigningKey, Libraries, Built, built, failed, ServerError, check_key, keyed_realm, build_realms,
  check_names, new_server,
}

-- A realm of the list has the name.
abbrev pub IsNamed : String → List Configuration.Realm → Type 0
IsNamed name realms = (realm : Configuration.Realm) × Memᴰ realm realms × (realm.name ≡ name)

abbrev pub IsThere : {V : Type 0} → String → Map String V → Type 0
IsThere {V} name m = (v : V) × (lookup text_dec name m ≡ some v)

pub Built-cases :
    {A : Type 0} (b : Built A) → ((a : A) × (b ≡ built a)) ⊎ ((e : ServerError) × (b ≡ failed e))
Built-cases (built a) = inl (a, refl)
Built-cases (failed e) = inr (e, refl)

pub missing : {V : Type 0} (name : String) → ¬ IsThere {V = V} name []
unfolding lookup
missing name (v, e) = ground (arith, e)

-- A key that serves.
abbrev pub IsKey : SigningKey → Type 0
IsKey k = (k.has_key ≡ true) × ◌≢◌ {A = String} k.kid ""

module _ (libraries : Libraries) (c : Config) (keys : Map String SigningKey) where
  keyed_realm-IsKey :
      (realm : Configuration.Realm) (server : Realm)
      → keyed_realm libraries c keys realm ≡ built server
      → (k : SigningKey) × (lookup text_dec realm.name keys ≡ some k) × IsKey k
  unfolding keyed_realm check_key
  keyed_realm-IsKey realm server e = elim (Option-cases (lookup text_dec realm.name keys)) [
    | inl f ↦ absurd (ground (arith, e, f))
    | inr (k, f) ↦ (k, f, (ground (arith, e, f), ground (arith, e, f)))
  ]

  build_realms-IsKey :
      (servers out : Map String Realm) (realms : List Configuration.Realm)
      → build_realms libraries c keys servers realms ≡ built out
      → (realm : Configuration.Realm) → Memᴰ realm realms
      → (k : SigningKey) × (lookup text_dec realm.name keys ≡ some k) × IsKey k
  unfolding build_realms
  build_realms-IsKey servers out [] e realm m = elim m [ ]
  build_realms-IsKey servers out (r ∷ rest) e realm m =
      elim (Built-cases (keyed_realm libraries c keys r)) [
        | inr (x, f) ↦ absurd (ground (arith, e, f))
        | inl (server, f) ↦ elim m [
          | head p ↦
              subst
                (λ (x : Configuration.Realm).
                  (k : SigningKey) × (lookup text_dec x.name keys ≡ some k) × IsKey k)
                (sym p) (keyed_realm-IsKey r server f)
          | tail t ↦
              build_realms-IsKey (insert text_dec r.name server servers) out rest
                (ground (arith, e, f)) realm t
        ]
      ]

  -- What is served has a name of the list, or was there.
  build_realms-IsNamed :
      (servers out : Map String Realm) (realms : List Configuration.Realm) (name : String)
      → build_realms libraries c keys servers realms ≡ built out
      → IsThere name out
      → IsThere name servers ⊎ IsNamed name realms
  unfolding build_realms
  build_realms-IsNamed servers out [] name e (v, f) = inl (v, ground (arith, e, f))
  build_realms-IsNamed servers out (r ∷ rest) name e there =
      elim (Built-cases (keyed_realm libraries c keys r)) [
        | inr (x, f) ↦ absurd (ground (arith, e, f))
        | inl (server, f) ↦
            elim (build_realms-IsNamed (insert text_dec r.name server servers) out rest name
              (ground (arith, e, f)) there) [
                | inr (realm, m, q) ↦ inr (realm, tail m, q)
                | inl (v, g) ↦ elim (text_dec r.name name) [
                  | yes p ↦ inr (r, head refl, p)
                  | no n ↦
                      inl
                        (v, ground (arith, g, n, lookup-insert text_dec r.name name server servers))
                ]
              ]
      ]

  check_names-IsThere :
      (servers : Map String Realm) (listed : Map String SigningKey) (name : String)
      → check_names libraries c keys servers listed ≡ none
      → IsThere name listed
      → IsThere name servers
  unfolding check_names lookup
  check_names-IsThere servers [] name e (k, f) = absurd (ground (arith, f))
  check_names-IsThere servers ((n, key) ∷ rest) name e (k, f) =
      elim (Option-cases (lookup text_dec n servers)) [
        | inl g ↦ absurd (ground (arith, e, g))
        | inr (v, g) ↦ elim (text_dec n name) [
          | yes p ↦ (v, subst (λ x. lookup text_dec x servers ≡ some v) p g)
          | no d ↦
              check_names-IsThere servers rest name (ground (arith, e, g)) (k, ground (arith, f, d))
        ]
      ]

  -- The keys fit the realms.
  pub record Fits : Type 0 where
    pub keyed :
        (realm : Configuration.Realm)
        → Memᴰ realm c.realms
        → (k : SigningKey) × (lookup text_dec realm.name keys ≡ some k) × IsKey k
    pub named : (name : String) → IsThere name keys → IsNamed name c.realms
    pub count : size keys ≡ length c.realms

  -- If the server is made, then every realm of the configuration has a signing key with an ID,
  -- every key belongs to a realm of the configuration, and there are as many keys as realms.
  pub new_server-Fits :
      (servers : Map String Realm) → new_server libraries c keys ≡ built servers → Fits
  unfolding new_server
  new_server-Fits servers e = elim (Built-cases (build_realms libraries c keys [] c.realms)) [
    | inr (x, f) ↦ absurd (ground (arith, e, f))
    | inl (out, f) ↦ elim (Option-cases (check_names libraries c keys out keys)) [
      | inr (x, g) ↦ absurd (ground (arith, e, f, g))
      | inl g ↦ record {
        keyed = build_realms-IsKey [] out c.realms f;
        named = λ name there.
            elim (build_realms-IsNamed [] out c.realms name f
              (check_names-IsThere out keys name g there)) [
                | inl nowhere ↦ absurd (missing name nowhere)
                | inr named ↦ named
              ];
        count = ground (arith, e, f, g);
      }
    ]
  ]
