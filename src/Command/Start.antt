-- ===== src/Command/Start.antt =====
-- What `serve` of cmd/hoocloak/main.go comes to: keys that are made fit the realms of a
-- configuration that is accepted.
use mathlib.Core.List.{Memᴰ}
use mathlib.Core.List.Memᴰ.{head, tail}
use hoocloak.Base.{
  ◌≡◌, ◌≢◌, refl, sym, ap, ◌∙◌, subst, ◌⊎◌, inl, inr, ℕ, String, List, [], ◌∷◌, Bool, true, false,
  Option, none, some, arith, text_dec, Bool-cases, Option-cases, length,
}
use hoocloak.Base.Map.{Map, lookup, insert, size}
use hoocloak.Base.Map.Laws.{lookup-insert}
use hoocloak.Config.{Config}
use hoocloak.Config as Configuration
use hoocloak.Config.Validate.{validate}
use hoocloak.Config.Accepted.{validate-AllNew}
use hoocloak.Server.Realm.{Realm}
use hoocloak.Server.Realms.{
  SigningKey, Libraries, built, failed, ServerError, theme, provider, encoding, origins, check_key,
  keyed_realm, build_realm, build_realms, check_names, new_server,
}
use hoocloak.Config.Url.{Problem}
use hoocloak.Command.Overrides.{IsEffective, overrides-IsEffective}
use hoocloak.Command.Keys.{generate_keys-HasMade, generate_keys-IsNamed, first_keys-size}
use hoocloak.Server.Realms.Keys.{Fits, new_server-Fits, IsNamed, IsThere, missing, Built-cases}
use hoocloak.Base.{text_dec}
use hoocloak.Command.{
  Override, applied, padded_mode, bad_mode, padded_theme, relative_theme,
  apply_environment_overrides, serve, unloaded, overridden, generate_keys, start_server, start,
  Started, ready, no_key, invalid, no_server,
}

-- Is the error one of the theme's or the libraries', not of the keys?
abbrev pub is_of_libraries : ServerError → Bool
is_of_libraries theme = true
is_of_libraries (provider name) = true
is_of_libraries (encoding name) = true
is_of_libraries (origins name) = true
is_of_libraries _ = false

module _ (libraries : Libraries) (c : Config) (keys : Map String SigningKey) where
  build_realm-libraries :
      (realm : Configuration.Realm) (e : ServerError)
      → build_realm libraries c keys realm ≡ failed e
      → is_of_libraries e ≡ true
  unfolding build_realm
  build_realm-libraries realm e h = ground (arith, h)

  keyed_realm-libraries :
      (realm : Configuration.Realm) (e : ServerError)
      → check_key libraries c keys realm ≡ none
      → keyed_realm libraries c keys realm ≡ failed e
      → is_of_libraries e ≡ true
  unfolding keyed_realm
  keyed_realm-libraries realm e k h = build_realm-libraries realm e (ground (arith, k, h))

  build_realms-libraries :
      (servers : Map String Realm) (realms : List Configuration.Realm) (e : ServerError)
      → ((realm : Configuration.Realm)
          → Memᴰ realm realms
          → check_key libraries c keys realm ≡ none)
      → build_realms libraries c keys servers realms ≡ failed e
      → is_of_libraries e ≡ true
  unfolding build_realms
  build_realms-libraries servers [] e k h = absurd (ground (arith, h))
  build_realms-libraries servers (r ∷ rest) e k h =
      elim (Built-cases (keyed_realm libraries c keys r)) [
        | inr (x, f) ↦ keyed_realm-libraries r e (k r (head refl)) (ground (arith, h, f))
        | inl (server, f) ↦
            build_realms-libraries (insert text_dec r.name server servers) rest e
              (λ realm m. k realm (tail m)) (ground (arith, h, f))
      ]

  build_realms-IsThere :
      (servers out : Map String Realm) (realms : List Configuration.Realm) (name : String)
      → build_realms libraries c keys servers realms ≡ built out
      → IsThere name servers ⊎ IsNamed name realms
      → IsThere name out
  unfolding build_realms
  build_realms-IsThere servers out [] name e h = elim h [
    | inl (v, f) ↦ (v, ground (arith, e, f))
    | inr (realm, m, q) ↦ elim m [ ]
  ]
  build_realms-IsThere servers out (r ∷ rest) name e h =
      elim (Built-cases (keyed_realm libraries c keys r)) [
        | inr (x, f) ↦ absurd (ground (arith, e, f))
        | inl (server, f) ↦
            let more = insert text_dec r.name server servers in
            let e' : build_realms libraries c keys more rest ≡ built out = ground (arith, e, f) in
            elim (text_dec r.name name) [
              | yes p ↦ build_realms-IsThere more out rest name e' (
                  inl
                    (server, ground (arith, p, lookup-insert text_dec r.name name server servers)))
              | no n ↦ elim h [
                | inl (v, g) ↦ build_realms-IsThere more out rest name e' (
                    inl
                      (v, ground (arith, n, g, lookup-insert text_dec r.name name server servers)))
                | inr (realm, m, q) ↦ elim m [
                  | head p ↦ absurd (n (ap (λ (x : Configuration.Realm). x.name) (sym p) ∙ q))
                  | tail t ↦ build_realms-IsThere more out rest name e' (inr (realm, t, q))
                ]
              ]
            ]
      ]

  check_names-none :
      (servers : Map String Realm) (listed : Map String SigningKey)
      → ((name : String) → IsThere name listed → IsThere name servers)
      → check_names libraries c keys servers listed ≡ none
  unfolding check_names lookup
  check_names-none servers [] h = refl
  check_names-none servers ((n, key) ∷ rest) h =
      let (v, f) = h n (key, ground arith) in
      ground (
        arith,
        f,
        check_names-none servers rest (λ name there. h name (elim (text_dec n name) [
          | yes p ↦ (key, ground (arith, p))
          | no d ↦ (there.0, ground (arith, d, there.1))
        ])),
      )

  -- What keys must have to fit.
  new_server-libraries :
      (e : ServerError)
      → size keys ≡ length c.realms
      → ((realm : Configuration.Realm)
          → Memᴰ realm c.realms
          → check_key libraries c keys realm ≡ none)
      → ((name : String) → IsThere name keys → IsNamed name c.realms)
      → new_server libraries c keys ≡ failed e
      → is_of_libraries e ≡ true
  unfolding new_server
  new_server-libraries e count keyed named h =
      elim (Built-cases (build_realms libraries c keys [] c.realms)) [
        | inr (x, f) ↦ elim (Bool-cases (libraries.loads_theme c.theme_dir)) [
          | inr t ↦ ground (arith, h, t)
          | inl t ↦ build_realms-libraries [] c.realms e keyed (ground (arith, h, t, f, count))
        ]
        | inl (out, f) ↦
            let fits = check_names-none out keys (λ name there.
              build_realms-IsThere [] out c.realms name f (inr (named name there))) in
            ground (arith, h, f, fits, count)
      ]

module _ (libraries : Libraries) (cost : String → Option ℕ) (fold : String → String)
    (new_key : String → Option String) where
  -- What `serve` comes to with an effective configuration: servers whose keys fit, an error that is
  -- not the keys', or an error before there is a server.
  pub data Outcome (c : Config) (t : Started) : Type 0 where
    served :
        (servers : Map String Realm) (keys : Map String SigningKey)
        → t ≡ ready servers
        → validate libraries.net cost fold c ≡ none
        → Fits libraries c keys
        → Outcome c t
    library_error : (e : ServerError) → t ≡ no_server e → is_of_libraries e ≡ true → Outcome c t
    refused :
        (problem : Problem)
        → t ≡ invalid problem
        → validate libraries.net cost fold c ≡ some problem
        → Outcome c t
    keyless : t ≡ no_key → Outcome c t

  -- With the keys that were made.
  start_server-Outcome :
      (c : Config) (keys : Map String SigningKey)
      → ((name kid : String) → new_key name ≡ some kid → ◌≢◌ {A = String} kid "")
      → validate libraries.net cost fold c ≡ none
      → generate_keys new_key [] c.realms ≡ some keys
      → Outcome c (start_server libraries cost fold new_key c keys)
  unfolding start_server check_key
  start_server-Outcome c keys ids f g = elim (Built-cases (new_server libraries c keys)) [
    | inl (servers, k) ↦
        served servers keys (ground (arith, k)) f (new_server-Fits libraries c keys servers k)
    | inr (x, k) ↦ library_error x (ground (arith, k)) (
        new_server-libraries libraries c keys x
          (first_keys-size new_key keys c.realms (validate-AllNew libraries.net cost fold c f) g)
          (λ realm m.
            let (key, l, made) =
              generate_keys-HasMade new_key [] keys c.realms realm.name g (inr (realm, m, refl)) in
            ground (arith, l, made, ids realm.name key.kid made.1))
          (λ name there. elim (generate_keys-IsNamed new_key [] keys c.realms name g there) [
            | inl nowhere ↦ absurd (missing name nowhere)
            | inr named ↦ named
          ])
          k)
  ]

  -- With an effective configuration.
  start-Outcome :
      (c : Config)
      → ((name kid : String) → new_key name ≡ some kid → ◌≢◌ {A = String} kid "")
      → Outcome c (start libraries cost fold new_key c)
  unfolding start
  start-Outcome c ids = elim (Option-cases (validate libraries.net cost fold c)) [
    | inr (x, f) ↦ refused x (ground (arith, f)) f
    | inl f ↦ elim (Option-cases (generate_keys new_key [] c.realms)) [
      | inl g ↦ keyless (ground (arith, f, g))
      | inr (keys, g) ↦
          subst (Outcome c) (ground (arith, f, g)) (start_server-Outcome c keys ids f g)
    ]
  ]

  -- The error of an override.
  abbrev pub IsOverrideError : Override → Type 0
  IsOverrideError o = (o ≡ padded_mode) ⊎ (o ≡ bad_mode) ⊎ (o ≡ padded_theme) ⊎ (o ≡ relative_theme)

  -- What `serve` comes to with what was loaded.
  pub data Ends (loaded : Option Config) (environment : String → Option String) (t : Started)
      : Type 0 where
    not_loaded : loaded ≡ none → t ≡ unloaded → Ends loaded environment t
    not_effective :
        (c : Config) (o : Override)
        → loaded ≡ some c
        → apply_environment_overrides environment c ≡ o
        → IsOverrideError o
        → t ≡ overridden o
        → Ends loaded environment t
    effective :
        (c c' : Config)
        → loaded ≡ some c
        → IsEffective environment c c'
        → Outcome c' t
        → Ends loaded environment t

  -- If the IDs of new keys are not empty, serve comes to one of six ends before it listens: the
  -- configuration was not loaded; an override was refused, as applyEnvironmentOverrides does; or
  -- the configuration is the file's with the mode and the theme that the environment sets, the mode
  -- password where none is set and one of the two, a theme of the environment an absolute path, and
  -- then it was refused; or no key could be made; or the theme or a library fails, but never
  -- NewServer's checks of the keys; or the servers are there, the configuration was accepted, every
  -- realm has a key with an ID and every key a realm, as many as there are realms.
  pub serve-Ends :
      (loaded : Option Config) (environment : String → Option String)
      → ((name kid : String) → new_key name ≡ some kid → ◌≢◌ {A = String} kid "")
      → Ends loaded environment (serve libraries cost fold new_key loaded environment)
  unfolding serve
  serve-Ends none environment ids = not_loaded refl refl
  serve-Ends (some c) environment ids = decided (apply_environment_overrides environment c) refl
    where
      decided :
          (o : Override)
          → apply_environment_overrides environment c ≡ o
          → Ends (some c) environment (elim o [
            | applied c' ↦ start libraries cost fold new_key c'
            | padded_mode ↦ overridden padded_mode
            | bad_mode ↦ overridden bad_mode
            | padded_theme ↦ overridden padded_theme
            | relative_theme ↦ overridden relative_theme
          ])
      decided (applied c') e =
          effective c c' refl (overrides-IsEffective environment c c' e) (start-Outcome c' ids)
      decided padded_mode e = not_effective c padded_mode refl e (inl refl) refl
      decided bad_mode e = not_effective c bad_mode refl e (inr (inl refl)) refl
      decided padded_theme e = not_effective c padded_theme refl e (inr (inr (inl refl))) refl
      decided relative_theme e = not_effective c relative_theme refl e (inr (inr (inr refl))) refl
