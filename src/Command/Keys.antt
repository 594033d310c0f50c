-- ===== src/Command/Keys.antt =====
-- The keys that cmd/hoocloak/main.go makes, one for each realm.
use mathlib.Core.List.Memᴰ.{head, tail}
use hoocloak.Base.{
  ◌≡◌, refl, sym, ap, ◌∙◌, subst, ◌⊎◌, inl, inr, ◌+◌, String, List, [], ◌∷◌, true, false, Option,
  none, some, arith, text_dec, contains, Option-cases, length,
}
use hoocloak.Base.Map.{Map, lookup, insert, size}
use hoocloak.Base.Map.Laws.{lookup-insert}
use hoocloak.Base.Map.Size.{size-insert_new}
use hoocloak.Config.{Config}
use hoocloak.Config as Configuration
use hoocloak.Config.Accepted.{AllNew}
use hoocloak.Server.Realms.{SigningKey}
use hoocloak.Server.Realms.Keys.{IsNamed, IsThere}
use hoocloak.Command.{generate_keys}

module _ (new_key : String → Option String) where
  -- A key that was made for the name.
  abbrev pub IsMade : String → SigningKey → Type 0
  IsMade name k = (k.has_key ≡ true) × (new_key name ≡ some k.kid)

  abbrev pub HasMade : String → Map String SigningKey → Type 0
  HasMade name keys = (k : SigningKey) × (lookup text_dec name keys ≡ some k) × IsMade name k

  abbrev with_key : String → String → Map String SigningKey → Map String SigningKey
  with_key name kid keys = insert text_dec name (record { has_key = true; kid = kid }) keys

  with_key-HasMade :
      (name kid other : String) (keys : Map String SigningKey)
      → new_key name ≡ some kid
      → (name ≡ other) ⊎ HasMade other keys
      → HasMade other (with_key name kid keys)
  with_key-HasMade name kid other keys made h = elim (text_dec name other) [
    | yes p ↦ (
      record { has_key = true; kid = kid },
      ground
          (arith, p, lookup-insert text_dec name other (record { has_key = true; kid = kid }) keys),
      (refl, subst (λ x. new_key x ≡ some kid) p made),
    )
    | no n ↦ elim h [
      | inl p ↦ absurd (n p)
      | inr (k, f, m) ↦ (
        k,
        ground (
          arith,
          n,
          f,
          lookup-insert text_dec name other (record { has_key = true; kid = kid }) keys,
        ),
        m,
      )
    ]
  ]

  pub generate_keys-HasMade :
      (keys out : Map String SigningKey) (realms : List Configuration.Realm) (name : String)
      → generate_keys new_key keys realms ≡ some out
      → HasMade name keys ⊎ IsNamed name realms
      → HasMade name out
  unfolding generate_keys
  generate_keys-HasMade keys out [] name e h = elim h [
    | inl m ↦ subst (HasMade name) (ground (arith, e)) m
    | inr (realm, m, q) ↦ elim m [ ]
  ]
  generate_keys-HasMade keys out (r ∷ rest) name e h = elim (Option-cases (new_key r.name)) [
    | inl f ↦ absurd (ground (arith, e, f))
    | inr (kid, f) ↦
        let e' : generate_keys new_key (with_key r.name kid keys) rest ≡ some out =
          ground (arith, e, f) in
        generate_keys-HasMade (with_key r.name kid keys) out rest name e' (elim h [
          | inl m ↦ inl (with_key-HasMade r.name kid name keys f (inr m))
          | inr (realm, m, q) ↦ elim m [
            | head p ↦ inl (
                with_key-HasMade r.name kid name keys f
                  (inl (ap (λ (x : Configuration.Realm). x.name) (sym p) ∙ q)))
            | tail t ↦ inr (realm, t, q)
          ]
        ])
  ]

  pub generate_keys-IsNamed :
      (keys out : Map String SigningKey) (realms : List Configuration.Realm) (name : String)
      → generate_keys new_key keys realms ≡ some out
      → IsThere name out
      → IsThere name keys ⊎ IsNamed name realms
  unfolding generate_keys
  generate_keys-IsNamed keys out [] name e (k, f) = inl (k, ground (arith, e, f))
  generate_keys-IsNamed keys out (r ∷ rest) name e there = elim (Option-cases (new_key r.name)) [
    | inl f ↦ absurd (ground (arith, e, f))
    | inr (kid, f) ↦
        elim (generate_keys-IsNamed (with_key r.name kid keys) out rest name (ground (arith, e, f))
          there) [
            | inr (realm, m, q) ↦ inr (realm, tail m, q)
            | inl (k, g) ↦ elim (text_dec r.name name) [
              | yes p ↦ inr (r, head refl, p)
              | no n ↦ inl (
                k,
                ground (
                  arith,
                  g,
                  n,
                  lookup-insert text_dec r.name name (record { has_key = true; kid = kid }) keys,
                ),
              )
            ]
          ]
  ]

  -- The names of the keys are those seen.
  abbrev AllSeen : List String → Map String SigningKey → Type 0
  AllSeen seen keys =
      (name : String) → contains seen name ≡ false → lookup text_dec name keys ≡ none

  generate_keys-size :
      (seen : List String) (keys out : Map String SigningKey) (realms : List Configuration.Realm)
      → AllNew (λ (realm : Configuration.Realm). realm.name) seen realms
      → AllSeen seen keys
      → generate_keys new_key keys realms ≡ some out
      → size out ≡ size keys + length realms
  unfolding generate_keys
  generate_keys-size seen keys out [] a h e = ground (arith, e)
  generate_keys-size seen keys out (r ∷ rest) (new, a) h e = elim (Option-cases (new_key r.name)) [
    | inl f ↦ absurd (ground (arith, e, f))
    | inr (kid, f) ↦
        let made : SigningKey = record { has_key = true; kid = kid } in
        let more =
          generate_keys-size (r.name ∷ seen) (with_key r.name kid keys) out rest a
            (λ name n. ground (arith, n, h name, lookup-insert text_dec r.name name made keys))
            (ground (arith, e, f)) in
        omega (arith, more, size-insert_new text_dec r.name made keys (h r.name new))
  ]

  pub first_keys-size :
      (out : Map String SigningKey) (realms : List Configuration.Realm)
      → AllNew (λ (realm : Configuration.Realm). realm.name) [] realms
      → generate_keys new_key [] realms ≡ some out
      → size out ≡ length realms
  unfolding size lookup
  first_keys-size out realms a e =
      omega (arith, generate_keys-size [] [] out realms a (λ name n. refl) e)
