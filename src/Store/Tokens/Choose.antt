-- ===== src/Store/Tokens/Choose.antt =====
-- The ways that `CreateAccessAndRefreshTokens` comes by its family.
use hoocloak.Base.{
  ◌≡◌, refl, String, Option, some, none, inl, inr, true, false, text_dec, Option-cases, Bool-cases,
  ◌+◌, ◌==◌,
}
use hoocloak.Base.Map.{lookup, insert}
use hoocloak.Store.Types.{
  Store, Time, Hash, TokenRequest, RefreshRecord, RefreshFamily, Crypto, Error, Result, ok, err,
  invalid_grant,
}
use hoocloak.Store.Prune.{schedule_expiry}
use hoocloak.Store.Sessions.{revoke_family}
use hoocloak.Store.Access.{TokenInfo, get_subject}
use hoocloak.Store.Tokens.{
  new_family, start_family, may_rotate, spend, spent_family, rotate_family, choose_family,
}

-- The store with a new family.
abbrev pub started : Store → String → RefreshFamily → Store
started s id family =
    schedule_expiry family.expires (record s { families = insert text_dec id family s.families })

module _ {ℓ} (Q : Store × Result (String × RefreshFamily) → Type ℓ) (s : Store)
    (refused : (e : Error) → Q (s, err e)) where
  pub start_family_cases :
      (now : Time) (random : Option String) (client_id subject : String)
      → ((id : String)
          → random ≡ some id
          → let family = new_family id client_id subject (now + s.tokens.refresh_ttl) in
            Q (started s id family, ok (id, family)))
      → Q (start_family s now random client_id subject)
  unfolding start_family
  start_family_cases now none client_id subject f = refused _
  start_family_cases now (some id) client_id subject f = f id refl

  pub rotate_family_cases :
      (now : Time) (hash : Hash) (client_id : String)
      → ((old : RefreshRecord)
          → lookup text_dec hash s.refresh ≡ some old
          → old.consumed ≡ true
          → Q (revoke_family old.family_id s, err invalid_grant))
      → ((old : RefreshRecord) (family : RefreshFamily)
          → lookup text_dec hash s.refresh ≡ some old
          → old.consumed ≡ false
          → lookup text_dec old.family_id s.families ≡ some family
          → may_rotate now client_id old family ≡ true
          → Q (spend s hash old family, ok (old.family_id, spent_family s hash old family)))
      → Q (rotate_family s now hash client_id)
  unfolding rotate_family
  rotate_family_cases now hash client_id replayed rotated =
      elim (Option-cases (lookup text_dec hash s.refresh)) [
        | inl e ↦ rw (e, rotate_family) (refused _)
        | inr (old, e) ↦ elim (Bool-cases old.consumed) [
          | inl c ↦ rw (e, rotate_family) (rw c (replayed old e c))
          | inr c ↦ elim (Option-cases (lookup text_dec old.family_id s.families)) [
            | inl q ↦ rw (e, rotate_family) (rw (c, q, rotate_family) (refused _))
            | inr (family, q) ↦ elim (Bool-cases (may_rotate now client_id old family)) [
              | inl m ↦
                  rw (e, rotate_family)
                    (rw (c, q, rotate_family) (rw m (rotated old family e c q m)))
              | inr m ↦ rw (e, rotate_family) (rw (c, q, rotate_family) (rw m (refused _)))
            ]
          ]
        ]
      ]

  module _ (crypto : Crypto) where
    pub choose_family_cases :
        (now : Time) (random : Option String) (request : TokenRequest) (info : TokenInfo)
        (current : String)
        → ((id : String)
            → random ≡ some id
            → let family =
                new_family id info.client_id (get_subject s request) (now + s.tokens.refresh_ttl) in
              Q (started s id family, ok (id, family)))
        → ((old : RefreshRecord)
            → lookup text_dec (crypto.sum256 current) s.refresh ≡ some old
            → old.consumed ≡ true
            → Q (revoke_family old.family_id s, err invalid_grant))
        → ((old : RefreshRecord) (family : RefreshFamily)
            → lookup text_dec (crypto.sum256 current) s.refresh ≡ some old
            → old.consumed ≡ false
            → lookup text_dec old.family_id s.families ≡ some family
            → may_rotate now info.client_id old family ≡ true
            → Q (
              spend s (crypto.sum256 current) old family,
              ok (old.family_id, spent_family s (crypto.sum256 current) old family),
            ))
        → Q (choose_family crypto s now random request info current)
    unfolding choose_family
    choose_family_cases now random request info current fresh replayed rotated =
        elim (Bool-cases (current == "")) [
          | inl e ↦
              rw e (start_family_cases now random info.client_id (get_subject s request) fresh)
          | inr e ↦
              rw e (rotate_family_cases now (crypto.sum256 current) info.client_id replayed rotated)
        ]
