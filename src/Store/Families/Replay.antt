-- ===== src/Store/Families/Replay.antt =====
-- Replay of a refresh token and revocation of its family.
use hoocloak.Base.{
  List, ◌≡◌, ◌≢◌, refl, sym, subst, inl, inr, String, Bool, true, false, not, none, some, arith,
  text_dec, Option-cases, ◌==◌,
}
use hoocloak.Base.Map.{lookup}
use hoocloak.Base.Map.Laws.{lookup-erase, lookup-retain}
use hoocloak.Store.Types.{
  Time, Hash, AccessRecord, RefreshRecord, RefreshFamily, Store, Crypto, err, invalid_grant,
}
use hoocloak.Store.Prune.{prune}
use hoocloak.Store.Sessions.{
  drop_access, revoke_present, revoke_family, request_by_record, token_request_by_refresh_token,
}
use hoocloak.Store.Families.{Backed, IsLinked}
use hoocloak.Store.Calls.{Call, run}
use hoocloak.Store.Calls.Fresh.{AllFresh}
use hoocloak.Store.Families.Kept.{run-IsLinked}
use hoocloak.Store.Families.Sweep.{prune-IsLinked}
use hoocloak.Store.Families.Revoke.{drop_access-Shrinks, drop_access-gone}

-- Nothing of the family is left: no entry, no refresh token, no access token.
pub record IsGone (id : String) (s : Store) : Type 0 where
  pub family : lookup text_dec id s.families ≡ none
  pub refresh_ :
      (h : Hash) (r : RefreshRecord) → lookup text_dec h s.refresh ≡ some r → r.family_id ≢ id
  pub access_ :
      (a : String) (r : AccessRecord) → lookup text_dec a s.access ≡ some r → r.family_id ≢ id

module _ (id : String) (s : Store) (f : RefreshFamily) (links : IsLinked s)
    (home : lookup text_dec id s.families ≡ some f) where
  Backed-gone :
      (a : String) (r : AccessRecord)
      → r.family_id ≡ id
      → Backed s.refresh a r (some f)
      → lookup text_dec a (drop_access id s.refresh s.access) ≡ none
  Backed-gone a r here (h, q, found, same, live, mine) =
      drop_access-gone a id h q s.refresh s.access found (ground arith) live mine

  access_gone :
      (a : String) (r : AccessRecord)
      → lookup text_dec a (drop_access id s.refresh s.access) ≡ some r
      → r.family_id ≢ id
  access_gone a r e here =
      let before : lookup text_dec a s.access ≡ some r =
        ground (arith, drop_access-Shrinks a id s.refresh s.access) in
      let gone =
        Backed-gone a r here
          (subst (Backed s.refresh a r) (rw (sym here) at home) (links.backed a r before)) in
      cc

  -- In a linked store, revoking a family that is there leaves nothing of it, no entry, no refresh
  -- token and no access token, and leaves the other families and their refresh tokens as they were.
  pub revoke_family-IsGone :
      IsGone id (revoke_family id s)
      × ((j : String)
          → j ≢ id
          → lookup text_dec j (revoke_family id s).families ≡ lookup text_dec j s.families)
      × ((h : Hash) (r : RefreshRecord)
          → lookup text_dec h s.refresh ≡ some r
          → r.family_id ≢ id
          → lookup text_dec h (revoke_family id s).refresh ≡ some r)
  unfolding revoke_family revoke_present
  revoke_family-IsGone =
      rw (home, revoke_family)
        (
          record {
            family = ground (arith, lookup-erase text_dec id id s.families);
            refresh_ = λ h r e. ground (arith, lookup-retain text_dec keeps h s.refresh);
            access_ = access_gone;
          },
          (λ j n. ground (arith, lookup-erase text_dec id j s.families)),
          (λ h r e n. ground (arith, lookup-retain text_dec keeps h s.refresh)),
        )
    where
      keeps : Hash → RefreshRecord → Bool
      keeps hash r = not (r.family_id == id)

live_unique :
    (s : Store) (h k : Hash) (q r : RefreshRecord)
    → IsLinked s
    → lookup text_dec h s.refresh ≡ some q
    → lookup text_dec k s.refresh ≡ some r
    → q.consumed ≡ false
    → r.consumed ≡ false
    → q.family_id ≡ r.family_id
    → h ≡ k
live_unique s h k q r links eh ek lq lr same =
    ground (arith, links.linked h q eh, links.linked k r ek)

module _ (crypto : Crypto) where
  -- After any calls with new identifiers, from a linked store, a family never has two live refresh
  -- tokens.
  pub live_token_unique :
      (s : Store) (calls : List Call) (h k : Hash) (q r : RefreshRecord)
      → AllFresh crypto s calls
      → IsLinked s
      → lookup text_dec h (run crypto s calls).refresh ≡ some q
      → lookup text_dec k (run crypto s calls).refresh ≡ some r
      → q.consumed ≡ false
      → r.consumed ≡ false
      → q.family_id ≡ r.family_id
      → h ≡ k
  live_token_unique s calls h k q r fresh links =
      live_unique (run crypto s calls) h k q r (run-IsLinked crypto s calls fresh links)

  -- In a linked store, a refresh token that is presented after it has been spent is refused with
  -- invalid_grant, and its whole family goes: the family, every refresh token and every access
  -- token of it.
  pub token_request_by_refresh_token-replay :
      (s : Store) (now : Time) (token : String) (r : RefreshRecord)
      → IsLinked s
      → lookup text_dec (crypto.sum256 token) (prune now s).refresh ≡ some r
      → r.consumed ≡ true
      → let result = token_request_by_refresh_token crypto s now token in
        (result.1 ≡ err invalid_grant) × IsGone r.family_id result.0
  unfolding token_request_by_refresh_token request_by_record
  token_request_by_refresh_token-replay s now token r links found spent =
      let links' = prune-IsLinked now s links in
      elim (Option-cases (lookup text_dec r.family_id (prune now s).families)) [
        | inl e ↦ absurd (ground (arith, links'.linked (crypto.sum256 token) r found))
        | inr (f, e) ↦
            rw (found, token_request_by_refresh_token)
              (rw (spent, request_by_record)
                (refl, (revoke_family-IsGone r.family_id (prune now s) f links' e).0))
      ]
