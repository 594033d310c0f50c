-- ===== src/Store/Families/Revoke.antt =====
-- `revokeFamilyLocked`, `RevokeToken` and `TerminateSession`: what they leave of a family.
use hoocloak.Base.{
  ◌≡◌, ◌≢◌, refl, inl, ite, String, List, [], ◌∷◌, Bool, false, not, ◌&&◌, ◌==◌, none, some, arith,
  text_dec,
}
use hoocloak.Base.Map.{Map, lookup, erase, retain}
use hoocloak.Base.Map.Laws.{lookup-erase, lookup-retain}
use hoocloak.Base.Map.NoShadow.{erase-NoShadow}
use hoocloak.Store.Types.{Hash, AccessRecord, RefreshRecord, RefreshFamily, Store}
use hoocloak.Store.Prune.View.{Shrinks}
use hoocloak.Store.Sessions.{
  drop_access, revoke_present, revoke_family, revoke_all, revoke_access, end_sessions,
  session_families, access_families,
}
use hoocloak.Store.Families.{Index, Linked, Backed, Links, IsLinked, Backed-mono}

-- Fewer access tokens break no link.
pub fewer-Links :
    (families : Map String RefreshFamily) (refresh : Map Hash RefreshRecord)
    (access less : Map String AccessRecord)
    → ((a : String) → Shrinks (lookup text_dec a less) (lookup text_dec a access))
    → Links families refresh access
    → Links families refresh less
fewer-Links families refresh access less shrink links = record {
  clean = links.clean;
  named = links.named;
  index = links.index;
  linked = links.linked;
  backed = λ a r e. links.backed a r (ground (arith, shrink a));
}

pub drop_access-Shrinks :
    (a id : String) (rs : Map Hash RefreshRecord) (m : Map String AccessRecord)
    → Shrinks (lookup text_dec a (drop_access id rs m)) (lookup text_dec a m)
unfolding drop_access
drop_access-Shrinks a id [] m = inl refl
drop_access-Shrinks a id ((h, r) ∷ rs) m = ground (
  arith,
  drop_access-Shrinks a id rs m,
  drop_access-Shrinks a id rs (erase text_dec r.access_id m),
  lookup-erase text_dec r.access_id a m,
)

-- The access token of a live refresh token of the family goes.
pub drop_access-gone :
    (a id : String) (h : Hash) (q : RefreshRecord) (rs : Map Hash RefreshRecord)
    (m : Map String AccessRecord)
    → lookup text_dec h rs ≡ some q
    → q.family_id ≡ id
    → q.consumed ≡ false
    → q.access_id ≡ a
    → lookup text_dec a (drop_access id rs m) ≡ none
unfolding drop_access lookup
drop_access-gone a id h q [] m e f c x = cc
drop_access-gone a id h q ((j, r) ∷ rs) m e f c x = elim (text_dec j h) [
  | yes p ↦
      let same : r ≡ q = ground arith in
      ground
        (arith, same, drop_access-Shrinks a id rs (erase text_dec a m), lookup-erase text_dec a a m)
  | no p ↦
      let later : lookup text_dec h rs ≡ some q = ground arith in
      ground (
        arith,
        drop_access-gone a id h q rs m later f c x,
        drop_access-gone a id h q rs (erase text_dec r.access_id m) later f c x,
      )
]

module _ (id : String) (s : Store) (links : IsLinked s) where
  abbrev keeps : Hash → RefreshRecord → Bool
  keeps hash r = not (r.family_id == id)

  revoke-Index :
      (j : String) (hs : List Hash)
      → j ≢ id
      → Index j hs s.refresh
      → Index j hs (retain text_dec keeps s.refresh)
  revoke-Index j [] n i = tt
  revoke-Index j (h ∷ []) n i = ground (arith, lookup-retain text_dec keeps h s.refresh)
  revoke-Index j (h ∷ h' ∷ hs) n i = i

  revoke-Linked :
      (h : Hash) (r : RefreshRecord)
      → lookup text_dec h (retain text_dec keeps s.refresh) ≡ some r
      → Linked (lookup text_dec r.family_id (erase text_dec id s.families)) h r
  revoke-Linked h r e = ground (
    arith,
    lookup-retain text_dec keeps h s.refresh,
    links.linked h r,
    lookup-erase text_dec id r.family_id s.families,
  )

  revoke-Backed :
      (a : String) (r : AccessRecord)
      → lookup text_dec a (drop_access id s.refresh s.access) ≡ some r
      → Backed
          (retain text_dec keeps s.refresh)
          a
          r
          (lookup text_dec r.family_id (erase text_dec id s.families))
  revoke-Backed a r e =
      rw (lookup-erase text_dec id r.family_id s.families)
        (elim (text_dec id r.family_id)
          as (λ d.
            Backed (retain text_dec keeps s.refresh) a r
              (ite d none (lookup text_dec r.family_id s.families))) [
                | yes p ↦ tt
                | no p ↦
                    Backed-mono s.refresh (retain text_dec keeps s.refresh) a r
                      (lookup text_dec r.family_id s.families)
                      (λ h q found same live mine.
                        ground (arith, lookup-retain text_dec keeps h s.refresh))
                      (links.backed a r
                        (ground (arith, drop_access-Shrinks a id s.refresh s.access)))
              ])

  revoke_present-IsLinked : IsLinked (revoke_present id s)
  unfolding revoke_present
  revoke_present-IsLinked = record {
    clean = erase-NoShadow text_dec id s.families links.clean;
    named = λ j f e. links.named j f (ground (arith, lookup-erase text_dec id j s.families));
    index = λ j f e.
        ground
          (arith, lookup-erase text_dec id j s.families, revoke-Index j f.tokens, links.index j f);
    linked = revoke-Linked;
    backed = revoke-Backed;
  }

  pub revoke_family-IsLinked : IsLinked (revoke_family id s)
  unfolding revoke_family
  revoke_family-IsLinked = ground (arith, links, revoke_present-IsLinked)

pub revoke_all-IsLinked : (ids : List String) (s : Store) → IsLinked s → IsLinked (revoke_all ids s)
unfolding revoke_all
revoke_all-IsLinked [] s h = h
revoke_all-IsLinked (id ∷ ids) s h =
    revoke_all-IsLinked ids (revoke_family id s) (revoke_family-IsLinked id s h)

pub revoke_access-IsLinked :
    (s : Store) (id : String) (r : AccessRecord) → IsLinked s → IsLinked (revoke_access s id r)
unfolding revoke_access
revoke_access-IsLinked s id r h =
    let less : IsLinked (record s { access = erase text_dec id s.access }) =
      fewer-Links s.families s.refresh s.access (erase text_dec id s.access)
        (λ a. ground (arith, lookup-erase text_dec id a s.access)) h in
    ground (
      arith,
      less,
      revoke_family-IsLinked r.family_id (record s { access = erase text_dec id s.access }) less,
    )

pub end_sessions-IsLinked :
    (s : Store) (subject client_id : String)
    → IsLinked s
    → IsLinked (end_sessions subject client_id s)
unfolding end_sessions
end_sessions-IsLinked s subject client_id h =
    let keep : String → AccessRecord → Bool =
      λ id r. not (r.subject == subject && r.client_id == client_id) in
    revoke_all-IsLinked
      (session_families subject client_id s.families (access_families subject client_id s.access))
      (record s { access = retain text_dec keep s.access })
      (fewer-Links s.families s.refresh s.access (retain text_dec keep s.access)
        (λ a. ground (arith, lookup-retain text_dec keep a s.access)) h)
