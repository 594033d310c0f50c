-- ===== src/Store/Families/Issue.antt =====
-- `CreateAccessAndRefreshTokens`: what a rotation and an issue leave of a family.
use hoocloak.Base.{
  ◌≡◌, refl, sym, subst, ◌∙◌, ite, String, List, [], ◌∷◌, ◌++◌, false, none, some, arith, text_dec,
}
use hoocloak.Base.Map.{Map, lookup, insert}
use hoocloak.Base.Map.Laws.{lookup-insert}
use hoocloak.Base.Map.NoShadow.{insert-NoShadow}
use hoocloak.Store.Types.{Hash, AccessRecord, RefreshRecord, RefreshFamily, Store}
use hoocloak.Store.Tokens.{put_tokens}
use hoocloak.Store.Families.{Index, Linked, Backed, IsLinked, Backed-mono}

-- A family that has no live token takes a new one, with its access token.
module _ (s : Store) (key : String) (family : RefreshFamily) (hash : Hash) (q : RefreshRecord)
    (b : AccessRecord) (links : IsLinked s) (home : lookup text_dec key s.families ≡ some family)
    (empty : family.tokens ≡ []) (new : lookup text_dec hash s.refresh ≡ none)
    (in_family : q.family_id ≡ key) (client : q.client_id ≡ family.client_id)
    (live : q.consumed ≡ false) (pair : q.access_id ≡ b.id) (same : b.family_id ≡ key) where
  abbrev joined : RefreshFamily
  joined = record family { tokens = family.tokens ++ hash ∷ [] }

  abbrev issued : Map Hash RefreshRecord
  issued = insert text_dec hash q s.refresh

  joined-tokens : joined.tokens ≡ hash ∷ []
  joined-tokens = rw empty refl

  put-Linked :
      (h : Hash) (r : RefreshRecord)
      → lookup text_dec h issued ≡ some r
      → Linked (lookup text_dec r.family_id (insert text_dec key joined s.families)) h r
  put-Linked h r e = ground (
    arith,
    joined-tokens,
    lookup-insert text_dec hash h q s.refresh,
    lookup-insert text_dec key r.family_id joined s.families,
    links.linked h r,
  )

  put-Index_other : (id : String) (hs : List Hash) → Index id hs s.refresh → Index id hs issued
  put-Index_other id [] i = tt
  put-Index_other id (h ∷ []) i = ground (arith, lookup-insert text_dec hash h q s.refresh)
  put-Index_other id (h ∷ h' ∷ hs) i = i

  put-Index :
      (id : String) (f : RefreshFamily)
      → lookup text_dec id (insert text_dec key joined s.families) ≡ some f
      → Index id f.tokens issued
  put-Index id f e = elim (text_dec key id) [
    | yes p ↦
        let here : joined ≡ f = ground (arith, lookup-insert text_dec key id joined s.families) in
        let only : f.tokens ≡ hash ∷ [] = cc (here, joined-tokens) in
        rw only (ground (arith, lookup-insert text_dec hash hash q s.refresh))
    | no p ↦
        put-Index_other id f.tokens
          (links.index id f (ground (arith, lookup-insert text_dec key id joined s.families)))
  ]

  no_access :
      (a : String) (r : AccessRecord) → r.family_id ≡ key → Backed s.refresh a r (some family) → ⊥
  no_access a r here (h, k, there, sibling, alive, mine) = ground (arith, links.linked h k there)

  put-Backed_other :
      (a : String) (r : AccessRecord)
      → lookup text_dec a s.access ≡ some r
      → Backed issued a r (lookup text_dec r.family_id (insert text_dec key joined s.families))
  put-Backed_other a r e =
      rw (lookup-insert text_dec key r.family_id joined s.families)
        (elim (text_dec key r.family_id)
          as (λ d.
            Backed issued a r (ite d (some joined) (lookup text_dec r.family_id s.families))) [
              | yes p ↦ absurd (
                  no_access a r (sym p)
                    (subst (Backed s.refresh a r) (rw p at home) (links.backed a r e)))
              | no p ↦
                  Backed-mono s.refresh issued a r (lookup text_dec r.family_id s.families)
                    (λ h k there sibling alive mine.
                      ground (arith, lookup-insert text_dec hash h q s.refresh))
                    (links.backed a r e)
            ])

  put-Backed_self :
      Backed issued b.id b (lookup text_dec b.family_id (insert text_dec key joined s.families))
  put-Backed_self =
      let there : lookup text_dec b.family_id (insert text_dec key joined s.families)
          ≡ some joined =
        ground (arith, lookup-insert text_dec key b.family_id joined s.families) in
      rw there (
        hash,
        q,
        ground (arith, lookup-insert text_dec hash hash q s.refresh),
        in_family ∙ sym same,
        live,
        pair,
      )

  put-Backed :
      (a : String) (r : AccessRecord)
      → lookup text_dec a (insert text_dec b.id b s.access) ≡ some r
      → Backed issued a r (lookup text_dec r.family_id (insert text_dec key joined s.families))
  put-Backed a r e = elim (text_dec b.id a) [
    | yes p ↦
        let one : b ≡ r = ground (arith, lookup-insert text_dec b.id a b s.access) in
        subst
          (λ x.
            Backed issued a x (lookup text_dec x.family_id (insert text_dec key joined s.families)))
          one (rw p at put-Backed_self)
    | no p ↦ put-Backed_other a r (ground (arith, lookup-insert text_dec b.id a b s.access))
  ]

  pub put_tokens-IsLinked : IsLinked (put_tokens s key family hash q b)
  unfolding put_tokens
  put_tokens-IsLinked = record {
    clean = insert-NoShadow text_dec key joined s.families links.clean;
    named = λ id f e. ground (
      arith,
      lookup-insert text_dec key id joined s.families,
      links.named id f,
      links.named key family home,
    );
    index = put-Index;
    linked = put-Linked;
    backed = put-Backed;
  }
