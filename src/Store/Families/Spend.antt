-- ===== src/Store/Families/Spend.antt =====
-- Spending a refresh token keeps its family tied to its tokens.
use hoocloak.Base.{◌≡◌, ◌≢◌, sym, subst, ite, String, List, [], ◌∷◌, false, some, arith, text_dec}
use hoocloak.Base.Map.{Map, lookup, erase, insert}
use hoocloak.Base.Map.Laws.{lookup-erase, lookup-insert}
use hoocloak.Base.Map.NoShadow.{insert-NoShadow}
use hoocloak.Store.Types.{Hash, AccessRecord, RefreshRecord, RefreshFamily, Store}
use hoocloak.Store.Sessions.{consume_refresh_record, compact_family_tokens}
use hoocloak.Store.Tokens.{spend, spent_family}
use hoocloak.Store.Families.{Index, Linked, Backed, IsLinked, Backed-mono}

module _ (s : Store) (hash : Hash) (old : RefreshRecord) (family : RefreshFamily)
    (links : IsLinked s) (found : lookup text_dec hash s.refresh ≡ some old)
    (live : old.consumed ≡ false)
    (home : lookup text_dec old.family_id s.families ≡ some family) where
  -- The old token was the whole index.
  old_index : family.tokens ≡ hash ∷ []
  old_index = ground (arith, links.linked hash old found)

  abbrev records : Map Hash RefreshRecord
  records = insert text_dec hash (consume_refresh_record old) s.refresh

  -- After it is spent the index is empty.
  pub spent_family-tokens : (spent_family s hash old family).tokens ≡ []
  unfolding spent_family consume_refresh_record
  spent_family-tokens =
      rw old_index
        (ground (arith, lookup-insert text_dec hash hash (consume_refresh_record old) s.refresh))

  spend-Linked :
      (h : Hash) (r : RefreshRecord)
      → lookup text_dec h records ≡ some r
      → Linked (lookup text_dec r.family_id (spend s hash old family).families) h r
  unfolding spend spent_family compact_family_tokens consume_refresh_record
  spend-Linked h r e = ground (
    arith,
    lookup-insert text_dec hash h (consume_refresh_record old) s.refresh,
    lookup-insert text_dec old.family_id r.family_id (spent_family s hash old family) s.families,
    links.linked h r,
    links.linked hash old found,
  )

  -- The access token of the old refresh token was the only one of the family.
  none_left :
      (a : String) (r : AccessRecord)
      → r.family_id ≡ old.family_id
      → lookup text_dec a (erase text_dec old.access_id s.access) ≡ some r
      → Backed s.refresh a r (some family)
      → ⊥
  none_left a r here e (h, q, there, same, alive, mine) =
      let only : family.tokens ≡ h ∷ [] = ground (arith, links.linked h q there) in
      let one : h ≡ hash = ground (arith, old_index) in
      ground (arith, lookup-erase text_dec old.access_id a s.access)

  other-Index :
      (id : String) (hs : List Hash)
      → old.family_id ≢ id
      → Index id hs s.refresh
      → Index id hs records
  other-Index id [] n i = tt
  other-Index id (h ∷ []) n i =
      ground (arith, lookup-insert text_dec hash h (consume_refresh_record old) s.refresh)
  other-Index id (h ∷ h' ∷ hs) n i = i

  spend-Backed :
      (a : String) (r : AccessRecord)
      → lookup text_dec a (erase text_dec old.access_id s.access) ≡ some r
      → Backed records a r (lookup text_dec r.family_id (spend s hash old family).families)
  unfolding spend
  spend-Backed a r e =
      let before : lookup text_dec a s.access ≡ some r =
        ground (arith, lookup-erase text_dec old.access_id a s.access) in
      rw
        (lookup-insert text_dec old.family_id r.family_id (spent_family s hash old family)
          s.families)
        (elim (text_dec old.family_id r.family_id)
          as (λ d. Backed records a r (
            ite d (some (spent_family s hash old family))
              (lookup text_dec r.family_id s.families))) [
                | yes p ↦ absurd (
                    none_left a r (sym p) e
                      (subst (Backed s.refresh a r) (rw p at home) (links.backed a r before)))
                | no p ↦
                    Backed-mono s.refresh records a r (lookup text_dec r.family_id s.families)
                      (λ h q there same alive mine. ground (
                        arith,
                        lookup-insert text_dec hash h (consume_refresh_record old) s.refresh,
                      ))
                      (links.backed a r before)
              ])

  spend-Index :
      (id : String) (f : RefreshFamily)
      → lookup text_dec id (spend s hash old family).families ≡ some f
      → Index id f.tokens records
  unfolding spend
  spend-Index id f e = elim (text_dec old.family_id id) [
    | yes p ↦
        let here : spent_family s hash old family ≡ f = ground (
          arith,
          lookup-insert text_dec old.family_id id (spent_family s hash old family) s.families,
        ) in
        let empty : f.tokens ≡ [] = cc (here, spent_family-tokens) in rw empty tt
    | no p ↦ other-Index id f.tokens p (
        links.index id f (
          ground (
            arith,
            lookup-insert text_dec old.family_id id (spent_family s hash old family) s.families,
          )))
  ]

  pub spend-IsLinked : IsLinked (spend s hash old family)
  unfolding spend spent_family compact_family_tokens
  spend-IsLinked = record {
    clean =
        insert-NoShadow text_dec old.family_id (spent_family s hash old family) s.families
          links.clean;
    named = λ id f e. ground (
      arith,
      lookup-insert text_dec old.family_id id (spent_family s hash old family) s.families,
      links.named id f,
      links.named old.family_id family home,
    );
    index = spend-Index;
    linked = spend-Linked;
    backed = spend-Backed;
  }
