-- ===== src/Store/Families/Sweep.antt =====
-- A prune keeps the families and their tokens tied together.
use hoocloak.Base.{
  ◌≡◌, ◌≢◌, refl, ◌∙◌, inl, inr, String, List, [], ◌∷◌, true, false, not, ◌||◌, none, some, arith,
  text_dec, ltb, Option-cases, Bool-cases,
}
use hoocloak.Base.Map.{Map, lookup, erase}
use hoocloak.Base.Map.Every.{Every, Every-mono}
use hoocloak.Base.Map.Laws.{lookup-erase, lookup-retain}
use hoocloak.Base.Map.NoShadow.{retain-NoShadow}
use hoocloak.Store.Types.{Time, Hash, AccessRecord, RefreshRecord, RefreshFamily, Store}
use hoocloak.Store.Prune.{drop_families, drop_consumed, erase_all, is_current, sweep, prune}
use hoocloak.Store.Prune.View.{
  lookup-drop_families, lookup-sweep_families, lookup-sweep_access, sweep-refresh-Shrinks,
  prune_cases,
}
use hoocloak.Store.Families.{Index, Linked, Backed, IsLinked}

-- No token of the list is `h`.
abbrev Spares : Hash → List Hash → Type 0
Spares h [] = Unit
Spares h (x ∷ xs) = (x ≢ h) × Spares h xs

lookup-erase_all_spared :
    (h : Hash) (hs : List Hash) (m : Map Hash RefreshRecord)
    → Spares h hs
    → lookup text_dec h (erase_all hs m) ≡ lookup text_dec h m
unfolding erase_all
lookup-erase_all_spared h [] m s = refl
lookup-erase_all_spared h (x ∷ xs) m s =
    lookup-erase_all_spared h xs (erase text_dec x m) s.1
    ∙ ground (arith, lookup-erase text_dec x h m)

-- A token that no expired family has in its index stays.
lookup-drop_families_spared :
    (now : Time) (h : Hash) (fs : Map String RefreshFamily) (m : Map Hash RefreshRecord)
    → Every (λ id f. ltb now f.expires ≡ false → Spares h f.tokens) fs
    → lookup text_dec h (drop_families now fs m) ≡ lookup text_dec h m
unfolding drop_families
lookup-drop_families_spared now h [] m s = refl
lookup-drop_families_spared now h ((id, f) ∷ fs) m s = elim (Bool-cases (ltb now f.expires)) [
  | inl e ↦ rw e (lookup-drop_families_spared now h fs m s.1)
  | inr e ↦ rw e (
      lookup-drop_families_spared now h fs (erase_all f.tokens m) s.1
      ∙ lookup-erase_all_spared h f.tokens m (s.0 e))
]

-- The token of an expired family goes.
lookup-drop_families_gone :
    (now : Time) (id : String) (f : RefreshFamily) (h : Hash) (fs : Map String RefreshFamily)
    (m : Map Hash RefreshRecord)
    → lookup text_dec id fs ≡ some f
    → ltb now f.expires ≡ false
    → f.tokens ≡ h ∷ []
    → lookup text_dec h (drop_families now fs m) ≡ none
unfolding drop_families lookup erase_all
lookup-drop_families_gone now id f h [] m e late t = cc
lookup-drop_families_gone now id f h ((j, g) ∷ fs) m e late t = elim (text_dec j id) [
  | yes p ↦
      let same : g ≡ f = ground arith in
      ground (
        arith,
        same,
        lookup-drop_families now h fs (erase text_dec h m),
        lookup-erase text_dec h h m,
      )
  | no p ↦
      let later : lookup text_dec id fs ≡ some f = ground arith in
      ground (
        arith,
        lookup-drop_families_gone now id f h fs m later late t,
        lookup-drop_families_gone now id f h fs (erase_all g.tokens m) later late t,
      )
]

Index-Spares :
    (id : String) (hs : List Hash) (h : Hash) (r : RefreshRecord) (m : Map Hash RefreshRecord)
    → Index id hs m
    → lookup text_dec h m ≡ some r
    → r.family_id ≢ id
    → Spares h hs
Index-Spares id [] h r m i e n = tt
Index-Spares id (x ∷ []) h r m i e n = ((λ p. n (ground arith)), tt)
Index-Spares id (x ∷ y ∷ hs) h r m i e n = absurd i

module _ (now : Time) (s : Store) (links : IsLinked s) where
  live_stays :
      (h : Hash) (r : RefreshRecord) (f : RefreshFamily)
      → lookup text_dec h s.refresh ≡ some r
      → r.consumed ≡ false
      → lookup text_dec r.family_id s.families ≡ some f
      → ltb now f.expires ≡ true
      → lookup text_dec h (sweep now s).refresh ≡ some r
  unfolding sweep drop_consumed
  live_stays h r f e live q current =
      lookup-drop_families_spared now h s.families (drop_consumed now s.families s.refresh) (
        Every-mono (λ id g. lookup text_dec id s.families ≡ some g)
          (λ id g. ltb now g.expires ≡ false → Spares h g.tokens)
          (λ id g p late.
            Index-Spares id g.tokens h r s.refresh (links.index id g p) e (λ same. ground arith))
          s.families links.clean)
      ∙ ground (
        arith,
        lookup-retain text_dec
            (λ hash r. not r.consumed || is_current now (lookup text_dec r.family_id s.families)) h
            s.refresh,
      )

  late_goes :
      (h : Hash) (r : RefreshRecord) (f : RefreshFamily)
      → lookup text_dec h s.refresh ≡ some r
      → lookup text_dec r.family_id s.families ≡ some f
      → ltb now f.expires ≡ false
      → lookup text_dec h (sweep now s).refresh ≡ none
  unfolding sweep drop_consumed is_current
  late_goes h r f e q late = elim (Bool-cases r.consumed) [
    | inl spent ↦ ground (
      arith,
      lookup-drop_families now h s.families (drop_consumed now s.families s.refresh),
      lookup-retain text_dec
          (λ hash r. not r.consumed || is_current now (lookup text_dec r.family_id s.families)) h
          s.refresh,
    )
    | inr live ↦
        let linked = links.linked h r e in
        lookup-drop_families_gone now r.family_id f h s.families
          (drop_consumed now s.families s.refresh) q late (ground (arith, linked))
  ]

  sweep-Linked :
      (h : Hash) (r : RefreshRecord)
      → lookup text_dec h (sweep now s).refresh ≡ some r
      → Linked (lookup text_dec r.family_id (sweep now s).families) h r
  sweep-Linked h r e =
      let e' : lookup text_dec h s.refresh ≡ some r =
        ground (arith, sweep-refresh-Shrinks now s h) in
      let linked = links.linked h r e' in
      rw (lookup-sweep_families now s r.family_id)
        (elim (Option-cases (lookup text_dec r.family_id s.families)) [
          | inl q ↦ absurd (ground (arith, linked))
          | inr (f, q) ↦ elim (Bool-cases (ltb now f.expires)) [
            | inl current ↦ ground (arith, linked)
            | inr late ↦ absurd (ground (arith, late_goes h r f e' q late))
          ]
        ])

  sweep-Index :
      (id : String) (f : RefreshFamily) (hs : List Hash)
      → lookup text_dec id s.families ≡ some f
      → ltb now f.expires ≡ true
      → Index id hs s.refresh
      → Index id hs (sweep now s).refresh
  sweep-Index id f [] q current i = tt
  sweep-Index id f (h ∷ []) q current i = elim (Option-cases (lookup text_dec h s.refresh)) [
    | inl e ↦ absurd (ground arith)
    | inr (r, e) ↦ ground (arith, live_stays h r f e)
  ]
  sweep-Index id f (h ∷ h' ∷ hs) q current i = i

  sweep-Backed :
      (a : String) (r : AccessRecord)
      → lookup text_dec a (sweep now s).access ≡ some r
      → Backed (sweep now s).refresh a r (lookup text_dec r.family_id (sweep now s).families)
  sweep-Backed a r e =
      let e' : lookup text_dec a s.access ≡ some r = ground (arith, lookup-sweep_access now s a) in
      let backed = links.backed a r e' in
      rw (lookup-sweep_families now s r.family_id)
        (elim (Option-cases (lookup text_dec r.family_id s.families)) [
          | inl q ↦ rw q tt
          | inr (f, q) ↦ elim (Bool-cases (ltb now f.expires)) [
            | inr late ↦ rw q (rw late tt)
            | inl current ↦
                let (h, k, found, same, live, mine) = rw q at backed in
                rw q (
                  rw current
                    (h, k, live_stays h k f found live (rw same q) current, same, live, mine))
          ]
        ])

  sweep-IsLinked : IsLinked (sweep now s)
  unfolding sweep
  sweep-IsLinked = record {
    clean = retain-NoShadow text_dec (λ id f. ltb now f.expires) s.families links.clean;
    named = λ id f e. links.named id f (ground (arith, lookup-sweep_families now s id));
    index = λ id f e.
        ground (arith, lookup-sweep_families now s id, sweep-Index id f f.tokens, links.index id f);
    linked = sweep-Linked;
    backed = sweep-Backed;
  }

  pub prune-IsLinked : IsLinked (prune now s)
  prune-IsLinked = prune_cases now s IsLinked links sweep-IsLinked
