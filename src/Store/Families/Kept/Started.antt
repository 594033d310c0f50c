-- ===== src/Store/Families/Kept/Started.antt =====
-- A new family, and an access token of no family.
use hoocloak.Base.{
  ◌≡◌, refl, sym, subst, inl, inr, ite, String, none, some, arith, text_dec, Option-cases,
}
use hoocloak.Base.Map.{lookup}
use hoocloak.Base.Map.Laws.{lookup-insert}
use hoocloak.Base.Map.NoShadow.{insert-NoShadow}
use hoocloak.Store.Types.{Time, AccessRecord, Store, TokenRequest, ok}
use hoocloak.Store.Prune.{schedule_expiry}
use hoocloak.Store.Access.{reserve_authorization_code, put_access}
use hoocloak.Store.Tokens.{new_family}
use hoocloak.Store.Tokens.Choose.{started}
use hoocloak.Store.Access.Reserve.{reserve_authorization_code-SameButCodes}
use hoocloak.Store.Calls.Fresh.{NewFamily}
use hoocloak.Store.Families.{Index, Backed, IsLinked}

pub reserve-IsLinked :
    (s : Store) (request : TokenRequest)
    → IsLinked s
    → IsLinked (reserve_authorization_code s request).0
reserve-IsLinked s request h =
    let same = reserve_authorization_code-SameButCodes s request in
    rw (same.families, same.refresh, same.access) h

pub nameless : (s : Store) → IsLinked s → lookup text_dec "" s.families ≡ none
nameless s h = elim (Option-cases (lookup text_dec "" s.families)) [
  | inl e ↦ e
  | inr (f, e) ↦ absurd ((h.named "" f e).1 refl)
]

-- An access token outside any family.
pub lone_access-IsLinked :
    (s : Store) (r : AccessRecord) → r.family_id ≡ "" → IsLinked s → IsLinked (put_access s r)
unfolding put_access
lone_access-IsLinked s r lone h = record {
  clean = h.clean;
  named = h.named;
  index = h.index;
  linked = h.linked;
  backed = λ a q e. elim (text_dec r.id a) [
    | yes p ↦
        let one : r ≡ q = ground (arith, lookup-insert text_dec r.id a r s.access) in
        subst (λ x. Backed s.refresh a x (lookup text_dec x.family_id s.families)) one
          (rw (lone, nameless s h) tt)
    | no p ↦ h.backed a q (ground (arith, lookup-insert text_dec r.id a r s.access))
  ];
}

-- A new family has nothing yet.
pub start-IsLinked :
    (s : Store) (id client_id subject : String) (expires : Time)
    → NewFamily (some id) s
    → IsLinked s
    → IsLinked (started s id (new_family id client_id subject expires))
unfolding new_family schedule_expiry
start-IsLinked s id client_id subject expires new h =
    let f = new_family id client_id subject expires in
    record {
      clean = insert-NoShadow text_dec id f s.families h.clean;
      named = λ j g e. ground (arith, lookup-insert text_dec id j f s.families, h.named j g);
      index = λ j g e. elim (text_dec id j) [
        | yes p ↦
            let one : f ≡ g = ground (arith, lookup-insert text_dec id j f s.families) in
            subst (λ x. Index j x.tokens s.refresh) one tt
        | no p ↦ h.index j g (ground (arith, lookup-insert text_dec id j f s.families))
      ];
      linked = λ k r e.
          ground (arith, lookup-insert text_dec id r.family_id f s.families, h.linked k r e);
      backed = λ a r e.
          rw (lookup-insert text_dec id r.family_id f s.families)
            (elim (text_dec id r.family_id)
              as (λ d.
                Backed s.refresh a r (ite d (some f) (lookup text_dec r.family_id s.families))) [
                  | yes p ↦ absurd (new.2 a r e (sym p))
                  | no p ↦ h.backed a r e
                ]);
    }

pub ok-injective : {A : Type 0} {a b : A} → ok a ≡ ok b → a ≡ b
ok-injective e = cc
