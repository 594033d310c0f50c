-- ===== src/Store/Sessions/Ended.antt =====
-- What `TerminateSession` leaves.
use hoocloak.Base.{
  ◌≡◌, refl, String, Bool, List, [], ◌∷◌, false, not, ◌&&◌, none, some, arith, text_dec, ◌==◌,
  contains, ◌∈◌, ite,
}
use hoocloak.Base.Map.{Map, lookup, retain}
use hoocloak.Base.Map.Laws.{lookup-erase, lookup-retain}
use hoocloak.Store.Types.{Time, AccessRecord, RefreshFamily, Store, ok}
use hoocloak.Store.Prune.{prune}
use hoocloak.Store.Sessions.{
  revoke_family, revoke_present, revoke_all, access_families, session_families, end_sessions,
  terminate_session,
}
use hoocloak.Store.Families.Revoke.{drop_access-Shrinks}

lookup-revoke_family :
    (j id : String) (s : Store)
    → lookup text_dec id (revoke_family j s).families
      ≡ ite (text_dec j id) none (lookup text_dec id s.families)
unfolding revoke_family revoke_present
lookup-revoke_family j id s = ground (arith, lookup-erase text_dec j id s.families)

revoke_family-access :
    (j a : String) (s : Store) (r : AccessRecord)
    → lookup text_dec a (revoke_family j s).access ≡ some r
    → lookup text_dec a s.access ≡ some r
unfolding revoke_family revoke_present
revoke_family-access j a s r e = ground (arith, e, drop_access-Shrinks a j s.refresh s.access)

revoke_all-families :
    (ids : List String) (id : String) (s : Store) (f : RefreshFamily)
    → lookup text_dec id (revoke_all ids s).families ≡ some f
    → (lookup text_dec id s.families ≡ some f) × (contains ids id ≡ false)
unfolding revoke_all
revoke_all-families [] id s f e = (e, refl)
revoke_all-families (j ∷ ids) id s f e =
    ground (arith, revoke_all-families ids id (revoke_family j s) f e, lookup-revoke_family j id s)

revoke_all-access :
    (ids : List String) (a : String) (s : Store) (r : AccessRecord)
    → lookup text_dec a (revoke_all ids s).access ≡ some r
    → lookup text_dec a s.access ≡ some r
unfolding revoke_all
revoke_all-access [] a s r e = e
revoke_all-access (j ∷ ids) a s r e =
    revoke_family-access j a s r (revoke_all-access ids a (revoke_family j s) r e)

session_families-collected :
    (subject client_id id : String) (m : Map String RefreshFamily) (found : List String)
    (f : RefreshFamily)
    → lookup text_dec id m ≡ some f
    → f.subject ≡ subject
    → f.client_id ≡ client_id
    → id ∈ session_families subject client_id m found
unfolding session_families lookup
session_families-collected subject client_id id [] found f e es ec = ground arith
session_families-collected subject client_id id ((j, g) ∷ m) found f e es ec =
    ground (arith, e, es, ec, session_families-collected subject client_id id m found f)

-- No access token and no family of the subject at the client is left.
pub record IsEnded (subject client_id : String) (s : Store) : Type 0 where
  pub access_ :
      (a : String) (r : AccessRecord)
      → lookup text_dec a s.access ≡ some r
      → r.subject ≡ subject
      → ¬ (r.client_id ≡ client_id)
  pub families_ :
      (id : String) (f : RefreshFamily)
      → lookup text_dec id s.families ≡ some f
      → f.subject ≡ subject
      → ¬ (f.client_id ≡ client_id)

end_sessions-IsEnded :
    (subject client_id : String) (s : Store)
    → IsEnded subject client_id (end_sessions subject client_id s)
unfolding end_sessions
end_sessions-IsEnded subject client_id s =
    let keep : String → AccessRecord → Bool =
      λ id r. not (r.subject == subject && r.client_id == client_id) in
    let cut = record s { access = retain text_dec keep s.access } in
    let ids =
      session_families subject client_id s.families (access_families subject client_id s.access) in
    record {
      access_ = λ a r e es ec.
          ground (
            arith,
            revoke_all-access ids a cut r e,
            lookup-retain text_dec keep a s.access,
            es,
            ec,
          );
      families_ = λ id f e es ec. ground (
        arith,
        revoke_all-families ids id cut f e,
        session_families-collected subject client_id id s.families
            (access_families subject client_id s.access) f,
        es,
        ec,
      );
    }

-- A logout that succeeds leaves no access token and no refresh-token family of the subject at the
-- client.
pub terminate_session-IsEnded :
    (s : Store) (now : Time) (subject client_id : String)
    → (terminate_session s now subject client_id).1 ≡ ok tt
    → IsEnded subject client_id (terminate_session s now subject client_id).0
unfolding terminate_session
terminate_session-IsEnded s now subject client_id e =
    ground (arith, e, end_sessions-IsEnded subject client_id (prune now s))
