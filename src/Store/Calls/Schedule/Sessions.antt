-- ===== src/Store/Calls/Schedule/Sessions.antt =====
-- Revocation keeps the schedule right.
use hoocloak.Base.{inl, inr, String, List, [], ◌∷◌, arith, text_dec, Option-cases, not, ◌&&◌, ◌==◌}
use hoocloak.Base.Map.{Map, lookup, erase, insert, retain}
use hoocloak.Base.Map.Every.{Every-insert, Every-erase, Every-retain}
use hoocloak.Store.Types.{Time, Hash, AccessRecord, RefreshRecord, RefreshFamily, Store}
use hoocloak.Store.Prune.Schedule.{Due, AllDue, IsScheduled}
use hoocloak.Store.Sessions.{revoke_family, drop_access, end_sessions, revoke_all, revoke_access}
use hoocloak.Store.Calls.Schedule.Parts.{replace-IsScheduled}

pub drop_access-AllDue :
    (next : Time) (id : String) (rs : Map Hash RefreshRecord) (m : Map String AccessRecord)
    → AllDue (λ r. r.expires) next m
    → AllDue (λ r. r.expires) next (drop_access id rs m)
unfolding drop_access
drop_access-AllDue next id [] m h = h
drop_access-AllDue next id ((hash, r) ∷ rest) m h = ground (
  arith,
  drop_access-AllDue next id rest m h,
  drop_access-AllDue next id rest (erase text_dec r.access_id m)
      (Every-erase text_dec (λ k (r : AccessRecord). Due next r.expires) r.access_id m h),
)

pub erase-access-AllDue :
    (next : Time) (id : String) (m : Map String AccessRecord)
    → AllDue (λ r. r.expires) next m
    → AllDue (λ r. r.expires) next (erase text_dec id m)
erase-access-AllDue next id m =
    Every-erase text_dec (λ k (r : AccessRecord). Due next r.expires) id m

pub insert-families-AllDue :
    (next : Time) (id : String) (f : RefreshFamily) (m : Map String RefreshFamily)
    → Due next f.expires
    → AllDue (λ f. f.expires) next m
    → AllDue (λ f. f.expires) next (insert text_dec id f m)
insert-families-AllDue next id f m =
    Every-insert text_dec (λ k (f : RefreshFamily). Due next f.expires) id f m

pub revoke_family-IsScheduled :
    (s : Store) (id : String) → IsScheduled s → IsScheduled (revoke_family id s)
unfolding revoke_family
revoke_family-IsScheduled s id h = elim (Option-cases (lookup text_dec id s.families)) [
  | inl e ↦ rw (e, revoke_family) h
  | inr (f, e) ↦
      rw (e, revoke_family)
        (replace-IsScheduled s s.codes (drop_access id s.refresh s.access)
          (retain text_dec (λ hash r. not (r.family_id == id)) s.refresh)
          (erase text_dec id s.families) h.codes
          (drop_access-AllDue s.next_expiry id s.refresh s.access h.access)
          (Every-erase text_dec (λ k (f : RefreshFamily). Due s.next_expiry f.expires) id s.families
            h.families)
          h)
]

pub revoke_all-IsScheduled :
    (ids : List String) (s : Store) → IsScheduled s → IsScheduled (revoke_all ids s)
unfolding revoke_all
revoke_all-IsScheduled [] s h = h
revoke_all-IsScheduled (id ∷ ids) s h =
    revoke_all-IsScheduled ids (revoke_family id s) (revoke_family-IsScheduled s id h)

pub end_sessions-IsScheduled :
    (s : Store) (subject client_id : String)
    → IsScheduled s
    → IsScheduled (end_sessions subject client_id s)
unfolding end_sessions
end_sessions-IsScheduled s subject client_id h = revoke_all-IsScheduled _ _ (
    replace-IsScheduled s s.codes
      (retain text_dec (λ id r. not (r.subject == subject && r.client_id == client_id)) s.access)
      s.refresh s.families h.codes
      (Every-retain text_dec (λ k (r : AccessRecord). Due s.next_expiry r.expires)
        (λ id r. not (r.subject == subject && r.client_id == client_id)) s.access h.access)
      h.families h)

pub revoke_access-IsScheduled :
    (s : Store) (id : String) (r : AccessRecord)
    → IsScheduled s
    → IsScheduled (revoke_access s id r)
unfolding revoke_access
revoke_access-IsScheduled s id r h =
    let less =
      replace-IsScheduled s s.codes (erase text_dec id s.access) s.refresh s.families h.codes
        (erase-access-AllDue s.next_expiry id s.access h.access) h.families h in
    ground (
      arith,
      less,
      revoke_family-IsScheduled (record s { access = erase text_dec id s.access }) r.family_id less,
    )
