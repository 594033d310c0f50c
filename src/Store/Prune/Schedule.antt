-- ===== src/Store/Prune/Schedule.antt =====
-- `next_expiry` never lies behind the expiry of a record in the maps.
use hoocloak.Base.{◌<◌, ◌≤◌, String, [], ◌∷◌, arith, ltb, text_dec}
use hoocloak.Base.Map.{Map, retain}
use hoocloak.Base.Map.Every.{Every, Every-retain, Every-retain_test, Every-mono}
use hoocloak.Store.Types.{Time, Ref, Store}
use hoocloak.Store.Prune.{earliest, consider, drop_codes, sweep, prune}

-- A record that expires at `e` is safe under the schedule `next`.
abbrev pub Due : Time → Time → Type 0
Due next e = (0 < next) × (next ≤ e)

pub earliest-Due : (next e : Time) → 0 < e → Due (earliest next e) e
unfolding earliest
earliest-Due next e h = ground arith

pub earliest-Due_old : (next e d : Time) → Due next d → Due (earliest next e) d
unfolding earliest
earliest-Due_old next e d h = ground arith

pub consider-Due :
    {V : Type 0} (expires : V → Time) (m : Map String V) (next d : Time)
    → Due next d
    → Due (consider expires m next) d
unfolding consider
consider-Due expires [] next d h = h
consider-Due expires ((k, v) ∷ m) next d h =
    consider-Due expires m (earliest next (expires v)) d (earliest-Due_old next (expires v) d h)

module _ {V : Type 0} (expires : V → Time) where
  abbrev pub AllDue : Time → Map String V → Type 0
  AllDue next m = Every (λ k v. Due next (expires v)) m

  pub AllDue-earliest :
      (next e : Time) (m : Map String V) → AllDue next m → AllDue (earliest next e) m
  AllDue-earliest next e m h =
      Every-mono (λ k v. Due next (expires v)) (λ k v. Due (earliest next e) (expires v))
        (λ k v d. earliest-Due_old next e (expires v) d) m h

  pub consider-AllDue :
      (m : Map String V) (next : Time)
      → Every (λ k v. 0 < expires v) m
      → AllDue (consider expires m next) m
  unfolding consider
  consider-AllDue [] next h = tt
  consider-AllDue ((k, v) ∷ m) next h = (
    consider-Due expires m (earliest next (expires v)) (expires v)
        (earliest-Due next (expires v) h.0),
    consider-AllDue m (earliest next (expires v)) h.1,
  )

  -- What a loop keeps expires after now.
  pub retain-pos :
      (now : Time) (m : Map String V)
      → Every (λ k v. 0 < expires v) (retain text_dec (λ k v. ltb now (expires v)) m)
  retain-pos now m =
      Every-retain_test text_dec (λ k v. 0 < expires v) (λ k v. ltb now (expires v)) m
        (λ k v e. ground arith)

pub consider-AllDue_kept :
    {V W : Type 0} (expires : V → Time) (date : W → Time) (other : Map String W) (m : Map String V)
    (next : Time)
    → AllDue expires next m
    → AllDue expires (consider date other next) m
consider-AllDue_kept expires date other m next h =
    Every-mono (λ k v. Due next (expires v)) (λ k v. Due (consider date other next) (expires v))
      (λ k v d. consider-Due date other next (expires v) d) m h

-- The schedule is right for each map, every request of the map has been allocated, and no token
-- lives for no time.
pub record IsScheduled (s : Store) : Type 0 where
  pub allocated : Every (λ (id : String) (p : Ref). p < s.next_ref) s.auth_requests
  pub requests : AllDue (λ (p : Ref). (s.heap p).expires) s.next_expiry s.auth_requests
  pub codes : AllDue (λ r. r.expires) s.next_expiry s.codes
  pub access : AllDue (λ r. r.expires) s.next_expiry s.access
  pub families : AllDue (λ f. f.expires) s.next_expiry s.families
  pub access_ttl : 0 < s.tokens.access_ttl
  pub refresh_ttl : 0 < s.tokens.refresh_ttl

sweep-IsScheduled :
    (now : Time) (s : Store)
    → 0 < s.tokens.access_ttl
    → 0 < s.tokens.refresh_ttl
    → Every (λ (id : String) (p : Ref). p < s.next_ref) s.auth_requests
    → IsScheduled (sweep now s)
unfolding sweep
sweep-IsScheduled now s ha hr hp =
    let R = retain text_dec (λ id p. ltb now (s.heap p).expires) s.auth_requests in
    let C =
      retain text_dec (λ c r. ltb now r.expires) (drop_codes now s.heap s.auth_requests s.codes) in
    let A = retain text_dec (λ id r. ltb now r.expires) s.access in
    let F = retain text_dec (λ id f. ltb now f.expires) s.families in
    let n1 = consider (λ p. (s.heap p).expires) R 0 in
    let n2 = consider (λ r. r.expires) C n1 in
    let n3 = consider (λ r. r.expires) A n2 in
    record {
      allocated =
          Every-retain text_dec (λ (id : String) (p : Ref). p < s.next_ref)
            (λ id p. ltb now (s.heap p).expires) s.auth_requests hp;
      requests =
          consider-AllDue_kept (λ p. (s.heap p).expires) (λ f. f.expires) F R n3
            (consider-AllDue_kept (λ p. (s.heap p).expires) (λ r. r.expires) A R n2
              (consider-AllDue_kept (λ p. (s.heap p).expires) (λ r. r.expires) C R n1
                (consider-AllDue (λ p. (s.heap p).expires) R 0
                  (retain-pos (λ p. (s.heap p).expires) now s.auth_requests))));
      codes =
          consider-AllDue_kept (λ r. r.expires) (λ f. f.expires) F C n3
            (consider-AllDue_kept (λ r. r.expires) (λ r. r.expires) A C n2
              (consider-AllDue (λ r. r.expires) C n1
                (retain-pos (λ r. r.expires) now (drop_codes now s.heap s.auth_requests s.codes))));
      access =
          consider-AllDue_kept (λ r. r.expires) (λ f. f.expires) F A n3
            (consider-AllDue (λ r. r.expires) A n2 (retain-pos (λ r. r.expires) now s.access));
      families = consider-AllDue (λ f. f.expires) F n3 (retain-pos (λ f. f.expires) now s.families);
      access_ttl = ha;
      refresh_ttl = hr;
    }

-- After a prune the schedule is right, whether it has swept or not.
pub prune-IsScheduled : (now : Time) (s : Store) → IsScheduled s → IsScheduled (prune now s)
unfolding prune
prune-IsScheduled now s h =
    ground (arith, h, sweep-IsScheduled now s h.access_ttl h.refresh_ttl h.allocated)
