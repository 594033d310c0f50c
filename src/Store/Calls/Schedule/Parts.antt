-- ===== src/Store/Calls/Schedule/Parts.antt =====
-- The schedule over the parts of the store.
use hoocloak.Base.{◌≡◌, ◌<◌, String, arith, text_dec}
use hoocloak.Base.Map.{Map}
use hoocloak.Base.Map.Every.{Every-mono, Every-insert}
use hoocloak.Store.Types.{
  Time, Hash, Ref, AuthRequest, CodeRecord, AccessRecord, RefreshRecord, RefreshFamily, Store,
}
use hoocloak.Store.Prune.{schedule_expiry, earliest}
use hoocloak.Store.Prune.Schedule.{Due, AllDue, AllDue-earliest, earliest-Due, IsScheduled}
use hoocloak.Store.Requests.{write}
use hoocloak.Store.Access.{put_access}

-- A write that leaves the expiry.
pub write-IsScheduled :
    (p : Ref) (a : AuthRequest) (s : Store)
    → a.expires ≡ (s.heap p).expires
    → IsScheduled s
    → IsScheduled (write p a s)
unfolding write
write-IsScheduled p a s e h = record {
  allocated = h.allocated;
  requests =
      Every-mono (λ k q. Due s.next_expiry (s.heap q).expires)
        (λ k q. Due s.next_expiry ((write p a s).heap q).expires) (λ k q d. ground arith)
        s.auth_requests h.requests;
  codes = h.codes;
  access = h.access;
  families = h.families;
  access_ttl = h.access_ttl;
  refresh_ttl = h.refresh_ttl;
}

-- The schedule takes one more date.
pub schedule_expiry-IsScheduled :
    (e : Time) (s : Store) → IsScheduled s → IsScheduled (schedule_expiry e s)
unfolding schedule_expiry
schedule_expiry-IsScheduled e s h = record {
  allocated = h.allocated;
  requests = AllDue-earliest (λ p. (s.heap p).expires) s.next_expiry e s.auth_requests h.requests;
  codes = AllDue-earliest (λ r. r.expires) s.next_expiry e s.codes h.codes;
  access = AllDue-earliest (λ r. r.expires) s.next_expiry e s.access h.access;
  families = AllDue-earliest (λ r. r.expires) s.next_expiry e s.families h.families;
  access_ttl = h.access_ttl;
  refresh_ttl = h.refresh_ttl;
}

pub put_access-IsScheduled :
    (s : Store) (r : AccessRecord) → 0 < r.expires → IsScheduled s → IsScheduled (put_access s r)
unfolding put_access
put_access-IsScheduled s r e h =
    let t = schedule_expiry-IsScheduled r.expires s h in
    record {
      allocated = t.allocated;
      requests = t.requests;
      codes = t.codes;
      families = t.families;
      access =
          Every-insert text_dec (λ k v. Due (earliest s.next_expiry r.expires) v.expires) r.id r
            s.access (earliest-Due s.next_expiry r.expires e) t.access;
      access_ttl = h.access_ttl;
      refresh_ttl = h.refresh_ttl;
    }

-- Other maps that the schedule fits.
pub replace-IsScheduled :
    (s : Store) (codes : Map String CodeRecord) (access : Map String AccessRecord)
    (records : Map Hash RefreshRecord) (families : Map String RefreshFamily)
    → AllDue (λ r. r.expires) s.next_expiry codes
    → AllDue (λ r. r.expires) s.next_expiry access
    → AllDue (λ f. f.expires) s.next_expiry families
    → IsScheduled s
    → IsScheduled
        (record s { codes = codes; access = access; refresh = records; families = families })
replace-IsScheduled s codes access records families hc ha hf h = record {
  allocated = h.allocated;
  requests = h.requests;
  codes = hc;
  access = ha;
  families = hf;
  access_ttl = h.access_ttl;
  refresh_ttl = h.refresh_ttl;
}
