-- ===== src/Store/Prune.antt =====
-- internal/idp/storage.go: the expiry schedule, `scheduleExpiryLocked` and `pruneLocked`.
pub mod Schedule
pub mod View
use hoocloak.Base.{
  String, List, [], ◌∷◌, Bool, false, not, ◌&&◌, ◌||◌, Option, none, some, ◌==◌, ltb, leb, text_dec,
  if◌then◌else◌,
}
use hoocloak.Base.Map.{Map, lookup, erase, retain}
use hoocloak.Store.Types.{
  Time, Hash, Ref, AuthRequest, CodeRecord, RefreshRecord, RefreshFamily, Store,
}

-- `t.IsZero()`.
abbrev pub is_zero : Time → Bool
is_zero t = leb t 0

-- The test and the assignment of `scheduleExpiryLocked` and of `consider`.
unfoldable pub earliest : Time → Time → Time
earliest next expires =
    if is_zero expires then next else if is_zero next || ltb expires next then expires else next

unfoldable pub schedule_expiry : Time → Store → Store
schedule_expiry expires s = record s { next_expiry = earliest s.next_expiry expires }

-- `consider` over the entries of a map that are left.
unfoldable pub consider {ℓ} : {K V : Type ℓ} → (V → Time) → Map K V → Time → Time
consider expires [] next = next
consider expires ((k, v) ∷ m) next = consider expires m (earliest next (expires v))

-- The codes of the requests that have expired, which the first loop deletes.
unfoldable pub drop_codes :
    Time → (Ref → AuthRequest) → Map String Ref → Map String CodeRecord → Map String CodeRecord
drop_codes now heap [] codes = codes
drop_codes now heap ((id, p) ∷ rest) codes = drop_codes now heap rest (
    if not (ltb now (heap p).expires) && not ((heap p).code == "")
    then erase text_dec (heap p).code codes
    else codes)

-- `family != nil && now.Before(family.expires)`.
unfoldable pub is_current : Time → Option RefreshFamily → Bool
is_current now none = false
is_current now (some family) = ltb now family.expires

-- The third loop: the consumed records whose family is gone or expired.
unfoldable pub drop_consumed :
    Time → Map String RefreshFamily → Map Hash RefreshRecord → Map Hash RefreshRecord
drop_consumed now families =
    retain text_dec
      λ hash r. not r.consumed || is_current now (lookup text_dec r.family_id families)

unfoldable pub erase_all : {V : Type 0} → List Hash → Map Hash V → Map Hash V
erase_all [] m = m
erase_all (hash ∷ rest) m = erase_all rest (erase text_dec hash m)

-- The refresh records of the families that have expired, which the last loop deletes.
unfoldable pub drop_families :
    Time → Map String RefreshFamily → Map Hash RefreshRecord → Map Hash RefreshRecord
unfolding erase_all
drop_families now [] refresh = refresh
drop_families now ((id, family) ∷ rest) refresh =
    drop_families now rest
      (if ltb now family.expires then refresh else erase_all family.tokens refresh)

-- `pruneLocked` after its early return: the loops, in their order.
unfoldable pub sweep : Time → Store → Store
unfolding drop_codes drop_consumed drop_families is_current consider
sweep now s =
    let requests = retain text_dec (λ id p. ltb now (s.heap p).expires) s.auth_requests in
    let codes =
      retain text_dec (λ c r. ltb now r.expires) (drop_codes now s.heap s.auth_requests s.codes) in
    let access = retain text_dec (λ id r. ltb now r.expires) s.access in
    let families = retain text_dec (λ id f. ltb now f.expires) s.families in
    record s {
      auth_requests = requests;
      codes = codes;
      access = access;
      refresh = drop_families now s.families (drop_consumed now s.families s.refresh);
      families = families;
      next_expiry =
          consider (λ f. f.expires) families
            (consider (λ r. r.expires) access
              (consider (λ r. r.expires) codes (consider (λ p. (s.heap p).expires) requests 0)));
    }

unfoldable pub prune : Time → Store → Store
unfolding sweep
prune now s = if not (is_zero s.next_expiry) && ltb now s.next_expiry then s else sweep now s
