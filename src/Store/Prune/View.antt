-- ===== src/Store/Prune/View.antt =====
-- What a prune leaves to be read.
use hoocloak.Base.{
  ◌≡◌, refl, ◌<◌, ◌⊎◌, inl, inr, String, Bool, not, ◌||◌, Option, none, some, List, [], ◌∷◌, arith,
  ltb, text_dec, Option-cases,
}
use hoocloak.Base.Map.{Map, lookup, erase}
use hoocloak.Base.Map.Every.{Every-lookup}
use hoocloak.Base.Map.Laws.{kept, lookup-erase, lookup-retain}
use hoocloak.Store.Types.{
  Time, Hash, Ref, AuthRequest, CodeRecord, RefreshRecord, RefreshFamily, Store,
}
use hoocloak.Store.Prune.{
  drop_codes, drop_consumed, drop_families, erase_all, is_current, sweep, prune,
}
use hoocloak.Store.Prune.Schedule.{Due, AllDue, IsScheduled}

-- An entry is as it was, or gone.
abbrev pub Shrinks {ℓ} : {V : Type ℓ} → Option V → Option V → Type ℓ
Shrinks new old = (new ≡ old) ⊎ (new ≡ none)

kept-Shrinks {ℓ} : {V : Type ℓ} (keep : V → Bool) (o : Option V) → Shrinks (kept keep o) o
kept-Shrinks keep none = inl refl
kept-Shrinks keep (some v) = ground arith

pub lookup-erase_all :
    {V : Type 0} (k : Hash) (hs : List Hash) (m : Map Hash V)
    → Shrinks (lookup text_dec k (erase_all hs m)) (lookup text_dec k m)
unfolding erase_all
lookup-erase_all k [] m = inl refl
lookup-erase_all k (h ∷ hs) m =
    ground (arith, lookup-erase_all k hs (erase text_dec h m), lookup-erase text_dec h k m)

pub lookup-drop_families :
    (now : Time) (k : Hash) (fs : Map String RefreshFamily) (m : Map Hash RefreshRecord)
    → Shrinks (lookup text_dec k (drop_families now fs m)) (lookup text_dec k m)
unfolding drop_families
lookup-drop_families now k [] m = inl refl
lookup-drop_families now k ((id, f) ∷ fs) m = ground (
  arith,
  lookup-drop_families now k fs m,
  lookup-drop_families now k fs (erase_all f.tokens m),
  lookup-erase_all k f.tokens m,
)

pub lookup-drop_codes :
    (now : Time) (heap : Ref → AuthRequest) (k : String) (rs : Map String Ref)
    (m : Map String CodeRecord)
    → Shrinks (lookup text_dec k (drop_codes now heap rs m)) (lookup text_dec k m)
unfolding drop_codes
lookup-drop_codes now heap k [] m = inl refl
lookup-drop_codes now heap k ((id, p) ∷ rs) m = ground (
  arith,
  lookup-drop_codes now heap k rs m,
  lookup-drop_codes now heap k rs (erase text_dec (heap p).code m),
  lookup-erase text_dec (heap p).code k m,
)

pub lookup-drop_consumed :
    (now : Time) (k : Hash) (fs : Map String RefreshFamily) (m : Map Hash RefreshRecord)
    → Shrinks (lookup text_dec k (drop_consumed now fs m)) (lookup text_dec k m)
unfolding drop_consumed
lookup-drop_consumed now k fs m =
    let keep : Hash → RefreshRecord → Bool =
      λ hash r. not r.consumed || is_current now (lookup text_dec r.family_id fs) in
    rw (lookup-retain text_dec keep k m) (kept-Shrinks (keep k) (lookup text_dec k m))

module _ (now : Time) (s : Store) where
  pub lookup-sweep_requests :
      (k : String)
      → lookup text_dec k (sweep now s).auth_requests
        ≡ kept (λ p. ltb now (s.heap p).expires) (lookup text_dec k s.auth_requests)
  unfolding sweep
  lookup-sweep_requests k = lookup-retain text_dec _ k s.auth_requests

  pub lookup-sweep_access :
      (k : String)
      → lookup text_dec k (sweep now s).access
        ≡ kept (λ r. ltb now r.expires) (lookup text_dec k s.access)
  unfolding sweep
  lookup-sweep_access k = lookup-retain text_dec _ k s.access

  pub lookup-sweep_families :
      (k : String)
      → lookup text_dec k (sweep now s).families
        ≡ kept (λ f. ltb now f.expires) (lookup text_dec k s.families)
  unfolding sweep
  lookup-sweep_families k = lookup-retain text_dec _ k s.families

  pub lookup-sweep_codes :
      (k : String)
      → lookup text_dec k (sweep now s).codes
        ≡ kept
            (λ r. ltb now r.expires)
            (lookup text_dec k (drop_codes now s.heap s.auth_requests s.codes))
  unfolding sweep
  lookup-sweep_codes k = lookup-retain text_dec _ k (drop_codes now s.heap s.auth_requests s.codes)

  pub sweep-refresh-Shrinks :
      (k : Hash) → Shrinks (lookup text_dec k (sweep now s).refresh) (lookup text_dec k s.refresh)
  unfolding sweep
  sweep-refresh-Shrinks k = ground (
    arith,
    lookup-drop_families now k s.families (drop_consumed now s.families s.refresh),
    lookup-drop_consumed now k s.families s.refresh,
  )

  pub prune_cases {ℓ} : (P : Store → Type ℓ) → P s → P (sweep now s) → P (prune now s)
  unfolding prune
  prune_cases P h k = ground (arith, h, k)

  pub prune-heap : (prune now s).heap ≡ s.heap
  unfolding prune
  prune-heap = ground arith

  pub prune-tokens : (prune now s).tokens ≡ s.tokens
  unfolding prune
  prune-tokens = ground arith

  pub prune-clients : (prune now s).clients ≡ s.clients
  unfolding prune
  prune-clients = ground arith

  pub prune-users : (prune now s).users ≡ s.users
  unfolding prune
  prune-users = ground arith

  pub prune-next_ref : (prune now s).next_ref ≡ s.next_ref
  unfolding prune
  prune-next_ref = ground arith

  pub prune-requests-Shrinks :
      (k : String)
      → Shrinks (lookup text_dec k (prune now s).auth_requests) (lookup text_dec k s.auth_requests)
  prune-requests-Shrinks k =
      prune_cases
        (λ t. Shrinks (lookup text_dec k t.auth_requests) (lookup text_dec k s.auth_requests))
        (inl refl) (rw (lookup-sweep_requests k) (kept-Shrinks _ _))

  pub prune-access-Shrinks :
      (k : String) → Shrinks (lookup text_dec k (prune now s).access) (lookup text_dec k s.access)
  prune-access-Shrinks k =
      prune_cases (λ t. Shrinks (lookup text_dec k t.access) (lookup text_dec k s.access))
        (inl refl) (rw (lookup-sweep_access k) (kept-Shrinks _ _))

  pub prune-families-Shrinks :
      (k : String)
      → Shrinks (lookup text_dec k (prune now s).families) (lookup text_dec k s.families)
  prune-families-Shrinks k =
      prune_cases (λ t. Shrinks (lookup text_dec k t.families) (lookup text_dec k s.families))
        (inl refl) (rw (lookup-sweep_families k) (kept-Shrinks _ _))

  pub prune-codes-Shrinks :
      (k : String) → Shrinks (lookup text_dec k (prune now s).codes) (lookup text_dec k s.codes)
  prune-codes-Shrinks k =
      prune_cases (λ t. Shrinks (lookup text_dec k t.codes) (lookup text_dec k s.codes)) (inl refl)
        (rw (lookup-sweep_codes k)
          (ground (arith, lookup-drop_codes now s.heap k s.auth_requests s.codes)))

  pub prune-refresh-Shrinks :
      (k : Hash) → Shrinks (lookup text_dec k (prune now s).refresh) (lookup text_dec k s.refresh)
  prune-refresh-Shrinks k =
      prune_cases (λ t. Shrinks (lookup text_dec k t.refresh) (lookup text_dec k s.refresh))
        (inl refl) (sweep-refresh-Shrinks k)

kept-AllDue :
    {V : Type 0} (expires : V → Time) (now next : Time) (k : String) (m : Map String V)
    → AllDue expires next m
    → now < next
    → lookup text_dec k m ≡ kept (λ v. ltb now (expires v)) (lookup text_dec k m)
kept-AllDue expires now next k m h e = elim (Option-cases (lookup text_dec k m)) [
  | inl q ↦ rw q
  | inr (v, q) ↦
      let due = Every-lookup text_dec (λ k v. Due next (expires v)) k m h q in rw q (ground arith)
]

-- What a sweep would leave of the requests, the access tokens and the families.
pub record IsSwept (now : Time) (s t : Store) : Type 0 where
  pub requests :
      (k : String)
      → lookup text_dec k t.auth_requests
        ≡ kept (λ p. ltb now (s.heap p).expires) (lookup text_dec k s.auth_requests)
  pub access :
      (k : String)
      → lookup text_dec k t.access ≡ kept (λ r. ltb now r.expires) (lookup text_dec k s.access)
  pub families :
      (k : String)
      → lookup text_dec k t.families ≡ kept (λ f. ltb now f.expires) (lookup text_dec k s.families)

sweep-IsSwept : (now : Time) (s : Store) → IsSwept now s (sweep now s)
sweep-IsSwept now s = record {
  requests = lookup-sweep_requests now s;
  access = lookup-sweep_access now s;
  families = lookup-sweep_families now s;
}

unswept-IsSwept : (now : Time) (s : Store) → IsScheduled s → now < s.next_expiry → IsSwept now s s
unswept-IsSwept now s h e = record {
  requests =
      λ k. kept-AllDue (λ p. (s.heap p).expires) now s.next_expiry k s.auth_requests h.requests e;
  access = λ k. kept-AllDue (λ r. r.expires) now s.next_expiry k s.access h.access e;
  families = λ k. kept-AllDue (λ f. f.expires) now s.next_expiry k s.families h.families e;
}

-- Under a right schedule a prune leaves exactly the authorization requests, access tokens and
-- refresh-token families that have not expired, also where it returns early and scans nothing.
pub prune-IsSwept : (now : Time) (s : Store) → IsScheduled s → IsSwept now s (prune now s)
unfolding prune
prune-IsSwept now s h = ground (arith, unswept-IsSwept now s h, sweep-IsSwept now s)
