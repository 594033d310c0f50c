-- ===== src/Store/Codes/Kept/Requests.antt =====
-- The calls that store requests and codes make no code usable again.
use hoocloak.Base.{
  ◌≡◌, ◌≢◌, refl, String, true, false, not, ◌||◌, Option, none, some, arith, text_dec, inl, inr,
  Option-cases, Bool-cases, suc, leb, ltb, ite,
}
use hoocloak.Base.Map.{lookup, insert, size}
use hoocloak.Base.Map.Laws.{lookup-insert}
use hoocloak.Client.{Client}
use hoocloak.Store.Types.{Time, Ref, AuthRequest, CodeRecord, Store}
use hoocloak.Store.Prune.{schedule_expiry, prune}
use hoocloak.Store.Prune.View.{
  Shrinks, prune-heap, prune-next_ref, prune-requests-Shrinks, prune-codes-Shrinks,
}
use hoocloak.Store.Requests.{
  OidcRequest, new_auth_request, store_request, max_pending_auth_requests, write, ref_dec,
  save_code, code_record,
}
use hoocloak.Store.Codes.{IsAllocated, IsExhausted, Refuses}
use hoocloak.Store.Codes.Untouched.{SameRequests}

pub same-IsAllocated : {s t : Store} → SameRequests s t → IsAllocated s → IsAllocated t
same-IsAllocated {s} {t} same h = record {
  below = λ id p e. ground (arith, same.auth_requests, same.next_ref, h.below id p);
  coded = λ p e. ground (arith, same.heap, h.coded p);
}

pub prune-IsAllocated : (now : Time) (s : Store) → IsAllocated s → IsAllocated (prune now s)
prune-IsAllocated now s h = record {
  below =
      λ id p e. ground (arith, prune-next_ref now s, prune-requests-Shrinks now s id, h.below id p);
  coded = λ p e. ground (arith, prune-heap now s, h.coded p);
}

pub write-IsAllocated :
    (p : Ref) (a : AuthRequest) (s : Store)
    → (a.code ≢ "" → a.code_saved ≡ true)
    → IsAllocated s
    → IsAllocated (write p a s)
unfolding write
write-IsAllocated p a s f h = record { below = h.below; coded = λ q e. ground (arith, h.coded q) }

pub Refuses-Shrinks :
    (id : String) (new old : Option CodeRecord) → Shrinks new old → Refuses id old → Refuses id new
Refuses-Shrinks id new old k r = ground arith

module _ (p : Ref) where
  pub same-IsExhausted : {s t : Store} → SameRequests s t → IsExhausted p s → IsExhausted p t
  same-IsExhausted {s} {t} same h = record {
    allocated = same-IsAllocated same h.allocated;
    below = ground (arith, same.next_ref, h.below);
    saved = ground (arith, same.heap, h.saved);
    refused = rw (same.auth_requests, same.codes, same.heap) h.refused;
  }

  pub prune-IsExhausted : (now : Time) (s : Store) → IsExhausted p s → IsExhausted p (prune now s)
  prune-IsExhausted now s h = record {
    allocated = prune-IsAllocated now s h.allocated;
    below = rw (prune-next_ref now s) h.below;
    saved = rw (prune-heap now s) h.saved;
    refused = λ e. rw (prune-heap now s) (
        Refuses-Shrinks (s.heap p).id _ (lookup text_dec (s.heap p).code s.codes)
          (prune-codes-Shrinks now s (s.heap p).code)
          (h.refused
            (ground (arith, prune-heap now s, prune-requests-Shrinks now s (s.heap p).id))));
  }

  -- A write to a request that leaves its identifier and its code.
  pub write-IsExhausted :
      (q : Ref) (a : AuthRequest) (s : Store)
      → a.id ≡ (s.heap q).id
      → a.code ≡ (s.heap q).code
      → a.code_saved ≡ (s.heap q).code_saved
      → IsExhausted p s
      → IsExhausted p (write q a s)
  unfolding write
  write-IsExhausted q a s ei ec es h =
      let same_id : (ite (ref_dec p q) a (s.heap p)).id ≡ (s.heap p).id = ground arith in
      let same_code : (ite (ref_dec p q) a (s.heap p)).code ≡ (s.heap p).code = ground arith in
      record {
        allocated = write-IsAllocated q a s (ground (arith, h.allocated.coded q)) h.allocated;
        below = h.below;
        saved = ground (arith, h.saved);
        refused = rw (same_id, same_code) h.refused;
      }

  pub store_request-IsExhausted :
      (s : Store) (request : OidcRequest) (client : Client) (id user : String) (now : Time)
      → IsExhausted p s
      → IsExhausted p (store_request s (new_auth_request request client id user now)).0
  unfolding store_request new_auth_request
  store_request-IsExhausted s request client id user now h =
      elim (Bool-cases (leb max_pending_auth_requests (size s.auth_requests))) [
        | inl full ↦ rw (full, store_request) h
        | inr room ↦
            rw (room, store_request) (stored (new_auth_request request client id user now) refl)
      ]
    where
      stored :
          (a : AuthRequest)
          → a.code ≡ ""
          → IsExhausted p (
              schedule_expiry a.expires (
                write s.next_ref a (record s {
                  auth_requests = insert text_dec a.id s.next_ref s.auth_requests;
                  next_ref = suc s.next_ref;
                })))
      stored a blank =
          let same : ite (ref_dec p s.next_ref) a (s.heap p) ≡ s.heap p = ground (arith, h.below) in
          record {
            allocated = record {
              below = λ j q e. ground (
                arith,
                lookup-insert text_dec a.id j s.next_ref s.auth_requests,
                h.allocated.below j q,
              );
              coded = λ q e. ground (arith, h.allocated.coded q);
            };
            below = ground (arith, h.below);
            saved = rw same h.saved;
            refused = rw same (λ e. h.refused (
                ground (
                  arith,
                  h.below,
                  lookup-insert text_dec a.id (s.heap p).id s.next_ref s.auth_requests,
                )));
          }

  pub save_code-IsExhausted :
      (s : Store) (now : Time) (id code : String) (q : Ref)
      → lookup text_dec id s.auth_requests ≡ some q
      → IsExhausted p s
      → IsExhausted p (save_code s now id code q).0
  unfolding save_code code_record
  save_code-IsExhausted s now id code q e h =
      elim (Bool-cases
        (not (s.heap q).done || (s.heap q).code_saved || not (ltb now (s.heap q).expires))) [
          | inl g ↦ rw (g, save_code) h
          | inr g ↦ elim (Option-cases (lookup text_dec code s.codes)) [
            | inr (r, f) ↦ ground (arith, g, f, h)
            | inl f ↦ rw (g, save_code) (rw (f, save_code) (saved (ground arith) f))
          ]
        ]
    where
      saved :
          (s.heap q).code_saved ≡ false
          → lookup text_dec code s.codes ≡ none
          → IsExhausted p (
              schedule_expiry
                (s.heap q).expires
                (record (write q (record (s.heap q) { code_saved = true; code = code }) s) {
                  codes = insert text_dec code (code_record id (s.heap q).expires) s.codes;
                }))
      saved unsaved unused =
          let a = record (s.heap q) { code_saved = true; code = code } in
          let other : p ≢ q = λ same. ground (arith, h.saved) in
          let same : ite (ref_dec p q) a (s.heap p) ≡ s.heap p = ground arith in
          record {
            allocated = record {
              below = h.allocated.below;
              coded = λ j n. ground (arith, h.allocated.coded j);
            };
            below = h.below;
            saved = rw same h.saved;
            refused = rw same (λ stored. ground (
              arith,
              h.refused stored,
              lookup-insert text_dec code (s.heap p).code (code_record id (s.heap q).expires)
                  s.codes,
            ));
          }
