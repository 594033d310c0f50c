-- ===== src/Store/Calls/Schedule/Requests.antt =====
-- The calls on authorization requests and codes keep the schedule right.
use hoocloak.Base.{
  ◌≡◌, refl, ◌<◌, inl, inr, ite, String, true, some, suc, arith, text_dec, Bool-cases, Option-cases,
  leb, ltb, not, ◌||◌,
}
use hoocloak.Base.Map.{lookup, erase, insert, size}
use hoocloak.Base.Map.Every.{Every-mono, Every-and, Every-insert, Every-erase, Every-lookup}
use hoocloak.Client.{Client}
use hoocloak.Config.{User}
use hoocloak.Store.Types.{Time, Ref, CodeRecord, Store, TokenRequest, auth, refresh, service, other}
use hoocloak.Store.Prune.{earliest}
use hoocloak.Store.Prune.Schedule.{Due, earliest-Due, IsScheduled}
use hoocloak.Store.Requests.{
  OidcRequest, new_auth_request, store_request, max_pending_auth_requests, write, ref_dec,
  save_code, code_record, delete_auth_request, get_audience,
}
use hoocloak.Store.Login.{complete_authentication, completed}
use hoocloak.Store.Access.{reserve_authorization_code, reserve_auth_request}
use hoocloak.Store.Calls.Schedule.Parts.{
  write-IsScheduled, schedule_expiry-IsScheduled, replace-IsScheduled,
}

pub store_request-IsScheduled :
    (s : Store) (request : OidcRequest) (client : Client) (id user : String) (now : Time)
    → IsScheduled s
    → IsScheduled (store_request s (new_auth_request request client id user now)).0
unfolding store_request new_auth_request
store_request-IsScheduled s request client id user now h =
    elim (Bool-cases (leb max_pending_auth_requests (size s.auth_requests))) [
      | inl full ↦ rw (full, store_request) h
      | inr room ↦
          let a = new_auth_request request client id user now in
          let n = s.next_ref in
          let t = schedule_expiry-IsScheduled a.expires s h in
          rw (room, store_request)
            (record {
              allocated =
                  Every-insert text_dec (λ id p. p < suc n) id n s.auth_requests (omega arith)
                    (Every-mono (λ id p. p < n) (λ id p. p < suc n) (λ id p q. omega arith)
                      s.auth_requests h.allocated);
              requests =
                  Every-insert text_dec
                    (λ k q.
                      Due (earliest s.next_expiry a.expires)
                        (ite (ref_dec q n) a (s.heap q)).expires)
                    id n s.auth_requests
                    (ground (arith, earliest-Due s.next_expiry a.expires (omega arith)))
                    (Every-mono
                      (λ k q. (q < n) × Due (earliest s.next_expiry a.expires) (s.heap q).expires)
                      (λ k q.
                        Due (earliest s.next_expiry a.expires)
                          (ite (ref_dec q n) a (s.heap q)).expires)
                      (λ k q d. ground arith) s.auth_requests
                      (Every-and (λ k q. q < n)
                        (λ k q. Due (earliest s.next_expiry a.expires) (s.heap q).expires)
                        s.auth_requests h.allocated t.requests));
              codes = t.codes;
              access = t.access;
              families = t.families;
              access_ttl = h.access_ttl;
              refresh_ttl = h.refresh_ttl;
            })
    ]

pub save_code-IsScheduled :
    (s : Store) (now : Time) (id code : String) (p : Ref)
    → lookup text_dec id s.auth_requests ≡ some p
    → IsScheduled s
    → IsScheduled (save_code s now id code p).0
unfolding save_code
save_code-IsScheduled s now id code p e h =
    let a = s.heap p in
    let due =
      Every-lookup text_dec (λ id p. Due s.next_expiry (s.heap p).expires) id s.auth_requests
        h.requests e in
    elim (Bool-cases (not a.done || a.code_saved || not (ltb now a.expires))) [
      | inl q ↦ rw (q, save_code) h
      | inr q ↦ elim (Option-cases (lookup text_dec code s.codes)) [
        | inr (r, f) ↦ ground (arith, q, f, h)
        | inl f ↦
            let b = record a { code_saved = true; code = code } in
            let t =
              schedule_expiry-IsScheduled a.expires (write p b s)
                (write-IsScheduled p b s refl h) in
            rw (q, save_code)
              (rw (f, save_code)
                (record {
                  allocated = t.allocated;
                  requests = t.requests;
                  access = t.access;
                  families = t.families;
                  codes =
                      Every-insert text_dec
                        (λ k r. Due (earliest s.next_expiry a.expires) r.expires) code
                        (code_record id a.expires) s.codes
                        (earliest-Due s.next_expiry a.expires (omega arith)) t.codes;
                  access_ttl = h.access_ttl;
                  refresh_ttl = h.refresh_ttl;
                }))
      ]
    ]

pub delete_auth_request-IsScheduled :
    (s : Store) (id : String) → IsScheduled s → IsScheduled (delete_auth_request s id).0
unfolding delete_auth_request
delete_auth_request-IsScheduled s id h = elim (Option-cases (lookup text_dec id s.auth_requests)) [
  | inl e ↦ rw (e, delete_auth_request) h
  | inr (p, e) ↦
      let code = (s.heap p).code in
      let smaller : IsScheduled (record s {
        codes = erase text_dec code s.codes;
        auth_requests = erase text_dec id s.auth_requests;
      }) =
        record {
          allocated =
              Every-erase text_dec (λ (k : String) (q : Ref). q < s.next_ref) id s.auth_requests
                h.allocated;
          requests =
              Every-erase text_dec (λ (k : String) (q : Ref). Due s.next_expiry (s.heap q).expires)
                id s.auth_requests h.requests;
          codes =
              Every-erase text_dec (λ (k : String) (r : CodeRecord). Due s.next_expiry r.expires)
                code s.codes h.codes;
          access = h.access;
          families = h.families;
          access_ttl = h.access_ttl;
          refresh_ttl = h.refresh_ttl;
        } in
      ground (arith, e, h, smaller)
]

pub complete_authentication-IsScheduled :
    (s : Store) (id : String) (user : User) (now : Time) (method : String)
    → IsScheduled s
    → IsScheduled (complete_authentication s id user now method).0
unfolding complete_authentication
complete_authentication-IsScheduled s id user now method h =
    elim (Option-cases (lookup text_dec id s.auth_requests)) [
      | inl e ↦ rw (e, complete_authentication) h
      | inr (p, e) ↦ elim (Option-cases (lookup text_dec (s.heap p).client_id s.clients)) [
        | inl f ↦ ground (arith, e, f, h)
        | inr (client, f) ↦ ground (
          arith,
          e,
          f,
          h,
          write-IsScheduled p (completed (s.heap p) client user now method) s refl h,
        )
      ]
    ]

pub get_audience-IsScheduled :
    (s : Store) (p : Ref) → IsScheduled s → IsScheduled (get_audience s p).0
unfolding get_audience
get_audience-IsScheduled s p h =
    ground (
      arith,
      h,
      write-IsScheduled p (record (s.heap p) { access_audience_returned = true }) s refl h,
    )

pub reserve_auth_request-IsScheduled :
    (s : Store) (p : Ref) → IsScheduled s → IsScheduled (reserve_auth_request s p).0
unfolding reserve_auth_request
reserve_auth_request-IsScheduled s p h =
    elim (Option-cases (lookup text_dec (s.heap p).code s.codes)) [
      | inl e ↦ ground (arith, e, h)
      | inr (r, e) ↦
          let due =
            Every-lookup text_dec (λ k (r : CodeRecord). Due s.next_expiry r.expires)
              (s.heap p).code s.codes h.codes e in
          ground (
            arith,
            e,
            h,
            replace-IsScheduled s
                (insert text_dec (s.heap p).code (record r { reserved = true }) s.codes) s.access
                s.refresh s.families
                (Every-insert text_dec (λ k (r : CodeRecord). Due s.next_expiry r.expires)
                  (s.heap p).code (record r { reserved = true }) s.codes due h.codes)
                h.access h.families h,
          )
    ]

pub reserve_authorization_code-IsScheduled :
    (s : Store) (request : TokenRequest)
    → IsScheduled s
    → IsScheduled (reserve_authorization_code s request).0
unfolding reserve_authorization_code
reserve_authorization_code-IsScheduled s (auth p) h = reserve_auth_request-IsScheduled s p h
reserve_authorization_code-IsScheduled s (refresh r) h = h
reserve_authorization_code-IsScheduled s (service r) h = h
reserve_authorization_code-IsScheduled s (other _ _) h = h
