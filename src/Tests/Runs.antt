-- ===== src/Tests/Runs.antt =====
-- The store's theorems at the small realm.
use hoocloak.Base.{refl, [], ◌∷◌, some, arith, text_dec}
use hoocloak.Base.Map.{size, lookup, erase, insert, retain}
use hoocloak.Store.Types.{auth}
use hoocloak.Store.Prune
use hoocloak.Store.Requests
use hoocloak.Store.Access
use hoocloak.Store.Calls.{Call, step, run}
use hoocloak.Store.Codes.{IsAllocated, Redeems}
use hoocloak.Store.Codes.Once.{redeemed_once}
use hoocloak.Store.Codes.Allocated.{run-IsAllocated}
use hoocloak.Tests.{crypto, coded}

program : Unit {0}
unfolding text_dec size lookup erase insert retain Prune.prune Prune.schedule_expiry Prune.earliest
    Requests.ref_dec Requests.save_auth_code Access.create_access_token Access.token_request_info
    Access.get_subject Access.get_scopes Access.reserve_authorization_code
    Access.reserve_auth_request Access.access_record Access.put_access step run
program = tt

coded-IsAllocated : IsAllocated coded
unfolding program
coded-IsAllocated = record { below = λ id p e. ground arith; coded = λ p n. refl }

first-Redeems : Redeems crypto coded 0 (Call.create_access_token 10 (some "a1") (auth 0))
unfolding program
first-Redeems = (refl, tt)

redeemed_once_example :
    ¬ Redeems crypto
      (run crypto
        (step crypto coded (Call.create_access_token 10 (some "a1") (auth 0)))
        (Call.save_auth_code 11 "req" "other" ∷ []))
      0
      (Call.create_access_token 12 (some "a2") (auth 0))
redeemed_once_example =
    redeemed_once crypto coded 0 (Call.create_access_token 10 (some "a1") (auth 0))
      (Call.create_access_token 12 (some "a2") (auth 0)) (Call.save_auth_code 11 "req" "other" ∷ [])
      coded-IsAllocated first-Redeems (tt, tt)

run-IsAllocated_example : IsAllocated (
    run crypto coded
      (Call.create_access_token 10 (some "a1") (auth 0) ∷ Call.delete_auth_request "req" ∷ []))
unfolding program
run-IsAllocated_example =
    run-IsAllocated crypto coded
      (Call.create_access_token 10 (some "a1") (auth 0) ∷ Call.delete_auth_request "req" ∷ [])
      (refl, (tt, tt)) coded-IsAllocated
