-- ===== src/Tests/Schedule.antt =====
-- The expiry schedule at the small realm.
use hoocloak.Base.{refl, List, [], ◌∷◌, some, arith, text_dec}
use hoocloak.Base.Map.{size, lookup, erase, insert, retain}
use hoocloak.Store.Types.{auth}
use hoocloak.Store.Prune.{prune}
use hoocloak.Store.Prune.Schedule.{IsScheduled}
use hoocloak.Store.Prune.View.{IsSwept, prune-IsSwept}
use hoocloak.Store.Calls.{Call, step, run}
use hoocloak.Store.Calls.Schedule.{run-IsScheduled}
use hoocloak.Tests.{crypto, coded}

program : Unit {0}
unfolding text_dec size lookup erase insert retain prune step run
program = tt

coded-IsScheduled : IsScheduled coded
unfolding program
coded-IsScheduled = record {
  allocated = (omega arith, tt);
  requests = ((omega arith, omega arith), tt);
  codes = ((omega arith, omega arith), tt);
  access = tt;
  families = tt;
  access_ttl = omega arith;
  refresh_ttl = omega arith;
}

prune-IsSwept_example : IsSwept 60 coded (prune 60 coded)
prune-IsSwept_example = prune-IsSwept 60 coded coded-IsScheduled

abbrev calls : List Call
calls =
    Call.create_access_token 10 (some "a1") (auth 0)
    ∷ Call.delete_auth_request "req"
    ∷ Call.set_introspection_from_token 60 "a1" "u1" "worker"
    ∷ []

run-IsScheduled_example : IsScheduled (run crypto coded calls)
unfolding program
run-IsScheduled_example =
    run-IsScheduled crypto coded calls (refl, (tt, (tt, tt))) coded-IsScheduled
