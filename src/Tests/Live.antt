-- ===== src/Tests/Live.antt =====
-- Bounds and answers at the small realm.
use hoocloak.Base.{◌≡◌, ◌↔◌, refl, List, [], ◌∷◌, some, true, false, arith, text_dec}
use hoocloak.Base.Map.{size, lookup, erase, insert, retain}
use hoocloak.Store.Types.{auth, ok, Store}
use hoocloak.Store.Prune.{prune}
use hoocloak.Store.Prune.Schedule.{IsScheduled}
use hoocloak.Store.Info
use hoocloak.Store.Info.{UserInfo, Introspection, set_introspection_from_token}
use hoocloak.Store.Info.Live.{
  Answers, set_introspection_from_token-Answers, Informs, set_userinfo_from_token-Informs,
}
use hoocloak.Store.Calls.{Call, run}
use hoocloak.Store.Pending.{IsBounded, run-IsBounded}
use hoocloak.Tests.{crypto, coded, refreshed, live_access}

program : Unit {0}
unfolding text_dec size lookup erase insert retain prune run Info.set_userinfo_from_token
    Info.set_userinfo Info.fill_userinfo Info.with_profile Info.with_email Info.introspect
    Info.origin_allowed Info.userinfo_of_record Info.set_introspection_from_token
program = tt

abbrev calls : List Call
calls = Call.create_access_token 10 (some "a1") (auth 0) ∷ Call.delete_auth_request "req" ∷ []

run-IsBounded_example : IsBounded (run crypto coded calls)
unfolding program
run-IsBounded_example = run-IsBounded crypto coded calls (refl, (tt, tt)) (omega arith)

refreshed-IsScheduled : IsScheduled refreshed
unfolding program
refreshed-IsScheduled = record {
  allocated = tt;
  requests = tt;
  codes = tt;
  access = ((omega arith, omega arith), tt);
  families = ((omega arith, omega arith), tt);
  access_ttl = omega arith;
  refresh_ttl = omega arith;
}

abbrev response : Introspection
response = record {
  active = true;
  scope = "openid" ∷ [];
  client_id = "spa";
  token_type = "Bearer";
  expiration = 110;
  issued_at = 10;
  subject = "u1";
  audience = "api" ∷ [];
  jwt_id = "a2";
}

set_introspection_from_token-Answers_example :
    ((set_introspection_from_token refreshed 20 "a2" "u1" "spa").1 ≡ ok response)
    ↔ Answers refreshed 20 "a2" "u1" "spa" response
set_introspection_from_token-Answers_example =
    set_introspection_from_token-Answers refreshed 20 "a2" "u1" "spa" response refreshed-IsScheduled

-- It does answer.
answered : (set_introspection_from_token refreshed 20 "a2" "u1" "spa").1 ≡ ok response
unfolding program
answered = refl

abbrev blank : UserInfo
blank = record {
  subject = "";
  name = "";
  preferred_username = "";
  email = "";
  email_verified = false;
}

-- A token for the profile and the email address.
abbrev profiled : Store
profiled = record refreshed {
  access = ("a2", record live_access { scopes = "openid" ∷ "profile" ∷ "email" ∷ [] }) ∷ [];
}

profiled-IsScheduled : IsScheduled profiled
unfolding program
profiled-IsScheduled = record {
  allocated = tt;
  requests = tt;
  codes = tt;
  access = ((omega arith, omega arith), tt);
  families = ((omega arith, omega arith), tt);
  access_ttl = omega arith;
  refresh_ttl = omega arith;
}

abbrev ada_info : UserInfo
ada_info = record {
  subject = "u1";
  name = "Ada";
  preferred_username = "ada";
  email = "ada@example.test";
  email_verified = true;
}

set_userinfo_from_token-Informs_example :
    Informs profiled 20 "a2" blank "u1" "http://localhost" ada_info
unfolding program
set_userinfo_from_token-Informs_example =
    set_userinfo_from_token-Informs profiled 20 "a2" blank "u1" "http://localhost" ada_info
      profiled-IsScheduled refl
