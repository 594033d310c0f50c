-- ===== src/Tests/Families.antt =====
-- Families of refresh tokens at the small realm.
use text.Mathlib.TextEquality.{eq_iff}
use hoocloak.Base.{◌≡◌, ◌≢◌, refl, String, List, [], ◌∷◌, false, none, some, arith, text_dec}
use hoocloak.Base.Map.{size, lookup, erase, insert, retain}
use hoocloak.Store.Types.{RefreshRecord, RefreshRequest, err, invalid_grant, refresh}
use hoocloak.Store.Prune.{prune}
use hoocloak.Store.Sessions
use hoocloak.Store.Access
use hoocloak.Store.Sessions.Ended.{IsEnded, terminate_session-IsEnded}
use hoocloak.Store.Tokens
use hoocloak.Store.Calls.{Call, step, run}
use hoocloak.Store.Families.{Index, Linked, Backed, IsLinked}
use hoocloak.Base.Map.Every.{Every-lookup}
use hoocloak.Store.Families.Kept.{run-IsLinked}
use hoocloak.Store.Families.Replay.{
  IsGone, revoke_family-IsGone, live_token_unique, token_request_by_refresh_token-replay,
}
use hoocloak.Store.Families.Rotation.{Rotated, create_access_and_refresh_tokens-Rotated}
use hoocloak.Tests.{crypto, refreshed, live_token, spent_token, family}

program : Unit {0}
unfolding text_dec size lookup erase insert retain prune Tokens.create_access_and_refresh_tokens
    Tokens.choose_and_issue Tokens.choose_family Tokens.rotate_family Tokens.may_rotate
    Tokens.issue_tokens Tokens.spend Tokens.spent_family Access.token_request_info
    Access.get_subject Access.get_scopes Access.access_record Access.put_access
    Access.reserve_authorization_code Sessions.token_request_by_refresh_token
    Sessions.request_by_record Sessions.revoke_family Sessions.revoke_present step run
program = tt

refreshed-IsLinked : IsLinked refreshed
unfolding program
refreshed-IsLinked = record {
  clean = (refl, tt);
  named = λ id f.
      Every-lookup text_dec (λ id f. (f.id ≡ id) × (id ≢ "")) id refreshed.families
        ((refl, λ e. ground (arith, (eq_iff "f" "").1 e)), tt);
  index = λ id f.
      Every-lookup text_dec (λ id f. Index id f.tokens refreshed.refresh) id refreshed.families
        ((refl, refl), tt);
  linked = λ h r.
      Every-lookup text_dec (λ h r. Linked (lookup text_dec r.family_id refreshed.families) h r) h
        refreshed.refresh ((refl, λ e. refl), ((refl, λ e. ground arith), tt));
  backed = λ a r.
      Every-lookup text_dec
        (λ a r. Backed refreshed.refresh a r (lookup text_dec r.family_id refreshed.families)) a
        refreshed.access (("t2", live_token, refl, refl, refl, refl), tt);
}

abbrev next : RefreshRequest
next = record {
  client_id = "spa";
  subject = "u1";
  audience = "api" ∷ [];
  scopes = "openid" ∷ [];
  amr = "pwd" ∷ [];
  auth_time = 5;
  family_id = "f";
  access_audience_returned = false;
}

replay_example :
    ((Sessions.token_request_by_refresh_token crypto refreshed 20 "t1").1 ≡ err invalid_grant)
    × IsGone "f" (Sessions.token_request_by_refresh_token crypto refreshed 20 "t1").0
unfolding program
replay_example =
    token_request_by_refresh_token-replay crypto refreshed 20 "t1" spent_token refreshed-IsLinked
      refl refl

rotation_example :
    Rotated
      (prune 20 refreshed)
      (Tokens.create_access_and_refresh_tokens crypto refreshed 20
        (some "t3")
        (some "a3")
        none
        (refresh next)
        "t2").0
      next
      "t2"
      "t3"
      "a3"
unfolding program
rotation_example =
    create_access_and_refresh_tokens-Rotated crypto refreshed 20 "t3" "a3" none next "t2"
      refreshed-IsLinked refl refl refl

revoke_example :
    IsGone "f" (Sessions.revoke_family "f" refreshed)
    × ((j : String)
        → j ≢ "f"
        → lookup text_dec j (Sessions.revoke_family "f" refreshed).families
          ≡ lookup text_dec j refreshed.families)
    × ((h : String) (r : RefreshRecord)
        → lookup text_dec h refreshed.refresh ≡ some r
        → r.family_id ≢ "f"
        → lookup text_dec h (Sessions.revoke_family "f" refreshed).refresh ≡ some r)
unfolding program
revoke_example = revoke_family-IsGone "f" refreshed family refreshed-IsLinked refl

-- A rotation, and then a replay of the token that it spent.
abbrev calls : List Call
calls =
    Call.create_access_and_refresh_tokens 20 (some "t3") (some "a3") none (refresh next) "t2"
    ∷ Call.token_request_by_refresh_token 30 "t2"
    ∷ []

run-IsLinked_example : IsLinked (run crypto refreshed calls)
unfolding program
run-IsLinked_example =
    run-IsLinked crypto refreshed calls ((refl, refl, tt), (tt, tt)) refreshed-IsLinked

abbrev third : RefreshRecord
third = record live_token {
  audience = "api" ∷ [];
  amr = "pwd" ∷ [];
  auth_time = 5;
  access_id = "a3";
}

-- The rotation alone.
abbrev rotation : List Call
rotation =
    Call.create_access_and_refresh_tokens 20 (some "t3") (some "a3") none (refresh next) "t2" ∷ []

live_token_unique_example : ◌≡◌ {A = String} "t3" "t3"
unfolding program
live_token_unique_example =
    live_token_unique crypto refreshed rotation "t3" "t3" third third ((refl, refl, tt), tt)
      refreshed-IsLinked refl refl refl refl refl

terminate_session-IsEnded_example :
    IsEnded "u1" "spa" (Sessions.terminate_session refreshed 20 "u1" "spa").0
unfolding program Sessions.terminate_session
terminate_session-IsEnded_example = terminate_session-IsEnded refreshed 20 "u1" "spa" refl
