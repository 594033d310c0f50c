-- ===== src/Tests/Logins.antt =====
-- Logins and service tokens at the small realm.
use hoocloak.Base.{List, some, ◌≢◌, arith, ◌≡◌, ◌↔◌, ◌⊎◌, refl, [], ◌∷◌, true, text_dec, ◌∈◌}
use hoocloak.Base.Map.{size, lookup, erase, insert, retain}
use hoocloak.Store.Types.{ok, Store, ServiceRequest, err, completion_denied}
use hoocloak.Config.Text
use hoocloak.Store.Prune.{prune}
use hoocloak.Store.Requests
use hoocloak.Store.Login
use hoocloak.Store.Login.{
  Slots, authenticate, is_standard_scope, grant_scopes, consume_completion_secret,
}
use hoocloak.Store.Login.Checks.{Event, Shares, idle, run_checks, compare_credential-Shares}
use hoocloak.Store.Login.Grants.{grant_scopes-exact}
use hoocloak.Store.Login.Secrets.{
  consume_completion_secret-once, consume_completion_secret-issue_completion_secret,
}
use hoocloak.Store.Login.Authenticated.{Authenticated, authenticate-Authenticated}
use hoocloak.Store.Clients
use hoocloak.Store.Clients.Scopes.{Granted, client_credentials_token_request-Granted}
use hoocloak.Tests.{crypto, empty, pending, coded, coded_request, ada, client, spa}
use hoocloak.Store.Types.{zero_hash}
use hoocloak.Store.Login.{issue_completion_secret}
use hoocloak.Store.Prune.Schedule.{IsScheduled}
use text.Mathlib.TextEquality.{eq_iff}

program : Unit {0}
unfolding text_dec size lookup erase insert retain prune Requests.ref_dec Requests.write
    Login.authenticate Login.authenticate_start Login.authenticate_check Login.login_check
    Login.compare_credential Login.begin_comparison Login.take_slot Login.complete_authentication
    Login.completed Login.consume_completion_secret Clients.client_credentials_token_request
    Clients.request_of_client Clients.all_permitted Text.trim_space
program = tt

grant_scopes-exact_example :
    ("read" ∈ grant_scopes (client spa) ada ("openid" ∷ "read" ∷ "write" ∷ [])) ↔ (
      ("read" ∈ "openid" ∷ "read" ∷ "write" ∷ [])
      × ("read" ∈ spa.allowed_scopes)
      × ((is_standard_scope "read" ≡ true) ⊎ ("read" ∈ ada.permissions)))
grant_scopes-exact_example =
    grant_scopes-exact (client spa) ada "read" ("openid" ∷ "read" ∷ "write" ∷ [])

-- A completed request with a secret.
abbrev proven : Store
proven = record coded { heap = λ p. record coded_request { completion_hash = "proof" } }

consume_completion_secret-once_example :
    (consume_completion_secret crypto
      (consume_completion_secret crypto proven 10 "req" "proof").0
      11
      "req"
      "proof").1
    ≡ err completion_denied
unfolding program
consume_completion_secret-once_example =
    consume_completion_secret-once crypto proven 10 11 "req" "proof" "proof" refl

abbrev pub slots : Slots
slots = record { capacity = 1; used = 0 }

authenticate-Authenticated_example :
    Authenticated crypto
      (prune 10 pending)
      (prune 11 (prune 10 pending))
      (authenticate crypto pending (λ s. s) slots 10 11 "req" "ada" "secret").0
      slots
      "req"
      "ada"
      "secret"
      11
unfolding program
authenticate-Authenticated_example =
    authenticate-Authenticated crypto pending (λ s. s) slots 10 11 "req" "ada" "secret" refl

abbrev read : ServiceRequest
read = record {
  client_id = "worker";
  subject = "worker";
  audience = "api" ∷ [];
  scopes = "read" ∷ [];
}

client_credentials_token_request-Granted_example : Granted empty "worker" ("read" ∷ []) read
unfolding program
client_credentials_token_request-Granted_example =
    client_credentials_token_request-Granted empty "worker" ("read" ∷ []) read refl

-- Of two checks that start with one slot, the first one runs and has ended.
abbrev events : List Event
events =
    Event.start "secret" "secret"
    ∷ Event.start "secret" "other"
    ∷ Event.finish 0
    ∷ Event.start "secret" "secret"
    ∷ []

compare_credential-Shares_example :
    Shares crypto 1 (run_checks crypto (idle crypto 1) events) "secret" "secret"
compare_credential-Shares_example = compare_credential-Shares crypto 1 events "secret" "secret"

pub coded-IsScheduled : IsScheduled coded
unfolding program
coded-IsScheduled = record {
  allocated = (omega arith, tt);
  requests = ((omega arith, omega arith), tt);
  codes = ((omega arith, omega arith), tt);
  access = tt;
  families = tt;
  access_ttl = omega arith;
  refresh_ttl = omega arith;
}

differs : "proof" ≢ zero_hash
differs e = ground (arith, (eq_iff "proof" zero_hash).1 e)

consume_completion_secret-issue_completion_secret_example :
    (consume_completion_secret crypto
      (issue_completion_secret crypto coded 10 (some "proof") "req").0
      20
      "req"
      "proof").1
    ≡ ok tt
unfolding program Login.issue_completion_secret
consume_completion_secret-issue_completion_secret_example =
    consume_completion_secret-issue_completion_secret crypto coded 10 20 "req" "proof" 0
      coded-IsScheduled differs refl refl (omega arith)
