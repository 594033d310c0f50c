-- ===== src/Tests/Accepted.antt =====
-- A configuration that is accepted, and its store.
use mathlib.Core.List.Memᴰ.{head, tail}
use hoocloak.Base.{
  List, ◌≡◌, refl, ℕ, String, [], ◌∷◌, true, false, Option, none, some, ◌==◌, arith, text_dec, ◌∈◌,
  if◌then◌else◌, ◌then◌,
}
use hoocloak.Base.Map.{lookup}
use hoocloak.Client.{Urls, new_client}
use hoocloak.Config.{Config, Realm, ClientConfig, User}
use hoocloak.Config.Text
use hoocloak.Config.Text.{codes}
use hoocloak.Config.Url
use hoocloak.Config.Url.{Net, Url, parsed}
use hoocloak.Config.Rules
use hoocloak.Config.Ipv4
use hoocloak.Config.Validate.{validate}
use hoocloak.Store.Types.{ok}
use hoocloak.Store.Prune.Schedule.{IsScheduled}
use hoocloak.Store.Families.{IsLinked}
use hoocloak.Store.Codes.{IsAllocated}
use hoocloak.Store.Clients.{new_store, client_credentials_token_request, service_request}
use hoocloak.Store.Clients.Registered.{new_store-user, new_store-client}
use hoocloak.Store.Clients.Scopes.{client_credentials_token_request-accepted}
use hoocloak.Store.Served.{run-new_store}
use hoocloak.Store.Pending.{IsBounded}
use hoocloak.Store.Calls.{Call, run}
use hoocloak.Tests.{crypto, token_config, ada, spa, worker}

abbrev path : String → String
path raw =
    if raw == "http://localhost/" then "/" else if raw == "http://localhost/cb" then "/cb" else ""

abbrev url : String → Url
url raw = record {
  scheme = "http";
  host = codes "localhost";
  hostname = codes "localhost";
  port = [];
  has_user = false;
  path = path raw;
  raw_path = "";
  raw_query = "";
  fragment = "";
}

-- A network where every URL is on this host.
abbrev pub net : Net
net = record {
  parse = λ raw. parsed (url raw);
  unescapes = λ text. true;
  to_lower = λ text. text;
  is_loopback = λ host. false;
  to_ascii = λ host. some host;
  parse_addr = λ host. none;
  split_port = λ address. some (codes "8080");
}

abbrev pub urls : Urls
urls = record { net = net; query_unescape = λ text. text; query_escape = λ text. text }

abbrev guest : User
guest = record ada { password_hash = "" }

abbrev robot : ClientConfig
robot = record worker {
  secret_hash = "$2a$10$7EqJtq98hPqEX7fNZaFWoO5c1QUP5m6d43kYdV9He6Bpv/bVhhmeC";
}

abbrev pub realm : Realm
realm = record { name = "demo"; users = guest ∷ []; clients = spa ∷ robot ∷ [] }

abbrev pub config : Config
config = record {
  base_url = "http://localhost/";
  listen = ":8080";
  theme_dir = "";
  tokens = token_config;
  realms = realm ∷ [];
  login_mode = "";
}

abbrev pub cost : String → Option ℕ
cost hash = some 10

pub accepted : validate net cost crypto.fold config ≡ none
unfolding validate text_dec ◌then◌ Url.validate_absolute_url Url.validate_scheme
    Url.validate_redirect Url.validate_origin Rules.validate_permissions Rules.require_id
    Rules.is_realm_name Rules.valid_bcrypt Text.trim_space Text.atoi Text.has_suffix
    Text.drop_suffix Text.trim_end Text.before Text.split Ipv4.ends_in_ipv4_number
accepted = refl

abbrev calls : List Call
calls =
    Call.create_auth_request 10 (some "req")
      (record {
        client_id = "spa";
        redirect_uri = "http://localhost/cb";
        state = "";
        nonce = "";
        scopes = "openid" ∷ [];
        response_type = "code";
        response_mode = "";
        prompt = [];
        code_challenge = "";
        code_challenge_method = "";
      })
      ""
    ∷ Call.auth_request_by_id 20 "req"
    ∷ []

run-new_store_example :
    let s = run crypto (new_store crypto urls realm token_config "/realms/demo" "kid") calls in
    IsScheduled s × IsLinked s × IsAllocated s × IsBounded s
unfolding new_store lookup
run-new_store_example =
    run-new_store crypto urls cost "/realms/demo" "kid" config realm calls accepted (head refl)
      (refl, (tt, tt))

new_store-user_example :
    let s = new_store crypto urls realm token_config "/realms/demo" "kid" in
    (lookup text_dec "u1" s.users ≡ some guest)
    × (lookup text_dec (Text.canonical_username crypto.fold "ada") s.usernames ≡ some "u1")
new_store-user_example =
    new_store-user crypto urls cost "/realms/demo" "kid" config realm accepted (head refl) guest
      (head refl)

new_store-client_example :
    lookup text_dec "worker" (new_store crypto urls realm token_config "/realms/demo" "kid").clients
    ≡ some (new_client urls robot 100 "/realms/demo")
new_store-client_example =
    new_store-client crypto urls cost "/realms/demo" "kid" config realm accepted (head refl) robot
      (tail (head refl))

read_allowed : (x : String) → x ∈ "read" ∷ [] → x ∈ robot.allowed_scopes
read_allowed x m = m

client_credentials_token_request-accepted_example :
    client_credentials_token_request
      (new_store crypto urls realm token_config "/realms/demo" "kid")
      "worker"
      ("read" ∷ [])
    ≡ ok (service_request robot "worker" ("read" ∷ []))
client_credentials_token_request-accepted_example =
    client_credentials_token_request-accepted crypto urls cost "/realms/demo" "kid" config realm
      robot ("read" ∷ []) accepted (head refl) (tail (head refl)) refl (λ e. ground arith)
      read_allowed
