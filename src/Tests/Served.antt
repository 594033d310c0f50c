-- ===== src/Tests/Served.antt =====
-- The small realm made, served and asked for files; and a page walked over.
use mathlib.Core.List.Memᴰ.{head}
use text.Mathlib.TextEquality.{eq_iff}
use hoocloak.Base.{
  ◌≡◌, ◌≢◌, refl, ap, arith, ◌<◌, String, List, [], ◌∷◌, true, false, Option, none, some, length,
  text_dec, ◌==◌, if◌then◌else◌, ◌then◌,
}
use hoocloak.Base.Map.{Map, lookup, insert, size}
use hoocloak.Config.Text
use hoocloak.Config.Text.{Text, codes, split}
use hoocloak.Server.Origins.{has_text}
use hoocloak.Store.Clients.{new_store}
use hoocloak.Server.Http.{Request, blank}
use hoocloak.Server.Realm.{Realm, Asset}
use hoocloak.Server.Sorted
use hoocloak.Server.Origins
use hoocloak.Server.Handler.{asset}
use hoocloak.Server.Handler.Reaches.{stays, Disciplined}
use hoocloak.Server.Handler.Confined.{with_files, asset-confined}
use hoocloak.Server.Handler.Lifetime.{Serves, serve, serve-new_store}
use hoocloak.Server.Realms
use hoocloak.Server.Realms.{SigningKey, Libraries, built, realm_server, new_server}
use hoocloak.Command
use hoocloak.Command.Start.{Ends, serve-Ends}
use hoocloak.Server.Html
use hoocloak.Server.Html.{Token, Tokenizer}
use hoocloak.Server.Html.Relative.{UrlText, out_of_fuel, validate_realm_relative_urls}
use hoocloak.Server.Html.Terminates.{Progresses, validate_realm_relative_urls-ends}
use hoocloak.Server.Root.{root_handler}
use hoocloak.Server.Root.Isolated.{root_handler-isolated}
use hoocloak.Tests.{crypto, token_config, pending}
use hoocloak.Tests.Accepted.{net, urls, cost, realm, config, accepted}
use hoocloak.Tests.Gates as Gates
use hoocloak.Tests.Pages.{turn, attempt}

program : Unit {0}
unfolding Text.has_prefix text_dec lookup insert size ◌then◌ Text.split Text.has_suffix
    Text.drop_suffix Sorted.text_ltb Sorted.insert_sorted Sorted.sort Origins.valid_digits
    Origins.valid_port Origins.port_suffix Origins.check_characters Origins.check_labels
    Origins.canonical_ip_origin Origins.canonical_name_origin Origins.canonical_url_origin
    Origins.canonical_redirect_origin Origins.redirect_keys Origins.client_redirect_keys
    Origins.configured_redirect_origins Origins.page_policy Origins.configured_origins
    Origins.configured_scopes Realms.trim_slash Realms.realm_issuer Realms.realm_server
    Realms.build_realm Realms.check_key Realms.keyed_realm Realms.build_realms Realms.check_names
    Realms.new_server
program = tt

disciplined : Disciplined Gates.web turn
disciplined = record {
  provider = λ s r w. stays crypto ⊥ s;
  before_check = λ s. stays crypto Unit s;
  during_check = λ s. stays crypto Unit s;
  before_issue = λ s. stays crypto Unit s;
}

serve-new_store_example :
    Serves Gates.web Gates.realm
      (new_store crypto urls realm token_config "/realms/demo" "kid")
      (serve Gates.web Gates.realm
        (new_store crypto urls realm token_config "/realms/demo" "kid")
        ((turn, attempt) ∷ []))
      ((turn, attempt) ∷ [])
serve-new_store_example =
    serve-new_store Gates.web Gates.realm urls cost "/realms/demo" "kid" config realm
      ((turn, attempt) ∷ []) accepted (head refl) (disciplined, tt)

abbrev style : Asset
style = record { stat_ok = true; is_dir = false; seekable = true; content = "a {}" }

-- Files that differ in a name that climbs.
abbrev files : String → Option Asset
files name = if name == "theme.css" then some style else none

abbrev files_outside : String → Option Asset
files_outside name =
    if name == "theme.css" then some style else if name == "a/../.." then some style else none

abbrev asked : Request
asked = record Gates.request { method = "GET"; path = "/assets/a/../.." }

asset-confined_example :
    asset (with_files Gates.web files) Gates.realm asked blank
    ≡ asset (with_files Gates.web files_outside) Gates.realm asked blank
unfolding program
asset-confined_example =
    asset-confined Gates.web Gates.realm files files_outside asked blank (λ name below.
      elim (text_dec name "a/../..") [
        | yes e ↦
            absurd (ground (arith, ap (λ x. has_text (split b'/' (codes x)) (codes "..")) e, below))
        | no n ↦ ground (arith, n)
      ])

abbrev libraries : Libraries
libraries = record {
  loads_theme = λ dir. true;
  provides = λ issuer. true;
  discovery = λ issuer found. some "{}";
  from_codes = λ t. "policy";
  range = λ keys. keys;
  range_origins = λ keys. keys;
  net = net;
  is_ip = λ t. false;
}

abbrev keys : Map String SigningKey
keys = ("demo", record { has_key = true; kid = "kid" }) ∷ []

-- A key for every realm.
abbrev new_key : String → Option String
new_key name = some "kid"

-- An environment that lets the user be chosen.
abbrev environment : String → Option String
environment name = if name == "HOOCLOAK_LOGIN_MODE" then some "select" else none

serve-Ends_example :
    Ends libraries cost crypto.fold new_key
      (some config)
      environment
      (Command.serve libraries cost crypto.fold new_key (some config) environment)
serve-Ends_example =
    serve-Ends libraries cost crypto.fold new_key (some config) environment
      (λ name kid e. ground (arith, e, eq_iff "kid" ""))

-- It does start.
starts :
    new_server libraries config keys
    ≡ built (
        ("demo", realm_server libraries config keys realm "{}" (codes "http://localhost" ∷ []))
        ∷ [])
unfolding program
starts = refl

-- A login at a realm that has another beside it.
abbrev at_demo : Request
at_demo = record attempt { path = "/realms/demo/login" }

abbrev two_realms : Map String Realm
two_realms = ("demo", Gates.realm) ∷ ("other", Gates.realm) ∷ []

root_handler-isolated_example :
    (root_handler
        (λ name. Gates.web)
        (λ r w. none)
        (λ stores r w. w)
        two_realms
        (λ name. pending)
        turn
        at_demo
        blank).0
      "other"
    ≡ pending
unfolding program
root_handler-isolated_example =
    root_handler-isolated (λ name. Gates.web) (λ r w. none) (λ stores r w. w) two_realms "other"
      (λ name. pending) turn at_demo blank refl

-- A tokenizer over the tokens of a page.
abbrev read : List Token → Token × List Token
read [] = (Html.ended, [])
read (token ∷ rest) = (token, rest)

abbrev tokens : Tokenizer (List Token)
tokens = record { next = read; not_raw = λ t. t; left = length }

read-shorter : (t : List Token) → (read t).0 ≢ Html.ended → length (read t).1 < length t
read-shorter [] n = absurd (n refl)
read-shorter (token ∷ rest) n = omega arith

progresses : Progresses tokens
progresses = record { reads = λ t n m. read-shorter t n; keeps = λ t. refl }

abbrev page : List Token
page =
    Html.start "form" (("action", "/login") ∷ []) (codes "<form action=\"/login\">")
    ∷ Html.closing "form"
    ∷ []

abbrev no_url : Text → Option UrlText
no_url t = none

validate_realm_relative_urls-ends_example :
    validate_realm_relative_urls tokens (λ t. t) (λ t. t) no_url page ≢ out_of_fuel
validate_realm_relative_urls-ends_example =
    validate_realm_relative_urls-ends tokens progresses (λ t. t) (λ t. t) no_url page
