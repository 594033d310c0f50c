-- ===== src/Tests/Policy.antt =====
-- The scopes, the ports and the policy of a small realm.
use hoocloak.Base.{◌≡◌, refl, arith, List, [], ◌∷◌, Bool, false, text_dec, ◌then◌}
use hoocloak.Config.{Realm}
use hoocloak.Config.Text
use hoocloak.Config.Text.{Text, codes, split, all_codes}
use hoocloak.Server.Sorted
use hoocloak.Server.Origins
use hoocloak.Server.Origins.{
  configured_scopes, valid_port, configured_redirect_origins, join, page_policy,
}
use hoocloak.Server.Origins.Configured.{Visits}
use hoocloak.Server.Origins.Directives.{sources, directives, page_policy-directives}
use hoocloak.Tests.{spa, worker}
use hoocloak.Tests.Accepted.{net}

program : Unit {0}
unfolding text_dec ◌then◌ Text.split Text.has_suffix Text.drop_suffix Sorted.text_ltb
    Sorted.insert_sorted Sorted.sort Origins.valid_digits Origins.valid_port Origins.port_suffix
    Origins.check_characters Origins.check_labels Origins.canonical_ip_origin
    Origins.canonical_name_origin Origins.canonical_url_origin Origins.canonical_redirect_origin
    Origins.redirect_keys Origins.client_redirect_keys Origins.configured_redirect_origins
program = tt

abbrev demo : Realm
demo = record { name = "demo"; users = []; clients = spa ∷ worker ∷ [] }

-- Go's order, where it happens to be the order of insertion.
abbrev visited : {A : Type 0} → List A → List A
visited keys = keys

visited-Visits : Visits visited
visited-Visits = record { same = λ keys x. refl; once = λ keys h. h }

-- No address is read.
abbrev no_ip : Text → Bool
no_ip t = false

page_policy-directives_example :
    (split b';' (page_policy (codes "http://localhost" ∷ []))
      ≡ directives (codes "http://localhost" ∷ []))
    × (split b' ' (join (sources (codes "http://localhost" ∷ [])))
        ≡ sources (codes "http://localhost" ∷ []))
unfolding program
page_policy-directives_example =
    page_policy-directives net no_ip visited demo (codes "http://localhost" ∷ [])
      (λ t e. absurd (ground (arith, e))) (λ test keys h. h) refl
