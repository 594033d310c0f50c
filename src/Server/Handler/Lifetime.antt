-- ===== src/Server/Handler/Lifetime.antt =====
-- A realm's store under any requests, from `NewStore` on.
use mathlib.Core.List.{Memᴰ}
use hoocloak.Base.{◌≡◌, ◌⊎◌, true, refl, subst, ℕ, String, List, [], ◌∷◌, Option, none}
use hoocloak.Client.{Urls}
use hoocloak.Config.{Config}
use hoocloak.Config as Configuration
use hoocloak.Config.Validate.{validate}
use hoocloak.Store.Types.{Store}
use hoocloak.Store.Prune.Schedule.{IsScheduled}
use hoocloak.Store.Families.{IsLinked}
use hoocloak.Store.Codes.{IsAllocated}
use hoocloak.Store.Pending.{IsBounded}
use hoocloak.Store.Clients.{new_store}
use hoocloak.Store.Served.{run-new_store}
use hoocloak.Server.Http.{Request, blank}
use hoocloak.Server.Realm.{Realm, Web}
use hoocloak.Server.Login.{Turn}
use hoocloak.Server.Handler.{realm_handler}
use hoocloak.Server.Handler.Answers.{realm_handler-Reaches}
use hoocloak.Server.Handler.Reaches.{
  Reaches, Reaches-trans, stays, Disciplined, weaken, none_signs_in,
}
use hoocloak.Server.Handler.SignIn.{ShowsToken}
use hoocloak.Store.Calls.{Call, run}
use hoocloak.Store.Calls.Fresh.{AllFresh}
use mathlib.Core.List.Memᴰ.{head, tail}

module _ (web : Web) (realm : Realm) where
  open web use {crypto}

  -- The store after the requests, each with what happens while it is handled.
  unfoldable pub serve : Store → List (Turn × Request) → Store
  serve s [] = s
  serve s ((turn, r) ∷ rest) = serve (realm_handler web realm s turn r blank).0 rest

  abbrev pub AllDisciplined : List (Turn × Request) → Type 0
  AllDisciplined [] = Unit
  AllDisciplined ((turn, r) ∷ rest) = Disciplined web turn × AllDisciplined rest

  -- Some request of the list is a login that shows its token.
  abbrev pub SomeShows : List (Turn × Request) → Type 0
  SomeShows requests = (given : Turn × Request) × Memᴰ given requests × ShowsToken web given.1

  serve-Reaches :
      (s : Store) (requests : List (Turn × Request)) (Permission : Type 0)
      → AllDisciplined requests
      → (SomeShows requests → Permission)
      → Reaches crypto Permission s (serve s requests)
  unfolding serve
  serve-Reaches s [] P h permit = stays crypto P s
  serve-Reaches s ((turn, r) ∷ rest) P (d, h) permit =
      let after = (realm_handler web realm s turn r blank).0 in
      Reaches-trans crypto P {s = s} {t = after}
        (weaken crypto (ShowsToken web r) P (λ shown. permit ((turn, r), head refl, shown))
          (realm_handler-Reaches web realm turn d s r blank))
        (serve-Reaches after rest P h (λ (given, m, shown). permit (given, tail m, shown)))

  -- What is left of a store from `NewStore` on.
  pub record Serves (start s : Store) (requests : List (Turn × Request)) : Type 0 where
    pub calls : List Call
    pub fresh : AllFresh crypto start calls
    pub runs : run crypto start calls ≡ s
    pub permitted : SomeShows requests ⊎ (none_signs_in calls ≡ true)
    pub scheduled : IsScheduled s
    pub linked : IsLinked s
    pub allocated : IsAllocated s
    pub bounded : IsBounded s

  -- From NewStore for an accepted configuration's realm, whatever requests a realm's handler is
  -- given, one after the other and with other calls of the store while a login is handled, the
  -- store that is left is the one that calls of the store with new identifiers lead to. None of
  -- these calls starts or commits an authentication, selects an identity or issues a completion
  -- secret, unless some request is a POST of the login form with a token that is not empty and is
  -- in its cookie. So the store is rightly scheduled, linked, allocated and bounded. The provider
  -- and the other goroutines are taken to change the store by its calls with new identifiers, and
  -- the provider, whose storage interface has none of the four, by others than these.
  pub serve-new_store :
      (urls : Urls) (cost : String → Option ℕ) (base kid : String) (c : Config)
      (settings : Configuration.Realm) (requests : List (Turn × Request))
      → validate urls.net cost crypto.fold c ≡ none
      → Memᴰ settings c.realms
      → AllDisciplined requests
      → let start = new_store crypto urls settings c.tokens base kid in
        Serves start (serve start requests) requests
  serve-new_store urls cost base kid c settings requests accepted served h =
      let start = new_store crypto urls settings c.tokens base kid in
      let reached = serve-Reaches start requests (SomeShows requests) h (λ shown. shown) in
      let holds =
        subst (λ (s : Store). IsScheduled s × IsLinked s × IsAllocated s × IsBounded s) reached.runs
          (run-new_store crypto urls cost base kid c settings reached.calls accepted served
            reached.fresh) in
      record {
        calls = reached.calls;
        fresh = reached.fresh;
        runs = reached.runs;
        permitted = reached.permitted;
        scheduled = holds.0;
        linked = holds.1;
        allocated = holds.2;
        bounded = holds.3;
      }
