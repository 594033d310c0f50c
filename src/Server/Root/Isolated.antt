-- ===== src/Server/Root/Isolated.antt =====
-- A request to one realm leaves the stores of the other realms alone.
use Prim.Native.String.{◌++◌ as append}
use hoocloak.Base.{
  ◌≡◌, ◌≢◌, refl, ap, inl, inr, String, [], ◌∷◌, false, Option, arith, text_dec, Bool-cases,
  Option-cases,
}
use hoocloak.Base.Map.{Map}
use hoocloak.Config.Text.{has_prefix}
use hoocloak.Server.Http.{Request, Response}
use hoocloak.Server.Realm.{Realm, Web}
use hoocloak.Server.Login.{Turn}
use hoocloak.Server.Root.{Stores, realm_path, serve_realm, route_realms, root_handler}

module _ (webs : String → Web) (clean : Request → Response → Option Response)
    (ready : Stores → Request → Response → Response) where
  serve_realm-others :
      (name other : String) (realm : Realm) (stores : Stores) (turn : Turn) (r : Request)
      (w : Response)
      → name ≢ other
      → (serve_realm webs clean ready name realm stores turn r w).0 other ≡ stores other
  unfolding serve_realm
  serve_realm-others name other realm stores turn r w n = ground (arith, n, text_dec name other)

  route_realms-others :
      (servers : Map String Realm) (other : String) (stores : Stores) (turn : Turn) (r : Request)
      (w : Response)
      → has_prefix (append (realm_path other) "/") r.path ≡ false
      → (route_realms webs clean ready servers stores turn r w).0 other ≡ stores other
  unfolding route_realms
  route_realms-others [] other stores turn r w h = refl
  route_realms-others ((name, realm) ∷ rest) other stores turn r w h =
      elim (text_dec r.path (realm_path name)) [
        | yes p ↦ ground (arith, p)
        | no n ↦ elim (Bool-cases (has_prefix (append (realm_path name) "/") r.path)) [
          | inr m ↦ ground (arith, n, m, route_realms-others rest other stores turn r w h)
          | inl m ↦
              let different : ◌≢◌ {A = String} name other = λ q.
                ground (arith, m, h, ap (λ x. has_prefix (append (realm_path x) "/") r.path) q) in
              ground (arith, n, m, serve_realm-others name other realm stores turn r w different)
        ]
      ]

  -- A request whose path is not below a realm's own path leaves that realm's store as it is,
  -- whatever the server's realms and the request are.
  pub root_handler-isolated :
      (servers : Map String Realm) (other : String) (stores : Stores) (turn : Turn) (r : Request)
      (w : Response)
      → has_prefix (append (realm_path other) "/") r.path ≡ false
      → (root_handler webs clean ready servers stores turn r w).0 other ≡ stores other
  unfolding root_handler
  root_handler-isolated servers other stores turn r w h = elim (Option-cases (clean r w)) [
    | inr (answered, f) ↦ ground (arith, f)
    | inl f ↦ elim (text_dec r.path "/healthz") [
      | yes p ↦ ground (arith, f, p)
      | no n ↦ elim (text_dec r.path "/ready") [
        | yes p ↦ ground (arith, f, n, p)
        | no m ↦ ground (arith, f, n, m, route_realms-others servers other stores turn r w h)
      ]
    ]
  ]
