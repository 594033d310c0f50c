-- ===== src/Server/Root.antt =====
-- internal/idp/server.go: the router that `NewServer` puts in front of the realms.
pub mod Isolated
use Prim.Native.String.{◌++◌ as append}
use hoocloak.Base.{String, List, [], ◌∷◌, ◌||◌, ◌&&◌, not, Option, none, some, ◌==◌, if◌then◌else◌}
use hoocloak.Base.Map.{Map}
use hoocloak.Config.Text.{has_prefix, trim_prefix}
use hoocloak.Store.Types.{Store}
use hoocloak.Server.Http.{Request, Response, text, set_header, write_header, write_chunk, not_found}
use hoocloak.Server.Realm.{Realm, Web}
use hoocloak.Server.Login.{Turn}
use hoocloak.Server.Handler.{realm_handler}

-- The path of a realm.
abbrev pub realm_path : String → String
realm_path name = append "/realms/" name

-- `http.Redirect` with the status 308, where no Content-Type is set yet; the URL has nothing to
-- escape or to clean.
unfoldable pub redirect_permanently : String → Request → Response → Response
unfolding set_header write_header write_chunk
redirect_permanently url r w =
    let located = set_header "Location" url w in
    let typed =
      if r.method == "GET" || r.method == "HEAD"
      then set_header "Content-Type" "text/html; charset=utf-8" located
      else located in
    let answered = write_header 308 typed in
    if r.method == "GET"
    then write_chunk (text (append "<a href=\"" (append url "\">Permanent Redirect</a>.\n\n")))
        answered
    else answered

unfoldable pub health_page : Response → Response
unfolding set_header write_chunk
health_page w =
    write_chunk (text "{\"status\":\"ok\"}\n") (set_header "Content-Type" "application/json" w)

-- The stores of the realms, by the realms' names.
abbrev pub Stores : Type 0
Stores = String → Store

abbrev pub update : String → Store → Stores → Stores
update name s stores other = if name == other then s else stores other

-- `ready` is `op.Readiness` with the probes of the stores, and `clean` the answer of the router to
-- a path that is not clean; each realm has libraries of its own, since it has its own provider.
module _ (webs : String → Web) (clean : Request → Response → Option Response)
    (ready : Stores → Request → Response → Response) where
  -- The realm's handler behind `http.StripPrefix`, which wants the prefix in front of the path, and
  -- of its encoding where it has one.
  unfoldable pub serve_realm :
      String → Realm → Stores → Turn → Request → Response → Stores × Response
  unfolding realm_handler trim_prefix not_found
  serve_realm name realm stores turn r w =
      let path = trim_prefix (realm_path name) r.path in
      let raw_path = trim_prefix (realm_path name) r.raw_path in
      let (s, answered) =
        realm_handler (webs name) realm (stores name) turn
          (record r { path = path; raw_path = raw_path }) w in
      if path == r.path || (not (r.raw_path == "") && raw_path == r.raw_path)
      then (stores, not_found w)
      else (update name s stores, answered)

  -- The patterns of the realms. No name has a slash in it, so at most one realm has the path.
  unfoldable pub route_realms :
      Map String Realm → Stores → Turn → Request → Response → Stores × Response
  unfolding serve_realm redirect_permanently not_found has_prefix
  route_realms [] stores turn r w = (stores, not_found w)
  route_realms ((name, realm) ∷ rest) stores turn r w =
      let others = route_realms rest stores turn r w in
      if r.path == realm_path name
      then (stores, redirect_permanently (append (realm_path name) "/") r w)
      else if has_prefix (append (realm_path name) "/") r.path
      then serve_realm name realm stores turn r w
      else others

  -- `Server.Handler`.
  unfoldable pub root_handler :
      Map String Realm → Stores → Turn → Request → Response → Stores × Response
  unfolding route_realms health_page
  root_handler servers stores turn r w = elim (clean r w) [
    | some answered ↦ (stores, answered)
    | none ↦
        if r.path == "/healthz"
        then (stores, health_page w)
        else if r.path == "/ready"
        then (stores, ready stores r w)
        else route_realms servers stores turn r w
  ]
