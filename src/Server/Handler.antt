-- ===== src/Server/Handler.antt =====
-- internal/idp/server.go: the handler of a realm, as `NewServer` puts it together, and `asset`.
pub mod Reaches
pub mod SignIn
pub mod Answers
pub mod Confined
pub mod Lifetime
use hoocloak.Base.{
  ℕ, String, List, [], ◌∷◌, Bool, true, false, not, ◌&&◌, ◌||◌, Option, none, some, ◌==◌,
  if◌then◌else◌,
}
use hoocloak.Config.Text.{Text, codes, same, split, has_prefix, trim_prefix}
use hoocloak.Store.Types.{Time, Store}
use hoocloak.Server.Http.{Request, Response, set_header, http_error, not_found}
use hoocloak.Server.Realm.{Realm, Web, Asset}
use hoocloak.Server.Protocol.{method_not_allowed, protocol_gates}
use hoocloak.Server.Login.{Turn, login, logged_out, discovery}

-- An element of a path that goes nowhere else.
abbrev pub is_element : Text → Bool
is_element part = not (same part (codes "") || same part (codes ".") || same part (codes ".."))

abbrev pub all_elements : List Text → Bool
all_elements [] = true
all_elements (part ∷ rest) = is_element part && all_elements rest

-- `fs.ValidPath`.
unfoldable pub valid_path : String → Bool
valid_path name = name == "." || all_elements (split b'/' (codes name))

module _ (web : Web) (realm : Realm) where
  open web use {open_asset, type_of, serve_content, cors, mux_redirect}

  unfoldable pub serve_asset : Request → String → Asset → Response → Response
  unfolding set_header http_error not_found
  serve_asset r name file w =
      if not file.stat_ok || file.is_dir
      then not_found w
      else if not file.seekable
      then http_error "unable to serve asset" 500 w
      else let found = type_of name in
        let content_type = if found == "" then "application/octet-stream" else found in
        serve_content r file (
          set_header "X-Content-Type-Options" "nosniff"
            (set_header "Cache-Control" "no-cache" (set_header "Content-Type" content_type w)))

  unfoldable pub asset : Request → Response → Response
  unfolding serve_asset not_found valid_path
  asset r w =
      let name = trim_prefix "/assets/" r.path in
      if not (r.method == "GET") && not (r.method == "HEAD")
      then method_not_allowed "GET, HEAD" w
      else if not (valid_path name)
      then not_found w
      else elim (open_asset name) [ none ↦ not_found w | some file ↦ serve_asset r name file w ]

  -- The patterns of `realmMux`.
  unfoldable pub route : Store → Turn → Request → Response → Store × Response
  unfolding asset not_found
  route s turn r w =
      if r.path == "/.well-known/openid-configuration"
      then (s, discovery web realm r w)
      else if has_prefix "/assets/" r.path
      then (s, asset r w)
      else if r.path == "/ready" || r.path == "/healthz"
      then (s, not_found w)
      else if r.path == "/login"
      then login web realm s turn r w
      else if r.path == "/logged-out"
      then (s, logged_out web realm r w)
      else protocol_gates web realm s turn.at_info r w

  unfoldable pub realm_mux : Store → Turn → Request → Response → Store × Response
  unfolding route
  realm_mux s turn r w = elim (mux_redirect r w) [ some w' ↦ (s, w') | none ↦ route s turn r w ]

  -- `realmRuntime.Handler`.
  unfoldable pub realm_handler : Store → Turn → Request → Response → Store × Response
  unfolding realm_mux not_found
  realm_handler s turn r w =
      let (w', goes) = cors realm.origins r w in
      let answered = realm_mux s turn r w' in
      if r.path == "/device_authorization"
      then (s, not_found w)
      else if goes
      then answered
      else (s, w')
