-- ===== src/Config/Validate.antt =====
-- internal/config/config.go: `Validate` and `validateListen`.
use hoocloak.Base.{
  ℕ, String, List, [], ◌∷◌, ◌++◌, Bool, true, false, not, ◌&&◌, ◌||◌, Option, none, some, ◌==◌,
  contains, leb, if◌then◌else◌, ◌then◌, fails_if,
}
use hoocloak.Config.{
  Config, TokenConfig, Realm, User, ClientConfig, client_type_spa, client_type_service,
}
use hoocloak.Config.Text.{codes, same, has_suffix, before, trim_space, canonical_username, atoi}
use hoocloak.Config.Url
use hoocloak.Config.Url.{
  Net, Url, Problem, Checked, value, problem, in_port_range, validate_absolute_url, validate_scheme,
  validate_redirect, validate_origin,
}
use hoocloak.Config.Rules.{
  reserved_scopes, validate_nonempty_unique, validate_scope_tokens, validate_permissions,
  require_id, is_realm_name, valid_bcrypt,
}

unfoldable pub check_ttls : TokenConfig → Option Problem
check_ttls t = fails_if (leb t.access_ttl 0 || leb t.id_ttl 0 || leb t.refresh_ttl 0) Url.bad_ttl

abbrev pub is_nil : {A : Type 0} → List A → Bool
is_nil [] = true
is_nil (_ ∷ _) = false

-- The loop over the allowed scopes of any client.
unfoldable pub check_supported : List String → Option Problem
check_supported [] = none
check_supported (scope ∷ rest) =
    fails_if (scope == "phone" || scope == "address") Url.unsupported_scope
    then check_supported rest

-- The loop over the allowed scopes of a service client.
unfoldable pub check_permitted : List String → List String → Option Problem
check_permitted permissions [] = none
check_permitted permissions (scope ∷ rest) =
    fails_if (contains reserved_scopes scope) Url.reserved_scope
    then fails_if (not (contains permissions scope)) Url.service_permission
    then check_permitted permissions rest

unfoldable pub check_all : (String → Option Problem) → List String → Option Problem
check_all check [] = none
check_all check (x ∷ rest) = check x then check_all check rest

module _ (net : Net) (cost : String → Option ℕ) (fold : String → String) where
  unfoldable pub check_spa : ClientConfig → Option Problem
  unfolding check_all
  check_spa c =
      fails_if (not (c.secret_hash == "")) Url.spa_secret
      then fails_if (not (contains c.allowed_scopes "openid")) Url.spa_openid
      then fails_if (is_nil c.redirect_uris || is_nil c.origins) Url.spa_redirects
      then check_all (validate_redirect net) (c.redirect_uris ++ c.post_logout_redirect_uris)
      then check_all (validate_origin net) c.origins

  unfoldable pub check_service : ClientConfig → Option Problem
  unfolding check_permitted
  check_service c =
      valid_bcrypt cost c.secret_hash
      then fails_if
          (not (is_nil c.redirect_uris && is_nil c.post_logout_redirect_uris && is_nil c.origins))
          Url.service_redirects
      then check_permitted c.permissions c.allowed_scopes

  unfoldable pub check_type : ClientConfig → Option Problem
  unfolding check_spa check_service
  check_type c =
      if c.type == client_type_spa
      then check_spa c
      else if c.type == client_type_service
      then check_service c
      else some Url.bad_type

  -- The body of the loop over the clients.
  unfoldable pub check_client : ClientConfig → List String → Option Problem
  unfolding check_type check_supported
  check_client c ids =
      require_id c.id ids
      then validate_nonempty_unique c.audiences
      then fails_if (is_nil c.audiences) Url.no_audience
      then validate_nonempty_unique c.allowed_scopes
      then fails_if (is_nil c.allowed_scopes) Url.no_scope
      then validate_scope_tokens c.allowed_scopes
      then check_supported c.allowed_scopes
      then validate_permissions c.permissions
      then validate_nonempty_unique c.roles
      then check_type c

  unfoldable pub check_clients : List ClientConfig → List String → Option Problem
  unfolding check_client
  check_clients [] ids = none
  check_clients (c ∷ rest) ids = check_client c ids then check_clients rest (c.id ∷ ids)

  -- The body of the loop over the users.
  unfoldable pub check_user : User → List String → List String → Option Problem
  check_user u ids usernames =
      let username = canonical_username fold u.username in
      require_id u.id ids
      then fails_if (username == "") Url.no_username
      then fails_if (not (u.username == trim_space u.username)) Url.padded_username
      then fails_if (contains usernames username) Url.duplicate_username
      then (if u.password_hash == "" then none else valid_bcrypt cost u.password_hash)
      then validate_permissions u.permissions
      then validate_nonempty_unique u.roles

  -- The loop over the users, and then the one over the clients, which shares `ids`.
  unfoldable pub check_users :
      List User → List ClientConfig → List String → List String → Option Problem
  unfolding check_user check_clients
  check_users [] clients ids usernames = check_clients clients ids
  check_users (u ∷ rest) clients ids usernames =
      check_user u ids usernames
      then check_users rest clients (u.id ∷ ids) (canonical_username fold u.username ∷ usernames)

  unfoldable pub check_realms : List Realm → List String → Option Problem
  unfolding check_users
  check_realms [] names = none
  check_realms (realm ∷ rest) names =
      fails_if (not (is_realm_name realm.name)) Url.bad_realm_name
      then fails_if (contains names realm.name) Url.duplicate_realm
      then check_users realm.users realm.clients [] []
      then check_realms rest (realm.name ∷ names)

  unfoldable pub validate_listen : String → Option Problem
  validate_listen address =
      fails_if (address == "" || not (address == trim_space address)) Url.bad_listen
      then elim (net.split_port address) [
        | none ↦ some Url.bad_listen
        | some port ↦ fails_if (not (in_port_range (atoi port))) Url.bad_port
      ]

  -- The checks on the base URL once it parses.
  unfoldable pub check_base : String → Url → Option Problem
  check_base base_url u =
      fails_if (not (same (before b':' (codes base_url)) (codes u.scheme))) Url.bad_scheme
      then fails_if
          (not (
            u.path == "/"
            && u.raw_path == ""
            && u.raw_query == ""
            && u.fragment == ""
            && has_suffix (codes "/") (codes base_url)))
          Url.no_root
      then validate_scheme net u

  -- `Validate` from what the base URL parses to.
  unfoldable pub check_config : Config → Checked Url → Option Problem
  unfolding check_base validate_listen check_ttls check_realms
  check_config c (problem e) = some e
  check_config c (value u) =
      check_base c.base_url u
      then validate_listen c.listen
      then check_ttls c.tokens
      then fails_if (not (c.theme_dir == trim_space c.theme_dir)) Url.bad_theme
      then fails_if
          (not (c.login_mode == "" || c.login_mode == "password" || c.login_mode == "select"))
          Url.bad_login_mode
      then fails_if (is_nil c.realms) Url.no_realms
      then check_realms c.realms []

  unfoldable pub validate : Config → Option Problem
  unfolding check_config
  validate c = check_config c (validate_absolute_url net c.base_url)
