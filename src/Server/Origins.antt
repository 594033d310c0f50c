-- ===== src/Server/Origins.antt =====
-- internal/idp/server.go: the scopes and origins of a realm's clients, and the page's policy.
pub mod Configured
pub mod Port
pub mod Policy
pub mod Directives
use hoocloak.Base.{
  ℕ, ◌+◌, ◌-◌, ◌*◌, String, List, [], ◌∷◌, ◌++◌, Bool, true, false, not, ◌&&◌, ◌||◌, Option, none,
  some, ◌==◌, contains, ltb, leb, if◌then◌else◌, ◌then◌, fails_if,
}
use hoocloak.Config.{ClientConfig, Realm, client_type_spa}
use hoocloak.Config.Text.{
  Text, codes, between, is_code, same, has_code, has_suffix, drop_suffix, split,
}
use hoocloak.Config.Url.{Net, Url, Parsed, parsed, invalid_port, malformed, is_empty}
use hoocloak.Server.Sorted.{text_ltb, sort, sort_strings}

-- The keys of a `map[string]struct{}`.
abbrev pub add_key : List String → String → List String
add_key seen key = if contains seen key then seen else key ∷ seen

unfoldable pub add_keys : List String → List String → List String
add_keys seen [] = seen
add_keys seen (key ∷ rest) = add_keys (add_key seen key) rest

unfoldable pub scope_keys : List String → List ClientConfig → List String
unfolding add_keys
scope_keys seen [] = seen
scope_keys seen (c ∷ rest) = scope_keys (add_keys seen c.allowed_scopes) rest

unfoldable pub origin_keys : List String → List ClientConfig → List String
unfolding add_keys
origin_keys seen [] = seen
origin_keys seen (c ∷ rest) =
    origin_keys (if c.type == client_type_spa then add_keys seen c.origins else seen) rest

-- `range` is the order in which Go visits the keys of a map.
module _ (range : List String → List String) where
  unfoldable pub configured_scopes : Realm → List String
  unfolding scope_keys sort_strings
  configured_scopes realm = sort_strings (range (scope_keys [] realm.clients))

  unfoldable pub configured_origins : Realm → List String
  unfolding origin_keys sort_strings
  configured_origins realm = sort_strings (range (origin_keys [] realm.clients))

unfoldable pub valid_digits : Text → ℕ → Bool
valid_digits [] value = ltb 0 value
valid_digits (char ∷ rest) value =
    let next = value * 10 + (char - b'0') in
    let more = valid_digits rest next in
    if not (between b'0' b'9' char) then false else if ltb 65535 next then false else more

unfoldable pub valid_port : Text → Bool
unfolding valid_digits
valid_port port = if is_empty port then true else valid_digits port 0

unfoldable pub port_suffix : String → Text → Text
port_suffix scheme port =
    if is_empty port
      || (scheme == "http" && same port (codes "80"))
      || (scheme == "https" && same port (codes "443"))
    then []
    else b':' ∷ port

-- The errors of `canonicalRedirectOrigin`.
pub data OriginError : Type 0 where
  no_host not_http empty_port not_ip not_idna bad_label bad_character bad_port : OriginError

pub data Origin : Type 0 where
  origin : Text → Origin
  refused : OriginError → Origin

abbrev is_host_code : ℕ → Bool
is_host_code c = between b'a' b'z' c || between b'0' b'9' c || is_code b'-' c

-- The last code of a text is the given one.
abbrev ends_with : ℕ → Text → Bool
ends_with d [] = false
ends_with d (c ∷ []) = is_code d c
ends_with d (c ∷ e ∷ rest) = ends_with d (e ∷ rest)

abbrev starts_with : ℕ → Text → Bool
starts_with d [] = false
starts_with d (c ∷ _) = is_code d c

unfoldable pub check_characters : Text → Option OriginError
check_characters [] = none
check_characters (c ∷ rest) =
    let more = check_characters rest in if not (is_host_code c) then some bad_character else more

unfoldable pub check_labels : List Text → Option OriginError
unfolding check_characters ◌then◌
check_labels [] = none
check_labels (label ∷ rest) =
    fails_if (is_empty label || starts_with b'-' label || ends_with b'-' label) bad_label
    then check_characters label
    then check_labels rest

abbrev pub has_text : List Text → Text → Bool
has_text [] x = false
has_text (y ∷ ys) x = same y x || has_text ys x

-- `is_ip` is whether `net.ParseIP` reads the text.
module _ (net : Net) (is_ip : Text → Bool) where
  open net use {parse, to_lower, to_ascii}

  unfoldable pub canonical_ip_origin : Url → Origin
  unfolding valid_port port_suffix
  canonical_ip_origin u =
      if not (is_ip u.hostname)
      then refused not_ip
      else if not (valid_port u.port)
      then refused bad_port
      else origin (
          codes u.scheme
          ++ codes "://["
          ++ to_lower u.hostname
          ++ codes "]"
          ++ port_suffix u.scheme u.port)

  unfoldable pub canonical_name_origin : Url → Origin
  unfolding valid_port port_suffix check_labels
  canonical_name_origin u = elim (to_ascii (drop_suffix (codes ".") (to_lower u.hostname))) [
    | none ↦ refused not_idna
    | some ascii ↦
        if is_empty ascii then refused not_idna else elim (check_labels (split b'.' ascii)) [
          | some e ↦ refused e
          | none ↦
              if not (valid_port u.port)
              then refused bad_port
              else origin (codes u.scheme ++ codes "://" ++ ascii ++ port_suffix u.scheme u.port)
        ]
  ]

  unfoldable pub canonical_url_origin : Url → Origin
  unfolding canonical_ip_origin canonical_name_origin
  canonical_url_origin u =
      if is_empty u.host || is_empty u.hostname
      then refused no_host
      else if not (u.scheme == "http") && not (u.scheme == "https")
      then refused not_http
      else if has_suffix (codes ":") u.host
      then refused empty_port
      else if has_code b':' u.hostname
      then canonical_ip_origin u
      else canonical_name_origin u

  unfoldable pub canonical_redirect_origin : String → Origin
  unfolding canonical_url_origin
  canonical_redirect_origin raw = elim (parse raw) [
    | invalid_port ↦ refused no_host
    | malformed ↦ refused no_host
    | parsed u ↦ canonical_url_origin u
  ]

  -- The keys of the map, or the first error; `seen` are those so far.
  unfoldable pub redirect_keys : List Text → List String → Option (List Text)
  unfolding canonical_redirect_origin
  redirect_keys seen [] = some seen
  redirect_keys seen (raw ∷ rest) = elim (canonical_redirect_origin raw) [
    | refused e ↦ none
    | origin x ↦ redirect_keys (if has_text seen x then seen else x ∷ seen) rest
  ]

  unfoldable pub client_redirect_keys : List Text → List ClientConfig → Option (List Text)
  unfolding redirect_keys
  client_redirect_keys seen [] = some seen
  client_redirect_keys seen (c ∷ rest) =
      elim (if c.type == client_type_spa then redirect_keys seen c.redirect_uris else some seen) [
        | none ↦ none
        | some keys ↦ client_redirect_keys keys rest
      ]

  unfoldable pub configured_redirect_origins : (List Text → List Text) → Realm → Option (List Text)
  unfolding client_redirect_keys sort
  configured_redirect_origins range realm = elim (client_redirect_keys [] realm.clients) [
    | none ↦ none
    | some keys ↦ some (sort text_ltb (range keys))
  ]

-- `strings.Join(texts, " ")`.
unfoldable pub join : List Text → Text
join [] = []
join (x ∷ []) = x
join (x ∷ y ∷ rest) = x ++ b' ' ∷ join (y ∷ rest)

-- The Content-Security-Policy of a realm's pages.
unfoldable pub page_policy : List Text → Text
unfolding join
page_policy origins =
    codes
      "default-src 'none'; script-src 'self'; style-src 'self'; img-src 'self' data:; font-src 'self'; form-action "
    ++ join (codes "'self'" ∷ origins)
    ++ codes "; base-uri 'none'; frame-ancestors 'none'"
