-- ===== src/Config/Url.antt =====
-- internal/config/config.go: redirect URIs and origins, `validateAbsoluteURL` to
-- `canonicalIPv6Host`, and `IsLocalHost`.
use hoocloak.Base.{
  ℕ, String, List, [], ◌∷◌, ◌++◌, Bool, true, false, not, ◌&&◌, ◌||◌, Option, none, some, ◌==◌, ltb,
  leb, if◌then◌else◌, ◌then◌, fails_if,
}
use hoocloak.Config.Text.{
  Text, codes, is_code, format, same, has_code, drop_suffix, has_suffix, trim_end, atoi,
}
use hoocloak.Config.Ipv4.{Quad, ends_in_ipv4_number, parse_browser_ipv4_host}
use hoocloak.Config.Ipv6.{serialize_ipv6}

-- The parts of a `url.URL` that are read; `has_user` is `User != nil`.
pub record Url : Type 0 where
  pub scheme : String
  pub host : Text
  pub hostname : Text
  pub port : Text
  pub has_user : Bool
  pub path : String
  pub raw_path : String
  pub raw_query : String
  pub fragment : String

-- The result of `url.Parse`, an error told by whether its text has "invalid port".
pub data Parsed : Type 0 where
  parsed : Url → Parsed
  invalid_port malformed : Parsed

-- A `netip.Addr`: `Is4`, `Is6` and `As16`.
pub record Addr : Type 0 where
  pub is4 : Bool
  pub is6 : Bool
  pub as16 : List ℕ

-- What is used of Go's network packages: `url.Parse`, whether `url.QueryUnescape` succeeds,
-- `strings.ToLower`, the port of `net.SplitHostPort`, `net.ParseIP` with `IsLoopback`, `idna.Lookup.ToASCII` and
-- `netip.ParseAddr`.
pub record Net : Type 0 where
  pub parse : String → Parsed
  pub unescapes : String → Bool
  pub to_lower : Text → Text
  pub is_loopback : Text → Bool
  pub to_ascii : Text → Option Text
  pub parse_addr : Text → Option Addr
  pub split_port : String → Option Text

-- The errors, without the positions in their texts.
pub data Problem : Type 0 where
  wildcard bad_port not_absolute cleartext bad_scheme bad_escape has_fragment : Problem
  has_path not_punycode empty_host has_zone not_ipv4 not_ipv6 not_canonical : Problem
  no_root bad_listen bad_ttl bad_theme bad_login_mode no_realms bad_realm_name : Problem
  duplicate_realm bad_id duplicate_id no_username padded_username duplicate_username : Problem
  not_bcrypt empty_value duplicate_value reserved_scope bad_scope_token : Problem
  no_audience no_scope unsupported_scope spa_secret spa_openid spa_redirects : Problem
  service_redirects service_permission bad_type : Problem

-- A function's value, or its error.
pub data Checked (A : Type 0) : Type 0 where
  value : A → Checked A
  problem : Problem → Checked A

abbrev pub dotted : Quad → Text
dotted q = format 10 q.a ++ b'.' ∷ format 10 q.b ++ b'.' ∷ format 10 q.c ++ b'.' ∷ format 10 q.d

abbrev pub in_port_range : Option ℕ → Bool
in_port_range none = false
in_port_range (some port) = leb 1 port && leb port 65535

abbrev pub is_empty : Text → Bool
is_empty [] = true
is_empty (_ ∷ _) = false

-- Is every code below 0x80?
abbrev is_ascii : Text → Bool
is_ascii [] = true
is_ascii (c ∷ cs) = ltb c 0x80 && is_ascii cs

module _ (net : Net) where
  open net use {parse, unescapes, to_lower, is_loopback, to_ascii, parse_addr}

  unfoldable pub is_local_host : Text → Bool
  is_local_host host =
      let name = drop_suffix (codes ".") (to_lower host) in
      same name (codes "localhost") || has_suffix (codes ".localhost") name || is_loopback name

  -- The checks on a URL that parses.
  unfoldable pub check_absolute : Url → Checked Url
  check_absolute u =
      if u.scheme == "" || is_empty u.host || is_empty u.hostname || u.has_user
      then problem not_absolute
      else if (has_suffix (codes ":") u.host || not (is_empty u.port))
          && not (in_port_range (atoi u.port))
      then problem bad_port
      else value u

  unfoldable pub validate_absolute_url : String → Checked Url
  unfolding check_absolute
  validate_absolute_url raw =
      if has_code b'*' (codes raw) || has_code b'\\' (codes raw)
      then problem wildcard
      else elim (parse raw) [
        | invalid_port ↦ problem bad_port
        | malformed ↦ problem not_absolute
        | parsed u ↦ check_absolute u
      ]

  unfoldable pub validate_scheme : Url → Option Problem
  unfolding is_local_host
  validate_scheme u =
      if u.scheme == "https"
      then none
      else if u.scheme == "http"
      then fails_if (not (is_local_host u.hostname)) cleartext
      else some bad_scheme

  unfoldable pub validate_redirect : String → Option Problem
  unfolding validate_absolute_url validate_scheme
  validate_redirect raw = elim (validate_absolute_url raw) [
    | problem e ↦ some e
    | value u ↦
        fails_if (not (unescapes u.raw_query)) bad_escape
        then fails_if (has_code b'#' (codes raw)) has_fragment
        then validate_scheme u
  ]

  unfoldable pub canonical_domain_host : Text → Checked Text
  canonical_domain_host hostname =
      elim (if is_ascii hostname then some hostname else to_ascii hostname) [
        | none ↦ problem not_punycode
        | some name ↦
            let host = to_lower (trim_end b'.' name) in
            if is_empty host then problem empty_host else value host
      ]

  unfoldable pub canonical_ipv6_host : Text → Checked Text
  canonical_ipv6_host literal =
      if has_code b'%' literal then problem has_zone else elim (parse_addr literal) [
        | none ↦ problem not_ipv6
        | some address ↦
            if not address.is6 || address.is4
            then problem not_ipv6
            else value (b'[' ∷ serialize_ipv6 address.as16 ++ b']' ∷ [])
      ]

  unfoldable pub canonical_ipv4 : Text → Checked Text
  canonical_ipv4 host =
      if ends_in_ipv4_number host
      then elim (parse_browser_ipv4_host host) [
        | none ↦ problem not_ipv4
        | some q ↦ value (dotted q)
      ]
      else value host

  unfoldable pub canonical_origin_host : Text → Checked Text
  unfolding canonical_domain_host canonical_ipv6_host canonical_ipv4
  canonical_origin_host hostname =
      if has_code b':' hostname
      then canonical_ipv6_host hostname
      else elim (canonical_domain_host hostname) [
        | problem e ↦ problem e
        | value host ↦ canonical_ipv4 host
      ]

  -- The port after the host, left out where it is the scheme's own.
  unfoldable pub port_suffix : String → Text → Checked Text
  port_suffix scheme raw = if is_empty raw then value [] else elim (atoi raw) [
    | none ↦ problem bad_port
    | some port ↦
        if (scheme == "http" && is_code port 80) || (scheme == "https" && is_code port 443)
        then value []
        else value (b':' ∷ format 10 port)
  ]

  -- The origin that a browser sends for the URL. `url.Parse` gives the scheme in lower case.
  unfoldable pub canonical_origin : Url → Checked Text
  unfolding canonical_origin_host port_suffix
  canonical_origin u = elim (canonical_origin_host u.hostname) [
    | problem e ↦ problem e
    | value authority ↦ elim (port_suffix u.scheme u.port) [
      | problem e ↦ problem e
      | value port ↦ value (to_lower (codes u.scheme) ++ codes "://" ++ authority ++ port)
    ]
  ]

  unfoldable pub validate_origin : String → Option Problem
  unfolding validate_absolute_url validate_scheme canonical_origin
  validate_origin raw = elim (validate_absolute_url raw) [
    | problem e ↦ some e
    | value u ↦
        fails_if (not (u.path == "" && u.raw_path == "" && u.raw_query == "" && u.fragment == ""))
          has_path
        then elim (canonical_origin u) [
          | problem e ↦ some e
          | value canonical ↦
              fails_if (not (same (codes raw) canonical)) not_canonical then validate_scheme u
        ]
  ]
