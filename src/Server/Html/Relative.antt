-- ===== src/Server/Html/Relative.antt =====
-- internal/idp/server.go: `validateRealmRelativeURLs`, `srcsetCandidates` and
-- `isRootRelativeLoginURL`.
use hoocloak.Base.{
  ℕ, zero, suc, String, List, [], ◌∷◌, ◌++◌, Bool, true, false, not, ◌&&◌, ◌||◌, Option, none, some,
  ◌==◌, leb, length, if◌then◌else◌,
}
use hoocloak.Base.Map.{Map}
use hoocloak.Config.Text.{Text, codes, is_code, same, trim_end, fields}
use hoocloak.Config.Url.{is_empty}
use hoocloak.Server.Html
use hoocloak.Server.Html.{
  HtmlError, Token, Tokenizer, HtmlNs, HtmlElementFrame, Step, attribute, break_out, push, is_html,
  stays_closed, close_element, foreign_raw_text_element,
}
use hoocloak.Server.Html.Attributes.{
  skip, taken, is_blank_code, Scan, validate_raw_html_attribute_names, collect,
}
use hoocloak.Server.Html.Attributes

-- What `url.Parse` says of a text, with `path.Clean` of its path.
pub record UrlText : Type 0 where
  pub is_abs : Bool
  pub has_host : Bool
  pub clean_path : Text

abbrev starts_text : Text → Text → Bool
starts_text [] cs = true
starts_text (p ∷ ps) [] = false
starts_text (p ∷ ps) (c ∷ cs) = is_code p c && starts_text ps cs

-- `strings.TrimFunc` of the codes up to the space, from the end.
trim_controls : Text → Text
trim_controls [] = []
trim_controls (c ∷ cs) =
    let rest = trim_controls cs in if leb c 0x20 && is_empty rest then [] else c ∷ rest

-- Without tabs and line ends, and with slashes for backslashes.
normalized : Text → Text
normalized [] = []
normalized (c ∷ cs) =
    let rest = normalized cs in
    if is_code 9 c || is_code 10 c || is_code 13 c
    then rest
    else if is_code b'\\' c
    then b'/' ∷ rest
    else c ∷ rest

-- The candidates of a `srcset`, on fuel; `none` is no fuel left.
unfoldable pub drop_one : Text → Text
drop_one [] = []
drop_one (_ ∷ cs) = cs

unfoldable pub candidates : ℕ → Text → Option (List Text)
unfolding skip taken drop_one
candidates zero value = none
candidates (suc fuel) value = elim (skip (λ c. is_code b',' c || is_blank_code c) value) [
  | [] ↦ some []
  | c ∷ cs ↦
      let url_value = trim_end b',' (taken (λ d. not (is_blank_code d)) (c ∷ cs)) in
      let after = skip (λ d. not (is_blank_code d)) (c ∷ cs) in
      elim (candidates fuel (drop_one (skip (λ d. not (is_code b',' d)) after))) [
        | none ↦ none
        | some more ↦ some (if is_empty url_value then more else url_value ∷ more)
      ]
]

unfoldable pub srcset_candidates : Text → Option (List Text)
unfolding candidates
srcset_candidates value = candidates (suc (length value)) value

module _ (read_url : Text → Option UrlText) where
  in_area : Text → Text → Bool
  in_area area path = same path area || starts_text (area ++ codes "/") path

  unfoldable pub is_root_relative_login_url : Text → Bool
  unfolding trim_controls normalized in_area skip
  is_root_relative_login_url value =
      let candidate = normalized (trim_controls (skip (λ c. leb c 0x20) value)) in
      if not (starts_text (codes "/") candidate) || starts_text (codes "//") candidate
      then false
      else elim (read_url candidate) [
        | none ↦ true
        | some u ↦
            not (u.is_abs || u.has_host)
            && (in_area (codes "/login") u.clean_path || in_area (codes "/assets") u.clean_path)
      ]

  unfoldable pub any_root_relative : List Text → Bool
  unfolding is_root_relative_login_url
  any_root_relative [] = false
  any_root_relative (x ∷ xs) = is_root_relative_login_url x || any_root_relative xs

  abbrev pub values_of : Map String String → List String → List Text
  values_of attributes [] = []
  values_of attributes (key ∷ rest) = codes (attribute attributes key) ∷ values_of attributes rest

  abbrev pub all_fields : List String → List Text
  all_fields [] = []
  all_fields (x ∷ xs) = codes x ∷ all_fields xs

  -- The loop over the two source sets.
  unfoldable pub any_source : List Text → Option Bool
  unfolding srcset_candidates any_root_relative
  any_source [] = some false
  any_source (sources ∷ rest) = elim (srcset_candidates sources) [
    | none ↦ none
    | some found ↦ if any_root_relative found then some true else any_source rest
  ]

  -- The URLs of an element, its sets of sources, and its lists of URLs.
  abbrev pub element_urls : Map String String → List Text
  element_urls attributes = values_of attributes (
      "action" ∷ "background" ∷ "data" ∷ "formaction" ∷ "href" ∷ "poster" ∷ "src" ∷ "xlink:href"
      ∷ [])

  abbrev pub element_sources : Map String String → List Text
  element_sources attributes = values_of attributes ("imagesrcset" ∷ "srcset" ∷ [])

  abbrev pub element_lists : Map String String → List Text
  element_lists attributes =
      all_fields (fields (attribute attributes "archive"))
      ++ all_fields (fields (attribute attributes "ping"))

  -- Some URL of the element is root-relative.
  unfoldable pub is_refused_element : Map String String → Option Bool
  unfolding any_source any_root_relative
  is_refused_element attributes =
      if any_root_relative (element_urls attributes)
      then some true
      else elim (any_source (element_sources attributes)) [
        | none ↦ none
        | some true ↦ some true
        | some false ↦ some (any_root_relative (element_lists attributes))
      ]

-- `validatedHTMLTag`.
pub data Validated : Type 0 where
  tag : Map String String → Validated
  unusable : HtmlError → Validated
  unfinished : Validated

module _ (lower : Text → Text) where
  unfoldable pub validated_html_tag : List (String × String) → Text → Validated
  unfolding validate_raw_html_attribute_names collect
  validated_html_tag attributes raw = elim (validate_raw_html_attribute_names lower raw) [
    | Attributes.refused e ↦ unusable e
    | Attributes.out_of_fuel ↦ unfinished
    | Attributes.fine ↦ elim (collect [] attributes) [
      | none ↦ unusable Html.repeated_attribute
      | some found ↦ tag found
    ]
  ]

-- The walker's state: the tokenizer's, and the stack of elements.
pub record Walker (T : Type 0) : Type 0 where
  pub at : T
  pub stack : List HtmlElementFrame

module _ {T : Type 0} (tokenizer : Tokenizer T) (lower : Text → Text)
    (lower_string : String → String) where
  -- A start tag; `closed` is its self-closing flag.
  unfoldable pub enter_tag : Walker T → String → Map String String → Bool → Step × Walker T
  unfolding break_out stays_closed push foreign_raw_text_element
  enter_tag w name attributes closed =
      let (namespace, stack) = break_out w.stack name attributes in
      let is_start = not (closed && stays_closed namespace name) in
      let foreign = not (is_html namespace) in
      (
        if is_start then Html.opened name attributes else Html.closed_itself name attributes,
        record {
          at = if foreign && foreign_raw_text_element name then tokenizer.not_raw w.at else w.at;
          stack = if is_start then push lower_string namespace name attributes stack else stack;
        },
      )

  unfoldable pub walk_tag :
      Walker T → String → List (String × String) → Text → Bool → Step × Walker T
  unfolding enter_tag validated_html_tag
  walk_tag w name attributes raw closed = elim (validated_html_tag lower attributes raw) [
    | unusable e ↦ (Html.stopped e, w)
    | unfinished ↦ (Html.endless, w)
    | tag found ↦ enter_tag w name found closed
  ]

  -- What is made of a token.
  unfoldable pub read_token : Token → Walker T → Step × Walker T
  unfolding walk_tag close_element
  read_token Html.ended w = (Html.at_end, w)
  read_token Html.broken w = (Html.stopped Html.unparsed, w)
  read_token Html.other w = (Html.passed, w)
  read_token (Html.start name attributes raw) w = walk_tag w name attributes raw false
  read_token (Html.self_closing name attributes raw) w = walk_tag w name attributes raw true
  read_token (Html.closing name) w =
      (Html.ended_tag name, record w { stack = close_element name w.stack })

  -- `browserHTMLWalker.next`.
  unfoldable pub next : Walker T → Step × Walker T
  unfolding read_token
  next w = let (token, at) = tokenizer.next w.at in read_token token (record w { at = at })

-- What the walk over a page gives.
pub data Verdict : Type 0 where
  accepted out_of_fuel : Verdict
  rejected : HtmlError → Verdict

-- Whether what an element holds is inert.
abbrev top : List Bool → Bool
top [] = false
top (scope ∷ _) = scope

abbrev leave : List Bool → List Bool
leave [] = []
leave (scope ∷ []) = scope ∷ []
leave (scope ∷ outer ∷ rest) = outer ∷ rest

module _ {T : Type 0} (tokenizer : Tokenizer T) (lower : Text → Text)
    (lower_string : String → String) (read_url : Text → Option UrlText) where
  -- Does a template's content not take part in the page?
  unfoldable pub is_inert : List Bool → Map String String → Bool
  is_inert scopes attributes =
      let mode = lower_string (attribute attributes "shadowrootmode") in
      top scopes || (not (mode == "open") && not (mode == "closed"))

  -- An element that is no template.
  unfoldable pub element_verdict : List Bool → Map String String → Option Verdict
  unfolding is_refused_element
  element_verdict scopes attributes =
      if top scopes then none else elim (is_refused_element read_url attributes) [
        | none ↦ some out_of_fuel
        | some true ↦ some (rejected Html.root_relative)
        | some false ↦ none
      ]

  -- What a step of the walk decides, or the scopes that it goes on with.
  unfoldable pub step_scopes : Step → List Bool → Option Verdict × List Bool
  unfolding is_inert element_verdict
  step_scopes Html.at_end scopes = (some accepted, scopes)
  step_scopes Html.endless scopes = (some out_of_fuel, scopes)
  step_scopes (Html.stopped e) scopes = (some (rejected e), scopes)
  step_scopes Html.passed scopes = (none, scopes)
  step_scopes (Html.ended_tag name) scopes =
      (none, if name == "template" then leave scopes else scopes)
  step_scopes (Html.opened name attributes) scopes =
      if name == "template"
      then (none, is_inert scopes attributes ∷ scopes)
      else (element_verdict scopes attributes, scopes)
  step_scopes (Html.closed_itself name attributes) scopes =
      if name == "template" then (none, scopes) else (element_verdict scopes attributes, scopes)

  unfoldable pub walk : ℕ → Walker T → List Bool → Verdict
  unfolding next step_scopes
  walk zero w scopes = out_of_fuel
  walk (suc fuel) w scopes =
      let (step, w') = next tokenizer lower lower_string w in
      let (decided, scopes') = step_scopes step scopes in
      elim decided [ some verdict ↦ verdict | none ↦ walk fuel w' scopes' ]

  unfoldable pub validate_realm_relative_urls : T → Verdict
  unfolding walk
  validate_realm_relative_urls document =
      walk (suc (tokenizer.left document)) (record { at = document; stack = [] }) (false ∷ [])
