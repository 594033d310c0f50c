-- ===== src/Server/Html/Attributes.antt =====
-- internal/idp/server.go: `validateRawHTMLAttributeNames` and `validatedHTMLTag`.
use hoocloak.Base.{
  ℕ, zero, suc, String, List, [], ◌∷◌, Bool, not, ◌||◌, Option, none, some, length, text_dec,
  if◌then◌else◌,
}
use hoocloak.Base.Map.{Map, lookup, insert}
use hoocloak.Config.Text.{Text, is_code}
use hoocloak.Server.Origins.{has_text}
use hoocloak.Server.Html

-- A loop over the offset while the test holds.
unfoldable pub skip : (ℕ → Bool) → Text → Text
skip test [] = []
skip test (c ∷ cs) = let rest = skip test cs in if test c then rest else c ∷ cs

unfoldable pub taken : (ℕ → Bool) → Text → Text
taken test [] = []
taken test (c ∷ cs) = let rest = taken test cs in if test c then c ∷ rest else []

-- " \t\r\n\f".
abbrev pub is_blank_code : ℕ → Bool
is_blank_code c = is_code b' ' c || is_code 9 c || is_code 13 c || is_code 10 c || is_code 12 c

abbrev pub ends_tag_name : ℕ → Bool
ends_tag_name c = is_blank_code c || is_code b'/' c || is_code b'>' c

abbrev pub ends_name : ℕ → Bool
ends_name c = is_blank_code c || is_code b'=' c || is_code b'/' c || is_code b'>' c

-- The text after an attribute's value, or an error.
pub data AfterValue : Type 0 where
  goes : Text → AfterValue
  stops : Html.HtmlError → AfterValue

unfoldable pub after_quote : ℕ → Text → AfterValue
unfolding skip
after_quote quote raw = elim (skip (λ c. not (is_code quote c)) raw) [
  | [] ↦ stops Html.unterminated
  | _ ∷ rest ↦ goes rest
]

unfoldable pub after_equals : Text → AfterValue
unfolding skip after_quote
after_equals raw = elim (skip is_blank_code raw) [
  | [] ↦ stops Html.no_value
  | c ∷ rest ↦
      if is_code b'\'' c || is_code b'"' c
      then after_quote c rest
      else goes (skip (λ d. not (is_blank_code d || is_code b'>' d)) (c ∷ rest))
]

-- From behind the name.
unfoldable pub after_name : Text → AfterValue
unfolding skip after_equals
after_name raw = elim (skip is_blank_code raw) [
  | [] ↦ goes []
  | c ∷ rest ↦ if is_code b'=' c then after_equals rest else goes (c ∷ rest)
]

pub data Scan : Type 0 where
  fine out_of_fuel : Scan
  refused : Html.HtmlError → Scan

module _ (lower : Text → Text) where
  -- The outer loop, with the names that were seen. An attribute's name is not empty, so each turn
  -- reads a code.
  unfoldable pub scan : ℕ → List Text → Text → Scan
  unfolding skip taken after_name
  scan zero seen raw = out_of_fuel
  scan (suc fuel) seen raw = elim (skip (λ c. is_blank_code c || is_code b'/' c) raw) [
    | [] ↦ fine
    | c ∷ cs ↦
        let name = lower (taken (λ d. not (ends_name d)) (c ∷ cs)) in
        if is_code b'>' c
        then fine
        else if ends_name c
        then refused Html.empty_name
        else if has_text seen name
        then refused Html.repeated_attribute
        else elim (after_name (skip (λ d. not (ends_name d)) (c ∷ cs))) [
          | stops e ↦ refused e
          | goes rest ↦ scan fuel (name ∷ seen) rest
        ]
  ]

  -- The offset starts behind the `<`.
  unfoldable pub validate_raw_html_attribute_names : Text → Scan
  unfolding scan
  validate_raw_html_attribute_names [] = fine
  validate_raw_html_attribute_names (bracket ∷ rest) =
      scan (suc (length rest)) [] (skip (λ c. not (ends_tag_name c)) rest)

-- The loop over `TagAttr`.
unfoldable pub collect : Map String String → List (String × String) → Option (Map String String)
unfolding insert
collect attributes [] = some attributes
collect attributes ((key, value) ∷ rest) =
    let more = collect (insert text_dec key value attributes) rest in
    elim (lookup text_dec key attributes) [ some _ ↦ none | none ↦ more ]
