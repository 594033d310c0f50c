-- ===== src/Server/Html.antt =====
-- internal/idp/server.go: the walk over the HTML of a login page, `browserHTMLWalker`.
pub mod Attributes
pub mod Relative
pub mod Ends
pub mod Sources
pub mod Terminates
use hoocloak.Base.{
  ℕ, String, List, [], ◌∷◌, Bool, true, false, not, ◌&&◌, ◌||◌, Option, none, some, ◌==◌, contains,
  or_zero, text_dec, if◌then◌else◌,
}
use hoocloak.Base.Map.{Map, lookup}
use hoocloak.Config.Text.{Text}

pub data HtmlError : Type 0 where
  repeated_attribute empty_name no_value unterminated unparsed root_relative : HtmlError

-- What `xhtml.Tokenizer` finds; a tag has its attributes in order and its raw text.
pub data Token : Type 0 where
  ended broken other : Token
  start self_closing : String → List (String × String) → Text → Token
  closing : String → Token

-- The tokenizer: `Next`, and `NextIsNotRawText`; `left` is what it has still to read.
pub record Tokenizer (T : Type 0) : Type 0 where
  pub next : T → Token × T
  pub not_raw : T → T
  pub left : T → ℕ

pub data HtmlNs : Type 0 where
  html svg math : HtmlNs

pub record HtmlElementFrame : Type 0 where
  pub name : String
  pub namespace : HtmlNs
  pub integrates_html : Bool

abbrev breakout_names : List String
breakout_names =
    "b" ∷ "big" ∷ "blockquote" ∷ "body" ∷ "br" ∷ "center" ∷ "code" ∷ "dd" ∷ "div" ∷ "dl" ∷ "dt"
    ∷ "em" ∷ "embed" ∷ "form" ∷ "h1" ∷ "h2" ∷ "h3" ∷ "h4" ∷ "h5" ∷ "h6" ∷ "head" ∷ "hr" ∷ "i"
    ∷ "img" ∷ "li" ∷ "listing" ∷ "menu" ∷ "meta" ∷ "nobr" ∷ "ol" ∷ "p" ∷ "pre" ∷ "ruby" ∷ "s"
    ∷ "small" ∷ "span" ∷ "strong" ∷ "strike" ∷ "sub" ∷ "sup" ∷ "table" ∷ "tt" ∷ "u" ∷ "ul" ∷ "var"
    ∷ []

abbrev has_attribute : Map String String → String → Bool
has_attribute attributes key = elim (lookup text_dec key attributes) [
  | none ↦ false
  | some _ ↦ true
]

-- `attributes[key]`.
abbrev pub attribute : Map String String → String → String
attribute attributes key = or_zero (lookup text_dec key attributes) ""

unfoldable pub foreign_breakout_element : String → Map String String → Bool
foreign_breakout_element name attributes =
    contains breakout_names name
    || (name == "font"
        && (has_attribute attributes "color"
            || has_attribute attributes "face"
            || has_attribute attributes "size"))

unfoldable pub foreign_integration_point :
    (String → String) → HtmlNs → String → Map String String → Bool
foreign_integration_point lower html name attributes = false
foreign_integration_point lower svg name attributes =
    name == "foreignobject" || name == "desc" || name == "title"
foreign_integration_point lower math name attributes =
    name == "mi"
    || name == "mo"
    || name == "mn"
    || name == "ms"
    || name == "mtext"
    || (name == "annotation-xml"
        && (lower (attribute attributes "encoding") == "text/html"
            || lower (attribute attributes "encoding") == "application/xhtml+xml"))

unfoldable pub foreign_raw_text_element : String → Bool
foreign_raw_text_element name =
    contains
      ("title" ∷ "textarea" ∷ "style" ∷ "script" ∷ "xmp" ∷ "iframe" ∷ "noembed" ∷ "noframes"
        ∷ "noscript" ∷ "plaintext" ∷ [])
      name

unfoldable pub is_void_html_element : String → Bool
is_void_html_element name =
    contains
      ("area" ∷ "base" ∷ "br" ∷ "col" ∷ "embed" ∷ "hr" ∷ "img" ∷ "input" ∷ "link" ∷ "meta"
        ∷ "source" ∷ "track" ∷ "wbr" ∷ [])
      name

-- The stack of open elements, the last one first.
unfoldable pub current_namespace : List HtmlElementFrame → HtmlNs
current_namespace [] = html
current_namespace (frame ∷ rest) = if frame.integrates_html then html else frame.namespace

-- Closes the last element with the name, and those in it.
unfoldable pub close : String → List HtmlElementFrame → Option (List HtmlElementFrame)
close name [] = none
close name (frame ∷ rest) =
    let below = close name rest in if frame.name == name then some rest else below

-- The stack as it is where no element has the name.
unfoldable pub close_element : String → List HtmlElementFrame → List HtmlElementFrame
unfolding close
close_element name stack = or_zero (close name stack) stack

abbrev pub is_html : HtmlNs → Bool
is_html html = true
is_html _ = false

-- The namespace of a new element, and the stack that it is put on.
unfoldable pub break_out :
    List HtmlElementFrame → String → Map String String → HtmlNs × List HtmlElementFrame
unfolding current_namespace foreign_breakout_element
break_out stack name attributes =
    let namespace = current_namespace stack in
    if not (is_html namespace) && foreign_breakout_element name attributes
    then (html, [])
    else (namespace, stack)

unfoldable pub push :
    (String → String)
    → HtmlNs
    → String
    → Map String String
    → List HtmlElementFrame
    → List HtmlElementFrame
unfolding foreign_integration_point
push lower html name attributes stack =
    if name == "svg"
    then record { name = name; namespace = svg; integrates_html = false } ∷ stack
    else if name == "math"
    then record { name = name; namespace = math; integrates_html = false } ∷ stack
    else stack
push lower namespace name attributes stack =
    record {
      name = name;
      namespace = namespace;
      integrates_html = foreign_integration_point lower namespace name attributes;
    }
    ∷ stack

-- Is the tag self-closing for a browser?
unfoldable pub stays_closed : HtmlNs → String → Bool
unfolding is_void_html_element
stays_closed namespace name =
    not (is_html namespace) || name == "svg" || name == "math" || is_void_html_element name

-- What `next` gives: the tag, or what ends the walk.
pub data Step : Type 0 where
  at_end endless : Step
  stopped : HtmlError → Step
  passed : Step
  opened closed_itself : String → Map String String → Step
  ended_tag : String → Step
