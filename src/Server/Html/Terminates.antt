-- ===== src/Server/Html/Terminates.antt =====
-- The walk over a page comes to its end.
use hoocloak.Base.{
  ◌≡◌, ◌≢◌, refl, subst, inl, inr, ℕ, zero, suc, ◌<◌, String, List, [], ◌∷◌, Bool, true, false,
  Option, none, some, arith, Option-cases, if◌then◌else◌,
}
use hoocloak.Base.Map.{Map}
use hoocloak.Config.Text.{Text}
use hoocloak.Server.Html
use hoocloak.Server.Html.{HtmlElementFrame, Token, Tokenizer, Step, HtmlError}
use hoocloak.Server.Html.Attributes
use hoocloak.Server.Html.Attributes.{
  collect, skip, taken, is_blank_code, Scan, validate_raw_html_attribute_names,
}
use hoocloak.Server.Html.Ends.{validate_raw_html_attribute_names-ends}
use hoocloak.Server.Html.Relative.{
  UrlText, Walker, Verdict, rejected, out_of_fuel, is_refused_element, Validated, tag, unusable,
  unfinished, validated_html_tag, enter_tag, walk_tag, read_token, next, element_verdict,
  step_scopes, walk, validate_realm_relative_urls,
}
use hoocloak.Server.Html.Sources.{is_refused_element-ends}

-- Each token is read from the input, as `xhtml.Tokenizer` promises.
pub record Progresses {T : Type 0} (tokenizer : Tokenizer T) : Type 0 where
  pub reads :
      (t : T)
      → (tokenizer.next t).0 ≢ Html.ended
      → (tokenizer.next t).0 ≢ Html.broken
      → tokenizer.left (tokenizer.next t).1 < tokenizer.left t
  pub keeps : (t : T) → tokenizer.left (tokenizer.not_raw t) ≡ tokenizer.left t

module _ {T : Type 0} (tokenizer : Tokenizer T) (p : Progresses tokenizer) (lower : Text → Text)
    (lower_string : String → String) where
  left_kept :
      (b : Bool) (t : T) → tokenizer.left (if b then tokenizer.not_raw t else t) ≡ tokenizer.left t
  left_kept true t = p.keeps t
  left_kept false t = refl

  enter_tag-left :
      (w : Walker T) (name : String) (attributes : Map String String) (closed : Bool)
      → tokenizer.left (enter_tag tokenizer lower lower_string w name attributes closed).1.at
        ≡ tokenizer.left w.at
  unfolding enter_tag
  enter_tag-left w name attributes closed = left_kept _ w.at

  opened_or_closed :
      (b : Bool) (name : String) (attributes : Map String String)
      → (if b then Html.opened name attributes else Html.closed_itself name attributes)
        ≢ Html.endless
  opened_or_closed true name attributes q = ground (arith, q)
  opened_or_closed false name attributes q = ground (arith, q)

  enter_tag-step :
      (w : Walker T) (name : String) (attributes : Map String String) (closed : Bool)
      → (enter_tag tokenizer lower lower_string w name attributes closed).0 ≢ Html.endless
  unfolding enter_tag
  enter_tag-step w name attributes closed = opened_or_closed _ name attributes

  validated :
      (scan : Scan) (found : Option (Map String String))
      → scan ≢ Attributes.out_of_fuel
      → (elim scan [
        | Attributes.refused e ↦ unusable e
        | Attributes.out_of_fuel ↦ unfinished
        | Attributes.fine ↦ elim found [ none ↦ unusable Html.repeated_attribute | some m ↦ tag m ]
      ])
        ≢ unfinished
  validated (Attributes.refused e) found h q = ground (arith, q)
  validated Attributes.out_of_fuel found h q = h refl
  validated Attributes.fine none h q = ground (arith, q)
  validated Attributes.fine (some m) h q = ground (arith, q)

  validated_html_tag-ends :
      (attributes : List (String × String)) (raw : Text)
      → validated_html_tag lower attributes raw ≢ unfinished
  unfolding validated_html_tag
  validated_html_tag-ends attributes raw =
      validated (validate_raw_html_attribute_names lower raw) (collect [] attributes)
        (validate_raw_html_attribute_names-ends lower raw)

  -- A token leaves what is to be read as it is, and is read to its end.
  record Kept (w : Walker T) (read : Step × Walker T) : Type 0 where
    pub left : tokenizer.left read.1.at ≡ tokenizer.left w.at
    pub ends : read.0 ≢ Html.endless

  tag-Kept :
      (v : Validated) (w : Walker T) (name : String) (closed : Bool)
      → v ≢ unfinished
      → Kept w (elim v [
        | unusable e ↦ (Html.stopped e, w)
        | unfinished ↦ (Html.endless, w)
        | tag found ↦ enter_tag tokenizer lower lower_string w name found closed
      ])
  tag-Kept (tag found) w name closed h = record {
    left = enter_tag-left w name found closed;
    ends = enter_tag-step w name found closed;
  }
  tag-Kept (unusable e) w name closed h = record { left = refl; ends = λ q. ground (arith, q) }
  tag-Kept unfinished w name closed h = absurd (h refl)

  walk_tag-Kept :
      (w : Walker T) (name : String) (attributes : List (String × String)) (raw : Text)
      (closed : Bool)
      → Kept w (walk_tag tokenizer lower lower_string w name attributes raw closed)
  unfolding walk_tag
  walk_tag-Kept w name attributes raw closed =
      tag-Kept (validated_html_tag lower attributes raw) w name closed
        (validated_html_tag-ends attributes raw)

  read_token-Kept :
      (token : Token) (w : Walker T) → Kept w (read_token tokenizer lower lower_string token w)
  unfolding read_token
  read_token-Kept Html.ended w = record { left = refl; ends = λ q. ground (arith, q) }
  read_token-Kept Html.broken w = record { left = refl; ends = λ q. ground (arith, q) }
  read_token-Kept Html.other w = record { left = refl; ends = λ q. ground (arith, q) }
  read_token-Kept (Html.start name attributes raw) w = walk_tag-Kept w name attributes raw false
  read_token-Kept (Html.self_closing name attributes raw) w =
      walk_tag-Kept w name attributes raw true
  read_token-Kept (Html.closing name) w = record { left = refl; ends = λ q. ground (arith, q) }

  module _ (read_url : Text → Option UrlText) where
    unless_inert :
        (inert : Bool) (x : Option Bool)
        → x ≢ none
        → (if inert then none else elim x [
          | none ↦ some out_of_fuel
          | some true ↦ some (rejected Html.root_relative)
          | some false ↦ none
        ])
          ≢ some out_of_fuel
    unless_inert true x h q = ground (arith, q)
    unless_inert false none h q = h refl
    unless_inert false (some true) h q = ground (arith, q)
    unless_inert false (some false) h q = ground (arith, q)

    element_verdict-ends :
        (scopes : List Bool) (attributes : Map String String)
        → element_verdict tokenizer lower lower_string read_url scopes attributes ≢ some out_of_fuel
    unfolding element_verdict
    element_verdict-ends scopes attributes =
        unless_inert _ (is_refused_element read_url attributes)
          (is_refused_element-ends read_url attributes)

    step_scopes-ends :
        (step : Step) (scopes : List Bool)
        → step ≢ Html.endless
        → (step_scopes tokenizer lower lower_string read_url step scopes).0 ≢ some out_of_fuel
    unfolding step_scopes
    step_scopes-ends Html.at_end scopes h q = ground (arith, q)
    step_scopes-ends Html.endless scopes h q = h refl
    step_scopes-ends (Html.stopped e) scopes h q = ground (arith, q)
    step_scopes-ends Html.passed scopes h q = ground (arith, q)
    step_scopes-ends (Html.ended_tag name) scopes h q = ground (arith, q)
    step_scopes-ends (Html.opened name attributes) scopes h q =
        ground (arith, q, element_verdict-ends scopes attributes)
    step_scopes-ends (Html.closed_itself name attributes) scopes h q =
        ground (arith, q, element_verdict-ends scopes attributes)

    decides : (token : Token) (w : Walker T) (scopes : List Bool) → Option Verdict
    decides token w scopes =
        (step_scopes tokenizer lower lower_string read_url
          (read_token tokenizer lower lower_string token w).0 scopes).0

    decides-ended :
        (token : Token) (w : Walker T) (scopes : List Bool)
        → decides token w scopes ≡ none
        → token ≢ Html.ended
    unfolding decides read_token step_scopes
    decides-ended token w scopes e q =
        absurd (ground (arith, subst (λ x. decides x w scopes ≡ none) q e))

    decides-broken :
        (token : Token) (w : Walker T) (scopes : List Bool)
        → decides token w scopes ≡ none
        → token ≢ Html.broken
    unfolding decides read_token step_scopes
    decides-broken token w scopes e q =
        absurd (ground (arith, subst (λ x. decides x w scopes ≡ none) q e))

    walk-ends :
        (fuel : ℕ) (w : Walker T) (scopes : List Bool)
        → tokenizer.left w.at < fuel
        → walk tokenizer lower lower_string read_url fuel w scopes ≢ out_of_fuel
    unfolding walk next decides
    walk-ends zero w scopes h q = omega (arith, h)
    walk-ends (suc fuel) w scopes h q =
        let (token, at) = tokenizer.next w.at in
        let moved : Walker T = record w { at = at } in
        let kept = read_token-Kept token moved in
        let read = read_token tokenizer lower lower_string token moved in
        let after = (step_scopes tokenizer lower lower_string read_url read.0 scopes).1 in
        elim (Option-cases (decides token moved scopes)) [
          | inr (v, f) ↦ ground (arith, q, f, step_scopes-ends read.0 scopes kept.ends)
          | inl f ↦
              let fewer =
                p.reads w.at (decides-ended token moved scopes f)
                  (decides-broken token moved scopes f) in
              walk-ends fuel read.1 after (omega (arith, h, kept.left, fewer))
                (ground (arith, q, f))
        ]

    -- The check of a rendered page for root-relative URLs comes to a verdict: with a tokenizer that
    -- reads on with every token, no loop over the page, over a tag's attributes or over a set of
    -- sources runs out of fuel.
    pub validate_realm_relative_urls-ends :
        (document : T)
        → validate_realm_relative_urls tokenizer lower lower_string read_url document ≢ out_of_fuel
    unfolding validate_realm_relative_urls
    validate_realm_relative_urls-ends document =
        walk-ends (suc (tokenizer.left document)) (record { at = document; stack = [] })
          (false ∷ []) (omega arith)
