-- ===== src/Server/Html/Ends.antt =====
-- The loops over a tag's text come to their end.
use hoocloak.Base.{
  ◌≡◌, ◌≢◌, refl, ap, subst, ◌⊎◌, inl, inr, ℕ, zero, suc, ◌≤◌, ◌<◌, List, [], ◌∷◌, Bool, true,
  false, not, ◌||◌, arith, length, Bool-cases, if◌then◌else◌,
}
use hoocloak.Config.Text.{Text, is_code}
use hoocloak.Server.Html
use hoocloak.Server.Html.Attributes.{
  skip, taken, is_blank_code, ends_name, ends_tag_name, AfterValue, goes, stops, after_quote,
  after_equals, after_name, out_of_fuel, scan, validate_raw_html_attribute_names,
}
use hoocloak.Server.Origins.{has_text}

pub length-skip : (test : ℕ → Bool) (cs : Text) → length (skip test cs) ≤ length cs
unfolding skip
length-skip test [] = omega arith
length-skip test (c ∷ cs) = ground (arith, length-skip test cs)

-- What goes on is no longer than what was there.
abbrev Shrinks : AfterValue → Text → Type 0
Shrinks (goes rest) raw = length rest ≤ length raw
Shrinks (stops e) raw = Unit

quote-Shrinks : (quote : ℕ) (raw : Text) → Shrinks (after_quote quote raw) raw
unfolding after_quote
quote-Shrinks quote raw = from (skip (λ c. not (is_code quote c)) raw) (length-skip _ raw)
  where
    from :
        (cs : Text)
        → length cs ≤ length raw
        → Shrinks
            (elim cs as (λ x. AfterValue) [ [] ↦ stops Html.unterminated | _ ∷ rest ↦ goes rest ])
            raw
    from [] h = tt
    from (c ∷ cs) h = omega (arith, h)

if-Shrinks :
    (b : Bool) (x y : AfterValue) (raw : Text)
    → Shrinks x raw
    → Shrinks y raw
    → Shrinks (if b then x else y) raw
if-Shrinks true x y raw hx hy = hx
if-Shrinks false x y raw hx hy = hy

Shrinks-trans :
    (v : AfterValue) (mid raw : Text) → Shrinks v mid → length mid ≤ length raw → Shrinks v raw
Shrinks-trans (goes rest) mid raw h k = omega (arith, h, k)
Shrinks-trans (stops e) mid raw h k = tt

equals-Shrinks : (raw : Text) → Shrinks (after_equals raw) raw
unfolding after_equals
equals-Shrinks raw = from (skip is_blank_code raw) (length-skip is_blank_code raw)
  where
    from :
        (cs : Text)
        → length cs ≤ length raw
        → Shrinks
            (elim cs as (λ x. AfterValue) [
              | [] ↦ stops Html.no_value
              | c ∷ rest ↦
                  if is_code b'\'' c || is_code b'"' c
                  then after_quote c rest
                  else goes (skip (λ d. not (is_blank_code d || is_code b'>' d)) (c ∷ rest))
            ])
            raw
    from [] h = tt
    from (c ∷ cs) h =
        if-Shrinks _ _ (goes (skip (λ d. not (is_blank_code d || is_code b'>' d)) (c ∷ cs))) raw
          (Shrinks-trans (after_quote c cs) cs raw (quote-Shrinks c cs) (omega (arith, h)))
          (omega (arith, h, length-skip (λ d. not (is_blank_code d || is_code b'>' d)) (c ∷ cs)))

name-Shrinks : (raw : Text) → Shrinks (after_name raw) raw
unfolding after_name
name-Shrinks raw = from (skip is_blank_code raw) (length-skip is_blank_code raw)
  where
    from :
        (cs : Text)
        → length cs ≤ length raw
        → Shrinks
            (elim cs as (λ x. AfterValue) [
              | [] ↦ goes []
              | c ∷ rest ↦ if is_code b'=' c then after_equals rest else goes (c ∷ rest)
            ])
            raw
    from [] h = omega arith
    from (c ∷ cs) h =
        if-Shrinks _ _ (goes (c ∷ cs)) raw
          (Shrinks-trans (after_equals cs) cs raw (equals-Shrinks cs) (omega (arith, h))) h

-- A name that does not end at once is read.
name_read :
    (c : ℕ) (cs : Text)
    → ends_name c ≡ false
    → length (skip (λ d. not (ends_name d)) (c ∷ cs)) ≤ length cs
unfolding skip
name_read c cs n = ground (arith, n, length-skip (λ d. not (ends_name d)) cs)

List-cases : (xs : Text) → (xs ≡ []) ⊎ ((c : ℕ) × (cs : Text) × (xs ≡ c ∷ cs))
List-cases [] = inl refl
List-cases (c ∷ cs) = inr (c, cs, refl)

AfterValue-cases :
    (v : AfterValue) → ((rest : Text) × (v ≡ goes rest)) ⊎ ((e : Html.HtmlError) × (v ≡ stops e))
AfterValue-cases (goes rest) = inl (rest, refl)
AfterValue-cases (stops e) = inr (e, refl)

goes_on :
    (c : ℕ) (cs rest : Text)
    → ends_name c ≡ false
    → after_name (skip (λ d. not (ends_name d)) (c ∷ cs)) ≡ goes rest
    → length rest ≤ length cs
goes_on c cs rest n e =
    let after = skip (λ d. not (ends_name d)) (c ∷ cs) in
    let shrinks : length rest ≤ length after =
      subst (λ v. Shrinks v after) e (name-Shrinks after) in
    omega (arith, shrinks, name_read c cs n)

module _ (lower : Text → Text) where
  scan-ends :
      (fuel : ℕ) (seen : List Text) (raw : Text)
      → length raw < fuel
      → scan lower fuel seen raw ≢ out_of_fuel
  unfolding scan
  scan-ends zero seen raw h q = omega (arith, h)
  scan-ends (suc fuel) seen raw h q =
      let start = skip (λ c. is_blank_code c || is_code b'/' c) raw in
      elim (List-cases start) [
        | inl e ↦ ground (arith, q, e)
        | inr (c, cs, e) ↦ elim (Bool-cases (is_code b'>' c)) [
          | inl b ↦ ground (arith, q, e, b)
          | inr b ↦ elim (Bool-cases (ends_name c)) [
            | inl n ↦ ground (arith, q, e, b, n)
            | inr n ↦
                let name = lower (taken (λ d. not (ends_name d)) (c ∷ cs)) in
                elim (Bool-cases (has_text seen name)) [
                  | inl s ↦ ground (arith, q, e, b, n, s)
                  | inr s ↦
                      elim (AfterValue-cases
                        (after_name (skip (λ d. not (ends_name d)) (c ∷ cs)))) [
                          | inr (x, f) ↦ ground (arith, q, e, b, n, s, f)
                          | inl (rest, f) ↦
                              let shorter : length rest ≤ length cs = goes_on c cs rest n f in
                              let within : length start ≤ length raw = length-skip _ raw in
                              let total : length start ≡ suc (length cs) = ap length e in
                              scan-ends fuel (name ∷ seen) rest
                                (omega (arith, h, shorter, within, total))
                                (ground (arith, q, e, b, n, s, f))
                        ]
                ]
          ]
        ]
      ]

  -- The loop over a tag's text does not run out of fuel.
  pub validate_raw_html_attribute_names-ends :
      (raw : Text) → validate_raw_html_attribute_names lower raw ≢ out_of_fuel
  unfolding validate_raw_html_attribute_names
  validate_raw_html_attribute_names-ends [] q = ground (arith, q)
  validate_raw_html_attribute_names-ends (bracket ∷ rest) q =
      scan-ends (suc (length rest)) [] (skip (λ c. not (ends_tag_name c)) rest)
        (omega (arith, length-skip (λ c. not (ends_tag_name c)) rest)) q
