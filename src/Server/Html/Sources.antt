-- ===== src/Server/Html/Sources.antt =====
-- The reading of source sets comes to its end, so each element of a page is decided.
use hoocloak.Base.{
  ◌≡◌, ◌≢◌, refl, ap, subst, ◌⊎◌, inl, inr, ℕ, zero, suc, ◌≤◌, ◌<◌, String, List, [], ◌∷◌, Bool,
  true, false, not, ◌||◌, Option, none, some, arith, length, Bool-cases, Option-cases,
  if◌then◌else◌,
}
use hoocloak.Base.Map.{Map}
use hoocloak.Config.Text.{Text, is_code}
use hoocloak.Server.Html.Attributes.{skip, is_blank_code}
use hoocloak.Server.Html.Ends.{length-skip}
use hoocloak.Server.Html.Relative.{
  UrlText, candidates, srcset_candidates, any_root_relative, element_urls, element_sources,
  element_lists, any_source, is_refused_element, drop_one,
}

List-cases : (xs : Text) → (xs ≡ []) ⊎ ((c : ℕ) × (cs : Text) × (xs ≡ c ∷ cs))
List-cases [] = inl refl
List-cases (c ∷ cs) = inr (c, cs, refl)

length-drop_one : (xs : Text) → length (drop_one xs) ≤ length xs
unfolding drop_one
length-drop_one [] = omega arith
length-drop_one (c ∷ cs) = omega arith

candidate_read :
    (c : ℕ) (cs : Text)
    → is_blank_code c ≡ false
    → length (skip (λ d. not (is_blank_code d)) (c ∷ cs)) ≤ length cs
unfolding skip
candidate_read c cs n = ground (arith, n, length-skip (λ d. not (is_blank_code d)) cs)

skip_stops :
    (test : ℕ → Bool) (xs : Text) (c : ℕ) (cs : Text) → skip test xs ≡ c ∷ cs → test c ≡ false
unfolding skip
skip_stops test [] c cs e = absurd (ground (arith, e))
skip_stops test (x ∷ xs) c cs e = elim (Bool-cases (test x)) [
  | inl y ↦ skip_stops test xs c cs (ground (arith, e, y))
  | inr n ↦ subst (λ d. test d ≡ false) (ground (arith, e, n)) n
]

candidates-ends : (fuel : ℕ) (value : Text) → length value < fuel → candidates fuel value ≢ none
unfolding candidates
candidates-ends zero value h q = omega (arith, h)
candidates-ends (suc fuel) value h q =
    let start = skip (λ c. is_code b',' c || is_blank_code c) value in
    elim (List-cases start) [
      | inl e ↦ ground (arith, q, e)
      | inr (c, cs, e) ↦
          let after = skip (λ d. not (is_blank_code d)) (c ∷ cs) in
          let rest = drop_one (skip (λ d. not (is_code b',' d)) after) in
          let plain : is_blank_code c ≡ false =
            ground (arith, skip_stops (λ x. is_code b',' x || is_blank_code x) value c cs e) in
          let shorter : length rest < fuel = omega (
            arith,
            h,
            length-drop_one (skip (λ d. not (is_code b',' d)) after),
            length-skip (λ d. not (is_code b',' d)) after,
            candidate_read c cs plain,
            length-skip (λ x. is_code b',' x || is_blank_code x) value,
            ap length e,
          ) in
          elim (Option-cases (candidates fuel rest)) [
            | inl f ↦ candidates-ends fuel rest shorter f
            | inr (more, f) ↦ ground (arith, q, e, f)
          ]
    ]

either_ends :
    (b f : Bool) (x : Option Bool)
    → x ≢ none
    → (if b
        then some true
        else elim x [ none ↦ none | some true ↦ some true | some false ↦ some f ])
      ≢ none
either_ends true f x h q = ground (arith, q)
either_ends false f none h q = h refl
either_ends false f (some true) h q = ground (arith, q)
either_ends false f (some false) h q = ground (arith, q)

module _ (read_url : Text → Option UrlText) where
  any_source-ends : (sources : List Text) → any_source read_url sources ≢ none
  unfolding any_source srcset_candidates
  any_source-ends [] q = ground (arith, q)
  any_source-ends (x ∷ xs) q = elim (Option-cases (candidates (suc (length x)) x)) [
    | inl e ↦ candidates-ends (suc (length x)) x (omega arith) e
    | inr (found, e) ↦ ground (arith, q, e, any_source-ends xs)
  ]

  pub is_refused_element-ends :
      (attributes : Map String String) → is_refused_element read_url attributes ≢ none
  unfolding is_refused_element
  is_refused_element-ends attributes =
      either_ends (any_root_relative read_url (element_urls read_url attributes))
        (any_root_relative read_url (element_lists read_url attributes))
        (any_source read_url (element_sources read_url attributes))
        (any_source-ends (element_sources read_url attributes))
