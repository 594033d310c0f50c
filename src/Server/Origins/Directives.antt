-- ===== src/Server/Origins/Directives.antt =====
-- The directives of the policy that internal/idp/server.go sends with a realm's pages.
use mathlib.Core.List.{append-nil}
use hoocloak.Base.{
  ◌≡◌, refl, ap, ◌∙◌, ◌⊎◌, inl, inr, ℕ, String, List, [], ◌∷◌, ◌++◌, Bool, true, not, some, arith,
  Bool-cases, Option-cases, if◌then◌else◌, ◌==◌,
}
use hoocloak.Config.{ClientConfig, Realm, client_type_spa}
use hoocloak.Config.Text.{Text, codes, is_code, all_codes, split}
use hoocloak.Config.Url.{Net}
use hoocloak.Server.Sorted.{text_ltb, insert_sorted, sort}
use hoocloak.Server.Origins.{
  Origin, OriginError, origin, refused, canonical_redirect_origin, has_text, redirect_keys,
  client_redirect_keys, configured_redirect_origins, join, page_policy,
}
use hoocloak.Server.Origins.Policy.{
  is_origin_code, IsAddressReader, all_texts, all_codes-append, all_texts-weaken, split-parts,
  canonical_redirect_origin-Origin,
}

-- The last of the first parts goes on with the first of the others.
glue : List Text → List Text → List Text
glue [] qs = qs
glue (p ∷ []) [] = p ∷ []
glue (p ∷ []) (q ∷ qs) = (p ++ q) ∷ qs
glue (p ∷ p' ∷ ps) qs = p ∷ glue (p' ∷ ps) qs

split_step :
    (d c : ℕ) (cs ys p : Text) (ps : List Text) (q : Text) (qs : List Text)
    → split d cs ≡ p ∷ ps
    → split d ys ≡ q ∷ qs
    → split d (cs ++ ys) ≡ glue (p ∷ ps) (q ∷ qs)
    → split d (c ∷ (cs ++ ys)) ≡ glue (split d (c ∷ cs)) (split d ys)
unfolding split glue
split_step d c cs ys p [] q qs e f g = ground (arith, e, f, g)
split_step d c cs ys p (p' ∷ ps) q qs e f g = ground (arith, e, f, g)

split-append : (d : ℕ) (xs ys : Text) → split d (xs ++ ys) ≡ glue (split d xs) (split d ys)
unfolding split glue
split-append d [] ys = let (q, qs, e) = split-parts d ys in ground (arith, e)
split-append d (c ∷ cs) ys =
    let (p, ps, e) = split-parts d cs in
    let (q, qs, f) = split-parts d ys in
    split_step d c cs ys p ps q qs e f (ground (arith, split-append d cs ys, e, f))

-- A text without the separator is one part.
split-plain :
    (d : ℕ) (xs : Text) → all_codes (λ c. not (is_code c d)) xs ≡ true → split d xs ≡ xs ∷ []
unfolding split
split-plain d [] e = refl
split-plain d (c ∷ cs) e = ground (arith, e, split-plain d cs)

separator-split :
    (d : ℕ) (xs y : Text) (ys : List Text) → split d xs ≡ y ∷ ys → split d (d ∷ xs) ≡ [] ∷ y ∷ ys
unfolding split
separator-split d xs y ys e = ground (arith, e)

glued :
    (x y : Text) (ys ps qs : List Text) → ps ≡ x ∷ [] → qs ≡ [] ∷ y ∷ ys → glue ps qs ≡ x ∷ y ∷ ys
unfolding glue
glued x y ys ps qs e f = ground (arith, e, f, append-nil x)

-- What is joined by a separator is split by it again.
split-join :
    (xs : List Text) (x : Text)
    → all_texts (λ c. not (is_code c b' ')) (x ∷ xs) ≡ true
    → split b' ' (join (x ∷ xs)) ≡ x ∷ xs
unfolding join
split-join [] x e = split-plain b' ' x (ground (arith, e))
split-join (y ∷ ys) x e =
    let tail : split b' ' (b' ' ∷ join (y ∷ ys)) ≡ [] ∷ y ∷ ys =
      separator-split b' ' (join (y ∷ ys)) y ys (split-join ys y (ground (arith, e))) in
    split-append b' ' x (b' ' ∷ join (y ∷ ys))
    ∙ glued x y ys (split b' ' x) (split b' ' (b' ' ∷ join (y ∷ ys)))
        (split-plain b' ' x (ground (arith, e))) tail

Origin-cases : (o : Origin) → ((x : Text) × (o ≡ origin x)) ⊎ ((e : OriginError) × (o ≡ refused e))
Origin-cases (origin x) = inl (x, refl)
Origin-cases (refused e) = inr (e, refl)

module _ (net : Net) (is_ip : Text → Bool) (reads : IsAddressReader net is_ip) where
  redirect_keys-Origin :
      (seen : List Text) (raws : List String) (keys : List Text)
      → all_texts is_origin_code seen ≡ true
      → redirect_keys net is_ip seen raws ≡ some keys
      → all_texts is_origin_code keys ≡ true
  unfolding redirect_keys
  redirect_keys-Origin seen [] keys h e = ground (arith, h, e)
  redirect_keys-Origin seen (raw ∷ rest) keys h e =
      elim (Origin-cases (canonical_redirect_origin net is_ip raw)) [
        | inr (x, f) ↦ absurd (ground (arith, e, f))
        | inl (x, f) ↦
            redirect_keys-Origin (if has_text seen x then seen else x ∷ seen) rest keys
              (ground (arith, h, canonical_redirect_origin-Origin net is_ip reads raw x f))
              (ground (arith, e, f))
      ]

  client_redirect_keys-Origin :
      (seen : List Text) (cs : List ClientConfig) (keys : List Text)
      → all_texts is_origin_code seen ≡ true
      → client_redirect_keys net is_ip seen cs ≡ some keys
      → all_texts is_origin_code keys ≡ true
  unfolding client_redirect_keys
  client_redirect_keys-Origin seen [] keys h e = ground (arith, h, e)
  client_redirect_keys-Origin seen (c ∷ rest) keys h e =
      elim (Bool-cases (c.type == client_type_spa)) [
        | inr n ↦ client_redirect_keys-Origin seen rest keys h (ground (arith, e, n))
        | inl y ↦ elim (Option-cases (redirect_keys net is_ip seen c.redirect_uris)) [
          | inl f ↦ absurd (ground (arith, e, y, f))
          | inr (more, f) ↦
              client_redirect_keys-Origin more rest keys
                (redirect_keys-Origin seen c.redirect_uris more h f) (ground (arith, e, y, f))
        ]
      ]

insert_sorted-kept :
    (test : ℕ → Bool) (x : Text) (xs : List Text)
    → all_codes test x ≡ true
    → all_texts test xs ≡ true
    → all_texts test (insert_sorted text_ltb x xs) ≡ true
unfolding insert_sorted
insert_sorted-kept test x [] hx h = ground (arith, hx)
insert_sorted-kept test x (y ∷ ys) hx h = ground (arith, hx, h, insert_sorted-kept test x ys hx)

sort-kept :
    (test : ℕ → Bool) (xs : List Text)
    → all_texts test xs ≡ true
    → all_texts test (sort text_ltb xs) ≡ true
unfolding sort
sort-kept test [] h = refl
sort-kept test (x ∷ xs) h =
    insert_sorted-kept test x (sort text_ltb xs) (ground (arith, h))
      (sort-kept test xs (ground (arith, h)))

-- A visit of the keys of a map adds none.
abbrev pub Keeps : (List Text → List Text) → Type 0
Keeps range =
    (test : ℕ → Bool) (keys : List Text)
    → all_texts test keys ≡ true
    → all_texts test (range keys) ≡ true

module _ (net : Net) (is_ip : Text → Bool) (reads : IsAddressReader net is_ip) where
  configured_redirect_origins-Origin :
      (range : List Text → List Text) (realm : Realm) (origins : List Text)
      → Keeps range
      → configured_redirect_origins net is_ip range realm ≡ some origins
      → all_texts is_origin_code origins ≡ true
  unfolding configured_redirect_origins
  configured_redirect_origins-Origin range realm origins k e =
      elim (Option-cases (client_redirect_keys net is_ip [] realm.clients)) [
        | inl f ↦ absurd (ground (arith, e, f))
        | inr (keys, f) ↦ ground (
          arith,
          e,
          f,
          sort-kept is_origin_code (range keys) (
              k is_origin_code keys
                (client_redirect_keys-Origin net is_ip reads [] realm.clients keys refl f)),
        )
      ]

-- The sources of the forms' directive.
abbrev pub sources : List Text → List Text
sources origins = codes "'self'" ∷ origins

-- The directives of a page's policy.
abbrev pub directives : List Text → List Text
directives origins =
    codes "default-src 'none'"
    ∷ codes " script-src 'self'"
    ∷ codes " style-src 'self'"
    ∷ codes " img-src 'self' data:"
    ∷ codes " font-src 'self'"
    ∷ (codes " form-action " ++ join (sources origins))
    ∷ codes " base-uri 'none'"
    ∷ codes " frame-ancestors 'none'"
    ∷ []

all_codes-join :
    (test : ℕ → Bool) (xs : List Text)
    → test b' ' ≡ true
    → all_texts test xs ≡ true
    → all_codes test (join xs) ≡ true
unfolding join
all_codes-join test [] t e = refl
all_codes-join test (x ∷ []) t e = ground (arith, e)
all_codes-join test (x ∷ y ∷ ys) t e =
    ground
      (arith, t, e, all_codes-append test x (b' ' ∷ join (y ∷ ys)), all_codes-join test (y ∷ ys) t)

-- The text before the sources, and the text after them.
abbrev policy_head : Text
policy_head =
    codes
      "default-src 'none'; script-src 'self'; style-src 'self'; img-src 'self' data:; font-src 'self'; form-action "

abbrev policy_tail : Text
policy_tail = codes "; base-uri 'none'; frame-ancestors 'none'"

split-policy :
    (listed : Text)
    → split b';' listed ≡ listed ∷ []
    → split b';' (policy_head ++ listed ++ policy_tail)
      ≡ glue (glue (split b';' policy_head) (listed ∷ [])) (split b';' policy_tail)
split-policy listed e =
    split-append b';' (policy_head ++ listed) policy_tail
    ∙ ap (λ z. glue z (split b';' policy_tail))
        (split-append b';' policy_head listed ∙ ap (glue (split b';' policy_head)) e)

split-page_policy :
    (origins : List Text)
    → all_codes (λ c. not (is_code c b';')) (join (sources origins)) ≡ true
    → split b';' (page_policy origins) ≡ directives origins
unfolding page_policy split glue
split-page_policy origins e =
    let listed = join (sources origins) in
    split-policy listed (split-plain b';' listed e)
    ∙ ap
        (λ (t : Text).
          codes "default-src 'none'"
          ∷ codes " script-src 'self'"
          ∷ codes " style-src 'self'"
          ∷ codes " img-src 'self' data:"
          ∷ codes " font-src 'self'"
          ∷ t
          ∷ codes " base-uri 'none'"
          ∷ codes " frame-ancestors 'none'"
          ∷ [])
        (append-nil (codes " form-action " ++ listed))

-- No redirect URI of a configuration can change the policy of the pages: read at its semicolons,
-- the policy has the fixed directives and one form-action, whose sources, read at the spaces, are
-- 'self' and the configured origins; net.ParseIP is taken to read only addresses, and the visit of
-- a map to keep what all its keys have.
pub page_policy-directives :
    (net : Net) (is_ip : Text → Bool) (range : List Text → List Text) (realm : Realm)
    (origins : List Text)
    → IsAddressReader net is_ip
    → Keeps range
    → configured_redirect_origins net is_ip range realm ≡ some origins
    → (split b';' (page_policy origins) ≡ directives origins)
      × (split b' ' (join (sources origins)) ≡ sources origins)
page_policy-directives net is_ip range realm origins reads k e =
    let safe = configured_redirect_origins-Origin net is_ip reads range realm origins k e in
    let closed : all_texts (λ c. not (is_code c b';')) (sources origins) ≡ true =
      all_texts-weaken is_origin_code (λ c. not (is_code c b';')) origins (λ c h. ground (arith, h))
        safe in
    let spaced : all_texts (λ c. not (is_code c b' ')) (sources origins) ≡ true =
      all_texts-weaken is_origin_code (λ c. not (is_code c b' ')) origins (λ c h. ground (arith, h))
        safe in
    (
      split-page_policy origins
          (all_codes-join (λ c. not (is_code c b';')) (sources origins) refl closed),
      split-join origins (codes "'self'") spaced,
    )
