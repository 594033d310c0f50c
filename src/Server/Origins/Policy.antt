-- ===== src/Server/Origins/Policy.antt =====
-- A redirect URI cannot change the Content-Security-Policy of internal/idp/server.go.
use hoocloak.Base.{
  ◌≡◌, refl, ap, subst, ◌⊎◌, inl, inr, ℕ, String, List, [], ◌∷◌, ◌++◌, Bool, true, ◌&&◌, ◌||◌, none,
  arith, Bool-cases, Option-cases, ◌then◌,
}
use hoocloak.Config.Text.{Text, codes, is_code, has_code, all_codes, split, drop_suffix}
use hoocloak.Config.Url.{Net, Url, Parsed, parsed, invalid_port, malformed}
use hoocloak.Server.Origins.{
  valid_port, port_suffix, Origin, origin, refused, no_host, is_host_code, check_characters,
  check_labels, canonical_ip_origin, canonical_name_origin, canonical_url_origin,
  canonical_redirect_origin,
}
use hoocloak.Server.Origins.Port.{is_digit, valid_port-exact}

-- The codes of an origin; none of them ends a directive or a source.
abbrev pub is_origin_code : ℕ → Bool
is_origin_code c =
    is_host_code c
    || is_code b'.' c
    || is_code b':' c
    || is_code b'/' c
    || is_code b'[' c
    || is_code b']' c

-- What `net.ParseIP` reads is an address in lower or upper case, with neither a zone nor a port.
abbrev pub IsAddressReader : Net → (Text → Bool) → Type 0
IsAddressReader net is_ip =
    (t : Text) → is_ip t ≡ true → all_codes is_origin_code (net.to_lower t) ≡ true

pub all_codes-append :
    (test : ℕ → Bool) (xs ys : Text)
    → all_codes test (xs ++ ys) ≡ all_codes test xs && all_codes test ys
all_codes-append test [] ys = refl
all_codes-append test (x ∷ xs) ys = ground (arith, all_codes-append test xs ys)

all_codes-weaken :
    (test more : ℕ → Bool) (xs : Text)
    → ((c : ℕ) → test c ≡ true → more c ≡ true)
    → all_codes test xs ≡ true
    → all_codes more xs ≡ true
all_codes-weaken test more [] h e = refl
all_codes-weaken test more (x ∷ xs) h e = ground (arith, h x, all_codes-weaken test more xs h)

is_code-eq : (a b : ℕ) → is_code a b ≡ true → a ≡ b
is_code-eq a b e = ground (arith, e)

characters-Host :
    (label : Text) → check_characters label ≡ none → all_codes is_host_code label ≡ true
unfolding check_characters
characters-Host [] e = refl
characters-Host (c ∷ cs) e = ground (arith, characters-Host cs)

abbrev pub all_texts : (ℕ → Bool) → List Text → Bool
all_texts test [] = true
all_texts test (x ∷ xs) = all_codes test x && all_texts test xs

labels-Host :
    (labels : List Text) → check_labels labels ≡ none → all_texts is_host_code labels ≡ true
unfolding check_labels ◌then◌
labels-Host [] e = refl
labels-Host (label ∷ rest) e =
    let here : check_characters label ≡ none = ground (arith, e) in
    let more : check_labels rest ≡ none = ground (arith, e) in
    ground (arith, characters-Host label here, labels-Host rest more)

-- A text has a first part.
pub split-parts :
    (d : ℕ) (xs : Text) → (part : Text) × (rest : List Text) × (split d xs ≡ part ∷ rest)
unfolding split
split-parts d [] = ([], [], refl)
split-parts d (c ∷ cs) =
    let (part, rest, e) = split-parts d cs in
    elim (Bool-cases (is_code c d)) [
      | inl y ↦ ([], part ∷ rest, ground (arith, e, y))
      | inr n ↦ (c ∷ part, rest, ground (arith, e, n))
    ]

all_codes-split :
    (test : ℕ → Bool) (d : ℕ) (xs : Text)
    → test d ≡ true
    → all_texts test (split d xs) ≡ true
    → all_codes test xs ≡ true
unfolding split
all_codes-split test d [] t e = refl
all_codes-split test d (c ∷ cs) t e =
    let (part, rest, f) = split-parts d cs in
    elim (Bool-cases (is_code c d)) [
      | inl y ↦ ground (arith, e, f, y, t, ap test (is_code-eq c d y), all_codes-split test d cs t)
      | inr n ↦ ground (arith, e, f, n, all_codes-split test d cs t)
    ]

pub all_texts-weaken :
    (test more : ℕ → Bool) (xs : List Text)
    → ((c : ℕ) → test c ≡ true → more c ≡ true)
    → all_texts test xs ≡ true
    → all_texts more xs ≡ true
all_texts-weaken test more [] h e = refl
all_texts-weaken test more (x ∷ xs) h e =
    ground (arith, e, all_codes-weaken test more x h, all_texts-weaken test more xs h)

suffix-Origin :
    (scheme : String) (port : Text)
    → valid_port port ≡ true
    → all_codes is_origin_code (port_suffix scheme port) ≡ true
unfolding port_suffix
suffix-Origin scheme port e = ground (
  arith,
  valid_port-exact port,
  e,
  all_codes-weaken is_digit is_origin_code port (λ c h. ground (arith, h)),
)

-- A scheme of the web.
abbrev IsWeb : String → Type 0
IsWeb scheme = (scheme ≡ "http") ⊎ (scheme ≡ "https")

scheme-Origin : (scheme : String) → IsWeb scheme → all_codes is_origin_code (codes scheme) ≡ true
scheme-Origin scheme (inl e) = ap (λ t. all_codes is_origin_code (codes t)) e
scheme-Origin scheme (inr e) = ap (λ t. all_codes is_origin_code (codes t)) e

append-Origin :
    (a b : Text)
    → all_codes is_origin_code a ≡ true
    → all_codes is_origin_code b ≡ true
    → all_codes is_origin_code (a ++ b) ≡ true
append-Origin a b ha hb = ground (arith, all_codes-append is_origin_code a b, ha, hb)

-- Four parts.
whole-Origin :
    (a b c d : Text)
    → all_codes is_origin_code a ≡ true
    → all_codes is_origin_code b ≡ true
    → all_codes is_origin_code c ≡ true
    → all_codes is_origin_code d ≡ true
    → all_codes is_origin_code (a ++ b ++ c ++ d) ≡ true
whole-Origin a b c d ha hb hc hd =
    append-Origin (a ++ b ++ c) d (append-Origin (a ++ b) c (append-Origin a b ha hb) hc) hd

module _ (net : Net) (is_ip : Text → Bool) (reads : IsAddressReader net is_ip) where
  ip_origin :
      (u : Url) (x : Text)
      → IsWeb u.scheme
      → canonical_ip_origin net is_ip u ≡ origin x
      → all_codes is_origin_code x ≡ true
  unfolding canonical_ip_origin
  ip_origin u x s e = elim (Bool-cases (is_ip u.hostname)) [
    | inr n ↦ absurd (ground (arith, e, n))
    | inl y ↦ elim (Bool-cases (valid_port u.port)) [
      | inr n ↦ absurd (ground (arith, e, y, n))
      | inl v ↦
          let host = net.to_lower u.hostname in
          let text =
            codes u.scheme ++ codes "://[" ++ host ++ codes "]" ++ port_suffix u.scheme u.port in
          subst (λ t. all_codes is_origin_code t ≡ true) {x = text} {y = x}
            (ground (arith, e, y, v))
            (whole-Origin (codes u.scheme ++ codes "://[") host (codes "]")
              (port_suffix u.scheme u.port)
              (append-Origin (codes u.scheme) (codes "://[") (scheme-Origin u.scheme s) refl)
              (reads u.hostname y) refl (suffix-Origin u.scheme u.port v))
    ]
  ]

  name_origin :
      (u : Url) (x : Text)
      → IsWeb u.scheme
      → canonical_name_origin net is_ip u ≡ origin x
      → all_codes is_origin_code x ≡ true
  unfolding canonical_name_origin
  name_origin u x s e =
      elim (Option-cases (net.to_ascii (drop_suffix (codes ".") (net.to_lower u.hostname)))) [
        | inl f ↦ absurd (ground (arith, e, f))
        | inr (ascii, f) ↦ elim (Option-cases (check_labels (split b'.' ascii))) [
          | inr (y, g) ↦ absurd (ground (arith, e, f, g))
          | inl g ↦ elim (Bool-cases (valid_port u.port)) [
            | inr n ↦ absurd (ground (arith, e, f, g, n))
            | inl v ↦
                let text = codes u.scheme ++ codes "://" ++ ascii ++ port_suffix u.scheme u.port in
                subst (λ t. all_codes is_origin_code t ≡ true) {x = text} {y = x}
                  (ground (arith, e, f, g, v))
                  (whole-Origin (codes u.scheme) (codes "://") ascii (port_suffix u.scheme u.port)
                    (scheme-Origin u.scheme s) refl
                    (all_codes-split is_origin_code b'.' ascii refl (
                      all_texts-weaken is_host_code is_origin_code (split b'.' ascii)
                        (λ c h. ground (arith, h)) (labels-Host (split b'.' ascii) g)))
                    (suffix-Origin u.scheme u.port v))
          ]
        ]
      ]

  url_origin :
      (u : Url) (x : Text)
      → canonical_url_origin net is_ip u ≡ origin x
      → all_codes is_origin_code x ≡ true
  unfolding canonical_url_origin
  url_origin u x e =
      let web : IsWeb u.scheme = ground (arith, e) in
      elim (Bool-cases (has_code b':' u.hostname)) [
        | inl y ↦ ip_origin u x web (ground (arith, e, y))
        | inr n ↦ name_origin u x web (ground (arith, e, n))
      ]

  pub canonical_redirect_origin-Origin :
      (raw : String) (x : Text)
      → canonical_redirect_origin net is_ip raw ≡ origin x
      → all_codes is_origin_code x ≡ true
  unfolding canonical_redirect_origin
  canonical_redirect_origin-Origin raw x e = parsed_origin (net.parse raw) e
    where
      parsed_origin :
          (p : Parsed)
          → (elim p as (λ q. Origin) [
            | invalid_port ↦ refused no_host
            | malformed ↦ refused no_host
            | parsed u ↦ canonical_url_origin net is_ip u
          ])
            ≡ origin x
          → all_codes is_origin_code x ≡ true
      parsed_origin invalid_port h = absurd (ground (arith, h))
      parsed_origin malformed h = absurd (ground (arith, h))
      parsed_origin (parsed u) h = url_origin u x h
