-- ===== src/Config/Text.antt =====
-- What internal/config/config.go uses of Go's `strings`, on the characters of a text.
use Prim.Native.Char.{code}
use hoocloak.Base.{
  ◌≡◌, refl, ℕ, zero, suc, ◌*◌, Option, none, some, ◌+◌, ◌-◌, ◌/◌, ◌%◌, String, List, [], ◌∷◌, Bool,
  true, false, ◌&&◌, ◌||◌, ltb, leb, if◌then◌else◌,
}

-- The code points of a text, which are its bytes if it is ASCII.
abbrev pub codes : String → List ℕ
codes String.[] = []
codes (String.◌∷◌ c s) = code c ∷ codes s

abbrev pub Text : Type 0
Text = List ℕ

abbrev pub between : ℕ → ℕ → ℕ → Bool
between low high c = leb low c && leb c high

abbrev pub is_code : ℕ → ℕ → Bool
is_code a b = leb a b && leb b a

-- `unicode.IsSpace`.
unfoldable pub is_space : ℕ → Bool
is_space c =
    between 0x09 0x0d c
    || is_code 0x20 c
    || is_code 0x85 c
    || is_code 0xa0 c
    || is_code 0x1680 c
    || between 0x2000 0x200a c
    || between 0x2028 0x2029 c
    || is_code 0x202f c
    || is_code 0x205f c
    || is_code 0x3000 c

unfoldable pub trim_left : String → String
trim_left String.[] = String.[]
trim_left (String.◌∷◌ c s) =
    let rest = trim_left s in if is_space (code c) then rest else String.◌∷◌ c s

abbrev pub is_blank : String → Bool
is_blank String.[] = true
is_blank (String.◌∷◌ _ _) = false

unfoldable pub trim_right : String → String
trim_right String.[] = String.[]
trim_right (String.◌∷◌ c s) =
    let rest = trim_right s in
    if is_space (code c) && is_blank rest then String.[] else String.◌∷◌ c rest

-- `strings.TrimSpace`.
unfoldable pub trim_space : String → String
unfolding trim_left trim_right is_space
trim_space s = trim_right (trim_left s)

-- `CanonicalUsername`; `fold` is `cases.Fold`.
abbrev pub canonical_username : (String → String) → String → String
canonical_username fold name = fold (trim_space name)

-- The parts of a text between its spaces, some of them empty.
between_spaces : String → List String
unfolding is_space
between_spaces String.[] = "" ∷ []
between_spaces (String.◌∷◌ c s) = elim (between_spaces s) [
  | [] ↦ []
  | part ∷ rest ↦ if is_space (code c) then "" ∷ part ∷ rest else String.◌∷◌ c part ∷ rest
]

drop_blank : List String → List String
drop_blank [] = []
drop_blank (part ∷ rest) = let kept = drop_blank rest in if is_blank part then kept else part ∷ kept

-- `strings.Fields`.
unfoldable pub fields : String → List String
unfolding between_spaces drop_blank
fields s = drop_blank (between_spaces s)

scopes : fields " openid  read " ≡ "openid" ∷ "read" ∷ []
unfolding fields
scopes = refl

-- Does every code satisfy the test?
abbrev pub all_codes : (ℕ → Bool) → List ℕ → Bool
all_codes test [] = true
all_codes test (c ∷ cs) = test c && all_codes test cs

-- `strings.Split` at one character.
unfoldable pub split : ℕ → Text → List Text
split separator [] = [] ∷ []
split separator (c ∷ cs) = elim (split separator cs) [
  | [] ↦ []
  | part ∷ rest ↦ if is_code c separator then [] ∷ part ∷ rest else (c ∷ part) ∷ rest
]

-- A digit as `strconv.FormatUint` writes it.
abbrev pub digit_code : ℕ → ℕ
digit_code n = if ltb n 10 then b'0' + n else b'a' + (n - 10)

-- `strconv.FormatUint`: the digits, on fuel.
unfoldable pub format_digits : ℕ → ℕ → ℕ → Text → Text
format_digits zero base n tail = tail
format_digits (suc fuel) base n tail =
    let more = format_digits fuel base (n / base) (digit_code (n % base) ∷ tail) in
    if ltb n base then digit_code n ∷ tail else more

-- Twenty digits are enough for 64 bits in base ten, and for what is written in base 16.
unfoldable pub format : ℕ → ℕ → Text
unfolding format_digits
format base n = format_digits 20 base n []

abbrev pub same : Text → Text → Bool
same [] [] = true
same [] (_ ∷ _) = false
same (_ ∷ _) [] = false
same (c ∷ cs) (d ∷ ds) = is_code c d && same cs ds

abbrev pub has_code : ℕ → Text → Bool
has_code d [] = false
has_code d (c ∷ cs) = is_code c d || has_code d cs

-- `strings.HasSuffix`.
unfoldable pub has_suffix : Text → Text → Bool
has_suffix suffix [] = same [] suffix
has_suffix suffix (c ∷ cs) = same (c ∷ cs) suffix || has_suffix suffix cs

-- `strings.TrimSuffix`.
unfoldable pub drop_suffix : Text → Text → Text
drop_suffix suffix [] = []
drop_suffix suffix (c ∷ cs) =
    let rest = drop_suffix suffix cs in if same (c ∷ cs) suffix then [] else c ∷ rest

-- `strings.TrimRight` of one character.
unfoldable pub trim_end : ℕ → Text → Text
trim_end d [] = []
trim_end d (c ∷ cs) =
    let rest = trim_end d cs in if is_code c d && same rest [] then [] else c ∷ rest

-- `strings.HasPrefix` and `strings.TrimPrefix`.
unfoldable pub has_prefix : String → String → Bool
has_prefix String.[] s = true
has_prefix (String.◌∷◌ c p) String.[] = false
has_prefix (String.◌∷◌ c p) (String.◌∷◌ d s) = is_code (code c) (code d) && has_prefix p s

rest_after : String → String → String
rest_after String.[] s = s
rest_after (String.◌∷◌ c p) String.[] = String.[]
rest_after (String.◌∷◌ c p) (String.◌∷◌ d s) = rest_after p s

unfoldable pub trim_prefix : String → String → String
unfolding has_prefix rest_after
trim_prefix p s = if has_prefix p s then rest_after p s else s

-- What `strings.Cut` gives before the character.
unfoldable pub before : ℕ → Text → Text
before d [] = []
before d (c ∷ cs) = let rest = before d cs in if is_code c d then [] else c ∷ rest

unfoldable pub read_decimal : Text → ℕ → Option ℕ
read_decimal [] n = some n
read_decimal (c ∷ cs) n =
    let rest = read_decimal cs (n * 10 + (c - b'0')) in if between b'0' b'9' c then rest else none

-- `strconv.Atoi`, whose callers refuse negative numbers as they refuse 0, and numbers past
-- 65535 as they refuse those that do not fit.
unfoldable pub atoi : Text → Option ℕ
unfolding read_decimal
atoi [] = none
atoi (c ∷ []) = read_decimal (c ∷ []) 0
atoi (c ∷ d ∷ ds) =
    if is_code c b'+'
    then read_decimal (d ∷ ds) 0
    else if is_code c b'-'
    then elim (read_decimal (d ∷ ds) 0) [ none ↦ none | some _ ↦ some 0 ]
    else read_decimal (c ∷ d ∷ ds) 0

padded : trim_space " \ta b\n" ≡ "a b"
unfolding trim_space
padded = refl
