-- ===== src/Config/Rules.antt =====
-- internal/config/config.go: the rules for single values, `requireID` to `validateNonemptyUnique`.
-- The `where` of a message is left out, and so is what the maps hold for it: `ids` and `seen` are
-- the keys.
use hoocloak.Base.{
  ℕ, zero, suc, String, List, [], ◌∷◌, Bool, true, false, not, ◌&&◌, ◌||◌, Option, none, some, ◌==◌,
  contains, leb, length, if◌then◌else◌, ◌then◌, fails_if,
}
use hoocloak.Config.Text.{Text, codes, between, is_code, has_code, all_codes, trim_space}
use hoocloak.Config.Url.{
  Problem, bad_id, duplicate_id, not_bcrypt, reserved_scope, bad_scope_token, empty_value,
  duplicate_value,
}

abbrev pub reserved_scopes : List String
reserved_scopes = "openid" ∷ "profile" ∷ "email" ∷ "offline_access" ∷ "phone" ∷ "address" ∷ []

-- Is the value empty, or does it have white space around it?
unfoldable pub is_padded : String → Bool
is_padded value = value == "" || not (value == trim_space value)

unfoldable pub check_unique : List String → List String → Option Problem
unfolding is_padded
check_unique seen [] = none
check_unique seen (value ∷ rest) =
    fails_if (is_padded value) empty_value
    then fails_if (contains seen value) duplicate_value
    then check_unique (value ∷ seen) rest

unfoldable pub validate_nonempty_unique : List String → Option Problem
unfolding check_unique
validate_nonempty_unique values = check_unique [] values

-- A byte that a scope token may hold; a character past ASCII has bytes that it may not.
abbrev pub is_scope_code : ℕ → Bool
is_scope_code c = between 0x21 0x7e c && not (is_code c b'"') && not (is_code c b'\\')

unfoldable pub validate_scope_tokens : List String → Option Problem
validate_scope_tokens [] = none
validate_scope_tokens (value ∷ rest) =
    fails_if (not (all_codes is_scope_code (codes value))) bad_scope_token
    then validate_scope_tokens rest

unfoldable pub check_reserved : List String → Option Problem
check_reserved [] = none
check_reserved (value ∷ rest) =
    fails_if (contains reserved_scopes value) reserved_scope then check_reserved rest

unfoldable pub validate_permissions : List String → Option Problem
unfolding validate_nonempty_unique check_reserved validate_scope_tokens
validate_permissions values =
    validate_nonempty_unique values then check_reserved values then validate_scope_tokens values

unfoldable pub require_id : String → List String → Option Problem
require_id id ids =
    fails_if (trim_space id == "" || not (id == trim_space id)) bad_id
    then fails_if (contains ids id) duplicate_id

-- The class `[a-z0-9]`.
abbrev is_name_code : ℕ → Bool
is_name_code c = between b'a' b'z' c || between b'0' b'9' c

-- Does the text end in the class, with hyphens allowed before?
abbrev ends_name : Text → Bool
ends_name [] = true
ends_name (c ∷ []) = is_name_code c
ends_name (c ∷ d ∷ cs) = (is_name_code c || is_code c b'-') && ends_name (d ∷ cs)

abbrev starts_name : Text → Bool
starts_name [] = false
starts_name (c ∷ cs) = is_name_code c

-- `realmNamePattern`.
unfoldable pub is_realm_name : String → Bool
is_realm_name name =
    let text = codes name in leb (length text) 63 && starts_name text && ends_name text

-- The class `[./A-Za-z0-9]`.
abbrev is_bcrypt_code : ℕ → Bool
is_bcrypt_code c = between b'.' b'9' c || between b'A' b'Z' c || between b'a' b'z' c

-- A text that has one character of each class, and no more.
abbrev matches_classes : List (ℕ → Bool) → Text → Bool
matches_classes [] [] = true
matches_classes [] (_ ∷ _) = false
matches_classes (_ ∷ _) [] = false
matches_classes (p ∷ ps) (c ∷ cs) = p c && matches_classes ps cs

abbrev repeat : ℕ → (ℕ → Bool) → List (ℕ → Bool) → List (ℕ → Bool)
repeat zero p tail = tail
repeat (suc n) p tail = p ∷ repeat n p tail

abbrev one_of : String → ℕ → Bool
one_of class c = has_code c (codes class)

-- `bcryptPattern`.
unfoldable pub is_bcrypt_form : String → Bool
is_bcrypt_form hash =
    matches_classes
      (one_of "$"
        ∷ one_of "2"
        ∷ one_of "aby"
        ∷ one_of "$"
        ∷ one_of "1"
        ∷ one_of "0"
        ∷ one_of "$"
        ∷ repeat 21 is_bcrypt_code
            (one_of ".Oeu" ∷ repeat 30 is_bcrypt_code (one_of ".CGKOSWaeimquy26" ∷ [])))
      (codes hash)

-- `cost` is `bcrypt.Cost`, `none` for its error; the default cost is 10.
unfoldable pub valid_bcrypt : (String → Option ℕ) → String → Option Problem
unfolding is_bcrypt_form
valid_bcrypt cost hash = fails_if (not (is_bcrypt_form hash)) not_bcrypt then elim (cost hash) [
  | none ↦ some not_bcrypt
  | some n ↦ fails_if (not (is_code n 10)) not_bcrypt
]
