-- ===== src/Server/Pkce.antt =====
-- internal/idp/server.go: `validS256CodeChallenge` and `validCodeVerifier`.
use hoocloak.Base.{ℕ, String, Bool, ◌&&◌, ◌||◌, leb, length}
use hoocloak.Config.Text.{codes, between, is_code, all_codes}

abbrev is_alphanumeric : ℕ → Bool
is_alphanumeric c = between b'a' b'z' c || between b'A' b'Z' c || between b'0' b'9' c

-- A text with a character that is not ASCII has other bytes than codes, and is refused by either.
abbrev pub is_challenge_code : ℕ → Bool
is_challenge_code c = is_alphanumeric c || is_code b'-' c || is_code b'_' c

abbrev pub is_verifier_code : ℕ → Bool
is_verifier_code c =
    is_alphanumeric c || is_code b'-' c || is_code b'.' c || is_code b'_' c || is_code b'~' c

unfoldable pub valid_s256_code_challenge : String → Bool
valid_s256_code_challenge value =
    leb 43 (length (codes value))
    && leb (length (codes value)) 43
    && all_codes is_challenge_code (codes value)

unfoldable pub valid_code_verifier : String → Bool
valid_code_verifier value =
    leb 43 (length (codes value))
    && leb (length (codes value)) 128
    && all_codes is_verifier_code (codes value)
