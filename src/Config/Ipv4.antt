-- ===== src/Config/Ipv4.antt =====
-- internal/config/config.go: IPv4 hosts as browsers read them, `endsInIPv4Number` to
-- `isRadixDigits`.
pub mod Bounds
pub mod Quads
use hoocloak.Base.{
  ◌≡◌, refl, ℕ, ◌+◌, ◌-◌, ◌*◌, ◌/◌, ◌%◌, ◌^◌, List, [], ◌∷◌, Bool, true, false, ◌&&◌, ◌||◌, Option,
  none, some, ltb, leb, length, if◌then◌else◌,
}
use hoocloak.Config.Text.{codes, between, is_code, Text, split}

-- A digit of the base, without the bound that depends on the base.
abbrev pub is_radix_digit : ℕ → ℕ → Bool
is_radix_digit base c =
    between b'0' b'9' c || is_code base 16 && (between b'a' b'f' c || between b'A' b'F' c)

unfoldable pub all_radix_digits : ℕ → Text → Bool
all_radix_digits base [] = true
all_radix_digits base (c ∷ cs) = is_radix_digit base c && all_radix_digits base cs

unfoldable pub is_radix_digits : Text → ℕ → Bool
unfolding all_radix_digits
is_radix_digits [] base = false
is_radix_digits (c ∷ cs) base = all_radix_digits base (c ∷ cs)

-- `part[1]|0x20 == 'x'`.
abbrev pub is_x : ℕ → Bool
is_x c = is_code c b'x' || is_code c b'X'

-- The last element of `strings.Split`, which is never empty.
unfoldable pub last_label : List Text → Text
last_label [] = []
last_label (part ∷ []) = part
last_label (part ∷ next ∷ rest) = last_label (next ∷ rest)

unfoldable pub is_hex_label : Text → Bool
unfolding is_radix_digits
is_hex_label (first ∷ x ∷ []) = is_code first b'0' && is_x x
is_hex_label (first ∷ x ∷ c ∷ cs) = is_code first b'0' && is_x x && is_radix_digits (c ∷ cs) 16
is_hex_label _ = false

unfoldable pub ends_in_ipv4_number : Text → Bool
unfolding last_label is_hex_label is_radix_digits
ends_in_ipv4_number host =
    let last = last_label (split b'.' host) in is_radix_digits last 10 || is_hex_label last

-- The `switch` of the loop on one digit.
unfoldable pub digit_value : ℕ → ℕ → Option ℕ
digit_value base c =
    if between b'0' b'9' c
    then some (c - b'0')
    else if between b'a' b'f' c && is_code base 16
    then some (c - (b'a' - 10))
    else if between b'A' b'F' c && is_code base 16
    then some (c - (b'A' - 10))
    else none

-- The loop over the digits, in `uint64`.
unfoldable pub read_digits : ℕ → Text → ℕ → Option ℕ
unfolding digit_value
read_digits base [] value = some value
read_digits base (c ∷ cs) value = elim (digit_value base c) [
  | none ↦ none
  | some digit ↦
      let next = (value * base + digit) % 2 ^ 64 in
      let rest = read_digits base cs next in
      if leb base digit || ltb 0xffffffff next then none else rest
]

unfoldable pub parse_browser_ipv4_number : Text → Option ℕ
unfolding read_digits
parse_browser_ipv4_number [] = none
parse_browser_ipv4_number (a ∷ []) = read_digits 10 (a ∷ []) 0
parse_browser_ipv4_number (a ∷ b ∷ digits) =
    if is_code a b'0' && is_x b
    then read_digits 16 digits 0
    else if is_code a b'0'
    then read_digits 8 (b ∷ digits) 0
    else read_digits 10 (a ∷ b ∷ digits) 0

-- The first loop: every label but the last is a byte.
unfoldable pub read_labels : List Text → Option (List ℕ)
read_labels [] = some []
read_labels (part ∷ rest) =
    let numbers = read_labels rest in
    elim (parse_browser_ipv4_number part) [
      | none ↦ none
      | some value ↦
          if ltb 0 (length rest) && ltb 255 value
          then none
          else elim numbers [ none ↦ none | some values ↦ some (value ∷ values) ]
    ]

-- The last number, which may stand for several bytes.
unfoldable pub last_number : List ℕ → ℕ
last_number [] = 0
last_number (n ∷ []) = n
last_number (n ∷ m ∷ rest) = last_number (m ∷ rest)

-- The second loop, from `index` on.
unfoldable pub sum_labels : ℕ → List ℕ → ℕ
sum_labels index [] = 0
sum_labels index (n ∷ []) = n
sum_labels index (n ∷ m ∷ rest) =
    (n * 2 ^ (8 * (3 - index)) + sum_labels (index + 1) (m ∷ rest)) % 2 ^ 64

pub record Quad : Type 0 where
  pub a : ℕ
  pub b : ℕ
  pub c : ℕ
  pub d : ℕ

-- The bytes of the value.
unfoldable pub quad : ℕ → Quad
quad value = record {
  a = value / 2 ^ 24 % 256;
  b = value / 2 ^ 16 % 256;
  c = value / 2 ^ 8 % 256;
  d = value % 256;
}

unfoldable pub parse_browser_ipv4_host : Text → Option Quad
unfolding read_labels last_number sum_labels quad
parse_browser_ipv4_host host =
    let parts = split b'.' host in
    if ltb 4 (length parts) then none else elim (read_labels parts) [
      | none ↦ none
      | some numbers ↦
          if leb (2 ^ (8 * (5 - length parts))) (last_number numbers)
          then none
          else some (quad (sum_labels 0 numbers))
    ]

hex_host : parse_browser_ipv4_host (codes "0x7f.1") ≡ some (record { a = 127; b = 0; c = 0; d = 1 })
unfolding parse_browser_ipv4_host parse_browser_ipv4_number split
hex_host = refl
