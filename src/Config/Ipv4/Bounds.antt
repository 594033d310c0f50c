-- ===== src/Config/Ipv4/Bounds.antt =====
-- The numbers of IPv4 hosts stay inside their machine words.
use native.Mathlib.Nat.{mod-eq_of_lt}
use hoocloak.Base.{
  ◌≡◌, sym, ap, ◌∙◌, ℕ, ◌+◌, ◌*◌, ◌%◌, ◌^◌, ◌≤◌, ◌<◌, inl, inr, [], ◌∷◌, ◌||◌, if◌then◌else◌, some,
  or_zero, arith, Option-cases, Bool-cases, leb, ltb,
}
use hoocloak.Config.Text.{Text, is_code}
use hoocloak.Config.Ipv4.{digit_value, read_digits, parse_browser_ipv4_number, is_x}

-- The value of the digits after `n`, in unbounded numbers.
unfoldable pub place_value : ℕ → Text → ℕ → ℕ
place_value base [] n = n
place_value base (c ∷ cs) n = place_value base cs (n * base + or_zero (digit_value base c) 0)

step_small : (base n d : ℕ) → base ≤ 16 → n ≤ 0xffffffff → d < base → n * base + d < 2 ^ 64
step_small base n d hb hn hd = grind arith

read_digits-exact :
    (base : ℕ) (cs : Text) (n value : ℕ)
    → base ≤ 16
    → n ≤ 0xffffffff
    → read_digits base cs n ≡ some value
    → (value ≤ 0xffffffff) × (value ≡ place_value base cs n)
unfolding read_digits place_value
read_digits-exact base [] n value hb hn e = ground arith
read_digits-exact base (c ∷ cs) n value hb hn e = elim (Option-cases (digit_value base c)) [
  | inl f ↦ absurd (ground (arith, e, f))
  | inr (d, f) ↦
      let small = step_small base n d hb hn in
      let next = (n * base + d) % 2 ^ 64 in
      elim (Bool-cases (leb base d || ltb 0xffffffff next)) [
        | inl g ↦ absurd (ground (arith, e, f, g))
        | inr g ↦
            let smaller : d < base = ground (arith, g) in
            let exact : (n * base + d) % 2 ^ 64 ≡ n * base + d = mod-eq_of_lt (small smaller) in
            let kept : (n * base + d) % 2 ^ 64 ≤ 0xffffffff = ground (arith, g) in
            let rest =
              read_digits-exact base cs ((n * base + d) % 2 ^ 64) value hb kept
                (ground (arith, e, f, g)) in
            (
              rest.0,
              rest.1 ∙ ap (place_value base cs) (exact ∙ ap (λ o. n * base + or_zero o 0) (sym f)),
            )
      ]
]

-- The radix that a label's prefix names, and the digits after the prefix.
abbrev pub radix : Text → ℕ
radix (a ∷ b ∷ cs) = if is_code a b'0' then (if is_x b then 16 else 8) else 10
radix _ = 10

abbrev pub digits : Text → Text
digits (a ∷ b ∷ cs) = if is_code a b'0' then (if is_x b then cs else b ∷ cs) else a ∷ b ∷ cs
digits cs = cs

-- The number that a label is read as fits in 32 bits, and it is the value of the label's digits in
-- the radix of its prefix: no machine word wraps around.
pub parse_browser_ipv4_number-exact :
    (part : Text) (value : ℕ)
    → parse_browser_ipv4_number part ≡ some value
    → (value ≤ 0xffffffff) × (value ≡ place_value (radix part) (digits part) 0)
unfolding parse_browser_ipv4_number
parse_browser_ipv4_number-exact [] value e = ground arith
parse_browser_ipv4_number-exact (a ∷ []) value e =
    read_digits-exact 10 (a ∷ []) 0 value (omega arith) (omega arith) e
parse_browser_ipv4_number-exact (a ∷ b ∷ cs) value e = ground (
  arith,
  e,
  read_digits-exact 16 cs 0 value,
  read_digits-exact 8 (b ∷ cs) 0 value,
  read_digits-exact 10 (a ∷ b ∷ cs) 0 value,
)
