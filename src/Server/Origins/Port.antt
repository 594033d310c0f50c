-- ===== src/Server/Origins/Port.antt =====
-- Which ports `validPort` of internal/idp/server.go takes.
use hoocloak.Base.{
  ◌≡◌, ◌⊎◌, inl, inr, ◌↔◌, ℕ, ◌+◌, ◌-◌, ◌*◌, ◌≤◌, [], ◌∷◌, Bool, true, arith, Bool-cases, ltb,
}
use hoocloak.Config.Text.{Text, between, all_codes}
use hoocloak.Server.Origins.{valid_digits, valid_port}

-- The number that the digits after `n` write.
abbrev pub decimal : Text → ℕ → ℕ
decimal [] n = n
decimal (c ∷ cs) n = decimal cs (n * 10 + (c - b'0'))

abbrev pub is_digit : ℕ → Bool
is_digit c = between b'0' b'9' c

decimal_grows : (cs : Text) (n : ℕ) → n ≤ decimal cs n
decimal_grows [] n = omega arith
decimal_grows (c ∷ cs) n = omega (arith, decimal_grows cs (n * 10 + (c - b'0')))

valid_digits_iff :
    (cs : Text) (n : ℕ)
    → n ≤ 65535
    → (valid_digits cs n ≡ true)
      ↔ ((all_codes is_digit cs ≡ true) × (1 ≤ decimal cs n) × (decimal cs n ≤ 65535))
unfolding valid_digits
valid_digits_iff [] n h = ground (arith, h)
valid_digits_iff (c ∷ cs) n h =
    let next = n * 10 + (c - b'0') in
    elim (Bool-cases (ltb 65535 next)) [
      | inl big ↦ ground (arith, big, decimal_grows cs next)
      | inr small ↦ ground (arith, small, valid_digits_iff cs next (ground (arith, small)))
    ]

-- The empty port and the decimal numbers from 1 to 65535 pass, whatever zeros are in front.
pub valid_port-exact :
    (port : Text)
    → (valid_port port ≡ true) ↔ (
        (port ≡ [])
        ⊎ ((all_codes is_digit port ≡ true) × (1 ≤ decimal port 0) × (decimal port 0 ≤ 65535)))
unfolding valid_port
valid_port-exact [] = ground arith
valid_port-exact (c ∷ cs) = ground (arith, valid_digits_iff (c ∷ cs) 0 (omega arith))
