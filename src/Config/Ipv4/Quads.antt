-- ===== src/Config/Ipv4/Quads.antt =====
-- The four bytes of an IPv4 host are its labels' value.
use hoocloak.Base.{
  ◌≡◌, sym, ap, subst, ◌∙◌, ℕ, ◌+◌, ◌-◌, ◌*◌, ◌^◌, ◌≤◌, ◌<◌, inl, inr, List, [], ◌∷◌, some, arith,
  Option-cases, length,
}
use hoocloak.Config.Text.{Text, split}
use hoocloak.Config.Ipv4.{
  Quad, parse_browser_ipv4_number, read_labels, last_number, sum_labels, quad,
  parse_browser_ipv4_host,
}

-- Every number but the last is a byte.
abbrev pub AllBytes : List ℕ → Type 0
AllBytes [] = Unit
AllBytes (n ∷ []) = Unit
AllBytes (n ∷ m ∷ rest) = (n ≤ 255) × AllBytes (m ∷ rest)

-- What the numbers stand for: a byte each, and the last number for all bytes that are left.
abbrev pub address : List ℕ → ℕ
address (a ∷ b ∷ c ∷ d ∷ []) = a * 2 ^ 24 + b * 2 ^ 16 + c * 2 ^ 8 + d
address (a ∷ b ∷ c ∷ []) = a * 2 ^ 24 + b * 2 ^ 16 + c
address (a ∷ b ∷ []) = a * 2 ^ 24 + b
address (a ∷ []) = a
address _ = 0

-- The value of the bytes.
abbrev pub quad_value : Quad → ℕ
quad_value q = q.a * 2 ^ 24 + q.b * 2 ^ 16 + q.c * 2 ^ 8 + q.d

quad_value-quad : (v : ℕ) → v < 2 ^ 32 → quad_value (quad v) ≡ v
unfolding quad
quad_value-quad v h = omega arith

cons-AllBytes : (n : ℕ) (ns : List ℕ) → (0 < length ns → n ≤ 255) → AllBytes ns → AllBytes (n ∷ ns)
cons-AllBytes n [] small h = tt
cons-AllBytes n (m ∷ rest) small h = (small (omega arith), h)

read_labels-AllBytes :
    (parts : List Text) (ns : List ℕ)
    → read_labels parts ≡ some ns
    → (length ns ≡ length parts) × AllBytes ns
unfolding read_labels
read_labels-AllBytes [] ns e = ground arith
read_labels-AllBytes (part ∷ rest) ns e = elim (Option-cases (parse_browser_ipv4_number part)) [
  | inl f ↦ absurd (ground (arith, e, f))
  | inr (n, f) ↦ elim (Option-cases (read_labels rest)) [
    | inl g ↦ absurd (ground (arith, e, f, g))
    | inr (values, g) ↦
        let tail = read_labels-AllBytes rest values g in
        let same : n ∷ values ≡ ns = ground (arith, e, f, g) in
        subst (λ ms. (length ms ≡ length (part ∷ rest)) × AllBytes ms) same
          (
            ground (arith, tail.0),
            cons-AllBytes n values (λ l. ground (arith, e, f, g, tail.0, l)) tail.1,
          )
  ]
]

sum_labels-address :
    (ns : List ℕ)
    → length ns ≤ 4
    → AllBytes ns
    → last_number ns < 2 ^ (8 * (5 - length ns))
    → (sum_labels 0 ns ≡ address ns) × (address ns < 2 ^ 32)
unfolding sum_labels last_number
sum_labels-address [] l b h = ground arith
sum_labels-address (n ∷ []) l b h = ground (arith, h)
sum_labels-address (n ∷ m ∷ []) l b h = (omega (arith, b.0, h), omega (arith, b.0, h))
sum_labels-address (n ∷ m ∷ o ∷ []) l b h =
    (omega (arith, b.0, b.1.0, h), omega (arith, b.0, b.1.0, h))
sum_labels-address (n ∷ m ∷ o ∷ p ∷ []) l b h =
    (omega (arith, b.0, b.1.0, b.1.1.0, h), omega (arith, b.0, b.1.0, b.1.1.0, h))
sum_labels-address (n ∷ m ∷ o ∷ p ∷ q ∷ rest) l b h = absurd (omega (arith, l))

parts_address :
    (parts : List Text) (ns : List ℕ)
    → read_labels parts ≡ some ns
    → length parts ≤ 4
    → last_number ns < 2 ^ (8 * (5 - length parts))
    → (sum_labels 0 ns ≡ address ns) × (address ns < 2 ^ 32)
parts_address parts ns e l h =
    let both = read_labels-AllBytes parts ns e in
    sum_labels-address ns (ground (arith, both.0)) both.1
      (subst (λ k. last_number ns < 2 ^ (8 * (5 - k))) (sym both.0) h)

-- A host that is read as an IPv4 address has labels that are all numbers, and the bytes of the
-- address make up what the numbers stand for: a byte each, the last one for all that are left.
pub parse_browser_ipv4_host-address :
    (host : Text) (q : Quad)
    → parse_browser_ipv4_host host ≡ some q
    → (ns : List ℕ) × (read_labels (split b'.' host) ≡ some ns) × (quad_value q ≡ address ns)
unfolding parse_browser_ipv4_host
parse_browser_ipv4_host-address host q e = elim (Option-cases (read_labels (split b'.' host))) [
  | inl f ↦ absurd (ground (arith, e, f))
  | inr (ns, f) ↦
      let parts = split b'.' host in
      let few : length parts ≤ 4 = ground (arith, e, f) in
      let limit : last_number ns < 2 ^ (8 * (5 - length parts)) = ground (arith, e, f) in
      let exact = parts_address parts ns f few limit in
      let bytes : quad (sum_labels 0 ns) ≡ q = ground (arith, e, f, few, limit) in
      (
        ns,
        f,
        ap quad_value (sym bytes)
            ∙ ap (λ v. quad_value (quad v)) exact.0
            ∙ quad_value-quad (address ns) exact.1,
      )
]
