-- ===== src/Base/Map/Every.antt =====
-- Predicates on all entries of a map.
use mathlib.Core.Path.{◌≡◌, subst₂}
use mathlib.Core.Logic.{inl, inr}
use mathlib.Core.Bool.{Bool, true}
use mathlib.Core.Option.{some}
use mathlib.Core.List.{[], ◌∷◌}
use native.Mathlib.Omega.{arith}
use hoocloak.Base.Map.{Map, lookup, erase, insert, retain}
use hoocloak.Base.Tests.{Bool-cases}

module _ {ℓ κ} {K V : Type ℓ} where
  abbrev pub Every : (K → V → Type κ) → Map K V → Type κ
  Every P [] = Unit
  Every P ((k, v) ∷ m) = P k v × Every P m

module _ {ℓ κ} {K V : Type ℓ} (dec : Discrete K) (P : K → V → Type κ) where
  pub Every-lookup : (k : K) (m : Map K V) {v : V} → Every P m → lookup dec k m ≡ some v → P k v
  unfolding lookup
  Every-lookup k [] {v} h e = cc
  Every-lookup k ((j, w) ∷ m) {v} h e = elim (dec j k) [
    | yes p ↦ let q : w ≡ v = ground arith in subst₂ P p q h.0
    | no p ↦ Every-lookup k m h.1 (ground arith)
  ]

  pub Every-erase : (k : K) (m : Map K V) → Every P m → Every P (erase dec k m)
  unfolding erase
  Every-erase k [] h = h
  Every-erase k ((j, w) ∷ m) h = ground (arith, Every-erase k m h.1)

  pub Every-insert : (k : K) (v : V) (m : Map K V) → P k v → Every P m → Every P (insert dec k v m)
  unfolding insert
  Every-insert k v m p h = (p, Every-erase k m h)

  pub Every-retain : (keep : K → V → Bool) (m : Map K V) → Every P m → Every P (retain dec keep m)
  unfolding retain
  Every-retain keep [] h = h
  Every-retain keep ((j, w) ∷ m) h =
      let rest = Every-retain keep m h.1 in
      ground (arith, rest, Every-erase j (retain dec keep m) rest)

  -- What a loop keeps also passes its test.
  pub Every-retain_test :
      (keep : K → V → Bool) (m : Map K V)
      → ((k : K) (v : V) → keep k v ≡ true → P k v)
      → Every P (retain dec keep m)
  unfolding retain
  Every-retain_test keep [] f = tt
  Every-retain_test keep ((j, w) ∷ m) f = elim (Bool-cases (keep j w)) [
    | inl e ↦ rw e (f j w e, Every-retain_test keep m f)
    | inr e ↦ rw e (Every-erase j (retain dec keep m) (Every-retain_test keep m f))
  ]

pub Every-mono {ℓ κ κ'} :
    {K V : Type ℓ} (P : K → V → Type κ) (Q : K → V → Type κ')
    → ((k : K) (v : V) → P k v → Q k v)
    → (m : Map K V) → Every P m
    → Every Q m
Every-mono P Q f [] h = tt
Every-mono P Q f ((k, v) ∷ m) h = (f k v h.0, Every-mono P Q f m h.1)

pub Every-and {ℓ κ κ'} :
    {K V : Type ℓ} (P : K → V → Type κ) (Q : K → V → Type κ') (m : Map K V)
    → Every P m
    → Every Q m
    → Every (λ k v. P k v × Q k v) m
Every-and P Q [] h g = tt
Every-and P Q ((k, v) ∷ m) h g = ((h.0, g.0), Every-and P Q m h.1 g.1)
