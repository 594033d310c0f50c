-- ===== src/Base/Map/Size.antt =====
-- How many entries a map has after a write.
use Prim.Native.Nat.{suc, ◌≤◌}
use mathlib.Core.Bool.{Bool}
use mathlib.Core.List.{[], ◌∷◌}
use native.Mathlib.Omega.{arith}
use mathlib.Core.Path.{◌≡◌, refl, ap}
use mathlib.Core.Option.{none}
use hoocloak.Base.Map.{Map, lookup, size, erase, insert, retain}

module _ {ℓ} {K V : Type ℓ} (dec : Discrete K) where
  pub size-erase : (k : K) (m : Map K V) → size (erase dec k m) ≤ size m
  unfolding size erase
  size-erase k [] = omega arith
  size-erase k ((j, v) ∷ m) = ground (arith, size-erase k m)

  pub size-insert : (k : K) (v : V) (m : Map K V) → size (insert dec k v m) ≤ suc (size m)
  unfolding size insert
  size-insert k v m = omega (arith, size-erase k m)

  erase_absent : (k : K) (m : Map K V) → lookup dec k m ≡ none → erase dec k m ≡ m
  unfolding lookup erase
  erase_absent k [] e = refl
  erase_absent k ((j, v) ∷ m) e = elim (dec j k) [
    | yes q ↦ absurd (ground (arith, e, q))
    | no n ↦ ground (arith, e, n, erase_absent k m)
  ]

  pub size-insert_new :
      (k : K) (v : V) (m : Map K V) → lookup dec k m ≡ none → size (insert dec k v m) ≡ suc (size m)
  unfolding size insert
  size-insert_new k v m e = ap (λ x. suc (size x)) (erase_absent k m e)

  pub size-retain : (keep : K → V → Bool) (m : Map K V) → size (retain dec keep m) ≤ size m
  unfolding size retain
  size-retain keep [] = omega arith
  size-retain keep ((j, v) ∷ m) =
      ground (arith, size-retain keep m, size-erase j (retain dec keep m))
