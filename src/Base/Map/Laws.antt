-- ===== src/Base/Map/Laws.antt =====
-- The laws of the maps, by which the rest of the development reads them.
use mathlib.Core.Path.{◌≡◌, refl}
use mathlib.Core.Logic.{ite}
use mathlib.Core.Bool.{Bool}
use mathlib.Core.Option.{Option, none, some}
use mathlib.Core.List.{[], ◌∷◌}
use native.Mathlib.Omega.{arith}
use hoocloak.Base.Tests.{if◌then◌else◌}
use hoocloak.Base.Map.{Map, lookup, erase, insert, retain}

-- An entry that a loop keeps.
abbrev pub kept {ℓ} : {V : Type ℓ} → (V → Bool) → Option V → Option V
kept keep none = none
kept keep (some v) = if keep v then some v else none

module _ {ℓ} {K V : Type ℓ} (dec : Discrete K) where
  pub lookup-erase :
      (k j : K) (m : Map K V) → lookup dec j (erase dec k m) ≡ ite (dec k j) none (lookup dec j m)
  unfolding lookup erase
  lookup-erase k j [] = ground arith
  lookup-erase k j ((i, v) ∷ m) = ground (arith, lookup-erase k j m)

  pub lookup-insert :
      (k j : K) (v : V) (m : Map K V)
      → lookup dec j (insert dec k v m) ≡ ite (dec k j) (some v) (lookup dec j m)
  unfolding lookup insert
  lookup-insert k j v m = ground (arith, lookup-erase k j m)

  pub lookup-retain :
      (keep : K → V → Bool) (j : K) (m : Map K V)
      → lookup dec j (retain dec keep m) ≡ kept (keep j) (lookup dec j m)
  unfolding lookup retain
  lookup-retain keep j [] = refl
  lookup-retain keep j ((i, v) ∷ m) =
      ground (arith, lookup-retain keep j m, lookup-erase i j (retain dec keep m))
