-- ===== src/Base/Map.antt =====
-- A Go map as an association list. A write first deletes the key, and a loop that deletes while
-- it ranges deletes by key, so no key stands twice and the order is not observable.
pub mod Laws
pub mod Every
pub mod NoShadow
pub mod Size
use Prim.Native.Nat.{ℕ, suc}
use mathlib.Core.Logic.{ite}
use mathlib.Core.Bool.{Bool}
use mathlib.Core.Option.{Option, none, some}
use mathlib.Core.List.{List, [], ◌∷◌}
use hoocloak.Base.Tests.{if◌then◌else◌}

abbrev pub Map {ℓ} : Type ℓ → Type ℓ → Type ℓ
Map K V = List (K × V)

module _ {ℓ} {K V : Type ℓ} where
  -- `len(m)`.
  unfoldable pub size : Map K V → ℕ
  size [] = 0
  size (e ∷ m) = suc (size m)

module _ {ℓ} {K V : Type ℓ} (dec : Discrete K) where
  -- `m[k]`, with `none` for a missing key.
  unfoldable pub lookup : K → Map K V → Option V
  lookup k [] = none
  lookup k ((j, v) ∷ m) = ite (dec j k) (some v) (lookup k m)

  -- `delete(m, k)`.
  unfoldable pub erase : K → Map K V → Map K V
  erase k [] = []
  erase k ((j, v) ∷ m) = let rest = erase k m in ite (dec j k) rest ((j, v) ∷ rest)

  -- `m[k] = v`.
  unfoldable pub insert : K → V → Map K V → Map K V
  unfolding erase
  insert k v m = (k, v) ∷ erase k m

  -- `for k, v := range m { if !keep(k, v) { delete(m, k) } }`.
  unfoldable pub retain : (K → V → Bool) → Map K V → Map K V
  unfolding erase
  retain keep [] = []
  retain keep ((j, v) ∷ m) =
      let rest = retain keep m in if keep j v then (j, v) ∷ rest else erase j rest
