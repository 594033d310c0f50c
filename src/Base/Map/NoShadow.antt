-- ===== src/Base/Map/NoShadow.antt =====
-- No key stands twice: every entry of the list is the one that a read finds.
use mathlib.Core.Path.{◌≡◌}
use mathlib.Core.Logic.{◌≢◌}
use mathlib.Core.Bool.{Bool, true}
use mathlib.Core.Option.{some}
use mathlib.Core.List.{[], ◌∷◌}
use native.Mathlib.Omega.{arith}
use hoocloak.Base.Map.{Map, lookup, erase, insert, retain}
use hoocloak.Base.Map.Laws.{lookup-erase, lookup-insert, lookup-retain}
use hoocloak.Base.Map.Every.{
  Every, Every-erase, Every-mono, Every-and, Every-retain, Every-retain_test,
}

module _ {ℓ} {K V : Type ℓ} (dec : Discrete K) where
  abbrev pub NoShadow : Map K V → Type ℓ
  NoShadow m = Every (λ k v. lookup dec k m ≡ some v) m

  Every-erase_ne : (k : K) (m : Map K V) → Every (λ j v. k ≢ j) (erase dec k m)
  unfolding erase
  Every-erase_ne k [] = tt
  Every-erase_ne k ((j, v) ∷ m) = ground (arith, Every-erase_ne k m)

  pub erase-NoShadow : (k : K) (m : Map K V) → NoShadow m → NoShadow (erase dec k m)
  erase-NoShadow k m h =
      Every-mono (λ j v. (k ≢ j) × (lookup dec j m ≡ some v))
        (λ j v. lookup dec j (erase dec k m) ≡ some v)
        (λ j v q. ground (arith, lookup-erase dec k j m)) (erase dec k m)
        (Every-and (λ j v. k ≢ j) (λ j v. lookup dec j m ≡ some v) (erase dec k m)
          (Every-erase_ne k m) (Every-erase dec (λ j v. lookup dec j m ≡ some v) k m h))

  pub insert-NoShadow : (k : K) (v : V) (m : Map K V) → NoShadow m → NoShadow (insert dec k v m)
  unfolding insert
  insert-NoShadow k v m h = (
    ground (arith, lookup-insert dec k k v m),
    Every-mono (λ j w. (k ≢ j) × (lookup dec j m ≡ some w))
        (λ j w. lookup dec j (insert dec k v m) ≡ some w)
        (λ j w q. ground (arith, lookup-insert dec k j v m)) (erase dec k m)
        (Every-and (λ j w. k ≢ j) (λ j w. lookup dec j m ≡ some w) (erase dec k m)
          (Every-erase_ne k m) (Every-erase dec (λ j w. lookup dec j m ≡ some w) k m h)),
  )

  pub retain-NoShadow :
      (keep : K → V → Bool) (m : Map K V) → NoShadow m → NoShadow (retain dec keep m)
  retain-NoShadow keep m h =
      Every-mono (λ j v. (keep j v ≡ true) × (lookup dec j m ≡ some v))
        (λ j v. lookup dec j (retain dec keep m) ≡ some v)
        (λ j v q. ground (arith, lookup-retain dec keep j m)) (retain dec keep m)
        (Every-and (λ j v. keep j v ≡ true) (λ j v. lookup dec j m ≡ some v) (retain dec keep m)
          (Every-retain_test dec (λ j v. keep j v ≡ true) keep m (λ j v q. q))
          (Every-retain dec (λ j v. lookup dec j m ≡ some v) keep m h))
