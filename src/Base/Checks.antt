-- ===== src/Base/Checks.antt =====
-- Sequences of checks, each of which may give an error.
use mathlib.Core.Path.{◌≡◌, refl}
use mathlib.Core.Bool.{Bool, true, false}
use mathlib.Core.Option.{Option, none, some}
use native.Mathlib.Omega.{arith}

-- `if err := a; err != nil { return err }; return b`, where `none` is the nil error.
infixr 20 ◌then◌
unfoldable pub ◌then◌ {ℓ} : {E : Type ℓ} → Option E → Option E → Option E
none then b = b
(some e) then b = some e

abbrev pub fails_if {ℓ} : {E : Type ℓ} → Bool → E → Option E
fails_if true e = some e
fails_if false e = none

pub then-none {ℓ} : {E : Type ℓ} (a b : Option E) → a then b ≡ none → (a ≡ none) × (b ≡ none)
unfolding ◌then◌
then-none none b e = (refl, e)
then-none (some x) b e = ground arith

pub fails_if-none {ℓ} : {E : Type ℓ} (b : Bool) (x : E) → fails_if b x ≡ none → b ≡ false
fails_if-none true x e = ground arith
fails_if-none false x e = refl
