-- ===== src/Base/Text.antt =====
-- Go strings that are only compared whole, and `slices.Contains`.
use Prim.Native.String.{String}
use text.Mathlib.Text.{◌==◌ as str_eq}
use text.Mathlib.TextEquality.{eq_iff}
use mathlib.Core.Path.{◌≡◌, refl}
use mathlib.Core.Bool.{Bool, true, false}
use mathlib.Core.List.{List, [], ◌∷◌}
use native.Mathlib.Omega.{arith}

decide_eq : (s t : String) (b : Bool) → str_eq s t ≡ b → Dec (s ≡ t)
decide_eq s t true e = yes ((eq_iff s t).0 e)
decide_eq s t false e = no (λ p. ground (arith, eq_iff s t))

unfoldable pub text_dec : Discrete String
unfolding decide_eq
text_dec s t = decide_eq s t (str_eq s t) refl

infix 50 ◌==◌
abbrev pub ◌==◌ : String → String → Bool
s == t = elim (text_dec s t) [ yes _ ↦ true | no _ ↦ false ]

-- `slices.Contains(values, x)`.
abbrev pub contains : List String → String → Bool
contains [] x = false
contains (v ∷ vs) x = elim (text_dec v x) [ yes _ ↦ true | no _ ↦ contains vs x ]

infix 50 ◌∈◌
abbrev pub ◌∈◌ : String → List String → Type 0
x ∈ vs = contains vs x ≡ true
