-- ===== src/Server/Sorted.antt =====
-- Go's `sort.Strings`, which internal/idp/server.go uses on the keys of a map.
use hoocloak.Config.Text.{Text, codes}
use text.Mathlib.TextEquality.{codes_equal}
use hoocloak.Base.{
  ◌≡◌, refl, sym, ap, ◌∙◌, subst, Bool-cases, ◌⊎◌, inl, inr, String, List, [], ◌∷◌, Bool, true,
  false, ◌&&◌, ◌||◌, ◌∈◌, contains, text_dec, arith, ltb, leb, if◌then◌else◌,
}

-- `a < b` on strings: UTF-8 keeps the order of the code points.
unfoldable pub text_ltb : Text → Text → Bool
text_ltb _ [] = false
text_ltb [] (d ∷ t) = true
text_ltb (c ∷ s) (d ∷ t) = let rest = text_ltb s t in ltb c d || (leb c d && rest)

unfoldable pub string_ltb : String → String → Bool
unfolding text_ltb
string_ltb a b = text_ltb (codes a) (codes b)

module _ {A : Type 0} (below : A → A → Bool) where
  unfoldable pub insert_sorted : A → List A → List A
  insert_sorted x [] = x ∷ []
  insert_sorted x (y ∷ ys) =
      let rest = insert_sorted x ys in if below y x then y ∷ rest else x ∷ y ∷ ys

  unfoldable pub sort : List A → List A
  unfolding insert_sorted
  sort [] = []
  sort (x ∷ xs) = insert_sorted x (sort xs)

unfoldable pub sort_strings : List String → List String
unfolding sort
sort_strings xs = sort string_ltb xs

text_irrefl : (a : Text) → text_ltb a a ≡ false
unfolding text_ltb
text_irrefl [] = refl
text_irrefl (c ∷ s) = ground (arith, text_irrefl s)

text_trans : (a b c : Text) → text_ltb a b ≡ true → text_ltb b c ≡ true → text_ltb a c ≡ true
unfolding text_ltb
text_trans a b [] p q = absurd (ground (arith, q))
text_trans a [] (e ∷ u) p q = absurd (ground (arith, p))
text_trans [] (d ∷ t) (e ∷ u) p q = refl
text_trans (c ∷ s) (d ∷ t) (e ∷ u) p q = ground (arith, p, q, text_trans s t u)

text_total : (a b : Text) → (text_ltb a b ≡ true) ⊎ (a ≡ b) ⊎ (text_ltb b a ≡ true)
unfolding text_ltb
text_total [] [] = inr (inl refl)
text_total [] (d ∷ t) = inl refl
text_total (c ∷ s) [] = inr (inr refl)
text_total (c ∷ s) (d ∷ t) = ground (arith, text_total s t)

codes_injective : (a b : String) → codes a ≡ codes b → a ≡ b
codes_injective String.[] String.[] e = refl
codes_injective String.[] (String.◌∷◌ d t) e = absurd (ground (arith, e))
codes_injective (String.◌∷◌ c s) String.[] e = absurd (ground (arith, e))
codes_injective (String.◌∷◌ c s) (String.◌∷◌ d t) e =
    let same : c ≡ d = codes_equal c d (ground (arith, e)) in
    ap (λ x. String.◌∷◌ x s) same ∙ ap (String.◌∷◌ d) (codes_injective s t (ground (arith, e)))

ltb_irrefl : (a : String) → string_ltb a a ≡ false
unfolding string_ltb
ltb_irrefl a = text_irrefl (codes a)

ltb_trans : (a b c : String) → string_ltb a b ≡ true → string_ltb b c ≡ true → string_ltb a c ≡ true
unfolding string_ltb
ltb_trans a b c = text_trans (codes a) (codes b) (codes c)

ltb_total : (a b : String) → (string_ltb a b ≡ true) ⊎ (a ≡ b) ⊎ (string_ltb b a ≡ true)
unfolding string_ltb
ltb_total a b = elim (text_total (codes a) (codes b)) [
  | inl p ↦ inl p
  | inr (inl e) ↦ inr (inl (codes_injective a b e))
  | inr (inr p) ↦ inr (inr p)
]

-- Every string is below all that follow it, so none stands twice.
abbrev pub IsAscending : List String → Type 0
IsAscending [] = Unit
IsAscending (x ∷ xs) = ((y : String) → y ∈ xs → string_ltb x y ≡ true) × IsAscending xs

-- No string stands twice.
abbrev pub AllDistinct : List String → Type 0
AllDistinct [] = Unit
AllDistinct (x ∷ xs) = (contains xs x ≡ false) × AllDistinct xs

pair :
    (x : String) (xs : List String)
    → ((y : String) → y ∈ xs → string_ltb x y ≡ true)
    → IsAscending xs
    → IsAscending (x ∷ xs)
pair x xs all h = (all, h)

contains-insert_sorted :
    (x z : String) (ys : List String)
    → contains (insert_sorted string_ltb x ys) z ≡ contains (x ∷ ys) z
unfolding insert_sorted
contains-insert_sorted x z [] = refl
contains-insert_sorted x z (y ∷ ys) = ground (arith, contains-insert_sorted x z ys)

pub contains-sort_strings :
    (z : String) (xs : List String) → contains (sort_strings xs) z ≡ contains xs z
unfolding sort_strings sort
contains-sort_strings z [] = refl
contains-sort_strings z (x ∷ xs) =
    ground (arith, contains-insert_sorted x z (sort_strings xs), contains-sort_strings z xs)

insert_sorted-IsAscending :
    (x : String) (ys : List String)
    → contains ys x ≡ false
    → IsAscending ys
    → IsAscending (insert_sorted string_ltb x ys)
unfolding insert_sorted
insert_sorted-IsAscending x [] n h = ground arith
insert_sorted-IsAscending x (y ∷ ys) n (below, h) = elim (Bool-cases (string_ltb y x)) [
  | inl p ↦
      let all : (z : String) → z ∈ insert_sorted string_ltb x ys → string_ltb y z ≡ true = λ z m.
        elim (text_dec x z) [
          | yes e ↦ subst (λ t. string_ltb y t ≡ true) e p
          | no d ↦ below z (ground (arith, m, d, contains-insert_sorted x z ys))
        ] in
      let rest : IsAscending (insert_sorted string_ltb x ys) =
        insert_sorted-IsAscending x ys (ground (arith, n)) h in
      subst IsAscending {x = y ∷ insert_sorted string_ltb x ys} (ground (arith, p))
        (pair y (insert_sorted string_ltb x ys) all rest)
  | inr p ↦
      let first : string_ltb x y ≡ true = ground (arith, p, n, ltb_total x y, text_dec y x) in
      let all : (z : String) → z ∈ y ∷ ys → string_ltb x z ≡ true = λ z m. elim (text_dec y z) [
        | yes e ↦ subst (λ t. string_ltb x t ≡ true) e first
        | no d ↦ ltb_trans x y z first (below z (ground (arith, m, d)))
      ] in
      subst IsAscending {x = x ∷ y ∷ ys} (ground (arith, p)) (pair x (y ∷ ys) all (below, h))
]

pub sort_strings-IsAscending : (xs : List String) → AllDistinct xs → IsAscending (sort_strings xs)
unfolding sort_strings sort
sort_strings-IsAscending [] h = tt
sort_strings-IsAscending (x ∷ xs) (n, h) =
    insert_sorted-IsAscending x (sort_strings xs) (ground (arith, n, contains-sort_strings x xs))
      (sort_strings-IsAscending xs h)

-- The head of an ascending list is below no other member.
below_head :
    (x y : String) (ys : List String)
    → IsAscending (y ∷ ys)
    → string_ltb x y ≡ true
    → ¬ (x ∈ y ∷ ys)
below_head x y ys (below, h) p m = elim (text_dec y x) [
  | yes e ↦ ground (arith, p, ltb_irrefl x, subst (λ t. string_ltb x t ≡ true) e p)
  | no d ↦ ground (arith, ltb_irrefl x, ltb_trans x y x p (below x (ground (arith, m, d))))
]

head_absent : (x : String) (xs : List String) → IsAscending (x ∷ xs) → contains xs x ≡ false
head_absent x xs (below, h) = elim (Bool-cases (contains xs x)) [
  | inl m ↦ absurd (ground (arith, below x m, ltb_irrefl x))
  | inr n ↦ n
]

-- Two ascending lists with the same members are one list.
pub IsAscending-unique :
    (xs ys : List String)
    → IsAscending xs
    → IsAscending ys
    → ((z : String) → contains xs z ≡ contains ys z)
    → xs ≡ ys
IsAscending-unique [] [] hx hy h = refl
IsAscending-unique [] (y ∷ ys) hx hy h = absurd (ground (arith, h y, text_dec y y))
IsAscending-unique (x ∷ xs) [] hx hy h = absurd (ground (arith, h x, text_dec x x))
IsAscending-unique (x ∷ xs) (y ∷ ys) hx hy h =
    let same : x ≡ y = elim (ltb_total x y) [
      | inl p ↦ absurd (below_head x y ys hy p (ground (arith, h x, text_dec x x)))
      | inr (inl e) ↦ e
      | inr (inr p) ↦ absurd (below_head y x xs hx p (ground (arith, h y, text_dec y y)))
    ] in
    ap (λ z. z ∷ xs) same
    ∙ ap (λ zs. y ∷ zs)
        (IsAscending-unique xs ys hx.1 hy.1 (λ z. elim (text_dec x z) [
          | yes e ↦
              subst (λ t. contains xs t ≡ contains ys t) e
                (ground (
                  arith,
                  head_absent x xs hx,
                  subst (λ t. contains ys t ≡ false) (sym same) (head_absent y ys hy),
                ))
          | no d ↦ ground (arith, h z, d, same, text_dec y z)
        ]))
