-- ===== src/Server/Handler/Confined.antt =====
-- Only files below the theme's directory are served.
use hoocloak.Base.{
  ◌≡◌, refl, sym, subst, text_dec, [], ◌∷◌, String, List, true, false, Option, arith, Bool-cases,
  inl, inr,
}
use hoocloak.Config.Text.{Text, codes, split, trim_prefix}
use hoocloak.Server.Origins.{has_text}
use hoocloak.Server.Http.{Request, Response}
use hoocloak.Server.Realm.{Realm, Web, Asset}
use hoocloak.Server.Handler.{all_elements, valid_path, asset}

-- The same server over other files.
abbrev pub with_files : Web → (String → Option Asset) → Web
with_files web files = record web { open_asset = files }

-- A relative name that does not climb: no part of it is empty or "..".
abbrev pub IsBelow : String → Type 0
IsBelow name =
    (has_text (split b'/' (codes name)) [] ≡ false)
    × (has_text (split b'/' (codes name)) (codes "..") ≡ false)

elements-IsBelow :
    (parts : List Text)
    → all_elements parts ≡ true
    → (has_text parts [] ≡ false) × (has_text parts (codes "..") ≡ false)
elements-IsBelow [] e = (refl, refl)
elements-IsBelow (part ∷ rest) e =
    let more = elements-IsBelow rest (ground (arith, e)) in
    (ground (arith, e, more), ground (arith, e, more))

valid_path-IsBelow : (name : String) → valid_path name ≡ true → IsBelow name
unfolding valid_path split
valid_path-IsBelow name e = elim (text_dec name ".") [
  | yes dot ↦ subst IsBelow (sym dot) (refl, refl)
  | no other ↦ elements-IsBelow (split b'/' (codes name)) (ground (arith, e, other))
]

-- The answer to a request for an asset depends only on the theme's files whose names do not climb:
-- two file systems that agree on the names with no empty part and no part '..' give the same answer
-- to any request.
pub asset-confined :
    (web : Web) (realm : Realm) (files other : String → Option Asset) (r : Request) (w : Response)
    → ((name : String) → IsBelow name → files name ≡ other name)
    → asset (with_files web files) realm r w ≡ asset (with_files web other) realm r w
unfolding asset
asset-confined web realm files other r w h =
    let name = trim_prefix "/assets/" r.path in
    elim (Bool-cases (valid_path name)) [
      | inr n ↦ ground (arith, n)
      | inl y ↦ ground (arith, y, h name (valid_path-IsBelow name y))
    ]
