-- ===== src/Store/Families.antt =====
-- internal/idp/storage.go: what ties refresh-token families, refresh tokens and access tokens
-- together, `refreshFamily.tokens` among it.
pub mod Sweep
pub mod Revoke
pub mod Spend
pub mod Issue
pub mod Kept
pub mod Replay
pub mod Rotation
use hoocloak.Base.{◌≡◌, ◌≢◌, String, List, [], ◌∷◌, Bool, true, false, Option, none, some, text_dec}
use hoocloak.Base.Map.{Map, lookup}
use hoocloak.Base.Map.NoShadow.{NoShadow}
use hoocloak.Store.Types.{Hash, AccessRecord, RefreshRecord, RefreshFamily, Store}

-- The record of a hash in a family's index: a live one of the family.
abbrev pub Owned : String → Option RefreshRecord → Type 0
Owned id none = ⊥
Owned id (some r) = (r.family_id ≡ id) × (r.consumed ≡ false)

-- The index of a family is empty, or holds its one live token.
abbrev pub Index : String → List Hash → Map Hash RefreshRecord → Type 0
Index id [] refresh = Unit
Index id (h ∷ []) refresh = Owned id (lookup text_dec h refresh)
Index id (h ∷ h' ∷ hs) refresh = ⊥

-- A refresh record has its family, and a live one is the family's index.
abbrev pub Linked : Option RefreshFamily → Hash → RefreshRecord → Type 0
Linked none h r = ⊥
Linked (some f) h r = (r.client_id ≡ f.client_id) × (r.consumed ≡ false → f.tokens ≡ h ∷ [])

-- While an access token's family is there, so is the live refresh token that was issued with it.
abbrev pub Backed : Map Hash RefreshRecord → String → AccessRecord → Option RefreshFamily → Type 0
Backed refresh a r none = Unit
Backed refresh a r (some f) =
    (h : Hash) × (q : RefreshRecord) × (lookup text_dec h refresh ≡ some q)
    × (q.family_id ≡ r.family_id)
    × (q.consumed ≡ false)
    × (q.access_id ≡ a)

pub record Links (families : Map String RefreshFamily) (refresh : Map Hash RefreshRecord)
    (access : Map String AccessRecord) : Type 0 where
  pub clean : NoShadow text_dec families
  pub named :
      (id : String) (f : RefreshFamily)
      → lookup text_dec id families ≡ some f
      → (f.id ≡ id) × (id ≢ "")
  pub index :
      (id : String) (f : RefreshFamily)
      → lookup text_dec id families ≡ some f
      → Index id f.tokens refresh
  pub linked :
      (h : Hash) (r : RefreshRecord)
      → lookup text_dec h refresh ≡ some r
      → Linked (lookup text_dec r.family_id families) h r
  pub backed :
      (a : String) (r : AccessRecord)
      → lookup text_dec a access ≡ some r
      → Backed refresh a r (lookup text_dec r.family_id families)

abbrev pub IsLinked : Store → Type 0
IsLinked s = Links s.families s.refresh s.access

-- The support of an access token, when the live tokens of its family that name it stay.
pub Backed-mono :
    (m m' : Map Hash RefreshRecord) (a : String) (r : AccessRecord) (o : Option RefreshFamily)
    → ((h : Hash) (q : RefreshRecord)
        → lookup text_dec h m ≡ some q
        → q.family_id ≡ r.family_id
        → q.consumed ≡ false
        → q.access_id ≡ a
        → lookup text_dec h m' ≡ some q)
    → Backed m a r o
    → Backed m' a r o
Backed-mono m m' a r none f b = tt
Backed-mono m m' a r (some g) f (h, q, found, same, live, mine) =
    (h, q, f h q found same live mine, same, live, mine)
