-- ===== src/Store/Calls/Fresh.antt =====
-- What the random identifiers of a call are relied on for.
use hoocloak.Base.{◌≡◌, ◌≢◌, String, Option, none, some, List, [], ◌∷◌, text_dec}
use hoocloak.Base.Map.{Map, lookup}
use hoocloak.Store.Types.{Store, Crypto, AccessRecord}
use hoocloak.Store.Calls.{Call, step}

-- A random string that is no key of the map.
abbrev pub Absent : {V : Type 0} → Option String → Map String V → Type 0
Absent none m = Unit
Absent (some k) m = lookup text_dec k m ≡ none

-- A random string that has never named a family: no family has it, nor does an access token.
abbrev pub NewFamily : Option String → Store → Type 0
NewFamily none s = Unit
NewFamily (some id) s =
    (id ≢ "")
    × (lookup text_dec id s.families ≡ none)
    × ((a : String) (r : AccessRecord) → lookup text_dec a s.access ≡ some r → r.family_id ≢ id)

module _ (crypto : Crypto) where
  -- What `crypto/rand` is relied on for: a new identifier is not in use.
  abbrev pub IsFresh : Store → Call → Type 0
  IsFresh s (Call.create_auth_request now random request user) = Absent random s.auth_requests
  IsFresh s (Call.create_access_token now random request) = Absent random s.access
  IsFresh s (Call.create_access_and_refresh_tokens now none access family request current) = Unit
  IsFresh s (Call.create_access_and_refresh_tokens now (some token) access family request current) =
      (lookup text_dec (crypto.sum256 token) s.refresh ≡ none)
      × Absent access s.access
      × NewFamily family s
  IsFresh s _ = Unit

  abbrev pub AllFresh : Store → List Call → Type 0
  AllFresh s [] = Unit
  AllFresh s (call ∷ rest) = IsFresh s call × AllFresh (step crypto s call) rest
