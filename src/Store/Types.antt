-- ===== src/Store/Types.antt =====
-- internal/idp/storage.go: the store's records, the token requests and the errors.
use hoocloak.Base.{ℕ, ◌≡◌, refl, ◌⊎◌, inl, inr, String, List, [], Bool, false, Option, none}
use hoocloak.Base.Map.{Map}
use hoocloak.Client.{Client}
use hoocloak.Config.{TokenConfig, User}

-- A `time.Time` is the nanoseconds since Go's zero time, which is 0.
abbrev pub Time : Type 0
Time = ℕ

-- A `[32]byte`, written in hexadecimal.
abbrev pub Hash : Type 0
Hash = String

-- `[32]byte{}`.
abbrev pub zero_hash : Hash
zero_hash = "0000000000000000000000000000000000000000000000000000000000000000"

pub record CodeChallenge : Type 0 where
  pub challenge : String
  pub method : String

pub record AuthRequest : Type 0 where
  pub id : String
  pub client_id : String
  pub redirect_uri : String
  pub state : String
  pub nonce : String
  pub subject : String
  pub code : String
  pub code_challenge : Option CodeChallenge
  pub scopes : List String
  pub audience : List String
  pub amr : List String
  pub response_type : String
  pub response_mode : String
  pub created : Time
  pub expires : Time
  pub auth_time : Time
  pub done : Bool
  pub code_saved : Bool
  pub access_audience_returned : Bool
  pub completion_hash : Hash

pub record CodeRecord : Type 0 where
  pub request_id : String
  pub expires : Time
  pub reserved : Bool

pub record AccessRecord : Type 0 where
  pub id : String
  pub client_id : String
  pub subject : String
  pub audience : List String
  pub scopes : List String
  pub expires : Time
  pub issued_at : Time
  pub auth_time : Time
  pub amr : List String
  pub family_id : String

pub record RefreshRecord : Type 0 where
  pub family_id : String
  pub client_id : String
  pub subject : String
  pub audience : List String
  pub scopes : List String
  pub amr : List String
  pub auth_time : Time
  pub consumed : Bool
  pub access_id : String

pub record RefreshFamily : Type 0 where
  pub id : String
  pub client_id : String
  pub subject : String
  pub expires : Time
  pub revoked : Bool
  pub tokens : List Hash

-- A `*AuthRequest`. Callers keep such pointers after the store has forgotten the request, and a
-- token request is compared with the stored one as a pointer.
abbrev pub Ref : Type 0
Ref = ℕ

-- `heap` holds what each pointer below `next_ref` points to. The other pointers of the Go maps
-- never leave the store, and each stands in one entry, so those maps hold the values.
pub record Store : Type 0 where
  pub tokens : TokenConfig
  pub next_expiry : Time
  pub clients : Map String Client
  pub users : Map String User
  pub usernames : Map String String
  pub auth_requests : Map String Ref
  pub codes : Map String CodeRecord
  pub access : Map String AccessRecord
  pub refresh : Map Hash RefreshRecord
  pub families : Map String RefreshFamily
  pub signing_id : String
  pub heap : Ref → AuthRequest
  pub next_ref : Ref

-- A `*RefreshRequest` is made for one call of the provider, and the store keeps none.
pub record RefreshRequest : Type 0 where
  pub client_id : String
  pub subject : String
  pub family_id : String
  pub audience : List String
  pub scopes : List String
  pub amr : List String
  pub auth_time : Time
  pub access_audience_returned : Bool

pub record ServiceRequest : Type 0 where
  pub client_id : String
  pub subject : String
  pub audience : List String
  pub scopes : List String

-- The implementations of `op.TokenRequest` that the store tells apart; `other` is any type of
-- somebody else's, with what its own methods return.
pub data TokenRequest : Type 0 where
  auth : Ref → TokenRequest
  refresh : RefreshRequest → TokenRequest
  service : ServiceRequest → TokenRequest
  other : String → List String → TokenRequest

-- The errors that the store returns, by their constructors in the provider's library or their
-- texts here. `panic_nil_client` is the panic at `s.clients[clientID].config` for a nil client.
pub data Error : Type 0 where
  login_required invalid_request invalid_grant invalid_client invalid_scope server_error : Error
  invalid_refresh_token unsupported_grant_type : Error
  rand_failed unsupported_token_request panic_nil_client : Error
  request_missing request_done request_incomplete client_unavailable : Error
  invalid_credentials checks_busy completion_denied : Error
  logout_unverified invalid_client_credentials invalid_token token_inactive : Error
  user_not_found client_not_found jwt_unsupported : Error

pub data Result {ℓ} (A : Type ℓ) : Type ℓ where
  ok : A → Result A
  err : Error → Result A

pub Result-cases :
    {A : Type 0} (r : Result A) → ((a : A) × (r ≡ ok a)) ⊎ ((e : Error) × (r ≡ err e))
Result-cases (ok a) = inl (a, refl)
Result-cases (err e) = inr (e, refl)

-- What the code takes from the Go libraries: SHA-256, bcrypt's comparison of a hash with a
-- password, and `cases.Fold`.
pub record Crypto : Type 0 where
  pub sum256 : String → Hash
  pub matches : String → String → Bool
  pub fold : String → String

-- The zero values of Go's records.
abbrev pub zero_user : User
zero_user = record {
  id = "";
  username = "";
  password_hash = "";
  name = "";
  email = "";
  email_verified = false;
  roles = [];
  permissions = [];
}

abbrev pub zero_access : AccessRecord
zero_access = record {
  id = "";
  client_id = "";
  subject = "";
  audience = [];
  scopes = [];
  expires = 0;
  issued_at = 0;
  auth_time = 0;
  amr = [];
  family_id = "";
}

abbrev pub zero_auth : AuthRequest
zero_auth = record {
  id = "";
  client_id = "";
  redirect_uri = "";
  state = "";
  nonce = "";
  subject = "";
  code = "";
  code_challenge = none;
  scopes = [];
  audience = [];
  amr = [];
  response_type = "";
  response_mode = "";
  created = 0;
  expires = 0;
  auth_time = 0;
  done = false;
  code_saved = false;
  access_audience_returned = false;
  completion_hash = zero_hash;
}
