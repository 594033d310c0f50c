-- ===== src/Tests.antt =====
-- A small realm to run the store on.
mod Runs
mod Families
mod Schedule
mod Accepted
mod Logins
mod Hosts
mod Live
mod Gates
mod Pages
mod Policy
mod Served
use hoocloak.Base.{String, List, [], ◌∷◌, true, false, none}
use hoocloak.Client.{Client}
use hoocloak.Config.{TokenConfig, User, ClientConfig}
use hoocloak.Store.Types.{
  Time, AuthRequest, CodeRecord, AccessRecord, RefreshRecord, RefreshFamily, Store, Crypto,
  zero_auth,
}
use hoocloak.Base.{◌==◌}

-- A hash that is its own text, and passwords that are their own hashes.
abbrev pub crypto : Crypto
crypto = record {
  sum256 = λ text. text;
  matches = λ hash password. hash == password;
  fold = λ name. name;
}

abbrev pub token_config : TokenConfig
token_config = record { access_ttl = 100; id_ttl = 100; refresh_ttl = 1000 }

abbrev pub ada : User
ada = record {
  id = "u1";
  username = "ada";
  password_hash = "secret";
  name = "Ada";
  email = "ada@example.test";
  email_verified = true;
  roles = "admin" ∷ [];
  permissions = "read" ∷ [];
}

abbrev pub spa : ClientConfig
spa = record {
  id = "spa";
  type = "spa";
  secret_hash = "";
  name = "App";
  redirect_uris = "http://localhost/cb" ∷ [];
  post_logout_redirect_uris = [];
  origins = "http://localhost" ∷ [];
  audiences = "api" ∷ [];
  allowed_scopes = "openid" ∷ "read" ∷ "write" ∷ [];
  roles = [];
  permissions = [];
}

abbrev pub worker : ClientConfig
worker = record {
  id = "worker";
  type = "service";
  secret_hash = "key";
  name = "";
  redirect_uris = [];
  post_logout_redirect_uris = [];
  origins = [];
  audiences = "api" ∷ [];
  allowed_scopes = "read" ∷ [];
  roles = "robot" ∷ [];
  permissions = "read" ∷ [];
}

abbrev pub client : ClientConfig → Client
client c = record {
  config = c;
  provider_redirect_uris = [];
  id_ttl = 100;
  base_path = "/realms/r";
  dev = true;
}

-- The store of the realm, with nothing pending.
abbrev pub empty : Store
empty = record {
  tokens = token_config;
  next_expiry = 0;
  clients = ("spa", client spa) ∷ ("worker", client worker) ∷ [];
  users = ("u1", ada) ∷ [];
  usernames = ("ada", "u1") ∷ [];
  auth_requests = [];
  codes = [];
  access = [];
  refresh = [];
  families = [];
  signing_id = "kid";
  heap = λ p. zero_auth;
  next_ref = 0;
}

-- A pending authorization request of the client.
abbrev pub pending_request : AuthRequest
pending_request = record zero_auth {
  id = "req";
  client_id = "spa";
  scopes = "openid" ∷ "read" ∷ "write" ∷ [];
  expires = 50;
}

abbrev pub pending : Store
pending = record empty {
  next_expiry = 50;
  auth_requests = ("req", 0) ∷ [];
  heap = λ p. pending_request;
  next_ref = 1;
}

-- The request after a login, with its code saved.
abbrev pub coded_request : AuthRequest
coded_request = record pending_request {
  subject = "u1";
  code = "code";
  scopes = "openid" ∷ "read" ∷ [];
  done = true;
  code_saved = true;
}

abbrev pub coded : Store
coded = record pending {
  heap = λ p. coded_request;
  codes = ("code", record { request_id = "req"; expires = 50; reserved = false }) ∷ [];
}

-- A family whose first token has been spent for the second.
abbrev pub spent_token : RefreshRecord
spent_token = record {
  family_id = "f";
  client_id = "spa";
  subject = "";
  audience = [];
  scopes = [];
  amr = [];
  auth_time = 0;
  consumed = true;
  access_id = "";
}

abbrev pub live_token : RefreshRecord
live_token = record spent_token {
  subject = "u1";
  scopes = "openid" ∷ [];
  consumed = false;
  access_id = "a2";
}

abbrev pub family : RefreshFamily
family = record {
  id = "f";
  client_id = "spa";
  subject = "u1";
  expires = 1000;
  revoked = false;
  tokens = "t2" ∷ [];
}

abbrev pub live_access : AccessRecord
live_access = record {
  id = "a2";
  client_id = "spa";
  subject = "u1";
  audience = "api" ∷ [];
  scopes = "openid" ∷ [];
  expires = 110;
  issued_at = 10;
  auth_time = 5;
  amr = "pwd" ∷ [];
  family_id = "f";
}

abbrev pub refreshed : Store
refreshed = record empty {
  next_expiry = 110;
  access = ("a2", live_access) ∷ [];
  refresh = ("t2", live_token) ∷ ("t1", spent_token) ∷ [];
  families = ("f", family) ∷ [];
}
