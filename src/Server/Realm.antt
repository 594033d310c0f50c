-- ===== src/Server/Realm.antt =====
-- internal/idp/server.go: the server of a realm, and what it takes from the libraries.
use Prim.Native.String.{◌++◌ as append}
use hoocloak.Base.{String, List, Bool, Option}
use hoocloak.Store.Types.{Store, Crypto, Hash}
use hoocloak.Server.Http.{Request, Response}

pub record LoginIdentity : Type 0 where
  pub id : String
  pub username : String
  pub name : String
  pub email : String

pub record LoginData : Type 0 where
  pub base_path : String
  pub request_id : String
  pub client : String
  pub csrf : String
  pub mode : String
  pub username : String
  pub selected_id : String
  pub error : String
  pub identities : List LoginIdentity

-- An opened file of the theme: `Stat` succeeds, it is a directory, and it is an `io.ReadSeeker`.
pub record Asset : Type 0 where
  pub stat_ok : Bool
  pub is_dir : Bool
  pub seekable : Bool
  pub content : String

-- A `realmServer`, without the provider, the store and the page templates, which are arguments.
pub record Realm : Type 0 where
  pub login_mode : String
  pub issuer : String
  pub base_path : String
  pub secure_cookies : Bool
  pub discovery_json : String
  pub csp : String
  pub identities : List LoginIdentity
  pub origins : List String

-- The libraries: the cryptography of the store; base64 of the first sixteen bytes of a digest;
-- the templates of the login page and the page after a logout, which give `none` if they fail; the
-- provider's URL for a completed request; the provider as the handler behind the gates; the files
-- of the theme, the media type of a name, and `http.ServeContent`; the CORS policy for the origins,
-- with whether it goes on to the handler; and the answer of a `http.ServeMux` to a path that is
-- not clean.
pub record Web : Type 0 where
  pub crypto : Crypto
  pub short_name : Hash → String
  pub login_page : LoginData → Option String
  pub logged_out_page : String → Option String
  pub callback_url : String → String
  pub provider : Store → Request → Response → Store × Response
  pub open_asset : String → Option Asset
  pub type_of : String → String
  pub serve_content : Request → Asset → Response → Response
  pub cors : List String → Request → Response → Response × Bool
  pub mux_redirect : Request → Response → Option Response

module _ (web : Web) where
  open web use {crypto, short_name}

  unfoldable pub completion_cookie_name : String → String
  completion_cookie_name request_id =
      append "hoocloak_completion_" (short_name (crypto.sum256 request_id))

  unfoldable pub csrf_cookie_name : String → String
  csrf_cookie_name request_id = append "hoocloak_csrf_" (short_name (crypto.sum256 request_id))
