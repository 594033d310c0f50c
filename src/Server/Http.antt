-- ===== src/Server/Http.antt =====
-- What internal/idp/server.go uses of Go's net/http, and its own `oauthError`.
pub mod Written
use Prim.Native.Char.{code}
use Prim.Native.String.{◌++◌ as append}
use hoocloak.Base.{
  ℕ, ◌+◌, String, List, [], ◌∷◌, ◌++◌, Bool, true, false, not, ◌&&◌, ◌||◌, Option, none, some, ◌==◌,
  ltb, leb, text_dec, if◌then◌else◌,
}
use hoocloak.Base.Map.{Map, insert, erase}

-- A `url.Values`. `url.ParseQuery` only appends, so a key is there if its list is not empty.
abbrev pub Values : Type 0
Values = String → List String

abbrev pub first : List String → String
first [] = ""
first (v ∷ _) = v

-- `values.Get(key)`.
abbrev pub get : Values → String → String
get values key = first (values key)

-- `_, exists := values[key]`.
abbrev pub exists : Values → String → Bool
exists values key = elim (values key) [ [] ↦ false | _ ∷ _ ↦ true ]

-- The parts of a request that are read. `raw_path` is the path's encoding, empty where it is the
-- default one. `query` are the pairs of the raw query that parse, and
-- `query_ok` tells whether all do; `posted` and `posted_ok` are the same of a body read as a form.
-- `media_type` is what `mime.ParseMediaType` gives for the Content-Type header, `none` where it
-- fails, as it does for a missing header too; `basic` is `BasicAuth`.
pub record Request : Type 0 where
  pub method : String
  pub path : String
  pub raw_path : String
  pub query : Values
  pub query_ok : Bool
  pub posted : Values
  pub posted_ok : Bool
  pub body_bytes : ℕ
  pub media_type : Option String
  pub has_content_type : Bool
  pub authorization : String
  pub basic : Option (String × String)
  pub cookies : Map String String

-- `http.SameSite`, of which one mode is used.
pub data SameSite : Type 0 where
  default_mode lax strict none_mode : SameSite

-- `max_age` is in seconds, and the expiry is that long from now where it is not 0; a cookie that is
-- `deleted` has the age -1 and no expiry.
pub record Cookie : Type 0 where
  pub name : String
  pub value : String
  pub path : String
  pub max_age : ℕ
  pub deleted : Bool
  pub http_only : Bool
  pub secure : Bool
  pub same_site : SameSite

-- What is written to a body: a text, or the JSON object of `oauthError`.
pub data Chunk : Type 0 where
  text : String → Chunk
  oauth : String → String → Chunk

-- A `http.ResponseWriter`: `status` is 0 until the header is written.
pub record Response : Type 0 where
  pub status : ℕ
  pub headers : Map String (List String)
  pub cookies : List Cookie
  pub body : List Chunk

abbrev pub blank : Response
blank = record { status = 0; headers = []; cookies = []; body = [] }

-- `w.Header().Set(key, value)`.
unfoldable pub set_header : String → String → Response → Response
unfolding insert
set_header key value w = record w { headers = insert text_dec key (value ∷ []) w.headers }

-- `w.WriteHeader(status)`, of which only the first call counts.
unfoldable pub write_header : ℕ → Response → Response
write_header status w = if ltb 0 w.status then w else record w { status = status }

-- `w.Write(chunk)`, after which the status stands.
unfoldable pub write_chunk : Chunk → Response → Response
unfolding write_header
write_chunk chunk w = let w' = write_header 200 w in record w' { body = w'.body ++ chunk ∷ [] }

-- `http.SetCookie`.
unfoldable pub set_cookie : Cookie → Response → Response
set_cookie cookie w = record w { cookies = w.cookies ++ cookie ∷ [] }

-- `w.Header().Del(key)`.
unfoldable pub delete_header : String → Response → Response
unfolding erase
delete_header key w = record w { headers = erase text_dec key w.headers }

-- `http.Error`, which deletes the length of another body.
unfoldable pub http_error : String → ℕ → Response → Response
unfolding set_header delete_header write_header write_chunk
http_error message status w = write_chunk (text message) (
    write_header status (
      set_header "X-Content-Type-Options" "nosniff"
        (set_header "Content-Type" "text/plain; charset=utf-8" (delete_header "Content-Length" w))))

-- `http.NotFound`.
unfoldable pub not_found : Response → Response
unfolding http_error
not_found w = http_error "404 page not found" 404 w

-- What `ParseForm` leaves in `Form` and `PostForm`.
pub record Form : Type 0 where
  pub all : Values
  pub post : Values

abbrev pub form_media_type : String
form_media_type = "application/x-www-form-urlencoded"

abbrev pub is_form : Option String → Bool
is_form none = false
is_form (some media_type) = media_type == form_media_type

abbrev is_missing : Option String → Bool
is_missing none = true
is_missing (some _) = false

-- Does the body of a POST parse, where it is a form? A body that is none is not read.
unfoldable pub body_parses : ℕ → Request → Bool
body_parses limit r =
    if is_form r.media_type
    then r.posted_ok && leb r.body_bytes limit
    else not (is_missing r.media_type && r.has_content_type)

unfoldable pub post_form : Request → Values
post_form r key = if r.method == "POST" && is_form r.media_type then r.posted key else []

-- `ParseForm` of a GET or a POST, with the limit in bytes that `MaxBytesReader` sets on the body.
unfoldable pub parse_form : ℕ → Request → Option Form
unfolding body_parses
parse_form limit r =
    if not r.query_ok || (r.method == "POST" && not (body_parses limit r))
    then none
    else some (record { all = λ key. post_form r key ++ r.query key; post = post_form r })

-- The arguments of one call of `oauthError`.
pub record Refusal : Type 0 where
  pub status : ℕ
  pub error : String
  pub description : String
  pub basic : Bool

abbrev pub invalid_request : String → Refusal
invalid_request description = record {
  status = 400;
  error = "invalid_request";
  description = description;
  basic = false;
}

abbrev pub invalid_scope : String → Refusal
invalid_scope description = record (invalid_request description) { error = "invalid_scope" }

-- The one refusal of client credentials outside HTTP Basic authentication.
abbrev pub basic_required : Refusal
basic_required = record {
  status = 401;
  error = "invalid_client";
  description = "client credentials must use HTTP Basic authentication";
  basic = true;
}

abbrev pub basic_challenge : String
basic_challenge = "Basic realm=\"oauth/token\""

unfoldable pub oauth_error : Refusal → Response → Response
unfolding set_header write_header write_chunk
oauth_error e w =
    let w' =
      set_header "Cache-Control" "no-store" (set_header "Content-Type" "application/json" w) in
    let w'' = if e.basic then set_header "WWW-Authenticate" basic_challenge w' else w' in
    write_chunk (oauth e.error e.description) (write_header e.status w'')

-- The bytes of a text in UTF-8, as `len` counts them.
unfoldable pub byte_length : String → ℕ
byte_length String.[] = 0
byte_length (String.◌∷◌ c s) =
    let rest = byte_length s in
    if ltb (code c) 0x80
    then 1 + rest
    else if ltb (code c) 0x800
    then 2 + rest
    else if ltb (code c) 0x10000
    then 3 + rest
    else 4 + rest
