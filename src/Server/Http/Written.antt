-- ===== src/Server/Http/Written.antt =====
-- What is left in a response after a write.
use hoocloak.Base.{◌≢◌, ◌≡◌, ℕ, ◌<◌, String, [], ◌∷◌, some, arith, text_dec}
use hoocloak.Base.Map.{lookup}
use hoocloak.Base.Map.Laws.{lookup-insert, lookup-erase}
use hoocloak.Server.Http.{
  Response, Chunk, Refusal, set_header, write_header, write_chunk, delete_header, http_error,
  oauth_error,
}

pub http_error-status :
    (message : String) (status : ℕ) (w : Response)
    → w.status ≡ 0
    → 0 < status
    → (http_error message status w).status ≡ status
unfolding http_error write_header write_chunk set_header delete_header
http_error-status message status w z p = ground (arith, z, p)

pub oauth_error-status :
    (e : Refusal) (w : Response) → w.status ≡ 0 → 0 < e.status → (oauth_error e w).status ≡ e.status
unfolding oauth_error write_header write_chunk set_header delete_header
oauth_error-status e w z p = ground (arith, z, p)

-- A header that was set last is found.
pub lookup-set_header :
    (key value : String) (w : Response)
    → lookup text_dec key (set_header key value w).headers ≡ some (value ∷ [])
unfolding set_header
lookup-set_header key value w =
    ground (arith, lookup-insert text_dec key key (value ∷ []) w.headers, text_dec key key)

pub write_chunk-headers :
    (chunk : Chunk) (status : ℕ) (w : Response)
    → (write_chunk chunk (write_header status w)).headers ≡ w.headers
unfolding write_header write_chunk
write_chunk-headers chunk status w = ground arith

pub http_error-cookies :
    (message : String) (status : ℕ) (w : Response)
    → (http_error message status w).cookies ≡ w.cookies
unfolding http_error write_header write_chunk set_header delete_header
http_error-cookies message status w = ground arith

-- A header that an error keeps, with a name that it does not set.
pub lookup-http_error :
    (key message : String) (status : ℕ) (w : Response)
    → ◌≢◌ {A = String} "Content-Length" key
    → ◌≢◌ {A = String} "Content-Type" key
    → ◌≢◌ {A = String} "X-Content-Type-Options" key
    → lookup text_dec key (http_error message status w).headers ≡ lookup text_dec key w.headers
unfolding http_error set_header delete_header
lookup-http_error key message status w l n m =
    let w' = delete_header "Content-Length" w in
    let w'' = set_header "Content-Type" "text/plain; charset=utf-8" w' in
    ground (
      arith,
      write_chunk-headers (Chunk.text message) status
          (set_header "X-Content-Type-Options" "nosniff" w''),
      lookup-insert text_dec "X-Content-Type-Options" key ("nosniff" ∷ []) w''.headers,
      lookup-insert text_dec "Content-Type" key ("text/plain; charset=utf-8" ∷ []) w'.headers,
      lookup-erase text_dec "Content-Length" key w.headers,
      l,
      n,
      m,
    )
