-- ===== src/Server/Protocol/Userinfo.antt =====
-- What internal/idp/server.go passes on of the provider's answer to a userinfo request.
use hoocloak.Base.{
  none, ite, contains, false, ◌≡◌, refl, sym, subst, ◌⊎◌, ◌≢◌, String, List, [], ◌∷◌, ◌++◌, arith,
  text_dec, some, if◌then◌else◌, ltb,
}
use hoocloak.Base.Map.{Map, lookup}
use hoocloak.Store.Types.{Store}
use hoocloak.Server.Http.{
  Request, Response, Chunk, blank, set_header, write_header, write_chunk, http_error, delete_header,
}
use hoocloak.Server.Http.Written.{write_chunk-headers}
use hoocloak.Base.Map.Laws.{lookup-insert, lookup-erase}
use hoocloak.Server.Realm.{Realm, Web}
use hoocloak.Server.Protocol.{add_headers, pass_on, userinfo_response}

abbrev bearer_challenge : String
bearer_challenge = "Bearer error=\"invalid_token\""

-- The headers that a refusal sets or deletes.
abbrev pub refusal_headers : List String
refusal_headers =
    "WWW-Authenticate" ∷ "Content-Type" ∷ "X-Content-Type-Options" ∷ "Content-Length" ∷ []

-- The answer that is made of a refusal, which leaves the other headers of the response alone.
pub record Refuses (w w' : Response) : Type 0 where
  pub status : w'.status ≡ 401
  pub challenge : lookup text_dec "WWW-Authenticate" w'.headers ≡ some (bearer_challenge ∷ [])
  pub content_type :
      lookup text_dec "Content-Type" w'.headers ≡ some ("text/plain; charset=utf-8" ∷ [])
  pub options : lookup text_dec "X-Content-Type-Options" w'.headers ≡ some ("nosniff" ∷ [])
  pub content_length : lookup text_dec "Content-Length" w'.headers ≡ none
  pub others :
      (key : String)
      → contains refusal_headers key ≡ false
      → lookup text_dec key w'.headers ≡ lookup text_dec key w.headers
  pub body : w'.body ≡ w.body ++ Chunk.text "invalid_token" ∷ []
  pub cookies : w'.cookies ≡ w.cookies

-- A refusal shows nothing of the provider's answer; any other answer is passed on.
pub record Masks (capture w w' : Response) : Type 0 where
  pub refused : (capture.status ≡ 401) ⊎ (capture.status ≡ 403) → Refuses w w'
  pub passed :
      capture.status ≢ 401
      → capture.status ≢ 403
      → (w'.status ≡ (if ltb 0 capture.status then capture.status else 200))
        × (w'.body ≡ w.body ++ capture.body)
        × (w'.cookies ≡ w.cookies ++ capture.cookies)

add_headers-kept :
    (m : Map String (List String)) (w : Response)
    → ((add_headers m w).status ≡ w.status)
      × ((add_headers m w).body ≡ w.body)
      × ((add_headers m w).cookies ≡ w.cookies)
unfolding add_headers
add_headers-kept [] w = (refl, refl, refl)
add_headers-kept ((key, values) ∷ rest) w = add_headers-kept rest _

pass_on-Passed :
    (capture w : Response)
    → w.status ≡ 0
    → ((pass_on capture w).status ≡ (if ltb 0 capture.status then capture.status else 200))
      × ((pass_on capture w).body ≡ w.body ++ capture.body)
      × ((pass_on capture w).cookies ≡ w.cookies ++ capture.cookies)
unfolding pass_on write_header
pass_on-Passed capture w z = (
  ground (arith, z, add_headers-kept capture.headers w),
  ground (arith, z, add_headers-kept capture.headers w),
  ground (arith, z, add_headers-kept capture.headers w),
)

-- The answer that hides the provider's.
abbrev hidden : Response → Response
hidden w = http_error "invalid_token" 401 (set_header "WWW-Authenticate" bearer_challenge w)

-- Each header of the answer, by its name.
hidden-header :
    (key : String) (w : Response)
    → lookup text_dec key (hidden w).headers
      ≡ ite (text_dec "X-Content-Type-Options" key) (some ("nosniff" ∷ [])) (
          ite (text_dec "Content-Type" key) (some ("text/plain; charset=utf-8" ∷ [])) (
            ite (text_dec "Content-Length" key) none (
              ite
                (text_dec "WWW-Authenticate" key)
                (some (bearer_challenge ∷ []))
                (lookup text_dec key w.headers))))
unfolding http_error set_header delete_header
hidden-header key w =
    let w1 = set_header "WWW-Authenticate" bearer_challenge w in
    let w2 = delete_header "Content-Length" w1 in
    let w3 = set_header "Content-Type" "text/plain; charset=utf-8" w2 in
    ground (
      arith,
      write_chunk-headers (Chunk.text "invalid_token") 401
          (set_header "X-Content-Type-Options" "nosniff" w3),
      lookup-insert text_dec "X-Content-Type-Options" key ("nosniff" ∷ []) w3.headers,
      lookup-insert text_dec "Content-Type" key ("text/plain; charset=utf-8" ∷ []) w2.headers,
      lookup-erase text_dec "Content-Length" key w1.headers,
      lookup-insert text_dec "WWW-Authenticate" key (bearer_challenge ∷ []) w.headers,
    )

hidden_others :
    (key : String) (w : Response)
    → contains refusal_headers key ≡ false
    → lookup text_dec key (hidden w).headers ≡ lookup text_dec key w.headers
hidden_others key w n = ground (
  arith,
  hidden-header key w,
  n,
  text_dec "WWW-Authenticate" key,
  text_dec "Content-Type" key,
  text_dec "X-Content-Type-Options" key,
  text_dec "Content-Length" key,
)

hidden-Refuses : (w : Response) → w.status ≡ 0 → Refuses w (hidden w)
unfolding http_error write_header write_chunk set_header delete_header text_dec
hidden-Refuses w z = record {
  status = ground (arith, z);
  challenge = hidden-header "WWW-Authenticate" w;
  content_type = hidden-header "Content-Type" w;
  options = hidden-header "X-Content-Type-Options" w;
  content_length = hidden-header "Content-Length" w;
  others = λ key n. hidden_others key w n;
  body = ground (arith, z);
  cookies = ground (arith, z);
}

module _ (web : Web) (realm : Realm) (s : Store) (r : Request) (w : Response) where
  -- A 401 or 403 of the provider to a userinfo request, with an empty response so far, is answered
  -- by 401 with a bearer challenge, the text invalid_token as plain text and no sniffing, no
  -- Content-Length, and every other header and the cookies as they were before: nothing of the
  -- provider's answer, not its headers either. Any other answer is passed on with its status, 200
  -- where it has none, its body and its cookies.
  pub userinfo_response-Masks :
      w.status ≡ 0 → Masks (web.provider s r blank).1 w (userinfo_response web realm s r w).1
  unfolding userinfo_response
  userinfo_response-Masks z =
      let capture = (web.provider s r blank).1 in
      record {
        refused = λ h.
            let same : (userinfo_response web realm s r w).1 ≡ hidden w = ground (arith, h) in
            subst (Refuses w) (sym same) (hidden-Refuses w z);
        passed = λ n m.
            let same : (userinfo_response web realm s r w).1 ≡ pass_on capture w =
              ground (arith, n, m) in
            subst
              (λ x.
                (x.status ≡ (if ltb 0 capture.status then capture.status else 200))
                × (x.body ≡ w.body ++ capture.body)
                × (x.cookies ≡ w.cookies ++ capture.cookies))
              (sym same) (pass_on-Passed capture w z);
      }
