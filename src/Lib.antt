-- ===== src/Lib.antt =====
-- Hoocloak, an OpenID Connect provider for development: a model of its in-memory token store, of its
-- configuration's checks, and of the HTTP handlers in front of the provider library.
--
-- The store (internal/idp/storage.go) keeps authorization requests, authorization codes, access
-- tokens, refresh tokens and refresh-token families behind one mutex. A realm's handler
-- (internal/idp/server.go) checks a request at the gates of its path and hands it to the provider of
-- the zitadel library, which calls the store; the login handler calls it for the login page. Every
-- operation of the store is a function from the store and the time, which the clock gives in the
-- program, to the store after it and a result; a handler is a function from the store, the request
-- and the response so far to the store and the response.
--
--   Base             shared names: text, lists, options, checks in order (Base.Checks), and maps as
--                    association lists (Base.Map)
--   Config           internal/config/config.go: its records; Config.Text what it uses of `strings`
--   Config.Rules     requireID, validBcrypt, validatePermissions, validateScopeTokens,
--                    validateNonemptyUnique
--   Config.Ipv4      endsInIPv4Number, parseBrowserIPv4Host, parseBrowserIPv4Number, isRadixDigits
--   Config.Ipv6      serializeIPv6
--   Config.Url       validateAbsoluteURL to canonicalIPv6Host, IsLocalHost
--   Config.Validate  Validate and validateListen
--   Config.Accepted  what a configuration that Validate accepts has
--   Client           internal/idp/client.go
--   Store.Types      the records of storage.go, errors, and the cryptography as a parameter
--   Store.Prune      scheduleExpiryLocked and pruneLocked
--   Store.Requests   CreateAuthRequest, AuthRequestByID, AuthRequestByCode, SaveAuthCode,
--                    DeleteAuthRequest, and the methods of AuthRequest and RefreshRequest
--   Store.Login      compareCredential, Authenticate, SelectIdentity, the completion secrets,
--                    LoginInfo
--   Store.Sessions   TokenRequestByRefreshToken, TerminateSession, GetRefreshTokenInfo, RevokeToken
--                    and what they share with rotation
--   Store.Access     reserveAuthorizationCodeLocked, CreateAccessToken, tokenRequestInfo
--   Store.Tokens     CreateAccessAndRefreshTokens
--   Store.Clients    NewStore, GetClientByClientID, AuthorizeClientIDSecret, ClientCredentials,
--                    ClientCredentialsTokenRequest
--   Store.Info       userinfo, introspection, private claims, applicationScopes
--   Store.Calls      the store as a state machine: one call for each critical section, so that a
--                    list of calls is an interleaving of the provider's goroutines
--   Store.Families   what ties families, refresh tokens and access tokens together
--   Store.Codes      authorization codes over a list of calls
--   Store.Pending    the bound on pending requests over a list of calls
--   Store.Served     the invariants together, from NewStore on
--   Server.Http      what is used of net/http: forms, requests, responses, http.Error; oauthError
--   Server.Pkce      validS256CodeChallenge, validCodeVerifier
--   Server.Gates     authorizeGate, tokenGate, mutationClientAuthenticationGate and the cases of
--                    protocolGates; rejectRepeatedFormParameters
--   Server.Realm     realmServer, the page data, the cookies' names, and the libraries as a record
--   Server.Protocol  protocolGates, callbackGate, providerEndpointMethods, methodAllowed,
--                    userinfoResponse
--   Server.Login     login, loginGET, loginPOST, renderLogin, loggedOut, securityHeaders, discovery
--   Server.Sorted    sort.Strings
--   Server.Origins   configuredScopes, configuredOrigins, configuredRedirectOrigins,
--                    canonicalRedirectOrigin, validPort, portSuffix, the Content-Security-Policy
--   Server.Handler   the handler of a realm, its routes, and asset
--   Server.Realms    NewServer's loops over the realms and the keys, RealmIssuer
--   Server.Root      the root router: redirects, probes, and the realms behind StripPrefix
--   Server.Html      browserHTMLWalker; Server.Html.Attributes validateRawHTMLAttributeNames and
--                    Server.Html.Relative validatedHTMLTag, validateRealmRelativeURLs,
--                    srcsetCandidates, isRootRelativeLoginURL
--   Command          cmd/hoocloak/main.go: run, hashValue, applyEnvironmentOverrides, serve up to the
--                    listener, health; the init of internal/version/version.go
--   Tests            a small realm, and the theorems at it
--
-- Representation. A pointer *AuthRequest is a number into `heap`, since a caller may keep it after
-- the map has lost it; `next_ref` is the next one. Refresh records and families are reached through
-- the maps alone, so a write through their pointers is an insert. Times are nanoseconds in ℕ, with
-- 0 for the zero time; they and the durations are taken to stay inside int64. A SHA-256 digest is a
-- text, and `zero_hash` the array of zeros. What `randomID` returns is an argument, `none` where
-- crypto/rand fails; the theorems over calls take the identifiers to be new, as 32 random bytes are.
-- Reading a missing client through a nil pointer panics: the model returns `panic_nil_client`. The
-- configuration's checks return the kind of the error, without the position in its message.
--
-- A response is its status, headers, cookies and body; a form is a function from a key to its
-- values. While a login is handled, other requests may call the store: the model takes what they do
-- to it as arguments. Go's visit of a map in an order of its own is a parameter. Text that is
-- scanned is a list of codes.
--
-- The recursion is structural, but for four loops on fuel: the digits of a number, twenty, which a
-- 64-bit number does not exceed; and the loops over a tag's text, a set of sources and a page, whose
-- fuel is one more than the length of what is left to read, of which each turn reads some.
--
-- Not modelled: the zitadel provider, the HTTP server, the fields and order of
-- the login form's HTML (validateLoginHTML) and the reading of themes, reading the configuration
-- from YAML, RSA keys, the listener with its signals, and the browser UI. bcrypt, SHA-256, Unicode case folding
-- and lowering, idna, the URL and IP parsers, the CORS policy, the templates and the HTML tokenizer
-- are parameters.
pub mod Base
pub mod Config
pub mod Client
pub mod Store
pub mod Server
pub mod Command
mod Tests
