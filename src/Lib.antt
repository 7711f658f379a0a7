-- ===== src/Lib.antt =====
-- TenantDeck: the Go backend of a read-only dashboard over a Capsule multi-tenant cluster.
--
-- Parts and files
-- - Base: shared names, Go's errors (Base/Errors), calls that change the world (Base/Io).
-- - Std: what the program uses of Go's standard library, written out: regexp, strconv, strings,
--   base64, encoding/json over trees (with Unmarshal's rules for names, null and kinds), net/http
--   requests, response writers, cookies and the mux, and handlers as sequences of steps that may
--   answer and return (Std/Handler).
-- - Session: internal/session. Records (Record, LoginTransaction), Crypto (crypto.go), Backend
--   (backend.go, redis_backend.go), Codec (the JSON form of the stored structs), Store
--   (store.go). Contract states what the backend, the cipher and the random source promise; Keys,
--   Sealing, Puts, RoundTrip and OneUse hold the proofs. Spec is the store with no word of keys,
--   ciphers or bytes: two tables and what each call may return. Tables, Shows and Creates relate
--   them to a database, Simulate takes one call and Refine any sequence of calls, Origin asks
--   where records come from.
-- - Auth: internal/auth. Cookies (cookies.go), Oidc (oidc.go, random.go), Sessions
--   (session_handlers.go), Setup (NewHandler), with proofs in Oidc/Callback, Oidc/Failure,
--   Oidc/Replay, Sessions/Logout, Hardening.
-- - Capsule: internal/capsule. Client (client.go), Logs (logs.go), proofs in Client/Bounded.
-- - Httpapi: internal/httpapi. One module for each file of the package (Workloads has Pods and
--   Batch below it, Summaries is what the summaries share), proofs below them (Logs/Options,
--   Logs/Copy, Logs/Outbound, Middleware/Session, Middleware/SignedIn, Resources/Replies,
--   Router/Table, Router/Gate, Router/Outbound, Validate/Labels, Workloads/Readiness), Paths for
--   the upstream paths that docs/route-allowlist.md allows, and Upstream for what each of the
--   other routes sends out.
-- - Config: internal/config/config.go, with what a loaded configuration satisfies in
--   Config/Startup, and internal/config/redis_tls.go in Config/RedisTls.
-- - Webassets: internal/webassets/handler.go, with its fallback behind the router in Fallback.
-- - Process: cmd/tenantdeck/main.go, which builds all of the above and listens; Ready has what
--   holds when it does.
-- - Mockoidc: cmd/mockoidc, the identity provider of the end-to-end tests, which is no part of
--   the product. Authorize and Token are its endpoints, Routes the rest; proofs in Token/Issue,
--   Token/OneUse and Flow; Token/Claims says what an ID token holds.
-- - Examples: an instance of every parameter in memory, and each theorem at a concrete input.
--
-- How state and calls correspond
-- The world outside the program is a type parameter W. A Go call that can fail and act on the
-- world is a function W → Result A × W; a handler also carries the response writer. A method's
-- receiver is its first argument. Go's early returns after http.Error are steps that answer. A
-- CallbackHandler is split in four functions at its early returns (callback_handler, match_state,
-- redeem, open_session), which call one another in the source's order. What the mock provider
-- does under its mutex is one function for each locked section, so that requests can be
-- interleaved between them. Process.run has a function for each part that a return can leave
-- early; its deferred Close comes last on every path.
--
-- Parameters
-- go-redis, AES-256-GCM, crypto/rand, the text layer of encoding/json and of time.Time, the
-- relying party of zitadel/oidc with its discovery, net/http's transport, server and file server,
-- url.Parse, the reading of files and of certificates, the RSA key and jose, the splitting of a
-- request's path, the reads and writes of a log stream, fmt.Sprint of a number, list or object,
-- the environment and the clock are parameters; the contracts that some theorems need are records
-- (IsKeyValue, IsApart, IsAead, IsRandom, IsJsonText, IsOutside). A call of the backend is
-- atomic; what expires, and what other replicas do, are steps between calls.
--
-- Bounds
-- Numbers are natural numbers, times are nanoseconds since Go's zero time, time.Until saturates
-- at the limits of int64, and ParseInt refuses what a word does not hold. FormatInt has fuel for
-- 20 digits, which covers int64 (Std/Strconv/Digits). No other loop takes fuel.
--
-- Not modelled
-- Texts are sequences of Unicode characters: invalid UTF-8 is left out. int(ttl.Seconds()) is
-- whole seconds without the rounding of the float. Log lines, contexts, timeouts and the closing
-- of response bodies are left out. Raw JSON is a tree once parsed. The mux does not redirect to a
-- cleaned path and sends no Allow header. The frontend's own code and the chart are left out.
pub mod Base
pub mod Std
pub mod Session
pub mod Auth
pub mod Capsule
pub mod Config
pub mod Httpapi
pub mod Mockoidc
pub mod Webassets
pub mod Process
pub mod Examples
