-- ===== src/Lib.antt =====
-- Anti-Scrapling: an HTTP front that scores each request by signals (TLS and HTTP/2 fingerprints,
-- headers, address, behaviour) and allows, challenges or denies it.
--
-- A request's path: the server captures the raw ClientHello, the pipeline asks the collectors for
-- signals, Combine adds up their scores and asks the policy, a pass token may let the request
-- through, and the decision is cached. A challenged client solves a proof of work and sends a
-- fingerprint report; HandleVerify grants it a signed pass token, which later requests present.
--
-- Files and the code that they model:
-- - Go: what the program uses of Go. Int is `int` with its wrap at 64 bits, Text and Strings are
--   byte strings and packages strings, strconv and sort, Maps are maps with string keys, Results
--   are `(value, error)` pairs, Net is net.SplitHostPort, Hex is encoding/hex, Split and Escape are
--   splitting at a byte and url.QueryEscape, Header is net/http's Header. Lists, Separators and
--   Tests are lemmas.
-- - Types, Http: internal/types, and what is read of an http.Request.
-- - Decision: internal/decision/combine.go (Combine, evalDecision).
-- - Policy: internal/policy. Compiler is compiler.go (matchMapToExpr, keyValueToExpr,
--   parseScoreExpr) with matchesFamilyBinding in Compiler/Families, Evaluator is evaluator.go with
--   compileRule, Loader is loader.go.
-- - Cache: internal/cache/cache.go as an interface, Cache/Memory is memory.go over the interface
--   Lru, which Lru/Bounded meets.
-- - Pipeline: internal/pipeline/pipeline.go. Collect is collectParallel, Key is computeCacheKey,
--   and Pipeline itself New, buildEvalFn and Decide.
-- - Tls: internal/signal/tls. Reader is byteReader, Extensions and Parser are parser.go, Ja3 and
--   Ja4 are ja3.go and ja4.go, Families is families.go and Collector is collector.go.
-- - Http2: internal/signal/http2. Hpack is the HPACK name decoder of frames.go, Frames its frames,
--   Akamai is akamai.go, Ja4h is ja4h.go and Collector is collector.go.
-- - Headers: internal/signal/headers. Order is order.go, SecFetch secfetch.go and quirks.go,
--   ClientHints clienthints.go, Referer referer.go and Collector collector.go. Proxied joins the
--   collector with the contexts that the daemon builds.
-- - Behavior: internal/signal/behavior and internal/types/beacon.go.
-- - Fingerprint: Report is internal/types/fingerprint.go; the rest is internal/signal/fingerprint.
--   Agents and Navigator are probes/navigator.go, Probes and Page the other probes, Scorer is
--   scorer.go. Refused joins the scorer with HandleVerify.
-- - Token: internal/token. Binding is binding.go with the claims of internal/types/token.go, Issuer
--   and Verifier are issuer.go and verifier.go, Cookie is cookie.go.
-- - Challenge: internal/challenge. Issuer is issuer.go, Pow is verifyPoW and leadingZeroBits of
--   service.go, Service is its HandleVerify, Beacons is beacon_store.go with HandleBeacon.
-- - Server: internal/server. ClientHello is the recorder of clienthello.go, Server the request's
--   capture and the TLS settings of server.go, Server/Life its Start.
-- - Proxy: internal/proxy, headers.go and the director of proxy.go.
-- - Api: internal/api/decide.go.
-- - Daemon: cmd/antiscrapling/wire.go. Daemon itself is loadConfig and buildDeps, Handler is
--   buildMainHandler with buildRequestContext.
-- - Tests: runs on concrete inputs.
--
-- State is passed explicitly: the caches and the challenge ids are states of the LRU cache, a
-- handler takes the clock's readings and the state and returns the response with the new state.
-- The goroutines of collectParallel are steps in any order. A call of a cache, of the beacon store
-- or of the referer tracker is atomic, as their locks make it. ValidateChallengeID is two calls of
-- the cache with no lock around them: Challenge/Issuer/Interleaved has them as steps of several
-- handlers in any order, while Challenge/Service and Daemon/Handler take a request at a time, so
-- their theorems are on a request with no other request's call between its own. A string is the
-- list of its bytes, a byte a natural number; that it is below 256 is a hypothesis where a theorem
-- needs it. Numbers of Go's unsigned types are natural numbers; `int` is a 64-bit integer.
--
-- Parameters stand for code that the repository does not hold: CEL (its environment, compile, eval
-- and its quoting of strings), path.Match, the YAML and JSON decoders, the LRU cache, the JWT
-- library, the digests MD5 and SHA-256, time.ParseDuration, url.Parse, the reading of key pairs and
-- of listeners, the order in which Go ranges over a map, and the Unicode tables behind
-- strings.ToLower and EqualFold on texts that are not ASCII. What the code relies on is stated as
-- laws of these records. HandleVerify takes the fingerprint score as a parameter, which
-- Fingerprint/Scorer fills. A float64 that the probes only pass on is a value of a type parameter.
--
-- Fuel: the loops over the bytes of a ClientHello and of its extensions take the number of bytes
-- that are left as fuel, and each round reads one byte at least; TrimSpace takes the length of its
-- text. The loops over HTTP/2 frames and over the fields of a header block take the number of bytes
-- left. Itoa of a 16-bit number has fuel for five digits. The search for brands in Sec-Ch-Ua takes
-- the length of the text.
--
-- Not modelled: logging, metrics, audit and health, the Redis cache and the cache factory, the HTML
-- and JavaScript that are served, the admin handler, main.go and the command line, the self-signed
-- certificate, the path cleaning of http.ServeMux, httputil.ReverseProxy, the key file, and the
-- collector for addresses.
pub mod Go
pub mod Types
pub mod Decision
pub mod Policy
pub mod Lru
pub mod Cache
pub mod Http
pub mod Pipeline
pub mod Tls
pub mod Fingerprint
pub mod Headers
pub mod Http2
pub mod Token
pub mod Behavior
pub mod Challenge
pub mod Daemon
pub mod Api
pub mod Server
pub mod Proxy
mod Tests
