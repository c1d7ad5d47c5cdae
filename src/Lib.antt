-- ===== src/Lib.antt =====
-- A verification library for opencode-rc: remote access to opencode sessions on a user's own
-- machines, through an API server in front of a gateway.
--
-- The API server signs users in, keeps their sessions in Redis, and proxies requests to the opencode
-- server of a session. Before a request is forwarded, a chain of guards decides whether the
-- deployment's config allows it; the guards read the request's path and sometimes its body, and the
-- proxy forwards the very bytes that they read.
--
-- Files:
-- - Common: lists, options and texts (a text is a list of code points); Regex: regular expressions by
--   derivatives, with their laws; Json: JSON values; Config: the types of config/schema.ts.
-- - Redis: the commands of `RedisLike` (api/src/token-store.ts) as programs over a database that is a
--   parameter with the documented laws of GET, SET, DEL, TTL and of expiry; Redis.Memory is one.
-- - Tokens: api/src/token-store.ts. `create_code`, `consume_code`, `create_chain`, `session_active`,
--   `rotate` and `revoke` are the methods of `TokenStore`. The random tokens are arguments, SHA-256
--   (`hash`) and the JSON codec of the two records are parameters. Tokens.Keys, Rotate, Sessions,
--   SignIn and Crash hold what the methods do; Tokens.Race runs several rotations at once, as a list of
--   turns and waits.
-- - Auth: the sign-in of api/src/auth.ts. Auth.AccessToken is api/src/token.ts, Auth.Origins
--   api/src/origins.ts, Auth.Routes the guard of signed-in routes (with api/src/protocol.ts) and
--   `POST /auth/token`, `/auth/refresh` and `/auth/logout` over the token store, Auth.Provider
--   `/auth/start`, `/auth/callback` and `/auth/app-token`. The HMAC and the hash, `new URL`, the token
--   endpoint and the verification of ID tokens are parameters.
-- - Authz: api/src/authz.ts: `check`, `evict`, `evictAll` and `watch` of `Authorizer`, `requireAccess`
--   and `tokenMatches`. Authz.Watch is the watch as steps on its flags,
--   Authz.Admin `adminRoutes`.
-- - Config.Parse: `parseConfig` of config/schema.ts; Config.Strict: what a config that was read
--   guarantees.
-- - Tunnel: cli/src/tunnel.ts. Tunnel.Frames is `encodeFrame` and `decodeFrameHeader`, Tunnel.Streams the
--   handlers, as functions from the state to a state and a list of effects.
-- - Proxy: the rest of api/src/proxy.ts: `session_access`, `proxy_http` (the request that is sent),
--   `rewrite_response`, and Proxy.Stream for `endOnDenial`.
-- - Relay: the WebSocket handlers of api/src/ws-relay.ts, with ws-close.ts: `step` is one event, `run` a
--   list of them. Launch: the handlers of cli/src/server.ts on what the local server prints.
-- - Api.Paths: `proxyRest` and `canonicalPath` of api/src/proxy.ts, `isPlainPath` of
--   api/src/feature-guards.ts and api/src/route-template.ts. Paths.Escapes is decodeURIComponent,
--   Paths.Url the path of `new URL`.
-- - Api.Request: what a guard sees of a request, and api/src/request-body.ts; Api.Rules:
--   api/src/block-guard.ts and body-guard.ts; Api.Arguments: api/src/command-arguments.ts,
--   `mayRunShell` of shell-guard.ts, and the file references of download-guard.ts.
-- - Api.V1: the guards of opencode 1.x sessions (api/src/v1-routes.ts, v1-never.ts,
--   provider-secrets.ts and the guard of each feature); Api.V2: api/src/v2-routes.ts and v2-guard.ts;
--   Api.Guards: `v1Guards`, `v2Guards` and `versionedGuards`.
-- - Api.Proofs: what the guards guarantee of a request that they let pass.
--
-- A guard is a function from a request and its variables to a refusal or to the variables that the
-- next guard sees. Loops are structural recursion; only `argument_tokens` of Api.Arguments runs on fuel,
-- the length of the text, which Api.Proofs.Arguments shows to be enough.
--
-- Not modelled: TextDecoder, JSON.parse, Number and `new URL` beyond the path (parameters), the
-- server's own requests (`fetchServerInfo` and the webhook's response are parameters), the sockets and
-- requests of the tunnel and of the relay (effects),
-- a `headers.set` of the proxy that throws, an email or a name of a signed token that is no text,
-- the two routes of api/src/auth.ts that print settings, logging, the gateway (Go), and the user interfaces.
pub mod Common
pub mod Regex
pub mod Json
pub mod Config
pub mod Redis
pub mod Tokens
pub mod Auth
pub mod Authz
pub mod Tunnel
pub mod Relay
pub mod Proxy
pub mod Launch
pub mod Api
