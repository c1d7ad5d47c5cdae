-- ===== src/Auth/Routes.antt =====
-- auth.ts and protocol.ts: the guard of signed-in routes, and the routes that exchange a login code,
-- refresh a session and sign out. What the server draws at random (a session id, a refresh token) is
-- an argument, and so is the time.
use opencode_rc.Common.{
  ℕ, ◌+◌, ◌-◌, ◌*◌, ◌&&◌, Text, String, text, text_eq, starts_with, lower, trim, [], ◌∷◌, Option,
  none, some, leb, ltb, drop, every, if◌then◌else◌,
}
use opencode_rc.Json.{Json, str, get_of}
use opencode_rc.Redis.{Prog, ret, ◌>>=◌, Redis, run}
use opencode_rc.Tokens.{
  AccessClaims, RotateResult, ok, refused, RefreshRecord, LoginCodeRecord, Codec, consume_code,
  create_chain, rotate, revoke,
}
use opencode_rc.Auth.AccessToken.{
  Crypto, sign_access_token, verify_access_token, verify_code_verifier, non_empty, or_empty,
}

-- What a request brings: the headers that the routes read, `access_token` of the query, and the body
-- if it is JSON.
pub record AuthRequest : Type 0 where
  pub authorization : Option Text
  pub upgrade : Option Text
  pub access_token : Option Text
  pub protocol : Option Text
  pub body : Option Json

pub data Reply : Type 0 where
  -- `c.json({ error }, status)`
  error : (status : ℕ) (message : String) → Reply
  client_outdated : (client : ℕ) → Reply
  token_response : (access_token refresh_token : Text) (expires_in : ℕ) → Reply
  -- `c.text(message, status)`
  plain : (status : ℕ) (message : String) → Reply
  -- The redirects: to the identity provider with three cookies, and back to the app, which removes
  -- them.
  to_provider : (state return_to challenge : Text) → Reply
  to_app : (location : Text) → Reply
  -- `c.body(null, 204)`
  no_content : Reply

pub data Admission : Type 0 where
  unauthorized : Admission
  admitted : (user_id : Text) (claims : AccessClaims) (token : Text) → Admission

abbrev pub protocol_version : ℕ
protocol_version = 1

abbrev pub min_client_protocol : ℕ
min_client_protocol = 1

-- `Number(value)` of digits
unfoldable pub digits_value : (so_far : ℕ) → Text → ℕ
digits_value n [] = n
digits_value n (c ∷ s) = digits_value (n * 10 + (c - b'0')) s

-- `readProtocol`
unfoldable pub read_protocol : Option Text → ℕ
read_protocol none = 0
read_protocol (some []) = 0
read_protocol (some (c ∷ s)) =
    let n = digits_value 0 (c ∷ s) in if every (λ d. leb b'0' d && leb d b'9') (c ∷ s) then n else 0

-- `requireClientProtocol`
unfoldable pub require_client_protocol : AuthRequest → {A : Type 0} → (Reply → A) → A → A
require_client_protocol req refuse next =
    let client = read_protocol req.protocol in
    if ltb client min_client_protocol then refuse (client_outdated client) else next

-- `bearerToken`
unfoldable pub bearer_token : AuthRequest → Option Text
bearer_token req =
    let header = or_empty req.authorization in
    let upgrade = or_empty req.upgrade in
    if starts_with header (text "Bearer ")
    then non_empty (some (trim (drop 7 header)))
    else if text_eq (lower upgrade) (text "websocket")
    then req.access_token
    else none

-- `stringField` behind `readBody`
unfoldable pub string_field : Option Json → Text → Option Text
string_field body field = elim (get_of field body) [ some (str s) ↦ non_empty (some s) | _ ↦ none ]

module _ (crypto : Crypto) (secret : Text) (access_token_ttl : ℕ) where
  unfoldable pub admit : (token : Text) → Option AccessClaims → Admission
  admit token none = unauthorized
  admit token (some claims) = admitted claims.uid claims token

  unfoldable pub admit_token : Option Text → (now : ℕ) → Admission
  admit_token none now = unauthorized
  admit_token (some token) now = admit token (verify_access_token crypto token secret now)

  -- `authMiddleware`
  unfoldable pub auth_middleware : AuthRequest → (now : ℕ) → Admission
  auth_middleware req now = admit_token (non_empty (bearer_token req)) now

  -- `tokenResponse`
  unfoldable pub respond_tokens : AccessClaims → (refresh_token : Text) → (now : ℕ) → Reply
  respond_tokens claims refresh_token now =
      token_response (sign_access_token crypto claims secret access_token_ttl now) refresh_token
        access_token_ttl

  -- What the client gets: a route that throws answers 503.
  unfoldable pub reply_of : Option Reply → Reply
  reply_of none = error 503 "unavailable"
  reply_of (some r) = r

  module _ (hash : Text → Text) (refresh_json : Codec RefreshRecord)
      (code_json : Codec LoginCodeRecord) (session_ttl code_ttl : ℕ) where
    -- `POST /auth/token` behind the login code's record
    unfoldable pub exchange :
        (chain token : Text) (now : ℕ)
        → Option LoginCodeRecord
        → (verifier : Option Text) → Prog Reply
    exchange chain token now none verifier = ret (error 400 "invalid_grant")
    exchange chain token now (some record_) verifier =
        if verify_code_verifier crypto verifier record_.challenge
        then (do
          session ←
              create_chain hash refresh_json code_json session_ttl code_ttl chain token
                record_.claims
          ret (respond_tokens session.claims session.refresh_token now))
        else ret (error 400 "invalid_grant")

    unfoldable pub token_program :
        (chain token : Text) (now : ℕ) (code verifier : Option Text) → Prog Reply
    token_program chain token now none verifier = ret (error 400 "invalid_grant")
    token_program chain token now (some code) verifier = do
      record_ ← consume_code hash refresh_json code_json session_ttl code_ttl code
      exchange chain token now record_ verifier

    unfoldable pub refreshed : (now : ℕ) → RotateResult → Reply
    refreshed now refused = error 401 "invalid_grant"
    refreshed now (ok refresh_token claims) = respond_tokens claims refresh_token now

    unfoldable pub refresh_program : (next : Text) (now : ℕ) (token : Option Text) → Prog Reply
    refresh_program next now none = ret (error 401 "invalid_grant")
    refresh_program next now (some token) = do
      result ← rotate hash refresh_json code_json session_ttl code_ttl next token
      ret (refreshed now result)

    unfoldable pub logout_program : (token : Option Text) → Prog (Unit {0})
    logout_program none = ret tt
    logout_program (some token) = revoke hash refresh_json code_json session_ttl code_ttl token

    module _ (redis : Redis) where
      open redis use {Db}

      abbrev pub answer : Option Reply × Db → Reply × Db
      answer (r, db) = (reply_of r, db)

      -- `POST /auth/token`
      unfoldable pub post_token : (chain token : Text) (now : ℕ) → AuthRequest → Db → Reply × Db
      post_token chain token now req db =
          require_client_protocol req (λ r. (r, db))
            (answer (
              run redis
                (token_program chain token now (string_field req.body (text "code"))
                  (string_field req.body (text "code_verifier")))
                db))

      -- `POST /auth/refresh`
      unfoldable pub post_refresh : (next : Text) (now : ℕ) → AuthRequest → Db → Reply × Db
      post_refresh next now req db =
          require_client_protocol req (λ r. (r, db))
            (answer (
              run redis (refresh_program next now (string_field req.body (text "refresh_token")))
                db))

      -- `POST /auth/logout`: an exception is only logged.
      unfoldable pub post_logout : AuthRequest → Db → Reply × Db
      post_logout req db = (
        no_content,
        (run redis (logout_program (string_field req.body (text "refresh_token"))) db).1,
      )
