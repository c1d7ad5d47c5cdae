-- ===== src/Auth/Provider.antt =====
-- auth.ts: the routes that sign a user in at the identity provider, `GET /auth/start`,
-- `GET /auth/callback` and `POST /auth/app-token`. The provider is a parameter: its token endpoint,
-- and the verification of an ID token by the OIDC library.
use opencode_rc.Common.{
  ℕ, Bool, true, false, not, Text, text, text_eq, [], ◌++◌, Option, none, some, if◌then◌else◌,
}
use opencode_rc.Json.{Json, null, bool, num, str, arr, obj, Fields, get, get_of}
use opencode_rc.Redis.{Redis, run}
use opencode_rc.Tokens.{
  AccessClaims, NewSession, RefreshRecord, LoginCodeRecord, Codec, create_code, create_chain,
}
use opencode_rc.Auth.AccessToken.{Crypto, is_code_challenge, non_empty}
use opencode_rc.Auth.Origins.{UrlParser, validate_return_to}
use opencode_rc.Auth.Routes.{
  AuthRequest, Reply, error, plain, to_provider, to_app, require_client_protocol, string_field,
  respond_tokens,
}

-- `body` is `none` where the answer is no JSON.
pub data Fetched : Type 0 where
  unreachable : Fetched
  not_ok : (status : ℕ) → Fetched
  answered : (body : Option Json) → Fetched

pub record Provider : Type 0 where
  -- `code_verifier` and `client_secret` are sent where they are given.
  pub token_endpoint :
      (client_id code redirect_uri : Text) (code_verifier client_secret : Option Text) → Fetched
  -- `verifyToken`: the claims of an ID token; `none` where it throws.
  pub verify_token : (id_token : Json) (client_id : Text) → Option Fields
  -- Whether a number literal counts as true.
  pub num_truthy : Text → Bool
  pub encode_uri_component : Text → Text

pub record SignInConfig : Type 0 where
  pub oidc_client_id : Text
  pub oidc_client_secret : Option Text
  pub oidc_redirect_uri : Text
  pub oidc_user_claim : Text
  pub oidc_app_client_id : Option Text

-- What a browser brings to the two routes: the cookies and the query.
pub record Visit : Type 0 where
  pub state_cookie : Option Text
  pub return_cookie : Option Text
  pub challenge_cookie : Option Text
  pub state : Option Text
  pub code : Option Text
  pub return_to : Option Text
  pub code_challenge : Option Text

-- A route up to its store: an early answer, an exception that nothing catches, or a value.
pub data Checked (A : Type 0) : Type 0 where
  stop : Reply → Checked A
  crash : Checked A
  pass : A → Checked A

infixl 5 ◌>>=◌
unfoldable pub ◌>>=◌ : {A B : Type 0} → Checked A → (A → Checked B) → Checked B
stop r >>= f = stop r
crash >>= f = crash
pass a >>= f = f a

-- An answer where a condition does not hold.
unfoldable pub require : {A : Type 0} → Bool → Reply → Checked A → Checked A
require true r next = next
require false r next = stop r

unfoldable pub need : {A : Type 0} → Option A → Reply → Checked A
need (some a) r = pass a
need none r = stop r

abbrev pub app_redirect_uri : Text
app_redirect_uri = text "com.opencode.rc:/auth/callback"

abbrev pub text_field : Text → Fields → Option Text
text_field name fs = elim (get name fs) [ some (str s) ↦ some s | _ ↦ none ]

-- `typeof v === "string" ? v : ""`
abbrev pub text_or_empty : Option Text → Text
text_or_empty none = []
text_or_empty (some s) = s

-- `userFromIdToken`
unfoldable pub user_from : Option Text → (email name : Option Text) → Option AccessClaims
user_from none email name = none
user_from (some uid) email name =
    some (record { uid = uid; email = text_or_empty email; name = text_or_empty name; sid = none })

unfoldable pub user_from_id_token : Fields → (user_claim : Text) → Option AccessClaims
user_from_id_token claims user_claim =
    user_from (non_empty (text_field user_claim claims)) (text_field (text "email") claims)
      (text_field (text "name") claims)

-- `a === b` on values that may be missing
abbrev pub same_text : Option Text → Option Text → Bool
same_text (some a) (some b) = text_eq a b
same_text none none = true
same_text _ _ = false

abbrev pub or_root : Option Text → Text
or_root none = text "/"
or_root (some s) = s

module _ (config : SignInConfig) (provider : Provider) (parser : UrlParser)
    (is_allowed : Text → Bool) where
  -- `GET /auth/start`, with the random state
  unfoldable pub start_with : (state : Text) (return_to challenge : Option Text) → Reply
  start_with state none challenge = error 400 "invalid return_to"
  start_with state (some return_to) none = error 400 "invalid_request"
  start_with state (some return_to) (some challenge) =
      if is_code_challenge (some challenge)
      then to_provider state return_to challenge
      else error 400 "invalid_request"

  unfoldable pub get_start : (state : Text) → Visit → Reply
  get_start state visit =
      start_with state (non_empty (validate_return_to parser is_allowed visit.return_to))
        visit.code_challenge

  -- `!tokenData.id_token`
  unfoldable pub json_truthy : Json → Bool
  json_truthy null = false
  json_truthy (bool b) = b
  json_truthy (num s) = provider.num_truthy s
  json_truthy (str s) = not (text_eq s [])
  json_truthy (arr js) = true
  json_truthy (obj fs) = true

  -- The ID token in an answer of the token endpoint.
  unfoldable pub browser_id_token : Fetched → Checked (Option Json)
  browser_id_token unreachable = crash
  browser_id_token (not_ok status) = stop (plain 401 "authentication failed")
  browser_id_token (answered none) = crash
  browser_id_token (answered (some null)) = crash
  browser_id_token (answered (some body)) = pass (get_of (text "id_token") (some body))

  unfoldable pub browser_claims : Option Json → Checked Fields
  browser_claims none = stop (plain 401 "no id_token in response")
  browser_claims (some token) =
      require (json_truthy token) (plain 401 "no id_token in response")
        (need (provider.verify_token token config.oidc_client_id) (plain 401 "invalid id_token"))

  -- `GET /auth/callback` up to the login code's store
  unfoldable pub callback_user : Visit → Checked (AccessClaims × Text)
  callback_user visit = do
    state ← need (non_empty visit.state_cookie) (plain 400 "invalid state")
    _ ← require (same_text (some state) visit.state) (plain 400 "invalid state") (pass state)
    challenge ← need visit.challenge_cookie (plain 400 "missing code challenge")
    _ ←
        require (is_code_challenge (some challenge)) (plain 400 "missing code challenge")
          (pass state)
    code ← need (non_empty visit.code) (plain 400 "missing code")
    token ← browser_id_token (
        provider.token_endpoint config.oidc_client_id code config.oidc_redirect_uri none
          (non_empty config.oidc_client_secret))
    claims ← browser_claims token
    user ← need (user_from_id_token claims config.oidc_user_claim) (plain 401 "invalid id_token")
    pass (user, challenge)

  -- The ID token that the app's exchange gives; an answer that is no JSON counts as `{}`.
  unfoldable pub app_id_token : Fetched → Checked Text
  app_id_token unreachable = stop (error 503 "unavailable")
  app_id_token (not_ok status) = stop (error 400 "invalid_grant")
  app_id_token (answered (some null)) = crash
  app_id_token (answered body) =
      need (string_field body (text "id_token")) (error 400 "invalid_grant")

  -- `POST /auth/app-token` up to the session's store
  unfoldable pub app_user : Option Json → Checked AccessClaims
  app_user body = do
    client_id ← need (non_empty config.oidc_app_client_id) (error 404 "not_found")
    code ← need (string_field body (text "code")) (error 400 "invalid_grant")
    verifier ← need (string_field body (text "code_verifier")) (error 400 "invalid_grant")
    nonce ← need (string_field body (text "nonce")) (error 400 "invalid_grant")
    token ←
        app_id_token (provider.token_endpoint client_id code app_redirect_uri (some verifier) none)
    claims ← need (provider.verify_token (str token) client_id) (error 400 "invalid_grant")
    _ ←
        require (same_text (text_field (text "nonce") claims) (some nonce))
          (error 400 "invalid_grant") (pass nonce)
    need (user_from_id_token claims config.oidc_user_claim) (error 400 "invalid_grant")

  module _ (crypto : Crypto) (secret : Text) (access_token_ttl : ℕ) (hash : Text → Text)
      (refresh_json : Codec RefreshRecord) (code_json : Codec LoginCodeRecord)
      (session_ttl code_ttl : ℕ) (redis : Redis) where
    open redis use {Db}

    abbrev pub landed : (return_to : Text) → Option Text × Db → Option Reply × Db
    landed return_to (none, db) = (some (error 503 "unavailable"), db)
    landed return_to (some code, db) =
        (some (to_app (return_to ++ text "#code=" ++ provider.encode_uri_component code)), db)

    unfoldable pub store_code :
        (login_code return_to : Text) → Checked (AccessClaims × Text) → Db → Option Reply × Db
    store_code login_code return_to (stop r) db = (some r, db)
    store_code login_code return_to crash db = (none, db)
    store_code login_code return_to (pass (claims, challenge)) db = landed return_to (
        run redis
          (create_code hash refresh_json code_json session_ttl code_ttl login_code claims challenge)
          db)

    -- `GET /auth/callback`, with the random login code; `none` for an exception that is not caught
    unfoldable pub get_callback : (login_code : Text) → Visit → Db → Option Reply × Db
    get_callback login_code visit db =
        store_code login_code (or_root (validate_return_to parser is_allowed visit.return_cookie))
          (callback_user visit) db

    abbrev pub opened : (now : ℕ) → Option NewSession × Db → Option Reply × Db
    opened now (none, db) = (some (error 503 "unavailable"), db)
    opened now (some session, db) = (
      some (respond_tokens crypto secret access_token_ttl session.claims session.refresh_token now),
      db,
    )

    unfoldable pub open_session :
        (chain token : Text) (now : ℕ) → Checked AccessClaims → Db → Option Reply × Db
    open_session chain token now (stop r) db = (some r, db)
    open_session chain token now crash db = (none, db)
    open_session chain token now (pass claims) db = opened now (
        run redis (create_chain hash refresh_json code_json session_ttl code_ttl chain token claims)
          db)

    -- `POST /auth/app-token`, with the random session id and refresh token
    unfoldable pub post_app_token :
        (chain token : Text) (now : ℕ) → AuthRequest → Db → Option Reply × Db
    post_app_token chain token now req db =
        require_client_protocol req (λ r. (some r, db))
          (open_session chain token now (app_user req.body) db)
