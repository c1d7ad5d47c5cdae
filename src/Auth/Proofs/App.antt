-- ===== src/Auth/Proofs/App.antt =====
-- A sign-in of the mobile app, `POST /auth/app-token`.
use opencode_rc.Common.{
  ℕ, Bool, true, false, Text, text, [], Option, none, some, ◌≡◌, ◌≢◌, refl, Bool-cases, inl, inr,
  ltb, ◌<◌, sym, ap, ◌∙◌, arith,
}
use mathlib.Core.Option.{some-injective}
use opencode_rc.Json.{Json, null, str, Fields}
use opencode_rc.Redis.{Redis, run}
use opencode_rc.Tokens.{
  AccessClaims, RefreshRecord, LoginCodeRecord, Codec, create_chain, issue_token,
}
use opencode_rc.Auth.AccessToken.{Crypto, sign_access_token}
use opencode_rc.Auth.Origins.{UrlParser}
use opencode_rc.Auth.Routes.{
  AuthRequest, Reply, client_outdated, token_response, read_protocol, require_client_protocol,
  string_field, respond_tokens,
}
use opencode_rc.Auth.Provider.{
  Provider, SignInConfig, Fetched, unreachable, not_ok, answered, Checked, stop, crash, pass,
  text_field, user_from_id_token, app_id_token, app_user, open_session, post_app_token,
}
use opencode_rc.Auth.Proofs.Checked.{
  bind_pass, need_pass, require_pass, is_refusal, refuses, bind-refuses, need-refuses,
  require-refuses, passes, none-some, text_same_some, non_empty-some,
}

tokens_of : Reply → Text × Text
tokens_of (token_response access refresh_token seconds) = (access, refresh_token)
tokens_of _ = ([], [])

-- Whether a reply gives tokens.
gives : Reply → Bool
gives (token_response access refresh_token seconds) = true
gives _ = false

outdated_tokens : {n seconds : ℕ} {a b : Text} → client_outdated n ≢ token_response a b seconds
unfolding gives
outdated_tokens h = let g = ap gives h in cc

not_tokens :
    (r : Reply) (a b : Text) (seconds : ℕ)
    → refuses {A = AccessClaims} (stop r) ≡ true
    → r ≢ token_response a b seconds
unfolding refuses is_refusal
not_tokens r a b seconds h e = let g = sym (ap is_refusal e) ∙ h in cc

module _ (config : SignInConfig) (provider : Provider) (parser : UrlParser)
    (is_allowed : Text → Bool) where
  -- What the app's sign-in has proved before its session is stored.
  pub record IsAppSignIn (body : Option Json) (claims : AccessClaims) : Type 0 where
    pub client_id : Text
    pub client : config.oidc_app_client_id ≡ some client_id
    pub nonce : Text
    pub nonce_sent : string_field body (text "nonce") ≡ some nonce
    pub id_token : Text
    pub id_claims : Fields
    pub verified : provider.verify_token (str id_token) client_id ≡ some id_claims
    pub nonce_back : text_field (text "nonce") id_claims ≡ some nonce
    pub user : user_from_id_token id_claims config.oidc_user_claim ≡ some claims

  app_user_sound :
      (body : Option Json) (claims : AccessClaims)
      → app_user config provider parser is_allowed body ≡ pass claims
      → IsAppSignIn body claims
  unfolding app_user
  app_user_sound body claims h =
      let (client_id, e1, h1) = bind_pass _ _ _ h in
      let (code, e2, h2) = bind_pass _ _ _ h1 in
      let (verifier, e3, h3) = bind_pass _ _ _ h2 in
      let (nonce, e4, h4) = bind_pass _ _ _ h3 in
      let (token, e5, h5) = bind_pass _ _ _ h4 in
      let (fs, e6, h6) = bind_pass _ _ _ h5 in
      let (x, e7, h7) = bind_pass _ _ _ h6 in
      record {
        client_id = client_id;
        client = (non_empty-some config.oidc_app_client_id client_id (need_pass _ _ _ e1)).0;
        nonce = nonce;
        nonce_sent = need_pass _ _ _ e4;
        id_token = token;
        id_claims = fs;
        verified = need_pass _ _ _ e6;
        nonce_back = text_same_some _ nonce (require_pass _ _ _ _ e7).0;
        user = need_pass _ _ _ h7;
      }

  app_id_token-refuses :
      (f : Fetched) → refuses (app_id_token config provider parser is_allowed f) ≡ true
  unfolding app_id_token refuses is_refusal
  app_id_token-refuses unreachable = refl
  app_id_token-refuses (not_ok status) = refl
  app_id_token-refuses (answered none) = need-refuses _ _ refl
  app_id_token-refuses (answered (some j)) =
      elim j
        as (λ x.
          refuses (app_id_token config provider parser is_allowed (answered (some x))) ≡ true) [
            | null ↦ refl
            | _ ↦ need-refuses _ _ refl
          ]

  app_user-refuses :
      (body : Option Json) → refuses (app_user config provider parser is_allowed body) ≡ true
  unfolding app_user is_refusal
  app_user-refuses body = bind-refuses _ _ (need-refuses _ _ refl) (λ client_id.
      bind-refuses _ _ (need-refuses _ _ refl) (λ code.
        bind-refuses _ _ (need-refuses _ _ refl) (λ verifier.
          bind-refuses _ _ (need-refuses _ _ refl) (λ nonce.
            bind-refuses _ _ (app_id_token-refuses _) (λ token.
              bind-refuses _ _ (need-refuses _ _ refl) (λ claims.
                bind-refuses _ _ (require-refuses _ _ _ refl (passes _))
                  (λ a. need-refuses _ _ refl)))))))

  module _ (crypto : Crypto) (secret : Text) (access_token_ttl : ℕ) (hash : Text → Text)
      (refresh_json : Codec RefreshRecord) (code_json : Codec LoginCodeRecord)
      (session_ttl code_ttl : ℕ) (redis : Redis) where
    open redis use {Db}

    abbrev pub app_token : (chain token : Text) (now : ℕ) → AuthRequest → Db → Option Reply × Db
    app_token chain token now req db =
        post_app_token config provider parser is_allowed crypto secret access_token_ttl hash
          refresh_json code_json session_ttl code_ttl redis chain token now req db

    open_session_sound :
        (chain token access refresh_token : Text) (now seconds : ℕ) (body : Option Json)
        (c : Checked AccessClaims) (db : Db)
        → app_user config provider parser is_allowed body ≡ c
        → (open_session config provider parser is_allowed crypto secret access_token_ttl hash
            refresh_json code_json session_ttl code_ttl redis chain token now c db).0
          ≡ some (token_response access refresh_token seconds)
        → (claims : AccessClaims) × IsAppSignIn body claims
          × (access
              ≡ sign_access_token crypto
                  (record claims { sid = some chain })
                  secret
                  access_token_ttl
                  now)
          × (refresh_token ≡ token)
    unfolding open_session create_chain issue_token run respond_tokens tokens_of
    open_session_sound chain token access refresh_token now seconds body (stop r) db e h = absurd (
        not_tokens r access refresh_token seconds (ap refuses (sym e) ∙ app_user-refuses body)
          (some-injective _ _ h))
    open_session_sound chain token access refresh_token now seconds body crash db e h =
        absurd (none-some h)
    open_session_sound chain token access refresh_token now seconds body (pass claims) db e h =
        let t = ap tokens_of (some-injective _ _ h) in
        (
          claims,
          app_user_sound body claims e,
          sym (ap (λ (x : Text × Text). x.0) t),
          sym (ap (λ (x : Text × Text). x.1) t),
        )

    -- The app's sign-in gives tokens only to a client that speaks the protocol, if the app's client
    -- is configured and the verified ID token carries the nonce that was sent and names a user; the
    -- access token is signed for that user in the new session.
    pub app_token_sound :
        (chain token access refresh_token : Text) (now seconds : ℕ) (req : AuthRequest) (db : Db)
        → (app_token chain token now req db).0 ≡ some (token_response access refresh_token seconds)
        → (0 < read_protocol req.protocol)
          × (claims : AccessClaims) × IsAppSignIn req.body claims
          × (access
              ≡ sign_access_token crypto
                  (record claims { sid = some chain })
                  secret
                  access_token_ttl
                  now)
          × (refresh_token ≡ token)
    unfolding post_app_token require_client_protocol tokens_of
    app_token_sound chain token access refresh_token now seconds req db h =
        elim (Bool-cases (ltb (read_protocol req.protocol) 1)) [
          | inl t ↦ absurd (outdated_tokens (some-injective _ _ (rw t at h)))
          | inr f ↦
              let (claims, p, a, t) =
                open_session_sound chain token access refresh_token now seconds req.body
                  (app_user config provider parser is_allowed req.body) db refl (rw f at h) in
              (ground arith, claims, p, a, t)
        ]
