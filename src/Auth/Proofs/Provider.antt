-- ===== src/Auth/Proofs/Provider.antt =====
-- A sign-in at the identity provider, `GET /auth/callback`: what agrees before a login code is handed
-- out.
use opencode_rc.Common.{
  ℕ, Bool, true, Text, text, [], ◌++◌, Option, none, some, ◌≡◌, ◌≢◌, refl, sym, ap, ◌∙◌,
}
use mathlib.Core.Option.{some-injective}
use opencode_rc.Json.{Json, null, Fields}
use opencode_rc.Redis.{Redis, run}
use opencode_rc.Tokens.{AccessClaims, RefreshRecord, LoginCodeRecord, Codec, key_code, create_code}
use opencode_rc.Auth.AccessToken.{Crypto, is_code_challenge}
use opencode_rc.Auth.Origins.{UrlParser, validate_return_to}
use opencode_rc.Auth.Routes.{AuthRequest, Reply, to_app}
use opencode_rc.Auth.Provider.{
  Provider, SignInConfig, Visit, Fetched, unreachable, not_ok, answered, Checked, stop, crash, pass,
  user_from_id_token, browser_id_token, browser_claims, callback_user, store_code, get_callback,
  post_app_token, or_root,
}
use opencode_rc.Auth.Proofs.Checked.{
  pass-injective, stop_pass, bind_pass, need_pass, require_pass, is_refusal, refuses, bind-refuses,
  need-refuses, require-refuses, passes, none-some, location_of, not_to_app, same_text-some,
  non_empty-some,
}

module _ (config : SignInConfig) (provider : Provider) (parser : UrlParser)
    (is_allowed : Text → Bool) where
  -- What a browser's sign-in has proved before its login code is stored.
  pub record IsSignIn (visit : Visit) (claims : AccessClaims) (challenge : Text) : Type 0 where
    pub state : Text
    pub state_there : state ≢ []
    pub state_kept : visit.state_cookie ≡ some state
    pub state_back : visit.state ≡ some state
    pub challenge_kept : visit.challenge_cookie ≡ some challenge
    pub challenge_formed : is_code_challenge (some challenge) ≡ true
    pub id_token : Json
    pub id_claims : Fields
    pub verified : provider.verify_token id_token config.oidc_client_id ≡ some id_claims
    pub user : user_from_id_token id_claims config.oidc_user_claim ≡ some claims

  browser_id_token-refuses :
      (f : Fetched) → refuses (browser_id_token config provider parser is_allowed f) ≡ true
  unfolding browser_id_token refuses is_refusal
  browser_id_token-refuses unreachable = refl
  browser_id_token-refuses (not_ok status) = refl
  browser_id_token-refuses (answered none) = refl
  browser_id_token-refuses (answered (some j)) =
      elim j
        as (λ x.
          refuses (browser_id_token config provider parser is_allowed (answered (some x))) ≡ true) [
            | null ↦ refl
            | _ ↦ refl
          ]

  browser_claims-refuses :
      (token : Option Json)
      → refuses (browser_claims config provider parser is_allowed token) ≡ true
  unfolding browser_claims refuses is_refusal
  browser_claims-refuses none = refl
  browser_claims-refuses (some token) = require-refuses _ _ _ refl (need-refuses _ _ refl)

  callback_user-refuses :
      (visit : Visit) → refuses (callback_user config provider parser is_allowed visit) ≡ true
  unfolding callback_user is_refusal
  callback_user-refuses visit = bind-refuses _ _ (need-refuses _ _ refl) (λ state.
      bind-refuses _ _ (require-refuses _ _ _ refl (passes _)) (λ a.
        bind-refuses _ _ (need-refuses _ _ refl) (λ challenge.
          bind-refuses _ _ (require-refuses _ _ _ refl (passes _)) (λ b.
            bind-refuses _ _ (need-refuses _ _ refl) (λ code.
              bind-refuses _ _ (browser_id_token-refuses _) (λ token.
                bind-refuses _ _ (browser_claims-refuses token)
                  (λ claims. bind-refuses _ _ (need-refuses _ _ refl) (λ user. passes _))))))))

  browser_claims_sound :
      (token : Option Json) (fs : Fields)
      → browser_claims config provider parser is_allowed token ≡ pass fs
      → (id_token : Json) × (provider.verify_token id_token config.oidc_client_id ≡ some fs)
  unfolding browser_claims
  browser_claims_sound none fs h = absurd (stop_pass h)
  browser_claims_sound (some token) fs h = (token, need_pass _ _ _ (require_pass _ _ _ _ h).1)

  callback_user_sound :
      (visit : Visit) (claims : AccessClaims) (challenge : Text)
      → callback_user config provider parser is_allowed visit ≡ pass (claims, challenge)
      → IsSignIn visit claims challenge
  unfolding callback_user
  callback_user_sound visit claims challenge h =
      let (state, e1, h1) = bind_pass _ _ _ h in
      let (x2, e2, h2) = bind_pass _ _ _ h1 in
      let (ch, e3, h3) = bind_pass _ _ _ h2 in
      let (x4, e4, h4) = bind_pass _ _ _ h3 in
      let (code, e5, h5) = bind_pass _ _ _ h4 in
      let (token, e6, h6) = bind_pass _ _ _ h5 in
      let (fs, e7, h7) = bind_pass _ _ _ h6 in
      let (user, e8, h8) = bind_pass _ _ _ h7 in
      let (cookie, there) = non_empty-some visit.state_cookie state (need_pass _ _ _ e1) in
      let pair = pass-injective h8 in
      let same = ap (λ (x : AccessClaims × Text). x.1) pair in
      let (id_token, verified) = browser_claims_sound token fs e7 in
      record {
        state = state;
        state_there = there;
        state_kept = cookie;
        state_back = same_text-some state visit.state (require_pass _ _ _ _ e2).0;
        challenge_kept = need_pass _ _ _ e3 ∙ ap some same;
        challenge_formed =
            ap (λ c. is_code_challenge (some c)) (sym same) ∙ (require_pass _ _ _ _ e4).0;
        id_token = id_token;
        id_claims = fs;
        verified = verified;
        user = need_pass _ _ _ e8 ∙ ap (λ (x : AccessClaims × Text). some x.0) pair;
      }

  module _ (crypto : Crypto) (secret : Text) (access_token_ttl : ℕ) (hash : Text → Text)
      (refresh_json : Codec RefreshRecord) (code_json : Codec LoginCodeRecord)
      (session_ttl code_ttl : ℕ) (redis : Redis) where
    open redis use {Db, get, ttl, set, del, later}

    abbrev pub callback : (login_code : Text) → Visit → Db → Option Reply × Db
    callback login_code visit db =
        get_callback config provider parser is_allowed crypto secret access_token_ttl hash
          refresh_json code_json session_ttl code_ttl redis login_code visit db

    abbrev pub app_token : (chain token : Text) (now : ℕ) → AuthRequest → Db → Option Reply × Db
    app_token chain token now req db =
        post_app_token config provider parser is_allowed crypto secret access_token_ttl hash
          refresh_json code_json session_ttl code_ttl redis chain token now req db

    -- What a login code stands for.
    abbrev pub HandsOut : (login_code : Text) → Visit → Db → Db → Text → Type 0
    HandsOut login_code visit db db' location =
        (claims : AccessClaims) × (challenge : Text) × IsSignIn visit claims challenge
        × (db'
            ≡ set (key_code login_code)
                (code_json.encode (record { claims = claims; challenge = challenge })) code_ttl db)
        × (location
            ≡ or_root (validate_return_to parser is_allowed visit.return_cookie)
              ++ text "#code="
              ++ provider.encode_uri_component login_code)

    store_code_sound :
        (login_code return_to location : Text) (visit : Visit) (c : Checked (AccessClaims × Text))
        (db : Db)
        → callback_user config provider parser is_allowed visit ≡ c
        → (store_code config provider parser is_allowed crypto secret access_token_ttl hash
            refresh_json code_json session_ttl code_ttl redis login_code return_to c db).0
          ≡ some (to_app location)
        → (claims : AccessClaims) × (challenge : Text) × IsSignIn visit claims challenge
          × ((store_code config provider parser is_allowed crypto secret access_token_ttl hash
                refresh_json code_json session_ttl code_ttl redis login_code return_to c db).1
              ≡ set
                  (key_code login_code)
                  (code_json.encode (record { claims = claims; challenge = challenge }))
                  code_ttl
                  db)
          × (location ≡ return_to ++ text "#code=" ++ provider.encode_uri_component login_code)
    unfolding store_code create_code run location_of
    store_code_sound login_code return_to location visit (stop r) db e h = absurd (
        not_to_app r location (ap refuses (sym e) ∙ callback_user-refuses visit)
          (some-injective _ _ h))
    store_code_sound login_code return_to location visit crash db e h = absurd (none-some h)
    store_code_sound login_code return_to location visit (pass (claims, challenge)) db e h = (
      claims,
      challenge,
      callback_user_sound visit claims challenge e,
      refl,
      sym (ap location_of (some-injective _ _ h)),
    )

    -- The callback of a sign-in redirects to the app only if the state came back as the cookie kept
    -- it, the kept code challenge is well formed, and the provider's ID token was verified and
    -- names a user; the store then holds exactly the new login code, for that user and that
    -- challenge, and the redirect goes to the checked return address.
    pub callback_sound :
        (login_code : Text) (visit : Visit) (db : Db) (location : Text)
        → (callback login_code visit db).0 ≡ some (to_app location)
        → HandsOut login_code visit db (callback login_code visit db).1 location
    unfolding get_callback
    callback_sound login_code visit db location h =
        store_code_sound login_code
          (or_root (validate_return_to parser is_allowed visit.return_cookie)) location visit
          (callback_user config provider parser is_allowed visit) db refl h
