-- ===== src/Auth/Proofs/SignIn.antt =====
-- The exchange of a login code for a session, `POST /auth/token`.
use opencode_rc.Common.{
  ℕ, ◌<◌, ◌≤◌, false, Text, text, text_eq, Option, none, some, Bool-cases, ltb, ◌≡◌, refl, ap, ◌∙◌,
  arith, inl, inr, if◌then◌else◌,
}
use opencode_rc.Redis.{Redis, Prog, run}
use opencode_rc.Redis.Bind.{run_bind, continue}
use opencode_rc.Tokens.{
  AccessClaims, RefreshRecord, LoginCodeRecord, Codec, key_code, key_rt, key_chain, consume_code,
  create_chain, issue_token,
}
use opencode_rc.Tokens.Keys.{key_laws}
use opencode_rc.Tokens.SignIn.{later_coded, consumed, consume_at, consume_none, there}
use opencode_rc.Auth.AccessToken.{Crypto, verify_code_verifier, sign_access_token}
use opencode_rc.Auth.Routes.{
  AuthRequest, Reply, error, token_response, read_protocol, require_client_protocol, string_field,
  reply_of, respond_tokens, exchange, token_program, post_token, answer,
}

pub ltb-false : (n k : ℕ) → k ≤ n → ltb n k ≡ false
ltb-false n k h = ground arith

module _ (crypto : Crypto) (secret : Text) (access_token_ttl : ℕ) (hash : Text → Text)
    (refresh_json : Codec RefreshRecord) (code_json : Codec LoginCodeRecord)
    (session_ttl code_ttl : ℕ) (redis : Redis) where
  open redis use {Db, get, ttl, set, del, later}

  -- A request of a client that speaks the protocol, with a login code.
  pub record Brings (code : Text) (req : AuthRequest) : Type 0 where
    pub speaks : 0 < read_protocol req.protocol
    pub brings : string_field req.body (text "code") ≡ some code

  abbrev verifier_of : AuthRequest → Option Text
  verifier_of req = string_field req.body (text "code_verifier")

  abbrev pub post : (chain token : Text) (now : ℕ) → AuthRequest → Db → Reply × Db
  post chain token now req db =
      post_token crypto secret access_token_ttl hash refresh_json code_json session_ttl code_ttl
        redis chain token now req db

  abbrev go_on : (chain token : Text) (now : ℕ) → AuthRequest → Option LoginCodeRecord → Prog Reply
  go_on chain token now req r =
      exchange crypto secret access_token_ttl hash refresh_json code_json session_ttl code_ttl chain
        token now r (verifier_of req)

  post_lem :
      (chain token code : Text) (now : ℕ) (req : AuthRequest) (db : Db)
      → Brings code req
      → post chain token now req db
        ≡ answer crypto secret access_token_ttl hash refresh_json code_json session_ttl code_ttl
            redis
            (continue redis
              (go_on chain token now req)
              (consumed redis hash refresh_json code_json session_ttl code_ttl code db))
  unfolding post_token token_program require_client_protocol
  post_lem chain token code now req db b =
      let s = b.speaks in
      let fit = ltb-false (read_protocol req.protocol) 1 s in
      rw (fit, b.brings)
        (ap
          (answer crypto secret access_token_ttl hash refresh_json code_json session_ttl code_ttl
            redis)
          (run_bind redis (consume_code hash refresh_json code_json session_ttl code_ttl code)
            (go_on chain token now req) db))

  -- The answer to a code that the store does not know.
  abbrev invalid_grant : Reply
  invalid_grant = error 400 "invalid_grant"

  post_unknown :
      (chain token code : Text) (now : ℕ) (req : AuthRequest) (db : Db)
      → Brings code req
      → get (key_code code) db ≡ none
      → (post chain token now req db).0 ≡ invalid_grant
  unfolding exchange reply_of run
  post_unknown chain token code now req db b e =
      ap (λ (x : Reply × Db). x.0)
        (post_lem chain token code now req db b
          ∙ ap
              (λ x.
                answer crypto secret access_token_ttl hash refresh_json code_json session_ttl
                  code_ttl redis (continue redis (go_on chain token now req) x))
              (consume_none redis hash refresh_json code_json session_ttl code_ttl code db e))

  -- The sign-in that a code's exchange starts, or the refusal of a verifier that is not the code's.
  abbrev outcome : (chain token : Text) (now : ℕ) → AuthRequest → LoginCodeRecord → Db → Reply × Db
  outcome chain token now req r db =
      answer crypto secret access_token_ttl hash refresh_json code_json session_ttl code_ttl redis
        (run redis (go_on chain token now req (some r)) db)

  post_known :
      (chain token code : Text) (now : ℕ) (req : AuthRequest) (r : LoginCodeRecord) (db : Db)
      → Brings code req
      → get (key_code code) db ≡ some (code_json.encode r)
      → post chain token now req db ≡ outcome chain token now req r (del (key_code code) db)
  post_known chain token code now req r db b e =
      post_lem chain token code now req db b
      ∙ ap
          (λ x.
            answer crypto secret access_token_ttl hash refresh_json code_json session_ttl code_ttl
              redis (continue redis (go_on chain token now req) x))
          (consume_at redis hash refresh_json code_json session_ttl code_ttl code r db e)

  outcome_reply :
      (chain token : Text) (now : ℕ) (req : AuthRequest) (r : LoginCodeRecord) (db : Db)
      → (outcome chain token now req r db).0 ≡ (
          if verify_code_verifier crypto (verifier_of req) r.challenge
          then token_response
              (sign_access_token crypto
                (record r.claims { sid = some chain })
                secret
                access_token_ttl
                now)
              token
              access_token_ttl
          else invalid_grant)
  unfolding exchange create_chain issue_token respond_tokens reply_of run
  outcome_reply chain token now req r db =
      elim (Bool-cases (verify_code_verifier crypto (verifier_of req) r.challenge)) [
        | inl t ↦ rw t refl
        | inr f ↦ rw f refl
      ]

  outcome_keeps :
      (chain token code : Text) (now : ℕ) (req : AuthRequest) (r : LoginCodeRecord) (db : Db)
      → get (key_code code) db ≡ none
      → get (key_code code) (outcome chain token now req r db).1 ≡ none
  unfolding exchange create_chain issue_token respond_tokens run text_eq key_rt key_code key_chain
  outcome_keeps chain token code now req r db e =
      elim (Bool-cases (verify_code_verifier crypto (verifier_of req) r.challenge)) [
        | inl t ↦ rw t (simp (redis.get-set) e)
        | inr f ↦ rw f e
      ]

  module _ (code : Text) (claims : AccessClaims) (challenge : Text) (db : Db) (n : ℕ) where
    abbrev pub carried : Db
    carried =
        later_coded redis hash refresh_json code_json session_ttl code_ttl code claims challenge db
          n

    -- While a login code lasts, the first exchange of it by a client that speaks the protocol
    -- answers with a session's tokens for the code's claims if the PKCE verifier fits the code's
    -- challenge, and with invalid_grant if not; either way the next exchange of the code is refused
    -- as invalid_grant.
    pub exchange_once :
        n < code_ttl
        → (chain token : Text) (now : ℕ) (req : AuthRequest) → Brings code req
        → (chain' token' : Text) (now' : ℕ) (req' : AuthRequest) → Brings code req'
        → ((post chain token now req carried).0 ≡ (
            if verify_code_verifier crypto (string_field req.body (text "code_verifier")) challenge
            then token_response
                (sign_access_token crypto
                  (record claims { sid = some chain })
                  secret
                  access_token_ttl
                  now)
                token
                access_token_ttl
            else error 400 "invalid_grant"))
          × ((post chain' token' now' req' (post chain token now req carried).1).0
              ≡ error 400 "invalid_grant")
    exchange_once lasts chain token now req b chain' token' now' req' b' =
        let r : LoginCodeRecord = record { claims = claims; challenge = challenge } in
        let known =
          there redis hash refresh_json code_json session_ttl code_ttl code claims challenge db n
            lasts in
        let first = post_known chain token code now req r carried b known in
        (
          ap (λ (x : Reply × Db). x.0) first
              ∙ outcome_reply chain token now req r (del (key_code code) carried),
          post_unknown chain' token' code now' req' _ b' (
              ap (λ (x : Reply × Db). get (key_code code) x.1) first
              ∙ outcome_keeps chain token code now req r (del (key_code code) carried)
                  (simp (redis.get-del, key_laws))),
        )
