-- ===== src/Auth/Proofs/Refresh.antt =====
-- `POST /auth/refresh` and `POST /auth/logout`.
use opencode_rc.Common.{ℕ, ◌<◌, Text, text, Option, none, some, ◌≡◌, ◌≢◌, refl, ap, ◌∙◌}
use opencode_rc.Redis.{Redis, Prog, ret, run}
use opencode_rc.Redis.Bind.{run_bind, continue}
use opencode_rc.Tokens.{
  RotateResult, ok, refused, RefreshRecord, LoginCodeRecord, Codec, claims_of, key_used, key_grace,
  key_chain, rotate,
}
use opencode_rc.Tokens.Keys.{key_laws}
use opencode_rc.Tokens.Rotate.{Knows}
use opencode_rc.Tokens.Sessions.{IsFresh, rot, rotate-IsFresh, ended_refuses, del-IsEnded}
use opencode_rc.Tokens.SignIn.{revoke-IsEnded}
use opencode_rc.Auth.AccessToken.{Crypto, sign_access_token}
use opencode_rc.Auth.Routes.{
  AuthRequest, Reply, error, token_response, read_protocol, require_client_protocol, string_field,
  reply_of, respond_tokens, refreshed, refresh_program, logout_program, post_refresh, post_logout,
  answer,
}
use opencode_rc.Auth.Proofs.SignIn.{ltb-false}

module _ (crypto : Crypto) (secret : Text) (access_token_ttl : ℕ) (hash : Text → Text)
    (refresh_json : Codec RefreshRecord) (code_json : Codec LoginCodeRecord)
    (session_ttl code_ttl : ℕ) (redis : Redis) where
  open redis use {Db, get, ttl, set, del, later}

  -- A request of a client that speaks the protocol, with a refresh token.
  pub record Carries (token : Text) (req : AuthRequest) : Type 0 where
    pub speaks : 0 < read_protocol req.protocol
    pub carries : string_field req.body (text "refresh_token") ≡ some token

  abbrev pub refresh : (next : Text) (now : ℕ) → AuthRequest → Db → Reply × Db
  refresh next now req db =
      post_refresh crypto secret access_token_ttl hash refresh_json code_json session_ttl code_ttl
        redis next now req db

  abbrev pub logout : AuthRequest → Db → Reply × Db
  logout req db =
      post_logout crypto secret access_token_ttl hash refresh_json code_json session_ttl code_ttl
        redis req db

  abbrev go_on : (now : ℕ) → RotateResult → Prog Reply
  go_on now result = ret (
      refreshed crypto secret access_token_ttl hash refresh_json code_json session_ttl code_ttl now
        result)

  abbrev rotated_to : Text → Text → Db → Option RotateResult × Db
  rotated_to next token db =
      rot redis hash refresh_json code_json session_ttl code_ttl next token db

  abbrev finish : (now : ℕ) → Option RotateResult × Db → Reply × Db
  finish now x =
      answer crypto secret access_token_ttl hash refresh_json code_json session_ttl code_ttl redis
        (continue redis (go_on now) x)

  refresh_lem :
      (next token : Text) (now : ℕ) (req : AuthRequest) (db : Db)
      → Carries token req
      → refresh next now req db ≡ finish now (rotated_to next token db)
  unfolding post_refresh refresh_program require_client_protocol
  refresh_lem next token now req db c =
      let fit = ltb-false (read_protocol req.protocol) 1 c.speaks in
      rw (fit, c.carries)
        (ap
          (answer crypto secret access_token_ttl hash refresh_json code_json session_ttl code_ttl
            redis)
          (run_bind redis (rotate hash refresh_json code_json session_ttl code_ttl next token)
            (go_on now) db))

  finish_result :
      (now : ℕ) (x : Option RotateResult × Db) (result : RotateResult)
      → x.0 ≡ some result
      → finish now x ≡ (
        refreshed crypto secret access_token_ttl hash refresh_json code_json session_ttl code_ttl
            now result,
        x.1,
      )
  unfolding reply_of run
  finish_result now (o, db) result e = ap (λ y. finish now (y, db)) e

  -- Refreshing.
  pub refresh-IsFresh :
      (next token : Text) (r : RefreshRecord) (now : ℕ) (req : AuthRequest) (db : Db)
      → Carries token req
      → IsFresh redis hash refresh_json code_json session_ttl code_ttl token r db
      → hash token ≢ hash next
      → get (key_used (hash next)) db ≡ none
      → get (key_grace (hash next)) db ≡ none
      → ((refresh next now req db).0
          ≡ token_response
              (sign_access_token crypto (claims_of r) secret access_token_ttl now)
              next
              access_token_ttl)
        × IsFresh redis hash refresh_json code_json session_ttl code_ttl next r
            (refresh next now req db).1
  unfolding refreshed respond_tokens
  refresh-IsFresh next token r now req db c f apart u g =
      let (a, fresh) =
        rotate-IsFresh redis hash refresh_json code_json session_ttl code_ttl next token r db f
          apart u g in
      let e =
        refresh_lem next token now req db c
        ∙ finish_result now (rotated_to next token db) (ok next (claims_of r)) a in
      (ap (λ (x : Reply × Db). x.0) e, rw e fresh)

  -- After a sign-out with a refresh token that the store knows, a refresh with any known refresh
  -- token of the same session, by a client that speaks the protocol, is refused with 401 and
  -- changes nothing.
  pub logout_refuses :
      (token other next : Text) (r q : RefreshRecord) (now : ℕ) (req req' : AuthRequest) (db : Db)
      → string_field req.body (text "refresh_token") ≡ some token
      → Knows redis hash refresh_json code_json session_ttl code_ttl token r db
      → Carries other req'
      → Knows redis hash refresh_json code_json session_ttl code_ttl other q db
      → q.chain ≡ r.chain
      → refresh next now req' (logout req db).1 ≡ (error 401 "invalid_grant", (logout req db).1)
  unfolding post_logout logout_program refreshed
  logout_refuses token other next r q now req req' db b k c k' same =
      let (out, ended) =
        revoke-IsEnded redis hash refresh_json code_json session_ttl code_ttl token r db k in
      let after = del (key_chain r.chain) db in
      let to : (logout req db).1 ≡ after = rw b (ap (λ (x : Option (Unit {0}) × Db). x.1) out) in
      rw to (
        refresh_lem next other now req' after c
        ∙ ap (finish now) (
            ended_refuses redis hash refresh_json code_json session_ttl code_ttl next other q after
              (rw same
                (del-IsEnded redis hash refresh_json code_json session_ttl code_ttl r.chain db))
              (simp (redis.get-del, key_laws) k'))
        ∙ finish_result now (some refused, after) refused refl)
