-- ===== src/Tokens/SignIn.antt =====
-- Sign-in and sign-out: the login code that a browser carries to the client, the session that its
-- exchange starts, and the end of the session.
use opencode_rc.Common.{ℕ, ◌<◌, ◌≤◌, Text, Option, none, some, ◌≡◌, refl, ap, ◌∙◌, arith}
use opencode_rc.Redis.{Redis, run}
use opencode_rc.Tokens.{
  AccessClaims, RefreshRecord, LoginCodeRecord, Codec, key_code, key_chain, key_used, key_grace,
  create_code, consume_code, consume_stored, create_chain, issue_token, session_active, is_some,
  revoke, revoke_stored, and_then,
}
use opencode_rc.Tokens.Keys.{key_laws}
use opencode_rc.Tokens.Rotate.{Knows, truthy_ne}
use opencode_rc.Tokens.Sessions.{IsFresh, IsEnded, del-IsEnded}

module _ (redis : Redis) (hash : Text → Text) (refresh_json : Codec RefreshRecord)
    (code_json : Codec LoginCodeRecord) (session_ttl code_ttl : ℕ) where
  open redis use {Db, get, ttl, set, del, later}

  abbrev coded : (code : Text) → AccessClaims → (challenge : Text) → Db → Option Text × Db
  coded code claims challenge db =
      run redis (create_code hash refresh_json code_json session_ttl code_ttl code claims challenge)
        db

  abbrev pub consumed : (code : Text) → Db → Option (Option LoginCodeRecord) × Db
  consumed code db =
      run redis (consume_code hash refresh_json code_json session_ttl code_ttl code) db

  abbrev result : Option (Option LoginCodeRecord) × Db → Option (Option LoginCodeRecord)
  result x = x.0

  pub consume_at :
      (code : Text) (record_ : LoginCodeRecord) (db : Db)
      → get (key_code code) db ≡ some (code_json.encode record_)
      → consumed code db ≡ (some (some record_), del (key_code code) db)
  unfolding consume_code consume_stored and_then run
  consume_at code r db h =
      ground (
        arith,
        truthy_ne (code_json.encode r) (code_json.encode-ne-nil r),
        code_json.decode-encode r,
      )

  pub consume_none :
      (code : Text) (db : Db)
      → get (key_code code) db ≡ none
      → consumed code db ≡ (some none, del (key_code code) db)
  unfolding consume_code consume_stored run
  consume_none code db h = ground arith

  coded_db :
      (code : Text) (claims : AccessClaims) (challenge : Text) (db : Db)
      → (coded code claims challenge db).1
        ≡ set
            (key_code code)
            (code_json.encode (record { claims = claims; challenge = challenge }))
            code_ttl
            db
  unfolding create_code run
  coded_db code claims challenge db = refl

  module _ (code : Text) (claims : AccessClaims) (challenge : Text) (db : Db) (n : ℕ) where
    abbrev pub later_coded : Db
    later_coded = later n (coded code claims challenge db).1

    abbrev sent : LoginCodeRecord
    sent = record { claims = claims; challenge = challenge }

    abbrev stored : Db
    stored = set (key_code code) (code_json.encode sent) code_ttl db

    later_stored : later_coded ≡ later n stored
    later_stored = ap (later n) (coded_db code claims challenge db)

    pub there : n < code_ttl → get (key_code code) later_coded ≡ some (code_json.encode sent)
    there lt = rw later_stored (
        redis.get-later (key_code code) n stored (simp (redis.ttl-set, key_laws) lt)
        ∙ simp (redis.get-set, key_laws))

    -- A login code gives back its claims and challenge once, while it lasts, and nothing when it is
    -- used a second time.
    pub code_once :
        n < code_ttl
        → ((consumed code later_coded).0
            ≡ some (some (record { claims = claims; challenge = challenge })))
          × ((consumed code (consumed code later_coded).1).0 ≡ some none)
    code_once lt =
        let ran = consume_at code sent later_coded (there lt) in
        (
          ap result ran,
          rw ran (
              ap result (
                consume_none code (del (key_code code) later_coded)
                  (simp (redis.get-del, key_laws)))),
        )

    -- A login code, of a time above 0, gives nothing once its time is over.
    pub code_expires : 0 < code_ttl → code_ttl ≤ n → (consumed code later_coded).0 ≡ some none
    code_expires p le = ap result (
        consume_none code later_coded (
          rw later_stored (
            redis.get-expired (key_code code) n stored (simp (redis.ttl-set, key_laws) p)
              (simp (redis.ttl-set, key_laws) le))))

  -- A sign-in, with a session time above 0 and a token that has no used key and no grace key,
  -- answers with the token and claims that name the session, and the token is fresh.
  pub create_chain-IsFresh :
      (chain token : Text) (claims : AccessClaims) (db : Db)
      → 0 < session_ttl
      → get (key_used (hash token)) db ≡ none
      → get (key_grace (hash token)) db ≡ none
      → let (session, db') =
          run redis
            (create_chain hash refresh_json code_json session_ttl code_ttl chain token claims)
            db in
        (session
          ≡ some (record { refresh_token = token; claims = record claims { sid = some chain } }))
        × IsFresh redis hash refresh_json code_json session_ttl code_ttl token
            (record { chain = chain; uid = claims.uid; email = claims.email; name = claims.name })
            db'
  unfolding create_chain issue_token run
  create_chain-IsFresh chain token claims db p u g = (
    refl,
    record {
      known = simp (redis.get-set, key_laws);
      active = simp (redis.ttl-set, key_laws) p;
      unused = simp (redis.get-set, key_laws) u;
      unclaimed = simp (redis.get-set, key_laws) g;
      lasts = simp (redis.ttl-set, key_laws) (omega arith);
    },
  )

  abbrev pub signed_out : (token : Text) → Db → Option (Unit {0}) × Db
  signed_out token db = run redis (revoke hash refresh_json code_json session_ttl code_ttl token) db

  signed_out_at :
      (token : Text) (r : RefreshRecord) (db : Db)
      → Knows redis hash refresh_json code_json session_ttl code_ttl token r db
      → signed_out token db ≡ (some tt, del (key_chain r.chain) db)
  unfolding revoke revoke_stored and_then run
  signed_out_at token r db h = ground (
    arith,
    truthy_ne (refresh_json.encode r) (refresh_json.encode-ne-nil r),
    refresh_json.decode-encode r,
  )

  -- Signing out with a known token deletes the key of its session and nothing else, and the session
  -- has then ended.
  pub revoke-IsEnded :
      (token : Text) (r : RefreshRecord) (db : Db)
      → Knows redis hash refresh_json code_json session_ttl code_ttl token r db
      → (signed_out token db ≡ (some tt, del (key_chain r.chain) db))
        × IsEnded redis hash refresh_json code_json session_ttl code_ttl r.chain
            (signed_out token db).1
  revoke-IsEnded token r db h = (
    signed_out_at token r db h,
    rw (signed_out_at token r db h)
        (del-IsEnded redis hash refresh_json code_json session_ttl code_ttl r.chain db),
  )

  -- Whether a session counts as active is whether its key is there.
  pub session_active_lem :
      (sid : Text) (db : Db)
      → run redis (session_active hash refresh_json code_json session_ttl code_ttl sid) db
        ≡ (some (is_some (get (key_chain sid) db)), db)
  unfolding session_active run
  session_active_lem sid db = refl
