-- ===== src/Tokens/Crash.antt =====
-- A rotation that stops between its commands, as when the server stops or its connection to Redis
-- fails.
use opencode_rc.Common.{ℕ, Text, [], none, some, ◌≡◌, ◌≢◌, arith}
use opencode_rc.Redis.{Redis, run_some, step}
use opencode_rc.Tokens.{
  ok, refused, RefreshRecord, LoginCodeRecord, Codec, claims_of, key_rt, key_chain, key_grace,
  refresh_grace_seconds, rotate, rotate_stored, rotate_active, rotate_used, and_then,
}
use opencode_rc.Tokens.Keys.{key_laws}
use opencode_rc.Tokens.Rotate.{truthy_ne, rotate_lost, rotate_unknown}
use opencode_rc.Tokens.Sessions.{IsFresh, suc_of_pos, rot}

module _ (redis : Redis) (hash : Text → Text) (refresh_json : Codec RefreshRecord)
    (code_json : Codec LoginCodeRecord) (session_ttl code_ttl : ℕ) where
  open redis use {Db, get, ttl, set, del, later}

  -- The database once a rotation has run its first `n` commands.
  abbrev pub stopped : ℕ → (next token : Text) → Db → Db
  stopped n next token db =
      run_some redis n (rotate hash refresh_json code_json session_ttl code_ttl next token) db

  module _ (next other third token : Text) (r : RefreshRecord) (db : Db)
      (f : IsFresh redis hash refresh_json code_json session_ttl code_ttl token r db) where
    stopped_claimed :
        stopped 4 next token db ≡ set (key_grace (hash token)) next refresh_grace_seconds db
    unfolding rotate rotate_stored rotate_active rotate_used and_then run_some step
    stopped_claimed =
        let k = f.known in
        let (n, e) = suc_of_pos (ttl (key_chain r.chain) db) f.active in
        let u = f.unused in
        let g = f.unclaimed in
        ground (
          arith,
          truthy_ne (refresh_json.encode r) (refresh_json.encode-ne-nil r),
          refresh_json.decode-encode r,
        )

    -- When the rotation of a fresh token to a next one that is not empty and not in the store stops
    -- right behind its fourth command (the SET NX of the grace key), repeating it answers with that
    -- next token, rotating the next token is refused, and neither changes the database.
    pub rotate_stopped :
        next ≢ []
        → get (key_rt (hash next)) db ≡ none
        → let db' = stopped 4 next token db in
          (rot redis hash refresh_json code_json session_ttl code_ttl other token db'
            ≡ (some (ok next (claims_of r)), db'))
          × (rot redis hash refresh_json code_json session_ttl code_ttl third next db'
              ≡ (some refused, db'))
    rotate_stopped ne absent =
        let (n, e) = suc_of_pos (ttl (key_chain r.chain) db) f.active in
        let claimed_db = set (key_grace (hash token)) next refresh_grace_seconds db in
        rw stopped_claimed (
          rotate_lost redis hash refresh_json code_json session_ttl code_ttl other token r
              claimed_db (simp (redis.get-set, key_laws) f.known) n
              (simp (redis.ttl-set, key_laws) e) next ne (simp (redis.get-set, key_laws) f.unused)
              (simp (redis.get-set, key_laws)),
          rotate_unknown redis hash refresh_json code_json session_ttl code_ttl third next
              claimed_db (simp (redis.get-set, key_laws) absent),
        )
