-- ===== src/Tokens/Rotate.antt =====
-- What one rotation does, on every branch.
use opencode_rc.Common.{ℕ, suc, Text, [], ◌∷◌, Option, none, some, ◌≡◌, ◌≢◌, refl, arith}
use opencode_rc.Redis.{Redis, run}
use opencode_rc.Tokens.{
  RotateResult, ok, refused, RefreshRecord, LoginCodeRecord, Codec, claims_of, truthy, key_rt,
  key_chain, key_used, key_grace, refresh_grace_seconds, rotate, rotate_stored, and_then,
  rotate_active, rotate_used, claimed, graced, issue_token,
}

pub truthy_ne : (s : Text) → s ≢ [] → truthy (some s) ≡ some s
truthy_ne [] h = absurd (h refl)
truthy_ne (c ∷ s) h = refl

module _ (redis : Redis) (hash : Text → Text) (refresh_json : Codec RefreshRecord)
    (code_json : Codec LoginCodeRecord) (session_ttl code_ttl : ℕ) where
  open redis use {Db, get, ttl, set, del}

  abbrev pub do_rotate : Text → Text → Db → Option RotateResult × Db
  do_rotate next token db =
      run redis (rotate hash refresh_json code_json session_ttl code_ttl next token) db

  -- The store knows the refresh token, for the given record.
  abbrev pub Knows : Text → RefreshRecord → Db → Type 0
  Knows token r db = get (key_rt (hash token)) db ≡ some (refresh_json.encode r)

  -- A rotation of a known token is what happens once its record is read.
  rotate_known :
      (next token : Text) (r : RefreshRecord) (db : Db)
      → Knows token r db
      → do_rotate next token db
        ≡ run redis
            (rotate_active hash refresh_json code_json session_ttl code_ttl
              (ttl (key_chain r.chain) db)
              next
              (hash token)
              r)
            db
  unfolding rotate rotate_stored and_then run
  rotate_known next token r db h = ground (
    arith,
    truthy_ne (refresh_json.encode r) (refresh_json.encode-ne-nil r),
    refresh_json.decode-encode r,
  )

  abbrev pub refuse : Db → Option RotateResult × Db
  refuse db = (some refused, db)

  -- A token that the store does not know is refused.
  pub rotate_unknown :
      (next token : Text) (db : Db)
      → get (key_rt (hash token)) db ≡ none
      → do_rotate next token db ≡ refuse db
  unfolding rotate rotate_stored run
  rotate_unknown next token db h = ground arith

  module _ (next token : Text) (r : RefreshRecord) (db : Db) (h : Knows token r db) where
    -- So is a token whose session has ended.
    pub rotate_ended : ttl (key_chain r.chain) db ≡ 0 → do_rotate next token db ≡ refuse db
    unfolding rotate_active run
    rotate_ended e = ground (arith, rotate_known next token r db h)

    module _ (n : ℕ) (active : ttl (key_chain r.chain) db ≡ suc n) where
      -- The database after a rotation that wins the grace key.
      abbrev pub rotated : Db
      rotated = set (key_used (hash token)) (b'1' ∷ []) (suc n) (
          set (key_rt (hash next)) (refresh_json.encode r) (suc n)
            (set (key_grace (hash token)) next refresh_grace_seconds db))

      rotate_at :
          do_rotate next token db
          ≡ run redis
              (rotate_used hash refresh_json code_json session_ttl code_ttl
                (truthy (get (key_used (hash token)) db))
                next
                (hash token)
                r
                (suc n))
              db
      unfolding rotate_active run
      rotate_at = ground (arith, rotate_known next token r db h)

      pub rotate_first :
          get (key_used (hash token)) db ≡ none
          → get (key_grace (hash token)) db ≡ none
          → do_rotate next token db ≡ (some (ok next (claims_of r)), rotated)
      unfolding rotate_used claimed issue_token run
      rotate_first u g = ground (arith, rotate_at)

      pub rotate_graced :
          (w token' : Text)
          → w ≢ []
          → token' ≢ []
          → get (key_used (hash token)) db ≡ some w
          → get (key_grace (hash token)) db ≡ some token'
          → do_rotate next token db ≡ (some (ok token' (claims_of r)), db)
      unfolding rotate_used graced run
      rotate_graced w token' a b u g = ground (arith, rotate_at, truthy_ne w a, truthy_ne token' b)

      pub rotate_reused :
          (w : Text)
          → w ≢ []
          → get (key_used (hash token)) db ≡ some w
          → get (key_grace (hash token)) db ≡ none
          → do_rotate next token db ≡ refuse (del (key_chain r.chain) db)
      unfolding rotate_used graced run
      rotate_reused w a u g = ground (arith, rotate_at, truthy_ne w a)

      pub rotate_lost :
          (token' : Text)
          → token' ≢ []
          → get (key_used (hash token)) db ≡ none
          → get (key_grace (hash token)) db ≡ some token'
          → do_rotate next token db ≡ (some (ok token' (claims_of r)), db)
      unfolding rotate_used claimed graced run
      rotate_lost token' b u g = ground (arith, rotate_at, truthy_ne token' b)
