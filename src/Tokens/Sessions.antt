-- ===== src/Tokens/Sessions.antt =====
-- The life of a sign-in session: rotation, repeated rotation within the grace time, reuse of an
-- old token, sign-out.
use opencode_rc.Common.{
  ℕ, zero, suc, ◌-◌, ◌<◌, ◌≤◌, false, Text, text_eq, [], ◌∷◌, Option, none, some, ◌≡◌, ◌≢◌, refl,
  sym, ap, ◌∙◌, arith,
}
use opencode_rc.Redis.{Redis}
use opencode_rc.Tokens.{
  RotateResult, ok, refused, RefreshRecord, LoginCodeRecord, Codec, claims_of, key_rt, key_chain,
  key_used, key_grace, refresh_grace_seconds,
}
use opencode_rc.Tokens.Keys.{key_laws, ne_of_text_eq}
use opencode_rc.Tokens.Rotate.{
  Knows, do_rotate, refuse, rotated, rotate_ended, rotate_first, rotate_graced, rotate_reused,
}

pub suc_of_pos : (n : ℕ) → 0 < n → (m : ℕ) × (n ≡ suc m)
suc_of_pos zero h = absurd (omega arith)
suc_of_pos (suc m) h = (m, refl)

module _ (redis : Redis) (hash : Text → Text) (refresh_json : Codec RefreshRecord)
    (code_json : Codec LoginCodeRecord) (session_ttl code_ttl : ℕ) where
  open redis use {Db, get, ttl, set, del, later}

  -- A refresh token that was issued and not yet rotated, in a session that has not ended.
  pub record IsFresh (token : Text) (r : RefreshRecord) (db : Db) : Type 0 where
    pub known : get (key_rt (hash token)) db ≡ some (refresh_json.encode r)
    pub active : 0 < ttl (key_chain r.chain) db
    pub unused : get (key_used (hash token)) db ≡ none
    pub unclaimed : get (key_grace (hash token)) db ≡ none
    pub lasts : ttl (key_chain r.chain) db ≤ ttl (key_rt (hash token)) db

  abbrev pub rot : Text → Text → Db → Option RotateResult × Db
  rot = do_rotate redis hash refresh_json code_json session_ttl code_ttl

  -- Rotating a fresh refresh token, with a next token of another hash that has no used key and no
  -- grace key, issues the next one with the session's claims, and that one is then fresh in the
  -- same session.
  pub rotate-IsFresh :
      (next token : Text) (r : RefreshRecord) (db : Db)
      → IsFresh token r db
      → hash token ≢ hash next
      → get (key_used (hash next)) db ≡ none
      → get (key_grace (hash next)) db ≡ none
      → ((rot next token db).0 ≡ some (ok next (claims_of r)))
        × IsFresh next r (rot next token db).1
  rotate-IsFresh next token r db f apart u g =
      let (n, e) = suc_of_pos (ttl (key_chain r.chain) db) f.active in
      let ran =
        rotate_first redis hash refresh_json code_json session_ttl code_ttl next token r db f.known
          n e f.unused f.unclaimed in
      (
        ap (λ (x : Option RotateResult × Db). x.0) ran,
        rw ran (record {
          known = simp (redis.get-set, key_laws);
          active = simp (redis.ttl-set, key_laws) f.active;
          unused = simp (redis.get-set, key_laws, ne_of_text_eq (hash token) (hash next) apart) u;
          unclaimed =
              simp (redis.get-set, key_laws, ne_of_text_eq (hash token) (hash next) apart) g;
          lasts = simp (redis.ttl-set, key_laws) (omega arith);
        }),
      )

  -- Time alone keeps a fresh token fresh until its session expires.
  pub IsFresh-later :
      (n : ℕ) (token : Text) (r : RefreshRecord) (db : Db)
      → IsFresh token r db
      → n < ttl (key_chain r.chain) db
      → IsFresh token r (later n db)
  IsFresh-later n token r db f lt = record {
    known = redis.get-later (key_rt (hash token)) n db (let l = f.lasts in omega arith) ∙ f.known;
    active = rw (redis.ttl-later (key_chain r.chain) n db) (omega arith);
    unused = redis.get-absent (key_used (hash token)) n db f.unused;
    unclaimed = redis.get-absent (key_grace (hash token)) n db f.unclaimed;
    lasts =
        rw (redis.ttl-later (key_chain r.chain) n db, redis.ttl-later (key_rt (hash token)) n db)
          (let l = f.lasts in omega arith);
  }

  abbrev ref : Db → Option RotateResult × Db
  ref = refuse redis hash refresh_json code_json session_ttl code_ttl

  -- A session that has ended: its key is gone.
  pub record IsEnded (chain : Text) (db : Db) : Type 0 where
    pub gone : get (key_chain chain) db ≡ none
    pub over : ttl (key_chain chain) db ≡ 0

  pub del-IsEnded : (chain : Text) (db : Db) → IsEnded chain (del (key_chain chain) db)
  del-IsEnded chain db = record {
    gone = simp (redis.get-del, key_laws);
    over = simp (redis.ttl-del, key_laws);
  }

  -- In a session that has ended every refresh token that the store knows is refused, and nothing
  -- changes.
  pub ended_refuses :
      (next token : Text) (r : RefreshRecord) (db : Db)
      → IsEnded r.chain db
      → Knows redis hash refresh_json code_json session_ttl code_ttl token r db
      → rot next token db ≡ (some refused, db)
  ended_refuses next token r db e h =
      rotate_ended redis hash refresh_json code_json session_ttl code_ttl next token r db h e.over

  -- The database `n` seconds after a fresh token was rotated.
  abbrev pub after : ℕ → (next token : Text) → Db → Db
  after n next token db = later n (rot next token db).1

  module _ (next other token : Text) (r : RefreshRecord) (db : Db) (f : IsFresh token r db)
      (apart : hash token ≢ hash next) (ne : next ≢ []) (n : ℕ)
      (lt : n < ttl (key_chain r.chain) db) where
    abbrev seconds : (m : ℕ) × (ttl (key_chain r.chain) db ≡ suc m)
    seconds = suc_of_pos (ttl (key_chain r.chain) db) f.active

    abbrev won : Db
    won =
        rotated redis hash refresh_json code_json session_ttl code_ttl next token r db f.known
          seconds.0 seconds.1

    after-won : after n next token db ≡ later n won
    after-won =
        ap (λ (x : Option RotateResult × Db). later n x.1)
          (rotate_first redis hash refresh_json code_json session_ttl code_ttl next token r db
            f.known seconds.0 seconds.1 f.unused f.unclaimed)

    other_token : text_eq (hash next) (hash token) ≡ false
    other_token = ne_of_text_eq (hash next) (hash token) (λ e. apart (sym e))

    long : n < suc seconds.0
    long = rw (sym seconds.1) lt

    won_known : get (key_rt (hash token)) (later n won) ≡ some (refresh_json.encode r)
    won_known =
        redis.get-later (key_rt (hash token)) n won
          (simp (redis.ttl-set, key_laws, other_token) (let l = f.lasts in omega arith))
        ∙ simp (redis.get-set, key_laws, other_token) f.known

    won_active : ttl (key_chain r.chain) (later n won) ≡ suc (seconds.0 - n)
    won_active =
        redis.ttl-later (key_chain r.chain) n won
        ∙ simp (redis.ttl-set, key_laws) (let l = long in let e = seconds.1 in omega arith)

    won_used : get (key_used (hash token)) (later n won) ≡ some (b'1' ∷ [])
    won_used =
        redis.get-later (key_used (hash token)) n won (simp (redis.ttl-set, key_laws) long)
        ∙ simp (redis.get-set, key_laws)

    -- After a fresh token was rotated to a next one that is not empty and has another hash,
    -- rotating the old token again within the grace time, while the session lasts, gives the same
    -- next token and changes nothing.
    pub rotate_again :
        n < refresh_grace_seconds
        → rot other token (after n next token db)
          ≡ (some (ok next (claims_of r)), after n next token db)
    rotate_again short = rw after-won (
        rotate_graced redis hash refresh_json code_json session_ttl code_ttl other token r
          (later n won) won_known (seconds.0 - n) won_active (b'1' ∷ []) next (λ e. ground arith) ne
          won_used
          (redis.get-later (key_grace (hash token)) n won (simp (redis.ttl-set, key_laws) short)
            ∙ simp (redis.get-set, key_laws)))

    -- After a fresh token was rotated to a next one that is not empty and has another hash,
    -- rotating the old token again once the grace time is over, while the session lasts, is refused
    -- and ends the session.
    pub rotate_reuse :
        refresh_grace_seconds ≤ n
        → ((rot other token (after n next token db)).0 ≡ some refused)
          × IsEnded r.chain (rot other token (after n next token db)).1
    rotate_reuse late =
        let ran =
          ap (rot other token) after-won
          ∙ rotate_reused redis hash refresh_json code_json session_ttl code_ttl other token r
              (later n won) won_known (seconds.0 - n) won_active (b'1' ∷ []) (λ e. ground arith)
              won_used
              (redis.get-expired (key_grace (hash token)) n won
                (simp (redis.ttl-set, key_laws) (omega arith))
                (simp (redis.ttl-set, key_laws) late)) in
        (ap (λ (x : Option RotateResult × Db). x.0) ran, rw ran (del-IsEnded r.chain (later n won)))
