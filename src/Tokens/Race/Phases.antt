-- ===== src/Tokens/Race/Phases.antt =====
-- Where a rotation stands while other rotations of the same token may run, and what the database
-- holds.
use opencode_rc.Common.{
  ℕ, suc, ◌<◌, ◌≤◌, true, false, Text, [], ◌∷◌, Option, none, some, ◌≡◌, ◌≢◌, ◌⊎◌, refl,
}
use opencode_rc.Redis.{Redis, Prog, ret}
use opencode_rc.Tokens.{
  RotateResult, ok, RefreshRecord, LoginCodeRecord, Codec, claims_of, claimed, key_rt, key_chain,
  key_used, key_grace, rotate, rotate_stored, rotate_active, rotate_used,
}

module _ (redis : Redis) (hash : Text → Text) (refresh_json : Codec RefreshRecord)
    (code_json : Codec LoginCodeRecord) (session_ttl code_ttl : ℕ) (token : Text)
    (r : RefreshRecord) where
  open redis use {Db, get, ttl, set, del, later}

  -- The value of the token's grace key: the next token of the rotation that won.
  abbrev pub winner : Db → Option Text
  winner db = get (key_grace (hash token)) db

  abbrev pub h : Text
  h = hash token

  abbrev pub Rotation : Type 0
  Rotation = Prog RotateResult

  -- Where a rotation with a given next token stands, in a database with a given winner.
  pub data Phase (next : Text) (m : Rotation) (won : Option Text) : Type 0 where
    start :
        m ≡ rotate hash refresh_json code_json session_ttl code_ttl next token → Phase next m won
    reading :
        m
          ≡ rotate_stored hash refresh_json code_json session_ttl code_ttl
              (some (refresh_json.encode r))
              next
              h
        → Phase next m won
    looking :
        (n : ℕ)
        → m ≡ rotate_active hash refresh_json code_json session_ttl code_ttl (suc n) next h r
        → Phase next m won
    free :
        (n : ℕ)
        → m ≡ rotate_used hash refresh_json code_json session_ttl code_ttl none next h r (suc n)
        → Phase next m won
    taken :
        (n : ℕ) (v w : Text)
        → w ≢ []
        → won ≡ some w
        → m ≡ rotate_used hash refresh_json code_json session_ttl code_ttl (some v) next h r (suc n)
        → Phase next m won
    claiming :
        (n : ℕ)
        → won ≡ some next
        → m ≡ claimed hash refresh_json code_json session_ttl code_ttl true next h r (suc n)
        → Phase next m won
    marking :
        (n : ℕ)
        → won ≡ some next
        → m ≡ Prog.set (key_used h) (b'1' ∷ []) (suc n) (ret (ok next (claims_of r)))
        → Phase next m won
    losing :
        (n : ℕ) (w : Text)
        → w ≢ []
        → won ≡ some w
        → m ≡ claimed hash refresh_json code_json session_ttl code_ttl false next h r (suc n)
        → Phase next m won
    done : (w : Text) → won ≡ some w → m ≡ ret (ok w (claims_of r)) → Phase next m won

  -- What holds of the database as long as the session and the grace time last.
  pub record IsSound (db : Db) : Type 0 where
    pub known : get (key_rt h) db ≡ some (refresh_json.encode r)
    pub active : 0 < ttl (key_chain r.chain) db
    pub lasts : ttl (key_chain r.chain) db ≤ ttl (key_rt h) db
    pub won : (w : Text) → winner db ≡ some w → (w ≢ []) × (0 < ttl (key_grace h) db)
    pub used :
        (get (key_used h) db ≡ none)
        ⊎ ((v w : Text) × (v ≢ [])
            × (get (key_used h) db ≡ some v)
            × (0 < ttl (key_used h) db)
            × (winner db ≡ some w))

  -- A winner stays.
  abbrev pub Stays : Option Text → Option Text → Type 0
  Stays a b = (w : Text) → a ≡ some w → b ≡ some w

  -- The commands that are left to it.
  unfoldable pub rank : {next : Text} {m : Rotation} {won : Option Text} → Phase next m won → ℕ
  rank (start e) = 6
  rank (reading e) = 5
  rank (looking n e) = 4
  rank (free n e) = 3
  rank (taken n v w ne g e) = 1
  rank (claiming n g e) = 2
  rank (marking n g e) = 1
  rank (losing n w ne g e) = 1
  rank (done w g e) = 0

  pub Phase-Stays :
      (next : Text) (m : Rotation) (a b : Option Text)
      → Stays a b
      → (ph : Phase next m a) → (ph' : Phase next m b) × (rank ph' ≡ rank ph)
  unfolding rank
  Phase-Stays next m a b s (start e) = (start e, refl)
  Phase-Stays next m a b s (reading e) = (reading e, refl)
  Phase-Stays next m a b s (looking n e) = (looking n e, refl)
  Phase-Stays next m a b s (free n e) = (free n e, refl)
  Phase-Stays next m a b s (taken n v w ne g e) = (taken n v w ne (s w g) e, refl)
  Phase-Stays next m a b s (claiming n g e) = (claiming n (s next g) e, refl)
  Phase-Stays next m a b s (marking n g e) = (marking n (s next g) e, refl)
  Phase-Stays next m a b s (losing n w ne g e) = (losing n w ne (s w g) e, refl)
  Phase-Stays next m a b s (done w g e) = (done w (s w g) e, refl)
