-- ===== src/Tokens/Race/Schedules.antt =====
-- What every schedule of several rotations of one fresh refresh token leads to.
use mathlib.Core.Option.{some-injective}
use opencode_rc.Common.{
  ℕ, zero, suc, ◌<◌, ◌≤◌, Bool, true, false, Text, [], ◌∷◌, List, map, Option, none, some, ◌≡◌, ◌≢◌,
  inl, refl, sym, ap, ◌∙◌, arith,
}
use opencode_rc.Redis.{Redis, Prog, ret}
use opencode_rc.Tokens.{
  RotateResult, ok, RefreshRecord, LoginCodeRecord, Codec, claims_of, key_chain, key_grace, rotate,
  rotate_stored, rotate_active, rotate_used, claimed, and_then, issue_token,
}
use opencode_rc.Tokens.Sessions.{IsFresh}
use opencode_rc.Tokens.Race.{Thread, Event, turns_of, program_at, State, perform_all, InTime}
use opencode_rc.Tokens.Race.Phases.{
  Phase, start, reading, looking, free, taken, claiming, marking, losing, done, IsSound, rank,
}
use opencode_rc.Tokens.Race.Racers.{Racers, left_at, Went, Went-after}

abbrev is_done : {A : Type 0} → Prog A → Bool
is_done (ret a) = true
is_done _ = false

abbrev result_of : {A : Type 0} → Prog A → Option A
result_of (ret a) = some a
result_of _ = none

not_done : false ≢ true
not_done h = cc

ret-injective : {A : Type 0} {a b : A} → ret a ≡ ret b → a ≡ b
ret-injective {a = a} {b = b} h = some-injective a b (ap result_of h)

none-some_of : {A : Type 0} (w : A) → none ≢ some w
none-some_of w e = cc

none-some : (w : Text) → none ≢ some w
none-some w e = cc

module _ (redis : Redis) (hash : Text → Text) (refresh_json : Codec RefreshRecord)
    (code_json : Codec LoginCodeRecord) (session_ttl code_ttl : ℕ) (token : Text)
    (r : RefreshRecord) where
  open redis use {Db, get, ttl, later}

  abbrev Standing : Text → Prog RotateResult → Option Text → Type 0
  Standing = Phase redis hash refresh_json code_json session_ttl code_ttl token r

  abbrev Sound : Db → Type 0
  Sound = IsSound redis hash refresh_json code_json session_ttl code_ttl token r

  abbrev left : {next : Text} {m : Prog RotateResult} {won : Option Text} → Standing next m won → ℕ
  left ph = rank redis hash refresh_json code_json session_ttl code_ttl token r ph

  abbrev won_in : Db → Option Text
  won_in db = get (key_grace (hash token)) db

  abbrev Keeps : Option Text → Option Text → Type 0
  Keeps a b = (w : Text) → a ≡ some w → b ≡ some w

  abbrev Racing : List Thread → Option Text → Type 0
  Racing threads won =
      Racers redis hash refresh_json code_json session_ttl code_ttl token r threads won

  abbrev left_of : ℕ → (threads : List Thread) → (won : Option Text) → Racing threads won → ℕ
  left_of i threads won rs =
      left_at redis hash refresh_json code_json session_ttl code_ttl token r i threads won rs

  abbrev Reached : (ℕ → ℕ) → (ℕ → ℕ) → Option Text → State redis → Type 0
  Reached before cost won st =
      Went redis hash refresh_json code_json session_ttl code_ttl token r before cost won st

  -- All the rotations of the token that a request of the client started: one with each next token.
  abbrev pub started : List Text → List Thread
  started = map (λ next. record {
    next = next;
    program = rotate hash refresh_json code_json session_ttl code_ttl next token;
  })

  -- Next tokens that are not empty, of another hash than the token.
  abbrev pub Apart : List Text → Type 0
  Apart [] = Unit
  Apart (next ∷ nexts) = (hash token ≢ hash next) × (next ≢ []) × Apart nexts

  Racing-started :
      (nexts : List Text) (won : Option Text) → Apart nexts → Racing (started nexts) won
  unfolding Racers
  Racing-started [] won a = tt
  Racing-started (next ∷ nexts) won (apart, ne, rest) =
      (apart, ne, start refl, Racing-started nexts won rest)

  left_of-started :
      (nexts : List Text) (won : Option Text) (a : Apart nexts) (j : ℕ)
      → left_of j (started nexts) won (Racing-started nexts won a) ≤ 6
  unfolding Racers Racing-started left_at rank
  left_of-started [] won a j = omega arith
  left_of-started (next ∷ nexts) won (apart, ne, rest) zero = omega arith
  left_of-started (next ∷ nexts) won (apart, ne, rest) (suc j) = left_of-started nexts won rest j

  fresh-IsSound :
      (db : Db)
      → IsFresh redis hash refresh_json code_json session_ttl code_ttl token r db
      → Sound db
  fresh-IsSound db f = record {
    known = f.known;
    active = f.active;
    lasts = f.lasts;
    won = λ w e. absurd (none-some w (sym f.unclaimed ∙ e));
    used = inl f.unused;
  }

  reading_on :
      (next : Text)
      → is_done (
          rotate_stored hash refresh_json code_json session_ttl code_ttl
            (some (refresh_json.encode r))
            next
            (hash token))
        ≢ true
  unfolding rotate_stored and_then
  reading_on next h = let g = rw (refresh_json.decode-encode r) at h in not_done g

  -- The result of a rotation that has finished.
  answer_of :
      (next : Text) (m : Prog RotateResult) (won : Option Text) (a : RotateResult)
      → Standing next m won
      → m ≡ ret a
      → (w : Text) × (won ≡ some w) × (a ≡ ok w (claims_of r))
  unfolding rotate rotate_stored rotate_active rotate_used claimed and_then issue_token
  answer_of next m won a (start e) h = absurd (not_done (ap is_done (sym e ∙ h)))
  answer_of next m won a (reading e) h = absurd (reading_on next (ap is_done (sym e ∙ h)))
  answer_of next m won a (looking n e) h = absurd (not_done (ap is_done (sym e ∙ h)))
  answer_of next m won a (free n e) h = absurd (not_done (ap is_done (sym e ∙ h)))
  answer_of next m won a (taken n v w new g e) h = absurd (not_done (ap is_done (sym e ∙ h)))
  answer_of next m won a (claiming n g e) h = absurd (not_done (ap is_done (sym e ∙ h)))
  answer_of next m won a (marking n g e) h = absurd (not_done (ap is_done (sym e ∙ h)))
  answer_of next m won a (losing n w new g e) h = absurd (not_done (ap is_done (sym e ∙ h)))
  answer_of next m won a (done w g e) h = (w, g, ret-injective (sym h ∙ e))

  -- A rotation that has no command left.
  none_left :
      (next : Text) (m : Prog RotateResult) (won : Option Text) (ph : Standing next m won)
      → left ph ≤ 0
      → (w : Text) × (won ≡ some w) × (m ≡ ret (ok w (claims_of r)))
  unfolding rank
  none_left next m won (start e) h = absurd (omega arith)
  none_left next m won (reading e) h = absurd (omega arith)
  none_left next m won (looking n e) h = absurd (omega arith)
  none_left next m won (free n e) h = absurd (omega arith)
  none_left next m won (taken n v w new g e) h = absurd (omega arith)
  none_left next m won (claiming n g e) h = absurd (omega arith)
  none_left next m won (marking n g e) h = absurd (omega arith)
  none_left next m won (losing n w new g e) h = absurd (omega arith)
  none_left next m won (done w g e) h = (w, g, e)

  answer_at :
      (i : ℕ) (threads : List Thread) (won : Option Text) (a : RotateResult)
      → Racing threads won
      → program_at i threads ≡ some (ret a)
      → (w : Text) × (won ≡ some w) × (a ≡ ok w (claims_of r))
  unfolding Racers
  answer_at i [] won a rs h = absurd (none-some_of _ h)
  answer_at zero (t ∷ threads) won a (apart, ne, ph, rs) h =
      answer_of t.next t.program won a ph (some-injective _ _ h)
  answer_at (suc i) (t ∷ threads) won a (apart, ne, ph, rs) h = answer_at i threads won a rs h

  none_left_at :
      (i : ℕ) (threads : List Thread) (won : Option Text) (rs : Racing threads won)
      (m : Prog RotateResult)
      → program_at i threads ≡ some m
      → left_of i threads won rs ≤ 0
      → (w : Text) × (won ≡ some w) × (m ≡ ret (ok w (claims_of r)))
  unfolding Racers left_at
  none_left_at i [] won rs m h l = absurd (none-some_of _ h)
  none_left_at zero (t ∷ threads) won (apart, ne, ph, rs) m h l =
      let (w, g, e) = none_left t.next t.program won ph l in (w, g, sym (some-injective _ _ h) ∙ e)
  none_left_at (suc i) (t ∷ threads) won (apart, ne, ph, rs) m h l =
      none_left_at i threads won rs m h l

  abbrev pub raced : List Text → List Event → Db → State redis
  raced nexts events db = perform_all redis events (started nexts, db)

  module _ (nexts : List Text) (events : List Event) (db : Db)
      (f : IsFresh redis hash refresh_json code_json session_ttl code_ttl token r db)
      (a : Apart nexts) (t : InTime redis hash token r events (started nexts, db)) where
    raced-Reached :
        Reached
          (λ j. left_of j (started nexts) (won_in db) (Racing-started nexts (won_in db) a))
          (λ j. turns_of j events)
          (won_in db)
          (raced nexts events db)
    raced-Reached =
        Went-after redis hash refresh_json code_json session_ttl code_ttl token r events
          (started nexts) db (fresh-IsSound db f) (Racing-started nexts (won_in db) a) t

    -- When several rotations of one fresh refresh token, to next tokens that are not empty and of
    -- another hash, interleave their commands in any order, with waits shorter than the session
    -- and, once a rotation has won, than the grace time, every one that has finished answered ok
    -- with the session's claims and the same next token, the one under the grace key, and the
    -- session is still active.
    pub race_agree :
        (i : ℕ) (result : RotateResult)
        → program_at i (raced nexts events db).0 ≡ some (ret result)
        → (w : Text) × (result ≡ ok w (claims_of r))
          × (get (key_grace (hash token)) (raced nexts events db).1 ≡ some w)
          × (0 < ttl (key_chain r.chain) (raced nexts events db).1)
    race_agree i result h =
        let (rs, lt, s, k) = raced-Reached in
        let (w, g, e) =
          answer_at i (raced nexts events db).0 (won_in (raced nexts events db).1) result rs h in
        (w, e, g, s.active)

    -- When several rotations of one fresh refresh token, to next tokens that are not empty and of
    -- another hash, interleave their commands in any order, with waits shorter than the session
    -- and, once a rotation has won, than the grace time, a rotation that has had six turns of its
    -- own has finished, whatever the others did, and answered ok with the session's claims and the
    -- token under the grace key.
    pub race_ends :
        (i : ℕ) (m : Prog RotateResult)
        → program_at i (raced nexts events db).0 ≡ some m
        → 6 ≤ turns_of i events
        → (w : Text) × (m ≡ ret (ok w (claims_of r)))
          × (get (key_grace (hash token)) (raced nexts events db).1 ≡ some w)
    race_ends i m h n =
        let (rs, lt, s, k) = raced-Reached in
        let b = lt i in
        let c = left_of-started nexts (won_in db) a i in
        let (w, g, e) =
          none_left_at i (raced nexts events db).0 (won_in (raced nexts events db).1) rs m h
            (omega arith) in
        (w, e, g)
