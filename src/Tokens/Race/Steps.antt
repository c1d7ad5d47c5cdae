-- ===== src/Tokens/Race/Steps.antt =====
-- What each command of a rotation does, wherever the rotation stands.
use mathlib.Core.Option.{some-injective}
use opencode_rc.Common.{
  ◌-◌, ℕ, suc, ◌≤◌, true, false, Text, text_eq, [], ◌∷◌, Option, none, some, ◌≡◌, ◌≢◌, inl, inr,
  refl, sym, ap, ◌∙◌, subst, arith, Option-cases,
}
use opencode_rc.Redis.{Redis, Prog, ret, step}
use opencode_rc.Tokens.{
  RotateResult, ok, RefreshRecord, LoginCodeRecord, Codec, claims_of, truthy, and_then, graced,
  claimed, issue_token, key_rt, key_chain, key_used, key_grace, refresh_grace_seconds, rotate,
  rotate_stored, rotate_active, rotate_used,
}
use opencode_rc.Tokens.Keys.{key_laws, ne_of_text_eq}
use opencode_rc.Tokens.Rotate.{truthy_ne}
use opencode_rc.Tokens.Sessions.{suc_of_pos}
use opencode_rc.Tokens.Race.Phases.{
  Phase, start, reading, looking, free, taken, claiming, marking, losing, done, IsSound, rank,
}

module _ (redis : Redis) (hash : Text → Text) (refresh_json : Codec RefreshRecord)
    (code_json : Codec LoginCodeRecord) (session_ttl code_ttl : ℕ) (token : Text)
    (r : RefreshRecord) where
  open redis use {Db, get, ttl, set, del, later}

  abbrev Rotation : Type 0
  Rotation = Prog RotateResult

  abbrev h : Text
  h = hash token

  abbrev won_in : Db → Option Text
  won_in db = get (key_grace (hash token)) db

  abbrev Standing : Text → Rotation → Option Text → Type 0
  Standing next m won =
      Phase redis hash refresh_json code_json session_ttl code_ttl token r next m won

  abbrev Sound : Db → Type 0
  Sound db = IsSound redis hash refresh_json code_json session_ttl code_ttl token r db

  abbrev left : {next : Text} {m : Rotation} {won : Option Text} → Standing next m won → ℕ
  left ph = rank redis hash refresh_json code_json session_ttl code_ttl token r ph

  abbrev Keeps : Option Text → Option Text → Type 0
  Keeps a b = (w : Text) → a ≡ some w → b ≡ some w

  -- A rotation after one of its steps, and the database.
  abbrev pub Moved : Text → ℕ → Db → Rotation × Db → Type 0
  Moved next k db (m, db') =
      (ph : Standing next m (won_in db')) × (left ph ≤ k - 1)
      × Sound db'
      × Keeps (won_in db) (won_in db')

  stay :
      (next : Text) (k : ℕ) (db : Db) (m : Rotation)
      → Sound db
      → (ph : Standing next m (won_in db)) → left ph ≤ k - 1
      → Moved next k db (m, db)
  stay next k db m s ph lt = (ph, lt, s, λ w e. e)

  module _ (next : Text) (db : Db) (s : Sound db) (apart : hash token ≢ hash next)
      (ne : next ≢ []) where
    clash : (w : Text) → none ≡ some w → ⊥
    clash w e = cc

    other_hash : text_eq (hash next) (hash token) ≡ false
    other_hash = ne_of_text_eq (hash next) (hash token) (λ e. apart (sym e))

    abbrev rot_ : Rotation
    rot_ = rotate hash refresh_json code_json session_ttl code_ttl next token

    move_start : Moved next 6 db (step redis rot_ db)
    unfolding rotate step rank
    move_start =
        stay next 6 db _ s
          (reading (
            ap
              (λ o.
                rotate_stored hash refresh_json code_json session_ttl code_ttl (truthy o) next h)
              s.known
            ∙ ap (λ o. rotate_stored hash refresh_json code_json session_ttl code_ttl o next h)
                (truthy_ne (refresh_json.encode r) (refresh_json.encode-ne-nil r))))
          (omega arith)

    step_reading :
        step redis
          (rotate_stored hash refresh_json code_json session_ttl code_ttl
            (some (refresh_json.encode r))
            next
            h)
          db
        ≡ (
          rotate_active hash refresh_json code_json session_ttl code_ttl
              (ttl (key_chain r.chain) db)
              next
              h
              r,
          db,
        )
    unfolding rotate_stored and_then step
    step_reading = ground (arith, refresh_json.decode-encode r)

    move_reading : Moved next 5 db (
        step redis
          (rotate_stored hash refresh_json code_json session_ttl code_ttl
            (some (refresh_json.encode r))
            next
            h)
          db)
    unfolding rank
    move_reading =
        let (n, e) = suc_of_pos (ttl (key_chain r.chain) db) s.active in
        subst (Moved next 5 db) (sym step_reading) (
          stay next 5 db _ s
            (looking n (
              ap (λ k. rotate_active hash refresh_json code_json session_ttl code_ttl k next h r)
                e))
            (omega arith))

    move_looking :
        (n : ℕ)
        → Moved next 4 db (
            step redis
              (rotate_active hash refresh_json code_json session_ttl code_ttl (suc n) next h r)
              db)
    unfolding rotate_active step rank
    move_looking n = elim s.used [
      | inl e ↦
          stay next 4 db _ s
            (free n (
              ap
                (λ o.
                  rotate_used hash refresh_json code_json session_ttl code_ttl (truthy o) next h r
                    (suc n))
                e))
            (omega arith)
      | inr (v, w, nev, u, t, g) ↦
          stay next 4 db _ s
            (taken n v w (s.won w g).0 g (
              ap
                (λ o.
                  rotate_used hash refresh_json code_json session_ttl code_ttl (truthy o) next h r
                    (suc n))
                u
              ∙ ap
                  (λ o.
                    rotate_used hash refresh_json code_json session_ttl code_ttl o next h r (suc n))
                  (truthy_ne v nev)))
            (omega arith)
    ]

    abbrev free_ : ℕ → Rotation
    free_ n = rotate_used hash refresh_json code_json session_ttl code_ttl none next h r (suc n)

    step_won :
        (n : ℕ)
        → won_in db ≡ none
        → step redis (free_ n) db ≡ (
          claimed hash refresh_json code_json session_ttl code_ttl true next h r (suc n),
          set (key_grace h) next refresh_grace_seconds db,
        )
    unfolding rotate_used step
    step_won n e = ground arith

    step_lost :
        (n : ℕ) (w : Text)
        → won_in db ≡ some w
        → step redis (free_ n) db
          ≡ (claimed hash refresh_json code_json session_ttl code_ttl false next h r (suc n), db)
    unfolding rotate_used step
    step_lost n w e = ground arith

    set_winner : won_in (set (key_grace h) next refresh_grace_seconds db) ≡ some next
    set_winner = simp (redis.get-set, key_laws)

    unused : won_in db ≡ none → get (key_used h) db ≡ none
    unused e = elim s.used [ inl u ↦ u | inr (v, w, nev, u, t, g) ↦ absurd (clash w (sym e ∙ g)) ]

    won-Sound : won_in db ≡ none → Sound (set (key_grace h) next refresh_grace_seconds db)
    won-Sound e = record {
      known = simp (redis.get-set, key_laws) s.known;
      active = simp (redis.ttl-set, key_laws) s.active;
      lasts = simp (redis.ttl-set, key_laws) s.lasts;
      won = λ w g. (
        λ nil. ne (some-injective next w (sym set_winner ∙ g) ∙ nil),
        simp (redis.ttl-set, key_laws) (omega arith),
      );
      used = inl (simp (redis.get-set, key_laws) (unused e));
    }

    -- The database once the next token is stored, and once the old one is marked.
    abbrev issued : ℕ → Db
    issued n = set (key_rt (hash next)) (refresh_json.encode r) (suc n) db

    abbrev marked : ℕ → Db
    marked n = set (key_used h) (b'1' ∷ []) (suc n) db

    won_in-issued : (n : ℕ) → won_in (issued n) ≡ won_in db
    won_in-issued n = simp (redis.get-set, key_laws)

    won_in-marked : (n : ℕ) → won_in (marked n) ≡ won_in db
    won_in-marked n = simp (redis.get-set, key_laws)

    issued-Sound : (n : ℕ) → Sound (issued n)
    issued-Sound n = record {
      known = simp (redis.get-set, key_laws, other_hash) s.known;
      active = simp (redis.ttl-set, key_laws) s.active;
      lasts = simp (redis.ttl-set, key_laws, other_hash) s.lasts;
      won = λ w g. (
        (s.won w (sym (won_in-issued n) ∙ g)).0,
        simp (redis.ttl-set, key_laws) (s.won w (sym (won_in-issued n) ∙ g)).1,
      );
      used = elim s.used [
        | inl u ↦ inl (simp (redis.get-set, key_laws) u)
        | inr (v, w, nev, u, t, g) ↦ inr (
          v,
          w,
          nev,
          simp (redis.get-set, key_laws) u,
          simp (redis.ttl-set, key_laws) t,
          won_in-issued n ∙ g,
        )
      ];
    }

    marked-Sound : (n : ℕ) → won_in db ≡ some next → Sound (marked n)
    marked-Sound n g = record {
      known = simp (redis.get-set, key_laws) s.known;
      active = simp (redis.ttl-set, key_laws) s.active;
      lasts = simp (redis.ttl-set, key_laws) s.lasts;
      won = λ w e. (
        (s.won w (sym (won_in-marked n) ∙ e)).0,
        simp (redis.ttl-set, key_laws) (s.won w (sym (won_in-marked n) ∙ e)).1,
      );
      used = inr (
        b'1' ∷ [],
        next,
        (λ nil. cc),
        simp (redis.get-set, key_laws),
        simp (redis.ttl-set, key_laws) (omega arith),
        won_in-marked n ∙ g,
      );
    }

    move_free :
        (n : ℕ)
        → Moved next 3 db (
            step redis
              (rotate_used hash refresh_json code_json session_ttl code_ttl none next h r (suc n))
              db)
    unfolding rank
    move_free n = elim (Option-cases (won_in db)) [
      | inl e ↦ subst (Moved next 3 db) (sym (step_won n e)) (
        claiming n set_winner refl,
        omega arith,
        won-Sound e,
        λ w e'. absurd (clash w (sym e ∙ e')),
      )
      | inr (w, e) ↦
          subst (Moved next 3 db) (sym (step_lost n w e))
            (stay next 3 db _ s (losing n w (s.won w e).0 e refl) (omega arith))
    ]

    graced_lem :
        (otherwise : Rotation) (w : Text)
        → w ≢ []
        → won_in db ≡ some w
        → graced hash refresh_json code_json session_ttl code_ttl (truthy (won_in db)) r otherwise
          ≡ ret (ok w (claims_of r))
    unfolding graced
    graced_lem otherwise w new g = ground (arith, truthy_ne w new)

    move_taken :
        (n : ℕ) (v w : Text)
        → w ≢ []
        → won_in db ≡ some w
        → Moved next 1 db (
            step redis
              (rotate_used hash refresh_json code_json session_ttl code_ttl
                (some v)
                next
                h
                r
                (suc n))
              db)
    unfolding rotate_used step rank
    move_taken n v w new g = stay next 1 db _ s (done w g (graced_lem _ w new g)) (omega arith)

    move_claiming :
        (n : ℕ)
        → won_in db ≡ some next
        → Moved next 2 db (
            step redis
              (claimed hash refresh_json code_json session_ttl code_ttl true next h r (suc n))
              db)
    unfolding claimed issue_token step rank
    move_claiming n g = (
      marking n (won_in-issued n ∙ g) refl,
      omega arith,
      issued-Sound n,
      λ w e. won_in-issued n ∙ e,
    )

    move_marking :
        (n : ℕ)
        → won_in db ≡ some next
        → Moved next 1 db (
            step redis (Prog.set (key_used h) (b'1' ∷ []) (suc n) (ret (ok next (claims_of r)))) db)
    unfolding step rank
    move_marking n g = (
      done next (won_in-marked n ∙ g) refl,
      omega arith,
      marked-Sound n g,
      λ w e. won_in-marked n ∙ e,
    )

    move_losing :
        (n : ℕ) (w : Text)
        → w ≢ []
        → won_in db ≡ some w
        → Moved next 1 db (
            step redis
              (claimed hash refresh_json code_json session_ttl code_ttl false next h r (suc n))
              db)
    unfolding claimed step rank
    move_losing n w new g = stay next 1 db _ s (done w g (graced_lem _ w new g)) (omega arith)

    -- One step, wherever the rotation stands.
    pub step_phase :
        (m : Rotation)
        → (ph : Standing next m (won_in db)) → Moved next (left ph) db (step redis m db)
    unfolding rank step
    step_phase m (start e) = subst (λ x. Moved next 6 db (step redis x db)) (sym e) move_start
    step_phase m (reading e) = subst (λ x. Moved next 5 db (step redis x db)) (sym e) move_reading
    step_phase m (looking n e) =
        subst (λ x. Moved next 4 db (step redis x db)) (sym e) (move_looking n)
    step_phase m (free n e) = subst (λ x. Moved next 3 db (step redis x db)) (sym e) (move_free n)
    step_phase m (taken n v w new g e) =
        subst (λ x. Moved next 1 db (step redis x db)) (sym e) (move_taken n v w new g)
    step_phase m (claiming n g e) =
        subst (λ x. Moved next 2 db (step redis x db)) (sym e) (move_claiming n g)
    step_phase m (marking n g e) =
        subst (λ x. Moved next 1 db (step redis x db)) (sym e) (move_marking n g)
    step_phase m (losing n w new g e) =
        subst (λ x. Moved next 1 db (step redis x db)) (sym e) (move_losing n w new g)
    step_phase m (done w g e) =
        subst (λ x. Moved next 0 db (step redis x db)) (sym e)
          (stay next 0 db _ s (done w g refl) (omega arith))
