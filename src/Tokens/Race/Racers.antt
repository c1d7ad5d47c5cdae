-- ===== src/Tokens/Race/Racers.antt =====
-- Several rotations of one token on their way, and what a turn and a wait leave of them.
use opencode_rc.Common.{
  ℕ, zero, suc, ◌-◌, ◌<◌, ◌≤◌, leb, Bool-cases, Text, [], ◌∷◌, List, Option, some, ◌≡◌, ◌≢◌, ◌⊎◌,
  inl, inr, refl, sym, ◌∙◌, arith, Option-cases,
}
use opencode_rc.Redis.{Redis, Prog}
use opencode_rc.Tokens.{
  RotateResult, RefreshRecord, LoginCodeRecord, Codec, key_rt, key_chain, key_used, key_grace,
}
use opencode_rc.Tokens.Race.{
  Thread, Event, turn, wait, took, turns_of, State, take_turn, perform, perform_all, InTime,
}
use opencode_rc.Tokens.Race.Phases.{Phase, IsSound, rank, Phase-Stays}
use opencode_rc.Tokens.Race.Steps.{step_phase}

by_index : (P : ℕ → Type 0) → P 0 → ((i : ℕ) → P (suc i)) → (j : ℕ) → P j
by_index P z s zero = z
by_index P z s (suc i) = s i

le-or-lt : (a b : ℕ) → (a ≤ b) ⊎ (b < a)
le-or-lt a b = elim (Bool-cases (leb a b)) [
  | inl h ↦ inl (ground arith)
  | inr h ↦ inr (ground arith)
]

module _ (redis : Redis) (hash : Text → Text) (refresh_json : Codec RefreshRecord)
    (code_json : Codec LoginCodeRecord) (session_ttl code_ttl : ℕ) (token : Text)
    (r : RefreshRecord) where
  open redis use {Db, get, ttl, later}

  abbrev pub Standing : Text → Prog RotateResult → Option Text → Type 0
  Standing = Phase redis hash refresh_json code_json session_ttl code_ttl token r

  abbrev pub Sound : Db → Type 0
  Sound = IsSound redis hash refresh_json code_json session_ttl code_ttl token r

  abbrev pub left :
      {next : Text} {m : Prog RotateResult} {won : Option Text} → Standing next m won → ℕ
  left ph = rank redis hash refresh_json code_json session_ttl code_ttl token r ph

  abbrev pub won_in : Db → Option Text
  won_in db = get (key_grace (hash token)) db

  abbrev pub Keeps : Option Text → Option Text → Type 0
  Keeps a b = (w : Text) → a ≡ some w → b ≡ some w

  -- Rotations of the token to other tokens, each somewhere on its way.
  unfoldable pub Racers : List Thread → Option Text → Type 0
  Racers [] won = Unit
  Racers (t ∷ threads) won =
      (hash token ≢ hash t.next)
      × (t.next ≢ [])
      × Standing t.next t.program won
      × Racers threads won

  unfoldable pub left_at :
      ℕ → (threads : List Thread) → (won : Option Text) → Racers threads won → ℕ
  unfolding Racers
  left_at i [] won rs = 0
  left_at zero (t ∷ threads) won (apart, ne, ph, rs) = left ph
  left_at (suc i) (t ∷ threads) won (apart, ne, ph, rs) = left_at i threads won rs

  Racers-Keeps :
      (threads : List Thread) (a b : Option Text)
      → Keeps a b
      → (rs : Racers threads a)
      → (rs' : Racers threads b) × ((j : ℕ) → left_at j threads b rs' ≡ left_at j threads a rs)
  unfolding Racers left_at
  Racers-Keeps [] a b k rs = (tt, λ j. refl)
  Racers-Keeps (t ∷ threads) a b k (apart, ne, ph, rs) =
      let (ph', e) =
        Phase-Stays redis hash refresh_json code_json session_ttl code_ttl token r t.next t.program
          a b k ph in
      let (rs', es) = Racers-Keeps threads a b k rs in ((apart, ne, ph', rs'), by_index _ e es)

  abbrev pub Went : (ℕ → ℕ) → (ℕ → ℕ) → Option Text → State redis → Type 0
  Went before cost won (threads, db) =
      (rs : Racers threads (won_in db)) × ((j : ℕ)
        → left_at j threads (won_in db) rs ≤ before j - cost j)
      × Sound db
      × Keeps won (won_in db)

  turn_lem :
      (i : ℕ) (threads : List Thread) (db : Db)
      → Sound db
      → (rs : Racers threads (won_in db))
      → Went
          (λ j. left_at j threads (won_in db) rs)
          (λ j. took j i)
          (won_in db)
          (take_turn redis i threads db)
  unfolding take_turn Racers left_at
  turn_lem i [] db s rs = (tt, (λ j. omega arith), s, λ w e. e)
  turn_lem zero (t ∷ threads) db s (apart, ne, ph, rs) =
      let (ph', lt, s', k) =
        step_phase redis hash refresh_json code_json session_ttl code_ttl token r t.next db s apart
          ne t.program ph in
      let (rs', es) = Racers-Keeps threads _ _ k rs in
      ((apart, ne, ph', rs'), by_index _ lt (λ i. rw (es i) (omega arith)), s', k)
  turn_lem (suc i) (t ∷ threads) db s (apart, ne, ph, rs) =
      let (rs', lt, s', k) = turn_lem i threads db s rs in
      let (ph', e) =
        Phase-Stays redis hash refresh_json code_json session_ttl code_ttl token r t.next t.program
          _ _ k ph in
      ((apart, ne, ph', rs'), by_index _ (rw e (omega arith)) lt, s', k)

  module _ (n : ℕ) (db : Db) (s : Sound db) (chain_lasts : n < ttl (key_chain r.chain) db)
      (grace_lasts : (w : Text) → won_in db ≡ some w → n < ttl (key_grace (hash token)) db) where
    later_won : won_in (later n db) ≡ won_in db
    later_won = elim (Option-cases (won_in db)) [
      | inl e ↦ redis.get-absent (key_grace (hash token)) n db e ∙ sym e
      | inr (w, e) ↦ redis.get-later (key_grace (hash token)) n db (grace_lasts w e)
    ]

    later-IsSound : Sound (later n db)
    later-IsSound = record {
      known = redis.get-later (key_rt (hash token)) n db (let l = s.lasts in omega arith) ∙ s.known;
      active = rw (redis.ttl-later (key_chain r.chain) n db) (omega arith);
      lasts =
          rw (redis.ttl-later (key_chain r.chain) n db, redis.ttl-later (key_rt (hash token)) n db)
            (let l = s.lasts in omega arith);
      won = λ w e. (
        (s.won w (sym later_won ∙ e)).0,
        rw (redis.ttl-later (key_grace (hash token)) n db)
            (let l = grace_lasts w (sym later_won ∙ e) in omega arith),
      );
      used = elim s.used [
        | inl u ↦ inl (redis.get-absent (key_used (hash token)) n db u)
        | inr (v, w, ne, u, t, g) ↦ elim (le-or-lt (ttl (key_used (hash token)) db) n) [
          | inl le ↦ inl (redis.get-expired (key_used (hash token)) n db t le)
          | inr lt ↦ inr (
            v,
            w,
            ne,
            redis.get-later (key_used (hash token)) n db lt ∙ u,
            rw (redis.ttl-later (key_used (hash token)) n db) (omega arith),
            later_won ∙ g,
          )
        ]
      ];
    }

  pub Went-after :
      (events : List Event) (threads : List Thread) (db : Db)
      → Sound db
      → (rs : Racers threads (won_in db)) → InTime redis hash token r events (threads, db)
      → Went
          (λ j. left_at j threads (won_in db) rs)
          (λ j. turns_of j events)
          (won_in db)
          (perform_all redis events (threads, db))
  unfolding perform perform_all
  Went-after [] threads db s rs it = (rs, (λ j. omega arith), s, λ w e. e)
  Went-after (wait n ∷ events) threads db s rs (c, g, it) =
      let k = later_won n db s c g in
      let (rs', es) = Racers-Keeps threads (won_in db) (won_in (later n db)) (λ w e. k ∙ e) rs in
      let (rs'', lt, s'', k'') =
        Went-after events threads (later n db) (later-IsSound n db s c g) rs' it in
      (rs'', (λ j. let a = lt j in let b = es j in omega arith), s'', λ w e. k'' w (k ∙ e))
  Went-after (turn i ∷ events) threads db s rs it =
      let (rs', lt', s', k') = turn_lem i threads db s rs in
      let st = take_turn redis i threads db in
      let (rs'', lt, s'', k'') = Went-after events st.0 st.1 s' rs' it in
      (rs'', (λ j. let a = lt j in let b = lt' j in omega arith), s'', λ w e. k'' w (k' w e))
