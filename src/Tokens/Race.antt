-- ===== src/Tokens/Race.antt =====
-- Several rotations of one refresh token at the same time (`rotate` of token-store.ts): their
-- commands interleave, and time may pass between them.
mod Phases
mod Steps
mod Racers
pub mod Schedules
use opencode_rc.Common.{
  ℕ, zero, suc, ◌+◌, ◌-◌, ◌<◌, ◌≤◌, ◌==◌, Text, [], ◌∷◌, List, map, Option, none, some, ◌≡◌, ◌≢◌,
  ◌⊎◌, inl, inr, refl, sym, ap, ◌∙◌, subst, arith, if◌then◌else◌, Option-cases,
}
use opencode_rc.Redis.{Redis, Prog, ret, step}
use opencode_rc.Tokens.{
  RotateResult, ok, RefreshRecord, LoginCodeRecord, Codec, claims_of, key_rt, key_chain, key_used,
  key_grace, rotate,
}

-- A rotation under way: the next token that its caller drew, and what is left of it.
pub record Thread : Type 0 where
  pub next : Text
  pub program : Prog RotateResult

-- What happens next: the first command that is left of a rotation, or some seconds without one.
pub data Event : Type 0 where
  turn : (thread : ℕ) → Event
  wait : (seconds : ℕ) → Event

-- One if the turn is the thread's.
abbrev pub took : (thread turned : ℕ) → ℕ
took zero zero = 1
took zero (suc j) = 0
took (suc i) zero = 0
took (suc i) (suc j) = took i j

-- How many commands of a rotation run.
abbrev pub turns_of : ℕ → List Event → ℕ
turns_of i [] = 0
turns_of i (wait n ∷ events) = turns_of i events
turns_of i (turn j ∷ events) = took i j + turns_of i events

abbrev pub program_at : ℕ → List Thread → Option (Prog RotateResult)
program_at i [] = none
program_at zero (t ∷ threads) = some t.program
program_at (suc i) (t ∷ threads) = program_at i threads

module _ (redis : Redis) where
  open redis use {Db, get, ttl, later}

  abbrev pub State : Type 0
  State = List Thread × Db

  unfoldable pub take_turn : ℕ → List Thread → Db → State
  take_turn i [] db = ([], db)
  take_turn zero (t ∷ threads) db =
      let (m, db') = step redis t.program db in
      (record { next = t.next; program = m } ∷ threads, db')
  take_turn (suc i) (t ∷ threads) db =
      let (threads', db') = take_turn i threads db in (t ∷ threads', db')

  unfoldable pub perform : Event → State → State
  perform (turn i) (threads, db) = take_turn i threads db
  perform (wait n) (threads, db) = (threads, later n db)

  unfoldable pub perform_all : List Event → State → State
  perform_all [] s = s
  perform_all (e ∷ events) s = perform_all events (perform e s)

  module _ (hash : Text → Text) (token : Text) (r : RefreshRecord) where
    -- No wait is as long as the session, nor as the grace time once a rotation has won.
    abbrev pub InTime : List Event → State → Type 0
    InTime [] s = Unit
    InTime (turn i ∷ events) s = InTime events (perform (turn i) s)
    InTime (wait n ∷ events) s =
        (n < ttl (key_chain r.chain) s.1)
        × ((w : Text)
            → get (key_grace (hash token)) s.1 ≡ some w
            → n < ttl (key_grace (hash token)) s.1)
        × InTime events (perform (wait n) s)
