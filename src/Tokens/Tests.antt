-- ===== src/Tokens/Tests.antt =====
-- Runs of the token store on a database in memory, with codecs that join the fields of a record.
use opencode_rc.Common.{
  ℕ, zero, suc, ◌<◌, ◌≤◌, Text, List, text, [], ◌∷◌, ◌++◌, map, Option, none, some, ◌≡◌, ◌≢◌, refl,
  ap, arith,
}
use opencode_rc.Redis.{run, step, ret}
use opencode_rc.Redis.Memory.{Memory, memory, empty, put}
use opencode_rc.Tokens.{
  AccessClaims, RotateResult, ok, refused, RefreshRecord, LoginCodeRecord, NewSession, Codec,
  rotate, rotate_stored, rotate_active, rotate_used, claimed, graced, and_then, claims_of,
  create_chain, key_rt, key_chain, key_used, key_grace, key_code,
}
use opencode_rc.Tokens.Examples.{refresh_json, code_json, hash, ann}
use opencode_rc.Tokens.Sessions.{
  IsFresh, IsEnded, rot, after, rotate-IsFresh, rotate_again, rotate_reuse,
}
use opencode_rc.Tokens.SignIn.{
  code_expires, create_chain-IsFresh, signed_out, consumed, later_coded,
}
use opencode_rc.Tokens.Race.{Thread, Event, turn, wait, InTime, perform, perform_all, take_turn}
use opencode_rc.Tokens.Race.Schedules.{race_agree, race_ends, raced, started, Apart}
use opencode_rc.Tokens.Crash.{rotate_stopped, stopped}

abbrev ann_claims : AccessClaims
ann_claims = record { uid = b'a' ∷ []; email = b'e' ∷ []; name = b'n' ∷ []; sid = none }

abbrev first : Text
first = b'1' ∷ []

abbrev second : Text
second = b'1' ∷ b'1' ∷ []

abbrev third : Text
third = b'3' ∷ []

-- The database behind a sign-in.
abbrev signed_in : Memory
signed_in =
    (run memory (create_chain hash refresh_json code_json 3600 60 ann.chain first ann_claims)
      empty).1

create_chain-IsFresh_example :
    let (session, db) =
      run memory
        (create_chain hash refresh_json code_json 3600 60 ann.chain first ann_claims)
        empty in
    (session
      ≡ some
          (record { refresh_token = first; claims = record ann_claims { sid = some ann.chain } }))
    × IsFresh memory hash refresh_json code_json 3600 60 first ann db
create_chain-IsFresh_example =
    create_chain-IsFresh memory hash refresh_json code_json 3600 60 ann.chain first ann_claims empty
      (omega arith) refl refl

abbrev rotate_at_first : Text → Memory → Option RotateResult × Memory
rotate_at_first next db = rot memory hash refresh_json code_json 3600 60 next first db

signed_in-IsFresh : IsFresh memory hash refresh_json code_json 3600 60 first ann signed_in
signed_in-IsFresh = create_chain-IsFresh_example.1

tokens_differ : hash first ≢ hash second
tokens_differ h = cc

rotate-IsFresh_example :
    ((rotate_at_first second signed_in).0 ≡ some (ok second (claims_of ann)))
    × IsFresh memory hash refresh_json code_json 3600 60 second ann
        (rotate_at_first second signed_in).1
unfolding run create_chain opencode_rc.Tokens.issue_token put opencode_rc.Common.text_eq key_rt
    key_used key_chain key_grace
rotate-IsFresh_example =
    rotate-IsFresh memory hash refresh_json code_json 3600 60 second first ann signed_in
      signed_in-IsFresh tokens_differ refl refl

abbrev ten_later : Memory
ten_later = after memory hash refresh_json code_json 3600 60 10 second first signed_in

rotate_again_example :
    rotate_at_first third ten_later ≡ (some (ok second (claims_of ann)), ten_later)
unfolding run create_chain opencode_rc.Tokens.issue_token put opencode_rc.Common.text_eq key_rt
    key_chain
rotate_again_example =
    rotate_again memory hash refresh_json code_json 3600 60 second third first ann signed_in
      signed_in-IsFresh tokens_differ (λ h. cc) 10 (omega arith) (omega arith)

abbrev minute_later : Memory
minute_later = after memory hash refresh_json code_json 3600 60 60 second first signed_in

rotate_reuse_example :
    ((rotate_at_first third minute_later).0 ≡ some refused)
    × IsEnded memory hash refresh_json code_json 3600 60 ann.chain
        (rotate_at_first third minute_later).1
unfolding run create_chain opencode_rc.Tokens.issue_token put opencode_rc.Common.text_eq key_rt
    key_chain
rotate_reuse_example =
    rotate_reuse memory hash refresh_json code_json 3600 60 second third first ann signed_in
      signed_in-IsFresh tokens_differ (λ h. cc) 60 (omega arith) (omega arith)

abbrev signed_out_db : Memory
signed_out_db = (signed_out memory hash refresh_json code_json 3600 60 first signed_in).1

abbrev code : Text
code = b'x' ∷ []

abbrev coded_at : ℕ → Memory
coded_at n =
    later_coded memory hash refresh_json code_json 3600 60 code ann_claims (b'y' ∷ []) empty n

abbrev consume : Memory → Option (Option LoginCodeRecord) × Memory
consume db = consumed memory hash refresh_json code_json 3600 60 code db

code_expires_example : (consume (coded_at 60)).0 ≡ some none
code_expires_example =
    code_expires memory hash refresh_json code_json 3600 60 code ann_claims (b'y' ∷ []) empty 60
      (omega arith) (omega arith)

abbrev stopped_db : Memory
stopped_db = stopped memory hash refresh_json code_json 3600 60 4 second first signed_in

rotate_stopped_example :
    (rotate_at_first third stopped_db ≡ (some (ok second (claims_of ann)), stopped_db))
    × (rot memory hash refresh_json code_json 3600 60 third second stopped_db
        ≡ (some refused, stopped_db))
unfolding run create_chain opencode_rc.Tokens.issue_token put opencode_rc.Common.text_eq key_rt
    key_chain
rotate_stopped_example =
    rotate_stopped memory hash refresh_json code_json 3600 60 second third third first ann signed_in
      signed_in-IsFresh (λ h. cc) refl

abbrev fourth : Text
fourth = b'4' ∷ b'4' ∷ b'4' ∷ []

-- Two rotations of the first token: the second one takes the grace key while the first one is about
-- to, and both go on.
abbrev two_turns : List Event
two_turns =
    turn 0
    ∷ turn 1
    ∷ turn 0
    ∷ turn 0
    ∷ turn 1
    ∷ turn 1
    ∷ turn 1
    ∷ turn 0
    ∷ wait 5
    ∷ turn 0
    ∷ turn 1
    ∷ turn 1
    ∷ turn 0
    ∷ []

abbrev two_raced : List Thread × Memory
two_raced =
    raced memory hash refresh_json code_json 3600 60 first ann (second ∷ fourth ∷ []) two_turns
      signed_in

two-Apart : Apart memory hash refresh_json code_json 3600 60 first ann (second ∷ fourth ∷ [])
two-Apart = (tokens_differ, (λ h. cc), ((λ h. cc), (λ h. cc), tt))

two-InTime :
    InTime memory hash first ann two_turns (
      started memory hash refresh_json code_json 3600 60 first ann (second ∷ fourth ∷ []),
      signed_in,
    )
unfolding perform take_turn step run create_chain opencode_rc.Tokens.issue_token put
    opencode_rc.Common.text_eq key_rt key_used key_chain key_grace rotate rotate_stored
    rotate_active rotate_used claimed graced and_then
two-InTime = (omega arith, (λ w e. omega arith), tt)

race_agree_example :
    (w : Text) × (ok fourth (claims_of ann) ≡ ok w (claims_of ann))
    × (memory.get (key_grace (hash first)) two_raced.1 ≡ some w)
    × (0 < memory.ttl (key_chain ann.chain) two_raced.1)
unfolding perform perform_all take_turn step run create_chain opencode_rc.Tokens.issue_token put
    opencode_rc.Common.text_eq key_rt key_used key_chain key_grace rotate rotate_stored
    rotate_active rotate_used claimed graced and_then opencode_rc.Redis.Memory.age
race_agree_example =
    race_agree memory hash refresh_json code_json 3600 60 first ann (second ∷ fourth ∷ []) two_turns
      signed_in signed_in-IsFresh two-Apart two-InTime 0 (ok fourth (claims_of ann)) refl

race_ends_example :
    (w : Text) × (ret (ok fourth (claims_of ann)) ≡ ret (ok w (claims_of ann)))
    × (memory.get (key_grace (hash first)) two_raced.1 ≡ some w)
unfolding perform perform_all take_turn step run create_chain opencode_rc.Tokens.issue_token put
    opencode_rc.Common.text_eq key_rt key_used key_chain key_grace rotate rotate_stored
    rotate_active rotate_used claimed graced and_then
race_ends_example =
    race_ends memory hash refresh_json code_json 3600 60 first ann (second ∷ fourth ∷ []) two_turns
      signed_in signed_in-IsFresh two-Apart two-InTime 1 (ret (ok fourth (claims_of ann))) refl
      (omega arith)
