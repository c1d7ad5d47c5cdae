-- ===== src/Authz/Tests.antt =====
-- Runs of the authorizer on a database in memory.
use opencode_rc.Common.{
  ◌≤◌, ◌⊎◌, true, false, [], ◌∷◌, Text, text, Option, none, some, ◌≡◌, ◌≢◌, refl, arith, length,
}
use opencode_rc.Json.{Json, bool, Fields, end, field}
use opencode_rc.Redis.{run}
use opencode_rc.Redis.Memory.{Memory, memory, empty}
use opencode_rc.Tokens.{AccessClaims}
use opencode_rc.Authz.{
  AuthzOptions, Decision, granted, denied, Response, evict, evict_all, ask, key_gen,
}
use opencode_rc.Authz.Decisions.{
  checked, after, evict_lem, evict_all_lem, check_again, fresh_answer, grant,
}
use opencode_rc.Authz.Admin.{
  AdminReply, no_content, everyone, one_user, administered, is_operator, admin_evict_lem,
}
use opencode_rc.Authz.Watch.{tick, settled, opened, run_once, run as watch_run}

abbrev opts : AuthzOptions
opts = record { webhook_url = b'h' ∷ []; allowed_ttl = 300; denied_ttl = 10 }

abbrev same : Text → Text
same s = s

abbrev yes : AccessClaims → Option Response
yes user = some (record { ok = true; json = some (field (text "allowed") (bool true) end) })

abbrev down : AccessClaims → Option Response
down user = none

abbrev ann : AccessClaims
ann = record { uid = b'a' ∷ []; email = []; name = []; sid = none }

-- The database once the webhook has allowed a user.
abbrev allowed_db : Memory
allowed_db = (checked memory opts same yes ann empty).1

evict_lem_example :
    (checked memory opts same down ann (run memory (evict opts same down ann.uid) allowed_db).1).0
    ≡ some (fresh_answer (ask opts same down ann))
unfolding opencode_rc.Authz.enabled
evict_lem_example = evict_lem memory opts same down ann allowed_db refl

abbrev deleted : Option AdminReply × Memory
deleted =
    administered opts same down memory (text "op") (some (text "Bearer op")) (one_user ann.uid)
      allowed_db

abbrev moved : Option AdminReply × Memory
moved = administered opts same down memory (text "op") (some (text "Bearer op")) everyone allowed_db

admin_evict_lem_example :
    ((is_operator opts same down (text "op") (some (text "Bearer op")) ≡ true)
      × (deleted.0 ≡ some no_content)
      × ((checked memory opts same down ann deleted.1).0
          ≡ some (fresh_answer (ask opts same down ann)))
      × (moved.0 ≡ some no_content)
      × (memory.get key_gen moved.1 ≡ some (memory.next (memory.get key_gen allowed_db))))
    ⊎ ((is_operator opts same down (text "op") (some (text "Bearer op")) ≡ false)
        × (deleted.0 ≢ some no_content)
        × (deleted.1 ≡ allowed_db)
        × (moved.0 ≢ some no_content)
        × (moved.1 ≡ allowed_db))
unfolding opencode_rc.Authz.enabled
admin_evict_lem_example =
    admin_evict_lem opts same down memory (text "op") (some (text "Bearer op")) ann allowed_db refl

evict_all_lem_example :
    (checked memory opts same down ann (run memory (evict_all opts same down) allowed_db).1).0
    ≡ some (fresh_answer (ask opts same down ann))
unfolding opencode_rc.Authz.enabled run opencode_rc.Authz.check opencode_rc.Authz.check_enabled
    opencode_rc.Authz.check_cached opencode_rc.Authz.keep_decision ask
    opencode_rc.Authz.read_response opencode_rc.Json.get text opencode_rc.Redis.Memory.put
    opencode_rc.Authz.key_decision opencode_rc.Authz.gen_of opencode_rc.Redis.Memory.next_number
    opencode_rc.Authz.key_gen
evict_all_lem_example = evict_all_lem memory opts same down ann allowed_db refl refl

check_again_example :
    checked memory opts same down ann (after memory opts same yes 299 ann empty)
    ≡ (some granted, after memory opts same yes 299 ann empty)
unfolding opencode_rc.Authz.enabled ask opencode_rc.Authz.read_response opencode_rc.Json.get text
    opencode_rc.Redis.Memory.age run opencode_rc.Authz.check opencode_rc.Authz.check_enabled
    opencode_rc.Authz.check_cached opencode_rc.Authz.keep_decision opencode_rc.Redis.Memory.put
    opencode_rc.Authz.key_decision opencode_rc.Authz.key_gen opencode_rc.Authz.gen_of
check_again_example =
    check_again memory opts same yes down ann empty granted 299 refl refl refl grant (omega arith)
      refl

run_once_example :
    length (watch_run (tick ∷ settled (denied none) ∷ tick ∷ settled (denied none) ∷ []) opened).1
    ≤ 1
run_once_example =
    run_once (tick ∷ settled (denied none) ∷ tick ∷ settled (denied none) ∷ []) opened
