-- ===== src/Authz.antt =====
-- authz.ts: who may use remote sessions. The webhook's answer, read from its HTTP response, is a
-- parameter; `JSON.parse` and the cut of a long reason are as well.
pub mod Decisions
pub mod Watch
pub mod Admin
mod Tests
use opencode_rc.Common.{
  ℕ, Bool, true, false, ◌&&◌, not, [], ◌∷◌, ◌++◌, Text, text, text_eq, Option, none, some,
  starts_with, drop, trim, String, if◌then◌else◌,
}
use opencode_rc.Json.{Json, bool, str, Fields, get}
use opencode_rc.Redis.{Prog, ret, throw, ◌>>=◌, ◌>>◌, redis_get, redis_set, redis_del, redis_incr}
use opencode_rc.Tokens.{AccessClaims, truthy}

pub record AuthzOptions : Type 0 where
  pub webhook_url : Text
  pub allowed_ttl : ℕ
  pub denied_ttl : ℕ

pub record Decision : Type 0 where
  pub allowed : Bool
  pub reason : Option Text

abbrev pub granted : Decision
granted = record { allowed = true; reason = none }

abbrev pub denied : Option Text → Decision
denied reason = record { allowed = false; reason = reason }

-- The keys.
unfoldable pub key_gen : Text
unfolding text
key_gen = text "orc:v2:authz:gen"

unfoldable pub key_decision : (gen uid : Text) → Text
unfolding text
key_decision gen uid = text "orc:v2:authz:" ++ gen ++ text ":" ++ uid

-- The current generation, `?? "0"`.
unfoldable pub gen_of : Option Text → Text
gen_of none = b'0' ∷ []
gen_of (some gen) = gen

-- A decision as the cache holds it: "1", "0" or "0:<reason>".
unfoldable pub cache_value : Decision → Text
cache_value d = if d.allowed then b'1' ∷ [] else elim d.reason [
  | none ↦ b'0' ∷ []
  | some reason ↦ if text_eq reason [] then b'0' ∷ [] else b'0' ∷ b':' ∷ reason
]

unfoldable pub cached_decision : Text → Decision
cached_decision v =
    if text_eq v (b'1' ∷ [])
    then granted
    else if starts_with v (b'0' ∷ b':' ∷ [])
    then denied (some (drop 2 v))
    else denied none

-- The webhook's response: whether its status is in the 200s, and its body when it is JSON.
pub record Response : Type 0 where
  pub ok : Bool
  pub json : Option Fields

module _ (opts : AuthzOptions) (cut : Text → Text) (fetch : AccessClaims → Option Response) where
  -- `typeof body.reason === "string" && body.reason ? body.reason.slice(0, MAX_REASON) : undefined`
  unfoldable pub reason_of : Option Json → Option Text
  reason_of (some (str (c ∷ s))) = some (cut (c ∷ s))
  reason_of _ = none

  unfoldable pub answered : Option Json → Option Json → Option Decision
  unfolding reason_of
  answered (some (bool true)) reason = some granted
  answered (some (bool false)) reason = some (denied (reason_of reason))
  answered _ reason = none

  -- `ask` on what `fetch` returned, `none` where it threw
  unfoldable pub read_response : Option Response → Option Decision
  unfolding answered
  read_response none = none
  read_response (some r) =
      if r.ok
      then elim r.json [
        | none ↦ none
        | some body ↦ answered (get (text "allowed") body) (get (text "reason") body)
      ]
      else none

  -- `ask`
  unfoldable pub ask : AccessClaims → Option Decision
  ask user = read_response (fetch user)

  -- `check` behind the webhook's answer
  unfoldable pub keep_decision : (gen : Text) → AccessClaims → Option Decision → Prog Decision
  keep_decision gen user none = ret (denied none)
  keep_decision gen user (some d) = do
    redis_set (key_decision gen user.uid) (cache_value d)
        (if d.allowed then opts.allowed_ttl else opts.denied_ttl)
    ret d

  unfoldable pub check_cached : Option Text → (gen : Text) → AccessClaims → Prog Decision
  check_cached (some v) gen user = ret (cached_decision v)
  check_cached none gen user = keep_decision gen user (ask user)

  unfoldable pub check_enabled : AccessClaims → Prog Decision
  check_enabled user = do
    gen ← redis_get key_gen
    cached ← redis_get (key_decision (gen_of gen) user.uid)
    check_cached cached (gen_of gen) user

  unfoldable pub enabled : Bool
  unfolding text_eq
  enabled = not (text_eq opts.webhook_url [])

  -- `check`
  unfoldable pub check : AccessClaims → Prog Decision
  unfolding enabled
  check user = if enabled then check_enabled user else ret granted

  -- `evict`
  unfoldable pub evict : (uid : Text) → Prog (Unit {0})
  evict uid = do gen ← redis_get key_gen; redis_del (key_decision (gen_of gen) uid)

  -- `evictAll`
  unfoldable pub evict_all : Prog (Unit {0})
  evict_all = redis_incr key_gen

-- What `requireAccess` answers, on a check that may have thrown.
pub data Access : Type 0 where
  admitted : Access
  unavailable : Access
  forbidden : (reason : Option Text) → Access

unfoldable pub require_access : Option Decision → Access
require_access none = unavailable
require_access (some d) = if d.allowed then admitted else forbidden (truthy d.reason)

-- `tokenMatches`
unfoldable pub token_matches : (header : Option Text) → (token : Text) → Bool
unfolding starts_with trim text_eq text
token_matches none token = false
token_matches (some header) token =
    starts_with header (text "Bearer ") && text_eq (trim (drop 7 header)) token
