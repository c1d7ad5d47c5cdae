-- ===== src/Api/Rules.antt =====
-- block-guard.ts and body-guard.ts.
use opencode_rc.Common.{
  str_eq, Bool, ◌&&◌, List, [], ◌∷◌, none, some, String, if◌then◌else◌, any, filter, Text,
}
use opencode_rc.Regex.{Re, accepts}
use opencode_rc.Json.{Fields, as_object}
use opencode_rc.Api.Paths.{proxy_rest, trim_slashes}
use opencode_rc.Api.Request.{
  Platform, Request, Vars, Guard, Verdict, next, deny, plain, JsonBody, json, not_json, too_large,
  json_body, body_error,
}

pub record BlockedRoute : Type 0 where
  pub method : String
  pub path : Re

pub record BodyRule : Type 0 where
  pub method : String
  pub path : Re
  pub denies : Fields → Bool

-- The path that a write guard matches.
unfoldable pub bare_rest : Request → Text
unfolding proxy_rest trim_slashes
bare_rest req = trim_slashes (proxy_rest req.path req.session_id)

unfoldable pub is_blocked : Request → BlockedRoute → Bool
unfolding bare_rest accepts
is_blocked req r = str_eq r.method req.method && accepts r.path (bare_rest req)

unfoldable pub is_matched : Request → BodyRule → Bool
unfolding bare_rest accepts
is_matched req r = str_eq r.method req.method && accepts r.path (bare_rest req)

-- `blockGuard`
unfoldable pub block_guard : String → List BlockedRoute → Guard
unfolding any is_blocked
block_guard message routes req v =
    if any (is_blocked req) routes then deny (plain 403 message) else next v

-- The matching rules on a body that was read.
unfoldable pub check_rules : String → List BodyRule → JsonBody → Vars → Verdict
unfolding any as_object body_error
check_rules message matched too_large v = deny (body_error too_large)
check_rules message matched not_json v = deny (body_error not_json)
check_rules message matched (json none) v = next v
check_rules message matched (json (some j)) v = elim (as_object j) [
  | none ↦ next v
  | some fs ↦
      if any (λ (r : BodyRule). r.denies fs) matched then deny (plain 403 message) else next v
]

-- `bodyRuleGuard`
unfoldable pub body_rule_guard : Platform → String → List BodyRule → List BlockedRoute → Guard
unfolding any filter is_blocked is_matched json_body check_rules
body_rule_guard p message rules blocked req v =
    if any (is_blocked req) blocked
    then deny (plain 403 message)
    else elim (filter (is_matched req) rules) [
      | [] ↦ next v
      | r ∷ rs ↦ let (body, v') = json_body p req v in check_rules message (r ∷ rs) body v'
    ]
