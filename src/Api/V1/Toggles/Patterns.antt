-- ===== src/Api/V1/Toggles/Patterns.antt =====
-- The paths that the 1.x guards match without regard to case, permission-rules.ts and
-- RAW_PART_ROUTES of upload-guard.ts.
use opencode_rc.Common.{Bool, List, [], ◌∷◌, ◌++◌, Text, text, String, any}
use opencode_rc.Regex.{Re, eps, alt, lit_i, plus, not_slash}
use opencode_rc.Json.{Fields, has}
use opencode_rc.Api.Rules.{BlockedRoute, BodyRule}

abbrev pub blocked : String → Re → BlockedRoute
blocked m p = record { method = m; path = p }

abbrev pub body_rule : String → Re → (Fields → Bool) → BodyRule
body_rule m p d = record { method = m; path = p; denies = d }

-- `/^\/(global\/)?config$/i`
unfoldable pub config_path : Re
unfolding lit_i text
config_path = alt (lit_i (text "/config") eps) (lit_i (text "/global/config") eps)

-- `/^\/<a>\/[^/]+<b>$/i`
unfoldable pub under : (a : Text) (b : Re) → Re
unfolding lit_i plus not_slash text
under a b = lit_i (text "/" ++ a ++ text "/") (plus not_slash b)

-- `/^\/session\/[^/]+\/(message|prompt_async)$/i`
unfoldable pub prompt_path : Re
unfolding under lit_i text
prompt_path =
    under (text "session") (alt (lit_i (text "/message") eps) (lit_i (text "/prompt_async") eps))

unfoldable pub command_path : Re
unfolding under lit_i text
command_path = under (text "session") (lit_i (text "/command") eps)

unfoldable pub api_prompt_path : Re
unfolding under lit_i text
api_prompt_path = under (text "api/session") (lit_i (text "/prompt") eps)

unfoldable pub project_path : Re
unfolding under text
project_path = under (text "project") eps

-- Some of the keys is in the body.
unfoldable pub has_any : List Text → Fields → Bool
unfolding any has
has_any keys body = any (λ key. has key body) keys

-- PERMISSION_RULES
unfoldable pub permission_rules : List BodyRule
unfolding config_path under lit_i prompt_path has_any has text
permission_rules =
    body_rule "PATCH" config_path
      (has_any (text "permission" ∷ text "agent" ∷ text "mode" ∷ text "tools" ∷ []))
    ∷ body_rule "POST" (lit_i (text "/session") eps) (has (text "permission"))
    ∷ body_rule "PATCH" (under (text "session") eps) (has (text "permission"))
    ∷ body_rule "POST" prompt_path (has (text "tools"))
    ∷ []

-- RAW_PART_ROUTES
unfoldable pub raw_part_routes : List BlockedRoute
unfolding under lit_i plus not_slash text
raw_part_routes =
    blocked "POST" (lit_i (text "/sync/replay") eps)
    ∷ blocked "PATCH" (
        under (text "session")
          (lit_i (text "/message/") (plus not_slash (lit_i (text "/part/") (plus not_slash eps)))))
    ∷ []
