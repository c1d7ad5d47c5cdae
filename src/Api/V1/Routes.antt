-- ===== src/Api/V1/Routes.antt =====
-- v1-routes.ts: the /api routes that opencode 1.x serves, and the guard of 1.x sessions over them.
use opencode_rc.Common.{
  str_eq, Bool, ◌&&◌, ◌||◌, not, List, [], ◌∷◌, Text, text, text_eq, none, some, String,
  if◌then◌else◌, any, filter, starts_with,
}
use opencode_rc.Regex.{accepts}
use opencode_rc.Api.Paths.{proxy_rest, canonical_path, trim_slashes, template_regex}
use opencode_rc.Api.Request.{Vars, Guard, Verdict, next, deny, plain}
use opencode_rc.Api.V2.Routes.{V2Route, v2_routes}

-- V1_API_ROUTES
unfoldable pub v1_api_routes : List (String × Text)
unfolding text
v1_api_routes =
    ("GET", text "/api/agent")
    ∷ ("GET", text "/api/command")
    ∷ ("DELETE", text "/api/credential/:credentialID")
    ∷ ("PATCH", text "/api/credential/:credentialID")
    ∷ ("GET", text "/api/event")
    ∷ ("GET", text "/api/fs/find")
    ∷ ("GET", text "/api/fs/list")
    ∷ ("GET", text "/api/fs/read/*")
    ∷ ("GET", text "/api/health")
    ∷ ("GET", text "/api/integration")
    ∷ ("GET", text "/api/integration/:integrationID")
    ∷ ("POST", text "/api/integration/:integrationID/connect/key")
    ∷ ("POST", text "/api/integration/:integrationID/connect/oauth")
    ∷ ("DELETE", text "/api/integration/attempt/:attemptID")
    ∷ ("GET", text "/api/integration/attempt/:attemptID")
    ∷ ("POST", text "/api/integration/attempt/:attemptID/complete")
    ∷ ("GET", text "/api/location")
    ∷ ("GET", text "/api/model")
    ∷ ("GET", text "/api/permission/request")
    ∷ ("GET", text "/api/permission/saved")
    ∷ ("DELETE", text "/api/permission/saved/:id")
    ∷ ("GET", text "/api/provider")
    ∷ ("GET", text "/api/provider/:providerID")
    ∷ ("GET", text "/api/pty")
    ∷ ("POST", text "/api/pty")
    ∷ ("DELETE", text "/api/pty/:ptyID")
    ∷ ("GET", text "/api/pty/:ptyID")
    ∷ ("PUT", text "/api/pty/:ptyID")
    ∷ ("GET", text "/api/pty/:ptyID/connect")
    ∷ ("POST", text "/api/pty/:ptyID/connect-token")
    ∷ ("GET", text "/api/question/request")
    ∷ ("GET", text "/api/reference")
    ∷ ("GET", text "/api/session")
    ∷ ("POST", text "/api/session")
    ∷ ("GET", text "/api/session/:sessionID")
    ∷ ("POST", text "/api/session/:sessionID/agent")
    ∷ ("POST", text "/api/session/:sessionID/compact")
    ∷ ("GET", text "/api/session/:sessionID/context")
    ∷ ("GET", text "/api/session/:sessionID/event")
    ∷ ("GET", text "/api/session/:sessionID/history")
    ∷ ("POST", text "/api/session/:sessionID/interrupt")
    ∷ ("GET", text "/api/session/:sessionID/message")
    ∷ ("GET", text "/api/session/:sessionID/message/:messageID")
    ∷ ("POST", text "/api/session/:sessionID/model")
    ∷ ("GET", text "/api/session/:sessionID/permission")
    ∷ ("POST", text "/api/session/:sessionID/permission")
    ∷ ("GET", text "/api/session/:sessionID/permission/:requestID")
    ∷ ("POST", text "/api/session/:sessionID/permission/:requestID/reply")
    ∷ ("POST", text "/api/session/:sessionID/prompt")
    ∷ ("GET", text "/api/session/:sessionID/question")
    ∷ ("POST", text "/api/session/:sessionID/question/:requestID/reject")
    ∷ ("POST", text "/api/session/:sessionID/question/:requestID/reply")
    ∷ ("POST", text "/api/session/:sessionID/revert/clear")
    ∷ ("POST", text "/api/session/:sessionID/revert/commit")
    ∷ ("POST", text "/api/session/:sessionID/revert/stage")
    ∷ ("POST", text "/api/session/:sessionID/wait")
    ∷ ("GET", text "/api/session/active")
    ∷ ("GET", text "/api/skill")
    ∷ []

-- V2_ONLY_NON_API
unfoldable pub v2_only_non_api : List V2Route
unfolding v2_routes filter starts_with text
v2_only_non_api = filter (λ (r : V2Route). not (starts_with r.template (text "/api/"))) v2_routes

-- HEAD requests are matched as GET.
unfoldable pub read_method : String → String
read_method m = if str_eq m "HEAD" then "GET" else m

abbrev pub unavailable : Verdict
unavailable = deny (plain 403 "this opencode route is not available through opencode-rc")

unfoldable pub is_v1_api : String → Text → Bool
unfolding any v1_api_routes accepts template_regex
is_v1_api method bare =
    any (λ (r : String × Text). str_eq r.0 method && accepts (template_regex r.1) bare)
      v1_api_routes

unfoldable pub is_v2_only : String → Text → Bool
unfolding any v2_only_non_api accepts template_regex
is_v2_only method bare =
    any (λ (r : V2Route). str_eq r.method method && accepts (template_regex r.template) bare)
      v2_only_non_api

-- The guard on a path that could be read.
unfoldable pub check_v1_api : String → Text → Vars → Verdict
check_v1_api method path v =
    if not (text_eq path (text "/api")) && not (starts_with path (text "/api/"))
    then (if is_v2_only method (trim_slashes path) then unavailable else next v)
    else if str_eq method "OPTIONS" || is_v1_api method (trim_slashes path)
    then next v
    else unavailable

-- `v1ApiGuard`
unfoldable pub v1_api_guard : Guard
unfolding proxy_rest canonical_path check_v1_api read_method
v1_api_guard req v = elim (canonical_path (proxy_rest req.path req.session_id)) [
  | none ↦ deny (plain 400 "unsupported characters in path")
  | some path ↦ check_v1_api (read_method req.method) path v
]
