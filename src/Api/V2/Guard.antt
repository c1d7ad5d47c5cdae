-- ===== src/Api/V2/Guard.antt =====
-- v2-guard.ts: the guard of opencode 2.x sessions.
use mathlib.Core.List.{reverse}
use opencode_rc.Common.{
  Bool, true, false, ◌&&◌, ◌||◌, not, [], ◌∷◌, ◌++◌, Text, text, text_eq, Option, none, some,
  String, str_eq, if◌then◌else◌, ◌==◌, any, find, split, starts_with, includes, length, ltb,
}
use opencode_rc.Regex.{Re, one, seq, star, lit, not_slash, accepts}
use opencode_rc.Json.{Json, Fields, end, get, has, as_object, get_of, is_text}
use opencode_rc.Config.{FeatureNameV2, uploads, downloads, terminal, shell, export, mcp}
use opencode_rc.Api.Paths.{proxy_rest, canonical_path, trim_slashes, template_regex}
use opencode_rc.Api.Request.{
  Platform, Request, Vars, Guard, Verdict, next, deny, feature_disabled, ◌>>=◌, JsonBody, json,
  not_json, too_large, json_body,
}
use opencode_rc.Api.Arguments.{may_run_shell}
use opencode_rc.Api.V1.Routes.{read_method}
use opencode_rc.Api.V1.Toggles.{some_file, is_no_file_uri, has_data_icon}
use opencode_rc.Api.V2.Routes.{V2Route, V2Rule, allow, never, feature, v2_routes}

-- MESSAGES
abbrev pub message : FeatureNameV2 → String
message uploads = "uploads are disabled"
message downloads = "file downloads are disabled"
message terminal = "the terminal is disabled"
message shell = "shell commands are disabled"
message export = "export is disabled"
message mcp = "MCP changes are disabled"

-- MCP_INTEGRATION, which is not anchored at its end
unfoldable pub mcp_integration : Re
unfolding lit not_slash text
mcp_integration =
    lit (text "/api/integration/mcp_")
      (seq (star (one not_slash)) (lit (text "/connect/") (star (one (λ _. true)))))

abbrev pub reject : String → Verdict
reject m = deny (feature_disabled 400 m)

-- A test on the body's fields, which answers with the message of a rejection.
abbrev pub BodyTest : Type 0
BodyTest = Fields → Option String

abbrev pub answer : Vars → Option String → Verdict
answer v none = next v
answer v (some m) = reject m

-- `readJson`, and the test of the fields that it returns
unfoldable pub test_body : BodyTest → JsonBody → Vars → Verdict
unfolding as_object
test_body test too_large v = reject "request body is too large"
test_body test not_json v = reject "request body is not JSON"
test_body test (json none) v = answer v (test end)
test_body test (json (some j)) v = elim (as_object j) [
  | none ↦ reject "request body is not a JSON object"
  | some fs ↦ answer v (test fs)
]

unfoldable pub with_body : Platform → BodyTest → Guard
unfolding json_body test_body
with_body p test req v = let (body, v') = json_body p req v in test_body test body v'

abbrev pub refuse_if : Bool → String → Option String
refuse_if b m = if b then some m else none

-- `path.split("/").includes("..")`, or a backslash or NUL in the path
unfoldable pub is_unsafe_write : Text → Bool
is_unsafe_write path =
    text_eq path [] || any (λ c. c == 92 || c == 0) path || includes (split b'/' path) (text "..")

-- `tmp.replace(/\/$/, "")`
unfoldable pub drop_slash : Text → Text
drop_slash tmp = elim (reverse tmp) [ [] ↦ [] | c ∷ s ↦ if c == b'/' then reverse s else tmp ]

-- `path.length > 1 ? path.replace(/\/+$/, "") : path`
unfoldable pub trim_path : Text → Text
trim_path path = if ltb 1 (length path) then trim_slashes path else path

-- `typeof tmp` is a string, and the path lies in its uploads folder.
unfoldable pub is_in_uploads : Text → Option Json → Bool
is_in_uploads path = is_text (λ tmp.
    not (text_eq (drop_slash tmp) []) && starts_with path (drop_slash tmp ++ text "/uploads/"))

-- `!isObject(f) || typeof f.uri !== "string" || !f.uri.startsWith("data:")`
unfoldable pub is_no_data : Json → Bool
unfolding as_object is_text get starts_with text
is_no_data file = elim (as_object file) [
  | none ↦ true
  | some fs ↦ not (is_text (λ s. starts_with s (text "data:")) (get (text "uri") fs))
]

module _ (p : Platform) (enabled : FeatureNameV2 → Bool)
    (fetch_server_info : Request → Option Json) where
  -- `checkFsWrite`; a server info that could not be fetched is `none`
  unfoldable pub check_fs_write : Guard
  check_fs_write req v = elim req.query_path [
    | none ↦ reject "uploads may only be written to the uploads folder"
    | some path ↦
        if not (is_unsafe_write path)
          && is_in_uploads path
              (get_of (text "tmp") (get_of (text "paths") (fetch_server_info req)))
        then next v
        else reject "uploads may only be written to the uploads folder"
  ]

  unfoldable pub check_worktree : BodyTest
  unfolding has text
  check_worktree body =
      refuse_if (has (text "directory") body)
        "the worktree directory cannot be set through opencode-rc"

  unfoldable pub check_project : BodyTest
  unfolding has has_data_icon text
  check_project body =
      if has (text "commands") body
      then some "project commands cannot be changed through opencode-rc"
      else refuse_if (not (enabled uploads) && has_data_icon body) (message uploads)

  unfoldable pub check_permissions : BodyTest
  unfolding has text
  check_permissions body =
      refuse_if (has (text "permissions") body)
        (if not (enabled downloads) then message downloads else message shell)

  unfoldable pub check_command : BodyTest
  unfolding is_text may_run_shell get text
  check_command body = refuse_if (is_text may_run_shell (get (text "text") body)) (message shell)

  unfoldable pub check_files : BodyTest
  unfolding some_file is_no_file_uri is_no_data
  check_files body =
      if not (enabled uploads) && some_file is_no_file_uri body
      then some (message uploads)
      else refuse_if (not (enabled downloads) && some_file is_no_data body) (message downloads)

  abbrev pub is_at : Text → String → Bool
  is_at template name = text_eq template (text name)

  abbrev pub body_test_if : Bool → BodyTest → Guard
  body_test_if b test req v = if b then with_body p test req v else next v

  -- `checkRequest`
  unfoldable pub check_request : Text → Guard
  check_request template req v =
      if is_at template "/api/experimental/fs/write"
      then check_fs_write req v
      else if is_at template "/api/worktree" && str_eq req.method "POST"
      then with_body p check_worktree req v
      else if is_at template "/api/project/:projectID"
      then with_body p check_project req v
      else (do
        v₁ ←
            body_test_if
              ((not (enabled downloads) || not (enabled shell))
                && (is_at template "/api/session" || is_at template "/api/session/:sessionID")
                && (str_eq req.method "POST" || str_eq req.method "PATCH"))
              check_permissions req v
        v₂ ←
            body_test_if (not (enabled shell) && is_at template "/api/session/:sessionID/command")
              check_command req v₁
        body_test_if
            ((not (enabled uploads) || not (enabled downloads))
              && (is_at template "/api/session/:sessionID/prompt"
                  || is_at template "/api/session/:sessionID/command"))
            check_files req v₂)

  unfoldable pub rule_allows : V2Rule → Bool
  rule_allows allow = true
  rule_allows never = false
  rule_allows (feature f) = enabled f

  abbrev pub refusal : V2Rule → String
  refusal (feature f) = message f
  refusal _ = "this opencode feature is not available through opencode-rc"

  unfoldable pub route_matches : String → Text → V2Route → Bool
  route_matches method path r = str_eq r.method method && accepts (template_regex r.template) path

  -- The guard on a route that was found.
  unfoldable pub check_route : V2Route → Text → Guard
  check_route r path req v =
      if not (rule_allows r.rule)
      then reject (refusal r.rule)
      else if not (enabled mcp) && accepts mcp_integration path
      then reject (message mcp)
      else check_request r.template req v

  -- The guard on a path that could be read, without its trailing slashes.
  unfoldable pub check_path : String → Text → Guard
  check_path method path req v = elim (find (route_matches method path) v2_routes) [
    | none ↦ reject "this opencode feature is not available through opencode-rc"
    | some r ↦ check_route r path req v
  ]

  -- `v2Guard`
  unfoldable pub v2_guard : Guard
  v2_guard req v =
      if str_eq (read_method req.method) "OPTIONS"
      then next v
      else elim (canonical_path (proxy_rest req.path req.session_id)) [
        | none ↦ reject "unsupported characters in path"
        | some path ↦ check_path (read_method req.method) (trim_path path) req v
      ]
