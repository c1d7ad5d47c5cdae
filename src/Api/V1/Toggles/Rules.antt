-- ===== src/Api/V1/Toggles/Rules.antt =====
-- The body rules and refused routes of upload-guard.ts, shell-guard.ts, config-guard.ts and of the
-- share and mcp guards of feature-guards.ts; the refused paths of download-guard.ts and
-- terminal-guard.ts.
use opencode_rc.Common.{
  Bool, true, false, ◌&&◌, ◌||◌, not, List, [], ◌∷◌, Text, text, text_eq, none, some, lower,
  starts_with, trim,
}
use opencode_rc.Regex.{Re, eps, alt, lit_i}
use opencode_rc.Json.{Json, Fields, get, has, as_object, get_of, some_item, is_text}
use opencode_rc.Api.Paths.{canonical_path, trim_slashes}
use opencode_rc.Api.Rules.{BlockedRoute, BodyRule}
use opencode_rc.Api.Arguments.{may_run_shell, is_file_uri}
use opencode_rc.Api.V1.Toggles.Patterns.{
  blocked, body_rule, config_path, under, prompt_path, command_path, api_prompt_path, project_path,
  has_any, permission_rules,
}

-- `isObject(part.source) && part.source.type === "resource"`
unfoldable pub is_resource : Fields → Bool
unfolding get get_of is_text text_eq text
is_resource part =
    is_text (text_eq (text "resource")) (get_of (text "type") (get (text "source") part))

-- `part.type === name`
unfoldable pub has_type : Text → Fields → Bool
unfolding get is_text text_eq text
has_type name part = is_text (text_eq name) (get (text "type") part)

-- `isUploadPart`
unfoldable pub is_upload_part : Json → Bool
unfolding as_object has_type is_resource is_text is_file_uri get text
is_upload_part part = elim (as_object part) [
  | none ↦ false
  | some fs ↦
      has_type (text "file") fs
      && not (is_resource fs)
      && not (is_text is_file_uri (get (text "url") fs))
]

-- The two places of a prompt's files.
unfoldable pub some_file : (Json → Bool) → Fields → Bool
unfolding some_item get get_of text
some_file p body =
    some_item p (get (text "files") body)
    || some_item p (get_of (text "files") (get (text "prompt") body))

-- `!isObject(file) || !isFileUri(file.uri)`
unfoldable pub is_no_file_uri : Json → Bool
unfolding as_object is_text is_file_uri get text
is_no_file_uri file = elim (as_object file) [
  | none ↦ true
  | some fs ↦ not (is_text is_file_uri (get (text "uri") fs))
]

-- `icon.override` is a data: url.
unfoldable pub has_data_icon : Fields → Bool
unfolding get get_of is_text lower starts_with text
has_data_icon body =
    is_text (λ s. starts_with (lower s) (text "data:"))
      (get_of (text "override") (get (text "icon") body))

-- RULES of upload-guard.ts
unfoldable pub upload_rules : List BodyRule
unfolding prompt_path command_path api_prompt_path project_path some_item is_upload_part some_file
    is_no_file_uri has_data_icon get text
upload_rules =
    body_rule "POST" (alt prompt_path command_path)
      (λ body. some_item is_upload_part (get (text "parts") body))
    ∷ body_rule "POST" api_prompt_path (some_file is_no_file_uri)
    ∷ body_rule "PATCH" project_path has_data_icon
    ∷ []

-- `isDownloadPath`
unfoldable pub is_download_path : Text → Bool
unfolding canonical_path trim_slashes text_eq starts_with text
is_download_path rest = elim (canonical_path rest) [
  | none ↦ true
  | some path ↦
      text_eq (trim_slashes path) (text "/file/content")
      || text_eq (trim_slashes path) (text "/find")
      || starts_with path (text "/api/fs/read/")
]

-- `isTerminalPath`: `/^\/(api\/)?pty(\/|$)/`
unfoldable pub is_terminal_path : Text → Bool
unfolding canonical_path text_eq starts_with text
is_terminal_path rest = elim (canonical_path rest) [
  | none ↦ true
  | some path ↦
      text_eq path (text "/pty")
      || starts_with path (text "/pty/")
      || text_eq path (text "/api/pty")
      || starts_with path (text "/api/pty/")
]

-- `nonBlank`
unfoldable pub non_blank : Text → Bool
unfolding trim text_eq
non_blank s = not (text_eq (trim s) [])

-- RULES of shell-guard.ts
unfoldable pub shell_rules : List BodyRule
unfolding command_path project_path config_path permission_rules lit_i is_text may_run_shell
    non_blank get get_of has_any text
shell_rules =
    body_rule "POST" command_path (λ body. is_text may_run_shell (get (text "arguments") body))
    ∷ body_rule "POST" (lit_i (text "/experimental/worktree") eps)
        (λ body. is_text non_blank (get (text "startCommand") body))
    ∷ body_rule "PATCH" project_path
        (λ body. is_text non_blank (get_of (text "start") (get (text "commands") body)))
    ∷ body_rule "PATCH" config_path (
        has_any (
          text "command"
          ∷ text "mcp"
          ∷ text "shell"
          ∷ text "plugin"
          ∷ text "formatter"
          ∷ text "lsp"
          ∷ []))
    ∷ permission_rules

-- RULES of config-guard.ts
unfoldable pub config_rules : List BodyRule
unfolding project_path under has has_type text
config_rules =
    body_rule "PATCH" project_path (has (text "commands"))
    ∷ body_rule "PUT" (under (text "auth") eps) (has_type (text "wellknown"))
    ∷ []

unfoldable pub share_rules : List BodyRule
unfolding config_path has_any text
share_rules =
    body_rule "PATCH" config_path
      (has_any (text "share" ∷ text "autoshare" ∷ text "enterprise" ∷ []))
    ∷ []

unfoldable pub mcp_path : Re
unfolding lit_i text
mcp_path = lit_i (text "/mcp") eps

-- The routes that the shell, config, share and mcp guards refuse.
unfoldable pub shell_routes : List BlockedRoute
unfolding under lit_i mcp_path text
shell_routes =
    blocked "POST" (under (text "session") (lit_i (text "/shell") eps))
    ∷ blocked "POST" mcp_path
    ∷ []

unfoldable pub config_routes : List BlockedRoute
unfolding config_path mcp_path
config_routes = blocked "PATCH" config_path ∷ blocked "POST" mcp_path ∷ []

unfoldable pub share_routes : List BlockedRoute
unfolding under lit_i text
share_routes = blocked "POST" (under (text "session") (lit_i (text "/share") eps)) ∷ []

unfoldable pub mcp_routes : List BlockedRoute
unfolding under lit_i text
mcp_routes =
    blocked "POST"
      (under (text "mcp") (alt (lit_i (text "/connect") eps) (lit_i (text "/disconnect") eps)))
    ∷ blocked "POST" (
        under (text "mcp") (
          lit_i (text "/auth")
            (alt eps (alt (lit_i (text "/callback") eps) (lit_i (text "/authenticate") eps)))))
    ∷ blocked "DELETE" (under (text "mcp") (lit_i (text "/auth") eps))
    ∷ []
