-- ===== src/Api/V1/Toggles.antt =====
-- The guards of disabled 1.x features: upload-guard.ts, download-guard.ts, terminal-guard.ts,
-- shell-guard.ts, config-guard.ts, and FEATURE_GUARDS of feature-guards.ts.
pub mod Patterns
pub mod Rules
use opencode_rc.Common.{
  str_eq, Bool, true, false, ◌&&◌, ◌||◌, not, List, [], ◌∷◌, ◌++◌, Text, text, text_eq, Option,
  none, some, String, if◌then◌else◌, any, lower, starts_with, trim, map,
}
use opencode_rc.Regex.{Re, eps, alt, lit, lit_i, plus, not_slash, accepts, regex}
use opencode_rc.Json.{
  Json, Fields, null, bool, num, str, arr, obj, get, has, as_object, get_of, some_item, is_text,
}
use opencode_rc.Config.{FeatureName}
use opencode_rc.Api.Paths.{proxy_rest, canonical_path, trim_slashes}
use opencode_rc.Api.Request.{Platform, Request, Vars, Guard, Verdict, next, deny, plain}
use opencode_rc.Api.Rules.{BlockedRoute, BodyRule, block_guard, body_rule_guard}
use opencode_rc.Api.Arguments.{
  may_run_shell, may_reference_file, has_file_reference, is_file_uri, has_file_token,
  field_has_file_token,
}
unfoldable pub use Patterns.*
unfoldable pub use Rules.*

module _ (p : Platform) where
  -- `isFileUrl`
  unfoldable pub is_file_url : Option Json → Bool
  unfolding is_text text_eq text
  is_file_url =
      is_text (λ s. elim (p.url_protocol s) [ none ↦ false | some q ↦ text_eq q (text "file:") ])

  -- `isFileReadPart`
  unfoldable pub is_file_read_part : Json → Bool
  unfolding as_object has_type is_text has_file_reference is_resource is_file_url get text
  is_file_read_part part = elim (as_object part) [
    | none ↦ false
    | some fs ↦
        if has_type (text "subtask") fs
        then is_text has_file_reference (get (text "prompt") fs)
        else has_type (text "file") fs && not (is_resource fs) && is_file_url (get (text "url") fs)
  ]

  unfoldable pub has_file_read_part : Fields → Bool
  unfolding some_item is_file_read_part get text
  has_file_read_part body = some_item is_file_read_part (get (text "parts") body)

  -- `isObject(file) && isFileUrl(file.uri)`
  unfoldable pub has_file_url : Json → Bool
  unfolding as_object is_file_url get text
  has_file_url file = elim (as_object file) [
    | none ↦ false
    | some fs ↦ is_file_url (get (text "uri") fs)
  ]

  -- RULES of download-guard.ts
  unfoldable pub download_rules : List BodyRule
  unfolding prompt_path command_path api_prompt_path config_path has_file_read_part is_text
      may_reference_file some_file has_file_url has field_has_file_token permission_rules get text
  download_rules =
      body_rule "POST" prompt_path has_file_read_part
      ∷ body_rule "POST" command_path (λ body.
        has_file_read_part body || is_text may_reference_file (get (text "arguments") body))
      ∷ body_rule "POST" api_prompt_path (some_file has_file_url)
      ∷ body_rule "PATCH" config_path
          (λ body. has (text "instructions") body || field_has_file_token body)
      ∷ permission_rules

  -- `uploadGuard`
  unfoldable pub upload_guard : Guard
  upload_guard = body_rule_guard p "uploads are disabled" upload_rules raw_part_routes

  -- `downloadGuard`
  unfoldable pub download_guard : Guard
  download_guard req v =
      if not (str_eq req.method "GET") && not (str_eq req.method "HEAD")
      then body_rule_guard p "file downloads are disabled" download_rules raw_part_routes req v
      else if is_download_path (proxy_rest req.path req.session_id)
      then deny (plain 403 "file downloads are disabled")
      else next v

  -- `terminalGuard`
  unfoldable pub terminal_guard : Guard
  terminal_guard req v =
      if is_terminal_path (proxy_rest req.path req.session_id)
      then deny (plain 403 "the terminal is disabled")
      else next v

  -- `shellGuard`
  unfoldable pub shell_guard : Guard
  shell_guard = body_rule_guard p "shell commands are disabled" shell_rules shell_routes

  -- `configGuard`
  unfoldable pub config_guard : Guard
  config_guard = body_rule_guard p "config changes are disabled" config_rules config_routes

  -- FEATURE_GUARDS
  unfoldable pub feature_guard : FeatureName → Option Guard
  feature_guard FeatureName.uploads = some upload_guard
  feature_guard FeatureName.downloads = some download_guard
  feature_guard FeatureName.terminal = some terminal_guard
  feature_guard FeatureName.shell = some shell_guard
  feature_guard FeatureName.export = none
  feature_guard FeatureName.share =
      some (body_rule_guard p "sharing is disabled" share_rules share_routes)
  feature_guard FeatureName.config = some config_guard
  feature_guard FeatureName.mcp = some (block_guard "MCP changes are disabled" mcp_routes)
