-- ===== src/Api/Tests.antt =====
-- Runs of the API's definitions on inputs of the source's own tests.
use opencode_rc.Common.{
  ℕ, Bool, true, false, List, [], ◌∷◌, Text, text, Option, none, some, String, ◌≡◌, ◌≢◌, refl, ◌⊎◌,
  ◌++◌, ◌||◌, ◌==◌, starts_with, includes, split, any, text_eq, length, ltb, if◌then◌else◌,
}
use opencode_rc.Json.{get_of, Json, obj, str, end, field}
use opencode_rc.Config.{FeatureName, FeatureNameV2, RcConfig}
use opencode_rc.Api.Request.{Platform, Request, Vars, next, read_capped, max_body_bytes}
use opencode_rc.Api.V1.Routes.{read_method}
use opencode_rc.Api.V1.Toggles.{
  feature_guard, shell_guard, is_terminal_path, is_download_path, shell_rules, shell_routes,
}
use opencode_rc.Api.V2.Guard.{v2_guard, check_fs_write, trim_path, drop_slash}
use opencode_rc.Api.Proofs.Bodies.{
  read_capped_lem, declares_too_much, concat, IsChecked, body_rule_guard-IsChecked,
}
use opencode_rc.Api.Proofs.V1.{IsAdmitted, v1_guards-IsAdmitted, v1_terminal_off, v1_download_off}
use opencode_rc.Api.Proofs.Writes.{IsEnforced, v1_write-IsEnforced}
use opencode_rc.Api.Proofs.Refusals.{IsShaped, v2_guards-IsShaped}
use opencode_rc.Api.Proofs.V2.{IsPermitted, v2_guard-IsPermitted, v2_fs_write_sound}
use opencode_rc.Api.Guards.{v1_guards, v2_guards}
use opencode_rc.Regex.{accepts}
use opencode_rc.Api.Paths.{canonical_path, trim_slashes, proxy_rest, is_plain_path, template_regex}

canonical_tests :
    (canonical_path (text "/a//b/../C%20d/./e") ≡ some (text "/a/c%20d/e"))
    × (canonical_path (text "/a%2fb") ≡ none)
    × (canonical_path (text "/a%zz") ≡ none)
    × (canonical_path (text "/x/.. ") ≡ none)
    × (canonical_path (text "/%c3%a9/..") ≡ some (text "/"))
    × (canonical_path (text "/%C3%A9") ≡ some (text "/%c3%a9"))
    × (proxy_rest (text "/proxy/s1//pty") (text "s1") ≡ text "/pty")
    × (is_plain_path (text "/a/../b") ≡ false)
    × (accepts
          (template_regex (text "/api/session/:sessionID/prompt"))
          (text "/api/session/abc/prompt")
        ≡ true)
    × (accepts (template_regex (text "/api/fs/read/*")) (text "/api/fs/read/a/b") ≡ true)
    × (accepts (template_regex (text "/api/fs/read/*")) (text "/api/fs/read/") ≡ false)
unfolding canonical_path proxy_rest is_plain_path template_regex accepts text
canonical_tests = (refl, refl, refl, refl, refl, refl, refl, refl, refl, refl, refl)

-- A platform whose parser reads a command with plain arguments in every text.
abbrev command_platform : Platform
command_platform = record {
  decode_text = λ bytes. bytes;
  parse_json = λ s. some (obj (field (text "arguments") (str (text "ls")) end));
  url_protocol = λ s. none;
}

abbrev all_but_shell : FeatureName → Bool
all_but_shell FeatureName.shell = false
all_but_shell _ = true

abbrev all_off : FeatureName → Bool
all_off _ = false

abbrev all_off_v2 : FeatureNameV2 → Bool
all_off_v2 _ = false

abbrev config_of : (FeatureName → Bool) → RcConfig
config_of enabled = record {
  server_url = none;
  enabled = enabled;
  enabled_v2 = all_off_v2;
  versions = none;
}

abbrev request_of : String → Text → List (List ℕ) → Request
request_of method path chunks = record {
  method = method;
  path = path;
  raw_path = some path;
  session_id = b's' ∷ [];
  query_path = some (text "/tmp/uploads/a.png");
  content_length = none;
  chunks = chunks;
}

abbrev no_vars : Vars
no_vars = record { body = none; rewrite_json = none }

abbrev command_request : Request
command_request = request_of "POST" (text "/proxy/s/session/a/command") ((b'{' ∷ b'}' ∷ []) ∷ [])

abbrev command_vars : Vars
command_vars = record { body = some (b'{' ∷ b'}' ∷ []); rewrite_json = none }

command_passes :
    v1_guards command_platform (config_of all_but_shell) command_request no_vars ≡ next command_vars
unfolding v1_guards opencode_rc.Api.V1.Routes.is_v2_only opencode_rc.Api.V1.Toggles.shell_guard
    opencode_rc.Api.Rules.body_rule_guard opencode_rc.Api.V1.Toggles.Rules.shell_routes
    opencode_rc.Api.V1.Toggles.Rules.shell_rules
command_passes = refl

v1_guards-IsAdmitted_example :
    IsAdmitted command_platform (config_of all_but_shell) command_request no_vars command_vars
v1_guards-IsAdmitted_example =
    v1_guards-IsAdmitted command_platform (config_of all_but_shell) command_request no_vars
      command_vars command_passes

v1_write-IsEnforced_example :
    IsEnforced command_platform FeatureName.shell command_request command_vars
unfolding feature_guard
v1_write-IsEnforced_example =
    v1_write-IsEnforced command_platform (config_of all_but_shell) command_request no_vars
      command_vars FeatureName.shell (shell_guard command_platform) command_passes refl refl refl

abbrev list_request : Request
list_request = request_of "GET" (text "/proxy/s/session") []

list_passes : v1_guards command_platform (config_of all_off) list_request no_vars ≡ next no_vars
unfolding v1_guards opencode_rc.Api.V1.Routes.is_v2_only opencode_rc.Api.V1.Toggles.upload_guard
    opencode_rc.Api.Rules.body_rule_guard opencode_rc.Api.V1.Toggles.raw_part_routes
    opencode_rc.Api.V1.Toggles.upload_rules opencode_rc.Api.V1.Toggles.download_guard
    is_download_path opencode_rc.Api.V1.Toggles.terminal_guard is_terminal_path shell_guard
    shell_routes shell_rules opencode_rc.Api.V1.Toggles.share_routes
    opencode_rc.Api.V1.Toggles.share_rules opencode_rc.Api.V1.Toggles.config_guard
    opencode_rc.Api.V1.Toggles.config_routes opencode_rc.Api.V1.Toggles.config_rules
    opencode_rc.Api.V1.Toggles.mcp_routes opencode_rc.Api.Rules.block_guard feature_guard
list_passes = refl

v1_terminal_off_example :
    is_terminal_path (proxy_rest list_request.path list_request.session_id) ≡ false
v1_terminal_off_example =
    v1_terminal_off command_platform (config_of all_off) list_request no_vars no_vars list_passes
      refl

v1_download_off_example :
    (path : Text) × (canonical_path (proxy_rest list_request.path list_request.session_id)
      ≡ some path)
    × (trim_slashes path ≢ text "/file/content")
    × (trim_slashes path ≢ text "/find")
    × (starts_with path (text "/api/fs/read/") ≡ false)
v1_download_off_example =
    v1_download_off command_platform (config_of all_off) list_request no_vars no_vars list_passes
      refl refl

abbrev info : Request → Option Json
info req = some (obj (field (text "paths") (obj (field (text "tmp") (str (text "/tmp/")) end)) end))

abbrev list_v2 : Request
list_v2 = request_of "HEAD" (text "/proxy/s/api/session") []

v2_passes : v2_guard command_platform all_off_v2 info list_v2 no_vars ≡ next no_vars
unfolding v2_guard read_method canonical_path proxy_rest opencode_rc.Api.V2.Guard.check_path
    opencode_rc.Common.find opencode_rc.Api.V2.Routes.v2_routes
    opencode_rc.Api.V2.Guard.route_matches accepts trim_path opencode_rc.Api.Paths.trim_slashes
    template_regex opencode_rc.Api.V2.Guard.check_route opencode_rc.Api.V2.Guard.rule_allows
    opencode_rc.Api.V2.Guard.mcp_integration opencode_rc.Api.V2.Guard.check_request
v2_passes = refl

v2_guard-IsPermitted_example :
    (read_method list_v2.method ≡ "OPTIONS")
    ⊎ ((path : Text) × (canonical_path (proxy_rest list_v2.path list_v2.session_id) ≡ some path)
        × IsPermitted command_platform all_off_v2 info
            (read_method list_v2.method)
            (trim_path path)
            list_v2
            no_vars
            no_vars)
v2_guard-IsPermitted_example =
    v2_guard-IsPermitted command_platform all_off_v2 info list_v2 no_vars no_vars v2_passes

abbrev all_on_v2 : FeatureNameV2 → Bool
all_on_v2 _ = true

abbrev write_request : Request
write_request = request_of "POST" (text "/proxy/s/api/experimental/fs/write/") []

write_passes : v2_guard command_platform all_on_v2 info write_request no_vars ≡ next no_vars
unfolding v2_guard check_fs_write opencode_rc.Api.V2.Guard.is_unsafe_write text_eq text any includes
    split opencode_rc.Api.V2.Guard.is_in_uploads opencode_rc.Json.is_text get_of drop_slash
    starts_with read_method canonical_path proxy_rest opencode_rc.Api.V2.Guard.check_path
    opencode_rc.Common.find opencode_rc.Api.V2.Routes.v2_routes
    opencode_rc.Api.V2.Guard.route_matches accepts trim_path opencode_rc.Api.Paths.trim_slashes
    template_regex opencode_rc.Api.V2.Guard.check_route opencode_rc.Api.V2.Guard.rule_allows
    opencode_rc.Api.V2.Guard.mcp_integration opencode_rc.Api.V2.Guard.check_request
write_passes = refl

v2_fs_write_sound_example :
    (all_on_v2 FeatureNameV2.uploads ≡ true)
    × ((path : Text) × (tmp : Text) × (write_request.query_path ≡ some path)
        × (get_of (text "tmp") (get_of (text "paths") (info write_request)) ≡ some (str tmp))
        × (starts_with path (drop_slash tmp ++ text "/uploads/") ≡ true)
        × (text_eq (drop_slash tmp) [] ≡ false)
        × (includes (split b'/' path) (text "..") ≡ false)
        × (any (λ c. c == 92 || c == 0) path ≡ false))
unfolding canonical_path proxy_rest trim_path opencode_rc.Api.Paths.trim_slashes text
v2_fs_write_sound_example =
    v2_fs_write_sound command_platform all_on_v2 info write_request no_vars no_vars
      (text "/api/experimental/fs/write/") write_passes refl refl refl

read_capped_lem_example : read_capped command_request ≡ (
    if declares_too_much command_request
      || ltb max_body_bytes (length (concat command_request.chunks))
    then none
    else some (concat command_request.chunks))
read_capped_lem_example = read_capped_lem command_request

body_rule_guard-IsChecked_example :
    IsChecked command_platform shell_rules shell_routes command_request no_vars command_vars
unfolding opencode_rc.Api.Rules.body_rule_guard shell_routes shell_rules
body_rule_guard-IsChecked_example =
    body_rule_guard-IsChecked command_platform "shell commands are disabled" shell_rules
      shell_routes command_request no_vars command_vars refl

v2_guards-IsShaped_example :
    IsShaped (v2_guards command_platform (config_of all_off) info command_request no_vars)
v2_guards-IsShaped_example =
    v2_guards-IsShaped command_platform (config_of all_off) info command_request no_vars
