-- ===== src/Config/Tests.antt =====
-- A run of the config's parser.
use opencode_rc.Common.{ℕ, Bool, true, false, [], ◌∷◌, Text, text, Option, none, some, ◌≡◌, refl}
use opencode_rc.Json.{Json, obj, bool, Fields, end, field}
use opencode_rc.Config.{RcConfig}
use opencode_rc.Config.Parse.{Parsed, parsed, config_error, Url, parse_config}
use opencode_rc.Config.Strict.{IsStrict, parse_config-IsStrict}

abbrev entries : Fields
entries =
    field (text "features")
      (obj (field (text "shell") (obj (field (text "enabled") (bool false) end)) end)) end

abbrev no_url : Text → Option Url
no_url s = none

abbrev zeros : Text → ℕ
zeros s = 0

abbrev config_or : RcConfig → Parsed RcConfig → RcConfig
config_or c (parsed d) = d
config_or c (config_error m) = c

abbrev on : RcConfig
on = record {
  server_url = none;
  enabled = λ name. true;
  enabled_v2 = λ name. true;
  versions = none;
}

abbrev shell_off : RcConfig
shell_off = config_or on (parse_config [] no_url zeros (obj entries))

shell_off_parsed : parse_config [] no_url zeros (obj entries) ≡ parsed shell_off
unfolding parse_config opencode_rc.Json.as_object opencode_rc.Config.Parse.parse_fields
    opencode_rc.Config.Parse.only opencode_rc.Common.includes text
    opencode_rc.Config.Parse.server_url_of opencode_rc.Json.get opencode_rc.Config.Parse.object_at
    opencode_rc.Config.Parse.versions_of opencode_rc.Config.Parse.features_of
    opencode_rc.Config.Parse.feature_at opencode_rc.Config.Parse.feature
    opencode_rc.Config.Parse.enabled_of opencode_rc.Config.Parse.features_v2_of
    opencode_rc.Config.Parse.feature_v2_at
shell_off_parsed = refl

parse_config-IsStrict_example :
    (fs : Fields) × (obj entries ≡ obj fs) × IsStrict [] no_url zeros fs shell_off
parse_config-IsStrict_example =
    parse_config-IsStrict [] no_url zeros (obj entries) shell_off shell_off_parsed
