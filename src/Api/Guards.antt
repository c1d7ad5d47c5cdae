-- ===== src/Api/Guards.antt =====
-- feature-guards.ts (plainPathGuard, v1Guards), v2Guards of v2-guard.ts, and guards.ts.
use opencode_rc.Common.{
  Bool, true, false, ◌&&◌, ◌||◌, not, List, [], ◌∷◌, Text, text, text_eq, Option, none, some,
  str_eq, if◌then◌else◌, starts_with,
}
use opencode_rc.Json.{Json}
use opencode_rc.Config.{RcConfig, FeatureName, features}
use opencode_rc.Api.Paths.{is_plain_path}
use opencode_rc.Api.Request.{
  Platform, Request, Guard, next, deny, Reply, plain, feature_disabled, every_guard,
}
use opencode_rc.Api.V1.Routes.{v1_api_guard}
use opencode_rc.Api.V1.Never.{v1_never_guard}
use opencode_rc.Api.V1.Secrets.{provider_secrets_guard}
use opencode_rc.Api.V1.Toggles.{feature_guard}
use opencode_rc.Api.V2.Guard.{v2_guard}

-- The raw path of the request is plain.
unfoldable pub has_plain_path : Request → Bool
unfolding is_plain_path
has_plain_path req = elim req.raw_path [ none ↦ false | some path ↦ is_plain_path path ]

-- `plainPathGuard`
unfoldable pub plain_path_guard : Reply → Guard
unfolding has_plain_path
plain_path_guard refusal req v =
    if not (str_eq req.method "GET") && not (str_eq req.method "HEAD") && not (has_plain_path req)
    then deny refusal
    else next v

-- `isV1Session`
unfoldable pub is_v1_session : Option Text → Bool
unfolding starts_with text text_eq
is_v1_session none = true
is_v1_session (some version) = text_eq version [] || starts_with version (text "1.")

module _ (p : Platform) where
  -- The guards of the disabled features, in the order of FEATURES.
  unfoldable pub active_guards : (FeatureName → Bool) → List FeatureName → List Guard
  unfolding feature_guard
  active_guards enabled [] = []
  active_guards enabled (name ∷ names) =
      let rest = active_guards enabled names in
      if enabled name then rest else elim (feature_guard p name) [ none ↦ rest | some g ↦ g ∷ rest ]

  -- `v1Guards`
  unfoldable pub v1_guards : RcConfig → Guard
  unfolding every_guard plain_path_guard v1_api_guard v1_never_guard provider_secrets_guard
      active_guards
  v1_guards config = every_guard (
      plain_path_guard (plain 400 "unsupported characters in path")
      ∷ v1_api_guard
      ∷ v1_never_guard
      ∷ provider_secrets_guard
      ∷ active_guards config.enabled features)

  -- `v2Guards`
  unfoldable pub v2_guards : RcConfig → (Request → Option Json) → Guard
  unfolding every_guard plain_path_guard v2_guard
  v2_guards config fetch_server_info = every_guard (
      plain_path_guard (feature_disabled 400 "unsupported characters in path")
      ∷ v2_guard p config.enabled_v2 fetch_server_info
      ∷ [])

  -- `versionedGuards`, on the version of the session's record
  unfoldable pub versioned_guards : RcConfig → (Request → Option Json) → Option Text → Guard
  unfolding v1_guards v2_guards is_v1_session
  versioned_guards config fetch_server_info version req v =
      if is_v1_session version
      then v1_guards config req v
      else v2_guards config fetch_server_info req v
