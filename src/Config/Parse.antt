-- ===== src/Config/Parse.antt =====
-- `parseConfig` of config/schema.ts. `new URL` and `Number` are parameters; a `ConfigError` is its
-- message.
use opencode_rc.Common.{
  ℕ, Bool, true, false, not, ◌&&◌, ◌||◌, List, [], ◌∷◌, ◌++◌, map, Text, text, text_eq, Option,
  none, some, if◌then◌else◌, ltb, ◌==◌, includes, split, drop_trailing, leb,
}
use opencode_rc.Regex.{Re, eps, lit, plus, accepts}
use opencode_rc.Json.{Json, null, bool, str, obj, Fields, end, field, get, as_object}
use opencode_rc.Config.{RcConfig, FeatureName, FeatureNameV2}

pub data Parsed (A : Type 0) : Type 0 where
  parsed : A → Parsed A
  config_error : Text → Parsed A

infixl 5 ◌>>=◌ ◌>>◌
abbrev pub ◌>>=◌ : {A B : Type 0} → Parsed A → (A → Parsed B) → Parsed B
parsed a >>= f = f a
config_error m >>= f = config_error m

abbrev pub ◌>>◌ : {A B : Type 0} → Parsed A → Parsed B → Parsed B
m >> n = m >>= λ _. n

pub record Url : Type 0 where
  pub protocol : Text
  pub search : Text
  pub hash : Text
  pub href : Text

-- `/^\d+\.\d+\.\d+$/`
abbrev pub digit : ℕ → Bool
digit c = leb b'0' c && leb c b'9'

unfoldable pub semver : Re
unfolding plus lit text
semver = plus digit (lit (text ".") (plus digit (lit (text ".") (plus digit eps))))

-- `a.findIndex((n, i) => n !== b[i])` and the test of the two numbers there: whether the first
-- list is lower at the first place where the two differ.
unfoldable pub is_lower : List ℕ → List ℕ → Bool
is_lower (a ∷ ms) (b ∷ ns) = let rest = is_lower ms ns in if a == b then rest else ltb a b
is_lower _ _ = false

module _ (source : Text) (new_url : Text → Option Url) (number : Text → ℕ) where
  unfoldable pub fail : {A : Type 0} → Text → Parsed A
  unfolding text
  fail message = config_error (source ++ text ": " ++ message)

  -- `only`
  unfoldable pub only : Fields → (allowed : List Text) → (prefix : Text) → Parsed (Unit {0})
  only end allowed prefix = parsed tt
  only (field k v fs) allowed prefix =
      let rest = only fs allowed prefix in
      if includes allowed k then rest else fail (text "unknown key \"" ++ prefix ++ k ++ text "\"")

  -- `value.enabled`
  unfoldable pub enabled_of : Option Json → Text → Parsed Bool
  enabled_of none name = parsed true
  enabled_of (some (bool b)) name = parsed b
  enabled_of (some _) name = fail (name ++ text ".enabled must be true or false")

  -- `feature`
  unfoldable pub feature : Option Json → (name : Text) → Parsed Bool
  feature none name = parsed true
  feature (some (obj fs)) name = do
    only fs (text "enabled" ∷ []) (name ++ text ".")
    enabled_of (get (text "enabled") fs) name
  feature (some _) name = fail (name ++ text " must be an object")

  -- `raw[name] ?? {}`, which must be an object
  unfoldable pub object_at : Option Json → (name : Text) → Parsed Fields
  object_at none name = parsed end
  object_at (some null) name = parsed end
  object_at (some (obj fs)) name = parsed fs
  object_at (some _) name = fail (name ++ text " must be an object")

  unfoldable pub check_url : Url → Parsed (Option Text)
  check_url url =
      if not (text_eq url.protocol (text "http:")) && not (text_eq url.protocol (text "https:"))
      then fail (text "serverUrl must start with http:// or https://")
      else if not (text_eq url.search []) || not (text_eq url.hash [])
      then fail (text "serverUrl must not have a query or fragment")
      else (let href = drop_trailing (λ c. c == b'/') url.href in
          parsed (if text_eq href [] then none else some href))

  unfoldable pub server_url_of : Option Json → Parsed (Option Text)
  server_url_of none = parsed none
  server_url_of (some (str s)) = elim (new_url s) [
    | none ↦ fail (text "serverUrl is not a valid URL")
    | some url ↦ check_url url
  ]
  server_url_of (some _) = fail (text "serverUrl must be a string")

  -- A MAJOR.MINOR.PATCH version.
  unfoldable pub version_at : Option Json → (name : Text) → Parsed Text
  version_at (some (str s)) name =
      if accepts semver s
      then parsed s
      else fail (text "opencodeV2.versions." ++ name ++ text " must be a MAJOR.MINOR.PATCH version")
  version_at _ name =
      fail (text "opencodeV2.versions." ++ name ++ text " must be a MAJOR.MINOR.PATCH version")

  -- `v.split(".").map(Number)`
  unfoldable pub numbers_of : Text → List ℕ
  unfolding split
  numbers_of v = map number (split b'.' v)

  unfoldable pub order_versions : (min max : Text) → Parsed (Option (Text × Text))
  unfolding numbers_of is_lower
  order_versions min max =
      if is_lower (numbers_of min) (numbers_of max)
      then parsed (some (min, max))
      else fail (text "opencodeV2.versions.min must be lower than max")

  unfoldable pub versions_of : Option Json → Parsed (Option (Text × Text))
  versions_of none = parsed none
  versions_of (some (obj fs)) = do
    only fs (text "min" ∷ text "max" ∷ []) (text "opencodeV2.versions.")
    min ← version_at (get (text "min") fs) (text "min")
    max ← version_at (get (text "max") fs) (text "max")
    order_versions min max
  versions_of (some _) = fail (text "opencodeV2.versions must be an object")

  abbrev pub feature_name : FeatureName → Text
  feature_name FeatureName.uploads = text "uploads"
  feature_name FeatureName.downloads = text "downloads"
  feature_name FeatureName.terminal = text "terminal"
  feature_name FeatureName.shell = text "shell"
  feature_name FeatureName.export = text "export"
  feature_name FeatureName.share = text "share"
  feature_name FeatureName.config = text "config"
  feature_name FeatureName.mcp = text "mcp"

  abbrev pub feature_name_v2 : FeatureNameV2 → Text
  feature_name_v2 FeatureNameV2.uploads = text "uploads"
  feature_name_v2 FeatureNameV2.downloads = text "downloads"
  feature_name_v2 FeatureNameV2.terminal = text "terminal"
  feature_name_v2 FeatureNameV2.shell = text "shell"
  feature_name_v2 FeatureNameV2.export = text "export"
  feature_name_v2 FeatureNameV2.mcp = text "mcp"

  abbrev pub v1_names : List Text
  v1_names =
      text "uploads"
      ∷ text "downloads"
      ∷ text "terminal"
      ∷ text "shell"
      ∷ text "export"
      ∷ text "share"
      ∷ text "config"
      ∷ text "mcp"
      ∷ []

  abbrev pub v2_names : List Text
  v2_names =
      text "uploads"
      ∷ text "downloads"
      ∷ text "terminal"
      ∷ text "shell"
      ∷ text "export"
      ∷ text "mcp"
      ∷ []

  unfoldable pub feature_at : Fields → FeatureName → Parsed Bool
  feature_at fs name = feature (get (feature_name name) fs) (text "features." ++ feature_name name)

  unfoldable pub feature_v2_at : Fields → FeatureNameV2 → Parsed Bool
  feature_v2_at fs name =
      feature (get (feature_name_v2 name) fs) (text "opencodeV2.features." ++ feature_name_v2 name)

  -- The features of opencode 1.x and 2.x, in their order.
  unfoldable pub features_of : Fields → Parsed (FeatureName → Bool)
  features_of fs = do
    a ← feature_at fs FeatureName.uploads
    b ← feature_at fs FeatureName.downloads
    c ← feature_at fs FeatureName.terminal
    d ← feature_at fs FeatureName.shell
    e ← feature_at fs FeatureName.export
    f ← feature_at fs FeatureName.share
    g ← feature_at fs FeatureName.config
    h ← feature_at fs FeatureName.mcp
    parsed (λ name. elim name [
      | FeatureName.uploads ↦ a
      | FeatureName.downloads ↦ b
      | FeatureName.terminal ↦ c
      | FeatureName.shell ↦ d
      | FeatureName.export ↦ e
      | FeatureName.share ↦ f
      | FeatureName.config ↦ g
      | FeatureName.mcp ↦ h
    ])

  unfoldable pub features_v2_of : Fields → Parsed (FeatureNameV2 → Bool)
  features_v2_of fs = do
    a ← feature_v2_at fs FeatureNameV2.uploads
    b ← feature_v2_at fs FeatureNameV2.downloads
    c ← feature_v2_at fs FeatureNameV2.terminal
    d ← feature_v2_at fs FeatureNameV2.shell
    e ← feature_v2_at fs FeatureNameV2.export
    f ← feature_v2_at fs FeatureNameV2.mcp
    parsed (λ name. elim name [
      | FeatureNameV2.uploads ↦ a
      | FeatureNameV2.downloads ↦ b
      | FeatureNameV2.terminal ↦ c
      | FeatureNameV2.shell ↦ d
      | FeatureNameV2.export ↦ e
      | FeatureNameV2.mcp ↦ f
    ])

  -- `parseConfig` on an object
  unfoldable pub parse_fields : Fields → Parsed RcConfig
  parse_fields raw = do
    only raw (text "serverUrl" ∷ text "features" ∷ text "opencodeV2" ∷ []) []
    server_url ← server_url_of (get (text "serverUrl") raw)
    features ← object_at (get (text "features") raw) (text "features")
    only features v1_names (text "features.")
    v2 ← object_at (get (text "opencodeV2") raw) (text "opencodeV2")
    only v2 (text "features" ∷ text "versions" ∷ []) (text "opencodeV2.")
    versions ← versions_of (get (text "versions") v2)
    v2_features ← object_at (get (text "features") v2) (text "opencodeV2.features")
    only v2_features v2_names (text "opencodeV2.features.")
    enabled ← features_of features
    enabled_v2 ← features_v2_of v2_features
    parsed (record {
      server_url = server_url;
      enabled = enabled;
      enabled_v2 = enabled_v2;
      versions = versions;
    })

  -- `parseConfig`
  unfoldable pub parse_config : Json → Parsed RcConfig
  parse_config raw = elim (as_object raw) [
    | none ↦ fail (text "must be a JSON object")
    | some fs ↦ parse_fields fs
  ]
