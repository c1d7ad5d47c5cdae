-- ===== src/Config.antt =====
-- The deployment config, config/schema.ts.
pub mod Parse
pub mod Strict
mod Tests
use opencode_rc.Common.{Bool, List, [], ◌∷◌, Text, Option}

pub data FeatureName : Type 0 where
  uploads downloads terminal shell export share config mcp : FeatureName

-- FEATURES
abbrev pub features : List FeatureName
features = uploads ∷ downloads ∷ terminal ∷ shell ∷ export ∷ share ∷ config ∷ mcp ∷ []

pub data FeatureNameV2 : Type 0 where
  uploads downloads terminal shell export mcp : FeatureNameV2

-- RcConfig, with the `enabled` flag of each feature; `versions` holds `min` and `max`.
pub record RcConfig : Type 0 where
  pub server_url : Option Text
  pub enabled : FeatureName → Bool
  pub enabled_v2 : FeatureNameV2 → Bool
  pub versions : Option (Text × Text)
