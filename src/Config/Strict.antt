-- ===== src/Config/Strict.antt =====
-- What a config that was read guarantees.
use opencode_rc.Common.{
  ℕ, Bool, true, false, not, List, [], ◌∷◌, ◌++◌, Text, text, Option, none, some, ◌≡◌, refl, ap,
  subst, ◌∙◌, arith, includes, text_eq, text_eq_iff, Bool-cases, inl, inr,
}
use opencode_rc.Json.{Json, null, bool, obj, Fields, end, field, get, get_of, has, as_object}
use opencode_rc.Config.{RcConfig, FeatureName, FeatureNameV2}
use opencode_rc.Config.Parse.{
  Parsed, parsed, config_error, ◌>>=◌, Url, only, enabled_of, feature, object_at, server_url_of,
  versions_of, feature_name, feature_name_v2, v1_names, v2_names, feature_at, feature_v2_at,
  features_of, features_v2_of, parse_fields, parse_config, fail,
}

bind_sound :
    {A B : Type 0} (m : Parsed A) (f : A → Parsed B) (b : B)
    → (m >>= f) ≡ parsed b
    → (a : A) × (m ≡ parsed a) × (f a ≡ parsed b)
bind_sound (parsed a) f b h = (a, refl, h)
bind_sound (config_error t) f b h = cc

-- The config switches a feature off: `{ "enabled": false }`.
abbrev pub says_off : Option Json → Bool
says_off (some (bool b)) = not b
says_off _ = false

abbrev value_of : {A : Type 0} → A → Parsed A → A
value_of a (parsed b) = b
value_of a (config_error m) = a

abbrev at : {N : Type 0} → Parsed (N → Bool) → N → Parsed Bool
at (parsed f) name = parsed (f name)
at (config_error m) name = config_error m

parsed_injective : {A : Type 0} (a b : A) → parsed a ≡ parsed b → a ≡ b
parsed_injective {A = A} a b h = ap (λ (r : Parsed A). value_of a r) h

has-get : (k : Text) (fs : Fields) (v : Json) → get k fs ≡ some v → has k fs ≡ true
unfolding get has
has-get k end v h = cc
has-get k (field j w fs) v h = elim (Bool-cases (text_eq j k)) [
  | inl t ↦ ground arith
  | inr f ↦ ground (arith, has-get k fs v (rw f at h))
]

-- What switches a feature off in its entry of the config.
abbrev off : Option Json → Bool
off o = not (says_off (get_of (text "enabled") o))

module _ (source : Text) (new_url : Text → Option Url) (number : Text → ℕ) where
  enabled_of_sound :
      (o : Option Json) (name : Text) (b : Bool)
      → enabled_of source new_url number o name ≡ parsed b
      → b ≡ not (says_off o)
  unfolding enabled_of fail
  enabled_of_sound none name b h = ground arith
  enabled_of_sound (some (bool c)) name b h = ground arith
  enabled_of_sound (some j) name b h = ground arith

  feature_sound :
      (o : Option Json) (name : Text) (b : Bool)
      → feature source new_url number o name ≡ parsed b
      → b ≡ not (says_off (get_of (text "enabled") o))
  unfolding feature get_of fail
  feature_sound none name b h = ground arith
  feature_sound (some (obj fs)) name b h =
      let (u, known, k) =
        bind_sound (only source new_url number fs (text "enabled" ∷ []) (name ++ text ".")) _ _ h in
      enabled_of_sound (get (text "enabled") fs) name b k
  feature_sound (some j) name b h = ground arith

  features_of_sound :
      (fs : Fields) (enabled : FeatureName → Bool)
      → features_of source new_url number fs ≡ parsed enabled
      → (name : FeatureName) → feature_at source new_url number fs name ≡ parsed (enabled name)
  unfolding features_of
  features_of_sound fs enabled k0 name =
      let (a, a_eq, ka) =
        bind_sound (feature_at source new_url number fs FeatureName.uploads) _ _ k0 in
      let (b, b_eq, kb) =
        bind_sound (feature_at source new_url number fs FeatureName.downloads) _ _ ka in
      let (c, c_eq, kc) =
        bind_sound (feature_at source new_url number fs FeatureName.terminal) _ _ kb in
      let (d, d_eq, kd) =
        bind_sound (feature_at source new_url number fs FeatureName.shell) _ _ kc in
      let (e, e_eq, ke) =
        bind_sound (feature_at source new_url number fs FeatureName.export) _ _ kd in
      let (f, f_eq, kf) =
        bind_sound (feature_at source new_url number fs FeatureName.share) _ _ ke in
      let (g, g_eq, kg) =
        bind_sound (feature_at source new_url number fs FeatureName.config) _ _ kf in
      let (h, h_eq, kh) = bind_sound (feature_at source new_url number fs FeatureName.mcp) _ _ kg in
      elim name as (λ n. feature_at source new_url number fs n ≡ parsed (enabled n)) [
        | FeatureName.uploads ↦
            a_eq ∙ ap (λ (r : Parsed (FeatureName → Bool)). at r FeatureName.uploads) kh
        | FeatureName.downloads ↦
            b_eq ∙ ap (λ (r : Parsed (FeatureName → Bool)). at r FeatureName.downloads) kh
        | FeatureName.terminal ↦
            c_eq ∙ ap (λ (r : Parsed (FeatureName → Bool)). at r FeatureName.terminal) kh
        | FeatureName.shell ↦
            d_eq ∙ ap (λ (r : Parsed (FeatureName → Bool)). at r FeatureName.shell) kh
        | FeatureName.export ↦
            e_eq ∙ ap (λ (r : Parsed (FeatureName → Bool)). at r FeatureName.export) kh
        | FeatureName.share ↦
            f_eq ∙ ap (λ (r : Parsed (FeatureName → Bool)). at r FeatureName.share) kh
        | FeatureName.config ↦
            g_eq ∙ ap (λ (r : Parsed (FeatureName → Bool)). at r FeatureName.config) kh
        | FeatureName.mcp ↦ h_eq ∙ ap (λ (r : Parsed (FeatureName → Bool)). at r FeatureName.mcp) kh
      ]

  features_v2_of_sound :
      (fs : Fields) (enabled : FeatureNameV2 → Bool)
      → features_v2_of source new_url number fs ≡ parsed enabled
      → (name : FeatureNameV2) → feature_v2_at source new_url number fs name ≡ parsed (enabled name)
  unfolding features_v2_of
  features_v2_of_sound fs enabled k0 name =
      let (a, a_eq, ka) =
        bind_sound (feature_v2_at source new_url number fs FeatureNameV2.uploads) _ _ k0 in
      let (b, b_eq, kb) =
        bind_sound (feature_v2_at source new_url number fs FeatureNameV2.downloads) _ _ ka in
      let (c, c_eq, kc) =
        bind_sound (feature_v2_at source new_url number fs FeatureNameV2.terminal) _ _ kb in
      let (d, d_eq, kd) =
        bind_sound (feature_v2_at source new_url number fs FeatureNameV2.shell) _ _ kc in
      let (e, e_eq, ke) =
        bind_sound (feature_v2_at source new_url number fs FeatureNameV2.export) _ _ kd in
      let (f, f_eq, kf) =
        bind_sound (feature_v2_at source new_url number fs FeatureNameV2.mcp) _ _ ke in
      elim name as (λ n. feature_v2_at source new_url number fs n ≡ parsed (enabled n)) [
        | FeatureNameV2.uploads ↦
            a_eq ∙ ap (λ (r : Parsed (FeatureNameV2 → Bool)). at r FeatureNameV2.uploads) kf
        | FeatureNameV2.downloads ↦
            b_eq ∙ ap (λ (r : Parsed (FeatureNameV2 → Bool)). at r FeatureNameV2.downloads) kf
        | FeatureNameV2.terminal ↦
            c_eq ∙ ap (λ (r : Parsed (FeatureNameV2 → Bool)). at r FeatureNameV2.terminal) kf
        | FeatureNameV2.shell ↦
            d_eq ∙ ap (λ (r : Parsed (FeatureNameV2 → Bool)). at r FeatureNameV2.shell) kf
        | FeatureNameV2.export ↦
            e_eq ∙ ap (λ (r : Parsed (FeatureNameV2 → Bool)). at r FeatureNameV2.export) kf
        | FeatureNameV2.mcp ↦
            f_eq ∙ ap (λ (r : Parsed (FeatureNameV2 → Bool)). at r FeatureNameV2.mcp) kf
      ]

  only_sound :
      (fs : Fields) (allowed : List Text) (prefix : Text) (u : Unit {0}) (k : Text)
      → only source new_url number fs allowed prefix ≡ parsed u
      → has k fs ≡ true
      → includes allowed k ≡ true
  unfolding only has fail
  only_sound end allowed prefix u k h m = cc
  only_sound (field j v fs) allowed prefix u k h m = elim (Bool-cases (includes allowed j)) [
    | inr f ↦ cc (rw f at h)
    | inl t ↦ elim (Bool-cases (text_eq j k)) [
      | inl e ↦ rw ((text_eq_iff j k).0 e) at t
      | inr e ↦ only_sound fs allowed prefix u k (rw t at h) (rw e at m)
    ]
  ]

  object_at_sound :
      (o : Option Json) (name : Text) (g : Fields)
      → object_at source new_url number o name ≡ parsed g
      → (k : Text) → get k g ≡ get_of k o
  unfolding object_at get get_of fail
  object_at_sound none name g h k = ground arith
  object_at_sound (some null) name g h k = ground arith
  object_at_sound (some (obj fs)) name g h k = ground arith
  object_at_sound (some j) name g h k = cc

  abbrev known_keys : List Text
  known_keys = text "serverUrl" ∷ text "features" ∷ text "opencodeV2" ∷ []

  -- A config that was read from a JSON object.
  pub record IsStrict (fs : Fields) (cfg : RcConfig) : Type 0 where
    pub known : (k : Text) → has k fs ≡ true → includes known_keys k ≡ true
    pub known_features :
        (k : Text) (v : Json)
        → get_of k (get (text "features") fs) ≡ some v
        → includes (v1_names source new_url number) k ≡ true
    pub known_features_v2 :
        (k : Text) (v : Json)
        → get_of k (get_of (text "features") (get (text "opencodeV2") fs)) ≡ some v
        → includes (v2_names source new_url number) k ≡ true
    pub features :
        (name : FeatureName)
        → cfg.enabled name
          ≡ not (
              says_off (
                get_of
                  (text "enabled")
                  (get_of (feature_name source new_url number name) (get (text "features") fs))))
    pub features_v2 :
        (name : FeatureNameV2)
        → cfg.enabled_v2 name
          ≡ not (
              says_off (
                get_of (text "enabled") (
                  get_of
                    (feature_name_v2 source new_url number name)
                    (get_of (text "features") (get (text "opencodeV2") fs)))))

  parse_fields-IsStrict :
      (fs : Fields) (cfg : RcConfig)
      → parse_fields source new_url number fs ≡ parsed cfg
      → IsStrict fs cfg
  unfolding parse_fields feature_at feature_v2_at
  parse_fields-IsStrict fs cfg h =
      let (u, only_known, h1) = bind_sound (only source new_url number fs known_keys []) _ _ h in
      let (url, url_eq, h2) =
        bind_sound (server_url_of source new_url number (get (text "serverUrl") fs)) _ _ h1 in
      let (v1, v1_eq, h3) =
        bind_sound (object_at source new_url number (get (text "features") fs) (text "features")) _
          _ h2 in
      let (u1, v1_known, h4) =
        bind_sound
          (only source new_url number v1 (v1_names source new_url number) (text "features.")) _ _
          h3 in
      let (v2, v2_eq, h5) =
        bind_sound
          (object_at source new_url number (get (text "opencodeV2") fs) (text "opencodeV2")) _ _
          h4 in
      let (u2, v2_known, h6) =
        bind_sound
          (only source new_url number v2 (text "features" ∷ text "versions" ∷ [])
            (text "opencodeV2."))
          _ _ h5 in
      let (vs, vs_eq, h7) =
        bind_sound (versions_of source new_url number (get (text "versions") v2)) _ _ h6 in
      let (w, w_eq, h8) =
        bind_sound
          (object_at source new_url number (get (text "features") v2) (text "opencodeV2.features"))
          _ _ h7 in
      let (u3, w_known, h9) =
        bind_sound
          (only source new_url number w (v2_names source new_url number)
            (text "opencodeV2.features."))
          _ _ h8 in
      let (enabled, enabled_eq, h10) = bind_sound (features_of source new_url number v1) _ _ h9 in
      let (enabled2, enabled2_eq, h11) =
        bind_sound (features_v2_of source new_url number w) _ _ h10 in
      let same = parsed_injective _ cfg h11 in
      subst (IsStrict fs) same (record {
        known = λ k m. only_sound fs known_keys [] u k only_known m;
        known_features = λ k v e.
            only_sound v1 (v1_names source new_url number) (text "features.") u1 k v1_known (
              has-get k v1 v
                (object_at_sound (get (text "features") fs) (text "features") v1 v1_eq k ∙ e));
        known_features_v2 = λ k v e.
            only_sound w (v2_names source new_url number) (text "opencodeV2.features.") u3 k w_known
              (has-get k w v (
                object_at_sound (get (text "features") v2) (text "opencodeV2.features") w w_eq k
                ∙ ap (get_of k) (
                    object_at_sound (get (text "opencodeV2") fs) (text "opencodeV2") v2 v2_eq
                      (text "features"))
                ∙ e));
        features = λ name.
            feature_sound (get (feature_name source new_url number name) v1) _ (enabled name)
              (features_of_sound v1 enabled enabled_eq name)
            ∙ ap off (
                object_at_sound (get (text "features") fs) (text "features") v1 v1_eq
                  (feature_name source new_url number name));
        features_v2 = λ name.
            feature_sound (get (feature_name_v2 source new_url number name) w) _ (enabled2 name)
              (features_v2_of_sound w enabled2 enabled2_eq name)
            ∙ ap off (
                object_at_sound (get (text "features") v2) (text "opencodeV2.features") w w_eq
                  (feature_name_v2 source new_url number name)
                ∙ ap (get_of (feature_name_v2 source new_url number name)) (
                    object_at_sound (get (text "opencodeV2") fs) (text "opencodeV2") v2 v2_eq
                      (text "features")));
      })

  -- A config that is read is a JSON object whose keys, and whose feature names for 1.x and 2.x, are
  -- all known, and a feature is disabled exactly when its entry says `enabled: false`.
  pub parse_config-IsStrict :
      (j : Json) (cfg : RcConfig)
      → parse_config source new_url number j ≡ parsed cfg
      → (fs : Fields) × (j ≡ obj fs) × IsStrict fs cfg
  unfolding parse_config as_object fail
  parse_config-IsStrict (obj fs) cfg h = (fs, refl, parse_fields-IsStrict fs cfg h)
  parse_config-IsStrict j cfg h = cc
