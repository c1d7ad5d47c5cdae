-- ===== src/Api/V1/Secrets.antt =====
-- provider-secrets.ts: the credentials that are removed from 1.x responses.
use opencode_rc.Common.{
  str_eq, Bool, not, List, [], ◌∷◌, Text, text, text_eq, Option, none, some, String, if◌then◌else◌,
  includes, find,
}
use opencode_rc.Regex.{Re, eps, lit, alt, plus, not_slash, accepts}
use opencode_rc.Json.{Json, arr, obj, Items, nil, cons, Fields, end, field}
use opencode_rc.Api.Paths.{proxy_rest, canonical_path, trim_slashes}
use opencode_rc.Api.Request.{Guard, next}

-- The entries whose names satisfy a test.
unfoldable pub keep : (Text → Bool) → Fields → Fields
keep p end = end
keep p (field k v fs) = let rest = keep p fs in if p k then field k v rest else rest

-- `omit`
unfoldable pub omit : List Text → Fields → Fields
unfolding keep includes
omit names = keep (λ k. not (includes names k))

-- `if (name in o) o[name] = fn(o[name])`
unfoldable pub update : Text → (Json → Json) → Fields → Fields
unfolding text_eq
update name fn end = end
update name fn (field k v fs) = field k (if text_eq k name then fn v else v) (update name fn fs)

unfoldable pub map_fields : (Json → Json) → Fields → Fields
map_fields fn end = end
map_fields fn (field k v fs) = field k (fn v) (map_fields fn fs)

unfoldable pub map_items : (Json → Json) → Items → Items
map_items fn nil = nil
map_items fn (cons j js) = cons (fn j) (map_items fn js)

-- `mapRecord`
unfoldable pub map_record : (Json → Json) → Json → Json
unfolding map_fields
map_record fn (obj fs) = obj (map_fields fn fs)
map_record fn j = j

-- `mapArray`
unfoldable pub map_array : (Json → Json) → Json → Json
unfolding map_items
map_array fn (arr js) = arr (map_items fn js)
map_array fn j = j

-- `patch`
unfoldable pub patch : (Fields → Fields) → Json → Json
patch fn (obj fs) = obj (fn fs)
patch fn j = j

unfoldable pub legacy_model : Json → Json
unfolding patch update map_record omit text
legacy_model = patch (λ m.
    update (text "variants") (map_record (λ _. obj end))
      (omit (text "options" ∷ text "headers" ∷ []) m))

-- `legacyProvider`
unfoldable pub legacy_provider : Json → Json
unfolding patch update map_record omit legacy_model text
legacy_provider = patch (λ p.
    update (text "models") (map_record legacy_model)
      (omit (text "key" ∷ text "options" ∷ text "headers" ∷ []) p))

-- `apiItem`
unfoldable pub api_item : Json → Json
unfolding patch update map_array omit text
api_item = patch (λ i.
    update (text "variants") (map_array (patch (omit (text "headers" ∷ text "body" ∷ []))))
      (update (text "api") (patch (omit (text "settings" ∷ []))) (omit (text "request" ∷ []) i)))

-- `mcpServer`
unfoldable pub mcp_server : Json → Json
unfolding patch update omit text
mcp_server = patch (λ s.
    update (text "oauth") (patch (omit (text "clientSecret" ∷ [])))
      (omit (text "environment" ∷ text "headers" ∷ []) s))

-- AGENT_KEYS
unfoldable pub agent_keys : List Text
unfolding text
agent_keys =
    text "name"
    ∷ text "model"
    ∷ text "variant"
    ∷ text "prompt"
    ∷ text "description"
    ∷ text "temperature"
    ∷ text "top_p"
    ∷ text "mode"
    ∷ text "hidden"
    ∷ text "color"
    ∷ text "steps"
    ∷ text "maxSteps"
    ∷ text "permission"
    ∷ text "disable"
    ∷ text "tools"
    ∷ []

-- `agentEntry`
unfoldable pub agent_entry : Json → Json
unfolding patch keep includes agent_keys
agent_entry = patch (keep (includes agent_keys))

-- `lspEntry` and `formatterEntry`
unfoldable pub lsp_entry : Json → Json
unfolding patch omit text
lsp_entry = patch (omit (text "env" ∷ []))

unfoldable pub formatter_entry : Json → Json
unfolding patch omit text
formatter_entry = patch (omit (text "environment" ∷ []))

-- `field`
unfoldable pub in_field : Text → (Json → Json) → Json → Json
unfolding patch update
in_field name fn = patch (update name fn)

-- `stripConfig`: the steps of CONFIG_FIELDS, one after another
unfoldable pub strip_config : Json → Json
unfolding in_field map_record legacy_provider mcp_server agent_entry lsp_entry formatter_entry text
strip_config json = in_field (text "formatter") (map_record formatter_entry) (
    in_field (text "lsp") (map_record lsp_entry) (
      in_field (text "mode") (map_record agent_entry) (
        in_field (text "agent") (map_record agent_entry) (
          in_field (text "mcp") (map_record mcp_server)
            (in_field (text "provider") (map_record legacy_provider) json)))))

pub record SecretRoute : Type 0 where
  pub path : Re
  pub strip : Json → Json

unfoldable pub global_config : Re
unfolding lit text
global_config = lit (text "/global/config") eps

-- ROUTES
unfoldable pub secret_routes : List SecretRoute
unfolding lit plus not_slash in_field map_array legacy_provider api_item strip_config text
secret_routes =
    record {
      path = lit (text "/provider") eps;
      strip = in_field (text "all") (map_array legacy_provider);
    }
    ∷ record {
      path = lit (text "/config/providers") eps;
      strip = in_field (text "providers") (map_array legacy_provider);
    }
    ∷ record {
      path = alt (lit (text "/config") eps) (lit (text "/global/config") eps);
      strip = strip_config;
    }
    ∷ record {
      path = lit (text "/api/provider") eps;
      strip = in_field (text "data") (map_array api_item);
    }
    ∷ record {
      path = lit (text "/api/provider/") (plus not_slash eps);
      strip = in_field (text "data") api_item;
    }
    ∷ record {
      path = lit (text "/api/model") eps;
      strip = in_field (text "data") (map_array api_item);
    }
    ∷ []

-- The rewrite for a path that could be read.
unfoldable pub strip_at : String → Text → Option (Json → Json)
unfolding global_config accepts strip_config find secret_routes
strip_at method bare =
    if str_eq method "PATCH"
    then (if accepts global_config bare then some strip_config else none)
    else if not (str_eq method "GET")
    then none
    else elim (find (λ (r : SecretRoute). accepts r.path bare) secret_routes) [
      | none ↦ none
      | some r ↦ some r.strip
    ]

-- `providerSecretsStrip`
unfoldable pub provider_secrets_strip : Text → String → Option (Json → Json)
unfolding canonical_path trim_slashes strip_at
provider_secrets_strip rest method = elim (canonical_path rest) [
  | none ↦ none
  | some path ↦ strip_at method (trim_slashes path)
]

-- `providerSecretsGuard`
unfoldable pub provider_secrets_guard : Guard
unfolding provider_secrets_strip proxy_rest
provider_secrets_guard req v =
    elim (provider_secrets_strip (proxy_rest req.path req.session_id) req.method) [
      | none ↦ next v
      | some strip ↦ next (record v { rewrite_json = some strip })
    ]
