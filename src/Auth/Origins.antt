-- ===== src/Auth/Origins.antt =====
-- origins.ts: the origins that may call the API, and where a sign-in may return to. `new URL` is a
-- parameter with what its standard says of the parts that the code reads.
use opencode_rc.Common.{
  Bool, true, ◌&&◌, ◌||◌, not, Text, text, text_eq, includes, starts_with, trim, drop_trailing,
  split, any, leb, ◌==◌, List, [], ◌∷◌, ◌++◌, map, filter, Option, none, some, ◌≡◌, ◌⊎◌,
  if◌then◌else◌,
}

pub record Url : Type 0 where
  pub protocol : Text
  pub host : Text
  pub origin : Text
  pub pathname : Text
  pub search : Text

abbrev pub path_base : Text
path_base = text "https://placeholder.invalid"

-- `new URL(value)` and `new URL(value, PATH_BASE)`; `none` where the constructor throws. The path of a
-- URL of the base's scheme starts with a slash, and a search is empty or starts with a question mark.
pub record UrlParser : Type 0 where
  pub parse : Text → Option Url
  pub parse_path : Text → Option Url
  pub pathname_slash :
      (v : Text) (u : Url)
      → parse_path v ≡ some u
      → text_eq u.origin path_base ≡ true
      → starts_with u.pathname (text "/") ≡ true
  pub search_shape :
      (v : Text) (u : Url)
      → parse_path v ≡ some u
      → (u.search ≡ []) ⊎ (starts_with u.search (text "?") ≡ true)

abbrev pub app_origins : List Text
app_origins = text "opencode-rc://localhost" ∷ text "https://localhost" ∷ []

-- `makeOriginCheck`; an origin counts as missing when it is empty.
unfoldable pub server_origins : Option Text → List Text
server_origins none = []
server_origins (some o) = if text_eq o [] then [] else o ∷ []

unfoldable pub allowed_origins : (server_origin : Option Text) (extra : List Text) → List Text
allowed_origins server_origin extra =
    app_origins
    ++ filter (λ o. not (text_eq o [])) (map (λ o. drop_trailing (λ c. c == b'/') (trim o)) extra)
    ++ server_origins server_origin

unfoldable pub make_origin_check : (server_origin : Option Text) (extra : List Text) → Text → Bool
make_origin_check server_origin extra origin =
    not (text_eq origin []) && includes (allowed_origins server_origin extra) origin

-- `hasUnsafeChars`
unfoldable pub has_unsafe_chars : Text → Bool
has_unsafe_chars value = any (λ c. leb c 0x1f || c == 0x7f || c == b'\\') value

-- `value.split("#")[0]`
unfoldable pub without_fragment : Text → Text
without_fragment value = elim (split b'#' value) [ [] ↦ [] | part ∷ parts ↦ part ]

module _ (parser : UrlParser) where
  -- `originOf`
  unfoldable pub origin_of_url : Option Url → Option Text
  origin_of_url none = none
  origin_of_url (some u) =
      if text_eq u.host [] then none else some (u.protocol ++ text "//" ++ u.host)

  unfoldable pub origin_of : Text → Option Text
  origin_of url = origin_of_url (parser.parse url)

  module _ (is_allowed : Text → Bool) where
    unfoldable pub return_path : Option Url → Option Text
    return_path none = none
    return_path (some u) =
        if not (text_eq u.origin path_base)
        then none
        else if starts_with u.pathname (text "//")
        then none
        else some (u.pathname ++ u.search)

    unfoldable pub return_origin : Text → Option Text → Option Text
    return_origin value none = none
    return_origin value (some origin) =
        if text_eq origin [] || includes app_origins origin || not (is_allowed origin)
        then none
        else some value

    unfoldable pub return_checked : Text → Option Text
    return_checked value =
        if starts_with value (text "/")
        then return_path (parser.parse_path value)
        else return_origin value (origin_of value)

    -- `validateReturnTo`
    unfoldable pub validate_return_to : Option Text → Option Text
    validate_return_to none = some (text "/")
    validate_return_to (some []) = some (text "/")
    validate_return_to (some (c ∷ s)) =
        if has_unsafe_chars (c ∷ s) then none else return_checked (without_fragment (c ∷ s))
