-- ===== src/Api/Paths.antt =====
-- The paths of proxied requests: proxy.ts (proxyRest, canonicalPath), feature-guards.ts
-- (isPlainPath) and route-template.ts. A path is a list of code points.
mod Escapes
mod Url
use opencode_rc.Common.{
  ℕ, Bool, true, false, ◌&&◌, ◌||◌, not, List, [], ◌∷◌, ◌++◌, map, Text, text, text_eq, Option,
  none, some, if◌then◌else◌, ◌==◌, leb, any, every, drop, length, lower, is_space, trim, split,
  starts_with, drop_trailing, ends_with,
}
use mathlib.Core.List.{reverse}
use opencode_rc.Regex.{Re, eps, lit, plus, not_slash, dot}
use Escapes.{is_control, escapes_structure, decode_uri_component, ◌>>=◌}
use Url.{url_pathname, single_dot, double_dot}

-- A character in front of a path whose slashes are collapsed.
unfoldable pub join_slash : ℕ → Text → Text
join_slash c [] = c ∷ []
join_slash c (d ∷ r) = if c == b'/' && d == b'/' then d ∷ r else c ∷ d ∷ r

-- `.replace(/\/{2,}/g, "/")`
unfoldable pub collapse : Text → Text
unfolding join_slash
collapse [] = []
collapse (c ∷ s) = join_slash c (collapse s)

-- `.replace(/\/+$/, "")`
unfoldable pub trim_slashes : Text → Text
unfolding drop_trailing
trim_slashes = drop_trailing (λ c. c == b'/')

-- `proxyRest`: the path behind "/proxy/<session>", which begins with a slash.
unfoldable pub proxy_rest : (path session_id : Text) → Text
unfolding collapse starts_with text
proxy_rest path session_id =
    let rest = collapse (drop (length (text "/proxy/" ++ session_id)) path) in
    if starts_with rest (b'/' ∷ []) then rest else b'/' ∷ rest

-- `/[?#;\\\x00-\x1f\x7f]/`
unfoldable pub is_unsafe : ℕ → Bool
unfolding is_control
is_unsafe c = c == b'?' || c == b'#' || c == b';' || c == 92 || is_control c

-- `/\s$/.test(p)`
unfoldable pub ends_in_space : Text → Bool
unfolding is_space
ends_in_space p = elim (reverse p) [ [] ↦ false | c ∷ s ↦ is_space c ]

-- `seg !== seg.trim() && /^\.+$/.test(seg.trim())`
unfoldable pub is_padded_dots : Text → Bool
unfolding trim text_eq every
is_padded_dots seg =
    let inner = trim seg in
    not (text_eq seg inner) && not (text_eq inner []) && every (λ c. c == b'.') inner

-- `canonicalPath`
unfoldable pub canonical_path : Text → Option Text
unfolding escapes_structure decode_uri_component any is_unsafe ends_in_space is_padded_dots split
    collapse url_pathname lower
canonical_path path = if escapes_structure path then none else (do
  p ← decode_uri_component path
  if any is_unsafe p || ends_in_space p || any is_padded_dots (split b'/' p)
      then none
      else some (lower (collapse (url_pathname (collapse (b'/' ∷ p))))))

-- `[A-Za-z0-9/_.~-]`
unfoldable pub is_plain_char : ℕ → Bool
is_plain_char c =
    (leb b'A' c && leb c b'Z')
    || (leb b'a' c && leb c b'z')
    || (leb b'0' c && leb c b'9')
    || c == b'/'
    || c == b'_'
    || c == b'.'
    || c == b'~'
    || c == b'-'

abbrev pub is_dots : Text → Bool
is_dots seg = text_eq seg single_dot || text_eq seg double_dot

-- `isPlainPath`
unfoldable pub is_plain_path : Text → Bool
unfolding every any is_plain_char split text_eq
is_plain_path path = every is_plain_char path && not (any is_dots (split b'/' path))

-- The segments of a route template, each as a pattern in front of the rest.
unfoldable pub segment_regex : Text → Re → Re
unfolding lit plus not_slash dot text_eq starts_with
segment_regex seg r =
    if text_eq seg (b'*' ∷ [])
    then plus dot r
    else if starts_with seg (b':' ∷ [])
    then plus not_slash r
    else lit seg r

unfoldable pub segments_regex : List Text → Re
unfolding segment_regex
segments_regex [] = eps
segments_regex (seg ∷ []) = segment_regex seg eps
segments_regex (seg ∷ next ∷ segs) =
    segment_regex seg (lit (b'/' ∷ []) (segments_regex (next ∷ segs)))

-- `templateRegex`
unfoldable pub template_regex : Text → Re
unfolding segments_regex split lower
template_regex template = segments_regex (split b'/' (lower template))
