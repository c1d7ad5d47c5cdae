-- ===== src/Api/Paths/Url.antt =====
-- The path of a parsed URL, `new URL(p, "http://x").pathname`, for a `p` that begins with "/" and
-- holds no control character, "\", "?", "#" or "%", and does not end in white space: what
-- `canonicalPath` (proxy.ts) hands it. The WHATWG rules: dot segments are resolved, then each
-- character of the path's percent-encode set is replaced by the escapes of its UTF-8 bytes.
use mathlib.Core.List.{reverse, tail, flat_map}
use opencode_rc.Common.{
  ℕ, Bool, ◌||◌, List, [], ◌∷◌, ◌++◌, Text, text_eq, if◌then◌else◌, ◌==◌, ◌+◌, ◌/◌, ◌%◌, leb, ltb,
  split,
}

abbrev pub single_dot : Text
single_dot = b'.' ∷ []

abbrev pub double_dot : Text
double_dot = b'.' ∷ b'.' ∷ []

-- One segment; the stack has its top at the head. The last segment of a path that ends in a dot
-- segment is empty.
unfoldable pub resolve : List Text → List Text → List Text
unfolding text_eq
resolve stack [] = reverse stack
resolve stack (seg ∷ []) =
    if text_eq seg double_dot
    then reverse ([] ∷ tail stack)
    else if text_eq seg single_dot
    then reverse ([] ∷ stack)
    else reverse (seg ∷ stack)
resolve stack (seg ∷ next ∷ segs) =
    resolve
      (if text_eq seg double_dot
        then tail stack
        else if text_eq seg single_dot
        then stack
        else seg ∷ stack)
      (next ∷ segs)

-- The path percent-encode set.
unfoldable pub is_encoded : ℕ → Bool
is_encoded c =
    leb c 32
    || ltb 126 c
    || c == b'"'
    || c == b'#'
    || c == b'<'
    || c == b'>'
    || c == b'?'
    || c == b'^'
    || c == b'`'
    || c == b'{'
    || c == b'}'

unfoldable pub hex_digit : ℕ → ℕ
hex_digit n = if ltb n 10 then 48 + n else 55 + n

unfoldable pub escape : ℕ → Text
unfolding hex_digit
escape b = b'%' ∷ hex_digit (b / 16) ∷ hex_digit (b % 16) ∷ []

unfoldable pub utf8 : ℕ → List ℕ
utf8 c =
    if ltb c 0x80
    then c ∷ []
    else if ltb c 0x800
    then (0xc0 + c / 64) ∷ (0x80 + c % 64) ∷ []
    else if ltb c 0x10000
    then (0xe0 + c / 4096) ∷ (0x80 + c / 64 % 64) ∷ (0x80 + c % 64) ∷ []
    else (0xf0 + c / 262144) ∷ (0x80 + c / 4096 % 64) ∷ (0x80 + c / 64 % 64) ∷ (0x80 + c % 64) ∷ []

unfoldable pub percent_encode : Text → Text
unfolding is_encoded utf8 escape flat_map
percent_encode [] = []
percent_encode (c ∷ s) =
    (if is_encoded c then flat_map escape (utf8 c) else c ∷ []) ++ percent_encode s

-- Each segment behind a slash.
unfoldable pub print_segments : List Text → Text
unfolding percent_encode
print_segments [] = []
print_segments (seg ∷ segs) = b'/' ∷ percent_encode seg ++ print_segments segs

unfoldable pub url_pathname : Text → Text
unfolding split resolve print_segments
url_pathname [] = []
url_pathname (slash ∷ s) = print_segments (resolve [] (split b'/' s))
