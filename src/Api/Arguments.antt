-- ===== src/Api/Arguments.antt =====
-- The texts that make opencode run a command or read a file: command-arguments.ts, `mayRunShell`
-- of shell-guard.ts, and the tests of download-guard.ts and upload-guard.ts.
use mathlib.Core.List.{reverse}
use opencode_rc.Json.{Json, Items, Fields, str, arr, obj, nil, cons, end, field}
use opencode_rc.Common.{
  ℕ, zero, suc, Bool, true, false, ◌&&◌, ◌||◌, not, List, [], ◌∷◌, ◌++◌, Text, text, Option, none,
  some, if◌then◌else◌, ◌==◌, leb, any, length, lower, is_space, starts_with, ends_with, contains,
  take, drop,
}

-- The longest front of a text whose characters satisfy `p`, and what is behind it.
unfoldable pub span : (ℕ → Bool) → Text → Text × Text
span p [] = ([], [])
span p (c ∷ s) = let (run, rest) = span p s in if p c then (c ∷ run, rest) else ([], c ∷ s)

abbrev pub is_digit : ℕ → Bool
is_digit c = leb b'0' c && leb c b'9'

abbrev pub is_quote : ℕ → Bool
is_quote c = c == b'"' || c == 39

-- A token of at least one character, and what is behind it.
abbrev pub Token : Type 0
Token = Option (Text × Text)

-- A run that must not be empty.
unfoldable pub run_token : Text × Text → Token
run_token ([], rest) = none
run_token (c ∷ run, rest) = some (c ∷ run, rest)

-- The end of a quoted token: the closing quote must be there.
unfoldable pub close_token : ℕ → Text × Text → Token
close_token q (run, []) = none
close_token q (run, d ∷ rest) = some (q ∷ run ++ d ∷ [], rest)

-- `"[^"]*"` and `'[^']*'`, with the quote given.
unfoldable pub quoted : ℕ → Text → Token
unfolding span close_token
quoted q [] = none
quoted q (c ∷ s) = if c == q then close_token q (span (λ d. not (d == q)) s) else none

-- `[^\s"']+`
unfoldable pub word : Text → Token
unfolding span is_space run_token
word s = run_token (span (λ c. not (is_space c || is_quote c)) s)

-- The end of an image token: digits and a bracket.
unfoldable pub close_image : Text → Text × Text → Token
close_image front ([], rest) = none
close_image front (c ∷ run, []) = none
close_image front (c ∷ run, d ∷ rest) =
    if d == b']' then some (front ++ c ∷ run ++ d ∷ [], rest) else none

unfoldable pub image_number : Text → Text × Text → Token
unfolding close_image span
image_number front ([], rest) = none
image_number front (c ∷ run, rest) = close_image (front ++ c ∷ run) (span is_digit rest)

-- `\[Image\s+\d+\]`, whatever the case of its letters.
unfoldable pub image : Text → Token
unfolding image_number starts_with lower is_space span text
image s =
    if starts_with (lower s) (text "[image")
    then image_number (take 6 s) (span is_space (drop 6 s))
    else none

-- The alternatives of ARGS_REGEX, in their order.
unfoldable pub next_token : Text → Token
unfolding image quoted word
next_token s = elim (image s) [
  | some t ↦ some t
  | none ↦ elim (quoted b'"' s) [
    | some t ↦ some t
    | none ↦ elim (quoted 39 s) [ some t ↦ some t | none ↦ word s ]
  ]
]

unfoldable pub drop_quote : Text → Text
drop_quote [] = []
drop_quote (c ∷ s) = if is_quote c then s else c ∷ s

-- `.replace(/^["']|["']$/g, "")` on a match of ARGS_REGEX
unfoldable pub trim_quotes : Text → Text
unfolding drop_quote
trim_quotes arg = reverse (drop_quote (reverse (drop_quote arg)))

-- `text.match(ARGS_REGEX)`, trimmed; each round drops at least one character of the text.
unfoldable pub tokens_from : (fuel : ℕ) → Text → List Text
unfolding next_token trim_quotes
tokens_from zero s = []
tokens_from (suc n) [] = []
tokens_from (suc n) (c ∷ s) = elim (next_token (c ∷ s)) [
  | none ↦ tokens_from n s
  | some t ↦ let (arg, rest) = t in trim_quotes arg ∷ tokens_from n rest
]

-- `argumentTokens`
unfoldable pub argument_tokens : Text → List Text
unfolding tokens_from
argument_tokens s = tokens_from (length s) s

-- `mayRunShell`
unfoldable pub may_run_shell : Text → Bool
unfolding contains ends_with any argument_tokens text
may_run_shell s =
    contains s (text "!`")
    || ends_with s (text "!")
    || any (λ token. ends_with token (text "!")) (argument_tokens s)

-- `\w`
abbrev pub is_word_char : ℕ → Bool
is_word_char c = is_digit c || (leb b'a' c && leb c b'z') || (leb b'A' c && leb c b'Z') || c == b'_'

-- The character behind "@" makes the group of FILE_REGEX non-empty: `\.?[^\s`,.]*` reads it.
unfoldable pub starts_reference : Text → Bool
unfolding is_space
starts_reference [] = false
starts_reference (c ∷ s) = c == b'.' || not (is_space c || c == b'`' || c == b',' || c == b'.')

-- `(?<![\w`])`
unfoldable pub may_begin : Option ℕ → Bool
may_begin none = true
may_begin (some d) = not (is_word_char d || d == b'`')

-- Some match of FILE_REGEX has a non-empty group. `behind` is the character before `s`. An "@"
-- inside the group of an earlier match is not tried by the engine, and that group is not empty.
unfoldable pub reference_from : (behind : Option ℕ) → Text → Bool
unfolding starts_reference may_begin
reference_from behind [] = false
reference_from behind (c ∷ s) =
    (c == b'@' && may_begin behind && starts_reference s) || reference_from (some c) s

-- `hasFileReference`
unfoldable pub has_file_reference : Text → Bool
unfolding reference_from
has_file_reference = reference_from none

-- `mayReferenceFile`
unfoldable pub may_reference_file : Text → Bool
unfolding has_file_reference ends_with any argument_tokens text
may_reference_file s =
    has_file_reference s
    || ends_with s (text "@")
    || any (λ token. ends_with token (text "@")) (argument_tokens s)

-- `isFileUri`, on a string
unfoldable pub is_file_uri : Text → Bool
unfolding lower starts_with text
is_file_uri s = starts_with (lower s) (text "file:")

-- `hasFileToken`
unfoldable mutual
  unfolding contains lower text

  pub has_file_token : Json → Bool
  has_file_token (str s) = contains (lower s) (text "{file:")
  has_file_token (arr js) = item_has_file_token js
  has_file_token (obj fs) = field_has_file_token fs
  has_file_token _ = false

  pub item_has_file_token : Items → Bool
  item_has_file_token nil = false
  item_has_file_token (cons j js) = has_file_token j || item_has_file_token js

  pub field_has_file_token : Fields → Bool
  field_has_file_token end = false
  field_has_file_token (field k j fs) =
      contains (lower k) (text "{file:") || has_file_token j || field_has_file_token fs
