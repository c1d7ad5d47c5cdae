-- ===== src/Launch/Tests.antt =====
-- The start of a server whose URL comes in two chunks.
use opencode_rc.Common.{
  true, Text, text, text_eq, push, [], ◌∷◌, List, Option, none, some, ◌≡◌, refl, if◌then◌else◌,
}
use opencode_rc.Json.{Json, obj, str, field, end}
use opencode_rc.Launch.{Server, spawned, resolved, on_stdout, split_lines, pop}
use opencode_rc.Launch.Output.{on_stdout-chunks, on_chunks}

-- A parser that knows one line.
abbrev parse : Text → Option Json
parse line =
    if text_eq line (b'{' ∷ b'u' ∷ [])
    then some (obj (field (text "url") (str (b'h' ∷ [])) end))
    else none

abbrev halves : List Text
halves = (b'{' ∷ []) ∷ (b'u' ∷ 13 ∷ []) ∷ (10 ∷ b'x' ∷ []) ∷ []

on_stdout-chunks_example :
    on_chunks parse halves spawned ≡ on_stdout parse (b'{' ∷ b'u' ∷ 13 ∷ 10 ∷ b'x' ∷ []) spawned
unfolding pop split_lines
on_stdout-chunks_example = on_stdout-chunks parse halves spawned refl

-- Both find the URL.
url_found : on_stdout parse (b'{' ∷ b'u' ∷ 13 ∷ 10 ∷ b'x' ∷ []) spawned ≡ (
  record spawned { started = true; settled = true; stdout_buf = b'x' ∷ [] },
  resolved (b'h' ∷ []) ∷ [],
)
unfolding on_stdout pop split_lines push opencode_rc.Launch.each_line
    opencode_rc.Launch.on_stdout_line opencode_rc.Launch.on_url opencode_rc.Launch.url_in
    opencode_rc.Json.get_of opencode_rc.Json.get text text_eq
url_found = refl
