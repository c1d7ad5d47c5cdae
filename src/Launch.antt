-- ===== src/Launch.antt =====
-- cli/src/server.ts: starting the local opencode 2.x server and reading what it prints. The process is
-- a list of events; what the code does to it and to its caller are effects.
pub mod Lines
pub mod Output
mod Tests
use opencode_rc.Common.{
  ℕ, Bool, true, false, ◌&&◌, ◌||◌, not, Text, text, text_eq, push, starts_with, ltb, length, drop,
  filter, ◌==◌, List, [], ◌∷◌, ◌++◌, Option, none, some, if◌then◌else◌,
}
use opencode_rc.Json.{Json, str, get_of}

-- The variables of `startServerV2`.
pub record Server : Type 0 where
  pub started : Bool
  pub settled : Bool
  pub exited : Bool
  pub closing : Bool
  pub stdout_buf : Text
  pub stderr_buf : Text
  pub stderr_tail : List Text

abbrev pub spawned : Server
spawned = record {
  started = false;
  settled = false;
  exited = false;
  closing = false;
  stdout_buf = [];
  stderr_buf = [];
  stderr_tail = [];
}

pub data Failure : Type 0 where
  timed_out : Failure
  not_spawned : (message : Text) → Failure
  exited_early : (tail : List Text) → Failure

pub data Effect : Type 0 where
  -- `console.error(line)`
  printed : (line : Text) → Effect
  -- `resolve` and `reject` of the promise
  resolved : (url : Text) → Effect
  rejected : Failure → Effect
  -- SIGTERM now, and SIGKILL or SIGTERM later if the process is still there
  terminated : Effect
  stdin_ended : Effect
  kill : Effect
  on_exit : (code : Option ℕ) → Effect

abbrev pub Result : Type 0
Result = Server × List Effect

-- `text.split(/\r?\n/)`
abbrev pub at_line_feed : Text → Bool
at_line_feed [] = false
at_line_feed (c ∷ s) = c == 10

unfoldable pub split_lines : Text → List Text
split_lines [] = [] ∷ []
split_lines (c ∷ s) =
    let parts = split_lines s in
    if c == 10 then [] ∷ parts else if c == 13 && at_line_feed s then parts else push c parts

-- `lines.pop() ?? ""`
unfoldable pub pop : List Text → List Text × Text
pop [] = ([], [])
pop (l ∷ []) = ([], l)
pop (l ∷ m ∷ ls) = let (front, last) = pop (m ∷ ls) in (l ∷ front, last)

module _ (parse_json : Text → Option Json) where
  -- The URL in a line; a line that is no JSON has none.
  unfoldable pub url_in : Text → Option Text
  url_in line = elim (get_of (text "url") (parse_json line)) [
    | some (str url) ↦ some url
    | _ ↦ none
  ]

  unfoldable pub on_url : Option Text → (line : Text) → Server → Result
  on_url none line st = (st, printed line ∷ [])
  on_url (some url) line st = (record st { started = true; settled = true }, resolved url ∷ [])

  -- `onStdoutLine`
  unfoldable pub on_stdout_line : (line : Text) → Server → Result
  on_stdout_line line st =
      if st.started then (st, printed line ∷ []) else on_url (url_in line) line st

  -- `onStderrLine`; the tail holds the last 20 lines.
  unfoldable pub on_stderr_line : (line : Text) → Server → Result
  on_stderr_line line st =
      let tail = st.stderr_tail ++ line ∷ [] in
      (
        record st { stderr_tail = if ltb 20 (length tail) then drop 1 tail else tail },
        printed line ∷ [],
      )

  -- `for (const l of lines) if (l) onLine(l)`
  unfoldable pub each_line : (Text → Server → Result) → List Text → Server → Result
  each_line on_line [] st = (st, [])
  each_line on_line ([] ∷ ls) st = each_line on_line ls st
  each_line on_line ((c ∷ l) ∷ ls) st =
      let (st1, es1) = on_line (c ∷ l) st in
      let (st2, es2) = each_line on_line ls st1 in (st2, es1 ++ es2)

  -- The `data` events, with `splitLines`
  unfoldable pub on_stdout : (chunk : Text) → Server → Result
  on_stdout chunk st =
      let (lines, rest) = pop (split_lines (st.stdout_buf ++ chunk)) in
      let (st', es) = each_line on_stdout_line lines st in (record st' { stdout_buf = rest }, es)

  unfoldable pub on_stderr : (chunk : Text) → Server → Result
  on_stderr chunk st =
      let (lines, rest) = pop (split_lines (st.stderr_buf ++ chunk)) in
      let (st', es) = each_line on_stderr_line lines st in (record st' { stderr_buf = rest }, es)

  -- `fail`
  unfoldable pub fail : Failure → Server → Result
  fail why st = if st.settled then (st, []) else (record st { settled = true }, rejected why ∷ [])

  -- The `error` event of the process. An error of its input is ignored.
  unfoldable pub on_error : (message : Text) → Server → Result
  on_error message st = fail (not_spawned message) st

  unfoldable pub on_stdin_error : Server → Result
  on_stdin_error st = (st, [])

  -- `terminate`
  unfoldable pub terminate : Server → List Effect
  terminate st = if st.exited then [] else terminated ∷ []

  unfoldable pub on_timeout : Server → Result
  on_timeout st =
      let (st', es) = fail timed_out st in
      if st.settled then (st, []) else (st', terminate st ++ es)

  -- `close` of the server that was resolved
  unfoldable pub close : Server → Result
  close st = (record st { closing = true }, stdin_ended ∷ (if st.exited then [] else kill ∷ []))

  unfoldable pub exit_result : (code : Option ℕ) → Server → Result
  exit_result code st =
      let failed = fail (exited_early st.stderr_tail) st in
      if st.started then (st, if st.closing then [] else on_exit code ∷ []) else failed

  -- The `close` event of the process: what is left in the two buffers is a line each.
  unfoldable pub on_close : (code : Option ℕ) → Server → Result
  on_close code st =
      let (st1, es1) =
        each_line on_stdout_line (st.stdout_buf ∷ []) (record st { exited = true }) in
      let (st2, es2) = each_line on_stderr_line (st.stderr_buf ∷ []) st1 in
      let (st3, es3) = exit_result code st2 in (st3, es1 ++ es2 ++ es3)
