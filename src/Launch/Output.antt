-- ===== src/Launch/Output.antt =====
-- What the client makes of the server's output, in chunks and in one piece (cli/src/server.ts).
use mathlib.Core.List.{append_assoc, append-nil}
use opencode_rc.Common.{
  true, false, Text, List, [], ◌∷◌, ◌++◌, Option, none, some, ◌≡◌, refl, sym, ap, ◌∙◌,
  if◌then◌else◌,
}
use opencode_rc.Json.{Json}
use opencode_rc.Launch.{
  Server, Effect, printed, Result, pop, split_lines, url_in, on_url, on_stdout_line, each_line,
  on_stdout,
}
use opencode_rc.Launch.Lines.{cut, cut-append, cut_none}

-- What is behind the lines of a text holds no line.
tail_of : List Text → List Text
tail_of [] = []
tail_of (x ∷ xs) = xs

append_self : (xs ys : List Text) → xs ≡ xs ++ ys → ys ≡ []
unfolding tail_of
append_self [] ys h = sym h
append_self (x ∷ xs) ys h = append_self xs ys (ap tail_of h)

pair : {x : List Text × Text} {ls : List Text} {r : Text} → x.0 ≡ ls → x.1 ≡ r → x ≡ (ls, r)
pair {x = x} {ls = ls} a b = ap (λ l. (l, x.1)) a ∙ ap (λ t. (ls, t)) b

pub cut_rest : (s : Text) → cut (cut s).1 ≡ ([], (cut s).1)
cut_rest s =
    let (ls, r) = cut s in
    let e = ap cut (sym (append-nil s)) ∙ cut-append s [] in
    let z =
      append_self (cut s).0 (cut ((cut s).1 ++ [])).0 (ap (λ (x : List Text × Text). x.0) e) in
    let n = ap (λ t. (cut t).0) (sym (append-nil (cut s).1)) ∙ z in pair n (cut_none (cut s).1 n)

module _ (parse_json : Text → Option Json) where
  abbrev with_buf : Text → Result → Result
  with_buf r (st, es) = (record st { stdout_buf = r }, es)

  abbrev pub and_then : Result → (Server → Result) → Result
  and_then (st, es) f = let (st', es') = f st in (st', es ++ es')

  abbrev each : List Text → Server → Result
  each ls st = each_line parse_json (on_stdout_line parse_json) ls st

  -- The output in chunks.
  abbrev pub on_chunks : List Text → Server → Result
  on_chunks [] st = (st, [])
  on_chunks (chunk ∷ chunks) st = and_then (on_stdout parse_json chunk st) (on_chunks chunks)

  abbrev put_before : List Effect → Result → Result
  put_before es (st, es') = (st, es ++ es')

  and_then_assoc :
      (x : Result) (f g : Server → Result)
      → and_then x (λ st. and_then (f st) g) ≡ and_then (and_then x f) g
  and_then_assoc (st, es) f g =
      ap (λ l. ((g (f st).0).0, l)) (sym (append_assoc es (f st).1 (g (f st).0).1))

  url-buf :
      (url : Option Text) (line r : Text) (st : Server)
      → on_url parse_json url line (record st { stdout_buf = r })
        ≡ with_buf r (on_url parse_json url line st)
  unfolding on_url
  url-buf none line r st = refl
  url-buf (some url) line r st = refl

  each-append :
      (ls ms : List Text) (st : Server) → each (ls ++ ms) st ≡ and_then (each ls st) (each ms)
  unfolding each_line
  each-append [] ms st = refl
  each-append ([] ∷ ls) ms st = each-append ls ms st
  each-append ((c ∷ l) ∷ ls) ms st =
      let (st1, es1) = on_stdout_line parse_json (c ∷ l) st in
      ap (put_before (on_stdout_line parse_json (c ∷ l) st).1)
        (each-append ls ms (on_stdout_line parse_json (c ∷ l) st).0)
      ∙ and_then_assoc (on_stdout_line parse_json (c ∷ l) st) (each ls) (each ms)

  line-buf :
      (line r : Text) (st : Server)
      → on_stdout_line parse_json line (record st { stdout_buf = r })
        ≡ with_buf r (on_stdout_line parse_json line st)
  unfolding on_stdout_line
  line-buf line r st =
      elim st.started
        as (λ b.
          (if b
            then (record st { stdout_buf = r }, printed line ∷ [])
            else on_url parse_json (url_in parse_json line) line (record st { stdout_buf = r }))
          ≡ with_buf r (
              if b
              then (st, printed line ∷ [])
              else on_url parse_json (url_in parse_json line) line st)) [
                | true ↦ refl
                | false ↦ url-buf (url_in parse_json line) line r st
              ]

  each-buf :
      (ls : List Text) (r : Text) (st : Server)
      → each ls (record st { stdout_buf = r }) ≡ with_buf r (each ls st)
  unfolding each_line
  each-buf [] r st = refl
  each-buf ([] ∷ ls) r st = each-buf ls r st
  each-buf ((c ∷ l) ∷ ls) r st =
      ap (λ x. and_then x (each ls)) (line-buf (c ∷ l) r st)
      ∙ ap (put_before (on_stdout_line parse_json (c ∷ l) st).1)
          (each-buf ls r (on_stdout_line parse_json (c ∷ l) st).0)

  on_stdout-append :
      (a b : Text) (st : Server)
      → on_stdout parse_json (a ++ b) st
        ≡ and_then (on_stdout parse_json a st) (on_stdout parse_json b)
  unfolding on_stdout
  on_stdout-append a b st =
      let x = cut (st.stdout_buf ++ a) in
      let y = cut (x.1 ++ b) in
      let e = ap cut (sym (append_assoc st.stdout_buf a b)) ∙ cut-append (st.stdout_buf ++ a) b in
      ap (λ (p : List Text × Text). with_buf p.1 (each p.0 st)) e
      ∙ ap (with_buf y.1) (each-append x.0 y.0 st)
      ∙ ap (λ (p : Result). with_buf y.1 (put_before (each x.0 st).1 p))
          (sym (each-buf y.0 x.1 (each x.0 st).0))

  -- All the chunks at once.
  abbrev pub concat : List Text → Text
  concat [] = []
  concat (chunk ∷ chunks) = chunk ++ concat chunks

  none_new :
      (st : Server)
      → cut st.stdout_buf ≡ ([], st.stdout_buf)
      → on_stdout parse_json [] st ≡ (st, [])
  unfolding on_stdout each_line
  none_new st h =
      ap (λ (p : List Text × Text). with_buf p.1 (each p.0 st))
        (ap cut (append-nil st.stdout_buf) ∙ h)

  buffered :
      (chunk : Text) (st : Server)
      → (on_stdout parse_json chunk st).0.stdout_buf ≡ (cut (st.stdout_buf ++ chunk)).1
  unfolding on_stdout
  buffered chunk st = refl

  -- From a state whose buffered output holds no whole line, output that comes in any chunks leaves
  -- the same state and has the same effects as the same text in one piece, also where a chunk ends
  -- between the two characters of a line end.
  pub on_stdout-chunks :
      (chunks : List Text) (st : Server)
      → pop (split_lines st.stdout_buf) ≡ ([], st.stdout_buf)
      → on_chunks chunks st ≡ on_stdout parse_json (concat chunks) st
  on_stdout-chunks [] st h = sym (none_new st h)
  on_stdout-chunks (chunk ∷ chunks) st h =
      let st1 = (on_stdout parse_json chunk st).0 in
      let rest =
        on_stdout-chunks chunks st1 (rw (buffered chunk st) (cut_rest (st.stdout_buf ++ chunk))) in
      ap (put_before (on_stdout parse_json chunk st).1) rest
      ∙ sym (on_stdout-append chunk (concat chunks) st)
