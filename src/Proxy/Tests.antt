-- ===== src/Proxy/Tests.antt =====
-- A request that is forwarded, with a query that is spelled out, and a stream that is denied.
use opencode_rc.Common.{
  true, false, Text, text, text_eq, [], ◌∷◌, ◌++◌, none, some, if◌then◌else◌, ◌≡◌, refl, ap, ◌∙◌,
}
use opencode_rc.Auth.Spelled.{spell, read, read-spell}
use opencode_rc.Api.Paths.{proxy_rest}
use opencode_rc.Proxy.{
  SessionMeta, Pairs, Platform, HttpRequest, session_access, upstream_query, proxy_http,
}
use opencode_rc.Proxy.Forward.{proxy_http_sound, Carries, values}
use opencode_rc.Proxy.Stream.{
  stream_in_order, well_ended, stream_run, denied, pulled, value, finished, cancelled,
}

-- One mark for each pair, and then the pairs.
abbrev marks : Pairs → Text
marks [] = []
marks (p ∷ ps) = b'm' ∷ marks ps

abbrev body : Pairs → Text
body [] = []
body ((n, v) ∷ ps) = spell n (spell v (body ps))

abbrev read_pairs : Text → Text → Pairs
read_pairs [] s = []
read_pairs (m ∷ ms) s =
    let (n, s1) = read 0 s in let (v, s2) = read 0 s1 in (n, v) ∷ read_pairs ms s2

read_pairs-body : (ps : Pairs) → read_pairs (marks ps) (body ps) ≡ ps
read_pairs-body [] = refl
read_pairs-body ((n, v) ∷ ps) = simp (read-spell, read_pairs-body ps)

abbrev print : Pairs → Text
print ps = spell (marks ps) (body ps)

abbrev parse : Text → Pairs
parse s = let (ms, rest) = read 0 s in read_pairs ms rest

parse-print : (ps : Pairs) → parse (print ps) ≡ ps
parse-print ps =
    ap (λ (x : Text × Text). read_pairs x.0 x.1) (read-spell (marks ps) (body ps))
    ∙ read_pairs-body ps

abbrev platform : Platform
platform = record {
  parse_query = parse;
  print_query = print;
  parse-print = parse-print;
  parse_body = λ bytes. none;
  print_json = λ j. [];
}

abbrev ann_session : SessionMeta
ann_session = record {
  id = b'i' ∷ [];
  user_id = b'a' ∷ [];
  directory = b'd' ∷ [];
  gateway_addr = b'g' ∷ [];
}

abbrev sent_request : HttpRequest
sent_request = record {
  method = text "GET";
  path = text "/proxy/i/session";
  search = print ((text "access_token", b't' ∷ []) ∷ (b'q' ∷ [], b'1' ∷ []) ∷ []);
  headers = (text "host", b'h' ∷ []) ∷ (text "authorization", b'x' ∷ []) ∷ [];
  body = [];
}

proxy_http_sound_example :
    let query = upstream_query platform sent_request.search in
    (some ann_session ≡ some ann_session)
    × (ann_session.user_id ≡ ann_session.user_id)
    × Carries ann_session.directory
        (b't' ∷ [])
        (proxy_http platform ann_session (b't' ∷ []) false sent_request).headers
    × ((proxy_http platform ann_session (b't' ∷ []) false sent_request).url
        ≡ text "http"
          ++ text "://"
          ++ ann_session.gateway_addr
          ++ text "/proxy/"
          ++ ann_session.id
          ++ proxy_rest sent_request.path ann_session.id
          ++ (if text_eq query [] then [] else b'?' ∷ query))
    × (values (text "access_token") (parse query) ≡ (
        if text_eq (text "access_token") (text "access_token")
        then []
        else values (text "access_token") (parse sent_request.search)))
unfolding session_access text_eq
proxy_http_sound_example =
    proxy_http_sound platform (some ann_session) (b'a' ∷ []) ann_session (b't' ∷ []) false
      sent_request (text "access_token") refl

stream_in_order_example :
    well_ended false
      (stream_run
        (pulled (value (b'e' ∷ []))
          ∷ denied
          ∷ pulled (value (b'f' ∷ []))
          ∷ pulled finished
          ∷ cancelled
          ∷ [])
        false).1
    ≡ true
stream_in_order_example =
    stream_in_order
      (pulled (value (b'e' ∷ []))
        ∷ denied
        ∷ pulled (value (b'f' ∷ []))
        ∷ pulled finished
        ∷ cancelled
        ∷ [])
      false
