-- ===== src/Proxy.antt =====
-- The relay of HTTP requests (api/src/proxy.ts): which session a request may reach, the request that
-- goes to the gateway, the rewritten response, and the event stream that ends on a denial.
pub mod Forward
pub mod Stream
mod Tests
use opencode_rc.Common.{
  ℕ, Bool, true, false, ◌&&◌, ◌||◌, not, String, Text, text, text_eq, starts_with, leb, List, [],
  ◌∷◌, ◌++◌, filter, map, Option, none, some, ◌≡◌, if◌then◌else◌,
}
use opencode_rc.Json.{Json}
use opencode_rc.Api.Paths.{proxy_rest}

pub record SessionMeta : Type 0 where
  pub id : Text
  pub user_id : Text
  pub directory : Text
  pub gateway_addr : Text

abbrev pub Pairs : Type 0
Pairs = List (Text × Text)

-- `URLSearchParams` and the fatal `TextDecoder` with `JSON.parse`; `none` where one throws.
pub record Platform : Type 0 where
  pub parse_query : Text → Pairs
  pub print_query : Pairs → Text
  -- A query that was printed reads back.
  pub parse-print : (ps : Pairs) → parse_query (print_query ps) ≡ ps
  pub parse_body : List ℕ → Option Json
  pub print_json : Json → Text

pub data Access : Type 0 where
  refused : (status : ℕ) (message : String) → Access
  admitted : SessionMeta → Access

-- `sessionAccess`, behind the store's answer
unfoldable pub session_access : Option SessionMeta → (user_id : Text) → Access
session_access none user_id = refused 404 "session not found"
session_access (some meta) user_id =
    if not (text_eq meta.user_id user_id)
    then refused 404 "session not found"
    else if text_eq meta.gateway_addr []
    then refused 502 "session has no gateway"
    else admitted meta

-- `Headers`: the names are in lower case.
unfoldable pub delete : (name : Text) → Pairs → Pairs
delete name hs = filter (λ (h : Text × Text). not (text_eq h.0 name)) hs

-- `headers.set` on values that `Headers` accepts. It throws on a character above 255, a NUL or a line
-- break, and then `proxyHttp` fails before it sends a request; that failure is not modelled.
unfoldable pub set : (name value : Text) → Pairs → Pairs
set name value hs = (name, value) ∷ delete name hs

-- What the client sends; `body` is what a guard has read, or else the stream as it is.
pub record HttpRequest : Type 0 where
  pub method : Text
  pub path : Text
  pub search : Text
  pub headers : Pairs
  pub body : List ℕ

pub record UpstreamRequest : Type 0 where
  pub url : Text
  pub method : Text
  pub headers : Pairs
  pub body : Option (List ℕ)

pub record Response : Type 0 where
  pub status : ℕ
  pub headers : Pairs
  pub body : List ℕ

pub data Rewritten : Type 0 where
  -- `null`: the caller streams the response as it is.
  as_is : Rewritten
  bad_gateway : Rewritten
  rewritten : (status : ℕ) (headers : Pairs) (body : Text) → Rewritten

module _ (platform : Platform) where
  -- The query without the token.
  unfoldable pub upstream_query : (search : Text) → Text
  upstream_query search =
      platform.print_query (delete (text "access_token") (platform.parse_query search))

  -- `upstreamUrl`
  unfoldable pub upstream_url : (scheme gateway_addr session_id rest search : Text) → Text
  upstream_url scheme gateway_addr session_id rest search =
      let qs = upstream_query search in
      scheme
      ++ text "://"
      ++ gateway_addr
      ++ text "/proxy/"
      ++ session_id
      ++ rest
      ++ (if text_eq qs [] then [] else b'?' ∷ qs)

  unfoldable pub upstream_headers : (rewrites : Bool) (directory token : Text) → Pairs → Pairs
  upstream_headers rewrites directory token hs =
      let sent = delete (text "origin") (
        delete (text "host") (
          set (text "authorization") (text "Bearer " ++ token)
            (set (text "x-opencode-directory") directory hs))) in
      if rewrites then set (text "accept-encoding") (text "identity") sent else sent

  -- The request of `proxyHttp`
  unfoldable pub proxy_http :
      SessionMeta → (token : Text) (rewrites : Bool) → HttpRequest → UpstreamRequest
  proxy_http meta token rewrites req = record {
    url =
        upstream_url (text "http") meta.gateway_addr meta.id (proxy_rest req.path meta.id)
          req.search;
    method = req.method;
    headers = upstream_headers rewrites meta.directory token req.headers;
    body =
        if text_eq req.method (text "GET") || text_eq req.method (text "HEAD")
        then none
        else some req.body;
  }

  -- The headers of a response without opencode's CORS headers.
  unfoldable pub response_headers : Pairs → Pairs
  response_headers hs =
      filter (λ (h : Text × Text). not (starts_with h.0 (text "access-control-"))) hs

  unfoldable pub rewrite_json : (Json → Option Json) → Option Json → Option Text
  rewrite_json rewrite none = none
  rewrite_json rewrite (some j) = elim (rewrite j) [
    | none ↦ none
    | some k ↦ some (platform.print_json k)
  ]

  unfoldable pub rewrite_answer : ℕ → Pairs → Option Text → Rewritten
  rewrite_answer status hs none = bad_gateway
  rewrite_answer status hs (some body) =
      rewritten status (delete (text "content-length") (delete (text "content-encoding") hs)) body

  -- `rewriteResponse`; a rewrite that throws is `none`.
  unfoldable pub rewrite_response : Response → Pairs → (Json → Option Json) → Rewritten
  rewrite_response upstream hs rewrite =
      if leb 200 upstream.status && leb upstream.status 299
      then rewrite_answer upstream.status hs
          (rewrite_json rewrite (platform.parse_body upstream.body))
      else as_is
