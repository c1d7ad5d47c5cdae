-- ===== src/Api/Request.antt =====
-- What a guard sees of a request, and request-body.ts.
use opencode_rc.Common.{
  ℕ, ◌+◌, List, [], ◌∷◌, ◌++◌, Text, Option, none, some, String, if◌then◌else◌, ltb, length, trim,
  text_eq,
}
use opencode_rc.Json.{Json}

-- What the program takes from its platform: `TextDecoder`, `JSON.parse` and the protocol of
-- `new URL`. `none` where the platform throws.
pub record Platform : Type 0 where
  pub decode_text : List ℕ → Text
  pub parse_json : Text → Option Json
  pub url_protocol : Text → Option Text

-- `raw_path` is the path of the request url before decoding (`rawPath`), `path` the one that the
-- router decoded. `content_length` is the header as a number, and `chunks` the body's stream.
pub record Request : Type 0 where
  pub method : String
  pub path : Text
  pub raw_path : Option Text
  pub session_id : Text
  pub query_path : Option Text
  pub content_length : Option ℕ
  pub chunks : List (List ℕ)

-- The request's variables that guards set: the body that was read, and the rewrite of a response.
pub record Vars : Type 0 where
  pub body : Option (List ℕ)
  pub rewrite_json : Option (Json → Json)

pub data Reply : Type 0 where
  -- `c.text(message, status)`
  plain : (status : ℕ) (message : String) → Reply
  -- `c.json({ _tag: "FeatureDisabled", message }, status)`
  feature_disabled : (status : ℕ) (message : String) → Reply

pub data Verdict : Type 0 where
  next : Vars → Verdict
  deny : Reply → Verdict

abbrev pub Guard : Type 0
Guard = Request → Vars → Verdict

infixl 5 ◌>>=◌
abbrev pub ◌>>=◌ : Verdict → (Vars → Verdict) → Verdict
next v >>= k = k v
deny r >>= k = deny r

-- hono's `every`: one guard after another.
unfoldable pub every_guard : List Guard → Guard
every_guard [] req v = next v
every_guard (g ∷ gs) req v = g req v >>= every_guard gs req

abbrev pub max_body_bytes : ℕ
max_body_bytes = 33554432

pub data JsonBody : Type 0 where
  json : Option Json → JsonBody
  not_json : JsonBody
  too_large : JsonBody

-- A chunk in front of the ones behind it.
abbrev pub prepend : List ℕ → Option (List ℕ) → Option (List ℕ)
prepend value none = none
prepend value (some rest) = some (value ++ rest)

-- The loop of `readCapped`; `total` bytes were read before.
unfoldable pub read_chunks : (total : ℕ) → List (List ℕ) → Option (List ℕ)
read_chunks total [] = some []
read_chunks total (value ∷ chunks) =
    let rest = read_chunks (total + length value) chunks in
    if ltb max_body_bytes (total + length value) then none else prepend value rest

-- `readCapped`
unfoldable pub read_capped : Request → Option (List ℕ)
unfolding read_chunks
read_capped req = elim req.content_length [
  | none ↦ read_chunks 0 req.chunks
  | some n ↦ if ltb max_body_bytes n then none else read_chunks 0 req.chunks
]

module _ (p : Platform) where
  -- The end of `jsonBody`, on the bytes.
  unfoldable pub parse_body : List ℕ → JsonBody
  unfolding trim text_eq
  parse_body bytes =
      let body = p.decode_text bytes in
      if text_eq (trim body) []
      then json none
      else elim (p.parse_json body) [ none ↦ not_json | some j ↦ json (some j) ]

  -- `jsonBody`: the bytes are read once and kept.
  unfoldable pub json_body : Request → Vars → JsonBody × Vars
  unfolding read_capped parse_body
  json_body req v = elim v.body [
    | some bytes ↦ (parse_body bytes, v)
    | none ↦ elim (read_capped req) [
      | none ↦ (too_large, v)
      | some bytes ↦ (parse_body bytes, record v { body = some bytes })
    ]
  ]

-- `bodyError` on a body that is no JSON object's text.
unfoldable pub body_error : JsonBody → Reply
body_error too_large = plain 413 "request body is too large"
body_error _ = plain 400 "request body is not JSON"
