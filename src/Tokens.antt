-- ===== src/Tokens.antt =====
-- token-store.ts: login codes, sign-in sessions ("chains") and rotating refresh tokens in Redis.
-- Random tokens are arguments: the caller draws them. `hash` is `hashToken`; `JSON.stringify`
-- and `JSON.parse` of the two records are a codec.
pub mod Keys
pub mod Rotate
pub mod Sessions
pub mod SignIn
pub mod Crash
pub mod Race
pub mod Examples
mod Tests
use opencode_rc.Common.{
  ℕ, zero, suc, Bool, true, false, Text, text, [], ◌∷◌, ◌++◌, Option, none, some, ◌≡◌, ◌≢◌,
}
use opencode_rc.Redis.{
  Prog, ret, throw, ◌>>=◌, ◌>>◌, redis_get, redis_getdel, redis_ttl, redis_set, redis_set_nx,
  redis_del,
}

-- token.ts; `sid` is absent from older tokens.
pub record AccessClaims : Type 0 where
  pub uid : Text
  pub email : Text
  pub name : Text
  pub sid : Option Text

pub data RotateResult : Type 0 where
  ok : (refresh_token : Text) (claims : AccessClaims) → RotateResult
  refused : RotateResult

pub record NewSession : Type 0 where
  pub refresh_token : Text
  pub claims : AccessClaims

abbrev pub refresh_grace_seconds : ℕ
refresh_grace_seconds = 30

pub record LoginCodeRecord : Type 0 where
  pub claims : AccessClaims
  pub challenge : Text

-- What `issueToken` stores; a record never holds the `sid` of the claims.
pub record RefreshRecord : Type 0 where
  pub chain : Text
  pub uid : Text
  pub email : Text
  pub name : Text

-- `JSON.stringify` and `JSON.parse` on one of the records; `none` where the parser throws.
pub record Codec (A : Type 0) : Type 0 where
  pub encode : A → Text
  pub decode : Text → Option A
  pub decode-encode : (a : A) → decode (encode a) ≡ some a
  pub encode-ne-nil : (a : A) → encode a ≢ []

abbrev pub is_some : Option Text → Bool
is_some none = false
is_some (some v) = true

-- The keys.
unfoldable pub key_code : Text → Text
unfolding text
key_code code = text "orc:v2:code:" ++ code

unfoldable pub key_chain : Text → Text
unfolding text
key_chain id = text "orc:v2:chain:" ++ id

unfoldable pub key_rt : Text → Text
unfolding text
key_rt h = text "orc:v2:rt:" ++ h

unfoldable pub key_used : Text → Text
unfolding text
key_used h = text "orc:v2:rtused:" ++ h

unfoldable pub key_grace : Text → Text
unfolding text
key_grace h = text "orc:v2:rtgrace:" ++ h

-- The claims of a token of a session.
abbrev pub claims_of : RefreshRecord → AccessClaims
claims_of r = record { uid = r.uid; email = r.email; name = r.name; sid = some r.chain }

-- `JSON.parse` of a stored text, and what follows; it throws on a text that it cannot read.
unfoldable pub and_then : {A B : Type 0} → Option A → (A → Prog B) → Prog B
and_then none f = throw
and_then (some a) f = f a

-- A stored value counts as missing when it is empty (`!raw`).
abbrev pub truthy : Option Text → Option Text
truthy (some (c ∷ s)) = some (c ∷ s)
truthy _ = none

module _ (hash : Text → Text) (refresh_json : Codec RefreshRecord)
    (code_json : Codec LoginCodeRecord) (session_ttl code_ttl : ℕ) where
  -- `createCode`
  unfoldable pub create_code : (code : Text) → AccessClaims → (challenge : Text) → Prog Text
  create_code code claims challenge = do
    redis_set (key_code code) (code_json.encode (record { claims = claims; challenge = challenge }))
        code_ttl
    ret code

  unfoldable pub consume_stored : Option Text → Prog (Option LoginCodeRecord)
  consume_stored none = ret none
  consume_stored (some stored) = and_then (code_json.decode stored) (λ r. ret (some r))

  -- `consumeCode`
  unfoldable pub consume_code : (code : Text) → Prog (Option LoginCodeRecord)
  consume_code code = do raw ← redis_getdel (key_code code); consume_stored (truthy raw)

  -- `issueToken`
  unfoldable pub issue_token : (token : Text) → RefreshRecord → ℕ → Prog (Unit {0})
  issue_token token r seconds = redis_set (key_rt (hash token)) (refresh_json.encode r) seconds

  -- `createChain`, with the random chain and token
  unfoldable pub create_chain : (chain token : Text) → AccessClaims → Prog NewSession
  create_chain chain token claims = do
    redis_set (key_chain chain) claims.uid session_ttl
    issue_token token
        (record { chain = chain; uid = claims.uid; email = claims.email; name = claims.name })
        session_ttl
    ret (record { refresh_token = token; claims = record claims { sid = some chain } })

  -- `sessionActive`
  unfoldable pub session_active : (sid : Text) → Prog Bool
  session_active sid = do v ← redis_get (key_chain sid); ret (is_some v)

  -- The answer to a token that was rotated before: the token of that rotation, if its grace time
  -- is not over.
  unfoldable pub graced : Option Text → RefreshRecord → Prog RotateResult → Prog RotateResult
  graced none r otherwise = otherwise
  graced (some token) r otherwise = ret (ok token (claims_of r))

  -- `rotate` behind the SET NX of the grace key
  unfoldable pub claimed : Bool → (next h : Text) → RefreshRecord → ℕ → Prog RotateResult
  claimed true next h r seconds = do
    issue_token next r seconds
    redis_set (key_used h) (b'1' ∷ []) seconds
    ret (ok next (claims_of r))
  claimed false next h r seconds = do g ← redis_get (key_grace h); graced (truthy g) r (ret refused)

  -- `rotate` behind the GET of the used key
  unfoldable pub rotate_used : Option Text → (next h : Text) → RefreshRecord → ℕ → Prog RotateResult
  rotate_used none next h r seconds = do
    won ← redis_set_nx (key_grace h) next refresh_grace_seconds
    claimed won next h r seconds
  rotate_used (some _) next h r seconds = do
    g ← redis_get (key_grace h)
    graced (truthy g) r (do redis_del (key_chain r.chain); ret refused)

  -- `rotate` behind the TTL of the chain
  unfoldable pub rotate_active : ℕ → (next h : Text) → RefreshRecord → Prog RotateResult
  rotate_active zero next h r = ret refused
  rotate_active (suc n) next h r = do
    used ← redis_get (key_used h)
    rotate_used (truthy used) next h r (suc n)

  unfoldable pub rotate_stored : Option Text → (next h : Text) → Prog RotateResult
  rotate_stored none next h = ret refused
  rotate_stored (some stored) next h =
      and_then (refresh_json.decode stored)
        (λ r. do seconds ← redis_ttl (key_chain r.chain); rotate_active seconds next h r)

  -- `rotate`, with the random next token
  unfoldable pub rotate : (next refresh_token : Text) → Prog RotateResult
  rotate next refresh_token = do
    raw ← redis_get (key_rt (hash refresh_token))
    rotate_stored (truthy raw) next (hash refresh_token)

  unfoldable pub revoke_stored : Option Text → Prog (Unit {0})
  revoke_stored none = ret tt
  revoke_stored (some stored) =
      and_then (refresh_json.decode stored) (λ r. redis_del (key_chain r.chain))

  -- `revoke`
  unfoldable pub revoke : (refresh_token : Text) → Prog (Unit {0})
  revoke refresh_token = do
    raw ← redis_get (key_rt (hash refresh_token))
    revoke_stored (truthy raw)
