-- ===== src/Auth/AccessToken.antt =====
-- token.ts: signed access tokens and PKCE. Node's HMAC and hash are parameters, and so is the text
-- of a payload (`JSON.stringify`, then base64url), with the way back.
use opencode_rc.Common.{
  ℕ, zero, suc, ◌+◌, ◌/◌, Bool, true, false, ◌&&◌, ◌||◌, Text, text, text_eq, is_space, [], ◌∷◌,
  ◌++◌, Option, none, some, ◌≡◌, ◌≢◌, ◌==◌, not, leb, length, take, drop, every, if◌then◌else◌,
}
use opencode_rc.Tokens.{AccessClaims}

-- `Partial<AccessPayload>`: a field that is missing or not of its type is `none`. The code tests the
-- types of `typ`, `exp`, `uid` and `sid`; it takes `email` and `name` as they are, which are texts in
-- every payload that the server signs.
pub record AccessPayload : Type 0 where
  pub typ : Option Text
  pub uid : Option Text
  pub email : Option Text
  pub name : Option Text
  pub sid : Option Text
  pub exp : Option ℕ

-- What the program takes from Node. `secret` stands for the key's bytes, a base64url text has no
-- dot in it, and `decode` is `none` where `JSON.parse` throws.
pub record Crypto : Type 0 where
  pub mac : (payload secret : Text) → Text
  pub encode : AccessPayload → Text
  pub decode : Text → Option AccessPayload
  -- SHA-256 of a verifier, in base64url
  pub code_challenge : Text → Text
  pub decode-encode : (p : AccessPayload) → decode (encode p) ≡ some p
  pub encode-ne-nil : (p : AccessPayload) → encode p ≢ []
  -- Neither has a space in it.
  pub mac_no_space :
      (payload secret : Text) → every (λ c. not (is_space c)) (mac payload secret) ≡ true
  pub encode_no_space : (p : AccessPayload) → every (λ c. not (is_space c)) (encode p) ≡ true
  pub mac_no_dot :
      (payload secret : Text) → every (λ c. not (c == b'.')) (mac payload secret) ≡ true

-- `s.lastIndexOf(c)`, -1 as `none`
unfoldable pub last_index_of : ℕ → Text → Option ℕ
last_index_of sep [] = none
last_index_of sep (c ∷ s) = elim (last_index_of sep s) [
  | some n ↦ some (suc n)
  | none ↦ if c == sep then some 0 else none
]

-- A text counts as missing when it is empty.
abbrev pub non_empty : Option Text → Option Text
non_empty (some (c ∷ s)) = some (c ∷ s)
non_empty _ = none

-- `value ?? ""`
abbrev pub or_empty : Option Text → Text
or_empty none = []
or_empty (some s) = s

abbrev pub is_word_char : ℕ → Bool
is_word_char c =
    (leb b'A' c && leb c b'Z') || (leb b'a' c && leb c b'z') || (leb b'0' c && leb c b'9')

-- `CODE_CHALLENGE`
unfoldable pub is_code_challenge : Option Text → Bool
is_code_challenge none = false
is_code_challenge (some s) =
    length s == 43 && every (λ c. is_word_char c || c == b'_' || c == b'-') s

-- `CODE_VERIFIER`
unfoldable pub is_code_verifier : Text → Bool
is_code_verifier s =
    leb 43 (length s)
    && leb (length s) 128
    && every (λ c. is_word_char c || c == b'.' || c == b'_' || c == b'~' || c == b'-') s

module _ (crypto : Crypto) where
  -- `signAccessToken`; `now` is in milliseconds.
  unfoldable pub sign_access_token : AccessClaims → (secret : Text) → (ttl_seconds now : ℕ) → Text
  sign_access_token claims secret ttl_seconds now =
      let payload = crypto.encode (record {
        typ = some (text "access");
        uid = some claims.uid;
        email = some claims.email;
        name = some claims.name;
        sid = non_empty claims.sid;
        exp = some (now / 1000 + ttl_seconds);
      }) in
      payload ++ b'.' ∷ crypto.mac payload secret

  -- `verifyAccessToken` behind the comparison of the MACs
  unfoldable pub checked_claims :
      (typ uid : Option Text) (exp : Option ℕ) → AccessPayload → (now : ℕ) → Option AccessClaims
  checked_claims (some t) (some u) (some x) body now =
      if not (text_eq t (text "access"))
      then none
      else if leb x (now / 1000)
      then none
      else some (record {
        uid = u;
        email = or_empty body.email;
        name = or_empty body.name;
        sid = non_empty body.sid;
      })
  checked_claims _ _ _ body now = none

  unfoldable pub payload_claims : Option AccessPayload → (now : ℕ) → Option AccessClaims
  payload_claims none now = none
  payload_claims (some body) now = checked_claims body.typ body.uid body.exp body now

  unfoldable pub verify_parts : (payload got secret : Text) → (now : ℕ) → Option AccessClaims
  verify_parts payload got secret now =
      if text_eq got (crypto.mac payload secret)
      then payload_claims (crypto.decode payload) now
      else none

  -- `verifyAccessToken` behind the search for the last dot
  unfoldable pub verify_at : Option ℕ → (token secret : Text) → (now : ℕ) → Option AccessClaims
  verify_at none token secret now = none
  verify_at (some zero) token secret now = none
  verify_at (some (suc n)) token secret now =
      verify_parts (take (suc n) token) (drop (suc (suc n)) token) secret now

  -- `verifyAccessToken`
  unfoldable pub verify_access_token : (token secret : Text) → (now : ℕ) → Option AccessClaims
  verify_access_token token secret now = verify_at (last_index_of b'.' token) token secret now

  -- `verifyCodeVerifier`
  unfoldable pub verify_code_verifier : Option Text → (challenge : Text) → Bool
  verify_code_verifier none challenge = false
  verify_code_verifier (some v) challenge =
      is_code_verifier v && text_eq (crypto.code_challenge v) challenge
