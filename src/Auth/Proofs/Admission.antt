-- ===== src/Auth/Proofs/Admission.antt =====
-- The guard of signed-in routes, `authMiddleware`, on the tokens that the server signs.
use mathlib.Core.List.{reverse, reverse-cons, reverse-reverse}
use opencode_rc.Common.{
  ℕ, ◌+◌, ◌/◌, Bool, true, false, not, Text, text, text_eq, text_eq_refl, lower, starts_with,
  drop_while, drop_trailing, trim, is_space, every, [], ◌∷◌, ◌++◌, Option, none, some, and-true,
  ltb, ◌≡◌, ◌≢◌, refl, sym, ap, ◌∙◌, arith, if◌then◌else◌,
}
use opencode_rc.Tokens.{AccessClaims}
use opencode_rc.Auth.AccessToken.{
  Crypto, non_empty, or_empty, sign_access_token, verify_access_token,
}
use opencode_rc.Auth.Signed.{normal, verify-sign, verify_sound, IsSigned}
use opencode_rc.Auth.Routes.{
  AuthRequest, Admission, unauthorized, admitted, bearer_token, admit, admit_token, auth_middleware,
}

-- A text without spaces stays as it is.
module _ (p : ℕ → Bool) where
  drop_while-plain : (s : Text) → every (λ c. not (p c)) s ≡ true → drop_while p s ≡ s
  unfolding drop_while every
  drop_while-plain [] h = refl
  drop_while-plain (c ∷ s) h = ground arith

  every-append : (s t : Text) → every p s ≡ true → every p t ≡ true → every p (s ++ t) ≡ true
  unfolding every
  every-append [] t h k = k
  every-append (c ∷ s) t h k = ground (arith, every-append s t)

  every-reverse : (s : Text) → every p s ≡ true → every p (reverse s) ≡ true
  unfolding every
  every-reverse [] h = refl
  every-reverse (c ∷ s) h =
      let (q, k) = and-true {a = p c} {b = every p s} h in
      rw (reverse-cons c s) (every-append (reverse s) (c ∷ []) (every-reverse s k) (ground arith))

trim-plain : (s : Text) → every (λ c. not (is_space c)) s ≡ true → trim s ≡ s
unfolding trim drop_trailing
trim-plain s h =
    let q = every-reverse (λ c. not (is_space c)) s h in
    ap (λ t. reverse (drop_while is_space (reverse t))) (drop_while-plain is_space s h)
    ∙ ap reverse (drop_while-plain is_space (reverse s) q)
    ∙ reverse-reverse s

dot_first :
    (m : Text)
    → every (λ c. not (is_space c)) m ≡ true
    → every (λ c. not (is_space c)) (b'.' ∷ m) ≡ true
unfolding every is_space
dot_first m h = h

-- The parts of an admission.
admission_claims : Admission → Option AccessClaims
admission_claims unauthorized = none
admission_claims (admitted u c t) = some c

admission_user : Admission → Text
admission_user unauthorized = []
admission_user (admitted u c t) = u

admission_token : Admission → Text
admission_token unauthorized = []
admission_token (admitted u c t) = t

claims_user : Option AccessClaims → Text
claims_user none = []
claims_user (some c) = c.uid

refused : {u : Text} {c : AccessClaims} {t : Text} → unauthorized ≢ admitted u c t
unfolding admission_claims
refused h = let e = ap admission_claims h in cc

non_empty-append : (s t : Text) (c : ℕ) → non_empty (some (s ++ c ∷ t)) ≡ some (s ++ c ∷ t)
non_empty-append [] t c = refl
non_empty-append (d ∷ s) t c = refl

-- How a request carries a token: behind `Bearer ` in its `Authorization` header, or, without such a
-- header, in the query of an upgrade to a WebSocket.
pub data IsCarriedBy (token : Text) (req : AuthRequest) : Type 0 where
  in_header : req.authorization ≡ some (text "Bearer " ++ token) → IsCarriedBy token req
  in_query :
      starts_with (or_empty req.authorization) (text "Bearer ") ≡ false
      → lower (or_empty req.upgrade) ≡ text "websocket"
      → req.access_token ≡ some token
      → IsCarriedBy token req

module _ (crypto : Crypto) (secret : Text) (access_token_ttl : ℕ) where
  -- A request with a token in its `Authorization` header.
  bearer_lem :
      (token : Text) (req : AuthRequest)
      → req.authorization ≡ some (text "Bearer " ++ token)
      → every (λ c. not (is_space c)) token ≡ true
      → bearer_token req ≡ non_empty (some token)
  unfolding bearer_token text starts_with
  bearer_lem token req e h = rw (e, trim-plain token h) refl

  query_lem :
      (token : Text) (req : AuthRequest)
      → starts_with (or_empty req.authorization) (text "Bearer ") ≡ false
      → lower (or_empty req.upgrade) ≡ text "websocket"
      → req.access_token ≡ some token
      → bearer_token req ≡ some token
  unfolding bearer_token
  query_lem token req e u q =
      let t = ap (λ s. text_eq s (text "websocket")) u ∙ text_eq_refl (text "websocket") in
      rw (e, t) q

  signed_plain :
      (claims : AccessClaims) (now : ℕ)
      → every (λ c. not (is_space c)) (sign_access_token crypto claims secret access_token_ttl now)
        ≡ true
  unfolding sign_access_token
  signed_plain claims now =
      every-append (λ c. not (is_space c)) _ _ (crypto.encode_no_space _)
        (dot_first (crypto.mac _ secret) (crypto.mac_no_space _ secret))

  signed_some :
      (claims : AccessClaims) (now : ℕ)
      → let token = sign_access_token crypto claims secret access_token_ttl now in
        non_empty (some token) ≡ some token
  unfolding sign_access_token
  signed_some claims now = non_empty-append _ _ _

  admit_if :
      (token : Text) (claims : AccessClaims) (b : Bool)
      → admit crypto secret access_token_ttl token
          (if b then some (normal crypto secret claims) else none)
        ≡ (if b
            then admitted claims.uid (record claims { sid = non_empty claims.sid }) token
            else unauthorized)
  unfolding admit
  admit_if token claims true = refl
  admit_if token claims false = refl

  carried_lem :
      (claims : AccessClaims) (now : ℕ) (req : AuthRequest)
      → IsCarriedBy (sign_access_token crypto claims secret access_token_ttl now) req
      → bearer_token req ≡ some (sign_access_token crypto claims secret access_token_ttl now)
  carried_lem claims now req (in_header e) =
      bearer_lem _ req e (signed_plain claims now) ∙ signed_some claims now
  carried_lem claims now req (in_query e u q) = query_lem _ req e u q

  -- A request that carries a token that the server signed, behind "Bearer " in its Authorization
  -- header or, with no such header, as access_token in the query of an upgrade to a WebSocket, is
  -- admitted with the user and claims it was signed for, an empty session id as none, until the
  -- token expires, and is unauthorized from then on.
  pub admit_signed :
      (claims : AccessClaims) (now later : ℕ) (req : AuthRequest)
      → IsCarriedBy (sign_access_token crypto claims secret access_token_ttl now) req
      → auth_middleware crypto secret access_token_ttl req later ≡ (
          if ltb (later / 1000) (now / 1000 + access_token_ttl)
          then admitted claims.uid
              (record claims { sid = non_empty claims.sid })
              (sign_access_token crypto claims secret access_token_ttl now)
          else unauthorized)
  unfolding auth_middleware admit_token admit
  admit_signed claims now later req carried =
      let token = sign_access_token crypto claims secret access_token_ttl now in
      ap (λ o. admit_token crypto secret access_token_ttl (non_empty o) later)
        (carried_lem claims now req carried)
      ∙ ap (λ o. admit_token crypto secret access_token_ttl o later) (signed_some claims now)
      ∙ ap (admit crypto secret access_token_ttl token)
          (verify-sign crypto secret claims access_token_ttl now later)
      ∙ admit_if token claims (ltb (later / 1000) (now / 1000 + access_token_ttl))

  admitted_inj :
      (o : Option AccessClaims) (t : Text) (u : Text) (c : AccessClaims) (token : Text)
      → admit crypto secret access_token_ttl t o ≡ admitted u c token
      → (o ≡ some c) × (u ≡ c.uid) × (t ≡ token)
  unfolding admit admission_claims admission_user admission_token claims_user
  admitted_inj none t u c token h = absurd (refused h)
  admitted_inj (some d) t u c token h = (
    ap admission_claims h,
    sym (ap admission_user h) ∙ ap claims_user (ap admission_claims h),
    ap admission_token h,
  )

  from_bearer :
      (o : Option Text) (now : ℕ) (user_id : Text) (claims : AccessClaims) (token : Text)
      → admit_token crypto secret access_token_ttl (non_empty o) now ≡ admitted user_id claims token
      → (o ≡ some token)
        × (user_id ≡ claims.uid)
        × (verify_access_token crypto token secret now ≡ some claims)
  unfolding admit_token
  from_bearer none now u c token h = absurd (refused h)
  from_bearer (some []) now u c token h = absurd (refused h)
  from_bearer (some (d ∷ s)) now u c token h =
      let (v, e, t) =
        admitted_inj (verify_access_token crypto (d ∷ s) secret now) (d ∷ s) u c token h in
      (ap some t, e, ap (λ k. verify_access_token crypto k secret now) (sym t) ∙ v)

  -- A request is admitted only with the token that it carries, as the user of the token's claims,
  -- and only if that token ends with the MAC of its payload and the payload is an access token of
  -- that user that has not expired.
  pub admit_sound :
      (req : AuthRequest) (now : ℕ) (user_id : Text) (claims : AccessClaims) (token : Text)
      → auth_middleware crypto secret access_token_ttl req now ≡ admitted user_id claims token
      → (bearer_token req ≡ some token)
        × (user_id ≡ claims.uid)
        × IsSigned crypto secret token now claims
  unfolding auth_middleware
  admit_sound req now user_id claims token h =
      let (b, u, v) = from_bearer (bearer_token req) now user_id claims token h in
      (b, u, verify_sound crypto secret token now claims v)
