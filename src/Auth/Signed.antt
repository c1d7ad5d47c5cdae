-- ===== src/Auth/Signed.antt =====
-- Signing and verifying access tokens (`signAccessToken` and `verifyAccessToken` of token.ts).
use opencode_rc.Common.{
  ℕ, zero, suc, ◌+◌, ◌/◌, ◌<◌, true, Text, text, text_eq, text_eq_iff, text_eq_refl, [], ◌∷◌, ◌++◌,
  Option, none, some, Option-cases, Bool-cases, ◌≡◌, ◌≢◌, refl, sym, ap, subst, ◌∙◌, inl, inr,
  arith, ◌==◌, ==_iff, not, leb, ltb, length, take, drop, every, if◌then◌else◌,
}
use mathlib.Core.Option.{some-injective}
use opencode_rc.Tokens.{AccessClaims}
use opencode_rc.Auth.AccessToken.{
  AccessPayload, Crypto, last_index_of, non_empty, sign_access_token, checked_claims,
  payload_claims, verify_parts, verify_at, verify_access_token,
}

-- The dot of a token.
none_after :
    (sep : ℕ) (s : Text) → every (λ c. not (c == sep)) s ≡ true → last_index_of sep s ≡ none
unfolding last_index_of every
none_after sep [] h = refl
none_after sep (c ∷ s) h = ground (arith, none_after sep s)

last_index_of-append :
    (sep : ℕ) (p m : Text)
    → every (λ c. not (c == sep)) m ≡ true
    → last_index_of sep (p ++ sep ∷ m) ≡ some (length p)
unfolding last_index_of
last_index_of-append sep [] m h = let e = none_after sep m h in ground (arith, ==_iff sep sep)
last_index_of-append sep (c ∷ p) m h = let e = last_index_of-append sep p m h in ground arith

take-append : (p m : Text) → take (length p) (p ++ m) ≡ p
take-append [] m = refl
take-append (c ∷ p) m = ap (λ s. c ∷ s) (take-append p m)

drop-append : (sep : ℕ) (p m : Text) → drop (suc (length p)) (p ++ sep ∷ m) ≡ m
drop-append sep [] m = refl
drop-append sep (c ∷ p) m = drop-append sep p m

none-some : {A : Type 0} {a : A} → none ≢ some a
none-some h = cc

first_found : (sep c n : ℕ) → (if c == sep then some 0 else none) ≡ some n → (n ≡ 0) × (c ≡ sep)
first_found sep c n h = elim (Bool-cases (c == sep)) [
  | inl t ↦ (sym (some-injective 0 n (rw t at h)), (==_iff c sep).0 t)
  | inr f ↦ let g = rw f at h in absurd (ground arith)
]

-- A text around the last one of a character in it.
last_index_of_sound :
    (sep : ℕ) (s : Text) (n : ℕ)
    → last_index_of sep s ≡ some n
    → s ≡ take n s ++ sep ∷ drop (suc n) s
unfolding last_index_of
last_index_of_sound sep [] n h = cc
last_index_of_sound sep (c ∷ s) n h = elim (Option-cases (last_index_of sep s)) [
  | inl e ↦
      let (z, here) = first_found sep c n (rw e at h) in
      subst (λ k. c ∷ s ≡ take k (c ∷ s) ++ sep ∷ drop k s) (sym z) (ap (λ d. d ∷ s) here)
  | inr (m, e) ↦
      let k = some-injective (suc m) n (rw e at h) in
      subst (λ k. c ∷ s ≡ take k (c ∷ s) ++ sep ∷ drop k s) k
        (ap (λ t. c ∷ t) (last_index_of_sound sep s m e))
]

module _ (crypto : Crypto) (secret : Text) where
  -- The claims of a token, as it gives them back.
  abbrev pub normal : AccessClaims → AccessClaims
  normal claims = record claims { sid = non_empty claims.sid }

  non_empty_twice : (o : Option Text) → non_empty (non_empty o) ≡ non_empty o
  non_empty_twice none = refl
  non_empty_twice (some []) = refl
  non_empty_twice (some (c ∷ s)) = refl

  cut :
      (payload : Text) (now : ℕ)
      → payload ≢ []
      → verify_access_token crypto (payload ++ b'.' ∷ crypto.mac payload secret) secret now
        ≡ payload_claims crypto (crypto.decode payload) now
  unfolding verify_access_token verify_at verify_parts
  cut [] now ne = absurd (ne refl)
  cut (c ∷ s) now ne =
      let m = crypto.mac (c ∷ s) secret in
      let token = (c ∷ s) ++ b'.' ∷ m in
      ap (λ o. verify_at crypto o token secret now)
        (last_index_of-append b'.' (c ∷ s) m (crypto.mac_no_dot (c ∷ s) secret))
      ∙ rw (take-append s (b'.' ∷ m), drop-append b'.' s m, text_eq_refl m) refl

  -- A token that was signed gives back its claims before it expires, and nothing from then on.
  pub verify-sign :
      (claims : AccessClaims) (ttl_seconds now later : ℕ)
      → verify_access_token crypto
          (sign_access_token crypto claims secret ttl_seconds now)
          secret
          later
        ≡ (if ltb (later / 1000) (now / 1000 + ttl_seconds) then some (normal claims) else none)
  unfolding sign_access_token payload_claims checked_claims
  verify-sign claims ttl_seconds now later =
      cut _ later (crypto.encode-ne-nil _)
      ∙ ap (λ o. payload_claims crypto o later) (crypto.decode-encode _)
      ∙ rw non_empty_twice (ground (arith, text_eq_refl (text "access")))

  -- A text with the MAC of its payload, which is an access token of the claims' user and has not
  -- expired.
  pub record IsSigned (token : Text) (now : ℕ) (claims : AccessClaims) : Type 0 where
    pub payload : Text
    pub body : AccessPayload
    pub exp : ℕ
    pub whole : token ≡ payload ++ b'.' ∷ crypto.mac payload secret
    pub decodes : crypto.decode payload ≡ some body
    pub access : body.typ ≡ some (text "access")
    pub user : body.uid ≡ some claims.uid
    pub expires : body.exp ≡ some exp
    pub lasts : now / 1000 < exp

  checked_sound :
      (typ uid : Option Text) (exp : Option ℕ) (body : AccessPayload) (now : ℕ)
      (claims : AccessClaims)
      → checked_claims crypto typ uid exp body now ≡ some claims
      → (typ ≡ some (text "access"))
        × (uid ≡ some claims.uid)
        × (x : ℕ) × (exp ≡ some x)
        × (now / 1000 < x)
  unfolding checked_claims
  checked_sound (some t) (some u) (some x) body now claims h =
      elim (Bool-cases (text_eq t (text "access"))) [
        | inr f ↦ let g = rw f at h in absurd (none-some g)
        | inl e ↦ elim (Bool-cases (leb x (now / 1000))) [
          | inl l ↦ let g = rw (e, l) at h in absurd (none-some g)
          | inr l ↦
              let g = rw (e, l) at h in
              (
                ap some ((text_eq_iff t (text "access")).0 e),
                ap (λ (c : AccessClaims). some c.uid) (some-injective _ claims g),
                x,
                refl,
                ground arith,
              )
        ]
      ]
  checked_sound none uid exp body now claims h = absurd (none-some h)
  checked_sound (some t) none exp body now claims h = absurd (none-some h)
  checked_sound (some t) (some u) none body now claims h = absurd (none-some h)

  verify_parts_sound :
      (payload got : Text) (now : ℕ) (claims : AccessClaims)
      → verify_parts crypto payload got secret now ≡ some claims
      → (got ≡ crypto.mac payload secret)
        × (body : AccessPayload) × (crypto.decode payload ≡ some body)
        × (checked_claims crypto body.typ body.uid body.exp body now ≡ some claims)
  unfolding verify_parts payload_claims
  verify_parts_sound payload got now claims h =
      elim (Bool-cases (text_eq got (crypto.mac payload secret))) [
        | inr f ↦ absurd (none-some (rw f at h))
        | inl t ↦ elim (Option-cases (crypto.decode payload)) [
          | inl e ↦ absurd (none-some (rw (t, e) at h))
          | inr (body, e) ↦
              ((text_eq_iff got (crypto.mac payload secret)).0 t, body, e, rw (t, e) at h)
        ]
      ]

  at_dot :
      (token : Text) (n now : ℕ) (claims : AccessClaims)
      → last_index_of b'.' token ≡ some n
      → verify_at crypto (some n) token secret now ≡ some claims
      → (payload : Text) × (got : Text) × (token ≡ payload ++ b'.' ∷ got)
        × (verify_parts crypto payload got secret now ≡ some claims)
  unfolding verify_at
  at_dot token zero now claims e h = absurd (none-some h)
  at_dot token (suc n) now claims e h =
      (take (suc n) token, drop (suc (suc n)) token, last_index_of_sound b'.' token (suc n) e, h)

  verify_at_sound :
      (token : Text) (now : ℕ) (claims : AccessClaims)
      → verify_access_token crypto token secret now ≡ some claims
      → (payload : Text) × (got : Text) × (token ≡ payload ++ b'.' ∷ got)
        × (verify_parts crypto payload got secret now ≡ some claims)
  unfolding verify_access_token verify_at
  verify_at_sound token now claims h = elim (Option-cases (last_index_of b'.' token)) [
    | inl e ↦ absurd (none-some (sym (ap (λ o. verify_at crypto o token secret now) e) ∙ h))
    | inr (n, e) ↦
        at_dot token n now claims e (sym (ap (λ o. verify_at crypto o token secret now) e) ∙ h)
  ]

  -- Every token that is accepted carries the MAC of its payload, which is one of the user's access
  -- token, and has not expired.
  pub verify_sound :
      (token : Text) (now : ℕ) (claims : AccessClaims)
      → verify_access_token crypto token secret now ≡ some claims
      → IsSigned token now claims
  verify_sound token now claims h =
      let (payload, got, e, p) = verify_at_sound token now claims h in
      let (m, body, d, c) = verify_parts_sound payload got now claims p in
      let (t, u, x, xe, lt) = checked_sound body.typ body.uid body.exp body now claims c in
      record {
        payload = payload;
        body = body;
        exp = x;
        whole = e ∙ ap (λ g. payload ++ b'.' ∷ g) m;
        decodes = d;
        access = t;
        user = u;
        expires = xe;
        lasts = lt;
      }
