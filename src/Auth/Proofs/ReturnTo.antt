-- ===== src/Auth/Proofs/ReturnTo.antt =====
-- Where a sign-in returns to (`validateReturnTo`).
use mathlib.Core.Option.{some-injective}
use opencode_rc.Common.{
  ℕ, Bool, true, false, Text, text, text_eq, includes, starts_with, split, push, any, ◌==◌, [], ◌∷◌,
  ◌++◌, List, Option, none, some, Bool-cases, inl, inr, ◌⊎◌, ◌≡◌, ◌≢◌, refl, sym, ap, ◌∙◌, arith,
}
use opencode_rc.Auth.Origins.{
  Url, UrlParser, app_origins, path_base, has_unsafe_chars, without_fragment, origin_of,
  return_path, return_origin, return_checked, validate_return_to,
}

none-some : {A : Type 0} {a : A} → none ≢ some a
none-some h = cc

first_part : List Text → Text
first_part [] = []
first_part (p ∷ ps) = p

first_part-push : (c : ℕ) (parts : List Text) → first_part (push c parts) ≡ c ∷ first_part parts
unfolding first_part push
first_part-push c [] = refl
first_part-push c (p ∷ ps) = refl

any-first_part :
    (p : ℕ → Bool) (sep : ℕ) (s : Text) → any p s ≡ false → any p (first_part (split sep s)) ≡ false
unfolding any split first_part
any-first_part p sep [] h = refl
any-first_part p sep (c ∷ s) h = elim (Bool-cases (c == sep)) [
  | inl t ↦ rw t refl
  | inr f ↦ rw (f, first_part-push c (split sep s)) (let r = any-first_part p sep s in ground arith)
]

without_fragment_lem : (s : Text) → without_fragment s ≡ first_part (split b'#' s)
unfolding without_fragment first_part
without_fragment_lem s =
    elim (split b'#' s)
      as (λ x. (elim x as (λ y. Text) [ [] ↦ [] | part ∷ parts ↦ part ]) ≡ first_part x) [
        | [] ↦ refl
        | part ∷ parts ↦ refl
      ]

-- A slash that no second one follows.
slash_path :
    (path search : Text)
    → starts_with path (text "/") ≡ true
    → starts_with path (text "//") ≡ false
    → (search ≡ []) ⊎ (starts_with search (text "?") ≡ true)
    → (starts_with (path ++ search) (text "/") ≡ true)
      × (starts_with (path ++ search) (text "//") ≡ false)
unfolding starts_with text
slash_path [] search a b c = absurd cc
slash_path (d ∷ []) [] a b c = (a, b)
slash_path (d ∷ []) (q ∷ s) a b (inl n) = absurd cc
slash_path (d ∷ []) (q ∷ s) a b (inr m) = (a, ground arith)
slash_path (d ∷ e ∷ path) search a b c = (a, b)

module _ (parser : UrlParser) (is_allowed : Text → Bool) where
  -- A path of the web client's own origin.
  pub record IsOwnPath (s : Text) : Type 0 where
    pub slash : starts_with s (text "/") ≡ true
    pub single : starts_with s (text "//") ≡ false

  -- An address of an allowed origin that is none of the app's.
  pub record IsAllowed (s : Text) : Type 0 where
    pub origin : Text
    pub has_origin : origin_of parser s ≡ some origin
    pub allowed : is_allowed origin ≡ true
    pub not_app : includes app_origins origin ≡ false
    pub safe : has_unsafe_chars s ≡ false

  root : (s : Text) → text "/" ≡ s → IsOwnPath s
  unfolding text starts_with
  root s e = record {
    slash = ap (λ x. starts_with x (text "/")) (sym e);
    single = ap (λ x. starts_with x (text "//")) (sym e);
  }

  still_safe :
      (v : Text) → has_unsafe_chars v ≡ false → has_unsafe_chars (without_fragment v) ≡ false
  unfolding has_unsafe_chars
  still_safe v h = rw (without_fragment_lem v) (any-first_part _ b'#' v h)

  return_path_sound :
      (v s : Text) (o : Option Url)
      → parser.parse_path v ≡ o
      → return_path parser is_allowed o ≡ some s
      → IsOwnPath s
  unfolding return_path
  return_path_sound v s none e h = absurd (none-some h)
  return_path_sound v s (some u) e h = elim (Bool-cases (text_eq u.origin path_base)) [
    | inr f ↦ absurd (none-some (rw f at h))
    | inl t ↦ elim (Bool-cases (starts_with u.pathname (text "//"))) [
      | inl d ↦ absurd (none-some (rw (t, d) at h))
      | inr d ↦
          let whole = some-injective (u.pathname ++ u.search) s (rw (t, d) at h) in
          let (a, b) =
            slash_path u.pathname u.search (parser.pathname_slash v u e t) d
              (parser.search_shape v u e) in
          record {
            slash = ap (λ x. starts_with x (text "/")) (sym whole) ∙ a;
            single = ap (λ x. starts_with x (text "//")) (sym whole) ∙ b;
          }
    ]
  ]

  return_origin_sound :
      (v s : Text) (o : Option Text)
      → origin_of parser v ≡ o
      → has_unsafe_chars v ≡ false
      → return_origin parser is_allowed v o ≡ some s
      → IsAllowed s
  unfolding return_origin
  return_origin_sound v s none e u h = absurd (none-some h)
  return_origin_sound v s (some origin) e u h = elim (Bool-cases (text_eq origin [])) [
    | inl t ↦ absurd (none-some (rw t at h))
    | inr f ↦ elim (Bool-cases (includes app_origins origin)) [
      | inl t ↦ absurd (none-some (rw (f, t) at h))
      | inr g ↦ elim (Bool-cases (is_allowed origin)) [
        | inr n ↦ absurd (none-some (rw (f, g, n) at h))
        | inl y ↦
            let whole = some-injective v s (rw (f, g, y) at h) in
            record {
              origin = origin;
              has_origin = ap (origin_of parser) (sym whole) ∙ e;
              allowed = y;
              not_app = g;
              safe = ap has_unsafe_chars (sym whole) ∙ u;
            }
      ]
    ]
  ]

  -- Where a sign-in may return to is a path with one leading slash, or an address without control
  -- characters and backslashes whose origin is allowed and none of the app's.
  pub validate_return_to_sound :
      (return_to : Option Text) (s : Text)
      → validate_return_to parser is_allowed return_to ≡ some s
      → IsOwnPath s ⊎ IsAllowed s
  unfolding validate_return_to return_checked
  validate_return_to_sound none s h = inl (root s (some-injective _ s h))
  validate_return_to_sound (some []) s h = inl (root s (some-injective _ s h))
  validate_return_to_sound (some (c ∷ v)) s h = elim (Bool-cases (has_unsafe_chars (c ∷ v))) [
    | inl t ↦ absurd (none-some (rw t at h))
    | inr f ↦
        let w = without_fragment (c ∷ v) in
        let k : return_checked parser is_allowed w ≡ some s = rw f at h in
        elim (Bool-cases (starts_with w (text "/"))) [
          | inl t ↦ inl (return_path_sound w s (parser.parse_path w) refl (rw t at k))
          | inr n ↦
              inr (
                return_origin_sound w s (origin_of parser w) refl (still_safe (c ∷ v) f)
                  (rw n at k))
        ]
  ]
