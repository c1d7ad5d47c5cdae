-- ===== src/Api/Proofs/Bodies.antt =====
-- Reading request bodies, and the guards that check them.
use opencode_rc.Common.{
  ℕ, ◌+◌, ◌≤◌, Bool, true, false, ◌||◌, List, [], ◌∷◌, ◌++◌, none, some, String, ◌≡◌, refl, sym, ap,
  subst, ◌∙◌, ◌≢◌, ◌⊎◌, inl, inr, arith, ltb, length, any, filter, In, if◌then◌else◌, Bool-cases,
  Option-cases, any_complete,
}
use opencode_rc.Json.{obj, Fields}
use opencode_rc.Api.Request.{
  Platform, Request, Vars, next, max_body_bytes, read_chunks, read_capped, JsonBody, json, not_json,
  too_large, parse_body, json_body,
}
use opencode_rc.Api.Rules.{
  BlockedRoute, BodyRule, is_blocked, is_matched, check_rules, body_rule_guard,
}

-- The bytes of a stream.
unfoldable pub concat : List (List ℕ) → List ℕ
concat [] = []
concat (c ∷ cs) = c ++ concat cs

length-append : (xs ys : List ℕ) → length (xs ++ ys) ≡ length xs + length ys
length-append [] ys = omega arith
length-append (x ∷ xs) ys = omega (arith, length-append xs ys)

read_chunks-eq :
    (total : ℕ) (chunks : List (List ℕ))
    → total ≤ max_body_bytes
    → read_chunks total chunks
      ≡ (if ltb max_body_bytes (total + length (concat chunks)) then none else some (concat chunks))
unfolding read_chunks concat
read_chunks-eq total [] h = ground arith
read_chunks-eq total (c ∷ cs) h = elim (Bool-cases (ltb max_body_bytes (total + length c))) [
  | inl over ↦ rw over (ground (arith, length-append c (concat cs)))
  | inr fits ↦ rw fits (
      ground
        (arith, length-append c (concat cs), read_chunks-eq (total + length c) cs (ground arith)))
]

-- A declared length above the limit.
abbrev pub declares_too_much : Request → Bool
declares_too_much req = elim req.content_length [ none ↦ false | some n ↦ ltb max_body_bytes n ]

-- A body is read whole, exactly when neither its declared length nor its bytes pass the limit.
pub read_capped_lem :
    (req : Request)
    → read_capped req ≡ (
        if declares_too_much req || ltb max_body_bytes (length (concat req.chunks))
        then none
        else some (concat req.chunks))
unfolding read_capped
read_capped_lem req =
    ground (arith, read_chunks-eq 0 req.chunks (omega arith), Option-cases req.content_length)

-- The variables after a guard that may have read the body: a body that was there is kept, and one
-- that was not there is now the request's bytes.
pub record IsKept (req : Request) (v v' : Vars) : Type 0 where
  pub old : (bytes : List ℕ) → v.body ≡ some bytes → v'.body ≡ some bytes
  pub new : v.body ≡ none → (v'.body ≡ none) ⊎ (v'.body ≡ some (concat req.chunks))

pub IsKept-refl : (req : Request) (v : Vars) → IsKept req v v
IsKept-refl req v = record { old = λ bytes e. e; new = λ e. inl e }

-- What `jsonBody` answers comes from the bytes that it leaves in the variables.
json_body-parse_body :
    (p : Platform) (req : Request) (v : Vars)
    → ((json_body p req v).0 ≡ too_large)
      ⊎ ((bytes : List ℕ) × ((json_body p req v).1.body ≡ some bytes)
          × ((json_body p req v).0 ≡ parse_body p bytes))
unfolding json_body
json_body-parse_body p req v = elim (Option-cases v.body) [
  | inr (bytes, e) ↦ rw (e, json_body) (inr (bytes, e, refl))
  | inl e ↦ elim (Option-cases (read_capped req)) [
    | inl f ↦ rw (e, f, json_body) (inl refl)
    | inr (bytes, f) ↦ rw (e, f, json_body) (inr (bytes, refl, refl))
  ]
]

json_body-IsKept : (p : Platform) (req : Request) (v : Vars) → IsKept req v (json_body p req v).1
unfolding json_body
json_body-IsKept p req v = record {
  old = λ b g. ground arith;
  new = λ g. ground (arith, read_capped_lem req);
}

In-filter :
    (p : BodyRule → Bool) (rules : List BodyRule) {r : BodyRule}
    → In r rules
    → p r ≡ true
    → In r (filter p rules)
unfolding filter
In-filter p [] m h = elim m [ ]
In-filter p (q ∷ rules) (inl e) h = rw (← e, h) (inl refl)
In-filter p (q ∷ rules) (inr m) h = elim (Bool-cases (p q)) [
  | inl t ↦ rw t (inr (In-filter p rules m h))
  | inr f ↦ rw f (In-filter p rules m h)
]

-- No rule of the list denies the object that the bytes hold.
abbrev pub Allows : Platform → BodyRule → List ℕ → Type 0
Allows p r bytes = (fs : Fields) → parse_body p bytes ≡ json (some (obj fs)) → r.denies fs ≡ false

any-false :
    (p : BodyRule → Bool) (rules : List BodyRule) {r : BodyRule}
    → any p rules ≡ false
    → In r rules
    → p r ≡ false
any-false p rules {r} h m = elim (Bool-cases (p r)) [
  | inl t ↦ cc (any_complete p rules m t)
  | inr f ↦ f
]

-- When the matching rules let a body pass, its variables are unchanged and no rule denies it.
check_rules_sound :
    (message : String) (matched : List BodyRule) (body : JsonBody) (v v' : Vars)
    → check_rules message matched body v ≡ next v'
    → (v ≡ v')
      × (body ≢ too_large)
      × ((r : BodyRule)
          → In r matched
          → (fs : Fields) → body ≡ json (some (obj fs))
          → r.denies fs ≡ false)
unfolding check_rules
check_rules_sound message matched too_large v v' h = cc
check_rules_sound message matched not_json v v' h = cc
check_rules_sound message matched (json none) v v' h = (ground arith, (λ e. cc), λ r m fs e. cc)
check_rules_sound message matched (json (some (obj gs))) v v' h =
    elim (Bool-cases (any (λ (r : BodyRule). r.denies gs) matched)) [
      | inl t ↦ cc (rw t at h)
      | inr f ↦ (
        ground arith,
        (λ e. cc),
        λ r m fs e. rw (fields_of e) at (any-false (λ q. q.denies gs) matched f m),
      )
    ]
  where
    fields_of : {fs gs : Fields} → json (some (obj gs)) ≡ json (some (obj fs)) → gs ≡ fs
    fields_of e = cc
check_rules_sound message matched (json (some j)) v v' h = (ground arith, (λ e. cc), λ r m fs e. cc)

-- What a guard with body rules guarantees of a request that it lets pass.
pub record IsChecked (p : Platform) (rules : List BodyRule) (blocked : List BlockedRoute)
    (req : Request) (v v' : Vars) : Type 0 where
  pub unblocked : any (is_blocked req) blocked ≡ false
  pub kept : IsKept req v v'
  pub allowed :
      (r : BodyRule)
      → In r rules
      → is_matched req r ≡ true
      → (bytes : List ℕ) × (v'.body ≡ some bytes) × Allows p r bytes

module _ (p : Platform) (message : String) (rules : List BodyRule) (req : Request)
    (v v' : Vars) where
  matched_sound :
      (matched : List BodyRule)
      → check_rules message matched (json_body p req v).0 (json_body p req v).1 ≡ next v'
      → IsKept req v v'
        × ((r : BodyRule)
            → In r matched
            → (bytes : List ℕ) × (v'.body ≡ some bytes) × Allows p r bytes)
  matched_sound matched h =
      let (same, fits, sound) = check_rules_sound message matched _ _ v' h in
      (
        subst (λ w. IsKept req v w) same (json_body-IsKept p req v),
        λ r m. elim (json_body-parse_body p req v) [
          | inl large ↦ absurd (fits large)
          | inr (bytes, e, f) ↦
              (bytes, ap (λ (w : Vars). w.body) (sym same) ∙ e, λ fs g. sound r m fs (f ∙ g))
        ],
      )

-- A guard of body rules lets a request pass only if no blocked route matches it, and for each
-- matching rule the proxy holds the bytes that the rule was checked on and did not deny.
pub body_rule_guard-IsChecked :
    (p : Platform) (message : String) (rules : List BodyRule) (blocked : List BlockedRoute)
    (req : Request) (v v' : Vars)
    → body_rule_guard p message rules blocked req v ≡ next v'
    → IsChecked p rules blocked req v v'
unfolding body_rule_guard
body_rule_guard-IsChecked p message rules blocked req v v' h =
    elim (Bool-cases (any (is_blocked req) blocked)) [
      | inl t ↦ cc (rw t at h)
      | inr f ↦ go f (filter (is_matched req) rules) refl (rw f at h)
    ]
  where
    go :
        any (is_blocked req) blocked ≡ false
        → (matched : List BodyRule) → filter (is_matched req) rules ≡ matched
        → elim matched [
          | [] ↦ next v
          | r ∷ rs ↦ check_rules message (r ∷ rs) (json_body p req v).0 (json_body p req v).1
        ]
          ≡ next v'
        → IsChecked p rules blocked req v v'
    go f [] e k = record {
      unblocked = f;
      kept = subst (λ w. IsKept req v w) (ground arith) (IsKept-refl req v);
      allowed = λ r m t. absurd (rw e at (In-filter (is_matched req) rules m t));
    }
    go f (q ∷ qs) e k =
        let (kept, sound) = matched_sound p message rules req v v' (q ∷ qs) k in
        record {
          unblocked = f;
          kept = kept;
          allowed = λ r m t. sound r (rw e at (In-filter (is_matched req) rules m t));
        }
