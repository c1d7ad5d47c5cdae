-- ===== src/Api/Proofs/Chains.antt =====
-- What a chain of guards guarantees of a request that it lets pass.
use mathlib.Core.Option.{some-injective}
use opencode_rc.Common.{
  Bool, true, false, List, [], ◌∷◌, Text, Option, some, String, str_eq, ◌≡◌, refl, sym, subst, inl,
  inr, arith, any, In, if◌then◌else◌, Bool-cases, Option-cases, not, ◌&&◌,
}
use opencode_rc.Json.{Json}
use opencode_rc.Config.{FeatureName}
use opencode_rc.Api.Paths.{proxy_rest, canonical_path, trim_slashes}
use opencode_rc.Api.Request.{
  Platform, Request, Vars, Guard, Verdict, next, deny, Reply, ◌>>=◌, every_guard,
}
use opencode_rc.Api.Rules.{BlockedRoute, BodyRule, block_guard, body_rule_guard}
use opencode_rc.Api.V1.Routes.{read_method, check_v1_api, v1_api_guard}
use opencode_rc.Api.V1.Never.{never_routes, is_never, v1_never_guard}
use opencode_rc.Api.V1.Secrets.{provider_secrets_strip, provider_secrets_guard}
use opencode_rc.Api.V1.Toggles.{
  is_terminal_path, feature_guard, download_rules, raw_part_routes, upload_guard, download_guard,
  terminal_guard, shell_guard, config_guard,
}
use opencode_rc.Api.Guards.{has_plain_path, plain_path_guard, active_guards}
use opencode_rc.Api.Proofs.Bodies.{concat, IsKept, IsKept-refl, body_rule_guard-IsChecked}

pub IsKept-trans : (req : Request) (u v w : Vars) → IsKept req u v → IsKept req v w → IsKept req u w
IsKept-trans req u v w a b = record {
  old = λ bytes e. b.old bytes (a.old bytes e);
  new = λ e. elim (a.new e) [ inl f ↦ b.new f | inr f ↦ inr (b.old (concat req.chunks) f) ];
}

-- A guard that keeps the body on the requests that it lets pass.
abbrev pub Keeps : Guard → Type 0
Keeps g = (req : Request) (v v' : Vars) → g req v ≡ next v' → IsKept req v v'

abbrev pub AllKeep : List Guard → Type 0
AllKeep [] = Unit
AllKeep (g ∷ gs) = Keeps g × AllKeep gs

pub next_inj : {v w : Vars} → next v ≡ next w → v ≡ w
next_inj e = cc

pub IsKept-of : (req : Request) {v w : Vars} → next v ≡ next w → IsKept req v w
IsKept-of req {v} e = subst (λ u. IsKept req v u) (next_inj e) (IsKept-refl req v)

-- A step of a chain that lets a request pass.
pub >>=-next :
    (m : Verdict) (k : Vars → Verdict) (v' : Vars)
    → (m >>= k) ≡ next v'
    → (w : Vars) × (m ≡ next w) × (k w ≡ next v')
>>=-next (next w) k v' h = (w, refl, h)
>>=-next (deny r) k v' h = cc

-- The guard `g` let the request pass, and what it read of the body is what is left at the end.
abbrev pub Passed : Guard → Request → Vars → Type 0
Passed g req v' = (w : Vars) × (w' : Vars) × (g req w ≡ next w') × IsKept req w' v'

pub every_guard_sound :
    (gs : List Guard) (req : Request) (v v' : Vars)
    → AllKeep gs
    → every_guard gs req v ≡ next v'
    → IsKept req v v' × ((g : Guard) → In g gs → Passed g req v')
unfolding every_guard
every_guard_sound [] req v v' k h = (IsKept-of req h, λ g m. elim m [ ])
every_guard_sound (f ∷ gs) req v v' (k, ks) h =
    let (w, first, rest) = >>=-next (f req v) (every_guard gs req) v' h in
    let (kept, passed) = every_guard_sound gs req w v' ks rest in
    (
      IsKept-trans req v w v' (k req v w first) kept,
      λ g m. elim m [
        | inl e ↦ (v, w, subst (λ (q : Guard). q req v ≡ next w) (sym e) first, kept)
        | inr n ↦ passed g n
      ],
    )

-- A guard that only lets a request pass as it is, or refuses it.
pub test_keeps :
    (b : Bool) (r : Reply) (req : Request) (v v' : Vars)
    → (if b then deny r else next v) ≡ next v'
    → (b ≡ false) × IsKept req v v'
test_keeps true r req v v' h = cc
test_keeps false r req v v' h = (refl, IsKept-of req h)

pub plain_path_guard_sound :
    (r : Reply) (req : Request) (v v' : Vars)
    → plain_path_guard r req v ≡ next v'
    → ((not (str_eq req.method "GET") && not (str_eq req.method "HEAD") && not (has_plain_path req))
        ≡ false)
      × IsKept req v v'
unfolding plain_path_guard
plain_path_guard_sound r req v v' h = test_keeps _ r req v v' h

pub check_v1_api-keeps :
    (m : String) (path : Text) (req : Request) (v v' : Vars)
    → check_v1_api m path v ≡ next v'
    → IsKept req v v'
unfolding check_v1_api
check_v1_api-keeps m path req v v' h = IsKept-of req (ground arith)

pub v1_api_guard-Keeps : Keeps v1_api_guard
unfolding v1_api_guard
v1_api_guard-Keeps req v v' h =
    elim (Option-cases (canonical_path (proxy_rest req.path req.session_id))) [
      | inl e ↦ cc (rw e at h)
      | inr (path, e) ↦ check_v1_api-keeps (read_method req.method) path req v v' (rw e at h)
    ]

pub v1_never_guard_sound :
    (req : Request) (v v' : Vars)
    → v1_never_guard req v ≡ next v'
    → IsKept req v v'
      × (path : Text) × (canonical_path (proxy_rest req.path req.session_id) ≡ some path)
      × (any (is_never (read_method req.method) (trim_slashes path)) never_routes ≡ false)
unfolding v1_never_guard
v1_never_guard_sound req v v' h =
    elim (Option-cases (canonical_path (proxy_rest req.path req.session_id))) [
      | inl e ↦ cc (rw e at h)
      | inr (path, e) ↦
          let (clear, kept) = test_keeps _ _ req v v' (rw e at h) in (kept, path, e, clear)
    ]

pub provider_secrets_guard-Keeps : Keeps provider_secrets_guard
unfolding provider_secrets_guard
provider_secrets_guard-Keeps req v v' h =
    elim (Option-cases (provider_secrets_strip (proxy_rest req.path req.session_id) req.method)) [
      | inl e ↦ IsKept-of req (rw e at h)
      | inr (strip, e) ↦ kept (next_inj (rw e at h))
    ]
  where
    kept : {f : Option (Json → Json)} → record v { rewrite_json = f } ≡ v' → IsKept req v v'
    kept e = subst (λ u. IsKept req v u) e (record { old = λ bytes k. k; new = λ k. inl k })

of_some : {f g : Guard} → some f ≡ some g → Keeps f → Keeps g
of_some {f} {g} e k = subst (λ (q : Guard). Keeps q) (some-injective f g e) k

module _ (p : Platform) where
  body_rule_guard-Keeps :
      (m : String) (rules : List BodyRule) (blocked : List BlockedRoute)
      → Keeps (body_rule_guard p m rules blocked)
  body_rule_guard-Keeps m rules blocked req v v' h =
      (body_rule_guard-IsChecked p m rules blocked req v v' h).kept

  pub terminal_guard_sound :
      (req : Request) (v v' : Vars)
      → terminal_guard p req v ≡ next v'
      → (is_terminal_path (proxy_rest req.path req.session_id) ≡ false) × IsKept req v v'
  unfolding terminal_guard
  terminal_guard_sound req v v' h = test_keeps _ _ req v v' h

  download_guard-Keeps : Keeps (download_guard p)
  unfolding download_guard
  download_guard-Keeps req v v' h =
      elim (Bool-cases (not (str_eq req.method "GET") && not (str_eq req.method "HEAD"))) [
        | inl t ↦
            body_rule_guard-Keeps "file downloads are disabled" (download_rules p) raw_part_routes
              req v v' (rw t at h)
        | inr f ↦ (test_keeps _ _ req v v' (rw f at h)).1
      ]

  feature_guard-Keeps : (name : FeatureName) (g : Guard) → feature_guard p name ≡ some g → Keeps g
  unfolding feature_guard upload_guard shell_guard config_guard block_guard
  feature_guard-Keeps FeatureName.uploads g e = of_some e (body_rule_guard-Keeps _ _ _)
  feature_guard-Keeps FeatureName.downloads g e = of_some e download_guard-Keeps
  feature_guard-Keeps FeatureName.terminal g e =
      of_some e (λ req v v' h. (terminal_guard_sound req v v' h).1)
  feature_guard-Keeps FeatureName.shell g e = of_some e (body_rule_guard-Keeps _ _ _)
  feature_guard-Keeps FeatureName.export g e = cc
  feature_guard-Keeps FeatureName.share g e = of_some e (body_rule_guard-Keeps _ _ _)
  feature_guard-Keeps FeatureName.config g e = of_some e (body_rule_guard-Keeps _ _ _)
  feature_guard-Keeps FeatureName.mcp g e = of_some e (λ req v v' h. (test_keeps _ _ req v v' h).1)

  pub active_guards-AllKeep :
      (enabled : FeatureName → Bool) (names : List FeatureName)
      → AllKeep (active_guards p enabled names)
  unfolding active_guards
  active_guards-AllKeep enabled [] = tt
  active_guards-AllKeep enabled (name ∷ names) = elim (Bool-cases (enabled name)) [
    | inl t ↦ rw t (active_guards-AllKeep enabled names)
    | inr f ↦ rw f (elim (Option-cases (feature_guard p name)) [
      | inl e ↦ rw e (active_guards-AllKeep enabled names)
      | inr (g, e) ↦ rw e (feature_guard-Keeps name g e, active_guards-AllKeep enabled names)
    ])
  ]

  pub active_guards-In :
      (enabled : FeatureName → Bool) (names : List FeatureName) (name : FeatureName) (g : Guard)
      → In name names
      → enabled name ≡ false
      → feature_guard p name ≡ some g
      → In g (active_guards p enabled names)
  unfolding active_guards
  active_guards-In enabled [] name g m off e = elim m [ ]
  active_guards-In enabled (n ∷ names) name g (inl same) off e = rw (← same, off, e) (inl refl)
  active_guards-In enabled (n ∷ names) name g (inr m) off e =
      let later = active_guards-In enabled names name g m off e in
      elim (Bool-cases (enabled n)) [
        | inl t ↦ rw t later
        | inr f ↦ rw f (elim (Option-cases (feature_guard p n)) [
          | inl k ↦ rw k later
          | inr (q, k) ↦ rw k (inr later)
        ])
      ]
