-- ===== src/Api/Proofs/Writes.antt =====
-- What the guards of disabled features guarantee of a write to a 1.x session.
use mathlib.Core.Option.{some-injective}
use opencode_rc.Common.{
  String, ℕ, Bool, true, false, List, [], some, ◌≡◌, refl, sym, subst, any, In,
}
use opencode_rc.Config.{
  RcConfig, FeatureName, uploads, downloads, terminal, shell, export, share, config, mcp,
}
use opencode_rc.Api.Paths.{proxy_rest}
use opencode_rc.Api.Request.{Platform, Request, Vars, Guard, next}
use opencode_rc.Api.Rules.{
  BlockedRoute, BodyRule, is_blocked, is_matched, body_rule_guard, block_guard,
}
use opencode_rc.Api.V1.Toggles.{
  is_terminal_path, feature_guard, upload_rules, download_rules, shell_rules, config_rules,
  share_rules, raw_part_routes, shell_routes, config_routes, share_routes, mcp_routes, upload_guard,
  download_guard, terminal_guard, shell_guard, config_guard,
}
use opencode_rc.Api.Guards.{v1_guards}
use opencode_rc.Api.Proofs.Bodies.{IsKept, Allows, IsChecked, body_rule_guard-IsChecked}
use opencode_rc.Api.Proofs.Chains.{Passed, terminal_guard_sound, test_keeps}
use opencode_rc.Api.Proofs.V1.{is_write, v1_guards-IsAdmitted}

-- The body rules and the refused routes of a feature's guard.
abbrev pub rules_of : Platform → FeatureName → List BodyRule
rules_of p uploads = upload_rules
rules_of p downloads = download_rules p
rules_of p shell = shell_rules
rules_of p share = share_rules
rules_of p config = config_rules
rules_of p _ = []

abbrev pub blocked_of : FeatureName → List BlockedRoute
blocked_of uploads = raw_part_routes
blocked_of downloads = raw_part_routes
blocked_of terminal = []
blocked_of shell = shell_routes
blocked_of export = []
blocked_of share = share_routes
blocked_of config = config_routes
blocked_of mcp = mcp_routes

-- The terminal's guard has no list of routes: it refuses the paths that it reads as the terminal's.
abbrev pub is_refused_path : FeatureName → Request → Bool
is_refused_path terminal req = is_terminal_path (proxy_rest req.path req.session_id)
is_refused_path _ req = false

-- What the guard of a disabled feature checked of a write.
pub record IsEnforced (p : Platform) (name : FeatureName) (req : Request) (v' : Vars) : Type 0 where
  pub other_path : is_refused_path name req ≡ false
  pub unblocked : any (is_blocked req) (blocked_of name) ≡ false
  pub allowed :
      (r : BodyRule)
      → In r (rules_of p name)
      → is_matched req r ≡ true
      → (bytes : List ℕ) × (v'.body ≡ some bytes) × Allows p r bytes

module _ (p : Platform) (req : Request) (v' : Vars) where
  of_IsChecked :
      (name : FeatureName) {w w' : Vars}
      → IsChecked p (rules_of p name) (blocked_of name) req w w'
      → IsKept req w' v'
      → is_refused_path name req ≡ false
      → IsEnforced p name req v'
  of_IsChecked name c k other = record {
    other_path = other;
    unblocked = c.unblocked;
    allowed = λ r m t. let (bytes, e, a) = c.allowed r m t in (bytes, k.old bytes e, a);
  }

  body_case :
      (name : FeatureName) (m : String) (g : Guard)
      → some (body_rule_guard p m (rules_of p name) (blocked_of name)) ≡ some g
      → Passed g req v'
      → is_refused_path name req ≡ false
      → IsEnforced p name req v'
  body_case name m g e (w, w', ran, k) other =
      let e' = some-injective (body_rule_guard p m (rules_of p name) (blocked_of name)) g e in
      of_IsChecked name
        (body_rule_guard-IsChecked p m (rules_of p name) (blocked_of name) req w w'
          (subst (λ (q : Guard). q req w ≡ next w') (sym e') ran))
        k other

  download_case :
      (w w' : Vars)
      → is_write req ≡ true
      → download_guard p req w ≡ next w'
      → IsKept req w' v'
      → IsEnforced p downloads req v'
  unfolding download_guard
  download_case w w' write ran k =
      of_IsChecked downloads
        (body_rule_guard-IsChecked p "file downloads are disabled" (download_rules p)
          raw_part_routes req w w' (rw write at ran))
        k refl

  mcp_case :
      (w w' : Vars)
      → block_guard "MCP changes are disabled" mcp_routes req w ≡ next w'
      → IsEnforced p mcp req v'
  unfolding block_guard
  mcp_case w w' ran = record {
    other_path = refl;
    unblocked = (test_keeps _ _ req w w' ran).0;
    allowed = λ r m t. elim m [ ];
  }

  Passed-IsEnforced :
      (name : FeatureName) (g : Guard)
      → is_write req ≡ true
      → feature_guard p name ≡ some g
      → Passed g req v'
      → IsEnforced p name req v'
  unfolding feature_guard upload_guard shell_guard config_guard any
  Passed-IsEnforced uploads g write e passed =
      body_case uploads "uploads are disabled" g e passed refl
  Passed-IsEnforced downloads g write e (w, w', ran, k) =
      download_case w w' write
        (subst (λ (q : Guard). q req w ≡ next w') (sym (some-injective (download_guard p) g e)) ran)
        k
  Passed-IsEnforced terminal g write e (w, w', ran, k) = record {
    other_path =
        (terminal_guard_sound p req w w' (
          subst (λ (q : Guard). q req w ≡ next w') (sym (some-injective (terminal_guard p) g e))
            ran)).0;
    unblocked = refl;
    allowed = λ r m t. elim m [ ];
  }
  Passed-IsEnforced shell g write e passed =
      body_case shell "shell commands are disabled" g e passed refl
  Passed-IsEnforced export g write e passed = cc
  Passed-IsEnforced share g write e passed = body_case share "sharing is disabled" g e passed refl
  Passed-IsEnforced config g write e passed =
      body_case config "config changes are disabled" g e passed refl
  Passed-IsEnforced mcp g write e (w, w', ran, k) = mcp_case w w' (
      subst (λ (q : Guard). q req w ≡ next w')
        (sym (some-injective (block_guard "MCP changes are disabled" mcp_routes) g e)) ran)

-- On a 1.x session, a write that passes while a feature with a guard is disabled is none of the
-- routes that the feature's guard refuses, for the terminal its path can be read and is not the
-- terminal's, and for each of the guard's rules that matches it, the body that the proxy is left
-- with holds no object that the rule denies.
pub v1_write-IsEnforced :
    (p : Platform) (cfg : RcConfig) (req : Request) (v v' : Vars) (name : FeatureName) (g : Guard)
    → v1_guards p cfg req v ≡ next v'
    → is_write req ≡ true
    → cfg.enabled name ≡ false
    → feature_guard p name ≡ some g
    → IsEnforced p name req v'
v1_write-IsEnforced p cfg req v v' name g h write off e =
    Passed-IsEnforced p req v' name g write e
      ((v1_guards-IsAdmitted p cfg req v v' h).passed name g off e)
