-- ===== src/Api/Proofs/V1.antt =====
-- What the guards of a 1.x session guarantee.
use opencode_rc.Common.{
  Bool, false, ◌∷◌, Text, some, str_eq, ◌≡◌, ◌≢◌, arith, text, text_eq_iff, starts_with, refl, any,
  In, inl, inr, not, ◌&&◌,
}
use opencode_rc.Config.{
  RcConfig, FeatureName, features, uploads, downloads, terminal, shell, export, share, config, mcp,
}
use opencode_rc.Api.Paths.{proxy_rest, canonical_path, trim_slashes}
use opencode_rc.Api.Request.{Platform, Request, Vars, Guard, next, plain}
use opencode_rc.Api.V1.Routes.{read_method, v1_api_guard}
use opencode_rc.Api.V1.Never.{never_routes, is_never, v1_never_guard}
use opencode_rc.Api.V1.Secrets.{provider_secrets_guard}
use opencode_rc.Api.V1.Toggles.{
  is_download_path, is_terminal_path, feature_guard, download_guard, terminal_guard,
}
use opencode_rc.Api.Guards.{has_plain_path, plain_path_guard, active_guards, v1_guards}
use opencode_rc.Api.Proofs.Bodies.{IsKept}
use opencode_rc.Api.Proofs.Chains.{
  Passed, every_guard_sound, plain_path_guard_sound, v1_api_guard-Keeps, v1_never_guard_sound,
  provider_secrets_guard-Keeps, terminal_guard_sound, active_guards-AllKeep, active_guards-In,
  test_keeps,
}

abbrev pub is_write : Request → Bool
is_write req = not (str_eq req.method "GET") && not (str_eq req.method "HEAD")

-- A request that the 1.x guards let pass, with the variables that they leave.
pub record IsAdmitted (p : Platform) (cfg : RcConfig) (req : Request) (v v' : Vars) : Type 0 where
  pub plain_write : (is_write req && not (has_plain_path req)) ≡ false
  pub path : Text
  pub reads : canonical_path (proxy_rest req.path req.session_id) ≡ some path
  pub not_never : any (is_never (read_method req.method) (trim_slashes path)) never_routes ≡ false
  pub kept : IsKept req v v'
  pub passed :
      (name : FeatureName) (g : Guard)
      → cfg.enabled name ≡ false
      → feature_guard p name ≡ some g
      → Passed g req v'

name-In : (name : FeatureName) → In name features
name-In uploads = inl refl
name-In downloads = inr (inl refl)
name-In terminal = inr (inr (inl refl))
name-In shell = inr (inr (inr (inl refl)))
name-In export = inr (inr (inr (inr (inl refl))))
name-In share = inr (inr (inr (inr (inr (inl refl)))))
name-In config = inr (inr (inr (inr (inr (inr (inl refl))))))
name-In mcp = inr (inr (inr (inr (inr (inr (inr (inl refl)))))))

-- When the guards of a 1.x session let a request pass, a write has a plain path, the path can be
-- read and is none of the routes that are always refused, the body that was read is the request's,
-- and the guard of every disabled feature let the request pass.
pub v1_guards-IsAdmitted :
    (p : Platform) (cfg : RcConfig) (req : Request) (v v' : Vars)
    → v1_guards p cfg req v ≡ next v'
    → IsAdmitted p cfg req v v'
unfolding v1_guards
v1_guards-IsAdmitted p cfg req v v' h =
    let first = plain_path_guard (plain 400 "unsupported characters in path") in
    let active = active_guards p cfg.enabled features in
    let (kept, passed) =
      every_guard_sound (first ∷ v1_api_guard ∷ v1_never_guard ∷ provider_secrets_guard ∷ active)
        req v v'
        (
          (λ q w w' k. (plain_path_guard_sound _ q w w' k).1),
          (
            v1_api_guard-Keeps,
            (
              (λ q w w' k. (v1_never_guard_sound q w w' k).0),
              (provider_secrets_guard-Keeps, active_guards-AllKeep p cfg.enabled features),
            ),
          ),
        )
        h in
    let (w, w', ran, _) = passed first (inl refl) in
    let (u, u', went, _) = passed v1_never_guard (inr (inr (inl refl))) in
    let (_, path, reads, clear) = v1_never_guard_sound req u u' went in
    record {
      plain_write = (plain_path_guard_sound _ req w w' ran).0;
      path = path;
      reads = reads;
      not_never = clear;
      kept = kept;
      passed = λ name g off e. passed g (
          inr (
            inr (inr (inr (active_guards-In p cfg.enabled features name g (name-In name) off e)))));
    }

-- On a 1.x session with the terminal disabled, no request passes whose path is the terminal's or
-- cannot be read, whatever its method.
pub v1_terminal_off :
    (p : Platform) (cfg : RcConfig) (req : Request) (v v' : Vars)
    → v1_guards p cfg req v ≡ next v'
    → cfg.enabled terminal ≡ false
    → is_terminal_path (proxy_rest req.path req.session_id) ≡ false
unfolding feature_guard
v1_terminal_off p cfg req v v' h off =
    let (w, w', ran, _) =
      (v1_guards-IsAdmitted p cfg req v v' h).passed terminal (terminal_guard p) off refl in
    (terminal_guard_sound p req w w' ran).0

download_path_sound :
    (rest path : Text)
    → canonical_path rest ≡ some path
    → is_download_path rest ≡ false
    → (trim_slashes path ≢ text "/file/content")
      × (trim_slashes path ≢ text "/find")
      × (starts_with path (text "/api/fs/read/") ≡ false)
unfolding is_download_path
download_path_sound rest path e h =
    let clear = rw (e, is_download_path) at h in
    (
      (λ same. ground (arith, text_eq_iff (trim_slashes path) (text "/file/content"))),
      (λ same. ground (arith, text_eq_iff (trim_slashes path) (text "/find"))),
      ground arith,
    )

-- On a 1.x session with downloads disabled, a GET or HEAD that passes has a path that can be read,
-- and that is, its trailing slashes aside, neither /file/content nor /find, and does not lie below
-- /api/fs/read/.
pub v1_download_off :
    (p : Platform) (cfg : RcConfig) (req : Request) (v v' : Vars)
    → v1_guards p cfg req v ≡ next v'
    → is_write req ≡ false
    → cfg.enabled downloads ≡ false
    → (path : Text) × (canonical_path (proxy_rest req.path req.session_id) ≡ some path)
      × (trim_slashes path ≢ text "/file/content")
      × (trim_slashes path ≢ text "/find")
      × (starts_with path (text "/api/fs/read/") ≡ false)
unfolding feature_guard download_guard
v1_download_off p cfg req v v' h read off =
    let admitted = v1_guards-IsAdmitted p cfg req v v' h in
    let (w, w', ran, _) = admitted.passed downloads (download_guard p) off refl in
    let clear =
      (test_keeps _ (plain 403 "file downloads are disabled") req w w' (rw read at ran)).0 in
    let (content, find, below) = download_path_sound _ admitted.path admitted.reads clear in
    (admitted.path, admitted.reads, content, find, below)
