-- ===== src/Api/Proofs/Refusals.antt =====
-- How the guards of a 2.x session refuse.
use opencode_rc.Common.{
  Bool, true, false, Text, Option, none, some, String, Option-cases, inl, inr, find, if◌then◌else◌,
}
use opencode_rc.Json.{Json, as_object}
use opencode_rc.Config.{RcConfig, FeatureNameV2}
use opencode_rc.Api.Request.{
  Platform, Request, Vars, Verdict, next, deny, feature_disabled, ◌>>=◌, JsonBody, json, not_json,
  too_large, json_body, every_guard,
}
use opencode_rc.Api.Paths.{proxy_rest, canonical_path}
use opencode_rc.Api.V1.Routes.{read_method}
use opencode_rc.Api.V2.Routes.{V2Route, v2_routes}
use opencode_rc.Api.V2.Guard.{
  BodyTest, answer, test_body, with_body, body_test_if, check_fs_write, check_request, check_route,
  check_path, v2_guard, reject, trim_path, route_matches,
}
use opencode_rc.Api.Guards.{plain_path_guard, v2_guards}

-- A refusal of the shape `{ _tag: "FeatureDisabled", message }` with status 400, or none at all.
pub data IsShaped : Verdict → Type 0 where
  passes : (v : Vars) → IsShaped (next v)
  refuses : (m : String) → IsShaped (deny (feature_disabled 400 m))

bind-IsShaped :
    (m : Verdict) (k : Vars → Verdict)
    → IsShaped m
    → ((v : Vars) → IsShaped (k v))
    → IsShaped (m >>= k)
bind-IsShaped m k (passes v) f = f v
bind-IsShaped m k (refuses t) f = refuses t

if-IsShaped : (b : Bool) (x y : Verdict) → IsShaped x → IsShaped y → IsShaped (if b then x else y)
if-IsShaped true x y h k = h
if-IsShaped false x y h k = k

answer-IsShaped : (v : Vars) (o : Option String) → IsShaped (answer v o)
answer-IsShaped v none = passes v
answer-IsShaped v (some m) = refuses m

test_body-IsShaped : (t : BodyTest) (b : JsonBody) (v : Vars) → IsShaped (test_body t b v)
unfolding test_body
test_body-IsShaped t too_large v = refuses _
test_body-IsShaped t not_json v = refuses _
test_body-IsShaped t (json none) v = answer-IsShaped v _
test_body-IsShaped t (json (some j)) v = elim (Option-cases (as_object j)) [
  | inl e ↦ rw (e, test_body) (refuses _)
  | inr (fs, e) ↦ rw (e, test_body) (answer-IsShaped v (t fs))
]

module _ (p : Platform) (enabled : FeatureNameV2 → Bool) (info : Request → Option Json) where
  with_body-IsShaped : (t : BodyTest) (req : Request) (v : Vars) → IsShaped (with_body p t req v)
  unfolding with_body
  with_body-IsShaped t req v = test_body-IsShaped t (json_body p req v).0 (json_body p req v).1

  body_test_if-IsShaped :
      (b : Bool) (t : BodyTest) (req : Request) (v : Vars)
      → IsShaped (body_test_if p enabled info b t req v)
  body_test_if-IsShaped true t req v = with_body-IsShaped t req v
  body_test_if-IsShaped false t req v = passes v

  check_fs_write-IsShaped :
      (req : Request) (v : Vars) → IsShaped (check_fs_write p enabled info req v)
  unfolding check_fs_write
  check_fs_write-IsShaped req v = elim (Option-cases req.query_path) [
    | inl e ↦ rw (e, check_fs_write) (refuses _)
    | inr (path, e) ↦ rw (e, check_fs_write) (if-IsShaped _ _ _ (passes v) (refuses _))
  ]

  check_request-IsShaped :
      (template : Text) (req : Request) (v : Vars)
      → IsShaped (check_request p enabled info template req v)
  unfolding check_request
  check_request-IsShaped template req v =
      search
        (
          if-IsShaped, bind-IsShaped, check_fs_write-IsShaped, with_body-IsShaped,
          body_test_if-IsShaped,
        )
        depth 12

  check_route-IsShaped :
      (r : V2Route) (path : Text) (req : Request) (v : Vars)
      → IsShaped (check_route p enabled info r path req v)
  unfolding check_route
  check_route-IsShaped r path req v = search (if-IsShaped, refuses, check_request-IsShaped) depth 8

  check_path-IsShaped :
      (method : String) (path : Text) (req : Request) (v : Vars)
      → IsShaped (check_path p enabled info method path req v)
  unfolding check_path
  check_path-IsShaped method path req v =
      elim (Option-cases (find (route_matches p enabled info method path) v2_routes)) [
        | inl e ↦ rw (e, check_path) (refuses _)
        | inr (r, e) ↦ rw (e, check_path) (check_route-IsShaped r path req v)
      ]

  read_path-IsShaped :
      (req : Request) (v : Vars)
      → IsShaped (elim (canonical_path (proxy_rest req.path req.session_id)) [
        | none ↦ reject "unsupported characters in path"
        | some path ↦ check_path p enabled info (read_method req.method) (trim_path path) req v
      ])
  read_path-IsShaped req v =
      elim (Option-cases (canonical_path (proxy_rest req.path req.session_id))) [
        | inl e ↦ rw e (refuses _)
        | inr (path, e) ↦ rw e (check_path-IsShaped (read_method req.method) (trim_path path) req v)
      ]

  v2_guard-IsShaped : (req : Request) (v : Vars) → IsShaped (v2_guard p enabled info req v)
  unfolding v2_guard
  v2_guard-IsShaped req v = search (if-IsShaped, passes, read_path-IsShaped req v) depth 8

-- The guards of a 2.x session let a request pass or refuse it with the reply FeatureDisabled and
-- status 400, and never with another reply or status, also where a checked body is too large or is
-- not JSON.
pub v2_guards-IsShaped :
    (p : Platform) (config : RcConfig) (info : Request → Option Json) (req : Request) (v : Vars)
    → IsShaped (v2_guards p config info req v)
unfolding v2_guards every_guard plain_path_guard
v2_guards-IsShaped p config info req v =
    bind-IsShaped _ _ (if-IsShaped _ _ _ (refuses _) (passes v))
      (λ w. bind-IsShaped _ _ (v2_guard-IsShaped p config.enabled_v2 info req w) (λ u. passes u))
