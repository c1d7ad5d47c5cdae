-- ===== src/Api/Proofs/V2.antt =====
-- What the guard of a 2.x session guarantees.
use opencode_rc.Common.{
  Bool, true, false, ◌&&◌, ◌||◌, not, [], ◌++◌, Text, text, text_eq, Option, none, some, String,
  ◌==◌, str_eq, str_eq_iff, ◌≡◌, ap, subst, ◌⊎◌, inl, inr, refl, arith, In, find, find_sound, any,
  split, includes, starts_with, if◌then◌else◌, Bool-cases, Option-cases, and-true,
}
use opencode_rc.Regex.{accepts}
use opencode_rc.Json.{Json, str, get_of, is_text}
use opencode_rc.Config.{FeatureNameV2, mcp, uploads}
use opencode_rc.Api.Paths.{proxy_rest, canonical_path, template_regex}
use opencode_rc.Api.Request.{Platform, Request, Vars, next, deny, feature_disabled}
use opencode_rc.Api.V1.Routes.{read_method}
use opencode_rc.Api.V2.Routes.{V2Route, v2_routes, route, feature}
use opencode_rc.Api.V2.Guard.{
  mcp_integration, trim_path, is_unsafe_write, is_in_uploads, drop_slash, check_fs_write,
  check_request, rule_allows, route_matches, check_route, check_path, v2_guard,
}

is_text_sound :
    (q : Text → Bool) (o : Option Json)
    → is_text q o ≡ true
    → (s : Text) × (o ≡ some (str s)) × (q s ≡ true)
unfolding is_text
is_text_sound q none h = cc
is_text_sound q (some (str s)) h = (s, refl, h)
is_text_sound q (some j) h = cc

is_in_uploads_sound :
    (path : Text) (o : Option Json)
    → is_in_uploads path o ≡ true
    → (tmp : Text) × (o ≡ some (str tmp))
      × (text_eq (drop_slash tmp) [] ≡ false)
      × (starts_with path (drop_slash tmp ++ text "/uploads/") ≡ true)
unfolding is_in_uploads
is_in_uploads_sound path o h =
    let (tmp, e, k) = is_text_sound _ o h in (tmp, e, ground arith, ground arith)

is_unsafe_write_sound :
    (path : Text)
    → is_unsafe_write path ≡ false
    → (includes (split b'/' path) (text "..") ≡ false) × (any (λ c. c == 92 || c == 0) path ≡ false)
unfolding is_unsafe_write
is_unsafe_write_sound path h = ground arith

fs_write_test :
    (path : Text) (o : Option Json) (v v' : Vars)
    → (if not (is_unsafe_write path) && is_in_uploads path o
        then next v
        else deny (feature_disabled 400 "uploads may only be written to the uploads folder"))
      ≡ next v'
    → (is_unsafe_write path ≡ false) × (is_in_uploads path o ≡ true)
fs_write_test path o v v' h = ground arith

module _ (p : Platform) (enabled : FeatureNameV2 → Bool) (info : Request → Option Json) where
  -- A route of the table that permits a request on a path.
  pub record IsPermitted (method : String) (path : Text) (req : Request) (v v' : Vars)
      : Type 0 where
    pub route : V2Route
    pub listed : In route v2_routes
    pub same_method : route.method ≡ method
    pub matches : accepts (template_regex route.template) path ≡ true
    pub allowed : rule_allows p enabled info route.rule ≡ true
    pub no_mcp : (not (enabled mcp) && accepts mcp_integration path) ≡ false
    pub checked : check_request p enabled info route.template req v ≡ next v'

  check_route_sound :
      (r : V2Route) (path : Text) (req : Request) (v v' : Vars)
      → check_route p enabled info r path req v ≡ next v'
      → (rule_allows p enabled info r.rule ≡ true)
        × ((not (enabled mcp) && accepts mcp_integration path) ≡ false)
        × (check_request p enabled info r.template req v ≡ next v')
  unfolding check_route
  check_route_sound r path req v v' h = ground arith

  check_path-IsPermitted :
      (method : String) (path : Text) (req : Request) (v v' : Vars)
      → check_path p enabled info method path req v ≡ next v'
      → IsPermitted method path req v v'
  unfolding check_path route_matches
  check_path-IsPermitted method path req v v' h =
      elim (Option-cases (find (route_matches p enabled info method path) v2_routes)) [
        | inl e ↦ cc (rw (e, check_path) at h)
        | inr (r, e) ↦
            let (hit, listed) = find_sound (route_matches p enabled info method path) v2_routes e in
            let (a, b, c) = check_route_sound r path req v v' (rw (e, check_path) at h) in
            record {
              route = r;
              listed = listed;
              same_method = (str_eq_iff r.method method).0 (and-true hit).0;
              matches = (and-true hit).1;
              allowed = a;
              no_mcp = b;
              checked = c;
            }
      ]

  -- A request that the guard of a 2.x session lets pass is a preflight, or has a path that can be
  -- read and a route of the table with its method (HEAD as GET) whose template the path matches,
  -- whose rule allows it and whose body and query checks it meets; with mcp disabled it is no
  -- connection to an MCP integration.
  pub v2_guard-IsPermitted :
      (req : Request) (v v' : Vars)
      → v2_guard p enabled info req v ≡ next v'
      → (read_method req.method ≡ "OPTIONS")
        ⊎ ((path : Text) × (canonical_path (proxy_rest req.path req.session_id) ≡ some path)
            × IsPermitted (read_method req.method) (trim_path path) req v v')
  unfolding v2_guard
  v2_guard-IsPermitted req v v' h = elim (Bool-cases (str_eq (read_method req.method) "OPTIONS")) [
    | inl t ↦ inl ((str_eq_iff _ _).0 t)
    | inr f ↦ elim (Option-cases (canonical_path (proxy_rest req.path req.session_id))) [
      | inl e ↦ cc (rw (f, e, v2_guard) at h)
      | inr (path, e) ↦
          inr (path, e, check_path-IsPermitted _ _ req v v' (rw (f, e, v2_guard) at h))
    ]
  ]

  check_fs_write_sound :
      (req : Request) (v v' : Vars)
      → check_fs_write p enabled info req v ≡ next v'
      → (path : Text) × (tmp : Text) × (req.query_path ≡ some path)
        × (get_of (text "tmp") (get_of (text "paths") (info req)) ≡ some (str tmp))
        × (starts_with path (drop_slash tmp ++ text "/uploads/") ≡ true)
        × (text_eq (drop_slash tmp) [] ≡ false)
        × (includes (split b'/' path) (text "..") ≡ false)
        × (any (λ c. c == 92 || c == 0) path ≡ false)
  unfolding check_fs_write
  check_fs_write_sound req v v' h = elim (Option-cases req.query_path) [
    | inl e ↦ cc (rw (e, check_fs_write) at h)
    | inr (path, e) ↦
        let (clean, inside) = fs_write_test path _ v v' (rw (e, check_fs_write) at h) in
        let (tmp, found, base, below) = is_in_uploads_sound path _ inside in
        let (dots, chars) = is_unsafe_write_sound path clean in
        (path, tmp, e, found, below, base, dots, chars)
  ]

  -- The route of the table that a write is taken for.
  write_found :
      find (route_matches p enabled info "POST" (text "/api/experimental/fs/write")) v2_routes
      ≡ some (route "POST" "/api/experimental/fs/write" (feature uploads))
  unfolding find route_matches v2_routes accepts template_regex text
  write_found = refl

  read_post : (m : String) → m ≡ "POST" → read_method m ≡ "POST"
  unfolding read_method
  read_post m e = rw e refl

  write_path :
      (req : Request) (v v' : Vars)
      → check_path p enabled info "POST" (text "/api/experimental/fs/write") req v ≡ next v'
      → (enabled uploads ≡ true) × (check_fs_write p enabled info req v ≡ next v')
  unfolding check_path rule_allows check_request text_eq text
  write_path req v v' h =
      let write = route "POST" "/api/experimental/fs/write" (feature uploads) in
      let (on, _, checked) =
        check_route_sound write (text "/api/experimental/fs/write") req v v'
          (rw (write_found, check_path) at h) in
      (on, checked)

  -- A POST to a 2.x session whose path, its trailing slashes aside, is /api/experimental/fs/write
  -- passes the guard only with uploads enabled, and with the file's path in its query, which lies
  -- below the uploads folder of the machine's temporary folder and has no ".." segment, backslash
  -- or NUL.
  pub v2_fs_write_sound :
      (req : Request) (v v' : Vars) (full : Text)
      → v2_guard p enabled info req v ≡ next v'
      → req.method ≡ "POST"
      → canonical_path (proxy_rest req.path req.session_id) ≡ some full
      → trim_path full ≡ text "/api/experimental/fs/write"
      → (enabled uploads ≡ true)
        × ((path : Text) × (tmp : Text) × (req.query_path ≡ some path)
            × (get_of (text "tmp") (get_of (text "paths") (info req)) ≡ some (str tmp))
            × (starts_with path (drop_slash tmp ++ text "/uploads/") ≡ true)
            × (text_eq (drop_slash tmp) [] ≡ false)
            × (includes (split b'/' path) (text "..") ≡ false)
            × (any (λ c. c == 92 || c == 0) path ≡ false))
  unfolding v2_guard
  v2_fs_write_sound req v v' full h post reads at_write =
      let method = read_post req.method post in
      let f = ap (λ m. str_eq m "OPTIONS") method in
      let ran = rw (f, reads, v2_guard) at h in
      let (on, checked) = write_path req v v' (
        subst (λ m. check_path p enabled info m (text "/api/experimental/fs/write") req v ≡ next v')
          method
          (subst (λ q. check_path p enabled info (read_method req.method) q req v ≡ next v')
            at_write ran)) in
      (on, check_fs_write_sound req v v' checked)
