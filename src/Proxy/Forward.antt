-- ===== src/Proxy/Forward.antt =====
-- The request that a proxied request becomes (`sessionAccess` and `proxyHttp` of api/src/proxy.ts).
use mathlib.Core.Option.{some-injective}
use opencode_rc.Common.{
  Bool, true, false, Bool-cases, inl, inr, Text, text, text_eq, text_eq_iff, text_eq_refl, filter,
  List, [], ◌∷◌, ◌++◌, Option, none, some, ◌≡◌, ◌≢◌, refl, sym, ap, ◌∙◌, subst, if◌then◌else◌,
}
use opencode_rc.Api.Paths.{proxy_rest}
use opencode_rc.Proxy.{
  SessionMeta, Pairs, Platform, Access, refused, admitted, session_access, delete, set, HttpRequest,
  upstream_query, upstream_url, upstream_headers, proxy_http,
}

-- All values under a name.
pub values : (name : Text) → Pairs → List Text
values name [] = []
values name ((n, v) ∷ hs) = let rest = values name hs in if text_eq n name then v ∷ rest else rest

values-delete : (name : Text) (hs : Pairs) → values name (delete name hs) ≡ []
unfolding values delete filter
values-delete name [] = refl
values-delete name ((n, v) ∷ hs) = elim (Bool-cases (text_eq n name)) [
  | inl t ↦ rw t (values-delete name hs)
  | inr f ↦ rw (f, f) (values-delete name hs)
]

true-false : {b : Bool} → b ≡ true → b ≢ false
true-false t f = cc

other_name :
    (n name other : Text)
    → text_eq n other ≡ true
    → text_eq name other ≡ false
    → text_eq n name ≡ false
other_name n name other t f = elim (Bool-cases (text_eq n name)) [
  | inl q ↦ absurd (
      true-false
        ((text_eq_iff name other).1 (sym ((text_eq_iff n name).0 q) ∙ (text_eq_iff n other).0 t)) f)
  | inr g ↦ g
]

values-delete_other :
    (name other : Text) (hs : Pairs)
    → text_eq name other ≡ false
    → values name (delete other hs) ≡ values name hs
unfolding values delete filter
values-delete_other name other [] f = refl
values-delete_other name other ((n, v) ∷ hs) f = elim (Bool-cases (text_eq n other)) [
  | inl t ↦ rw (t, other_name n name other t f) (values-delete_other name other hs f)
  | inr g ↦
      rw g (ap (λ l. if text_eq n name then v ∷ l else l) (values-delete_other name other hs f))
]

values-deleted :
    (name other : Text) (hs : Pairs)
    → values name (delete other hs) ≡ (if text_eq name other then [] else values name hs)
values-deleted name other hs = elim (Bool-cases (text_eq name other)) [
  | inl t ↦ rw t (
      subst (λ n. values n (delete other hs) ≡ []) (sym ((text_eq_iff name other).0 t))
        (values-delete other hs))
  | inr f ↦ rw f (values-delete_other name other hs f)
]

values-set : (name v : Text) (hs : Pairs) → values name (set name v hs) ≡ v ∷ []
unfolding values set
values-set name v hs = rw (text_eq_refl name) (ap (λ l. v ∷ l) (values-delete name hs))

values-set_other :
    (name other v : Text) (hs : Pairs)
    → text_eq name other ≡ false
    → text_eq other name ≡ false
    → values name (set other v hs) ≡ values name hs
unfolding values set
values-set_other name other v hs f g = rw g (values-delete_other name other hs f)

-- The headers that are sent, whatever the client's are.
abbrev pub sent : (directory token : Text) → Pairs → Pairs
sent directory token hs = delete (text "origin") (
    delete (text "host") (
      set (text "authorization") (text "Bearer " ++ token)
        (set (text "x-opencode-directory") directory hs)))

-- What is sent under a name.
pub record Carries (directory token : Text) (hs : Pairs) : Type 0 where
  pub authorization : values (text "authorization") hs ≡ (text "Bearer " ++ token) ∷ []
  pub in_directory : values (text "x-opencode-directory") hs ≡ directory ∷ []
  pub no_host : values (text "host") hs ≡ []
  pub no_origin : values (text "origin") hs ≡ []

sent-Carries :
    (directory token : Text) (hs : Pairs) → Carries directory token (sent directory token hs)
unfolding text text_eq
sent-Carries directory token hs = record {
  authorization =
      values-delete_other (text "authorization") (text "origin") _ refl
      ∙ values-delete_other (text "authorization") (text "host") _ refl
      ∙ values-set (text "authorization") _ _;
  in_directory =
      values-delete_other (text "x-opencode-directory") (text "origin") _ refl
      ∙ values-delete_other (text "x-opencode-directory") (text "host") _ refl
      ∙ values-set_other (text "x-opencode-directory") (text "authorization") _ _ refl refl
      ∙ values-set (text "x-opencode-directory") directory hs;
  no_host =
      values-delete_other (text "host") (text "origin") _ refl ∙ values-delete (text "host") _;
  no_origin = values-delete (text "origin") _;
}

meta_of : Access → Option SessionMeta
meta_of (refused status message) = none
meta_of (admitted meta) = some meta

none-some : {A : Type 0} {a : A} → none ≢ some a
none-some h = cc

module _ (platform : Platform) where
  upstream_headers-Carries :
      (rewrites : Bool) (directory token : Text) (hs : Pairs)
      → Carries directory token (upstream_headers platform rewrites directory token hs)
  unfolding upstream_headers text text_eq
  upstream_headers-Carries false directory token hs = sent-Carries directory token hs
  upstream_headers-Carries true directory token hs =
      let c = sent-Carries directory token hs in
      let name = text "accept-encoding" in
      record {
        authorization =
            values-set_other (text "authorization") name _ _ refl refl ∙ c.authorization;
        in_directory =
            values-set_other (text "x-opencode-directory") name _ _ refl refl ∙ c.in_directory;
        no_host = values-set_other (text "host") name _ _ refl refl ∙ c.no_host;
        no_origin = values-set_other (text "origin") name _ _ refl refl ∙ c.no_origin;
      }

  access_sound :
      (found : Option SessionMeta) (user_id : Text) (meta : SessionMeta)
      → session_access found user_id ≡ admitted meta
      → (found ≡ some meta) × (meta.user_id ≡ user_id)
  unfolding session_access meta_of
  access_sound none user_id meta h = absurd (none-some (ap meta_of h))
  access_sound (some m) user_id meta h = elim (Bool-cases (text_eq m.user_id user_id)) [
    | inr f ↦ absurd (none-some (ap meta_of (rw f at h)))
    | inl t ↦ elim (Bool-cases (text_eq m.gateway_addr [])) [
      | inl e ↦ absurd (none-some (ap meta_of (rw (t, e) at h)))
      | inr e ↦
          let same = ap meta_of (rw (t, e) at h) in
          (
            same,
            ap (λ (x : SessionMeta). x.user_id) (sym (some-injective m meta same))
                ∙ (text_eq_iff m.user_id user_id).0 t,
          )
    ]
  ]

  -- A request that gets access to a session is the session's own user's, and the request that the
  -- proxy sends goes to that session's gateway and path, with the user's token and the session's
  -- directory as the only values of their headers, without host and origin, and with the client's
  -- query but for the token in it.
  pub proxy_http_sound :
      (found : Option SessionMeta) (user_id : Text) (meta : SessionMeta) (token : Text)
      (rewrites : Bool) (req : HttpRequest) (name : Text)
      → session_access found user_id ≡ admitted meta
      → let query = upstream_query platform req.search in
        (found ≡ some meta)
        × (meta.user_id ≡ user_id)
        × Carries meta.directory token (proxy_http platform meta token rewrites req).headers
        × ((proxy_http platform meta token rewrites req).url
            ≡ text "http"
              ++ text "://"
              ++ meta.gateway_addr
              ++ text "/proxy/"
              ++ meta.id
              ++ proxy_rest req.path meta.id
              ++ (if text_eq query [] then [] else b'?' ∷ query))
        × (values name (platform.parse_query query) ≡ (
            if text_eq name (text "access_token")
            then []
            else values name (platform.parse_query req.search)))
  unfolding proxy_http upstream_url upstream_query
  proxy_http_sound found user_id meta token rewrites req name h =
      let (there, own) = access_sound found user_id meta h in
      let query = delete (text "access_token") (platform.parse_query req.search) in
      (
        there,
        own,
        upstream_headers-Carries rewrites meta.directory token req.headers,
        refl,
        ap (values name) (platform.parse-print query)
            ∙ values-deleted name (text "access_token") (platform.parse_query req.search),
      )
