-- ===== src/Tunnel/Headers.antt =====
-- The headers of a request to the local server.
use opencode_rc.Common.{
  Bool, true, false, not, [], ◌∷◌, ◌++◌, Text, text, text_eq, some, ◌≡◌, ap, ◌∙◌, In, inl, inr, ◌⊎◌,
  lower, filter, Bool-cases,
}
use opencode_rc.Tunnel.Streams.{Headers, LocalTarget, local_headers}

abbrev pub is_authorization : Text × Text → Bool
is_authorization h = text_eq (lower h.0) (text "authorization")

In-append : (h : Text × Text) (xs ys : Headers) → In h (xs ++ ys) → In h xs ⊎ In h ys
In-append h [] ys m = inr m
In-append h (x ∷ xs) ys (inl e) = inl (inl e)
In-append h (x ∷ xs) ys (inr m) = elim (In-append h xs ys m) [ inl a ↦ inl (inr a) | inr b ↦ inr b ]

kept_is_other :
    (h : Text × Text) (hs : Headers)
    → In h (filter (λ (g : Text × Text). not (is_authorization g)) hs)
    → is_authorization h ≡ false
unfolding filter
kept_is_other h [] m = elim m [ ]
kept_is_other h (g ∷ hs) m = elim (Bool-cases (is_authorization g)) [
  | inl t ↦ kept_is_other h hs (rw t at m)
  | inr f ↦ elim (rw f at m) [ inl e ↦ ap is_authorization e ∙ f | inr m' ↦ kept_is_other h hs m' ]
]

clash : (h : Text × Text) → is_authorization h ≡ false → is_authorization h ≡ true → ⊥
clash h f t = cc

-- When the local server needs credentials, every authorization header of the forwarded request, in
-- any case, holds them; the browser's never reaches it.
pub local_headers-authorization :
    (hs : Headers) (local : LocalTarget) (a : Text) (h : Text × Text)
    → local.authorization ≡ some a
    → In h (local_headers hs local)
    → is_authorization h ≡ true
    → h.1 ≡ a
unfolding local_headers
local_headers-authorization hs local a h e m t =
    elim (In-append h _ _ (rw (e, local_headers) at m)) [
      | inl old ↦ absurd (clash h (kept_is_other h hs old) t)
      | inr (inl same) ↦ ap (λ (g : Text × Text). g.1) same
      | inr (inr more) ↦ elim more [ ]
    ]
