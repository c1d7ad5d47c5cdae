-- ===== src/Api/V1/Never.antt =====
-- v1-never.ts: the 1.x routes that are refused whatever the toggles.
use opencode_rc.Common.{
  str_eq, Bool, true, ◌&&◌, List, [], ◌∷◌, Text, text, Option, none, some, String, if◌then◌else◌,
  any,
}
use opencode_rc.Regex.{Re, accepts, eps, lit, alt, star, one, dot}
use opencode_rc.Api.Paths.{proxy_rest, canonical_path, trim_slashes}
use opencode_rc.Api.Request.{Guard, next, deny, plain}
use opencode_rc.Api.V1.Routes.{read_method, unavailable}

pub record NeverRoute : Type 0 where
  -- `none`: any method
  pub method : Option String
  pub path : Re

-- `(\/.*)?$`
unfoldable pub below : Re
unfolding lit text dot
below = alt eps (lit (text "/") (star (one dot)))

-- NEVER
unfoldable pub never_routes : List NeverRoute
unfolding lit text below
never_routes =
    record { method = some "POST"; path = lit (text "/vcs/apply") eps }
    ∷ record { method = some "POST"; path = lit (text "/global/upgrade") eps }
    ∷ record { method = none; path = lit (text "/tui") below }
    ∷ record { method = some "POST"; path = lit (text "/log") eps }
    ∷ record {
      method = some "POST";
      path =
          lit (text "/sync/") (
            alt (lit (text "start") eps) (alt (lit (text "steal") eps) (lit (text "history") eps)));
    }
    ∷ record { method = some "POST"; path = lit (text "/experimental/console/switch") eps }
    ∷ record { method = some "POST"; path = lit (text "/experimental/workspace") below }
    ∷ record { method = some "DELETE"; path = lit (text "/experimental/workspace") below }
    ∷ record {
      method = some "POST";
      path = lit (text "/experimental/control-plane/move-session") eps;
    }
    ∷ []

unfoldable pub is_never : String → Text → NeverRoute → Bool
unfolding accepts
is_never method bare r =
    elim r.method [ none ↦ true | some m ↦ str_eq m method ] && accepts r.path bare

-- `v1NeverGuard`
unfoldable pub v1_never_guard : Guard
unfolding proxy_rest canonical_path trim_slashes any is_never never_routes read_method
v1_never_guard req v = elim (canonical_path (proxy_rest req.path req.session_id)) [
  | none ↦ deny (plain 400 "unsupported characters in path")
  | some path ↦
      if any (is_never (read_method req.method) (trim_slashes path)) never_routes
      then unavailable
      else next v
]
