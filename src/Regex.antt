-- ===== src/Regex.antt =====
-- Regular expressions as the guards use them: tested against a whole text (`^…$`), by derivatives.
pub mod Laws
use opencode_rc.Common.{
  ℕ, Bool, true, false, ◌&&◌, ◌||◌, List, [], ◌∷◌, Text, lower_char, ◌==◌, not, if◌then◌else◌,
}

pub data Re : Type 0 where
  never eps : Re
  one : (ℕ → Bool) → Re
  seq alt : Re → Re → Re
  star : Re → Re

unfoldable pub nullable : Re → Bool
nullable never = false
nullable eps = true
nullable (one p) = false
nullable (seq r q) = nullable r && nullable q
nullable (alt r q) = nullable r || nullable q
nullable (star r) = true

-- `seq` and `alt`, simplified so that derivatives stay small.
unfoldable pub chain : Re → Re → Re
chain never q = never
chain eps q = q
chain r q = seq r q

unfoldable pub either : Re → Re → Re
either never q = q
either r never = r
either r q = alt r q

unfoldable pub deriv : ℕ → Re → Re
unfolding chain either nullable
deriv c never = never
deriv c eps = never
deriv c (one p) = if p c then eps else never
deriv c (seq r q) =
    let rest = deriv c q in
    let first = chain (deriv c r) q in if nullable r then either first rest else first
deriv c (alt r q) = either (deriv c r) (deriv c q)
deriv c (star r) = chain (deriv c r) (star r)

-- `/^r$/.test(s)`
unfoldable pub accepts : Re → Text → Bool
unfolding deriv nullable
accepts r [] = nullable r
accepts r (c ∷ s) = accepts (deriv c r) s

-- The pieces that the patterns of the program are written with. Each takes the rest of the
-- pattern, so that a pattern reads from left to right.
-- A literal text.
unfoldable pub lit : Text → Re → Re
lit [] r = r
lit (c ∷ s) r = seq (one (λ d. d == c)) (lit s r)

-- A literal under the `i` flag; the text is in lower case.
unfoldable pub lit_i : Text → Re → Re
unfolding lower_char
lit_i [] r = r
lit_i (c ∷ s) r = seq (one (λ d. lower_char d == c)) (lit_i s r)

-- `p+` for a class of characters
unfoldable pub plus : (ℕ → Bool) → Re → Re
plus p r = seq (seq (one p) (star (one p))) r

-- The class `[^/]`.
unfoldable pub not_slash : ℕ → Bool
not_slash c = not (c == b'/')

-- `.`: any character but a line terminator
unfoldable pub dot : ℕ → Bool
dot c = not (c == 10 || c == 13 || c == 0x2028 || c == 0x2029)

unfoldable pub regex : Unit {0}
unfolding accepts lit lit_i plus not_slash dot
regex = tt
