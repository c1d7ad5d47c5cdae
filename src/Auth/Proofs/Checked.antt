-- ===== src/Auth/Proofs/Checked.antt =====
-- The steps of a route up to its store (`Checked`): what follows from one that has passed, and that an
-- early answer is a refusal.
use opencode_rc.Common.{
  ℕ, Bool, true, false, Text, text_eq_iff, [], ◌∷◌, Option, none, some, ◌≡◌, ◌≢◌, refl, sym, ap,
  ◌∙◌,
}
use mathlib.Core.Option.{some-injective}
use opencode_rc.Tokens.{AccessClaims}
use opencode_rc.Auth.AccessToken.{non_empty}
use opencode_rc.Auth.Routes.{Reply, error, plain, to_app}
use opencode_rc.Auth.Provider.{Checked, stop, crash, pass, ◌>>=◌, require, need, same_text}

-- The value of a step that has passed.
value_of : {A : Type 0} → Checked A → Option A
value_of (pass a) = some a
value_of _ = none

pub pass-injective : {A : Type 0} {a b : A} → pass a ≡ pass b → a ≡ b
unfolding value_of
pass-injective {a = a} {b = b} h = some-injective a b (ap value_of h)

pub stop_pass : {A : Type 0} {r : Reply} {a : A} → stop r ≢ pass a
unfolding value_of
stop_pass h = let e = ap value_of h in cc

pub crash_pass : {A : Type 0} {a : A} → crash ≢ pass a
unfolding value_of
crash_pass h = let e = ap value_of h in cc

pub bind_pass :
    {A B : Type 0} (m : Checked A) (f : A → Checked B) (b : B)
    → (m >>= f) ≡ pass b
    → (a : A) × (m ≡ pass a) × (f a ≡ pass b)
unfolding ◌>>=◌
bind_pass (stop r) f b h = absurd (stop_pass h)
bind_pass crash f b h = absurd (crash_pass h)
bind_pass (pass a) f b h = (a, refl, h)

pub need_pass : {A : Type 0} (o : Option A) (r : Reply) (a : A) → need o r ≡ pass a → o ≡ some a
unfolding need
need_pass none r a h = absurd (stop_pass h)
need_pass (some b) r a h = ap some (pass-injective h)

pub require_pass :
    {A : Type 0} (b : Bool) (r : Reply) (m : Checked A) (a : A)
    → require b r m ≡ pass a
    → (b ≡ true) × (m ≡ pass a)
unfolding require
require_pass true r m a h = (refl, h)
require_pass false r m a h = absurd (stop_pass h)

-- An early answer is always a refusal.
unfoldable pub is_refusal : Reply → Bool
is_refusal (error status message) = true
is_refusal (plain status message) = true
is_refusal _ = false

unfoldable pub refuses : {A : Type 0} → Checked A → Bool
refuses (stop r) = is_refusal r
refuses _ = true

pub bind-refuses :
    {A B : Type 0} (m : Checked A) (f : A → Checked B)
    → refuses m ≡ true
    → ((a : A) → refuses (f a) ≡ true)
    → refuses (m >>= f) ≡ true
unfolding ◌>>=◌ refuses
bind-refuses (stop r) f h k = h
bind-refuses crash f h k = refl
bind-refuses (pass a) f h k = k a

pub need-refuses :
    {A : Type 0} (o : Option A) (r : Reply) → is_refusal r ≡ true → refuses (need o r) ≡ true
unfolding need refuses
need-refuses none r h = h
need-refuses (some a) r h = refl

pub require-refuses :
    {A : Type 0} (b : Bool) (r : Reply) (m : Checked A)
    → is_refusal r ≡ true
    → refuses m ≡ true
    → refuses (require b r m) ≡ true
unfolding require refuses
require-refuses true r m h k = k
require-refuses false r m h k = h

pub passes : {A : Type 0} (a : A) → refuses (pass a) ≡ true
unfolding refuses
passes a = refl

pub none-some : {A : Type 0} {a : A} → none ≢ some a
none-some h = cc

unfoldable pub location_of : Reply → Text
location_of (to_app location) = location
location_of _ = []

pub not_to_app :
    (r : Reply) (location : Text)
    → refuses {A = AccessClaims × Text} (stop r) ≡ true
    → r ≢ to_app location
unfolding refuses is_refusal
not_to_app r location h e = let g = sym (ap is_refusal e) ∙ h in cc

pub nil_some : {c : ℕ} {t : Text} → some (c ∷ t) ≢ some []
nil_some h = cc

pub same_text-some : (s : Text) (o : Option Text) → same_text (some s) o ≡ true → o ≡ some s
same_text-some s none h = cc
same_text-some s (some t) h = ap some (sym ((text_eq_iff s t).0 h))

pub text_same_some : (o : Option Text) (s : Text) → same_text o (some s) ≡ true → o ≡ some s
text_same_some none s h = cc
text_same_some (some t) s h = ap some ((text_eq_iff t s).0 h)

pub non_empty-some : (o : Option Text) (s : Text) → non_empty o ≡ some s → (o ≡ some s) × (s ≢ [])
non_empty-some none s h = cc
non_empty-some (some []) s h = cc
non_empty-some (some (c ∷ t)) s h = (h, λ e. nil_some (h ∙ ap some e))
