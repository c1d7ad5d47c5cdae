-- ===== src/Regex/Laws.antt =====
-- What a regular expression accepts, one law for each way to build it.
use opencode_rc.Common.{
  ℕ, Bool, true, false, ◌&&◌, ◌||◌, [], ◌∷◌, ◌++◌, Text, ◌≡◌, ◌↔◌, inl, inr, refl, sym, ap, arith,
  Bool-cases, and-true, or-true, every, ◌≢◌, ◌∙◌, ==_iff, if◌then◌else◌, ◌==◌,
}
use opencode_rc.Regex.{
  Re, never, eps, one, seq, alt, star, nullable, chain, either, deriv, accepts, lit, plus,
}

accepts-never : (s : Text) → accepts never s ≡ false
unfolding accepts
accepts-never [] = refl
accepts-never (c ∷ s) = accepts-never s

-- Where a text is cut in two for the two parts of a sequence.
abbrev pub Cut : Re → Re → Text → Type 0
Cut r q s = (u : Text) × (v : Text) × (s ≡ u ++ v) × (accepts r u ≡ true) × (accepts q v ≡ true)

either_of :
    (s : Text)
    → ((r q : Re) → accepts (alt r q) s ≡ (accepts r s || accepts q s))
    → (r q : Re) → accepts (either r q) s ≡ (accepts r s || accepts q s)
unfolding either
either_of s h never q = rw accepts-never
either_of s h eps never = ground (arith, accepts-never s)
either_of s h (one p) never = ground (arith, accepts-never s)
either_of s h (seq a b) never = ground (arith, accepts-never s)
either_of s h (alt a b) never = ground (arith, accepts-never s)
either_of s h (star a) never = ground (arith, accepts-never s)
either_of s h r q = h _ _

pub accepts-alt : (r q : Re) (s : Text) → accepts (alt r q) s ≡ (accepts r s || accepts q s)
unfolding accepts
accepts-alt r q [] = refl
accepts-alt r q (c ∷ s) = either_of s (λ a b. accepts-alt a b s) (deriv c r) (deriv c q)

accepts-either : (r q : Re) (s : Text) → accepts (either r q) s ≡ (accepts r s || accepts q s)
accepts-either r q s = either_of s (λ a b. accepts-alt a b s) r q

accepts-seq-never : (q : Re) (s : Text) → accepts (seq never q) s ≡ false
unfolding accepts chain
accepts-seq-never q [] = refl
accepts-seq-never q (c ∷ s) = accepts-never s

accepts-seq-eps : (q : Re) (s : Text) → accepts (seq eps q) s ≡ accepts q s
unfolding accepts chain
accepts-seq-eps q [] = refl
accepts-seq-eps q (c ∷ s) = rw (accepts-either, accepts-never)

accepts-chain : (r q : Re) (s : Text) → accepts (chain r q) s ≡ accepts (seq r q) s
unfolding chain
accepts-chain never q s = rw (accepts-seq-never, accepts-never)
accepts-chain eps q s = rw accepts-seq-eps
accepts-chain _ q s = refl

or_false : (b : Bool) → b ≡ (b || false)
or_false true = refl
or_false false = refl

-- One step of a sequence.
accepts-seq-cons :
    (r q : Re) (c : ℕ) (s : Text)
    → accepts (seq r q) (c ∷ s)
      ≡ (accepts (seq (deriv c r) q) s || (nullable r && accepts q (c ∷ s)))
unfolding accepts
accepts-seq-cons r q c s = elim (Bool-cases (nullable r)) [
  | inl t ↦ rw t (rw accepts-either (rw accepts-chain))
  | inr f ↦ rw f (accepts-chain (deriv c r) q s ∙ or_false (accepts (seq (deriv c r) q) s))
]

Cut-cons : (r q : Re) (c : ℕ) (s : Text) → Cut (deriv c r) q s → Cut r q (c ∷ s)
unfolding accepts
Cut-cons r q c s (u, v, e, a, b) = (c ∷ u, v, ap (◌∷◌ c) e, a, b)

-- A sequence accepts exactly what can be cut in two for its parts.
pub accepts-seq_sound : (r q : Re) (s : Text) → accepts (seq r q) s ≡ true → Cut r q s
unfolding accepts
accepts-seq_sound r q [] h = ([], [], refl, (and-true h).0, (and-true h).1)
accepts-seq_sound r q (c ∷ s) h = elim (or-true _ _ (rw (accepts-seq-cons r q c s) at h)) [
  | inl a ↦ Cut-cons r q c s (accepts-seq_sound (deriv c r) q s a)
  | inr b ↦ ([], c ∷ s, refl, (and-true b).0, (and-true b).1)
]

nullable_seq :
    (r q : Re) (v : Text) → nullable r ≡ true → accepts q v ≡ true → accepts (seq r q) v ≡ true
unfolding accepts
nullable_seq r q [] n h = rw (n, h)
nullable_seq r q (c ∷ v) n h = rw (accepts-seq-cons r q c v) (rw n (ground arith))

pub accepts-seq_complete :
    (r q : Re) (u v : Text)
    → accepts r u ≡ true
    → accepts q v ≡ true
    → accepts (seq r q) (u ++ v) ≡ true
unfolding accepts
accepts-seq_complete r q [] v a b = nullable_seq r q v a b
accepts-seq_complete r q (c ∷ u) v a b =
    rw (accepts-seq-cons r q c (u ++ v)) (rw (accepts-seq_complete (deriv c r) q u v a b))

deriv_one :
    (p : ℕ → Bool) (r : Re) (c : ℕ) (s : Text)
    → accepts (chain (if p c then eps else never) r) s ≡ (p c && accepts r s)
unfolding chain
deriv_one p r c s = elim (Bool-cases (p c)) [ inl t ↦ rw t | inr f ↦ rw f (accepts-never s) ]

-- A class of characters in front of a pattern reads one character.
pub accepts-one :
    (p : ℕ → Bool) (q : Re) (c : ℕ) (s : Text)
    → accepts (seq (one p) q) (c ∷ s) ≡ (p c && accepts q s)
unfolding accepts
accepts-one p q c s = deriv_one p q c s

pub accepts-one_nil : (p : ℕ → Bool) (q : Re) → accepts (seq (one p) q) [] ≡ false
unfolding accepts
accepts-one_nil p q = refl

-- A repeated class of characters accepts the texts all of whose characters are in it.
pub accepts-star-one : (p : ℕ → Bool) (s : Text) → accepts (star (one p)) s ≡ every p s
unfolding accepts every
accepts-star-one p [] = refl
accepts-star-one p (c ∷ s) =
    deriv_one p (star (one p)) c s ∙ ap (λ b. p c && b) (accepts-star-one p s)

-- A literal in front of a pattern is read off the front of the text.
pub accepts-lit_append : (t : Text) (r : Re) (s : Text) → accepts (lit t r) (t ++ s) ≡ accepts r s
unfolding lit
accepts-lit_append [] r s = refl
accepts-lit_append (c ∷ t) r s =
    ground (arith, accepts-one (λ d. d == c) (lit t r) c (t ++ s), accepts-lit_append t r s)

pub accepts-lit_sound :
    (t : Text) (r : Re) (s : Text)
    → accepts (lit t r) s ≡ true
    → (u : Text) × (s ≡ t ++ u) × (accepts r u ≡ true)
unfolding lit
accepts-lit_sound [] r s h = (s, refl, h)
accepts-lit_sound (c ∷ t) r [] h = cc (accepts-one_nil (λ d. d == c) (lit t r))
accepts-lit_sound (c ∷ t) r (d ∷ s) h =
    let (e, k) = and-true {a = d == c} (sym (accepts-one (λ x. x == c) (lit t r) d s) ∙ h) in
    let (u, f, m) = accepts-lit_sound t r s k in (u, cc ((==_iff d c).0 e, f), m)

-- The characters that `p+` reads: at least one, and all in the class.
abbrev pub Run : (ℕ → Bool) → Text → Type 0
Run p u = (u ≢ []) × (every p u ≡ true)

pub accepts-plus_sound :
    (p : ℕ → Bool) (r : Re) (s : Text)
    → accepts (plus p r) s ≡ true
    → (u : Text) × (v : Text) × (s ≡ u ++ v) × Run p u × (accepts r v ≡ true)
unfolding plus every
accepts-plus_sound p r s h =
    let (u, v, e, a, b) = accepts-seq_sound _ r s h in (u, v, e, Run_of u a, b)
  where
    Run_of : (u : Text) → accepts (seq (one p) (star (one p))) u ≡ true → Run p u
    Run_of [] a = cc (accepts-one_nil p (star (one p)))
    Run_of (c ∷ u) a =
        ((λ e. cc), ground (arith, accepts-one p (star (one p)) c u, accepts-star-one p u))

pub accepts-plus_complete :
    (p : ℕ → Bool) (r : Re) (u v : Text)
    → Run p u
    → accepts r v ≡ true
    → accepts (plus p r) (u ++ v) ≡ true
unfolding plus every
accepts-plus_complete p r [] v (n, a) b = absurd (n refl)
accepts-plus_complete p r (c ∷ u) v (n, a) b =
    accepts-seq_complete (seq (one p) (star (one p))) r (c ∷ u) v
      (accepts-one p (star (one p)) c u ∙ ap (λ x. p c && x) (accepts-star-one p u) ∙ a) b

-- The end of a pattern.
pub accepts-eps_iff : (s : Text) → (accepts eps s ≡ true) ↔ (s ≡ [])
unfolding accepts
accepts-eps_iff [] = ground arith
accepts-eps_iff (c ∷ s) = ground (arith, accepts-never s)
