-- ===== src/Launch/Lines.antt =====
-- The lines of a text, and of more text behind it (`splitLines` of cli/src/server.ts).
use opencode_rc.Common.{
  ℕ, true, false, ◌&&◌, Bool-cases, inl, inr, Text, push, ◌==◌, List, [], ◌∷◌, ◌++◌, ◌≡◌, ◌≢◌, refl,
  sym, ap, ◌∙◌, arith,
}
use opencode_rc.Launch.{at_line_feed, split_lines, pop}

-- A text as its whole lines and what is behind them.
abbrev pub cut : Text → List Text × Text
cut s = pop (split_lines s)

abbrev glue : ℕ → List Text × Text → List Text × Text
glue c ([], r) = ([], c ∷ r)
glue c (l ∷ ls, r) = ((c ∷ l) ∷ ls, r)

abbrev line_ended : List Text × Text → List Text × Text
line_ended (ls, r) = ([] ∷ ls, r)

abbrev before : List Text → List Text × Text → List Text × Text
before front (ls, r) = (front ++ ls, r)

cons_nil : {A : Type 0} {x : A} {xs : List A} → (x ∷ xs) ≢ []
cons_nil h = cc

-- The lines of a text never are the empty list.
push-ne : (c : ℕ) (parts : List Text) → push c parts ≢ []
unfolding push
push-ne c [] h = cc
push-ne c (p ∷ ps) h = cc

split_lines-ne : (s : Text) → split_lines s ≢ []
unfolding split_lines
split_lines-ne [] h = cc
split_lines-ne (c ∷ s) h = elim (Bool-cases (c == 10)) [
  | inl t ↦ cons_nil (rw t at h)
  | inr f ↦ elim (Bool-cases (c == 13 && at_line_feed s)) [
    | inl t ↦ split_lines-ne s (rw (f, t) at h)
    | inr g ↦ push-ne c (split_lines s) (rw (f, g) at h)
  ]
]

pop-push : (c : ℕ) (parts : List Text) → parts ≢ [] → pop (push c parts) ≡ glue c (pop parts)
unfolding pop push
pop-push c [] h = absurd (h refl)
pop-push c (p ∷ []) h = refl
pop-push c (p ∷ q ∷ ps) h = refl

pop-nil : (parts : List Text) → parts ≢ [] → pop ([] ∷ parts) ≡ line_ended (pop parts)
unfolding pop
pop-nil [] h = absurd (h refl)
pop-nil (p ∷ ps) h = refl

cut-feed : (c : ℕ) (s : Text) → (c == 10) ≡ true → cut (c ∷ s) ≡ line_ended (cut s)
unfolding split_lines
cut-feed c s t = rw t (pop-nil (split_lines s) (split_lines-ne s))

cut-return :
    (c : ℕ) (s : Text)
    → (c == 10) ≡ false
    → (c == 13 && at_line_feed s) ≡ true
    → cut (c ∷ s) ≡ cut s
unfolding split_lines
cut-return c s f t = rw (f, t) refl

cut-other :
    (c : ℕ) (s : Text)
    → (c == 10) ≡ false
    → (c == 13 && at_line_feed s) ≡ false
    → cut (c ∷ s) ≡ glue c (cut s)
unfolding split_lines
cut-other c s f g = rw (f, g) (pop-push c (split_lines s) (split_lines-ne s))

-- A text without a whole line is what is behind its lines.
glue_none :
    (c : ℕ) (x : List Text × Text) → (glue c x).0 ≡ [] → (x.0 ≡ []) × ((glue c x).1 ≡ c ∷ x.1)
glue_none c ([], r) h = (refl, refl)
glue_none c (l ∷ ls, r) h = absurd (cons_nil h)

feed_line : (s : Text) → at_line_feed s ≡ true → (cut s).0 ≢ []
feed_line [] t h = cc
feed_line (c ∷ s) t h = cons_nil (sym (ap (λ (x : List Text × Text). x.0) (cut-feed c s t)) ∙ h)

pub cut_none : (s : Text) → (cut s).0 ≡ [] → (cut s).1 ≡ s
unfolding split_lines pop
cut_none [] h = refl
cut_none (c ∷ s) h = elim (Bool-cases (c == 10)) [
  | inl t ↦ absurd (cons_nil (sym (ap (λ (x : List Text × Text). x.0) (cut-feed c s t)) ∙ h))
  | inr f ↦ elim (Bool-cases (c == 13 && at_line_feed s)) [
    | inl t ↦ absurd (
        feed_line s (ground arith)
          (sym (ap (λ (x : List Text × Text). x.0) (cut-return c s f t)) ∙ h))
    | inr g ↦
        let e = cut-other c s f g in
        let (z, r) = glue_none c (cut s) (sym (ap (λ (x : List Text × Text). x.0) e) ∙ h) in
        ap (λ (x : List Text × Text). x.1) e ∙ r ∙ ap (λ t. c ∷ t) (cut_none s z)
  ]
]

glue-before :
    (c : ℕ) (l : Text) (ls : List Text) (x : List Text × Text)
    → glue c (before (l ∷ ls) x) ≡ before ((c ∷ l) ∷ ls) x
glue-before c l ls (xs, r) = refl

-- The lines of `x` and of more text behind it.
abbrev whole : List Text × Text → Text → List Text × Text
whole x b = before x.0 (cut (x.1 ++ b))

line_ended-whole :
    (x : List Text × Text) (b : Text) → line_ended (whole x b) ≡ whole (line_ended x) b
line_ended-whole (ls, r) b = refl

before-nil : (x : List Text × Text) → before [] x ≡ x
before-nil (ls, r) = refl

glue-whole :
    (c : ℕ) (a b : Text) (x : List Text × Text)
    → cut a ≡ x
    → (c == 10) ≡ false
    → (c == 13 && at_line_feed (a ++ b)) ≡ false
    → glue c (whole x b) ≡ whole (glue c x) b
glue-whole c a b (l ∷ ls, r) e f g = glue-before c l ls (cut (r ++ b))
glue-whole c a b ([], r) e f g =
    let same =
      sym (ap (λ (y : List Text × Text). y.1) e)
      ∙ cut_none a (ap (λ (y : List Text × Text). y.0) e) in
    let g' = ap (λ t. c == 13 && at_line_feed (t ++ b)) same ∙ g in
    ap (glue c) (before-nil (cut (r ++ b)))
    ∙ sym (cut-other c (r ++ b) f g')
    ∙ sym (before-nil (cut (c ∷ r ++ b)))

-- A character that ends no line, in front.
behind :
    (c : ℕ) (a b : Text)
    → cut (a ++ b) ≡ whole (cut a) b
    → (c == 10) ≡ false
    → cut (c ∷ a ++ b) ≡ whole (cut (c ∷ a)) b
unfolding split_lines pop
behind c [] b h f =
    sym (ap (λ x. whole x b) (cut-other c [] f (ground arith)) ∙ before-nil (cut (c ∷ b)))
behind c (d ∷ a) b h f = elim (Bool-cases (c == 13 && at_line_feed (d ∷ a))) [
  | inl t ↦ cut-return c (d ∷ a ++ b) f t ∙ h ∙ ap (λ x. whole x b) (sym (cut-return c (d ∷ a) f t))
  | inr g ↦
      cut-other c (d ∷ a ++ b) f g
      ∙ ap (glue c) h
      ∙ glue-whole c (d ∷ a) b (cut (d ∷ a)) refl f g
      ∙ ap (λ x. whole x b) (sym (cut-other c (d ∷ a) f g))
]

-- More text behind a text.
pub cut-append : (a b : Text) → cut (a ++ b) ≡ whole (cut a) b
unfolding split_lines pop
cut-append [] b = sym (before-nil (cut b))
cut-append (c ∷ a) b = elim (Bool-cases (c == 10)) [
  | inl t ↦
      cut-feed c (a ++ b) t
      ∙ ap line_ended (cut-append a b)
      ∙ line_ended-whole (cut a) b
      ∙ ap (λ x. whole x b) (sym (cut-feed c a t))
  | inr f ↦ behind c a b (cut-append a b) f
]
