-- ===== src/Common/Lists.antt =====
-- Lists measured by native numbers, and the array methods that the program calls.
use Prim.Native.Nat.{ℕ, zero, suc}
use mathlib.Core.Path.{◌≡◌, refl, sym}
use mathlib.Core.Logic.{◌⊎◌, inl, inr}
use mathlib.Core.Bool.{Bool, true, false, ◌&&◌, ◌||◌}
use mathlib.Core.Option.{Option, none, some}
use mathlib.Core.List.{List, [], ◌∷◌}
use native.Mathlib.Omega.{arith}
use opencode_rc.Common.Tests.{if◌then◌else◌, Bool-cases, and-true}

module _ {ℓ} {A : Type ℓ} where
  abbrev pub length : List A → ℕ
  length [] = 0
  length (x ∷ xs) = suc (length xs)

  abbrev pub take : ℕ → List A → List A
  take zero xs = []
  take (suc n) [] = []
  take (suc n) (x ∷ xs) = x ∷ take n xs

  abbrev pub drop : ℕ → List A → List A
  drop zero xs = xs
  drop (suc n) [] = []
  drop (suc n) (x ∷ xs) = drop n xs

  -- `Array.prototype.some`
  unfoldable pub any : (A → Bool) → List A → Bool
  any p [] = false
  any p (x ∷ xs) = p x || any p xs

  -- `Array.prototype.every`
  unfoldable pub every : (A → Bool) → List A → Bool
  every p [] = true
  every p (x ∷ xs) = p x && every p xs

  -- `Array.prototype.filter`
  unfoldable pub filter : (A → Bool) → List A → List A
  filter p [] = []
  filter p (x ∷ xs) = let rest = filter p xs in if p x then x ∷ rest else rest

  -- `Array.prototype.find`
  unfoldable pub find : (A → Bool) → List A → Option A
  find p [] = none
  find p (x ∷ xs) = let rest = find p xs in if p x then some x else rest

-- Membership by recursion.
abbrev pub In : {A : Type 0} → A → List A → Type 0
In a [] = ⊥
In a (x ∷ xs) = (a ≡ x) ⊎ In a xs

module _ {A : Type 0} (p : A → Bool) where
  pub find_sound : (xs : List A) {x : A} → find p xs ≡ some x → (p x ≡ true) × In x xs
  unfolding find
  find_sound [] h = cc
  find_sound (y ∷ xs) {x} h = elim (Bool-cases (p y)) [
    | inl t ↦ let e : y ≡ x = ground arith in (rw (← e) t, inl (sym e))
    | inr f ↦ let (q, m) = find_sound xs (rw f at h) in (q, inr m)
  ]

  pub find-eq-none : (xs : List A) → find p xs ≡ none → any p xs ≡ false
  unfolding find any
  find-eq-none [] h = refl
  find-eq-none (x ∷ xs) h = ground (arith, find-eq-none xs)

  pub any_sound : (xs : List A) → any p xs ≡ true → (x : A) × In x xs × (p x ≡ true)
  unfolding any
  any_sound [] h = cc
  any_sound (x ∷ xs) h = elim (Bool-cases (p x)) [
    | inl t ↦ (x, inl refl, t)
    | inr f ↦ let (y, m, q) = any_sound xs (rw f at h) in (y, inr m, q)
  ]

  pub any_complete : (xs : List A) {x : A} → In x xs → p x ≡ true → any p xs ≡ true
  unfolding any
  any_complete [] m h = elim m [ ]
  any_complete (y ∷ xs) (inl e) h = rw (← e, h)
  any_complete (y ∷ xs) (inr m) h = ground (arith, any_complete xs m h)

  pub every_sound : (xs : List A) {x : A} → every p xs ≡ true → In x xs → p x ≡ true
  unfolding every
  every_sound [] h m = elim m [ ]
  every_sound (y ∷ xs) h (inl e) = rw e (and-true h).0
  every_sound (y ∷ xs) h (inr m) = every_sound xs (and-true h).1 m
