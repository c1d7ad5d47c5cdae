-- ===== src/Redis/Memory.antt =====
-- A database in memory that obeys the laws of the commands, for tests: each key has a value and
-- the seconds that it has left, 0 where it stays.
use mathlib.Core.List.{reverse}
use opencode_rc.Common.{
  ◌==◌, ◌∷◌, [], Bool-cases, inl, inr, text_eq_iff, ℕ, zero, suc, ◌-◌, ◌≤◌, ◌<◌, Text, text_eq,
  Option, none, some, ◌≡◌, refl, arith, leb, if◌then◌else◌,
}
use opencode_rc.Redis.{Redis}

abbrev pub Entry : Type 0
Entry = Option (Text × ℕ)

abbrev pub Memory : Type 0
Memory = Text → Entry

abbrev pub value : Entry → Option Text
value none = none
value (some (v, n)) = some v

abbrev pub left : Entry → ℕ
left none = 0
left (some (v, n)) = n

unfoldable pub age : ℕ → Entry → Entry
age n none = none
age n (some (v, zero)) = some (v, zero)
age n (some (v, suc s)) = if leb (suc s) n then none else some (v, suc s - n)

unfoldable pub put : Text → Entry → Memory → Memory
put k e db j = if text_eq k j then e else db j

-- A decimal number, its last digit first, and one more.
unfoldable pub next_reversed : Text → Text
next_reversed [] = b'1' ∷ []
next_reversed (c ∷ s) = let rest = next_reversed s in if c == b'9' then b'0' ∷ rest else suc c ∷ s

unfoldable pub next_number : Option Text → Text
unfolding next_reversed
next_number none = b'1' ∷ []
next_number (some s) = reverse (next_reversed (reverse s))

unfoldable pub increase : Entry → Entry
unfolding next_number
increase none = some (next_number none, 0)
increase (some (v, n)) = some (next_number (some v), n)

pub value-put :
    (j k : Text) (e : Entry) (db : Memory)
    → value (put k e db j) ≡ (if text_eq k j then value e else value (db j))
unfolding put
value-put j k e db = ground arith

pub left-put :
    (j k : Text) (e : Entry) (db : Memory)
    → left (put k e db j) ≡ (if text_eq k j then left e else left (db j))
unfolding put
left-put j k e db = ground arith

pub value-age : (n : ℕ) (e : Entry) → n < left e → value (age n e) ≡ value e
unfolding age
value-age n none h = refl
value-age n (some (v, zero)) h = refl
value-age n (some (v, suc s)) h = ground arith

pub age-expired : (n : ℕ) (e : Entry) → 0 < left e → left e ≤ n → value (age n e) ≡ none
unfolding age
age-expired n none p h = refl
age-expired n (some (v, zero)) p h = absurd (omega arith)
age-expired n (some (v, suc s)) p h = ground arith

pub age-absent : (n : ℕ) (e : Entry) → value e ≡ none → value (age n e) ≡ none
unfolding age
age-absent n none h = refl
age-absent n (some (v, s)) h = ground arith

pub left-age : (n : ℕ) (e : Entry) → left (age n e) ≡ left e - n
unfolding age
left-age n none = omega arith
left-age n (some (v, zero)) = omega arith
left-age n (some (v, suc s)) = ground arith

value_of_increase : (e : Entry) → value (increase e) ≡ some (next_number (value e))
unfolding increase
value_of_increase none = refl
value_of_increase (some (v, n)) = refl

left_of_increase : (e : Entry) → left (increase e) ≡ left e
unfolding increase
left_of_increase none = refl
left_of_increase (some (v, n)) = refl

pub value-increase :
    (j k : Text) (db : Memory)
    → value (put k (increase (db k)) db j)
      ≡ (if text_eq k j then some (next_number (value (db j))) else value (db j))
unfolding put increase
value-increase j k db = elim (Bool-cases (text_eq k j)) [
  | inr f ↦ ground arith
  | inl t ↦ let e = (text_eq_iff k j).0 t in rw (t, e) (value_of_increase (db j))
]

pub left-increase : (j k : Text) (db : Memory) → left (put k (increase (db k)) db j) ≡ left (db j)
unfolding put
left-increase j k db = elim (Bool-cases (text_eq k j)) [
  | inr f ↦ ground arith
  | inl t ↦ let e = (text_eq_iff k j).0 t in rw (t, e) (left_of_increase (db j))
]

abbrev pub memory : Redis
memory = record {
  Db = Memory;
  get = λ k db. value (db k);
  ttl = λ k db. left (db k);
  set = λ k v n db. put k (some (v, n)) db;
  del = λ k db. put k none db;
  later = λ n db k. age n (db k);
  incr = λ k db. put k (increase (db k)) db;
  next = next_number;
  get-incr = λ j k db. value-increase j k db;
  ttl-incr = λ j k db. left-increase j k db;
  get-set = λ j k v n db. value-put j k (some (v, n)) db;
  get-del = λ j k db. value-put j k none db;
  ttl-set = λ j k v n db. left-put j k (some (v, n)) db;
  ttl-del = λ j k db. left-put j k none db;
  get-later = λ j n db h. value-age n (db j) h;
  get-expired = λ j n db p h. age-expired n (db j) p h;
  get-absent = λ j n db h. age-absent n (db j) h;
  ttl-later = λ j n db. left-age n (db j);
}

abbrev pub empty : Memory
empty k = none
