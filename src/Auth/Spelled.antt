-- ===== src/Auth/Spelled.antt =====
-- A text for payloads, without spaces and dots.
use opencode_rc.Common.{
  ℕ, zero, suc, ◌+◌, Bool, true, not, Text, [], ◌∷◌, every, is_space, Option, none, some, ◌≡◌, ◌≢◌,
  ◌==◌, refl, ap, ◌∙◌, arith, if◌then◌else◌,
}
use opencode_rc.Auth.AccessToken.{AccessPayload, Crypto}

-- A number and a text, in front of the rest.
abbrev pub unary : ℕ → Text → Text
unary zero rest = b'z' ∷ rest
unary (suc n) rest = b'a' ∷ unary n rest

abbrev pub spell : Text → Text → Text
spell [] rest = b'e' ∷ rest
spell (c ∷ s) rest = unary c (spell s rest)

abbrev pub in_front : ℕ → Text × Text → Text × Text
in_front c (s, rest) = (c ∷ s, rest)

abbrev pub read : ℕ → Text → Text × Text
read k [] = ([], [])
read k (c ∷ s) =
    let here = in_front k (read 0 s) in
    let more = read (suc k) s in if c == b'e' then ([], s) else if c == b'z' then here else more

read-unary : (k n : ℕ) (rest : Text) → read k (unary n rest) ≡ in_front (k + n) (read 0 rest)
read-unary k zero rest = ap (λ m. in_front m (read 0 rest)) (ground arith)
read-unary k (suc n) rest =
    read-unary (suc k) n rest ∙ ap (λ m. in_front m (read 0 rest)) (ground arith)

pub read-spell : (s rest : Text) → read 0 (spell s rest) ≡ (s, rest)
read-spell [] rest = refl
read-spell (c ∷ s) rest =
    read-unary 0 c (spell s rest)
    ∙ ap (in_front (0 + c)) (read-spell s rest)
    ∙ ap (λ m. (m ∷ s, rest)) (ground arith)

module _ (q : ℕ → Bool) (a : q b'a' ≡ true) (z : q b'z' ≡ true) (e : q b'e' ≡ true) where
  every-unary : (n : ℕ) (rest : Text) → every q rest ≡ true → every q (unary n rest) ≡ true
  unfolding every
  every-unary zero rest h = rw (z, h) refl
  every-unary (suc n) rest h = rw (a, every-unary n rest h) refl

  every-spell : (s rest : Text) → every q rest ≡ true → every q (spell s rest) ≡ true
  unfolding every
  every-spell [] rest h = rw (e, h) refl
  every-spell (c ∷ s) rest h = every-unary c (spell s rest) (every-spell s rest h)

-- A field that may be missing, as a text.
abbrev opt : Option Text → Text
opt none = []
opt (some s) = 0 ∷ s

abbrev opt_num : Option ℕ → Text
opt_num none = []
opt_num (some n) = n ∷ []

abbrev un_opt : Text → Option Text
un_opt [] = none
un_opt (c ∷ s) = some s

abbrev un_num : Text → Option ℕ
un_num [] = none
un_num (n ∷ s) = some n

un_opt-opt : (o : Option Text) → un_opt (opt o) ≡ o
un_opt-opt none = refl
un_opt-opt (some s) = refl

un_num-opt_num : (o : Option ℕ) → un_num (opt_num o) ≡ o
un_num-opt_num none = refl
un_num-opt_num (some n) = refl

abbrev encode : AccessPayload → Text
encode p = spell (opt p.typ) (
    spell (opt p.uid)
      (spell (opt p.email) (spell (opt p.name) (spell (opt p.sid) (spell (opt_num p.exp) [])))))

abbrev decode : Text → AccessPayload
decode s =
    let (typ, s1) = read 0 s in
    let (uid, s2) = read 0 s1 in
    let (email, s3) = read 0 s2 in
    let (name, s4) = read 0 s3 in
    let (sid, s5) = read 0 s4 in
    record {
      typ = un_opt typ;
      uid = un_opt uid;
      email = un_opt email;
      name = un_opt name;
      sid = un_opt sid;
      exp = un_num (read 0 s5).0;
    }

every-encode :
    (q : ℕ → Bool)
    → q b'a' ≡ true
    → q b'z' ≡ true
    → q b'e' ≡ true
    → (p : AccessPayload) → every q (encode p) ≡ true
unfolding every
every-encode q a z e p = every-spell q a z e (opt p.typ) _ (
    every-spell q a z e (opt p.uid) _ (
      every-spell q a z e (opt p.email) _ (
        every-spell q a z e (opt p.name) _
          (every-spell q a z e (opt p.sid) _ (every-spell q a z e (opt_num p.exp) [] refl)))))

pub spell_ne : (s rest : Text) → spell s rest ≢ []
spell_ne [] rest h = cc
spell_ne (zero ∷ s) rest h = cc
spell_ne (suc c ∷ s) rest h = cc

abbrev mac : Text → Text → Text
mac payload secret = b'm' ∷ []

pub mac_plain : (payload secret : Text) → every (λ c. not (is_space c)) (mac payload secret) ≡ true
unfolding every is_space
mac_plain payload secret = refl

pub mac_dotless : (payload secret : Text) → every (λ c. not (c == b'.')) (mac payload secret) ≡ true
unfolding every
mac_dotless payload secret = refl

pub encode_plain : (p : AccessPayload) → every (λ c. not (is_space c)) (encode p) ≡ true
unfolding is_space
encode_plain p = every-encode _ refl refl refl p

pub decode-encode : (p : AccessPayload) → some (decode (encode p)) ≡ some p
decode-encode p = simp (read-spell, un_opt-opt, un_num-opt_num)

abbrev pub spelled : Crypto
spelled = record {
  mac = mac;
  encode = encode;
  decode = λ s. some (decode s);
  code_challenge = λ v. v;
  decode-encode = decode-encode;
  encode-ne-nil = λ p. spell_ne (opt p.typ) _;
  mac_no_space = mac_plain;
  encode_no_space = encode_plain;
  mac_no_dot = mac_dotless;
}
