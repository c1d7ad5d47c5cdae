-- ===== src/Tokens/Examples.antt =====
-- Codecs that join the fields of a record, for runs on a database in memory.
use opencode_rc.Common.{ℕ, zero, suc, Text, [], ◌∷◌, Option, none, some, ◌≡◌, ◌≢◌, refl, ap}
use opencode_rc.Tokens.{RefreshRecord, LoginCodeRecord, Codec}

-- A field in front of the fields behind it.
abbrev pub field : Text → Text → Text
field [] rest = 0 ∷ rest
field (c ∷ s) rest = suc c ∷ field s rest

abbrev pub push_char : ℕ → Text × Text → Text × Text
push_char c (s, rest) = (c ∷ s, rest)

abbrev pub take_field : Text → Text × Text
take_field [] = ([], [])
take_field (zero ∷ rest) = ([], rest)
take_field (suc c ∷ s) = push_char c (take_field s)

pub take_field-field : (s rest : Text) → take_field (field s rest) ≡ (s, rest)
take_field-field [] rest = refl
take_field-field (c ∷ s) rest = ap (push_char c) (take_field-field s rest)

pub field_ne : (s rest : Text) → field s rest ≢ []
field_ne [] rest h = cc
field_ne (c ∷ s) rest h = cc

abbrev pub decode_refresh : Text → RefreshRecord
decode_refresh s =
    let (chain, a) = take_field s in
    let (uid, b) = take_field a in
    let (email, c) = take_field b in
    record { chain = chain; uid = uid; email = email; name = (take_field c).0 }

abbrev pub refresh_json : Codec RefreshRecord
refresh_json = record {
  encode = λ r. field r.chain (field r.uid (field r.email (field r.name [])));
  decode = λ s. some (decode_refresh s);
  decode-encode = λ r. simp (take_field-field);
  encode-ne-nil = λ r. field_ne r.chain _;
}

abbrev pub sid_text : Option Text → Text
sid_text none = []
sid_text (some s) = 1 ∷ s

abbrev pub text_sid : Text → Option Text
text_sid [] = none
text_sid (c ∷ s) = some s

pub text_sid-sid_text : (o : Option Text) → text_sid (sid_text o) ≡ o
text_sid-sid_text none = refl
text_sid-sid_text (some s) = refl

abbrev pub decode_code : Text → LoginCodeRecord
decode_code s =
    let (uid, a) = take_field s in
    let (email, b) = take_field a in
    let (name, c) = take_field b in
    let (sid, d) = take_field c in
    record {
      claims = record { uid = uid; email = email; name = name; sid = text_sid sid };
      challenge = (take_field d).0;
    }

abbrev pub code_json : Codec LoginCodeRecord
code_json = record {
  encode = λ r. field r.claims.uid (
      field r.claims.email
        (field r.claims.name (field (sid_text r.claims.sid) (field r.challenge []))));
  decode = λ s. some (decode_code s);
  decode-encode = λ r. simp (take_field-field, text_sid-sid_text);
  encode-ne-nil = λ r. field_ne r.claims.uid _;
}

abbrev pub hash : Text → Text
hash token = b'#' ∷ token

abbrev pub ann : RefreshRecord
ann = record { chain = b'c' ∷ []; uid = b'a' ∷ []; email = b'e' ∷ []; name = b'n' ∷ [] }
