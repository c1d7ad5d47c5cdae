-- ===== src/Api/Paths/Escapes.antt =====
-- Percent escapes: the first test of `canonicalPath` (proxy.ts) and `decodeURIComponent`.
use opencode_rc.Common.{
  ℕ, zero, suc, Bool, false, ◌&&◌, ◌||◌, List, [], ◌∷◌, Text, text, Option, none, some, includes,
  if◌then◌else◌, ◌==◌, ◌+◌, ◌-◌, ◌*◌, leb, lower_char, ltb,
}

-- `[\x00-\x1f\x7f]`
unfoldable pub is_control : ℕ → Bool
is_control c = leb c 31 || c == 127

-- `[0-9a-f]`, the letter in lower case
unfoldable pub is_hex : ℕ → Bool
is_hex c = (leb b'0' c && leb c b'9') || (leb b'a' c && leb c b'f')

-- The two characters behind a "%" that stand for a structural or a control character.
unfoldable pub is_structural : Text → Bool
unfolding is_hex includes text
is_structural (a ∷ b ∷ s) =
    includes
      (text "2f"
        ∷ text "5c"
        ∷ text "3f"
        ∷ text "23"
        ∷ text "3b"
        ∷ text "2e"
        ∷ text "25"
        ∷ text "7f"
        ∷ [])
      (lower_char a ∷ lower_char b ∷ [])
    || ((a == b'0' || a == b'1') && is_hex (lower_char b))
is_structural _ = false

-- `/%(2f|5c|3f|23|3b|2e|25|[01][0-9a-f]|7f)/i.test(path)`
unfoldable pub escapes_structure : Text → Bool
unfolding is_structural
escapes_structure [] = false
escapes_structure (c ∷ s) = (c == b'%' && is_structural s) || escapes_structure s

-- What `decodeURIComponent` reads: a character, or the byte of an escape.
pub data Unit8 : Type 0 where
  raw : ℕ → Unit8
  byte : ℕ → Unit8

unfoldable pub hex_value : ℕ → Option ℕ
hex_value c =
    if leb b'0' c && leb c b'9'
    then some (c - 48)
    else if leb b'a' c && leb c b'f'
    then some (c - 87)
    else if leb b'A' c && leb c b'F'
    then some (c - 55)
    else none

infixl 5 ◌>>=◌
abbrev pub ◌>>=◌ : {A B : Type 0} → Option A → (A → Option B) → Option B
none >>= k = none
some a >>= k = k a

-- An unfinished or malformed escape is an error.
unfoldable pub units : Text → Option (List Unit8)
unfolding hex_value
units [] = some []
units (c ∷ []) = if c == b'%' then none else some (raw c ∷ [])
units (c ∷ a ∷ []) = do rest ← units (a ∷ []); if c == b'%' then none else some (raw c ∷ rest)
units (c ∷ a ∷ b ∷ s) =
    let escaped = (do
      x ← hex_value a
      y ← hex_value b
      rest ← units s
      some (byte (x * 16 + y) ∷ rest)) in
    let plain = (do rest ← units (a ∷ b ∷ s); some (raw c ∷ rest)) in
    if c == b'%' then escaped else plain

-- The payload of a continuation byte.
unfoldable pub continuation : Unit8 → Option ℕ
continuation (byte b) = if leb 0x80 b && leb b 0xbf then some (b - 0x80) else none
continuation (raw c) = none

-- A scalar value of `n` bytes is in range: not overlong, no surrogate, at most U+10FFFF.
unfoldable pub scalar : (lo c : ℕ) → Option ℕ
scalar lo c = if ltb c lo || (leb 0xd800 c && leb c 0xdfff) || ltb 0x10ffff c then none else some c

-- Reads the bytes of UTF-8: `need` continuation bytes are missing from a character of which `acc`
-- was read, and which must be at least `lo`.
unfoldable pub assemble : (need lo acc : ℕ) → List Unit8 → Option Text
unfolding continuation scalar
assemble zero lo acc [] = some []
assemble (suc n) lo acc [] = none
assemble zero lo acc (raw c ∷ us) = do rest ← assemble 0 0 0 us; some (c ∷ rest)
assemble zero lo acc (byte b ∷ us) =
    let ascii = (do rest ← assemble 0 0 0 us; some (b ∷ rest)) in
    let two = assemble 1 0x80 (b - 0xc0) us in
    let three = assemble 2 0x800 (b - 0xe0) us in
    let four = assemble 3 0x10000 (b - 0xf0) us in
    if ltb b 0x80
    then ascii
    else if ltb b 0xc0
    then none
    else if ltb b 0xe0
    then two
    else if ltb b 0xf0
    then three
    else if ltb b 0xf8
    then four
    else none
assemble (suc zero) lo acc (u ∷ us) = do
  x ← continuation u
  c ← scalar lo (acc * 64 + x)
  rest ← assemble 0 0 0 us
  some (c ∷ rest)
assemble (suc (suc n)) lo acc (u ∷ us) =
    let go = λ (x : ℕ). assemble (suc n) lo (acc * 64 + x) us in continuation u >>= go

-- `decodeURIComponent`; `none` where it throws.
unfoldable pub decode_uri_component : Text → Option Text
unfolding units assemble
decode_uri_component s = do us ← units s; assemble 0 0 0 us
