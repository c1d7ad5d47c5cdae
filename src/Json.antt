-- ===== src/Json.antt =====
-- JSON values as the program sees them after `JSON.parse`. A number is kept as its literal: no
-- code of the program reads one. A missing field (`undefined`) is `none`.
use opencode_rc.Common.{
  Bool, false, ◌||◌, List, [], ◌∷◌, Text, text_eq, Option, none, some, if◌then◌else◌, any,
}

mutual
  pub data Json : Type 0 where
    null : Json
    bool : Bool → Json
    num : Text → Json
    str : Text → Json
    arr : Items → Json
    obj : Fields → Json

  pub data Items : Type 0 where
    nil : Items
    cons : Json → Items → Items

  pub data Fields : Type 0 where
    end : Fields
    field : Text → Json → Fields → Fields

unfoldable pub items : Items → List Json
items nil = []
items (cons j js) = j ∷ items js

unfoldable pub of_items : List Json → Items
of_items [] = nil
of_items (j ∷ js) = cons j (of_items js)

-- `o[name]`
unfoldable pub get : Text → Fields → Option Json
get name end = none
get name (field k v fs) = let rest = get name fs in if text_eq k name then some v else rest

-- `name in o`
unfoldable pub has : Text → Fields → Bool
has name end = false
has name (field k v fs) = text_eq k name || has name fs

-- `isObject`: the fields of an object that is neither null nor an array
unfoldable pub as_object : Json → Option Fields
as_object (obj fs) = some fs
as_object _ = none

-- A property of an optional value, as `isObject(v) ? v.name : undefined` reads it.
unfoldable pub get_of : Text → Option Json → Option Json
unfolding get
get_of name (some (obj fs)) = get name fs
get_of name _ = none

-- `Array.isArray(v) && v.some(p)`
unfoldable pub some_item : (Json → Bool) → Option Json → Bool
unfolding items any
some_item p (some (arr js)) = any p (items js)
some_item p _ = false

-- `typeof v === "string" && p(v)`
unfoldable pub is_text : (Text → Bool) → Option Json → Bool
is_text p (some (str s)) = p s
is_text p _ = false
