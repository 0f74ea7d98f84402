-- ===== src/Provider/Json.antt =====
-- JSON values, and what `json.Unmarshal` reads of one into the structs of
-- backend/internal/llm/anthropic_provider.go. A map has a key as it is
-- written, the last of equal ones; the field of a struct takes the values of all keys that are its name but for
-- case, one after the other.
use Prim.Native.String.{[] as empty, ◌∷◌ as char_then}
use Prim.Native.Char.{code}
use anynote.Base.{
  ℕ, ◌+◌, Bool, true, false, ◌&&◌, Option, none, some, String, str_eq, leb, ◌==◌, if◌then◌else◌,
}

mutual
  pub data Json : Type 0 where
    null : Json
    bool : Bool → Json
    num : ℕ → Json
    str : String → Json
    arr : Items → Json
    obj : Fields → Json

  pub data Items : Type 0 where
    nil : Items
    cons : Json → Items → Items

  pub data Fields : Type 0 where
    end : Fields
    field : String → Json → Fields → Fields

abbrev pub get_field : String → Fields → Option Json
get_field key end = none
get_field key (field k v fields) = elim (get_field key fields) [
  | some w ↦ some w
  | none ↦ if str_eq k key then some v else none
]

-- Unicode's simple folding, where it leads to a small ASCII letter: the capitals, the long s and the Kelvin sign.
abbrev fold_rune : ℕ → ℕ
fold_rune n =
    if leb 65 n && leb n 90 then n + 32 else if n == 383 then 115 else if n == 8490 then 107 else n

unfoldable pub equal_fold : String → String → Bool
equal_fold empty empty = true
equal_fold empty (char_then d t) = false
equal_fold (char_then c s) empty = false
equal_fold (char_then c s) (char_then d t) =
    (fold_rune (code c) == fold_rune (code d)) && equal_fold s t

-- What a string field holds after a value: only a string is read.
abbrev pub set_text : String → Json → String
set_text current (str s) = s
set_text current _ = current

-- A string field of a struct, after an object.
unfoldable pub read_text : String → Fields → String → String
read_text name end current = current
read_text name (field k v fields) current =
    read_text name fields (if equal_fold k name then set_text current v else current)

abbrev pub set_struct : String → String → Json → String
set_struct name current (obj fields) = read_text name fields current
set_struct name current _ = current

-- A field that is a struct with a string field.
unfoldable pub read_nested : String → String → Fields → String → String
unfolding read_text
read_nested outer name end current = current
read_nested outer name (field k v fields) current =
    read_nested outer name fields
      (if equal_fold k outer then set_struct name current v else current)

-- A string that is unmarshalled by itself: it stays empty where the value is absent or no string.
abbrev pub text_or_empty : Option Json → String
text_or_empty none = ""
text_or_empty (some j) = set_text "" j
