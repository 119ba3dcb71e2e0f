-- ===== src/State/Json.antt =====
-- internal/state: what encoding/json makes of a text, and the values that the payload of an event spells.
use agent_ops.Prelude.{
  ℕ, zero, suc, ◌==◌, Str, str_eq, Option, none, some, List, [], ◌∷◌, map, Bool, true, false, ◌&&◌,
  leb, if◌then◌else◌,
}

abbrev pub between : ℕ → ℕ → ℕ → Bool
between lo hi c = leb lo c && leb c hi

-- whether the text begins with so many bytes of 0x80 to 0xBF
abbrev pub continues : ℕ → Str → Bool
continues zero s = true
continues (suc n) [] = false
continues (suc n) (c ∷ s) = between 0x80 0xbf c && continues n s

-- with the bounds of the second byte, and the number of further ones
abbrev pub rune_tail : ℕ → ℕ → ℕ → Str → Bool
rune_tail lo hi n [] = false
rune_tail lo hi n (c ∷ s) = between lo hi c && continues n s

-- utf8.DecodeRune: the bytes behind the first one that belong to its rune, if the rune is valid
unfoldable pub rune_rest : ℕ → Str → Option ℕ
rune_rest c s =
    if leb c 0x7f
    then some 0
    else if between 0xc2 0xdf c && rune_tail 0x80 0xbf 0 s
    then some 1
    else if c == 0xe0 && rune_tail 0xa0 0xbf 1 s
    then some 2
    else if c == 0xed && rune_tail 0x80 0x9f 1 s
    then some 2
    else if between 0xe1 0xec c && rune_tail 0x80 0xbf 1 s
    then some 2
    else if between 0xee 0xef c && rune_tail 0x80 0xbf 1 s
    then some 2
    else if c == 0xf0 && rune_tail 0x90 0xbf 2 s
    then some 3
    else if between 0xf1 0xf3 c && rune_tail 0x80 0xbf 2 s
    then some 3
    else if c == 0xf4 && rune_tail 0x80 0x8f 2 s
    then some 3
    else none

-- a byte that begins no valid rune becomes U+FFFD; `n` bytes of a valid rune are left
unfoldable pub valid_utf8 : ℕ → Str → Str
valid_utf8 n [] = []
valid_utf8 (suc n) (c ∷ s) = c ∷ valid_utf8 n s
valid_utf8 zero (c ∷ s) =
    let invalid = 0xef ∷ 0xbf ∷ 0xbd ∷ valid_utf8 0 s in
    elim (rune_rest c s) [ none ↦ invalid | some n ↦ c ∷ valid_utf8 n s ]

-- the text that a JSON string of it spells
abbrev pub json_text : Str → Str
json_text s = valid_utf8 0 s

pub data JsonValue : Type 0 where
  json_string : Str → JsonValue
  json_number : ℕ → JsonValue
  json_bool : Bool → JsonValue
  json_strings : List Str → JsonValue
  json_time : Option ℕ → JsonValue

abbrev pub Fields : Type 0
Fields = List (Str × JsonValue)

-- a string as json.Marshal writes it
abbrev pub spelled : Str → JsonValue
spelled s = json_string (json_text s)

abbrev pub all_spelled : List Str → JsonValue
all_spelled ss = json_strings (map (λ s. json_text s) ss)

-- the payload column: the JSON text of a caller of Append, or an object that mustJSON wrote
pub data Payload : Type 0 where
  raw : Str → Payload
  object : Fields → Payload

unfoldable pub field : Str → Fields → Option JsonValue
field key [] = none
field key ((k, v) ∷ fs) = let rest = field key fs in if str_eq k key then some v else rest

-- a field as json.Unmarshal sets it: the zero value where it is missing or of another kind
abbrev pub as_text : Option JsonValue → Str
as_text (some (json_string s)) = s
as_text _ = []

abbrev pub as_number : Option JsonValue → ℕ
as_number (some (json_number n)) = n
as_number _ = 0

abbrev pub as_bool : Option JsonValue → Bool
as_bool (some (json_bool b)) = b
as_bool _ = false

abbrev pub as_texts : Option JsonValue → List Str
as_texts (some (json_strings ss)) = ss
as_texts _ = []

abbrev pub as_time : Option JsonValue → Option ℕ
as_time (some (json_time t)) = t
as_time _ = none
