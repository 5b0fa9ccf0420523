-- ===== src/Json/Printed.antt =====
-- `str(value)` of a JSON value in Python, on ASCII.
use pywings.Prelude.{
  ℕ, ◌+◌, ◌-◌, ◌/◌, ◌%◌, ◌≡◌, refl, true, false, not, ◌&&◌, ◌||◌, ◌++◌, [], ◌∷◌, ◌==◌, ltb, leb,
  Text, lit, has_char, if◌then◌else◌,
}
use pywings.Numbers.{plus, minus, whole_text}
use pywings.Json.{Json, null, bool, int, neg, str, arr, obj, Items, nil, cons, Fields, end, field}

hex_digit : ℕ → ℕ
hex_digit n = if leb n 9 then b'0' + n else b'a' + (n - 10)

-- One character of a literal between two `quote`s.
escape : ℕ → ℕ → Text
unfolding hex_digit
escape quote c =
    if c == quote || c == b'\\'
    then b'\\' ∷ c ∷ []
    else if c == 10
    then lit "\\n"
    else if c == 13
    then lit "\\r"
    else if c == 9
    then lit "\\t"
    else if ltb c 32 || c == 127
    then lit "\\x" ++ (hex_digit (c / 16) ∷ hex_digit (c % 16) ∷ [])
    else c ∷ []

escape_all : ℕ → Text → Text
unfolding escape
escape_all quote [] = []
escape_all quote (c ∷ s) = escape quote c ++ escape_all quote s

-- repr(s)
quoted : Text → Text
unfolding escape_all has_char
quoted s =
    let quote : ℕ = if has_char b'\'' s && not (has_char b'"' s) then b'"' else b'\'' in
    quote ∷ (escape_all quote s ++ (quote ∷ []))

-- repr(v), of a value, of what follows an element and of what follows a field.
mutual
  unfolding quoted whole_text

  repr : Json → Text
  repr null = lit "None"
  repr (bool true) = lit "True"
  repr (bool false) = lit "False"
  repr (int n) = whole_text (plus n)
  repr (neg n) = whole_text (minus n)
  repr (str s) = quoted s
  repr (arr nil) = lit "[]"
  repr (arr (cons v vs)) = b'[' ∷ (repr v ++ repr_items vs)
  repr (obj end) = lit "{}"
  repr (obj (field k v fs)) = b'{' ∷ (quoted k ++ (lit ": " ++ (repr v ++ repr_fields fs)))

  repr_items : Items → Text
  repr_items nil = lit "]"
  repr_items (cons v vs) = lit ", " ++ (repr v ++ repr_items vs)

  repr_fields : Fields → Text
  repr_fields end = lit "}"
  repr_fields (field k v fs) = lit ", " ++ (quoted k ++ (lit ": " ++ (repr v ++ repr_fields fs)))

-- str(v)
unfoldable pub text_of : Json → Text
unfolding repr
text_of (str s) = s
text_of v = repr v

text_of-examples :
    (text_of (obj (field (lit "a") (arr (cons (int 10) (cons (str (lit "it's")) nil))) end))
      ≡ lit "{'a': [10, \"it's\"]}")
    × (text_of (arr (cons (bool true) (cons (neg 0) (cons null nil)))) ≡ lit "[True, -1, None]")
unfolding text_of
text_of-examples = (refl, refl)
