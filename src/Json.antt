-- ===== src/Json.antt =====
-- packages/core/src/policy.ts and evidence.ts: `sortKeysDeep` and `JSON.stringify` on JSON values. Numbers
-- are integers, texts ASCII; keys are not array indices, which a JavaScript object would list first; a
-- field whose value is undefined is a field that is not there.
use waysafe.Prelude.{
  ℕ, suc, ◌+◌, ◌-◌, ◌/◌, ◌%◌, Bool, true, false, ◌&&◌, ◌||◌, List, [], ◌∷◌, ◌++◌, Text, txt,
  if◌then◌else◌, ltb, ◌==◌,
}
use waysafe.Prelude.Int.{ℤ, pos, negsuc}
use waysafe.Time.Keys.{to_string}
pub mod Order

mutual
  pub data Json : Type 0 where
    json_null : Json
    json_boolean : Bool → Json
    json_number : ℤ → Json
    json_string : Text → Json
    json_array : Items → Json
    json_object : Fields → Json

  pub data Items : Type 0 where
    no_items : Items
    item : Json → Items → Items

  pub data Fields : Type 0 where
    no_fields : Fields
    field : Text → Json → Fields → Fields

-- `a < b` on strings.
unfoldable pub text_ltb : Text → Text → Bool
text_ltb s [] = false
text_ltb [] (y ∷ ys) = true
text_ltb (x ∷ xs) (y ∷ ys) = ltb x y || (x == y && text_ltb xs ys)

-- One field into sorted ones, before those that are not smaller.
unfoldable pub insert_field : Text → Json → Fields → Fields
unfolding text_ltb
insert_field k v no_fields = field k v no_fields
insert_field k v (field key w fs) =
    if text_ltb key k then field key w (insert_field k v fs) else field k v (field key w fs)

unfoldable mutual
  unfolding insert_field

  pub sort_keys_deep : Json → Json
  sort_keys_deep json_null = json_null
  sort_keys_deep (json_boolean b) = json_boolean b
  sort_keys_deep (json_number n) = json_number n
  sort_keys_deep (json_string s) = json_string s
  sort_keys_deep (json_array xs) = json_array (sort_items xs)
  sort_keys_deep (json_object fs) = json_object (sort_fields fs)

  pub sort_items : Items → Items
  sort_items no_items = no_items
  sort_items (item x xs) = item (sort_keys_deep x) (sort_items xs)

  pub sort_fields : Fields → Fields
  sort_fields no_fields = no_fields
  sort_fields (field k v fs) = insert_field k (sort_keys_deep v) (sort_fields fs)

abbrev pub hex_digit : ℕ → ℕ
hex_digit n = if ltb n 10 then b'0' + n else b'a' + (n - 10)

-- One character of a quoted string.
abbrev pub escape : ℕ → Text
escape c =
    if c == 34
    then txt "\\\""
    else if c == 92
    then txt "\\\\"
    else if c == 10
    then txt "\\n"
    else if c == 13
    then txt "\\r"
    else if c == 9
    then txt "\\t"
    else if c == 8
    then txt "\\b"
    else if c == 12
    then txt "\\f"
    else if ltb c 32
    then txt "\\u00" ++ (hex_digit (c / 16) ∷ hex_digit (c % 16) ∷ [])
    else c ∷ []

abbrev pub escape_all : Text → Text
escape_all [] = []
escape_all (c ∷ s) = escape c ++ escape_all s

abbrev pub quote : Text → Text
quote s = txt "\"" ++ (escape_all s ++ txt "\"")

unfoldable pub number_text : ℤ → Text
unfolding to_string
number_text (pos n) = to_string n
number_text (negsuc n) = txt "-" ++ to_string (suc n)

unfoldable mutual
  unfolding number_text

  pub stringify : Json → Text
  stringify json_null = txt "null"
  stringify (json_boolean true) = txt "true"
  stringify (json_boolean false) = txt "false"
  stringify (json_number n) = number_text n
  stringify (json_string s) = quote s
  stringify (json_array no_items) = txt "[]"
  stringify (json_array (item x xs)) = txt "[" ++ (stringify x ++ (more_items xs ++ txt "]"))
  stringify (json_object no_fields) = txt "{}"
  stringify (json_object (field k v fs)) =
      txt "{" ++ (quote k ++ (txt ":" ++ (stringify v ++ (more_fields fs ++ txt "}"))))

  pub more_items : Items → Text
  more_items no_items = []
  more_items (item x xs) = txt "," ++ (stringify x ++ more_items xs)

  pub more_fields : Fields → Text
  more_fields no_fields = []
  more_fields (field k v fs) = txt "," ++ (quote k ++ (txt ":" ++ (stringify v ++ more_fields fs)))

-- `JSON.stringify(sortKeysDeep(value))`
unfoldable pub canonical : Json → Text
unfolding sort_keys_deep stringify
canonical v = stringify (sort_keys_deep v)
