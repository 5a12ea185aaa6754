-- ===== src/Wallet/Idempotency/Stringify.antt =====
-- `stableStringify` of src/wallet/wallet.service.ts: an object's keys in order.
use Prim.Native.Char.{Char, code}
use Prim.Native.String
use oyana_backend.Base.{
  ℕ, Bool, true, false, ◌+◌, ◌/◌, ◌%◌, String, if◌then◌else◌, refl, ◌≡◌, ltb, nat_eq, List, [], ◌∷◌,
}
use oyana_backend.Base.Int.{pos}
use oyana_backend.Value.{Value, Items, Fields, nil, cons, end, field, show_ℤ}

infixr 65 ◌+++◌
abbrev ◌+++◌ : String → String → String
a +++ b = String.◌++◌ a b

hex_digit : ℕ → String
hex_digit n = String.slice "0123456789abcdef" n (n + 1)

-- one character inside the quotes of `JSON.stringify`
quote_char : Char → String
unfolding hex_digit
quote_char c =
    let n = code c in
    if nat_eq n 34
    then "\\\""
    else if nat_eq n 92
    then "\\\\"
    else if nat_eq n 8
    then "\\b"
    else if nat_eq n 9
    then "\\t"
    else if nat_eq n 10
    then "\\n"
    else if nat_eq n 12
    then "\\f"
    else if nat_eq n 13
    then "\\r"
    else if ltb n 32
    then "\\u00" +++ hex_digit (n / 16) +++ hex_digit (n % 16)
    else String.◌∷◌ c String.[]

quote_chars : String → String
unfolding quote_char
quote_chars String.[] = ""
quote_chars (String.◌∷◌ c s) = quote_char c +++ quote_chars s

-- `JSON.stringify` of a text
quote : String → String
unfolding quote_chars
quote s = "\"" +++ quote_chars s +++ "\""

-- Texts are compared by their UTF-16 units, so that the characters past the first plane, which take
-- surrogates, come before U+E000 to U+FFFF.
unit_rank : Char → ℕ
unit_rank c = let n = code c in if ltb n 57344 then n else if ltb n 65536 then n + 2097152 else n

-- the first of two texts comes after the second
is_after : String → String → Bool
unfolding unit_rank
is_after String.[] t = false
is_after (String.◌∷◌ c s) String.[] = true
is_after (String.◌∷◌ c s) (String.◌∷◌ d t) =
    let rest = is_after s t in
    let a = unit_rank c in let b = unit_rank d in if nat_eq a b then rest else ltb b a

-- a key and the text of its value, in the order of the keys
unfoldable pub insert_entry : String × String → List (String × String) → List (String × String)
unfolding is_after
insert_entry e [] = e ∷ []
insert_entry e (x ∷ xs) =
    let rest = insert_entry e xs in if is_after e.0 x.0 then x ∷ rest else e ∷ x ∷ xs

entry_text : String × String → String
unfolding quote
entry_text (k, v) = quote k +++ ":" +++ v

join_entries : List (String × String) → String
unfolding entry_text
join_entries [] = ""
join_entries (e ∷ []) = entry_text e
join_entries (e ∷ x ∷ xs) = entry_text e +++ "," +++ join_entries (x ∷ xs)

-- `join` prints nothing for an item whose text is `undefined`, as that of `undefined` is.
abbrev item_text : Value → String → String
item_text Value.undefined s = ""
item_text _ s = s

unfoldable mutual
  unfolding show_ℤ quote insert_entry join_entries

  pub stable_stringify : Value → String
  stable_stringify Value.undefined = "undefined"
  stable_stringify Value.null = "null"
  stable_stringify (Value.bool b) = if b then "true" else "false"
  stable_stringify (Value.num n) = show_ℤ n
  stable_stringify (Value.bigint n) = show_ℤ n
  stable_stringify (Value.text s) = quote s
  stable_stringify (Value.date s) = "{}"
  stable_stringify (Value.array xs) = "[" +++ stringify_items xs +++ "]"
  stable_stringify (Value.object fs) = "{" +++ join_entries (sorted_entries fs) +++ "}"

  pub stringify_items : Items → String
  stringify_items nil = ""
  stringify_items (cons x nil) = item_text x (stable_stringify x)
  stringify_items (cons x (cons y ys)) =
      item_text x (stable_stringify x) +++ "," +++ stringify_items (cons y ys)

  -- `Object.keys(value).sort()`, each key with the text of its value
  pub sorted_entries : Fields → List (String × String)
  sorted_entries end = []
  sorted_entries (field k v fs) = insert_entry (k, stable_stringify v) (sorted_entries fs)

stringify_test :
    stable_stringify
      (Value.object (field "b" (Value.num (pos 2)) (field "a" (Value.text "x\"") end)))
    ≡ "{\"a\":\"x\\\"\",\"b\":2}"
unfolding stable_stringify
stringify_test = refl

stringify_array_test :
    stable_stringify (Value.array (cons Value.undefined (cons Value.null nil))) ≡ "[,null]"
unfolding stable_stringify
stringify_array_test = refl
