-- ===== src/Value.antt =====
-- JavaScript values as the services receive them (`unknown`, `Record<string, unknown>`, JSON):
-- webhook payloads, Paystack answers, idempotency responses. Numbers are integers, which is what
-- Paystack sends for amounts and ids; a date carries its ISO text.
use oyana_backend.Base.{String, ◌+◌, ◌≡◌, refl, Bool, Option, none, some, if◌then◌else◌, ◌==◌}
use oyana_backend.Base.Int.{ℤ, pos, negsuc}
use oyana_backend.Base.Text.{trim, show_ℕ}
use Prim.Native.String

mutual
  pub data Value : Type 0 where
    undefined null : Value
    bool : Bool → Value
    num bigint : ℤ → Value
    text date : String → Value
    array : Items → Value
    object : Fields → Value

  pub data Items : Type 0 where
    nil : Items
    cons : Value → Items → Items

  pub data Fields : Type 0 where
    end : Fields
    field : String → Value → Fields → Fields

-- `o[key]` on the own properties of an object
unfoldable pub get_field : Fields → String → Value
get_field end key = undefined
get_field (field k v fs) key = let rest = get_field fs key in if k == key then v else rest

-- `v?.key`
abbrev pub get : Value → String → Value
get (object fs) key = get_field fs key
get _ key = undefined

unfoldable pub show_ℤ : ℤ → String
unfolding show_ℕ
show_ℤ (pos n) = show_ℕ n
show_ℤ (negsuc n) = String.◌++◌ "-" (show_ℕ (n + 1))

-- the text, if there is one after trimming
abbrev trimmed : String → Option String
trimmed s = if trim s == "" then none else some (trim s)

-- `WalletService.readString`
unfoldable pub read_string : Value → Option String
unfolding show_ℤ trim
read_string (text s) = trimmed s
read_string (num n) = some (show_ℤ n)
read_string _ = none

-- `WalletService.readStringFromIdempotencyPayload`
unfoldable pub read_string_from_idempotency_payload : Value → String → Option String
unfolding read_string get_field
read_string_from_idempotency_payload (object fs) key = read_string (get_field fs key)
read_string_from_idempotency_payload _ key = none

-- `WalletService.toJsonValue`
unfoldable mutual
  pub to_json_value : Value → Value
  to_json_value (bigint n) = text (show_ℤ n)
  to_json_value (date s) = text s
  to_json_value (array xs) = array (to_json_items xs)
  to_json_value (object fs) = object (to_json_fields fs)
  to_json_value undefined = undefined
  to_json_value null = null
  to_json_value (bool b) = bool b
  to_json_value (num n) = num n
  to_json_value (text s) = text s

  pub to_json_items : Items → Items
  to_json_items nil = nil
  to_json_items (cons x xs) = cons (to_json_value x) (to_json_items xs)

  pub to_json_fields : Fields → Fields
  to_json_fields end = end
  to_json_fields (field k v fs) = field k (to_json_value v) (to_json_fields fs)

read_test :
    read_string_from_idempotency_payload
      (object (field "a" (num (pos 3)) (field "reference" (text " x ") end)))
      "reference"
    ≡ some "x"
unfolding read_string_from_idempotency_payload
read_test = refl
