-- ===== src/Wallet/Paystack/Status.antt =====
-- How wallet.service.ts reads Paystack's answers: statuses, amounts.
use oyana_backend.Base.{String, ◌||◌, Option, none, some, if◌then◌else◌, ◌==◌}
use oyana_backend.Base.Int.{ℤ}
use oyana_backend.Base.Text.{trim, to_lower}
use oyana_backend.Value.{Value, text, num, undefined, null}
use oyana_backend.Act.{Result, ok, err, plain_error}
use oyana_backend.Wallet.Schema.{PaymentIntentStatus}

-- `status?.toLowerCase()`
unfoldable pub lower_status : Value → Result (Option String)
unfolding to_lower
lower_status undefined = ok none
lower_status null = ok none
lower_status (text s) = ok (some (to_lower s))
lower_status _ = err (plain_error "status?.toLowerCase is not a function")

abbrev status_of_text : Option String → PaymentIntentStatus
status_of_text none = PaymentIntentStatus.pending
status_of_text (some s) =
    if s == "success"
    then PaymentIntentStatus.succeeded
    else if s == "failed" || s == "abandoned" || s == "error"
    then PaymentIntentStatus.failed
    else if s == "cancelled"
    then PaymentIntentStatus.cancelled
    else PaymentIntentStatus.pending

abbrev read_status : Result (Option String) → Result PaymentIntentStatus
read_status (ok s) = ok (status_of_text s)
read_status (err e) = err e

-- `mapPaystackStatusToPaymentIntentStatus`
unfoldable pub map_paystack_status_to_payment_intent_status : Value → Result PaymentIntentStatus
unfolding lower_status
map_paystack_status_to_payment_intent_status status = read_status (lower_status status)

-- `extractPaystackAmount`; `BigInt(text)` is the parameter
unfoldable pub extract_paystack_amount : (String → Option ℤ) → Value → Option ℤ
unfolding trim
extract_paystack_amount parse (num n) = some n
extract_paystack_amount parse (text s) = if trim s == "" then none else parse (trim s)
extract_paystack_amount parse _ = none
