-- ===== src/Wallet/Webhook.antt =====
-- `handlePaystackWebhookEvent` of src/wallet/wallet.service.ts and its caller in
-- src/wallet/wallet.controller.ts.
pub mod Signature
use Prim.Native.String
use oyana_backend.Base.{
  String, ◌||◌, Option, none, some, if◌then◌else◌, ⊤, ◌==◌, or_else, get_or, not,
}
use oyana_backend.Base.Text.{to_lower}
use oyana_backend.Value.{Value, text, object, array, get, read_string}
use oyana_backend.Act.{bad_request, forbidden, Act, pure, throw, throw_if, ◌>>=◌, ◌>>◌}
use oyana_backend.Wallet.Paystack.{Env, verify_webhook_signature}
use oyana_backend.Wallet.Finalize.{finalize_funding_by_reference}
use oyana_backend.Wallet.Withdrawal.Reversal.{
  mark_withdrawal_succeeded, mark_withdrawal_failed_by_reference,
}

abbrev pub event_name : Value → Option String
event_name (text s) = if s == "" then none else some (to_lower s)
event_name _ = none

-- `payload.data`, where it is an object (an array is one too, with none of the keys that are read)
abbrev pub event_data : Value → Option Value
event_data (object fs) = some (object fs)
event_data (array xs) = some (array xs)
event_data _ = none

unfoldable pub failure_reason_of : String → Value → String
failure_reason_of event eventData =
    get_or
      (or_else (read_string (get eventData "complete_message"))
        (read_string (get eventData "failure_reason")))
      (String.◌++◌ event " webhook received")

module _ (env : Env) where
  -- the branches on the event's name, for an event with a reference
  unfoldable pub dispatch_event : String → Value → String → Act ⊤
  dispatch_event event event_data reference =
      if event == "charge.success"
      then finalize_funding_by_reference env reference event_data "webhook"
      else if event == "transfer.success"
      then mark_withdrawal_succeeded env reference event_data
      else if event == "transfer.failed" || event == "transfer.reversed"
      then mark_withdrawal_failed_by_reference env reference (failure_reason_of event event_data)
          event_data
      else pure tt

  -- An event with no reference is ignored, on every branch.
  unfoldable pub handle_event : String → Value → Act ⊤
  handle_event event event_data = elim (read_string (get event_data "reference")) [
    | none ↦ pure tt
    | some reference ↦ dispatch_event event event_data reference
  ]

  unfoldable pub handle_payload : Option String → Option Value → Act ⊤
  handle_payload (some event) (some data') = handle_event event data'
  handle_payload _ _ = pure tt

  unfoldable pub handle_paystack_webhook_event : Value → String → String → Act ⊤
  handle_paystack_webhook_event payload raw_body signature = do
    signature_valid ← verify_webhook_signature env raw_body signature
    throw_if (not signature_valid) (forbidden "Invalid Paystack webhook signature")
    handle_payload (event_name (get payload "event")) (event_data (get payload "data"))

  -- `paystackWebhook`; `raw_body` is the text of the request's body
  unfoldable pub paystack_webhook : Value → String → Option String → Act ⊤
  paystack_webhook payload raw_body none = throw (bad_request "Missing Paystack signature")
  paystack_webhook payload raw_body (some signature) =
      if signature == ""
      then throw (bad_request "Missing Paystack signature")
      else handle_paystack_webhook_event payload raw_body signature
