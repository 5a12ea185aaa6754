-- ===== src/Wallet/Tests/Guards.antt =====
-- Who is refused, at concrete inputs: a webhook, and a client with an unverified phone.
use oyana_backend.Base.{true, false, ◌≡◌, refl, none, some, [], ◌∷◌}
use oyana_backend.Base.Text.{chars_count, to_lower}
use oyana_backend.Value.{get_field, Value, object, field, end, text}
use oyana_backend.Act.{World, forbidden, err}
use oyana_backend.Wallet.Webhook.{paystack_webhook, handle_payload}
use oyana_backend.Wallet.Webhook.Signature.{paystack_webhook-is_signed}
use oyana_backend.Wallet.Account.Compliance.{get_wallet_compliance-IsRefused, IsRefused, allows}
use oyana_backend.Wallet.Account.{get_wallet_compliance}
use oyana_backend.Act.{◌>>=◌, find}
use oyana_backend.Base.Table.{find_first}
use oyana_backend.Wallet.Funding.{create_wallet_funding, confirm_wallet_funding}
use oyana_backend.Wallet.Withdrawal.{create_wallet_withdrawal}
use oyana_backend.Wallet.Email.{is_valid_email, resolve_paystack_customer_email}
use oyana_backend.Wallet.Email.Valid.{resolve_paystack_customer_email-is_valid}
use oyana_backend.Wallet.Tests.{paystack, opened, ada, topup, payout, topup_reference}

abbrev paid : Value
paid = object (
    field "event" (text "transfer.success")
      (field "data" (object (field "reference" (text "WDR_1") end)) end))

-- this Paystack signs a body with the key before it
paystack_webhook-is_signed_example :
    paystack_webhook paystack paid "{}" (some "sk{}") opened
    ≡ handle_payload paystack
        (some "transfer.success")
        (some (object (field "reference" (text "WDR_1") end)))
        opened
unfolding get_field to_lower
paystack_webhook-is_signed_example =
    paystack_webhook-is_signed paystack paid "{}" (some "sk{}") opened

forged_test :
    paystack_webhook paystack paid "{}" (some "forged") opened
    ≡ (err (forbidden "Invalid Paystack webhook signature"), opened)
forged_test = paystack_webhook-is_signed paystack paid "{}" (some "forged") opened

abbrev unverified : World
unverified = record opened {
  db = record (opened.db) { profiles = record ada { phone_verified = false } ∷ [] };
}

unverified-allows : allows (get_wallet_compliance "ada" unverified).0 ≡ false
unfolding get_wallet_compliance ◌>>=◌ find find_first
unverified-allows = refl

get_wallet_compliance-IsRefused_example :
    IsRefused (create_wallet_funding paystack "ada" topup unverified) unverified
    × IsRefused (confirm_wallet_funding paystack "ada" topup_reference unverified) unverified
    × IsRefused (create_wallet_withdrawal paystack "ada" payout unverified) unverified
get_wallet_compliance-IsRefused_example =
    get_wallet_compliance-IsRefused paystack "ada" topup topup_reference payout unverified
      unverified-allows

-- with no address of her own, and a domain that is none
resolve_paystack_customer_email-is_valid_example :
    is_valid_email
      (resolve_paystack_customer_email (some "no domain") (record ada { email = none }))
    ≡ true
resolve_paystack_customer_email-is_valid_example =
    resolve_paystack_customer_email-is_valid (some "no domain") (record ada { email = none })

customer_email_test :
    resolve_paystack_customer_email (some "no domain") (record ada { email = none })
    ≡ "wallet-2348012345678@pay.oyana.app"
unfolding resolve_paystack_customer_email chars_count
customer_email_test = refl
