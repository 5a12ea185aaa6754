-- ===== src/Wallet/Funding.antt =====
-- Funding a wallet in src/wallet/wallet.service.ts: creating, replaying and confirming.

use oyana_backend.Base.{
  String, Bool, true, false, not, ◌&&◌, ◌||◌, Option, none, some, if◌then◌else◌, ◌==◌, is_some,
  or_else,
}
use oyana_backend.Base.Int.{ℤ, pos, leb_ℤ}
use oyana_backend.Value.{
  Value, Fields, null, text, object, end, field, get, read_string_from_idempotency_payload, show_ℤ,
}
use oyana_backend.Base.Table.{exists}
use oyana_backend.Wallet.Schema.{
  WalletAccount, WalletTransaction, PaymentIntent, PaymentIntentStatus, is_succeeded, is_failed,
}
use oyana_backend.Act.{
  bad_request, not_found, conflict, Act, pure, lift, throw_if, or_throw, find, create, ◌>>=◌, ◌>>◌,
}
use oyana_backend.Db.{transactions, intents, cards}
use oyana_backend.Wallet.Paystack.{
  Env, random_uuid, initialize_transaction, charge_authorization, verify_transaction,
}
use oyana_backend.Wallet.Paystack.Status.{map_paystack_status_to_payment_intent_status}
use oyana_backend.Wallet.Account.{
  require_profile, assert_phone_verified, get_or_create_wallet_account, generate_reference,
  normalize_currency, is_text,
}
use oyana_backend.Wallet.Email.{resolve_paystack_customer_email}
use oyana_backend.Wallet.Idempotency.{with_idempotency}
use oyana_backend.Wallet.Finalize.{
  WalletFundingResult, text_or_null, is_funding_of, mark_intent_failed, finalize_funding_intent,
}

pub record CreateWalletFundingInput : Type 0 where
  pub amount_minor : ℤ
  pub currency : Option String
  pub idempotency_key : String
  pub saved_card_method_id : Option String
  pub callback_url : Option String
  pub metadata : Option Fields

-- a text that is there and not empty
abbrev pub truthy : Option String → Option String
truthy none = none
truthy (some s) = if s == "" then none else some s

abbrev pub is_replay_success : PaymentIntentStatus → Bool
is_replay_success PaymentIntentStatus.succeeded = true
is_replay_success PaymentIntentStatus.initialized = true
is_replay_success PaymentIntentStatus.pending = true
is_replay_success _ = false

-- `walletAccount: { ownerProfileId }` in a `where`
unfoldable pub find_own_intent : String → String → Act (Option PaymentIntent)
find_own_intent owner reference w =
    find intents
      (λ i.
        is_text i.paystack_reference reference
        && exists (λ a. a.id == i.wallet_account_id && is_text a.owner_profile_id owner)
            w.db.wallets)
      w

unfoldable pub replay_wallet_funding_response : String → Value → Act WalletFundingResult
replay_wallet_funding_response owner response = do
  reference ←
      or_throw (read_string_from_idempotency_payload response "reference")
        (conflict "Funding idempotency response is invalid")
  found ← find_own_intent owner reference
  intent ←
      or_throw found
        (conflict "Unable to replay funding response. Please use a new idempotency key.")
  wallet_transaction ← find transactions (λ t. is_text t.related_payment_intent_id intent.id)
  pure (record {
    success = is_replay_success intent.status;
    status = intent.status;
    reference = reference;
    authorization_url = intent.authorization_url;
    payment_intent = intent;
    wallet_transaction = wallet_transaction;
    message = none;
  })

abbrev pub new_intent :
    String
    → String
    → ℤ
    → String
    → PaymentIntentStatus
    → String
    → Option String
    → Value
    → PaymentIntent
new_intent id wallet_account_id amount currency status reference url raw = record {
  id = id;
  wallet_account_id = wallet_account_id;
  provider = "paystack";
  amount_minor = amount;
  currency = currency;
  status = status;
  paystack_reference = some reference;
  authorization_url = url;
  raw_init_response = raw;
  raw_webhook = null;
  confirmed_at = none;
}

-- `{ ...(input.metadata ?? {}), walletAccountId }`
abbrev pub with_wallet : Option Fields → String → Value
with_wallet none id = object (field "walletAccountId" (text id) end)
with_wallet (some fs) id = object (field "walletAccountId" (text id) fs)

abbrev pub reference_payload : String → Value
reference_payload reference = object (field "reference" (text reference) end)

-- the answer to a charge that is not final
abbrev pub charge_result : PaymentIntent → PaymentIntentStatus → String → WalletFundingResult
charge_result intent status reference = record {
  success = not (is_failed status);
  status = status;
  reference = reference;
  authorization_url = none;
  payment_intent = intent;
  wallet_transaction = none;
  message = some (if is_failed status then "Card charge failed" else "Card charge is processing");
}

abbrev pub text_of : Value → Option String
text_of (text s) = some s
text_of _ = none

abbrev pub fields_or_null : Option Fields → Value
fields_or_null none = null
fields_or_null (some fs) = object fs

unfoldable pub funding_payload : CreateWalletFundingInput → String → Value
funding_payload input currency = object (
    field "amountMinor" (text (show_ℤ input.amount_minor)) (
      field "currency" (text currency) (
        field "savedCardMethodId" (text_or_null input.saved_card_method_id) (
          field "callbackUrl" (text_or_null input.callback_url)
            (field "metadata" (fields_or_null input.metadata) end)))))

unfoldable pub confirmed_result :
    PaymentIntent → String → Option WalletTransaction → WalletFundingResult
confirmed_result intent reference wallet_transaction = record {
  success = true;
  status = PaymentIntentStatus.succeeded;
  reference = reference;
  authorization_url = none;
  payment_intent = intent;
  wallet_transaction = wallet_transaction;
  message = none;
}

abbrev pub unpaid_result : PaymentIntent → String → WalletFundingResult
unpaid_result intent reference = record {
  success = false;
  status = PaymentIntentStatus.failed;
  reference = reference;
  authorization_url = none;
  payment_intent = intent;
  wallet_transaction = none;
  message = some "Payment is not yet successful";
}

module _ (env : Env) where
  unfoldable pub create_intent :
      String → ℤ → String → PaymentIntentStatus → String → Option String → Value → Act PaymentIntent
  create_intent wallet_account_id amount currency status reference url raw = do
    id ← random_uuid env
    create intents (λ i. i.id == id || is_text i.paystack_reference reference)
        (new_intent id wallet_account_id amount currency status reference url raw)

  -- funding with a saved card
  unfoldable pub fund_with_card :
      String
      → CreateWalletFundingInput
      → String
      → WalletAccount
      → String
      → String
      → String
      → Act (WalletFundingResult × Value)
  fund_with_card owner input currency wallet email reference card_id = do
    found ←
        find cards
          (λ c. c.id == card_id && c.profile_id == owner && c.wallet_account_id == wallet.id)
    card ← or_throw found (not_found "Saved funding card not found")
    charged ← charge_authorization env (record {
      email = email;
      amount_minor = input.amount_minor;
      reference = reference;
      authorization_code = card.authorization_code;
      currency = currency;
      metadata = with_wallet input.metadata wallet.id;
    })
    status ← lift (map_paystack_status_to_payment_intent_status (get charged "status"))
    intent ← create_intent wallet.id input.amount_minor currency status reference none charged
    result ←
        (if is_succeeded status
          then finalize_funding_intent env intent.id charged "charge_authorization"
          else pure (charge_result intent status reference))
    pure (result, reference_payload reference)

  -- funding by a checkout page
  unfoldable pub fund_by_checkout :
      CreateWalletFundingInput
      → String
      → WalletAccount
      → String
      → String
      → Act (WalletFundingResult × Value)
  fund_by_checkout input currency wallet email reference = do
    initialized ← initialize_transaction env (record {
      email = email;
      amount_minor = input.amount_minor;
      reference = reference;
      currency = currency;
      callback_url = or_else input.callback_url env.wallet_callback_url;
      metadata = with_wallet input.metadata wallet.id;
    })
    let url = text_of (get initialized "authorization_url")
    intent ←
        create_intent wallet.id input.amount_minor currency PaymentIntentStatus.initialized
          reference url initialized
    pure (
      record {
        success = true;
        status = PaymentIntentStatus.initialized;
        reference = reference;
        authorization_url = url;
        payment_intent = intent;
        wallet_transaction = none;
        message = some "Funding initialized. Complete checkout to finish wallet funding.";
      },
      reference_payload reference,
    )

  -- with the wallet at hand
  unfoldable pub fund_into :
      String → CreateWalletFundingInput → String → WalletAccount → Act (WalletFundingResult × Value)
  fund_into owner input currency wallet = do
    profile ← require_profile owner
    reference ← generate_reference env "WLF"
    let email = resolve_paystack_customer_email env.fallback_email_domain profile
    elim (truthy input.saved_card_method_id) [
      | some card_id ↦ fund_with_card owner input currency wallet email reference card_id
      | none ↦ fund_by_checkout input currency wallet email reference
    ]

  -- the action under the idempotency key
  unfoldable pub fund :
      String → CreateWalletFundingInput → String → Act (WalletFundingResult × Value)
  fund owner input currency = do
    wallet ← get_or_create_wallet_account env owner
    fund_into owner input currency wallet

  unfoldable pub create_wallet_funding : String → CreateWalletFundingInput → Act WalletFundingResult
  create_wallet_funding owner input = do
    assert_phone_verified owner
    currency ← normalize_currency input.currency
    throw_if (leb_ℤ input.amount_minor (pos 0))
        (bad_request "Funding amount must be greater than zero")
    with_idempotency env owner "wallet_funding_create" input.idempotency_key
        (funding_payload input currency) (replay_wallet_funding_response owner)
        (fund owner input currency)

  -- not confirmed yet: Paystack is asked
  unfoldable pub verify_funding : PaymentIntent → String → Act WalletFundingResult
  verify_funding intent reference = do
    verification ← verify_transaction env reference
    status ← lift (map_paystack_status_to_payment_intent_status (get verification "status"))
    if is_succeeded status then finalize_funding_intent env intent.id verification "confirm" else do
      failed ← mark_intent_failed intent.id verification
      pure (unpaid_result failed reference)

  unfoldable pub confirm_wallet_funding : String → String → Act WalletFundingResult
  confirm_wallet_funding owner reference = do
    assert_phone_verified owner
    found ← find_own_intent owner reference
    intent ← or_throw found (not_found "Funding reference not found")
    if is_succeeded intent.status && is_some intent.confirmed_at
        then (do
          wallet_transaction ← find transactions (is_funding_of intent.id)
          pure (confirmed_result intent reference wallet_transaction))
        else verify_funding intent reference
