-- ===== src/Wallet/Finalize.antt =====
-- Finalising a payment intent in src/wallet/wallet.service.ts: `finalizeFundingIntent`,
-- `finalizeFundingByReference`.
pub mod Frame
pub mod Credit
use oyana_backend.Base.{
  String, Bool, false, not, ◌&&◌, ◌||◌, Option, none, some, if◌then◌else◌, ⊤, ◌==◌,
}
use oyana_backend.Base.Int.{ℤ, eqb_ℤ, ◌+ℤ◌}
use oyana_backend.Base.Text.{to_upper}
use oyana_backend.Value.{Value, null, text, object, end, field, get, read_string}
use oyana_backend.Wallet.Schema.{
  WalletAccount, WalletTransaction, PaymentIntent, PaymentIntentStatus, TransactionDirection,
  TransactionType, TransactionStatus, is_credit, is_topup, is_completed, is_succeeded,
}
use oyana_backend.Act.{
  Error, bad_request, not_found, is_unique_constraint_error, Act, pure, lift, throw, throw_if,
  or_throw, try_catch, transaction, find, create, update, ◌>>=◌, ◌>>◌,
}
use oyana_backend.Db.{wallets, transactions, intents}
use oyana_backend.Wallet.Paystack.{Env, random_uuid, now}
use oyana_backend.Wallet.Paystack.Status.{
  map_paystack_status_to_payment_intent_status, extract_paystack_amount,
}
use oyana_backend.Wallet.Account.{get_funding_transaction_reference, is_text}
use oyana_backend.Wallet.Card.{upsert_wallet_card_method}

pub record WalletFundingResult : Type 0 where
  pub success : Bool
  pub status : PaymentIntentStatus
  pub reference : String
  pub authorization_url : Option String
  pub payment_intent : PaymentIntent
  pub wallet_transaction : Option WalletTransaction
  pub message : Option String

abbrev pub text_or_null : Option String → Value
text_or_null none = null
text_or_null (some s) = text s

abbrev pub is_funding_of : String → WalletTransaction → Bool
is_funding_of intent_id t =
    is_text t.related_payment_intent_id intent_id
    && is_credit t.direction
    && is_topup t.type
    && is_completed t.status

abbrev pub is_intent : String → PaymentIntent → Bool
is_intent id i = i.id == id

-- the check of `verificationData.amount`
abbrev pub amount_mismatch : Option ℤ → ℤ → Bool
amount_mismatch none amount = false
amount_mismatch (some verified) amount = not (eqb_ℤ verified amount)

-- `readString(verificationData.currency)?.toUpperCase() ?? intent.currency`
unfoldable pub verified_currency : Option String → String → String
verified_currency none currency = currency
verified_currency (some s) currency = to_upper s

abbrev pub topup_row : String → String → PaymentIntent → WalletTransaction
topup_row id source intent = record {
  id = id;
  wallet_account_id = intent.wallet_account_id;
  direction = TransactionDirection.credit;
  type = TransactionType.topup;
  status = TransactionStatus.completed;
  amount_minor = intent.amount_minor;
  currency = intent.currency;
  reference = get_funding_transaction_reference intent.id;
  related_payment_intent_id = some intent.id;
  metadata = object (
      field "source" (text source)
        (field "paystackReference" (text_or_null intent.paystack_reference) end));
}

-- the `catch` of a credit that is there already
unfoldable pub adopt_topup : PaymentIntent → Error → Act (Option WalletTransaction)
adopt_topup intent e =
    if is_unique_constraint_error e
    then find transactions (λ t. t.reference == get_funding_transaction_reference intent.id)
    else throw e

unfoldable pub mark_intent_failed : String → Value → Act PaymentIntent
mark_intent_failed id verification =
    update intents (is_intent id)
      (λ i. record i { status = PaymentIntentStatus.failed; raw_webhook = verification })

abbrev pub owner_of : Option WalletAccount → Option String
owner_of none = none
owner_of (some w) = w.owner_profile_id

module _ (env : Env) where
  -- the credit and the new balance
  unfoldable pub credit_topup : String → PaymentIntent → Act (Option WalletTransaction)
  credit_topup source intent = do
    id ← random_uuid env
    let reference = get_funding_transaction_reference intent.id
    created ←
        create transactions (λ t. t.id == id || t.reference == reference)
          (topup_row id source intent)
    update wallets (λ w. w.id == intent.wallet_account_id)
        (λ w. record w { balance_minor = w.balance_minor +ℤ intent.amount_minor })
    pure (some created)

  unfoldable pub settle_topup : String → PaymentIntent → Act (Option WalletTransaction)
  settle_topup source intent = do
    existing ← find transactions (is_funding_of intent.id)
    elim existing [
      | some t ↦ pure (some t)
      | none ↦ try_catch (credit_topup source intent) (adopt_topup intent)
    ]

  -- the two checks on what Paystack verified
  unfoldable pub check_verification : PaymentIntent → Value → Act ⊤
  check_verification intent verification = do
    throw_if
        (amount_mismatch (extract_paystack_amount env.text_to_bigint (get verification "amount"))
          intent.amount_minor)
        (bad_request "Funding verification amount does not match initialized amount")
    throw_if
        (not (
          verified_currency (read_string (get verification "currency")) intent.currency
          == intent.currency))
        (bad_request "Funding verification currency does not match initialized currency")

  unfoldable pub mark_intent_succeeded : String → Value → Act PaymentIntent
  mark_intent_succeeded id verification = do
    time ← now env
    update intents (is_intent id) (λ i. record i {
      status = PaymentIntentStatus.succeeded;
      confirmed_at = some time;
      raw_webhook = verification;
    })

  -- the owner's card is remembered, if the wallet has an owner
  unfoldable pub remember_card : PaymentIntent → Value → String → Act ⊤
  remember_card intent verification source = do
    wallet ← find wallets (λ w. w.id == intent.wallet_account_id)
    elim (owner_of wallet) [
      | none ↦ pure tt
      | some profile_id ↦
          upsert_wallet_card_method env profile_id intent.wallet_account_id verification (
            object (
              field "paystackReference" (text_or_null intent.paystack_reference)
                (field "source" (text source) end)))
    ]

  -- the intent is found
  unfoldable pub finalize_found :
      Value → String → PaymentIntent → Act (PaymentIntent × Option WalletTransaction)
  finalize_found verification source intent = do
    verify_status ← lift (map_paystack_status_to_payment_intent_status (get verification "status"))
    if is_succeeded verify_status
        then (do
          check_verification intent verification
          wallet_transaction ← settle_topup source intent
          updated ← mark_intent_succeeded intent.id verification
          remember_card intent verification source
          pure (updated, wallet_transaction))
        else do failed ← mark_intent_failed intent.id verification; pure (failed, none)

  -- the body of the transaction
  unfoldable pub finalize_in_transaction :
      String → Value → String → Act (PaymentIntent × Option WalletTransaction)
  finalize_in_transaction payment_intent_id verification source = do
    found ← find intents (is_intent payment_intent_id)
    intent ← or_throw found (not_found "Payment intent not found")
    finalize_found verification source intent

  unfoldable pub finalize_funding_intent : String → Value → String → Act WalletFundingResult
  finalize_funding_intent payment_intent_id verification source = do
    (intent, wallet_transaction) ←
        transaction (finalize_in_transaction payment_intent_id verification source)
    reference ← elim intent.paystack_reference [ some r ↦ pure r | none ↦ random_uuid env ]
    pure (record {
      success = is_succeeded intent.status;
      status = intent.status;
      reference = reference;
      authorization_url = none;
      payment_intent = intent;
      wallet_transaction = wallet_transaction;
      message = some (
          if is_succeeded intent.status
          then "Wallet funded successfully"
          else "Funding verification failed");
    })

  unfoldable pub finalize_funding_by_reference : String → Value → String → Act ⊤
  finalize_funding_by_reference reference raw_payload source = do
    found ← find intents (λ i. is_text i.paystack_reference reference)
    elim found [
      | none ↦ pure tt
      | some intent ↦ do finalize_funding_intent intent.id raw_payload source; pure tt
    ]
