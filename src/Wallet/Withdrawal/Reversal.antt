-- ===== src/Wallet/Withdrawal/Reversal.antt =====
-- How a withdrawal ends in src/wallet/wallet.service.ts: `markWithdrawalSucceeded`,
-- `markWithdrawalFailedAndReverse`, `markWithdrawalFailedByReference`.
use oyana_backend.Base.{
  String, ◌&&◌, ◌||◌, Option, none, some, if◌then◌else◌, ⊤, ◌==◌, or_else, get_or,
}
use oyana_backend.Base.Int.{◌+ℤ◌}
use oyana_backend.Value.{Value, text, object, end, field, get, read_string}
use oyana_backend.Wallet.Schema.{
  WalletTransaction, WalletWithdrawal, WithdrawalStatus, TransactionDirection, TransactionType,
  TransactionStatus, is_open, is_reversed,
}
use oyana_backend.Act.{Act, pure, transaction, find, create, update, update_many, ◌>>=◌, ◌>>◌}
use oyana_backend.Db.{wallets, transactions, withdrawals}
use oyana_backend.Wallet.Paystack.{Env, random_uuid, now}
use oyana_backend.Wallet.Account.{get_withdrawal_reversal_reference}

abbrev pub reversal_row : String → WalletWithdrawal → String → WalletTransaction
reversal_row id withdrawal failure_reason = record {
  id = id;
  wallet_account_id = withdrawal.wallet_account_id;
  direction = TransactionDirection.credit;
  type = TransactionType.adjustment;
  status = TransactionStatus.completed;
  amount_minor = withdrawal.amount_minor;
  currency = withdrawal.currency;
  reference = get_withdrawal_reversal_reference withdrawal.id;
  related_payment_intent_id = none;
  metadata = object (
      field "reason" (text "withdrawal_reversal") (
        field "failureReason" (text failure_reason)
          (field "withdrawalId" (text withdrawal.id) end)));
}

module _ (env : Env) where
  unfoldable pub mark_withdrawal_succeeded : String → Value → Act ⊤
  mark_withdrawal_succeeded reference raw_payload = do
    time ← now env
    update_many withdrawals (λ d. d.reference == reference && is_open d.status)
        (λ d. record d {
          status = WithdrawalStatus.succeeded;
          completed_at = some time;
          transfer_code = or_else (read_string (get raw_payload "transfer_code")) d.transfer_code;
          paystack_transfer_id =
              or_else (read_string (get raw_payload "id")) d.paystack_transfer_id;
          raw_webhook = raw_payload;
        })

  -- the credit and the new balance
  unfoldable pub credit_reversal : WalletWithdrawal → String → Act ⊤
  credit_reversal withdrawal failure_reason = do
    id ← random_uuid env
    create transactions
        (λ t. t.id == id || t.reference == get_withdrawal_reversal_reference withdrawal.id)
        (reversal_row id withdrawal failure_reason)
    update wallets (λ w. w.id == withdrawal.wallet_account_id)
        (λ w. record w { balance_minor = w.balance_minor +ℤ withdrawal.amount_minor })
    pure tt

  -- unless there is a reversal already
  unfoldable pub settle_reversal : WalletWithdrawal → String → Act ⊤
  settle_reversal withdrawal failure_reason = do
    existing ←
        find transactions (λ t. t.reference == get_withdrawal_reversal_reference withdrawal.id)
    elim existing [ some t ↦ pure tt | none ↦ credit_reversal withdrawal failure_reason ]

  unfoldable pub mark_reversed : String → String → Option Value → Act ⊤
  mark_reversed id failure_reason raw_payload = do
    time ← now env
    update withdrawals (λ d. d.id == id)
        (λ d. record d {
          status = WithdrawalStatus.reversed;
          failure_reason = some failure_reason;
          failed_at = some time;
          raw_webhook = get_or raw_payload d.raw_webhook;
        })
    pure tt

  unfoldable pub reverse_unless_reversed : WalletWithdrawal → String → Option Value → Act ⊤
  reverse_unless_reversed withdrawal failure_reason raw_payload =
      if is_reversed withdrawal.status then pure tt else (do
        settle_reversal withdrawal failure_reason
        mark_reversed withdrawal.id failure_reason raw_payload)

  -- the body of the transaction
  unfoldable pub reverse_in_transaction : String → String → Option Value → Act ⊤
  reverse_in_transaction withdrawal_id failure_reason raw_payload = do
    found ← find withdrawals (λ d. d.id == withdrawal_id)
    elim found [
      | none ↦ pure tt
      | some withdrawal ↦ reverse_unless_reversed withdrawal failure_reason raw_payload
    ]

  unfoldable pub mark_withdrawal_failed_and_reverse : String → String → Option Value → Act ⊤
  mark_withdrawal_failed_and_reverse withdrawal_id failure_reason raw_payload =
      transaction (reverse_in_transaction withdrawal_id failure_reason raw_payload)

  unfoldable pub mark_withdrawal_failed_by_reference : String → String → Value → Act ⊤
  mark_withdrawal_failed_by_reference reference failure_reason raw_payload = do
    found ← find withdrawals (λ d. d.reference == reference)
    elim found [
      | none ↦ pure tt
      | some withdrawal ↦
          mark_withdrawal_failed_and_reverse withdrawal.id failure_reason (some raw_payload)
    ]
