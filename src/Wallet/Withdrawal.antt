-- ===== src/Wallet/Withdrawal.antt =====
-- Withdrawals in src/wallet/wallet.service.ts: the destination, the debit, the transfer, and what
-- undoes the debit.
pub mod Destination
pub mod Reversal
pub mod Balance
pub mod Debited
pub mod Race
pub mod Twice
use oyana_backend.Base.{
  ℕ, String, Bool, true, false, not, ◌&&◌, ◌||◌, Option, none, some, if◌then◌else◌, ⊤, ◌==◌,
  is_some, get_or, or_else, nat_eq,
}
use oyana_backend.Base.Int.{ℤ, pos, leb_ℤ, ltb_ℤ, ◌-ℤ◌}
use oyana_backend.Base.Text.{to_lower, show_ℕ}
use oyana_backend.Value.{
  Value, null, text, bool, object, end, field, read_string_from_idempotency_payload, show_ℤ,
}
use oyana_backend.Wallet.Schema.{
  WalletAccount, WalletTransaction, WalletWithdrawal, WithdrawalStatus, TransactionDirection,
  TransactionType, TransactionStatus,
}
use oyana_backend.Act.{
  Error, bad_request, not_found, conflict, forbidden, prisma, plain_error, Act, pure, throw,
  throw_if, or_throw, try_catch, transaction, find, create, update, ◌>>=◌, ◌>>◌,
}
use oyana_backend.Db.{wallets, transactions, withdrawals, bank_accounts}
use oyana_backend.Wallet.Paystack.{Env, TransferData, random_uuid, now, initiate_transfer}
use oyana_backend.Wallet.Account.{
  assert_phone_verified, get_or_create_wallet_account, generate_reference, normalize_currency,
  get_withdrawal_debit_reference,
}
use oyana_backend.Wallet.Idempotency.{with_idempotency}
use oyana_backend.Wallet.Finalize.{text_or_null}
use Destination.{
  BankDestination, get_saved_bank_withdrawal_destination, get_raw_bank_withdrawal_destination,
  persist_saved_bank_account,
}
use Reversal.{mark_withdrawal_failed_and_reverse}

pub record CreateWalletWithdrawalInput : Type 0 where
  pub amount_minor : ℤ
  pub currency : Option String
  pub idempotency_key : String
  pub reason : Option String
  pub saved_bank_account_id : Option String
  pub bank_code : Option String
  pub account_number : Option String
  pub save_account : Bool

-- a text that is there and not empty
abbrev pub truthy : Option String → Option String
truthy none = none
truthy (some s) = if s == "" then none else some s

-- `error instanceof Error ? error.message`
abbrev pub message_of : (String → String) → Error → String
message_of prisma_message (bad_request m) = m
message_of prisma_message (forbidden m) = m
message_of prisma_message (not_found m) = m
message_of prisma_message (conflict m) = m
message_of prisma_message (plain_error m) = m
message_of prisma_message (prisma code) = prisma_message code

-- `transferResult.status?.toLowerCase() ?? 'processing'`
unfoldable pub normalized_transfer_status : Option String → String
normalized_transfer_status none = "processing"
normalized_transfer_status (some s) = to_lower s

abbrev pub withdrawal_row :
    String → String → String → String → ℤ → String → BankDestination → WalletWithdrawal
withdrawal_row id owner wallet_id reference amount currency destination = record {
  id = id;
  wallet_account_id = wallet_id;
  profile_id = owner;
  reference = reference;
  amount_minor = amount;
  currency = currency;
  status = WithdrawalStatus.processing;
  bank_code = some destination.bank_code;
  bank_name = some destination.bank_name;
  account_number_masked = some destination.account_number_masked;
  account_name = some destination.account_name;
  recipient_code = some destination.recipient_code;
  transfer_code = none;
  paystack_transfer_id = none;
  failure_reason = none;
  raw_init_response = null;
  raw_webhook = null;
  completed_at = none;
  failed_at = none;
  saved_bank_account_id = destination.saved_bank_account_id;
}

abbrev pub debit_row :
    String → WalletWithdrawal → Option String → BankDestination → WalletTransaction
debit_row id withdrawal reason destination = record {
  id = id;
  wallet_account_id = withdrawal.wallet_account_id;
  direction = TransactionDirection.debit;
  type = TransactionType.withdrawal;
  status = TransactionStatus.completed;
  amount_minor = withdrawal.amount_minor;
  currency = withdrawal.currency;
  reference = get_withdrawal_debit_reference withdrawal.id;
  related_payment_intent_id = none;
  metadata = object (
      field "reason" (text_or_null reason) (
        field "recipientCode" (text destination.recipient_code)
          (field "withdrawalId" (text withdrawal.id) end)));
}

-- `status === 'success' ? 'succeeded' : 'processing'`
abbrev pub status_after_transfer : String → WithdrawalStatus
status_after_transfer s =
    if s == "success" then WithdrawalStatus.succeeded else WithdrawalStatus.processing

-- `transferResult.id ? String(transferResult.id) : undefined`, where `undefined` keeps the column
abbrev pub transfer_id : Option ℕ → Option String → Option String
transfer_id none old = old
transfer_id (some n) old = if nat_eq n 0 then old else some (show_ℕ n)

unfoldable pub replay_withdrawal : String → Value → Act WalletWithdrawal
replay_withdrawal owner response = do
  id ←
      or_throw (read_string_from_idempotency_payload response "withdrawalId")
        (conflict "Withdrawal idempotency response is invalid")
  found ← find withdrawals (λ d. d.id == id && d.profile_id == owner)
  or_throw found (conflict "Unable to replay withdrawal request. Please use a new idempotency key.")

unfoldable pub withdrawal_payload : CreateWalletWithdrawalInput → String → Value
withdrawal_payload input currency = object (
    field "amountMinor" (text (show_ℤ input.amount_minor)) (
      field "currency" (text currency) (
        field "savedBankAccountId" (text_or_null input.saved_bank_account_id) (
          field "bankCode" (text_or_null input.bank_code) (
            field "accountNumber" (text_or_null input.account_number) (
              field "saveAccount" (bool input.save_account)
                (field "reason" (text_or_null input.reason) end)))))))

module _ (env : Env) where
  -- the debit and the new balance
  unfoldable pub debit_wallet : WalletWithdrawal → Option String → BankDestination → Act ⊤
  debit_wallet withdrawal reason destination = do
    id ← random_uuid env
    create transactions
        (λ t. t.id == id || t.reference == get_withdrawal_debit_reference withdrawal.id)
        (debit_row id withdrawal reason destination)
    update wallets (λ w. w.id == withdrawal.wallet_account_id)
        (λ w. record w { balance_minor = w.balance_minor -ℤ withdrawal.amount_minor })
    pure tt

  unfoldable pub touch_bank_account : Option String → Act ⊤
  touch_bank_account none = pure tt
  touch_bank_account (some id) = do
    time ← now env
    update bank_accounts (λ b. b.id == id) (λ b. record b { last_used_at = some time })
    pure tt

  -- after the check of the balance: the withdrawal and the debit
  unfoldable pub debit_covered :
      String → String → ℤ → String → Option String → BankDestination → Act WalletWithdrawal
  debit_covered owner wallet_id amount currency reason destination = do
    reference ← generate_reference env "WDR"
    id ← random_uuid env
    withdrawal ←
        create withdrawals (λ d. d.id == id || d.reference == reference)
          (withdrawal_row id owner wallet_id reference amount currency destination)
    debit_wallet withdrawal reason destination
    touch_bank_account destination.saved_bank_account_id
    pure withdrawal

  -- the body of the transaction
  unfoldable pub debit_in_transaction :
      String → String → ℤ → String → Option String → BankDestination → Act WalletWithdrawal
  debit_in_transaction owner wallet_id amount currency reason destination = do
    found ← find wallets (λ w. w.id == wallet_id)
    wallet ← or_throw found (not_found "Wallet not found")
    throw_if (ltb_ℤ wallet.balance_minor amount) (bad_request "Insufficient wallet balance")
    debit_covered owner wallet_id amount currency reason destination

  -- the account is saved where the client asks for it and it is not saved yet
  unfoldable pub save_destination :
      String → String → CreateWalletWithdrawalInput → BankDestination → Act (Option String)
  save_destination owner wallet_id input destination =
      if not (is_some (truthy destination.saved_bank_account_id))
        && input.save_account
        && destination.persistable
      then (do
        saved ← persist_saved_bank_account env owner wallet_id destination
        pure (some saved.id))
      else pure destination.saved_bank_account_id

  -- the row after the transfer was accepted
  unfoldable pub record_transfer :
      String → TransferData → String → Option String → Act WalletWithdrawal
  record_transfer id transfer status saved_id = do
    time ← now env
    update withdrawals (λ d. d.id == id)
        (λ d. record d {
          status = status_after_transfer status;
          completed_at = if status == "success" then some time else d.completed_at;
          transfer_code = or_else transfer.transfer_code d.transfer_code;
          paystack_transfer_id = transfer_id transfer.id d.paystack_transfer_id;
          raw_init_response = transfer.raw;
          saved_bank_account_id = or_else saved_id d.saved_bank_account_id;
        })

  -- the `try` around the transfer
  unfoldable pub send_transfer :
      String
      → String
      → CreateWalletWithdrawalInput
      → String
      → BankDestination
      → WalletWithdrawal
      → Act (WalletWithdrawal × Value)
  send_transfer owner wallet_id input currency destination withdrawal = do
    transfer ← initiate_transfer env (record {
      amount_minor = input.amount_minor;
      reference = withdrawal.reference;
      recipient_code = destination.recipient_code;
      reason = input.reason;
      currency = currency;
    })
    let status = normalized_transfer_status transfer.status
    if status == "failed" || status == "reversed"
        then (do
          mark_withdrawal_failed_and_reverse env withdrawal.id "Withdrawal transfer failed"
              (some transfer.raw)
          throw (bad_request "Withdrawal transfer failed"))
        else do
          saved_id ← save_destination owner wallet_id input destination
          updated ← record_transfer withdrawal.id transfer status saved_id
          pure (updated, object (field "withdrawalId" (text updated.id) end))

  -- the `catch` around the transfer
  unfoldable pub undo_withdrawal : WalletWithdrawal → Error → Act (WalletWithdrawal × Value)
  undo_withdrawal withdrawal e = do
    mark_withdrawal_failed_and_reverse env withdrawal.id (message_of env.prisma_message e) none
    throw e

  unfoldable pub find_destination :
      String → String → CreateWalletWithdrawalInput → String → Act BankDestination
  find_destination owner wallet_id input currency = elim (truthy input.saved_bank_account_id) [
    | some id ↦ get_saved_bank_withdrawal_destination owner wallet_id id
    | none ↦
        get_raw_bank_withdrawal_destination env (get_or input.bank_code "")
          (get_or input.account_number "") currency
  ]

  -- debit first, then the transfer
  unfoldable pub debit_and_send :
      String
      → String
      → CreateWalletWithdrawalInput
      → String
      → BankDestination
      → Act (WalletWithdrawal × Value)
  debit_and_send owner wallet_id input currency destination = do
    withdrawal ←
        transaction (
          debit_in_transaction owner wallet_id input.amount_minor currency input.reason destination)
    try_catch (send_transfer owner wallet_id input currency destination withdrawal)
        (undo_withdrawal withdrawal)

  -- with the wallet at hand
  unfoldable pub withdraw_from :
      String → CreateWalletWithdrawalInput → String → WalletAccount → Act (WalletWithdrawal × Value)
  withdraw_from owner input currency wallet = do
    destination ← find_destination owner wallet.id input currency
    debit_and_send owner wallet.id input currency destination

  -- the action under the idempotency key
  unfoldable pub withdraw :
      String → CreateWalletWithdrawalInput → String → Act (WalletWithdrawal × Value)
  withdraw owner input currency = do
    wallet ← get_or_create_wallet_account env owner
    withdraw_from owner input currency wallet

  unfoldable pub create_wallet_withdrawal :
      String → CreateWalletWithdrawalInput → Act WalletWithdrawal
  create_wallet_withdrawal owner input = do
    assert_phone_verified owner
    currency ← normalize_currency input.currency
    throw_if (leb_ℤ input.amount_minor (pos 0))
        (bad_request "Withdrawal amount must be greater than zero")
    throw_if
        (not (is_some (truthy input.saved_bank_account_id))
          && (not (is_some (truthy input.bank_code))
              || not (is_some (truthy input.account_number))))
        (bad_request "Provide a saved bank account or both bankCode and accountNumber")
    with_idempotency env owner "wallet_withdrawal_create" input.idempotency_key
        (withdrawal_payload input currency) (replay_withdrawal owner)
        (withdraw owner input currency)
