-- ===== src/Wallet/Tests/Money.antt =====
-- What moves between balances, at concrete inputs: a wallet with 50.00 and a payment of 20.00 that
-- is to be finalised, a withdrawal of 30.00 that is to be reversed.
use oyana_backend.Base.{false, ◌≡◌, refl, none, some, [], ◌∷◌}
use oyana_backend.Base.Int.{◌-ℤ◌, negsuc, pos}
use oyana_backend.Wallet.Ledger.Named.{count, credits, debits, repays}
use oyana_backend.Value.{get_field, Value, null, object, end, field, text, num}
use oyana_backend.Wallet.Schema.{
  WalletAccount, WalletTransaction, PaymentIntent, PaymentIntentStatus, WalletWithdrawal,
  WithdrawalStatus, TransactionDirection, TransactionType, TransactionStatus,
}
use oyana_backend.Act.{◌>>=◌, ask, create, update, World, Result, ok, err, transaction}
use oyana_backend.Act.Ends.{Whole}
use oyana_backend.Base.Text.{show_ℕ, take_chars, keep_chars}
use oyana_backend.Base.Table.{find_first, update_where}
use oyana_backend.Wallet.Finalize.{finalize_funding_intent, topup_row}
use oyana_backend.Wallet.Finalize.Credit.{finalize_funding_intent-IsSettled, IsSettled}
use oyana_backend.Wallet.Withdrawal.{
  debit_covered, debit_wallet, touch_bank_account, debit_in_transaction,
}
use oyana_backend.Wallet.Withdrawal.Destination.{BankDestination}
use oyana_backend.Wallet.Withdrawal.Reversal.{reversal_row, mark_withdrawal_failed_and_reverse}
use oyana_backend.Wallet.Withdrawal.Balance.{
  mark_withdrawal_failed_and_reverse-Whole, reversed_wallets,
}
use oyana_backend.Wallet.Withdrawal.Race.{Payout, Phase, Steps, writes, found_in, race-overdraws}
use oyana_backend.Wallet.Withdrawal.Debited.{debit_in_transaction-Whole, Holds, take_out}
use oyana_backend.Wallet.Account.{generate_reference, get_withdrawal_debit_reference}
use oyana_backend.Wallet.Paystack.{now, random_uuid}
use oyana_backend.Wallet.Tests.{paystack, opened}

abbrev wallet : WalletAccount
wallet = record {
  id = "w1";
  owner_profile_id = some "ada";
  currency = "NGN";
  balance_minor = pos 5000;
  escrow_minor = pos 0;
  status = "active";
}

abbrev intent : PaymentIntent
intent = record {
  id = "i1";
  wallet_account_id = "w1";
  provider = "paystack";
  amount_minor = pos 2000;
  currency = "NGN";
  status = PaymentIntentStatus.initialized;
  paystack_reference = some "WLF_1";
  authorization_url = none;
  raw_init_response = null;
  raw_webhook = null;
  confirmed_at = none;
}

abbrev payout_row : WalletWithdrawal
payout_row = record {
  id = "d1";
  wallet_account_id = "w1";
  profile_id = "ada";
  reference = "WDR_1";
  amount_minor = pos 3000;
  currency = "NGN";
  status = WithdrawalStatus.processing;
  bank_code = some "011";
  bank_name = none;
  account_number_masked = none;
  account_name = none;
  recipient_code = some "RCP_1";
  transfer_code = none;
  paystack_transfer_id = none;
  failure_reason = none;
  raw_init_response = null;
  raw_webhook = null;
  completed_at = none;
  failed_at = none;
  saved_bank_account_id = none;
}

abbrev debited : WalletTransaction
debited = record {
  id = "t1";
  wallet_account_id = "w1";
  direction = TransactionDirection.debit;
  type = TransactionType.withdrawal;
  status = TransactionStatus.completed;
  amount_minor = pos 3000;
  currency = "NGN";
  reference = "WLT_WITHDRAW_d1";
  related_payment_intent_id = none;
  metadata = null;
}

abbrev pub funded : World
funded = record opened {
  db = record (opened.db) {
    wallets = wallet ∷ [];
    intents = intent ∷ [];
    withdrawals = payout_row ∷ [];
    transactions = debited ∷ [];
  };
}

abbrev verified : Value
verified = object (field "status" (text "success") (field "amount" (num (pos 2000)) end))

finalize_funding_intent-IsSettled_example :
    Whole
      (IsSettled intent funded.db)
      funded.db
      (finalize_funding_intent paystack "i1" verified "webhook" funded)
unfolding find_first show_ℕ
finalize_funding_intent-IsSettled_example =
    finalize_funding_intent-IsSettled paystack intent verified "webhook" funded refl refl

mark_withdrawal_failed_and_reverse-Whole_example :
    Whole
      (λ u db. db.wallets ≡ reversed_wallets payout_row funded.db)
      funded.db
      (mark_withdrawal_failed_and_reverse paystack "d1" "declined" none funded)
unfolding find_first show_ℕ
mark_withdrawal_failed_and_reverse-Whole_example =
    mark_withdrawal_failed_and_reverse-Whole paystack payout_row "declined" none funded refl refl

abbrev destination : BankDestination
destination = record {
  bank_code = "011";
  bank_name = "First Bank";
  account_name = "ADA";
  account_number_masked = "******6789";
  recipient_code = "RCP_1";
  saved_bank_account_id = none;
  persistable = false;
}

debit_in_transaction-Whole_example :
    Whole
      (λ d db.
        Holds "w1" (pos 4000) funded.db.wallets
        × (db.wallets ≡ take_out "w1" (pos 4000) funded.db.wallets))
      funded.db
      (transaction
        (debit_in_transaction paystack "ada" "w1" (pos 4000) "NGN" none destination)
        funded)
debit_in_transaction-Whole_example =
    debit_in_transaction-Whole paystack "ada" "w1" (pos 4000) "NGN" none destination funded

-- two withdrawals from a balance of 50.00
abbrev forty : Payout
forty = record {
  owner = "ada";
  amount = pos 4000;
  currency = "NGN";
  reason = none;
  destination = destination;
}

abbrev thirty : Payout
thirty = record {
  owner = "ada";
  amount = pos 3000;
  currency = "NGN";
  reason = none;
  destination = destination;
}

abbrev row_of : Result WalletWithdrawal → WalletWithdrawal
row_of (ok d) = d
row_of (err e) = payout_row

abbrev once : World
once = (writes paystack "w1" forty funded).1

abbrev twice : World
twice = (writes paystack "w1" thirty once).1

abbrev row_1 : WalletWithdrawal
row_1 = row_of (writes paystack "w1" forty funded).0

abbrev row_2 : WalletWithdrawal
row_2 = row_of (writes paystack "w1" thirty once).0

writes_test :
    (writes paystack "w1" forty funded ≡ (ok row_1, once))
    × (writes paystack "w1" thirty once ≡ (ok row_2, twice))
unfolding debit_covered ◌>>=◌ generate_reference now ask random_uuid create show_ℕ take_chars
    keep_chars debit_wallet get_withdrawal_debit_reference update find_first touch_bank_account
    update_where
writes_test = (refl, refl)

race-overdraws_example :
    Steps paystack "w1" forty thirty funded Phase.started Phase.started twice
      (Phase.finished (ok row_1))
      (Phase.finished (ok row_2))
    × (found_in twice "w1" ≡ some (record wallet { balance_minor = negsuc 1999 }))
unfolding find_first ◌-ℤ◌
race-overdraws_example =
    race-overdraws paystack "w1" forty thirty funded once twice row_1 row_2 wallet refl refl refl
      writes_test.0 writes_test.1

-- what the rows of the service count as
each_counts :
    let ts =
      topup_row "t1" "webhook" intent ∷ reversal_row "t2" payout_row "failed_transfer" ∷ [] in
    (count (credits "i1") ts ≡ 1) × (count (debits "d1") ts ≡ 0) × (count (repays "d1") ts ≡ 1)
unfolding get_field
each_counts = (refl, refl, refl)
