-- ===== src/Wallet/Ledger/Payouts.antt =====
-- A withdrawal request keeps the wallet tables sound, whatever Paystack answers.
use oyana_backend.Base.{String, not, refl, Option, List, ◌∷◌, arith, ◌&&◌, ◌||◌, ◌==◌, is_some}
use oyana_backend.Base.Int.{pos, ◌≤ℤ◌, leb_ℤ}
use oyana_backend.Value.{Value}
use oyana_backend.Wallet.Schema.{WalletWithdrawal}
use oyana_backend.Db.{withdrawals}
use oyana_backend.Act.Keeps.{
  Keeps, keeps_rules, Keeps-bind, Keeps-bind_post, Keeps-try_catch, Keeps-find, Keeps-pure,
  Keeps-option, Keeps-if, Keeps-throw, Keeps-throw_if, Keeps-transaction,
}
use oyana_backend.Act.Writes.{Keeps-update_by}
use oyana_backend.Wallet.Paystack.{Env, TransferData}
use oyana_backend.Wallet.Withdrawal.{
  CreateWalletWithdrawalInput, create_wallet_withdrawal, withdraw, withdraw_from, truthy,
  normalized_transfer_status, debit_and_send, send_transfer, undo_withdrawal, find_destination,
  save_destination, record_transfer, replay_withdrawal,
}
use oyana_backend.Wallet.Withdrawal.Destination.{
  BankDestination, get_saved_bank_withdrawal_destination, get_raw_bank_withdrawal_destination,
  persist_saved_bank_account, lookup_bank_name,
}
use oyana_backend.Wallet.Ledger.Writes.{
  Fact, holds_wallet, Knows, withdrawals-Knows, Keeps-create_bank_account,
  Keeps-update_bank_account,
}
use oyana_backend.Wallet.Ledger.Accounts.{
  Keeps-random_uuid, Keeps-now, Keeps-assert_phone_verified, Keeps-normalize_currency,
  get_or_create_wallet_account-Triple, Keeps-get_supported_banks, Keeps-resolve_bank_account,
  Keeps-create_transfer_recipient, Keeps-initiate_transfer,
}
use oyana_backend.Wallet.Ledger.Withdrawal.{Keeps-mark_withdrawal_failed_and_reverse}
use oyana_backend.Wallet.Ledger.Debit.{Keeps-debit_in_transaction}
use oyana_backend.Wallet.Ledger.Keys.{Keeps-with_idempotency}
use oyana_backend.Wallet.Ledger.Deposits.{Keeps-guard}

module _ (ks : List Fact) (env : Env) where
  Keeps-get_saved :
      (owner k id : String) → Keeps (Knows ks) (get_saved_bank_withdrawal_destination owner k id)
  unfolding get_saved_bank_withdrawal_destination
  Keeps-get_saved owner k id = search keeps_rules

  Keeps-lookup_bank_name : (code : String) → Keeps (Knows ks) (lookup_bank_name env code)
  unfolding lookup_bank_name
  Keeps-lookup_bank_name code =
      Keeps-try_catch _ _ (Keeps-bind _ _ (Keeps-get_supported_banks _ env _) λ banks. Keeps-pure _)
        λ e. Keeps-pure _

  Keeps-get_raw :
      (code number currency : String)
      → Keeps (Knows ks) (get_raw_bank_withdrawal_destination env code number currency)
  unfolding get_raw_bank_withdrawal_destination
  Keeps-get_raw code number currency = Keeps-bind _ _ (Keeps-resolve_bank_account _ env _) λ name.
      Keeps-bind _ _ (Keeps-create_transfer_recipient _ env _)
        λ recipient. Keeps-bind _ _ (Keeps-lookup_bank_name code) λ bank. Keeps-pure _

  Keeps-persist :
      (owner k : String) (d : BankDestination)
      → Keeps (Knows ks) (persist_saved_bank_account env owner k d)
  unfolding persist_saved_bank_account
  Keeps-persist owner k d = Keeps-bind _ _ (Keeps-find _ _) λ existing.
      Keeps-bind _ _ (Keeps-now _ env) λ time.
        Keeps-option existing _ _
          (Keeps-bind _ _ (Keeps-random_uuid _ env) λ id. Keeps-create_bank_account ks _ _)
          (λ b. Keeps-update_bank_account ks _ _)

  Keeps-find_destination :
      (owner k : String) (input : CreateWalletWithdrawalInput) (currency : String)
      → Keeps (Knows ks) (find_destination env owner k input currency)
  unfolding find_destination
  Keeps-find_destination owner k input currency =
      Keeps-option (truthy input.saved_bank_account_id) _ _ (Keeps-get_raw _ _ currency)
        (Keeps-get_saved owner k)

  Keeps-save_destination :
      (owner k : String) (input : CreateWalletWithdrawalInput) (d : BankDestination)
      → Keeps (Knows ks) (save_destination env owner k input d)
  unfolding save_destination
  Keeps-save_destination owner k input d =
      Keeps-if
        (not (is_some (truthy d.saved_bank_account_id)) && input.save_account && d.persistable) _ _
        (Keeps-bind _ _ (Keeps-persist owner k d) λ b. Keeps-pure _) (Keeps-pure _)

  Keeps-record_transfer :
      (id : String) (t : TransferData) (status : String) (saved : Option String)
      → Keeps (Knows ks) (record_transfer env id t status saved)
  unfolding record_transfer
  Keeps-record_transfer id t status saved =
      Keeps-bind _ _ (Keeps-now _ env)
        λ time. Keeps-update_by withdrawals _ _ (withdrawals-Knows ks _ _ (λ d. refl) (λ d. refl))

  Keeps-send_transfer :
      (owner k : String) (input : CreateWalletWithdrawalInput) (currency : String)
      (d : BankDestination) (x : WalletWithdrawal)
      → Keeps (Knows ks) (send_transfer env owner k input currency d x)
  unfolding send_transfer
  Keeps-send_transfer owner k input currency d x =
      Keeps-bind _ _ (Keeps-initiate_transfer _ env _) λ t.
        let status = normalized_transfer_status t.status in
        Keeps-if (status == "failed" || status == "reversed") _ _
          (Keeps-bind _ _ (Keeps-mark_withdrawal_failed_and_reverse ks env _ _ _)
            λ u. Keeps-throw _)
          (Keeps-bind _ _ (Keeps-save_destination owner k input d)
            λ saved. Keeps-bind _ _ (Keeps-record_transfer x.id t status saved) λ y. Keeps-pure _)

  Keeps-debit_and_send :
      (owner k : String) (input : CreateWalletWithdrawalInput) (currency : String)
      (d : BankDestination)
      → pos 1 ≤ℤ input.amount_minor
      → Keeps (Knows ks) (debit_and_send env owner k input currency d)
  unfolding debit_and_send undo_withdrawal
  Keeps-debit_and_send owner k input currency d positive =
      Keeps-bind _ _
        (Keeps-transaction _
          (Keeps-debit_in_transaction ks env owner k _ currency input.reason d positive))
        λ x. Keeps-try_catch _ _ (Keeps-send_transfer owner k input currency d x) λ e.
          Keeps-bind _ _ (Keeps-mark_withdrawal_failed_and_reverse ks env _ _ _) λ u. Keeps-throw e

module _ (ks : List Fact) (env : Env) where
  Keeps-withdraw :
      (owner : String) (input : CreateWalletWithdrawalInput) (currency : String)
      → pos 1 ≤ℤ input.amount_minor
      → Keeps (Knows ks) (withdraw env owner input currency)
  unfolding withdraw withdraw_from
  Keeps-withdraw owner input currency positive =
      Keeps-bind_post _ _ _ (get_or_create_wallet_account-Triple ks env owner) λ a w h.
        let keeps =
          Keeps-bind _ _
            (Keeps-find_destination (holds_wallet a.id ∷ ks) env owner a.id input currency)
            λ d.
              Keeps-debit_and_send (holds_wallet a.id ∷ ks) env owner a.id input currency d
                positive in
        let h' = keeps.at w h in (h'.0, h'.1.1)

  Keeps-replay_withdrawal :
      (owner : String) (v : Value) → Keeps (Knows ks) (replay_withdrawal owner v)
  unfolding replay_withdrawal
  Keeps-replay_withdrawal owner v = search keeps_rules

  pub Keeps-create_wallet_withdrawal :
      (owner : String) (input : CreateWalletWithdrawalInput)
      → Keeps (Knows ks) (create_wallet_withdrawal env owner input)
  unfolding create_wallet_withdrawal
  Keeps-create_wallet_withdrawal owner input =
      Keeps-bind _ _ (Keeps-assert_phone_verified _ owner) λ u.
        Keeps-bind _ _ (Keeps-normalize_currency _ input.currency) λ currency.
          Keeps-guard ks env (leb_ℤ input.amount_minor (pos 0)) _ _ λ positive.
            Keeps-bind _ _ (Keeps-throw_if _ _) λ u.
              Keeps-with_idempotency ks env owner _ _ _ _ _ (Keeps-replay_withdrawal owner)
                (Keeps-withdraw owner input currency (ground arith))
